-- ===== src/Semantics/Tests.antt =====
-- Tests of continuity: a screen with two buttons, and the same screen with one more and another
-- action surface.
use androidctl.Prelude.{
  text_lt, ℕ, ◌≤◌, Text, text, text_eq, true, false, Option, none, some, arith, List, [], ◌∷◌, ◌≡◌,
  refl, length,
}
use androidctl.Prelude.Int.{abs_diff}
use androidctl.Prelude.Sort.{sort}
use androidctl.TextEquivalence.{canonical_text_key}
use androidctl.Models.Samples.{ascii, bounds, form}
use androidctl.Models.Snapshots.{RawSnapshot, last_for_rid}
use androidctl.Runtime.Samples.{snapshot}
use androidctl.Refs.Located.{OnSome}
use androidctl.Semantics.Labels.{parent_node_for}
use androidctl.Semantics.Compile.{compile}
use androidctl.Semantics.CompileEnds.{compile_ends}
use androidctl.Semantics.Grouped.{AllPlaced, compile-AllPlaced}
use androidctl.Semantics.Publish.{to_public_screen}
use androidctl.Semantics.Published.{Published, to_public_screen-Published}
use androidctl.Models.Semantic.{SemanticNode, CompiledScreen}
use androidctl.Models.Candidates.{ref_candidates, same_place}
use androidctl.Refs.Evidence.{
  identity_anchor_count, confidence_bucket, key_lt, key_eq, confidence_score, is_high_confidence,
  repair_gap_too_small,
}
use androidctl.Refs.Match.{
  best_candidate_for_binding, candidate_match_confidence, binding_for_candidate, evidence_for,
  scored_lt,
}
use androidctl.Refs.Reconcile.{remove}
use androidctl.Semantics.Continuity.{stable, source_candidates, evaluate_continuity}
use androidctl.Semantics.Repair.{evaluate_continuity-length}

abbrev button : Text → Text → ℕ → SemanticNode
button ref label n = record {
  raw_rid = label;
  role = text "button";
  label = label;
  state = [];
  actions = text "tap" ∷ [];
  bounds = bounds n;
  meta = record { resource_id = some (text "id/ok"); class_name = text "Button" };
  targetable = true;
  score = 100;
  group = text "targets";
  parent_role = text "list";
  parent_label = [];
  sibling_labels = [];
  relative_bounds = bounds n;
  scroll_directions = [];
  text_children = [];
  submit_target_keys = [];
  submit_relation_tokens = [];
  label_quality = 5;
  ref = ref;
  relation_anchor_rid = [];
  relation_window_id = [];
  relation_window_root_rid = none;
  relation_parent_rid = none;
  relation_ancestor_scopes = [];
}

abbrev screen : Text → List SemanticNode → CompiledScreen
screen f ns = record {
  screen_id = text "s1";
  sequence = 1;
  source_snapshot_id = 4;
  captured_at = text "12:00";
  package_name = none;
  activity_name = none;
  keyboard_visible = false;
  action_surface_fingerprint = f;
  blocking_group = none;
  targets_nodes = ns;
  context_nodes = [];
  dialog_nodes = [];
  keyboard_nodes = [];
  system_nodes = [];
}

abbrev before : CompiledScreen
before =
    screen (text "f")
      (button (text "n1") (text "Save") 2 ∷ button (text "n2") (text "Cancel") 3 ∷ [])

abbrev after : CompiledScreen
after =
    screen (text "g")
      (button [] (text "Help") 40 ∷ button [] (text "Save") 2 ∷ button [] (text "Cancel") 3 ∷ [])

judged_stable : (evaluate_continuity ascii (some before) after).continuity_status ≡ stable
unfolding evaluate_continuity text_eq ref_candidates best_candidate_for_binding sort
    candidate_match_confidence binding_for_candidate identity_anchor_count evidence_for
    canonical_text_key confidence_bucket abs_diff scored_lt key_lt text_lt confidence_score key_eq
    is_high_confidence repair_gap_too_small same_place remove
judged_stable = refl

judged_changed : (evaluate_continuity ascii (some before) after).changed ≡ some true
unfolding evaluate_continuity text_eq ref_candidates best_candidate_for_binding sort
    candidate_match_confidence binding_for_candidate identity_anchor_count evidence_for
    canonical_text_key confidence_bucket abs_diff scored_lt key_lt text_lt confidence_score key_eq
    is_high_confidence repair_gap_too_small same_place remove
judged_changed = refl

evaluate_continuity-length_example :
    (text_eq (text "g") (text "f") ≡ false)
    × (1 ≤ length (source_candidates before))
    × (length (source_candidates before) ≤ length (ref_candidates after))
    × ((evaluate_continuity ascii (some before) after).next_screen_id ≡ text "s1")
evaluate_continuity-length_example =
    evaluate_continuity-length ascii before after judged_stable judged_changed

abbrev form_snapshot : RawSnapshot
form_snapshot = record snapshot { nodes = form }

abbrev sent_screen : Option CompiledScreen
sent_screen = compile ascii length 3 1 form_snapshot

compile_ends_example : (s : CompiledScreen) × (sent_screen ≡ some s)
unfolding parent_node_for last_for_rid text_eq
compile_ends_example =
    compile_ends ascii form_snapshot length (tt, (omega arith, tt)) 3
      (omega arith, (omega arith, tt)) length 1

compile-AllPlaced_example : OnSome (AllPlaced ascii form_snapshot) sent_screen
compile-AllPlaced_example = compile-AllPlaced ascii form_snapshot length 3 1

to_public_screen-Published_example : Published before (to_public_screen ascii before)
to_public_screen-Published_example = to_public_screen-Published ascii before

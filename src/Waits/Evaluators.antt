-- ===== src/Waits/Evaluators.antt =====
-- The predicates of a wait: waits/evaluators.py and waits/matcher.py.
use androidctl.Prelude.{
  ℕ, ◌-◌, Text, text_eq, text_in, contains, opt_text_eq, nonempty, leb, Bool, true, false, ◌||◌,
  not, Option, none, some, List, [], ◌∷◌, ◌++◌, any, if◌then◌else◌,
}
use androidctl.TextEquivalence.{Unicode, canonical_text_key, searchable_raw_node_texts}
use androidctl.Models.Snapshots.{RawNode, RawSnapshot}
use androidctl.Models.Semantic.{targets, keyboard, system, context, dialog, CompiledScreen}
use androidctl.Models.Public.{PublicNodes, nil, cons, PublicScreen, node_ref, public_group_nodes}
use androidctl.Waits.AppTargets.{AppTargetMatch, match_app_target}
use androidctl.Waits.Signature.{ScreenSignature, compiled_screen_signature, signature_eq}

module _ (u : Unicode) where
  unfoldable pub text_candidates : List RawNode → List Text
  text_candidates [] = []
  text_candidates (n ∷ ns) =
      let rest = text_candidates ns in
      if n.visible_to_user then searchable_raw_node_texts u n ++ rest else rest

  -- The loop over the candidates; those that were seen before give no other answer.
  unfoldable pub any_contains : Text → List Text → List Text → Bool
  any_contains query seen [] = false
  any_contains query seen (v ∷ vs) =
      let candidate = canonical_text_key u (some v) in
      let skip = any_contains query seen vs in
      let next = any_contains query (candidate ∷ seen) vs in
      if not (nonempty candidate) || text_in candidate seen
      then skip
      else if contains query candidate
      then true
      else next

  unfoldable pub matches_text : RawSnapshot → Text → Bool
  unfolding text_candidates any_contains
  matches_text snapshot query =
      let normalized_query = canonical_text_key u (some query) in
      if not (nonempty normalized_query)
      then false
      else any_contains normalized_query [] (text_candidates snapshot.nodes)

-- `any(_node_has_ref(node, ref) for node in nodes)`; children are not looked at.
abbrev pub has_ref : Text → PublicNodes → Bool
has_ref ref nil = false
has_ref ref (cons n ns) = opt_text_eq (node_ref n) (some ref) || has_ref ref ns

unfoldable pub screen_contains_ref : PublicScreen → Text → Bool
unfolding public_group_nodes
screen_contains_ref s ref =
    any (λ name. has_ref ref (public_group_nodes s name))
      (targets ∷ context ∷ dialog ∷ keyboard ∷ system ∷ [])

pub record WaitReadyContext : Type 0 where
  pub snapshot : RawSnapshot
  pub public_screen : PublicScreen
  pub compiled_screen : Option CompiledScreen

pub record WaitIdleEvaluationState : Type 0 where
  pub idle_signature : Option ScreenSignature
  pub idle_stable_since : Option ℕ

abbrev pub no_idle_state : WaitIdleEvaluationState
no_idle_state = record { idle_signature = none; idle_stable_since = none }

pub data WaitEvaluationOutcome : Type 0 where
  wait_matched : RawSnapshot → Option AppTargetMatch → WaitEvaluationOutcome
  wait_no_match : WaitEvaluationOutcome
  wait_idle_tracking : WaitIdleEvaluationState → WaitEvaluationOutcome

pub data WaitPredicate : Type 0 where
  text_present : Text → WaitPredicate
  screen_change : Text → WaitPredicate
  gone : (source_screen_id ref : Text) → WaitPredicate
  app : Text → WaitPredicate
  idle : WaitPredicate

abbrev pub wait_idle_stable_window_ms : ℕ
wait_idle_stable_window_ms = 500

abbrev pub matched_if : Bool → RawSnapshot → WaitEvaluationOutcome
matched_if b snapshot = if b then wait_matched snapshot none else wait_no_match

abbrev pub same_signature : Option ScreenSignature → ScreenSignature → Bool
same_signature none s = false
same_signature (some t) s = signature_eq s t

abbrev pub stable_since : Option ℕ → ℕ → ℕ
stable_since none now = now
stable_since (some t) now = t

abbrev tracking : ScreenSignature → ℕ → WaitEvaluationOutcome
tracking s t = wait_idle_tracking (record { idle_signature = some s; idle_stable_since = some t })

module _ (u : Unicode) where
  unfoldable pub evaluate_idle_wait :
      RawSnapshot → Option CompiledScreen → WaitIdleEvaluationState → ℕ → WaitEvaluationOutcome
  evaluate_idle_wait snapshot none state now = wait_idle_tracking no_idle_state
  evaluate_idle_wait snapshot (some screen) state now =
      let current = compiled_screen_signature u screen in
      let since = stable_since state.idle_stable_since now in
      if same_signature state.idle_signature current
      then (if leb wait_idle_stable_window_ms (now - since)
          then wait_matched snapshot none
          else tracking current since)
      else tracking current now

  unfoldable pub evaluate_text_wait :
      Text → RawSnapshot → Option CompiledScreen → WaitEvaluationOutcome
  evaluate_text_wait query snapshot none = wait_no_match
  evaluate_text_wait query snapshot (some _) = matched_if (matches_text u snapshot query) snapshot

  abbrev pub app_outcome : Option AppTargetMatch → RawSnapshot → WaitEvaluationOutcome
  app_outcome none snapshot = wait_no_match
  app_outcome (some m) snapshot = wait_matched snapshot (some m)

  unfoldable pub evaluate_ready_wait_match :
      WaitPredicate → WaitReadyContext → WaitIdleEvaluationState → ℕ → WaitEvaluationOutcome
  unfolding evaluate_idle_wait evaluate_text_wait
  evaluate_ready_wait_match (text_present query) ready state now =
      evaluate_text_wait query ready.snapshot ready.compiled_screen
  evaluate_ready_wait_match (screen_change source) ready state now =
      matched_if (not (text_eq ready.public_screen.screen_id source)) ready.snapshot
  evaluate_ready_wait_match (gone _ ref) ready state now =
      matched_if (not (screen_contains_ref ready.public_screen ref)) ready.snapshot
  evaluate_ready_wait_match (app name) ready state now =
      app_outcome (match_app_target name ready.snapshot.package_name) ready.snapshot
  evaluate_ready_wait_match idle ready state now =
      evaluate_idle_wait ready.snapshot ready.compiled_screen state now

-- ===== src/Semantics/Compile.antt =====
-- `SemanticCompiler.compile` of semantics/compiler.py. The walks up the parents are on fuel; `none` is
-- a compilation that the fuel does not end.
use androidctl.Prelude.{
  ℕ, Text, text_eq, Bool, false, ◌&&◌, ◌||◌, not, any, Option, none, some, List, [], ◌∷◌, ◌++◌,
  keep_if, if◌then◌else◌,
}
use androidctl.Prelude.Sort.{sort}
use androidctl.TextEquivalence.{Unicode}
use androidctl.Models.Snapshots.{RawNode, RawSnapshot, last_for_rid}
use androidctl.Models.Semantic.{
  SemanticNode, CompiledScreen, GroupName, targets, keyboard, system, context, dialog,
}
use androidctl.Semantics.Targets.{select_target_sources, TargetSources}
use androidctl.Semantics.Groups.{
  GroupedNodes, group_text, resolve_blocking_group, apply_blocking_policy,
}
use androidctl.Semantics.Surface.{
  passive_node_dedup_key, DedupKey, dedup_key_eq, target_sort_lt, context_sort_lt,
  build_action_surface_fingerprint, stable_screen_id,
}
use androidctl.Semantics.CompileNode.{compile_node}
use androidctl.Semantics.SubmitRefs.{assign_submit_ref_relations}

-- `raw_node.rid in target_sources or raw_node.rid in promoted_source_rids`
abbrev pub is_target : TargetSources → Text → Bool
is_target [] rid = false
is_target ((a, s) ∷ rest) rid =
    text_eq a rid || (text_eq s rid && not (text_eq s a)) || is_target rest rid

abbrev pub dedup_key_seen : DedupKey → List DedupKey → Bool
dedup_key_seen k seen = any (dedup_key_eq k) seen

-- What the loop over the other nodes has so far: its nodes and `seen_passive_nodes`.
pub record Passive : Type 0 where
  pub compiled : List SemanticNode
  pub seen : List DedupKey

module _ (u : Unicode) where
  abbrev pub add_keyed : Option DedupKey → SemanticNode → Passive → Passive
  add_keyed none n st = record { compiled = st.compiled ++ n ∷ []; seen = st.seen }
  add_keyed (some k) n st =
      if dedup_key_seen k st.seen
      then st
      else record { compiled = st.compiled ++ n ∷ []; seen = k ∷ st.seen }

  abbrev pub add_passive : Option SemanticNode → Passive → Passive
  add_passive none st = st
  add_passive (some n) st = add_keyed (passive_node_dedup_key u n) n st

  -- The loop over the nodes that no target is shown as.
  unfoldable pub compile_passive :
      ℕ → RawSnapshot → TargetSources → List RawNode → Passive → Option Passive
  unfolding compile_node passive_node_dedup_key
  compile_passive fuel snapshot sources [] st = some st
  compile_passive fuel snapshot sources (n ∷ ns) st =
      let skipped = compile_passive fuel snapshot sources ns st in
      let taken : Option Passive = elim (compile_node u fuel snapshot n n) [
        | none ↦ none
        | some m ↦ compile_passive fuel snapshot sources ns (add_passive m st)
      ] in
      if is_target sources n.rid then skipped else taken

  abbrev pub compile_pair :
      ℕ → RawSnapshot → Option RawNode → Option RawNode → Option (Option SemanticNode)
  compile_pair fuel snapshot (some source) (some anchor) =
      compile_node u fuel snapshot source anchor
  compile_pair fuel snapshot _ _ = some none

  abbrev pub append_node : List SemanticNode → Option SemanticNode → List SemanticNode
  append_node ns none = ns
  append_node ns (some n) = ns ++ n ∷ []

  -- The loop over the targets.
  unfoldable pub compile_targets :
      ℕ → RawSnapshot → TargetSources → List SemanticNode → Option (List SemanticNode)
  unfolding compile_node last_for_rid
  compile_targets fuel snapshot [] compiled = some compiled
  compile_targets fuel snapshot ((a, s) ∷ rest) compiled =
      elim (compile_pair fuel snapshot (last_for_rid s snapshot.nodes)
        (last_for_rid a snapshot.nodes)) [
          | none ↦ none
          | some m ↦ compile_targets fuel snapshot rest (append_node compiled m)
        ]

  -- The nodes of a screen, before they are grouped.
  unfoldable pub semantic_nodes : ℕ → RawSnapshot → Option (List SemanticNode)
  unfolding select_target_sources compile_passive compile_targets
  semantic_nodes fuel snapshot = elim (select_target_sources u fuel snapshot.nodes) [
    | none ↦ none
    | some sources ↦
        elim (compile_passive fuel snapshot sources snapshot.nodes
          (record { compiled = []; seen = [] })) [
            | none ↦ none
            | some st ↦ compile_targets fuel snapshot sources st.compiled
          ]
  ]

  abbrev pub sort_lt : GroupName → SemanticNode → SemanticNode → Bool
  sort_lt context = context_sort_lt u
  sort_lt _ = target_sort_lt u

  -- The nodes by their groups, in order.
  unfoldable pub grouped_nodes : List SemanticNode → GroupedNodes
  unfolding target_sort_lt context_sort_lt
  grouped_nodes ns name = sort (sort_lt name) (keep_if (λ n. text_eq n.group (group_text name)) ns)

  -- The screen of grouped nodes.
  unfoldable pub compiled_screen :
      (Text → ℕ) → ℕ → RawSnapshot → Option GroupName → GroupedNodes → CompiledScreen
  unfolding build_action_surface_fingerprint stable_screen_id
  compiled_screen digest sequence snapshot blocking g =
      let fingerprint = build_action_surface_fingerprint u snapshot g blocking in
      record {
        screen_id = stable_screen_id digest fingerprint;
        sequence = sequence;
        source_snapshot_id = snapshot.snapshot_id;
        captured_at = snapshot.captured_at;
        package_name = snapshot.package_name;
        activity_name = snapshot.activity_name;
        keyboard_visible = snapshot.ime.visible;
        action_surface_fingerprint = fingerprint;
        blocking_group = blocking;
        targets_nodes = g targets;
        context_nodes = g context;
        dialog_nodes = g dialog;
        keyboard_nodes = g keyboard;
        system_nodes = g system;
      }

  -- The groups after the blocking policy and the submit relations.
  unfoldable pub related_groups : RawSnapshot → GroupedNodes → GroupedNodes
  unfolding resolve_blocking_group apply_blocking_policy assign_submit_ref_relations
  related_groups snapshot g =
      let blocking = resolve_blocking_group snapshot g in
      assign_submit_ref_relations u (apply_blocking_policy g blocking) blocking

  -- `SemanticCompiler.compile`
  unfoldable pub compile : (Text → ℕ) → ℕ → ℕ → RawSnapshot → Option CompiledScreen
  unfolding semantic_nodes grouped_nodes related_groups compiled_screen resolve_blocking_group
  compile digest fuel sequence snapshot = elim (semantic_nodes fuel snapshot) [
    | none ↦ none
    | some ns ↦
        let g = grouped_nodes ns in
        some (
          compiled_screen digest sequence snapshot (resolve_blocking_group snapshot g)
            (related_groups snapshot g))
  ]

-- ===== src/Semantics/Grouped.antt =====
-- The groups of a screen that `SemanticCompiler.compile` (semantics/compiler.py) gives.
use androidctl.Prelude.{
  ℕ, suc, ◌≤◌, length, Text, text_eq, text_eq→eq, nat_eq, text, text_eq_refl, Bool, Bool-cases,
  true, false, ◌||◌, Option, none, some, List, [], ◌∷◌, map, keep_if, keep_if-kept, All, All-map,
  All-zip, All-keep_if, All-mapped, ◌≡◌, ◌⊎◌, inl, inr, refl, subst, arith, by_if,
}
use androidctl.Prelude.Sort.{All-sort}
use androidctl.TextEquivalence.{Unicode}
use androidctl.Models.Snapshots.{RawSnapshot}
use androidctl.Models.Semantic.{
  SemanticNode, CompiledScreen, GroupName, targets, keyboard, system, context, dialog, group_nodes,
}
use androidctl.Refs.Located.{OnSome}
use androidctl.Semantics.Groups.{
  GroupedNodes, group_text, same_group, apply_blocking_policy, resolve_blocking_group,
  without_actions,
}
use androidctl.Semantics.SubmitRefs.{
  focused_inputs, submit_control_candidates, set_relation, related, relate_to, relate_source,
  relate_group, is_active, active_relation_groups, cleared, assign_submit_ref_relations,
}
use androidctl.Semantics.Compile.{
  sort_lt, grouped_nodes, related_groups, semantic_nodes, compiled_screen, compile,
}
use androidctl.Semantics.Sources.{Sourced, semantic_nodes-Sourced}

module _ (u : Unicode) (snapshot : RawSnapshot) where
  -- Whether the nodes of a group keep their actions.
  abbrev pub keeps_actions : Option GroupName → GroupName → Bool
  keeps_actions none name = true
  keeps_actions (some blocking) name = same_group name blocking

  abbrev Silenced : Option GroupName → GroupName → SemanticNode → Type 0
  Silenced blocking name n = (keeps_actions blocking name ≡ true) ⊎ (n.actions ≡ [])

  abbrev Grouped : GroupName → SemanticNode → Type 0
  Grouped name n = Sourced u snapshot n × (n.group ≡ group_text name)

  abbrev Policed : Option GroupName → GroupName → SemanticNode → Type 0
  Policed blocking name n = Grouped name n × Silenced blocking name n

  abbrev pub Placed : Option GroupName → GroupName → SemanticNode → Type 0
  Placed blocking name n = Policed blocking name n × (length n.submit_target_keys ≤ 1)

  nodes-Grouped :
      (ns : List SemanticNode) (name : GroupName)
      → All (Sourced u snapshot) ns
      → All (Grouped name) (grouped_nodes u ns name)
  unfolding grouped_nodes
  nodes-Grouped ns name h =
      let kept = keep_if (λ n. text_eq n.group (group_text name)) ns in
      All-sort (sort_lt u name) (Grouped name) kept (
        All-zip (Sourced u snapshot) (λ n. text_eq n.group (group_text name) ≡ true) (Grouped name)
          kept (λ n a b. (a, text_eq→eq n.group (group_text name) b)) (All-keep_if _ _ ns h)
          (keep_if-kept _ ns))

  -- The policy leaves the blocking group, and the context, whose nodes have no actions.
  context_silenced :
      (name : GroupName) (n : SemanticNode)
      → same_group name context ≡ true
      → Grouped name n
      → n.actions ≡ []
  context_silenced context n h k = elim k.0.3 [
    | inl other ↦
        let known = text_eq_refl (text "context") in
        let moved = subst (λ t. text_eq t (text "context") ≡ false) k.1 other in absurd cc
    | inr gone ↦ gone
  ]
  context_silenced targets n h k = absurd cc
  context_silenced keyboard n h k = absurd cc
  context_silenced system n h k = absurd cc
  context_silenced dialog n h k = absurd cc

  kept_actions :
      (blocking name : GroupName) (n : SemanticNode)
      → (same_group name context || same_group name blocking) ≡ true
      → Grouped name n
      → Silenced (some blocking) name n
  kept_actions blocking name n h k = elim (Bool-cases (same_group name blocking)) [
    | inl same ↦ inl same
    | inr other ↦ inr (context_silenced name n (ground arith) k)
  ]

  policy-Policed :
      (g : GroupedNodes) (blocking : Option GroupName) (name : GroupName)
      → All (Grouped name) (g name)
      → All (Policed blocking name) (apply_blocking_policy g blocking name)
  unfolding apply_blocking_policy
  policy-Policed g none name h = All-map _ _ (g name) (λ n k. (k, inl refl)) h
  policy-Policed g (some blocking) name h =
      by_if (All (Policed (some blocking) name))
        (same_group name context || same_group name blocking) _ _
        (λ same. All-map _ _ (g name) (λ n k. (k, kept_actions blocking name n same k)) h)
        (λ other.
          All-mapped _ _ without_actions (g name)
            (λ n k. (((k.0.0, k.0.1, k.0.2, inr refl), k.1), inr refl)) h)

  module _ (blocking : Option GroupName) (name : GroupName) where
    -- The node has no relation yet.
    abbrev Unrelated : SemanticNode → Type 0
    Unrelated n = Policed blocking name n × (n.submit_target_keys ≡ [])

    Unrelated-Placed : (n : SemanticNode) → Unrelated n → Placed blocking name n
    Unrelated-Placed n h = (h.0, ground (arith, h.1))

    set-Placed :
        (target : SemanticNode) (i k : ℕ) (ns : List SemanticNode)
        → All Unrelated ns
        → All (Placed blocking name) (set_relation u i (related u name target) k ns)
    set-Placed target i k [] h = tt
    set-Placed target i k (n ∷ ns) h =
        by_if (All (Placed blocking name)) (nat_eq k i) _ _
          (λ _. ((h.0.0, ground (arith, h.0.1)), set-Placed target i (suc k) ns h.1))
          (λ _. (Unrelated-Placed n h.0, set-Placed target i (suc k) ns h.1))

    all-Placed : (ns : List SemanticNode) → All Unrelated ns → All (Placed blocking name) ns
    all-Placed ns h = All-map _ _ ns Unrelated-Placed h

    to-Placed :
        (i : ℕ) (found ns : List SemanticNode)
        → All Unrelated ns
        → All (Placed blocking name) (relate_to u name i found ns)
    to-Placed i [] ns h = all-Placed ns h
    to-Placed i (target ∷ []) ns h = set-Placed target i 0 ns h
    to-Placed i (a ∷ b ∷ rest) ns h = all-Placed ns h

    source-Placed :
        (inputs : List (ℕ × SemanticNode)) (ns : List SemanticNode)
        → All Unrelated ns
        → All (Placed blocking name) (relate_source u name inputs ns)
    source-Placed [] ns h = all-Placed ns h
    source-Placed ((i, source) ∷ []) ns h =
        to-Placed i (submit_control_candidates u name i source 0 ns) ns h
    source-Placed (a ∷ b ∷ rest) ns h = all-Placed ns h

    related-Placed :
        (g : GroupedNodes)
        → All (Policed blocking name) (g name)
        → All (Placed blocking name) (assign_submit_ref_relations u g blocking name)
    unfolding assign_submit_ref_relations relate_group
    related-Placed g h =
        let clear : All Unrelated (map cleared (g name)) =
          All-mapped _ _ cleared (g name) (λ n k. (k, refl)) h in
        by_if (All (Placed blocking name)) (is_active u name (active_relation_groups blocking)) _ _
          (λ _.
            source-Placed (focused_inputs u 0 (map cleared (g name))) (map cleared (g name)) clear)
          (λ _. all-Placed (map cleared (g name)) clear)

  abbrev pub AllPlaced : CompiledScreen → Type 0
  AllPlaced s = (name : GroupName) → All (Placed s.blocking_group name) (group_nodes s name)

  groups-Placed :
      (ns : List SemanticNode) (name : GroupName)
      → All (Sourced u snapshot) ns
      → All
          (Placed (resolve_blocking_group snapshot (grouped_nodes u ns)) name)
          (related_groups u snapshot (grouped_nodes u ns) name)
  unfolding related_groups
  groups-Placed ns name h =
      let g = grouped_nodes u ns in
      let blocking = resolve_blocking_group snapshot g in
      related-Placed blocking name (apply_blocking_policy g blocking)
        (policy-Policed g blocking name (nodes-Grouped ns name h))

  screen-Placed :
      (digest : Text → ℕ) (sequence : ℕ) (ns : List SemanticNode)
      → All (Sourced u snapshot) ns
      → AllPlaced (
          compiled_screen u digest sequence snapshot
            (resolve_blocking_group snapshot (grouped_nodes u ns))
            (related_groups u snapshot (grouped_nodes u ns)))
  unfolding compiled_screen
  screen-Placed digest sequence ns h targets = groups-Placed ns targets h
  screen-Placed digest sequence ns h keyboard = groups-Placed ns keyboard h
  screen-Placed digest sequence ns h system = groups-Placed ns system h
  screen-Placed digest sequence ns h context = groups-Placed ns context h
  screen-Placed digest sequence ns h dialog = groups-Placed ns dialog h

  -- Each node of a compiled screen stands for a node of the snapshot and is labelled as a visible one,
  -- has no ref yet, stands in the group that it names, is related to one submit button at most, and
  -- has no actions where another group than its own blocks the screen.
  pub compile-AllPlaced :
      (digest : Text → ℕ) (fuel sequence : ℕ)
      → OnSome AllPlaced (compile u digest fuel sequence snapshot)
  unfolding compile
  compile-AllPlaced digest fuel sequence =
      (elim (semantic_nodes u fuel snapshot)
          as (λ o.
            OnSome (All (Sourced u snapshot)) o
            → OnSome AllPlaced (elim o [
              | none ↦ none
              | some ns ↦ some (
                  compiled_screen u digest sequence snapshot
                    (resolve_blocking_group snapshot (grouped_nodes u ns))
                    (related_groups u snapshot (grouped_nodes u ns)))
            ])) [ none ↦ λ h. tt | some ns ↦ λ h. screen-Placed digest sequence ns h ])
        (semantic_nodes-Sourced u snapshot fuel)

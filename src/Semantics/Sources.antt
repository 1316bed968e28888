-- ===== src/Semantics/Sources.antt =====
-- Where the nodes of `SemanticCompiler.compile` (semantics/compiler.py) come from.
use androidctl.Prelude.{
  ℕ, Text, text, text_eq, text_in, Bool, true, false, not, ◌&&◌, ◌||◌, Option, none, some, List, [],
  ◌∷◌, All, All-append-one, all-Among, Among, ◌≡◌, ◌⊎◌, inl, inr, refl, arith, if◌then◌else◌, by_if,
}
use androidctl.TextEquivalence.{Unicode}
use androidctl.Models.Snapshots.{RawNode, RawSnapshot, last_for_rid}
use androidctl.Models.Semantic.{SemanticNode, GroupName}
use androidctl.Refs.Located.{OnSome}
use androidctl.Semantics.Labels.{shown_label, label_info_of, parent_node_for}
use androidctl.Semantics.Targets.{TargetSources, select_target_sources}
use androidctl.Semantics.Roles.{truthy}
use androidctl.Semantics.Groups.{group_text}
use androidctl.Semantics.Surface.{
  DedupKey, passive_node_dedup_key, infer_group, in_ime_window, is_system_package,
}
use androidctl.Semantics.CompileNode.{
  scopes_above, should_filter_node, is_nonempty, group_in, parent_role_of, ime_window_id,
  semantic_node, compile_visible, compile_node,
}
use androidctl.Semantics.Compile.{
  Passive, is_target, dedup_key_seen, add_keyed, add_passive, compile_passive, compile_pair,
  append_node, compile_targets, semantic_nodes,
}
use androidctl.Semantics.Ends.{last_for_rid-Among}

-- What holds after a step that returns holds after the chain of it and the next.
chained {ℓ κ μ ν} :
    {A : Type ℓ} {B : Type κ} (P : A → Type μ) (Q : B → Type ν) (o : Option A) (f : A → Option B)
    → OnSome P o
    → ((a : A) → P a → OnSome Q (f a))
    → OnSome Q (elim o [ none ↦ none | some a ↦ f a ])
chained P Q none f h k = tt
chained P Q (some a) f h k = k a h

anything {ℓ} : {A : Type ℓ} (o : Option A) → OnSome {ℓ, 0} (λ _. Unit) o
anything none = tt
anything (some a) = tt

module _ (u : Unicode) (snapshot : RawSnapshot) where
  -- A node of the context has no actions.
  abbrev pub ContextIdle : SemanticNode → Type 0
  ContextIdle n = (text_eq n.group (text "context") ≡ false) ⊎ (n.actions ≡ [])

  -- The node stands for a node of the snapshot, is labelled as a visible one, has no ref yet, and no
  -- actions in the context.
  abbrev pub Sourced : SemanticNode → Type 0
  Sourced n =
      ((m : RawNode) × Among snapshot.nodes m × (m.rid ≡ n.raw_rid))
      × ((m : RawNode) × Among snapshot.nodes m
          × (m.visible_to_user ≡ true)
          × (n.label ≡ shown_label u snapshot.nodes m))
      × (n.ref ≡ [])
      × ContextIdle n

  no_actions : (actions : List Text) → is_nonempty u actions ≡ false → actions ≡ []
  no_actions [] h = refl
  no_actions (a ∷ rest) h = absurd cc

  -- The group of a node with actions is not the context.
  group-idle :
      (anchor : RawNode) (parent : Option RawNode) (role : Text) (targetable : Bool)
      → (text_eq (group_text (group_in u snapshot anchor parent role targetable)) (text "context")
          ≡ false)
        ⊎ (targetable ≡ false)
  unfolding infer_group text_eq
  group-idle anchor parent role targetable =
      let P : GroupName → Type 0 =
        λ name. (text_eq (group_text name) (text "context") ≡ false) ⊎ (targetable ≡ false) in
      by_if P (text_eq (parent_role_of u parent) (text "dialog")) _ _ (λ _. inl refl)
        (λ _.
          by_if P (text_eq role (text "dialog") || truthy anchor.pane_title) _ _ (λ _. inl refl)
            (λ _.
              by_if P
                (text_eq role (text "keyboard-key")
                  || in_ime_window u anchor (ime_window_id snapshot))
                _ _ (λ _. inl refl)
                (λ _.
                  by_if P (is_system_package u anchor.package_name) _ _ (λ _. inl refl)
                    (λ _. by_if P targetable _ _ (λ _. inl refl) (λ h. inr h)))))

  idle :
      (anchor : RawNode) (parent : Option RawNode) (role : Text) (actions : List Text)
      → (text_eq
            (group_text (group_in u snapshot anchor parent role (is_nonempty u actions)))
            (text "context")
          ≡ false)
        ⊎ (actions ≡ [])
  idle anchor parent role actions = elim (group-idle anchor parent role (is_nonempty u actions)) [
    | inl h ↦ inl h
    | inr h ↦ inr (no_actions actions h)
  ]

  abbrev Seen : RawNode → Type 0
  Seen = Among snapshot.nodes

  visible-Sourced :
      (fuel : ℕ) (n anchor : RawNode) (role : Text) (actions : List Text)
      → Seen n
      → Seen anchor
      → n.visible_to_user ≡ true
      → OnSome (OnSome Sourced) (compile_visible u fuel snapshot n anchor role actions)
  unfolding compile_visible semantic_node
  visible-Sourced fuel n anchor role actions h k v =
      let shown_role =
        if text_in (text "scroll") actions && text_eq role (text "container")
        then text "scroll-container"
        else role in
      let parent = parent_node_for snapshot.nodes n in
      by_if (OnSome (OnSome Sourced))
        (should_filter_node n shown_role (label_info_of u snapshot.nodes n.rid).label
          (is_nonempty u actions))
        _ _ (λ _. tt)
        (λ _.
          chained (λ _. Unit) (OnSome Sourced)
            (scopes_above fuel snapshot.windows snapshot.nodes []
              (parent_node_for snapshot.nodes anchor))
            _ (anything _)
            (λ s _.
              ((anchor, k, refl), (n, h, v, refl), refl, idle anchor parent shown_role actions)))

  node-Sourced :
      (fuel : ℕ) (n anchor : RawNode)
      → Seen n
      → Seen anchor
      → OnSome (OnSome Sourced) (compile_node u fuel snapshot n anchor)
  unfolding compile_node
  node-Sourced fuel n anchor h k =
      by_if (OnSome (OnSome Sourced)) (not n.visible_to_user) _ _ (λ _. tt)
        (λ v. visible-Sourced fuel n anchor _ _ h k (ground arith))

  keyed-Sourced :
      (key : Option DedupKey) (n : SemanticNode) (st : Passive)
      → Sourced n
      → All Sourced st.compiled
      → All Sourced (add_keyed u key n st).compiled
  keyed-Sourced none n st h k = All-append-one Sourced st.compiled n k h
  keyed-Sourced (some key) n st h k =
      by_if (λ (st : Passive). All Sourced st.compiled) (dedup_key_seen key st.seen) _ _ (λ _. k)
        (λ _. All-append-one Sourced st.compiled n k h)

  passive-step :
      (o : Option SemanticNode) (st : Passive)
      → OnSome Sourced o
      → All Sourced st.compiled
      → All Sourced (add_passive u o st).compiled
  passive-step none st h k = k
  passive-step (some n) st h k = keyed-Sourced (passive_node_dedup_key u n) n st h k

  passive-Sourced :
      (fuel : ℕ) (sources : TargetSources) (ns : List RawNode) (st : Passive)
      → All Seen ns
      → All Sourced st.compiled
      → OnSome
          (λ (st : Passive). All Sourced st.compiled)
          (compile_passive u fuel snapshot sources ns st)
  unfolding compile_passive
  passive-Sourced fuel sources [] st h k = k
  passive-Sourced fuel sources (n ∷ ns) st h k =
      by_if (OnSome (λ (st : Passive). All Sourced st.compiled)) (is_target sources n.rid) _ _
        (λ _. passive-Sourced fuel sources ns st h.1 k)
        (λ _.
          chained (OnSome Sourced) (λ (st : Passive). All Sourced st.compiled) _ _
            (node-Sourced fuel n n h.0 h.0)
            (λ m d.
              passive-Sourced fuel sources ns (add_passive u m st) h.1 (passive-step m st d k)))

  pair-Sourced :
      (fuel : ℕ) (source anchor : Option RawNode)
      → OnSome Seen source
      → OnSome Seen anchor
      → OnSome (OnSome Sourced) (compile_pair u fuel snapshot source anchor)
  pair-Sourced fuel (some s) (some a) h k = node-Sourced fuel s a h k
  pair-Sourced fuel (some s) none h k = tt
  pair-Sourced fuel none a h k = tt

  appended :
      (ns : List SemanticNode) (o : Option SemanticNode)
      → All Sourced ns
      → OnSome Sourced o
      → All Sourced (append_node u ns o)
  appended ns none h k = h
  appended ns (some n) h k = All-append-one Sourced ns n h k

  targets-Sourced :
      (fuel : ℕ) (sources : TargetSources) (compiled : List SemanticNode)
      → All Sourced compiled
      → OnSome (All Sourced) (compile_targets u fuel snapshot sources compiled)
  unfolding compile_targets
  targets-Sourced fuel [] compiled h = h
  targets-Sourced fuel ((a, s) ∷ rest) compiled h =
      chained (OnSome Sourced) (All Sourced) _ _
        (pair-Sourced fuel (last_for_rid s snapshot.nodes) (last_for_rid a snapshot.nodes)
          (last_for_rid-Among s snapshot.nodes) (last_for_rid-Among a snapshot.nodes))
        (λ m d. targets-Sourced fuel rest (append_node u compiled m) (appended compiled m h d))

  pub semantic_nodes-Sourced : (fuel : ℕ) → OnSome (All Sourced) (semantic_nodes u fuel snapshot)
  unfolding semantic_nodes
  semantic_nodes-Sourced fuel =
      chained (λ _. Unit) (All Sourced) (select_target_sources u fuel snapshot.nodes) _ (anything _)
        (λ sources _.
          chained (λ (st : Passive). All Sourced st.compiled) (All Sourced) _ _
            (passive-Sourced fuel sources snapshot.nodes (record { compiled = []; seen = [] })
              (all-Among snapshot.nodes) tt)
            (λ st d. targets-Sourced fuel sources st.compiled d))

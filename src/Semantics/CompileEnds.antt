-- ===== src/Semantics/CompileEnds.antt =====
-- `SemanticCompiler.compile` (semantics/compiler.py) comes to an end where the parents of the nodes do.
use androidctl.Prelude.{
  ℕ, ◌<◌, Text, text, text_eq, text_in, true, not, ◌&&◌, Option, none, some, is_some, List, [], ◌∷◌,
  All, All-zip, Among, all-Among, ◌≡◌, refl, arith, if◌then◌else◌, by_if,
}
use androidctl.TextEquivalence.{Unicode}
use androidctl.Models.Snapshots.{RawNode, RawSnapshot, last_for_rid}
use androidctl.Models.Semantic.{CompiledScreen, SemanticNode}
use androidctl.Refs.Located.{OnSome}
use androidctl.Semantics.Labels.{label_info_of, parent_node_for}
use androidctl.Semantics.Targets.{select_target_sources, TargetSources}
use androidctl.Semantics.CompileNode.{
  should_filter_node, is_nonempty, compile_visible, compile_node,
}
use androidctl.Semantics.Compile.{
  Passive, is_target, add_passive, compile_passive, compile_pair, append_node, compile_targets,
  semantic_nodes, compile,
}
use androidctl.Semantics.Ends.{
  chain, Acyclic, Below, parent-Under, found-Below, scopes-Ends, select_each-Ends,
}

returns {ℓ} : {A : Type ℓ} (o : Option A) → is_some o ≡ true → (a : A) × (o ≡ some a)
returns none h = absurd (ground arith)
returns (some a) h = (a, refl)

module _ (u : Unicode) (snapshot : RawSnapshot) (rank : Text → ℕ)
    (acyclic : Acyclic snapshot.nodes rank) (fuel : ℕ)
    (enough : All (λ n. rank n.rid < fuel) snapshot.nodes) where
  abbrev Within : RawNode → Type 0
  Within = Below snapshot.nodes rank fuel

  visible-Ends :
      (n anchor : RawNode) (role : Text) (actions : List Text)
      → Within anchor
      → is_some (compile_visible u fuel snapshot n anchor role actions) ≡ true
  unfolding compile_visible
  visible-Ends n anchor role actions h =
      by_if (λ (o : Option (Option SemanticNode)). is_some o ≡ true)
        (should_filter_node n
          (if text_in (text "scroll") actions && text_eq role (text "container")
            then text "scroll-container"
            else role)
          (label_info_of u snapshot.nodes n.rid).label (is_nonempty u actions))
        _ _ (λ _. refl)
        (λ _.
          chain _ _
            (scopes-Ends snapshot.nodes rank acyclic u fuel snapshot.windows []
              (parent_node_for snapshot.nodes anchor)
              (parent-Under snapshot.nodes rank acyclic fuel anchor h))
            (λ s e. refl))

  compile_node-Ends :
      (n anchor : RawNode) → Within anchor → is_some (compile_node u fuel snapshot n anchor) ≡ true
  unfolding compile_node
  compile_node-Ends n anchor h =
      by_if (λ (o : Option (Option SemanticNode)). is_some o ≡ true) (not n.visible_to_user) _ _
        (λ _. refl) (λ _. visible-Ends n anchor _ _ h)

  passive-Ends :
      (sources : TargetSources) (ns : List RawNode) (st : Passive)
      → All Within ns
      → is_some (compile_passive u fuel snapshot sources ns st) ≡ true
  unfolding compile_passive
  passive-Ends sources [] st h = refl
  passive-Ends sources (n ∷ ns) st h =
      by_if (λ (o : Option Passive). is_some o ≡ true) (is_target sources n.rid) _ _
        (λ _. passive-Ends sources ns st h.1)
        (λ _.
          chain _ _ (compile_node-Ends n n h.0)
            (λ m e. passive-Ends sources ns (add_passive u m st) h.1))

  pair-Ends :
      (source anchor : Option RawNode)
      → OnSome Within anchor
      → is_some (compile_pair u fuel snapshot source anchor) ≡ true
  pair-Ends (some s) (some a) h = compile_node-Ends s a h
  pair-Ends (some s) none h = refl
  pair-Ends none a h = refl

  targets-Ends :
      (sources : TargetSources) (compiled : List SemanticNode)
      → is_some (compile_targets u fuel snapshot sources compiled) ≡ true
  unfolding compile_targets
  targets-Ends [] compiled = refl
  targets-Ends ((a, s) ∷ rest) compiled =
      chain _ _
        (pair-Ends (last_for_rid s snapshot.nodes) (last_for_rid a snapshot.nodes)
          (found-Below snapshot.nodes rank acyclic u fuel enough a))
        (λ m e. targets-Ends rest (append_node u compiled m))

  all-Within :
      (ns : List RawNode)
      → All (Among snapshot.nodes) ns
      → All (λ n. rank n.rid < fuel) ns
      → All Within ns
  all-Within ns a b = All-zip _ _ _ ns (λ n h k. (h, k)) a b

  semantic_nodes-Ends : is_some (semantic_nodes u fuel snapshot) ≡ true
  unfolding semantic_nodes select_target_sources
  semantic_nodes-Ends =
      let within = all-Within snapshot.nodes (all-Among snapshot.nodes) enough in
      chain _ _
        (select_each-Ends snapshot.nodes rank acyclic u fuel enough snapshot.nodes [] within)
        (λ sources e.
          chain _ _
            (passive-Ends sources snapshot.nodes (record { compiled = []; seen = [] }) within)
            (λ st e'. targets-Ends sources st.compiled))

  -- Where each node's parent has a lower rank than the node, and the fuel is above all ranks, compiling
  -- the snapshot gives a screen.
  pub compile_ends :
      (digest : Text → ℕ) (sequence : ℕ)
      → (s : CompiledScreen) × (compile u digest fuel sequence snapshot ≡ some s)
  unfolding compile
  compile_ends digest sequence =
      returns (compile u digest fuel sequence snapshot)
        (chain _ _ semantic_nodes-Ends (λ ns e. refl))

-- ===== src/Semantics/Published.antt =====
-- What a public screen shows of a compiled one (`to_public_screen` of semantics/compiler.py).
use androidctl.Prelude.{
  length, Text, text, text_eq, nonempty, not, ◌||◌, Option, none, some, List, [], ◌∷◌, map, keep_if,
  All, All-append, all-Among, All-map, Among, ◌≡◌, refl, sym, subst, if◌then◌else◌, by_if,
}
use androidctl.TextEquivalence.{Unicode}
use androidctl.Models.Errors.{Raised, returned, and_then}
use androidctl.Models.Semantic.{
  SemanticNode, CompiledScreen, GroupName, targets, keyboard, system, context, dialog, group_nodes,
}
use androidctl.Models.Public.{
  PublicNode, PublicNodes, nil, cons, PublicGroup, PublicScreen, node_ref, node_role, node_actions,
  node_submit_refs, nodes_of_group, public_group_nodes,
}
use androidctl.Refs.Located.{OnSome}
use androidctl.Semantics.Surface.{node_to_public_node}
use androidctl.Semantics.Publish.{
  screen_group_order, build_public_groups, nodes_by_group, nodes_in_order, public_nodes_for,
  to_public_screen, with_groups, only_ref, or_none, same_key, submit_relation_lookup_keys,
  matches_of, resolve_keys, submit_refs_of,
}

abbrev first_name : List PublicGroup → Option GroupName
first_name [] = none
first_name (g ∷ _) = some g.name

abbrev pub ref_of : SemanticNode → Option Text
ref_of n = if nonempty n.ref then some n.ref else none

module _ (s : CompiledScreen) where
  -- A node of the screen, in some group.
  abbrev pub InScreen : SemanticNode → Type 0
  InScreen n = (name : GroupName) × Among (group_nodes s name) n

  -- The ref of a node of the screen.
  abbrev pub IsRef : Text → Type 0
  IsRef ref = (n : SemanticNode) × InScreen n × (ref_of n ≡ some ref)

  -- The public node is that of the compiled one.
  abbrev pub Shows : SemanticNode → PublicNode → Type 0
  Shows n p =
      (node_role p ≡ n.role)
      × (node_ref p ≡ ref_of n)
      × (node_actions p ≡ n.actions)
      × All IsRef (node_submit_refs p)

  abbrev pub ShowsAll : List SemanticNode → PublicNodes → Type 0
  ShowsAll [] nil = Unit
  ShowsAll (n ∷ ns) (cons p ps) = Shows n p × ShowsAll ns ps
  ShowsAll _ _ = ⊥

  abbrev pub Published : Raised PublicScreen → Type 0
  Published (returned p) =
      (length p.groups ≡ 5)
      × OnSome (λ b. first_name p.groups ≡ some b) s.blocking_group
      × ((name : GroupName) → ShowsAll (group_nodes s name) (public_group_nodes p name))
  Published _ = ⊥

  in_order-InScreen : (order : List GroupName) → All InScreen (nodes_in_order s order)
  in_order-InScreen [] = tt
  in_order-InScreen (name ∷ names) =
      All-append InScreen (group_nodes s name) (nodes_in_order s names)
        (All-map (Among (group_nodes s name)) InScreen (group_nodes s name) (λ n h. (name, h))
          (all-Among (group_nodes s name)))
        (in_order-InScreen names)

  all_same :
      (n : SemanticNode) (keys : List (Text × Text)) → InScreen n → All InScreen (map (λ _. n) keys)
  all_same n [] h = tt
  all_same n (k ∷ ks) h = (h, all_same n ks h)

  module _ (u : Unicode) where
    matches-InScreen :
        (key : Text × Text) (ns : List SemanticNode)
        → All InScreen ns
        → All InScreen (matches_of u key ns)
    unfolding matches_of
    matches-InScreen key [] h = tt
    matches-InScreen key (n ∷ ns) h =
        let found = keep_if (same_key u key) (submit_relation_lookup_keys u n) in
        All-append InScreen (map (λ _. n) found) (matches_of u key ns) (all_same n found h.0)
          (matches-InScreen key ns h.1)

    only-IsRef : (ns : List SemanticNode) → All InScreen ns → OnSome IsRef (only_ref u ns)
    only-IsRef [] h = tt
    only-IsRef (n ∷ []) h =
        by_if (λ o. ref_of n ≡ o → OnSome IsRef o) (nonempty n.ref) (some n.ref) none
          (λ _ e. (n, h.0, e)) (λ _ _. tt) refl
    only-IsRef (a ∷ b ∷ rest) h = tt

    keys-IsRef :
        (ns : List SemanticNode) (keys : List (Text × Text))
        → All InScreen ns
        → OnSome (All IsRef) (resolve_keys u ns keys)
    unfolding resolve_keys
    keys-IsRef ns [] h = tt
    keys-IsRef ns (k ∷ ks) h =
        (elim (only_ref u (matches_of u k ns))
            as (λ o.
              OnSome IsRef o
              → OnSome (All IsRef) (elim o [
                | none ↦ none
                | some r ↦ elim (resolve_keys u ns ks) [ none ↦ none | some rs ↦ some (r ∷ rs) ]
              ])) [
                | none ↦ λ _. tt
                | some r ↦ λ first.
                    (elim (resolve_keys u ns ks)
                        as (λ o.
                          OnSome (All IsRef) o
                          → OnSome (All IsRef) (elim o [ none ↦ none | some rs ↦ some (r ∷ rs) ])) [
                            | none ↦ λ _. tt
                            | some rs ↦ λ rest. (first, rest)
                          ])
                      (keys-IsRef ns ks h)
              ])
          (only-IsRef (matches_of u k ns) (matches-InScreen k ns h))

    or_none-IsRef : (o : Option (List Text)) → OnSome (All IsRef) o → All IsRef (or_none u o)
    or_none-IsRef none h = tt
    or_none-IsRef (some refs) h = h

    refs-IsRef :
        (all : List SemanticNode) (n : SemanticNode)
        → All InScreen all
        → All IsRef (submit_refs_of u all n)
    unfolding submit_refs_of
    refs-IsRef all n h =
        by_if (All IsRef) (not (text_eq n.role (text "input")) || not (nonempty n.ref)) [] _
          (λ _. tt)
          (λ _.
            or_none-IsRef (resolve_keys u all n.submit_target_keys)
              (keys-IsRef all n.submit_target_keys h))

    shown-ShowsAll :
        (all ns : List SemanticNode) → All InScreen all → ShowsAll ns (public_nodes_for u all ns)
    unfolding public_nodes_for node_to_public_node
    shown-ShowsAll all [] h = tt
    shown-ShowsAll all (n ∷ ns) h =
        ((refl, refl, refl, refs-IsRef all n h), shown-ShowsAll all ns h)

every_group {ℓ} :
    (P : GroupName → Type ℓ)
    → P targets
    → P keyboard
    → P system
    → P context
    → P dialog
    → (name : GroupName) → P name
every_group P t k s c d targets = t
every_group P t k s c d keyboard = k
every_group P t k s c d system = s
every_group P t k s c d context = c
every_group P t k s c d dialog = d

-- The groups that are built, whatever group blocks.
module _ (t k s c d : PublicNodes) where
  abbrev BuiltIn : Option GroupName → List PublicGroup → Type 0
  BuiltIn blocking gs =
      (build_public_groups (screen_group_order blocking) t k s c d ≡ returned gs)
      × (length gs ≡ 5)
      × OnSome (λ b. first_name gs ≡ some b) blocking
      × ((name : GroupName) → nodes_of_group name gs ≡ some (nodes_by_group t k s c d name))

  abbrev groups_in : List GroupName → List PublicGroup
  groups_in order =
      map (λ name. record { name = name; nodes = nodes_by_group t k s c d name }) order

  built-BuiltIn :
      (blocking : Option GroupName) → BuiltIn blocking (groups_in (screen_group_order blocking))
  unfolding nodes_of_group screen_group_order build_public_groups
  built-BuiltIn none = (refl, refl, tt, every_group _ refl refl refl refl refl)
  built-BuiltIn (some targets) = (refl, refl, refl, every_group _ refl refl refl refl refl)
  built-BuiltIn (some keyboard) = (refl, refl, refl, every_group _ refl refl refl refl refl)
  built-BuiltIn (some system) = (refl, refl, refl, every_group _ refl refl refl refl refl)
  built-BuiltIn (some context) = (refl, refl, refl, every_group _ refl refl refl refl refl)
  built-BuiltIn (some dialog) = (refl, refl, refl, every_group _ refl refl refl refl refl)

module _ (u : Unicode) (s : CompiledScreen) where
  abbrev all_nodes : List SemanticNode
  all_nodes = nodes_in_order s (screen_group_order s.blocking_group)

  abbrev published : List SemanticNode → PublicNodes
  published ns = public_nodes_for u all_nodes ns

  abbrev screen_groups : List PublicGroup
  screen_groups =
      groups_in (published s.targets_nodes) (published s.keyboard_nodes) (published s.system_nodes)
        (published s.context_nodes) (published s.dialog_nodes) (screen_group_order s.blocking_group)

  screen-BuiltIn :
      BuiltIn
        (published s.targets_nodes)
        (published s.keyboard_nodes)
        (published s.system_nodes)
        (published s.context_nodes)
        (published s.dialog_nodes)
        s.blocking_group
        screen_groups
  screen-BuiltIn =
      built-BuiltIn (published s.targets_nodes) (published s.keyboard_nodes)
        (published s.system_nodes) (published s.context_nodes) (published s.dialog_nodes)
        s.blocking_group

  group-ShowsAll :
      (name : GroupName)
      → ShowsAll s (group_nodes s name) (
          nodes_by_group
            (published s.targets_nodes)
            (published s.keyboard_nodes)
            (published s.system_nodes)
            (published s.context_nodes)
            (published s.dialog_nodes)
            name)
  group-ShowsAll =
      let shows : (ns : List SemanticNode) → ShowsAll s ns (published ns) = λ ns.
        shown-ShowsAll s u all_nodes ns
          (in_order-InScreen s (screen_group_order s.blocking_group)) in
      every_group _ (shows s.targets_nodes) (shows s.keyboard_nodes) (shows s.system_nodes)
        (shows s.context_nodes) (shows s.dialog_nodes)

  looked_up :
      (name : GroupName) (o : Option PublicNodes) (ps : PublicNodes)
      → o ≡ some ps
      → ShowsAll s (group_nodes s name) ps
      → ShowsAll s (group_nodes s name) (elim o [ none ↦ nil | some ns ↦ ns ])
  looked_up name none ps e h = absurd cc
  looked_up name (some ns) ps e h =
      let same : ps ≡ ns = cc in subst (ShowsAll s (group_nodes s name)) same h

  -- Whatever group blocks a compiled screen, the order of its groups does not make
  -- `build_public_groups` raise. The public screen, before the contract's validators, has five groups,
  -- the one that blocks first; each group has a public node for each node of the compiled group, in
  -- order, with its role, actions and ref, where it has one; and the submit refs of a public node are
  -- refs of nodes of the compiled screen.
  pub to_public_screen-Published : Published s (to_public_screen u s)
  unfolding to_public_screen public_group_nodes
  to_public_screen-Published =
      let built = screen-BuiltIn in
      subst (λ x. Published s (and_then x (λ groups. returned (with_groups u s groups))))
        (sym built.0)
        (
          built.1,
          built.2,
          λ name.
              looked_up name (nodes_of_group name screen_groups) _ (built.3 name)
                (group-ShowsAll name),
        )

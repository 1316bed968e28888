-- ===== src/Semantics/Ends.antt =====
-- The walks up the parents in semantics/targets.py and semantics/compiler.py end where the chains of
-- parents do.
use androidctl.Prelude.{
  ℕ, zero, suc, ◌<◌, Text, text_eq, true, false, Option, none, some, is_some, List, [], ◌∷◌, All,
  All-at, Among, Among-later, ◌≡◌, refl, arith, if◌then◌else◌,
}
use androidctl.TextEquivalence.{Unicode}
use androidctl.Models.Snapshots.{RawWindow, RawNode, last_for_rid}
use androidctl.Refs.Located.{OnSome}
use androidctl.Semantics.Labels.{parent_node_for}
use androidctl.Semantics.Targets.{
  actionability, can_promote_to_actionable_ancestor, anchor_above, actionable_anchor_for,
  ancestor_distance, target_source_sort_key, better_source, select_for, select_each, TargetSources,
  existing_node, source_for,
}
use androidctl.Semantics.CompileNode.{scopes_above}

-- A chain of two steps returns where both do.
pub chain {ℓ κ} :
    {A : Type ℓ} {B : Type κ} (o : Option A) (f : A → Option B)
    → is_some o ≡ true
    → ((a : A) → o ≡ some a → is_some (f a) ≡ true)
    → is_some (elim o [ none ↦ none | some a ↦ f a ]) ≡ true
chain none f h k = h
chain (some a) f h k = k a refl

pub last_for_rid-Among : (rid : Text) (ns : List RawNode) → OnSome (Among ns) (last_for_rid rid ns)
unfolding last_for_rid
last_for_rid-Among rid [] = tt
last_for_rid-Among rid (n ∷ ns) =
    (elim (last_for_rid rid ns)
        as (λ o.
          OnSome (Among ns) o
          → OnSome (Among (n ∷ ns))
              (elim o [ some m ↦ some m | none ↦ if text_eq n.rid rid then some n else none ])) [
                | some m ↦ λ h. Among-later n ns m h
                | none ↦ λ h.
                    (elim (text_eq n.rid rid)
                      as (λ b. OnSome (Among (n ∷ ns)) (if b then some n else none)) [
                        | true ↦ (0, refl)
                        | false ↦ tt
                      ])
              ])
      (last_for_rid-Among rid ns)

module _ (nodes : List RawNode) (rank : Text → ℕ) where
  -- Each node's parent has a lower rank.
  abbrev pub Acyclic : Type 0
  Acyclic = All (λ n. OnSome (λ p. rank p.rid < rank n.rid) (parent_node_for nodes n)) nodes

  -- A node of the snapshot, of a rank below the fuel.
  abbrev pub Below : ℕ → RawNode → Type 0
  Below fuel n = Among nodes n × (rank n.rid < fuel)

  pub parent-Among : (n : RawNode) → OnSome (Among nodes) (parent_node_for nodes n)
  unfolding parent_node_for
  parent-Among n =
      elim n.parent_rid
        as (λ o.
          OnSome (Among nodes) (elim o [ none ↦ none | some rid ↦ last_for_rid rid nodes ])) [
            | none ↦ tt
            | some rid ↦ last_for_rid-Among rid nodes
          ]

  module _ (acyclic : Acyclic) where
    parent-Below :
        (fuel : ℕ) (n : RawNode)
        → Below (suc fuel) n
        → OnSome (Below fuel) (parent_node_for nodes n)
    parent-Below fuel n h =
        (elim (parent_node_for nodes n)
            as (λ o.
              OnSome (Among nodes) o
              → OnSome (λ p. rank p.rid < rank n.rid) o
              → OnSome (Below fuel) o) [ none ↦ λ a b. tt | some p ↦ λ a b. (a, omega arith) ])
          (parent-Among n) (All-at _ nodes n acyclic h.0)

    pub parent-Under :
        (fuel : ℕ) (n : RawNode) → Below fuel n → OnSome (Below fuel) (parent_node_for nodes n)
    parent-Under fuel n h =
        (elim (parent_node_for nodes n)
            as (λ o. OnSome (Below (rank n.rid)) o → OnSome (Below fuel) o) [
              | none ↦ λ k. tt
              | some p ↦ λ k. (k.0, omega (arith, h.1, k.1))
            ])
          (parent-Below (rank n.rid) n (h.0, omega arith))

    module _ (u : Unicode) where
      above-Ends :
          (fuel : ℕ) (n : RawNode) (o : Option RawNode)
          → OnSome (Below fuel) o
          → is_some (anchor_above u fuel nodes n o) ≡ true
      unfolding anchor_above
      above-Ends fuel n none h = refl
      above-Ends zero n (some c) h = absurd (omega (arith, h.1))
      above-Ends (suc fuel) n (some c) h =
          elim (actionability u nodes c.rid)
            as (λ a.
              is_some (elim a [
                | [] ↦ anchor_above u fuel nodes n (parent_node_for nodes c)
                | a ∷ rest ↦
                    some
                      (if can_promote_to_actionable_ancestor u n (a ∷ rest) then some c else none)
              ])
              ≡ true) [
                | [] ↦ above-Ends fuel n (parent_node_for nodes c) (parent-Below fuel c h)
                | _ ∷ _ ↦ refl
              ]

      distance-Ends :
          (fuel : ℕ) (rid : Text) (o : Option RawNode)
          → OnSome (Below fuel) o
          → is_some (ancestor_distance fuel nodes rid o) ≡ true
      unfolding ancestor_distance
      distance-Ends fuel rid none h = refl
      distance-Ends zero rid (some c) h = absurd (omega (arith, h.1))
      distance-Ends (suc fuel) rid (some c) h =
          ground (arith, distance-Ends fuel rid (parent_node_for nodes c) (parent-Below fuel c h))

      pub scopes-Ends :
          (fuel : ℕ) (windows : List RawWindow) (seen : List Text) (o : Option RawNode)
          → OnSome (Below fuel) o
          → is_some (scopes_above fuel windows nodes seen o) ≡ true
      unfolding scopes_above
      scopes-Ends fuel windows seen none h = refl
      scopes-Ends zero windows seen (some c) h = absurd (omega (arith, h.1))
      scopes-Ends (suc fuel) windows seen (some c) h = ground (
        arith,
        scopes-Ends fuel windows (c.rid ∷ seen) (parent_node_for nodes c) (parent-Below fuel c h),
      )

      anchor-Ends :
          (fuel : ℕ) (n : RawNode)
          → Below fuel n
          → is_some (actionable_anchor_for u fuel nodes n) ≡ true
      unfolding actionable_anchor_for
      anchor-Ends fuel n h =
          elim (actionability u nodes n.rid)
            as (λ a.
              is_some (elim a [
                | [] ↦ anchor_above u fuel nodes n (parent_node_for nodes n)
                | _ ∷ _ ↦ some (some n)
              ])
              ≡ true) [
                | [] ↦ above-Ends fuel n (parent_node_for nodes n) (parent-Under fuel n h)
                | _ ∷ _ ↦ refl
              ]

      key-Ends :
          (fuel : ℕ) (n : RawNode) (anchor : Text)
          → Below fuel n
          → is_some (target_source_sort_key u fuel nodes n anchor) ≡ true
      unfolding target_source_sort_key
      key-Ends fuel n anchor h = chain _ _ (distance-Ends fuel anchor (some n) h) (λ d e. refl)

      better-Ends :
          (fuel : ℕ) (anchor : Text) (o : Option RawNode) (n : RawNode)
          → OnSome (Below fuel) o
          → Below fuel n
          → is_some (better_source u fuel nodes anchor o n) ≡ true
      unfolding better_source
      better-Ends fuel anchor none n h k = refl
      better-Ends fuel anchor (some m) n h k =
          chain _ _ (key-Ends fuel m anchor h)
            (λ a e. chain _ _ (key-Ends fuel n anchor k) (λ b e'. refl))

      module _ (fuel : ℕ) (enough : All (λ n. rank n.rid < fuel) nodes) where
        pub found-Below : (rid : Text) → OnSome (Below fuel) (last_for_rid rid nodes)
        found-Below rid =
            (elim (last_for_rid rid nodes)
                as (λ o. OnSome (Among nodes) o → OnSome (Below fuel) o) [
                  | none ↦ λ h. tt
                  | some p ↦ λ h. (h, All-at _ nodes p enough h)
                ])
              (last_for_rid-Among rid nodes)

        existing-Below : (o : Option Text) → OnSome (Below fuel) (existing_node nodes o)
        existing-Below none = tt
        existing-Below (some rid) = found-Below rid

        select_for-Ends :
            (n : RawNode) (o : Option RawNode) (sources : TargetSources)
            → Below fuel n
            → is_some (select_for u fuel nodes n o sources) ≡ true
        unfolding select_for
        select_for-Ends n none sources h = refl
        select_for-Ends n (some anchor) sources h =
            chain _ _
              (better-Ends fuel anchor.rid (existing_node nodes (source_for sources anchor.rid)) n
                (existing-Below (source_for sources anchor.rid)) h)
              (λ b e. refl)

        pub select_each-Ends :
            (ns : List RawNode) (sources : TargetSources)
            → All (Below fuel) ns
            → is_some (select_each u fuel nodes ns sources) ≡ true
        unfolding select_each
        select_each-Ends [] sources h = refl
        select_each-Ends (n ∷ ns) sources h = chain _ _ (anchor-Ends fuel n h.0) (λ anchor e.
            chain _ _ (select_for-Ends n anchor sources h.0)
              (λ more e'. select_each-Ends ns more h.1))

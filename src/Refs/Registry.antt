-- ===== src/Refs/Registry.antt =====
-- What `RefRegistryBuilder.reconcile` of refs/service.py builds: a registry in which every candidate
-- of the screen is bound under a ref of its own.
use androidctl.Prelude.{
  ℕ, suc, Text, text_eq, text_eq_iff, text_in, nonempty, Distinct, true, false, Option, none, some,
  List, [], ◌∷◌, All, All-zip, Pairwise, ◌≡◌, refl, sym, arith, length, Bool-cases, inl, inr, subst,
}
use androidctl.Prelude.Sort.{All-sort, Pairwise-sort}
use androidctl.TextEquivalence.{Unicode}
use androidctl.Models.Semantic.{CompiledScreen}
use androidctl.Models.Candidates.{Candidate, same_place, ref_candidates}
use androidctl.Models.Refs.{RefBinding, RefRegistry, lookup_ref}
use androidctl.Refs.Match.{best_candidate_for_binding}
use androidctl.Refs.Names.{ref_name, next_free, next_free_is_unused}
use androidctl.Refs.Reconcile.{
  Naming, ref_of, remove, values, assign, reuse_refs, name_rest, known_bindings, reconcile,
}
use androidctl.Refs.Located.{
  Located, OnSome, same_node, best_candidate-OnSome, ref_candidates-Located,
}
use androidctl.Refs.Naming.{
  bound, keys_of, named, IsRegistry, Keyed, Known, Invariant, assign-Invariant,
}

abbrev Differ : RefBinding → RefBinding → Type 0
Differ a b = text_eq a.ref b.ref ≡ false

-- A known binding that can still be reused.
abbrev Free : List Text → RefBinding → Type 0
Free used b = (nonempty b.ref ≡ true) × (text_in b.ref used ≡ false)

remove-All :
    (P : Candidate → Type 0) (c : Candidate) (cs : List Candidate) → All P cs → All P (remove c cs)
unfolding remove
remove-All P c [] h = tt
remove-All P c (d ∷ ds) h =
    elim (same_place c.place d.place)
      as (λ b. All P (elim b [ true ↦ ds | false ↦ d ∷ remove c ds ])) [
        | true ↦ h.1
        | false ↦ (h.0, remove-All P c ds h.1)
      ]

nonempty-ref_name : (k : ℕ) → nonempty (ref_name k) ≡ true
unfolding ref_name
nonempty-ref_name k = refl

module _ (u : Unicode) (s : CompiledScreen) (snapshot_id : ℕ) where
  reuse_refs-Invariant :
      (bs : List RefBinding) (remaining : List Candidate) (st : Naming)
      → All (Located s) remaining
      → All (Free st.used) bs
      → Pairwise Differ bs
      → Invariant u s snapshot_id st
      → Invariant u s snapshot_id (reuse_refs u snapshot_id bs remaining st)
  unfolding reuse_refs assign
  reuse_refs-Invariant [] remaining st loc free differ h = h
  reuse_refs-Invariant (b ∷ bs) remaining st loc free differ h =
      (elim (best_candidate_for_binding u (λ c. c.node) b remaining)
          as (λ o.
            OnSome (λ r. Located s r.0) o
            → Invariant u s snapshot_id (elim o [
              | none ↦ reuse_refs u snapshot_id bs remaining st
              | some (c, _) ↦
                  reuse_refs u snapshot_id bs (remove c remaining)
                    (assign u snapshot_id b.ref c true st)
            ])) [
              | none ↦ λ here. reuse_refs-Invariant bs remaining st loc free.1 differ.1 h
              | some (c, _) ↦ λ here.
                  reuse_refs-Invariant bs (remove c remaining)
                    (assign u snapshot_id b.ref c true st) (remove-All (Located s) c remaining loc)
                    (All-zip _ _ _ bs
                      (λ d f n.
                        (f.0, ground (arith, text_eq_iff d.ref b.ref, text_eq_iff b.ref d.ref)))
                      free.1 differ.0)
                    differ.1
                    (assign-Invariant u s snapshot_id b.ref c true st here free.0.0 free.0.1 h)
            ])
        (best_candidate-OnSome u (λ c. c.node) (Located s) b remaining loc)

  name_rest-skip :
      (c : Candidate) (cs : List Candidate) (k : ℕ) (st : Naming)
      → nonempty (ref_of c st.refs) ≡ true
      → name_rest u snapshot_id (c ∷ cs) k st ≡ name_rest u snapshot_id cs k st
  unfolding name_rest
  name_rest-skip c cs k st h = ground arith

  -- The next name, and the state after it is given.
  abbrev next : ℕ → Naming → ℕ
  next k st = next_free (suc (length st.used)) st.used k

  abbrev name_next : Candidate → ℕ → Naming → Naming
  name_next c k st = assign u snapshot_id (ref_name (next k st)) c false st

  name_rest-name :
      (c : Candidate) (cs : List Candidate) (k : ℕ) (st : Naming)
      → nonempty (ref_of c st.refs) ≡ false
      → name_rest u snapshot_id (c ∷ cs) k st
        ≡ name_rest u snapshot_id cs (next k st) (name_next c k st)
  unfolding name_rest
  name_rest-name c cs k st h = ground arith

  name_next-Invariant :
      (c : Candidate) (k : ℕ) (st : Naming)
      → Located s c
      → Invariant u s snapshot_id st
      → Invariant u s snapshot_id (name_next c k st)
  name_next-Invariant c k st here h =
      assign-Invariant u s snapshot_id (ref_name (next k st)) c false st here
        (nonempty-ref_name (next k st)) (next_free_is_unused st.used k) h

  name_rest-Invariant :
      (cs : List Candidate) (k : ℕ) (st : Naming)
      → All (Located s) cs
      → Invariant u s snapshot_id st
      → Invariant u s snapshot_id (name_rest u snapshot_id cs k st)
  unfolding name_rest
  name_rest-Invariant [] k st loc h = h
  name_rest-Invariant (c ∷ cs) k st loc h = elim (Bool-cases (nonempty (ref_of c st.refs))) [
    | inl skip ↦ rw (name_rest-skip c cs k st skip) (name_rest-Invariant cs k st loc.1 h)
    | inr name ↦ rw (name_rest-name c cs k st name) (
        name_rest-Invariant cs (next k st) (name_next c k st) loc.1
          (name_next-Invariant c k st loc.0 h))
  ]

  ref_of-name_next :
      (d c : Candidate) (k : ℕ) (st : Naming)
      → nonempty (ref_of d st.refs) ≡ true
      → nonempty (ref_of d (name_next c k st).refs) ≡ true
  unfolding ref_of assign
  ref_of-name_next d c k st h = ground (arith, nonempty-ref_name (next k st))

  same_place_refl : (c : Candidate) → same_place c.place c.place ≡ true
  unfolding same_place
  same_place_refl c = ground arith

  ref_of-named :
      (c : Candidate) (k : ℕ) (st : Naming) → nonempty (ref_of c (name_next c k st).refs) ≡ true
  unfolding ref_of assign
  ref_of-named c k st = ground (arith, same_place_refl c, nonempty-ref_name (next k st))

  -- A candidate that has a ref keeps one.
  name_rest-keeps :
      (cs : List Candidate) (k : ℕ) (st : Naming) (d : Candidate)
      → nonempty (ref_of d st.refs) ≡ true
      → nonempty (ref_of d (name_rest u snapshot_id cs k st).refs) ≡ true
  unfolding name_rest
  name_rest-keeps [] k st d h = h
  name_rest-keeps (c ∷ cs) k st d h = elim (Bool-cases (nonempty (ref_of c st.refs))) [
    | inl skip ↦ rw (name_rest-skip c cs k st skip) (name_rest-keeps cs k st d h)
    | inr name ↦
        rw (name_rest-name c cs k st name)
          (name_rest-keeps cs (next k st) (name_next c k st) d (ref_of-name_next d c k st h))
  ]

  -- Each of the candidates has a ref.
  abbrev Refs : List Candidate → Naming → Type 0
  Refs cs st = All (λ c. nonempty (ref_of c st.refs) ≡ true) cs

  name_rest-names :
      (cs : List Candidate) (k : ℕ) (st : Naming) → Refs cs (name_rest u snapshot_id cs k st)
  unfolding name_rest
  name_rest-names [] k st = tt
  name_rest-names (c ∷ cs) k st = elim (Bool-cases (nonempty (ref_of c st.refs))) [
    | inl skip ↦
        subst (Refs (c ∷ cs)) (sym (name_rest-skip c cs k st skip))
          (name_rest-keeps cs k st c skip, name_rest-names cs k st)
    | inr name ↦ subst (Refs (c ∷ cs)) (sym (name_rest-name c cs k st name)) (
      name_rest-keeps cs (next k st) (name_next c k st) c (ref_of-named c k st),
      name_rest-names cs (next k st) (name_next c k st),
    )
  ]

  -- The candidate's ref, and the handle of its node in the snapshot.
  abbrev pub Bound : Naming → Candidate → Type 0
  Bound st c =
      let r = ref_of c st.refs in
      (nonempty r ≡ true)
      × (bound (lookup_ref r st.bindings)
          ≡ some (r, record { snapshot_id = snapshot_id; rid = c.node.raw_rid }))

  lookup-ref_of :
      (c : Candidate) (used : List Text) (bs : List (Text × RefBinding))
      (refs : List (Candidate × Text))
      → Located s c
      → All (Known u s snapshot_id used bs) refs
      → nonempty (ref_of c refs) ≡ true
      → bound (lookup_ref (ref_of c refs) bs)
        ≡ some (ref_of c refs, record { snapshot_id = snapshot_id; rid = c.node.raw_rid })
  unfolding ref_of
  lookup-ref_of c used bs [] here h n = cc
  lookup-ref_of c used bs ((d, r) ∷ refs) here h n =
      ground (arith, same_node s c d here h.0.0, h.0.3, lookup-ref_of c used bs refs here h.1)

  candidates-Bound :
      (cs : List Candidate) (st : Naming)
      → All (Located s) cs
      → Invariant u s snapshot_id st
      → Refs cs st
      → All (Bound st) cs
  candidates-Bound cs st loc h refs =
      All-zip _ _ _ cs (λ c here r. (r, lookup-ref_of c st.used st.bindings st.refs here h.0 r)) loc
        refs

-- The bindings of a registry can all be reused.
values-Free : (bs : List (Text × RefBinding)) → All Keyed bs → All (Free []) (values bs)
values-Free [] h = tt
values-Free ((r, b) ∷ bs) h = (ground arith, values-Free bs h.1)

values-differ :
    (r : Text) (bs : List (Text × RefBinding))
    → All Keyed bs
    → text_in r (keys_of bs) ≡ false
    → All (λ b. text_eq r b.ref ≡ false) (values bs)
values-differ r [] h n = tt
values-differ r ((k, b) ∷ bs) h n = (ground arith, values-differ r bs h.1 (ground arith))

values-Differ : (bs : List (Text × RefBinding)) → IsRegistry bs → Pairwise Differ (values bs)
values-Differ [] h = tt
values-Differ ((r, b) ∷ bs) ((k, keyed), (n, keys)) = (
  subst (λ t. All (λ c. text_eq t c.ref ≡ false) (values bs)) k.0 (values-differ r bs keyed n),
  values-Differ bs (keyed, keys),
)

-- The registry before, if there is one.
abbrev pub IsPrevious : Option RefRegistry → Type 0
IsPrevious none = Unit
IsPrevious (some registry) = IsRegistry registry.bindings

known-Free :
    (u : Unicode) (previous : Option RefRegistry)
    → IsPrevious previous
    → All (Free []) (known_bindings u previous) × Pairwise Differ (known_bindings u previous)
unfolding known_bindings
known-Free u none h = (tt, tt)
known-Free u (some registry) h = (
  All-sort _ _ (values registry.bindings) (values-Free registry.bindings h.0),
  Pairwise-sort _ Differ (λ a b n. ground (arith, text_eq_iff a.ref b.ref, text_eq_iff b.ref a.ref))
      (values registry.bindings) (values-Differ registry.bindings h),
)

-- Given a registry whose keys are the refs of its bindings, nonempty and distinct, or none at all:
-- reconciling a screen's candidates with it gives each candidate a nonempty ref, under which the new
-- registry has a binding of that ref to the candidate's node in the snapshot; no ref is given out
-- twice; and the new registry is again keyed by the nonempty and distinct refs of its bindings.
pub reconcile-Bound :
    (u : Unicode) (s : CompiledScreen) (snapshot_id : ℕ) (previous : Option RefRegistry)
    → IsPrevious previous
    → let st = reconcile u snapshot_id (ref_candidates s) previous in
      All (Bound u s snapshot_id st) (ref_candidates s)
      × Distinct (named st.refs)
      × IsRegistry st.bindings
unfolding reconcile
reconcile-Bound u s snapshot_id previous h =
    let cs = ref_candidates s in
    let loc = ref_candidates-Located s in
    let start : Naming = record { refs = []; used = []; bindings = [] } in
    let known = known-Free u previous h in
    let after = reuse_refs u snapshot_id (known_bindings u previous) cs start in
    let inv = name_rest-Invariant u s snapshot_id cs 1 after loc (
      reuse_refs-Invariant u s snapshot_id (known_bindings u previous) cs start loc known.0 known.1
        (tt, tt, tt, (tt, tt))) in
    (
      candidates-Bound u s snapshot_id cs (name_rest u snapshot_id cs 1 after) loc inv
          (name_rest-names u s snapshot_id cs 1 after),
      inv.1,
      inv.3,
    )

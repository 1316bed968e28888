-- ===== src/Refs/Naming.antt =====
-- What holds of the refs while `RefRegistryBuilder.reconcile` of refs/service.py gives them out.
use androidctl.Prelude.{
  ℕ, Text, text_eq, text_eq_iff, text_eq_refl, text_in, nonempty, Distinct, Bool, true, false, ◌||◌,
  Option, none, some, List, [], ◌∷◌, ◌++◌, All, All-map, All-append, ◌≡◌, refl, sym, subst, ap,
  arith,
}
use androidctl.TextEquivalence.{Unicode}
use androidctl.Models.Semantic.{CompiledScreen}
use androidctl.Models.Candidates.{Candidate}
use androidctl.Models.Refs.{NodeHandle, RefBinding, lookup_ref, set_ref}
use androidctl.Refs.Match.{binding_for_candidate}
use androidctl.Refs.Reconcile.{Naming, assign}
use androidctl.Refs.Located.{Located}

-- The ref and the handle of a binding.
abbrev pub bound : Option RefBinding → Option (Text × NodeHandle)
bound none = none
bound (some b) = some (b.ref, b.handle)

abbrev pub keys_of : List (Text × RefBinding) → List Text
keys_of [] = []
keys_of ((r, _) ∷ rest) = r ∷ keys_of rest

abbrev pub named : List (Candidate × Text) → List Text
named [] = []
named ((_, r) ∷ rest) = r ∷ named rest

-- A registry's keys are the refs of its bindings, none of them empty, and no two are the same.
abbrev pub Keyed : Text × RefBinding → Type 0
Keyed (r, b) = (r ≡ b.ref) × (nonempty r ≡ true)

abbrev pub IsRegistry : List (Text × RefBinding) → Type 0
IsRegistry bs = All Keyed bs × Distinct (keys_of bs)

-- The names in a list of used names.
abbrev Used : List Text → Text × RefBinding → Type 0
Used used (r, b) = text_in r used ≡ true

fresh_key :
    (r : Text) (used : List Text) (bs : List (Text × RefBinding))
    → All (Used used) bs
    → text_in r used ≡ false
    → text_in r (keys_of bs) ≡ false
fresh_key r used [] h n = refl
fresh_key r used ((k, b) ∷ bs) h n = ground (arith, text_eq_iff r k, fresh_key r used bs h.1 n)

set_ref-new :
    (r : Text) (b : RefBinding) (bs : List (Text × RefBinding))
    → text_in r (keys_of bs) ≡ false
    → set_ref r b bs ≡ bs ++ (r, b) ∷ []
unfolding set_ref
set_ref-new r b [] n = refl
set_ref-new r b ((k, c) ∷ bs) n =
    ground (arith, text_eq_iff k r, text_eq_iff r k, set_ref-new r b bs)

lookup-new :
    (r : Text) (b : RefBinding) (bs : List (Text × RefBinding))
    → text_in r (keys_of bs) ≡ false
    → lookup_ref r (bs ++ (r, b) ∷ []) ≡ some b
unfolding lookup_ref
lookup-new r b [] n = ground (arith, text_eq_refl r)
lookup-new r b ((k, c) ∷ bs) n = ground (arith, text_eq_iff k r, text_eq_iff r k, lookup-new r b bs)

lookup-other :
    (r k : Text) (b : RefBinding) (bs : List (Text × RefBinding))
    → text_eq r k ≡ false
    → lookup_ref k (bs ++ (r, b) ∷ []) ≡ lookup_ref k bs
unfolding lookup_ref
lookup-other r k b [] n = ground arith
lookup-other r k b ((l, c) ∷ bs) n = ground (arith, lookup-other r k b bs)

keys_of-new :
    (k r : Text) (b : RefBinding) (bs : List (Text × RefBinding))
    → text_in k (keys_of (bs ++ (r, b) ∷ [])) ≡ text_in k (keys_of bs) || text_eq k r
keys_of-new k r b [] = ground arith
keys_of-new k r b ((l, c) ∷ bs) = ground (arith, keys_of-new k r b bs)

Distinct-new :
    (r : Text) (b : RefBinding) (bs : List (Text × RefBinding))
    → text_in r (keys_of bs) ≡ false
    → Distinct (keys_of bs)
    → Distinct (keys_of (bs ++ (r, b) ∷ []))
Distinct-new r b [] n d = (refl, tt)
Distinct-new r b ((k, c) ∷ bs) n d = (
  ground (arith, keys_of-new k r b bs, text_eq_iff k r, text_eq_iff r k),
  Distinct-new r b bs (ground arith) d.1,
)

module _ (u : Unicode) (s : CompiledScreen) (snapshot_id : ℕ) where
  -- A candidate of the screen, under a ref that the bindings know as a handle to its node.
  abbrev pub Known : List Text → List (Text × RefBinding) → Candidate × Text → Type 0
  Known used bs (c, r) =
      Located s c
      × (nonempty r ≡ true)
      × (text_in r used ≡ true)
      × (bound (lookup_ref r bs)
          ≡ some (r, record { snapshot_id = snapshot_id; rid = c.node.raw_rid }))

  abbrev pub Invariant : Naming → Type 0
  Invariant st =
      All (Known st.used st.bindings) st.refs
      × Distinct (named st.refs)
      × All (Used st.used) st.bindings
      × IsRegistry st.bindings

  fresh_name :
      (r : Text) (used : List Text) (bs : List (Text × RefBinding)) (refs : List (Candidate × Text))
      → All (Known used bs) refs
      → text_in r used ≡ false
      → text_in r (named refs) ≡ false
  fresh_name r used bs [] h n = refl
  fresh_name r used bs ((c, k) ∷ refs) h n =
      ground (arith, text_eq_iff r k, fresh_name r used bs refs h.1 n)

  Known-later :
      (r : Text) (b : RefBinding) (used : List Text) (bs : List (Text × RefBinding))
      (e : Candidate × Text)
      → text_in r used ≡ false
      → Known used bs e
      → Known (r ∷ used) (bs ++ (r, b) ∷ []) e
  Known-later r b used bs (c, k) n h =
      (h.0, h.1, ground arith, ground (arith, text_eq_iff r k, lookup-other r k b bs))

  Known-now :
      (r : Text) (c : Candidate) (reused : Bool) (used : List Text) (bs : List (Text × RefBinding))
      → Located s c
      → nonempty r ≡ true
      → text_in r (keys_of bs) ≡ false
      → Known
          (r ∷ used)
          (bs ++ (r, binding_for_candidate u r c.node snapshot_id reused) ∷ [])
          (c, r)
  unfolding binding_for_candidate
  Known-now r c reused used bs loc full n =
      (loc, full, ground (arith, text_eq_refl r), ap bound (lookup-new r _ bs n))

  Keyed-now :
      (r : Text) (c : Candidate) (reused : Bool)
      → nonempty r ≡ true
      → Keyed (r, binding_for_candidate u r c.node snapshot_id reused)
  unfolding binding_for_candidate
  Keyed-now r c reused full = (refl, full)

  extended :
      (r : Text) (c : Candidate) (reused : Bool) (st : Naming)
      → Located s c
      → nonempty r ≡ true
      → text_in r st.used ≡ false
      → Invariant st
      → Invariant (record {
        refs = (c, r) ∷ st.refs;
        used = r ∷ st.used;
        bindings = st.bindings ++ (r, binding_for_candidate u r c.node snapshot_id reused) ∷ [];
      })
  extended r c reused st loc full n (known, names, used, (keyed, keys)) =
      let b = binding_for_candidate u r c.node snapshot_id reused in
      let new = fresh_key r st.used st.bindings used n in
      (
        (
          Known-now r c reused st.used st.bindings loc full new,
          All-map _ _ st.refs (λ e k. Known-later r b st.used st.bindings e n k) known,
        ),
        (fresh_name r st.used st.bindings st.refs known n, names),
        All-append _ st.bindings ((r, b) ∷ []) (All-map _ _ st.bindings (λ e k. ground arith) used)
            (ground (arith, text_eq_refl r), tt),
        (
          All-append _ st.bindings ((r, b) ∷ []) keyed (Keyed-now r c reused full, tt),
          Distinct-new r b st.bindings new keys,
        ),
      )

  pub assign-Invariant :
      (r : Text) (c : Candidate) (reused : Bool) (st : Naming)
      → Located s c
      → nonempty r ≡ true
      → text_in r st.used ≡ false
      → Invariant st
      → Invariant (assign u snapshot_id r c reused st)
  unfolding assign
  assign-Invariant r c reused st loc full n h =
      let b = binding_for_candidate u r c.node snapshot_id reused in
      subst
        (λ bs. Invariant (record { refs = (c, r) ∷ st.refs; used = r ∷ st.used; bindings = bs }))
        (sym (set_ref-new r b st.bindings (fresh_key r st.used st.bindings h.2 n)))
        (extended r c reused st loc full n h)

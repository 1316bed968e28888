-- ===== src/Prelude/Sort.antt =====
-- Python's `sorted`: a stable sort by a strict order on the items' keys, as an insertion sort.
use mathlib.Core.List.{Perm}
use mathlib.Core.List.Perm
use androidctl.Prelude.{
  List, [], ◌∷◌, Bool, true, false, ◌≡◌, arith, All, All-map, Pairwise, Bool-cases, inl, inr,
}

module _ {ℓ} {A : Type ℓ} (lt : A → A → Bool) where
  -- `x` stood before all of the list, so it stays before its equals.
  unfoldable pub insert : A → List A → List A
  insert x [] = x ∷ []
  insert x (y ∷ ys) = elim (lt y x) [ true ↦ y ∷ insert x ys | false ↦ x ∷ y ∷ ys ]

  unfoldable pub sort : List A → List A
  unfolding insert
  sort [] = []
  sort (x ∷ xs) = insert x (sort xs)

  pub insert-later : (x y : A) (ys : List A) → lt y x ≡ true → insert x (y ∷ ys) ≡ y ∷ insert x ys
  unfolding insert
  insert-later x y ys h = ground arith

  pub insert-now : (x y : A) (ys : List A) → lt y x ≡ false → insert x (y ∷ ys) ≡ x ∷ y ∷ ys
  unfolding insert
  insert-now x y ys h = ground arith

  pub All-insert {κ} : (P : A → Type κ) (x : A) (ys : List A) → P x → All P ys → All P (insert x ys)
  unfolding insert
  All-insert P x [] p h = (p, tt)
  All-insert P x (y ∷ ys) p h = elim (Bool-cases (lt y x)) [
    | inl later ↦ rw (insert-later x y ys later) (h.0, All-insert P x ys p h.1)
    | inr now ↦ rw (insert-now x y ys now) (p, h)
  ]

  pub All-sort {κ} : (P : A → Type κ) (xs : List A) → All P xs → All P (sort xs)
  unfolding sort
  All-sort P [] h = tt
  All-sort P (x ∷ xs) h = All-insert P x (sort xs) h.0 (All-sort P xs h.1)

  pub insert-perm : (x : A) (ys : List A) → Perm (insert x ys) (x ∷ ys)
  unfolding insert
  insert-perm x [] = Perm.refl _
  insert-perm x (y ∷ ys) = elim (Bool-cases (lt y x)) [
    | inl later ↦
        rw (insert-later x y ys later)
          (Perm.trans (Perm.cons y (insert-perm x ys)) (Perm.swap x y ys))
    | inr now ↦ rw (insert-now x y ys now) (Perm.refl _)
  ]

  pub sort-perm : (xs : List A) → Perm (sort xs) xs
  unfolding sort
  sort-perm [] = Perm.refl _
  sort-perm (x ∷ xs) = Perm.trans (insert-perm x (sort xs)) (Perm.cons x (sort-perm xs))

  pub Pairwise-insert {κ} :
      (R : A → A → Type κ)
      → ((x y : A) → R x y → R y x)
      → (x : A) (ys : List A) → All (R x) ys
      → Pairwise R ys
      → Pairwise R (insert x ys)
  unfolding insert
  Pairwise-insert R swap x [] h k = (tt, tt)
  Pairwise-insert R swap x (y ∷ ys) h k = elim (Bool-cases (lt y x)) [
    | inl later ↦
        rw (insert-later x y ys later)
          (All-insert (R y) x ys (swap x y h.0) k.0, Pairwise-insert R swap x ys h.1 k.1)
    | inr now ↦ rw (insert-now x y ys now) (h, k)
  ]

  pub Pairwise-sort {κ} :
      (R : A → A → Type κ)
      → ((x y : A) → R x y → R y x)
      → (xs : List A) → Pairwise R xs
      → Pairwise R (sort xs)
  unfolding sort
  Pairwise-sort R swap [] h = tt
  Pairwise-sort R swap (x ∷ xs) h =
      Pairwise-insert R swap x (sort xs) (All-sort (R x) xs h.0) (Pairwise-sort R swap xs h.1)

  All-uninsert {κ} : (P : A → Type κ) (x : A) (ys : List A) → All P (insert x ys) → P x × All P ys
  unfolding insert
  All-uninsert P x [] h = h
  All-uninsert P x (y ∷ ys) h =
      (elim (lt y x)
          as (λ b.
            All P (elim b [ true ↦ y ∷ insert x ys | false ↦ x ∷ y ∷ ys ]) → P x × All P (y ∷ ys)) [
              | true ↦ λ h. let rest = All-uninsert P x ys h.1 in (rest.0, (h.0, rest.1))
              | false ↦ λ h. h
            ])
        h

  -- What holds of the sorted items holds of the items.
  pub All-unsort {κ} : (P : A → Type κ) (xs : List A) → All P (sort xs) → All P xs
  unfolding sort
  All-unsort P [] h = tt
  All-unsort P (x ∷ xs) h =
      let parts = All-uninsert P x (sort xs) h in (parts.0, All-unsort P xs parts.1)

  -- Each sorted item is followed by those that `R` allows after it.
  module _ {κ} (R : A → A → Type κ) (later : (x y : A) → lt y x ≡ true → R y x)
      (now : (x y : A) → lt y x ≡ false → R x y)
      (compose : (x y z : A) → R x y → R y z → R x z) where
    Falls-insert : (x : A) (ys : List A) → Pairwise R ys → Pairwise R (insert x ys)
    unfolding insert
    Falls-insert x [] h = (tt, tt)
    Falls-insert x (y ∷ ys) h = elim (Bool-cases (lt y x)) [
      | inl after ↦
          rw (insert-later x y ys after)
            (All-insert (R y) x ys (later x y after) h.0, Falls-insert x ys h.1)
      | inr here ↦
          rw (insert-now x y ys here)
            ((now x y here, All-map _ _ ys (λ z k. compose x y z (now x y here) k) h.0), h)
    ]

    pub Falls-sort : (xs : List A) → Pairwise R (sort xs)
    unfolding sort
    Falls-sort [] = tt
    Falls-sort (x ∷ xs) = Falls-insert x (sort xs) (Falls-sort xs)

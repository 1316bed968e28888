-- ===== src/Prelude/Lists.antt =====
-- Lists measured by native numbers, and the tests and predicates on lists that the parts share.
use Prim.Native.Nat.{ℕ, zero, suc, ◌+◌}
use mathlib.Core.Path.{◌≡◌, refl, subst}
use mathlib.Core.Bool.{Bool, true, false, ◌||◌}
use mathlib.Core.Option.{Option, none, some, none-ne-some, some-injective}
use mathlib.Core.List.{List, [], ◌∷◌, ◌++◌, map}
use native.Mathlib.Omega.{arith}

module _ {ℓ} {A : Type ℓ} where
  abbrev pub length : List A → ℕ
  length [] = 0
  length (x ∷ xs) = suc (length xs)

  pub length-append : (xs ys : List A) → length (xs ++ ys) ≡ length xs + length ys
  length-append [] ys = omega arith
  length-append (x ∷ xs) ys = omega (arith, length-append xs ys)

  -- `any(p(x) for x in xs)`
  abbrev pub any : (A → Bool) → List A → Bool
  any p [] = false
  any p (x ∷ xs) = p x || any p xs

  -- `[x for x in xs if p(x)]`
  abbrev pub keep_if : (A → Bool) → List A → List A
  keep_if p [] = []
  keep_if p (x ∷ xs) = let rest = keep_if p xs in elim (p x) [ true ↦ x ∷ rest | false ↦ rest ]

-- A predicate by recursion computes to tuples, which the tactics read and build.
abbrev pub All {ℓ κ} : {A : Type ℓ} → (A → Type κ) → List A → Type κ
All P [] = Unit
All P (x ∷ xs) = P x × All P xs

pub All-append {ℓ κ} :
    {A : Type ℓ} (P : A → Type κ) (xs ys : List A) → All P xs → All P ys → All P (xs ++ ys)
All-append P [] ys hx hy = hy
All-append P (x ∷ xs) ys hx hy = (hx.0, All-append P xs ys hx.1 hy)

pub All-map {ℓ κ μ} :
    {A : Type ℓ} (P : A → Type κ) (Q : A → Type μ) (xs : List A)
    → ((x : A) → P x → Q x)
    → All P xs
    → All Q xs
All-map P Q [] f h = tt
All-map P Q (x ∷ xs) f h = (f x h.0, All-map P Q xs f h.1)

-- `xs[i]` for a place in the list.
abbrev pub get_elem? {ℓ} : {A : Type ℓ} → List A → ℕ → Option A
get_elem? [] i = none
get_elem? (x ∷ xs) zero = some x
get_elem? (x ∷ xs) (suc i) = get_elem? xs i

-- Each item is related to all those after it.
abbrev pub Pairwise {ℓ κ} : {A : Type ℓ} → (A → A → Type κ) → List A → Type κ
Pairwise R [] = Unit
Pairwise R (x ∷ xs) = All (R x) xs × Pairwise R xs

pub All-zip {ℓ κ μ ν} :
    {A : Type ℓ} (P : A → Type κ) (Q : A → Type μ) (S : A → Type ν) (xs : List A)
    → ((x : A) → P x → Q x → S x)
    → All P xs
    → All Q xs
    → All S xs
All-zip P Q S [] f h k = tt
All-zip P Q S (x ∷ xs) f h k = (f x h.0 k.0, All-zip P Q S xs f h.1 k.1)

pub All-keep_if {ℓ κ} :
    {A : Type ℓ} (P : A → Type κ) (p : A → Bool) (xs : List A) → All P xs → All P (keep_if p xs)
All-keep_if P p [] h = tt
All-keep_if P p (x ∷ xs) h =
    let rest = All-keep_if P p xs h.1 in
    elim (p x) as (λ b. All P (elim b [ true ↦ x ∷ keep_if p xs | false ↦ keep_if p xs ])) [
      | true ↦ (h.0, rest)
      | false ↦ rest
    ]

-- What is kept passes the test.
pub keep_if-kept {ℓ} :
    {A : Type ℓ} (p : A → Bool) (xs : List A) → All (λ x. p x ≡ true) (keep_if p xs)
keep_if-kept p [] = tt
keep_if-kept p (x ∷ xs) =
    let rest = keep_if-kept p xs in
    elim (p x)
        as (λ b.
          p x ≡ b
          → All (λ y. p y ≡ true) (elim b [ true ↦ x ∷ keep_if p xs | false ↦ keep_if p xs ])) [
            | true ↦ λ e. (e, rest)
            | false ↦ λ e. rest
          ]
      refl

pub All→any {ℓ} :
    {A : Type ℓ} (p : A → Bool) (xs : List A) → All (λ x. p x ≡ false) xs → any p xs ≡ false
All→any p [] h = refl
All→any p (x ∷ xs) h = ground (arith, All→any p xs h.1)

pub any→All {ℓ} :
    {A : Type ℓ} (p : A → Bool) (xs : List A) → any p xs ≡ false → All (λ x. p x ≡ false) xs
any→All p [] h = tt
any→All p (x ∷ xs) h = (ground arith, any→All p xs (ground arith))

pub keep_if-none {ℓ} :
    {A : Type ℓ} (p : A → Bool) (xs : List A) → All (λ x. p x ≡ false) xs → keep_if p xs ≡ []
keep_if-none p [] h = refl
keep_if-none p (x ∷ xs) h = ground (arith, keep_if-none p xs h.1)

-- A test that fails on all that it keeps keeps nothing.
pub none_kept {ℓ} :
    {A : Type ℓ} (p : A → Bool) (xs : List A)
    → All (λ x. p x ≡ false) (keep_if p xs)
    → All (λ x. p x ≡ false) xs
none_kept p [] h = tt
none_kept p (x ∷ xs) h =
    (elim (p x)
        as (λ b.
          p x ≡ b
          → All (λ y. p y ≡ false) (elim b [ true ↦ x ∷ keep_if p xs | false ↦ keep_if p xs ])
          → (p x ≡ false) × All (λ y. p y ≡ false) xs) [
            | true ↦ λ e k. (k.0, none_kept p xs k.1)
            | false ↦ λ e k. (e, none_kept p xs k)
          ])
      refl h

-- The item stands at some place of the list.
abbrev pub Among {ℓ} : {A : Type ℓ} → List A → A → Type ℓ
Among xs x = (i : ℕ) × (get_elem? xs i ≡ some x)

pub Among-later {ℓ} : {A : Type ℓ} (x : A) (xs : List A) (y : A) → Among xs y → Among (x ∷ xs) y
Among-later x xs y h = (suc h.0, h.1)

pub All-append-one {ℓ κ} :
    {A : Type ℓ} (P : A → Type κ) (xs : List A) (x : A) → All P xs → P x → All P (xs ++ x ∷ [])
All-append-one P xs x h k = All-append P xs (x ∷ []) h (k, tt)

-- What stands after all of a list is related to each item of it.
pub Pairwise-append-one {ℓ κ} :
    {A : Type ℓ} (R : A → A → Type κ) (xs : List A) (x : A)
    → Pairwise R xs
    → All (λ y. R y x) xs
    → Pairwise R (xs ++ x ∷ [])
Pairwise-append-one R [] x h k = (tt, tt)
Pairwise-append-one R (y ∷ ys) x h k =
    (All-append-one (R y) ys x h.0 k.0, Pairwise-append-one R ys x h.1 k.1)

-- What holds of all items holds of the one at a place.
pub All-at {ℓ κ} : {A : Type ℓ} (P : A → Type κ) (xs : List A) (x : A) → All P xs → Among xs x → P x
All-at P [] x h a = absurd (none-ne-some x a.1)
All-at P (y ∷ ys) x h (zero, e) = subst P (some-injective y x e) h.0
All-at P (y ∷ ys) x h (suc i, e) = All-at P ys x h.1 (i, e)

All-later {ℓ} : {A : Type ℓ} (x : A) (xs ys : List A) → All (Among xs) ys → All (Among (x ∷ xs)) ys
All-later x xs ys h = All-map _ _ ys (λ y k. Among-later x xs y k) h

pub all-Among {ℓ} : {A : Type ℓ} (xs : List A) → All (Among xs) xs
all-Among [] = tt
all-Among (x ∷ xs) = ((0, refl), All-later x xs xs (all-Among xs))

pub All-mapped {ℓ κ μ ν} :
    {A : Type ℓ} {B : Type κ} (P : A → Type μ) (Q : B → Type ν) (f : A → B) (xs : List A)
    → ((x : A) → P x → Q (f x))
    → All P xs
    → All Q (map f xs)
All-mapped P Q f [] k h = tt
All-mapped P Q f (x ∷ xs) k h = (k x h.0, All-mapped P Q f xs k h.1)

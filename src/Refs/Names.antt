-- ===== src/Refs/Names.antt =====
-- The names of refs: `f"n{index}"`, the search for one that is not used, and `ref_sort_key` of
-- refs/service.py.
use androidctl.Prelude.{
  ℕ, zero, suc, ◌+◌, ◌-◌, ◌*◌, ◌/◌, ◌%◌, ◌≤◌, ◌<◌, Text, text_eq, text_eq_iff, text_eq_refl,
  text_in, text_lt, nat_eq, ltb, length, Bool, true, false, ◌&&◌, ◌||◌, Option, none, some, List,
  [], ◌∷◌, ◌++◌, ◌≡◌, refl, sym, ◌∙◌, ap, arith, if◌then◌else◌, Bool-cases, inl, inr,
}
use androidctl.TextEquivalence.{Unicode}

-- `str(n)`; a number has at most as many digits as its successor counts.
unfoldable pub digits : ℕ → ℕ → Text
digits zero n = []
digits (suc fuel) n =
    let high = digits fuel (n / 10) in
    if ltb n 10 then (b'0' + n) ∷ [] else high ++ (b'0' + n % 10) ∷ []

-- `f"n{index}"`
unfoldable pub ref_name : ℕ → Text
unfolding digits
ref_name index = b'n' ∷ digits (suc index) index

-- The number that digits read as: `str` is undone.
read : Text → ℕ → ℕ
read [] acc = acc
read (c ∷ s) acc = read s (acc * 10 + (c - b'0'))

read-append : (s : Text) (c acc : ℕ) → read (s ++ c ∷ []) acc ≡ read s acc * 10 + (c - b'0')
unfolding read
read-append [] c acc = refl
read-append (d ∷ s) c acc = read-append s c (acc * 10 + (d - b'0'))

digits_small : (fuel n : ℕ) → ltb n 10 ≡ true → digits (suc fuel) n ≡ (b'0' + n) ∷ []
unfolding digits
digits_small fuel n h = ground arith

digits_large :
    (fuel n : ℕ)
    → ltb n 10 ≡ false
    → digits (suc fuel) n ≡ digits fuel (n / 10) ++ (b'0' + n % 10) ∷ []
unfolding digits
digits_large fuel n h = ground arith

ltb-false : (n : ℕ) → ltb n 10 ≡ false → n / 10 < n
ltb-false n h = ground arith

read-digits : (fuel n : ℕ) → n < fuel → read (digits fuel n) 0 ≡ n
unfolding read
read-digits zero n h = absurd (omega arith)
read-digits (suc fuel) n h = elim (Bool-cases (ltb n 10)) [
  | inl small ↦ rw (digits_small fuel n small) (omega arith)
  | inr large ↦
      rw
        (
          digits_large fuel n large,
          read-append (digits fuel (n / 10)) (b'0' + n % 10) 0,
          read-digits fuel (n / 10) (omega (arith, ltb-false n large)),
        )
        (omega arith)
]

read-ref_name : (i : ℕ) → read (digits (suc i) i) 0 ≡ i
read-ref_name i = read-digits (suc i) i (omega arith)

pub ref_name-injective : (i j : ℕ) → text_eq (ref_name i) (ref_name j) ≡ true → i ≡ j
unfolding ref_name text_eq
ref_name-injective i j h =
    let same = (text_eq_iff (digits (suc i) i) (digits (suc j) j)).0 (ground arith) in
    sym (read-ref_name i) ∙ ap (λ s. read s 0) same ∙ read-ref_name j

-- `while f"n{next_index}" in used_refs: next_index += 1`
unfoldable pub next_free : ℕ → List Text → ℕ → ℕ
unfolding ref_name
next_free zero used k = k
next_free (suc fuel) used k =
    let later = next_free fuel used (suc k) in if text_in (ref_name k) used then later else k

without : Text → List Text → List Text
without r [] = []
without r (t ∷ ts) = elim (text_eq t r) [ true ↦ ts | false ↦ t ∷ without r ts ]

length-without :
    (r : Text) (ts : List Text) → text_in r ts ≡ true → length ts ≡ suc (length (without r ts))
unfolding without
length-without r [] h = cc
length-without r (t ∷ ts) h = ground (arith, text_eq_iff t r, text_eq_iff r t, length-without r ts)

text_in-without :
    (a r : Text) (ts : List Text)
    → text_eq a r ≡ false
    → text_in a ts ≡ true
    → text_in a (without r ts) ≡ true
unfolding without
text_in-without a r [] n h = cc
text_in-without a r (t ∷ ts) n h =
    ground (arith, text_eq_iff t r, text_eq_iff a t, text_eq_refl t, text_in-without a r ts)

next_free-taken :
    (fuel : ℕ) (used : List Text) (k : ℕ)
    → text_in (ref_name k) used ≡ true
    → next_free (suc fuel) used k ≡ next_free fuel used (suc k)
unfolding next_free
next_free-taken fuel used k h = ground arith

next_free-found :
    (fuel : ℕ) (used : List Text) (k : ℕ)
    → text_in (ref_name k) used ≡ false
    → next_free (suc fuel) used k ≡ k
unfolding next_free
next_free-found fuel used k h = ground arith

other_name : (i j : ℕ) → i < j → text_eq (ref_name j) (ref_name i) ≡ false
other_name i j h = ground (arith, ref_name-injective j i)

-- Each name found in use takes one of the `left` used names that the search can still meet.
next_free-unused :
    (fuel : ℕ) (used left : List Text) (k : ℕ)
    → ((j : ℕ) → k ≤ j → text_in (ref_name j) used ≡ true → text_in (ref_name j) left ≡ true)
    → length left < fuel
    → text_in (ref_name (next_free fuel used k)) used ≡ false
next_free-unused zero used left k meets h = absurd (omega arith)
next_free-unused (suc fuel) used left k meets h = elim (Bool-cases (text_in (ref_name k) used)) [
  | inr free ↦ rw (next_free-found fuel used k free) free
  | inl taken ↦ rw (next_free-taken fuel used k taken) (
      next_free-unused fuel used (without (ref_name k) left) (suc k)
        (λ j le t.
          text_in-without (ref_name j) (ref_name k) left (other_name k j (omega arith))
            (meets j (omega arith) t))
        (omega (arith, length-without (ref_name k) left (meets k (omega arith) taken))))
]

-- The search for a name ends within one round more than there are used names, at an unused one.
pub next_free_is_unused :
    (used : List Text) (k : ℕ)
    → text_in (ref_name (next_free (suc (length used)) used k)) used ≡ false
next_free_is_unused used k =
    next_free-unused (suc (length used)) used used k (λ j le t. t) (omega arith)

abbrev pub non_numeric_ref_sort_bucket : ℕ
non_numeric_ref_sort_bucket = 1000000000

module _ (u : Unicode) where
  -- `int(...)` of the digits of `^n(\d+)$` after the `n`; `$` also matches before a last newline.
  unfoldable pub read_number : Bool → ℕ → Text → Option ℕ
  read_number seen acc [] = if seen then some acc else none
  read_number seen acc (c ∷ s) = elim (u.decimal c) [
    | some d ↦ read_number true (acc * 10 + d) s
    | none ↦ if seen && (nat_eq c 10 && nat_eq (length s) 0) then some acc else none
  ]

  abbrev pub sort_number : Option ℕ → ℕ
  sort_number none = non_numeric_ref_sort_bucket
  sort_number (some n) = n

  -- `ref_sort_key`
  unfoldable pub ref_sort_key : Text → ℕ × Text
  unfolding read_number
  ref_sort_key [] = (non_numeric_ref_sort_bucket, [])
  ref_sort_key (c ∷ s) = (
    if nat_eq c b'n' then sort_number (read_number false 0 s) else non_numeric_ref_sort_bucket,
    c ∷ s,
  )

  unfoldable pub ref_lt : Text → Text → Bool
  unfolding ref_sort_key
  ref_lt a b =
      let (m, s) = ref_sort_key a in
      let (n, t) = ref_sort_key b in ltb m n || (nat_eq m n && text_lt s t)

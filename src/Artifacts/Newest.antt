-- ===== src/Artifacts/Newest.antt =====
-- What artifacts/screen_lookup.py answers: the newest artifact of the screen, unless one that cannot
-- be read may be newer.
use androidctl.Prelude.{
  is_some, Bool, true, false, not, Option, none, some, List, [], ◌∷◌, keep_if, any, All, All-map,
  Pairwise, keep_if-none, none_kept, All→any, any→All, All-zip, ◌≡◌, refl, subst, arith, Bool-cases,
  inl, inr,
}
use androidctl.Prelude.Int.{ℤ, int_lt}
use androidctl.Prelude.Sort.{sort, All-sort, All-unsort, Falls-sort}
use androidctl.Artifacts.Scan.{ScreenArtifactScan}
use androidctl.Artifacts.Lookup.{sequence_key, newer, newest, last_named, first, may_be_newer}

-- The second has no higher sequence than the first.
abbrev pub NoNewer : ScreenArtifactScan → ScreenArtifactScan → Type 0
NoNewer a b = int_lt (sequence_key a) (sequence_key b) ≡ false

newer-NoNewer : (a b : ScreenArtifactScan) → newer b a ≡ true → NoNewer b a
unfolding newer
newer-NoNewer a b h = ground arith

not_newer-NoNewer : (a b : ScreenArtifactScan) → newer b a ≡ false → NoNewer a b
unfolding newer
not_newer-NoNewer a b h = ground arith

NoNewer-trans : (a b c : ScreenArtifactScan) → NoNewer a b → NoNewer b c → NoNewer a c
NoNewer-trans a b c h k = ground arith

NoNewer-refl : (a : ScreenArtifactScan) → NoNewer a a
NoNewer-refl a = ground arith

first-All {κ} :
    (P : ScreenArtifactScan → Type κ) (xs : List ScreenArtifactScan) (a : ScreenArtifactScan)
    → first xs ≡ some a
    → All P xs
    → P a
first-All P [] a e h = absurd (cc)
first-All P (x ∷ xs) a e h = let same : x ≡ a = cc in subst P same h.0

-- The newest of some artifacts: what holds of all holds of it, and none has a higher sequence.
pub newest-All :
    (P : ScreenArtifactScan → Type 0) (xs : List ScreenArtifactScan) (a : ScreenArtifactScan)
    → newest xs ≡ some a
    → All P xs
    → P a
unfolding newest
newest-All P xs a e h = first-All P (sort newer xs) a e (All-sort newer P xs h)

first-NoNewer :
    (xs : List ScreenArtifactScan) (a : ScreenArtifactScan)
    → Pairwise NoNewer xs
    → first xs ≡ some a
    → All (NoNewer a) xs
first-NoNewer [] a h e = tt
first-NoNewer (x ∷ xs) a h e =
    let same : x ≡ a = cc in subst (λ y. All (NoNewer y) (x ∷ xs)) same (NoNewer-refl x, h.0)

pub newest-NoNewer :
    (xs : List ScreenArtifactScan) (a : ScreenArtifactScan)
    → newest xs ≡ some a
    → All (NoNewer a) xs
unfolding newest
newest-NoNewer xs a e = All-unsort newer (NoNewer a) xs (
    first-NoNewer (sort newer xs) a
      (Falls-sort newer NoNewer (λ x y h. newer-NoNewer x y h) (λ x y h. not_newer-NoNewer x y h)
        NoNewer-trans xs)
      e)

no_first : (xs : List ScreenArtifactScan) → first xs ≡ none → xs ≡ []
no_first [] e = refl
no_first (x ∷ xs) e = absurd cc

-- What holds of all the items of an empty sort holds of none.
sort-empty :
    (lt : ScreenArtifactScan → ScreenArtifactScan → Bool) (P : ScreenArtifactScan → Type 0)
    (xs : List ScreenArtifactScan)
    → first (sort lt xs) ≡ none
    → All P xs
sort-empty lt P xs e = All-unsort lt P xs (rw (no_first (sort lt xs) e) tt)

-- The test of `choose_match`, over all the artifacts of unknown screens.
abbrev pub shadowed : Option ℤ → List ScreenArtifactScan → Bool
shadowed m xs = any (λ b. may_be_newer b.sequence m) xs

shadow_needs_sequence :
    (m : Option ℤ) (b : ScreenArtifactScan)
    → may_be_newer b.sequence m ≡ false
    → not (is_some b.sequence) ≡ false
unfolding may_be_newer
shadow_needs_sequence m b h = ground arith

shadow_by_sequence :
    (m : Option ℤ) (b c : ScreenArtifactScan)
    → may_be_newer b.sequence m ≡ false
    → NoNewer b c
    → not (is_some c.sequence) ≡ false
    → may_be_newer c.sequence m ≡ false
unfolding may_be_newer
shadow_by_sequence m b c h k n = ground arith

last_named-none :
    (m : Option ℤ) (xs : List ScreenArtifactScan) → shadowed m xs ≡ false → last_named xs ≡ none
unfolding sort
last_named-none m xs h =
    let fails = any→All (λ b. may_be_newer b.sequence m) xs h in
    rw
      (keep_if-none (λ b. not (is_some b.sequence)) xs
        (All-map _ _ xs (λ b k. shadow_needs_sequence m b k) fails))
      refl

-- The two tests of the code together: an artifact without a sequence, or the newest one.
pub last_named-shadowed :
    (m : Option ℤ) (xs : List ScreenArtifactScan) (b : ScreenArtifactScan)
    → last_named xs ≡ some b
    → shadowed m xs ≡ true
last_named-shadowed m xs b e = elim (Bool-cases (shadowed m xs)) [
  | inl h ↦ h
  | inr h ↦ let gone = last_named-none m xs h in absurd cc
]

pub newest-shadowed :
    (m : Option ℤ) (xs : List ScreenArtifactScan) (b : ScreenArtifactScan)
    → last_named xs ≡ none
    → newest xs ≡ some b
    → shadowed m xs ≡ may_be_newer b.sequence m
newest-shadowed m xs b gone e =
    let test : ScreenArtifactScan → Bool = λ c. may_be_newer c.sequence m in
    elim (Bool-cases (test b)) [
      | inl h ↦ elim (Bool-cases (shadowed m xs)) [
        | inl k ↦ cc
        | inr k ↦
            let fails = newest-All (λ c. test c ≡ false) xs b e (any→All test xs k) in absurd cc
      ]
      | inr h ↦
          let known =
            none_kept (λ c. not (is_some c.sequence)) xs
              (sort-empty _ (λ c. not (is_some c.sequence) ≡ false)
                (keep_if (λ c. not (is_some c.sequence)) xs) gone) in
          let fails = All→any test xs (
            All-zip _ _ _ xs (λ c k n. shadow_by_sequence m b c h k n) (newest-NoNewer xs b e)
              known) in
          cc
    ]

pub newest-empty :
    (m : Option ℤ) (xs : List ScreenArtifactScan) → newest xs ≡ none → shadowed m xs ≡ false
unfolding newest
newest-empty m xs e =
    All→any (λ c. may_be_newer c.sequence m) xs
      (sort-empty newer (λ c. may_be_newer c.sequence m ≡ false) xs e)

-- ===== src/Refs/Order.antt =====
-- The sorted candidates of refs/service.py fall in bucket and score.
use androidctl.Prelude.{◌≤◌, ◌<◌, text_lt, text_eq, true, false, List, Pairwise, ◌≡◌, ◌⊎◌, arith}
use androidctl.Prelude.Sort
use androidctl.Prelude.Sort.{sort}
use androidctl.Refs.Evidence.{RepairConfidence, key_lt, key_eq}
use androidctl.Refs.Match.{Scored, scored_lt, before}

-- The second is in a higher bucket, or in the same one with at least the score.
abbrev pub AtMost : RepairConfidence → RepairConfidence → Type 0
AtMost a b = (a.bucket < b.bucket) ⊎ ((a.bucket ≡ b.bucket) × (a.score ≤ b.score))

AtMost-trans : (a b c : RepairConfidence) → AtMost a b → AtMost b c → AtMost a c
AtMost-trans a b c h k = omega arith

module _ {I : Type 0} where
  before-AtMost : (a b : Scored I) → before a b ≡ true → AtMost b.confidence a.confidence
  unfolding scored_lt key_lt key_eq text_lt text_eq
  before-AtMost a b h = ground arith

  not_before-AtMost : (a b : Scored I) → before a b ≡ false → AtMost a.confidence b.confidence
  unfolding scored_lt key_lt key_eq text_lt text_eq
  not_before-AtMost a b h = ground arith

  -- Each candidate is at most those before it.
  abbrev pub Falls : List (Scored I) → Type 0
  Falls xs = Pairwise (λ x y. AtMost y.confidence x.confidence) xs

  pub Falls-sort : (xs : List (Scored I)) → Falls (sort before xs)
  Falls-sort xs =
      Sort.Falls-sort before (λ x y. AtMost y.confidence x.confidence)
        (λ x y h. before-AtMost y x h) (λ x y h. not_before-AtMost y x h)
        (λ x y z h k. AtMost-trans z.confidence y.confidence x.confidence k h) xs

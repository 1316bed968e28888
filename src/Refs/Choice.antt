-- ===== src/Refs/Choice.antt =====
-- What a successful match says (`best_candidate_for_source_signature` of refs/service.py): the chosen
-- candidate stands apart from every other one that could be meant.
use mathlib.Core.List.{Perm}
use androidctl.Prelude.{true, false, some, List, [], ◌∷◌, All, All-map, ◌≡◌, ◌≢◌, arith}
use androidctl.Prelude.Sort.{sort, sort-perm}
use androidctl.TextEquivalence.{Unicode}
use androidctl.Models.Semantic.{SemanticNode}
use androidctl.Models.Refs.{RefRepairSourceSignature}
use androidctl.Refs.Evidence.{RepairConfidence, is_high_confidence, repair_gap_too_small}
use androidctl.Refs.Match.{Scored, before, choose, score_all, best_candidate_for_source_signature}
use androidctl.Refs.Order.{AtMost, Falls, Falls-sort}

-- The other candidate is too weak to be meant: it lies below, and by more than the threshold if it is
-- in the same bucket.
abbrev pub Clear : {I : Type 0} → RepairConfidence → Scored I → Type 0
Clear c o = AtMost o.confidence c × (repair_gap_too_small c o.confidence ≡ false)

gap-monotone :
    (c a b : RepairConfidence)
    → AtMost a c
    → AtMost b a
    → repair_gap_too_small c a ≡ false
    → AtMost b c × (repair_gap_too_small c b ≡ false)
unfolding repair_gap_too_small
gap-monotone c a b h k g = (omega arith, ground arith)

choose-best :
    {I : Type 0} (best : Scored I) (others : List (Scored I)) (i : I) (c : RepairConfidence)
    → choose (best ∷ others) ≡ some (i, c)
    → (best.candidate ≡ i) × (best.confidence ≡ c) × (is_high_confidence best.confidence ≡ true)
unfolding choose
choose-best best [] i c h = ground arith
choose-best best (second ∷ rest) i c h = ground arith

choose-gap :
    {I : Type 0} (best second : Scored I) (rest : List (Scored I)) (i : I) (c : RepairConfidence)
    → choose (best ∷ second ∷ rest) ≡ some (i, c)
    → repair_gap_too_small best.confidence second.confidence ≡ false
unfolding choose
choose-gap best second rest i c h = ground arith

others-Clear :
    {I : Type 0} (best : Scored I) (others : List (Scored I)) (i : I) (c : RepairConfidence)
    → Falls (best ∷ others)
    → choose (best ∷ others) ≡ some (i, c)
    → All (Clear best.confidence) others
others-Clear best [] i c f h = tt
others-Clear best (second ∷ rest) i c f h =
    let gap = choose-gap best second rest i c h in
    (
      (f.0.0, gap),
      All-map _ _ rest
          (λ o k. gap-monotone best.confidence second.confidence o.confidence f.0.0 k gap) f.1.0,
    )

no_choice : {I : Type 0} (i : I) (c : RepairConfidence) → choose {I = I} [] ≢ some (i, c)
unfolding choose
no_choice i c h = cc

-- What a match says of all the candidates that were scored.
abbrev pub Unambiguous : {I : Type 0} → List (Scored I) → I → RepairConfidence → Type 0
Unambiguous {I = I} xs i c =
    (best : Scored I) × (others : List (Scored I)) × Perm (best ∷ others) xs
    × (best.candidate ≡ i)
    × (best.confidence ≡ c)
    × (is_high_confidence best.confidence ≡ true)
    × All (Clear best.confidence) others

choose-Unambiguous :
    {I : Type 0} (xs ys : List (Scored I)) (i : I) (c : RepairConfidence)
    → Perm xs ys
    → Falls xs
    → choose xs ≡ some (i, c)
    → Unambiguous ys i c
choose-Unambiguous [] ys i c p f h = absurd (no_choice i c h)
choose-Unambiguous (best ∷ others) ys i c p f h =
    let b = choose-best best others i c h in
    (best, others, p, b.0, b.1, b.2, others-Clear best others i c f h)

module _ (u : Unicode) {I : Type 0} (node : I → SemanticNode) where
  -- When a source is matched to a candidate, the scored candidates are, in some order, that one and
  -- the others; its confidence is high; and each of the others is at most it in bucket and score and
  -- is not within the gap threshold of its score in its bucket.
  pub best_candidate-Unambiguous :
      (source : RefRepairSourceSignature) (is : List I) (i : I) (c : RepairConfidence)
      → best_candidate_for_source_signature u node source is ≡ some (i, c)
      → Unambiguous (score_all u node source is) i c
  unfolding best_candidate_for_source_signature
  best_candidate-Unambiguous source is i c h =
      let xs = score_all u node source is in
      choose-Unambiguous (sort before xs) xs i c (sort-perm before xs) (Falls-sort xs) h

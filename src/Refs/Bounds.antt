-- ===== src/Refs/Bounds.antt =====
-- What a bucket says of the evidence and of the score (`confidence_bucket` and `confidence_score` of
-- refs/service.py).
use androidctl.Prelude.{ℕ, ◌≤◌, ltb, false, ◌||◌, none, some, ◌≡◌, ◌↔◌, arith, ◌⊎◌}
use androidctl.Refs.Evidence.{
  RepairEvidence, identity_anchor_count, contextual_anchor, confidence_bucket, confidence_score,
  high_confidence_bucket, medium_confidence_bucket,
}

-- Evidence has a bucket exactly when it has an identity anchor or a contextual anchor, which is the
-- test that `candidate_match_confidence` makes before it asks for the bucket.
pub has_bucket_iff :
    (e : RepairEvidence)
    → (confidence_bucket e ≡ none)
      ↔ (ltb 0 (identity_anchor_count e) || contextual_anchor e ≡ false)
unfolding confidence_bucket
has_bucket_iff e = (λ h. ground arith, λ h. ground arith)

-- High confidence means a score between 10 and 36, and medium confidence one between 8 and 11.
pub score_by_bucket :
    (e : RepairEvidence) (b : ℕ)
    → confidence_bucket e ≡ some b
    → ((b ≡ high_confidence_bucket) × (10 ≤ confidence_score e) × (confidence_score e ≤ 36))
      ⊎ ((b ≡ medium_confidence_bucket) × (8 ≤ confidence_score e) × (confidence_score e ≤ 11))
unfolding confidence_bucket confidence_score
score_by_bucket e b h = ground arith

-- ===== src/Refs/Tests.antt =====
-- Tests of the matching of refs, on texts of ASCII.
use androidctl.Prelude.{
  ◌≤◌, text_eq, text_lt, true, false, ◌||◌, ltb, none, some, [], ◌∷◌, All, Distinct, ◌≡◌, ◌↔◌, ◌⊎◌,
  refl,
}
use androidctl.Prelude.Int.{abs_diff}
use androidctl.Prelude.Sort.{sort}
use androidctl.TextEquivalence.{canonical_text_key}
use androidctl.Models.Candidates.{ref_candidates}
use androidctl.Models.Samples.{ascii, nodes, source, screen, registry}
use androidctl.Refs.Evidence.{
  RepairConfidence, RepairEvidence, confidence_bucket, confidence_score, identity_anchor_count,
  contextual_anchor, high_confidence_bucket, medium_confidence_bucket, key_lt, key_eq,
  is_high_confidence, repair_gap_too_small,
}
use androidctl.Refs.Match.{
  candidate_match_confidence, evidence_for, score_all, scored_lt,
  best_candidate_for_source_signature,
}
use androidctl.Refs.Reconcile.{reconcile}
use androidctl.Refs.Naming.{named, IsRegistry}
use androidctl.Refs.Registry.{Bound, reconcile-Bound}
use androidctl.Refs.Bounds.{has_bucket_iff, score_by_bucket}
use androidctl.Refs.Choice.{Unambiguous, best_candidate-Unambiguous}

abbrev evidence : RepairEvidence
evidence = record {
  label_match = true;
  resource_match = true;
  class_match = true;
  parent_match = true;
  sibling_overlap = 0;
  state_overlap = 0;
  actions_overlap = 1;
  bounds_distance = 21;
}

abbrev confidence : RepairConfidence
confidence = record { bucket = 2; score = 24; evidence = evidence }

found :
    best_candidate_for_source_signature ascii nodes source (0 ∷ 1 ∷ 2 ∷ []) ≡ some (1, confidence)
unfolding best_candidate_for_source_signature sort candidate_match_confidence text_eq
    identity_anchor_count evidence_for canonical_text_key confidence_bucket abs_diff scored_lt
    key_lt text_lt confidence_score key_eq is_high_confidence repair_gap_too_small
found = refl

best_candidate-Unambiguous_example :
    Unambiguous (score_all ascii nodes source (0 ∷ 1 ∷ 2 ∷ [])) 1 confidence
best_candidate-Unambiguous_example =
    best_candidate-Unambiguous ascii nodes source (0 ∷ 1 ∷ 2 ∷ []) 1 confidence found

has_bucket_iff_example :
    (confidence_bucket evidence ≡ none)
    ↔ (ltb 0 (identity_anchor_count evidence) || contextual_anchor evidence ≡ false)
has_bucket_iff_example = has_bucket_iff evidence

score_by_bucket_example :
    ((2 ≡ high_confidence_bucket)
      × (10 ≤ confidence_score evidence)
      × (confidence_score evidence ≤ 36))
    ⊎ ((2 ≡ medium_confidence_bucket)
        × (8 ≤ confidence_score evidence)
        × (confidence_score evidence ≤ 11))
unfolding confidence_bucket
score_by_bucket_example = score_by_bucket evidence 2 refl

reconcile-Bound_example :
    let st = reconcile ascii 4 (ref_candidates screen) (some registry) in
    All (Bound ascii screen 4 st) (ref_candidates screen)
    × Distinct (named st.refs)
    × IsRegistry st.bindings
reconcile-Bound_example =
    reconcile-Bound ascii screen 4 (some registry) (((refl, refl), tt), (refl, tt))

-- ===== src/Refs/Match.antt =====
-- How well a candidate node of the new screen fits a known ref: fingerprints, bindings and
-- `candidate_match_confidence` of refs/service.py.
use androidctl.Prelude.{
  ℕ, ◌+◌, Text, text_eq, text_in, text_lt, nonempty, Bool, ◌&&◌, ◌||◌, not, Option, none, some,
  List, [], ◌∷◌, map, keep_if, ltb, if◌then◌else◌,
}
use androidctl.Prelude.Int.{abs_diff}
use androidctl.Prelude.Sort.{sort}
use androidctl.TextEquivalence.{Unicode, canonical_text_key}
use androidctl.Models.Snapshots.{Bounds}
use androidctl.Models.Semantic.{SemanticNode, resource_id, class_name}
use androidctl.Models.Refs.{RefFingerprint, RefRepairSourceSignature, RefBinding}
use androidctl.Refs.Evidence.{
  RepairEvidence, RepairConfidence, identity_anchor_count, contextual_anchor, confidence_bucket,
  confidence_score, key_lt, key_eq, is_high_confidence, repair_gap_too_small,
}

-- `len(set(left).intersection(right))`: each value is counted at its last place.
unfoldable pub count_common : List Text → List Text → ℕ
count_common [] right = 0
count_common (x ∷ xs) right =
    (if text_in x right && not (text_in x xs) then 1 else 0) + count_common xs right

unfoldable pub bounds_distance_score : Bounds → Bounds → ℕ
bounds_distance_score a b =
    abs_diff a.left b.left
    + abs_diff a.top b.top
    + abs_diff a.right b.right
    + abs_diff a.bottom b.bottom

module _ (u : Unicode) where
  abbrev pub key : Text → Text
  key s = canonical_text_key u (some s)

  -- `{canonical_text_key(v) for v in values if canonical_text_key(v)}`
  abbrev pub keys : List Text → List Text
  keys values = keep_if nonempty (map key values)

  unfoldable pub set_overlap : List Text → List Text → ℕ
  unfolding count_common
  set_overlap left right = count_common (keys left) (keys right)

  unfoldable pub fingerprint_for_candidate : SemanticNode → RefFingerprint
  fingerprint_for_candidate n = record {
    role = n.role;
    normalized_label = key n.label;
    resource_id = key (resource_id n);
    class_name = key (class_name n);
    parent_role = key n.parent_role;
    parent_label = key n.parent_label;
    sibling_labels = keys n.sibling_labels;
    relative_bounds = n.relative_bounds;
  }

  unfoldable pub binding_for_candidate : Text → SemanticNode → ℕ → Bool → RefBinding
  unfolding fingerprint_for_candidate
  binding_for_candidate ref n snapshot_id reused = record {
    ref = ref;
    handle = record { snapshot_id = snapshot_id; rid = n.raw_rid };
    fingerprint = fingerprint_for_candidate n;
    semantic_profile = record { state = n.state; actions = n.actions };
    reused = reused;
  }

  -- The evidence of `candidate_match_confidence`, for a candidate of the same role.
  unfoldable pub evidence_for : RefRepairSourceSignature → SemanticNode → RepairEvidence
  unfolding fingerprint_for_candidate set_overlap bounds_distance_score
  evidence_for source n =
      let old = source.fingerprint in
      let new = fingerprint_for_candidate n in
      record {
        label_match =
            text_eq new.normalized_label old.normalized_label && nonempty old.normalized_label;
        resource_match = text_eq new.resource_id old.resource_id && nonempty old.resource_id;
        class_match = text_eq new.class_name old.class_name && nonempty old.class_name;
        parent_match =
            text_eq new.parent_role old.parent_role
            && (text_eq new.parent_label old.parent_label
                && (nonempty old.parent_role || nonempty old.parent_label));
        sibling_overlap = count_common new.sibling_labels old.sibling_labels;
        state_overlap = set_overlap source.state n.state;
        actions_overlap = set_overlap source.actions n.actions;
        bounds_distance = bounds_distance_score new.relative_bounds old.relative_bounds;
      }

  abbrev confident : RepairEvidence → Option ℕ → Option RepairConfidence
  confident e none = none
  confident e (some bucket) =
      some (record { bucket = bucket; score = confidence_score e; evidence = e })

  unfoldable pub candidate_match_confidence :
      RefRepairSourceSignature → SemanticNode → Option RepairConfidence
  candidate_match_confidence source n =
      let e = evidence_for source n in
      if not (text_eq n.role source.fingerprint.role)
      then none
      else if not (ltb 0 (identity_anchor_count e) || contextual_anchor e)
      then none
      else confident e (confidence_bucket e)

unfoldable pub source_signature_from_binding : RefBinding → RefRepairSourceSignature
source_signature_from_binding b = record {
  ref = b.ref;
  fingerprint = b.fingerprint;
  state = b.semantic_profile.state;
  actions = b.semantic_profile.actions;
}

-- A candidate with its place, which is its identity, and its confidence.
pub record Scored (I : Type 0) : Type 0 where
  pub confidence : RepairConfidence
  pub rid : Text
  pub candidate : I

-- `(confidence.sort_key, raw_rid)` of `a` is below that of `b`.
unfoldable pub scored_lt : {I : Type 0} → Scored I → Scored I → Bool
scored_lt a b =
    key_lt a.confidence b.confidence || (key_eq a.confidence b.confidence && text_lt a.rid b.rid)

-- `scored.sort(key=..., reverse=True)`
abbrev pub before : {I : Type 0} → Scored I → Scored I → Bool
before a b = scored_lt b a

-- The choice among the sorted candidates: the best one, if it is good enough and no second one comes
-- near it.
unfoldable pub choose : {I : Type 0} → List (Scored I) → Option (I × RepairConfidence)
choose [] = none
choose (best ∷ []) =
    if is_high_confidence best.confidence then some (best.candidate, best.confidence) else none
choose (best ∷ second ∷ rest) =
    if not (is_high_confidence best.confidence)
    then none
    else if repair_gap_too_small best.confidence second.confidence
    then none
    else some (best.candidate, best.confidence)

module _ (u : Unicode) {I : Type 0} (node : I → SemanticNode) where
  -- The loop that scores the candidates.
  unfoldable pub score_all : RefRepairSourceSignature → List I → List (Scored I)
  score_all source [] = []
  score_all source (i ∷ is) =
      let rest = score_all source is in
      elim (candidate_match_confidence u source (node i)) [
        | none ↦ rest
        | some c ↦ record { confidence = c; rid = (node i).raw_rid; candidate = i } ∷ rest
      ]

  unfoldable pub best_candidate_for_source_signature :
      RefRepairSourceSignature → List I → Option (I × RepairConfidence)
  unfolding score_all choose
  best_candidate_for_source_signature source is = choose (sort before (score_all source is))

  unfoldable pub best_candidate_for_binding : RefBinding → List I → Option (I × RepairConfidence)
  unfolding best_candidate_for_source_signature source_signature_from_binding
  best_candidate_for_binding b is =
      best_candidate_for_source_signature (source_signature_from_binding b) is

-- ===== src/Refs/Evidence.antt =====
-- `RepairEvidence` and `RepairConfidence` of refs/service.py: the evidence for a match, its bucket and
-- its score.
use androidctl.Prelude.{
  ℕ, ◌+◌, ◌*◌, min, leb, ltb, nat_eq, Bool, false, ◌&&◌, ◌||◌, not, Option, none, some, List, [],
  ◌∷◌, text_lt, text_eq, if◌then◌else◌,
}

abbrev pub high_confidence_bucket : ℕ
high_confidence_bucket = 2

abbrev pub medium_confidence_bucket : ℕ
medium_confidence_bucket = 1

abbrev pub strong_bounds_distance : ℕ
strong_bounds_distance = 8

abbrev pub gap_threshold_anchored : ℕ
gap_threshold_anchored = 2

abbrev pub gap_threshold_contextual : ℕ
gap_threshold_contextual = 3

pub record RepairEvidence : Type 0 where
  pub label_match : Bool
  pub resource_match : Bool
  pub class_match : Bool
  pub parent_match : Bool
  pub sibling_overlap : ℕ
  pub state_overlap : ℕ
  pub actions_overlap : ℕ
  pub bounds_distance : ℕ

-- `int(b)`
abbrev pub int : Bool → ℕ
int b = if b then 1 else 0

unfoldable pub strong_bounds_match : RepairEvidence → Bool
strong_bounds_match e = leb e.bounds_distance strong_bounds_distance

unfoldable pub identity_anchor_count : RepairEvidence → ℕ
identity_anchor_count e = int e.label_match + int e.resource_match

unfoldable pub semantic_signal_count : RepairEvidence → ℕ
unfolding strong_bounds_match
semantic_signal_count e =
    int (ltb 0 e.sibling_overlap)
    + int (ltb 0 e.state_overlap)
    + int (ltb 0 e.actions_overlap)
    + int (strong_bounds_match e)

unfoldable pub corroboration_count : RepairEvidence → ℕ
unfolding strong_bounds_match
corroboration_count e =
    int e.class_match
    + int e.parent_match
    + int (ltb 0 e.sibling_overlap)
    + int (ltb 0 e.state_overlap)
    + int (ltb 0 e.actions_overlap)
    + int (strong_bounds_match e)

unfoldable pub contextual_anchor : RepairEvidence → Bool
unfolding semantic_signal_count
contextual_anchor e = e.class_match && (e.parent_match && ltb 0 (semantic_signal_count e))

unfoldable pub confidence_bucket : RepairEvidence → Option ℕ
unfolding identity_anchor_count semantic_signal_count corroboration_count contextual_anchor
confidence_bucket e =
    if leb 2 (identity_anchor_count e)
    then some high_confidence_bucket
    else if nat_eq (identity_anchor_count e) 1
    then (if leb 1 (semantic_signal_count e) || leb 2 (corroboration_count e)
        then some high_confidence_bucket
        else some medium_confidence_bucket)
    else if contextual_anchor e
    then (if leb 2 (semantic_signal_count e) && leb 4 (corroboration_count e)
        then some high_confidence_bucket
        else some medium_confidence_bucket)
    else none

unfoldable pub confidence_score : RepairEvidence → ℕ
unfolding identity_anchor_count strong_bounds_match
confidence_score e =
    identity_anchor_count e * 8
    + int e.class_match * 3
    + int e.parent_match * 3
    + min e.sibling_overlap 2 * 2
    + min e.state_overlap 2 * 2
    + min e.actions_overlap 2 * 2
    + int (strong_bounds_match e) * 2

pub record RepairConfidence : Type 0 where
  pub bucket : ℕ
  pub score : ℕ
  pub evidence : RepairEvidence

unfoldable pub is_high_confidence : RepairConfidence → Bool
is_high_confidence c = leb high_confidence_bucket c.bucket

-- `best.score - runner_up.score < gap_threshold`; the difference may be negative in the source, and
-- is then below the threshold too.
unfoldable pub repair_gap_too_small : RepairConfidence → RepairConfidence → Bool
unfolding identity_anchor_count
repair_gap_too_small best runner_up =
    if not (nat_eq runner_up.bucket best.bucket)
    then false
    else ltb best.score (
        runner_up.score
        + (if ltb 0 (identity_anchor_count best.evidence)
            then gap_threshold_anchored
            else gap_threshold_contextual))

-- `sort_key` without its last part, which is the negated distance of the bounds.
unfoldable pub sort_key : RepairConfidence → List ℕ
unfolding identity_anchor_count corroboration_count
sort_key c =
    c.bucket
    ∷ c.score
    ∷ identity_anchor_count c.evidence
    ∷ corroboration_count c.evidence
    ∷ c.evidence.sibling_overlap
    ∷ c.evidence.state_overlap
    ∷ c.evidence.actions_overlap
    ∷ []

-- `a.sort_key < b.sort_key`; lists of numbers are compared as tuples are.
unfoldable pub key_lt : RepairConfidence → RepairConfidence → Bool
unfolding sort_key
key_lt a b =
    text_lt (sort_key a) (sort_key b)
    || (text_eq (sort_key a) (sort_key b)
        && ltb b.evidence.bounds_distance a.evidence.bounds_distance)

-- `a.sort_key == b.sort_key`
unfoldable pub key_eq : RepairConfidence → RepairConfidence → Bool
unfolding sort_key
key_eq a b =
    text_eq (sort_key a) (sort_key b)
    && nat_eq a.evidence.bounds_distance b.evidence.bounds_distance

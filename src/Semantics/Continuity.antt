-- ===== src/Semantics/Continuity.antt =====
-- semantics/continuity.py: whether a screen goes on from the one before it.
use androidctl.Prelude.{
  Text, text, text_eq, nonempty, Bool, true, false, Option, none, some, List, [], ◌∷◌,
  if◌then◌else◌, keep_if,
}
use androidctl.TextEquivalence.{Unicode}
use androidctl.Models.Semantic.{CompiledScreen}
use androidctl.Models.Candidates.{Candidate, ref_candidates}
use androidctl.Refs.Match.{binding_for_candidate, best_candidate_for_binding}
use androidctl.Refs.Reconcile.{remove}

pub data ContinuityStatus : Type 0 where
  no_status stable stale : ContinuityStatus

pub record ContinuityDecision : Type 0 where
  pub next_screen_id : Text
  pub continuity_status : ContinuityStatus
  pub changed : Option Bool
  pub code : Option Text

-- `[candidate for candidate in source_screen.ref_candidates() if candidate.ref]`
unfoldable pub source_candidates : CompiledScreen → List Candidate
source_candidates s = keep_if (λ c. nonempty c.node.ref) (ref_candidates s)

module _ (u : Unicode) where
  -- The loop over the source's candidates.
  unfoldable pub repair_each : List Candidate → List Candidate → Bool
  repair_each [] remaining = true
  repair_each (c ∷ cs) remaining =
      elim (best_candidate_for_binding u (λ d. d.node)
        (binding_for_candidate u c.node.ref c.node 0 true) remaining) [
          | none ↦ false
          | some (m, _) ↦ repair_each cs (remove m remaining)
        ]

  -- The loop after the test for no candidates at all.
  abbrev pub repair_some : List Candidate → List Candidate → Bool
  repair_some [] remaining = false
  repair_some (c ∷ cs) remaining = repair_each (c ∷ cs) remaining

  -- `_strict_repair_succeeds`
  unfoldable pub strict_repair_succeeds : CompiledScreen → CompiledScreen → Bool
  unfolding repair_each source_candidates
  strict_repair_succeeds source candidate =
      repair_some (source_candidates source) (ref_candidates candidate)

  unfoldable pub evaluate_continuity : Option CompiledScreen → CompiledScreen → ContinuityDecision
  unfolding strict_repair_succeeds
  evaluate_continuity none candidate = record {
    next_screen_id = candidate.screen_id;
    continuity_status = no_status;
    changed = none;
    code = none;
  }
  evaluate_continuity (some source) candidate =
      if text_eq candidate.action_surface_fingerprint source.action_surface_fingerprint
      then record {
        next_screen_id = source.screen_id;
        continuity_status = stable;
        changed = some false;
        code = none;
      }
      else if strict_repair_succeeds source candidate
      then record {
        next_screen_id = candidate.screen_id;
        continuity_status = stable;
        changed = some true;
        code = none;
      }
      else record {
        next_screen_id = candidate.screen_id;
        continuity_status = stale;
        changed = some true;
        code = some (text "REF_STALE");
      }

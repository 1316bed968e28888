-- ===== src/Semantics/Repair.antt =====
-- What a strict repair of semantics/continuity.py needs of the new screen.
use androidctl.Prelude.{
  suc, ◌≤◌, text_eq, true, false, none, some, List, [], ◌∷◌, All, All-map, length, any, ◌≡◌, arith,
}
use androidctl.TextEquivalence.{Unicode}
use androidctl.Models.Semantic.{CompiledScreen}
use androidctl.Models.Candidates.{Candidate, same_place, ref_candidates}
use androidctl.Refs.Match.{binding_for_candidate, best_candidate_for_binding}
use androidctl.Refs.Reconcile.{remove}
use androidctl.Refs.Located.{OnSome, best_candidate-OnSome}
use androidctl.Semantics.Continuity.{
  stable, source_candidates, repair_each, repair_some, strict_repair_succeeds, evaluate_continuity,
}

-- The candidate stands in the list.
abbrev Among : List Candidate → Candidate → Type 0
Among cs c = any (λ d. same_place c.place d.place) cs ≡ true

same_place_refl : (c : Candidate) → same_place c.place c.place ≡ true
unfolding same_place
same_place_refl c = ground arith

Among-self : (cs : List Candidate) → All (Among cs) cs
Among-self [] = tt
Among-self (c ∷ cs) =
    (ground (arith, same_place_refl c), All-map _ _ cs (λ d h. ground arith) (Among-self cs))

length-remove :
    (c : Candidate) (cs : List Candidate) → Among cs c → suc (length (remove c cs)) ≡ length cs
unfolding remove
length-remove c [] h = cc
length-remove c (d ∷ ds) h = ground (arith, length-remove c ds)

module _ (u : Unicode) where
  repair_each-length :
      (cs remaining : List Candidate)
      → repair_each u cs remaining ≡ true
      → length cs ≤ length remaining
  unfolding repair_each
  repair_each-length [] remaining h = omega arith
  repair_each-length (c ∷ cs) remaining h =
      (elim (best_candidate_for_binding u (λ d. d.node)
            (binding_for_candidate u c.node.ref c.node 0 true) remaining)
          as (λ o.
            OnSome (λ r. Among remaining r.0) o
            → (elim o [ none ↦ false | some (m, _) ↦ repair_each u cs (remove m remaining) ]) ≡ true
            → suc (length cs) ≤ length remaining) [
              | none ↦ λ here k. cc
              | some (m, _) ↦ λ here k. omega (
                arith,
                length-remove m remaining here,
                repair_each-length cs (remove m remaining) k,
              )
            ])
        (best_candidate-OnSome u (λ d. d.node) (Among remaining)
          (binding_for_candidate u c.node.ref c.node 0 true) remaining (Among-self remaining))
        h

  repair_some-length :
      (cs remaining : List Candidate)
      → repair_some u cs remaining ≡ true
      → (1 ≤ length cs) × (length cs ≤ length remaining)
  repair_some-length [] remaining h = cc
  repair_some-length (c ∷ cs) remaining h = (omega arith, repair_each-length (c ∷ cs) remaining h)

  strict_repair-length :
      (source candidate : CompiledScreen)
      → strict_repair_succeeds u source candidate ≡ true
      → (1 ≤ length (source_candidates source))
        × (length (source_candidates source) ≤ length (ref_candidates candidate))
  unfolding strict_repair_succeeds
  strict_repair-length source candidate h =
      repair_some-length (source_candidates source) (ref_candidates candidate) h

  -- When a screen is judged a stable change of its source: their action surfaces differ, the source
  -- has at least one candidate with a ref, the screen has at least as many candidates as the source
  -- has with a ref, and the screen is the next one.
  pub evaluate_continuity-length :
      (source candidate : CompiledScreen)
      → (evaluate_continuity u (some source) candidate).continuity_status ≡ stable
      → (evaluate_continuity u (some source) candidate).changed ≡ some true
      → (text_eq candidate.action_surface_fingerprint source.action_surface_fingerprint ≡ false)
        × (1 ≤ length (source_candidates source))
        × (length (source_candidates source) ≤ length (ref_candidates candidate))
        × ((evaluate_continuity u (some source) candidate).next_screen_id ≡ candidate.screen_id)
  unfolding evaluate_continuity
  evaluate_continuity-length source candidate s c =
      ground (arith, strict_repair-length source candidate)

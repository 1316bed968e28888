-- ===== src/Waits/Idle.antt =====
-- When a wait for an idle screen is matched (`_evaluate_idle_wait` of waits/evaluators.py).
use androidctl.Prelude.{
  ℕ, ◌-◌, ◌≤◌, leb, Bool, true, false, Option, none, some, List, [], ◌∷◌, ◌≡◌, refl, sym, subst,
  arith, Bool-cases, inl, inr, if◌then◌else◌,
}
use androidctl.TextEquivalence.{Unicode}
use androidctl.Models.Snapshots.{RawSnapshot}
use androidctl.Models.Semantic.{CompiledScreen}
use androidctl.Waits.Signature.{ScreenSignature, compiled_screen_signature, signature_eq}
use androidctl.Waits.Evaluators.{
  WaitIdleEvaluationState, no_idle_state, WaitEvaluationOutcome, wait_matched, wait_idle_tracking,
  wait_idle_stable_window_ms, evaluate_idle_wait,
}

-- The observed screens with their times, the last one first.
abbrev pub History : Type 0
History = List (ℕ × CompiledScreen)

abbrev pub is_match : WaitEvaluationOutcome → Bool
is_match (wait_matched _ _) = true
is_match _ = false

-- The state that the wait's loop keeps after an evaluation. A match ends the wait, and an observation
-- after it begins another one.
abbrev kept : WaitEvaluationOutcome → WaitIdleEvaluationState
kept (wait_idle_tracking state) = state
kept _ = no_idle_state

module _ (u : Unicode) (snapshot : RawSnapshot) where
  unfoldable pub idle_after : History → WaitIdleEvaluationState
  unfolding evaluate_idle_wait
  idle_after [] = no_idle_state
  idle_after ((now, screen) ∷ h) =
      kept (evaluate_idle_wait u snapshot (some screen) (idle_after h) now)

  -- The signature was the same at all observations back to one at time `t`.
  pub data SameSince (t : ℕ) : History → Type 0 where
    started : {c : CompiledScreen} {h : History} → SameSince t ((t, c) ∷ h)
    went_on :
        {now before : ℕ} {c d : CompiledScreen} {h : History}
        → signature_eq (compiled_screen_signature u c) (compiled_screen_signature u d) ≡ true
        → SameSince t ((before, d) ∷ h)
        → SameSince t ((now, c) ∷ (before, d) ∷ h)

  abbrev QuietOf : Option ScreenSignature → Option ℕ → History → Type 0
  QuietOf none o h = Unit
  QuietOf (some s) none h = ⊥
  QuietOf (some s) (some t) [] = ⊥
  QuietOf (some s) (some t) ((now, c) ∷ h) =
      (s ≡ compiled_screen_signature u c) × SameSince t ((now, c) ∷ h)

  abbrev Quiet : WaitIdleEvaluationState → History → Type 0
  Quiet state h = QuietOf state.idle_signature state.idle_stable_since h

  abbrev state_of : Option ScreenSignature → Option ℕ → WaitIdleEvaluationState
  state_of s o = record { idle_signature = s; idle_stable_since = o }

  went_on_from :
      (t now before : ℕ) (c d : CompiledScreen) (h : History) (s : ScreenSignature)
      → s ≡ compiled_screen_signature u d
      → signature_eq (compiled_screen_signature u c) s ≡ true
      → SameSince t ((before, d) ∷ h)
      → SameSince t ((now, c) ∷ (before, d) ∷ h)
  went_on_from t now before c d h s e same q =
      went_on (subst (λ r. signature_eq (compiled_screen_signature u c) r ≡ true) e same) q

  module _ (s : ScreenSignature) (t now : ℕ) (c : CompiledScreen) where
    abbrev evaluated : WaitEvaluationOutcome
    evaluated = evaluate_idle_wait u snapshot (some c) (state_of (some s) (some t)) now

    abbrev tracked : ℕ → WaitEvaluationOutcome
    tracked start =
        wait_idle_tracking (state_of (some (compiled_screen_signature u c)) (some start))

    evaluated_changed :
        signature_eq (compiled_screen_signature u c) s ≡ false → evaluated ≡ tracked now
    unfolding evaluate_idle_wait
    evaluated_changed h = ground arith

    evaluated_same :
        signature_eq (compiled_screen_signature u c) s ≡ true
        → evaluated ≡ (
            if leb wait_idle_stable_window_ms (now - t)
            then wait_matched snapshot none
            else tracked t)
    unfolding evaluate_idle_wait
    evaluated_same h = ground arith

    evaluated_match :
        is_match evaluated ≡ true
        → (signature_eq (compiled_screen_signature u c) s ≡ true)
          × (wait_idle_stable_window_ms ≤ now - t)
    unfolding evaluate_idle_wait
    evaluated_match h = ground arith

  step-Quiet :
      (s : Option ScreenSignature) (o : Option ℕ) (now : ℕ) (c : CompiledScreen) (h : History)
      → QuietOf s o h
      → Quiet (kept (evaluate_idle_wait u snapshot (some c) (state_of s o) now)) ((now, c) ∷ h)
  unfolding evaluate_idle_wait
  step-Quiet none o now c h q = (refl, started)
  step-Quiet (some s) none now c h q = elim q [ ]
  step-Quiet (some s) (some t) now c [] q = elim q [ ]
  step-Quiet (some s) (some t) now c ((before, d) ∷ h) q =
      let Goal = λ (e : WaitEvaluationOutcome). Quiet (kept e) ((now, c) ∷ (before, d) ∷ h) in
      elim (Bool-cases (signature_eq (compiled_screen_signature u c) s)) [
        | inr changed ↦ subst Goal (sym (evaluated_changed s t now c changed)) (refl, started)
        | inl same ↦ subst Goal (sym (evaluated_same s t now c same)) (
            tracked-Quiet (leb wait_idle_stable_window_ms (now - t))
              (went_on_from t now before c d h s q.0 same q.1))
      ]
    where
      tracked-Quiet :
          (b : Bool)
          → SameSince t ((now, c) ∷ (before, d) ∷ h)
          → Quiet
              (kept (if b then wait_matched snapshot none else tracked s t now c t))
              ((now, c) ∷ (before, d) ∷ h)
      tracked-Quiet true k = tt
      tracked-Quiet false k = (refl, k)

  idle_after-Quiet : (h : History) → Quiet (idle_after h) h
  unfolding idle_after
  idle_after-Quiet [] = tt
  idle_after-Quiet ((now, c) ∷ h) =
      step-Quiet (idle_after h).idle_signature (idle_after h).idle_stable_since now c h
        (idle_after-Quiet h)

  match-Quiet :
      (s : Option ScreenSignature) (o : Option ℕ) (now : ℕ) (c : CompiledScreen) (h : History)
      → QuietOf s o h
      → is_match (evaluate_idle_wait u snapshot (some c) (state_of s o) now) ≡ true
      → (t : ℕ) × SameSince t ((now, c) ∷ h) × (wait_idle_stable_window_ms ≤ now - t)
  unfolding evaluate_idle_wait
  match-Quiet none o now c h q m = cc
  match-Quiet (some s) none now c h q m = elim q [ ]
  match-Quiet (some s) (some t) now c [] q m = elim q [ ]
  match-Quiet (some s) (some t) now c ((before, d) ∷ h) q m =
      let r = evaluated_match s t now c m in (t, went_on_from t now before c d h s q.0 r.0 q.1, r.1)

  -- When the wait for an idle screen is matched by a screen, after any others: the screens had the
  -- same signature, one as the next, back to an observation that is 500 ms before it.
  pub idle_match_is_quiet :
      (h : History) (now : ℕ) (screen : CompiledScreen)
      → is_match (evaluate_idle_wait u snapshot (some screen) (idle_after h) now) ≡ true
      → (t : ℕ) × SameSince t ((now, screen) ∷ h) × (wait_idle_stable_window_ms ≤ now - t)
  idle_match_is_quiet h now screen m =
      match-Quiet (idle_after h).idle_signature (idle_after h).idle_stable_since now screen h
        (idle_after-Quiet h) m

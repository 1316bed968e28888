-- ===== src/Waits/Stability.antt =====
-- When `ObservationLoop.observe_stability` of observation.py reports a stable screen.
use androidctl.Prelude.{
  ℕ, ◌+◌, ◌-◌, ◌≤◌, Bool, true, false, Option, none, some, List, [], ◌∷◌, ◌≡◌, refl, sym, subst,
  arith,
}
use androidctl.Waits.Observation.{
  ObservationPolicy, ObservationLoop, begin, grace_deadline_at, since, observe_stability,
}

-- The times of the observations and whether each saw a change, the last one first.
abbrev pub History : Type 0
History = List (ℕ × Bool)

-- The loop after its observations.
unfoldable pub after : ObservationPolicy → ℕ → History → ObservationLoop
unfolding begin observe_stability
after policy started_at [] = begin policy started_at
after policy started_at ((now, changed) ∷ h) =
    (observe_stability now changed (after policy started_at h)).1

-- No change was seen back to an observation at time `t`, that one included.
pub data QuietSince (t : ℕ) : History → Type 0 where
  started : {h : History} → QuietSince t ((t, false) ∷ h)
  went_on : {now : ℕ} {h : History} → QuietSince t h → QuietSince t ((now, false) ∷ h)

abbrev Quiet : Option ℕ → History → Type 0
Quiet none h = Unit
Quiet (some t) h = QuietSince t h

policy-after :
    (p : ObservationPolicy) (s : ℕ) (h : History)
    → ((after p s h).policy ≡ p) × ((after p s h).started_at ≡ s)
unfolding after
policy-after p s [] = (refl, refl)
policy-after p s ((now, true) ∷ h) = ground (arith, policy-after p s h)
policy-after p s ((now, false) ∷ h) = ground (arith, policy-after p s h)

since-Quiet :
    (o : Option ℕ) (now : ℕ) (h : History) → Quiet o h → QuietSince (since o now) ((now, false) ∷ h)
since-Quiet none now h q = started
since-Quiet (some t) now h q = went_on q

after-Quiet : (p : ObservationPolicy) (s : ℕ) (h : History) → Quiet (after p s h).stable_since h
unfolding after
after-Quiet p s [] = tt
after-Quiet p s ((now, true) ∷ h) = tt
after-Quiet p s ((now, false) ∷ h) =
    since-Quiet (after p s h).stable_since now h (after-Quiet p s h)

observed :
    (o : ObservationLoop) (now : ℕ) (changed : Bool)
    → (observe_stability now changed o).0 ≡ true
    → (changed ≡ false)
      × (o.started_at + o.policy.min_grace_ms ≤ now)
      × (o.policy.stable_window_ms ≤ now - since o.stable_since now)
unfolding observe_stability grace_deadline_at
observed o now changed h = ground arith

-- When an observation reports a stable screen, after any others: it saw no change itself, the grace
-- period is over, and no change was seen back to an observation that is the stable window before it.
pub stable_is_quiet :
    (p : ObservationPolicy) (s : ℕ) (h : History) (now : ℕ) (changed : Bool)
    → (observe_stability now changed (after p s h)).0 ≡ true
    → (changed ≡ false)
      × (s + p.min_grace_ms ≤ now)
      × (t : ℕ) × QuietSince t ((now, changed) ∷ h)
      × (p.stable_window_ms ≤ now - t)
stable_is_quiet p s h now changed stable =
    let o = after p s h in
    let (same, grace, window) = observed o now changed stable in
    let (policy, start) = policy-after p s h in
    (
      same,
      subst (λ q. s + q.min_grace_ms ≤ now) policy
          (subst (λ t. t + o.policy.min_grace_ms ≤ now) start grace),
      since o.stable_since now,
      subst (λ c. QuietSince (since o.stable_since now) ((now, c) ∷ h)) (sym same)
          (since-Quiet o.stable_since now h (after-Quiet p s h)),
      subst (λ q. q.stable_window_ms ≤ now - since o.stable_since now) policy window,
    )

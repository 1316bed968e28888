-- ===== src/Waits/Retry.antt =====
-- `fetch_with_transient_invalid_snapshot_retry` of snapshots/service.py. The device, and the clock that
-- is read after a failed attempt, are functions of the number of attempts so far.
use androidctl.Prelude.{
  ℕ, zero, suc, ◌+◌, ◌-◌, ◌*◌, min, ◌≤◌, ◌<◌, leb, Bool, true, false, ◌||◌, Option, none, some, ◌≡◌,
  ◌⊎◌, inl, inr, refl, arith, if◌then◌else◌, Bool-cases,
}

-- How an attempt ends: with a snapshot, with an error of `is_transient_invalid_package_snapshot`, or
-- with another error.
pub data Fetched (A E : Type 0) : Type 0 where
  got : A → Fetched A E
  transient : E → Fetched A E
  failed : E → Fetched A E

-- The end of the last attempt, its number, and the time slept.
pub record Retried (A E : Type 0) : Type 0 where
  pub result : Fetched A E
  pub attempts : ℕ
  pub slept : ℕ

-- `TRANSIENT_INVALID_SNAPSHOT_RETRY_SECONDS`
abbrev pub retry_ms : ℕ
retry_ms = 50

module _ {A E : Type 0} (fetch : ℕ → Fetched A E) (clock : ℕ → ℕ)
    (deadline_at max_retries : ℕ) where
  -- The loop; `none`: the fuel has run out.
  unfoldable pub retry_rounds : ℕ → ℕ → ℕ → Option (Retried A E)
  retry_rounds zero attempts slept = none
  retry_rounds (suc fuel) attempts slept =
      let again =
        retry_rounds fuel (suc attempts) (slept + min (deadline_at - clock attempts) retry_ms) in
      let ended = some (record { result = fetch attempts; attempts = attempts; slept = slept }) in
      elim (fetch attempts) [
        | got a ↦ ended
        | failed e ↦ ended
        | transient e ↦
            if leb max_retries attempts || leb deadline_at (clock attempts) then ended else again
      ]

  unfoldable pub fetch_with_retry : Option (Retried A E)
  unfolding retry_rounds
  fetch_with_retry = retry_rounds (suc max_retries) 0 0

abbrev pub is_transient : {A E : Type 0} → Fetched A E → Bool
is_transient (transient _) = true
is_transient _ = false

module _ {A E : Type 0} (fetch : ℕ → Fetched A E) (clock : ℕ → ℕ)
    (deadline_at max_retries : ℕ) where
  -- Each attempt before the `k`th failed with a transient error, before the deadline.
  abbrev pub Failing : ℕ → Type 0
  Failing zero = Unit
  Failing (suc k) = (is_transient (fetch k) ≡ true) × (clock k < deadline_at) × Failing k

  -- How the loop ends.
  abbrev pub Ends : Option (Retried A E) → Type 0
  Ends none = ⊥
  Ends (some r) =
      (r.result ≡ fetch r.attempts)
      × (r.attempts ≤ max_retries)
      × (r.slept ≤ retry_ms * r.attempts)
      × Failing r.attempts
      × ((is_transient r.result ≡ false)
          ⊎ (r.attempts ≡ max_retries)
          ⊎ (deadline_at ≤ clock r.attempts))

  stop : ℕ → ℕ → Option (Retried A E)
  stop attempts slept =
      some (record { result = fetch attempts; attempts = attempts; slept = slept })

  rounds_done :
      (fuel attempts slept : ℕ)
      → is_transient (fetch attempts) ≡ false
      → retry_rounds fetch clock deadline_at max_retries (suc fuel) attempts slept
        ≡ stop attempts slept
  unfolding retry_rounds stop
  rounds_done fuel attempts slept h = ground arith

  rounds_over :
      (fuel attempts slept : ℕ)
      → leb max_retries attempts || leb deadline_at (clock attempts) ≡ true
      → retry_rounds fetch clock deadline_at max_retries (suc fuel) attempts slept
        ≡ stop attempts slept
  unfolding retry_rounds stop
  rounds_over fuel attempts slept h = ground arith

  rounds_again :
      (fuel attempts slept : ℕ)
      → is_transient (fetch attempts) ≡ true
      → leb max_retries attempts || leb deadline_at (clock attempts) ≡ false
      → retry_rounds fetch clock deadline_at max_retries (suc fuel) attempts slept
        ≡ retry_rounds fetch clock deadline_at max_retries fuel
            (suc attempts)
            (slept + min (deadline_at - clock attempts) retry_ms)
  unfolding retry_rounds
  rounds_again fuel attempts slept h k = ground arith

  rounds-Ends :
      (fuel attempts slept : ℕ)
      → fuel + attempts ≡ suc max_retries
      → attempts ≤ max_retries
      → slept ≤ retry_ms * attempts
      → Failing attempts
      → Ends (retry_rounds fetch clock deadline_at max_retries fuel attempts slept)
  unfolding stop
  rounds-Ends zero attempts slept f le s failing = absurd (omega arith)
  rounds-Ends (suc fuel) attempts slept f le s failing =
      elim (Bool-cases (is_transient (fetch attempts))) [
        | inr done ↦ rw (rounds_done fuel attempts slept done) (refl, le, s, failing, inl done)
        | inl bad ↦
            elim (Bool-cases (leb max_retries attempts || leb deadline_at (clock attempts))) [
              | inl over ↦
                  rw (rounds_over fuel attempts slept over)
                    (refl, le, s, failing, inr (ground arith))
              | inr more ↦ rw (rounds_again fuel attempts slept bad more) (
                  rounds-Ends fuel (suc attempts) _ (omega arith) (ground arith) (ground arith)
                    (bad, ground arith, failing))
            ]
      ]

  -- The retries end: the result is that of an attempt, at most the last one allowed; every attempt
  -- before it failed with a transient error before the deadline; at most 50 ms were slept for each
  -- of them; and a transient error is only returned by the last attempt allowed or past the deadline.
  pub fetch_with_retry-Ends : Ends (fetch_with_retry fetch clock deadline_at max_retries)
  unfolding fetch_with_retry
  fetch_with_retry-Ends =
      rounds-Ends (suc max_retries) 0 0 (omega arith) (omega arith) (omega arith) tt

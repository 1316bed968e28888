-- ===== src/Runtime/Lane.antt =====
-- The progress lane of runtime/kernel.py: one command at a time makes progress on the runtime, and a
-- query waits a little for its turn. Times are in milliseconds.
use androidctl.Prelude.{
  ℕ, zero, suc, ◌+◌, ◌*◌, ◌≤◌, Text, text, Bool, true, false, Option, none, some, ◌≡◌, refl, inl,
  inr, arith, leb, if◌then◌else◌, Bool-cases, leb→le,
}
use androidctl.Runtime.Models.{Runtime, runtime_busy, lock_not_held, Result, ok, err}

-- `_try_acquire_progress_lane_locked`
unfoldable pub try_acquire : Text → Runtime → Bool × Runtime
try_acquire kind r =
    if r.progress_lock
    then (false, r)
    else (true, record r { progress_lock = true; progress_occupant_kind = some kind })

-- `acquire_progress_lane`
unfoldable pub acquire_progress_lane : Text → Runtime → Result (Unit {0}) × Runtime
unfolding try_acquire
acquire_progress_lane kind r =
    let (acquired, r') = try_acquire kind r in (if acquired then ok tt else err runtime_busy, r')

-- `release_progress_lane`; `Lock.release` raises on a lock that is not held.
unfoldable pub release_progress_lane : Runtime → Result (Unit {0}) × Runtime
release_progress_lane r =
    if r.progress_lock
    then (ok tt, record r { progress_lock = false; progress_occupant_kind = none })
    else (err lock_not_held, record r { progress_occupant_kind = none })

-- `QUERY_PROGRESS_WAIT_SECONDS` and `QUERY_PROGRESS_POLL_SECONDS`
abbrev pub query_wait_ms : ℕ
query_wait_ms = 200

abbrev pub query_poll_ms : ℕ
query_poll_ms = 20

-- The loop of `acquire_query_lane` from its round `k` on: `clock k` is the time that the round
-- reads, and `others k` is what the other threads do to the runtime while the round sleeps.
-- `none`: the fuel has run out.
unfoldable pub query_rounds :
    (ℕ → ℕ) → (ℕ → Runtime → Runtime) → ℕ → ℕ → ℕ → Runtime → Option (Result (Unit {0}) × Runtime)
unfolding try_acquire
query_rounds clock others deadline zero k r = none
query_rounds clock others deadline (suc fuel) k r =
    let again = query_rounds clock others deadline fuel (suc k) (others k r) in
    let (acquired, r') = try_acquire (text "query") r in
    if acquired
    then some (ok tt, r')
    else if leb deadline (clock k)
    then some (err runtime_busy, r')
    else again

-- `acquire_query_lane`: `start` is the time at which it is called.
unfoldable pub acquire_query_lane :
    (ℕ → ℕ) → (ℕ → Runtime → Runtime) → ℕ → ℕ → Runtime → Option (Result (Unit {0}) × Runtime)
unfolding query_rounds
acquire_query_lane clock others start fuel r =
    query_rounds clock others (start + query_wait_ms) fuel 0 r

-- After a command has taken the lane, no other takes it, and the occupant stays, until a release;
-- after the release the next command takes it.
pub lane_is_exclusive :
    (kind other : Text) (r : Runtime)
    → (acquire_progress_lane kind r).0 ≡ ok tt
    → let held = (acquire_progress_lane kind r).1 in
      let freed = (release_progress_lane held).1 in
      (acquire_progress_lane other held ≡ (err runtime_busy, held))
      × (held.progress_occupant_kind ≡ some kind)
      × ((release_progress_lane held).0 ≡ ok tt)
      × (freed.progress_occupant_kind ≡ none)
      × ((acquire_progress_lane other freed).0 ≡ ok tt)
unfolding acquire_progress_lane release_progress_lane
lane_is_exclusive kind other r h = ground arith

-- How the wait for the lane ends.
pub data Ended (deadline : ℕ) (clock : ℕ → ℕ) : Result (Unit {0}) × Runtime → Type 0 where
  taken :
      (r : Runtime)
      → r.progress_lock ≡ true
      → r.progress_occupant_kind ≡ some (text "query")
      → Ended deadline clock (ok tt, r)
  given_up :
      (k : ℕ) (r : Runtime)
      → r.progress_lock ≡ true
      → deadline ≤ clock k
      → Ended deadline clock (err runtime_busy, r)

abbrev pub Returns : (deadline : ℕ) (clock : ℕ → ℕ) → Option (Result (Unit {0}) × Runtime) → Type 0
Returns deadline clock none = ⊥
Returns deadline clock (some e) = Ended deadline clock e

module _ (clock : ℕ → ℕ) (others : ℕ → Runtime → Runtime) (deadline fuel k : ℕ) (r : Runtime) where
  round_free :
      r.progress_lock ≡ false
      → query_rounds clock others deadline (suc fuel) k r
        ≡ some
            (ok tt, record r { progress_lock = true; progress_occupant_kind = some (text "query") })
  unfolding query_rounds
  round_free free = ground arith

  round_late :
      r.progress_lock ≡ true
      → leb deadline (clock k) ≡ true
      → query_rounds clock others deadline (suc fuel) k r ≡ some (err runtime_busy, r)
  unfolding query_rounds
  round_late locked late = ground arith

  round_early :
      r.progress_lock ≡ true
      → leb deadline (clock k) ≡ false
      → query_rounds clock others deadline (suc fuel) k r
        ≡ query_rounds clock others deadline fuel (suc k) (others k r)
  unfolding query_rounds
  round_early locked early = ground arith

query_rounds-Returns :
    (clock : ℕ → ℕ) (others : ℕ → Runtime → Runtime) (start fuel k : ℕ) (r : Runtime)
    → ((j : ℕ) → start + query_poll_ms * j ≤ clock j)
    → 11 ≤ fuel + k
    → 1 ≤ fuel
    → Returns
        (start + query_wait_ms)
        clock
        (query_rounds clock others (start + query_wait_ms) fuel k r)
query_rounds-Returns clock others start zero k r tick enough some_fuel = absurd (omega arith)
query_rounds-Returns clock others start (suc fuel) k r tick enough some_fuel =
    elim (Bool-cases r.progress_lock) [
      | inr free ↦ rw (round_free clock others _ fuel k r free) (taken _ refl refl)
      | inl locked ↦ elim (Bool-cases (leb (start + query_wait_ms) (clock k))) [
        | inl late ↦
            rw (round_late clock others _ fuel k r locked late)
              (given_up k r locked (leb→le _ _ late))
        | inr early ↦ rw (round_early clock others _ fuel k r locked early) (
            query_rounds-Returns clock others start fuel (suc k) (others k r) tick (omega arith)
              (ground (arith, tick k)))
      ]
    ]

-- A query waits for eleven rounds at most, whatever the other threads do, if each round's sleep
-- lasts its 20 ms: it then has the lane as its occupant, or has raised the busy error, on finding
-- the lane held at a time past its 200 ms.
pub query_wait_ends :
    (clock : ℕ → ℕ) (others : ℕ → Runtime → Runtime) (start : ℕ) (r : Runtime)
    → ((j : ℕ) → start + query_poll_ms * j ≤ clock j)
    → Returns (start + query_wait_ms) clock (acquire_query_lane clock others start 11 r)
unfolding acquire_query_lane
query_wait_ends clock others start r tick =
    query_rounds-Returns clock others start 11 0 r tick (omega arith) (omega arith)

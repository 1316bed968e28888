-- ===== src/Waits/Answers.antt =====
-- What `WaitRuntimeLoop.run` of waits/loop.py answers, and that it answers by its deadline.
use androidctl.Prelude.{
  ℕ, ◌+◌, ◌≤◌, leb, Bool, true, false, Option, none, some, List, [], ◌∷◌, ◌++◌, ◌≡◌, ◌⊎◌, inl, inr,
  refl, arith,
}
use androidctl.TextEquivalence.{Unicode}
use androidctl.Runtime.Models.{Runtime}
use androidctl.Runtime.Lifecycle.{Lease}
use androidctl.Runtime.Cancel.{CommandInfo}
use androidctl.Models.Errors.{DaemonError}
use androidctl.Waits.Observation.{ObservationLoop, begin, deadline_at}
use androidctl.Waits.Evaluators.{
  WaitReadyContext, no_idle_state, WaitEvaluationOutcome, wait_matched, wait_no_match,
  wait_idle_tracking, WaitPredicate, evaluate_ready_wait_match,
}
use androidctl.Waits.Loop.{
  WaitCommand, WaitRound, Waiting, WaitStep, matched, loop_timed_out, wait_failed, wait_more,
  wait_stuck, not_ready_yet, ready_failed, ready_state, timeout_of, wait_policy,
  cached_ready_wait_state, wait_round, wait_rounds, first_evaluation, with_client, run,
}
use androidctl.Waits.Turns.{Met, Turn, wait_round-Turn, ready-Met}

-- The wait has returned or raised.
abbrev pub is_over : WaitStep → Bool
is_over (matched _ _) = true
is_over loop_timed_out = true
is_over (wait_failed _) = true
is_over _ = false

-- Some turn has the property.
abbrev pub SomeRound : (WaitRound → Type 0) → List WaitRound → Type 0
SomeRound P [] = ⊥
SomeRound P (r ∷ rs) = P r ⊎ SomeRound P rs

module _ (u : Unicode) (info : CommandInfo) (lease : Lease) (predicate : WaitPredicate)
    (d : ℕ) where
  -- What the answer of the loop says of its turns.
  abbrev pub Told : List WaitRound → WaitStep → Type 0
  Told rounds (matched snapshot app) =
      SomeRound (λ r. Met u info lease predicate r.session r.evaluated_at snapshot app) rounds
  Told rounds loop_timed_out = SomeRound (λ r. d ≤ r.ended_at) rounds
  Told rounds (wait_failed _) = Unit
  Told rounds (wait_more st) = Unit
  Told rounds wait_stuck = ⊥

  later-Told :
      (r : WaitRound) (rounds : List WaitRound) (x : WaitStep) → Told rounds x → Told (r ∷ rounds) x
  later-Told r rounds (matched snapshot app) h = inr h
  later-Told r rounds loop_timed_out h = inr h
  later-Told r rounds (wait_failed _) h = tt
  later-Told r rounds (wait_more st) h = tt
  later-Told r rounds wait_stuck h = h

  -- The loop's next step, by that of a turn.
  abbrev then_rounds : List WaitRound → WaitStep → WaitStep
  then_rounds rs x = elim x [
    | matched snapshot app ↦ matched snapshot app
    | loop_timed_out ↦ loop_timed_out
    | wait_failed e ↦ wait_failed e
    | wait_more next ↦ wait_rounds u info lease predicate rs next
    | wait_stuck ↦ wait_stuck
  ]

  wait_rounds-Told :
      (rounds : List WaitRound) (st : Waiting)
      → deadline_at st.observation ≡ d
      → Told rounds (wait_rounds u info lease predicate rounds st)
  unfolding wait_rounds
  wait_rounds-Told [] st h = tt
  wait_rounds-Told (r ∷ rs) st h =
      (elim (wait_round u info lease predicate r st)
          as (λ x. Turn u info lease predicate d r x → Told (r ∷ rs) (then_rounds rs x)) [
            | matched snapshot app ↦ λ t. inl t
            | loop_timed_out ↦ λ t. inl t
            | wait_failed e ↦ λ t. tt
            | wait_more next ↦ λ t. later-Told r rs _ (wait_rounds-Told rs next t.0)
            | wait_stuck ↦ λ t. t
          ])
        (wait_round-Turn u info lease predicate d r st h)

  wait_rounds_over :
      (before later : List WaitRound) (late : WaitRound) (st : Waiting)
      → leb d late.ended_at ≡ true
      → deadline_at st.observation ≡ d
      → is_over (wait_rounds u info lease predicate (before ++ late ∷ later) st) ≡ true
  unfolding wait_rounds
  wait_rounds_over [] later late st past h =
      (elim (wait_round u info lease predicate late st)
          as (λ x. Turn u info lease predicate d late x → is_over (then_rounds later x) ≡ true) [
            | matched snapshot app ↦ λ t. refl
            | loop_timed_out ↦ λ t. refl
            | wait_failed e ↦ λ t. refl
            | wait_more next ↦ λ t. let early = t.1 in absurd cc
            | wait_stuck ↦ λ t. absurd t
          ])
        (wait_round-Turn u info lease predicate d late st h)
  wait_rounds_over (r ∷ rs) later late st past h =
      (elim (wait_round u info lease predicate r st)
          as (λ x.
            Turn u info lease predicate d r x
            → is_over (then_rounds (rs ++ late ∷ later) x) ≡ true) [
              | matched snapshot app ↦ λ t. refl
              | loop_timed_out ↦ λ t. refl
              | wait_failed e ↦ λ t. refl
              | wait_more next ↦ λ t. wait_rounds_over rs later late next past t.0
              | wait_stuck ↦ λ t. absurd t
            ])
        (wait_round-Turn u info lease predicate d r st h)

module _ (u : Unicode) (info : CommandInfo) (lease : Lease) (command : WaitCommand)
    (client_error : Option DaemonError) (session : Runtime) (started_at : ℕ) where
  abbrev deadline : ℕ
  deadline = started_at + timeout_of command

  abbrev start : ObservationLoop
  start = begin (wait_policy (timeout_of command)) started_at

  -- What the answer of a wait says of its start and its turns.
  abbrev pub RunTold : List WaitRound → WaitStep → Type 0
  RunTold rounds (matched snapshot app) =
      Met u info lease command.predicate session started_at snapshot app
      ⊎ SomeRound (λ r. Met u info lease command.predicate r.session r.evaluated_at snapshot app)
          rounds
  RunTold rounds loop_timed_out = SomeRound (λ r. deadline ≤ r.ended_at) rounds
  RunTold rounds (wait_failed _) = Unit
  RunTold rounds (wait_more st) = Unit
  RunTold rounds wait_stuck = ⊥

  -- What the first evaluation leaves.
  abbrev First : WaitStep → Type 0
  First (matched snapshot app) = Met u info lease command.predicate session started_at snapshot app
  First (wait_failed _) = Unit
  First (wait_more st) = deadline_at st.observation ≡ deadline
  First _ = ⊥

  evaluated-First :
      (state : WaitReadyContext) (x : WaitEvaluationOutcome)
      → cached_ready_wait_state info lease session ≡ ready_state state
      → evaluate_ready_wait_match u command.predicate state no_idle_state started_at ≡ x
      → First (elim x [
        | wait_matched snapshot app ↦ matched snapshot app
        | wait_no_match ↦ wait_more (record { observation = start; idle_state = no_idle_state })
        | wait_idle_tracking next ↦ wait_more (record { observation = start; idle_state = next })
      ])
  unfolding deadline_at begin
  evaluated-First state (wait_matched snapshot app) k e =
      let met = ready-Met u info lease command.predicate session state k in
      (met.0, state, no_idle_state, met.1, e)
  evaluated-First state wait_no_match k e = refl
  evaluated-First state (wait_idle_tracking next) k e = refl

  first_evaluation-First :
      First (first_evaluation u info lease command.predicate session started_at start)
  unfolding first_evaluation deadline_at begin
  first_evaluation-First =
      (elim (cached_ready_wait_state info lease session)
          as (λ c.
            cached_ready_wait_state info lease session ≡ c
            → First (elim c [
              | not_ready_yet ↦
                  wait_more (record { observation = start; idle_state = no_idle_state })
              | ready_failed e ↦ wait_failed e
              | ready_state state ↦
                  elim (evaluate_ready_wait_match u command.predicate state no_idle_state
                    started_at) [
                      | wait_matched snapshot app ↦ matched snapshot app
                      | wait_no_match ↦
                          wait_more (record { observation = start; idle_state = no_idle_state })
                      | wait_idle_tracking next ↦
                          wait_more (record { observation = start; idle_state = next })
                    ]
            ])) [
              | not_ready_yet ↦ λ _. refl
              | ready_failed _ ↦ λ _. tt
              | ready_state state ↦ λ k. evaluated-First state _ k refl
            ])
        refl

  rounds_account :
      (rounds : List WaitRound) (x : WaitStep)
      → Told u info lease command.predicate deadline rounds x
      → RunTold rounds x
  rounds_account rounds (matched snapshot app) h = inr h
  rounds_account rounds loop_timed_out h = h
  rounds_account rounds (wait_failed _) h = tt
  rounds_account rounds (wait_more st) h = tt
  rounds_account rounds wait_stuck h = h

  client-RunTold :
      (rounds : List WaitRound) (client : Option DaemonError) (st : Waiting)
      → deadline_at st.observation ≡ deadline
      → RunTold rounds (with_client u info lease command.predicate client rounds st)
  client-RunTold rounds none st h =
      rounds_account rounds _ (wait_rounds-Told u info lease command.predicate deadline rounds st h)
  client-RunTold rounds (some e) st h = tt

  client_over :
      (before later : List WaitRound) (late : WaitRound) (client : Option DaemonError)
      (st : Waiting)
      → leb deadline late.ended_at ≡ true
      → deadline_at st.observation ≡ deadline
      → is_over (with_client u info lease command.predicate client (before ++ late ∷ later) st)
        ≡ true
  client_over before later late none st past h =
      wait_rounds_over u info lease command.predicate deadline before later late st past h
  client_over before later late (some e) st past h = refl

  -- The rest of a wait, by its first evaluation.
  abbrev after_first : List WaitRound → WaitStep → WaitStep
  after_first rounds x = elim x [
    | matched snapshot app ↦ matched snapshot app
    | loop_timed_out ↦ loop_timed_out
    | wait_failed e ↦ wait_failed e
    | wait_more st ↦ with_client u info lease command.predicate client_error rounds st
    | wait_stuck ↦ wait_stuck
  ]

  -- A wait is matched only by an evaluation of its predicate, at its start or in a turn, on the
  -- session's state while the lease is current, and is timed out only by a turn that ends at the
  -- deadline or later.
  pub run-RunTold :
      (rounds : List WaitRound)
      → RunTold rounds (run u info lease command client_error session started_at rounds)
  unfolding run
  run-RunTold rounds =
      (elim (first_evaluation u info lease command.predicate session started_at start)
          as (λ x. First x → RunTold rounds (after_first rounds x)) [
            | matched snapshot app ↦ λ t. inl t
            | loop_timed_out ↦ λ t. absurd t
            | wait_failed e ↦ λ t. tt
            | wait_more st ↦ λ t. client-RunTold rounds client_error st t
            | wait_stuck ↦ λ t. t
          ])
        first_evaluation-First

  -- A wait answers by the first turn that ends at its deadline or later, whatever happens before.
  pub wait_ends :
      (before later : List WaitRound) (late : WaitRound)
      → started_at + timeout_of command ≤ late.ended_at
      → is_over (run u info lease command client_error session started_at (before ++ late ∷ later))
        ≡ true
  unfolding run
  wait_ends before later late h =
      (elim (first_evaluation u info lease command.predicate session started_at start)
          as (λ x. First x → is_over (after_first (before ++ late ∷ later) x) ≡ true) [
            | matched snapshot app ↦ λ t. refl
            | loop_timed_out ↦ λ t. refl
            | wait_failed e ↦ λ t. refl
            | wait_more st ↦ λ t. client_over before later late client_error st (ground arith) t
            | wait_stuck ↦ λ t. absurd t
          ])
        first_evaluation-First

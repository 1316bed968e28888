-- ===== src/Lib.antt =====
-- Verification of androidctl's daemon, androidctld (Python).
--
-- The daemon keeps one runtime for a workspace: its connection to the agent on an Android device, the
-- current screen, and the refs under which the nodes of that screen are named. Commands reach it one
-- at a time; each fetches a snapshot of the device's screen, compiles it, gives its nodes refs, writes
-- the screen's artifacts and commits the refreshed screen to the runtime. Waits observe such
-- snapshots until a predicate holds or the screen is stable.
--
-- Files, and the code they are about (below androidctld/src/androidctld/ unless a path says more):
--   Prelude: names shared by all files: texts as lists of code points with Python's comparisons, lists
--     measured by native numbers, integers, and `sorted` as a stable insertion sort with its lemmas.
--   Models: the values that the parts exchange: snapshots/models.py (Snapshots), SemanticNode and
--     CompiledScreen of semantics/compiler.py (Semantic), with ref_candidates (Candidates),
--     contracts/src/androidctl_contracts/public_screen.py (Public), refs/models.py (Refs),
--     errors/__init__.py (Errors), commands/command_models.py (Commands), ActionTargetPayload of
--     contracts/src/androidctl_contracts/command_results.py (Evidence). Samples holds test data.
--   TextEquivalence: text_equivalence.py. What Python takes from Unicode's tables is a parameter.
--   Artifacts: StagedFileUpdate and StagedArtifactWrite of artifacts/writer.py (Staged) over files whose
--     calls can be refused (Files), with the proofs in Single, Batch and Loss;
--     artifacts/screen_payloads.py (Payloads) and artifacts/screen_lookup.py (Scan, Lookup), with the
--     proofs in Newest, Refusals, Verdict and Kept.
--   Refs: refs/service.py: evidence and confidence (Evidence), the matching (Match), names and the sort
--     key of refs (Names), RefRegistryBuilder (Reconcile), with the proofs in Bounds, Order, Choice,
--     Located, Naming and Registry; refs/repair.py (Repair), with the proofs in Repaired and Decided.
--   Runtime: runtime/models.py (Models), runtime/screen_state.py (Screen), runtime/lifecycle.py and the
--     helpers under the lock (Lifecycle), the methods of RuntimeKernel of runtime/kernel.py (Kernel,
--     Rebootstrap, ScreenCommit, Lane), runtime/store.py and runtime/state_repo.py (Store), the
--     cancellation of stale commands (Cancel), and the operations as steps in any order (Operations).
--     DeviceSession is the abstract machine, with the steps of each operation, that the kernel refines
--     (Session). Refresh, Authority,
--     Leases and Transports hold further proofs; Samples holds test data.
--   Semantics: the compilation of a snapshot, semantics/labels.py (Roles, Labels), targets.py (Targets),
--     surface.py (Groups, Surface), submit_refs.py (Geometry, SubmitRefs) and compiler.py (CompileNode,
--     Compile, Publish), with the proofs in Ends and CompileEnds, Sources and Grouped, and Published;
--     semantics/continuity.py (Continuity), with the proofs in Repair.
--   Waits: observation.py (Observation), app_targets.py (AppTargets), the signatures of
--     snapshots/refresh.py (Signature), waits/evaluators.py and waits/matcher.py (Evaluators),
--     waits/loop.py (Loop), and the retries of snapshots/service.py (Retry). Stability, Idle, Equality,
--     Turns and Answers hold further proofs.
--   Actions: actions/settle.py (Settle, with SettleEnds and SettleQuiet), actions/request_builder.py
--     (Requests, with Targets), actions/repair.py (Repair, with Repaired), actions/type_confirmation.py
--     (Confirm) and actions/focus_confirmation.py (Focus), with Confirmed and Outcomes;
--     actions/submit_confirmation.py (Structure, Submit), with StructureEquality and Submitted;
--     actions/focused_input_admissibility.py (FocusedInput) and actions/submit_routing.py (Route), with
--     RouteChecks and Routed; actions/action_target.py and the action targets of actions/executor.py
--     (ActionTarget), with EvidenceOrder and Targeted.
--   Tests of a component stand in its child module Tests.
--
-- How the model corresponds to the code:
--   A method that changes the runtime is a function from the world (the runtime, the files, the
--   persisted state, the transports closed so far) to its result and the new world. The runtime's lock
--   makes a method one step; what other threads do between two steps is another list of steps.
--   An exception is a value; the fields that were assigned before it keep their values. A call of the
--   file system is refused when the schedule of faults says so; atomic_write_json counts as one call
--   that leaves the old file when it is refused.
--   A loop that reads the clock and asks the device (a wait, a settle) takes one entry for each of its
--   turns, with what the clock, the device and the other threads answer in it. A sleep only moves the
--   clock. A list that ends before the loop does leaves the loop waiting.
--   A dictionary of nodes by id is a lookup of the last node of the id, and the nodes by group are a
--   function from the name of a group. Quotients are compared multiplied out. A screen's id is taken
--   from a digest that stands for SHA-256.
--   The lookup of artifacts takes what the files of the workspace hold as an argument: it stands for
--   reading a file, its JSON and the validation of its payload.
--   A node is identified by its place in the screen. The `ref` fields that reconcile assigns are kept
--   beside the nodes and written back at the end, since nothing reads the screen in between.
--   Times are whole milliseconds and a clock does not run backwards.
--   Closing a transport is recorded and taken not to raise. A settle takes the compilation of a snapshot
--   as a total function: it ends for snapshots whose parents have no cycle.
--
-- Bounds and fuel: a query's wait for the progress lane has a fuel of eleven rounds, enough when each
-- of its sleeps lasts its 20 ms of the 200 ms allowed; the search for an unused ref has one round more
-- than there are used refs; the retries of a fetch have one round more than the retries allowed. Each
-- is proved to be enough. A wait and a settle go by the list of their turns, and each is proved to end
-- in any list that reaches its deadline. The walks up the parents of a node are on fuel, which is
-- proved to be enough above the length of any chain of parents; on a cycle of parents two of them do
-- not end.
--
-- Not modelled: the Android agent (Kotlin), the command line client, HTTP, adb and the device's RPC,
-- the validation and the text of JSON and XML payloads, the rest of the actions (executor,
-- postconditions, capabilities, the current state of an action) and the orchestration of commands.
-- The `bootstrap` callback of the kernel, the device that a fetch asks, the refresh that an action's
-- repair calls, the clocks, and Unicode's normalization, case mappings, spaces and digits are
-- parameters.
pub mod Prelude
pub mod Models
pub mod Artifacts
pub mod Runtime
pub mod TextEquivalence
pub mod Refs
pub mod Semantics
pub mod Waits
pub mod Actions

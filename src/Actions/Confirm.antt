-- ===== src/Actions/Confirm.antt =====
-- actions/type_confirmation.py: the node of the refreshed screen that shows the text that was typed.
use androidctl.Prelude.{
  Text, text, text_eq, Bool, true, false, ◌&&◌, ◌||◌, not, Option, none, some, List, [], ◌∷◌, ◌++◌,
  length, if◌then◌else◌, keep_if,
}
use androidctl.TextEquivalence.{Unicode, canonical_text_key}
use androidctl.Models.Errors.{
  type_not_confirmed, Detail, value, flag, number, values, DaemonError, Raised, returned,
  daemon_error,
}
use androidctl.Models.Snapshots.{RawNode, RawSnapshot, last_for_rid}
use androidctl.Models.Semantic.{SemanticNode, CompiledScreen}
use androidctl.Models.Refs.{get, NodeHandle, RefBinding}
use androidctl.Runtime.Models.{Runtime}
use androidctl.Runtime.Screen.{current_compiled_screen}
use androidctl.Refs.Match.{best_candidate_for_binding}
use androidctl.Waits.Signature.{compiled_screen_nodes}

pub data ResolvedTarget : Type 0 where
  resolved_handle : NodeHandle → ResolvedTarget
  resolved_coordinates resolved_none : ResolvedTarget

-- `resolved_target_handle`, and `action_result_target_handle` of a result's target.
abbrev pub target_handle_of : Option ResolvedTarget → Option NodeHandle
target_handle_of (some (resolved_handle h)) = some h
target_handle_of _ = none

pub record TypeConfirmationContext : Type 0 where
  pub ref : Option Text
  pub request_handle : Option NodeHandle
  pub binding : Option RefBinding

pub data Strategy : Type 0 where
  resolved_target request_target reused_ref fingerprint_rematch : Strategy

pub record TypeConfirmationCandidate : Type 0 where
  pub strategy : Strategy
  pub node : RawNode
  pub target_handle : Option NodeHandle

-- `snapshot_node_for_rid`: the first node of the id.
unfoldable pub node_for_rid : Text → List RawNode → Option RawNode
node_for_rid rid [] = none
node_for_rid rid (n ∷ ns) =
    let rest = node_for_rid rid ns in if text_eq n.rid rid then some n else rest

unfoldable pub snapshot_node_for_handle : RawSnapshot → Option NodeHandle → Option RawNode
unfolding node_for_rid
snapshot_node_for_handle snapshot none = none
snapshot_node_for_handle snapshot (some h) = node_for_rid h.rid snapshot.nodes

-- `_snapshot_handle`
abbrev pub snapshot_handle : RawSnapshot → Option RawNode → Option NodeHandle
snapshot_handle snapshot none = none
snapshot_handle snapshot (some n) =
    some (record { snapshot_id = snapshot.snapshot_id; rid = n.rid })

abbrev pub is_type_confirmation_candidate : RawNode → Bool
is_type_confirmation_candidate n = n.visible_to_user && n.editable

-- `str(node.text)`, or the empty text
abbrev pub observed_input_value : RawNode → Text
observed_input_value n = elim n.text [ none ↦ [] | some t ↦ t ]

abbrev pub is_input : Option RawNode → Bool
is_input none = false
is_input (some n) = is_type_confirmation_candidate n

unfoldable pub type_confirmation_semantic_candidates :
    CompiledScreen → RawSnapshot → List SemanticNode
unfolding last_for_rid compiled_screen_nodes
type_confirmation_semantic_candidates s snapshot =
    keep_if (λ n. is_input (last_for_rid n.raw_rid snapshot.nodes)) (compiled_screen_nodes s)

-- `reused_ref_confirmation_node`, for the binding of the context's ref.
unfoldable pub node_of_reused : RawSnapshot → Option RefBinding → Option RawNode
unfolding snapshot_node_for_handle
node_of_reused snapshot none = none
node_of_reused snapshot (some b) =
    let node = snapshot_node_for_handle snapshot (some b.handle) in
    if not b.reused || not (is_input node) then none else node

unfoldable pub reused_ref_confirmation_node :
    Runtime → RawSnapshot → TypeConfirmationContext → Option RawNode
unfolding node_of_reused
reused_ref_confirmation_node r snapshot context = elim context.ref [
  | none ↦ none
  | some ref ↦ node_of_reused snapshot (get r.ref_registry ref)
]

module _ (u : Unicode) where
  unfoldable pub rematch : RawSnapshot → Option RefBinding → Option CompiledScreen → Option RawNode
  unfolding type_confirmation_semantic_candidates node_for_rid
  rematch snapshot (some b) (some s) =
      elim (best_candidate_for_binding u (λ n. n) b
        (type_confirmation_semantic_candidates s snapshot)) [
          | none ↦ none
          | some (n, _) ↦ node_for_rid n.raw_rid snapshot.nodes
        ]
  rematch snapshot _ _ = none

  unfoldable pub fingerprint_rematch_confirmation_node :
      Runtime → RawSnapshot → TypeConfirmationContext → Option RawNode
  unfolding rematch
  fingerprint_rematch_confirmation_node r snapshot context =
      rematch snapshot context.binding (current_compiled_screen r)

  -- `add_candidate`: the ids of the candidates are `seen_rids`.
  unfoldable pub seen_rid : Text → List TypeConfirmationCandidate → Bool
  seen_rid rid [] = false
  seen_rid rid (c ∷ cs) = text_eq rid c.node.rid || seen_rid rid cs

  unfoldable pub add_candidate :
      Strategy
      → Option RawNode
      → Option NodeHandle
      → List TypeConfirmationCandidate
      → List TypeConfirmationCandidate
  unfolding seen_rid
  add_candidate strategy none h cs = cs
  add_candidate strategy (some n) h cs =
      if seen_rid n.rid cs
      then cs
      else cs ++ record { strategy = strategy; node = n; target_handle = h } ∷ []

  -- The four candidates, for a handle that the device has resolved.
  unfoldable pub type_confirmation_candidates :
      Runtime
      → RawSnapshot
      → TypeConfirmationContext
      → Option NodeHandle
      → List TypeConfirmationCandidate
  unfolding add_candidate fingerprint_rematch_confirmation_node reused_ref_confirmation_node
      snapshot_node_for_handle
  type_confirmation_candidates r snapshot context resolved =
      let reused = reused_ref_confirmation_node r snapshot context in
      let rematched = fingerprint_rematch_confirmation_node r snapshot context in
      add_candidate fingerprint_rematch rematched (snapshot_handle snapshot rematched) (
        add_candidate reused_ref reused (snapshot_handle snapshot reused) (
          add_candidate request_target (snapshot_node_for_handle snapshot context.request_handle)
            context.request_handle
            (add_candidate resolved_target (snapshot_node_for_handle snapshot resolved) resolved
              [])))

  abbrev pub matches_typed_value : Text → Text → Bool
  matches_typed_value typed actual =
      text_eq (canonical_text_key u (some actual)) (canonical_text_key u (some typed))

  unfoldable pub first_typed :
      Text → List TypeConfirmationCandidate → Option TypeConfirmationCandidate
  first_typed typed [] = none
  first_typed typed (c ∷ cs) =
      let rest = first_typed typed cs in
      if matches_typed_value typed (observed_input_value c.node) then some c else rest

  abbrev rids : List TypeConfirmationCandidate → List (Option Text)
  rids [] = []
  rids (c ∷ cs) = some c.node.rid ∷ rids cs

  -- `type_confirmation_error_details`
  abbrev type_error_details :
      Text → Option Text → List TypeConfirmationCandidate → List (Text × Detail)
  type_error_details typed ref cs =
      (text "ref", value ref)
      ∷ (text "text", value (some typed))
      ∷ (text "replace", flag true)
      ∷ (text "candidateCount", number (length cs))
      ∷ (
        text "confirmationStrategy",
        value (some (text "resolvedTarget>requestTarget>reusedRef>fingerprintRematch")),
      )
      ∷ (text "candidateRids", values (rids cs))
      ∷ []

  -- The error of `validate_type_confirmation`.
  abbrev pub type_error : Text → Option Text → List TypeConfirmationCandidate → DaemonError
  type_error typed ref cs = record {
    code = type_not_confirmed;
    retryable = true;
    details = type_error_details typed ref cs;
    http_status = 200;
  }

  unfoldable pub validate_type_confirmation :
      Runtime
      → Text
      → RawSnapshot
      → TypeConfirmationContext
      → Option ResolvedTarget
      → Raised TypeConfirmationCandidate
  unfolding first_typed type_confirmation_candidates
  validate_type_confirmation r typed snapshot context target =
      let cs = type_confirmation_candidates r snapshot context (target_handle_of target) in
      elim (first_typed typed cs) [
        | some c ↦ returned c
        | none ↦ daemon_error (type_error typed context.ref cs)
      ]

-- ===== src/Actions/Confirmed.antt =====
-- Where the candidates of actions/type_confirmation.py and actions/focus_confirmation.py come from.
use androidctl.Prelude.{
  Text, text_eq, false, ◌||◌, not, Option, none, some, List, [], ◌∷◌, All, Pairwise, Among,
  Among-later, All-append-one, Pairwise-append-one, ◌≡◌, refl, arith, by_if,
}
use androidctl.TextEquivalence.{Unicode}
use androidctl.Models.Snapshots.{RawNode, RawSnapshot}
use androidctl.Models.Semantic.{CompiledScreen}
use androidctl.Models.Refs.{get, NodeHandle, RefBinding}
use androidctl.Runtime.Models.{Runtime}
use androidctl.Runtime.Screen.{current_compiled_screen}
use androidctl.Refs.Located.{OnSome}
use androidctl.Refs.Match.{best_candidate_for_binding}
use androidctl.Actions.Confirm.{
  target_handle_of, TypeConfirmationContext, Strategy, resolved_target, request_target, reused_ref,
  fingerprint_rematch, TypeConfirmationCandidate, node_for_rid, snapshot_node_for_handle, is_input,
  node_of_reused, reused_ref_confirmation_node, type_confirmation_semantic_candidates, rematch,
  fingerprint_rematch_confirmation_node, seen_rid, add_candidate, type_confirmation_candidates,
}
use androidctl.Actions.Focus.{FocusConfirmationContext, type_context, focus_candidates}

node_for_rid-Among : (rid : Text) (ns : List RawNode) → OnSome (Among ns) (node_for_rid rid ns)
unfolding node_for_rid
node_for_rid-Among rid [] = tt
node_for_rid-Among rid (n ∷ ns) =
    by_if (OnSome (Among (n ∷ ns))) (text_eq n.rid rid) _ _ (λ _. (0, refl))
      (λ _.
        elim (node_for_rid rid ns) as (λ o. OnSome (Among ns) o → OnSome (Among (n ∷ ns)) o) [
          | none ↦ λ h. tt
          | some m ↦ λ h. Among-later n ns m h
        ]
          (node_for_rid-Among rid ns))

module _ (u : Unicode) (snapshot : RawSnapshot) where
  -- The candidates are nodes of the snapshot, no two of one id.
  abbrev pub Nodes : List TypeConfirmationCandidate → Type 0
  Nodes cs =
      All (λ c. Among snapshot.nodes c.node) cs
      × Pairwise (λ a b. text_eq b.node.rid a.node.rid ≡ false) cs

  unseen :
      (rid : Text) (cs : List TypeConfirmationCandidate)
      → seen_rid u rid cs ≡ false
      → All (λ c. text_eq rid c.node.rid ≡ false) cs
  unfolding seen_rid
  unseen rid [] h = tt
  unseen rid (c ∷ cs) h = (ground arith, unseen rid cs (ground arith))

  add_candidate-Nodes :
      (s : Strategy) (o : Option RawNode) (h : Option NodeHandle)
      (cs : List TypeConfirmationCandidate)
      → OnSome (Among snapshot.nodes) o
      → Nodes cs
      → Nodes (add_candidate u s o h cs)
  unfolding add_candidate
  add_candidate-Nodes s none h cs k good = good
  add_candidate-Nodes s (some n) h cs k good =
      by_if Nodes (seen_rid u n.rid cs) _ _ (λ _. good)
        (λ new.
          (All-append-one _ cs _ good.0 k, Pairwise-append-one _ cs _ good.1 (unseen n.rid cs new)))

  pub for_handle-Among :
      (h : Option NodeHandle) → OnSome (Among snapshot.nodes) (snapshot_node_for_handle snapshot h)
  unfolding snapshot_node_for_handle
  for_handle-Among none = tt
  for_handle-Among (some h) = node_for_rid-Among h.rid snapshot.nodes

  node_of_reused-Among :
      (o : Option RefBinding) → OnSome (Among snapshot.nodes) (node_of_reused snapshot o)
  unfolding node_of_reused
  node_of_reused-Among none = tt
  node_of_reused-Among (some b) =
      by_if (OnSome (Among snapshot.nodes))
        (not b.reused || not (is_input (snapshot_node_for_handle snapshot (some b.handle)))) _ _
        (λ _. tt) (λ _. for_handle-Among (some b.handle))

  pub reused-Among :
      (r : Runtime) (context : TypeConfirmationContext)
      → OnSome (Among snapshot.nodes) (reused_ref_confirmation_node r snapshot context)
  unfolding reused_ref_confirmation_node
  reused-Among r context =
      elim context.ref
        as (λ o.
          OnSome (Among snapshot.nodes) (elim o [
            | none ↦ none
            | some ref ↦ node_of_reused snapshot (get r.ref_registry ref)
          ])) [ none ↦ tt | some ref ↦ node_of_reused-Among (get r.ref_registry ref) ]

  rematch-Among :
      (o : Option RefBinding) (s : Option CompiledScreen)
      → OnSome (Among snapshot.nodes) (rematch u snapshot o s)
  unfolding rematch
  rematch-Among none s = tt
  rematch-Among (some b) none = tt
  rematch-Among (some b) (some s) =
      elim (best_candidate_for_binding u (λ n. n) b
          (type_confirmation_semantic_candidates s snapshot))
        as (λ o.
          OnSome (Among snapshot.nodes)
            (elim o [ none ↦ none | some (n, _) ↦ node_for_rid n.raw_rid snapshot.nodes ])) [
              | none ↦ tt
              | some (n, c) ↦ node_for_rid-Among n.raw_rid snapshot.nodes
            ]

  pub rematched-Among :
      (r : Runtime) (context : TypeConfirmationContext)
      → OnSome (Among snapshot.nodes) (fingerprint_rematch_confirmation_node u r snapshot context)
  unfolding fingerprint_rematch_confirmation_node
  rematched-Among r context = rematch-Among context.binding (current_compiled_screen r)

  pub type_candidates-Nodes :
      (r : Runtime) (context : TypeConfirmationContext) (resolved : Option NodeHandle)
      → Nodes (type_confirmation_candidates u r snapshot context resolved)
  unfolding type_confirmation_candidates
  type_candidates-Nodes r context resolved =
      add_candidate-Nodes fingerprint_rematch _ _ _ (rematched-Among r context) (
        add_candidate-Nodes reused_ref _ _ _ (reused-Among r context) (
          add_candidate-Nodes request_target _ _ _ (for_handle-Among context.request_handle)
            (add_candidate-Nodes resolved_target _ _ [] (for_handle-Among resolved) (tt, tt))))

  pub focus_candidates-Nodes :
      (r : Runtime) (context : FocusConfirmationContext)
      → Nodes (focus_candidates u r snapshot context)
  unfolding focus_candidates
  focus_candidates-Nodes r context =
      add_candidate-Nodes fingerprint_rematch _ _ _ (rematched-Among r (type_context context)) (
        add_candidate-Nodes reused_ref _ _ _ (reused-Among r (type_context context)) (
          add_candidate-Nodes request_target _ _ _ (for_handle-Among context.request_handle) (
            add_candidate-Nodes resolved_target _ _ []
              (for_handle-Among (target_handle_of context.resolved)) (tt, tt))))

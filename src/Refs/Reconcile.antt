-- ===== src/Refs/Reconcile.antt =====
-- `RefRegistryBuilder` of refs/service.py: the refs of a new screen, those of the known bindings that
-- are found again first.
use androidctl.Prelude.{
  ℕ, suc, Text, nonempty, length, Bool, true, false, Option, none, some, List, [], ◌∷◌,
  if◌then◌else◌,
}
use androidctl.Prelude.Sort.{sort}
use androidctl.TextEquivalence.{Unicode}
use androidctl.Models.Semantic.{
  SemanticNode, GroupName, targets, keyboard, system, context, dialog, CompiledScreen,
}
use androidctl.Models.Candidates.{Place, Candidate, same_place, ref_candidates}
use androidctl.Models.Refs.{RefBinding, RefRegistry, set_ref, RefRepairSourceSignature}
use androidctl.Refs.Match.{
  best_candidate_for_binding, best_candidate_for_source_signature, binding_for_candidate,
}
use androidctl.Refs.Names.{ref_name, next_free, ref_lt}

-- The candidates' `ref` fields as they are assigned, the last assignment first; `used` is
-- `used_refs`, and `bindings` the registry that is built.
pub record Naming : Type 0 where
  pub refs : List (Candidate × Text)
  pub used : List Text
  pub bindings : List (Text × RefBinding)

-- `candidate.ref`, which `clear_candidate_refs` has made empty.
unfoldable pub ref_of : Candidate → List (Candidate × Text) → Text
ref_of c [] = []
ref_of c ((d, r) ∷ rest) = if same_place c.place d.place then r else ref_of c rest

-- `remaining_candidates.remove(candidate)`
unfoldable pub remove : Candidate → List Candidate → List Candidate
remove c [] = []
remove c (d ∷ ds) =
    let rest = remove c ds in elim (same_place c.place d.place) [ true ↦ ds | false ↦ d ∷ rest ]

-- `registry.bindings.values()`
abbrev pub values : List (Text × RefBinding) → List RefBinding
values [] = []
values ((_, b) ∷ rest) = b ∷ values rest

-- `sorted(previous_registry.bindings.values(), key=...)`
unfoldable pub known_bindings : Unicode → Option RefRegistry → List RefBinding
known_bindings u none = []
known_bindings u (some registry) = sort (λ a b. ref_lt u a.ref b.ref) (values registry.bindings)

module _ (u : Unicode) (snapshot_id : ℕ) where
  -- The three assignments that give a candidate its ref.
  unfoldable pub assign : Text → Candidate → Bool → Naming → Naming
  assign ref c reused st = record {
    refs = (c, ref) ∷ st.refs;
    used = ref ∷ st.used;
    bindings = set_ref ref (binding_for_candidate u ref c.node snapshot_id reused) st.bindings;
  }

  -- The loop over the known bindings, with `remaining_candidates`.
  unfoldable pub reuse_refs : List RefBinding → List Candidate → Naming → Naming
  unfolding assign
  reuse_refs [] remaining st = st
  reuse_refs (b ∷ bs) remaining st = elim (best_candidate_for_binding u (λ c. c.node) b remaining) [
    | none ↦ reuse_refs bs remaining st
    | some (c, _) ↦ reuse_refs bs (remove c remaining) (assign b.ref c true st)
  ]

  -- The loop that names the other candidates, from `next_index` on.
  unfoldable pub name_rest : List Candidate → ℕ → Naming → Naming
  unfolding assign ref_of
  name_rest [] next_index st = st
  name_rest (c ∷ cs) next_index st =
      let k = next_free (suc (length st.used)) st.used next_index in
      elim (nonempty (ref_of c st.refs)) [
        | true ↦ name_rest cs next_index st
        | false ↦ name_rest cs k (assign (ref_name k) c false st)
      ]

  -- `reconcile`, up to the refs' places in the screen.
  unfoldable pub reconcile : List Candidate → Option RefRegistry → Naming
  unfolding reuse_refs name_rest known_bindings
  reconcile candidates previous = name_rest candidates 1 (
      reuse_refs (known_bindings u previous) candidates
        (record { refs = []; used = []; bindings = [] }))

-- The screen whose candidates carry the refs.
unfoldable pub write_group :
    GroupName → ℕ → List Candidate → List (Candidate × Text) → List SemanticNode → List SemanticNode
write_group g i candidates refs [] = []
write_group g i candidates refs (n ∷ ns) =
    let here : Place = record { group_name = g; index = i } in
    let rest = write_group g (suc i) candidates refs ns in
    let c : Candidate = record { place = here; node = n } in
    elim (candidate_at here candidates) [
      | true ↦ record n { ref = ref_of c refs } ∷ rest
      | false ↦ n ∷ rest
    ]
  where
    candidate_at : Place → List Candidate → Bool
    candidate_at p [] = false
    candidate_at p (d ∷ ds) = elim (same_place p d.place) [
      | true ↦ true
      | false ↦ candidate_at p ds
    ]

abbrev pub write_refs : CompiledScreen → List Candidate → List (Candidate × Text) → CompiledScreen
write_refs s candidates refs = record s {
  targets_nodes = write_group targets 0 candidates refs s.targets_nodes;
  context_nodes = write_group context 0 candidates refs s.context_nodes;
  dialog_nodes = write_group dialog 0 candidates refs s.dialog_nodes;
  keyboard_nodes = write_group keyboard 0 candidates refs s.keyboard_nodes;
  system_nodes = write_group system 0 candidates refs s.system_nodes;
}

-- `finalize_compiled_screen`: the registry and the screen with its refs.
unfoldable pub finalize_compiled_screen :
    Unicode → CompiledScreen → ℕ → Option RefRegistry → RefRegistry × CompiledScreen
unfolding reconcile
finalize_compiled_screen u s snapshot_id previous =
    let candidates = ref_candidates s in
    let st = reconcile u snapshot_id candidates previous in
    (record { bindings = st.bindings }, write_refs s candidates st.refs)

-- `repair_source_signature_to_current_snapshot`
unfoldable pub repair_source_signature_to_current_snapshot :
    Unicode → RefRepairSourceSignature → CompiledScreen → ℕ → Option RefBinding
repair_source_signature_to_current_snapshot u source s snapshot_id =
    elim (best_candidate_for_source_signature u (λ c. c.node) source (ref_candidates s)) [
      | none ↦ none
      | some (c, _) ↦ some (binding_for_candidate u source.ref c.node snapshot_id true)
    ]

-- ===== src/Runtime/Screen.antt =====
-- runtime/screen_state.py: the authoritative basis of the current screen. `deepcopy` is the
-- identity on values.
use androidctl.Prelude.{
  ℕ, Text, text_eq, opt_text_eq, nonempty, nat_eq, Bool, ◌&&◌, Option, none, some, List, [], ◌∷◌,
  ◌++◌, if◌then◌else◌,
}
use androidctl.Models.Snapshots.{RawSnapshot}
use androidctl.Models.Semantic.{CompiledScreen}
use androidctl.Models.Public.{PublicScreen, PublicNode, PublicGroup, node_ref, iter_public_nodes}
use androidctl.Runtime.Models.{Runtime, ScreenArtifacts, ScreenState, is_ready}

pub record AuthoritativeCurrentBasis : Type 0 where
  pub screen_id : Text
  pub screen_sequence : ℕ
  pub snapshot_id : ℕ
  pub captured_at : Text
  pub package_name : Option Text
  pub activity_name : Option Text
  pub public_screen : PublicScreen
  pub compiled_screen : CompiledScreen
  pub artifacts : Option ScreenArtifacts
  pub public_refs : List Text

abbrev pub node_refs : List PublicNode → List Text
node_refs [] = []
node_refs (n ∷ ns) =
    let rest = node_refs ns in
    elim (node_ref n) [ none ↦ rest | some r ↦ if nonempty r then r ∷ rest else rest ]

-- `node.ref for group in groups for node in iter_public_nodes(group.nodes) if node.ref`
unfoldable pub public_refs : List PublicGroup → List Text
public_refs [] = []
public_refs (g ∷ gs) = node_refs (iter_public_nodes g.nodes) ++ public_refs gs

-- The tests of `get_authoritative_current_basis` after the `None` tests.
unfoldable pub agrees : Runtime → Text → RawSnapshot → PublicScreen → CompiledScreen → Bool
agrees r id snapshot public compiled =
    text_eq public.screen_id id
    && text_eq compiled.screen_id id
    && nat_eq compiled.source_snapshot_id snapshot.snapshot_id
    && nat_eq compiled.sequence r.screen_sequence
    && text_eq compiled.captured_at snapshot.captured_at
    && opt_text_eq compiled.package_name snapshot.package_name
    && opt_text_eq compiled.activity_name snapshot.activity_name
    && opt_text_eq public.app.package_name snapshot.package_name
    && opt_text_eq public.app.activity_name snapshot.activity_name

abbrev pub basis_of :
    Runtime
    → Text
    → RawSnapshot
    → PublicScreen
    → CompiledScreen
    → Option ScreenArtifacts
    → AuthoritativeCurrentBasis
basis_of r id snapshot public compiled artifacts = record {
  screen_id = id;
  screen_sequence = r.screen_sequence;
  snapshot_id = snapshot.snapshot_id;
  captured_at = snapshot.captured_at;
  package_name = snapshot.package_name;
  activity_name = snapshot.activity_name;
  public_screen = public;
  compiled_screen = compiled;
  artifacts = artifacts;
  public_refs = public_refs public.groups;
}

unfoldable pub check_screens :
    Runtime
    → Text
    → RawSnapshot
    → Option PublicScreen
    → Option CompiledScreen
    → Option ScreenArtifacts
    → Option AuthoritativeCurrentBasis
check_screens r id snapshot (some public) (some compiled) artifacts =
    if agrees r id snapshot public compiled
    then some (basis_of r id snapshot public compiled artifacts)
    else none
check_screens r id snapshot _ _ artifacts = none

unfoldable pub check_state :
    Runtime
    → Option Text
    → Option RawSnapshot
    → Option ScreenState
    → Option AuthoritativeCurrentBasis
unfolding check_screens
check_state r (some id) (some snapshot) (some state) =
    if nonempty id
    then check_screens r id snapshot state.public_screen state.compiled_screen state.artifacts
    else none
check_state r _ _ _ = none

unfoldable pub get_authoritative_current_basis : Runtime → Option AuthoritativeCurrentBasis
unfolding check_state
get_authoritative_current_basis r =
    if is_ready r.status
    then check_state r r.current_screen_id r.latest_snapshot r.screen_state
    else none

unfoldable pub current_public_screen : Runtime → Option PublicScreen
current_public_screen r = elim r.screen_state [ none ↦ none | some s ↦ s.public_screen ]

unfoldable pub current_compiled_screen : Runtime → Option CompiledScreen
current_compiled_screen r = elim r.screen_state [ none ↦ none | some s ↦ s.compiled_screen ]

-- ===== src/Models/Refs.antt =====
-- androidctld/src/androidctld/refs/models.py: what a ref stands for, and the registry.
use androidctl.Prelude.{ℕ, Text, text_eq, Bool, Option, none, some, List, [], ◌∷◌, if◌then◌else◌}
use androidctl.Models.Snapshots.{Bounds}

pub record RefFingerprint : Type 0 where
  pub role : Text
  pub normalized_label : Text
  pub resource_id : Text
  pub class_name : Text
  pub parent_role : Text
  pub parent_label : Text
  pub sibling_labels : List Text
  pub relative_bounds : Bounds

pub record NodeHandle : Type 0 where
  pub snapshot_id : ℕ
  pub rid : Text

pub record SemanticProfile : Type 0 where
  pub state : List Text
  pub actions : List Text

pub record RefRepairSourceSignature : Type 0 where
  pub ref : Text
  pub fingerprint : RefFingerprint
  pub state : List Text
  pub actions : List Text

pub record RefBinding : Type 0 where
  pub ref : Text
  pub handle : NodeHandle
  pub fingerprint : RefFingerprint
  pub semantic_profile : SemanticProfile
  pub reused : Bool

-- `bindings: dict[str, RefBinding]`, in the dict's order of insertion.
pub record RefRegistry : Type 0 where
  pub bindings : List (Text × RefBinding)

-- `RefRegistry()`
abbrev pub empty_registry : RefRegistry
empty_registry = record { bindings = [] }

unfoldable pub lookup_ref : Text → List (Text × RefBinding) → Option RefBinding
lookup_ref ref [] = none
lookup_ref ref ((r, b) ∷ rest) = if text_eq r ref then some b else lookup_ref ref rest

-- `registry.bindings[ref] = binding`: a known key keeps its place.
unfoldable pub set_ref : Text → RefBinding → List (Text × RefBinding) → List (Text × RefBinding)
set_ref ref b [] = (ref, b) ∷ []
set_ref ref b ((r, c) ∷ rest) = if text_eq r ref then (r, b) ∷ rest else (r, c) ∷ set_ref ref b rest

-- `RefRegistry.get`
unfoldable pub get : RefRegistry → Text → Option RefBinding
unfolding lookup_ref
get registry ref = lookup_ref ref registry.bindings

-- ===== src/Actions/Targeted.antt =====
-- What actions/executor.py tells of the identity of a node is a payload that the contract accepts.
use androidctl.Prelude.{Text, true, Option, ◌≡◌}
use androidctl.Models.Public.{PublicScreen}
use androidctl.Models.Evidence.{
  ActionTargetPayload, validate_evidence, validate_identity_invariants,
}
use androidctl.Refs.Located.{OnSome}
use androidctl.Actions.ActionTarget.{public_ref_is_unique}

module _ (s : PublicScreen) where
  abbrev pub Valid : ActionTargetPayload → Type 0
  Valid p =
      (validate_evidence p.evidence ≡ true)
      × (validate_identity_invariants p ≡ true)
      × OnSome (λ r. public_ref_is_unique s r ≡ true) p.next_ref

  abbrev Unique : Option Text → Type 0
  Unique = OnSome (λ r. public_ref_is_unique s r ≡ true)

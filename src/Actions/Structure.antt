-- ===== src/Actions/Structure.antt =====
-- The structure of a public screen in actions/submit_confirmation.py: what a submit may change.
use androidctl.Prelude.{
  Text, text_eq, opt_text_eq, Bool, true, false, ◌&&◌, not, Option, none, some, List,
}
use androidctl.Models.Semantic.{targets, context, dialog, SemanticMeta}
use androidctl.Models.Public.{
  PublicNode, node, PublicNodes, nil, cons, PublicScreen, public_group_nodes,
}
use androidctl.Waits.Signature.{texts_eq}

-- The tuple of `_structural_node_signature`, whose children are tuples of the same kind.
mutual
  pub data Structure : Type 0 where
    structure :
        (kind : Option Text) (role label : Text) (text : Option Text) (children : Structures)
        → (scroll_directions : List Text) (meta : Option SemanticMeta) → Structure

  pub data Structures : Type 0 where
    last : Structures
    also : Structure → Structures → Structures

-- `_structural_node_signature`, and `_structural_node_signatures` of several nodes.
unfoldable mutual
  pub structural_node_signature : PublicNode → Structure
  structural_node_signature
        (node kind role label text _ _ _ _ meta children directions _ _ _ _ _ _) =
      structure kind role label text (structural_node_signatures children) directions meta

  pub structural_node_signatures : PublicNodes → Structures
  structural_node_signatures nil = last
  structural_node_signatures (cons n ns) =
      also (structural_node_signature n) (structural_node_signatures ns)

-- `structural_groups`
pub record StructuralGroups : Type 0 where
  pub of_targets : Structures
  pub of_context : Structures
  pub of_dialog : Structures

unfoldable pub structural_groups : PublicScreen → StructuralGroups
unfolding structural_node_signatures public_group_nodes
structural_groups s = record {
  of_targets = structural_node_signatures (public_group_nodes s targets);
  of_context = structural_node_signatures (public_group_nodes s context);
  of_dialog = structural_node_signatures (public_group_nodes s dialog);
}

-- Python's `==` on these tuples.
abbrev pub meta_eq : Option SemanticMeta → Option SemanticMeta → Bool
meta_eq none none = true
meta_eq (some a) (some b) =
    opt_text_eq a.resource_id b.resource_id && text_eq a.class_name b.class_name
meta_eq _ _ = false

unfoldable mutual
  pub structure_eq : Structure → Structure → Bool
  structure_eq (structure k r l t c d m) (structure k' r' l' t' c' d' m') =
      opt_text_eq k k'
      && (text_eq r r'
          && (text_eq l l'
              && (opt_text_eq t t' && (structures_eq c c' && (texts_eq d d' && meta_eq m m')))))

  pub structures_eq : Structures → Structures → Bool
  structures_eq last last = true
  structures_eq (also x xs) (also y ys) = structure_eq x y && structures_eq xs ys
  structures_eq last (also y ys) = false
  structures_eq (also x xs) last = false

unfoldable pub groups_eq : StructuralGroups → StructuralGroups → Bool
unfolding structures_eq
groups_eq a b =
    structures_eq a.of_targets b.of_targets
    && (structures_eq a.of_context b.of_context && structures_eq a.of_dialog b.of_dialog)

-- `submit_public_change_is_attributable`
unfoldable pub submit_public_change_is_attributable : Option PublicScreen → PublicScreen → Bool
unfolding groups_eq structural_groups
submit_public_change_is_attributable none s = false
submit_public_change_is_attributable (some previous) s =
    not (groups_eq (structural_groups previous) (structural_groups s))

-- ===== src/Actions/StructureEquality.antt =====
-- The comparison of structures in actions/submit_confirmation.py is equality.
use androidctl.Prelude.{
  Text, text_eq→eq, text_eq_refl, opt_text_eq, opt_text_eq_iff, true, Option, none, some, List, [],
  ◌∷◌, ◌≡◌, ◌↔◌, refl, subst, arith,
}
use androidctl.Models.Semantic.{SemanticMeta}
use androidctl.Waits.Signature.{texts_eq}
use androidctl.Waits.Equality.{texts_eq→eq}
use androidctl.Actions.Structure.{
  Structure, structure, Structures, last, also, StructuralGroups, meta_eq, structure_eq,
  structures_eq, groups_eq,
}

texts_eq_refl : (ts : List Text) → texts_eq ts ts ≡ true
texts_eq_refl [] = refl
texts_eq_refl (t ∷ ts) = ground (arith, text_eq_refl t, texts_eq_refl ts)

opt_text_eq_refl : (o : Option Text) → opt_text_eq o o ≡ true
opt_text_eq_refl none = refl
opt_text_eq_refl (some t) = text_eq_refl t

meta_eq_refl : (m : Option SemanticMeta) → meta_eq m m ≡ true
meta_eq_refl none = refl
meta_eq_refl (some m) = ground (arith, opt_text_eq_refl m.resource_id, text_eq_refl m.class_name)

meta_eq→eq : (a b : Option SemanticMeta) → meta_eq a b ≡ true → a ≡ b
meta_eq→eq none none h = refl
meta_eq→eq (some a) (some b) h =
    ground
      (arith, opt_text_eq_iff a.resource_id b.resource_id, text_eq→eq a.class_name b.class_name)
meta_eq→eq none (some b) h = cc
meta_eq→eq (some a) none h = cc

mutual
  unfolding structure_eq structures_eq

  structure_eq_refl : (a : Structure) → structure_eq a a ≡ true
  structure_eq_refl (structure k r l t c d m) = ground (
    arith,
    opt_text_eq_refl k,
    text_eq_refl r,
    text_eq_refl l,
    opt_text_eq_refl t,
    structures_eq_refl c,
    texts_eq_refl d,
    meta_eq_refl m,
  )

  structures_eq_refl : (a : Structures) → structures_eq a a ≡ true
  structures_eq_refl last = refl
  structures_eq_refl (also x xs) = ground (arith, structure_eq_refl x, structures_eq_refl xs)

mutual
  unfolding structure_eq structures_eq

  structure_eq→eq : (a b : Structure) → structure_eq a b ≡ true → a ≡ b
  structure_eq→eq (structure k r l t c d m) (structure k' r' l' t' c' d' m') h = ground (
    arith,
    opt_text_eq_iff k k',
    text_eq→eq r r',
    text_eq→eq l l',
    opt_text_eq_iff t t',
    structures_eq→eq c c',
    texts_eq→eq d d',
    meta_eq→eq m m',
  )

  structures_eq→eq : (a b : Structures) → structures_eq a b ≡ true → a ≡ b
  structures_eq→eq last last h = refl
  structures_eq→eq (also x xs) (also y ys) h =
      ground (arith, structure_eq→eq x y, structures_eq→eq xs ys)
  structures_eq→eq last (also y ys) h = cc
  structures_eq→eq (also x xs) last h = cc

groups_eq_refl : (a : StructuralGroups) → groups_eq a a ≡ true
unfolding groups_eq
groups_eq_refl a = ground (
  arith,
  structures_eq_refl a.of_targets,
  structures_eq_refl a.of_context,
  structures_eq_refl a.of_dialog,
)

pub groups_eq_iff : (a b : StructuralGroups) → (groups_eq a b ≡ true) ↔ (a ≡ b)
unfolding groups_eq
groups_eq_iff a b = (
  λ h. ground (
    arith,
    structures_eq→eq a.of_targets b.of_targets,
    structures_eq→eq a.of_context b.of_context,
    structures_eq→eq a.of_dialog b.of_dialog,
  ),
  λ e. subst (λ x. groups_eq a x ≡ true) e (groups_eq_refl a),
)

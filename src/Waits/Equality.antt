-- ===== src/Waits/Equality.antt =====
-- The comparisons of signatures (snapshots/refresh.py) are equality.
use androidctl.Prelude.{
  Text, text_eq→eq, opt_text_eq_iff, nat_eq_iff, Bool, true, false, List, [], ◌∷◌, ◌≡◌, refl, arith,
}
use androidctl.Prelude.Int.{ℤ, pos, negsuc}
use androidctl.Models.Snapshots.{Bounds}
use androidctl.Waits.Signature.{
  NodeSignature, ScreenSignature, bool_eq, int_eq, texts_eq, bounds_eq, node_signature_eq,
  node_signatures_eq, signature_eq,
}

pub bool_eq→eq : (a b : Bool) → bool_eq a b ≡ true → a ≡ b
bool_eq→eq true b h = ground arith
bool_eq→eq false true h = ground arith
bool_eq→eq false false h = refl

int_eq→eq : (a b : ℤ) → int_eq a b ≡ true → a ≡ b
int_eq→eq (pos m) (pos n) h = ground (arith, nat_eq_iff m n)
int_eq→eq (negsuc m) (negsuc n) h = ground (arith, nat_eq_iff m n)
int_eq→eq (pos m) (negsuc n) h = cc
int_eq→eq (negsuc m) (pos n) h = cc

pub texts_eq→eq : (a b : List Text) → texts_eq a b ≡ true → a ≡ b
texts_eq→eq [] [] h = refl
texts_eq→eq (s ∷ ss) (t ∷ ts) h = ground (arith, text_eq→eq s t, texts_eq→eq ss ts)
texts_eq→eq [] (t ∷ ts) h = cc
texts_eq→eq (s ∷ ss) [] h = cc

pub bounds_eq→eq : (a b : Bounds) → bounds_eq a b ≡ true → a ≡ b
unfolding bounds_eq
bounds_eq→eq a b h = ground (
  arith,
  int_eq→eq a.left b.left,
  int_eq→eq a.top b.top,
  int_eq→eq a.right b.right,
  int_eq→eq a.bottom b.bottom,
)

node_signature_eq→eq : (a b : NodeSignature) → node_signature_eq a b ≡ true → a ≡ b
unfolding node_signature_eq
node_signature_eq→eq a b h = ground (
  arith,
  text_eq→eq a.group b.group,
  text_eq→eq a.role b.role,
  text_eq→eq a.label_key b.label_key,
  texts_eq→eq a.state_keys b.state_keys,
  texts_eq→eq a.actions b.actions,
  text_eq→eq a.ref b.ref,
  bounds_eq→eq a.bounds b.bounds,
)

node_signatures_eq→eq : (a b : List NodeSignature) → node_signatures_eq a b ≡ true → a ≡ b
node_signatures_eq→eq [] [] h = refl
node_signatures_eq→eq (x ∷ xs) (y ∷ ys) h =
    ground (arith, node_signature_eq→eq x y, node_signatures_eq→eq xs ys)
node_signatures_eq→eq [] (y ∷ ys) h = cc
node_signatures_eq→eq (x ∷ xs) [] h = cc

pub signature_eq→eq : (a b : ScreenSignature) → signature_eq a b ≡ true → a ≡ b
unfolding signature_eq
signature_eq→eq a b h = ground (
  arith,
  opt_text_eq_iff a.package_name b.package_name,
  opt_text_eq_iff a.activity_name b.activity_name,
  bool_eq→eq a.keyboard_visible b.keyboard_visible,
  node_signatures_eq→eq a.nodes b.nodes,
)

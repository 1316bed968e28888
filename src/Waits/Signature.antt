-- ===== src/Waits/Signature.antt =====
-- `compiled_screen_signature` and `settle_screen_signature` of snapshots/refresh.py, for a screen that
-- has been compiled, as records with their equality.
use androidctl.Prelude.{
  Text, text_eq, opt_text_eq, nat_eq, Bool, true, false, ◌&&◌, Option, some, List, [], ◌∷◌, ◌++◌,
  map,
}
use androidctl.Prelude.Int.{ℤ, pos, negsuc}
use androidctl.TextEquivalence.{Unicode, canonical_text_key}
use androidctl.Models.Snapshots.{Bounds}
use androidctl.Models.Semantic.{SemanticNode, CompiledScreen}

pub record NodeSignature : Type 0 where
  pub group : Text
  pub role : Text
  pub label_key : Text
  pub state_keys : List Text
  pub actions : List Text
  pub ref : Text
  pub bounds : Bounds

pub record ScreenSignature : Type 0 where
  pub package_name : Option Text
  pub activity_name : Option Text
  pub keyboard_visible : Bool
  pub nodes : List NodeSignature

unfoldable pub compiled_screen_nodes : CompiledScreen → List SemanticNode
compiled_screen_nodes s =
    s.targets_nodes ++ s.context_nodes ++ s.dialog_nodes ++ s.keyboard_nodes ++ s.system_nodes

module _ (u : Unicode) where
  abbrev pub node_signature : SemanticNode → NodeSignature
  node_signature n = record {
    group = n.group;
    role = n.role;
    label_key = canonical_text_key u (some n.label);
    state_keys = map (λ v. canonical_text_key u (some v)) n.state;
    actions = n.actions;
    ref = n.ref;
    bounds = n.bounds;
  }

  unfoldable pub compiled_screen_signature : CompiledScreen → ScreenSignature
  unfolding compiled_screen_nodes
  compiled_screen_signature s = record {
    package_name = s.package_name;
    activity_name = s.activity_name;
    keyboard_visible = s.keyboard_visible;
    nodes = map node_signature (compiled_screen_nodes s);
  }

module _ (u : Unicode) where
  -- `settle_screen_signature`: the signatures of the nodes do not have the ref.
  abbrev pub settle_node_signature : SemanticNode → NodeSignature
  settle_node_signature n = record (node_signature u n) { ref = [] }

  unfoldable pub settle_screen_signature : CompiledScreen → ScreenSignature
  unfolding compiled_screen_nodes
  settle_screen_signature s = record {
    package_name = s.package_name;
    activity_name = s.activity_name;
    keyboard_visible = s.keyboard_visible;
    nodes = map settle_node_signature (compiled_screen_nodes s);
  }

abbrev pub bool_eq : Bool → Bool → Bool
bool_eq true b = b
bool_eq false true = false
bool_eq false false = true

abbrev pub int_eq : ℤ → ℤ → Bool
int_eq (pos m) (pos n) = nat_eq m n
int_eq (negsuc m) (negsuc n) = nat_eq m n
int_eq _ _ = false

abbrev pub texts_eq : List Text → List Text → Bool
texts_eq [] [] = true
texts_eq (s ∷ ss) (t ∷ ts) = text_eq s t && texts_eq ss ts
texts_eq _ _ = false

unfoldable pub bounds_eq : Bounds → Bounds → Bool
bounds_eq a b =
    int_eq a.left b.left
    && (int_eq a.top b.top && (int_eq a.right b.right && int_eq a.bottom b.bottom))

unfoldable pub node_signature_eq : NodeSignature → NodeSignature → Bool
unfolding bounds_eq
node_signature_eq a b =
    text_eq a.group b.group
    && (text_eq a.role b.role
        && (text_eq a.label_key b.label_key
            && (texts_eq a.state_keys b.state_keys
                && (texts_eq a.actions b.actions
                    && (text_eq a.ref b.ref && bounds_eq a.bounds b.bounds)))))

abbrev pub node_signatures_eq : List NodeSignature → List NodeSignature → Bool
node_signatures_eq [] [] = true
node_signatures_eq (a ∷ xs) (b ∷ ys) = node_signature_eq a b && node_signatures_eq xs ys
node_signatures_eq _ _ = false

-- `==` of two signatures
unfoldable pub signature_eq : ScreenSignature → ScreenSignature → Bool
unfolding node_signature_eq
signature_eq a b =
    opt_text_eq a.package_name b.package_name
    && (opt_text_eq a.activity_name b.activity_name
        && (bool_eq a.keyboard_visible b.keyboard_visible && node_signatures_eq a.nodes b.nodes))

-- ===== src/Models/Samples.antt =====
-- Concrete texts, nodes and screens for the tests, on texts of ASCII.
use androidctl.Prelude.{
  ◌-◌, ◌&&◌, if◌then◌else◌, leb, ℕ, zero, suc, ◌*◌, Text, text, nat_eq, true, false, Option, none,
  some, List, [], ◌∷◌, refl,
}
use androidctl.Prelude.Int.{pos}
use androidctl.TextEquivalence.{Unicode}
use androidctl.Models.Snapshots.{Bounds, RawNode}
use androidctl.Models.Semantic.{SemanticNode, CompiledScreen}
use androidctl.Models.Refs.{RefRepairSourceSignature, RefRegistry}

abbrev pub ascii : Unicode
ascii = record {
  nfkc = λ s. s;
  casefold = λ s. s;
  lower = λ s. s;
  is_space = nat_eq b' ';
  decimal = λ c. if leb b'0' c && leb c b'9' then some (c - b'0') else none;
  is_digit = λ c. leb b'0' c && leb c b'9';
  space_is_space = refl;
}

abbrev pub bounds : ℕ → Bounds
bounds n = record { left = pos 0; top = pos n; right = pos 100; bottom = pos (20 * n) }

abbrev pub button : Text → ℕ → SemanticNode
button label n = record {
  raw_rid = label;
  role = text "button";
  label = label;
  state = [];
  actions = text "tap" ∷ [];
  bounds = bounds n;
  meta = record { resource_id = some (text "id/ok"); class_name = text "Button" };
  targetable = true;
  score = 100;
  group = text "targets";
  parent_role = text "list";
  parent_label = [];
  sibling_labels = [];
  relative_bounds = bounds n;
  scroll_directions = [];
  text_children = [];
  submit_target_keys = [];
  submit_relation_tokens = [];
  label_quality = 5;
  ref = [];
  relation_anchor_rid = [];
  relation_window_id = [];
  relation_window_root_rid = none;
  relation_parent_rid = none;
  relation_ancestor_scopes = [];
}

abbrev pub nodes : ℕ → SemanticNode
nodes zero = button (text "Cancel") 2
nodes (suc zero) = button (text "Save") 3
nodes _ = button (text "Other") 40

-- The source is the second node, a bit higher.
abbrev pub source : RefRepairSourceSignature
source = record {
  ref = text "n1";
  fingerprint = record {
    role = text "button";
    normalized_label = text "Save";
    resource_id = text "id/ok";
    class_name = text "Button";
    parent_role = text "list";
    parent_label = [];
    sibling_labels = [];
    relative_bounds = bounds 2;
  };
  state = [];
  actions = text "tap" ∷ [];
}

-- A screen with the three nodes, and a registry that knows the second as `n1`.
abbrev pub screen : CompiledScreen
screen = record {
  screen_id = text "s1";
  sequence = 1;
  source_snapshot_id = 4;
  captured_at = text "12:00";
  package_name = none;
  activity_name = none;
  keyboard_visible = false;
  action_surface_fingerprint = text "f";
  blocking_group = none;
  targets_nodes = nodes 0 ∷ nodes 1 ∷ nodes 2 ∷ [];
  context_nodes = [];
  dialog_nodes = [];
  keyboard_nodes = [];
  system_nodes = [];
}

abbrev pub registry : RefRegistry
registry = record {
  bindings =
      (
        text "n1",
        record {
          ref = text "n1";
          handle = record { snapshot_id = 3; rid = text "old" };
          fingerprint = source.fingerprint;
          semantic_profile = record { state = source.state; actions = source.actions };
          reused = false;
        },
      )
      ∷ [];
}

-- A visible node under a parent, with a label and actions.
abbrev pub raw_node : Text → Option Text → Text → Text → List Text → RawNode
raw_node rid parent class_name label actions = record {
  rid = rid;
  window_id = text "w1";
  parent_rid = parent;
  child_rids = [];
  class_name = class_name;
  resource_id = some (text "id/form");
  text = some label;
  content_desc = none;
  hint_text = none;
  state_description = none;
  pane_title = none;
  package_name = none;
  bounds = bounds 1;
  visible_to_user = true;
  important_for_accessibility = true;
  clickable = true;
  enabled = true;
  editable = false;
  focusable = true;
  focused = false;
  checkable = false;
  checked = false;
  selected = false;
  scrollable = false;
  password = false;
  actions = actions;
}

-- A form with a button.
abbrev pub form : List RawNode
form =
    raw_node (text "r") none (text "View") (text "Form") []
    ∷ raw_node (text "rb") (some (text "r")) (text "Button") (text "Send") (text "click" ∷ [])
    ∷ []

-- ===== src/Models/Semantic.antt =====
-- `SemanticNode` and `CompiledScreen` of androidctld/src/androidctld/semantics/compiler.py, with
-- the support models of semantics/models.py.
use androidctl.Prelude.{ℕ, Text, Bool, Option, none, some, List, []}
use androidctl.Models.Snapshots.{Bounds}

pub record SemanticMeta : Type 0 where
  pub resource_id : Option Text
  pub class_name : Text

pub record RelationScopeNode : Type 0 where
  pub rid : Text
  pub window_id : Text
  pub parent_rid : Option Text
  pub bounds : Bounds
  pub resource_id : Text
  pub class_name : Text
  pub text : Text
  pub content_desc : Text
  pub pane_title : Text
  pub is_window_root : Bool

pub record SemanticNode : Type 0 where
  pub raw_rid : Text
  pub role : Text
  pub label : Text
  pub state : List Text
  pub actions : List Text
  pub bounds : Bounds
  pub meta : SemanticMeta
  pub targetable : Bool
  pub score : ℕ
  pub group : Text
  pub parent_role : Text
  pub parent_label : Text
  pub sibling_labels : List Text
  pub relative_bounds : Bounds
  pub scroll_directions : List Text
  pub text_children : List Text
  pub submit_target_keys : List (Text × Text)
  pub submit_relation_tokens : List Text
  pub label_quality : ℕ
  pub ref : Text
  pub relation_anchor_rid : Text
  pub relation_window_id : Text
  pub relation_window_root_rid : Option Text
  pub relation_parent_rid : Option Text
  pub relation_ancestor_scopes : List RelationScopeNode

-- `self.meta.resource_id or ""`
abbrev pub resource_id : SemanticNode → Text
resource_id n = elim n.meta.resource_id [ none ↦ [] | some r ↦ r ]

abbrev pub class_name : SemanticNode → Text
class_name n = n.meta.class_name

-- The names of the groups of nodes.
pub data GroupName : Type 0 where
  targets keyboard system context dialog : GroupName

pub record CompiledScreen : Type 0 where
  pub screen_id : Text
  pub sequence : ℕ
  pub source_snapshot_id : ℕ
  pub captured_at : Text
  pub package_name : Option Text
  pub activity_name : Option Text
  pub keyboard_visible : Bool
  pub action_surface_fingerprint : Text
  pub blocking_group : Option GroupName
  pub targets_nodes : List SemanticNode
  pub context_nodes : List SemanticNode
  pub dialog_nodes : List SemanticNode
  pub keyboard_nodes : List SemanticNode
  pub system_nodes : List SemanticNode

-- `getattr(self, group_name)`
abbrev pub group_nodes : CompiledScreen → GroupName → List SemanticNode
group_nodes s targets = s.targets_nodes
group_nodes s keyboard = s.keyboard_nodes
group_nodes s system = s.system_nodes
group_nodes s context = s.context_nodes
group_nodes s dialog = s.dialog_nodes

abbrev pub group_number : GroupName → ℕ
group_number targets = 0
group_number keyboard = 1
group_number system = 2
group_number context = 3
group_number dialog = 4

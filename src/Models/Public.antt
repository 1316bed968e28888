-- ===== src/Models/Public.antt =====
-- The public screen of contracts/src/androidctl_contracts/public_screen.py, with the helpers of
-- androidctld/src/androidctld/semantics/public_models.py.
use androidctl.Prelude.{Text, Bool, nat_eq, if◌then◌else◌, Option, none, some, List, [], ◌∷◌, ◌++◌}
use androidctl.Prelude.Int.{ℤ}
use androidctl.Models.Snapshots.{Bounds}
use androidctl.Models.Semantic.{GroupName, group_number, SemanticMeta}

-- `children : tuple[PublicNode, ...]` is the list type of the block.
mutual
  pub data PublicNode : Type 0 where
    node :
        (kind : Option Text) (role label : Text) (text ref : Option Text)
        (state actions : List Text)
        → (bounds : Option Bounds) (meta : Option SemanticMeta) (children : PublicNodes)
        → (scroll_directions submit_refs : List Text)
        → (within value origin window_ref ambiguity : Option Text) → PublicNode

  pub data PublicNodes : Type 0 where
    nil : PublicNodes
    cons : PublicNode → PublicNodes → PublicNodes

abbrev pub node_ref : PublicNode → Option Text
node_ref (node _ _ _ _ ref _ _ _ _ _ _ _ _ _ _ _ _) = ref

pub record PublicApp : Type 0 where
  pub package_name : Option Text
  pub activity_name : Option Text
  pub requested_package_name : Option Text
  pub resolved_package_name : Option Text
  pub match_type : Option Text

pub record PublicFocus : Type 0 where
  pub input_ref : Option Text

pub record PublicSurface : Type 0 where
  pub keyboard_visible : Bool
  pub blocking_group : Option GroupName
  pub focus : PublicFocus

pub record PublicGroup : Type 0 where
  pub name : GroupName
  pub nodes : PublicNodes

pub record OmittedEntry : Type 0 where
  pub group : GroupName
  pub reason : Text
  pub count : Option ℤ

pub record VisibleWindow : Type 0 where
  pub window_ref : Text
  pub role : Text
  pub focused : Bool
  pub blocking : Bool

pub record TransientItem : Type 0 where
  pub text : Text
  pub kind : Option Text

pub record PublicScreen : Type 0 where
  pub screen_id : Text
  pub app : PublicApp
  pub surface : PublicSurface
  pub groups : List PublicGroup
  pub omitted : List OmittedEntry
  pub visible_windows : List VisibleWindow
  pub transient : List TransientItem

-- `iter_public_nodes`: each node before its children.
unfoldable mutual
  pub iter_public_nodes : PublicNodes → List PublicNode
  iter_public_nodes nil = []
  iter_public_nodes (cons n ns) = n ∷ iter_children n ++ iter_public_nodes ns

  pub iter_children : PublicNode → List PublicNode
  iter_children (node _ _ _ _ _ _ _ _ _ children _ _ _ _ _ _ _) = iter_public_nodes children

-- `public_group_nodes`: the last group of the name.
unfoldable pub nodes_of_group : GroupName → List PublicGroup → Option PublicNodes
nodes_of_group name [] = none
nodes_of_group name (g ∷ gs) = elim (nodes_of_group name gs) [
  | some ns ↦ some ns
  | none ↦ if nat_eq (group_number g.name) (group_number name) then some g.nodes else none
]

unfoldable pub public_group_nodes : PublicScreen → GroupName → PublicNodes
unfolding nodes_of_group
public_group_nodes s name = elim (nodes_of_group name s.groups) [ none ↦ nil | some ns ↦ ns ]

abbrev pub node_role : PublicNode → Text
node_role (node _ role _ _ _ _ _ _ _ _ _ _ _ _ _ _ _) = role

abbrev pub node_actions : PublicNode → List Text
node_actions (node _ _ _ _ _ _ actions _ _ _ _ _ _ _ _ _ _) = actions

abbrev pub node_submit_refs : PublicNode → List Text
node_submit_refs (node _ _ _ _ _ _ _ _ _ _ _ submit_refs _ _ _ _ _) = submit_refs

-- `node for group in screen.groups for node in iter_public_nodes(group.nodes)`
abbrev pub nodes_of_groups : List PublicGroup → List PublicNode
nodes_of_groups [] = []
nodes_of_groups (g ∷ gs) = iter_public_nodes g.nodes ++ nodes_of_groups gs

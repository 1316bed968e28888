-- ===== src/Models/Snapshots.antt =====
-- androidctld/src/androidctld/snapshots/models.py: the raw snapshot of a device's screen.
use androidctl.Prelude.{ℕ, Text, text_eq, Bool, Option, none, some, List, [], ◌∷◌, if◌then◌else◌}
use androidctl.Prelude.Int.{ℤ}

-- `tuple[int, int, int, int]`
pub record Bounds : Type 0 where
  pub left : ℤ
  pub top : ℤ
  pub right : ℤ
  pub bottom : ℤ

pub record RawIme : Type 0 where
  pub visible : Bool
  pub window_id : Option Text

pub record RawWindow : Type 0 where
  pub window_id : Text
  pub type : Text
  pub layer : ℤ
  pub package_name : Option Text
  pub bounds : Bounds
  pub root_rid : Text

pub record RawNode : Type 0 where
  pub rid : Text
  pub window_id : Text
  pub parent_rid : Option Text
  pub child_rids : List Text
  pub class_name : Text
  pub resource_id : Option Text
  pub text : Option Text
  pub content_desc : Option Text
  pub hint_text : Option Text
  pub state_description : Option Text
  pub pane_title : Option Text
  pub package_name : Option Text
  pub bounds : Bounds
  pub visible_to_user : Bool
  pub important_for_accessibility : Bool
  pub clickable : Bool
  pub enabled : Bool
  pub editable : Bool
  pub focusable : Bool
  pub focused : Bool
  pub checkable : Bool
  pub checked : Bool
  pub selected : Bool
  pub scrollable : Bool
  pub password : Bool
  pub actions : List Text

pub record RawSnapshot : Type 0 where
  pub snapshot_id : ℕ
  pub captured_at : Text
  pub package_name : Option Text
  pub activity_name : Option Text
  pub ime : RawIme
  pub windows : List RawWindow
  pub nodes : List RawNode
  pub display : List (Text × ℕ)

-- `nodes_by_rid.get(rid)`, for `{node.rid: node for node in nodes}`: the last node of the id.
unfoldable pub last_for_rid : Text → List RawNode → Option RawNode
last_for_rid rid [] = none
last_for_rid rid (n ∷ ns) = elim (last_for_rid rid ns) [
  | some m ↦ some m
  | none ↦ if text_eq n.rid rid then some n else none
]

-- ===== src/Semantics/Groups.antt =====
-- semantics/surface.py: the groups of nodes, the scores, the group that blocks the others and what it
-- does to them. `grouped_nodes` is a function from the name of a group.
use androidctl.Prelude.{
  ℕ, ◌+◌, nat_eq, Text, text, text_eq, Bool, false, ◌&&◌, ◌||◌, not, any, Option, none, some, List,
  [], ◌∷◌, map, if◌then◌else◌,
}
use androidctl.Models.Snapshots.{RawNode, RawSnapshot}
use androidctl.Models.Semantic.{
  SemanticNode, GroupName, targets, keyboard, system, context, dialog, group_number,
}
use androidctl.Models.Candidates.{has_actions, is_focused_input}

abbrev pub GroupedNodes : Type 0
GroupedNodes = GroupName → List SemanticNode

abbrev pub group_text : GroupName → Text
group_text targets = text "targets"
group_text keyboard = text "keyboard"
group_text system = text "system"
group_text context = text "context"
group_text dialog = text "dialog"

abbrev pub same_group : GroupName → GroupName → Bool
same_group a b = nat_eq (group_number a) (group_number b)

abbrev pub group_order : List GroupName
group_order = targets ∷ keyboard ∷ system ∷ context ∷ dialog ∷ []

-- `ROLE_BASE_SCORES.get(role, 0)` of semantics/policy.py
unfoldable pub role_base_score : Text → ℕ
role_base_score role =
    if text_eq role (text "button")
    then 50
    else if text_eq role (text "input")
    then 45
    else if text_eq role (text "switch")
    then 40
    else if text_eq role (text "checkbox") || text_eq role (text "radio")
    then 35
    else if text_eq role (text "tab")
    then 30
    else if text_eq role (text "list-item")
    then 25
    else if text_eq role (text "keyboard-key")
    then 20
    else if text_eq role (text "text")
    then 5
    else 0

abbrev points : Bool → ℕ → ℕ
points b n = if b then n else 0

-- `score_node`
unfoldable pub score_node : RawNode → Text → Bool → ℕ
unfolding role_base_score
score_node n role targetable =
    points targetable 100 + role_base_score role + points n.focused 10 + points n.enabled 5

-- `ime_owned_surface`
unfoldable pub ime_owned_surface : RawSnapshot → GroupedNodes → Bool
ime_owned_surface snapshot g =
    if not snapshot.ime.visible then false else any is_focused_input (g keyboard)

-- `resolve_blocking_group`
unfoldable pub resolve_blocking_group : RawSnapshot → GroupedNodes → Option GroupName
unfolding ime_owned_surface
resolve_blocking_group snapshot g =
    if any has_actions (g dialog)
    then some dialog
    else if ime_owned_surface snapshot g && any has_actions (g keyboard)
    then some keyboard
    else if any has_actions (g system)
    then some system
    else none

abbrev pub without_actions : SemanticNode → SemanticNode
without_actions n = record n { actions = [] }

-- `apply_blocking_policy`
unfoldable pub apply_blocking_policy : GroupedNodes → Option GroupName → GroupedNodes
apply_blocking_policy g none = g
apply_blocking_policy g (some blocking) = λ name.
    if same_group name context || same_group name blocking
    then g name
    else map without_actions (g name)

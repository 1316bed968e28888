-- ===== src/Actions/FocusedInput.antt =====
-- actions/focused_input_admissibility.py: which node of a screen is its focused input.
use androidctl.Prelude.{
  Text, text, text_eq, opt_text_eq, Bool, false, ◌&&◌, is_some, Option, none, some,
}
use androidctl.Models.Semantic.{SemanticNode, CompiledScreen, GroupName, keyboard}
use androidctl.Models.Public.{PublicNode, PublicScreen, node_role, node_ref}
use androidctl.Models.Candidates.{Candidate, focused_input_node}
use androidctl.Semantics.Groups.{same_group}

abbrev pub public_focused_input_ref : PublicScreen → Option Text
public_focused_input_ref s = s.surface.focus.input_ref

abbrev pub public_node_is_focused_input : PublicScreen → PublicNode → Bool
public_node_is_focused_input s n =
    text_eq (node_role n) (text "input")
    && (is_some (node_ref n) && opt_text_eq (public_focused_input_ref s) (node_ref n))

abbrev stands_for : Option Candidate → SemanticNode → Bool
stands_for none n = false
stands_for (some c) n = text_eq c.node.raw_rid n.raw_rid

unfoldable pub semantic_node_is_focused_input : CompiledScreen → SemanticNode → Bool
unfolding focused_input_node
semantic_node_is_focused_input s n =
    text_eq n.role (text "input") && stands_for (focused_input_node s) n

-- `submit_subject_is_cross_checked_focused_input`
unfoldable pub submit_subject_is_cross_checked_focused_input :
    PublicScreen → CompiledScreen → PublicNode → SemanticNode → Bool
unfolding semantic_node_is_focused_input
submit_subject_is_cross_checked_focused_input screen compiled public_node n =
    public_node_is_focused_input screen public_node && semantic_node_is_focused_input compiled n

-- `keyboard_blocker_allows_submit_subject`
unfoldable pub keyboard_blocker_allows_submit_subject :
    GroupName → PublicScreen → CompiledScreen → PublicNode → SemanticNode → Bool
unfolding submit_subject_is_cross_checked_focused_input
keyboard_blocker_allows_submit_subject blocking screen compiled public_node n =
    same_group blocking keyboard
    && submit_subject_is_cross_checked_focused_input screen compiled public_node n

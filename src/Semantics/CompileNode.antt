-- ===== src/Semantics/CompileNode.antt =====
-- `compile_node` of semantics/compiler.py, with the scopes above a node. The walk up the parents is on
-- fuel; `none` is one that the fuel does not end.
use androidctl.Prelude.{
  ℕ, zero, suc, Text, text, text_eq, opt_text_eq, text_in, nonempty, Bool, true, false, ◌&&◌, ◌||◌,
  not, Option, none, some, List, [], ◌∷◌, ◌++◌, if◌then◌else◌,
}
use androidctl.TextEquivalence.{Unicode}
use androidctl.Models.Snapshots.{RawWindow, RawNode, RawSnapshot, last_for_rid}
use androidctl.Models.Semantic.{RelationScopeNode, SemanticNode, GroupName, dialog}
use androidctl.Semantics.Roles.{infer_role, semantic_role, relative_bounds_for_node}
use androidctl.Semantics.Labels.{
  fallback_label, label_info_of, normalize_text, parent_node_for, shown_label, extract_state,
  sibling_labels_for_node,
}
use androidctl.Semantics.Targets.{
  actionability, public_primary_actions_for, secondary_public_actions_for,
}
use androidctl.Semantics.Groups.{group_text, score_node}
use androidctl.Semantics.Surface.{infer_group, scroll_directions_for_raw_node}

-- `should_filter_node`
unfoldable pub should_filter_node : RawNode → Text → Text → Bool → Bool
should_filter_node n role label targetable =
    if not targetable && not n.important_for_accessibility
    then true
    else if text_eq role (text "container") && not (nonempty label) && not targetable
    then true
    else not (nonempty label)
      && not targetable
      && (text_eq role (text "image") || text_eq role (text "text"))

-- `root_rid_by_window.get(window_id)`: the root of the last window of the id.
unfoldable pub root_of_window : List RawWindow → Text → Option Text
root_of_window [] id = none
root_of_window (w ∷ ws) id = elim (root_of_window ws id) [
  | some r ↦ some r
  | none ↦ if text_eq w.window_id id then some w.root_rid else none
]

abbrev or_empty : Option Text → Text
or_empty none = []
or_empty (some s) = s

-- `_relation_scope_node`
unfoldable pub relation_scope_node : List RawWindow → RawNode → RelationScopeNode
unfolding root_of_window
relation_scope_node windows n = record {
  rid = n.rid;
  window_id = n.window_id;
  parent_rid = n.parent_rid;
  bounds = n.bounds;
  resource_id = or_empty n.resource_id;
  class_name = n.class_name;
  text = or_empty n.text;
  content_desc = or_empty n.content_desc;
  pane_title = or_empty n.pane_title;
  is_window_root = opt_text_eq (some n.rid) (root_of_window windows n.window_id);
}

-- The loop of `_relation_ancestor_scopes` from a parent on, which ends at one that it has seen. A
-- parent's id that no node has ends it too.
unfoldable pub scopes_above :
    ℕ → List RawWindow → List RawNode → List Text → Option RawNode → Option (List RelationScopeNode)
unfolding relation_scope_node parent_node_for
scopes_above fuel windows nodes seen none = some []
scopes_above zero windows nodes seen (some p) = none
scopes_above (suc fuel) windows nodes seen (some p) =
    let above = scopes_above fuel windows nodes (p.rid ∷ seen) (parent_node_for nodes p) in
    if text_in p.rid seen
    then some []
    else elim above [ none ↦ none | some rest ↦ some (relation_scope_node windows p ∷ rest) ]

abbrev pub ime_window_id : RawSnapshot → Option Text
ime_window_id snapshot = if snapshot.ime.visible then snapshot.ime.window_id else none

module _ (u : Unicode) where
  abbrev visible_text : List RawNode → List Text → Option RawNode → List Text
  visible_text nodes texts none = texts
  visible_text nodes texts (some child) =
      let normalized = normalize_text u (some (shown_label u nodes child)) in
      if not child.visible_to_user || not (nonempty normalized) || text_in normalized texts
      then texts
      else texts ++ normalized ∷ []

  -- The loop of `scroll_container_text_children`.
  unfoldable pub child_texts : List RawNode → List Text → List Text → List Text
  unfolding last_for_rid normalize_text label_info_of fallback_label
  child_texts nodes texts [] = texts
  child_texts nodes texts (c ∷ cs) =
      child_texts nodes (visible_text nodes texts (last_for_rid c nodes)) cs

  -- Its end.
  abbrev texts_or_label : Text → List Text → List Text
  texts_or_label fallback [] = if nonempty fallback then fallback ∷ [] else []
  texts_or_label fallback (t ∷ ts) = t ∷ ts

  -- `scroll_container_text_children`
  unfoldable pub scroll_container_text_children : List RawNode → RawNode → List Text
  unfolding child_texts normalize_text label_info_of fallback_label
  scroll_container_text_children nodes n =
      texts_or_label (normalize_text u (some (shown_label u nodes n)))
        (child_texts nodes [] n.child_rids)

  abbrev pub parent_role_of : Option RawNode → Text
  parent_role_of none = []
  parent_role_of (some p) = infer_role p

  abbrev parent_label_of : List RawNode → Option RawNode → Text
  parent_label_of nodes none = []
  parent_label_of nodes (some p) = shown_label u nodes p

  abbrev pub is_nonempty : List Text → Bool
  is_nonempty [] = false
  is_nonempty (_ ∷ _) = true

  -- The public actions of an anchor in a role.
  unfoldable pub public_actions : List RawNode → RawNode → Text → List Text
  unfolding actionability public_primary_actions_for secondary_public_actions_for
  public_actions nodes anchor role =
      public_primary_actions_for anchor role (actionability u nodes anchor.rid)
      ++ secondary_public_actions_for u anchor role

  -- The group of a node.
  abbrev pub group_in : RawSnapshot → RawNode → Option RawNode → Text → Bool → GroupName
  group_in snapshot anchor parent role targetable =
      if text_eq (parent_role_of parent) (text "dialog")
      then dialog
      else infer_group u anchor role targetable (ime_window_id snapshot)

  -- The node that `compile_node` builds, for its role, its actions and its ancestors.
  unfoldable pub semantic_node :
      RawSnapshot → RawNode → RawNode → Text → List Text → List RelationScopeNode → SemanticNode
  unfolding label_info_of extract_state score_node infer_group infer_role parent_node_for
      sibling_labels_for_node relative_bounds_for_node scroll_directions_for_raw_node
      scroll_container_text_children root_of_window fallback_label
  semantic_node snapshot n anchor role actions scopes =
      let nodes = snapshot.nodes in
      let scrolls = text_in (text "scroll") actions && text_eq role (text "container") in
      let public_role = if scrolls then text "scroll-container" else role in
      let parent = parent_node_for nodes n in
      let targetable = is_nonempty actions in
      record {
        raw_rid = anchor.rid;
        role = public_role;
        label = shown_label u nodes n;
        state = extract_state u anchor;
        actions = actions;
        bounds = anchor.bounds;
        meta = record { resource_id = n.resource_id; class_name = n.class_name };
        targetable = targetable;
        score = score_node anchor public_role targetable;
        group = group_text (group_in snapshot anchor parent public_role targetable);
        parent_role = parent_role_of parent;
        parent_label = parent_label_of nodes parent;
        sibling_labels = sibling_labels_for_node u nodes n;
        relative_bounds = relative_bounds_for_node n parent;
        scroll_directions = if scrolls then scroll_directions_for_raw_node u anchor else [];
        text_children = if scrolls then scroll_container_text_children nodes anchor else [];
        submit_target_keys = [];
        submit_relation_tokens = [];
        label_quality = (label_info_of u nodes n.rid).quality;
        ref = [];
        relation_anchor_rid = anchor.rid;
        relation_window_id = anchor.window_id;
        relation_window_root_rid = root_of_window snapshot.windows anchor.window_id;
        relation_parent_rid = anchor.parent_rid;
        relation_ancestor_scopes = scopes;
      }

  -- `compile_node` for a visible node, in its role.
  unfoldable pub compile_visible :
      ℕ → RawSnapshot → RawNode → RawNode → Text → List Text → Option (Option SemanticNode)
  unfolding semantic_node should_filter_node scopes_above label_info_of parent_node_for
  compile_visible fuel snapshot n anchor role actions =
      let scopes =
        scopes_above fuel snapshot.windows snapshot.nodes []
          (parent_node_for snapshot.nodes anchor) in
      let scrolls = text_in (text "scroll") actions && text_eq role (text "container") in
      if should_filter_node n (if scrolls then text "scroll-container" else role)
        (label_info_of u snapshot.nodes n.rid).label (is_nonempty actions)
      then some none
      else elim scopes [
        | none ↦ none
        | some s ↦ some (some (semantic_node snapshot n anchor role actions s))
      ]

  -- `compile_node`: the node is shown for its anchor.
  unfoldable pub compile_node : ℕ → RawSnapshot → RawNode → RawNode → Option (Option SemanticNode)
  unfolding compile_visible semantic_role public_actions actionability
  compile_node fuel snapshot n anchor =
      let role = semantic_role n anchor (actionability u snapshot.nodes anchor.rid) in
      if not n.visible_to_user
      then some none
      else compile_visible fuel snapshot n anchor role (public_actions snapshot.nodes anchor role)

-- ===== src/Semantics/Surface.antt =====
-- semantics/surface.py: the group of a node, the order of nodes, their scroll directions, the
-- fingerprint of a screen and the nodes of a public screen.
use androidctl.Prelude.{
  ℕ, zero, suc, ◌+◌, ◌/◌, ◌%◌, ltb, nat_eq, Text, text, text_eq, text_lt, text_in, nonempty,
  starts_with, join, Bool, false, ◌&&◌, ◌||◌, not, Option, none, some, List, [], ◌∷◌, ◌++◌, map,
  keep_if, if◌then◌else◌,
}
use androidctl.Prelude.Int.{ℤ, pos, negsuc, int_lt, int_eq}
use androidctl.Prelude.Sort.{sort}
use androidctl.TextEquivalence.{Unicode, canonical_text_key}
use androidctl.Models.Snapshots.{RawNode, RawSnapshot}
use androidctl.Models.Semantic.{
  SemanticNode, GroupName, targets, keyboard, system, context, dialog, resource_id, class_name,
}
use androidctl.Models.Public.{PublicNode, node, PublicNodes, nil, cons}
use androidctl.Refs.Names.{digits}
use androidctl.Semantics.Roles.{truthy}
use androidctl.Semantics.Labels.{normalize_text}
use androidctl.Semantics.Targets.{normalize_action_name}
use androidctl.Semantics.Groups.{GroupedNodes, group_text, group_order}

-- `str(value)` of an integer
abbrev int_text : ℤ → Text
int_text (pos n) = digits (suc n) n
int_text (negsuc n) = b'-' ∷ digits (suc (suc n)) (suc n)

-- The decimal digits of a number, of a fixed width.
abbrev padded : ℕ → ℕ → Text
padded zero n = []
padded (suc width) n = padded width (n / 10) ++ (b'0' + n % 10) ∷ []

-- `scroll_directions_for_raw_node`: the directions of the actions, each once.
unfoldable pub direction_of : Text → Option Text
direction_of action =
    if text_eq action (text "scrollForward") || text_eq action (text "scrollDown")
    then some (text "down")
    else if text_eq action (text "scrollBackward")
    then some (text "backward")
    else if text_eq action (text "scrollUp")
    then some (text "up")
    else if text_eq action (text "scrollLeft")
    then some (text "left")
    else if text_eq action (text "scrollRight")
    then some (text "right")
    else none

abbrev add_direction : List Text → Option Text → List Text
add_direction directions none = directions
add_direction directions (some d) =
    if text_in d directions then directions else directions ++ d ∷ []

-- The values of `passive_node_dedup_key`.
pub record DedupKey : Type 0 where
  pub group : Text
  pub role : Text
  pub label : Text
  pub parent_role : Text
  pub parent_label : Text

abbrev pub dedup_key_eq : DedupKey → DedupKey → Bool
dedup_key_eq a b =
    text_eq a.group b.group
    && text_eq a.role b.role
    && text_eq a.label b.label
    && text_eq a.parent_role b.parent_role
    && text_eq a.parent_label b.parent_label

module _ (u : Unicode) where
  unfoldable pub add_directions : List Text → List Text → List Text
  unfolding direction_of normalize_action_name
  add_directions directions [] = directions
  add_directions directions (a ∷ actions) =
      add_directions (add_direction directions (direction_of (normalize_action_name u a))) actions

  unfoldable pub scroll_directions_for_raw_node : RawNode → List Text
  unfolding add_directions
  scroll_directions_for_raw_node n = add_directions [] n.actions

  abbrev lowered : Text → Text
  lowered s = u.lower (normalize_text u (some s))

  -- `passive_node_dedup_key`
  unfoldable pub passive_node_dedup_key : SemanticNode → Option DedupKey
  unfolding normalize_text
  passive_node_dedup_key n =
      if n.targetable || not (nonempty (lowered n.label))
      then none
      else some (record {
        group = n.group;
        role = n.role;
        label = lowered n.label;
        parent_role = lowered n.parent_role;
        parent_label = lowered n.parent_label;
      })

  abbrev pub in_ime_window : RawNode → Option Text → Bool
  in_ime_window n none = false
  in_ime_window n (some window) =
      text_eq (normalize_text u (some n.window_id)) (normalize_text u (some window))

  abbrev pub is_system_package : Option Text → Bool
  is_system_package none = false
  is_system_package (some p) = starts_with (text "com.android.systemui") p

  -- `infer_group`
  unfoldable pub infer_group : RawNode → Text → Bool → Option Text → GroupName
  unfolding normalize_text
  infer_group n role targetable ime_window_id =
      if text_eq role (text "dialog") || truthy n.pane_title
      then dialog
      else if text_eq role (text "keyboard-key") || in_ime_window n ime_window_id
      then keyboard
      else if is_system_package n.package_name
      then system
      else if targetable
      then targets
      else context

  -- `<` on `target_sort_key`, in which the score is negated, and on `context_sort_key`.
  abbrev before_by_label : SemanticNode → SemanticNode → Bool
  before_by_label a b = text_lt (u.lower a.label) (u.lower b.label)

  unfoldable pub target_sort_lt : SemanticNode → SemanticNode → Bool
  target_sort_lt a b =
      ltb b.score a.score
      || (nat_eq a.score b.score
          && (int_lt a.bounds.top b.bounds.top
              || (int_eq a.bounds.top b.bounds.top
                  && (int_lt a.bounds.left b.bounds.left
                      || (int_eq a.bounds.left b.bounds.left
                          && (before_by_label a b
                              || (text_eq (u.lower a.label) (u.lower b.label)
                                  && text_lt a.raw_rid b.raw_rid)))))))

  unfoldable pub context_sort_lt : SemanticNode → SemanticNode → Bool
  context_sort_lt a b =
      int_lt a.bounds.top b.bounds.top
      || (int_eq a.bounds.top b.bounds.top
          && (int_lt a.bounds.left b.bounds.left
              || (int_eq a.bounds.left b.bounds.left && before_by_label a b)))

  abbrev key : Text → Text
  key s = canonical_text_key u (some s)

  abbrev comma : Text
  comma = b',' ∷ []

  abbrev bar : Text
  bar = b'|' ∷ []

  -- `_semantic_node_base_fingerprint`, and `semantic_relation_identity`
  unfoldable pub semantic_node_base_fingerprint : Text → SemanticNode → Text
  unfolding digits
  semantic_node_base_fingerprint group_name n = join bar (
      group_name
      ∷ key n.role
      ∷ key n.label
      ∷ join comma (sort text_lt (map key n.state))
      ∷ join comma (sort text_lt (map key n.actions))
      ∷ key (resource_id n)
      ∷ key (class_name n)
      ∷ key n.parent_role
      ∷ key n.parent_label
      ∷ join comma (keep_if nonempty (map key n.sibling_labels))
      ∷ join comma (
          map int_text (
            n.relative_bounds.left ∷ n.relative_bounds.top ∷ n.relative_bounds.right
            ∷ n.relative_bounds.bottom ∷ []))
      ∷ [])

  -- `semantic_node_fingerprint`
  unfoldable pub semantic_node_fingerprint : Text → SemanticNode → Text
  unfolding semantic_node_base_fingerprint
  semantic_node_fingerprint group_name n = join bar (
      semantic_node_base_fingerprint group_name n
      ∷ map (λ token. text "submitRefs:" ++ token) (sort text_lt n.submit_relation_tokens))

  abbrev group_parts : GroupedNodes → List GroupName → List Text
  group_parts g [] = []
  group_parts g (name ∷ names) =
      (text "group:" ++ group_text name)
        ∷ map (semantic_node_fingerprint (group_text name)) (g name)
      ++ group_parts g names

  abbrev blocking_text : Option GroupName → Text
  blocking_text none = []
  blocking_text (some name) = group_text name

  -- `build_action_surface_fingerprint`
  unfoldable pub build_action_surface_fingerprint :
      RawSnapshot → GroupedNodes → Option GroupName → Text
  unfolding semantic_node_fingerprint
  build_action_surface_fingerprint snapshot g blocking = join (10 ∷ []) (
      canonical_text_key u snapshot.package_name
      ∷ canonical_text_key u snapshot.activity_name
      ∷ (if snapshot.ime.visible then text "keyboard-visible" else text "keyboard-hidden")
      ∷ (text "blocking:" ++ blocking_text blocking)
      ∷ group_parts g group_order)

-- `stable_screen_id`: the digest stands for the number that the first eight bytes of the SHA-256 of
-- the text spell.
unfoldable pub stable_screen_id : (Text → ℕ) → Text → Text
stable_screen_id digest fingerprint =
    text "screen-" ++ padded 16 (digest fingerprint % 10_000_000_000_000_000)

abbrev text_nodes : List Text → PublicNodes
text_nodes [] = nil
text_nodes (t ∷ ts) =
    cons
      (node (some (text "text")) [] [] (some t) none [] [] none none nil [] [] none none none none
        none)
      (text_nodes ts)

-- `node_to_public_node`; `PublicNode` drops the `meta` of a node without a ref.
unfoldable pub node_to_public_node : List Text → SemanticNode → PublicNode
node_to_public_node submit_refs n =
    node (some (if text_eq n.role (text "scroll-container") then text "container" else text "node"))
      n.role n.label none (if nonempty n.ref then some n.ref else none) n.state n.actions
      (some n.bounds) (if nonempty n.ref then some n.meta else none) (text_nodes n.text_children)
      n.scroll_directions submit_refs none none none none none

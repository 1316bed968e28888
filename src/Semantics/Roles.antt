-- ===== src/Semantics/Roles.antt =====
-- The roles of semantics/labels.py, and the bounds of a node in its parent.
use androidctl.Prelude.{
  Text, text, text_eq, text_in, nonempty, contains, Bool, false, ◌&&◌, ◌||◌, not, Option, none,
  some, List, [], ◌∷◌, if◌then◌else◌,
}
use androidctl.Prelude.Int.{int_sub}
use androidctl.Models.Snapshots.{Bounds, RawNode}

-- `bool(a)` on `str | None`
abbrev pub truthy : Option Text → Bool
truthy none = false
truthy (some s) = nonempty s

abbrev pub generic_semantic_roles : List Text
generic_semantic_roles = text "container" ∷ text "text" ∷ text "image" ∷ text "list-item" ∷ []

-- `infer_role`
unfoldable pub infer_role : RawNode → Text
infer_role n =
    if contains (text "Dialog") n.class_name
    then text "dialog"
    else if contains (text "Tab") n.class_name
    then text "tab"
    else if contains (text "Keyboard") n.class_name || contains (text "Key") n.class_name
    then text "keyboard-key"
    else if n.editable || contains (text "EditText") n.class_name
    then text "input"
    else if contains (text "Switch") n.class_name
    then text "switch"
    else if contains (text "CheckBox") n.class_name
    then text "checkbox"
    else if contains (text "RadioButton") n.class_name
    then text "radio"
    else if contains (text "Button") n.class_name
    then text "button"
    else if contains (text "Image") n.class_name
    then text "image"
    else if n.clickable
    then text "list-item"
    else if truthy n.text || truthy n.content_desc
    then text "text"
    else text "container"

abbrev is_generic : Text → Bool
is_generic role = text_in role generic_semantic_roles

-- The first half of `semantic_role`.
abbrev pub role_of_source : Text → Text → List Text → Text
role_of_source source anchor [] = source
role_of_source source anchor (a ∷ rest) =
    if not (is_generic source)
    then source
    else if not (is_generic anchor)
    then anchor
    else if text_in (text "type") (a ∷ rest)
    then text "input"
    else if text_in (text "scroll") (a ∷ rest)
    then text "container"
    else anchor

-- `semantic_role`
unfoldable pub semantic_role : RawNode → RawNode → List Text → Text
unfolding infer_role
semantic_role n anchor actions =
    let anchor_role = infer_role anchor in
    let role = role_of_source (infer_role n) anchor_role actions in
    if text_eq role (text "input") && not anchor.editable
    then (if not (text_eq anchor_role (text "input"))
        then anchor_role
        else if text_in (text "scroll") actions
        then text "container"
        else if text_in (text "tap") actions || text_in (text "longTap") actions
        then text "list-item"
        else text "text")
    else role

-- `relative_bounds_for_node`
unfoldable pub relative_bounds_for_node : RawNode → Option RawNode → Bounds
relative_bounds_for_node n none = n.bounds
relative_bounds_for_node n (some p) = record {
  left = int_sub n.bounds.left p.bounds.left;
  top = int_sub n.bounds.top p.bounds.top;
  right = int_sub n.bounds.right p.bounds.left;
  bottom = int_sub n.bounds.bottom p.bounds.top;
}

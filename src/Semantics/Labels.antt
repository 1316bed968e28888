-- ===== src/Semantics/Labels.antt =====
-- semantics/labels.py, for the nodes of one snapshot. `raw_nodes_by_rid[rid]` is the last node of the
-- id, and `label_infos[rid]` is the label of that node.
use androidctl.Prelude.{
  ℕ, zero, suc, Text, text, text_eq, text_in, nonempty, last_part, Bool, false, ◌||◌, not, Option,
  none, some, List, [], ◌∷◌, ◌++◌, map, keep_if, if◌then◌else◌,
}
use androidctl.TextEquivalence.{
  Unicode, squeeze, strip, split_parts, normalized_text_surface, canonical_text_key,
  semantic_state_description_remainder,
}
use androidctl.Models.Snapshots.{RawNode, last_for_rid}

pub record LabelInfo : Type 0 where
  pub label : Text
  pub quality : ℕ

-- `a or b` on `str | None`
abbrev pub text_or : Option Text → Option Text → Option Text
text_or none b = b
text_or (some []) b = b
text_or (some (c ∷ s)) b = some (c ∷ s)

-- `parent_node_for`
unfoldable pub parent_node_for : List RawNode → RawNode → Option RawNode
unfolding last_for_rid
parent_node_for nodes n = elim n.parent_rid [ none ↦ none | some rid ↦ last_for_rid rid nodes ]

-- `fallback_label`
unfoldable pub fallback_label : RawNode → Text
fallback_label n =
    let part = last_part b'.' [] n.class_name in if nonempty part then part else text "item"

-- `label[:LABEL_MAX_LENGTH]`
abbrev pub take_text : ℕ → Text → Text
take_text zero s = []
take_text (suc n) [] = []
take_text (suc n) (c ∷ s) = c ∷ take_text n s

abbrev pub label_max_length : ℕ
label_max_length = 48

abbrev pub cut : Text → Text
cut s = take_text label_max_length s

-- The tokens of `_STATE_DESCRIPTION_STATE_MAP`.
unfoldable pub state_of_token : Text → Option Text
state_of_token t =
    if text_eq t (text "on") || text_eq t (text "checked")
    then some (text "checked")
    else if text_eq t (text "off") || text_eq t (text "unchecked") || text_eq t (text "not checked")
    then some (text "unchecked")
    else if text_in t (
        text "selected"
        ∷ text "disabled"
        ∷ text "focused"
        ∷ text "expanded"
        ∷ text "collapsed"
        ∷ text "password"
        ∷ [])
    then some t
    else none

module _ (u : Unicode) where
  -- `normalize_text`
  unfoldable pub normalize_text : Option Text → Text
  unfolding squeeze
  normalize_text none = []
  normalize_text (some s) = squeeze u s

  -- The loop over the children of the parent, without the node itself.
  unfoldable pub near_sibling : List RawNode → Text → List Text → Option Text
  unfolding last_for_rid normalize_text
  near_sibling nodes rid [] = none
  near_sibling nodes rid (c ∷ cs) =
      let rest = near_sibling nodes rid cs in
      if text_eq c rid then rest else elim (last_for_rid c nodes) [
        | none ↦ rest
        | some n ↦
            let label = normalize_text (text_or n.text n.content_desc) in
            if nonempty label then some label else rest
      ]

  -- `near_label_for_node`
  unfoldable pub near_label_for_node : List RawNode → RawNode → Text
  unfolding parent_node_for near_sibling normalize_text
  near_label_for_node nodes n = elim (parent_node_for nodes n) [
    | none ↦ []
    | some p ↦ elim (near_sibling nodes n.rid p.child_rids) [
      | some label ↦ label
      | none ↦ normalize_text (text_or p.text p.content_desc)
    ]
  ]

  abbrev pub labelled : Text → ℕ → LabelInfo
  labelled label quality = record { label = label; quality = quality }

  -- `synthesize_label_info`
  unfoldable pub synthesize_label_info : List RawNode → RawNode → LabelInfo
  unfolding near_label_for_node normalize_text semantic_state_description_remainder
  synthesize_label_info nodes n =
      let own = normalize_text n.text in
      let described = normalize_text n.content_desc in
      let hinted = normalize_text n.hint_text in
      let near = near_label_for_node nodes n in
      let state = semantic_state_description_remainder u n.state_description in
      let resource = normalize_text n.resource_id in
      if nonempty own
      then labelled (cut own) 6
      else if nonempty described
      then labelled (cut described) 5
      else if nonempty hinted
      then labelled (cut hinted) 4
      else if nonempty near
      then labelled (cut near) 3
      else if nonempty state
      then labelled (cut state) 2
      else if nonempty resource
      then labelled (cut (last_part b'/' [] resource)) 1
      else labelled [] 0

  -- `label_infos[rid]`; a missing id, which no caller has, has no label.
  unfoldable pub label_info_of : List RawNode → Text → LabelInfo
  unfolding last_for_rid synthesize_label_info
  label_info_of nodes rid = elim (last_for_rid rid nodes) [
    | none ↦ labelled [] 0
    | some n ↦ synthesize_label_info nodes n
  ]

  -- `label_infos[n.rid].label or fallback_label(n)`
  abbrev pub shown_label : List RawNode → RawNode → Text
  shown_label nodes n =
      let label = (label_info_of nodes n.rid).label in
      if nonempty label then label else fallback_label n

  -- `state_description_parts`; the split's parts are stripped, and empty ones dropped.
  abbrev pub parts_or : Text → List Text → List Text
  parts_or normalized [] = normalized ∷ []
  parts_or normalized (p ∷ ps) = p ∷ ps

  unfoldable pub state_description_parts : Option Text → List Text
  unfolding split_parts normalized_text_surface
  state_description_parts value =
      let normalized = normalized_text_surface u value in
      if not (nonempty normalized)
      then []
      else parts_or normalized
          (keep_if nonempty (map (strip u) (split_parts u false [] normalized)))

  -- `if token not in state: state.append(token)`, for each token
  abbrev pub add_new : List Text → List Text → List Text
  add_new state [] = state
  add_new state (t ∷ ts) =
      if text_in t state then add_new state ts else add_new (state ++ t ∷ []) ts

  abbrev pub tokens_of : List Text → List Text
  tokens_of [] = []
  tokens_of (p ∷ ps) =
      let rest = tokens_of ps in
      elim (state_of_token (canonical_text_key u (some p))) [ none ↦ rest | some t ↦ t ∷ rest ]

  -- `states_from_state_description`
  unfoldable pub states_from_state_description : Option Text → List Text
  unfolding state_description_parts
  states_from_state_description value = add_new [] (tokens_of (state_description_parts value))

  abbrev pub flag_state : Bool → Text → List Text
  flag_state b t = if b then t ∷ [] else []

  -- `extract_state`
  unfoldable pub extract_state : RawNode → List Text
  unfolding states_from_state_description
  extract_state n =
      add_new
        ((if n.checked then text "checked" ∷ [] else flag_state n.checkable (text "unchecked"))
          ++ flag_state n.selected (text "selected")
          ++ flag_state (not n.enabled) (text "disabled")
          ++ flag_state n.focused (text "focused")
          ++ flag_state n.password (text "password"))
        (states_from_state_description n.state_description)

  -- `sibling_labels_for_node`
  unfoldable pub labels_of_children : List RawNode → Text → List Text → List Text
  unfolding last_for_rid label_info_of fallback_label
  labels_of_children nodes rid [] = []
  labels_of_children nodes rid (c ∷ cs) =
      let rest = labels_of_children nodes rid cs in
      if text_eq c rid then rest else elim (last_for_rid c nodes) [
        | none ↦ rest
        | some n ↦ let label = shown_label nodes n in if nonempty label then label ∷ rest else rest
      ]

  unfoldable pub sibling_labels_for_node : List RawNode → RawNode → List Text
  unfolding parent_node_for labels_of_children
  sibling_labels_for_node nodes n = elim (parent_node_for nodes n) [
    | none ↦ []
    | some p ↦ labels_of_children nodes n.rid p.child_rids
  ]

-- ===== src/Semantics/Targets.antt =====
-- semantics/targets.py. The walks up the parents of a node have no other end than a node without a
-- parent, so they are on fuel: `none` is a walk that the fuel does not end.
use androidctl.Prelude.{
  ℕ, zero, suc, length, ltb, nat_eq, Text, text, text_eq, text_lt, text_in, Bool, true, false, ◌&&◌,
  ◌||◌, not, any, Option, none, some, List, [], ◌∷◌, ◌++◌, map, if◌then◌else◌,
}
use androidctl.TextEquivalence.{Unicode}
use androidctl.Models.Snapshots.{RawNode, last_for_rid}
use androidctl.Semantics.Roles.{generic_semantic_roles, infer_role}
use androidctl.Semantics.Labels.{
  label_info_of, normalize_text, parent_node_for, synthesize_label_info,
}

-- `not raw_actions.isdisjoint(actions)`
abbrev pub any_of : List Text → List Text → Bool
any_of actions wanted = any (λ a. text_in a wanted) actions

abbrev click_actions : List Text
click_actions = text "tap" ∷ text "click" ∷ []

abbrev long_click_actions : List Text
long_click_actions = text "longTap" ∷ text "longClick" ∷ []

abbrev scroll_actions : List Text
scroll_actions =
    text "scrollForward"
    ∷ text "scrollBackward"
    ∷ text "scrollUp"
    ∷ text "scrollDown"
    ∷ text "scrollLeft"
    ∷ text "scrollRight"
    ∷ []

abbrev when : Bool → Text → List Text
when b action = if b then action ∷ [] else []

-- `public_primary_actions_for`
unfoldable pub public_primary_actions_for : RawNode → Text → List Text → List Text
public_primary_actions_for anchor role primary =
    if not (text_eq role (text "input")) || not anchor.editable
    then primary
    else if anchor.focused
    then primary
    else []

-- The values of `target_source_sort_key`.
pub record TargetSourceKey : Type 0 where
  pub quality : ℕ
  pub actionable_role_bonus : Bool
  pub is_promoted : Bool
  pub distance : ℕ
  pub label_length : ℕ
  pub rid : Text

abbrev bool_lt : Bool → Bool → Bool
bool_lt a b = not a && b

abbrev bool_same : Bool → Bool → Bool
bool_same true b = b
bool_same false b = not b

-- `<` between the tuples, in which the distance is negated.
unfoldable pub source_key_lt : TargetSourceKey → TargetSourceKey → Bool
source_key_lt a b =
    ltb a.quality b.quality
    || (nat_eq a.quality b.quality
        && (bool_lt a.actionable_role_bonus b.actionable_role_bonus
            || (bool_same a.actionable_role_bonus b.actionable_role_bonus
                && (bool_lt a.is_promoted b.is_promoted
                    || (bool_same a.is_promoted b.is_promoted
                        && (ltb b.distance a.distance
                            || (nat_eq a.distance b.distance
                                && (ltb a.label_length b.label_length
                                    || (nat_eq a.label_length b.label_length
                                        && text_lt a.rid b.rid)))))))))

-- `ancestor_distance`
unfoldable pub ancestor_distance : ℕ → List RawNode → Text → Option RawNode → Option ℕ
unfolding parent_node_for
ancestor_distance fuel nodes rid none = some 0
ancestor_distance zero nodes rid (some current) = none
ancestor_distance (suc fuel) nodes rid (some current) =
    let above = ancestor_distance fuel nodes rid (parent_node_for nodes current) in
    if text_eq current.rid rid then some 0 else elim above [ none ↦ none | some d ↦ some (suc d) ]

-- `target_sources`, in the order in which its keys were added: the id of an anchor, and of the node
-- that it is shown as.
abbrev pub TargetSources : Type 0
TargetSources = List (Text × Text)

abbrev pub source_for : TargetSources → Text → Option Text
source_for [] rid = none
source_for ((a, s) ∷ rest) rid =
    let later = source_for rest rid in if text_eq a rid then some s else later

-- `target_sources[anchor_rid] = rid`
abbrev pub set_source : Text → Text → TargetSources → TargetSources
set_source anchor rid [] = (anchor, rid) ∷ []
set_source anchor rid ((a, s) ∷ rest) =
    let later = set_source anchor rid rest in
    if text_eq a anchor then (a, rid) ∷ rest else (a, s) ∷ later

-- `raw_nodes_by_rid[existing_source]`, if there is one
abbrev pub existing_node : List RawNode → Option Text → Option RawNode
existing_node nodes none = none
existing_node nodes (some rid) = last_for_rid rid nodes

module _ (u : Unicode) where
  -- `normalize_action_name`
  abbrev lower_first : Text → Text
  lower_first [] = []
  lower_first (c ∷ s) = u.lower (c ∷ []) ++ s

  unfoldable pub normalize_action_name : Text → Text
  unfolding normalize_text
  normalize_action_name value = lower_first (normalize_text u (some value))

  abbrev raw_actions : RawNode → List Text
  raw_actions n = map normalize_action_name n.actions

  -- `semantic_actions_for`
  unfoldable pub semantic_actions_for : RawNode → List Text
  unfolding normalize_action_name
  semantic_actions_for n =
      when (any_of (raw_actions n) click_actions) (text "tap")
      ++ when (any_of (raw_actions n) long_click_actions) (text "longTap")
      ++ when (n.editable && any_of (raw_actions n) (text "setText" ∷ [])) (text "type")
      ++ when (n.scrollable && any_of (raw_actions n) scroll_actions) (text "scroll")

  -- `actionability[rid]`; a missing id, which no caller has, has no actions.
  unfoldable pub actionability : List RawNode → Text → List Text
  unfolding last_for_rid semantic_actions_for
  actionability nodes rid = elim (last_for_rid rid nodes) [
    | none ↦ []
    | some n ↦ semantic_actions_for n
  ]

  -- `secondary_public_actions_for`
  unfoldable pub secondary_public_actions_for : RawNode → Text → List Text
  unfolding normalize_action_name
  secondary_public_actions_for anchor role =
      if not (text_eq role (text "input")) || not anchor.editable
      then []
      else if anchor.focused
      then when (any_of (raw_actions anchor) (text "submit" ∷ [])) (text "submit")
      else when (text_in (text "focus") (raw_actions anchor)) (text "focus")

  -- `can_promote_to_actionable_ancestor`
  unfoldable pub can_promote_to_actionable_ancestor : RawNode → List Text → Bool
  unfolding synthesize_label_info infer_role
  can_promote_to_actionable_ancestor n anchor_actions =
      if text_in (text "scroll") anchor_actions
      then false
      else ltb 0 (synthesize_label_info u (n ∷ []) n).quality
        || not (text_in (infer_role n) generic_semantic_roles)

  -- The loop of `actionable_anchor_for` over the ancestors.
  unfoldable pub anchor_above :
      ℕ → List RawNode → RawNode → Option RawNode → Option (Option RawNode)
  unfolding actionability can_promote_to_actionable_ancestor parent_node_for
  anchor_above fuel nodes n none = some none
  anchor_above zero nodes n (some current) = none
  anchor_above (suc fuel) nodes n (some current) =
      let above = anchor_above fuel nodes n (parent_node_for nodes current) in
      elim (actionability nodes current.rid) [
        | [] ↦ above
        | a ∷ rest ↦
            some (if can_promote_to_actionable_ancestor n (a ∷ rest) then some current else none)
      ]

  -- `actionable_anchor_for`
  unfoldable pub actionable_anchor_for : ℕ → List RawNode → RawNode → Option (Option RawNode)
  unfolding actionability anchor_above parent_node_for
  actionable_anchor_for fuel nodes n =
      let above = anchor_above fuel nodes n (parent_node_for nodes n) in
      elim (actionability nodes n.rid) [ [] ↦ above | _ ∷ _ ↦ some (some n) ]

  -- `target_source_sort_key`
  unfoldable pub target_source_sort_key : ℕ → List RawNode → RawNode → Text → Option TargetSourceKey
  unfolding ancestor_distance label_info_of infer_role normalize_text
  target_source_sort_key fuel nodes n anchor_rid =
      elim (ancestor_distance fuel nodes anchor_rid (some n)) [
        | none ↦ none
        | some d ↦ some (record {
          quality = (label_info_of u nodes n.rid).quality;
          actionable_role_bonus = not (text_in (infer_role n) generic_semantic_roles);
          is_promoted = not (text_eq n.rid anchor_rid);
          distance = d;
          label_length = length (normalize_text u (some (label_info_of u nodes n.rid).label));
          rid = n.rid;
        })
      ]

  -- The comparison of a source with the one before it.
  unfoldable pub better_source : ℕ → List RawNode → Text → Option RawNode → RawNode → Option Bool
  unfolding target_source_sort_key source_key_lt
  better_source fuel nodes anchor none n = some true
  better_source fuel nodes anchor (some existing) n =
      elim (target_source_sort_key fuel nodes existing anchor) [
        | none ↦ none
        | some a ↦ elim (target_source_sort_key fuel nodes n anchor) [
          | none ↦ none
          | some b ↦ some (source_key_lt a b)
        ]
      ]

  -- One turn of the loop of `select_target_sources`, for the anchor of the node.
  unfoldable pub select_for :
      ℕ → List RawNode → RawNode → Option RawNode → TargetSources → Option TargetSources
  unfolding better_source last_for_rid
  select_for fuel nodes n none sources = some sources
  select_for fuel nodes n (some anchor) sources =
      elim (better_source fuel nodes anchor.rid
        (existing_node nodes (source_for sources anchor.rid)) n) [
          | none ↦ none
          | some better ↦ some (if better then set_source anchor.rid n.rid sources else sources)
        ]

  unfoldable pub select_each :
      ℕ → List RawNode → List RawNode → TargetSources → Option TargetSources
  unfolding select_for actionable_anchor_for
  select_each fuel nodes [] sources = some sources
  select_each fuel nodes (n ∷ ns) sources = elim (actionable_anchor_for fuel nodes n) [
    | none ↦ none
    | some anchor ↦ elim (select_for fuel nodes n anchor sources) [
      | none ↦ none
      | some more ↦ select_each fuel nodes ns more
    ]
  ]

  -- `select_target_sources`
  unfoldable pub select_target_sources : ℕ → List RawNode → Option TargetSources
  unfolding select_each
  select_target_sources fuel nodes = select_each fuel nodes nodes []

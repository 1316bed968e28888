-- ===== src/Semantics/SubmitRefs.antt =====
-- semantics/submit_refs.py: the button that submits a focused input, where there is just one. A group's
-- nodes are told apart by place.
use androidctl.Prelude.{
  ℕ, suc, leb, nat_eq, Text, text, text_eq, opt_text_eq, text_in, nonempty, contains, ends_with,
  Bool, false, ◌&&◌, ◌||◌, not, any, Option, none, some, List, [], ◌∷◌, ◌++◌, map, keep_if,
  if◌then◌else◌,
}
use androidctl.TextEquivalence.{Unicode, strip, canonical_text_key}
use androidctl.Models.Semantic.{
  RelationScopeNode, SemanticNode, GroupName, targets, keyboard, system, dialog,
}
use androidctl.Models.Candidates.{is_focused_input}
use androidctl.Semantics.Groups.{GroupedNodes, group_text, same_group}
use androidctl.Semantics.Surface.{semantic_node_base_fingerprint}
use androidctl.Semantics.Geometry.{is_plausible_page_submit_geometry}

abbrev pub global_scope_tokens : List Text
global_scope_tokens =
    text "toolbar"
    ∷ text "actionbar"
    ∷ text "statusbar"
    ∷ text "navigationbar"
    ∷ text "systembar"
    ∷ text "urlbar"
    ∷ text "omnibox"
    ∷ text "addressbar"
    ∷ text "tabstrip"
    ∷ text "appbar"
    ∷ []

abbrev pub submit_labels : List Text
submit_labels =
    text "submit"
    ∷ text "send"
    ∷ text "search"
    ∷ text "go"
    ∷ text "done"
    ∷ text "next"
    ∷ text "enter"
    ∷ text "continue"
    ∷ text "sign in"
    ∷ text "signin"
    ∷ text "log in"
    ∷ text "login"
    ∷ []

-- `_active_relation_groups`
abbrev pub active_relation_groups : Option GroupName → List GroupName
active_relation_groups none = targets ∷ keyboard ∷ system ∷ dialog ∷ []
active_relation_groups (some blocking) = blocking ∷ []

-- `_eligible_focused_input`; the last test of the source is implied by the one before.
abbrev pub eligible_focused_input : SemanticNode → Bool
eligible_focused_input n = is_focused_input n && not (text_in (text "disabled") n.state)

-- `_ancestor_by_rid`
abbrev ancestor_by_rid : Text → List RelationScopeNode → Option RelationScopeNode
ancestor_by_rid rid [] = none
ancestor_by_rid rid (s ∷ scopes) =
    let rest = ancestor_by_rid rid scopes in if text_eq s.rid rid then some s else rest

-- `target_distances.get(rid)`: the last distance of the id.
abbrev distance_of : Text → ℕ → List RelationScopeNode → Option ℕ
distance_of rid k [] = none
distance_of rid k (s ∷ scopes) = elim (distance_of rid (suc k) scopes) [
  | some d ↦ some d
  | none ↦ if text_eq s.rid rid then some k else none
]

abbrev within_distance : ℕ → Option ℕ → Bool
within_distance source none = false
within_distance source (some target) = leb source 4 && leb target 4

module _ (u : Unicode) where
  abbrev stripped_lower : Text → Text
  stripped_lower s = u.lower (strip u s)

  -- `_resource_id_is_root_content`
  unfoldable pub resource_id_is_root_content : Text → Bool
  unfolding strip canonical_text_key
  resource_id_is_root_content id =
      ends_with (text "android:id/content") (stripped_lower id)
      || ends_with (text "android id content") (canonical_text_key u (some id))

  -- `_class_name_is_decor_view`
  abbrev class_name_is_decor_view : Text → Bool
  class_name_is_decor_view c =
      text_eq (stripped_lower c) (text "decorview")
      || ends_with (text ".decorview") (stripped_lower c)

  -- `_canonical_scope_value`
  abbrev canonical_scope_value : Text → Text
  canonical_scope_value v = keep_if (λ c. not (nat_eq c b' ')) (canonical_text_key u (some v))

  -- `_is_rejected_global_scope`
  unfoldable pub is_rejected_global_scope : RelationScopeNode → Bool
  unfolding resource_id_is_root_content canonical_text_key
  is_rejected_global_scope s =
      resource_id_is_root_content s.resource_id
      || class_name_is_decor_view s.class_name
      || any (λ v. any (λ token. contains token (canonical_scope_value v)) global_scope_tokens)
          (s.resource_id ∷ s.class_name ∷ s.text ∷ s.content_desc ∷ s.pane_title ∷ [])

  -- `_has_meaningful_structural_signal`
  unfoldable pub has_meaningful_structural_signal : RelationScopeNode → Bool
  unfolding resource_id_is_root_content strip
  has_meaningful_structural_signal s =
      (nonempty s.resource_id && not (resource_id_is_root_content s.resource_id))
      || nonempty s.pane_title
      || nonempty s.text
      || nonempty s.content_desc
      || text_eq (stripped_lower s.class_name) (text "android.webkit.webview")

  -- `meaningful_relation_scope`
  unfoldable pub meaningful_relation_scope : RelationScopeNode → SemanticNode → SemanticNode → Bool
  unfolding is_rejected_global_scope has_meaningful_structural_signal
  meaningful_relation_scope s source target =
      text_eq s.window_id source.relation_window_id
      && text_eq s.window_id target.relation_window_id
      && not s.is_window_root
      && not (text_eq s.rid source.relation_anchor_rid)
      && not (text_eq s.rid target.relation_anchor_rid)
      && not (opt_text_eq (some s.rid) source.relation_window_root_rid)
      && not (opt_text_eq (some s.rid) target.relation_window_root_rid)
      && not (is_rejected_global_scope s)
      && has_meaningful_structural_signal s

  -- The loop over the ancestors of the source.
  unfoldable pub shared_scope :
      SemanticNode → SemanticNode → ℕ → List RelationScopeNode → Option RelationScopeNode
  unfolding meaningful_relation_scope
  shared_scope source target k [] = none
  shared_scope source target k (s ∷ scopes) =
      let rest = shared_scope source target (suc k) scopes in
      if within_distance k (distance_of s.rid 1 target.relation_ancestor_scopes)
        && meaningful_relation_scope s source target
      then some s
      else rest

  -- The scope of a parent that both nodes have.
  unfoldable pub direct_scope : SemanticNode → SemanticNode → Option RelationScopeNode
  unfolding meaningful_relation_scope
  direct_scope source target = elim source.relation_parent_rid [
    | none ↦ none
    | some parent ↦
        if nonempty parent && opt_text_eq (some parent) target.relation_parent_rid
        then elim (ancestor_by_rid parent source.relation_ancestor_scopes) [
          | none ↦ none
          | some s ↦ if meaningful_relation_scope s source target then some s else none
        ]
        else none
  ]

  -- `relation_scope_for`
  unfoldable pub relation_scope_for : SemanticNode → SemanticNode → Option RelationScopeNode
  unfolding direct_scope shared_scope
  relation_scope_for source target =
      if not (nonempty source.relation_window_id)
        || not (nonempty target.relation_window_id)
        || not (text_eq source.relation_window_id target.relation_window_id)
      then none
      else elim (direct_scope source target) [
        | some s ↦ some s
        | none ↦ shared_scope source target 1 source.relation_ancestor_scopes
      ]

  abbrev eligible_role : GroupName → Text → Bool
  eligible_role keyboard role = text_eq role (text "button") || text_eq role (text "keyboard-key")
  eligible_role _ role = text_eq role (text "button")

  -- `_eligible_submit_control`; the qualities of high confidence are 4, 5 and 6.
  unfoldable pub eligible_submit_control : GroupName → SemanticNode → Bool
  unfolding canonical_text_key
  eligible_submit_control name n =
      eligible_role name n.role
      && text_in (text "tap") n.actions
      && not (text_in (text "disabled") n.state)
      && (nat_eq n.label_quality 4 || nat_eq n.label_quality 5 || nat_eq n.label_quality 6)
      && text_in (canonical_text_key u (some n.label)) submit_labels

  -- The tests of `_submit_control_candidates` on a node that is not the source.
  unfoldable pub is_submit_control : GroupName → SemanticNode → SemanticNode → Bool
  unfolding eligible_submit_control relation_scope_for is_plausible_page_submit_geometry
  is_submit_control name source target =
      eligible_submit_control name target
      && text_eq source.relation_window_id target.relation_window_id
      && elim (relation_scope_for source target) [
        | none ↦ false
        | some scope ↦ is_plausible_page_submit_geometry source target scope
      ]

  -- `_submit_control_candidates`: `i` is the source's place, `k` that of the list's first node.
  unfoldable pub submit_control_candidates :
      GroupName → ℕ → SemanticNode → ℕ → List SemanticNode → List SemanticNode
  unfolding is_submit_control
  submit_control_candidates name i source k [] = []
  submit_control_candidates name i source k (n ∷ ns) =
      let rest = submit_control_candidates name i source (suc k) ns in
      if nat_eq k i then rest else if is_submit_control name source n then n ∷ rest else rest

  abbrev identity : GroupName → SemanticNode → Text
  identity name n = semantic_node_base_fingerprint u (group_text name) n

  -- `_node_key`
  unfoldable pub node_key : GroupName → SemanticNode → Text × Text
  unfolding semantic_node_base_fingerprint
  node_key name n =
      if not (nonempty n.relation_anchor_rid)
      then (n.group, semantic_node_base_fingerprint u n.group n)
      else (
        group_text name,
        identity name n ++ (b'|' ∷ []) ++ text "anchor:" ++ n.relation_anchor_rid,
      )

  -- `submit_relation_token`
  unfoldable pub submit_relation_token : GroupName → SemanticNode → SemanticNode → Text
  unfolding semantic_node_base_fingerprint
  submit_relation_token name source target =
      identity name source ++ text "->" ++ identity name target

  -- The focused inputs of a group, with their places.
  unfoldable pub focused_inputs : ℕ → List SemanticNode → List (ℕ × SemanticNode)
  focused_inputs k [] = []
  focused_inputs k (n ∷ ns) =
      let rest = focused_inputs (suc k) ns in
      if eligible_focused_input n then (k, n) ∷ rest else rest

  abbrev pub set_relation :
      ℕ → (SemanticNode → SemanticNode) → ℕ → List SemanticNode → List SemanticNode
  set_relation i f k [] = []
  set_relation i f k (n ∷ ns) =
      let rest = set_relation i f (suc k) ns in if nat_eq k i then f n ∷ rest else n ∷ rest

  abbrev pub related : GroupName → SemanticNode → SemanticNode → SemanticNode
  related name target source = record source {
    submit_target_keys = source.submit_target_keys ++ node_key name target ∷ [];
    submit_relation_tokens =
        source.submit_relation_tokens ++ submit_relation_token name source target ∷ [];
  }

  abbrev pub relate_to : GroupName → ℕ → List SemanticNode → List SemanticNode → List SemanticNode
  relate_to name i (target ∷ []) nodes = set_relation i (related name target) 0 nodes
  relate_to name i _ nodes = nodes

  abbrev pub relate_source :
      GroupName → List (ℕ × SemanticNode) → List SemanticNode → List SemanticNode
  relate_source name ((i, source) ∷ []) nodes =
      relate_to name i (submit_control_candidates name i source 0 nodes) nodes
  relate_source name _ nodes = nodes

  -- One turn of the loop of `assign_submit_ref_relations`.
  unfoldable pub relate_group : GroupName → List SemanticNode → List SemanticNode
  unfolding submit_control_candidates node_key submit_relation_token focused_inputs
  relate_group name nodes = relate_source name (focused_inputs 0 nodes) nodes

  abbrev pub is_active : GroupName → List GroupName → Bool
  is_active name groups = any (same_group name) groups

-- `clear_submit_ref_relations`
abbrev pub cleared : SemanticNode → SemanticNode
cleared n = record n { submit_target_keys = []; submit_relation_tokens = [] }

-- `assign_submit_ref_relations`; the turns of the loop are on different groups.
unfoldable pub assign_submit_ref_relations :
    Unicode → GroupedNodes → Option GroupName → GroupedNodes
unfolding relate_group
assign_submit_ref_relations u g blocking = λ name.
    let nodes = map cleared (g name) in
    if is_active u name (active_relation_groups blocking) then relate_group u name nodes else nodes

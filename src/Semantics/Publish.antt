-- ===== src/Semantics/Publish.antt =====
-- `CompiledScreen.to_public_screen` of semantics/compiler.py, with `build_public_groups` of
-- semantics/public_models.py.
use androidctl.Prelude.{
  Text, text, text_eq, nonempty, any, length, nat_eq, Bool, ◌&&◌, ◌||◌, not, Option, none, some,
  List, [], ◌∷◌, ◌++◌, map, keep_if, if◌then◌else◌,
}
use androidctl.TextEquivalence.{Unicode}
use androidctl.Models.Semantic.{
  SemanticNode, CompiledScreen, GroupName, targets, keyboard, system, context, dialog, group_nodes,
}
use androidctl.Models.Errors.{Raised, returned, value_error, and_then}
use androidctl.Models.Public.{PublicNode, PublicNodes, nil, cons, PublicGroup, PublicScreen}
use androidctl.Models.Candidates.{focused_input_ref}
use androidctl.Semantics.Groups.{group_order, same_group}
use androidctl.Semantics.Surface.{node_to_public_node, semantic_node_base_fingerprint}

-- `CompiledScreen.group_order`
unfoldable pub screen_group_order : Option GroupName → List GroupName
screen_group_order none = group_order
screen_group_order (some blocking) =
    blocking ∷ keep_if (λ name. not (same_group name blocking)) group_order

abbrev pub to_nodes : List PublicNode → PublicNodes
to_nodes [] = nil
to_nodes (n ∷ ns) = cons n (to_nodes ns)

-- `nodes_by_group`
abbrev pub nodes_by_group :
    PublicNodes → PublicNodes → PublicNodes → PublicNodes → PublicNodes → GroupName → PublicNodes
nodes_by_group t k s c d targets = t
nodes_by_group t k s c d keyboard = k
nodes_by_group t k s c d system = s
nodes_by_group t k s c d context = c
nodes_by_group t k s c d dialog = d

-- The order has each public group exactly once.
abbrev pub has_each_once : List GroupName → Bool
has_each_once order =
    not (any (λ name. not (any (same_group name) order)) group_order)
    && nat_eq (length order) (length group_order)

-- `build_public_groups`
unfoldable pub build_public_groups :
    (order : List GroupName) (targets keyboard system context dialog : PublicNodes)
    → Raised (List PublicGroup)
build_public_groups order t k s c d =
    if not (has_each_once order)
    then value_error
    else returned
        (map (λ name. record { name = name; nodes = nodes_by_group t k s c d name }) order)

-- The nodes of the groups, in the screen's order.
abbrev pub nodes_in_order : CompiledScreen → List GroupName → List SemanticNode
nodes_in_order s [] = []
nodes_in_order s (name ∷ names) = group_nodes s name ++ nodes_in_order s names

module _ (u : Unicode) where
  abbrev pub same_key : Text × Text → Text × Text → Bool
  same_key a b = text_eq a.0 b.0 && text_eq a.1 b.1

  -- `_submit_relation_lookup_keys`
  unfoldable pub submit_relation_lookup_keys : SemanticNode → List (Text × Text)
  unfolding semantic_node_base_fingerprint
  submit_relation_lookup_keys n =
      let identity = semantic_node_base_fingerprint u n.group n in
      (n.group, identity)
      ∷ (if nonempty n.relation_anchor_rid
          then (n.group, identity ++ (b'|' ∷ []) ++ text "anchor:" ++ n.relation_anchor_rid) ∷ []
          else [])

  -- `nodes_by_key.get(key, [])`
  unfoldable pub matches_of : Text × Text → List SemanticNode → List SemanticNode
  unfolding submit_relation_lookup_keys
  matches_of key [] = []
  matches_of key (n ∷ ns) =
      map (λ _. n) (keep_if (same_key key) (submit_relation_lookup_keys n)) ++ matches_of key ns

  -- The ref of the only match, if it has one.
  abbrev pub only_ref : List SemanticNode → Option Text
  only_ref (n ∷ []) = if nonempty n.ref then some n.ref else none
  only_ref _ = none

  -- The refs of all the keys, if each is resolved.
  unfoldable pub resolve_keys : List SemanticNode → List (Text × Text) → Option (List Text)
  unfolding matches_of
  resolve_keys nodes [] = some []
  resolve_keys nodes (k ∷ ks) = elim (only_ref (matches_of k nodes)) [
    | none ↦ none
    | some r ↦ elim (resolve_keys nodes ks) [ none ↦ none | some rs ↦ some (r ∷ rs) ]
  ]

  abbrev pub or_none : Option (List Text) → List Text
  or_none none = []
  or_none (some refs) = refs

  -- `submit_refs_by_node_id.get(id(node), ())`
  unfoldable pub submit_refs_of : List SemanticNode → SemanticNode → List Text
  unfolding resolve_keys
  submit_refs_of nodes n =
      let resolved = or_none (resolve_keys nodes n.submit_target_keys) in
      if not (text_eq n.role (text "input")) || not (nonempty n.ref) then [] else resolved

  -- `_public_nodes_for`
  unfoldable pub public_nodes_for : List SemanticNode → List SemanticNode → PublicNodes
  unfolding node_to_public_node submit_refs_of
  public_nodes_for all ns = to_nodes (map (λ n. node_to_public_node (submit_refs_of all n) n) ns)

  -- The public screen with these groups.
  abbrev pub with_groups : CompiledScreen → List PublicGroup → PublicScreen
  with_groups s groups = record {
    screen_id = s.screen_id;
    app = record {
      package_name = s.package_name;
      activity_name = s.activity_name;
      requested_package_name = none;
      resolved_package_name = none;
      match_type = none;
    };
    surface = record {
      keyboard_visible = s.keyboard_visible;
      blocking_group = s.blocking_group;
      focus = record { input_ref = focused_input_ref s };
    };
    groups = groups;
    omitted = [];
    visible_windows = [];
    transient = [];
  }

  -- `CompiledScreen.to_public_screen`
  unfoldable pub to_public_screen : CompiledScreen → Raised PublicScreen
  unfolding public_nodes_for screen_group_order focused_input_ref build_public_groups
  to_public_screen s =
      let order = screen_group_order s.blocking_group in
      let all = nodes_in_order s order in
      and_then
        (build_public_groups order (public_nodes_for all s.targets_nodes)
          (public_nodes_for all s.keyboard_nodes) (public_nodes_for all s.system_nodes)
          (public_nodes_for all s.context_nodes) (public_nodes_for all s.dialog_nodes))
        (λ groups. returned (with_groups s groups))

-- ===== src/Models/Candidates.antt =====
-- The nodes of a `CompiledScreen` (androidctld/src/androidctld/semantics/compiler.py) that can have a
-- ref, each with the place in the screen that it is read from, which is its identity.
use androidctl.Prelude.{
  ℕ, suc, Text, text, text_eq, text_in, nonempty, nat_eq, Bool, true, false, ◌&&◌, ◌||◌, not,
  Option, none, some, List, [], ◌∷◌, ◌++◌, if◌then◌else◌,
}
use androidctl.Models.Semantic.{
  SemanticNode, GroupName, targets, keyboard, system, context, dialog, CompiledScreen, group_nodes,
  group_number,
}

pub record Place : Type 0 where
  pub group_name : GroupName
  pub index : ℕ

pub record Candidate : Type 0 where
  pub place : Place
  pub node : SemanticNode

-- `is` between nodes of one screen
unfoldable pub same_place : Place → Place → Bool
same_place a b =
    nat_eq (group_number a.group_name) (group_number b.group_name) && nat_eq a.index b.index

abbrev pub is_focused_input : SemanticNode → Bool
is_focused_input n = text_eq n.role (text "input") && text_in (text "focused") n.state

unfoldable pub first_focused : GroupName → ℕ → List SemanticNode → Option Candidate
first_focused g i [] = none
first_focused g i (n ∷ ns) =
    if is_focused_input n
    then some (record { place = record { group_name = g; index = i }; node = n })
    else first_focused g (suc i) ns

unfoldable pub focused_in : List GroupName → CompiledScreen → Option Candidate
unfolding first_focused
focused_in [] s = none
focused_in (g ∷ gs) s =
    let rest = focused_in gs s in
    elim (first_focused g 0 (group_nodes s g)) [ none ↦ rest | some c ↦ some c ]

-- `CompiledScreen.focused_input_node`
unfoldable pub focused_input_node : CompiledScreen → Option Candidate
unfolding focused_in
focused_input_node s = focused_in (targets ∷ dialog ∷ keyboard ∷ system ∷ context ∷ []) s

unfoldable pub focused_input_ref : CompiledScreen → Option Text
unfolding focused_input_node
focused_input_ref s = elim (focused_input_node s) [
  | none ↦ none
  | some c ↦ if nonempty c.node.ref then some c.node.ref else none
]

-- `(node.group, node.raw_rid) in seen_candidates`
abbrev pub key_seen : SemanticNode → List Candidate → Bool
key_seen n [] = false
key_seen n (c ∷ cs) =
    (text_eq n.group c.node.group && text_eq n.raw_rid c.node.raw_rid) || key_seen n cs

abbrev pub has_actions : SemanticNode → Bool
has_actions n = elim n.actions [ [] ↦ false | _ ∷ _ ↦ true ]

-- The loop over the nodes of one group; `seen` is the candidates so far, whose keys are those of
-- `seen_candidates`.
unfoldable pub scan_group : GroupName → ℕ → List SemanticNode → List Candidate → List Candidate
scan_group g i [] seen = seen
scan_group g i (n ∷ ns) seen = scan_group g (suc i) ns (
    if not (has_actions n) || key_seen n seen
    then seen
    else seen ++ record { place = record { group_name = g; index = i }; node = n } ∷ [])

unfoldable pub scan_groups : CompiledScreen → List GroupName → List Candidate → List Candidate
unfolding scan_group
scan_groups s [] seen = seen
scan_groups s (g ∷ gs) seen = scan_groups s gs (scan_group g 0 (group_nodes s g) seen)

abbrev pub candidate_groups : Option GroupName → List GroupName
candidate_groups none = targets ∷ dialog ∷ keyboard ∷ system ∷ []
candidate_groups (some g) = g ∷ []

-- `CompiledScreen.ref_candidates`
unfoldable pub ref_candidates : CompiledScreen → List Candidate
unfolding scan_groups focused_input_node
ref_candidates s =
    let found = scan_groups s (candidate_groups s.blocking_group) [] in
    elim (focused_input_node s) [
      | none ↦ found
      | some c ↦ if key_seen c.node found then found else found ++ c ∷ []
    ]

-- ===== src/Refs/Located.antt =====
-- Where candidates come from: each stands at its place in the screen, and the match of
-- refs/service.py chooses one of the candidates that it is given.
use androidctl.Prelude.{
  ℕ, zero, suc, ◌+◌, Bool, true, false, ◌||◌, not, Option, none, some, List, [], ◌∷◌, ◌++◌,
  get_elem?, All, All-append, ◌≡◌, refl, sym, ◌∙◌, ap, arith, if◌then◌else◌,
}
use androidctl.Prelude.Sort.{sort, All-sort}
use androidctl.TextEquivalence.{Unicode}
use androidctl.Models.Semantic.{
  SemanticNode, GroupName, targets, keyboard, system, context, dialog, CompiledScreen, group_nodes,
  group_number,
}
use androidctl.Models.Candidates.{
  Place, Candidate, same_place, is_focused_input, first_focused, focused_in, focused_input_node,
  key_seen, has_actions, scan_group, scan_groups, candidate_groups, ref_candidates,
}
use androidctl.Models.Refs.{RefBinding, RefRepairSourceSignature}
use androidctl.Refs.Evidence.{is_high_confidence, repair_gap_too_small}
use androidctl.Refs.Match.{
  Scored, before, choose, score_all, candidate_match_confidence,
  best_candidate_for_source_signature, best_candidate_for_binding, source_signature_from_binding,
}

-- The candidate's node is the one at its place.
abbrev pub Located : CompiledScreen → Candidate → Type 0
Located s c = get_elem? (group_nodes s c.place.group_name) c.place.index ≡ some c.node

-- The nodes from place `i` on.
abbrev From : List SemanticNode → ℕ → List SemanticNode → Type 0
From all i ns = (j : ℕ) → get_elem? ns j ≡ get_elem? all (i + j)

From-tail :
    (all : List SemanticNode) (i : ℕ) (n : SemanticNode) (ns : List SemanticNode)
    → From all i (n ∷ ns)
    → From all (suc i) ns
From-tail all i n ns h j = h (suc j) ∙ ap (get_elem? all) (omega arith)

From-head :
    (all : List SemanticNode) (i : ℕ) (n : SemanticNode) (ns : List SemanticNode)
    → From all i (n ∷ ns)
    → get_elem? all i ≡ some n
From-head all i n ns h = sym (h zero ∙ ap (get_elem? all) (omega arith))

abbrev pub OnSome {ℓ κ} : {A : Type ℓ} → (A → Type κ) → Option A → Type κ
OnSome P none = Unit
OnSome P (some a) = P a

pub on_if {ℓ κ} :
    {A : Type ℓ} (P : A → Type κ) (b : Bool) (x y : A) → P x → P y → P (if b then x else y)
on_if P true x y hx hy = hx
on_if P false x y hx hy = hy

on_none {ℓ κ} :
    {A : Type ℓ} (P : A → Type κ) (o o' : Option A)
    → OnSome P o
    → OnSome P o'
    → OnSome P (elim o [ none ↦ o' | some c ↦ some c ])
on_none P none o' h h' = h'
on_none P (some c) o' h h' = h

module _ (s : CompiledScreen) where
  scan_group-Located :
      (g : GroupName) (i : ℕ) (ns : List SemanticNode) (seen : List Candidate)
      → From (group_nodes s g) i ns
      → All (Located s) seen
      → All (Located s) (scan_group g i ns seen)
  unfolding scan_group
  scan_group-Located g i [] seen from h = h
  scan_group-Located g i (n ∷ ns) seen from h =
      scan_group-Located g (suc i) ns _ (From-tail _ i n ns from) (
        on_if (All (Located s)) (not (has_actions n) || key_seen n seen) _ _ h
          (All-append _ seen _ h (From-head _ i n ns from, tt)))

  scan_groups-Located :
      (gs : List GroupName) (seen : List Candidate)
      → All (Located s) seen
      → All (Located s) (scan_groups s gs seen)
  unfolding scan_groups
  scan_groups-Located [] seen h = h
  scan_groups-Located (g ∷ gs) seen h = scan_groups-Located gs _ (
      scan_group-Located g 0 (group_nodes s g) seen
        (λ j. ap (get_elem? (group_nodes s g)) (omega arith)) h)

  first_focused-Located :
      (g : GroupName) (i : ℕ) (ns : List SemanticNode)
      → From (group_nodes s g) i ns
      → OnSome (Located s) (first_focused g i ns)
  unfolding first_focused
  first_focused-Located g i [] from = tt
  first_focused-Located g i (n ∷ ns) from =
      on_if (OnSome (Located s)) (is_focused_input n) _ _ (From-head _ i n ns from)
        (first_focused-Located g (suc i) ns (From-tail _ i n ns from))

  focused_in-Located : (gs : List GroupName) → OnSome (Located s) (focused_in gs s)
  unfolding focused_in
  focused_in-Located [] = tt
  focused_in-Located (g ∷ gs) =
      on_none (Located s) (first_focused g 0 (group_nodes s g)) _
        (first_focused-Located g 0 (group_nodes s g)
          (λ j. ap (get_elem? (group_nodes s g)) (omega arith)))
        (focused_in-Located gs)

  with_focused-Located :
      (found : List Candidate) (o : Option Candidate)
      → All (Located s) found
      → OnSome (Located s) o
      → All (Located s) (elim o [
        | none ↦ found
        | some c ↦ if key_seen c.node found then found else found ++ c ∷ []
      ])
  with_focused-Located found none h k = h
  with_focused-Located found (some c) h k =
      on_if (All (Located s)) (key_seen c.node found) _ _ h (All-append _ found (c ∷ []) h (k, tt))

  pub ref_candidates-Located : All (Located s) (ref_candidates s)
  unfolding ref_candidates focused_input_node
  ref_candidates-Located =
      with_focused-Located (scan_groups s (candidate_groups s.blocking_group) [])
        (focused_in (targets ∷ dialog ∷ keyboard ∷ system ∷ context ∷ []) s)
        (scan_groups-Located (candidate_groups s.blocking_group) [] tt)
        (focused_in-Located (targets ∷ dialog ∷ keyboard ∷ system ∷ context ∷ []))

-- The number of a group tells it apart.
group_of : ℕ → GroupName
group_of zero = targets
group_of (suc zero) = keyboard
group_of (suc (suc zero)) = system
group_of (suc (suc (suc zero))) = context
group_of _ = dialog

group_of-number : (g : GroupName) → group_of (group_number g) ≡ g
unfolding group_of
group_of-number targets = refl
group_of-number keyboard = refl
group_of-number system = refl
group_of-number context = refl
group_of-number dialog = refl

same_group : (a b : Place) → same_place a b ≡ true → a.group_name ≡ b.group_name
unfolding same_place
same_group a b h =
    sym (group_of-number a.group_name) ∙ ap group_of (ground arith) ∙ group_of-number b.group_name

same_index : (a b : Place) → same_place a b ≡ true → a.index ≡ b.index
unfolding same_place
same_index a b h = ground arith

-- Candidates at the same place of the screen are the same node.
pub same_node :
    (s : CompiledScreen) (c d : Candidate)
    → Located s c
    → Located s d
    → same_place c.place d.place ≡ true
    → c.node ≡ d.node
same_node s c d hc hd h =
    let same_g = same_group c.place d.place h in let same_i = same_index c.place d.place h in cc

module _ (u : Unicode) {I : Type 0} (node : I → SemanticNode) (P : I → Type 0) where
  score_all-All :
      (source : RefRepairSourceSignature) (is : List I)
      → All P is
      → All (λ x. P x.candidate) (score_all u node source is)
  unfolding score_all
  score_all-All source [] h = tt
  score_all-All source (i ∷ is) h =
      let rest = score_all u node source is in
      let all_rest = score_all-All source is h.1 in
      elim (candidate_match_confidence u source (node i))
        as (λ o.
          All (λ x. P x.candidate)
            (elim o [
              | none ↦ rest
              | some c ↦ record { confidence = c; rid = (node i).raw_rid; candidate = i } ∷ rest
            ])) [ none ↦ all_rest | some c ↦ (h.0, all_rest) ]

  choose-All :
      (xs : List (Scored I)) → All (λ x. P x.candidate) xs → OnSome (λ r. P r.0) (choose xs)
  unfolding choose
  choose-All [] h = tt
  choose-All (best ∷ []) h =
      on_if (OnSome (λ r. P r.0)) (is_high_confidence best.confidence) _ _ h.0 tt
  choose-All (best ∷ second ∷ rest) h =
      on_if (OnSome (λ r. P r.0)) (not (is_high_confidence best.confidence)) _ _ tt (
        on_if (OnSome (λ r. P r.0)) (repair_gap_too_small best.confidence second.confidence) _ _ tt
          h.0)

  -- The match of a source, if there is one, is one of the candidates.
  pub best_for_source-OnSome :
      (source : RefRepairSourceSignature) (is : List I)
      → All P is
      → OnSome (λ r. P r.0) (best_candidate_for_source_signature u node source is)
  unfolding best_candidate_for_source_signature
  best_for_source-OnSome source is h =
      choose-All (sort before (score_all u node source is))
        (All-sort before _ _ (score_all-All source is h))

  -- The same for a binding.
  pub best_candidate-OnSome :
      (b : RefBinding) (is : List I)
      → All P is
      → OnSome (λ r. P r.0) (best_candidate_for_binding u node b is)
  unfolding best_candidate_for_binding
  best_candidate-OnSome b is h = best_for_source-OnSome (source_signature_from_binding b) is h

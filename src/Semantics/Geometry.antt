-- ===== src/Semantics/Geometry.antt =====
-- The geometry of semantics/submit_refs.py: where a button stands to its input. The quotients of the
-- overlaps are compared multiplied out.
use androidctl.Prelude.{ℕ, zero, suc, Bool, false, ◌&&◌, ◌||◌, if◌then◌else◌}
use androidctl.Prelude.Int.{ℤ, pos, int_add, int_sub, int_le, int_lt, int_min, int_max}
use androidctl.Models.Snapshots.{Bounds}
use androidctl.Models.Semantic.{RelationScopeNode, SemanticNode}

abbrev width : Bounds → ℤ
width b = int_sub b.right b.left

abbrev height : Bounds → ℤ
height b = int_sub b.bottom b.top

-- `_overlap`
abbrev overlap : ℤ → ℤ → ℤ → ℤ → ℤ
overlap start_a end_a start_b end_b =
    int_max (pos 0) (int_sub (int_min end_a end_b) (int_max start_a start_b))

-- `n * a`
abbrev times : ℕ → ℤ → ℤ
times zero a = pos 0
times (suc n) a = int_add a (times n a)

-- `min(...) <= 0` over the widths and the heights
abbrev has_no_area : Bounds → Bounds → Bool
has_no_area a b =
    int_le (int_min (int_min (width a) (width b)) (int_min (height a) (height b))) (pos 0)

-- `_accepted_stacked_geometry`: a gap of at most 2.5 heights, and an overlap of 0.35.
unfoldable pub accepted_stacked_geometry : Bounds → Bounds → Bool
accepted_stacked_geometry a b =
    if has_no_area a b
    then false
    else if int_lt b.top (int_sub a.bottom (pos 4))
    then false
    else int_le (times 2 (int_max (pos 0) (int_sub b.top a.bottom)))
        (int_max (pos 48) (times 5 (int_max (height a) (height b))))
      && int_le (times 7 (int_min (width a) (width b)))
          (times 20 (overlap a.left a.right b.left b.right))

-- `_accepted_inline_geometry`: a gap of at most 1.5 heights, and an overlap of 0.5.
unfoldable pub accepted_inline_geometry : Bounds → Bounds → Bool
accepted_inline_geometry a b =
    if has_no_area a b
    then false
    else if int_lt b.left (int_sub a.right (pos 4))
    then false
    else int_le (times 2 (int_max (pos 0) (int_sub b.left a.right)))
        (int_max (pos 48) (times 3 (int_max (height a) (height b))))
      && int_le (int_min (height a) (height b)) (times 2 (overlap a.top a.bottom b.top b.bottom))

-- `_center_inside`
unfoldable pub center_inside : Bounds → Bounds → Bool
center_inside b container =
    int_le (times 2 container.left) (int_add b.left b.right)
    && int_le (int_add b.left b.right) (times 2 container.right)
    && int_le (times 2 container.top) (int_add b.top b.bottom)
    && int_le (int_add b.top b.bottom) (times 2 container.bottom)

-- `is_plausible_page_submit_geometry`
unfoldable pub is_plausible_page_submit_geometry :
    SemanticNode → SemanticNode → RelationScopeNode → Bool
unfolding center_inside accepted_stacked_geometry accepted_inline_geometry
is_plausible_page_submit_geometry source target scope =
    center_inside source.bounds scope.bounds
    && center_inside target.bounds scope.bounds
    && (accepted_stacked_geometry source.bounds target.bounds
        || accepted_inline_geometry source.bounds target.bounds)

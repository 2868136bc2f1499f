-- ===== src/Clip.antt =====
-- kernel/clip.c: regions as lists of rectangles, and drawing clipped against a region.
-- A C `int` is an integer without bounds: the code adds coordinates and supposes that no sum
-- overflows. A node of a region's list is its rectangle, as the code compares no two addresses of
-- nodes but that of a node not yet in the list; its memory comes from `kmalloc`, and `kfree`
-- changes nothing. A NULL region is not modelled: each operation returns at once for it.
pub mod Rects
pub mod Fragments
pub mod Subtract
pub mod Valid
pub mod Merge
pub mod Add
use tor_os.Prelude.{
  ℕ, zero, suc, Bool, true, false, not, ◌&&◌, ◌||◌, List, [], ◌∷◌, ◌++◌, Option, none, some, ◌==◌,
  if◌then◌else◌, length,
}
use tor_os.Prelude.Int.{ℤ, pos, negsuc, ◌+ℤ◌, ◌-ℤ◌, ltb_ℤ, leb_ℤ, eq_ℤ}
use tor_os.Mm.{Mem, kmalloc}

-- `region_rect_t`, without its link.
pub record Rect : Type 0 where
  pub x : ℤ
  pub y : ℤ
  pub w : ℤ
  pub h : ℤ

abbrev pub rect : ℤ → ℤ → ℤ → ℤ → Rect
rect x y w h = record { x = x; y = y; w = w; h = h }

-- `sizeof(region_rect_t)`
abbrev pub rect_size : ℕ
rect_size = 24

-- `clip_region_t`; `bbox` is its bounding box.
pub record Region : Type 0 where
  pub rects : List Rect
  pub num_rects : ℤ
  pub bbox : Rect

abbrev pub no_rect : Rect
no_rect = rect (pos 0) (pos 0) (pos 0) (pos 0)

-- `clip_region_init`, and what `clip_region_clear` leaves.
unfoldable pub clip_region_init : Region
clip_region_init = record { rects = []; num_rects = pos 0; bbox = no_rect }

unfoldable pub clip_region_clear : Region → Region
clip_region_clear region = record { rects = []; num_rects = pos 0; bbox = no_rect }

-- The loop of `region_update_bbox`: the least and the greatest corner so far.
unfoldable pub scan_bbox : List Rect → ℤ → ℤ → ℤ → ℤ → Rect
scan_bbox [] min_x min_y max_x max_y = rect min_x min_y (max_x -ℤ min_x) (max_y -ℤ min_y)
scan_bbox (r ∷ rest) min_x min_y max_x max_y =
    scan_bbox rest (if ltb_ℤ r.x min_x then r.x else min_x) (if ltb_ℤ r.y min_y then r.y else min_y)
      (if ltb_ℤ max_x (r.x +ℤ r.w) then r.x +ℤ r.w else max_x)
      (if ltb_ℤ max_y (r.y +ℤ r.h) then r.y +ℤ r.h else max_y)

abbrev pub int_max : ℕ
int_max = 0x7FFFFFFF

abbrev pub bbox_of : List Rect → Rect
bbox_of [] = no_rect
bbox_of (r ∷ rest) =
    scan_bbox (r ∷ rest) (pos int_max) (pos int_max) (pos 0 -ℤ pos int_max) (pos 0 -ℤ pos int_max)

unfoldable pub region_update_bbox : Region → Region
unfolding scan_bbox
region_update_bbox region = record region { bbox = bbox_of region.rects }

-- `!region->rects`
abbrev pub is_null : List Rect → Bool
is_null [] = true
is_null (r ∷ rest) = false

unfoldable pub rects_overlap : Rect → Rect → Bool
rects_overlap a b = not (
    leb_ℤ (a.x +ℤ a.w) b.x
    || leb_ℤ (b.x +ℤ b.w) a.x
    || leb_ℤ (a.y +ℤ a.h) b.y
    || leb_ℤ (b.y +ℤ b.h) a.y)

-- The conditional expressions with `<` and `>`.
abbrev pub min_ℤ : ℤ → ℤ → ℤ
min_ℤ a b = if ltb_ℤ a b then a else b

abbrev pub max_ℤ : ℤ → ℤ → ℤ
max_ℤ a b = if ltb_ℤ b a then a else b

unfoldable pub rect_merge : Rect → Rect → Rect
rect_merge a b =
    let x1 = min_ℤ a.x b.x in
    let y1 = min_ℤ a.y b.y in
    let x2 = max_ℤ (a.x +ℤ a.w) (b.x +ℤ b.w) in
    let y2 = max_ℤ (a.y +ℤ a.h) (b.y +ℤ b.h) in rect x1 y1 (x2 -ℤ x1) (y2 -ℤ y1)

unfoldable pub rects_touch : Rect → Rect → Bool
rects_touch a b =
    (eq_ℤ a.y b.y && eq_ℤ a.h b.h && (eq_ℤ (a.x +ℤ a.w) b.x || eq_ℤ (b.x +ℤ b.w) a.x))
    || (eq_ℤ a.x b.x && eq_ℤ a.w b.w && (eq_ℤ (a.y +ℤ a.h) b.y || eq_ℤ (b.y +ℤ b.h) a.y))

-- `r != nr && (rects_overlap(r, nr) || rects_touch(r, nr))`, where `nr` is not in the list
unfoldable pub meets : Rect → Rect → Bool
meets nr r = rects_overlap r nr || rects_touch r nr

abbrev pub past : Rect → Option (Rect × List Rect) → Option (Rect × List Rect)
past r none = none
past r (some (r', rest)) = some (r', r ∷ rest)

-- One scan of the loop: the first rectangle that overlaps or touches `nr`, and the list without it.
unfoldable pub scan : Rect → List Rect → Option (Rect × List Rect)
scan nr [] = none
scan nr (r ∷ rest) =
    let later = past r (scan nr rest) in if meets nr r then some (r, rest) else later

-- `do { ... } while (merged)`: the merged rectangle and the list without those merged into it. Each
-- round but the last shortens the list.
unfoldable pub absorb : ℕ → Rect → List Rect → Rect × List Rect
unfolding scan
absorb zero nr rects = (nr, rects)
absorb (suc fuel) nr rects = elim (scan nr rects) [
  | none ↦ (nr, rects)
  | some (r, rest) ↦ absorb fuel (rect_merge nr r) rest
]

-- "Append merged rect (keep list sorted by y band for cache friendliness)"
unfoldable pub insert_rect : Rect → List Rect → List Rect
insert_rect nr [] = nr ∷ []
insert_rect nr (r ∷ rest) =
    let later = insert_rect nr rest in if leb_ℤ r.y nr.y then r ∷ later else nr ∷ r ∷ rest

-- `num_rects` loses one for each rectangle that was merged, and gains one.
abbrev pub add_to : Rect → Region → Region
add_to nr region =
    if is_null region.rects
    then region_update_bbox (record region { rects = nr ∷ []; num_rects = pos 1 })
    else let merged = absorb (suc (length region.rects)) nr region.rects in
      region_update_bbox (record region {
        rects = insert_rect merged.0 merged.1;
        num_rects =
            region.num_rects -ℤ (pos (length region.rects) -ℤ pos (length merged.1)) +ℤ pos 1;
      })

unfoldable pub clip_region_add_rect : Rect → Region → Mem → Region × Mem
unfolding region_update_bbox
clip_region_add_rect nr region m =
    if leb_ℤ nr.w (pos 0) || leb_ℤ nr.h (pos 0)
    then (region, m)
    else let a = kmalloc rect_size m in
      elim a.0 [ none ↦ (region, a.1) | some p ↦ (add_to nr region, a.1) ]

-- `if (test) out[n++] = r`
abbrev pub emit : Bool → Rect → List Rect
emit true r = r ∷ []
emit false r = []

unfoldable pub rect_subtract : Rect → Rect → List Rect
unfolding rects_overlap
rect_subtract a b =
    if not (rects_overlap a b)
    then a ∷ []
    else let ax1 = a.x in
      let ay1 = a.y in
      let ax2 = a.x +ℤ a.w in
      let ay2 = a.y +ℤ a.h in
      let bx1 = max_ℤ b.x ax1 in
      let by1 = max_ℤ b.y ay1 in
      let bx2 = min_ℤ (b.x +ℤ b.w) ax2 in
      let by2 = min_ℤ (b.y +ℤ b.h) ay2 in
      emit (ltb_ℤ ay1 by1) (rect ax1 ay1 (ax2 -ℤ ax1) (by1 -ℤ ay1))
      ++ emit (ltb_ℤ by2 ay2) (rect ax1 by2 (ax2 -ℤ ax1) (ay2 -ℤ by2))
      ++ emit (ltb_ℤ ax1 bx1) (rect ax1 by1 (bx1 -ℤ ax1) (by2 -ℤ by1))
      ++ emit (ltb_ℤ bx2 ax2) (rect bx2 by1 (ax2 -ℤ bx2) (by2 -ℤ by1))

abbrev same_rect : Rect → Rect → Bool
same_rect r s = eq_ℤ r.x s.x && eq_ℤ r.y s.y && eq_ℤ r.w s.w && eq_ℤ r.h s.h

-- `nf == 1` and the one fragment is `r`
abbrev pub unchanged : Rect → List Rect → Bool
unchanged r (f ∷ []) = same_rect f r
unchanged r _ = false

abbrev pub take_frag : Rect → List Rect × ℤ → Option ℕ → List Rect × ℤ
take_frag f l none = l
take_frag f l (some p) = (f ∷ l.0, l.1 +ℤ pos 1)

-- The fragments that memory is found for go to the front of the new list, with their number.
unfoldable pub keep_frags : List Rect → List Rect × ℤ → Mem → (List Rect × ℤ) × Mem
keep_frags [] l m = (l, m)
keep_frags (f ∷ fs) l m = let a = kmalloc rect_size m in keep_frags fs (take_frag f l a.0) a.1

-- One round of the loop of `clip_region_subtract_rect`.
unfoldable pub subtract_one : Rect → Rect → List Rect × ℤ → Mem → (List Rect × ℤ) × Mem
unfolding keep_frags
subtract_one sub r l m =
    let frags = rect_subtract r sub in
    if unchanged r frags then ((r ∷ l.0, l.1 +ℤ pos 1), m) else keep_frags frags l m

unfoldable pub subtract_each : Rect → List Rect → List Rect × ℤ → Mem → (List Rect × ℤ) × Mem
unfolding subtract_one
subtract_each sub [] l m = (l, m)
subtract_each sub (r ∷ rest) l m = let s = subtract_one sub r l m in subtract_each sub rest s.0 s.1

unfoldable pub clip_region_subtract_rect : Rect → Region → Mem → Region × Mem
unfolding region_update_bbox
clip_region_subtract_rect sub region m =
    if is_null region.rects || leb_ℤ sub.w (pos 0) || leb_ℤ sub.h (pos 0)
    then (region, m)
    else let s = subtract_each sub region.rects ([], pos 0) m in
      (region_update_bbox (record region { rects = s.0.0; num_rects = s.0.1 }), s.1)

unfoldable pub clip_region_intersects : Rect → List Rect → Bool
clip_region_intersects q [] = false
clip_region_intersects q (r ∷ rest) =
    let later = clip_region_intersects q rest in if rects_overlap r q then true else later

unfoldable pub clip_region_set_rect : Rect → Region → Mem → Region × Mem
unfolding clip_region_clear clip_region_add_rect
clip_region_set_rect q region m = clip_region_add_rect q (clip_region_clear region) m

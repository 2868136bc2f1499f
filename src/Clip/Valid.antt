-- ===== src/Clip/Valid.antt =====
-- What keeps a region well formed, and that taking a rectangle away keeps it.
use tor_os.Prelude.{
  ℕ, ◌+◌, ◌*◌, ◌≤◌, ◌<◌, ◌≡◌, refl, ap, Bool, true, false, ◌&&◌, ◌||◌, List, [], ◌∷◌, Bool-cases,
  ◌⊎◌, inl, inr, if◌then◌else◌, length, arith,
}
use tor_os.Prelude.Int.{ℤ, pos, ◌+ℤ◌, ltb_ℤ, leb_ℤ, ◌≤ℤ◌, +ℤ_parts}
use tor_os.Mm.{Mem}
use tor_os.Clip.{
  Rect, Region, scan_bbox, bbox_of, is_null, subtract_each, clip_region_subtract_rect,
  region_update_bbox,
}
use tor_os.Clip.Rects.{inside, in_span, hits, one_if, +ℤ_diff}
use tor_os.Clip.Subtract.{
  RoomFor, RoomFor-fewer, length-subtract_each, subtract_each-le, subtract_each-RoomFor,
}

-- The count is right, no pixel lies in two of the rectangles, and the bounding box holds them all.
pub record RegionIsValid (region : Region) : Type 0 where
  pub counted : region.num_rects ≡ pos (length region.rects)
  pub once : (px py : ℤ) → hits px py region.rects ≤ 1
  pub boxed : (px py : ℤ) → 0 < hits px py region.rects → inside px py region.bbox ≡ true

module _ (px py : ℤ) where
  scan_bbox-grows :
      (rects : List Rect) (x1 y1 x2 y2 : ℤ)
      → in_span px x1 x2 ≡ true
      → in_span py y1 y2 ≡ true
      → inside px py (scan_bbox rects x1 y1 x2 y2) ≡ true
  unfolding scan_bbox
  scan_bbox-grows [] x1 y1 x2 y2 h k = rw (+ℤ_diff x1 x2, +ℤ_diff y1 y2) (ground (arith, h, k))
  scan_bbox-grows (r ∷ rest) x1 y1 x2 y2 h k =
      scan_bbox-grows rest _ _ _ _ (wider px x1 x2 r.x (r.x +ℤ r.w) h)
        (wider py y1 y2 r.y (r.y +ℤ r.h) k)
    where
      wider :
          (p lo hi lo' hi' : ℤ)
          → in_span p lo hi ≡ true
          → in_span p (if ltb_ℤ lo' lo then lo' else lo) (if ltb_ℤ hi hi' then hi' else hi) ≡ true
      wider p lo hi lo' hi' h = ground arith

  scan_bbox-hits :
      (rects : List Rect) (x1 y1 x2 y2 : ℤ)
      → 0 < hits px py rects
      → inside px py (scan_bbox rects x1 y1 x2 y2) ≡ true
  unfolding scan_bbox
  scan_bbox-hits [] x1 y1 x2 y2 h = absurd (omega arith)
  scan_bbox-hits (r ∷ rest) x1 y1 x2 y2 h = elim (Bool-cases (inside px py r)) [
    | inl e ↦
        let s = both _ _ e in
        scan_bbox-grows rest _ _ _ _ (wider px x1 x2 r.x (r.x +ℤ r.w) s.0)
          (wider py y1 y2 r.y (r.y +ℤ r.h) s.1)
    | inr e ↦ scan_bbox-hits rest _ _ _ _ (omega (arith, ap one_if e))
  ]
    where
      both : (a b : Bool) → (a && b) ≡ true → (a ≡ true) × (b ≡ true)
      both a b h = ground arith

      wider :
          (p lo hi lo' hi' : ℤ)
          → in_span p lo' hi' ≡ true
          → in_span p (if ltb_ℤ lo' lo then lo' else lo) (if ltb_ℤ hi hi' then hi' else hi) ≡ true
      wider p lo hi lo' hi' h = ground arith

  bbox_of-hits : (rects : List Rect) → 0 < hits px py rects → inside px py (bbox_of rects) ≡ true
  bbox_of-hits [] h = absurd (omega arith)
  bbox_of-hits (r ∷ rest) h = scan_bbox-hits (r ∷ rest) _ _ _ _ h

pub updated-RegionIsValid :
    (region : Region)
    → region.num_rects ≡ pos (length region.rects)
    → ((px py : ℤ) → hits px py region.rects ≤ 1)
    → RegionIsValid (region_update_bbox region)
unfolding region_update_bbox
updated-RegionIsValid region c o = record {
  counted = c;
  once = o;
  boxed = λ px py h. bbox_of-hits px py region.rects h;
}

-- No pixel lies in a rectangle that is not wide, or not high.
module _ (px py : ℤ) (r : Rect) where
  empty_span : (p x w : ℤ) → leb_ℤ w (pos 0) ≡ true → in_span p x (x +ℤ w) ≡ false
  empty_span p x w h = ground (arith, +ℤ_parts x w)

  pub inside-flat : (leb_ℤ r.w (pos 0) || leb_ℤ r.h (pos 0)) ≡ true → inside px py r ≡ false
  inside-flat h = elim (Bool-cases (leb_ℤ r.w (pos 0))) [
    | inl e ↦ ground (arith, empty_span px r.x r.w e)
    | inr e ↦ ground (arith, empty_span py r.y r.h (second _ _ e h))
  ]
    where
      second : (a b : Bool) → a ≡ false → (a || b) ≡ true → b ≡ true
      second a b e h = ground arith

-- The three tests of `clip_region_subtract_rect`.
abbrev returns_early : Rect → Region → Bool
returns_early sub region = is_null region.rects || leb_ℤ sub.w (pos 0) || leb_ℤ sub.h (pos 0)

module _ (sub : Rect) (region : Region) (m : Mem) (v : RegionIsValid region) where
  early-hits :
      (px py : ℤ)
      → returns_early sub region ≡ true
      → hits px py region.rects ≡ (if inside px py sub then 0 else hits px py region.rects)
  early-hits px py e = elim (null_or_flat region.rects _ _ e) [
    | inl n ↦ rw n (ground arith)
    | inr f ↦ rw (inside-flat px py sub f)
  ]
    where
      null_or_flat :
          (l : List Rect) (a b : Bool) → (is_null l || a || b) ≡ true → (l ≡ []) ⊎ ((a || b) ≡ true)
      null_or_flat [] a b h = inl refl
      null_or_flat (r ∷ rest) a b h = inr h

  -- What is left of a pixel's rectangles.
  abbrev pub remain : ℤ → ℤ → ℕ
  remain px py = if inside px py sub then 0 else hits px py region.rects

  -- What a subtraction that does not return early leaves.
  abbrev subtracted : (List Rect × ℤ) × Mem
  subtracted = subtract_each sub region.rects ([], pos 0) m

  abbrev outcome : Bool → Region × Mem
  outcome early = if early then (region, m) else (
    region_update_bbox (record region { rects = subtracted.0.0; num_rects = subtracted.0.1 }),
    subtracted.1,
  )

  outcome_lem :
      (early : Bool)
      → returns_early sub region ≡ early
      → clip_region_subtract_rect sub region m ≡ outcome early
  unfolding clip_region_subtract_rect
  outcome_lem early e = ap outcome e

  sides : returns_early sub region ≡ false → (pos 0 ≤ℤ sub.w) × (pos 0 ≤ℤ sub.h)
  sides e =
      let t = last_two (is_null region.rects) _ _ e in (not_flat sub.w t.0, not_flat sub.h t.1)
    where
      last_two : (a b c : Bool) → (a || b || c) ≡ false → (b ≡ false) × (c ≡ false)
      last_two a b c h = ground arith

      not_flat : (z : ℤ) → leb_ℤ z (pos 0) ≡ false → pos 0 ≤ℤ z
      not_flat z h = ground arith

  -- Taking a rectangle away keeps the region valid, also without memory for the fragments, and never
  -- leaves a pixel that lies in the rectangle or did not lie in the region.
  pub subtract-RegionIsValid :
      RegionIsValid (clip_region_subtract_rect sub region m).0
      × ((px py : ℤ) → hits px py (clip_region_subtract_rect sub region m).0.rects ≤ remain px py)
  unfolding region_update_bbox
  subtract-RegionIsValid = elim (Bool-cases (returns_early sub region)) [
    | inl e ↦ rw (outcome_lem true e) (v, λ px py. omega (arith, early-hits px py e))
    | inr e ↦
        let d = sides e in
        let le =
          λ (px : ℤ) (py : ℤ). subtract_each-le px py sub d.0 d.1 region.rects ([], pos 0) m refl in
        rw (outcome_lem false e) (
          updated-RegionIsValid
              (record region { rects = subtracted.0.0; num_rects = subtracted.0.1 })
              (le (pos 0) (pos 0)).0 (λ px py. ground (arith, (le px py).1, v.once px py)),
          λ px py. omega (arith, (le px py).1),
        )
  ]

module _ (sub : Rect) (region : Region) (m : Mem) (v : RegionIsValid region) where
  -- What the subtraction leaves of the memory, and how long the list is.
  pub subtract-RoomFor :
      (k : ℕ)
      → RoomFor (4 * length region.rects + k) m
      → RoomFor k (clip_region_subtract_rect sub region m).1
        × (length (clip_region_subtract_rect sub region m).0.rects ≤ 4 * length region.rects)
        × ((px py : ℤ)
            → hits px py (clip_region_subtract_rect sub region m).0.rects
              ≡ remain sub region m v px py)
  unfolding region_update_bbox
  subtract-RoomFor k room = elim (Bool-cases (returns_early sub region)) [
    | inl e ↦ rw (outcome_lem sub region m v true e) (
      RoomFor-fewer _ k m (omega arith) room,
      omega arith,
      λ px py. early-hits sub region m v px py e,
    )
    | inr e ↦
        let d = sides sub region m v e in
        let s = λ (px : ℤ) (py : ℤ).
          subtract_each-RoomFor px py sub d.0 d.1 region.rects ([], pos 0) m k room in
        rw (outcome_lem sub region m v false e) (
          (s (pos 0) (pos 0)).1,
          omega (arith, length-subtract_each sub region.rects ([], pos 0) m),
          λ px py. omega (arith, (s px py).0),
        )
  ]

-- Where the heap has room for four nodes for each rectangle of a valid region, taking a rectangle
-- away leaves exactly the pixels of the region that do not lie in the rectangle, each in as many
-- rectangles as before, and the region stays valid.
pub clip_region_subtract_rect_lem :
    (sub : Rect) (region : Region) (m : Mem)
    → RegionIsValid region
    → RoomFor (4 * length region.rects) m
    → RegionIsValid (clip_region_subtract_rect sub region m).0
      × ((px py : ℤ)
          → hits px py (clip_region_subtract_rect sub region m).0.rects
            ≡ (if inside px py sub then 0 else hits px py region.rects))
clip_region_subtract_rect_lem sub region m v room =
    let enough = RoomFor-fewer _ (4 * length region.rects + 0) m (omega arith) room in
    ((subtract-RegionIsValid sub region m v).0, (subtract-RoomFor sub region m v 0 enough).2)

-- ===== src/Clip/Add.antt =====
-- Adding a rectangle to a region, from the merging loop to the whole operation.
use tor_os.Prelude.{
  ℕ, suc, ◌≤◌, ◌≡◌, ◌∙◌, refl, sym, ap, true, ◌||◌, List, [], ◌∷◌, Bool-cases, Option-cases, inl,
  inr, if◌then◌else◌, length, arith,
}
use tor_os.Prelude.Int.{ℤ, pos, ◌+ℤ◌, ◌-ℤ◌, leb_ℤ, int_laws}
use tor_os.Mm.{Mem, kmalloc}
use tor_os.Clip.{
  Rect, Region, is_null, absorb, insert_rect, add_to, clip_region_init, clip_region_add_rect,
  region_update_bbox, rect_size,
}
use tor_os.Clip.Rects.{inside, hits, one_if}
use tor_os.Clip.Merge.{scan-none, absorb_lem, hits-insert_rect, length-insert_rect}
use tor_os.Clip.Subtract.{RoomFor, RoomFor-fewer, kmalloc-RoomFor}
use tor_os.Clip.Valid.{RegionIsValid, inside-flat, updated-RegionIsValid}

hits-null : (px py : ℤ) (rects : List Rect) → is_null rects ≡ true → hits px py rects ≡ 0
hits-null px py [] e = refl
hits-null px py (r ∷ rest) e = cc

-- The region after the new node is put in, when there were others.
module _ (nr : Rect) (region : Region) (v : RegionIsValid region) where
  abbrev merged : Rect × List Rect
  merged = absorb (suc (length region.rects)) nr region.rects

  module _ (px py : ℤ) where
    -- The pixel lay in the region, or lies in the new rectangle.
    abbrev pub wanted : ℕ
    wanted = if inside px py nr then 1 else hits px py region.rects

    hits-merged :
        hits px py (insert_rect merged.0 merged.1) ≤ 1
        × (wanted ≤ hits px py (insert_rect merged.0 merged.1))
    hits-merged =
        let a = absorb_lem px py (suc (length region.rects)) nr region.rects (omega arith) in
        let k = hits-insert_rect px py merged.0 merged.1 in
        elim (Bool-cases (inside px py merged.0)) [
          | inl e ↦
              let z = scan-none px py merged.0 merged.1 a.0 e in
              let o = ap one_if e in (omega (arith, k, z, o), ground (arith, v.once px py, k, z, o))
          | inr e ↦
              let t = a.2 e in
              let o = ap one_if e in
              (omega (arith, k, t.1, o, v.once px py), ground (arith, k, t.0, t.1, o))
        ]

  merged_count : (num : ℤ) (n k : ℕ) → num ≡ pos n → num -ℤ (pos n -ℤ pos k) +ℤ pos 1 ≡ pos (suc k)
  merged_count num n k e = rw e (omega int_laws)

  add_to_lem :
      RegionIsValid (add_to nr region)
      × ((px py : ℤ) → wanted px py ≤ hits px py (add_to nr region).rects)
  unfolding region_update_bbox
  add_to_lem = elim (Bool-cases (is_null region.rects)) [
    | inl e ↦
        rw (e, add_to)
          (
            updated-RegionIsValid (record region { rects = nr ∷ []; num_rects = pos 1 }) refl
                (λ px py. ground arith),
            λ px py. ground (arith, hits-null px py region.rects e),
          )
    | inr e ↦
        rw (e, add_to)
          (
            updated-RegionIsValid
                (record region {
                  rects = insert_rect merged.0 merged.1;
                  num_rects =
                      region.num_rects
                      -ℤ (pos (length region.rects) -ℤ pos (length merged.1))
                      +ℤ pos 1;
                })
                (merged_count region.num_rects _ _ v.counted
                  ∙ ap pos (sym (length-insert_rect _ _)))
                (λ px py. (hits-merged px py).0),
            λ px py. (hits-merged px py).1,
          )
  ]

-- Where the heap has room for a node, adding a rectangle to a valid region keeps every pixel of the
-- region and of the rectangle, and leaves the region valid: no two of its rectangles overlap.
pub clip_region_add_rect_lem :
    (nr : Rect) (region : Region) (m : Mem)
    → RegionIsValid region
    → RoomFor 1 m
    → RegionIsValid (clip_region_add_rect nr region m).0
      × ((px py : ℤ)
          → (if inside px py nr then 1 else hits px py region.rects)
            ≤ hits px py (clip_region_add_rect nr region m).0.rects)
unfolding clip_region_add_rect
clip_region_add_rect_lem nr region m v room =
    let got = ap (λ t. t.0) (kmalloc-RoomFor 0 m room).0 in
    elim (Bool-cases (leb_ℤ nr.w (pos 0) || leb_ℤ nr.h (pos 0))) [
      | inl e ↦ rw (e, clip_region_add_rect) (v, λ px py. ground (arith, inside-flat px py nr e))
      | inr e ↦ rw (e, got, clip_region_add_rect) (add_to_lem nr region v)
    ]

-- The first rectangle of a region.
module _ (nr : Rect) (m : Mem) where
  init-RegionIsValid : RegionIsValid clip_region_init
  unfolding clip_region_init
  init-RegionIsValid = record {
    counted = refl;
    once = λ px py. omega arith;
    boxed = λ px py h. absurd (omega arith);
  }

  -- It is the only one, or lost for want of memory.
  pub add_first_lem :
      RegionIsValid (clip_region_add_rect nr clip_region_init m).0
      × (length (clip_region_add_rect nr clip_region_init m).0.rects ≤ 1)
      × ((px py : ℤ)
          → hits px py (clip_region_add_rect nr clip_region_init m).0.rects
            ≤ one_if (inside px py nr))
  unfolding clip_region_add_rect clip_region_init region_update_bbox
  add_first_lem = elim (Bool-cases (leb_ℤ nr.w (pos 0) || leb_ℤ nr.h (pos 0))) [
    | inl e ↦ rw (e, clip_region_add_rect) (init-RegionIsValid, omega arith, λ px py. omega arith)
    | inr e ↦ elim (Option-cases (kmalloc rect_size m).0) [
      | inl f ↦
          rw (e, f, clip_region_add_rect) (init-RegionIsValid, omega arith, λ px py. omega arith)
      | inr (p, f) ↦
          rw (e, f, clip_region_add_rect)
            (
              updated-RegionIsValid (record clip_region_init { rects = nr ∷ []; num_rects = pos 1 })
                  refl (λ px py. ground arith),
              omega arith,
              λ px py. omega arith,
            )
    ]
  ]

  pub add_first-RoomFor :
      (k : ℕ)
      → RoomFor (suc k) m
      → RoomFor k (clip_region_add_rect nr clip_region_init m).1
        × ((px py : ℤ)
            → hits px py (clip_region_add_rect nr clip_region_init m).0.rects
              ≡ one_if (inside px py nr))
  unfolding clip_region_add_rect clip_region_init region_update_bbox
  add_first-RoomFor k room = elim (Bool-cases (leb_ℤ nr.w (pos 0) || leb_ℤ nr.h (pos 0))) [
    | inl e ↦
        rw (e, clip_region_add_rect)
          (
            RoomFor-fewer _ k m (omega arith) room,
            λ px py. omega (arith, ap one_if (inside-flat px py nr e)),
          )
    | inr e ↦
        let got = kmalloc-RoomFor k m room in
        rw (e, ap (λ t. t.0) got.0, clip_region_add_rect) (got.1, λ px py. omega arith)
  ]

-- ===== src/Clip/Merge.antt =====
-- The merging loop of `clip_region_add_rect` and the insertion of the merged rectangle, pixel by
-- pixel.
use tor_os.Prelude.{
  ℕ, zero, suc, ◌+◌, ◌≤◌, ◌<◌, ◌≡◌, ◌∙◌, refl, sym, ap, subst, Bool, true, false, ◌||◌, List, [],
  ◌∷◌, Option, none, some, Bool-cases, Option-cases, inl, inr, if◌then◌else◌, length, arith,
}
use tor_os.Prelude.Int.{ℤ, ◌+ℤ◌, leb_ℤ}
use tor_os.Clip.{
  Rect, rects_overlap, rect_merge, min_ℤ, max_ℤ, meets, past, scan, absorb, insert_rect,
}
use tor_os.Clip.Rects.{inside, in_span, hits, one_if, +ℤ_diff, apart_lem}

scan_step :
    (nr r : Rect) (rest : List Rect) (b : Bool)
    → meets nr r ≡ b
    → scan nr (r ∷ rest) ≡ (if b then some (r, rest) else past r (scan nr rest))
unfolding scan
scan_step nr r rest b e = rw e

past-none : (r : Rect) (o : Option (Rect × List Rect)) → past r o ≡ none → o ≡ none
past-none r none e = refl
past-none r (some (r', rest)) e = cc

past-some :
    (r : Rect) (o : Option (Rect × List Rect)) (s : Rect × List Rect)
    → past r o ≡ some s
    → (rest : List Rect) × (o ≡ some (s.0, rest)) × (s.1 ≡ r ∷ rest)
past-some r none s e = cc
past-some r (some (r', rest)) s e = (rest, cc, cc)

meets-apart : (nr r : Rect) → meets nr r ≡ false → rects_overlap r nr ≡ false
unfolding meets
meets-apart nr r h = ground arith

module _ (fuel : ℕ) (nr : Rect) (rects : List Rect) where
  absorb_end : scan nr rects ≡ none → absorb (suc fuel) nr rects ≡ (nr, rects)
  unfolding absorb
  absorb_end e = rw (e, absorb)

  absorb_more :
      (s : Rect × List Rect)
      → scan nr rects ≡ some s
      → absorb (suc fuel) nr rects ≡ absorb fuel (rect_merge nr s.0) s.1
  unfolding absorb
  absorb_more s e = rw (e, absorb)

module _ (px py : ℤ) where
  union_span :
      (p a1 a2 b1 b2 : ℤ)
      → (in_span p a1 a2 || in_span p b1 b2) ≡ true
      → in_span p (min_ℤ a1 b1) (max_ℤ a2 b2) ≡ true
  union_span p a1 a2 b1 b2 h = ground arith

  inside-rect_merge :
      (a b : Rect)
      → (inside px py a || inside px py b) ≡ true
      → inside px py (rect_merge a b) ≡ true
  unfolding rect_merge
  inside-rect_merge a b h =
      rw
        (
          +ℤ_diff (min_ℤ a.x b.x) (max_ℤ (a.x +ℤ a.w) (b.x +ℤ b.w)),
          +ℤ_diff (min_ℤ a.y b.y) (max_ℤ (a.y +ℤ a.h) (b.y +ℤ b.h)),
        )
        (ground (
          arith,
          union_span px a.x (a.x +ℤ a.w) b.x (b.x +ℤ b.w),
          union_span py a.y (a.y +ℤ a.h) b.y (b.y +ℤ b.h),
        ))

  -- The rectangle found is taken out of the list.
  scan-some :
      (nr : Rect) (rects : List Rect) (s : Rect × List Rect)
      → scan nr rects ≡ some s
      → (hits px py rects ≡ one_if (inside px py s.0) + hits px py s.1)
        × (length rects ≡ suc (length s.1))
  unfolding scan
  scan-some nr [] s e = cc
  scan-some nr (r ∷ rest) s e = elim (Bool-cases (meets nr r)) [
    | inl b ↦
        let q : (r, rest) ≡ s = cc (e, scan_step nr r rest true b) in
        subst
          (λ s.
            (hits px py (r ∷ rest) ≡ one_if (inside px py s.0) + hits px py s.1)
            × (length (r ∷ rest) ≡ suc (length s.1)))
          q (refl, refl)
    | inr b ↦
        let (t, f, g) = past-some r (scan nr rest) s (sym (scan_step nr r rest false b) ∙ e) in
        let i = scan-some nr rest (s.0, t) f in rw g (omega (arith, i.0), omega (arith, i.1))
  ]

  pub scan-none :
      (nr : Rect) (rects : List Rect)
      → scan nr rects ≡ none
      → inside px py nr ≡ true
      → hits px py rects ≡ 0
  unfolding scan
  scan-none nr [] e i = refl
  scan-none nr (r ∷ rest) e i = elim (Bool-cases (meets nr r)) [
    | inl b ↦ cc (e, scan_step nr r rest true b)
    | inr b ↦
        let none_later = past-none r (scan nr rest) (sym (scan_step nr r rest false b) ∙ e) in
        ground (arith, scan-none nr rest none_later i, apart_lem r nr px py (meets-apart nr r b))
  ]

  not_either : (a b c : Bool) → ((a || b) ≡ true → c ≡ true) → c ≡ false → (a ≡ false) × (b ≡ false)
  not_either true b c h k = cc (h refl)
  not_either false true c h k = cc (h refl)
  not_either false false c h k = (refl, refl)

  -- With a unit of fuel for each rectangle and one more the loop ends with nothing left to merge. No
  -- pixel of the region or of the new rectangle is lost.
  pub absorb_lem :
      (fuel : ℕ) (nr : Rect) (rects : List Rect)
      → length rects < fuel
      → let s = absorb fuel nr rects in
        (scan s.0 s.1 ≡ none)
        × (hits px py s.1 ≤ hits px py rects)
        × (inside px py s.0 ≡ false
            → (inside px py nr ≡ false) × (hits px py s.1 ≡ hits px py rects))
  absorb_lem zero nr rects h = absurd (omega arith)
  absorb_lem (suc fuel) nr rects h = elim (Option-cases (scan nr rects)) [
    | inl e ↦ rw (absorb_end fuel nr rects e) (e, omega arith, λ o. (o, refl))
    | inr (s, e) ↦
        let f = scan-some nr rects s e in
        let i = absorb_lem fuel (rect_merge nr s.0) s.1 (omega (arith, f.1)) in
        rw (absorb_more fuel nr rects s e) (
          i.0,
          omega (arith, f.0, i.1),
          λ o.
              let (m, t) = i.2 o in
              let n =
                not_either (inside px py nr) (inside px py s.0) _ (inside-rect_merge nr s.0) m in
              (n.0, omega (arith, t, f.0, ap one_if n.1)),
        )
  ]

  pub hits-insert_rect :
      (nr : Rect) (rects : List Rect)
      → hits px py (insert_rect nr rects) ≡ one_if (inside px py nr) + hits px py rects
  unfolding insert_rect
  hits-insert_rect nr [] = refl
  hits-insert_rect nr (r ∷ rest) = elim (Bool-cases (leb_ℤ r.y nr.y)) [
    | inl e ↦ rw (e, insert_rect) (omega (arith, hits-insert_rect nr rest))
    | inr e ↦ rw (e, insert_rect) refl
  ]

pub length-insert_rect :
    (nr : Rect) (rects : List Rect) → length (insert_rect nr rects) ≡ suc (length rects)
unfolding insert_rect
length-insert_rect nr [] = refl
length-insert_rect nr (r ∷ rest) = elim (Bool-cases (leb_ℤ r.y nr.y)) [
  | inl e ↦ rw (e, insert_rect) (omega (arith, length-insert_rect nr rest))
  | inr e ↦ rw (e, insert_rect) refl
]

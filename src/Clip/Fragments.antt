-- ===== src/Clip/Fragments.antt =====
-- The subtraction of one rectangle from another, pixel by pixel: up to four fragments.
use tor_os.Prelude.{
  ◌+◌, ◌≤◌, ◌≡◌, ◌∙◌, refl, Bool, true, false, not, ◌&&◌, List, [], ◌∷◌, ◌++◌, Bool-cases, inl, inr,
  ap, ap₂, sym, length, length-append, arith,
}
use tor_os.Prelude.Int.{ℤ, pos, ◌+ℤ◌, ◌-ℤ◌, ltb_ℤ, leb_ℤ, int_laws, ◌≤ℤ◌}
use tor_os.Clip.{Rect, rect, rects_overlap, rect_subtract, min_ℤ, max_ℤ, emit}
use tor_os.Clip.Rects.{in_span, inside, one_if, hits, +ℤ_diff, overlap_edges, apart_lem}

-- One dimension of the subtraction: a span from `a1` to `a2` and one from `b1` to `b2`.
module _ (p a1 a2 b1 b2 : ℤ) where
  span_before :
      ltb_ℤ b1 a2 ≡ true
      → (ltb_ℤ a1 (max_ℤ b1 a1) && in_span p a1 (max_ℤ b1 a1)) ≡ (in_span p a1 a2 && ltb_ℤ p b1)
  span_before h = ground arith

  span_after :
      ltb_ℤ a1 b2 ≡ true
      → (ltb_ℤ (min_ℤ b2 a2) a2 && in_span p (min_ℤ b2 a2) a2) ≡ (in_span p a1 a2 && leb_ℤ b2 p)
  span_after h = ground arith

  span_within :
      in_span p (max_ℤ b1 a1) (min_ℤ b2 a2)
      ≡ (in_span p a1 a2 && (not (ltb_ℤ p b1) && not (leb_ℤ b2 p)))
  span_within = ground arith

  span_out : in_span p b1 b2 ≡ (not (ltb_ℤ p b1) && not (leb_ℤ b2 p))
  span_out = ground arith

-- Top, bottom, left and right: what lies in `x` and `y` and not between `l` and `r`, `t` and `u`.
around :
    (x y l r t u : Bool)
    → (l && r) ≡ false
    → (t && u) ≡ false
    → one_if (x && (y && t))
        + one_if (x && (y && u))
        + one_if ((x && l) && (y && (not t && not u)))
        + one_if ((x && r) && (y && (not t && not u)))
      ≡ one_if ((x && y) && not ((not l && not r) && (not t && not u)))
around x y l r t u h k = ground arith

span_sides : (p b1 b2 : ℤ) → b1 ≤ℤ b2 → (ltb_ℤ p b1 && leb_ℤ b2 p) ≡ false
span_sides p b1 b2 h = ground arith

&&-swap : (t x z : Bool) → (t && (x && z)) ≡ (x && (t && z))
&&-swap t x z = ground arith

&&_assoc : (t x z : Bool) → (t && (x && z)) ≡ ((t && x) && z)
&&_assoc t x z = ground arith

length-emit : (b : Bool) (r : Rect) → length (emit b r) ≤ 1
length-emit true r = omega arith
length-emit false r = omega arith

module _ (ax1 ay1 ax2 ay2 bx1 by1 bx2 by2 : ℤ) where
  abbrev top : List Rect
  top = emit (ltb_ℤ ay1 (max_ℤ by1 ay1)) (rect ax1 ay1 (ax2 -ℤ ax1) (max_ℤ by1 ay1 -ℤ ay1))

  abbrev bottom : List Rect
  bottom =
      emit (ltb_ℤ (min_ℤ by2 ay2) ay2)
        (rect ax1 (min_ℤ by2 ay2) (ax2 -ℤ ax1) (ay2 -ℤ min_ℤ by2 ay2))

  abbrev left : List Rect
  left =
      emit (ltb_ℤ ax1 (max_ℤ bx1 ax1))
        (rect ax1 (max_ℤ by1 ay1) (max_ℤ bx1 ax1 -ℤ ax1) (min_ℤ by2 ay2 -ℤ max_ℤ by1 ay1))

  abbrev right : List Rect
  right =
      emit (ltb_ℤ (min_ℤ bx2 ax2) ax2) (
        rect (min_ℤ bx2 ax2) (max_ℤ by1 ay1) (ax2 -ℤ min_ℤ bx2 ax2)
          (min_ℤ by2 ay2 -ℤ max_ℤ by1 ay1))

  length-frags : length (top ++ bottom ++ left ++ right) ≤ 4
  length-frags = omega (
    arith,
    length-append (top ++ bottom ++ left) right,
    length-append (top ++ bottom) left,
    length-append top bottom,
    length-emit (ltb_ℤ ay1 (max_ℤ by1 ay1)) (rect ax1 ay1 (ax2 -ℤ ax1) (max_ℤ by1 ay1 -ℤ ay1)),
    length-emit (ltb_ℤ (min_ℤ by2 ay2) ay2)
        (rect ax1 (min_ℤ by2 ay2) (ax2 -ℤ ax1) (ay2 -ℤ min_ℤ by2 ay2)),
    length-emit (ltb_ℤ ax1 (max_ℤ bx1 ax1))
        (rect ax1 (max_ℤ by1 ay1) (max_ℤ bx1 ax1 -ℤ ax1) (min_ℤ by2 ay2 -ℤ max_ℤ by1 ay1)),
    length-emit (ltb_ℤ (min_ℤ bx2 ax2) ax2) (
        rect (min_ℤ bx2 ax2) (max_ℤ by1 ay1) (ax2 -ℤ min_ℤ bx2 ax2)
          (min_ℤ by2 ay2 -ℤ max_ℤ by1 ay1)),
  )

pub length-rect_subtract : (a b : Rect) → length (rect_subtract a b) ≤ 4
unfolding rect_subtract
length-rect_subtract a b = elim (Bool-cases (rects_overlap a b)) [
  | inl e ↦ rw e (length-frags a.x a.y (a.x +ℤ a.w) (a.y +ℤ a.h) b.x b.y (b.x +ℤ b.w) (b.y +ℤ b.h))
  | inr e ↦ rw e (omega arith)
]

module _ (px py : ℤ) where
  hits-append : (p q : List Rect) → hits px py (p ++ q) ≡ hits px py p + hits px py q
  hits-append [] q = omega arith
  hits-append (r ∷ rest) q = omega (arith, hits-append rest q)

  hits-emit :
      (b : Bool) (x1 y1 x2 y2 : ℤ)
      → hits px py (emit b (rect x1 y1 (x2 -ℤ x1) (y2 -ℤ y1)))
        ≡ one_if (b && (in_span px x1 x2 && in_span py y1 y2))
  hits-emit true x1 y1 x2 y2 = rw (+ℤ_diff x1 x2, +ℤ_diff y1 y2) (omega arith)
  hits-emit false x1 y1 x2 y2 = refl

  module _ (ax1 ay1 ax2 ay2 bx1 by1 bx2 by2 : ℤ) where
    -- The four fragments around the common part of two rectangles that overlap, by their edges.
    frags_lem :
        ltb_ℤ bx1 ax2 ≡ true
        → ltb_ℤ ax1 bx2 ≡ true
        → ltb_ℤ by1 ay2 ≡ true
        → ltb_ℤ ay1 by2 ≡ true
        → bx1 ≤ℤ bx2
        → by1 ≤ℤ by2
        → hits px py (
            top ax1 ay1 ax2 ay2 bx1 by1 bx2 by2
            ++ bottom ax1 ay1 ax2 ay2 bx1 by1 bx2 by2
            ++ left ax1 ay1 ax2 ay2 bx1 by1 bx2 by2
            ++ right ax1 ay1 ax2 ay2 bx1 by1 bx2 by2)
          ≡ one_if (
              (in_span px ax1 ax2 && in_span py ay1 ay2)
              && not (in_span px bx1 bx2 && in_span py by1 by2))
    frags_lem h1 h2 h3 h4 w h =
        let t' = top ax1 ay1 ax2 ay2 bx1 by1 bx2 by2 in
        let b' = bottom ax1 ay1 ax2 ay2 bx1 by1 bx2 by2 in
        let l' = left ax1 ay1 ax2 ay2 bx1 by1 bx2 by2 in
        let r' = right ax1 ay1 ax2 ay2 bx1 by1 bx2 by2 in
        let x = in_span px ax1 ax2 in
        let y = in_span py ay1 ay2 in
        let mx = max_ℤ bx1 ax1 in
        let my = max_ℤ by1 ay1 in
        let nx = min_ℤ bx2 ax2 in
        let ny = min_ℤ by2 ay2 in
        let e1 : hits px py t' ≡ one_if (x && (y && ltb_ℤ py by1)) =
          hits-emit _ _ _ _ _
          ∙ ap one_if (
              &&-swap (ltb_ℤ ay1 my) x (in_span py ay1 my)
              ∙ ap (λ z. x && z) (span_before py ay1 ay2 by1 by2 h3)) in
        let e2 : hits px py b' ≡ one_if (x && (y && leb_ℤ by2 py)) =
          hits-emit _ _ _ _ _
          ∙ ap one_if (
              &&-swap (ltb_ℤ ny ay2) x (in_span py ny ay2)
              ∙ ap (λ z. x && z) (span_after py ay1 ay2 by1 by2 h4)) in
        let m = span_within py ay1 ay2 by1 by2 in
        let e3 : hits px py l' ≡ one_if ((x && ltb_ℤ px bx1) && _) =
          hits-emit _ _ _ _ _
          ∙ ap one_if (
              &&_assoc (ltb_ℤ ax1 mx) (in_span px ax1 mx) (in_span py my ny)
              ∙ ap₂ (λ z w. z && w) (span_before px ax1 ax2 bx1 bx2 h1) m) in
        let e4 : hits px py r' ≡ one_if ((x && leb_ℤ bx2 px) && _) =
          hits-emit _ _ _ _ _
          ∙ ap one_if (
              &&_assoc (ltb_ℤ nx ax2) (in_span px nx ax2) (in_span py my ny)
              ∙ ap₂ (λ z w. z && w) (span_after px ax1 ax2 bx1 bx2 h2) m) in
        hits-append (t' ++ b' ++ l') r'
        ∙ ap₂ (λ z w. z + w)
            (hits-append (t' ++ b') l'
              ∙ ap₂ (λ z w. z + w) (hits-append t' b' ∙ ap₂ (λ z w. z + w) e1 e2) e3)
            e4
        ∙ around x y (ltb_ℤ px bx1) (leb_ℤ bx2 px) (ltb_ℤ py by1) (leb_ℤ by2 py)
            (span_sides px bx1 bx2 w) (span_sides py by1 by2 h)
        ∙ ap₂ (λ z w. one_if ((x && y) && not (z && w))) (sym (span_out px ax1 ax2 bx1 bx2))
            (sym (span_out py ay1 ay2 by1 by2))

  -- Each pixel of `a` that does not lie in `b` lies in exactly one of the fragments, and no other
  -- pixel does, where the sides of `b` are not negative.
  pub rect_subtract_lem :
      (a b : Rect)
      → pos 0 ≤ℤ b.w
      → pos 0 ≤ℤ b.h
      → hits px py (rect_subtract a b) ≡ one_if (inside px py a && not (inside px py b))
  unfolding rect_subtract
  rect_subtract_lem a b w h = elim (Bool-cases (rects_overlap a b)) [
    | inl e ↦
        let o = overlap_edges a b e in
        rw e (
          frags_lem a.x a.y (a.x +ℤ a.w) (a.y +ℤ a.h) b.x b.y (b.x +ℤ b.w) (b.y +ℤ b.h) o.0 o.1 o.2
            o.3 (omega int_laws) (omega int_laws))
    | inr e ↦ rw e (ground (arith, apart_lem a b px py e))
  ]

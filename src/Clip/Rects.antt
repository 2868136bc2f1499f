-- ===== src/Clip/Rects.antt =====
-- What a list of rectangles covers, and rectangles that overlap.
use tor_os.Prelude.{
  ℕ, ◌+◌, ◌≡◌, refl, Bool, true, false, not, ◌&&◌, ◌||◌, List, [], ◌∷◌, ◌⊎◌, inl, inr,
  if◌then◌else◌, arith,
}
use tor_os.Prelude.Int.{ℤ, ◌+ℤ◌, ◌-ℤ◌, ltb_ℤ, leb_ℤ, int_laws}
use tor_os.Clip.{Rect, rects_overlap}

-- `lo <= p && p < hi`
abbrev pub in_span : ℤ → ℤ → ℤ → Bool
in_span p lo hi = leb_ℤ lo p && ltb_ℤ p hi

-- The pixel (px, py) lies in the rectangle.
abbrev pub inside : ℤ → ℤ → Rect → Bool
inside px py r = in_span px r.x (r.x +ℤ r.w) && in_span py r.y (r.y +ℤ r.h)

abbrev pub one_if : Bool → ℕ
one_if b = if b then 1 else 0

-- In how many of the rectangles the pixel (px, py) lies.
abbrev pub hits : ℤ → ℤ → List Rect → ℕ
hits px py [] = 0
hits px py (r ∷ rest) = one_if (inside px py r) + hits px py rest

pub +ℤ_diff : (a b : ℤ) → a +ℤ (b -ℤ a) ≡ b
+ℤ_diff a b = omega int_laws

spans_apart :
    (p a1 a2 b1 b2 : ℤ)
    → (leb_ℤ a2 b1 || leb_ℤ b2 a1) ≡ true
    → (in_span p a1 a2 && in_span p b1 b2) ≡ false
spans_apart p a1 a2 b1 b2 h = ground arith

some_edge :
    (a b c d : Bool) → not (a || b || c || d) ≡ false → ((a || b) ≡ true) ⊎ ((c || d) ≡ true)
some_edge true b c d h = inl refl
some_edge false true c d h = inl refl
some_edge false false c d h = inr (ground arith)

-- Rectangles that overlap do so in both dimensions.
module _ (a b : Rect) where
  pub overlap_edges :
      rects_overlap a b ≡ true
      → (ltb_ℤ b.x (a.x +ℤ a.w) ≡ true)
        × (ltb_ℤ a.x (b.x +ℤ b.w) ≡ true)
        × (ltb_ℤ b.y (a.y +ℤ a.h) ≡ true)
        × (ltb_ℤ a.y (b.y +ℤ b.h) ≡ true)
  unfolding rects_overlap
  overlap_edges h = go a.x (a.x +ℤ a.w) b.x (b.x +ℤ b.w) a.y (a.y +ℤ a.h) b.y (b.y +ℤ b.h) h
    where
      go :
          (a1 a2 b1 b2 c1 c2 d1 d2 : ℤ)
          → not (leb_ℤ a2 b1 || leb_ℤ b2 a1 || leb_ℤ c2 d1 || leb_ℤ d2 c1) ≡ true
          → (ltb_ℤ b1 a2 ≡ true)
            × (ltb_ℤ a1 b2 ≡ true)
            × (ltb_ℤ d1 c2 ≡ true)
            × (ltb_ℤ c1 d2 ≡ true)
      go a1 a2 b1 b2 c1 c2 d1 d2 h = ground arith

  -- No pixel lies in two rectangles that do not overlap.
  pub apart_lem :
      (px py : ℤ) → rects_overlap a b ≡ false → (inside px py a && inside px py b) ≡ false
  unfolding rects_overlap
  apart_lem px py h =
      elim (some_edge (leb_ℤ (a.x +ℤ a.w) b.x) (leb_ℤ (b.x +ℤ b.w) a.x) (leb_ℤ (a.y +ℤ a.h) b.y)
        (leb_ℤ (b.y +ℤ b.h) a.y) h) [
          | inl e ↦ ground (arith, spans_apart px a.x (a.x +ℤ a.w) b.x (b.x +ℤ b.w) e)
          | inr e ↦ ground (arith, spans_apart py a.y (a.y +ℤ a.h) b.y (b.y +ℤ b.h) e)
        ]

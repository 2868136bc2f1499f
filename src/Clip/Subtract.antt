-- ===== src/Clip/Subtract.antt =====
-- The subtraction of a rectangle from a region, and the memory it takes.
use tor_os.Prelude.{
  ℕ, suc, ◌+◌, ◌*◌, ◌^◌, ◌≤◌, ◌<◌, ◌≡◌, ◌∙◌, ap, Bool, true, not, ◌&&◌, List, [], ◌∷◌, Option, none,
  some, Bool-cases, Option-cases, inl, inr, if◌then◌else◌, length, arith,
}
use tor_os.Prelude.Int.{ℤ, pos, ◌+ℤ◌, eq_ℤ, int_laws, ◌≤ℤ◌}
use tor_os.Mm.{Mem, kmalloc}
use tor_os.Clip.{
  Rect, rect_size, rect_subtract, unchanged, same_rect, take_frag, keep_frags, subtract_one,
  subtract_each,
}
use tor_os.Clip.Rects.{inside, hits, one_if}
use tor_os.Clip.Fragments.{rect_subtract_lem, length-rect_subtract}

-- The heap, below 2 ^ 62, has room for `n` more nodes.
pub record RoomFor (n : ℕ) (m : Mem) : Type 0 where
  pub room : m.heap_ptr + n * rect_size ≤ m.heap_end
  pub small : m.heap_end < 2 ^ 62

pub RoomFor-fewer : (n k : ℕ) (m : Mem) → k ≤ n → RoomFor n m → RoomFor k m
RoomFor-fewer n k m h r = record { room = omega (arith, r.room); small = r.small }

pub kmalloc-RoomFor :
    (n : ℕ) (m : Mem)
    → RoomFor (suc n) m
    → (kmalloc rect_size m ≡ (some m.heap_ptr, (kmalloc rect_size m).1))
      × RoomFor n (kmalloc rect_size m).1
unfolding kmalloc
kmalloc-RoomFor n m r = (
  ground (arith, r.room, r.small),
  record { room = ground (arith, r.room, r.small); small = ground (arith, r.room, r.small) },
)

-- The number that the loops carry is the list's length.
abbrev pub Counted : List Rect × ℤ → Type 0
Counted l = l.1 ≡ pos (length l.0)

Counted-cons : (r : Rect) (l : List Rect × ℤ) → Counted l → Counted (r ∷ l.0, l.1 +ℤ pos 1)
Counted-cons r l c = ap (λ z. z +ℤ pos 1) c ∙ omega int_laws

keep_frags_step :
    (f : Rect) (fs : List Rect) (l : List Rect × ℤ) (m : Mem) (o : Option ℕ)
    → (kmalloc rect_size m).0 ≡ o
    → keep_frags (f ∷ fs) l m ≡ keep_frags fs (take_frag f l o) (kmalloc rect_size m).1
unfolding keep_frags
keep_frags_step f fs l m o e = ap (λ o. keep_frags fs (take_frag f l o) (kmalloc rect_size m).1) e

module _ (px py : ℤ) where
  abbrev hits_of : List Rect × ℤ → ℕ
  hits_of l = hits px py l.0

  -- Without memory fragments are lost, and nothing else happens.
  keep_frags-le :
      (fs : List Rect) (l : List Rect × ℤ) (m : Mem)
      → Counted l
      → Counted (keep_frags fs l m).0 × (hits_of (keep_frags fs l m).0 ≤ hits px py fs + hits_of l)
  unfolding keep_frags
  keep_frags-le [] l m c = (c, omega arith)
  keep_frags-le (f ∷ fs) l m c =
      let a = kmalloc rect_size m in
      let more = keep_frags-le fs (f ∷ l.0, l.1 +ℤ pos 1) a.1 (Counted-cons f l c) in
      let lost = keep_frags-le fs l a.1 c in
      elim (Option-cases a.0) [
        | inl e ↦ rw (keep_frags_step f fs l m none e) (lost.0, omega (arith, lost.1))
        | inr (p, e) ↦ rw (keep_frags_step f fs l m (some p) e) (more.0, omega (arith, more.1))
      ]

  keep_frags-RoomFor :
      (fs : List Rect) (l : List Rect × ℤ) (m : Mem) (n : ℕ)
      → RoomFor (length fs + n) m
      → (hits_of (keep_frags fs l m).0 ≡ hits px py fs + hits_of l)
        × RoomFor n (keep_frags fs l m).1
  unfolding keep_frags
  keep_frags-RoomFor [] l m n r = (omega arith, RoomFor-fewer _ n m (omega arith) r)
  keep_frags-RoomFor (f ∷ fs) l m n r =
      let a = kmalloc-RoomFor (length fs + n) m (RoomFor-fewer _ _ m (omega arith) r) in
      let rest = keep_frags-RoomFor fs (f ∷ l.0, l.1 +ℤ pos 1) (kmalloc rect_size m).1 n a.1 in
      rw (keep_frags_step f fs l m _ (ap (λ t. t.0) a.0)) (omega (arith, rest.0), rest.1)

eq_ℤ-eq : (a b : ℤ) → eq_ℤ a b ≡ true → a ≡ b
eq_ℤ-eq a b h = ground arith

all_four :
    (a b c d : Bool) → (a && b && c && d) ≡ true → (a ≡ true) × (b ≡ true) × (c ≡ true) × (d ≡ true)
all_four a b c d h = ground arith

inside-same_rect : (px py : ℤ) (r s : Rect) → same_rect r s ≡ true → inside px py r ≡ inside px py s
inside-same_rect px py r s h =
    let e = all_four (eq_ℤ r.x s.x) (eq_ℤ r.y s.y) (eq_ℤ r.w s.w) (eq_ℤ r.h s.h) h in
    rw (eq_ℤ-eq r.x s.x e.0, eq_ℤ-eq r.y s.y e.1, eq_ℤ-eq r.w s.w e.2, eq_ℤ-eq r.h s.h e.3)

module _ (px py : ℤ) where
  hits-unchanged :
      (r : Rect) (fs : List Rect) → unchanged r fs ≡ true → hits px py fs ≡ one_if (inside px py r)
  hits-unchanged r [] h = cc
  hits-unchanged r (f ∷ []) h = omega (arith, ap one_if (inside-same_rect px py f r h))
  hits-unchanged r (f ∷ g ∷ fs) h = cc

  module _ (sub : Rect) (w : pos 0 ≤ℤ sub.w) (h : pos 0 ≤ℤ sub.h) where
    -- The pixel lies in `r` and is not taken away.
    abbrev kept_in : Rect → ℕ
    kept_in r = one_if (inside px py r && not (inside px py sub))

    subtract_one-le :
        (r : Rect) (l : List Rect × ℤ) (m : Mem)
        → Counted l
        → Counted (subtract_one sub r l m).0
          × (hits_of px py (subtract_one sub r l m).0 ≤ kept_in r + hits_of px py l)
    unfolding subtract_one
    subtract_one-le r l m c =
        let frags = rect_subtract r sub in
        let e = rect_subtract_lem px py r sub w h in
        elim (Bool-cases (unchanged r frags)) [
          | inl u ↦ rw u (Counted-cons r l c, omega (arith, e, hits-unchanged r frags u))
          | inr u ↦ let k = keep_frags-le px py frags l m c in rw u (k.0, omega (arith, e, k.1))
        ]

    subtract_one-RoomFor :
        (r : Rect) (l : List Rect × ℤ) (m : Mem) (n : ℕ)
        → RoomFor (4 + n) m
        → (hits_of px py (subtract_one sub r l m).0 ≡ kept_in r + hits_of px py l)
          × RoomFor n (subtract_one sub r l m).1
    unfolding subtract_one
    subtract_one-RoomFor r l m n room =
        let frags = rect_subtract r sub in
        let e = rect_subtract_lem px py r sub w h in
        elim (Bool-cases (unchanged r frags)) [
          | inl u ↦
              rw u
                (omega (arith, e, hits-unchanged r frags u), RoomFor-fewer _ n m (omega arith) room)
          | inr u ↦
              let enough = RoomFor-fewer _ _ m (omega (arith, length-rect_subtract r sub)) room in
              let k = keep_frags-RoomFor px py frags l m n enough in
              rw u (omega (arith, e, k.0), k.1)
        ]

    -- The pixel lies in that many of the rectangles, and is not taken away.
    abbrev pub left_of : List Rect → ℕ
    left_of rects = if inside px py sub then 0 else hits px py rects

    pub subtract_each-le :
        (rects : List Rect) (l : List Rect × ℤ) (m : Mem)
        → Counted l
        → Counted (subtract_each sub rects l m).0
          × (hits_of px py (subtract_each sub rects l m).0 ≤ left_of rects + hits_of px py l)
    unfolding subtract_each
    subtract_each-le [] l m c = (c, ground arith)
    subtract_each-le (r ∷ rest) l m c =
        let one = subtract_one-le r l m c in
        let s = subtract_one sub r l m in
        let all = subtract_each-le rest s.0 s.1 one.0 in (all.0, ground (arith, one.1, all.1))

    -- With room for `k` nodes besides, the memory for them is still there afterwards.
    pub subtract_each-RoomFor :
        (rects : List Rect) (l : List Rect × ℤ) (m : Mem) (k : ℕ)
        → RoomFor (4 * length rects + k) m
        → (hits_of px py (subtract_each sub rects l m).0 ≡ left_of rects + hits_of px py l)
          × RoomFor k (subtract_each sub rects l m).1
    unfolding subtract_each
    subtract_each-RoomFor [] l m k room = (ground arith, RoomFor-fewer _ k m (omega arith) room)
    subtract_each-RoomFor (r ∷ rest) l m k room =
        let enough = RoomFor-fewer _ _ m (omega arith) room in
        let one = subtract_one-RoomFor r l m (4 * length rest + k) enough in
        let s = subtract_one sub r l m in
        let all = subtract_each-RoomFor rest s.0 s.1 k one.1 in
        (ground (arith, one.0, all.0), all.1)

length-keep_frags :
    (fs : List Rect) (l : List Rect × ℤ) (m : Mem)
    → length (keep_frags fs l m).0.0 ≤ length fs + length l.0
unfolding keep_frags
length-keep_frags [] l m = omega arith
length-keep_frags (f ∷ fs) l m =
    let a = kmalloc rect_size m in
    elim (Option-cases a.0) [
      | inl e ↦ rw (keep_frags_step f fs l m none e) (omega (arith, length-keep_frags fs l a.1))
      | inr (p, e) ↦
          rw (keep_frags_step f fs l m (some p) e)
            (omega (arith, length-keep_frags fs (f ∷ l.0, l.1 +ℤ pos 1) a.1))
    ]

module _ (sub : Rect) where
  length-subtract_one :
      (r : Rect) (l : List Rect × ℤ) (m : Mem)
      → length (subtract_one sub r l m).0.0 ≤ 4 + length l.0
  unfolding subtract_one
  length-subtract_one r l m =
      let frags = rect_subtract r sub in
      elim (Bool-cases (unchanged r frags)) [
        | inl u ↦ rw u (omega arith)
        | inr u ↦ rw u (omega (arith, length-keep_frags frags l m, length-rect_subtract r sub))
      ]

  -- Each rectangle leaves at most four.
  pub length-subtract_each :
      (rects : List Rect) (l : List Rect × ℤ) (m : Mem)
      → length (subtract_each sub rects l m).0.0 ≤ 4 * length rects + length l.0
  unfolding subtract_each
  length-subtract_each [] l m = omega arith
  length-subtract_each (r ∷ rest) l m =
      let s = subtract_one sub r l m in
      omega (arith, length-subtract_one r l m, length-subtract_each rest s.0 s.1)

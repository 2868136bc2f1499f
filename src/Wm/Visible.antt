-- ===== src/Wm/Visible.antt =====
-- kernel/clip.c: `wm_compute_visible_region`, which goes from the window manager to the regions.
use tor_os.Prelude.{
  ℕ, zero, suc, ◌+◌, ◌*◌, ◌≤◌, ◌<◌, ◌≡◌, refl, Bool, true, false, not, ◌&&◌, ◌||◌, List, [], ◌∷◌,
  ◌==◌, if◌then◌else◌, Bool-cases, inl, inr, arith, count, length,
}
use tor_os.Prelude.Int.{ℤ, pos, eq_ℤ}
use tor_os.Mm.{Mem}
use tor_os.Clip.{
  Rect, rect, Region, clip_region_init, clip_region_add_rect, clip_region_subtract_rect,
}
use tor_os.Clip.Rects.{inside, hits, one_if}
use tor_os.Clip.Subtract.{RoomFor, RoomFor-fewer}
use tor_os.Clip.Valid.{RegionIsValid, subtract-RegionIsValid, subtract-RoomFor}
use tor_os.Clip.Add.{add_first_lem, add_first-RoomFor}
use tor_os.Wm.{Wm, Window, has, ws_visible, is_open}

-- `!(state == WSTATE_MINIMIZED || state == WSTATE_HIDDEN || !(flags & WS_VISIBLE))`
abbrev pub is_shown : Window → Bool
is_shown w = is_open w.state && has w.flags ws_visible

abbrev pub frame : Window → Rect
frame w = rect w.x w.y w.full_width w.full_height

-- The windows after `win`, which is at `p`: each other one that is shown is taken away, until nothing
-- is left.
unfoldable pub occlude : (ℕ → Window) → ℕ → List ℕ → Region → Mem → Region × Mem
occlude store p [] out m = (out, m)
occlude store p (w ∷ rest) out m =
    let s = clip_region_subtract_rect (frame (store w)) out m in
    let rest_shown = occlude store p rest s.0 s.1 in
    let rest_hidden = occlude store p rest out m in
    if not (w == p) && is_shown (store w)
    then (if eq_ℤ s.0.num_rects (pos 0) then s else rest_shown)
    else rest_hidden

-- The loop from the front of the list, where `past_self` is not yet set.
unfoldable pub from_self : (ℕ → Window) → ℕ → List ℕ → Region → Mem → Region × Mem
unfolding occlude
from_self store p [] out m = (out, m)
from_self store p (w ∷ rest) out m =
    let later = from_self store p rest out m in if w == p then occlude store p rest out m else later

unfoldable pub wm_compute_visible_region : ℕ → Wm → Region × Mem
unfolding clip_region_init from_self
wm_compute_visible_region p m =
    let a = clip_region_add_rect (frame (m.store p)) clip_region_init m.mem in
    if is_shown (m.store p)
    then from_self m.store p m.window_list a.0 a.1
    else (clip_region_init, m.mem)

-- A window of the list other than that at `p` is shown and holds the pixel.
abbrev pub covered : ℤ → ℤ → (ℕ → Window) → ℕ → List ℕ → Bool
covered px py store p [] = false
covered px py store p (w ∷ rest) =
    (not (w == p) && is_shown (store w) && inside px py (frame (store w)))
    || covered px py store p rest

-- The list after the window at `p`.
abbrev pub after : ℕ → List ℕ → List ℕ
after p [] = []
after p (w ∷ rest) = if w == p then rest else after p rest

-- Enough nodes for taking `k` rectangles from a region of `n`, one after the other.
abbrev pub nodes_for : ℕ → ℕ → ℕ
nodes_for zero n = 0
nodes_for (suc k) n = 4 * n + nodes_for k (4 * n)

nodes_for_mono : (k n n' : ℕ) → n ≤ n' → nodes_for k n ≤ nodes_for k n'
nodes_for_mono zero n n' h = omega arith
nodes_for_mono (suc k) n n' h = omega (arith, nodes_for_mono k (4 * n) (4 * n') (omega arith))

length_zero :
    (n : ℤ) (rects : List Rect) → n ≡ pos (length rects) → eq_ℤ n (pos 0) ≡ true → length rects ≡ 0
length_zero n rects c e = ground arith

hits_none : (px py : ℤ) (rects : List Rect) → length rects ≡ 0 → hits px py rects ≡ 0
hits_none px py [] h = refl
hits_none px py (r ∷ rest) h = absurd (omega arith)

module _ (store : ℕ → Window) (p : ℕ) where
  -- The window is taken away.
  abbrev takes : ℕ → Bool
  takes w = not (w == p) && is_shown (store w)

  module _ (w : ℕ) (rest : List ℕ) (out : Region) (m : Mem) where
    abbrev cut : Region × Mem
    cut = clip_region_subtract_rect (frame (store w)) out m

    occlude_skip : takes w ≡ false → occlude store p (w ∷ rest) out m ≡ occlude store p rest out m
    unfolding occlude
    occlude_skip e = rw (e, occlude) refl

    occlude_end :
        takes w ≡ true
        → eq_ℤ cut.0.num_rects (pos 0) ≡ true
        → occlude store p (w ∷ rest) out m ≡ cut
    unfolding occlude
    occlude_end e f = rw (e, f, occlude) refl

    occlude_next :
        takes w ≡ true
        → eq_ℤ cut.0.num_rects (pos 0) ≡ false
        → occlude store p (w ∷ rest) out m ≡ occlude store p rest cut.0 cut.1
    unfolding occlude
    occlude_next e f = rw (e, f, occlude) refl

  -- What may be left of a pixel's rectangles.
  abbrev uncovered : ℤ → ℤ → List ℕ → Region → ℕ
  uncovered px py ws out = if covered px py store p ws then 0 else hits px py out.rects

  -- The outcome is valid and holds no pixel of a window that is taken away, whatever the memory.
  occlude-le :
      (ws : List ℕ) (out : Region) (m : Mem)
      → RegionIsValid out
      → RegionIsValid (occlude store p ws out m).0
        × ((px py : ℤ) → hits px py (occlude store p ws out m).0.rects ≤ uncovered px py ws out)
  unfolding occlude
  occlude-le [] out m v = (v, λ px py. omega arith)
  occlude-le (w ∷ rest) out m v =
      let cut = clip_region_subtract_rect (frame (store w)) out m in
      let (valid, le) = subtract-RegionIsValid (frame (store w)) out m v in
      elim (Bool-cases (takes w)) [
        | inl e ↦ elim (Bool-cases (eq_ℤ cut.0.num_rects (pos 0))) [
          | inl f ↦
              let none = length_zero _ _ valid.counted f in
              rw (occlude_end w rest out m e f)
                (valid, λ px py. omega (arith, hits_none px py cut.0.rects none))
          | inr f ↦
              let ih = occlude-le rest cut.0 cut.1 valid in
              rw (occlude_next w rest out m e f)
                (ih.0, λ px py. ground (arith, e, ih.1 px py, le px py))
        ]
        | inr e ↦
            let ih = occlude-le rest out m v in
            rw (occlude_skip w rest out m e) (ih.0, λ px py. ground (arith, e, ih.1 px py))
      ]

  -- With enough memory nothing else is lost.
  occlude-RoomFor :
      (ws : List ℕ) (out : Region) (m : Mem)
      → RegionIsValid out
      → RoomFor (nodes_for (length ws) (length out.rects)) m
      → (px py : ℤ) → hits px py (occlude store p ws out m).0.rects ≡ uncovered px py ws out
  unfolding occlude
  occlude-RoomFor [] out m v room px py = refl
  occlude-RoomFor (w ∷ rest) out m v room px py =
      let n : ℕ = length out.rects in
      let k : ℕ = length rest in
      let cut = clip_region_subtract_rect (frame (store w)) out m in
      let valid = (subtract-RegionIsValid (frame (store w)) out m v).0 in
      let (left, few, same) =
        subtract-RoomFor (frame (store w)) out m v (nodes_for k (4 * n)) room in
      elim (Bool-cases (takes w)) [
        | inl e ↦ elim (Bool-cases (eq_ℤ cut.0.num_rects (pos 0))) [
          | inl f ↦
              let none = length_zero _ _ valid.counted f in
              rw (occlude_end w rest out m e f)
                (ground (arith, e, same px py, hits_none px py cut.0.rects none))
          | inr f ↦
              let enough = RoomFor-fewer _ _ cut.1 (nodes_for_mono k _ _ few) left in
              let ih = occlude-RoomFor rest cut.0 cut.1 valid enough px py in
              rw (occlude_next w rest out m e f) (ground (arith, e, ih, same px py))
        ]
        | inr e ↦
            let fewer = nodes_for_mono k n (4 * n) (omega arith) in
            let enough = RoomFor-fewer _ (nodes_for k n) m (omega (arith, fewer)) room in
            let ih = occlude-RoomFor rest out m v enough px py in
            rw (occlude_skip w rest out m e) (ground (arith, e, ih))
      ]

from_self-after :
    (store : ℕ → Window) (p : ℕ) (ws : List ℕ) (out : Region) (m : Mem)
    → 0 < count p ws
    → from_self store p ws out m ≡ occlude store p (after p ws) out m
unfolding from_self
from_self-after store p [] out m h = absurd (omega arith)
from_self-after store p (w ∷ rest) out m h = elim (Bool-cases (w == p)) [
  | inl e ↦ rw (e, from_self) refl
  | inr e ↦ rw (e, from_self) (from_self-after store p rest out m (ground arith))
]

module _ (p : ℕ) (m : Wm) where
  -- The pixel lies in the window, which is shown, and in no window shown above it.
  abbrev pub is_visible : ℤ → ℤ → Bool
  is_visible px py =
      is_shown (m.store p)
      && inside px py (frame (m.store p))
      && not (covered px py m.store p (after p m.window_list))

module _ (p : ℕ) (m : Wm) (h : 0 < count p m.window_list) where
  abbrev start : Region × Mem
  start = clip_region_add_rect (frame (m.store p)) clip_region_init m.mem

  hidden_region :
      is_shown (m.store p) ≡ false → wm_compute_visible_region p m ≡ (clip_region_init, m.mem)
  unfolding wm_compute_visible_region
  hidden_region e = rw (e, wm_compute_visible_region) refl

  shown_region :
      is_shown (m.store p) ≡ true
      → wm_compute_visible_region p m ≡ occlude m.store p (after p m.window_list) start.0 start.1
  unfolding wm_compute_visible_region
  shown_region e =
      rw (e, wm_compute_visible_region) (from_self-after m.store p m.window_list start.0 start.1 h)

  -- The region computed for a listed window holds only visible pixels of it, also where memory runs
  -- out: the window is never drawn over one above it.
  pub visible_region_sound :
      (px py : ℤ)
      → hits px py (wm_compute_visible_region p m).0.rects ≤ one_if (is_visible p m px py)
  unfolding clip_region_init
  visible_region_sound px py = elim (Bool-cases (is_shown (m.store p))) [
    | inl e ↦
        let f = add_first_lem (frame (m.store p)) m.mem in
        let o = occlude-le m.store p (after p m.window_list) start.0 start.1 f.0 in
        rw (shown_region e) (ground (arith, e, o.1 px py, f.2 px py))
    | inr e ↦ rw (hidden_region e) (omega arith)
  ]

  -- With enough memory the region that `wm_compute_visible_region` returns holds every visible pixel
  -- of the window, each once, and no other pixel.
  pub visible_region_exact :
      RoomFor (suc (nodes_for (length (after p m.window_list)) 1)) m.mem
      → (px py : ℤ)
      → hits px py (wm_compute_visible_region p m).0.rects ≡ one_if (is_visible p m px py)
  unfolding clip_region_init
  visible_region_exact room px py = elim (Bool-cases (is_shown (m.store p))) [
    | inl e ↦
        let above = after p m.window_list in
        let f = add_first_lem (frame (m.store p)) m.mem in
        let g = add_first-RoomFor (frame (m.store p)) m.mem _ room in
        let enough = RoomFor-fewer _ _ start.1 (nodes_for_mono (length above) _ 1 f.1) g.0 in
        let o = occlude-RoomFor m.store p above start.0 start.1 f.0 enough px py in
        rw (shown_region e) (ground (arith, e, o, g.1 px py))
    | inr e ↦ rw (hidden_region e) (ground (arith, e))
  ]

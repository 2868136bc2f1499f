-- ===== src/Wm/Parts.antt =====
-- One window: maximizing and restoring, resizing, and the parts that a point may lie on.
use tor_os.Prelude.{
  ℕ, ◌≡◌, ◌∙◌, refl, ap, Bool, true, false, not, ◌&&◌, ◌||◌, some, ◌==◌, if◌then◌else◌, arith,
}
use tor_os.Prelude.Int.{ℤ, pos, ◌+ℤ◌, ◌-ℤ◌, leb_ℤ, ltb_ℤ, +ℤ_parts, -ℤ_parts}
use tor_os.Clip.Rects.{inside, in_span}
use tor_os.Wm.{Wm, Window, put, wm_invalidate_rect, full_w, full_h, is_maximized}
use tor_os.Wm.Visible.{frame}
use tor_os.Wm.Geometry.{
  wm_maximize_window, wm_restore_window, wm_hit_test, hit_inside, Hit, nowhere, client, close,
  maximize_box, minimize_box, caption, title_hit, frame_hit, maximize, restore,
}

-- Where a window is: its place, its size, and its size with the decorations.
abbrev pub geometry : Window → ℤ × ℤ × ℤ × ℤ × ℤ × ℤ
geometry w = (w.x, w.y, w.width, w.height, w.full_width, w.full_height)

put_self : (p : ℕ) (w : Window) (m : Wm) → (put p w m).store p ≡ w
put_self p w m =
    let here : (p == p) ≡ true = ground arith in ap (λ b. if b then w else m.store p) here

module _ (p : ℕ) (m : Wm) where
  store-wm_maximize_window :
      (taskbar : ℤ)
      → is_maximized (m.store p).state ≡ false
      → (wm_maximize_window taskbar (some p) m).store p
        ≡ maximize m.desktop_width (m.desktop_height -ℤ taskbar) (m.store p)
  unfolding wm_maximize_window wm_invalidate_rect
  store-wm_maximize_window taskbar a = rw (a, wm_maximize_window) (put_self p _ m)

  store-wm_restore_window : (wm_restore_window (some p) m).store p ≡ restore (m.store p)
  unfolding wm_restore_window wm_invalidate_rect
  store-wm_restore_window = put_self p _ m

restore-maximize :
    (dw dh : ℤ) (win : Window)
    → ltb_ℤ (pos 0) win.width ≡ true
    → ltb_ℤ (pos 0) win.height ≡ true
    → win.full_width ≡ full_w win.style win.width
    → win.full_height ≡ full_h win.style win.height
    → geometry (restore (maximize dw dh win)) ≡ geometry win
restore-maximize dw dh win w h fw fh = rw (w, h, fw, fh) refl

-- A window with some area, not maximized, is where it was after it is maximized and restored. Its
-- size with the decorations is the one that its style gives.
pub wm_restore_window-wm_maximize_window :
    (taskbar : ℤ) (p : ℕ) (m : Wm)
    → is_maximized (m.store p).state ≡ false
    → ltb_ℤ (pos 0) (m.store p).width ≡ true
    → ltb_ℤ (pos 0) (m.store p).height ≡ true
    → (m.store p).full_width ≡ full_w (m.store p).style (m.store p).width
    → (m.store p).full_height ≡ full_h (m.store p).style (m.store p).height
    → geometry ((wm_restore_window (some p) (wm_maximize_window taskbar (some p) m)).store p)
      ≡ geometry (m.store p)
wm_restore_window-wm_maximize_window taskbar p m a w h fw fh =
    ap geometry (
      store-wm_restore_window p (wm_maximize_window taskbar (some p) m)
      ∙ ap restore (store-wm_maximize_window p m taskbar a))
    ∙ restore-maximize m.desktop_width _ (m.store p) w h fw fh

abbrev pub is_nowhere : Hit → Bool
is_nowhere nowhere = true
is_nowhere _ = false

title_hit-somewhere : (wx wy : ℤ) (win : Window) → is_nowhere (title_hit wx wy win) ≡ false
title_hit-somewhere wx wy win = go _ _ _ _
  where
    go :
        (a b c d : Bool)
        → is_nowhere (
            if a
            then (if b
                then close
                else if c
                then maximize_box
                else if d
                then minimize_box
                else caption)
            else caption)
          ≡ false
    go a b c d = ground arith

frame_hit-somewhere : (wx wy : ℤ) (win : Window) → is_nowhere (frame_hit wx wy win) ≡ false
frame_hit-somewhere wx wy win = ground arith

out_of_span :
    (x a w : ℤ) → (ltb_ℤ (x -ℤ a) (pos 0) || leb_ℤ w (x -ℤ a)) ≡ not (in_span x a (a +ℤ w))
out_of_span x a w = ground (arith, -ℤ_parts x a, +ℤ_parts a w)

only_outside :
    (o t f : Bool) (h k : Hit)
    → is_nowhere h ≡ false
    → is_nowhere k ≡ false
    → is_nowhere (if o then nowhere else if t then h else if f then k else client) ≡ o
only_outside true t f h k e g = refl
only_outside false true f h k e g = e
only_outside false false true h k e g = g
only_outside false false false h k e g = refl

regroup :
    (a b c d x y : Bool) → (a || c) ≡ not x → (b || d) ≡ not y → (a || b || c || d) ≡ not (x && y)
regroup a b c d x y e f = ground arith

-- The hit test finds a part of the window at the points of its frame, and at no others.
pub wm_hit_test_lem :
    (x y : ℤ) (win : Window)
    → is_nowhere (wm_hit_test (some win) x y) ≡ not (inside x y (frame win))
unfolding wm_hit_test hit_inside
wm_hit_test_lem x y win =
    let wx : ℤ = x -ℤ win.x in
    let wy : ℤ = y -ℤ win.y in
    only_outside _ _ _ (title_hit wx wy win) (frame_hit wx wy win) (title_hit-somewhere wx wy win)
      (frame_hit-somewhere wx wy win)
    ∙ regroup (ltb_ℤ wx (pos 0)) (ltb_ℤ wy (pos 0)) (leb_ℤ win.full_width wx)
        (leb_ℤ win.full_height wy) _ _ (out_of_span x win.x win.full_width)
        (out_of_span y win.y win.full_height)

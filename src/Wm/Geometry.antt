-- ===== src/Wm/Geometry.antt =====
-- kernel/window.c: the operations on one window's place and state, and the test of a point against
-- its parts. `taskbar` is what `desktop_shell_taskbar_height()` returns. `win` is `none` for NULL.
use tor_os.Prelude.{ℕ, ◌+◌, ◌*◌, Bool, ◌&&◌, ◌||◌, Option, none, some, if◌then◌else◌}
use tor_os.Prelude.Int.{ℤ, pos, ◌+ℤ◌, ◌-ℤ◌, ltb_ℤ, leb_ℤ}
use tor_os.Wm.{
  Wm, Window, put, has, set_flags, clear_flags, full_w, full_h, wm_invalidate_rect, invalidate_all,
  ws_visible, ws_caption, ws_thickframe, ws_minimizebox, ws_maximizebox, wf_need_redraw, wf_dirty,
  border_width, titlebar_height, normal, minimized, maximized, hidden, is_maximized,
}

unfoldable pub wm_hide_window : Option ℕ → Wm → Wm
unfolding wm_invalidate_rect
wm_hide_window none m = m
wm_hide_window (some p) m =
    invalidate_all p (
      put p (set_flags wf_dirty (clear_flags ws_visible (record (m.store p) { state = hidden }))) m)

unfoldable pub wm_minimize_window : Option ℕ → Wm → Wm
unfolding wm_invalidate_rect
wm_minimize_window none m = m
wm_minimize_window (some p) m = invalidate_all p (
    put p (set_flags wf_dirty (clear_flags ws_visible (record (m.store p) { state = minimized })))
      m)

-- The window over the whole work area, its old place saved.
abbrev pub maximize : ℤ → ℤ → Window → Window
maximize w h win = set_flags wf_need_redraw (
    set_flags wf_dirty (record win {
      saved_x = win.x;
      saved_y = win.y;
      saved_w = win.width;
      saved_h = win.height;
      state = maximized;
      x = pos 0;
      y = pos 0;
      width = w;
      height = h;
      full_width = w;
      full_height = h;
    }))

unfoldable pub wm_maximize_window : ℤ → Option ℕ → Wm → Wm
unfolding wm_invalidate_rect
wm_maximize_window taskbar none m = m
wm_maximize_window taskbar (some p) m =
    if is_maximized (m.store p).state
    then m
    else wm_invalidate_rect (pos 0) (pos 0) m.desktop_width m.desktop_height
        (put p (maximize m.desktop_width (m.desktop_height -ℤ taskbar) (m.store p)) m)

-- "Restore saved geometry if coming from maximized state"
abbrev pub restore : Window → Window
restore win =
    let shown =
      set_flags (ws_visible + wf_need_redraw + wf_dirty) (record win { state = normal }) in
    if is_maximized win.state && ltb_ℤ (pos 0) win.saved_w && ltb_ℤ (pos 0) win.saved_h
    then record shown {
      x = win.saved_x;
      y = win.saved_y;
      width = win.saved_w;
      height = win.saved_h;
      full_width = full_w win.style win.saved_w;
      full_height = full_h win.style win.saved_h;
    }
    else shown

unfoldable pub wm_restore_window : Option ℕ → Wm → Wm
unfolding wm_invalidate_rect
wm_restore_window none m = m
wm_restore_window (some p) m = invalidate_all p (put p (restore (m.store p)) (invalidate_all p m))

unfoldable pub wm_move_window : Option ℕ → ℤ → ℤ → Wm → Wm
unfolding wm_invalidate_rect
wm_move_window none x y m = m
wm_move_window (some p) x y m =
    let old = m.store p in
    if is_maximized old.state
    then m
    else wm_invalidate_rect x y old.full_width old.full_height (
        wm_invalidate_rect old.x old.y old.full_width old.full_height
          (put p (set_flags wf_dirty (record old { x = x; y = y })) m))

-- `if (w < lo) w = lo; if (w > hi) w = hi;`
abbrev pub clamp : ℤ → ℤ → ℤ → ℤ
clamp lo hi w = let w1 : ℤ = if ltb_ℤ w lo then lo else w in if ltb_ℤ hi w1 then hi else w1

unfoldable pub wm_resize_window : Option ℕ → ℤ → ℤ → Wm → Wm
unfolding wm_invalidate_rect
wm_resize_window none w h m = m
wm_resize_window (some p) w h m =
    let old = m.store p in
    if is_maximized old.state
    then m
    else let w1 : ℤ = clamp (pos 100) m.desktop_width w in
      let h1 : ℤ = clamp (pos 50) m.desktop_height h in
      invalidate_all p (
        put p
          (set_flags (wf_need_redraw + wf_dirty) (record old {
            width = w1;
            height = h1;
            full_width = full_w old.style w1;
            full_height = full_h old.style h1;
          }))
          m)

unfoldable pub wm_invalidate_window : Option ℕ → Wm → Wm
unfolding wm_invalidate_rect
wm_invalidate_window none m = m
wm_invalidate_window (some p) m =
    invalidate_all p (put p (set_flags (wf_dirty + wf_need_redraw) (m.store p)) m)

-- `HT_CLIENT` and those after it.
pub data Hit : Type 0 where
  client caption close minimize_box maximize_box left right top bottom top_left top_right : Hit
  bottom_left bottom_right nowhere : Hit

abbrev pub button_size : ℕ
button_size = 18

abbrev pub button_margin : ℕ
button_margin = 2

-- Button `n` from the right: its left edge is `n` sizes and margins inside the border.
abbrev pub on_button : ℕ → ℤ → Window → Bool
on_button n wx win =
    let x = win.full_width -ℤ border_width -ℤ pos (button_size * n) -ℤ pos (button_margin * n) in
    leb_ℤ x wx && ltb_ℤ wx (x +ℤ pos button_size)

-- "Title bar area": the rows of the buttons are 10 to 27, from 4 + (30 - 18) / 2 on.
abbrev pub title_hit : ℤ → ℤ → Window → Hit
title_hit wx wy win =
    if leb_ℤ (pos 10) wy && ltb_ℤ wy (pos 28)
    then (if on_button 1 wx win
        then close
        else if has win.style ws_maximizebox && on_button 2 wx win
        then maximize_box
        else if has win.style ws_minimizebox && on_button 3 wx win
        then minimize_box
        else caption)
    else caption

-- "Border resize areas"
abbrev pub frame_hit : ℤ → ℤ → Window → Hit
frame_hit wx wy win =
    let at_top = ltb_ℤ wy border_width in
    let at_bottom = leb_ℤ (win.full_height -ℤ border_width) wy in
    if ltb_ℤ wx border_width
    then (if at_top then top_left else if at_bottom then bottom_left else left)
    else if leb_ℤ (win.full_width -ℤ border_width) wx
    then (if at_top then top_right else if at_bottom then bottom_right else right)
    else if at_top
    then top
    else if at_bottom
    then bottom
    else client

-- A point relative to the window.
unfoldable pub hit_inside : ℤ → ℤ → Window → Hit
hit_inside wx wy win =
    if ltb_ℤ wx (pos 0) || ltb_ℤ wy (pos 0) || leb_ℤ win.full_width wx || leb_ℤ win.full_height wy
    then nowhere
    else if has win.style ws_caption
        && leb_ℤ border_width wy
        && ltb_ℤ wy (border_width +ℤ titlebar_height)
    then title_hit wx wy win
    else if has win.style ws_thickframe
    then frame_hit wx wy win
    else client

unfoldable pub wm_hit_test : Option Window → ℤ → ℤ → Hit
unfolding hit_inside
wm_hit_test none x y = nowhere
wm_hit_test (some win) x y = hit_inside (x -ℤ win.x) (y -ℤ win.y) win

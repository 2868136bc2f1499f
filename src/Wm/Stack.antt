-- ===== src/Wm/Stack.antt =====
-- kernel/window.c: creating, destroying, stacking and finding windows. `win` is `none` for NULL.
use tor_os.Prelude.{
  ℕ, ◌+◌, ◌-◌, ◌%◌, ◌^◌, Bool, false, ◌&&◌, List, [], ◌∷◌, Option, none, some, ◌==◌, if◌then◌else◌,
  length, take,
}
use tor_os.Prelude.Int.{ℤ, pos, negsuc, ◌+ℤ◌, ◌-ℤ◌, ◌*ℤ◌, ltb_ℤ, leb_ℤ}
use tor_os.Libc.{copy_name}
use tor_os.Mm.{Mem, kmalloc}
use tor_os.Clip.{no_rect}
use tor_os.Wm.{
  Wm, Window, blank_window, put, has, set_flags, clear_flags, full_w, full_h, insert_window,
  unlink_window, ws_visible, wf_need_redraw, wf_dirty, wf_active, max_windows, window_size,
  zorder_desktop, zorder_normal, normal, is_open,
}

-- The conversion of an `int` to `uint32`.
abbrev pub as_u32 : ℤ → ℕ
as_u32 (pos n) = n % 2 ^ 32
as_u32 (negsuc n) = 2 ^ 32 - 1 - n % 2 ^ 32

-- "Untitled"
abbrev pub title_or : Option (List ℕ) → List ℕ
title_or (some t) = t
title_or none = b'U' ∷ b'n' ∷ b't' ∷ b'i' ∷ b't' ∷ b'l' ∷ b'e' ∷ b'd' ∷ []

-- The fields that `wm_create_window` sets before it allocates the framebuffer.
abbrev pub new_window : ℕ → Option (List ℕ) → ℤ → ℤ → ℤ → ℤ → ℕ → Window
new_window id title x y w h style = record blank_window {
  id = id % 2 ^ 32;
  title = copy_name blank_window.title (title_or title) 127;
  style = style;
  state = normal;
  flags = wf_need_redraw + wf_dirty;
  z_order = zorder_normal;
  bgcolor = 0xFFF0F0F0;
  x = x;
  y = y;
  width = w;
  height = h;
  full_width = full_w style w;
  full_height = full_h style h;
  fb_size = as_u32 (full_w style w *ℤ full_h style h *ℤ pos 4);
}

abbrev pub link_window : ℕ → Wm → Wm
link_window p m = record m {
  window_list = insert_window m.store p m.window_list;
  window_count = m.window_count +ℤ pos 1;
}

-- The window's pixels are not part of the model: the framebuffer is its address.
unfoldable pub wm_create_window : Option (List ℕ) → ℤ → ℤ → ℤ → ℤ → ℕ → Wm → Option ℕ × Wm
wm_create_window title x y w h style m =
    if leb_ℤ (pos max_windows) m.window_count
    then (none, m)
    else let a = kmalloc window_size m.mem in
      elim a.0 [
        | none ↦ (none, record m { mem = a.1 })
        | some p ↦
            let win = new_window m.next_id title x y w h style in
            let b = kmalloc win.fb_size a.1 in
            let m1 = record m { next_id = m.next_id + 1; mem = b.1 } in
            (some p, link_window p (put p (record win { framebuffer = b.0 }) m1))
      ]

-- "Desktop"
abbrev pub desktop_title : List ℕ
desktop_title = b'D' ∷ b'e' ∷ b's' ∷ b'k' ∷ b't' ∷ b'o' ∷ b'p' ∷ []

abbrev pub empty_manager : ℤ → ℤ → (ℕ → Window) → Mem → Wm
empty_manager desktop_w desktop_h store mem = record {
  window_list = [];
  active_window = none;
  desktop_window = none;
  focused_window = none;
  drag_window = none;
  window_count = pos 0;
  next_id = 1;
  initialized = 0;
  desktop_width = desktop_w;
  desktop_height = desktop_h;
  dirty = no_rect;
  store = store;
  mem = mem;
}

-- The desktop's window is under all others, and has its own colour.
abbrev pub with_desktop : Option ℕ × Wm → Wm
with_desktop (none, m) = record m { desktop_window = none; initialized = 1 }
with_desktop (some p, m) =
    record (put p (record (m.store p) { z_order = zorder_desktop; bgcolor = 0xFF0078D7 }) m) {
      desktop_window = some p;
      initialized = 1;
    }

unfoldable pub wm_init : ℤ → ℤ → (ℕ → Window) → Mem → Wm
wm_init desktop_w desktop_h store mem = with_desktop (
    wm_create_window (some desktop_title) (pos 0) (pos 0) desktop_w desktop_h 0
      (empty_manager desktop_w desktop_h store mem))

-- `if (q == win) q = NULL`
abbrev pub drop_if : ℕ → Option ℕ → Option ℕ
drop_if p none = none
drop_if p (some q) = if q == p then none else some q

unfoldable pub wm_destroy_window : Option ℕ → Wm → Wm
wm_destroy_window none m = m
wm_destroy_window (some p) m = record m {
  window_list = unlink_window p m.window_list;
  active_window = drop_if p m.active_window;
  focused_window = drop_if p m.focused_window;
  drag_window = drop_if p m.drag_window;
  window_count = m.window_count -ℤ pos 1;
}

-- `win->flags |= mask`
abbrev pub flag : ℕ → ℕ → Wm → Wm
flag p mask m = put p (set_flags mask (m.store p)) m

unfoldable pub wm_raise_window : Option ℕ → Wm → Wm
wm_raise_window none m = m
wm_raise_window (some p) m =
    if m.initialized == 0
    then m
    else flag p wf_dirty
        (record m { window_list = insert_window m.store p (unlink_window p m.window_list) })

unfoldable pub wm_lower_window : Option ℕ → Wm → Wm
wm_lower_window none m = m
wm_lower_window (some p) m =
    flag p wf_dirty (record m { window_list = p ∷ unlink_window p m.window_list })

unfoldable pub wm_show_window : Option ℕ → Wm → Wm
unfolding wm_raise_window
wm_show_window none m = m
wm_show_window (some p) m = wm_raise_window (some p) (
    put p
      (set_flags (ws_visible + wf_need_redraw + wf_dirty) (record (m.store p) { state = normal }))
      m)

-- "Deactivate previous"
abbrev pub deactivate : Option ℕ → Wm → Wm
deactivate none m = m
deactivate (some q) m = put q (set_flags wf_dirty (clear_flags wf_active (m.store q))) m

abbrev pub is_same : Option ℕ → ℕ → Bool
is_same none p = false
is_same (some q) p = q == p

unfoldable pub wm_set_active_window : Option ℕ → Wm → Wm
unfolding wm_raise_window
wm_set_active_window none m = m
wm_set_active_window (some p) m =
    if is_same m.active_window p
    then m
    else let m1 = deactivate m.active_window m in
      wm_raise_window (some p) (
        flag p (wf_active + wf_dirty)
          (record m1 { active_window = some p; focused_window = some p }))

unfoldable pub wm_get_active_window : Wm → Option ℕ
wm_get_active_window m = m.active_window

unfoldable pub wm_get_desktop_window : Wm → Option ℕ
wm_get_desktop_window m = m.desktop_window

unfoldable pub wm_get_window_count : Wm → ℤ
wm_get_window_count m = m.window_count

-- The tests of `wm_find_window_at`.
unfoldable pub shows_at : ℤ → ℤ → Window → Bool
shows_at x y w =
    has w.flags ws_visible
    && is_open w.state
    && (leb_ℤ w.x x
        && ltb_ℤ x (w.x +ℤ w.full_width)
        && leb_ℤ w.y y
        && ltb_ℤ y (w.y +ℤ w.full_height))

-- "Search from top (end of list) to bottom": the last window found wins.
unfoldable pub find_from : ℤ → ℤ → (ℕ → Window) → List ℕ → Option ℕ → Option ℕ
unfolding shows_at
find_from x y store [] found = found
find_from x y store (p ∷ rest) found =
    find_from x y store rest (if shows_at x y (store p) then some p else found)

unfoldable pub wm_find_window_at : ℤ → ℤ → Wm → Option ℕ
unfolding find_from
wm_find_window_at x y m =
    if m.initialized == 0 then none else find_from x y m.store m.window_list none

-- The windows and their number.
unfoldable pub wm_get_window_list : Wm → List ℕ × ℕ
wm_get_window_list m = (take max_windows m.window_list, length (take max_windows m.window_list))

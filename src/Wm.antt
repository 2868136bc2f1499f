-- ===== src/Wm.antt =====
-- kernel/window.c: the window manager's windows, their stacking and their geometry.
-- A `window_t *` is an address, and `store` says what lies at it; the list through the `next`
-- fields is the list of the addresses along it, lowest window first. Coordinates are integers
-- without bounds: the code supposes that no sum of them overflows. An operation under `wm_lock` is
-- one step. Printing and the drawing of the decorations are left out.
pub mod Stack
pub mod Geometry
pub mod Order
pub mod Valid
pub mod Create
pub mod Find
pub mod Visible
pub mod Parts
use tor_os.Prelude.{
  ℕ, zero, suc, ◌+◌, ◌-◌, ◌*◌, ◌/◌, ◌%◌, ◌^◌, bit_and, bit_or, Bool, true, false, not, ◌&&◌, ◌||◌,
  List, [], ◌∷◌, Option, none, some, ◌==◌, ltb, leb, if◌then◌else◌, set, replicate, length, take,
}
use tor_os.Prelude.Int.{ℤ, pos, negsuc, ◌+ℤ◌, ◌-ℤ◌, ◌*ℤ◌, ltb_ℤ, leb_ℤ, pos_part}
use tor_os.Libc.{copy_name}
use tor_os.Mm.{Mem, kmalloc}
use tor_os.Clip.{Rect, rect}

-- `WS_CAPTION`, `WS_THICKFRAME`, `WS_MINIMIZEBOX`, `WS_MAXIMIZEBOX`, `WS_VISIBLE`
abbrev pub ws_caption : ℕ
ws_caption = 2

abbrev pub ws_thickframe : ℕ
ws_thickframe = 8

abbrev pub ws_minimizebox : ℕ
ws_minimizebox = 0x10

abbrev pub ws_maximizebox : ℕ
ws_maximizebox = 0x20

abbrev pub ws_visible : ℕ
ws_visible = 0x40

-- `WF_NEED_REDRAW`, `WF_ACTIVE`, `WF_DIRTY`
abbrev pub wf_need_redraw : ℕ
wf_need_redraw = 1

abbrev pub wf_active : ℕ
wf_active = 2

abbrev pub wf_dirty : ℕ
wf_dirty = 4

abbrev pub zorder_desktop : ℤ
zorder_desktop = pos 0

abbrev pub zorder_normal : ℤ
zorder_normal = pos 1000

abbrev pub titlebar_height : ℤ
titlebar_height = pos 30

abbrev pub border_width : ℤ
border_width = pos 4

abbrev pub max_windows : ℕ
max_windows = 64

-- `sizeof(window_t)`
abbrev pub window_size : ℕ
window_size = 256

pub data WState : Type 0 where
  normal minimized maximized hidden : WState

abbrev pub is_maximized : WState → Bool
is_maximized maximized = true
is_maximized _ = false

-- `state != WSTATE_MINIMIZED && state != WSTATE_HIDDEN`
abbrev pub is_open : WState → Bool
is_open minimized = false
is_open hidden = false
is_open _ = true

-- `window_t`, without the link and the fields that the window manager does not use; a framebuffer of
-- `none` is NULL.
pub record Window : Type 0 where
  pub id : ℕ
  pub title : List ℕ
  pub x : ℤ
  pub y : ℤ
  pub width : ℤ
  pub height : ℤ
  pub full_width : ℤ
  pub full_height : ℤ
  pub style : ℕ
  pub state : WState
  pub flags : ℕ
  pub z_order : ℤ
  pub bgcolor : ℕ
  pub framebuffer : Option ℕ
  pub fb_size : ℕ
  pub saved_x : ℤ
  pub saved_y : ℤ
  pub saved_w : ℤ
  pub saved_h : ℤ

-- What `memset(win, 0, ...)` leaves.
abbrev pub blank_window : Window
blank_window = record {
  id = 0;
  title = replicate 128 0;
  x = pos 0;
  y = pos 0;
  width = pos 0;
  height = pos 0;
  full_width = pos 0;
  full_height = pos 0;
  style = 0;
  state = normal;
  flags = 0;
  z_order = pos 0;
  bgcolor = 0;
  framebuffer = none;
  fb_size = 0;
  saved_x = pos 0;
  saved_y = pos 0;
  saved_w = pos 0;
  saved_h = pos 0;
}

-- `window_manager_t`, without the fields for dragging that nothing uses; of the dirty region only
-- the box is ever set. `store` is the memory that the windows lie in, and `mem` the allocator.
pub record Wm : Type 0 where
  pub window_list : List ℕ
  pub active_window : Option ℕ
  pub desktop_window : Option ℕ
  pub focused_window : Option ℕ
  pub drag_window : Option ℕ
  pub window_count : ℤ
  pub next_id : ℕ
  pub initialized : ℕ
  pub desktop_width : ℤ
  pub desktop_height : ℤ
  pub dirty : Rect
  pub store : ℕ → Window
  pub mem : Mem

-- `flag & mask` as a test, `flags |= mask`, and `flags &= ~mask` for a mask of bits.
abbrev pub has : ℕ → ℕ → Bool
has flags mask = not (bit_and flags mask == 0)

abbrev pub set_flags : ℕ → Window → Window
set_flags mask w = record w { flags = bit_or w.flags mask }

abbrev pub clear_flags : ℕ → Window → Window
clear_flags mask w = record w { flags = w.flags - bit_and w.flags mask }

-- `*win = w`
abbrev pub put : ℕ → Window → Wm → Wm
put p w m = record m { store = λ q. if q == p then w else m.store q }

unfoldable pub wm_invalidate_rect : ℤ → ℤ → ℤ → ℤ → Wm → Wm
wm_invalidate_rect x y w h m = record m { dirty = rect x y w h }

-- `wm_invalidate_rect(win->x, win->y, win->full_width, win->full_height)`
abbrev pub invalidate_all : ℕ → Wm → Wm
invalidate_all p m = let w = m.store p in wm_invalidate_rect w.x w.y w.full_width w.full_height m

-- The width and the height with the decorations.
abbrev pub full_w : ℕ → ℤ → ℤ
full_w style w = if has style ws_caption then w +ℤ border_width *ℤ pos 2 else w

abbrev pub full_h : ℕ → ℤ → ℤ
full_h style h = if has style ws_caption then h +ℤ border_width +ℤ titlebar_height else h

-- The loops that put the window at `p` after those of its level and below.
unfoldable pub insert_window : (ℕ → Window) → ℕ → List ℕ → List ℕ
insert_window store p [] = p ∷ []
insert_window store p (q ∷ rest) =
    let later = insert_window store p rest in
    if leb_ℤ (store q).z_order (store p).z_order then q ∷ later else p ∷ q ∷ rest

-- The loops that unlink the window at `p`.
unfoldable pub unlink_window : ℕ → List ℕ → List ℕ
unlink_window p [] = []
unlink_window p (q ∷ rest) = let later = unlink_window p rest in if q == p then rest else q ∷ later

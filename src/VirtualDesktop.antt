-- ===== src/VirtualDesktop.antt =====
-- kernel/virtual_desktop.c: the virtual desktops, their windows and the current one.
-- A `window_t *` is a number; a desktop's window list, threaded through the `next` fields, is the
-- list of its windows, front first: that supposes that no other code changes the `next` field of a
-- window that a desktop holds. `wm_show_window`, which a move to the current desktop calls, does: it
-- relinks the window in the window manager's list through the same field, and that effect is not
-- modelled. Drawing and printing are left out.
pub mod Inv
pub mod Close
use tor_os.Prelude.{
  ℕ, zero, suc, ◌+◌, ◌-◌, ◌*◌, ◌%◌, ◌^◌, Bool, true, false, not, ◌&&◌, List, [], ◌∷◌, ◌++◌, Option,
  none, some, ◌==◌, ltb, leb, if◌then◌else◌, get_or, set, replicate,
}
use tor_os.Prelude.Int.{ℤ, pos, negsuc}
use tor_os.Libc.{copy_name}

abbrev pub max_desktops : ℕ
max_desktops = 8

-- `virtual_desktop_t`; a wallpaper of 0 is NULL.
pub record Desktop : Type 0 where
  pub id : ℕ
  pub name : List ℕ
  pub windows : List ℕ
  pub wallpaper : ℕ
  pub bg_color : ℕ
  pub active : ℕ

abbrev pub blank_desktop : Desktop
blank_desktop = record {
  id = 0;
  name = replicate 32 0;
  windows = [];
  wallpaper = 0;
  bg_color = 0;
  active = 0;
}

-- `virtual_desktop_manager_t`; `hidden` says of each window whether the last call for it was
-- `wm_hide_window` (and not `wm_show_window`).
pub record Manager : Type 0 where
  pub desktops : List Desktop
  pub current_desktop : ℕ
  pub num_desktops : ℕ
  pub initialized : ℕ
  pub hidden : ℕ → Bool

abbrev pub desktop_at : Manager → ℕ → Desktop
desktop_at m i = get_or m.desktops i blank_desktop

abbrev pub put_desktop : Manager → ℕ → Desktop → Manager
put_desktop m i d = record m { desktops = set m.desktops i d }

-- "Desktop 1" to "Desktop 8"
abbrev default_name : ℕ → List ℕ
default_name i = b'D' ∷ b'e' ∷ b's' ∷ b'k' ∷ b't' ∷ b'o' ∷ b'p' ∷ b' ' ∷ (b'1' + i) ∷ []

-- The loop of `vd_init`: `n` rounds from desktop `i`.
unfoldable pub init_desktops : ℕ → ℕ → Manager → Manager
init_desktops zero i m = m
init_desktops (suc n) i m = init_desktops n (i + 1) (
    put_desktop m i (record (desktop_at m i) {
      id = i + 1;
      name = copy_name (desktop_at m i).name (default_name i) 31;
      bg_color = (0xFF0078D7 + i * 0x00101020) % 2 ^ 32;
      active = if i == 0 then 1 else 0;
      windows = [];
      wallpaper = 0;
    }))

abbrev clamp_desktops : ℤ → ℕ
clamp_desktops (pos n) = if ltb n 1 then 1 else if ltb max_desktops n then max_desktops else n
clamp_desktops (negsuc n) = 1

unfoldable pub vd_init : ℤ → (ℕ → Bool) → Manager
unfolding init_desktops
vd_init num hidden =
    let n : ℕ = clamp_desktops num in
    record (init_desktops n 0 (record {
      desktops = replicate max_desktops blank_desktop;
      current_desktop = 0;
      num_desktops = 0;
      initialized = 0;
      hidden = hidden;
    })) { num_desktops = n; current_desktop = 0; initialized = 1 }

-- `!vd_mgr.initialized || desktop_idx < 0 || desktop_idx >= vd_mgr.num_desktops`, as the index that
-- passes.
abbrev pub checked : Manager → ℤ → Option ℕ
checked m (negsuc n) = none
checked m (pos i) =
    if m.initialized == 0 then none else if leb m.num_desktops i then none else some i

abbrev pub set_active : Manager → ℕ → ℕ → Manager
set_active m i a = put_desktop m i (record (desktop_at m i) { active = a })

unfoldable pub vd_switch : ℤ → Manager → Manager
vd_switch desktop_idx m = elim (checked m desktop_idx) [
  | none ↦ m
  | some i ↦
      if i == m.current_desktop
      then m
      else record (set_active (set_active m m.current_desktop 0) i 1) { current_desktop = i }
]

-- "New Desktop"
abbrev new_name : Option (List ℕ) → List ℕ
new_name (some s) = s
new_name none = b'N' ∷ b'e' ∷ b'w' ∷ b' ' ∷ b'D' ∷ b'e' ∷ b's' ∷ b'k' ∷ b't' ∷ b'o' ∷ b'p' ∷ []

unfoldable pub vd_create : Option (List ℕ) → Manager → Manager
vd_create name m =
    if m.initialized == 0
    then m
    else if leb max_desktops m.num_desktops
    then m
    else let n : ℕ = m.num_desktops in
      record (put_desktop m n (record (desktop_at m n) {
        id = n + 1;
        name = copy_name (desktop_at m n).name (new_name name) 31;
        bg_color = 0xFF202040;
        active = 0;
        windows = [];
        wallpaper = 0;
      })) { num_desktops = n + 1 }

-- "Move windows to desktop 0"
unfoldable pub adopt_windows : ℕ → Manager → Manager
adopt_windows i m =
    let m' = put_desktop m 0 (record (desktop_at m 0) {
      windows = (desktop_at m i).windows ++ (desktop_at m 0).windows;
    }) in
    elim (desktop_at m i).windows [
      | [] ↦ m
      | w ∷ ws ↦ put_desktop m' i (record (desktop_at m' i) { windows = [] })
    ]

-- "Shift desktops down": `n` rounds from `i`.
unfoldable pub shift_down : ℕ → ℕ → Manager → Manager
shift_down zero i m = m
shift_down (suc n) i m =
    shift_down n (i + 1) (put_desktop m i (record (desktop_at m (i + 1)) { id = i + 1 }))

unfoldable pub vd_close : ℤ → Manager → Manager
vd_close desktop_idx m = elim (checked m desktop_idx) [
  | none ↦ m
  | some i ↦
      if i == 0
      then m
      else let m1 = shift_down (m.num_desktops - 1 - i) i (adopt_windows i m) in
        let n : ℕ = m.num_desktops - 1 in
        let c : ℕ = if leb n m1.current_desktop then 0 else m1.current_desktop in
        set_active (record m1 { num_desktops = n; current_desktop = c }) c 1
]

-- The inner loop of `vd_move_window_to`: the first occurrence of the window is unlinked.
unfoldable pub unlink : ℕ → List ℕ → List ℕ
unlink win [] = []
unlink win (w ∷ ws) = if w == win then ws else w ∷ unlink win ws

-- "Remove from current desktop": `n` rounds from desktop `i`.
unfoldable pub unlink_all : ℕ → ℕ → ℕ → Manager → Manager
unfolding unlink
unlink_all win zero i m = m
unlink_all win (suc n) i m =
    unlink_all win n (i + 1)
      (put_desktop m i (record (desktop_at m i) { windows = unlink win (desktop_at m i).windows }))

abbrev set_hidden : (ℕ → Bool) → ℕ → Bool → ℕ → Bool
set_hidden h win b w = if win == w then b else h w

-- `win` is `none` for NULL.
unfoldable pub vd_move_window_to : Option ℕ → ℤ → Manager → Manager
unfolding unlink_all
vd_move_window_to none desktop_idx m = m
vd_move_window_to (some win) desktop_idx m = elim (checked m desktop_idx) [
  | none ↦ m
  | some i ↦
      let m1 = unlink_all win m.num_desktops 0 m in
      record (put_desktop m1 i
        (record (desktop_at m1 i) { windows = win ∷ (desktop_at m1 i).windows })) {
          hidden = set_hidden m.hidden win (not (i == m.current_desktop));
        }
]

unfoldable pub vd_get_name : ℤ → Manager → Option (List ℕ)
vd_get_name (negsuc n) m = none
vd_get_name (pos i) m = if leb m.num_desktops i then none else some (desktop_at m i).name

unfoldable pub vd_next : Manager → Manager
unfolding vd_switch
vd_next m =
    let next : ℕ = m.current_desktop + 1 in
    vd_switch (pos (if leb m.num_desktops next then 0 else next)) m

unfoldable pub vd_prev : Manager → Manager
unfolding vd_switch
vd_prev m =
    vd_switch (pos (if m.current_desktop == 0 then m.num_desktops - 1 else m.current_desktop - 1)) m

abbrev pub has_window : ℕ → List ℕ → Bool
has_window win [] = false
has_window win (w ∷ ws) = if w == win then true else has_window win ws

-- The loops of `vd_get_window_desktop`: `n` rounds from desktop `i`; `none` is -1.
unfoldable pub find_window : ℕ → ℕ → ℕ → Manager → Option ℕ
find_window win zero i m = none
find_window win (suc n) i m =
    let rest = find_window win n (i + 1) m in
    if has_window win (desktop_at m i).windows then some i else rest

unfoldable pub vd_get_window_desktop : Option ℕ → Manager → Option ℕ
unfolding find_window
vd_get_window_desktop none m = none
vd_get_window_desktop (some win) m =
    if m.initialized == 0 then none else find_window win m.num_desktops 0 m

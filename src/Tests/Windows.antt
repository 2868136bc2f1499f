-- ===== src/Tests/Windows.antt =====
-- kernel/window.c and kernel/clip.c at concrete inputs.
use tor_os.Prelude.{
  ℕ, ◌*◌, ◌<◌, ◌≤◌, ◌≡◌, ◌≢◌, refl, ap, [], ◌∷◌, none, some, if◌then◌else◌, length, arith, count,
}
use tor_os.Prelude.Int.{ℤ, pos, ◌+ℤ◌, ◌*ℤ◌, ◌≤ℤ◌}
use tor_os.Mm.{Mem, kmalloc}
use tor_os.Mm.Heap.{HeapIsValid}
use tor_os.Clip.{
  rect, Region, region_update_bbox, subtract_each, rect_subtract, clip_region_add_rect,
  clip_region_subtract_rect,
}
use tor_os.Clip.Rects.{inside, hits, one_if}
use tor_os.Clip.Valid.{RegionIsValid, updated-RegionIsValid, clip_region_subtract_rect_lem}
use tor_os.Clip.Add.{clip_region_add_rect_lem}
use tor_os.Wm.{Wm, blank_window, insert_window, unlink_window}
use tor_os.Wm.Stack.{
  wm_init, wm_create_window, wm_show_window, wm_raise_window, shows_at, wm_find_window_at,
}
use tor_os.Wm.Order.{level}
use tor_os.Wm.Valid.{WmIsValid, listed, wm_show_window-WmIsValid}
use tor_os.Wm.Create.{Created, wm_create_window_lem, wm_init-WmIsValid}
use tor_os.Wm.Find.{ShowsIn, Topmost, wm_find_window_at_lem, wm_find_window_at-wm_raise_window}
use tor_os.Wm.Visible.{is_visible, wm_compute_visible_region, visible_region_exact}

-- A heap of sixteen megabytes.
abbrev heap : Mem
heap = record {
  page_bitmap = [];
  total_pages = 0;
  free_page_count = 0;
  bitmap_pages = 0;
  heap_start = 4096;
  heap_end = 16 * 1024 * 1024;
  heap_ptr = 4096;
}

heap-HeapIsValid : HeapIsValid heap
heap-HeapIsValid = record { low = omega arith; high = omega arith; small = omega arith }

-- The region of one rectangle of ten by ten.
abbrev ten : Region
ten = region_update_bbox (record {
  rects = rect (pos 0) (pos 0) (pos 10) (pos 10) ∷ [];
  num_rects = pos 1;
  bbox = rect (pos 0) (pos 0) (pos 0) (pos 0);
})

ten-RegionIsValid : RegionIsValid ten
ten-RegionIsValid = updated-RegionIsValid _ refl (λ px py. ground arith)

-- A hole in the middle leaves four fragments.
middle :
    length (clip_region_subtract_rect (rect (pos 3) (pos 3) (pos 2) (pos 2)) ten heap).0.rects ≡ 4
unfolding clip_region_subtract_rect region_update_bbox subtract_each rect_subtract ◌+ℤ◌ kmalloc
middle = refl

clip_region_subtract_rect_lem_example :
    RegionIsValid (clip_region_subtract_rect (rect (pos 3) (pos 3) (pos 2) (pos 2)) ten heap).0
    × ((px py : ℤ)
        → hits px py
            (clip_region_subtract_rect (rect (pos 3) (pos 3) (pos 2) (pos 2)) ten heap).0.rects
          ≡ (if inside px py (rect (pos 3) (pos 3) (pos 2) (pos 2))
              then 0
              else hits px py ten.rects))
unfolding region_update_bbox
clip_region_subtract_rect_lem_example =
    clip_region_subtract_rect_lem (rect (pos 3) (pos 3) (pos 2) (pos 2)) ten heap ten-RegionIsValid
      (record { room = omega arith; small = omega arith })

clip_region_add_rect_lem_example :
    RegionIsValid (clip_region_add_rect (rect (pos 5) (pos 5) (pos 20) (pos 1)) ten heap).0
    × ((px py : ℤ)
        → (if inside px py (rect (pos 5) (pos 5) (pos 20) (pos 1)) then 1 else hits px py ten.rects)
          ≤ hits px py
              (clip_region_add_rect (rect (pos 5) (pos 5) (pos 20) (pos 1)) ten heap).0.rects)
clip_region_add_rect_lem_example =
    clip_region_add_rect_lem (rect (pos 5) (pos 5) (pos 20) (pos 1)) ten heap ten-RegionIsValid
      (record { room = omega arith; small = omega arith })

-- The desktop alone, at 4096.
abbrev desk : Wm
desk = wm_init (pos 640) (pos 480) (λ p. blank_window) heap

desk-WmIsValid : WmIsValid desk
desk-WmIsValid = wm_init-WmIsValid (pos 640) (pos 480) (λ p. blank_window) heap heap-HeapIsValid

wm_create_window_lem_example :
    WmIsValid (wm_create_window none (pos 10) (pos 10) (pos 100) (pos 80) 2 desk).1
    × Created desk
        (wm_create_window none (pos 10) (pos 10) (pos 100) (pos 80) 2 desk).0
        (wm_create_window none (pos 10) (pos 10) (pos 100) (pos 80) 2 desk).1
wm_create_window_lem_example =
    wm_create_window_lem none (pos 10) (pos 10) (pos 100) (pos 80) 2 desk desk-WmIsValid

-- A window over the desktop.
abbrev two : Wm
two = (wm_create_window none (pos 10) (pos 10) (pos 100) (pos 80) 2 desk).1

two-WmIsValid : WmIsValid two
two-WmIsValid = wm_create_window_lem_example.0

two_list : two.window_list ≡ 4096 ∷ 1233152 ∷ []
unfolding wm_init wm_create_window kmalloc insert_window ◌+ℤ◌ ◌*ℤ◌
two_list = refl

abbrev win : ℕ
win = 1233152

-- The window is shown.
abbrev shown : Wm
shown = wm_show_window (some win) two

two-started : two.initialized ≢ 0
unfolding wm_init wm_create_window kmalloc ◌+ℤ◌ ◌*ℤ◌
two-started = omega arith

two-listed : 0 < listed win two
two-listed = omega (arith, ap (count win) two_list)

shown-WmIsValid : WmIsValid shown
shown-WmIsValid = wm_show_window-WmIsValid win two two-WmIsValid two-started two-listed

shown-started : shown.initialized ≢ 0
unfolding wm_init wm_create_window kmalloc ◌+ℤ◌ ◌*ℤ◌ wm_show_window wm_raise_window
shown-started = omega arith

wm_find_window_at_lem_example :
    Topmost (pos 20) (pos 20) shown (wm_find_window_at (pos 20) (pos 20) shown)
wm_find_window_at_lem_example =
    wm_find_window_at_lem (pos 20) (pos 20) shown shown-WmIsValid shown-started

shown_list : shown.window_list ≡ 4096 ∷ win ∷ []
unfolding wm_init wm_create_window kmalloc insert_window unlink_window ◌+ℤ◌ ◌*ℤ◌ wm_show_window
    wm_raise_window
shown_list = refl

shown_under : (q : ℕ) → level shown.store q ≤ℤ level shown.store win
unfolding wm_init wm_create_window kmalloc insert_window unlink_window ◌+ℤ◌ ◌*ℤ◌ wm_show_window
    wm_raise_window
shown_under q = ground arith

shown_at : ShowsIn (pos 20) (pos 20) shown.store shown.window_list win
unfolding wm_init wm_create_window kmalloc insert_window unlink_window ◌+ℤ◌ ◌*ℤ◌ wm_show_window
    wm_raise_window shows_at
shown_at = (omega arith, refl)

shown_flags : (shown.store win).flags < 128
unfolding wm_init wm_create_window kmalloc insert_window unlink_window ◌+ℤ◌ ◌*ℤ◌ wm_show_window
    wm_raise_window
shown_flags = omega arith

wm_find_window_at-wm_raise_window_example :
    wm_find_window_at (pos 20) (pos 20) (wm_raise_window (some win) shown) ≡ some win
wm_find_window_at-wm_raise_window_example =
    wm_find_window_at-wm_raise_window (pos 20) (pos 20) win shown shown-WmIsValid shown-started
      shown_flags shown_at (λ q h. shown_under q)

shown-listed : 0 < count 4096 shown.window_list
shown-listed = omega (arith, ap (count 4096) shown_list)

visible_region_exact_example :
    hits (pos 20) (pos 20) (wm_compute_visible_region win shown).0.rects
    ≡ one_if (is_visible win shown (pos 20) (pos 20))
unfolding wm_init wm_create_window kmalloc insert_window unlink_window ◌+ℤ◌ ◌*ℤ◌ wm_show_window
    wm_raise_window
visible_region_exact_example =
    visible_region_exact win shown (omega (arith, ap (count win) shown_list))
      (record { room = omega arith; small = omega arith }) (pos 20) (pos 20)

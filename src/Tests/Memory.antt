-- ===== src/Tests/Memory.antt =====
-- kernel/mm.c and libc/string.c at concrete inputs.
use tor_os.Prelude.{
  ℕ, ◌+◌, ◌*◌, ◌/◌, ◌≤◌, ◌<◌, ◌≡◌, ◌⊎◌, refl, true, List, [], ◌∷◌, none, some, arith, replicate,
  length-replicate,
}
use tor_os.Bitmap.{bit_get, replicate-IsBytes}
use tor_os.Bitmap.Scan.{clear_count, first_clear}
use tor_os.Mm.{Mem, heap_size, page_size, page_address, page_alloc, page_free, mm_init}
use tor_os.Mm.Pages.{PagesAreValid, Given, taken, page_alloc_lem, page_free-page_alloc}
use tor_os.Mm.Heap.{HeapIsValid, InOrder, alloc_all, alloc_all-InOrder}
use tor_os.Mm.Boot.{BootInput, mm_init-PagesAreValid, page_alloc-mm_init_in_heap}

abbrev pub end_of_kernel : ℕ
end_of_kernel = 0x4008_0000

-- Sixteen pages, of which the first three are in use.
abbrev pub small_mem : Mem
small_mem = record {
  page_bitmap = 7 ∷ 0 ∷ [];
  total_pages = 16;
  free_page_count = 13;
  bitmap_pages = 1;
  heap_start = 0x1000;
  heap_end = 0x2000;
  heap_ptr = 0x1000;
}

pub small_mem-PagesAreValid : PagesAreValid end_of_kernel small_mem
unfolding clear_count bit_get
small_mem-PagesAreValid = record {
  bytes = (omega arith, (omega arith, tt));
  wide = omega arith;
  counted = refl;
  fits = omega arith;
  aligned = refl;
}

page_alloc_lem_example :
    ((i : ℕ) × (page_alloc end_of_kernel small_mem
        ≡ (some (page_address end_of_kernel small_mem i), taken small_mem i))
      × Given end_of_kernel small_mem (taken small_mem i) (page_address end_of_kernel small_mem i) i
      × PagesAreValid end_of_kernel (taken small_mem i))
    ⊎ ((page_alloc end_of_kernel small_mem ≡ (none, small_mem))
        × ((j : ℕ) → j < 16 → bit_get (7 ∷ 0 ∷ []) j ≡ true))
page_alloc_lem_example = page_alloc_lem end_of_kernel small_mem small_mem-PagesAreValid

page_free-page_alloc_example :
    let m' =
      page_free end_of_kernel
        (page_address end_of_kernel small_mem 3)
        (page_alloc end_of_kernel small_mem).1 in
    ((j : ℕ) → bit_get m'.page_bitmap j ≡ bit_get (7 ∷ 0 ∷ []) j) × (m'.free_page_count ≡ 13)
unfolding page_alloc bit_get
page_free-page_alloc_example =
    page_free-page_alloc end_of_kernel (page_address end_of_kernel small_mem 3) small_mem
      small_mem-PagesAreValid refl

small_mem-HeapIsValid : HeapIsValid small_mem
small_mem-HeapIsValid = record { low = omega arith; high = omega arith; small = omega arith }

alloc_all-InOrder_example :
    InOrder 0x1000
      (alloc_all (24 ∷ 5000 ∷ 100 ∷ []) small_mem).1.heap_ptr
      (alloc_all (24 ∷ 5000 ∷ 100 ∷ []) small_mem).0
    × HeapIsValid (alloc_all (24 ∷ 5000 ∷ 100 ∷ []) small_mem).1
    × ((alloc_all (24 ∷ 5000 ∷ 100 ∷ []) small_mem).1.heap_end ≡ 0x2000)
alloc_all-InOrder_example =
    alloc_all-InOrder (24 ∷ 5000 ∷ 100 ∷ []) small_mem small_mem-HeapIsValid
      (omega arith, (omega arith, (omega arith, tt)))

-- 64 KB of memory behind the kernel, all ones.
abbrev dirty : List ℕ
dirty = replicate 65536 255

dirty-BootInput : BootInput end_of_kernel dirty
dirty-BootInput = record {
  aligned = refl;
  above = omega arith;
  room = omega arith;
  bytes = replicate-IsBytes 65536 255 (omega arith);
  size = omega (arith, length-replicate {A = ℕ} 65536 255);
}

mm_init-PagesAreValid_example : PagesAreValid end_of_kernel (mm_init end_of_kernel dirty)
mm_init-PagesAreValid_example = mm_init-PagesAreValid end_of_kernel dirty dirty-BootInput refl

page_alloc-mm_init_in_heap_example :
    let m = mm_init end_of_kernel dirty in
    let heap_pages = heap_size / page_size in
    (p : ℕ) × ((page_alloc end_of_kernel m).0 ≡ some p)
    × (first_clear m.total_pages 0 m.page_bitmap ≡ some (m.bitmap_pages + heap_pages))
    × (m.heap_start ≡ end_of_kernel + (m.bitmap_pages + heap_pages) * page_size)
    × (p ≡ m.heap_start + m.bitmap_pages * page_size)
    × (1 ≤ m.bitmap_pages)
    × (p + page_size ≤ m.heap_end)
page_alloc-mm_init_in_heap_example = page_alloc-mm_init_in_heap end_of_kernel dirty dirty-BootInput

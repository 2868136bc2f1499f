-- ===== src/Mm.antt =====
-- kernel/mm.c: the page allocator over a bitmap, and the bump allocator behind `kmalloc`.
-- The static variables are the fields of `Mem`; the linker's `_kernel_end` is a parameter.
pub mod Pages
pub mod Heap
pub mod Boot
use tor_os.Prelude.{
  ℕ, zero, suc, ◌+◌, ◌-◌, ◌*◌, ◌/◌, ◌%◌, ◌^◌, Bool, List, Option, none, some, ltb, if◌then◌else◌,
  set,
}
use tor_os.Bitmap.{bit_set, bit_clear}
use tor_os.Bitmap.Scan.{first_clear}

abbrev pub u64 : ℕ → ℕ
u64 x = x % 2 ^ 64

-- `a - b` and `c--` on an unsigned 64-bit word
abbrev pub sub64 : ℕ → ℕ → ℕ
sub64 a b = (a + 2 ^ 64 - b) % 2 ^ 64

abbrev pub page_size : ℕ
page_size = 4096

abbrev pub kernel_base : ℕ
kernel_base = 0x4000_0000

abbrev pub ram_size : ℕ
ram_size = 2048 * 1024 * 1024

abbrev pub heap_size : ℕ
heap_size = 4 * 1024 * 1024

pub record Mem : Type 0 where
  pub page_bitmap : List ℕ
  pub total_pages : ℕ
  pub free_page_count : ℕ
  pub bitmap_pages : ℕ
  pub heap_start : ℕ
  pub heap_end : ℕ
  pub heap_ptr : ℕ

-- `(x + PAGE_SIZE - 1) & ~(PAGE_SIZE - 1)`
abbrev pub page_align : ℕ → ℕ
page_align x = u64 (x + (page_size - 1)) / page_size * page_size

-- `for (i < n) page_bitmap[i] = 0;`, from index `i` on
unfoldable pub zero_bytes : ℕ → ℕ → List ℕ → List ℕ
zero_bytes zero i m = m
zero_bytes (suc n) i m = zero_bytes n (i + 1) (set m i 0)

-- `for (...; n rounds; i++) page_bitmap[i / 8] |= (1 << (i % 8));`
unfoldable pub mark_used : ℕ → ℕ → List ℕ → List ℕ
mark_used zero i m = m
mark_used (suc n) i m = mark_used n (i + 1) (bit_set m i)

-- `ram` is what the bytes at `mem_start` hold before.
unfoldable pub mm_init : ℕ → List ℕ → Mem
unfolding zero_bytes mark_used
mm_init kernel_end ram =
    let mem_start : ℕ = page_align kernel_end in
    let mem_end : ℕ = kernel_base + ram_size in
    let total : ℕ = sub64 mem_end mem_start / page_size in
    let bitmap : ℕ = u64 (total + page_size * 8 - 1) / (page_size * 8) in
    let heap_pages : ℕ = heap_size / page_size in
    let m0 = zero_bytes (total / 8) 0 ram in
    let m1 = mark_used bitmap 0 m0 in
    let m2 = mark_used heap_pages bitmap m1 in
    let start : ℕ = u64 (mem_start + bitmap * page_size + heap_size) in
    record {
      page_bitmap = m2;
      total_pages = total;
      free_page_count = sub64 (sub64 total bitmap) heap_pages;
      bitmap_pages = bitmap;
      heap_start = start;
      heap_end = u64 (start + heap_size);
      heap_ptr = start;
    }

-- The address that `page_alloc` computes for page `i`.
abbrev pub page_address : ℕ → Mem → ℕ → ℕ
page_address kernel_end m i = u64 (kernel_end + (i + m.bitmap_pages) * page_size)

-- `none` is NULL.
unfoldable pub page_alloc : ℕ → Mem → Option ℕ × Mem
unfolding first_clear
page_alloc kernel_end m = elim (first_clear m.total_pages 0 m.page_bitmap) [
  | none ↦ (none, m)
  | some i ↦ (
    some (page_address kernel_end m i),
    record m { page_bitmap = bit_set m.page_bitmap i; free_page_count = sub64 m.free_page_count 1 },
  )
]

-- The index that `page_free` computes from an address.
abbrev pub page_index : ℕ → Mem → ℕ → ℕ
page_index kernel_end m addr =
    sub64 addr (u64 (page_align kernel_end + m.bitmap_pages * page_size)) / page_size

unfoldable pub page_free : ℕ → ℕ → Mem → Mem
page_free kernel_end addr m =
    let idx : ℕ = page_index kernel_end m addr in
    if ltb idx m.total_pages
    then record m {
      page_bitmap = bit_clear m.page_bitmap idx;
      free_page_count = u64 (m.free_page_count + 1);
    }
    else m

unfoldable pub get_free_pages : Mem → ℕ
get_free_pages m = m.free_page_count

-- `(size + 7) & ~7`
abbrev pub align8 : ℕ → ℕ
align8 size = u64 (size + 7) / 8 * 8

unfoldable pub kmalloc : ℕ → Mem → Option ℕ × Mem
kmalloc size m =
    if ltb m.heap_end (u64 (m.heap_ptr + align8 size))
    then (none, m)
    else (some m.heap_ptr, record m { heap_ptr = u64 (m.heap_ptr + align8 size) })

-- `kfree` ignores its argument: the heap is never given back.
abbrev pub kfree : Option ℕ → Mem → Mem
kfree p m = m

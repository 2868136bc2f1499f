-- ===== src/Mm/Boot.antt =====
-- `mm_init`: the two loops that build the bitmap, the state that they leave, and where the first
-- page of `page_alloc` lies.
use tor_os.Prelude.{
  ℕ, zero, suc, ◌+◌, ◌-◌, ◌*◌, ◌/◌, ◌%◌, ◌^◌, ◌≤◌, ◌<◌, ◌≡◌, refl, ap, ◌∙◌, true, false, List, some,
  ltb, leb, arith, inl, inr, ◌==◌, length, ◌||◌, ◌&&◌, set, length-set, get_or, Bool-cases,
}
use tor_os.Bitmap.{
  bit_get, bit_set, IsBytes, bit_get-bit_set, bit_set-IsBytes, length-bit_set, set-IsBytes,
  get_or-set, zero-bit_and,
}
use tor_os.Bitmap.Scan.{first_clear, clear_count, first_clear-at, clear_count-bit_set}
use tor_os.Mm.{
  heap_size, u64, sub64, page_size, page_align, page_address, page_alloc, zero_bytes, mark_used,
  mm_init, kernel_base, ram_size,
}
use tor_os.Mm.Pages.{PagesAreValid, page_alloc-some}

-- What the zeroing loop leaves.
record Zeroed (n i : ℕ) (m m' : List ℕ) : Type 0 where
  bytes : IsBytes m'
  size : length m' ≡ length m
  zeros : (j : ℕ) → i ≤ j → j < i + n → get_or m' j 0 ≡ 0
  rest : (j : ℕ) → j < i → get_or m' j 0 ≡ get_or m j 0

zero_bytes_lem :
    (n i : ℕ) (m : List ℕ) → IsBytes m → i + n ≤ length m → Zeroed n i m (zero_bytes n i m)
unfolding zero_bytes
zero_bytes_lem zero i m b h = record {
  bytes = b;
  size = refl;
  zeros = λ j p q. absurd (omega arith);
  rest = λ j p. refl;
}
zero_bytes_lem (suc n) i m b h =
    let z : Zeroed n (i + 1) (set m i 0) (zero_bytes n (i + 1) (set m i 0)) =
      zero_bytes_lem n (i + 1) (set m i 0) (set-IsBytes m i 0 b (omega arith))
        (omega (arith, length-set m i 0)) in
    let g = λ (j : ℕ). get_or-set m i j 0 (omega arith) in
    record {
      bytes = z.bytes;
      size = z.size ∙ length-set m i 0;
      zeros = λ j p q. elim (Bool-cases (i == j)) [
        | inl e ↦ z.rest j (ground arith) ∙ g j ∙ rw e
        | inr e ↦ z.zeros j (ground arith) (omega arith)
      ];
      rest = λ j p. z.rest j (omega arith) ∙ g j ∙ ground arith;
    }

-- What the marking loop leaves.
record Marked (n i : ℕ) (m m' : List ℕ) : Type 0 where
  bytes : IsBytes m'
  size : length m' ≡ length m
  bits : (j : ℕ) → bit_get m' j ≡ ((leb i j && ltb j (i + n)) || bit_get m j)

mark_used_lem :
    (n i : ℕ) (m : List ℕ) → IsBytes m → i + n ≤ 8 * length m → Marked n i m (mark_used n i m)
unfolding mark_used
mark_used_lem zero i m b h = record { bytes = b; size = refl; bits = λ j. ground arith }
mark_used_lem (suc n) i m b h =
    let len : i / 8 < length m = omega arith in
    let z : Marked n (i + 1) (bit_set m i) (mark_used n (i + 1) (bit_set m i)) =
      mark_used_lem n (i + 1) (bit_set m i) (bit_set-IsBytes m i b)
        (omega (arith, length-bit_set m i)) in
    record {
      bytes = z.bytes;
      size = z.size ∙ length-bit_set m i;
      bits = λ j. ground (arith, z.bits j, bit_get-bit_set m i j b len);
    }

clear_count-mark_used :
    (n i k : ℕ) (m : List ℕ)
    → IsBytes m
    → i + n ≤ k
    → k ≤ 8 * length m
    → ((j : ℕ) → i ≤ j → j < i + n → bit_get m j ≡ false)
    → clear_count k (mark_used n i m) + n ≡ clear_count k m
unfolding mark_used
clear_count-mark_used zero i k m b h w f = omega arith
clear_count-mark_used (suc n) i k m b h w f =
    let len : i / 8 < length m = omega arith in
    omega (
      arith,
      clear_count-bit_set k i m b len (omega arith) (f i (omega arith) (omega arith)),
      clear_count-mark_used n (i + 1) k (bit_set m i) (bit_set-IsBytes m i b) (omega arith)
          (omega (arith, length-bit_set m i))
          (λ j p q. ground (arith, bit_get-bit_set m i j b len, f j (omega arith) (omega arith))),
    )

clear_count_all :
    (k : ℕ) (m : List ℕ) → ((j : ℕ) → j < k → bit_get m j ≡ false) → clear_count k m ≡ k
unfolding clear_count
clear_count_all zero m f = refl
clear_count_all (suc k) m f = ground (arith, f k, clear_count_all k m (λ j p. f j (omega arith)))

-- What `mm_init` needs: `_kernel_end` is aligned, lies in RAM with 16 MB to spare, and the bytes at
-- `mem_start` hold the bitmap.
pub record BootInput (kernel_end : ℕ) (ram : List ℕ) : Type 0 where
  pub aligned : kernel_end % page_size ≡ 0
  pub above : kernel_base ≤ kernel_end
  pub room : kernel_end + 16 * 1024 * 1024 ≤ kernel_base + ram_size
  pub bytes : IsBytes ram
  pub size : kernel_base + ram_size ≤ kernel_end + 8 * length ram * page_size

-- `total_pages` and `bitmap_pages`, as `mm_init` computes them
abbrev total : ℕ → ℕ
total k = sub64 (kernel_base + ram_size) (page_align k) / page_size

abbrev bitmap : ℕ → ℕ
bitmap k = u64 (total k + page_size * 8 - 1) / (page_size * 8)

record Sizes (k : ℕ) (ram : List ℕ) : Type 0 where
  no_shift : page_align k ≡ k
  pages : k + total k * page_size ≡ kernel_base + ram_size
  few : total k ≤ 524288
  some_pages : 4096 ≤ total k
  small : bitmap k ≤ 16
  fits : total k ≤ 8 * length ram

sizes : (k : ℕ) (ram : List ℕ) → BootInput k ram → Sizes k ram
sizes k ram v =
    let e : page_align k ≡ k = omega (arith, v.aligned, v.room) in
    record {
      no_shift = e;
      pages = omega (arith, v.aligned, v.room, v.above);
      few = omega (arith, v.aligned, v.room, v.above);
      some_pages = omega (arith, v.aligned, v.room, v.above);
      small = omega (arith, v.aligned, v.room, v.above);
      fits = omega (arith, v.aligned, v.room, v.above, v.size);
    }

-- The bitmap that `mm_init` leaves: bits are clear from the heap's pages on, up to the last whole
-- byte, and set below.
record Booted (k : ℕ) (m : List ℕ) : Type 0 where
  bytes : IsBytes m
  wide : total k ≤ 8 * length m
  used : (j : ℕ) → j < bitmap k + 1024 → bit_get m j ≡ true
  free : (j : ℕ) → bitmap k + 1024 ≤ j → j < 8 * (total k / 8) → bit_get m j ≡ false
  count : total k % 8 ≡ 0 → clear_count (total k) m + bitmap k + 1024 ≡ total k

zero-bit : (m : List ℕ) (j : ℕ) → get_or m (j / 8) 0 ≡ 0 → bit_get m j ≡ false
unfolding bit_get
zero-bit m j h = rw (h, zero-bit_and (2 ^ (j % 8)))

boot_bitmap : (k : ℕ) (ram : List ℕ) → BootInput k ram → Booted k (mm_init k ram).page_bitmap
unfolding mm_init
boot_bitmap k ram v =
    let s : Sizes k ram = sizes k ram v in
    let m0 = zero_bytes (total k / 8) 0 ram in
    let z : Zeroed (total k / 8) 0 ram m0 =
      zero_bytes_lem (total k / 8) 0 ram v.bytes (omega (arith, s.fits)) in
    let m1 = mark_used (bitmap k) 0 m0 in
    let a : Marked (bitmap k) 0 m0 m1 =
      mark_used_lem (bitmap k) 0 m0 z.bytes
        (omega (arith, s.small, s.some_pages, s.fits, z.size)) in
    let b : Marked 1024 (bitmap k) m1 (mark_used 1024 (bitmap k) m1) =
      mark_used_lem 1024 (bitmap k) m1 a.bytes
        (omega (arith, s.small, s.some_pages, s.fits, z.size, a.size)) in
    let zeros = λ (j : ℕ) (h : j < 8 * (total k / 8)).
      zero-bit m0 j (z.zeros (j / 8) (omega arith) (omega arith)) in
    record {
      bytes = b.bytes;
      wide = omega (arith, s.fits, z.size, a.size, b.size);
      used = λ j h. ground (arith, b.bits j, a.bits j);
      free = λ j h l. ground (arith, b.bits j, a.bits j, zeros j l);
      count = λ e. omega (
        arith,
        clear_count_all (total k) m0 (λ j l. zeros j (omega arith)),
        clear_count-mark_used (bitmap k) 0 (total k) m0 z.bytes
            (omega (arith, s.small, s.some_pages)) (omega (arith, s.fits, z.size))
            (λ j p q. zeros j (omega (arith, s.small, s.some_pages))),
        clear_count-mark_used 1024 (bitmap k) (total k) m1 a.bytes
            (omega (arith, s.small, s.some_pages)) (omega (arith, s.fits, z.size, a.size))
            (λ j p q. ground (arith, a.bits j, zeros j (omega (arith, s.small, s.some_pages)))),
      );
    }

-- `mm_init` establishes the allocator's invariant when `_kernel_end` is a multiple of 32 KB (so
-- that the bitmap has no partial byte), and the counter it sets is the number of free pages.
pub mm_init-PagesAreValid :
    (kernel_end : ℕ) (ram : List ℕ)
    → BootInput kernel_end ram
    → kernel_end % 32768 ≡ 0
    → PagesAreValid kernel_end (mm_init kernel_end ram)
unfolding mm_init
mm_init-PagesAreValid k ram v h =
    let s : Sizes k ram = sizes k ram v in
    let b : Booted k (mm_init k ram).page_bitmap = boot_bitmap k ram v in
    record {
      bytes = b.bytes;
      wide = b.wide;
      counted = omega (arith, b.count (omega (arith, s.pages)), s.small, s.some_pages, s.few);
      fits = omega (arith, s.small, s.few, v.room);
      aligned = v.aligned;
    }

-- After `mm_init` the first free bit is `bitmap_pages + heap_pages`, and the heap starts at the page
-- of that number from `_kernel_end` on, so above the pages that were marked as used for it. The first
-- page that `page_alloc` gives is `bitmap_pages` pages further, at least one, and lies inside the heap
-- that `kmalloc` hands out.
pub page_alloc-mm_init_in_heap :
    (kernel_end : ℕ) (ram : List ℕ)
    → BootInput kernel_end ram
    → let m = mm_init kernel_end ram in
      let heap_pages = heap_size / page_size in
      (p : ℕ) × ((page_alloc kernel_end m).0 ≡ some p)
      × (first_clear m.total_pages 0 m.page_bitmap ≡ some (m.bitmap_pages + heap_pages))
      × (m.heap_start ≡ kernel_end + (m.bitmap_pages + heap_pages) * page_size)
      × (p ≡ m.heap_start + m.bitmap_pages * page_size)
      × (1 ≤ m.bitmap_pages)
      × (p + page_size ≤ m.heap_end)
page_alloc-mm_init_in_heap k ram v =
    let s : Sizes k ram = sizes k ram v in
    let m = mm_init k ram in
    let b : Booted k m.page_bitmap = boot_bitmap k ram v in
    let i : ℕ = bitmap k + 1024 in
    let e : first_clear (total k) 0 m.page_bitmap ≡ some i =
      first_clear-at (total k) 0 m.page_bitmap i (omega arith)
        (omega (arith, s.small, s.some_pages))
        (b.free i (omega arith) (omega (arith, s.small, s.some_pages))) (λ j p q. b.used j q) in
    unfold mm_init in
    (
      page_address k m i,
      ap (λ r. r.0) (page_alloc-some k m i e),
      e,
      omega (arith, s.no_shift, s.small, v.room),
      omega (arith, s.no_shift, s.small, v.room),
      omega (arith, s.some_pages),
      omega (arith, s.no_shift, s.small, v.room),
    )

-- ===== src/Mm/Pages.antt =====
-- `page_alloc` and `page_free`: which page is given, and what the two do to the bitmap and counter.
use tor_os.Prelude.{
  ℕ, zero, suc, ◌+◌, ◌*◌, ◌/◌, ◌%◌, ◌^◌, ◌≤◌, ◌<◌, ◌≡◌, refl, sym, ap, subst, ◌∙◌, Bool, true,
  false, List, Option, none, some, arith, lt→ltb, Bool-cases, Option-cases, inl, inr, ◌==◌, length,
  ◌||◌, ◌⊎◌, ◌&&◌, not,
}
use tor_os.Bitmap.{
  bit_get, bit_set, IsBytes, bit_get-bit_set, bit_get-bit_clear, bit_set-IsBytes, bit_clear-IsBytes,
  length-bit_set, length-bit_clear,
}
use tor_os.Bitmap.Scan.{
  first_clear, clear_count, Found, first_clear-Found, first_clear-none, clear_count-bit_set,
  clear_count-bit_clear,
}
use tor_os.Mm.{Mem, u64, sub64, page_size, page_address, page_index, page_alloc, page_free}

-- The counter counts the clear bits, the array is large enough, no address wraps, and the linker
-- has aligned `_kernel_end` to a page (kernel/linker.ld).
pub record PagesAreValid (kernel_end : ℕ) (m : Mem) : Type 0 where
  pub bytes : IsBytes m.page_bitmap
  pub wide : m.total_pages ≤ 8 * length m.page_bitmap
  pub counted : m.free_page_count ≡ clear_count m.total_pages m.page_bitmap
  pub fits : kernel_end + (m.total_pages + m.bitmap_pages + 1) * page_size < 2 ^ 64
  pub aligned : kernel_end % page_size ≡ 0

pub some-eq : (a b : ℕ) → some a ≡ some b → a ≡ b
some-eq a b h = ground arith

pub none-ne-some : (a : ℕ) → ◌≡◌ {A = Option ℕ} none (some a) → ⊥
none-ne-some a h = cc

pub clear_count-le : (n : ℕ) (m : List ℕ) → clear_count n m ≤ n
unfolding clear_count
clear_count-le zero m = omega arith
clear_count-le (suc n) m = ground (arith, clear_count-le n m)

-- What a successful `page_alloc` did: `i` is the least clear page, only its bit changes, and the
-- counter falls by one.
pub record Given (kernel_end : ℕ) (m m' : Mem) (p i : ℕ) : Type 0 where
  pub address : p ≡ page_address kernel_end m i
  pub in_range : i < m.total_pages
  pub was_free : bit_get m.page_bitmap i ≡ false
  pub least : (j : ℕ) → j < i → bit_get m.page_bitmap j ≡ true
  pub bits : (j : ℕ) → bit_get m'.page_bitmap j ≡ (i == j || bit_get m.page_bitmap j)
  pub count : m'.free_page_count + 1 ≡ m.free_page_count

-- The state in which `page_alloc` leaves the allocator when it gives page `i`.
abbrev pub taken : Mem → ℕ → Mem
taken m i = record m {
  page_bitmap = bit_set m.page_bitmap i;
  free_page_count = sub64 m.free_page_count 1;
}

module _ (kernel_end : ℕ) (m : Mem) where
  pub page_alloc-some :
      (i : ℕ)
      → first_clear m.total_pages 0 m.page_bitmap ≡ some i
      → page_alloc kernel_end m ≡ (some (page_address kernel_end m i), taken m i)
  unfolding page_alloc
  page_alloc-some i e = rw (e, page_alloc)

  page_alloc-none :
      first_clear m.total_pages 0 m.page_bitmap ≡ none → page_alloc kernel_end m ≡ (none, m)
  unfolding page_alloc
  page_alloc-none e = rw (e, page_alloc)

  taken-Given :
      (i : ℕ)
      → PagesAreValid kernel_end m
      → Found m.total_pages 0 m.page_bitmap i
      → Given kernel_end m (taken m i) (page_address kernel_end m i) i
        × PagesAreValid kernel_end (taken m i)
  taken-Given i v f =
      let lt : i < m.total_pages = omega (arith, f.below) in
      let len : i / 8 < length m.page_bitmap = omega (arith, v.wide) in
      let c = clear_count-bit_set m.total_pages i m.page_bitmap v.bytes len lt f.clear in
      let small = clear_count-le m.total_pages m.page_bitmap in
      (
        record {
          address = refl;
          in_range = lt;
          was_free = f.clear;
          least = λ j b. f.least j (omega arith) b;
          bits = λ j. bit_get-bit_set m.page_bitmap i j v.bytes len;
          count = omega (arith, v.counted, v.fits);
        },
        record {
          bytes = bit_set-IsBytes m.page_bitmap i v.bytes;
          wide = omega (arith, v.wide, length-bit_set m.page_bitmap i);
          counted = omega (arith, v.counted, v.fits);
          fits = v.fits;
          aligned = v.aligned;
        },
      )

  -- On a valid allocator `page_alloc` gives the lowest free page, sets its bit and no other, counts
  -- it, and keeps the invariant; it returns NULL, and changes nothing, only if every page is in use.
  pub page_alloc_lem :
      PagesAreValid kernel_end m
      → ((i : ℕ) × (page_alloc kernel_end m ≡ (some (page_address kernel_end m i), taken m i))
          × Given kernel_end m (taken m i) (page_address kernel_end m i) i
          × PagesAreValid kernel_end (taken m i))
        ⊎ ((page_alloc kernel_end m ≡ (none, m))
            × ((j : ℕ) → j < m.total_pages → bit_get m.page_bitmap j ≡ true))
  page_alloc_lem v = elim (Option-cases (first_clear m.total_pages 0 m.page_bitmap)) [
    | inl e ↦ inr (
      page_alloc-none e,
      λ j lt. first_clear-none m.total_pages 0 m.page_bitmap e j (omega arith) (omega arith),
    )
    | inr (i, e) ↦
        let t = taken-Given i v (first_clear-Found m.total_pages 0 m.page_bitmap i e) in
        inl (i, page_alloc-some i e, t.0, t.1)
  ]

  -- An address of the allocator names its page again.
  page_index-page_address :
      (i : ℕ)
      → PagesAreValid kernel_end m
      → i < m.total_pages
      → page_index kernel_end m (page_address kernel_end m i) ≡ i
  page_index-page_address i v lt = omega (arith, v.fits, v.aligned)

  -- `page_free` of a page in use clears its bit and no other, counts it, and keeps the invariant.
  pub page_free_lem :
      (i : ℕ)
      → PagesAreValid kernel_end m
      → i < m.total_pages
      → bit_get m.page_bitmap i ≡ true
      → let m' = page_free kernel_end (page_address kernel_end m i) m in
        ((j : ℕ) → bit_get m'.page_bitmap j ≡ (not (i == j) && bit_get m.page_bitmap j))
        × (m'.free_page_count ≡ m.free_page_count + 1)
        × PagesAreValid kernel_end m'
  unfolding page_free
  page_free_lem i v lt used =
      let len : i / 8 < length m.page_bitmap = omega (arith, v.wide) in
      let c = clear_count-bit_clear m.total_pages i m.page_bitmap v.bytes len lt used in
      let small = clear_count-le m.total_pages m.page_bitmap in
      let e : u64 (m.free_page_count + 1) ≡ m.free_page_count + 1 = omega arith in
      rw (page_index-page_address i v lt) (
        rw (lt→ltb _ _ lt) (
          (λ j. bit_get-bit_clear m.page_bitmap i j v.bytes len),
          e,
          record {
            bytes = bit_clear-IsBytes m.page_bitmap i v.bytes;
            wide = omega (arith, v.wide, length-bit_clear m.page_bitmap i);
            counted = omega (arith, v.counted);
            fits = v.fits;
            aligned = v.aligned;
          },
        ))

restored :
    (a : Bool) (i j : ℕ) (f : ℕ → Bool)
    → f i ≡ false
    → a ≡ (i == j || f j)
    → (not (i == j) && a) ≡ f j
restored a i j f h e = elim (Bool-cases (i == j)) [
  | inl q ↦ let r : i ≡ j = ground arith in rw q (sym (subst (λ x. f x ≡ false) r h))
  | inr q ↦ rw q (e ∙ ap (λ b. b || f j) q)
]

-- Giving a page back undoes `page_alloc`: on a valid allocator, if `page_alloc` returns a page and
-- `page_free` is called on it at once, every bit and the counter are as before.
pub page_free-page_alloc :
    (kernel_end p : ℕ) (m : Mem)
    → PagesAreValid kernel_end m
    → (page_alloc kernel_end m).0 ≡ some p
    → let m' = page_free kernel_end p (page_alloc kernel_end m).1 in
      ((j : ℕ) → bit_get m'.page_bitmap j ≡ bit_get m.page_bitmap j)
      × (m'.free_page_count ≡ m.free_page_count)
page_free-page_alloc kernel_end p m v h = elim (page_alloc_lem kernel_end m v) [
  | inl (i, e, g, v') ↦
      let q : p ≡ page_address kernel_end m i = some-eq _ _ (sym h ∙ ap (λ r. r.0) e) in
      let used : bit_get (taken m i).page_bitmap i ≡ true = g.bits i ∙ ground arith in
      let f = page_free_lem kernel_end (taken m i) i v' g.in_range used in
      rw (q, e)
        ((λ j. f.0 j ∙ restored _ i j (bit_get m.page_bitmap) g.was_free (g.bits j)), f.1 ∙ g.count)
  | inr (e, all) ↦ absurd (none-ne-some p (sym (ap (λ r. r.0) e) ∙ h))
]

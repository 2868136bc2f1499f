-- ===== src/DmaBuf/Pages.antt =====
-- kernel/dmabuf.c: the memory behind a DMA buffer.
use tor_os.Prelude.{ℕ, ◌+◌, ◌^◌, ◌≤◌, ◌<◌, ◌≡◌, refl, ap, ◌∙◌, false, some, arith, ◌==◌}
use tor_os.Mm.{Mem, page_size, page_address, page_alloc, kmalloc}
use tor_os.Mm.Pages.{PagesAreValid}
use tor_os.DmaBuf.{Bufs, cleared, zero_fill, fill_handle, dmabuf_create, handle_size}

module _ (kernel_end size p i : ℕ) (b : Bufs) where
  created :
      (b.initialized == 0) ≡ false
      → (size == 0) ≡ false
      → (m : Mem) → kmalloc handle_size b.mem ≡ (some p, m)
      → (m' : Mem) → page_alloc kernel_end m ≡ (some (page_address kernel_end m i), m')
      → dmabuf_create kernel_end size b
        ≡ (some p, fill_handle size p (page_address kernel_end m i) (record b { mem = m' }))
  unfolding dmabuf_create
  created on size_ok m e m' f = rw (on, size_ok, e, e, f, e, f) refl

  -- `dmabuf_create` of more than 4096 bytes, when it is given page `i`, clears the page after it too,
  -- whether that page is in use or not: every byte of page `i + 1` is 0 after the call.
  pub dmabuf_create_clears_next :
      (b.initialized == 0) ≡ false
      → page_size < size
      → size < 2 ^ 31
      → (m : Mem) → kmalloc handle_size b.mem ≡ (some p, m)
      → PagesAreValid kernel_end m
      → i + 1 < m.total_pages
      → (m' : Mem) → page_alloc kernel_end m ≡ (some (page_address kernel_end m i), m')
      → (o : ℕ) → o < page_size
      → (dmabuf_create kernel_end size b).1.ram (page_address kernel_end m (i + 1) + o) ≡ 0
  dmabuf_create_clears_next on big small m e v lt m' f o h =
      let z : (size == 0) ≡ false = ground arith in
      let step : page_address kernel_end m (i + 1) ≡ page_address kernel_end m i + page_size =
        omega (arith, v.fits) in
      ap (λ r. r.1.ram (page_address kernel_end m (i + 1) + o)) (created on z m e m' f)
      ∙ inside (page_address kernel_end m i) (page_address kernel_end m (i + 1) + o) (omega arith)
          (omega arith)
    where
      inside : (q a : ℕ) → q ≤ a → a < q + cleared size → zero_fill b.ram q (cleared size) a ≡ 0
      inside q a low high = ground arith

-- ===== src/Fs/Store.antt =====
-- kernel/fs.c: `alloc_block` and `free_block`, and the block bitmap that they keep.
use tor_os.Prelude.{
  ℕ, zero, suc, ◌+◌, ◌*◌, ◌/◌, ◌^◌, ◌≤◌, ◌<◌, ◌≡◌, sym, ◌∙◌, true, false, List, none, some, arith,
  lt→ltb, Option-cases, inl, inr, ◌==◌, length, ◌||◌, ◌⊎◌, ◌&&◌, not,
}
use tor_os.Bitmap.{
  bit_get, bit_set, bit_clear, IsBytes, bit_get-bit_set, bit_get-bit_clear, bit_set-IsBytes,
  bit_clear-IsBytes, length-bit_set, length-bit_clear,
}
use tor_os.Bitmap.Scan.{
  first_clear, clear_count, Found, first_clear-Found, first_clear-none, clear_count-bit_set,
  clear_count-bit_clear,
}
use tor_os.Mm.Pages.{clear_count-le}
use tor_os.Fs.{Disk, alloc_block, free_block, u32, sub32}

-- Block 0 is in use, the counter counts the clear bits, and the bitmap has a bit for each block.
pub record DiskIsValid (d : Disk) : Type 0 where
  pub bytes : IsBytes d.block_bitmap
  pub wide : d.total_blocks ≤ 8 * length d.block_bitmap
  pub counted : d.free_blocks ≡ clear_count d.total_blocks d.block_bitmap
  pub small : d.total_blocks < 2 ^ 32
  pub reserved : bit_get d.block_bitmap 0 ≡ true

-- The block store with block `i` given.
abbrev pub given : Disk → ℕ → Disk
given d i = record d {
  block_bitmap = bit_set d.block_bitmap i;
  free_blocks = sub32 d.free_blocks 1;
}

-- What giving block `i` changed.
pub record Gave (d d' : Disk) (i : ℕ) : Type 0 where
  pub in_range : i < d.total_blocks
  pub not_reserved : 0 < i
  pub was_free : bit_get d.block_bitmap i ≡ false
  pub least : (j : ℕ) → j < i → bit_get d.block_bitmap j ≡ true
  pub bits : (j : ℕ) → bit_get d'.block_bitmap j ≡ (i == j || bit_get d.block_bitmap j)
  pub count : d'.free_blocks + 1 ≡ d.free_blocks
  pub valid : DiskIsValid d'

true-ne-false : true ≡ false → ⊥
true-ne-false h = cc

positive : (m : List ℕ) (i : ℕ) → bit_get m 0 ≡ true → bit_get m i ≡ false → 0 < i
positive m zero a b = absurd (true-ne-false (sym a ∙ b))
positive m (suc i) a b = omega arith

module _ (d : Disk) where
  alloc_block-some :
      (i : ℕ)
      → first_clear d.total_blocks 0 d.block_bitmap ≡ some i
      → alloc_block d ≡ (some i, given d i)
  unfolding alloc_block
  alloc_block-some i e = rw (e, alloc_block)

  alloc_block-none : first_clear d.total_blocks 0 d.block_bitmap ≡ none → alloc_block d ≡ (none, d)
  unfolding alloc_block
  alloc_block-none e = rw (e, alloc_block)

  given-Gave :
      (i : ℕ) → DiskIsValid d → Found d.total_blocks 0 d.block_bitmap i → Gave d (given d i) i
  given-Gave i v f =
      let lt : i < d.total_blocks = omega (arith, f.below) in
      let len : i / 8 < length d.block_bitmap = omega (arith, v.wide) in
      let c = clear_count-bit_set d.total_blocks i d.block_bitmap v.bytes len lt f.clear in
      let le = clear_count-le d.total_blocks d.block_bitmap in
      record {
        in_range = lt;
        not_reserved = positive d.block_bitmap i v.reserved f.clear;
        was_free = f.clear;
        least = λ j b. f.least j (omega arith) b;
        bits = λ j. bit_get-bit_set d.block_bitmap i j v.bytes len;
        count = omega (arith, v.counted, v.small);
        valid = record {
          bytes = bit_set-IsBytes d.block_bitmap i v.bytes;
          wide = omega (arith, v.wide, length-bit_set d.block_bitmap i);
          counted = omega (arith, v.counted, v.small);
          small = v.small;
          reserved = bit_get-bit_set d.block_bitmap i 0 v.bytes len ∙ ground (arith, v.reserved);
        };
      }

  -- On a valid block store `alloc_block` gives the lowest free block, which is not block 0, sets
  -- its bit and no other, counts it, and keeps the store valid; it returns -1, and changes nothing,
  -- only if every block is in use.
  pub alloc_block_lem :
      DiskIsValid d
      → ((i : ℕ) × (alloc_block d ≡ (some i, given d i)) × Gave d (given d i) i)
        ⊎ ((alloc_block d ≡ (none, d))
            × ((j : ℕ) → j < d.total_blocks → bit_get d.block_bitmap j ≡ true))
  alloc_block_lem v = elim (Option-cases (first_clear d.total_blocks 0 d.block_bitmap)) [
    | inl e ↦ inr (
      alloc_block-none e,
      λ j lt. first_clear-none d.total_blocks 0 d.block_bitmap e j (omega arith) (omega arith),
    )
    | inr (i, e) ↦ inl (
      i,
      alloc_block-some i e,
      given-Gave i v (first_clear-Found d.total_blocks 0 d.block_bitmap i e),
    )
  ]

  -- `free_block` of a block in use other than block 0 clears its bit and no other, counts it, and
  -- keeps the store valid.
  pub free_block_lem :
      (i : ℕ)
      → DiskIsValid d
      → 0 < i
      → i < d.total_blocks
      → bit_get d.block_bitmap i ≡ true
      → ((j : ℕ)
          → bit_get (free_block i d).block_bitmap j ≡ (not (i == j) && bit_get d.block_bitmap j))
        × ((free_block i d).free_blocks ≡ d.free_blocks + 1)
        × DiskIsValid (free_block i d)
  unfolding free_block
  free_block_lem i v h lt used =
      let len : i / 8 < length d.block_bitmap = omega (arith, v.wide) in
      let c = clear_count-bit_clear d.total_blocks i d.block_bitmap v.bytes len lt used in
      let le = clear_count-le d.total_blocks (bit_clear d.block_bitmap i) in
      let e : u32 (d.free_blocks + 1) ≡ d.free_blocks + 1 = omega (arith, v.counted, v.small) in
      rw (lt→ltb _ _ lt) (
        (λ j. bit_get-bit_clear d.block_bitmap i j v.bytes len),
        e,
        record {
          bytes = bit_clear-IsBytes d.block_bitmap i v.bytes;
          wide = omega (arith, v.wide, length-bit_clear d.block_bitmap i);
          counted = omega (arith, v.counted);
          small = v.small;
          reserved = bit_get-bit_clear d.block_bitmap i 0 v.bytes len ∙ ground (arith, v.reserved);
        },
      )

-- ===== src/Fs/Total.antt =====
-- kernel/fs.c: the loops of `tfs_write` and `tfs_read` end within their six rounds.
use tor_os.Prelude.{
  ℕ, zero, suc, ◌+◌, ◌-◌, ◌/◌, ◌%◌, ◌^◌, ◌≤◌, ◌<◌, ◌≡◌, ◌⊎◌, refl, ◌∙◌, true, false, List, none,
  some, arith, ◌==◌, ltb, leb, if◌then◌else◌, get_or, set, Bool-cases, Option-cases, inl, inr,
}
use tor_os.Libc.Search.{is_some}
use tor_os.Fs.{
  u32, sub32, block_size, blocks_per_file, max_file_size, Disk, Tfs, file_at, find_file,
  alloc_block, get_block_data,
}
use tor_os.Fs.Io.{
  Writing, write_loop, write_size, tfs_write, rounds, slot_block, put_chunk, chunk, memcpy, Reading,
  read_loop, tfs_read,
}

-- One round, from `written` and `at`: either all is done after it, or the next block begins.
advance :
    (size written at : ℕ)
    → size < 2 ^ 32
    → written < size
    → at < max_file_size
    → let n = chunk (at % block_size) size written in
      (u32 (written + n) ≡ size) ⊎ (u32 (at + n) / block_size ≡ at / block_size + 1)
advance size written at small more inside =
    elim (Bool-cases (ltb (sub32 size written) (block_size - at % block_size))) [
      | inl e ↦ inl (ground arith)
      | inr e ↦ inr (ground arith)
    ]

-- A slot's block leaves the loop's position as it is.
slot_block-cases :
    (idx : ℕ) (w : Writing)
    → (slot_block idx w ≡ none)
      ⊎ ((b : ℕ) × (d : Disk) × (bs : List ℕ) × (slot_block idx w
            ≡ some (b, record w { disk = d; blocks = bs })))
unfolding slot_block
slot_block-cases idx w = elim (Bool-cases (get_or w.blocks idx 0 == 0)) [
  | inr e ↦ inr (get_or w.blocks idx 0, w.disk, w.blocks, rw (e, slot_block) refl)
  | inl e ↦ elim (Option-cases (alloc_block w.disk).0) [
    | inl q ↦ inl (rw (e, slot_block) (rw q refl))
    | inr (b, q) ↦
        inr (b, (alloc_block w.disk).1, set w.blocks idx b, rw (e, slot_block) (rw q refl))
  ]
]

write_done :
    (fuel : ℕ) (src : ℕ → ℕ) (size : ℕ) (w : Writing)
    → (leb size w.written ≡ true) ⊎ (leb blocks_per_file (w.at / block_size) ≡ true)
    → write_loop (suc fuel) src size w ≡ some w
unfolding write_loop
write_done fuel src size w (inl e) = rw (e, write_loop) refl
write_done fuel src size w (inr e) = elim (Bool-cases (leb size w.written)) [
  | inl f ↦ rw (f, write_loop) refl
  | inr f ↦ rw (f, write_loop) (rw e refl)
]

module _ (fuel : ℕ) (src : ℕ → ℕ) (size : ℕ) (w : Writing) where
  -- No block, or one out of range, ends the loop; otherwise the round copies and goes on.
  write_round :
      leb size w.written ≡ false
      → leb blocks_per_file (w.at / block_size) ≡ false
      → ((w' : Writing) × (write_loop (suc fuel) src size w ≡ some w'))
        ⊎ ((b a : ℕ) × (d : Disk) × (bs : List ℕ) × (write_loop (suc fuel) src size w
              ≡ write_loop fuel src size
                  (put_chunk src size b a (record w { disk = d; blocks = bs }))))
  unfolding write_loop
  write_round e f = elim (slot_block-cases (w.at / block_size) w) [
    | inl q ↦ inl (w, rw (e, write_loop) (rw f (rw q refl)))
    | inr (b, d, bs, q) ↦ elim (Option-cases (get_block_data b d)) [
      | inl g ↦
          inl (record w { disk = d; blocks = bs }, rw (e, write_loop) (rw f (rw q (rw g refl))))
      | inr (a, g) ↦ inr (b, a, d, bs, rw (e, write_loop) (rw f (rw q (rw g refl))))
    ]
  ]

-- Fuel for the rounds that are left: one if all is written, else one for each block to come and two.
abbrev Enough : ℕ → ℕ → ℕ → ℕ → Type 0
Enough fuel size written at = (1 ≤ fuel) × ((size ≤ written) ⊎ (6 ≤ fuel + at / block_size))

next_round :
    (fuel size written at : ℕ)
    → size < 2 ^ 32
    → leb size written ≡ false
    → leb blocks_per_file (at / block_size) ≡ false
    → Enough (suc fuel) size written at
    → let n = chunk (at % block_size) size written in
      Enough fuel size (u32 (written + n)) (u32 (at + n))
next_round fuel size written at small e f (one, inl h) = absurd (ground arith)
next_round fuel size written at small e f (one, inr h) =
    let more : written < size = ground arith in
    let inside : at < max_file_size = ground arith in
    elim (advance size written at small more inside) [
      | inl q ↦ (omega arith, inl (omega arith))
      | inr q ↦ (omega arith, inr (omega arith))
    ]

write_loop_ends :
    (fuel : ℕ) (src : ℕ → ℕ) (size : ℕ) (w : Writing)
    → size < 2 ^ 32
    → Enough fuel size w.written w.at
    → (w' : Writing) × (write_loop fuel src size w ≡ some w')
write_loop_ends zero src size w small h = absurd (omega (arith, h.0))
write_loop_ends (suc fuel) src size w small h = elim (Bool-cases (leb size w.written)) [
  | inl e ↦ (w, write_done fuel src size w (inl e))
  | inr e ↦ elim (Bool-cases (leb blocks_per_file (w.at / block_size))) [
    | inl f ↦ (w, write_done fuel src size w (inr f))
    | inr f ↦ elim (write_round fuel src size w e f) [
      | inl r ↦ r
      | inr (b, a, d, bs, q) ↦
          let rest =
            write_loop_ends fuel src size
              (put_chunk src size b a (record w { disk = d; blocks = bs })) small
              (next_round fuel size w.written w.at small e f h) in
          (rest.0, q ∙ rest.1)
    ]
  ]
]

-- The state of a reader after one round.
abbrev read_chunk : ℕ → ℕ → Disk → Reading → Reading
read_chunk size a d r =
    let off : ℕ = r.at % block_size in
    let n : ℕ = chunk off size r.done in
    record {
      dst = memcpy r.dst r.done d.block_data (a + off) n;
      done = u32 (r.done + n);
      at = u32 (r.at + n);
    }

module _ (d : Disk) (blocks : List ℕ) (size : ℕ) where
  read_round :
      (fuel : ℕ) (r : Reading)
      → leb size r.done ≡ false
      → leb blocks_per_file (r.at / block_size) ≡ false
      → (read_loop (suc fuel) d blocks size r ≡ some r)
        ⊎ ((a : ℕ) × (read_loop (suc fuel) d blocks size r
              ≡ read_loop fuel d blocks size (read_chunk size a d r)))
  unfolding read_loop
  read_round fuel r e f = elim (Bool-cases (get_or blocks (r.at / block_size) 0 == 0)) [
    | inl g ↦ inl (rw (e, read_loop) (rw f (rw g refl)))
    | inr g ↦ elim (Option-cases (get_block_data (get_or blocks (r.at / block_size) 0) d)) [
      | inl q ↦ inl (rw (e, read_loop) (rw f (rw g (rw q refl))))
      | inr (a, q) ↦ inr (a, rw (e, read_loop) (rw f (rw g (rw q refl))))
    ]
  ]

  read_loop_ends :
      (fuel : ℕ) (r : Reading)
      → size < 2 ^ 32
      → Enough fuel size r.done r.at
      → (r' : Reading) × (read_loop fuel d blocks size r ≡ some r')
  unfolding read_loop
  read_loop_ends zero r small h = absurd (omega (arith, h.0))
  read_loop_ends (suc fuel) r small h = elim (Bool-cases (leb size r.done)) [
    | inl e ↦ (r, rw (e, read_loop) refl)
    | inr e ↦ elim (Bool-cases (leb blocks_per_file (r.at / block_size))) [
      | inl f ↦ (r, rw (e, read_loop) (rw f refl))
      | inr f ↦ elim (read_round fuel r e f) [
        | inl q ↦ (r, q)
        | inr (a, q) ↦
            let rest =
              read_loop_ends fuel (read_chunk size a d r) small
                (next_round fuel size r.done r.at small e f h) in
            (rest.0, q ∙ rest.1)
      ]
    ]
  ]

module _ (name : List ℕ) (bytes : ℕ → ℕ) (size offset now : ℕ) (t : Tfs) where
  write_absent :
      find_file name t.files ≡ none → is_some (tfs_write name bytes size offset now t) ≡ true
  unfolding tfs_write
  write_absent e = rw (e, tfs_write) refl

  read_absent : find_file name t.files ≡ none → is_some (tfs_read name bytes size offset t) ≡ true
  unfolding tfs_read
  read_absent e = rw (e, tfs_read) refl

  write_found :
      size < 2 ^ 32
      → (i : ℕ) → find_file name t.files ≡ some i
      → is_some (tfs_write name bytes size offset now t) ≡ true
  unfolding tfs_write
  write_found small i e =
      let w =
        write_loop_ends rounds bytes (write_size size offset)
          (record { disk = t.disk; blocks = (file_at t.files i).blocks; written = 0; at = offset })
          (ground arith) (omega arith, inr (omega arith)) in
      rw (e, tfs_write) (rw (w.1) refl)

  read_found :
      size < 2 ^ 32
      → (i : ℕ) → find_file name t.files ≡ some i
      → is_some (tfs_read name bytes size offset t) ≡ true
  unfolding tfs_read
  read_found small i e =
      let f = file_at t.files i in
      let n : ℕ = if ltb f.size (u32 (offset + size)) then sub32 f.size offset else size in
      let r =
        read_loop_ends t.disk f.blocks n rounds (record { dst = bytes; done = 0; at = offset })
          (ground arith) (omega arith, inr (omega arith)) in
      elim (Bool-cases (leb f.size offset)) [
        | inl q ↦ rw (e, tfs_read) (rw q refl)
        | inr q ↦ rw (e, tfs_read) (rw q (rw (r.1) refl))
      ]

  -- The six rounds given to `tfs_write` and to `tfs_read` are enough: for every name, size, offset
  -- and state both return.
  pub tfs_write-tfs_read_total :
      size < 2 ^ 32
      → (is_some (tfs_write name bytes size offset now t) ≡ true)
        × (is_some (tfs_read name bytes size offset t) ≡ true)
  tfs_write-tfs_read_total small = elim (Option-cases (find_file name t.files)) [
    | inl e ↦ (write_absent e, read_absent e)
    | inr (i, e) ↦ (write_found small i e, read_found small i e)
  ]

-- ===== src/Fs/Io.antt =====
-- kernel/fs.c: reading and writing a file. A `uint8 *` to data is the function from offsets to
-- bytes.
use tor_os.Prelude.{
  ℕ, zero, suc, ◌+◌, ◌-◌, ◌/◌, ◌%◌, not, ◌&&◌, List, Option, none, some, ◌==◌, ltb, leb,
  if◌then◌else◌, get_or, set,
}
use tor_os.Prelude.Int.{ℤ, pos, negsuc}
use tor_os.Fs.{
  u32, sub32, block_size, blocks_per_file, max_file_size, Disk, Tfs, alloc_block, file_at,
  find_file, get_block_data,
}

-- `memcpy(mem + at, src + from, n)`
abbrev pub memcpy : (ℕ → ℕ) → ℕ → (ℕ → ℕ) → ℕ → ℕ → ℕ → ℕ
memcpy mem at src from n a = if leb at a && ltb a (at + n) then src (from + (a - at)) else mem a

-- The loop variables of `tfs_write`.
pub record Writing : Type 0 where
  pub disk : Disk
  pub blocks : List ℕ
  pub written : ℕ
  pub at : ℕ

-- "if (f->blocks[block_idx] == 0)": the block for a slot, allocated if there is none.
unfoldable pub slot_block : ℕ → Writing → Option (ℕ × Writing)
unfolding alloc_block
slot_block idx w =
    if not (get_or w.blocks idx 0 == 0)
    then some (get_or w.blocks idx 0, w)
    else let (blk, d) = alloc_block w.disk in
      elim blk [
        | none ↦ none
        | some b ↦ some (b, record w { disk = d; blocks = set w.blocks idx b })
      ]

-- `to_write`: the rest of the block, or of the data.
abbrev pub chunk : ℕ → ℕ → ℕ → ℕ
chunk off size done =
    let room : ℕ = block_size - off in if ltb (sub32 size done) room then sub32 size done else room

-- The copy of one round of `tfs_write`, into the block `b`.
abbrev pub put_chunk : (ℕ → ℕ) → ℕ → ℕ → ℕ → Writing → Writing
put_chunk src size b a w =
    let off : ℕ = w.at % block_size in
    let n : ℕ = chunk off size w.written in
    record w {
      disk = record w.disk { block_data = memcpy w.disk.block_data (a + off) src w.written n };
      written = u32 (w.written + n);
      at = u32 (w.at + n);
    }

-- The loop of `tfs_write` on fuel; `none` is out of fuel.
unfoldable pub write_loop : ℕ → (ℕ → ℕ) → ℕ → Writing → Option Writing
write_loop zero src size w = none
write_loop (suc fuel) src size w =
    if leb size w.written
    then some w
    else if leb blocks_per_file (w.at / block_size)
    then some w
    else elim (slot_block (w.at / block_size) w) [
      | none ↦ some w
      | some (b, w') ↦ elim (get_block_data b w'.disk) [
        | none ↦ some w'
        | some a ↦ write_loop fuel src size (put_chunk src size b a w')
      ]
    ]

-- A file takes four rounds at most, and one that ends the loop.
abbrev pub rounds : ℕ
rounds = 6

-- "if (offset + size > TFS_MAX_FILE_SIZE) size = TFS_MAX_FILE_SIZE - offset"
abbrev pub write_size : ℕ → ℕ → ℕ
write_size size offset =
    if ltb max_file_size (u32 (offset + size)) then sub32 max_file_size offset else size

unfoldable pub tfs_write : List ℕ → (ℕ → ℕ) → ℕ → ℕ → ℕ → Tfs → Option (ℤ × Tfs)
unfolding find_file write_loop
tfs_write name src size offset now t = elim (find_file name t.files) [
  | none ↦ some (negsuc 0, t)
  | some i ↦
      let f = file_at t.files i in
      elim (write_loop rounds src (write_size size offset)
        (record { disk = t.disk; blocks = f.blocks; written = 0; at = offset })) [
          | none ↦ none
          | some w ↦ some (
            pos w.written,
            record t {
              disk = w.disk;
              files = set t.files i (record f {
                blocks = w.blocks;
                size = if ltb f.size w.at then w.at else f.size;
                mtime = now;
              });
            },
          )
        ]
]

-- The loop variables of `tfs_read`; `dst` is the caller's buffer.
pub record Reading : Type 0 where
  pub dst : ℕ → ℕ
  pub done : ℕ
  pub at : ℕ

unfoldable pub read_loop : ℕ → Disk → List ℕ → ℕ → Reading → Option Reading
read_loop zero d blocks size r = none
read_loop (suc fuel) d blocks size r =
    if leb size r.done
    then some r
    else if leb blocks_per_file (r.at / block_size)
    then some r
    else if get_or blocks (r.at / block_size) 0 == 0
    then some r
    else elim (get_block_data (get_or blocks (r.at / block_size) 0) d) [
      | none ↦ some r
      | some a ↦
          let off : ℕ = r.at % block_size in
          let n : ℕ = chunk off size r.done in
          read_loop fuel d blocks size (record {
            dst = memcpy r.dst r.done d.block_data (a + off) n;
            done = u32 (r.done + n);
            at = u32 (r.at + n);
          })
    ]

-- The result and the buffer.
unfoldable pub tfs_read : List ℕ → (ℕ → ℕ) → ℕ → ℕ → Tfs → Option (ℤ × (ℕ → ℕ))
unfolding find_file read_loop
tfs_read name buf size offset t = elim (find_file name t.files) [
  | none ↦ some (negsuc 0, buf)
  | some i ↦
      let f = file_at t.files i in
      if leb f.size offset
      then some (pos 0, buf)
      else elim (read_loop rounds t.disk f.blocks
          (if ltb f.size (u32 (offset + size)) then sub32 f.size offset else size)
          (record { dst = buf; done = 0; at = offset })) [
            | none ↦ none
            | some r ↦ some (pos r.done, r.dst)
          ]
]

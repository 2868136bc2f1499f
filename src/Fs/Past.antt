-- ===== src/Fs/Past.antt =====
-- kernel/fs.c: `tfs_write` at an offset past the largest file.
use tor_os.Prelude.{
  ℕ, ◌/◌, ◌≤◌, ◌<◌, ◌≡◌, refl, ap, true, List, some, arith, leb, set, length, lt→ltb, Bool-cases,
  inl, inr,
}
use tor_os.Prelude.Int.{pos, as_int}
use tor_os.Fs.{max_file_size, Tfs, file_at, find_file, tfs_size, max_files}
use tor_os.Search.{first-IsFirst}
use tor_os.Fs.Names.{named_at, find_file-keep}
use tor_os.Fs.Table.{file_at-hit}
use tor_os.Fs.Io.{Writing, write_loop, write_size, tfs_write, rounds}

-- The state after the call: the file at `i` has the size `size`, and no byte is written.
abbrev pub stretched : ℕ → ℕ → ℕ → Tfs → Tfs
stretched i size now t = record t {
  files = set t.files i (record (file_at t.files i) { size = size; mtime = now });
}

le-leb : (a b : ℕ) → a ≤ b → leb a b ≡ true
le-leb a b h = ground arith

-- The loop ends in its first round.
write_loop-past :
    (src : ℕ → ℕ) (size : ℕ) (w : Writing)
    → max_file_size ≤ w.at
    → write_loop rounds src size w ≡ some w
unfolding write_loop
write_loop-past src size w h = elim (Bool-cases (leb size w.written)) [
  | inl e ↦ rw e refl
  | inr e ↦ rw (e, le-leb 4 (w.at / 1024) (omega arith)) refl
]

-- `tfs_write` to a file at an offset past the largest file size, where the file's size is below the
-- offset, writes nothing and returns 0, and yet makes the file's size the offset: `tfs_size` then
-- reports a file that is longer than the largest size that the file system allows.
pub tfs_write_stretches :
    (name : List ℕ) (src : ℕ → ℕ) (size offset now i : ℕ) (t : Tfs)
    → length t.files ≡ max_files
    → find_file name t.files ≡ some i
    → max_file_size < offset
    → (file_at t.files i).size < offset
    → (tfs_write name src size offset now t ≡ some (pos 0, stretched i offset now t))
      × (tfs_size name (stretched i offset now t) ≡ as_int offset)
unfolding tfs_write tfs_size find_file
tfs_write_stretches name src size offset now i t len e h below =
    let f = record (file_at t.files i) { size = offset; mtime = now } in
    let lt : i < length t.files =
      omega (arith, len, (first-IsFirst (named_at name t.files) max_files 0 i e).below) in
    let w =
      write_loop-past src (write_size size offset)
        (record { disk = t.disk; blocks = (file_at t.files i).blocks; written = 0; at = offset })
        (omega arith) in
    (
      rw (tfs_write, e, w, lt→ltb _ _ below) refl,
      rw (tfs_size, find_file-keep name t.files i f lt refl, e)
          (ap (λ g. as_int g.size) (file_at-hit t.files i i f lt (ground arith))),
    )

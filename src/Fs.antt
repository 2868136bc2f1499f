-- ===== src/Fs.antt =====
-- kernel/fs.c, the in-memory file system torFS: a table of 64 files of at most four blocks of 1 KB.
-- Each operation runs between `spin_lock(&fs_lock)` and `spin_unlock`, and is one step here.
-- Printing is left out; `now` is what `get_jiffies` returns. A `uint8 *` to data is the function
-- from offsets to bytes; a `tfs_file_t *` is the index in `files`.
pub mod Io
pub mod Store
pub mod Table
pub mod Names
pub mod Delete
pub mod Past
pub mod Total
use tor_os.Prelude.{
  ℕ, zero, suc, ◌+◌, ◌-◌, ◌*◌, ◌/◌, ◌%◌, ◌^◌, Bool, true, false, not, ◌&&◌, List, [], ◌∷◌, Option,
  none, some, ◌==◌, ltb, leb, if◌then◌else◌, get_or, set, replicate,
}
use tor_os.Prelude.Int.{ℤ, pos, negsuc, as_int}
use tor_os.Libc.{strcmp, strlen, strcpy, is_zero, copy_name}
use tor_os.Bitmap.{bit_set, bit_clear}
use tor_os.Bitmap.Scan.{first_clear}
use tor_os.Search.{first}

abbrev pub u32 : ℕ → ℕ
u32 x = x % 2 ^ 32

abbrev pub sub32 : ℕ → ℕ → ℕ
sub32 a b = (a + 2 ^ 32 - b) % 2 ^ 32

abbrev pub max_files : ℕ
max_files = 64

abbrev pub max_filename : ℕ
max_filename = 16

abbrev pub block_size : ℕ
block_size = 1024

abbrev pub blocks_per_file : ℕ
blocks_per_file = 4

abbrev pub max_file_size : ℕ
max_file_size = block_size * blocks_per_file

-- `tfs_file_t`
pub record File : Type 0 where
  pub name : List ℕ
  pub type : ℕ
  pub size : ℕ
  pub blocks : List ℕ
  pub ctime : ℕ
  pub mtime : ℕ
  pub used : ℕ

-- `memset(f, 0, sizeof(tfs_file_t))`
abbrev pub zero_file : File
zero_file = record {
  name = replicate 16 0;
  type = 0;
  size = 0;
  blocks = replicate 4 0;
  ctime = 0;
  mtime = 0;
  used = 0;
}

-- The block store: the data, the bitmap, `total_blocks`, and `free_blocks` of the superblock.
pub record Disk : Type 0 where
  pub block_data : ℕ → ℕ
  pub block_bitmap : List ℕ
  pub free_blocks : ℕ
  pub total_blocks : ℕ

-- The rest of the superblock `tfs_sb_t`, but for its constant magic number, and the file table.
pub record Tfs : Type 0 where
  pub disk : Disk
  pub files : List File
  pub version : ℕ
  pub num_files : ℕ
  pub num_blocks : ℕ
  pub created : ℕ

-- `none` is -1.
unfoldable pub alloc_block : Disk → Option ℕ × Disk
unfolding first_clear
alloc_block d = elim (first_clear d.total_blocks 0 d.block_bitmap) [
  | none ↦ (none, d)
  | some i ↦ (
    some i,
    record d { block_bitmap = bit_set d.block_bitmap i; free_blocks = sub32 d.free_blocks 1 },
  )
]

unfoldable pub free_block : ℕ → Disk → Disk
free_block blk d =
    if ltb blk d.total_blocks
    then record d {
      block_bitmap = bit_clear d.block_bitmap blk;
      free_blocks = u32 (d.free_blocks + 1);
    }
    else d

abbrev pub file_at : List File → ℕ → File
file_at fs i = get_or fs i zero_file

-- `files[i].used && strcmp(files[i].name, name) == 0`
abbrev pub is_named : List ℕ → File → Bool
is_named name f = not (f.used == 0) && is_zero (strcmp f.name name)

unfoldable pub find_file : List ℕ → List File → Option ℕ
unfolding first
find_file name fs = first (λ i. is_named name (file_at fs i)) max_files 0

unfoldable pub find_free_file : List File → Option ℕ
unfolding first
find_free_file fs = first (λ i. (file_at fs i).used == 0) max_files 0

-- The offset in `block_data` of a block's bytes; `none` is NULL.
unfoldable pub get_block_data : ℕ → Disk → Option ℕ
get_block_data block d = if ltb block d.total_blocks then some (u32 (block * block_size)) else none

-- `tfs_init`, once its four `kmalloc` calls have succeeded (it panics otherwise).
unfoldable pub tfs_init : ℕ → Tfs
unfolding alloc_block
tfs_init now = record {
  disk =
      (alloc_block (record {
        block_data = λ a. 0;
        block_bitmap = replicate 32 0;
        free_blocks = 256;
        total_blocks = 256;
      })).1;
  files = replicate max_files zero_file;
  version = 1;
  num_files = 0;
  num_blocks = 256;
  created = now;
}

-- The file that `tfs_create` puts in a free entry.
abbrev pub new_file : List ℕ → ℕ → File
new_file name now = record zero_file {
  name = strcpy (replicate 16 0) name;
  type = 1;
  used = 1;
  ctime = now;
  mtime = now;
}

unfoldable pub tfs_create : Option (List ℕ) → ℕ → Tfs → ℤ × Tfs
unfolding find_file find_free_file
tfs_create none now t = (negsuc 0, t)
tfs_create (some name) now t =
    if leb max_filename (strlen name) then (negsuc 0, t) else elim (find_file name t.files) [
      | some i ↦ (negsuc 0, t)
      | none ↦ elim (find_free_file t.files) [
        | none ↦ (negsuc 0, t)
        | some i ↦ (
          pos 0,
          record t { files = set t.files i (new_file name now); num_files = u32 (t.num_files + 1) },
        )
      ]
    ]

-- The loop of `tfs_delete`: `n` rounds from slot `i`.
unfoldable pub free_slots : ℕ → ℕ → Disk → List ℕ → Disk × List ℕ
unfolding free_block
free_slots zero i d blocks = (d, blocks)
free_slots (suc n) i d blocks =
    let taken : Bool = not (get_or blocks i 0 == 0) in
    free_slots n (i + 1) (if taken then free_block (get_or blocks i 0) d else d)
      (if taken then set blocks i 0 else blocks)

unfoldable pub tfs_delete : List ℕ → Tfs → ℤ × Tfs
unfolding find_file free_slots
tfs_delete name t = elim (find_file name t.files) [
  | none ↦ (negsuc 0, t)
  | some i ↦
      let f = file_at t.files i in
      let (d, blocks) = free_slots blocks_per_file 0 t.disk f.blocks in
      (
        pos 0,
        record t {
          disk = d;
          files = set t.files i (record f { blocks = blocks; used = 0; name = set f.name 0 0 });
          num_files = sub32 t.num_files 1;
        },
      )
]

unfoldable pub tfs_size : List ℕ → Tfs → ℤ
unfolding find_file
tfs_size name t = elim (find_file name t.files) [
  | none ↦ negsuc 0
  | some i ↦ as_int (file_at t.files i).size
]

-- `tfs_count_used`: `n` rounds from index `i`.
unfoldable pub count_used : ℕ → ℕ → List File → ℕ
count_used zero i fs = 0
count_used (suc n) i fs = (if (file_at fs i).used == 0 then 0 else 1) + count_used n (i + 1) fs

-- The search of `tfs_get_used_name`: `n` rounds from index `i`, `seen` used entries before.
unfoldable pub used_at : ℕ → ℕ → ℕ → ℕ → List File → Option ℕ
used_at idx zero i seen fs = none
used_at idx (suc n) i seen fs =
    let used : Bool = not ((file_at fs i).used == 0) in
    let rest = used_at idx n (i + 1) (if used then seen + 1 else seen) fs in
    if used && seen == idx then some i else rest

-- The result, and what stands at `name_out` and `size_out` after it.
unfoldable pub tfs_get_used_name : ℤ → List ℕ → ℕ → Tfs → ℤ × (List ℕ × ℕ)
unfolding used_at
tfs_get_used_name (negsuc k) name_out size_out t = (pos 0, (name_out, size_out))
tfs_get_used_name (pos idx) name_out size_out t = elim (used_at idx max_files 0 0 t.files) [
  | none ↦ (pos 0, (name_out, size_out))
  | some i ↦ (pos 1, (copy_name name_out (file_at t.files i).name 15, (file_at t.files i).size))
]

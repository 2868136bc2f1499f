-- ===== src/Tests/Files.antt =====
-- kernel/fs.c at concrete inputs.
use tor_os.Prelude.{
  ℕ, ◌≤◌, ◌<◌, ◌≡◌, ◌⊎◌, refl, sym, ap, ◌∙◌, true, false, ◌==◌, List, [], ◌∷◌, none, some, arith,
  replicate, get_or-replicate,
}
use tor_os.Prelude.Int.{pos, negsuc}
use tor_os.Libc.{strlen}
use tor_os.Libc.Strings.{c_str}
use tor_os.Bitmap.{bit_get}
use tor_os.Bitmap.Scan.{clear_count}
use tor_os.Fs.{
  Tfs, Disk, file_at, is_named, zero_file, find_file, find_free_file, alloc_block, tfs_create,
  tfs_delete, count_used, max_files, max_filename,
}
use tor_os.Fs.Io.{tfs_write, tfs_read}
use tor_os.Fs.Store.{DiskIsValid, Gave, given, alloc_block_lem}
use tor_os.Fs.Table.{TableIsValid}
use tor_os.Fs.Names.{Created, created, tfs_create-Created, tfs_create_lem}
use tor_os.Fs.Delete.{deleted, tfs_delete_lem}
use tor_os.Fs.Total.{tfs_write-tfs_read_total}
use tor_os.Libc.Search.{is_some}

-- Sixteen blocks, of which the first two are in use.
abbrev small_disk : Disk
small_disk = record {
  block_data = λ a. 0;
  block_bitmap = 3 ∷ 0 ∷ [];
  free_blocks = 14;
  total_blocks = 16;
}

small_disk-DiskIsValid : DiskIsValid small_disk
unfolding clear_count bit_get
small_disk-DiskIsValid = record {
  bytes = (omega arith, (omega arith, tt));
  wide = omega arith;
  counted = refl;
  small = omega arith;
  reserved = refl;
}

alloc_block_lem_example :
    ((i : ℕ) × (alloc_block small_disk ≡ (some i, given small_disk i))
      × Gave small_disk (given small_disk i) i)
    ⊎ ((alloc_block small_disk ≡ (none, small_disk))
        × ((j : ℕ) → j < 16 → bit_get (3 ∷ 0 ∷ []) j ≡ true))
alloc_block_lem_example = alloc_block_lem small_disk small_disk-DiskIsValid

-- No file.
abbrev no_files : Tfs
no_files = record {
  disk = small_disk;
  files = replicate 64 zero_file;
  version = 1;
  num_files = 0;
  num_blocks = 16;
  created = 0;
}

unnamed_at : (name : List ℕ) (i : ℕ) → is_named name (file_at (replicate 64 zero_file) i) ≡ false
unnamed_at name i = ap (is_named name) (get_or-replicate 64 i zero_file)

false-ne-true : false ≡ true → ⊥
false-ne-true h = cc

no_files-TableIsValid : TableIsValid no_files
unfolding count_used
no_files-TableIsValid = record {
  size = refl;
  distinct = λ name i j hi hj. absurd (false-ne-true (sym (unnamed_at name i) ∙ hi));
  counted = refl;
}

abbrev todo : List ℕ
todo = b't' ∷ b'o' ∷ b'd' ∷ b'o' ∷ []

tfs_create_lem_example :
    ((i : ℕ) × Created todo 9 i no_files)
    ⊎ ((tfs_create (some todo) 9 no_files ≡ (negsuc 0, no_files))
        × ((max_filename ≤ strlen todo)
            ⊎ ((i : ℕ) × (find_file todo no_files.files ≡ some i))
            ⊎ ((j : ℕ) → j < max_files → ((file_at no_files.files j).used == 0) ≡ false)))
tfs_create_lem_example = tfs_create_lem todo 9 no_files no_files-TableIsValid

-- One file.
abbrev one_file : Tfs
one_file = created todo 9 0 no_files

one_file-Created : Created todo 9 0 no_files
unfolding find_file find_free_file strlen
one_file-Created = tfs_create-Created todo 9 no_files 0 no_files-TableIsValid refl refl refl

tfs_delete_lem_example :
    ((i : ℕ) × (find_file todo one_file.files ≡ some i)
      × (tfs_delete todo one_file ≡ (pos 0, deleted i one_file))
      × TableIsValid (deleted i one_file)
      × (find_file todo (deleted i one_file).files ≡ none)
      × ((other : List ℕ)
          → (c_str todo ≡ c_str other → ⊥)
          → find_file other (deleted i one_file).files ≡ find_file other one_file.files))
    ⊎ ((find_file todo one_file.files ≡ none) × (tfs_delete todo one_file ≡ (negsuc 0, one_file)))
tfs_delete_lem_example = tfs_delete_lem todo one_file one_file-Created.valid

tfs_write-tfs_read_total_example :
    (is_some (tfs_write todo (λ a. 1) 3000 500 11 one_file) ≡ true)
    × (is_some (tfs_read todo (λ a. 1) 3000 500 one_file) ≡ true)
tfs_write-tfs_read_total_example =
    tfs_write-tfs_read_total todo (λ a. 1) 3000 500 11 one_file (omega arith)

-- ===== src/Fs/Delete.antt =====
-- kernel/fs.c: what `tfs_delete` does to the file table.
use tor_os.Prelude.{
  ℕ, ◌<◌, ◌≡◌, ◌⊎◌, refl, sym, ap, ◌∙◌, true, false, List, none, some, arith, ◌==◌, set, length,
  length-set, Bool-cases, Option-cases, inl, inr,
}
use tor_os.Prelude.Int.{pos, negsuc}
use tor_os.Search.{first-IsFirst, first-none_at}
use tor_os.Libc.Strings.{c_str}
use tor_os.Fs.{
  File, Tfs, file_at, is_named, find_file, tfs_delete, free_slots, max_files, blocks_per_file,
  sub32,
}
use tor_os.Fs.Table.{
  TableIsValid, named_used, named_same, file_at-hit, file_at-miss, count_used-le, count_used-drop,
}
use tor_os.Fs.Names.{false-ne-true, named_at, find_file-set, unnamed, unused-unnamed}

-- What `tfs_delete` makes of a file, with its slots emptied to `blocks`.
abbrev pub erased : File → List ℕ → File
erased f blocks = record f { blocks = blocks; used = 0; name = set f.name 0 0 }

-- The state in which `tfs_delete` leaves the file system when the file is entry `i`.
abbrev pub deleted : ℕ → Tfs → Tfs
deleted i t =
    let r = free_slots blocks_per_file 0 t.disk (file_at t.files i).blocks in
    record t {
      disk = r.0;
      files = set t.files i (erased (file_at t.files i) r.1);
      num_files = sub32 t.num_files 1;
    }

-- A file that is not in use cannot make a name ambiguous.
erase-distinct :
    (t : Tfs) (i : ℕ) (f : File)
    → TableIsValid t
    → i < length t.files
    → (f.used == 0) ≡ true
    → (b : List ℕ) (j k : ℕ) → is_named b (file_at (set t.files i f) j) ≡ true
    → is_named b (file_at (set t.files i f) k) ≡ true
    → j ≡ k
erase-distinct t i f v h u b j k hj hk =
    let kept : (m : ℕ)
        → is_named b (file_at (set t.files i f) m) ≡ true
        → is_named b (file_at t.files m) ≡ true =
      λ m e. elim (Bool-cases (i == m)) [
        | inl q ↦ absurd (
            false-ne-true (
              sym (unused-unnamed b f u)
              ∙ ap (is_named b) (sym (file_at-hit t.files i m f h q))
              ∙ e))
        | inr q ↦ ap (is_named b) (sym (file_at-miss t.files i m f h q)) ∙ e
      ] in
    v.distinct b j k (kept j hj) (kept k hk)

apart : (a b : ℕ) → (a == b) ≡ false → a ≡ b → ⊥
apart a b h e = ground arith

module _ (name : List ℕ) (t : Tfs) where
  -- The file is gone from the table at every index.
  gone :
      (i : ℕ) (f : File)
      → TableIsValid t
      → i < length t.files
      → (f.used == 0) ≡ true
      → is_named name (file_at t.files i) ≡ true
      → (j : ℕ) → is_named name (file_at (set t.files i f) j) ≡ false
  gone i f v h u e j = elim (Bool-cases (i == j)) [
    | inl q ↦ ap (is_named name) (file_at-hit t.files i j f h q) ∙ unused-unnamed name f u
    | inr q ↦
        ap (is_named name) (file_at-miss t.files i j f h q)
        ∙ elim (Bool-cases (is_named name (file_at t.files j))) [
          | inl c ↦ absurd (apart i j q (v.distinct name i j e c))
          | inr c ↦ c
        ]
  ]

  -- On a valid file table `tfs_delete` of a name that is found returns 0 and leaves a valid table
  -- in which the name is not found and every other name is found where it was; of a name that is
  -- not found it returns -1 and changes nothing.
  pub tfs_delete_lem :
      TableIsValid t
      → ((i : ℕ) × (find_file name t.files ≡ some i)
          × (tfs_delete name t ≡ (pos 0, deleted i t))
          × TableIsValid (deleted i t)
          × (find_file name (deleted i t).files ≡ none)
          × ((other : List ℕ)
              → (c_str name ≡ c_str other → ⊥)
              → find_file other (deleted i t).files ≡ find_file other t.files))
        ⊎ ((find_file name t.files ≡ none) × (tfs_delete name t ≡ (negsuc 0, t)))
  unfolding tfs_delete find_file
  tfs_delete_lem v = elim (Option-cases (find_file name t.files)) [
    | inl e ↦ inr (e, rw (e, tfs_delete) refl)
    | inr (i, e) ↦
        let fr = first-IsFirst (named_at name t.files) max_files 0 i e in
        let lt : i < length t.files = omega (arith, fr.below, v.size) in
        let old = file_at t.files i in
        let f = erased old (free_slots blocks_per_file 0 t.disk old.blocks).1 in
        let c =
          count_used-drop 64 0 i t.files f lt (omega arith) fr.below (named_used name old fr.passes)
            refl in
        let le = count_used-le 64 0 t.files in
        inl (
          i,
          e,
          rw (e, tfs_delete) refl,
          record {
            size = length-set t.files i f ∙ v.size;
            distinct = erase-distinct t i f v lt refl;
            counted = omega (arith, v.counted);
          },
          first-none_at (named_at name (set t.files i f)) max_files 0
              (λ j a b. gone i f v lt refl fr.passes j),
          λ other ne.
              find_file-set other t.files i f lt
                (unnamed other old (λ q. ne (sym (named_same name old fr.passes) ∙ q)))
                (unused-unnamed other f refl),
        )
  ]

-- ===== src/Fs/Names.antt =====
-- kernel/fs.c: what `tfs_create` and `tfs_delete` do to the names in the file table.
use tor_os.Prelude.{
  ℕ, ◌+◌, ◌≤◌, ◌<◌, ◌≡◌, ◌⊎◌, refl, sym, ap, fun_ext, ◌∙◌, Bool, true, false, List, none, some,
  arith, ◌==◌, ltb, leb, set, length, length-set, get_or-past, replicate, Bool-cases, Option-cases,
  inl, inr, ltb→lt, leb→le,
}
use tor_os.Prelude.Int.{pos, negsuc}
use tor_os.Search.{first, first-IsFirst, first-none, first-at}
use tor_os.Libc.{strlen}
use tor_os.Libc.Strings.{c_str, strcpy_lem}
use tor_os.Fs.{
  File, Tfs, file_at, is_named, find_file, find_free_file, new_file, zero_file, tfs_create,
  max_files, max_filename, u32,
}
use tor_os.Fs.Table.{
  TableIsValid, named_same, new-named, rename, file_at-hit, file_at-miss, count_used-le,
  count_used-put,
}

pub false-ne-true : false ≡ true → ⊥
false-ne-true h = cc

abbrev pub named_at : List ℕ → List File → ℕ → Bool
named_at name fs i = is_named name (file_at fs i)

-- A file whose name is another is not found under it.
pub unnamed : (name : List ℕ) (f : File) → (c_str f.name ≡ c_str name → ⊥) → is_named name f ≡ false
unnamed name f h = elim (Bool-cases (is_named name f)) [
  | inl e ↦ absurd (h (named_same name f e))
  | inr e ↦ e
]

-- A change of one entry that a name does not notice.
pub find_file-keep :
    (name : List ℕ) (fs : List File) (i : ℕ) (f : File)
    → i < length fs
    → is_named name f ≡ is_named name (file_at fs i)
    → find_file name (set fs i f) ≡ find_file name fs
unfolding find_file
find_file-keep name fs i f h e =
    ap (λ p. first p max_files 0)
      (fun_ext (λ j. elim (Bool-cases (i == j)) [
        | inl q ↦
            let r : i ≡ j = ground arith in
            ap (is_named name) (file_at-hit fs i j f h q)
            ∙ e
            ∙ ap (λ x. is_named name (file_at fs x)) r
        | inr q ↦ ap (is_named name) (file_at-miss fs i j f h q)
      ]))

pub find_file-set :
    (name : List ℕ) (fs : List File) (i : ℕ) (f : File)
    → i < length fs
    → is_named name (file_at fs i) ≡ false
    → is_named name f ≡ false
    → find_file name (set fs i f) ≡ find_file name fs
find_file-set name fs i f h old new = find_file-keep name fs i f h (new ∙ sym old)

-- The state in which `tfs_create` leaves the file system when it takes entry `i`.
abbrev pub created : List ℕ → ℕ → ℕ → Tfs → Tfs
created name now i t = record t {
  files = set t.files i (new_file name now);
  num_files = u32 (t.num_files + 1);
}

pub unused-unnamed : (name : List ℕ) (f : File) → (f.used == 0) ≡ true → is_named name f ≡ false
unused-unnamed name f h = ground arith

-- The entry `i` names the file `f` in place of a file that is in use under no other name.
put-distinct :
    (t : Tfs) (i : ℕ) (f : File) (a : List ℕ)
    → TableIsValid t
    → i < length t.files
    → is_named a f ≡ true
    → ((j : ℕ) → (i == j) ≡ false → is_named a (file_at t.files j) ≡ false)
    → (b : List ℕ) (j k : ℕ) → is_named b (file_at (set t.files i f) j) ≡ true
    → is_named b (file_at (set t.files i f) k) ≡ true
    → j ≡ k
put-distinct t i f a v h fa none_has b j k hj hk =
    let clash : (m : ℕ)
        → (i == m) ≡ false
        → is_named b f ≡ true
        → is_named b (file_at t.files m) ≡ true
        → ⊥ =
      λ m q fb mb. false-ne-true (sym (none_has m q) ∙ rename b a f (file_at t.files m) fb fa mb) in
    elim (Bool-cases (i == j)) [
      | inl p ↦ elim (Bool-cases (i == k)) [
        | inl q ↦ ground arith
        | inr q ↦ absurd (
            clash k q (ap (is_named b) (sym (file_at-hit t.files i j f h p)) ∙ hj)
              (ap (is_named b) (sym (file_at-miss t.files i k f h q)) ∙ hk))
      ]
      | inr p ↦ elim (Bool-cases (i == k)) [
        | inl q ↦ absurd (
            clash j p (ap (is_named b) (sym (file_at-hit t.files i k f h q)) ∙ hk)
              (ap (is_named b) (sym (file_at-miss t.files i j f h p)) ∙ hj))
        | inr q ↦
            v.distinct b j k (ap (is_named b) (sym (file_at-miss t.files i j f h p)) ∙ hj)
              (ap (is_named b) (sym (file_at-miss t.files i k f h q)) ∙ hk)
      ]
    ]

==_refl : (i : ℕ) → (i == i) ≡ true
==_refl i = ground arith

pub absent_everywhere :
    (name : List ℕ) (t : Tfs)
    → TableIsValid t
    → find_file name t.files ≡ none
    → (j : ℕ) → is_named name (file_at t.files j) ≡ false
unfolding find_file
absent_everywhere name t v h j = elim (Bool-cases (ltb j 64)) [
  | inl q ↦ first-none (named_at name t.files) max_files 0 h j (omega arith) (ltb→lt _ _ q)
  | inr q ↦ ap (is_named name) (get_or-past t.files j zero_file (ground (arith, v.size)))
]

-- What a successful `tfs_create` did with entry `i`.
pub record Created (name : List ℕ) (now i : ℕ) (t : Tfs) : Type 0 where
  pub new_name : find_file name t.files ≡ none
  pub result : tfs_create (some name) now t ≡ (pos 0, created name now i t)
  pub valid : TableIsValid (created name now i t)
  pub found : find_file name (created name now i t).files ≡ some i
  pub others :
      (other : List ℕ)
      → (c_str name ≡ c_str other → ⊥)
      → find_file other (created name now i t).files ≡ find_file other t.files

module _ (name : List ℕ) (now : ℕ) (t : Tfs) where
  pub tfs_create-Created :
      (i : ℕ)
      → TableIsValid t
      → leb max_filename (strlen name) ≡ false
      → find_file name t.files ≡ none
      → find_free_file t.files ≡ some i
      → Created name now i t
  unfolding tfs_create find_file find_free_file
  tfs_create-Created i v short absent free =
      let fr = first-IsFirst (λ k. (file_at t.files k).used == 0) max_files 0 i free in
      let lt : i < length t.files = omega (arith, fr.below, v.size) in
      let named = new-named name now (ground arith) in
      let nobody = absent_everywhere name t v absent in
      record {
        new_name = absent;
        result = rw (short, absent, free) refl;
        valid = record {
          size = length-set t.files i (new_file name now) ∙ v.size;
          distinct = put-distinct t i (new_file name now) name v lt named (λ j q. nobody j);
          counted =
              let c =
                count_used-put 64 0 i t.files (new_file name now) lt (omega arith) fr.below
                  fr.passes refl in
              let le = count_used-le 64 0 t.files in omega (arith, v.counted);
        };
        found = first-at (named_at name (set t.files i (new_file name now))) max_files 0 i (record {
          from = omega arith;
          below = fr.below;
          passes =
              ap (is_named name) (file_at-hit t.files i i (new_file name now) lt (==_refl i))
              ∙ named;
          least = λ j a b.
              ap (is_named name) (file_at-miss t.files i j (new_file name now) lt (ground arith))
              ∙ nobody j;
        });
        others = λ other ne.
            find_file-set other t.files i (new_file name now) lt
              (unused-unnamed other (file_at t.files i) fr.passes)
              (unnamed other (new_file name now)
                (λ e. ne (sym (strcpy_lem (replicate 16 0) name (ground arith)) ∙ e)));
      }

  -- On a valid file table `tfs_create` either takes an entry, and then the name, which no file had,
  -- is found at it, every other name is found where it was, and the table is valid; or it returns
  -- -1 and changes nothing, and the name is too long, or a file has it, or every entry is in use.
  pub tfs_create_lem :
      TableIsValid t
      → ((i : ℕ) × Created name now i t)
        ⊎ ((tfs_create (some name) now t ≡ (negsuc 0, t))
            × ((max_filename ≤ strlen name)
                ⊎ ((i : ℕ) × (find_file name t.files ≡ some i))
                ⊎ ((j : ℕ) → j < max_files → ((file_at t.files j).used == 0) ≡ false)))
  unfolding tfs_create find_free_file
  tfs_create_lem v = elim (Bool-cases (leb max_filename (strlen name))) [
    | inl long ↦ inr (rw long refl, inl (leb→le _ _ long))
    | inr short ↦ elim (Option-cases (find_file name t.files)) [
      | inr (i, e) ↦ inr (rw (short, e) refl, inr (inl (i, e)))
      | inl absent ↦ elim (Option-cases (find_free_file t.files)) [
        | inl e ↦ inr (
          rw (short, absent, e) refl,
          inr (
              inr (λ j b.
                first-none (λ k. (file_at t.files k).used == 0) max_files 0 e j (omega arith) b)),
        )
        | inr (i, e) ↦ inl (i, tfs_create-Created i v short absent e)
      ]
    ]
  ]

-- ===== src/Fs/Table.antt =====
-- kernel/fs.c: the file table under `tfs_create` and `tfs_delete`.
use tor_os.Prelude.{
  ℕ, zero, suc, ◌+◌, ◌≤◌, ◌<◌, ◌≡◌, refl, sym, ap, subst, ◌∙◌, true, false, List, arith, ◌==◌,
  if◌then◌else◌, set, length, get_or-set_if, Bool-cases, inl, inr, replicate,
}
use tor_os.Libc.{strlen}
use tor_os.Libc.Strings.{c_str, strcmp-same, same-strcmp, strcpy_lem}
use tor_os.Fs.{File, Tfs, file_at, is_named, new_file, zero_file, max_files, count_used}

-- The table has its 64 entries, at most one file has a name, and `num_files` counts the files.
pub record TableIsValid (t : Tfs) : Type 0 where
  pub size : length t.files ≡ max_files
  pub distinct :
      (name : List ℕ) (i j : ℕ)
      → is_named name (file_at t.files i) ≡ true
      → is_named name (file_at t.files j) ≡ true
      → i ≡ j
  pub counted : t.num_files ≡ count_used max_files 0 t.files

pub named_used : (name : List ℕ) (f : File) → is_named name f ≡ true → (f.used == 0) ≡ false
named_used name f h = ground arith

pub named_same : (name : List ℕ) (f : File) → is_named name f ≡ true → c_str f.name ≡ c_str name
named_same name f h = strcmp-same f.name name (ground arith)

pub same_named :
    (name : List ℕ) (f : File)
    → (f.used == 0) ≡ false
    → c_str f.name ≡ c_str name
    → is_named name f ≡ true
same_named name f u h = ground (arith, same-strcmp f.name name h)

pub new-named :
    (name : List ℕ) (now : ℕ) → strlen name < 16 → is_named name (new_file name now) ≡ true
new-named name now h = same_named name (new_file name now) refl (strcpy_lem (replicate 16 0) name h)

-- Files that have a name in common have every name in common.
pub rename :
    (a b : List ℕ) (f g : File)
    → is_named a f ≡ true
    → is_named b f ≡ true
    → is_named a g ≡ true
    → is_named b g ≡ true
rename a b f g fa fb ga =
    same_named b g (named_used a g ga)
      (named_same a g ga ∙ sym (named_same a f fa) ∙ named_same b f fb)

pub file_at-set :
    (fs : List File) (i j : ℕ) (f : File)
    → i < length fs
    → file_at (set fs i f) j ≡ (if i == j then f else file_at fs j)
file_at-set fs i j f h = get_or-set_if fs i j f zero_file h

pub file_at-hit :
    (fs : List File) (i j : ℕ) (f : File)
    → i < length fs
    → (i == j) ≡ true
    → file_at (set fs i f) j ≡ f
file_at-hit fs i j f h q = file_at-set fs i j f h ∙ ap (λ b. if b then f else file_at fs j) q

pub file_at-miss :
    (fs : List File) (i j : ℕ) (f : File)
    → i < length fs
    → (i == j) ≡ false
    → file_at (set fs i f) j ≡ file_at fs j
file_at-miss fs i j f h q = file_at-set fs i j f h ∙ ap (λ b. if b then f else file_at fs j) q

pub count_used-le : (n i : ℕ) (fs : List File) → count_used n i fs ≤ n
unfolding count_used
count_used-le zero i fs = omega arith
count_used-le (suc n) i fs = ground (arith, count_used-le n (i + 1) fs)

count_used-same :
    (n i k : ℕ) (fs : List File) (f : File)
    → k < length fs
    → k < i
    → count_used n i (set fs k f) ≡ count_used n i fs
unfolding count_used
count_used-same zero i k fs f h lt = refl
count_used-same (suc n) i k fs f h lt =
    ground (arith, file_at-set fs k i f h, count_used-same n (i + 1) k fs f h (omega arith))

-- A file put in a free entry adds one to the count.
pub count_used-put :
    (n i k : ℕ) (fs : List File) (f : File)
    → k < length fs
    → i ≤ k
    → k < i + n
    → ((file_at fs k).used == 0) ≡ true
    → (f.used == 0) ≡ false
    → count_used n i (set fs k f) ≡ count_used n i fs + 1
unfolding count_used
count_used-put zero i k fs f h a b e u = absurd (omega arith)
count_used-put (suc n) i k fs f h a b e u = elim (Bool-cases (k == i)) [
  | inl q ↦
      let r : k ≡ i = ground arith in
      ground (
        arith,
        file_at-set fs k i f h,
        subst (λ x. ((file_at fs x).used == 0) ≡ true) r e,
        count_used-same n (i + 1) k fs f h (omega arith),
      )
  | inr q ↦ ground (
    arith,
    file_at-set fs k i f h,
    count_used-put n (i + 1) k fs f h (ground arith) (omega arith) e u,
  )
]

-- A file taken out takes one from the count.
pub count_used-drop :
    (n i k : ℕ) (fs : List File) (f : File)
    → k < length fs
    → i ≤ k
    → k < i + n
    → ((file_at fs k).used == 0) ≡ false
    → (f.used == 0) ≡ true
    → count_used n i (set fs k f) + 1 ≡ count_used n i fs
unfolding count_used
count_used-drop zero i k fs f h a b e u = absurd (omega arith)
count_used-drop (suc n) i k fs f h a b e u = elim (Bool-cases (k == i)) [
  | inl q ↦
      let r : k ≡ i = ground arith in
      ground (
        arith,
        file_at-set fs k i f h,
        subst (λ x. ((file_at fs x).used == 0) ≡ false) r e,
        count_used-same n (i + 1) k fs f h (omega arith),
      )
  | inr q ↦ ground (
    arith,
    file_at-set fs k i f h,
    count_used-drop n (i + 1) k fs f h (ground arith) (omega arith) e u,
  )
]

-- ===== src/Vm/Tables.antt =====
-- Where the tables stand: a tree in pages of the allocator, each at one path of indices.
use tor_os.Prelude.{
  ℕ, ◌+◌, ◌*◌, ◌%◌, ◌^◌, ◌≤◌, ◌<◌, ◌≡◌, refl, ap, ◌∙◌, true, false, List, [], ◌∷◌, Option, none,
  some, bit_or, length, arith,
}
use tor_os.Prelude.Bits.{frame, frame-bit_or, bit_or_step}
use tor_os.Bitmap.{bit_get}
use tor_os.Mm.{Mem, page_size, page_address}
use tor_os.Mm.Pages.{PagesAreValid}
use tor_os.Vm.{Vm, entry_at, is_valid, make_table_entry, walk}

-- The table at `x`, of the path `q`, is a page in use, and the page tables are below 2 ^ 48.
pub record IsTable (kernel_end : ℕ) (m : Mem) (x : ℕ) (q : List ℕ) : Type 0 where
  pub index : ℕ
  pub address : x ≡ page_address kernel_end m index
  pub in_range : index < m.total_pages
  pub in_use : bit_get m.page_bitmap index ≡ true
  pub depth : length q ≤ 3

-- `place` is the path of each table. Following a valid entry of a table above the last level leads to
-- the table of the longer path.
pub record VmIsValid (kernel_end : ℕ) (place : ℕ → Option (List ℕ)) (s : Vm) : Type 0 where
  pub pages : PagesAreValid kernel_end s.mem
  pub low : kernel_end + (s.mem.total_pages + s.mem.bitmap_pages) * page_size ≤ 2 ^ 48
  pub root : place s.pgd ≡ some []
  pub tables : (x : ℕ) (q : List ℕ) → place x ≡ some q → IsTable kernel_end s.mem x q
  pub linked :
      (x i : ℕ) (q : List ℕ)
      → place x ≡ some q
      → length q < 3
      → i < 512
      → is_valid (entry_at s x i) ≡ true
      → place (frame (entry_at s x i)) ≡ some (i ∷ q)

-- The entry for a path of indices from the table `t` on; 0 where a table is missing.
unfoldable pub entry_for : Vm → List ℕ → ℕ → ℕ
entry_for s [] t = 0
entry_for s (i ∷ []) t = entry_at s t i
entry_for s (i ∷ j ∷ rest) t = elim (is_valid (entry_at s t i)) [
  | true ↦ entry_for s (j ∷ rest) (frame (entry_at s t i))
  | false ↦ 0
]

-- Indices of entries.
abbrev pub AreIndices : List ℕ → Type 0
AreIndices [] = Unit {0}
AreIndices (i ∷ rest) = (i < 512) × AreIndices rest

module _ {kernel_end : ℕ} {place : ℕ → Option (List ℕ)} {s : Vm}
    (v : VmIsValid kernel_end place s) where
  -- Tables are aligned, below 2 ^ 48.
  pub table_page : (x : ℕ) (q : List ℕ) → place x ≡ some q → (x % 4096 ≡ 0) × (x + 4096 ≤ 2 ^ 48)
  table_page x q e =
      let t = v.tables x q e in
      omega (arith, t.address, t.in_range, v.low, v.pages.aligned, v.pages.fits)

  -- Entries of tables stand in one place only if table and index are the same.
  pub same_entry :
      (x y i j : ℕ) (q r : List ℕ)
      → place x ≡ some q
      → place y ≡ some r
      → i < 512
      → j < 512
      → x + 8 * i ≡ y + 8 * j
      → (x ≡ y) × (i ≡ j)
  same_entry x y i j q r e f a b h = omega (arith, table_page x q e, table_page y r f)

-- What an entry for a table says.
pub make_table_entry_lem :
    (p : ℕ)
    → p % 4096 ≡ 0
    → p < 2 ^ 48
    → (frame (make_table_entry p) ≡ p) × (is_valid (make_table_entry p) ≡ true)
unfolding make_table_entry
make_table_entry_lem p h l =
    let f = frame p in
    (
      frame-bit_or (bit_or f 1) 2 refl ∙ frame-bit_or f 1 refl ∙ omega arith,
      ground (arith, bit_or_step (bit_or f 1) 2, bit_or_step f 1),
    )

-- One step along a path.
module _ (s : Vm) (i : ℕ) (t e : ℕ) (at : entry_at s t i ≡ e) where
  pub walk-valid : (rest : List ℕ) → is_valid e ≡ true → walk (i ∷ rest) t s ≡ walk rest (frame e) s
  unfolding walk
  walk-valid rest h = rw (at, h, walk) (ap (λ x. walk rest (frame x) s) at)

  pub walk-missing : (rest : List ℕ) → is_valid e ≡ false → walk (i ∷ rest) t s ≡ none
  unfolding walk
  walk-missing rest h = rw (at, h, walk) refl

  pub entry_for-valid :
      (j : ℕ) (rest : List ℕ)
      → is_valid e ≡ true
      → entry_for s (i ∷ j ∷ rest) t ≡ entry_for s (j ∷ rest) (frame e)
  unfolding entry_for
  entry_for-valid j rest h = rw (at, h, entry_for) (ap (λ x. entry_for s (j ∷ rest) (frame x)) at)

  pub entry_for-missing :
      (j : ℕ) (rest : List ℕ) → is_valid e ≡ false → entry_for s (i ∷ j ∷ rest) t ≡ 0
  unfolding entry_for
  entry_for-missing j rest h = rw (at, h, entry_for) refl

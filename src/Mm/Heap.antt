-- ===== src/Mm/Heap.antt =====
-- `kmalloc`: a run of allocations.
use tor_os.Prelude.{
  ℕ, ◌+◌, ◌^◌, ◌≤◌, ◌<◌, ◌≡◌, List, [], ◌∷◌, none, some, arith, refl, Option-cases, inl, inr, ◌∙◌,
}
use tor_os.Mm.{Mem, kmalloc}

-- The bump pointer lies in the heap, and the heap in the lower half of the address space.
pub record HeapIsValid (m : Mem) : Type 0 where
  pub low : m.heap_start ≤ m.heap_ptr
  pub high : m.heap_ptr ≤ m.heap_end
  pub small : m.heap_end < 2 ^ 63

pub record Block : Type 0 where
  pub base : ℕ
  pub size : ℕ

-- What a run of allocations returns, in order; a failed one returns nothing.
pub alloc_all : List ℕ → Mem → List Block × Mem
alloc_all [] m = ([], m)
alloc_all (n ∷ ns) m =
    let (p, m') = kmalloc n m in
    let (bs, m'') = alloc_all ns m' in
    elim p [ none ↦ (bs, m'') | some a ↦ (record { base = a; size = n } ∷ bs, m'') ]

-- Every size is below 2 ^ 63.
abbrev pub SizesAreSmall : List ℕ → Type 0
SizesAreSmall [] = Unit {0}
SizesAreSmall (n ∷ ns) = (n < 2 ^ 63) × SizesAreSmall ns

-- The blocks lie one after another, all from `lo` to `hi`: each ends before the next begins.
abbrev pub InOrder : ℕ → ℕ → List Block → Type 0
InOrder lo hi [] = lo ≤ hi
InOrder lo hi (b ∷ bs) = (lo ≤ b.base) × InOrder (b.base + b.size) hi bs

-- `kmalloc` keeps the pointer in the heap; a block starts at the old pointer, ends by the new one.
pub kmalloc_lem :
    (n : ℕ) (m : Mem)
    → HeapIsValid m
    → n < 2 ^ 63
    → let (p, m') = kmalloc n m in
      HeapIsValid m'
      × (m.heap_ptr ≤ m'.heap_ptr)
      × (m'.heap_end ≡ m.heap_end)
      × (m'.heap_start ≡ m.heap_start)
      × ((a : ℕ) → p ≡ some a → (a ≡ m.heap_ptr) × (a + n ≤ m'.heap_ptr))
unfolding kmalloc
kmalloc_lem n m v h = ground arith

InOrder-lower : (lo lo' hi : ℕ) (bs : List Block) → lo' ≤ lo → InOrder lo hi bs → InOrder lo' hi bs
InOrder-lower lo lo' hi [] h o = omega arith
InOrder-lower lo lo' hi (b ∷ bs) h o = (omega arith, o.1)

module _ (n : ℕ) (ns : List ℕ) (m : Mem) where
  alloc_all-none : (kmalloc n m).0 ≡ none → alloc_all (n ∷ ns) m ≡ alloc_all ns (kmalloc n m).1
  unfolding alloc_all
  alloc_all-none e = rw (e, alloc_all)

  alloc_all-some :
      (a : ℕ)
      → (kmalloc n m).0 ≡ some a
      → alloc_all (n ∷ ns) m ≡ (
        record { base = a; size = n } ∷ (alloc_all ns (kmalloc n m).1).0,
        (alloc_all ns (kmalloc n m).1).1,
      )
  unfolding alloc_all
  alloc_all-some a e = rw (e, alloc_all)

-- The blocks that a run of `kmalloc` calls returns never overlap and never leave the heap: each
-- ends before the next begins, from the old bump pointer to the new one, which stays in the heap.
-- The heap lies below 2 ^ 63 and each size is below 2 ^ 63.
pub alloc_all-InOrder :
    (ns : List ℕ) (m : Mem)
    → HeapIsValid m
    → SizesAreSmall ns
    → InOrder m.heap_ptr (alloc_all ns m).1.heap_ptr (alloc_all ns m).0
      × HeapIsValid (alloc_all ns m).1
      × ((alloc_all ns m).1.heap_end ≡ m.heap_end)
unfolding alloc_all
alloc_all-InOrder [] m v h = (omega arith, v, refl)
alloc_all-InOrder (n ∷ ns) m v h =
    let step = kmalloc_lem n m v h.0 in
    let rest = alloc_all-InOrder ns (kmalloc n m).1 step.0 h.1 in
    elim (Option-cases (kmalloc n m).0) [
      | inl e ↦
          rw (alloc_all-none n ns m e)
            (InOrder-lower _ _ _ _ step.1 rest.0, rest.1, rest.2 ∙ step.2)
      | inr (a, e) ↦ rw (alloc_all-some n ns m a e) (
        (omega (arith, step.4 a e), InOrder-lower _ _ _ _ (step.4 a e).1 rest.0),
        rest.1,
        rest.2 ∙ step.2,
      )
    ]

-- ===== src/Vm/Boot.antt =====
-- The first steps of `vm_init`: the root, and a region that must be mapped.
use tor_os.Prelude.{
  ℕ, ◌+◌, ◌*◌, ◌/◌, ◌%◌, ◌^◌, ◌≤◌, ◌<◌, ◌≡◌, refl, sym, ap, subst, ◌∙◌, Bool, true, false, List, [],
  Option, none, some, ◌==◌, if◌then◌else◌, length, arith, Bool-cases, ◌⊎◌, inl, inr,
}
use tor_os.Mm.{Mem, page_size, page_address, page_alloc}
use tor_os.Mm.Pages.{PagesAreValid, Given, taken, page_alloc_lem}
use tor_os.Vm.{Vm, entry_at, is_valid, clear_page, alloc_table, must_map, init_pgd, succeeded}
use tor_os.Vm.Tables.{VmIsValid}
use tor_os.Vm.Walk.{IsOut}
use tor_os.Vm.Region.{Filled, map_region-Ends}

-- An allocator whose pages all lie below 2 ^ 48.
pub record PagesAreLow (kernel_end : ℕ) (m : Mem) : Type 0 where
  pub pages : PagesAreValid kernel_end m
  pub low : kernel_end + (m.total_pages + m.bitmap_pages) * page_size ≤ 2 ^ 48

-- Flags that make an entry valid and keep off the address bits.
pub record AreFlags (flags : ℕ) : Type 0 where
  pub valid : is_valid flags ≡ true
  pub apart : flags / 4096 % 2 ^ 36 ≡ 0

-- The root alone, empty.
module _ (kernel_end : ℕ) (s : Vm) (c : PagesAreLow kernel_end s.mem) (n : ℕ)
    (g : Given kernel_end s.mem (taken s.mem n) (page_address kernel_end s.mem n) n)
    (pv : PagesAreValid kernel_end (taken s.mem n)) where
  abbrev page : ℕ
  page = page_address kernel_end s.mem n

  abbrev pub root_only : Vm
  root_only = record (clear_page page (record s { mem = taken s.mem n })) { pgd = page }

  abbrev root_place : ℕ → Option (List ℕ)
  root_place x = if x == page then some [] else none

  at_root : (x : ℕ) (q : List ℕ) → root_place x ≡ some q → (x ≡ page) × (q ≡ [])
  at_root x q e = elim (Bool-cases (x == page)) [
    | inl h ↦ let new : root_place x ≡ some [] = rw h refl in (ground arith, cc)
    | inr h ↦ let old : root_place x ≡ none = rw h refl in cc
  ]

  root_entry : (j : ℕ) → j < 512 → entry_at root_only page j ≡ 0
  unfolding clear_page
  root_entry j l = ground arith

  pub root_only-VmIsValid : VmIsValid kernel_end root_place root_only
  unfolding clear_page
  root_only-VmIsValid = record {
    pages = pv;
    low = c.low;
    root = ground arith;
    tables = λ x q e. record {
      index = n;
      address = (at_root x q e).0;
      in_range = g.in_range;
      in_use = g.bits n ∙ ground arith;
      depth = omega (arith, ap length (at_root x q e).1);
    };
    linked = λ x j q e l m valid.
        let zero_there = ap (λ y. entry_at root_only y j) (at_root x q e).0 ∙ root_entry j m in
        absurd (clash x j valid zero_there);
  }
    where
      clash : (x j : ℕ) → is_valid (entry_at root_only x j) ≡ true → entry_at root_only x j ≡ 0 → ⊥
      clash x j valid e = cc (valid, ap is_valid e)

-- A step of the start-up ends in a valid tree, or in a panic with no page left.
abbrev pub Steps : ℕ → (Vm → Type 0) → Bool × Vm → Type 0
Steps kernel_end P r =
    ((r.0 ≡ true) × ((place : ℕ → Option (List ℕ)) × VmIsValid kernel_end place r.1) × P r.1)
    ⊎ ((r.0 ≡ false) × IsOut kernel_end r.1)

pub init_pgd_lem :
    (kernel_end : ℕ) (s : Vm)
    → PagesAreLow kernel_end s.mem
    → Steps kernel_end (λ _. Unit {0}) (init_pgd kernel_end s)
unfolding init_pgd alloc_table
init_pgd_lem kernel_end s c = elim (page_alloc_lem kernel_end s.mem c.pages) [
  | inr (e, _) ↦ inr (
    ap (λ r. (with_answer r).0) e,
    ap (λ r. (page_alloc kernel_end (with_answer r).1.mem).0) e ∙ ap (λ r. r.0) e,
  )
  | inl (n, e, g, pv) ↦
      let v = root_only-VmIsValid kernel_end s c n g pv in
      let same = ap (λ r. (with_answer r).1) e in
      inl (
        ap (λ r. (with_answer r).0) e,
        (
          root_place kernel_end s c n g pv,
          subst (λ x. VmIsValid kernel_end (root_place kernel_end s c n g pv) x) (sym same) v,
        ),
        tt,
      )
]
  where
    with_table : Option ℕ × Vm → Bool × Vm
    with_table r = elim r.0 [ none ↦ (false, r.1) | some p ↦ (true, record r.1 { pgd = p }) ]

    with_answer : Option ℕ × Mem → Bool × Vm
    with_answer r = with_table (elim r.0 [
      | none ↦ (none, record s { mem = r.1 })
      | some p ↦ (some p, clear_page p (record s { mem = r.1 }))
    ])

-- A region that must be mapped.
pub must_map_lem :
    (kernel_end pa size flags : ℕ) (s : Vm) (place : ℕ → Option (List ℕ))
    → VmIsValid kernel_end place s
    → AreFlags flags
    → pa % 4096 ≡ 0
    → pa + size ≤ 2 ^ 48
    → Steps kernel_end (Filled pa (pa + size) s) (must_map kernel_end pa size flags (true, s))
unfolding must_map
must_map_lem kernel_end pa size flags s place v f a low =
    let (valid, o) = map_region-Ends kernel_end pa size flags s place v f.apart f.valid a low in
    elim o [
      | inl (e, g) ↦ inl (ap succeeded e, valid, g)
      | inr (e, out, g) ↦ inr (ap succeeded e, out)
    ]

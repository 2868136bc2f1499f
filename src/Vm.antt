-- ===== src/Vm.antt =====
-- kernel/vm.c: the page tables of four levels, and mapping, unmapping and translating addresses.
-- The memory of the tables is a function from the address of a 64-bit word to the word; the pages
-- come from kernel/mm.c. The levels' blocks of code, alike but for the index, are one walk along a
-- list of indices. The registers, barriers and invalidations of the TLB are left out, as is printing.
-- `1 << 53` and `1 << 54` on an `int`, in the flags of `vm_init`, have no defined value: the three
-- flag words are parameters.
pub mod Tables
pub mod Write
pub mod Link
pub mod Walk
pub mod Translate
pub mod Map
pub mod Unmap
pub mod Region
pub mod Boot
pub mod Identity
use tor_os.Prelude.{
  ℕ, zero, suc, ◌+◌, ◌-◌, ◌*◌, ◌/◌, ◌%◌, ◌^◌, Bool, true, false, ◌&&◌, List, [], ◌∷◌, Option, none,
  some, ◌==◌, ltb, leb, if◌then◌else◌, bit_or,
}
use tor_os.Prelude.Int.{ℤ, pos, negsuc}
use tor_os.Prelude.Bits.{frame}
use tor_os.Mm.{Mem, u64, sub64, page_size, page_align, kernel_base, ram_size, page_alloc}

pub record Vm : Type 0 where
  pub pgd : ℕ
  pub words : ℕ → ℕ
  pub mem : Mem

-- The index of an address at each level.
abbrev pub pgd_idx : ℕ → ℕ
pgd_idx va = va / 2 ^ 39 % 512

abbrev pub pud_idx : ℕ → ℕ
pud_idx va = va / 2 ^ 30 % 512

abbrev pub pmd_idx : ℕ → ℕ
pmd_idx va = va / 2 ^ 21 % 512

abbrev pub pte_idx : ℕ → ℕ
pte_idx va = va / 2 ^ 12 % 512

-- `table[i]`
abbrev pub entry_at : Vm → ℕ → ℕ → ℕ
entry_at s t i = s.words (t + 8 * i)

unfoldable pub put_entry : ℕ → ℕ → ℕ → Vm → Vm
put_entry t i e s = record s { words = λ a. if a == t + 8 * i then e else s.words a }

-- `entry & PTE_VALID`
abbrev pub is_valid : ℕ → Bool
is_valid e = e % 2 == 1

-- `memset(table, 0, PAGE_SIZE)`
unfoldable pub clear_page : ℕ → Vm → Vm
clear_page p s = record s { words = λ a. if leb p a && ltb a (p + page_size) then 0 else s.words a }

unfoldable pub alloc_table : ℕ → Vm → Option ℕ × Vm
unfolding clear_page
alloc_table kernel_end s =
    let r = page_alloc kernel_end s.mem in
    let s' : Vm = record s { mem = r.1 } in
    elim r.0 [ none ↦ (none, s') | some p ↦ (some p, clear_page p s') ]

unfoldable pub make_table_entry : ℕ → ℕ
make_table_entry next_table = bit_or (bit_or (frame next_table) 1) 2

unfoldable pub make_page_entry : ℕ → ℕ → ℕ
make_page_entry pa flags = bit_or (frame pa) flags

-- The indices of the three upper levels.
abbrev pub upper : ℕ → List ℕ
upper va = pgd_idx va ∷ pud_idx va ∷ pmd_idx va ∷ []

-- The table that the entries of `indices` lead to from the table `t`, where missing tables are made.
unfoldable pub walk_alloc : ℕ → List ℕ → ℕ → Vm → Option ℕ × Vm
unfolding alloc_table put_entry make_table_entry
walk_alloc kernel_end [] t s = (some t, s)
walk_alloc kernel_end (i ∷ indices) t s = elim (is_valid (entry_at s t i)) [
  | true ↦ walk_alloc kernel_end indices (frame (entry_at s t i)) s
  | false ↦
      let r = alloc_table kernel_end s in
      elim r.0 [
        | none ↦ (none, r.1)
        | some p ↦
            let s' = put_entry t i (make_table_entry p) r.1 in
            walk_alloc kernel_end indices (frame (entry_at s' t i)) s'
      ]
]

-- One round of `map_region`, which is the body of `vm_user_map`: whether it succeeded, and the state.
unfoldable pub map_page : ℕ → ℕ → ℕ → ℕ → Vm → Bool × Vm
unfolding walk_alloc put_entry make_page_entry
map_page kernel_end va pa flags s =
    let r = walk_alloc kernel_end (upper va) s.pgd s in
    elim r.0 [
      | none ↦ (false, r.1)
      | some pte ↦ (true, put_entry pte (pte_idx va) (make_page_entry pa flags) r.1)
    ]

unfoldable pub vm_user_map : ℕ → ℕ → ℕ → ℕ → Vm → ℤ × Vm
unfolding map_page
vm_user_map kernel_end user_va pa flags s =
    let r = map_page kernel_end user_va pa flags s in ((if r.0 then pos 0 else negsuc 0), r.1)

-- The loop of `map_region`, for at most `fuel` rounds.
unfoldable pub map_loop : ℕ → ℕ → ℕ → ℕ → ℕ → ℕ → Vm → Option Bool × Vm
unfolding map_page
map_loop kernel_end flags end zero va pa s = (none, s)
map_loop kernel_end flags end (suc fuel) va pa s = elim (ltb va end) [
  | false ↦ (some true, s)
  | true ↦
      let r = map_page kernel_end va pa flags s in
      elim r.0 [
        | false ↦ (some false, r.1)
        | true ↦
            map_loop kernel_end flags end fuel (u64 (va + page_size)) (u64 (pa + page_size)) r.1
      ]
]

-- Whether the whole region is mapped; `none` would be a loop that has not ended.
unfoldable pub map_region : ℕ → ℕ → ℕ → ℕ → Vm → Option Bool × Vm
unfolding map_loop
map_region kernel_end pa size flags s =
    map_loop kernel_end flags (u64 (pa + size)) (size / page_size + 2) pa pa s

-- The table that the entries of `indices` lead to from the table `t`, where all are valid.
unfoldable pub walk : List ℕ → ℕ → Vm → Option ℕ
walk [] t s = some t
walk (i ∷ indices) t s = elim (is_valid (entry_at s t i)) [
  | true ↦ walk indices (frame (entry_at s t i)) s
  | false ↦ none
]

unfoldable pub vm_user_unmap : ℕ → Vm → Vm
unfolding walk put_entry
vm_user_unmap user_va s = elim (walk (upper user_va) s.pgd s) [
  | none ↦ s
  | some pte ↦ put_entry pte (pte_idx user_va) 0 s
]

unfoldable pub vm_va2pa : ℕ → Vm → ℕ
unfolding walk
vm_va2pa va s = elim (walk (upper va) s.pgd s) [
  | none ↦ 0
  | some pte ↦ elim (is_valid (entry_at s pte (pte_idx va))) [
    | true ↦ bit_or (frame (entry_at s pte (pte_idx va))) (va % 4096)
    | false ↦ 0
  ]
]

abbrev pub succeeded : Option Bool → Bool
succeeded none = false
succeeded (some b) = b

-- `if (map_region(...) < 0) panic(...)`, unless the kernel has panicked before: `false`.
unfoldable pub must_map : ℕ → ℕ → ℕ → ℕ → Bool × Vm → Bool × Vm
unfolding map_region
must_map kernel_end pa size flags (false, s) = (false, s)
must_map kernel_end pa size flags (true, s) =
    let r = map_region kernel_end pa size flags s in (succeeded r.0, r.1)

-- `pgd = alloc_table()`, and the panic if it is NULL
unfoldable pub init_pgd : ℕ → Vm → Bool × Vm
unfolding alloc_table
init_pgd kernel_end s =
    let r = alloc_table kernel_end s in
    elim r.0 [ none ↦ (false, r.1) | some p ↦ (true, record r.1 { pgd = p }) ]

-- The last region of `vm_init`: its failure is only reported.
abbrev pub map_gic : ℕ → ℕ → Bool × Vm → Bool × Vm
map_gic kernel_end flags (false, s) = (false, s)
map_gic kernel_end flags (true, s) = (true, (map_region kernel_end 0x0800_0000 0x1_0000 flags s).1)

-- The flags are `PTE_KERNEL`, `PTE_NORMAL` and `PTE_DEVICE`. The result says whether the kernel did
-- not panic.
unfoldable pub vm_init : ℕ → ℕ → ℕ → ℕ → Vm → Bool × Vm
unfolding must_map init_pgd
vm_init kernel_end kernel normal device s =
    let kernel_size : ℕ = page_align (sub64 kernel_end kernel_base) in
    let heap_start : ℕ = page_align kernel_end in
    let remaining : ℕ = sub64 ram_size (sub64 heap_start kernel_base) in
    let s1 = must_map kernel_end kernel_base kernel_size kernel (init_pgd kernel_end s) in
    let s2 = must_map kernel_end heap_start remaining normal s1 in
    let s3 = must_map kernel_end 0x0900_0000 page_size device s2 in map_gic kernel_end device s3

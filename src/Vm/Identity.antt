-- ===== src/Vm/Identity.antt =====
-- `vm_init`: what is mapped when the MMU is switched on.
use tor_os.Prelude.{
  ℕ, ◌+◌, ◌%◌, ◌≤◌, ◌<◌, ◌≡◌, refl, sym, subst, ◌∙◌, Bool, true, false, List, Option, ltb, arith,
  Bool-cases, ◌⊎◌, inl, inr,
}
use tor_os.Prelude.Bits.{frame}
use tor_os.Mm.{sub64, page_size, page_align, kernel_base, ram_size}
use tor_os.Vm.{Vm, map_region, must_map, init_pgd, map_gic, vm_init, vm_va2pa}
use tor_os.Vm.Tables.{VmIsValid}
use tor_os.Vm.Walk.{IsOut}
use tor_os.Vm.Boot.{PagesAreLow, AreFlags, Steps, init_pgd_lem, must_map_lem}
use tor_os.Vm.Region.{Filled, PartlyFilled, map_region-Ends}

-- The addresses of a region are translated to themselves.
abbrev pub MapsItself : ℕ → ℕ → Vm → Type 0
MapsItself from end s =
    (va : ℕ) → from ≤ frame va → frame va < end → vm_va2pa va s ≡ frame va + va % 4096

module _ (s s' : Vm) where
  region_mapped : (from end : ℕ) → Filled from end s s' → MapsItself from end s'
  region_mapped from end f va h l = ground (arith, f va)

  region_kept :
      (from end a b : ℕ)
      → Filled a b s s'
      → (end ≤ a) ⊎ (b ≤ from)
      → MapsItself from end s
      → MapsItself from end s'
  region_kept from end a b f d m va h l = ground (arith, f va, m va h l)

  region_kept_partly :
      (from end a b : ℕ)
      → PartlyFilled a b s s'
      → (end ≤ a) ⊎ (b ≤ from)
      → MapsItself from end s
      → MapsItself from end s'
  region_kept_partly from end a b f d m va h l = elim (f va) [
    | inl c ↦ absurd (ground arith)
    | inr e ↦ e ∙ m va h l
  ]

-- After `vm_init` the RAM and the UART's page are mapped onto themselves, in a valid tree.
pub record Booted (kernel_end : ℕ) (s : Vm) : Type 0 where
  pub tree : (place : ℕ → Option (List ℕ)) × VmIsValid kernel_end place s
  pub ram : MapsItself kernel_base (kernel_base + ram_size) s
  pub uart : MapsItself 0x0900_0000 0x0900_1000 s

-- Two regions side by side.
side_by_side : (a b c : ℕ) (s : Vm) → MapsItself a b s → MapsItself b c s → MapsItself a c s
side_by_side a b c s m n va h l = elim (Bool-cases (ltb (frame va) b)) [
  | inl e ↦ m va h (ground arith)
  | inr e ↦ n va (ground arith) l
]

module _ (kernel_end kernel normal device : ℕ) (s : Vm) (c : PagesAreLow kernel_end s.mem)
    (fk : AreFlags kernel) (fn : AreFlags normal) (fd : AreFlags device)
    (above : kernel_base ≤ kernel_end) (below : kernel_end ≤ kernel_base + ram_size) where
  abbrev kernel_size : ℕ
  kernel_size = page_align (sub64 kernel_end kernel_base)

  abbrev heap_start : ℕ
  heap_start = page_align kernel_end

  abbrev remaining : ℕ
  remaining = sub64 ram_size (sub64 heap_start kernel_base)

  whole_kernel : kernel_base + kernel_size ≡ kernel_end
  whole_kernel = omega (arith, c.pages.aligned)

  heap_at : heap_start ≡ kernel_end
  heap_at = omega (arith, c.pages.aligned)

  whole_ram : heap_start + remaining ≡ kernel_base + ram_size
  whole_ram = omega (arith, c.pages.aligned)

  abbrev Starts : Bool × Vm → Type 0
  Starts r = ((r.0 ≡ true) × Booted kernel_end r.1) ⊎ ((r.0 ≡ false) × IsOut kernel_end r.1)

  abbrev last_region : Bool × Vm → Bool × Vm
  last_region o = map_gic kernel_end device o

  abbrev uart_region : Bool × Vm → Bool × Vm
  uart_region o = last_region (must_map kernel_end 0x0900_0000 page_size device o)

  abbrev heap_region : Bool × Vm → Bool × Vm
  heap_region o = uart_region (must_map kernel_end heap_start remaining normal o)

  abbrev kernel_region : Bool × Vm → Bool × Vm
  kernel_region o = heap_region (must_map kernel_end kernel_base kernel_size kernel o)

  -- A step that goes on with `next`, which passes a panic on.
  goes_on :
      (P : Vm → Type 0) (next : Bool × Vm → Bool × Vm) (r : Bool × Vm)
      → ((s' : Vm) → next (false, s') ≡ (false, s'))
      → ((s' : Vm) (place : ℕ → Option (List ℕ))
          → VmIsValid kernel_end place s'
          → P s'
          → Starts (next (true, s')))
      → Steps kernel_end P r
      → Starts (next r)
  goes_on P next (b, s') stops more (inl (e, (place, v), p)) =
      subst (λ x. Starts (next (x, s'))) (sym e) (more s' place v p)
  goes_on P next (b, s') stops more (inr (e, out)) =
      subst (λ x. Starts (next (x, s'))) (sym e) (subst Starts (sym (stops s')) (inr (refl, out)))

  after_uart :
      (s4 : Vm) (place : ℕ → Option (List ℕ))
      → VmIsValid kernel_end place s4
      → MapsItself kernel_base (kernel_base + ram_size) s4
      → MapsItself 0x0900_0000 0x0900_1000 s4
      → Starts (last_region (true, s4))
  after_uart s4 place v ram uart =
      let r = map_region kernel_end 0x0800_0000 0x1_0000 device s4 in
      let (valid, o) =
        map_region-Ends kernel_end 0x0800_0000 0x1_0000 device s4 place v fd.apart fd.valid refl
          (omega arith) in
      inl (
        refl,
        elim o [
          | inl (e, g) ↦ record {
            tree = valid;
            ram = region_kept s4 r.1 _ _ _ _ g (inr (omega arith)) ram;
            uart = region_kept s4 r.1 _ _ _ _ g (inr (omega arith)) uart;
          }
          | inr (e, out, g) ↦ record {
            tree = valid;
            ram = region_kept_partly s4 r.1 _ _ _ _ g (inr (omega arith)) ram;
            uart = region_kept_partly s4 r.1 _ _ _ _ g (inr (omega arith)) uart;
          }
        ],
      )

  after_heap :
      (s3 : Vm) (place : ℕ → Option (List ℕ))
      → VmIsValid kernel_end place s3
      → MapsItself kernel_base (kernel_base + ram_size) s3
      → Starts (uart_region (true, s3))
  after_heap s3 place v ram =
      goes_on (Filled 0x0900_0000 0x0900_1000 s3) last_region
        (must_map kernel_end 0x0900_0000 page_size device (true, s3)) (λ s'. refl)
        (λ s4 place' v' g.
          after_uart s4 place' v' (region_kept s3 s4 _ _ _ _ g (inr (omega arith)) ram)
            (region_mapped s3 s4 _ _ g))
        (must_map_lem kernel_end 0x0900_0000 page_size device s3 place v fd refl (omega arith))

  after_kernel :
      (s2 : Vm) (place : ℕ → Option (List ℕ))
      → VmIsValid kernel_end place s2
      → MapsItself kernel_base kernel_end s2
      → Starts (heap_region (true, s2))
  unfolding must_map
  after_kernel s2 place v ram =
      goes_on (Filled heap_start (heap_start + remaining) s2) uart_region
        (must_map kernel_end heap_start remaining normal (true, s2)) (λ s'. refl)
        (λ s3 place' v' g.
          let low =
            region_kept s2 s3 kernel_base kernel_end _ _ g (inl (omega (arith, heap_at))) ram in
          let high : MapsItself kernel_end (kernel_base + ram_size) s3 = λ va h l.
            region_mapped s2 s3 _ _ g va (omega (arith, heap_at)) (omega (arith, whole_ram)) in
          after_heap s3 place' v' (side_by_side kernel_base kernel_end _ s3 low high))
        (must_map_lem kernel_end heap_start remaining normal s2 place v fn
          (omega (arith, heap_at, c.pages.aligned)) (omega (arith, whole_ram)))

  after_pgd :
      (s1 : Vm) (place : ℕ → Option (List ℕ))
      → VmIsValid kernel_end place s1
      → Starts (kernel_region (true, s1))
  unfolding must_map
  after_pgd s1 place v =
      goes_on (Filled kernel_base (kernel_base + kernel_size) s1) heap_region
        (must_map kernel_end kernel_base kernel_size kernel (true, s1)) (λ s'. refl)
        (λ s2 place' v' g.
          after_kernel s2 place' v'
            (λ va h l. region_mapped s1 s2 _ _ g va h (omega (arith, whole_kernel))))
        (must_map_lem kernel_end kernel_base kernel_size kernel s1 place v fk refl
          (omega (arith, whole_kernel)))

  -- `vm_init`, with a valid page allocator below 2 ^ 48, the kernel's end at a page of the RAM and
  -- flag words that are valid and keep off the address bits: all of the RAM and the UART's page are
  -- mapped onto themselves in a valid tree of tables, or the kernel panics with no page left.
  pub vm_init_lem :
      let r = vm_init kernel_end kernel normal device s in
      ((r.0 ≡ true) × Booted kernel_end r.1) ⊎ ((r.0 ≡ false) × IsOut kernel_end r.1)
  unfolding vm_init must_map
  vm_init_lem =
      goes_on (λ _. Unit {0}) kernel_region (init_pgd kernel_end s) (λ s'. refl)
        (λ s1 place v _. after_pgd s1 place v) (init_pgd_lem kernel_end s c)

-- ===== src/Vm/Region.antt =====
-- Mapping a region onto itself.
use tor_os.Prelude.{
  ℕ, zero, suc, ◌+◌, ◌*◌, ◌/◌, ◌%◌, ◌^◌, ◌≤◌, ◌<◌, ◌≡◌, refl, ap, ◌∙◌, Bool, true, false, ◌&&◌,
  List, Option, some, ◌==◌, ltb, leb, ltb→lt, if◌then◌else◌, arith, Bool-cases, ◌⊎◌, inl, inr,
}
use tor_os.Prelude.Bits.{frame}
use tor_os.Mm.{u64, page_size}
use tor_os.Vm.{Vm, is_valid, map_page, map_loop, map_region, vm_va2pa}
use tor_os.Vm.Tables.{VmIsValid}
use tor_os.Vm.Walk.{IsOut}
use tor_os.Vm.Translate.{page_of}
use tor_os.Vm.Map.{map_page-Mapped, mapped_lem, same_entry_lem}

-- The address's page begins at `from` or above, below `end`.
abbrev pub covered : ℕ → ℕ → ℕ → Bool
covered from end vb = leb from (frame vb) && ltb (frame vb) end

-- The region is mapped onto itself, and no other translation changes.
abbrev pub Filled : ℕ → ℕ → Vm → Vm → Type 0
Filled from end s s' =
    (vb : ℕ)
    → vm_va2pa vb s' ≡ (if covered from end vb then frame vb + vb % 4096 else vm_va2pa vb s)

-- No translation changes but in the region.
abbrev pub PartlyFilled : ℕ → ℕ → Vm → Vm → Type 0
PartlyFilled from end s s' =
    (vb : ℕ) → (covered from end vb ≡ true) ⊎ (vm_va2pa vb s' ≡ vm_va2pa vb s)

-- How the loop may end, which it does.
abbrev pub Ends : ℕ → ℕ → ℕ → Vm → Option Bool × Vm → Type 0
Ends kernel_end from end s r =
    ((place : ℕ → Option (List ℕ)) × VmIsValid kernel_end place r.1)
    × (((r.0 ≡ some true) × Filled from end s r.1)
        ⊎ ((r.0 ≡ some false) × IsOut kernel_end r.1 × PartlyFilled from end s r.1))

module _ (kernel_end flags end fuel x : ℕ) (s : Vm) where
  abbrev first_page : Bool × Vm
  first_page = map_page kernel_end x x flags s

  loop-end : ltb x end ≡ false → map_loop kernel_end flags end (suc fuel) x x s ≡ (some true, s)
  unfolding map_loop
  loop-end h = rw (h, map_loop) refl

  loop-failed :
      ltb x end ≡ true
      → first_page.0 ≡ false
      → map_loop kernel_end flags end (suc fuel) x x s ≡ (some false, first_page.1)
  unfolding map_loop
  loop-failed h f = rw (h, map_loop) (rw (f, map_loop) refl)

  loop-more :
      ltb x end ≡ true
      → first_page.0 ≡ true
      → u64 (x + page_size) ≡ x + 4096
      → map_loop kernel_end flags end (suc fuel) x x s
        ≡ map_loop kernel_end flags end fuel (x + 4096) (x + 4096) first_page.1
  unfolding map_loop
  loop-more h f next =
      rw (h, map_loop)
        (rw (f, map_loop) (ap (λ y. map_loop kernel_end flags end fuel y y first_page.1) next))

-- A page and the region after it make a region.
module _ (x end : ℕ) (s s1 s2 : Vm) (aligned : x % 4096 ≡ 0) (low : end ≤ 2 ^ 48) (below : x < end)
    (there : (vb : ℕ) → page_of vb ≡ page_of x → vm_va2pa vb s1 ≡ frame x + vb % 4096)
    (others : (vb : ℕ) → (page_of vb == page_of x) ≡ false → vm_va2pa vb s1 ≡ vm_va2pa vb s) where
  joined : Filled (x + 4096) end s1 s2 → Filled x end s s2
  joined f vb = elim (Bool-cases (page_of vb == page_of x)) [
    | inl h ↦ ground (arith, f vb, there vb (ground arith))
    | inr h ↦ ground (arith, f vb, others vb h)
  ]

  joined_part : PartlyFilled (x + 4096) end s1 s2 → PartlyFilled x end s s2
  joined_part f vb = elim (Bool-cases (page_of vb == page_of x)) [
    | inl h ↦ inl (ground arith)
    | inr h ↦ elim (f vb) [ inl c ↦ inl (ground arith) | inr e ↦ inr (e ∙ others vb h) ]
  ]

map_loop-Ends :
    (kernel_end flags end fuel x : ℕ) (s : Vm) (place : ℕ → Option (List ℕ))
    → VmIsValid kernel_end place s
    → flags / 4096 % 2 ^ 36 ≡ 0
    → is_valid flags ≡ true
    → x % 4096 ≡ 0
    → end ≤ 2 ^ 48
    → x < end + 4096
    → end + 4096 < x + fuel * 4096
    → Ends kernel_end x end s (map_loop kernel_end flags end fuel x x s)
map_loop-Ends kernel_end flags end zero x s place v h f a low lx enough = absurd (omega arith)
map_loop-Ends kernel_end flags end (suc fuel) x s place v h f a low lx enough =
    elim (Bool-cases (ltb x end)) [
      | inr stop ↦
          rw (loop-end kernel_end flags end fuel x s stop)
            ((place, v), inl (refl, λ vb. ground arith))
      | inl go ↦
          let r = first_page kernel_end flags end fuel x s in
          let m = map_page-Mapped kernel_end x x flags s place v in
          let there = λ (vb : ℕ) (e : page_of vb ≡ page_of x) (d : r.0 ≡ true).
            mapped_lem x flags x vb r.1 h f e (m.there d) in
          let others = λ (vb : ℕ) (e : (page_of vb == page_of x) ≡ false).
            same_entry_lem vb s r.1 (m.others vb (ground arith)) in
          elim (Bool-cases r.0) [
            | inr d ↦ rw (loop-failed kernel_end flags end fuel x s go d) (
              (m.place', m.valid),
              inr (refl, (m.failed d).0, λ vb. inr (same_entry_lem vb s r.1 ((m.failed d).1 vb))),
            )
            | inl d ↦
                let ih =
                  map_loop-Ends kernel_end flags end fuel (x + 4096) r.1 m.place' m.valid h f
                    (omega arith) low (omega (arith, ltb→lt x end go)) (omega arith) in
                let next : u64 (x + page_size) ≡ x + 4096 = omega (arith, ltb→lt x end go) in
                let lt = ltb→lt x end go in
                let s2 = (map_loop kernel_end flags end fuel (x + 4096) (x + 4096) r.1).1 in
                rw (loop-more kernel_end flags end fuel x s go d next) (
                  ih.0,
                  elim ih.1 [
                    | inl (e, g) ↦
                        inl (e, joined x end s r.1 s2 a low lt (λ vb q. there vb q d) others g)
                    | inr (e, out, g) ↦ inr (
                      e,
                      out,
                      joined_part x end s r.1 s2 a low lt (λ vb q. there vb q d) others g,
                    )
                  ],
                )
          ]
    ]

-- Mapping a region of whole pages below 2 ^ 48 onto itself, in a valid tree of tables, with flags that
-- are valid and keep off the address bits: the loop ends and the tree stays valid; either it
-- succeeds, every address whose page begins in the region is translated to itself and all others as
-- before, or no page is left, it fails, and only translations in the region have changed.
pub map_region-Ends :
    (kernel_end pa size flags : ℕ) (s : Vm) (place : ℕ → Option (List ℕ))
    → VmIsValid kernel_end place s
    → flags / 4096 % 2 ^ 36 ≡ 0
    → is_valid flags ≡ true
    → pa % 4096 ≡ 0
    → pa + size ≤ 2 ^ 48
    → Ends kernel_end pa (pa + size) s (map_region kernel_end pa size flags s)
unfolding map_region
map_region-Ends kernel_end pa size flags s place v h f a low =
    let whole : u64 (pa + size) ≡ pa + size = omega arith in
    rw whole (
      map_loop-Ends kernel_end flags (pa + size) (size / page_size + 2) pa s place v h f a low
        (omega arith) (omega arith))

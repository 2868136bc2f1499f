-- ===== src/Vm/Unmap.antt =====
-- Unmapping one page.
use tor_os.Prelude.{
  ℕ, ◌+◌, ◌≤◌, ◌≡◌, refl, sym, ap, ◌∙◌, List, [], ◌∷◌, Option, none, some, ◌==◌, if◌then◌else◌,
  length, arith, Bool-cases, Option-cases, inl, inr,
}
use tor_os.Prelude.Bits.{frame}
use tor_os.Vm.{Vm, entry_at, put_entry, is_valid, walk, upper, pte_idx, vm_user_unmap, vm_va2pa}
use tor_os.Vm.Tables.{VmIsValid, entry_for, AreIndices, walk-valid, walk-missing}
use tor_os.Vm.Write.{onto}
use tor_os.Vm.Translate.{
  page_of, entry_of, end_of, walk_entry, translated, vm_va2pa_entry, page_of-indices,
}
use tor_os.Vm.Map.{put_there, put_others, put-VmIsValid, same_entry_lem}

-- A walk ends at the table of its path.
walk_place :
    (kernel_end : ℕ) (place : ℕ → Option (List ℕ)) (s : Vm) (path : List ℕ) (t p : ℕ) (q : List ℕ)
    → VmIsValid kernel_end place s
    → place t ≡ some q
    → length q + length path ≤ 3
    → AreIndices path
    → walk path t s ≡ some p
    → place p ≡ some (onto path q)
unfolding walk
walk_place kernel_end place s [] t p q v e l a h =
    let same : t ≡ p = ground arith in ap place (sym same) ∙ e
walk_place kernel_end place s (i ∷ rest) t p q v e l a h =
    let y = entry_at s t i in
    elim (Bool-cases (is_valid y)) [
      | inl f ↦
          walk_place kernel_end place s rest (frame y) p (i ∷ q) v
            (v.linked t i q e (omega arith) a.0 f) (omega arith) a.1
            (sym (walk-valid s i t y refl rest f) ∙ h)
      | inr f ↦ let gone = sym (walk-missing s i t y refl rest f) ∙ h in cc
    ]

module _ (va : ℕ) (s : Vm) where
  unmap-none : walk (upper va) s.pgd s ≡ none → vm_user_unmap va s ≡ s
  unfolding vm_user_unmap
  unmap-none e = rw (e, vm_user_unmap) refl

  unmap-some :
      (p : ℕ) → walk (upper va) s.pgd s ≡ some p → vm_user_unmap va s ≡ put_entry p (pte_idx va) 0 s
  unfolding vm_user_unmap
  unmap-some p e = rw (e, vm_user_unmap) refl

-- An address of a page without an entry is translated to 0.
gone_lem : (va vb : ℕ) (s : Vm) → page_of vb ≡ page_of va → entry_of va s ≡ 0 → vm_va2pa vb s ≡ 0
gone_lem va vb s same e =
    vm_va2pa_entry vb s
    ∙ ap (λ x. translated vb (entry_for s x s.pgd)) (page_of-indices vb va same)
    ∙ ap (translated vb) e

-- Unmapping a page in a valid tree of tables: the tree stays valid, the addresses of the page are
-- translated to 0, and all others as before.
pub vm_user_unmap_lem :
    (kernel_end va : ℕ) (s : Vm) (place : ℕ → Option (List ℕ))
    → VmIsValid kernel_end place s
    → VmIsValid kernel_end place (vm_user_unmap va s)
      × ((vb : ℕ)
          → vm_va2pa vb (vm_user_unmap va s)
            ≡ (if page_of vb == page_of va then 0 else vm_va2pa vb s))
vm_user_unmap_lem kernel_end va s place v = elim (Option-cases (walk (upper va) s.pgd s)) [
  | inl h ↦
      let absent =
        sym (walk_entry s (pte_idx va) (upper va) s.pgd) ∙ ap (end_of s (pte_idx va)) h in
      rw (unmap-none va s h) (
        v,
        λ vb. elim (Bool-cases (page_of vb == page_of va)) [
          | inl e ↦ rw e (gone_lem va vb s (ground arith) absent)
          | inr e ↦ rw e refl
        ],
      )
  | inr (p, h) ↦
      let found =
        walk_place kernel_end place s (upper va) s.pgd p [] v v.root (omega arith)
          (omega arith, (omega arith, (omega arith, tt))) h in
      let s' = put_entry p (pte_idx va) 0 s in
      rw (unmap-some va s p h) (
        put-VmIsValid kernel_end place s v va p 0 found h,
        λ vb. elim (Bool-cases (page_of vb == page_of va)) [
          | inl e ↦
              rw e
                (gone_lem va vb s' (ground arith) (put_there kernel_end place s v va p 0 found h))
          | inr e ↦ rw e (
              same_entry_lem vb s s'
                (put_others kernel_end place s v va p 0 found h vb (ground arith)))
        ],
      )
]

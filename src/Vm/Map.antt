-- ===== src/Vm/Map.antt =====
-- Mapping and unmapping one page: what every address is translated to afterwards.
use tor_os.Prelude.{
  ℕ, ◌+◌, ◌/◌, ◌%◌, ◌^◌, ◌≡◌, ◌≢◌, refl, sym, ap, ◌∙◌, Bool, true, false, List, [], ◌∷◌, Option,
  none, some, ◌==◌, if◌then◌else◌, arith, Bool-cases, Option-cases, ◌⊎◌, inl, inr, bit_or,
}
use tor_os.Prelude.Int.{pos, negsuc}
use tor_os.Prelude.Bits.{frame, frame-bit_or, page-bit_or, bit_or_step}
use tor_os.Vm.{
  Vm, put_entry, is_valid, make_page_entry, walk_alloc, walk, upper, pgd_idx, pud_idx, pmd_idx,
  pte_idx, map_page, vm_user_map, vm_va2pa,
}
use tor_os.Vm.Tables.{VmIsValid, entry_for}
use tor_os.Vm.Write.{entry_put_same, put_leaf-VmIsValid, walk_put_leaf, entry_for_put_leaf}
use tor_os.Vm.Walk.{IsOut, walk_alloc_lem}
use tor_os.Vm.Translate.{
  page_of, indices, entry_of, end_of, walk_entry, translated, translated-valid, vm_va2pa_entry,
  AreIndices-indices, page_of-indices, indices-page_of,
}

-- The entry that mapping writes.
page_entry_lem :
    (pa flags : ℕ)
    → flags / 4096 % 2 ^ 36 ≡ 0
    → is_valid flags ≡ true
    → (frame (make_page_entry pa flags) ≡ frame pa) × (is_valid (make_page_entry pa flags) ≡ true)
unfolding make_page_entry
page_entry_lem pa flags h f =
    (frame-bit_or (frame pa) flags h ∙ omega arith, ground (arith, bit_or_step (frame pa) flags))

-- How `map_page` ends, which says whether it succeeded.
pub record Mapped (kernel_end : ℕ) (va e : ℕ) (s : Vm) (r : Bool × Vm) : Type 0 where
  pub place' : ℕ → Option (List ℕ)
  pub valid : VmIsValid kernel_end place' r.1
  pub there : r.0 ≡ true → entry_of va r.1 ≡ e
  pub others : (vb : ℕ) → page_of vb ≢ page_of va → entry_of vb r.1 ≡ entry_of vb s
  pub failed : r.0 ≡ false → IsOut kernel_end r.1 × ((vb : ℕ) → entry_of vb r.1 ≡ entry_of vb s)

module _ (kernel_end : ℕ) (va pa flags : ℕ) (s : Vm) where
  abbrev walked : Option ℕ × Vm
  walked = walk_alloc kernel_end (upper va) s.pgd s

  map_page-none : walked.0 ≡ none → map_page kernel_end va pa flags s ≡ (false, walked.1)
  unfolding map_page
  map_page-none e = rw (e, map_page) refl

  map_page-some :
      (p : ℕ)
      → walked.0 ≡ some p
      → map_page kernel_end va pa flags s
        ≡ (true, put_entry p (pte_idx va) (make_page_entry pa flags) walked.1)
  unfolding map_page
  map_page-some p e = rw (e, map_page) refl

-- A leaf that a walk has found is written.
module _ (kernel_end : ℕ) (place : ℕ → Option (List ℕ)) (s : Vm) (v : VmIsValid kernel_end place s)
    (va p e : ℕ) (found : place p ≡ some (pmd_idx va ∷ pud_idx va ∷ pgd_idx va ∷ []))
    (way : walk (upper va) s.pgd s ≡ some p) where
  abbrev put : Vm
  put = put_entry p (pte_idx va) e s

  pub put_there : entry_of va put ≡ e
  unfolding put_entry
  put_there =
      let r = pmd_idx va ∷ pud_idx va ∷ pgd_idx va ∷ [] in
      let still =
        walk_put_leaf kernel_end place s v p (pte_idx va) e r found (omega arith) refl (upper va)
          s.pgd [] v.root (omega arith) (omega arith, (omega arith, (omega arith, tt)))
        ∙ way in
      sym (walk_entry put (pte_idx va) (upper va) s.pgd)
      ∙ ap (end_of put (pte_idx va)) still
      ∙ entry_put_same kernel_end place s v p (pte_idx va) e r found (omega arith)

  pub put_others : (vb : ℕ) → page_of vb ≢ page_of va → entry_of vb put ≡ entry_of vb s
  unfolding put_entry
  put_others vb other =
      entry_for_put_leaf kernel_end place s v p (pte_idx va) e
        (pmd_idx va ∷ pud_idx va ∷ pgd_idx va ∷ []) found (omega arith) refl (indices vb) s.pgd []
        v.root refl (AreIndices-indices vb) (λ h. other (indices-page_of va vb h))

  pub put-VmIsValid : VmIsValid kernel_end place put
  put-VmIsValid =
      put_leaf-VmIsValid kernel_end place s v p (pte_idx va) e
        (pmd_idx va ∷ pud_idx va ∷ pgd_idx va ∷ []) found (omega arith) refl

pub map_page-Mapped :
    (kernel_end va pa flags : ℕ) (s : Vm) (place : ℕ → Option (List ℕ))
    → VmIsValid kernel_end place s
    → Mapped kernel_end va (make_page_entry pa flags) s (map_page kernel_end va pa flags s)
map_page-Mapped kernel_end va pa flags s place v =
    let r = walked kernel_end va pa flags s in
    let w =
      walk_alloc_lem kernel_end (upper va) s.pgd s place [] v v.root (omega arith)
        (omega arith, (omega arith, (omega arith, tt))) in
    let before = λ (vb : ℕ).
      ap (entry_for r.1 (indices vb)) w.extends.root
      ∙ w.extends.same (indices vb) s.pgd [] v.root refl (AreIndices-indices vb) in
    elim (Option-cases r.0) [
      | inl h ↦ rw (map_page-none kernel_end va pa flags s h) (record {
        place' = w.place';
        valid = w.valid;
        there = λ f. cc;
        others = λ vb _. before vb;
        failed = λ _. (w.out h, before);
      })
      | inr (p, h) ↦
          let f = w.found p h in
          let way = ap (λ t. walk (upper va) t r.1) w.extends.root ∙ f.1 in
          let e = make_page_entry pa flags in
          rw (map_page-some kernel_end va pa flags s p h) (record {
            place' = w.place';
            valid = put-VmIsValid kernel_end w.place' r.1 w.valid va p e f.0 way;
            there = λ _. put_there kernel_end w.place' r.1 w.valid va p e f.0 way;
            others = λ vb other.
                put_others kernel_end w.place' r.1 w.valid va p e f.0 way vb other ∙ before vb;
            failed = λ g. cc;
          })
    ]

-- What a page is translated to once its entry is `make_page_entry pa flags`.
pub mapped_lem :
    (pa flags va vb : ℕ) (s : Vm)
    → flags / 4096 % 2 ^ 36 ≡ 0
    → is_valid flags ≡ true
    → page_of vb ≡ page_of va
    → entry_of va s ≡ make_page_entry pa flags
    → vm_va2pa vb s ≡ frame pa + vb % 4096
mapped_lem pa flags va vb s h f same e =
    let w = page_entry_lem pa flags h f in
    vm_va2pa_entry vb s
    ∙ ap (λ x. translated vb (entry_for s x s.pgd)) (page_of-indices vb va same)
    ∙ ap (translated vb) e
    ∙ translated-valid vb (make_page_entry pa flags) w.1
    ∙ ap (λ x. bit_or x (vb % 4096)) w.0
    ∙ page-bit_or (frame pa) (vb % 4096) (omega arith) (omega arith)

pub same_entry_lem :
    (vb : ℕ) (s s' : Vm) → entry_of vb s' ≡ entry_of vb s → vm_va2pa vb s' ≡ vm_va2pa vb s
same_entry_lem vb s s' e = vm_va2pa_entry vb s' ∙ ap (translated vb) e ∙ sym (vm_va2pa_entry vb s)

-- Mapping a page in a valid tree of tables, with flags that are valid and keep off the address bits:
-- the tree stays valid, and either the call succeeds, the page is translated to the frame and all
-- other addresses are translated as before, or no page is left, it fails and no translation
-- changes.
pub vm_user_map_lem :
    (kernel_end va pa flags : ℕ) (s : Vm) (place : ℕ → Option (List ℕ))
    → VmIsValid kernel_end place s
    → flags / 4096 % 2 ^ 36 ≡ 0
    → is_valid flags ≡ true
    → let r = vm_user_map kernel_end va pa flags s in
      ((place' : ℕ → Option (List ℕ)) × VmIsValid kernel_end place' r.1)
      × (((r.0 ≡ pos 0)
            × ((vb : ℕ)
                → vm_va2pa vb r.1
                  ≡ (if page_of vb == page_of va then frame pa + vb % 4096 else vm_va2pa vb s)))
          ⊎ ((r.0 ≡ negsuc 0)
              × IsOut kernel_end r.1
              × ((vb : ℕ) → vm_va2pa vb r.1 ≡ vm_va2pa vb s)))
unfolding vm_user_map
vm_user_map_lem kernel_end va pa flags s place v h f =
    let r = map_page kernel_end va pa flags s in
    let m = map_page-Mapped kernel_end va pa flags s place v in
    (
      (m.place', m.valid),
      elim (Bool-cases r.0) [
        | inl d ↦ inl (
          rw d refl,
          λ vb. elim (Bool-cases (page_of vb == page_of va)) [
            | inl e ↦ rw e (mapped_lem pa flags va vb r.1 h f (ground arith) (m.there d))
            | inr e ↦ rw e (same_entry_lem vb s r.1 (m.others vb (ground arith)))
          ],
        )
        | inr d ↦ inr (rw d refl, (m.failed d).0, λ vb. same_entry_lem vb s r.1 ((m.failed d).1 vb))
      ],
    )

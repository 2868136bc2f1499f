-- ===== src/Vm/Translate.antt =====
-- Translating an address: the walk and the entry at its end, as one entry for a path.
use tor_os.Prelude.{
  ℕ, ◌/◌, ◌%◌, ◌^◌, ◌≡◌, refl, sym, ap, ◌∙◌, true, false, List, [], ◌∷◌, ◌++◌, Option, none, some,
  if◌then◌else◌, arith, Bool-cases, Option-cases, inl, inr, bit_or,
}
use tor_os.Prelude.Bits.{frame}
use tor_os.Vm.{Vm, entry_at, is_valid, walk, upper, pgd_idx, pud_idx, pmd_idx, pte_idx, vm_va2pa}
use tor_os.Vm.Tables.{
  entry_for, AreIndices, walk-valid, walk-missing, entry_for-valid, entry_for-missing,
}

-- The number of an address's page, of the 48 bits that the tables look at.
abbrev pub page_of : ℕ → ℕ
page_of va = va / 4096 % 2 ^ 36

abbrev pub indices : ℕ → List ℕ
indices va = pgd_idx va ∷ pud_idx va ∷ pmd_idx va ∷ pte_idx va ∷ []

-- The entry that translates an address.
abbrev pub entry_of : ℕ → Vm → ℕ
entry_of va s = entry_for s (indices va) s.pgd

module _ (s : Vm) (l : ℕ) where
  -- What a walk and the entry at its end amount to.
  abbrev pub end_of : Option ℕ → ℕ
  end_of r = elim r [ none ↦ 0 | some p ↦ entry_at s p l ]

  pub walk_entry : (path : List ℕ) (t : ℕ) → end_of (walk path t s) ≡ entry_for s (path ++ l ∷ []) t
  unfolding walk entry_for
  walk_entry [] t = refl
  walk_entry (i ∷ []) t = elim (Bool-cases (is_valid (entry_at s t i))) [
    | inl h ↦
        ap end_of (walk-valid s i t (entry_at s t i) refl [] h)
        ∙ sym (entry_for-valid s i t (entry_at s t i) refl l [] h)
    | inr h ↦
        ap end_of (walk-missing s i t (entry_at s t i) refl [] h)
        ∙ sym (entry_for-missing s i t (entry_at s t i) refl l [] h)
  ]
  walk_entry (i ∷ j ∷ rest) t = elim (Bool-cases (is_valid (entry_at s t i))) [
    | inl h ↦
        ap end_of (walk-valid s i t (entry_at s t i) refl (j ∷ rest) h)
        ∙ walk_entry (j ∷ rest) (frame (entry_at s t i))
        ∙ sym (entry_for-valid s i t (entry_at s t i) refl j (rest ++ l ∷ []) h)
    | inr h ↦
        ap end_of (walk-missing s i t (entry_at s t i) refl (j ∷ rest) h)
        ∙ sym (entry_for-missing s i t (entry_at s t i) refl j (rest ++ l ∷ []) h)
  ]

-- What an entry makes of an address.
abbrev pub translated : ℕ → ℕ → ℕ
translated va e = if is_valid e then bit_or (frame e) (va % 4096) else 0

pub translated-valid :
    (va e : ℕ) → is_valid e ≡ true → translated va e ≡ bit_or (frame e) (va % 4096)
translated-valid va e h = rw h refl

pub translated-missing : (va e : ℕ) → is_valid e ≡ false → translated va e ≡ 0
translated-missing va e h = rw h refl

pub vm_va2pa_entry : (va : ℕ) (s : Vm) → vm_va2pa va s ≡ translated va (entry_of va s)
unfolding vm_va2pa
vm_va2pa_entry va s =
    let e = walk_entry s (pte_idx va) (upper va) s.pgd in
    elim (Option-cases (walk (upper va) s.pgd s)) [
      | inl h ↦ rw (h, vm_va2pa) (ap (translated va) (sym (ap (end_of s (pte_idx va)) h) ∙ e))
      | inr (p, h) ↦
          let at = sym (ap (end_of s (pte_idx va)) h) ∙ e in
          elim (Bool-cases (is_valid (entry_at s p (pte_idx va)))) [
            | inl f ↦ rw (h, f, vm_va2pa) (sym (translated-valid va _ f) ∙ ap (translated va) at)
            | inr f ↦ rw (h, f, vm_va2pa) (sym (translated-missing va _ f) ∙ ap (translated va) at)
          ]
    ]

pub AreIndices-indices : (va : ℕ) → AreIndices (indices va)
AreIndices-indices va = (omega arith, (omega arith, (omega arith, (omega arith, tt))))

pub page_of-indices : (va vb : ℕ) → page_of va ≡ page_of vb → indices va ≡ indices vb
page_of-indices va vb h =
    let a : pgd_idx va ≡ pgd_idx vb = omega arith in
    let b : pud_idx va ≡ pud_idx vb = omega arith in
    let c : pmd_idx va ≡ pmd_idx vb = omega arith in
    let d : pte_idx va ≡ pte_idx vb = omega arith in cc

pub indices-page_of :
    (va vb : ℕ)
    → pte_idx vb ∷ pmd_idx vb ∷ pud_idx vb ∷ pgd_idx vb ∷ []
      ≡ pte_idx va ∷ pmd_idx va ∷ pud_idx va ∷ pgd_idx va ∷ []
    → page_of vb ≡ page_of va
indices-page_of va vb h =
    let a : pgd_idx vb ≡ pgd_idx va = cc in
    let b : pud_idx vb ≡ pud_idx va = cc in
    let c : pmd_idx vb ≡ pmd_idx va = cc in let d : pte_idx vb ≡ pte_idx va = cc in omega arith

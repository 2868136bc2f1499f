-- ===== src/Vm/Write.antt =====
-- Writing an entry of the last level: only the path that ends in it sees the change.
use tor_os.Prelude.{
  ℕ, ◌+◌, ◌*◌, ◌≤◌, ◌<◌, ◌≡◌, ◌≢◌, refl, sym, ap, ap₂, ◌∙◌, true, List, [], ◌∷◌, Option, some, ◌==◌,
  length, arith, Bool-cases, inl, inr,
}
use tor_os.Prelude.Bits.{frame}
use tor_os.Vm.{Vm, entry_at, put_entry, is_valid, walk}
use tor_os.Vm.Tables.{
  VmIsValid, entry_for, AreIndices, same_entry, walk-valid, walk-missing, entry_for-valid,
  entry_for-missing,
}

-- The path of the entries of `indices` below a table of the path `q`.
abbrev pub onto : List ℕ → List ℕ → List ℕ
onto [] q = q
onto (i ∷ rest) q = onto rest (i ∷ q)

pub some-list : (a b : List ℕ) → some a ≡ some b → a ≡ b
some-list a b h = cc

module _ (kernel_end : ℕ) (place : ℕ → Option (List ℕ)) (s : Vm) (v : VmIsValid kernel_end place s)
    (t i e : ℕ) (r : List ℕ) (at : place t ≡ some r) (lt : i < 512) where
  abbrev after : Vm
  after = put_entry t i e s

  pub entry_put_same : entry_at after t i ≡ e
  unfolding put_entry
  entry_put_same = ground arith

  pub entry_put :
      (x j : ℕ) (q : List ℕ)
      → place x ≡ some q
      → j < 512
      → (x ≡ t → j ≡ i → ⊥)
      → entry_at after x j ≡ entry_at s x j
  unfolding put_entry
  entry_put x j q e l apart = elim (Bool-cases (x + 8 * j == t + 8 * i)) [
    | inl h ↦
        let same = same_entry v x t j i q r e at l lt (ground arith) in absurd (apart same.0 same.1)
    | inr h ↦ rw h refl
  ]

  -- A table of another depth is not written.
  pub entry_put_depth :
      (x j : ℕ) (q : List ℕ)
      → place x ≡ some q
      → j < 512
      → length q ≢ length r
      → entry_at after x j ≡ entry_at s x j
  entry_put_depth x j q f l apart =
      entry_put x j q f l (λ h k. apart (ap length (some-list q r (sym f ∙ ap place h ∙ at))))

  module _ (leaf : length r ≡ 3) where
    pub put_leaf-VmIsValid : VmIsValid kernel_end place after
    unfolding put_entry
    put_leaf-VmIsValid = record {
      pages = v.pages;
      low = v.low;
      root = v.root;
      tables = v.tables;
      linked = λ x j q f l lt valid. linked_after x j q f l lt valid;
    }
      where
        linked_after :
            (x j : ℕ) (q : List ℕ)
            → place x ≡ some q
            → length q < 3
            → j < 512
            → is_valid (entry_at after x j) ≡ true
            → place (frame (entry_at after x j)) ≡ some (j ∷ q)
        linked_after x j q f l lt valid =
            let same = entry_put_depth x j q f lt (λ h. absurd (omega arith)) in
            ap (λ y. place (frame y)) same ∙ v.linked x j q f l lt (sym (ap is_valid same) ∙ valid)

    pub walk_put_leaf :
        (indices : List ℕ) (x : ℕ) (q : List ℕ)
        → place x ≡ some q
        → length q + length indices ≤ 3
        → AreIndices indices
        → walk indices x after ≡ walk indices x s
    unfolding walk
    walk_put_leaf [] x q f l a = refl
    walk_put_leaf (j ∷ rest) x q f l a =
        let same = entry_put_depth x j q f a.0 (λ h. absurd (omega arith)) in
        elim (Bool-cases (is_valid (entry_at s x j))) [
          | inl h ↦
              let next = v.linked x j q f (omega arith) a.0 h in
              walk-valid after j x (entry_at s x j) same rest h
              ∙ walk_put_leaf rest (frame (entry_at s x j)) (j ∷ q) next (omega arith) a.1
              ∙ sym (walk-valid s j x (entry_at s x j) refl rest h)
          | inr h ↦
              walk-missing after j x (entry_at s x j) same rest h
              ∙ sym (walk-missing s j x (entry_at s x j) refl rest h)
        ]

    -- The entries for other paths are as before.
    pub entry_for_put_leaf :
        (indices : List ℕ) (x : ℕ) (q : List ℕ)
        → place x ≡ some q
        → length q + length indices ≡ 4
        → AreIndices indices
        → onto indices q ≢ i ∷ r
        → entry_for after indices x ≡ entry_for s indices x
    unfolding entry_for
    entry_for_put_leaf [] x q f l a other = refl
    entry_for_put_leaf (j ∷ []) x q f l a other =
        entry_put x j q f a.0
          (λ h k. other (ap₂ (λ y z. y ∷ z) k (some-list q r (sym f ∙ ap place h ∙ at))))
    entry_for_put_leaf (j ∷ k ∷ rest) x q f l a other =
        let same = entry_put_depth x j q f a.0 (λ h. absurd (omega arith)) in
        elim (Bool-cases (is_valid (entry_at s x j))) [
          | inl h ↦
              let next = v.linked x j q f (omega arith) a.0 h in
              entry_for-valid after j x (entry_at s x j) same k rest h
              ∙ entry_for_put_leaf (k ∷ rest) (frame (entry_at s x j)) (j ∷ q) next (omega arith)
                  a.1 other
              ∙ sym (entry_for-valid s j x (entry_at s x j) refl k rest h)
          | inr h ↦
              entry_for-missing after j x (entry_at s x j) same k rest h
              ∙ sym (entry_for-missing s j x (entry_at s x j) refl k rest h)
        ]

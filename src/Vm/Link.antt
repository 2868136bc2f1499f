-- ===== src/Vm/Link.antt =====
-- A new table is linked: every entry that was there reads as before.
use tor_os.Prelude.{
  ℕ, ◌+◌, ◌*◌, ◌%◌, ◌^◌, ◌≤◌, ◌<◌, ◌≡◌, refl, sym, ap, ap₂, ◌∙◌, true, false, List, [], ◌∷◌, Option,
  some, ◌==◌, if◌then◌else◌, length, arith, Bool-cases, ◌⊎◌, inl, inr,
}
use tor_os.Prelude.Bits.{frame}
use tor_os.Mm.{page_address}
use tor_os.Mm.Pages.{PagesAreValid, Given, taken}
use tor_os.Vm.{Vm, entry_at, put_entry, is_valid, clear_page, make_table_entry}
use tor_os.Vm.Tables.{
  VmIsValid, IsTable, entry_for, AreIndices, same_entry, table_page, make_table_entry_lem,
  entry_for-valid, entry_for-missing,
}
use tor_os.Vm.Write.{some-list}

-- What making tables keeps: where tables stand, valid entries, and what every full path leads to.
pub record Extends (place place' : ℕ → Option (List ℕ)) (s s' : Vm) : Type 0 where
  pub root : s'.pgd ≡ s.pgd
  pub placed : (x : ℕ) (q : List ℕ) → place x ≡ some q → place' x ≡ some q
  pub kept :
      (x i : ℕ) (q : List ℕ)
      → place x ≡ some q
      → i < 512
      → is_valid (entry_at s x i) ≡ true
      → entry_at s' x i ≡ entry_at s x i
  pub same :
      (indices : List ℕ) (x : ℕ) (q : List ℕ)
      → place x ≡ some q
      → length q + length indices ≡ 4
      → AreIndices indices
      → entry_for s' indices x ≡ entry_for s indices x

-- A new table for the entry `i` of the table at `t`, which was missing.
module _ (kernel_end : ℕ) (place : ℕ → Option (List ℕ)) (s : Vm) (v : VmIsValid kernel_end place s)
    (t i : ℕ) (r : List ℕ) (at : place t ≡ some r) (lt : i < 512) (above : length r < 3)
    (missing : is_valid (entry_at s t i) ≡ false) (n : ℕ)
    (g : Given kernel_end s.mem (taken s.mem n) (page_address kernel_end s.mem n) n)
    (pv : PagesAreValid kernel_end (taken s.mem n)) where
  abbrev page : ℕ
  page = page_address kernel_end s.mem n

  abbrev pub linked_to : Vm
  linked_to =
      put_entry t i (make_table_entry page) (clear_page page (record s { mem = taken s.mem n }))

  abbrev pub place_with : ℕ → Option (List ℕ)
  place_with x = if x == page then some (i ∷ r) else place x

  page_bounds : (page % 4096 ≡ 0) × (page + 4096 ≤ 2 ^ 48)
  page_bounds = omega (arith, g.in_range, v.low, v.pages.aligned, v.pages.fits)

  -- No table stood in the new page.
  fresh : (x : ℕ) (q : List ℕ) → place x ≡ some q → (x == page) ≡ false
  fresh x q e =
      let w = v.tables x q e in
      elim (Bool-cases (x == page)) [
        | inl h ↦
            let same : w.index ≡ n =
              ground
                (arith, w.address, w.in_range, g.in_range, v.low, v.pages.aligned, v.pages.fits) in
            cc (w.in_use, g.was_free, same)
        | inr h ↦ h
      ]

  apart : (x : ℕ) (q : List ℕ) → place x ≡ some q → (x < page) ⊎ (page < x)
  apart x q e = ground (arith, fresh x q e)

  old_entry :
      (x j : ℕ) (q : List ℕ)
      → place x ≡ some q
      → j < 512
      → (x ≡ t → j ≡ i → ⊥)
      → entry_at linked_to x j ≡ entry_at s x j
  unfolding put_entry clear_page
  old_entry x j q e l other = elim (Bool-cases (x + 8 * j == t + 8 * i)) [
    | inl h ↦
        let same = same_entry v x t j i q r e at l lt (ground arith) in absurd (other same.0 same.1)
    | inr h ↦ rw h (ground (arith, table_page v x q e, page_bounds, apart x q e))
  ]

  pub new_entry : entry_at linked_to t i ≡ make_table_entry page
  unfolding put_entry
  new_entry = ground arith

  zero_entry : (j : ℕ) → j < 512 → entry_at linked_to page j ≡ 0
  unfolding put_entry clear_page
  zero_entry j l = ground (arith, table_page v t r at, page_bounds, apart t r at)

  -- Every path below the new page leads nowhere.
  zero_for : (indices : List ℕ) → AreIndices indices → entry_for linked_to indices page ≡ 0
  unfolding entry_for
  zero_for [] a = refl
  zero_for (j ∷ []) a = zero_entry j a.0
  zero_for (j ∷ k ∷ rest) a = entry_for-missing linked_to j page 0 (zero_entry j a.0) k rest refl

  pub linked_entry :
      (frame (make_table_entry page) ≡ page) × (is_valid (make_table_entry page) ≡ true)
  linked_entry = make_table_entry_lem page page_bounds.0 (omega (arith, page_bounds))

  too_deep : (x : ℕ) (q : List ℕ) → place x ≡ some q → x ≡ t → length q ≡ 3 → ⊥
  too_deep x q e h l =
      absurd (omega (arith, ap length (some-list q r (sym e ∙ ap place h ∙ at)), l, above))

  -- The step of a path that is not through the new entry.
  module _ (j k : ℕ) (rest : List ℕ) (x : ℕ) (q : List ℕ) (e : place x ≡ some q)
      (short : length q < 3) (l : j < 512)
      (next : place (frame (entry_at s x j)) ≡ some (j ∷ q)
        → entry_for linked_to (k ∷ rest) (frame (entry_at s x j))
          ≡ entry_for s (k ∷ rest) (frame (entry_at s x j))) where
    past : (x ≡ t → j ≡ i → ⊥) → entry_for linked_to (j ∷ k ∷ rest) x ≡ entry_for s (j ∷ k ∷ rest) x
    past other =
        let y = entry_at s x j in
        let old = old_entry x j q e l other in
        elim (Bool-cases (is_valid y)) [
          | inl h ↦
              entry_for-valid linked_to j x y old k rest h
              ∙ next (v.linked x j q e short l h)
              ∙ sym (entry_for-valid s j x y refl k rest h)
          | inr h ↦
              entry_for-missing linked_to j x y old k rest h
              ∙ sym (entry_for-missing s j x y refl k rest h)
        ]

  -- The path through the new entry led nowhere and still does.
  through :
      (j k : ℕ) (rest : List ℕ) (x : ℕ)
      → x ≡ t
      → j ≡ i
      → AreIndices (k ∷ rest)
      → entry_for linked_to (j ∷ k ∷ rest) x ≡ entry_for s (j ∷ k ∷ rest) x
  through j k rest x h f a =
      let made = ap₂ (entry_at linked_to) h f ∙ new_entry in
      let gone = ap is_valid (ap₂ (entry_at s) h f) ∙ missing in
      entry_for-valid linked_to j x (make_table_entry page) made k rest linked_entry.1
      ∙ ap (entry_for linked_to (k ∷ rest)) linked_entry.0
      ∙ zero_for (k ∷ rest) a
      ∙ sym (entry_for-missing s j x (entry_at s x j) refl k rest gone)

  same_for :
      (indices : List ℕ) (x : ℕ) (q : List ℕ)
      → place x ≡ some q
      → length q + length indices ≡ 4
      → AreIndices indices
      → entry_for linked_to indices x ≡ entry_for s indices x
  unfolding entry_for
  same_for [] x q e l a = refl
  same_for (j ∷ []) x q e l a = old_entry x j q e a.0 (λ h k. too_deep x q e h (omega arith))
  same_for (j ∷ k ∷ rest) x q e l a =
      let next = λ (f : place (frame (entry_at s x j)) ≡ some (j ∷ q)).
        same_for (k ∷ rest) (frame (entry_at s x j)) (j ∷ q) f (omega arith) a.1 in
      let go = past j k rest x q e (omega arith) a.0 next in
      elim (Bool-cases (x == t)) [
        | inr h ↦ go (λ f g. ground arith)
        | inl h ↦ elim (Bool-cases (j == i)) [
          | inr f ↦ go (λ _ g. ground arith)
          | inl f ↦ through j k rest x (ground arith) (ground arith) a.1
        ]
      ]

  place_old : (x : ℕ) (q : List ℕ) → place x ≡ some q → place_with x ≡ some q
  place_old x q e = rw (fresh x q e) e

  place_cases :
      (x : ℕ) (q : List ℕ) → place_with x ≡ some q → ((x ≡ page) × (q ≡ i ∷ r)) ⊎ (place x ≡ some q)
  place_cases x q e = elim (Bool-cases (x == page)) [
    | inl h ↦
        let new : place_with x ≡ some (i ∷ r) = rw h refl in
        inl (ground arith, some-list q (i ∷ r) (sym e ∙ new))
    | inr h ↦ let old : place_with x ≡ place x = rw h refl in inr (sym old ∙ e)
  ]

  tables_after :
      (x : ℕ) (q : List ℕ) → place_with x ≡ some q → IsTable kernel_end (taken s.mem n) x q
  tables_after x q e = elim (place_cases x q e) [
    | inl (h, f) ↦ record {
      index = n;
      address = h;
      in_range = g.in_range;
      in_use = g.bits n ∙ ground arith;
      depth = omega (arith, ap length f, above);
    }
    | inr f ↦
        let w = v.tables x q f in
        record {
          index = w.index;
          address = w.address;
          in_range = w.in_range;
          in_use = g.bits w.index ∙ ground (arith, w.in_use);
          depth = w.depth;
        }
  ]

  linked_new :
      (x j : ℕ) (q : List ℕ)
      → place x ≡ some q
      → x ≡ t
      → j ≡ i
      → place_with (frame (entry_at linked_to x j)) ≡ some (j ∷ q)
  linked_new x j q e h f =
      let made = ap frame (ap₂ (entry_at linked_to) h f ∙ new_entry) ∙ linked_entry.0 in
      let self : place_with page ≡ some (i ∷ r) = ground arith in
      let path = some-list q r (sym e ∙ ap place h ∙ at) in
      ap place_with made ∙ self ∙ ap₂ (λ y z. some (y ∷ z)) (sym f) (sym path)

  linked_after :
      (x j : ℕ) (q : List ℕ)
      → place_with x ≡ some q
      → length q < 3
      → j < 512
      → is_valid (entry_at linked_to x j) ≡ true
      → place_with (frame (entry_at linked_to x j)) ≡ some (j ∷ q)
  linked_after x j q e l m valid = elim (place_cases x q e) [
    | inl (h, f) ↦
        let zero_there = ap (λ y. entry_at linked_to y j) h ∙ zero_entry j m in
        cc (valid, ap is_valid zero_there)
    | inr f ↦
        let go = λ (other : x ≡ t → j ≡ i → ⊥).
          let old = old_entry x j q f m other in
          ap (λ y. place_with (frame y)) old
          ∙ place_old _ _ (v.linked x j q f l m (sym (ap is_valid old) ∙ valid)) in
        elim (Bool-cases (x == t)) [
          | inr h ↦ go (λ d _. ground arith)
          | inl h ↦ elim (Bool-cases (j == i)) [
            | inr d ↦ go (λ _ c. ground arith)
            | inl d ↦ linked_new x j q f (ground arith) (ground arith)
          ]
        ]
  ]

  pub linked_to-VmIsValid : VmIsValid kernel_end place_with linked_to
  unfolding put_entry clear_page
  linked_to-VmIsValid = record {
    pages = pv;
    low = v.low;
    root = place_old s.pgd [] v.root;
    tables = tables_after;
    linked = linked_after;
  }

  pub linked_to-Extends : Extends place place_with s linked_to
  unfolding put_entry clear_page
  linked_to-Extends = record {
    root = refl;
    placed = place_old;
    kept = λ x j q e l valid. old_entry x j q e l (λ h f. clash x j h f valid);
    same = same_for;
  }
    where
      clash : (x j : ℕ) → x ≡ t → j ≡ i → is_valid (entry_at s x j) ≡ true → ⊥
      clash x j h f valid = cc (valid, ap is_valid (ap₂ (entry_at s) h f), missing)

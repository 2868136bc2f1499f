-- ===== src/Vm/Walk.antt =====
-- Making the missing tables of a path: whatever the allocator answers, no path leads elsewhere.
use tor_os.Prelude.{
  ℕ, ◌+◌, ◌≤◌, ◌<◌, ◌≡◌, refl, sym, ap, ◌∙◌, true, false, List, [], ◌∷◌, Option, none, some, length,
  arith, Bool-cases, inl, inr,
}
use tor_os.Prelude.Bits.{frame}
use tor_os.Mm.{Mem, page_address, page_alloc}
use tor_os.Mm.Pages.{taken, page_alloc_lem}
use tor_os.Vm.{
  Vm, entry_at, put_entry, is_valid, clear_page, alloc_table, make_table_entry, walk_alloc, walk,
}
use tor_os.Vm.Tables.{VmIsValid, AreIndices, walk-valid}
use tor_os.Vm.Write.{onto}
use tor_os.Vm.Link.{
  Extends, place_with, linked_to-VmIsValid, linked_to-Extends, linked_entry, new_entry,
}

Extends-refl : (place : ℕ → Option (List ℕ)) (s : Vm) → Extends place place s s
Extends-refl place s = record {
  root = refl;
  placed = λ x q e. e;
  kept = λ x i q e l h. refl;
  same = λ indices x q e l a. refl;
}

Extends-trans :
    {p1 p2 p3 : ℕ → Option (List ℕ)} {s1 s2 s3 : Vm}
    → Extends p1 p2 s1 s2
    → Extends p2 p3 s2 s3
    → Extends p1 p3 s1 s3
Extends-trans a b = record {
  root = b.root ∙ a.root;
  placed = λ x q e. b.placed x q (a.placed x q e);
  kept = λ x i q e l h.
      let k = a.kept x i q e l h in b.kept x i q (a.placed x q e) l (ap is_valid k ∙ h) ∙ k;
  same = λ indices x q e l d. b.same indices x q (a.placed x q e) l d ∙ a.same indices x q e l d;
}

-- No page is left.
abbrev pub IsOut : ℕ → Vm → Type 0
IsOut kernel_end s = (page_alloc kernel_end s.mem).0 ≡ none

-- What `walk_alloc` leaves behind, from the table `x` of the path `q`.
pub record Walked (kernel_end : ℕ) (place : ℕ → Option (List ℕ)) (s : Vm) (indices : List ℕ) (x : ℕ)
    (q : List ℕ) (r : Option ℕ × Vm) : Type 0 where
  pub place' : ℕ → Option (List ℕ)
  pub valid : VmIsValid kernel_end place' r.1
  pub extends : Extends place place' s r.1
  pub found :
      (p : ℕ) → r.0 ≡ some p → (place' p ≡ some (onto indices q)) × (walk indices x r.1 ≡ some p)
  pub out : r.0 ≡ none → IsOut kernel_end r.1

-- The state after the page `n` has become the table of the entry `i` of `t`.
abbrev linked_at : ℕ → Vm → ℕ → ℕ → ℕ → Vm
linked_at kernel_end s t i n =
    put_entry t i (make_table_entry (page_address kernel_end s.mem n))
      (clear_page (page_address kernel_end s.mem n) (record s { mem = taken s.mem n }))

module _ (kernel_end : ℕ) (i : ℕ) (rest : List ℕ) (t : ℕ) (s : Vm) where
  step-valid :
      is_valid (entry_at s t i) ≡ true
      → walk_alloc kernel_end (i ∷ rest) t s ≡ walk_alloc kernel_end rest (frame (entry_at s t i)) s
  unfolding walk_alloc
  step-valid h = rw (h, walk_alloc) refl

  -- How the walk goes on with a table, or without.
  abbrev goes_on : Option ℕ × Vm → Option ℕ × Vm
  goes_on r = elim r.0 [
    | none ↦ (none, r.1)
    | some p ↦
        let s' = put_entry t i (make_table_entry p) r.1 in
        walk_alloc kernel_end rest (frame (entry_at s' t i)) s'
  ]

  step-missing :
      is_valid (entry_at s t i) ≡ false
      → walk_alloc kernel_end (i ∷ rest) t s ≡ goes_on (alloc_table kernel_end s)
  unfolding walk_alloc
  step-missing h = rw (h, walk_alloc) refl

  -- `alloc_table` with the allocator's answer.
  abbrev with_page : Option ℕ × Mem → Option ℕ × Vm
  with_page r = elim r.0 [
    | none ↦ (none, record s { mem = r.1 })
    | some p ↦ (some p, clear_page p (record s { mem = r.1 }))
  ]

  step-none :
      is_valid (entry_at s t i) ≡ false
      → page_alloc kernel_end s.mem ≡ (none, s.mem)
      → walk_alloc kernel_end (i ∷ rest) t s ≡ (none, s)
  unfolding alloc_table
  step-none h e = step-missing h ∙ ap (λ r. goes_on (with_page r)) e

  step-some :
      (n : ℕ)
      → is_valid (entry_at s t i) ≡ false
      → page_alloc kernel_end s.mem ≡ (some (page_address kernel_end s.mem n), taken s.mem n)
      → let s' = linked_at kernel_end s t i n in
        walk_alloc kernel_end (i ∷ rest) t s
        ≡ walk_alloc kernel_end rest (frame (entry_at s' t i)) s'
  unfolding alloc_table
  step-some n h e = step-missing h ∙ ap (λ r. goes_on (with_page r)) e

-- A step through the entry that the rest of the walk has kept.
longer :
    (kernel_end : ℕ) (place : ℕ → Option (List ℕ)) (s : Vm) (i : ℕ) (rest : List ℕ) (t : ℕ)
    (q : List ℕ) (r : Option ℕ × Vm)
    → place t ≡ some q
    → i < 512
    → is_valid (entry_at s t i) ≡ true
    → Walked kernel_end place s rest (frame (entry_at s t i)) (i ∷ q) r
    → Walked kernel_end place s (i ∷ rest) t q r
longer kernel_end place s i rest t q r e l h w = record {
  place' = w.place';
  valid = w.valid;
  extends = w.extends;
  found = λ p f.
      let g = w.found p f in
      (g.0, walk-valid r.1 i t (entry_at s t i) (w.extends.kept t i q e l h) rest h ∙ g.1);
  out = w.out;
}

first_then :
    (kernel_end : ℕ) (p1 p2 : ℕ → Option (List ℕ)) (s1 s2 : Vm) (indices : List ℕ) (t : ℕ)
    (q : List ℕ) (r : Option ℕ × Vm)
    → Extends p1 p2 s1 s2
    → Walked kernel_end p2 s2 indices t q r
    → Walked kernel_end p1 s1 indices t q r
first_then kernel_end p1 p2 s1 s2 indices t q r x w = record {
  place' = w.place';
  valid = w.valid;
  extends = Extends-trans x w.extends;
  found = w.found;
  out = w.out;
}

-- From a table of a valid tree, for indices that do not go past the last level: the tree stays valid,
-- all paths lead to the entries that they led to, and a table that is returned is the one that the
-- indices now lead to.
pub walk_alloc_lem :
    (kernel_end : ℕ) (indices : List ℕ) (t : ℕ) (s : Vm) (place : ℕ → Option (List ℕ)) (q : List ℕ)
    → VmIsValid kernel_end place s
    → place t ≡ some q
    → length q + length indices ≤ 3
    → AreIndices indices
    → Walked kernel_end place s indices t q (walk_alloc kernel_end indices t s)
unfolding walk_alloc walk
walk_alloc_lem kernel_end [] t s place q v e l a = record {
  place' = place;
  valid = v;
  extends = Extends-refl place s;
  found = λ p f. let same : t ≡ p = ground arith in (ap place (sym same) ∙ e, ap some same);
  out = λ f. cc;
}
walk_alloc_lem kernel_end (i ∷ rest) t s place q v e l a =
    elim (Bool-cases (is_valid (entry_at s t i))) [
      | inl h ↦
          let next = v.linked t i q e (omega arith) a.0 h in
          rw (step-valid kernel_end i rest t s h) (
            longer kernel_end place s i rest t q
              (walk_alloc kernel_end rest (frame (entry_at s t i)) s) e a.0 h
              (walk_alloc_lem kernel_end rest (frame (entry_at s t i)) s place (i ∷ q) v next
                (omega arith) a.1))
      | inr h ↦ elim (page_alloc_lem kernel_end s.mem v.pages) [
        | inr (full, _) ↦ rw (step-none kernel_end i rest t s h full) (record {
          place' = place;
          valid = v;
          extends = Extends-refl place s;
          found = λ p f. cc;
          out = λ _. ap (λ r. r.0) full;
        })
        | inl (n, given, g, pv) ↦
            let s' = linked_at kernel_end s t i n in
            let p' = place_with kernel_end place s v t i q e a.0 (omega arith) h n g pv in
            let v' = linked_to-VmIsValid kernel_end place s v t i q e a.0 (omega arith) h n g pv in
            let x' = linked_to-Extends kernel_end place s v t i q e a.0 (omega arith) h n g pv in
            let new = new_entry kernel_end place s v t i q e a.0 (omega arith) h n g pv in
            let says = linked_entry kernel_end place s v t i q e a.0 (omega arith) h n g pv in
            let valid = ap is_valid new ∙ says.1 in
            let at = x'.placed t q e in
            rw (step-some kernel_end i rest t s n h given) (
              first_then kernel_end place p' s s' (i ∷ rest) t q
                (walk_alloc kernel_end rest (frame (entry_at s' t i)) s') x'
                (longer kernel_end p' s' i rest t q
                  (walk_alloc kernel_end rest (frame (entry_at s' t i)) s') at a.0 valid
                  (walk_alloc_lem kernel_end rest (frame (entry_at s' t i)) s' p' (i ∷ q) v'
                    (v'.linked t i q at (omega arith) a.0 valid) (omega arith) a.1)))
      ]
    ]

-- ===== src/Bitmap/Scan.antt =====
-- The scan for a clear bit that `page_alloc` (kernel/mm.c) and `alloc_block` (kernel/fs.c) run, and
-- the number of clear bits that their counters stand for.
use tor_os.Prelude.{
  ℕ, zero, suc, ◌+◌, ◌≤◌, ◌<◌, ◌≡◌, refl, sym, ap, subst, ◌∙◌, true, false, not, List, Option, none,
  some, arith, ◌==◌, if◌then◌else◌, Bool-cases, ◌||◌, ◌&&◌, length, ◌/◌, inl, inr,
}
use tor_os.Bitmap.{bit_get, bit_set, bit_clear, bit_get-bit_set, bit_get-bit_clear, IsBytes}

-- `for (i = ...; n more rounds; i++) if (!(map[i / 8] & (1 << (i % 8)))) return i;`
unfoldable pub first_clear : ℕ → ℕ → List ℕ → Option ℕ
first_clear zero i m = none
first_clear (suc n) i m = elim (bit_get m i) [ false ↦ some i | true ↦ first_clear n (i + 1) m ]

eq_refl : (i : ℕ) → (i == i) ≡ true
eq_refl i = ground arith

-- What the scan found: the least clear bit at or after `i`.
pub record Found (n i : ℕ) (m : List ℕ) (k : ℕ) : Type 0 where
  pub from : i ≤ k
  pub below : k < i + n
  pub clear : bit_get m k ≡ false
  pub least : (j : ℕ) → i ≤ j → j < k → bit_get m j ≡ true

first_clear_step-true :
    (n i : ℕ) (m : List ℕ) → bit_get m i ≡ true → first_clear (suc n) i m ≡ first_clear n (i + 1) m
unfolding first_clear
first_clear_step-true n i m e = rw (e, first_clear)

first_clear_step-false :
    (n i : ℕ) (m : List ℕ) → bit_get m i ≡ false → first_clear (suc n) i m ≡ some i
unfolding first_clear
first_clear_step-false n i m e = rw (e, first_clear)

split_first :
    (m : List ℕ) (i j : ℕ)
    → bit_get m i ≡ true
    → (i + 1 ≤ j → bit_get m j ≡ true)
    → i ≤ j
    → bit_get m j ≡ true
split_first m i j used later h = elim (Bool-cases (i == j)) [
  | inl e ↦ ground arith
  | inr e ↦ later (ground arith)
]

pub first_clear-Found : (n i : ℕ) (m : List ℕ) (k : ℕ) → first_clear n i m ≡ some k → Found n i m k
unfolding first_clear
first_clear-Found zero i m k h = cc
first_clear-Found (suc n) i m k h = elim (Bool-cases (bit_get m i)) [
  | inl used ↦
      let f : Found n (i + 1) m k =
        first_clear-Found n (i + 1) m k (sym (first_clear_step-true n i m used) ∙ h) in
      record {
        from = omega (arith, f.from);
        below = omega (arith, f.below);
        clear = f.clear;
        least = λ j a b. split_first m i j used (λ c. f.least j c b) a;
      }
  | inr free ↦
      let e : i ≡ k = ground (arith, first_clear_step-false n i m free) in
      record {
        from = omega arith;
        below = omega arith;
        clear = subst (λ x. bit_get m x ≡ false) e free;
        least = λ j a b. absurd (omega arith);
      }
]

-- The scan fails only if every bit in its range is set.
pub first_clear-none :
    (n i : ℕ) (m : List ℕ)
    → first_clear n i m ≡ none
    → (j : ℕ) → i ≤ j
    → j < i + n
    → bit_get m j ≡ true
unfolding first_clear
first_clear-none zero i m h j a b = absurd (omega arith)
first_clear-none (suc n) i m h j a b = elim (Bool-cases (bit_get m i)) [
  | inl used ↦
      split_first m i j used
        (λ c.
          first_clear-none n (i + 1) m (sym (first_clear_step-true n i m used) ∙ h) j c
            (omega arith))
        a
  | inr free ↦ ground (arith, first_clear_step-false n i m free)
]

-- The scan finds a clear bit below which all are set.
pub first_clear-at :
    (n i : ℕ) (m : List ℕ) (k : ℕ)
    → i ≤ k
    → k < i + n
    → bit_get m k ≡ false
    → ((j : ℕ) → i ≤ j → j < k → bit_get m j ≡ true)
    → first_clear n i m ≡ some k
first_clear-at zero i m k a b free used = absurd (omega arith)
first_clear-at (suc n) i m k a b free used = elim (Bool-cases (i == k)) [
  | inl e ↦
      let e' : k ≡ i = ground arith in
      first_clear_step-false n i m (subst (λ x. bit_get m x ≡ false) e' free) ∙ ap some (sym e')
  | inr e ↦
      first_clear_step-true n i m (used i (omega arith) (ground arith))
      ∙ first_clear-at n (i + 1) m k (ground arith) (omega arith) free
          (λ j c d. used j (omega arith) d)
]

-- How many of the first `n` bits are clear.
unfoldable pub clear_count : ℕ → List ℕ → ℕ
clear_count zero m = 0
clear_count (suc n) m = (if bit_get m n then 0 else 1) + clear_count n m

clear_count-same :
    (n : ℕ) (m m' : List ℕ)
    → ((j : ℕ) → j < n → bit_get m' j ≡ bit_get m j)
    → clear_count n m' ≡ clear_count n m
unfolding clear_count
clear_count-same zero m m' h = refl
clear_count-same (suc n) m m' h =
    ground (arith, h n, clear_count-same n m m' (λ j lt. h j (omega arith)))

clear_count_flip :
    (n i : ℕ) (m m' : List ℕ)
    → ((j : ℕ) → (i == j) ≡ false → bit_get m' j ≡ bit_get m j)
    → bit_get m i ≡ false
    → bit_get m' i ≡ true
    → i < n
    → clear_count n m' + 1 ≡ clear_count n m
unfolding clear_count
clear_count_flip zero i m m' h e e' lt = absurd (omega arith)
clear_count_flip (suc n) i m m' h e e' lt = elim (Bool-cases (i == n)) [
  | inl q ↦
      let r : i ≡ n = ground arith in
      ground (
        arith,
        subst (λ x. bit_get m x ≡ false) r e,
        subst (λ x. bit_get m' x ≡ true) r e',
        clear_count-same n m m' (λ j below. h j (ground arith)),
      )
  | inr q ↦ ground (arith, h n q, clear_count_flip n i m m' h e e' (ground arith))
]

pub clear_count-bit_set :
    (n i : ℕ) (m : List ℕ)
    → IsBytes m
    → i / 8 < length m
    → i < n
    → bit_get m i ≡ false
    → clear_count n (bit_set m i) + 1 ≡ clear_count n m
clear_count-bit_set n i m h len lt e =
    clear_count_flip n i m (bit_set m i)
      (λ j q. bit_get-bit_set m i j h len ∙ ap (λ b. b || bit_get m j) q) e
      (bit_get-bit_set m i i h len ∙ ap (λ b. b || bit_get m i) (eq_refl i)) lt

pub clear_count-bit_clear :
    (n i : ℕ) (m : List ℕ)
    → IsBytes m
    → i / 8 < length m
    → i < n
    → bit_get m i ≡ true
    → clear_count n (bit_clear m i) ≡ clear_count n m + 1
clear_count-bit_clear n i m h len lt e = sym (
    clear_count_flip n i (bit_clear m i) m
      (λ j q. sym (bit_get-bit_clear m i j h len ∙ ap (λ b. not b && bit_get m j) q))
      (bit_get-bit_clear m i i h len ∙ ap (λ b. not b && bit_get m i) (eq_refl i)) e lt)

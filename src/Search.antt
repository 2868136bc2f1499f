-- ===== src/Search.antt =====
-- The search that kernel/fs.c and kernel/init.c run over their tables: the loop
-- `for (i = ...; ...; i++) if (test(i)) return i;`, and which index it returns.
use tor_os.Prelude.{
  ℕ, zero, suc, ◌+◌, ◌≤◌, ◌<◌, ◌≡◌, refl, sym, ap, subst, ◌∙◌, Bool, true, false, Option, none,
  some, arith, ◌==◌, if◌then◌else◌, Bool-cases, inl, inr,
}

-- `n` rounds from index `i`; `none` when the loop ends.
unfoldable pub first : (ℕ → Bool) → ℕ → ℕ → Option ℕ
first test zero i = none
first test (suc n) i = let rest = first test n (i + 1) in if test i then some i else rest

-- `k` is the least index from `i` on, in `n` rounds, that passes the test.
pub record IsFirst (test : ℕ → Bool) (n i k : ℕ) : Type 0 where
  pub from : i ≤ k
  pub below : k < i + n
  pub passes : test k ≡ true
  pub least : (j : ℕ) → i ≤ j → j < k → test j ≡ false

module _ (test : ℕ → Bool) where
  step-true : (n i : ℕ) → test i ≡ true → first test (suc n) i ≡ some i
  unfolding first
  step-true n i e = rw (e, first)

  step-false : (n i : ℕ) → test i ≡ false → first test (suc n) i ≡ first test n (i + 1)
  unfolding first
  step-false n i e = rw (e, first)

  split_first : (i j : ℕ) → test i ≡ false → (i + 1 ≤ j → test j ≡ false) → i ≤ j → test j ≡ false
  split_first i j e later h = elim (Bool-cases (i == j)) [
    | inl q ↦ let r : i ≡ j = ground arith in subst (λ x. test x ≡ false) r e
    | inr q ↦ later (ground arith)
  ]

  pub first-IsFirst : (n i k : ℕ) → first test n i ≡ some k → IsFirst test n i k
  unfolding first
  first-IsFirst zero i k h = cc
  first-IsFirst (suc n) i k h = elim (Bool-cases (test i)) [
    | inl e ↦
        let q : i ≡ k = ground (arith, step-true n i e) in
        record {
          from = omega arith;
          below = omega arith;
          passes = subst (λ x. test x ≡ true) q e;
          least = λ j a b. absurd (omega arith);
        }
    | inr e ↦
        let f : IsFirst test n (i + 1) k = first-IsFirst n (i + 1) k (sym (step-false n i e) ∙ h) in
        record {
          from = omega (arith, f.from);
          below = omega (arith, f.below);
          passes = f.passes;
          least = λ j a b. split_first i j e (λ c. f.least j c b) a;
        }
  ]

  pub first-none : (n i : ℕ) → first test n i ≡ none → (j : ℕ) → i ≤ j → j < i + n → test j ≡ false
  unfolding first
  first-none zero i h j a b = absurd (omega arith)
  first-none (suc n) i h j a b = elim (Bool-cases (test i)) [
    | inl e ↦ ground (arith, step-true n i e)
    | inr e ↦
        split_first i j e (λ c. first-none n (i + 1) (sym (step-false n i e) ∙ h) j c (omega arith))
          a
  ]

  pub first-at : (n i k : ℕ) → IsFirst test n i k → first test n i ≡ some k
  first-at zero i k f = absurd (omega (arith, f.from, f.below))
  first-at (suc n) i k f = elim (Bool-cases (i == k)) [
    | inl q ↦
        let r : k ≡ i = ground arith in
        step-true n i (subst (λ x. test x ≡ true) r f.passes) ∙ ap some (sym r)
    | inr q ↦
        let ne : i < k = ground (arith, f.from) in
        step-false n i (f.least i (omega arith) ne)
        ∙ first-at n (i + 1) k (record {
          from = omega arith;
          below = omega (arith, f.below);
          passes = f.passes;
          least = λ j a b. f.least j (omega arith) b;
        })
  ]

  pub first-none_at :
      (n i : ℕ) → ((j : ℕ) → i ≤ j → j < i + n → test j ≡ false) → first test n i ≡ none
  unfolding first
  first-none_at zero i h = refl
  first-none_at (suc n) i h =
      step-false n i (h i (omega arith) (omega arith))
      ∙ first-none_at n (i + 1) (λ j a b. h j (omega arith) (omega arith))

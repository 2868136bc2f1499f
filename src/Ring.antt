-- ===== src/Ring.antt =====
-- The ring buffers of kernel/security.c (audit log) and kernel/debug_log.c: entry number `i` stands
-- at index `i % size`, so that the last `size` entries are there.
use native.Mathlib.Decide.{dec_lt}
use native.Mathlib.Nat.{div-add-mod}
use tor_os.Prelude.{
  ℕ, zero, suc, ◌+◌, ◌*◌, ◌/◌, ◌%◌, ◌<◌, ◌≤◌, ◌≡◌, refl, ◌∙◌, List, [], ◌∷◌, ◌++◌, ◌==◌, get_or,
  set, length, arith, length-set, get_or-set_if, Bool-cases, inl, inr, length-append,
}

mul_mono : (s p q : ℕ) → p ≤ q → s * p ≤ s * q
mul_mono s p q h = grind arith

mul_mono_suc : (s p q : ℕ) → p < q → s * p + s ≤ s * q
mul_mono_suc s p q h = omega (arith, mul_mono s (suc p) q h)

-- Two numbers at a distance below `size` have other remainders.
mod-ne : (size i n : ℕ) → i < n → n + 1 ≤ i + size → n % size ≡ i % size → ⊥
mod-ne size i n lt near e = elim (dec_lt (i / size) (n / size)) [
  | yes h ↦
      omega
        (arith, div-add-mod n size, div-add-mod i size, mul_mono_suc size (i / size) (n / size) h)
  | no h ↦ omega (
    arith,
    div-add-mod n size,
    div-add-mod i size,
    mul_mono size (n / size) (i / size) (omega arith),
  )
]

module _ {ℓ} {A : Type ℓ} (blank : A) (size : ℕ) where
  -- `ring` holds the last `size` entries of `history`, each at its index.
  pub record Holds (ring history : List A) : Type ℓ where
    pub room : length ring ≡ size
    pub entries :
        (i : ℕ)
        → i < length history
        → length history ≤ i + size
        → get_or ring (i % size) blank ≡ get_or history i blank

  get_or-append_old :
      (xs : List A) (x : A) (i : ℕ)
      → i < length xs
      → get_or (xs ++ x ∷ []) i blank ≡ get_or xs i blank
  get_or-append_old [] x i h = absurd (omega arith)
  get_or-append_old (y ∷ xs) x zero h = refl
  get_or-append_old (y ∷ xs) x (suc i) h = get_or-append_old xs x i (omega arith)

  get_or-append_new :
      (xs : List A) (x : A) (i : ℕ) → i ≡ length xs → get_or (xs ++ x ∷ []) i blank ≡ x
  get_or-append_new [] x zero h = refl
  get_or-append_new [] x (suc i) h = absurd (omega arith)
  get_or-append_new (y ∷ xs) x zero h = absurd (omega arith)
  get_or-append_new (y ∷ xs) x (suc i) h = get_or-append_new xs x i (omega arith)

  -- Writing the next entry at its index keeps the ring up with the history.
  pub Holds-push :
      (ring history : List A) (x : A)
      → 0 < size
      → Holds ring history
      → Holds (set ring (length history % size) x) (history ++ x ∷ [])
  Holds-push ring history x pos h = record {
    room = length-set ring _ x ∙ h.room;
    entries = λ i lt near. elim (Bool-cases (i == length history)) [
      | inl e ↦
          (let q : i ≡ length history = ground arith in
            get_or-set_if ring (length history % size) (i % size) x blank (omega (arith, h.room))
            ∙ ground (arith, get_or-append_new history x i q, q))
      | inr e ↦
          (let below : i < length history = ground (arith, length-append history (x ∷ [])) in
            let close : length history + 1 ≤ i + size =
              omega (arith, length-append history (x ∷ [])) in
            get_or-set_if ring (length history % size) (i % size) x blank (omega (arith, h.room))
            ∙ ground (
              arith,
              mod-ne size i (length history) below close,
              h.entries i below (omega arith),
              get_or-append_old history x i below,
            ))
    ];
  }

-- ===== src/Libc/Search.antt =====
-- `strstr` finds the needle exactly when it occurs.
use tor_os.Prelude.{
  ℕ, ◌≡◌, refl, subst, sym, Bool, true, false, ◌&&◌, List, [], ◌∷◌, arith, ◌==◌, length, Bool-cases,
  inl, inr, Option, none, some, ◌||◌,
}
use tor_os.Prelude.Int.{sub_ℕ}
use tor_os.Libc.{peek, is_zero, strlen, strncmp, strstr_loop, strstr}
use tor_os.Libc.Strings.{c_str, strlen_lem}

-- `p` begins with `n`.
abbrev pub starts : List ℕ → List ℕ → Bool
starts p [] = true
starts [] (c ∷ n) = false
starts (d ∷ p) (c ∷ n) = d == c && starts p n

-- Some suffix of `h` begins with `n`.
abbrev pub occurs : List ℕ → List ℕ → Bool
occurs [] n = starts [] n
occurs (c ∷ h) n = starts (c ∷ h) n || occurs h n

is_zero-sub : (a b : ℕ) → is_zero (sub_ℕ a b) ≡ (a == b)
is_zero-sub a b = ground arith

strncmp-starts :
    (p n : List ℕ) → is_zero (strncmp p n (length (c_str n))) ≡ starts (c_str p) (c_str n)
unfolding strncmp
strncmp-starts p [] = refl
strncmp-starts [] (c ∷ n) = elim (Bool-cases (c == 0)) [
  | inl e ↦ rw e
  | inr e ↦ rw e (ground arith)
]
strncmp-starts (d ∷ p) (c ∷ n) = elim (Bool-cases (c == 0)) [
  | inl e ↦ rw e
  | inr e ↦ rw e (ground (arith, strncmp-starts p n, is_zero-sub d c))
]

abbrev pub is_some {ℓ} : {A : Type ℓ} → Option A → Bool
is_some none = false
is_some (some a) = true

-- A string that is not empty, behind its pointer.
starts-nil : (n : List ℕ) → (strlen n == 0) ≡ false → starts [] (c_str n) ≡ false
unfolding strlen
starts-nil [] e = ground arith
starts-nil (c ∷ n) e = ground arith

starts_head :
    (c : ℕ) (h n : List ℕ)
    → (c == 0) ≡ false
    → (strlen n == 0) ≡ false
    → (c == peek n && starts (c ∷ c_str h) (c_str n)) ≡ starts (c ∷ c_str h) (c_str n)
unfolding strlen
starts_head c h [] z e = ground arith
starts_head c h (d ∷ n) z e = ground arith

strstr_loop-occurs :
    (h n : List ℕ)
    → (strlen n == 0) ≡ false
    → is_some (strstr_loop h n (strlen n)) ≡ occurs (c_str h) (c_str n)
unfolding strstr_loop
strstr_loop-occurs [] n e = sym (starts-nil n e)
strstr_loop-occurs (c ∷ h) n e = elim (Bool-cases (c == 0)) [
  | inl z ↦ rw (z, strstr_loop) (sym (starts-nil n e))
  | inr z ↦ ground (
    arith,
    starts_head c h n z e,
    strstr_loop-occurs h n e,
    subst (λ k. is_zero (strncmp (c ∷ h) n k) ≡ starts (c_str (c ∷ h)) (c_str n))
        (sym (strlen_lem n)) (strncmp-starts (c ∷ h) n),
  )
]

c_str-empty : (n : List ℕ) → (strlen n == 0) ≡ true → c_str n ≡ []
unfolding strlen
c_str-empty [] e = refl
c_str-empty (c ∷ n) e = ground arith

occurs-nil : (h : List ℕ) → occurs h [] ≡ true
occurs-nil [] = refl
occurs-nil (c ∷ h) = refl

-- `strstr` returns a pointer exactly when some suffix of the haystack begins with the needle.
pub strstr-occurs : (h n : List ℕ) → is_some (strstr h n) ≡ occurs (c_str h) (c_str n)
unfolding strstr
strstr-occurs h n = elim (Bool-cases (strlen n == 0)) [
  | inl e ↦ rw (e, c_str-empty n e) (sym (occurs-nil (c_str h)))
  | inr e ↦ rw e (strstr_loop-occurs h n e)
]

-- ===== src/Libc/Strings.antt =====
-- What the comparison and the copies do to the string that a buffer holds.
use tor_os.Prelude.{
  ℕ, zero, suc, ◌<◌, ◌≡◌, refl, ap, ◌↔◌, true, List, [], ◌∷◌, arith, ◌==◌, if◌then◌else◌, take,
  replicate, length,
}
use tor_os.Prelude.Int.{ℤ, pos, negsuc}
use tor_os.Libc.{is_zero, strlen, strcmp, strncpy, strcpy, copy_name}

-- The string that a buffer holds: the bytes before the first NUL.
abbrev pub c_str : List ℕ → List ℕ
c_str [] = []
c_str (c ∷ s) = if c == 0 then [] else c ∷ c_str s

pub strlen_lem : (s : List ℕ) → strlen s ≡ length (c_str s)
unfolding strlen
strlen_lem [] = refl
strlen_lem (c ∷ s) = ground (arith, strlen_lem s)

strcmp_eq : (s t : List ℕ) → strcmp s t ≡ pos 0 → c_str s ≡ c_str t
unfolding strcmp
strcmp_eq [] [] h = refl
strcmp_eq [] (d ∷ t) h = ground arith
strcmp_eq (c ∷ s) [] h = ground arith
strcmp_eq (c ∷ s) (d ∷ t) h = ground (arith, strcmp_eq s t)

strcmp_refl : (s t : List ℕ) → c_str s ≡ c_str t → strcmp s t ≡ pos 0
unfolding strcmp
strcmp_refl [] [] h = refl
strcmp_refl [] (d ∷ t) h = ground arith
strcmp_refl (c ∷ s) [] h = ground arith
strcmp_refl (c ∷ s) (d ∷ t) h = ground (arith, strcmp_refl s t)

-- `strcmp` returns 0 exactly when the two buffers hold the same string.
pub strcmp_iff : (s t : List ℕ) → (strcmp s t ≡ pos 0) ↔ (c_str s ≡ c_str t)
strcmp_iff s t = (strcmp_eq s t, strcmp_refl s t)

set_zero-nil : (n : ℕ) (dst : List ℕ) → c_str (copy_name dst [] n) ≡ []
unfolding strncpy
set_zero-nil zero [] = refl
set_zero-nil zero (d ∷ dst) = refl
set_zero-nil (suc n) [] = refl
set_zero-nil (suc n) (d ∷ dst) = refl

-- `strncpy` of `n` bytes with a NUL at `n`, into a buffer of more than `n` bytes, leaves there the
-- first `n` bytes of the source's string: never more, and all of it if it is that short.
pub copy_name_lem :
    (dst src : List ℕ) (n : ℕ) → n < length dst → c_str (copy_name dst src n) ≡ take n (c_str src)
unfolding strncpy
copy_name_lem [] src n h = absurd (omega arith)
copy_name_lem (d ∷ dst) src zero h = refl
copy_name_lem (d ∷ dst) [] (suc n) h = refl
copy_name_lem (d ∷ dst) (c ∷ src) (suc n) h = ground (arith, copy_name_lem dst src n)

is_zero_eq : (z : ℤ) → is_zero z ≡ true → z ≡ pos 0
is_zero_eq (pos zero) h = refl
is_zero_eq (pos (suc n)) h = cc
is_zero_eq (negsuc n) h = cc

pub strcmp-same : (s t : List ℕ) → is_zero (strcmp s t) ≡ true → c_str s ≡ c_str t
strcmp-same s t h = strcmp_eq s t (is_zero_eq _ h)

pub same-strcmp : (s t : List ℕ) → c_str s ≡ c_str t → is_zero (strcmp s t) ≡ true
same-strcmp s t h = ap is_zero (strcmp_refl s t h)

-- A copy into a buffer that is long enough leaves the source's string there.
pub strcpy_lem : (dst src : List ℕ) → strlen src < length dst → c_str (strcpy dst src) ≡ c_str src
unfolding strcpy strlen
strcpy_lem [] src h = absurd (omega arith)
strcpy_lem (d ∷ dst) [] h = refl
strcpy_lem (d ∷ dst) (c ∷ src) h = ground (arith, strcpy_lem dst src)

-- `strncpy` of `n` bytes into a zeroed buffer of more bytes keeps the first `n` of the string.
pub strncpy_lem :
    (m n : ℕ) (src : List ℕ) → n < m → c_str (strncpy (replicate m 0) src n) ≡ take n (c_str src)
unfolding strncpy
strncpy_lem zero n src h = absurd (omega arith)
strncpy_lem (suc m) zero src h = refl
strncpy_lem (suc m) (suc n) [] h = refl
strncpy_lem (suc m) (suc n) (c ∷ src) h = ground (arith, strncpy_lem m n src)

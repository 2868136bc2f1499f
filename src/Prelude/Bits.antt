-- ===== src/Prelude/Bits.antt =====
-- `|` digit by digit, and on fields of bits that do not meet.
use Prim.Native.Nat.{
  ℕ, zero, suc, ◌+◌, ◌*◌, ◌/◌, ◌%◌, ◌^◌, ◌≤◌, ◌<◌, max, bit_or, digits, bit_or-bitwise,
}
use mathlib.Core.Path.{◌≡◌, refl, sym, ap, ap₂, ◌∙◌}
use native.Mathlib.Nat.{
  div-one, mod-one, pow-succ', one-le-pow, div-div-eq-div-mul, mod-add-div, add-mul-mod_self_left,
  mod-eq_of_lt, mod-lt, div-eq_of_lt,
}
use native.Mathlib.Omega.{arith}

abbrev or_digits : ℕ → ℕ → ℕ → ℕ
or_digits n a b = digits (λ b. b) max n a b

or_digits_fuel : (n m a b : ℕ) → a ≤ n → a ≤ m → or_digits n a b ≡ or_digits m a b
or_digits_fuel zero zero a b p q = refl
or_digits_fuel zero (suc m) zero b p q = refl
or_digits_fuel zero (suc m) (suc a) b p q = absurd (omega arith)
or_digits_fuel (suc n) zero zero b p q = refl
or_digits_fuel (suc n) zero (suc a) b p q = absurd (omega arith)
or_digits_fuel (suc n) (suc m) zero b p q = refl
or_digits_fuel (suc n) (suc m) (suc a) b p q =
    omega (arith, or_digits_fuel n m (suc a / 2) (b / 2) (omega arith) (omega arith))

pub zero-bit_or : (b : ℕ) → bit_or 0 b ≡ b
zero-bit_or b = bit_or-bitwise 0 b

pub bit_or_step : (a b : ℕ) → bit_or a b ≡ bit_or (a / 2) (b / 2) * 2 + max (a % 2) (b % 2)
bit_or_step zero b = omega (arith, zero-bit_or b, zero-bit_or (b / 2))
bit_or_step (suc a) b = omega (
  arith,
  bit_or-bitwise (suc a) b,
  bit_or-bitwise (suc a / 2) (b / 2),
  or_digits_fuel a (suc a / 2) (suc a / 2) (b / 2) (omega arith) (omega arith),
)

bit_or_zero_fuel : (n a : ℕ) → a ≤ n → bit_or a 0 ≡ a
bit_or_zero_fuel n zero h = refl
bit_or_zero_fuel zero (suc a) h = absurd (omega arith)
bit_or_zero_fuel (suc n) (suc a) h =
    omega (arith, bit_or_step (suc a) 0, bit_or_zero_fuel n (suc a / 2) (omega arith))

pub bit_or-zero : (a : ℕ) → bit_or a 0 ≡ a
bit_or-zero a = bit_or_zero_fuel a a (omega arith)

bit_or_half : (a b : ℕ) → bit_or a b / 2 ≡ bit_or (a / 2) (b / 2)
bit_or_half a b = omega (arith, bit_or_step a b)

-- The upper bits of a disjunction, and the lower ones where one side has none.
Shifts : ℕ → Type 0
Shifts c = (a b : ℕ) → bit_or a b / c ≡ bit_or (a / c) (b / c)

Lows : ℕ → Type 0
Lows c = (a b : ℕ) → bit_or a b % c ≡ bit_or (a % c) (b % c)

Shifts-pow : (k : ℕ) → Shifts (2 ^ k)
unfolding Shifts
Shifts-pow zero a b = omega (arith, ap₂ bit_or (div-one a) (div-one b))
Shifts-pow (suc k) a b =
    let twice = λ (x : ℕ). div-div-eq-div-mul x 2 (2 ^ k) ∙ ap (λ c. x / c) (sym (pow-succ' 2 k)) in
    sym (twice (bit_or a b))
    ∙ ap (λ x. x / 2 ^ k) (omega (arith, bit_or_step a b))
    ∙ Shifts-pow k (a / 2) (b / 2)
    ∙ ap₂ bit_or (twice a) (twice b)

-- The digits below `2 * d` are the last one and those of the half below `d`.
mod_twice : (a d : ℕ) → 0 < d → a % (2 * d) ≡ a % 2 + 2 * (a / 2 % d)
mod_twice a d h =
    let x = a % 2 + 2 * (a / 2 % d) in
    let z = a / 2 / d in
    let whole : a ≡ x + 2 * d * z = grind (arith, mod-add-div (a / 2) d) in
    ap (λ t. t % (2 * d)) whole
    ∙ add-mul-mod_self_left x (2 * d) z
    ∙ mod-eq_of_lt (omega (arith, mod-lt (a / 2) h))

Lows-pow : (k : ℕ) → Lows (2 ^ k)
unfolding Lows
Lows-pow zero a b =
    omega (arith, mod-one (bit_or a b), zero-bit_or 0, ap₂ bit_or (mod-one a) (mod-one b))
Lows-pow (suc k) a b =
    let d = 2 ^ k in
    let twice = λ (x : ℕ).
      ap (λ c. x % c) (pow-succ' 2 k)
      ∙ mod_twice x d (omega (arith, one-le-pow k 2 (omega arith))) in
    let u = a % 2 ^ suc k in
    let v = b % 2 ^ suc k in
    let half_u : u / 2 ≡ a / 2 % d = omega (arith, twice a) in
    let half_v : v / 2 ≡ b / 2 % d = omega (arith, twice b) in
    let halves = ap₂ bit_or half_u half_v in
    let upper = Lows-pow k (a / 2) (b / 2) in
    let half = ap (λ x. x % d) (bit_or_half a b) in
    omega (
      arith,
      twice (bit_or a b),
      half,
      upper,
      halves,
      bit_or_step a b,
      bit_or_step u v,
      twice a,
      twice b,
    )

-- `& 0xFFFFFFFFF000`
abbrev pub frame : ℕ → ℕ
frame x = x / 4096 % 2 ^ 36 * 4096

-- A field of flags that keeps off the bits of the frame does not change it.
pub frame-bit_or : (a flags : ℕ) → flags / 4096 % 2 ^ 36 ≡ 0 → frame (bit_or a flags) ≡ frame a
unfolding Shifts Lows
frame-bit_or a flags h =
    ap (λ x. x * 4096)
      (ap (λ x. x % 2 ^ 36) (Shifts-pow 12 a flags)
        ∙ Lows-pow 36 (a / 4096) (flags / 4096)
        ∙ ap (λ x. bit_or (a / 4096 % 2 ^ 36) x) h
        ∙ bit_or-zero (a / 4096 % 2 ^ 36))

-- Two fields of bits that do not meet make a sum.
pub fields-bit_or :
    (k a b : ℕ) → a % 2 ^ k ≡ 0 → b < 2 ^ k → (bit_or a b ≡ a + b) × (bit_or b a ≡ a + b)
unfolding Shifts Lows
fields-bit_or k a b h l =
    let d = 2 ^ k in
    let whole = λ (x : ℕ). sym (mod-add-div x d) in
    let small = mod-eq_of_lt l in
    let none_left = div-eq_of_lt l in
    let high = Shifts-pow k a b ∙ ap (λ x. bit_or (a / d) x) none_left ∙ bit_or-zero (a / d) in
    let low = Lows-pow k a b ∙ ap₂ bit_or h small ∙ zero-bit_or b in
    let high' = Shifts-pow k b a ∙ ap (λ x. bit_or x (a / d)) none_left ∙ zero-bit_or (a / d) in
    let low' = Lows-pow k b a ∙ ap₂ bit_or small h ∙ bit_or-zero b in
    let a_is : a ≡ d * (a / d) = omega (arith, whole a, h) in
    (
      whole (bit_or a b) ∙ ap₂ (λ x y. x + d * y) low high ∙ omega (arith, a_is),
      whole (bit_or b a) ∙ ap₂ (λ x y. x + d * y) low' high' ∙ omega (arith, a_is),
    )

-- A page's address and an offset in the page.
pub page-bit_or : (p r : ℕ) → p % 4096 ≡ 0 → r < 4096 → bit_or p r ≡ p + r
page-bit_or p r h l = (fields-bit_or 12 p r h l).0

-- ===== src/Bitmap.antt =====
-- The bitmap idiom of kernel/mm.c and kernel/fs.c: `map[i / 8] & (1 << (i % 8))`, `|=`, `&= ~`.
-- A byte array is the list of its bytes.
pub mod Scan
use Prim.Native.Nat.{bit_and-bitwise}
use tor_os.Prelude.{
  ℕ, zero, suc, ◌+◌, ◌-◌, ◌*◌, ◌/◌, ◌%◌, ◌^◌, ◌≤◌, ◌<◌, ◌≡◌, refl, Bool, ltb→lt, sym, ap, ◌∙◌, true,
  false, not, ◌&&◌, List, [], ◌∷◌, arith, bit_and, bit_or, ◌==◌, ltb, if◌then◌else◌, get_or, set,
  length, Bool-cases, length-set, ◌⊎◌, inl, inr, replicate, ◌||◌,
}

-- (uint8)~(1 << k) for k < 8
abbrev pub mask_off : ℕ → ℕ
mask_off k = 255 - 2 ^ k

-- A read outside the array does not occur where `i / 8 < length m`; it is read as 0.
unfoldable pub bit_get : List ℕ → ℕ → Bool
bit_get m i = not (bit_and (get_or m (i / 8) 0) (2 ^ (i % 8)) == 0)

unfoldable pub bit_set : List ℕ → ℕ → List ℕ
bit_set m i = set m (i / 8) (bit_or (get_or m (i / 8) 0) (2 ^ (i % 8)))

unfoldable pub bit_clear : List ℕ → ℕ → List ℕ
bit_clear m i = set m (i / 8) (bit_and (get_or m (i / 8) 0) (mask_off (i % 8)))

-- Every element of the array is a byte.
abbrev pub IsBytes : List ℕ → Type 0
IsBytes [] = Unit {0}
IsBytes (b ∷ m) = (b < 256) × IsBytes m

-- 0 & b is 0.
pub zero-bit_and : (b : ℕ) → bit_and 0 b ≡ 0
zero-bit_and b = bit_and-bitwise 0 b

-- The test holds for every number below `n`.
unfoldable pub all_below : ℕ → (ℕ → Bool) → Bool
all_below zero test = true
all_below (suc n) test = all_below n test && test n

pub all_below_at :
    (n : ℕ) (test : ℕ → Bool) (i : ℕ) → all_below n test ≡ true → i < n → test i ≡ true
unfolding all_below
all_below_at zero test i all less = absurd (omega arith)
all_below_at (suc n) test i all less = ground (arith, all_below_at n test i)

abbrev pub bool_eq : Bool → Bool → Bool
bool_eq true b = b
bool_eq false b = not b

pub bool_eq_sound : (a b : Bool) → bool_eq a b ≡ true → a ≡ b
bool_eq_sound true b h = ground arith
bool_eq_sound false b h = ground arith

-- One byte: the test of bit `k` after bit `j` is set or cleared.
abbrev byte_get : ℕ → ℕ → Bool
byte_get b k = not (bit_and b (2 ^ k) == 0)

byte_table : ℕ → Bool
byte_table b =
    all_below 8 (λ j. all_below 8 (λ k.
      bool_eq (byte_get (bit_or b (2 ^ j)) k) (j == k || byte_get b k)
      && bool_eq (byte_get (bit_and b (mask_off j)) k) (not (j == k) && byte_get b k)))
    && (ltb (bit_and b 255) 256)

byte_range : ℕ → Bool
byte_range b = all_below 8 (λ j. ltb (bit_or b (2 ^ j)) 256 && ltb (bit_and b (mask_off j)) 256)

byte_table_holds : all_below 256 byte_table ≡ true
unfolding all_below byte_table
byte_table_holds = refl

byte_range_holds : all_below 256 byte_range ≡ true
unfolding all_below byte_range
byte_range_holds = refl

pub and-true : (a b : Bool) → (a && b) ≡ true → (a ≡ true) × (b ≡ true)
and-true a b h = ground arith

==-sound : (a b : ℕ) → (a == b) ≡ true → a ≡ b
==-sound a b h = ground arith

byte_get-or :
    (b j k : ℕ) → b < 256 → j < 8 → k < 8 → byte_get (bit_or b (2 ^ j)) k ≡ (j == k || byte_get b k)
unfolding byte_table
byte_get-or b j k hb hj hk =
    bool_eq_sound _ _
      (and-true _ _ (
        all_below_at 8 _ k
          (all_below_at 8 _ j (and-true _ _ (all_below_at 256 byte_table b byte_table_holds hb)).0
            hj)
          hk)).0

byte_get-and :
    (b j k : ℕ)
    → b < 256
    → j < 8
    → k < 8
    → byte_get (bit_and b (mask_off j)) k ≡ (not (j == k) && byte_get b k)
unfolding byte_table
byte_get-and b j k hb hj hk =
    bool_eq_sound _ _
      (and-true _ _ (
        all_below_at 8 _ k
          (all_below_at 8 _ j (and-true _ _ (all_below_at 256 byte_table b byte_table_holds hb)).0
            hj)
          hk)).1

byte_ranges :
    (b j : ℕ) → b < 256 → j < 8 → (bit_or b (2 ^ j) < 256) × (bit_and b (mask_off j) < 256)
unfolding byte_range
byte_ranges b j hb hj =
    let r =
      and-true _ _ (all_below_at 8 _ j (all_below_at 256 byte_range b byte_range_holds hb) hj) in
    (ltb→lt _ _ r.0, ltb→lt _ _ r.1)

get_or-IsBytes : (m : List ℕ) (i : ℕ) → IsBytes m → get_or m i 0 < 256
get_or-IsBytes [] i h = omega arith
get_or-IsBytes (b ∷ m) zero h = h.0
get_or-IsBytes (b ∷ m) (suc i) h = get_or-IsBytes m i h.1

pub set-IsBytes : (m : List ℕ) (i v : ℕ) → IsBytes m → v < 256 → IsBytes (set m i v)
set-IsBytes [] i v h hv = tt
set-IsBytes (b ∷ m) zero v h hv = (hv, h.1)
set-IsBytes (b ∷ m) (suc i) v h hv = (h.0, set-IsBytes m i v h.1 hv)

pub replicate-IsBytes : (n v : ℕ) → v < 256 → IsBytes (replicate n v)
replicate-IsBytes zero v hv = tt
replicate-IsBytes (suc n) v hv = (hv, replicate-IsBytes n v hv)

pub get_or-set :
    (m : List ℕ) (i j v : ℕ)
    → i < length m
    → get_or (set m i v) j 0 ≡ (if i == j then v else get_or m j 0)
get_or-set [] i j v h = absurd (omega arith)
get_or-set (b ∷ m) zero zero v h = refl
get_or-set (b ∷ m) zero (suc j) v h = ground arith
get_or-set (b ∷ m) (suc i) zero v h = ground arith
get_or-set (b ∷ m) (suc i) (suc j) v h = ground (arith, get_or-set m i j v)

pub bit_set-IsBytes : (m : List ℕ) (i : ℕ) → IsBytes m → IsBytes (bit_set m i)
unfolding bit_set
bit_set-IsBytes m i h =
    set-IsBytes m (i / 8) _ h
      (byte_ranges (get_or m (i / 8) 0) (i % 8) (get_or-IsBytes m (i / 8) h) (omega arith)).0

pub bit_clear-IsBytes : (m : List ℕ) (i : ℕ) → IsBytes m → IsBytes (bit_clear m i)
unfolding bit_clear
bit_clear-IsBytes m i h =
    set-IsBytes m (i / 8) _ h
      (byte_ranges (get_or m (i / 8) 0) (i % 8) (get_or-IsBytes m (i / 8) h) (omega arith)).1

pub length-bit_set : (m : List ℕ) (i : ℕ) → length (bit_set m i) ≡ length m
unfolding bit_set
length-bit_set m i = length-set m (i / 8) _

pub length-bit_clear : (m : List ℕ) (i : ℕ) → length (bit_clear m i) ≡ length m
unfolding bit_clear
length-bit_clear m i = length-set m (i / 8) _

same_byte : (i j : ℕ) → i / 8 ≡ j / 8 → (i % 8 == j % 8) ≡ (i == j)
same_byte i j e = ground arith

other_byte : (i j : ℕ) → (i / 8 == j / 8) ≡ false → (i == j) ≡ false
other_byte i j e = ground arith

-- Setting bit `i` sets that bit and no other.
pub bit_get-bit_set :
    (m : List ℕ) (i j : ℕ)
    → IsBytes m
    → i / 8 < length m
    → bit_get (bit_set m i) j ≡ (i == j || bit_get m j)
unfolding bit_get bit_set
bit_get-bit_set m i j h lt = elim (Bool-cases (i / 8 == j / 8)) [
  | inl e ↦ rw (get_or-set m (i / 8) (j / 8) _ lt) (
      rw e (
        rw (==-sound _ _ e) (
          byte_get-or (get_or m (j / 8) 0) (i % 8) (j % 8) (get_or-IsBytes m (j / 8) h)
            (omega arith) (omega arith)
          ∙ ap (λ b. b || bit_get m j) (same_byte i j (==-sound _ _ e)))))
  | inr e ↦ rw (get_or-set m (i / 8) (j / 8) _ lt) (rw e (rw (other_byte i j e)))
]

-- Clearing bit `i` clears that bit and no other.
pub bit_get-bit_clear :
    (m : List ℕ) (i j : ℕ)
    → IsBytes m
    → i / 8 < length m
    → bit_get (bit_clear m i) j ≡ (not (i == j) && bit_get m j)
unfolding bit_get bit_clear
bit_get-bit_clear m i j h lt = elim (Bool-cases (i / 8 == j / 8)) [
  | inl e ↦ rw (get_or-set m (i / 8) (j / 8) _ lt) (
      rw e (
        rw (==-sound _ _ e) (
          byte_get-and (get_or m (j / 8) 0) (i % 8) (j % 8) (get_or-IsBytes m (j / 8) h)
            (omega arith) (omega arith)
          ∙ ap (λ b. not b && bit_get m j) (same_byte i j (==-sound _ _ e)))))
  | inr e ↦ rw (get_or-set m (i / 8) (j / 8) _ lt) (rw e (rw (other_byte i j e)))
]

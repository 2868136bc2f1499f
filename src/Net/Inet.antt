-- ===== src/Net/Inet.antt =====
-- Byte order, and addresses as text.
use tor_os.Prelude.{
  ℕ, ◌+◌, ◌-◌, ◌*◌, ◌/◌, ◌%◌, ◌^◌, ◌<◌, ◌≡◌, refl, ap, ◌∙◌, Bool, true, not, ◌&&◌, List, [], ◌∷◌,
  ◌++◌, ◌==◌, arith, bit_or,
}
use tor_os.Prelude.Int.{pos}
use tor_os.Prelude.Bits.{fields-bit_or}
use tor_os.Bitmap.{all_below, all_below_at, and-true}
use tor_os.Libc.Format.{itoa_decimal}
use tor_os.Net.{u32, htons, htonl, ntohs, addr_loop, inet_addr, byte_at, ntoa_loop, inet_ntoa}

pub htons_sum : (v : ℕ) → htons v ≡ v / 256 % 256 + v % 256 * 256
unfolding htons
htons_sum v =
    (fields-bit_or 8 (v % 256 * 256) (v / 256 % 256) (omega arith) (omega arith)).1 ∙ omega arith

htonl_sum :
    (v : ℕ)
    → htonl v
      ≡ v / 2 ^ 24 % 256 + v / 2 ^ 16 % 256 * 2 ^ 8 + v / 2 ^ 8 % 256 * 2 ^ 16 + v % 256 * 2 ^ 24
unfolding htonl
htonl_sum v =
    let a = v / 2 ^ 24 % 256 in
    let b = v / 2 ^ 16 % 256 * 2 ^ 8 in
    let c = v / 2 ^ 8 % 256 * 2 ^ 16 in
    let d = v % 256 * 2 ^ 24 in
    let one = (fields-bit_or 8 b a (omega arith) (omega arith)).1 in
    let two = (fields-bit_or 16 c (b + a) (omega arith) (omega arith)).1 in
    let three = (fields-bit_or 24 d (c + (b + a)) (omega arith) (omega arith)).1 in
    ap (λ x. bit_or (bit_or x c) d) one ∙ ap (λ x. bit_or x d) two ∙ three ∙ omega arith

-- Going to network order and back changes nothing, for words and double words.
pub ntohs-htons : (v : ℕ) → v < 2 ^ 16 → ntohs (htons v) ≡ v
ntohs-htons v h = omega (arith, htons_sum (htons v), htons_sum v)

pub htonl-htonl : (v : ℕ) → v < 2 ^ 32 → htonl (htonl v) ≡ v
htonl-htonl v h = omega (arith, htonl_sum (htonl v), htonl_sum v)

-- The octet that a run of characters leaves behind.
octet_of : List ℕ → ℕ → ℕ
octet_of [] octet = octet
octet_of (c ∷ rest) octet = octet_of rest (u32 (octet * 10 + (c + 2 ^ 32 - b'0')))

are_digits : List ℕ → Bool
are_digits [] = true
are_digits (c ∷ rest) = (not (c == 0) && not (c == b'.')) && are_digits rest

addr_loop-append :
    (l rest : List ℕ) (ip octet : ℕ)
    → are_digits l ≡ true
    → addr_loop (l ++ rest) ip octet ≡ addr_loop rest ip (octet_of l octet)
unfolding addr_loop octet_of are_digits
addr_loop-append [] rest ip octet h = refl
addr_loop-append (c ∷ l) rest ip octet h =
    let digits = and-true _ (are_digits l) h in
    let tests = and-true (not (c == 0)) (not (c == b'.')) digits.0 in
    ground (
      arith,
      tests.0,
      tests.1,
      addr_loop-append l rest ip (u32 (octet * 10 + (c + 2 ^ 32 - b'0'))) digits.1,
    )

-- Every byte as `itoa` writes it is read again.
byte_text : ℕ → Bool
byte_text b = are_digits (itoa_decimal (pos b)) && octet_of (itoa_decimal (pos b)) 0 == b

byte_text_holds : all_below 256 byte_text ≡ true
unfolding all_below byte_text are_digits octet_of itoa_decimal
byte_text_holds = refl

byte_text_lem :
    (b : ℕ)
    → b < 256
    → (are_digits (itoa_decimal (pos b)) ≡ true) × (octet_of (itoa_decimal (pos b)) 0 ≡ b)
unfolding byte_text
byte_text_lem b h =
    let t = and-true _ _ (all_below_at 256 byte_text b byte_text_holds h) in
    (t.0, ground (arith, t.1))

-- A byte and the dot, or the NUL, after it.
addr_loop-byte :
    (b ip : ℕ) (rest : List ℕ)
    → b < 256
    → addr_loop (itoa_decimal (pos b) ++ rest) ip 0 ≡ addr_loop rest ip b
addr_loop-byte b ip rest h =
    let t = byte_text_lem b h in
    addr_loop-append (itoa_decimal (pos b)) rest ip 0 t.0 ∙ ap (addr_loop rest ip) t.1

abbrev shifted : ℕ → ℕ → ℕ
shifted ip b = bit_or (u32 (ip * 256)) b

shifted_sum : (ip b : ℕ) → ip < 2 ^ 24 → b < 256 → shifted ip b ≡ ip * 256 + b
shifted_sum ip b h k =
    let small : u32 (ip * 256) ≡ ip * 256 = omega arith in
    ap (λ x. bit_or x b) small ∙ (fields-bit_or 8 (ip * 256) b (omega arith) k).0

-- Reading the text of an address gives the address in host order.
addr_loop-inet_ntoa :
    (ip : ℕ)
    → addr_loop (inet_ntoa ip) 0 0
      ≡ byte_at 0 ip * 2 ^ 24 + byte_at 1 ip * 2 ^ 16 + byte_at 2 ip * 2 ^ 8 + byte_at 3 ip
unfolding addr_loop inet_ntoa ntoa_loop
addr_loop-inet_ntoa ip =
    let b0 = byte_at 0 ip in
    let b1 = byte_at 1 ip in
    let b2 = byte_at 2 ip in
    let b3 = byte_at 3 ip in
    let s0 : shifted 0 b0 ≡ b0 = shifted_sum 0 b0 (omega arith) (omega arith) ∙ omega arith in
    let s1 : shifted b0 b1 ≡ b0 * 256 + b1 = shifted_sum b0 b1 (omega arith) (omega arith) in
    let s2 : shifted (b0 * 256 + b1) b2 ≡ (b0 * 256 + b1) * 256 + b2 =
      shifted_sum (b0 * 256 + b1) b2 (omega arith) (omega arith) in
    let s3 = shifted_sum ((b0 * 256 + b1) * 256 + b2) b3 (omega arith) (omega arith) in
    addr_loop-byte b0 0 _ (omega arith)
    ∙ addr_loop-byte b1 (shifted 0 b0) _ (omega arith)
    ∙ addr_loop-byte b2 (shifted (shifted 0 b0) b1) _ (omega arith)
    ∙ addr_loop-byte b3 (shifted (shifted (shifted 0 b0) b1) b2) (0 ∷ []) (omega arith)
    ∙ ap (λ x. shifted (shifted (shifted x b1) b2) b3) s0
    ∙ ap (λ x. shifted (shifted x b2) b3) s1
    ∙ ap (λ x. shifted x b3) s2
    ∙ s3
    ∙ omega arith

-- Reading the text that `inet_ntoa` writes for an address gives the address back.
pub inet_addr-inet_ntoa : (ip : ℕ) → ip < 2 ^ 32 → inet_addr (inet_ntoa ip) ≡ ip
unfolding inet_addr
inet_addr-inet_ntoa ip h =
    ap htonl (addr_loop-inet_ntoa ip)
    ∙ htonl_sum
        (byte_at 0 ip * 2 ^ 24 + byte_at 1 ip * 2 ^ 16 + byte_at 2 ip * 2 ^ 8 + byte_at 3 ip)
    ∙ omega arith

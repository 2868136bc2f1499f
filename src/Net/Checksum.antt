-- ===== src/Net/Checksum.antt =====
-- The Internet checksum: what a block of bytes with its own checksum in place sums to.
use tor_os.Prelude.{
  ℕ, ◌+◌, ◌-◌, ◌*◌, ◌/◌, ◌%◌, ◌^◌, ◌≤◌, ◌<◌, ◌≡◌, refl, ap, ◌∙◌, List, [], ◌∷◌, ◌++◌, length,
  length-append, arith,
}
use tor_os.Net.{u16, u32, sum_words, fold_sum, ip_checksum}

-- The sum of the words, without wrap-around.
abbrev pub total : List ℕ → ℕ
total [] = 0
total (x ∷ []) = x
total (x ∷ y ∷ rest) = (x + 256 * y) + total rest

abbrev pub AreBytes : List ℕ → Type 0
AreBytes [] = Unit {0}
AreBytes (x ∷ rest) = (x < 256) × AreBytes rest

pub total-le : (l : List ℕ) → AreBytes l → total l * 2 ≤ 65535 * (length l + 1)
total-le [] b = omega arith
total-le (x ∷ []) b = omega (arith, b.0)
total-le (x ∷ y ∷ rest) b = omega (arith, b.0, b.1.0, total-le rest b.1.1)

sum_words-total : (l : List ℕ) (s : ℕ) → s + total l < 2 ^ 32 → sum_words l s ≡ s + total l
unfolding sum_words
sum_words-total [] s h = omega arith
sum_words-total (x ∷ []) s h = omega arith
sum_words-total (x ∷ y ∷ rest) s h =
    let here : u32 (s + (x + 256 * y)) ≡ s + (x + 256 * y) = omega arith in
    ap (sum_words rest) here ∙ sum_words-total rest (s + (x + 256 * y)) (omega arith) ∙ omega arith

-- Three tests are enough: the loop ends with a word, of the same remainder by 65535, and 0 only for 0.
pub fold_sum_lem :
    (s : ℕ)
    → s < 2 ^ 32
    → (fold_sum 3 s < 2 ^ 16) × (fold_sum 3 s % 65535 ≡ s % 65535) × (fold_sum 3 s ≡ 0 → s ≡ 0)
unfolding fold_sum
fold_sum_lem s h = (ground arith, ground arith, λ e. ground arith)

fold_zero : fold_sum 3 0 ≡ 0
unfolding fold_sum
fold_zero = refl

-- `pre` has an even length, and `a b` is a word after it.
total-word :
    (pre : List ℕ) (a b : ℕ) (post : List ℕ)
    → length pre % 2 ≡ 0
    → total (pre ++ a ∷ b ∷ post) ≡ total (pre ++ 0 ∷ 0 ∷ post) + (a + 256 * b)
total-word [] a b post e = omega arith
total-word (x ∷ []) a b post e = absurd (omega arith)
total-word (x ∷ y ∷ rest) a b post e = omega (arith, total-word rest a b post (omega arith))

AreBytes-append :
    (pre : List ℕ) (a b : ℕ) (post : List ℕ)
    → AreBytes pre
    → a < 256
    → b < 256
    → AreBytes post
    → AreBytes (pre ++ a ∷ b ∷ post)
AreBytes-append [] a b post p h k q = (h, (k, q))
AreBytes-append (x ∷ rest) a b post p h k q = (p.0, AreBytes-append rest a b post p.1 h k q)

-- The checksum of bytes that are not too many is the complement of the folded sum.
pub ip_checksum-total :
    (l : List ℕ) → AreBytes l → length l ≤ 2 ^ 16 + 2 → ip_checksum l ≡ 65535 - fold_sum 3 (total l)
unfolding ip_checksum
ip_checksum-total l b h =
    let small : total l < 2 ^ 32 = omega (arith, total-le l b) in
    let sum : sum_words l 0 ≡ total l = sum_words-total l 0 (omega (arith, small)) ∙ omega arith in
    ap (λ t. u16 (2 ^ 32 - 1 - fold_sum 3 t)) sum ∙ omega (arith, fold_sum_lem (total l) small)

complement :
    (t f f' c : ℕ)
    → f < 2 ^ 16
    → f % 65535 ≡ t % 65535
    → c ≡ 65535 - f
    → f' < 2 ^ 16
    → f' % 65535 ≡ (t + c) % 65535
    → (f' ≡ 0 → (t ≡ 0) × (c ≡ 0))
    → (t ≡ 0 → f ≡ 0)
    → 65535 - f' ≡ 0
complement t f f' c h1 h2 h3 h4 h5 h6 h7 = ground arith

-- Where a block of at most 2 ^ 16 bytes has a word of 0 at an even place, and its checksum is stored
-- there, low byte first, the checksum of the result is 0.
pub checksum_stored :
    (pre post : List ℕ)
    → AreBytes pre
    → AreBytes post
    → length pre % 2 ≡ 0
    → length pre + length post ≤ 2 ^ 16
    → let c = ip_checksum (pre ++ 0 ∷ 0 ∷ post) in
      ip_checksum (pre ++ c % 256 ∷ c / 256 % 256 ∷ post) ≡ 0
checksum_stored pre post p q e h =
    let l0 = pre ++ 0 ∷ 0 ∷ post in
    let c = ip_checksum l0 in
    let l1 = pre ++ c % 256 ∷ c / 256 % 256 ∷ post in
    let b0 = AreBytes-append pre 0 0 post p (omega arith) (omega arith) q in
    let b1 = AreBytes-append pre (c % 256) (c / 256 % 256) post p (omega arith) (omega arith) q in
    let n0 = length-append pre (0 ∷ 0 ∷ post) in
    let n1 = length-append pre (c % 256 ∷ c / 256 % 256 ∷ post) in
    let is_c = ip_checksum-total l0 b0 (omega (arith, n0)) in
    let small0 : total l0 < 2 ^ 32 = omega (arith, total-le l0 b0, n0) in
    let f0 = fold_sum_lem (total l0) small0 in
    let sum : total l1 ≡ total l0 + c =
      omega (arith, total-word pre (c % 256) (c / 256 % 256) post e, is_c) in
    let small1 : total l1 < 2 ^ 32 = omega (arith, total-le l1 b1, n1) in
    let f1 = fold_sum_lem (total l1) small1 in
    ip_checksum-total l1 b1 (omega (arith, n1))
    ∙ complement (total l0) (fold_sum 3 (total l0)) (fold_sum 3 (total l1)) c f0.0 f0.1 is_c f1.0
        (f1.1 ∙ ap (λ t. t % 65535) sum) (λ z. omega (arith, f1.2 z, sum))
        (λ z. ap (fold_sum 3) z ∙ fold_zero)

-- ===== src/Net/Header.antt =====
-- The header that `ip_send` makes, as its receiver checks it.
use tor_os.Prelude.{ℕ, ◌+◌, ◌/◌, ◌%◌, ◌<◌, ◌≡◌, refl, ap, ap₂, ◌∙◌, List, [], ◌∷◌, ◌++◌, arith}
use tor_os.Net.{u16, htons, byte_at, le16, le32, ip_checksum, ip_header, sent_header}
use tor_os.Net.Checksum.{AreBytes, checksum_stored}

module _ (len id protocol src_ip dst_ip : ℕ) (small : protocol < 256) where
  -- What stands before the checksum, and what after it.
  abbrev before : List ℕ
  before =
      0x45 ∷ 0 ∷ le16 (htons (u16 (20 + len))) ++ le16 (htons id) ++ le16 0 ++ 64 ∷ protocol ∷ []

  abbrev after : List ℕ
  after = le32 src_ip ++ le32 dst_ip

  around_checksum :
      (c : ℕ)
      → ip_header len id protocol src_ip dst_ip c ≡ before ++ c % 256 ∷ c / 256 % 256 ∷ after
  unfolding ip_header
  around_checksum c =
      let low : byte_at 0 c ≡ c % 256 = omega arith in
      let high : byte_at 1 c ≡ c / 256 % 256 = omega arith in
      ap₂ (λ x y. before ++ x ∷ y ∷ after) low high

  AreBytes-before : AreBytes before
  AreBytes-before = (
    omega arith,
    (
      omega arith,
      (
        omega arith,
        (
          omega arith,
          (
            omega arith,
            (omega arith, (omega arith, (omega arith, (omega arith, (omega arith, tt))))),
          ),
        ),
      ),
    ),
  )

  AreBytes-after : AreBytes after
  AreBytes-after = (
    omega arith,
    (
      omega arith,
      (omega arith, (omega arith, (omega arith, (omega arith, (omega arith, (omega arith, tt)))))),
    ),
  )

  -- Every header that `ip_send` makes, of a protocol of one byte, has the checksum that its receiver
  -- expects: the checksum over the whole header is 0.
  pub ip_checksum-sent_header : ip_checksum (sent_header len id protocol src_ip dst_ip) ≡ 0
  unfolding sent_header
  ip_checksum-sent_header =
      let c = ip_checksum (ip_header len id protocol src_ip dst_ip 0) in
      let same : c ≡ ip_checksum (before ++ 0 ∷ 0 ∷ after) = ap ip_checksum (around_checksum 0) in
      ap ip_checksum (around_checksum c)
      ∙ ap (λ x. ip_checksum (before ++ x % 256 ∷ x / 256 % 256 ∷ after)) same
      ∙ checksum_stored before after AreBytes-before AreBytes-after refl (omega arith)

-- ===== src/Net/Layout.antt =====
-- The bytes of an IP header and of an ARP request on the wire, highest byte of a field first.
use tor_os.Prelude.{
  ℕ, ◌+◌, ◌/◌, ◌%◌, ◌^◌, ◌<◌, ◌≡◌, refl, ap, ap₂, sym, ◌∙◌, List, [], ◌∷◌, ◌++◌, arith, length,
  length-append, replicate,
}
use tor_os.Net.{u16, htons, byte_at, le16, le32, ip_checksum, ip_header, sent_header, arp_packet}
use tor_os.Net.Inet.{htons_sum}
use tor_os.Net.Checksum.{total, total-le, AreBytes, ip_checksum-total, fold_sum_lem}
use tor_os.Net.Header.{ip_checksum-sent_header}

abbrev pub be16 : ℕ → List ℕ
be16 v = v / 256 % 256 ∷ v % 256 ∷ []

-- The four numbers of an address, which is in network order as a word in memory.
abbrev pub octets : ℕ → List ℕ
octets ip = ip % 256 ∷ ip / 2 ^ 8 % 256 ∷ ip / 2 ^ 16 % 256 ∷ ip / 2 ^ 24 % 256 ∷ []

-- A header without options: the total length, the identification, no fragments, 64 hops, the
-- protocol, the checksum and the addresses.
abbrev pub ip_layout : ℕ → ℕ → ℕ → ℕ → ℕ → ℕ → ℕ → List ℕ
ip_layout len id protocol src_ip dst_ip high low =
    0x45 ∷ 0 ∷ be16 (20 + len)
    ++ be16 id
    ++ 0 ∷ 0 ∷ 64 ∷ protocol ∷ high ∷ low ∷ octets src_ip
    ++ octets dst_ip

-- "Who has `target_ip`?", for Ethernet and IP.
abbrev pub arp_request_layout : List ℕ → ℕ → ℕ → List ℕ
arp_request_layout mac ip target_ip =
    0 ∷ 1 ∷ 8 ∷ 0 ∷ 6 ∷ 4 ∷ 0 ∷ 1 ∷ mac ++ octets ip ++ replicate 6 0 ++ octets target_ip

htons-be16 : (v : ℕ) → le16 (htons v) ≡ be16 v
htons-be16 v =
    let s = htons_sum v in
    let first : byte_at 0 (htons v) ≡ v / 256 % 256 = omega (arith, s) in
    let second : byte_at 1 (htons v) ≡ v % 256 = omega (arith, s) in
    ap₂ (λ x y. x ∷ y ∷ []) first second

be16-u16 : (v : ℕ) → be16 (u16 v) ≡ be16 v
be16-u16 v =
    let first : u16 v / 256 % 256 ≡ v / 256 % 256 = omega arith in
    let second : u16 v % 256 ≡ v % 256 = omega arith in ap₂ (λ x y. x ∷ y ∷ []) first second

le16-bytes : (v : ℕ) → le16 v ≡ v % 256 ∷ v / 256 % 256 ∷ []
le16-bytes v =
    let first : byte_at 0 v ≡ v % 256 = omega arith in
    let second : byte_at 1 v ≡ v / 256 % 256 = omega arith in ap₂ (λ x y. x ∷ y ∷ []) first second

le32-octets : (v : ℕ) → le32 v ≡ octets v
le32-octets v =
    let first : byte_at 0 v ≡ v % 256 = omega arith in
    let second : byte_at 1 v ≡ v / 2 ^ 8 % 256 = omega arith in
    let third : byte_at 2 v ≡ v / 2 ^ 16 % 256 = omega arith in
    let fourth : byte_at 3 v ≡ v / 2 ^ 24 % 256 = omega arith in
    ap₂ (λ x y. x ∷ y ∷ byte_at 2 v ∷ byte_at 3 v ∷ []) first second
    ∙ ap₂ (λ x y. v % 256 ∷ v / 2 ^ 8 % 256 ∷ x ∷ y ∷ []) third fourth

pub eth_type-be16 :
    (type : ℕ) (mac own payload : List ℕ)
    → mac ++ own ++ le16 (htons type) ++ payload ≡ mac ++ own ++ be16 type ++ payload
eth_type-be16 type mac own payload = ap (λ x. mac ++ own ++ x ++ payload) (htons-be16 type)

AreBytes-octets : (v : ℕ) (rest : List ℕ) → AreBytes rest → AreBytes (octets v ++ rest)
AreBytes-octets v rest h = (omega arith, (omega arith, (omega arith, (omega arith, h))))

-- A header whose checksum comes out as 0 sums to 0.
zero_sum : (l : List ℕ) → AreBytes l → length l ≡ 20 → ip_checksum l ≡ 0 → total l % 65535 ≡ 0
zero_sum l b n e =
    let small : total l < 2 ^ 32 = omega (arith, total-le l b, n) in
    omega (arith, e, ip_checksum-total l b (omega (arith, n)), fold_sum_lem (total l) small)

module _ (len id protocol src_ip dst_ip : ℕ) where
  fields : List ℕ → List ℕ → List ℕ → List ℕ → List ℕ → List ℕ
  fields size name sum from to =
      0x45 ∷ 0 ∷ size ++ name ++ 0 ∷ 0 ∷ 64 ∷ protocol ∷ sum ++ from ++ to

  ip_header-layout :
      (c : ℕ)
      → ip_header len id protocol src_ip dst_ip c
        ≡ ip_layout len id protocol src_ip dst_ip (c % 256) (c / 256 % 256)
  unfolding ip_header fields
  ip_header-layout c =
      ap₂ (λ x y. fields x y (le16 c) (le32 src_ip) (le32 dst_ip))
        (htons-be16 (u16 (20 + len)) ∙ be16-u16 (20 + len)) (htons-be16 id)
      ∙ ap₂ (λ x y. fields (be16 (20 + len)) (be16 id) x y (le32 dst_ip)) (le16-bytes c)
          (le32-octets src_ip)
      ∙ ap (fields (be16 (20 + len)) (be16 id) (c % 256 ∷ c / 256 % 256 ∷ []) (octets src_ip))
          (le32-octets dst_ip)

  layout-AreBytes :
      (high low : ℕ)
      → protocol < 256
      → high < 256
      → low < 256
      → AreBytes (ip_layout len id protocol src_ip dst_ip high low)
  layout-AreBytes high low p h l =
      let after = AreBytes-octets src_ip (octets dst_ip) (AreBytes-octets dst_ip [] tt) in
      (
        omega arith,
        (
          omega arith,
          (
            omega arith,
            (
              omega arith,
              (
                omega arith,
                (omega arith, (omega arith, (omega arith, (omega arith, (p, (h, (l, after))))))),
              ),
            ),
          ),
        ),
      )

  -- The header that `ip_send` makes is laid out so, with a checksum under which the 16-bit words sum
  -- to 0 in ones' complement.
  pub sent_header-layout :
      protocol < 256
      → (high : ℕ) × (low : ℕ) × (sent_header len id protocol src_ip dst_ip
          ≡ ip_layout len id protocol src_ip dst_ip high low)
        × (total (ip_layout len id protocol src_ip dst_ip high low) % 65535 ≡ 0)
  unfolding sent_header
  sent_header-layout p =
      let c = ip_checksum (ip_header len id protocol src_ip dst_ip 0) in
      let laid : sent_header len id protocol src_ip dst_ip
          ≡ ip_layout len id protocol src_ip dst_ip (c % 256) (c / 256 % 256) =
        ip_header-layout c in
      let l = ip_layout len id protocol src_ip dst_ip (c % 256) (c / 256 % 256) in
      (
        c % 256,
        c / 256 % 256,
        laid,
        zero_sum l (layout-AreBytes (c % 256) (c / 256 % 256) p (omega arith) (omega arith)) refl
            (sym (ap ip_checksum laid) ∙ ip_checksum-sent_header len id protocol src_ip dst_ip p),
      )

pub arp_packet-layout :
    (mac : List ℕ) (ip target_ip : ℕ)
    → arp_packet 1 mac ip (replicate 6 0) target_ip ≡ arp_request_layout mac ip target_ip
unfolding arp_packet htons
arp_packet-layout mac ip target_ip =
    ap₂ (λ x y. 0 ∷ 1 ∷ 8 ∷ 0 ∷ 6 ∷ 4 ∷ 0 ∷ 1 ∷ mac ++ x ++ replicate 6 0 ++ y) (le32-octets ip)
      (le32-octets target_ip)

pub length-arp_request_layout :
    (mac : List ℕ) (ip target_ip : ℕ)
    → length (arp_request_layout mac ip target_ip) ≡ length mac + 22
length-arp_request_layout mac ip target_ip =
    let start : List ℕ = 0 ∷ 1 ∷ 8 ∷ 0 ∷ 6 ∷ 4 ∷ 0 ∷ 1 ∷ mac in
    omega (
      arith,
      length-append start (octets ip),
      length-append (start ++ octets ip) (replicate 6 0),
      length-append (start ++ octets ip ++ replicate 6 0) (octets target_ip),
    )

-- ===== src/Net.antt =====
-- kernel/network.c: byte order, addresses as text, the Internet checksum, ARP, and sending IP.
-- A packet is the list of its bytes; the multi-byte fields of the packed structures are little-endian
-- in memory. The queues of the network card, which send a frame, and the delay are parameters on the
-- rest of the kernel's state `W`. `octet`, an `int`, is kept as its 32 bits. Printing is left out.
pub mod Inet
pub mod Checksum
pub mod Header
pub mod Arp
pub mod Layout
pub mod Send
pub mod Sockets
use tor_os.Prelude.{
  ℕ, zero, suc, ◌+◌, ◌-◌, ◌*◌, ◌/◌, ◌%◌, ◌^◌, Bool, true, false, not, ◌&&◌, ◌||◌, List, [], ◌∷◌,
  ◌++◌, Option, none, some, ◌==◌, ltb, leb, if◌then◌else◌, get_or, take, drop, length, replicate,
  bit_and, bit_or,
}
use tor_os.Prelude.Int.{ℤ, pos, negsuc}
use tor_os.Libc.Format.{itoa_decimal}

abbrev pub u16 : ℕ → ℕ
u16 x = x % 2 ^ 16

abbrev pub u32 : ℕ → ℕ
u32 x = x % 2 ^ 32

unfoldable pub htons : ℕ → ℕ
htons v = bit_or (v / 256 % 256) (v % 256 * 256)

abbrev pub ntohs : ℕ → ℕ
ntohs v = htons v

unfoldable pub htonl : ℕ → ℕ
htonl v =
    bit_or
      (bit_or (bit_or (v / 2 ^ 24 % 256) (v / 2 ^ 16 % 256 * 2 ^ 8)) (v / 2 ^ 8 % 256 * 2 ^ 16))
      (v % 256 * 2 ^ 24)

-- The loop of `inet_addr`, from a place in the string on, and the last octet.
unfoldable pub addr_loop : List ℕ → ℕ → ℕ → ℕ
addr_loop [] ip octet = bit_or (u32 (ip * 256)) octet
addr_loop (c ∷ rest) ip octet =
    let after_dot = addr_loop rest (bit_or (u32 (ip * 256)) octet) 0 in
    let after_digit = addr_loop rest ip (u32 (octet * 10 + (c + 2 ^ 32 - b'0'))) in
    if c == 0 then bit_or (u32 (ip * 256)) octet else if c == b'.' then after_dot else after_digit

unfoldable pub inet_addr : List ℕ → ℕ
unfolding addr_loop htonl
inet_addr ip_str = htonl (addr_loop ip_str 0 0)

-- Byte `i` of a word in memory.
abbrev pub byte_at : ℕ → ℕ → ℕ
byte_at i x = x / 256 ^ i % 256

-- What `inet_ntoa` writes to its buffer, which is large enough: `n` rounds from `i`, and the NUL.
unfoldable pub ntoa_loop : ℕ → ℕ → ℕ → List ℕ
unfolding itoa_decimal
ntoa_loop zero i ip = 0 ∷ []
ntoa_loop (suc n) i ip =
    let rest = ntoa_loop n (i + 1) ip in
    itoa_decimal (pos (byte_at i ip)) ++ (if ltb i 3 then b'.' ∷ rest else rest)

unfoldable pub inet_ntoa : ℕ → List ℕ
unfolding ntoa_loop
inet_ntoa ip = ntoa_loop 4 0 ip

-- The first loop of `ip_checksum`, and the odd byte.
unfoldable pub sum_words : List ℕ → ℕ → ℕ
sum_words [] sum = sum
sum_words (x ∷ []) sum = u32 (sum + x)
sum_words (x ∷ y ∷ rest) sum = sum_words rest (u32 (sum + (x + 256 * y)))

-- `while (sum >> 16)`, for at most `fuel` tests.
unfoldable pub fold_sum : ℕ → ℕ → ℕ
fold_sum zero sum = sum
fold_sum (suc fuel) sum =
    let rest = fold_sum fuel (sum % 2 ^ 16 + sum / 2 ^ 16) in
    if sum / 2 ^ 16 == 0 then sum else rest

-- `(uint16)(~sum)`
unfoldable pub ip_checksum : List ℕ → ℕ
unfolding sum_words fold_sum
ip_checksum bytes = u16 (2 ^ 32 - 1 - fold_sum 3 (sum_words bytes 0))

-- `nic_device_t`: what the operations read.
pub record Nic : Type 0 where
  pub mac : List ℕ
  pub ip_addr : ℕ
  pub netmask : ℕ
  pub gateway : ℕ
  pub initialized : ℕ

-- `arp_cache_entry_t`
pub record ArpEntry : Type 0 where
  pub ip : ℕ
  pub mac : List ℕ
  pub timestamp : ℕ
  pub valid : ℕ

pub record Net (W : Type 0) : Type 0 where
  pub nic : Nic
  pub arp_cache : List ArpEntry
  pub ip_id : ℕ
  pub outside : W

-- A field of two or of four bytes.
abbrev pub le16 : ℕ → List ℕ
le16 v = byte_at 0 v ∷ byte_at 1 v ∷ []

abbrev pub le32 : ℕ → List ℕ
le32 v = byte_at 0 v ∷ byte_at 1 v ∷ byte_at 2 v ∷ byte_at 3 v ∷ []

abbrev pub read16 : List ℕ → ℕ → ℕ
read16 p i = get_or p i 0 + 256 * get_or p (i + 1) 0

abbrev pub read32 : List ℕ → ℕ → ℕ
read32 p i = read16 p i + 2 ^ 16 * read16 p (i + 2)

-- The bytes of an `arp_packet_t` for Ethernet and IP.
unfoldable pub arp_packet : ℕ → List ℕ → ℕ → List ℕ → ℕ → List ℕ
unfolding htons
arp_packet opcode sender_mac sender_ip target_mac target_ip =
    le16 (htons 1)
    ++ le16 (htons 0x0800)
    ++ 6 ∷ 4 ∷ le16 (htons opcode)
    ++ sender_mac
    ++ le32 sender_ip
    ++ target_mac
    ++ le32 target_ip

-- The loop of `arp_handle_packet`: the first entry that is free or of this address is written.
unfoldable pub cache_sender : ℕ → List ℕ → ℕ → List ArpEntry → List ArpEntry
cache_sender ip mac now [] = []
cache_sender ip mac now (e ∷ rest) =
    let later = cache_sender ip mac now rest in
    if e.valid == 0 || e.ip == ip
    then record e { ip = ip; mac = mac; timestamp = now; valid = 1 } ∷ rest
    else e ∷ later

-- The search in `arp_resolve`.
unfoldable pub arp_lookup : ℕ → List ArpEntry → Option (List ℕ)
arp_lookup ip [] = none
arp_lookup ip (e ∷ rest) =
    let later = arp_lookup ip rest in if not (e.valid == 0) && e.ip == ip then some e.mac else later

-- The bytes of the IP header, with the given checksum.
unfoldable pub ip_header : ℕ → ℕ → ℕ → ℕ → ℕ → ℕ → List ℕ
unfolding htons
ip_header len id protocol src_ip dst_ip checksum =
    0x45 ∷ 0 ∷ le16 (htons (u16 (20 + len)))
    ++ le16 (htons id)
    ++ le16 0
    ++ 64 ∷ protocol ∷ le16 checksum
    ++ le32 src_ip
    ++ le32 dst_ip

-- The header as `ip_send` makes it: with a checksum of 0, then with the checksum of that.
unfoldable pub sent_header : ℕ → ℕ → ℕ → ℕ → ℕ → List ℕ
unfolding ip_header ip_checksum
sent_header len id protocol src_ip dst_ip =
    ip_header len id protocol src_ip dst_ip
      (ip_checksum (ip_header len id protocol src_ip dst_ip 0))

-- The sender's part of the packet.
abbrev pub sender_ip : List ℕ → ℕ
sender_ip p = read32 p 14

abbrev pub sender_mac : List ℕ → List ℕ
sender_mac p = take 6 (drop 8 p)

-- `len < sizeof(arp_packet_t)`, or not Ethernet and IP
unfoldable pub is_foreign : List ℕ → Bool
unfolding htons
is_foreign p =
    ltb (length p) 28 || (not (ntohs (read16 p 0) == 1) || not (ntohs (read16 p 2) == 0x0800))

module _ {W : Type 0} (transmit : List ℕ → W → W) (delay : W → W) (jiffies : W → ℕ) where
  -- The result, which no caller reads, is left out.
  unfoldable pub nic_send : List ℕ → Net W → Net W
  nic_send packet s =
      if s.nic.initialized == 0 then s else record s { outside = transmit packet s.outside }

  unfoldable pub eth_send : List ℕ → ℕ → List ℕ → Net W → Net W
  unfolding nic_send htons
  eth_send dst_mac type packet s =
      if ltb 1500 (length packet)
      then s
      else nic_send (dst_mac ++ s.nic.mac ++ le16 (htons type) ++ packet) s

  unfoldable pub arp_send_request : ℕ → Net W → Net W
  unfolding eth_send arp_packet
  arp_send_request target_ip s =
      eth_send (replicate 6 0xff) 0x0806
        (arp_packet 1 s.nic.mac s.nic.ip_addr (replicate 6 0) target_ip) s

  unfoldable pub arp_send_reply : ℕ → List ℕ → Net W → Net W
  unfolding eth_send arp_packet
  arp_send_reply target_ip target_mac s =
      eth_send target_mac 0x0806 (arp_packet 2 s.nic.mac s.nic.ip_addr target_mac target_ip) s

  unfoldable pub arp_handle_packet : List ℕ → Net W → Net W
  unfolding cache_sender arp_send_reply htons is_foreign
  arp_handle_packet p s =
      let s' : Net W = record s {
        arp_cache = cache_sender (sender_ip p) (sender_mac p) (jiffies s.outside) s.arp_cache;
      } in
      if is_foreign p
      then s
      else if ntohs (read16 p 6) == 1 && read32 p 24 == s.nic.ip_addr
      then arp_send_reply (sender_ip p) (sender_mac p) s'
      else s'

  -- The retries: the cache is searched after each delay.
  unfoldable pub retry_lookup : ℕ → ℕ → Net W → Option (List ℕ) × Net W
  unfolding arp_lookup
  retry_lookup zero ip s = (none, s)
  retry_lookup (suc n) ip s =
      let s' : Net W = record s { outside = delay s.outside } in
      elim (arp_lookup ip s'.arp_cache) [ some m ↦ (some m, s') | none ↦ retry_lookup n ip s' ]

  -- `none` is -1.
  unfoldable pub arp_resolve : ℕ → Net W → Option (List ℕ) × Net W
  unfolding arp_lookup retry_lookup arp_send_request
  arp_resolve ip s =
      if ip == s.nic.ip_addr then (some s.nic.mac, s) else elim (arp_lookup ip s.arp_cache) [
        | some m ↦ (some m, s)
        | none ↦ retry_lookup 10 ip (arp_send_request ip s)
      ]

  abbrev pub next_hop : ℕ → Net W → ℕ
  next_hop dst_ip s =
      if bit_and dst_ip s.nic.netmask == bit_and s.nic.ip_addr s.nic.netmask
      then dst_ip
      else s.nic.gateway

  unfoldable pub ip_send : ℕ → ℕ → List ℕ → Net W → Net W
  unfolding sent_header arp_resolve eth_send
  ip_send dst_ip protocol payload s =
      let header = sent_header (length payload) s.ip_id protocol s.nic.ip_addr dst_ip in
      let r = arp_resolve (next_hop dst_ip s) (record s { ip_id = u16 (s.ip_id + 1) }) in
      elim r.0 [ none ↦ r.1 | some mac ↦ eth_send mac 0x0800 (header ++ payload) r.1 ]

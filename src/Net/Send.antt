-- ===== src/Net/Send.antt =====
-- `ip_send`: what the card is given, whatever the hop_for and the cache are.
use tor_os.Prelude.{
  ℕ, zero, suc, ◌+◌, ◌≡◌, ◌<◌, ◌%◌, ◌^◌, refl, ap, ap₂, ◌∙◌, false, List, ◌++◌, Option, none, some,
  ◌==◌, ltb, if◌then◌else◌, length, length-append, arith, replicate, bit_and, Bool-cases,
  Option-cases, inl, inr,
}
use tor_os.Net.{
  Net, Nic, u16, arp_lookup, nic_send, eth_send, retry_lookup, arp_resolve, arp_send_request,
  ip_send,
}
use tor_os.Net.Checksum.{total}
use tor_os.Net.Layout.{
  be16, ip_layout, arp_request_layout, length-arp_request_layout, sent_header-layout,
  arp_packet-layout, eth_type-be16,
}

-- Who is given a packet: its destination if that is on our network, else the gateway.
abbrev pub hop_for : ℕ → Nic → ℕ
hop_for dst_ip nic =
    if bit_and dst_ip nic.netmask == bit_and nic.ip_addr nic.netmask then dst_ip else nic.gateway

module _ {W : Type 0} (transmit : List ℕ → W → W) (delay : W → W) (jiffies : W → ℕ) where
  -- The card of an address: our own, or what the cache says.
  abbrev pub card_of : ℕ → Net W → Option (List ℕ)
  card_of ip s = if ip == s.nic.ip_addr then some s.nic.mac else arp_lookup ip s.arp_cache

  -- A frame to a card, if ours is initialised.
  abbrev pub framed : List ℕ → ℕ → List ℕ → Net W → W
  framed mac type body s =
      if s.nic.initialized == 0
      then s.outside
      else transmit (mac ++ s.nic.mac ++ be16 type ++ body) s.outside

  unfoldable pub delays : ℕ → W → W
  delays zero w = w
  delays (suc n) w = delays n (delay w)

  abbrev pub asked : ℕ → Net W → W
  asked ip s =
      delays 10 (framed (replicate 6 0xff) 0x0806 (arp_request_layout s.nic.mac s.nic.ip_addr ip) s)

  -- What is outside after a packet, of which `high` and `low` are the bytes of the checksum.
  abbrev pub sent : ℕ → ℕ → List ℕ → ℕ → ℕ → Net W → W
  sent dst_ip protocol payload high low s = elim (card_of (hop_for dst_ip s.nic) s) [
    | none ↦ asked (hop_for dst_ip s.nic) s
    | some mac ↦
        if ltb 1480 (length payload)
        then s.outside
        else framed mac 0x0800
            (ip_layout (length payload) s.ip_id protocol s.nic.ip_addr dst_ip high low ++ payload) s
  ]

  eth_send_lem :
      (mac : List ℕ) (type : ℕ) (body : List ℕ) (s : Net W)
      → eth_send transmit delay jiffies mac type body s ≡ record s {
        outside = if ltb 1500 (length body) then s.outside else framed mac type body s;
      }
  unfolding eth_send nic_send
  eth_send_lem mac type body s = elim (Bool-cases (ltb 1500 (length body))) [
    | inl long ↦ rw (long, eth_send) refl
    | inr short ↦ elim (Bool-cases (s.nic.initialized == 0)) [
      | inl down ↦ rw (short, down, eth_send, nic_send) refl
      | inr up ↦
          rw (short, up, eth_send, nic_send)
            (ap (λ p. record s { outside = transmit p s.outside })
              (eth_type-be16 type mac s.nic.mac body))
    ]
  ]

  retry_lem :
      (n ip : ℕ) (s : Net W)
      → arp_lookup ip s.arp_cache ≡ none
      → retry_lookup transmit delay jiffies n ip s
        ≡ (none, record s { outside = delays n s.outside })
  unfolding retry_lookup delays
  retry_lem zero ip s e = refl
  retry_lem (suc n) ip s e =
      rw (e, retry_lookup) (retry_lem n ip (record s { outside = delay s.outside }) e)

  request_lem :
      (ip : ℕ) (s : Net W)
      → length s.nic.mac ≡ 6
      → arp_send_request transmit delay jiffies ip s ≡ record s {
        outside =
            framed (replicate 6 0xff) 0x0806 (arp_request_layout s.nic.mac s.nic.ip_addr ip) s;
      }
  unfolding arp_send_request
  request_lem ip s six =
      let body = arp_request_layout s.nic.mac s.nic.ip_addr ip in
      let short : ltb 1500 (length body) ≡ false =
        ground (arith, length-arp_request_layout s.nic.mac s.nic.ip_addr ip, six) in
      ap (λ p. eth_send transmit delay jiffies (replicate 6 0xff) 0x0806 p s)
        (arp_packet-layout s.nic.mac s.nic.ip_addr ip)
      ∙ eth_send_lem (replicate 6 0xff) 0x0806 body s
      ∙ rw short refl

  -- The answer and what is outside after `arp_resolve`.
  resolve_lem :
      (ip : ℕ) (s : Net W)
      → length s.nic.mac ≡ 6
      → arp_resolve transmit delay jiffies ip s ≡ (
        card_of ip s,
        record s { outside = elim (card_of ip s) [ none ↦ asked ip s | some mac ↦ s.outside ] },
      )
  unfolding arp_resolve
  resolve_lem ip s six = elim (Bool-cases (ip == s.nic.ip_addr)) [
    | inl own ↦ rw (own, arp_resolve) refl
    | inr other ↦ elim (Option-cases (arp_lookup ip s.arp_cache)) [
      | inr (mac, e) ↦ rw (other, e, arp_resolve) refl
      | inl e ↦
          rw (other, e, arp_resolve)
            (ap (retry_lookup transmit delay jiffies 10 ip) (request_lem ip s six)
              ∙ retry_lem 10 ip _ e)
    ]
  ]

  finish :
      (hop : ℕ) (h payload : List ℕ) (s : Net W)
      → length h ≡ 20
      → (c : Option (List ℕ))
      → let s1 : Net W = record s {
        ip_id = u16 (s.ip_id + 1);
        outside = elim c [ none ↦ asked hop s | some mac ↦ s.outside ];
      } in
        elim c as (λ _. Net W) [
          | none ↦ s1
          | some mac ↦ eth_send transmit delay jiffies mac 0x0800 (h ++ payload) s1
        ]
        ≡ record s {
          ip_id = u16 (s.ip_id + 1);
          outside = elim c [
            | none ↦ asked hop s
            | some mac ↦
                if ltb 1480 (length payload) then s.outside else framed mac 0x0800 (h ++ payload) s
          ];
        }
  finish hop h payload s n none = refl
  finish hop h payload s n (some mac) =
      let s1 : Net W = record s { ip_id = u16 (s.ip_id + 1) } in
      let same : ltb 1500 (length (h ++ payload)) ≡ ltb 1480 (length payload) =
        ground (arith, length-append h payload, n) in
      eth_send_lem mac 0x0800 (h ++ payload) s1
      ∙ ap
          (λ b. record s1 {
            outside = if b then s1.outside else framed mac 0x0800 (h ++ payload) s1;
          })
          same

  -- With a card address of six bytes and a protocol of one byte, `ip_send` changes what is outside and
  -- the identification of the next packet, by one modulo 2 ^ 16, and nothing else. To a next hop whose
  -- card is known, the card is given one frame of type 0x0800, with the IP header of the packet, whose
  -- words sum to 0 in ones' complement, and the payload; a payload of more than 1480 bytes is dropped.
  -- For a next hop that is not known, the card is given an ARP request to all, ten delays pass, and
  -- the packet is dropped. A card that is not initialised is given nothing. The next hop is the
  -- destination if it is on the network of our address and mask, else the gateway.
  pub ip_send_lem :
      (dst_ip protocol : ℕ) (payload : List ℕ) (s : Net W)
      → length s.nic.mac ≡ 6
      → protocol < 256
      → (high : ℕ) × (low : ℕ) × (total
              (ip_layout (length payload) s.ip_id protocol s.nic.ip_addr dst_ip high low)
            % 65535
          ≡ 0)
        × (ip_send transmit delay jiffies dst_ip protocol payload s ≡ record s {
          ip_id = (s.ip_id + 1) % 2 ^ 16;
          outside = sent dst_ip protocol payload high low s;
        })
  unfolding ip_send
  ip_send_lem dst_ip protocol payload s six small =
      let (high, low, laid, sum) =
        sent_header-layout (length payload) s.ip_id protocol s.nic.ip_addr dst_ip small in
      let hop = hop_for dst_ip s.nic in
      let s1 : Net W = record s { ip_id = u16 (s.ip_id + 1) } in
      let header = ip_layout (length payload) s.ip_id protocol s.nic.ip_addr dst_ip high low in
      let goes = λ (h : List ℕ) (r : Option (List ℕ) × Net W). elim r.0 as (λ _. Net W) [
        | none ↦ r.1
        | some mac ↦ eth_send transmit delay jiffies mac 0x0800 (h ++ payload) r.1
      ] in
      (
        high,
        low,
        sum,
        ap₂ goes laid (resolve_lem hop s1 six) ∙ finish hop header payload s refl (card_of hop s),
      )

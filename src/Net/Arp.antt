-- ===== src/Net/Arp.antt =====
-- The ARP cache: what a packet teaches, and what resolving an address then answers.
use tor_os.Prelude.{
  ℕ, ◌≡◌, refl, ap, ◌∙◌, Bool, true, false, ◌&&◌, ◌||◌, List, [], ◌∷◌, some, ◌==◌, if◌then◌else◌,
  arith, Bool-cases, inl, inr,
}
use tor_os.Net.{
  Net, ArpEntry, cache_sender, arp_lookup, arp_handle_packet, arp_resolve, arp_packet,
  arp_send_reply, eth_send, nic_send, sender_ip, sender_mac, is_foreign, read16, read32, ntohs,
}

-- Whether the cache has an entry for the address or a free one.
abbrev pub has_room : ℕ → List ArpEntry → Bool
has_room ip [] = false
has_room ip (e ∷ rest) = (e.valid == 0 || e.ip == ip) || has_room ip rest

-- After a packet from an address, a search for it finds its card where the cache has room, and a
-- search for any other address finds what it found before.
arp_lookup-cache_sender :
    (ip ip' : ℕ) (mac : List ℕ) (now : ℕ) (cache : List ArpEntry)
    → arp_lookup ip' (cache_sender ip mac now cache)
      ≡ (if ip == ip' && has_room ip cache then some mac else arp_lookup ip' cache)
unfolding arp_lookup cache_sender
arp_lookup-cache_sender ip ip' mac now [] = ground arith
arp_lookup-cache_sender ip ip' mac now (e ∷ rest) =
    ground (arith, arp_lookup-cache_sender ip ip' mac now rest)

module _ {W : Type 0} (transmit : List ℕ → W → W) (delay : W → W) (jiffies : W → ℕ) where
  -- Sending changes neither the cache nor the card's settings.
  record Sends (s s' : Net W) : Type 0 where
    nic : s'.nic ≡ s.nic
    cache : s'.arp_cache ≡ s.arp_cache
    id : s'.ip_id ≡ s.ip_id

  eth_send-Sends :
      (dst : List ℕ) (type : ℕ) (packet : List ℕ) (s : Net W)
      → Sends s (eth_send transmit delay jiffies dst type packet s)
  unfolding eth_send nic_send
  eth_send-Sends dst type packet s = record {
    nic = ground arith;
    cache = ground arith;
    id = ground arith;
  }

  abbrev pub learned : List ℕ → Net W → Net W
  learned p s = record s {
    arp_cache = cache_sender (sender_ip p) (sender_mac p) (jiffies s.outside) s.arp_cache;
  }

  handle-reply :
      (p : List ℕ) (s : Net W)
      → is_foreign p ≡ false
      → (ntohs (read16 p 6) == 1 && read32 p 24 == s.nic.ip_addr) ≡ true
      → arp_handle_packet transmit delay jiffies p s
        ≡ arp_send_reply transmit delay jiffies (sender_ip p) (sender_mac p) (learned p s)
  unfolding arp_handle_packet
  handle-reply p s known e = rw (known, arp_handle_packet) (rw e refl)

  handle-silent :
      (p : List ℕ) (s : Net W)
      → is_foreign p ≡ false
      → (ntohs (read16 p 6) == 1 && read32 p 24 == s.nic.ip_addr) ≡ false
      → arp_handle_packet transmit delay jiffies p s ≡ learned p s
  unfolding arp_handle_packet
  handle-silent p s known e = rw (known, arp_handle_packet) (rw e refl)

  handle_lem :
      (p : List ℕ) (s : Net W)
      → is_foreign p ≡ false
      → Sends (learned p s) (arp_handle_packet transmit delay jiffies p s)
  unfolding arp_send_reply
  handle_lem p s known =
      let test = ntohs (read16 p 6) == 1 && read32 p 24 == s.nic.ip_addr in
      elim (Bool-cases test) [
        | inl e ↦ rw (handle-reply p s known e) (
            eth_send-Sends (sender_mac p) 0x0806
              (arp_packet 2 s.nic.mac s.nic.ip_addr (sender_mac p) (sender_ip p)) (learned p s))
        | inr e ↦ rw (handle-silent p s known e) (record { nic = refl; cache = refl; id = refl })
      ]

  resolve-cached :
      (ip : ℕ) (mac : List ℕ) (s : Net W)
      → (ip == s.nic.ip_addr) ≡ false
      → arp_lookup ip s.arp_cache ≡ some mac
      → arp_resolve transmit delay jiffies ip s ≡ (some mac, s)
  unfolding arp_resolve
  resolve-cached ip mac s other e = rw (other, e, arp_resolve) refl

  -- An ARP packet for Ethernet and IP from another machine teaches its sender's card: where the cache
  -- has room for the sender, resolving its address at once gives that card, and for every other
  -- address the cache answers as before the packet.
  pub arp_resolve-arp_handle_packet :
      (p : List ℕ) (s : Net W)
      → is_foreign p ≡ false
      → (sender_ip p == s.nic.ip_addr) ≡ false
      → has_room (sender_ip p) s.arp_cache ≡ true
      → let s' = arp_handle_packet transmit delay jiffies p s in
        (arp_resolve transmit delay jiffies (sender_ip p) s' ≡ (some (sender_mac p), s'))
        × ((ip : ℕ)
            → arp_lookup ip s'.arp_cache
              ≡ (if sender_ip p == ip then some (sender_mac p) else arp_lookup ip s.arp_cache))
  arp_resolve-arp_handle_packet p s known other room =
      let s' = arp_handle_packet transmit delay jiffies p s in
      let h = handle_lem p s known in
      let answers = λ (ip : ℕ).
        let learns =
          arp_lookup-cache_sender (sender_ip p) ip (sender_mac p) (jiffies s.outside) s.arp_cache in
        ap (arp_lookup ip) h.cache ∙ learns ∙ ground (arith, room) in
      let self = answers (sender_ip p) ∙ ground arith in
      (
        resolve-cached (sender_ip p) (sender_mac p) s'
            (ap (λ n. sender_ip p == n.ip_addr) h.nic ∙ other) self,
        answers,
      )

-- ===== src/Tests/Packets.antt =====
-- kernel/network.c at concrete inputs.
use tor_os.Prelude.{
  ℕ, ◌+◌, ◌≡◌, ◌%◌, ◌^◌, refl, List, [], ◌∷◌, some, ◌==◌, if◌then◌else◌, length, arith, replicate,
}
use tor_os.Net.{
  Net, inet_addr, inet_ntoa, ip_checksum, sent_header, arp_packet, arp_handle_packet, arp_resolve,
  arp_lookup, sender_ip, sender_mac, is_foreign, ip_send, htons,
}
use tor_os.Net.Inet.{inet_addr-inet_ntoa}
use tor_os.Net.Header.{ip_checksum-sent_header}
use tor_os.Net.Arp.{arp_resolve-arp_handle_packet}
use tor_os.Net.Checksum.{total}
use tor_os.Net.Layout.{ip_layout}
use tor_os.Net.Send.{delays, sent, ip_send_lem}

-- 10.0.2.15, 10.0.2.2 and 10.0.2.3
abbrev own : ℕ
own = 0x0f02_000a

abbrev gateway : ℕ
gateway = 0x0202_000a

abbrev peer : ℕ
peer = 0x0302_000a

abbrev own_mac : List ℕ
own_mac = 0x52 ∷ 0x54 ∷ 0 ∷ 0x12 ∷ 0x34 ∷ 0x56 ∷ []

abbrev peer_mac : List ℕ
peer_mac = 2 ∷ 4 ∷ 6 ∷ 8 ∷ 10 ∷ 12 ∷ []

-- The cache has one entry and it is free. The card keeps the frames that it is given.
abbrev quiet : Net (List (List ℕ))
quiet = record {
  nic = record {
    mac = own_mac;
    ip_addr = own;
    netmask = 0x00ff_ffff;
    gateway = gateway;
    initialized = 1;
  };
  arp_cache = record { ip = 0; mac = replicate 6 0; timestamp = 0; valid = 0 } ∷ [];
  ip_id = 1;
  outside = [];
}

-- The peer's card is in the cache.
abbrev known : Net (List (List ℕ))
known = record quiet {
  arp_cache = record { ip = peer; mac = peer_mac; timestamp = 0; valid = 1 } ∷ [];
}

abbrev keep : List ℕ → List (List ℕ) → List (List ℕ)
keep frame frames = frame ∷ frames

-- The peer asks for our card.
abbrev question : List ℕ
question = arp_packet 1 peer_mac peer (replicate 6 0) own

abbrev payload : List ℕ
payload = 1 ∷ 2 ∷ []

inet_addr-inet_ntoa_example : inet_addr (inet_ntoa own) ≡ own
inet_addr-inet_ntoa_example = inet_addr-inet_ntoa own (omega arith)

ip_checksum-sent_header_example : ip_checksum (sent_header 4 1 17 own gateway) ≡ 0
ip_checksum-sent_header_example = ip_checksum-sent_header 4 1 17 own gateway (omega arith)

arp_resolve-arp_handle_packet_example :
    (arp_resolve keep
        (λ w. w)
        (λ w. 7)
        (sender_ip question)
        (arp_handle_packet keep (λ w. w) (λ w. 7) question quiet)
      ≡ (some (sender_mac question), arp_handle_packet keep (λ w. w) (λ w. 7) question quiet))
    × ((ip : ℕ)
        → arp_lookup ip (arp_handle_packet keep (λ w. w) (λ w. 7) question quiet).arp_cache ≡ (
            if sender_ip question == ip
            then some (sender_mac question)
            else arp_lookup ip quiet.arp_cache))
unfolding arp_packet htons is_foreign
arp_resolve-arp_handle_packet_example =
    arp_resolve-arp_handle_packet keep (λ w. w) (λ w. 7) question quiet refl refl refl

ip_send_lem_example :
    (high : ℕ) × (low : ℕ) × (total (ip_layout (length payload) known.ip_id 17 own peer high low)
        % 65535
      ≡ 0)
    × (ip_send keep (λ w. w) (λ w. 7) peer 17 payload known ≡ record known {
      ip_id = (known.ip_id + 1) % 2 ^ 16;
      outside = sent keep (λ w. w) (λ w. 7) peer 17 payload high low known;
    })
ip_send_lem_example = ip_send_lem keep (λ w. w) (λ w. 7) peer 17 payload known refl (omega arith)

-- The peer is on our network and its card is known: one frame goes out.
frame_out : length (sent keep (λ w. w) (λ w. 7) peer 17 payload 0 0 known) ≡ 1
unfolding arp_lookup
frame_out = refl

-- In the empty cache it is not: the ARP request goes out.
request_out : length (sent keep (λ w. w) (λ w. 7) peer 17 payload 0 0 quiet) ≡ 1
unfolding arp_lookup delays
request_out = refl

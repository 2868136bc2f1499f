-- ===== src/Tests/Sockets.antt =====
-- The sockets of kernel/network.c at concrete inputs.
use tor_os.Prelude.{ℕ, ◌≡◌, refl, true, false, List, [], ◌∷◌, some, replicate}
use tor_os.Prelude.Int.{ℤ, pos}
use tor_os.Search.{first}
use tor_os.Net.Sockets.{
  Address, Sockets, zero_socket, established, is_free, is_unused, socket_at, sys_socket,
  sys_connect,
}
use tor_os.Net.Sockets.Live.{
  Call, socket_call, bind_call, listen_call, connect_call, send_call, close_call, closes, run_all,
  sys_socket-run_all,
}

-- The frames are dropped, on a card that is not set up and a heap of a page.
abbrev start : Sockets ℕ
start = record {
  sockets = replicate 32 zero_socket;
  mem = record {
    page_bitmap = [];
    total_pages = 0;
    free_page_count = 0;
    bitmap_pages = 0;
    heap_start = 4096;
    heap_end = 8192;
    heap_ptr = 4096;
  };
  net = record {
    nic = record { mac = []; ip_addr = 0; netmask = 0; gateway = 0; initialized = 0 };
    arp_cache = [];
    ip_id = 0;
    outside = 5;
  };
}

abbrev peer : Address
peer = record { family = 2; port = 0x5000; addr = 0x0202_000a }

-- A second socket is made and closed; the first is bound, connected and used.
abbrev calls : List Call
calls =
    socket_call (pos 2) (pos 2) (pos 0)
    ∷ bind_call (pos 0) (some peer)
    ∷ close_call (pos 1)
    ∷ connect_call (pos 0) (some peer)
    ∷ send_call (pos 0) (some (1 ∷ 2 ∷ []))
    ∷ listen_call (pos 0)
    ∷ []

sys_socket-run_all_example :
    let later =
      run_all (λ p w. w) (λ w. w) (λ w. w) calls (sys_socket (pos 2) (pos 1) (pos 0) start).1 in
    (is_free start 0 ≡ true)
    × (is_free later 0 ≡ false)
    × ((domain type protocol : ℤ) → ¬ ((sys_socket domain type protocol later).0 ≡ pos 0))
unfolding sys_socket first is_unused closes
sys_socket-run_all_example =
    sys_socket-run_all (λ p w. w) (λ w. w) (λ w. w) 0 (pos 2) (pos 1) (pos 0) calls start refl refl
      refl

-- `sys_connect` takes a descriptor that nobody was given.
connect_unused :
    (socket_at (sys_connect (λ p w. w) (λ w. w) (λ w. w) (pos 7) (some peer) start).1 7).state
    ≡ established
unfolding sys_connect
connect_unused = refl

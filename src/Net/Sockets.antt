-- ===== src/Net/Sockets.antt =====
-- kernel/network.c: the sockets, over the heap of Mm and the sending of Net.
-- A socket's fields for buffered bytes, which nothing reads, are left out, as is `sys_recv`. A buffer
-- to send has at most 65536 bytes, the room that the source has for it on the stack.
pub mod Live
use tor_os.Prelude.{
  ℕ, zero, suc, ◌+◌, ◌-◌, ◌*◌, ◌/◌, ◌%◌, ◌^◌, Bool, true, false, not, ◌&&◌, ◌||◌, List, [], ◌∷◌,
  ◌++◌, Option, none, some, ◌==◌, ltb, leb, if◌then◌else◌, get_or, set, take, length, replicate,
}
use tor_os.Prelude.Int.{ℤ, pos, negsuc, eq_ℤ}
use tor_os.Search.{first}
use tor_os.Mm.{Mem, kmalloc}
use tor_os.Net.{Net, u16, u32, htons, htonl, le16, le32, ip_checksum, ip_send}

abbrev pub socket_max : ℕ
socket_max = 32

-- `socket_state_t`
pub data SocketState : Type 0 where
  unused closed listening syn_sent syn_received established fin_wait_1 fin_wait_2 close_wait :
      SocketState
  closing last_ack time_wait bound : SocketState

-- `sockaddr_in_t`
pub record Address : Type 0 where
  pub family : ℕ
  pub port : ℕ
  pub addr : ℕ

-- `socket_t`
pub record Socket : Type 0 where
  pub id : ℤ
  pub domain : ℤ
  pub type : ℤ
  pub protocol : ℤ
  pub state : SocketState
  pub local_addr : Address
  pub remote_addr : Address
  pub seq_num : ℕ
  pub window_size : ℕ
  pub rx_buffer : Option ℕ
  pub tx_buffer : Option ℕ

abbrev pub no_address : Address
no_address = record { family = 0; port = 0; addr = 0 }

-- An entry after `memset` and with the id -1.
abbrev pub zero_socket : Socket
zero_socket = record {
  id = negsuc 0;
  domain = pos 0;
  type = pos 0;
  protocol = pos 0;
  state = unused;
  local_addr = no_address;
  remote_addr = no_address;
  seq_num = 0;
  window_size = 0;
  rx_buffer = none;
  tx_buffer = none;
}

pub record Sockets (W : Type 0) : Type 0 where
  pub sockets : List Socket
  pub mem : Mem
  pub net : Net W

unfoldable pub is_unused : SocketState → Bool
is_unused unused = true
is_unused _ = false

unfoldable pub is_established : SocketState → Bool
is_established established = true
is_established _ = false

-- The bytes of a segment: the header with the given checksum, then the payload.
unfoldable pub segment : Socket → List ℕ → ℕ → List ℕ
unfolding htons htonl
segment v payload checksum =
    le16 v.local_addr.port
    ++ le16 v.remote_addr.port
    ++ le32 (htonl v.seq_num)
    ++ le32 0
    ++ 80 ∷ 24 ∷ le16 (htons v.window_size)
    ++ le16 checksum
    ++ le16 0
    ++ payload

unfoldable pub datagram : Socket → List ℕ → List ℕ
unfolding htons
datagram v payload =
    le16 v.local_addr.port
    ++ le16 v.remote_addr.port
    ++ le16 (htons (u16 (8 + length payload)))
    ++ le16 0
    ++ payload

module _ {W : Type 0} where
  abbrev pub socket_at : Sockets W → ℕ → Socket
  socket_at s i = get_or s.sockets i zero_socket

  abbrev pub put_socket : ℕ → Socket → Sockets W → Sockets W
  put_socket i v s = record s { sockets = set s.sockets i v }

  unfoldable pub socket_init : Sockets W → Sockets W
  socket_init s = record s { sockets = replicate socket_max zero_socket }

  abbrev pub is_free : Sockets W → ℕ → Bool
  is_free s i = is_unused (socket_at s i).state

  unfoldable pub sys_socket : ℤ → ℤ → ℤ → Sockets W → ℤ × Sockets W
  unfolding first kmalloc is_unused
  sys_socket domain type protocol s = elim (first (is_free s) socket_max 0) [
    | none ↦ (negsuc 0, s)
    | some i ↦
        let rx = kmalloc 65536 s.mem in
        let tx = kmalloc 65536 rx.1 in
        (
          pos i,
          record (put_socket i
              (record (socket_at s i) {
                id = pos i;
                domain = domain;
                type = type;
                protocol = protocol;
                state = closed;
                window_size = 8192;
                rx_buffer = rx.0;
                tx_buffer = tx.0;
              })
              s) { mem = tx.1 },
        )
  ]

  unfoldable pub sys_bind : ℤ → Option Address → Sockets W → ℤ × Sockets W
  unfolding is_unused
  sys_bind (pos fd) (some a) s =
      if leb socket_max fd || is_free s fd
      then (negsuc 0, s)
      else (pos 0, put_socket fd (record (socket_at s fd) { local_addr = a; state = bound }) s)
  sys_bind _ _ s = (negsuc 0, s)

  unfoldable pub sys_listen : ℤ → Sockets W → ℤ × Sockets W
  sys_listen (negsuc n) s = (negsuc 0, s)
  sys_listen (pos fd) s =
      if leb socket_max fd || not (eq_ℤ (socket_at s fd).type (pos 1))
      then (negsuc 0, s)
      else (pos 0, put_socket fd (record (socket_at s fd) { state = listening }) s)

  -- `kfree` leaves the heap as it is.
  unfoldable pub sys_close : ℤ → Sockets W → ℤ × Sockets W
  sys_close (negsuc n) s = (negsuc 0, s)
  sys_close (pos fd) s =
      if leb socket_max fd then (negsuc 0, s) else (pos 0, put_socket fd zero_socket s)

module _ {W : Type 0} (transmit : List ℕ → W → W) (delay : W → W) (jiffies : W → ℕ) where
  unfoldable pub sys_connect : ℤ → Option Address → Sockets W → ℤ × Sockets W
  sys_connect (pos fd) (some a) s =
      let v = socket_at s fd in
      if leb socket_max fd then (negsuc 0, s) else (
        pos 0,
        put_socket fd
            (record v {
              remote_addr = a;
              state = established;
              seq_num = if eq_ℤ v.type (pos 1) then u32 (jiffies s.net.outside) else v.seq_num;
            })
            s,
      )
  sys_connect _ _ s = (negsuc 0, s)

  -- `ip_send`, whose length is a `uint16`.
  abbrev pub send_packet : ℕ → ℕ → List ℕ → Sockets W → Sockets W
  send_packet addr protocol p s = record s {
    net = ip_send transmit delay jiffies addr protocol (take (u16 (length p)) p) s.net;
  }

  unfoldable pub sys_send : ℤ → Option (List ℕ) → Sockets W → ℤ × Sockets W
  unfolding is_established segment datagram ip_checksum ip_send
  sys_send (pos fd) (some payload) s =
      let v = socket_at s fd in
      let len = length payload in
      let p = segment v payload (ip_checksum (segment v payload 0)) in
      if leb socket_max fd || len == 0
      then (negsuc 0, s)
      else if not (is_established v.state)
      then (negsuc 0, s)
      else if eq_ℤ v.type (pos 1)
      then (
        pos len,
        put_socket fd (record v { seq_num = u32 (v.seq_num + len) })
            (send_packet v.remote_addr.addr 6 p s),
      )
      else if eq_ℤ v.type (pos 2)
      then (pos len, send_packet v.remote_addr.addr 17 (datagram v payload) s)
      else (negsuc 0, s)
  sys_send _ _ s = (negsuc 0, s)

  unfoldable pub sys_sendto : ℤ → Option (List ℕ) → Option Address → Sockets W → ℤ × Sockets W
  unfolding sys_send
  sys_sendto (pos fd) (some payload) (some a) s =
      if leb socket_max fd
      then (negsuc 0, s)
      else sys_send (pos fd) (some payload)
          (put_socket fd (record (socket_at s fd) { remote_addr = a }) s)
  sys_sendto _ _ _ s = (negsuc 0, s)

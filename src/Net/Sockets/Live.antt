-- ===== src/Net/Sockets/Live.antt =====
-- kernel/network.c: a descriptor that `sys_socket` gave is not given again before it is closed.
use tor_os.Prelude.{
  ℕ, ◌<◌, ◌≡◌, refl, sym, ap, subst, ◌∙◌, Bool, true, false, not, ◌||◌, List, [], ◌∷◌, Option, none,
  some, ◌==◌, leb, get_or, set, length, length-set, get_or-set_if, arith, Bool-cases, Option-cases,
  inl, inr,
}
use tor_os.Prelude.Int.{ℤ, pos, negsuc, eq_ℤ, pos_part}
use tor_os.Search.{first, first-IsFirst}
use tor_os.Net.Sockets.{
  SocketState, unused, established, Address, Socket, Sockets, zero_socket, socket_max, is_unused,
  is_established, is_free, socket_at, put_socket, sys_socket, sys_bind, sys_listen, sys_close,
  sys_connect, sys_send, sys_sendto,
}

pub data Call : Type 0 where
  socket_call : ℤ → ℤ → ℤ → Call
  bind_call : ℤ → Option Address → Call
  listen_call : ℤ → Call
  connect_call : ℤ → Option Address → Call
  send_call : ℤ → Option (List ℕ) → Call
  sendto_call : ℤ → Option (List ℕ) → Option Address → Call
  close_call : ℤ → Call

abbrev is_close : ℕ → Call → Bool
is_close fd (close_call k) = eq_ℤ k (pos fd)
is_close fd _ = false

-- One of the calls closes the descriptor.
unfoldable pub closes : ℕ → List Call → Bool
closes fd [] = false
closes fd (c ∷ rest) = let later = closes fd rest in is_close fd c || later

-- Descriptor `fd` is in use.
record Held (fd : ℕ) (ss : List Socket) : Type 0 where
  size : length ss ≡ socket_max
  live : is_unused (get_or ss fd zero_socket).state ≡ false

Held-set :
    (fd i : ℕ) (v : Socket) (ss : List Socket)
    → Held fd ss
    → i < socket_max
    → (i == fd ≡ true → is_unused v.state ≡ false)
    → Held fd (set ss i v)
Held-set fd i v ss h lt same = record {
  size = length-set ss i v ∙ h.size;
  live = ground (arith, h.live, same, get_or-set_if ss i fd v zero_socket (omega (arith, h.size)));
}

set-Held :
    (fd : ℕ) (v : Socket) (ss : List Socket)
    → length ss ≡ socket_max
    → fd < socket_max
    → is_unused v.state ≡ false
    → Held fd (set ss fd v)
set-Held fd v ss l lt e = record {
  size = length-set ss fd v ∙ l;
  live = ground (arith, e, get_or-set_if ss fd fd v zero_socket (omega (arith, l)));
}

established_lem : (st : SocketState) → is_established st ≡ true → is_unused st ≡ false
unfolding is_established is_unused
established_lem unused e = sym e
established_lem established e = refl
established_lem _ e = ground arith

module _ {W : Type 0} (fd : ℕ) (s : Sockets W) (h : Held fd s.sockets) where
  socket-Held : (domain type protocol : ℤ) → Held fd (sys_socket domain type protocol s).1.sockets
  unfolding sys_socket is_unused
  socket-Held domain type protocol = elim (Option-cases (first (is_free s) socket_max 0)) [
    | inl e ↦ rw (e, sys_socket) h
    | inr (i, e) ↦
        let f = first-IsFirst (is_free s) socket_max 0 i e in
        rw (e, sys_socket) (Held-set fd i _ s.sockets h (omega (arith, f.below)) (λ _. refl))
  ]

  bind-Held : (k : ℤ) (a : Option Address) → Held fd (sys_bind k a s).1.sockets
  unfolding sys_bind is_unused
  bind-Held (negsuc n) a = h
  bind-Held (pos k) none = h
  bind-Held (pos k) (some a) = elim (Bool-cases (leb socket_max k || is_free s k)) [
    | inl e ↦ rw (e, sys_bind) h
    | inr e ↦ rw (e, sys_bind) (Held-set fd k _ s.sockets h (ground arith) (λ _. refl))
  ]

  listen-Held : (k : ℤ) → Held fd (sys_listen k s).1.sockets
  unfolding sys_listen is_unused
  listen-Held (negsuc n) = h
  listen-Held (pos k) =
      elim (Bool-cases (leb socket_max k || not (eq_ℤ (socket_at s k).type (pos 1)))) [
        | inl e ↦ rw (e, sys_listen) h
        | inr e ↦ rw (e, sys_listen) (Held-set fd k _ s.sockets h (ground arith) (λ _. refl))
      ]

  close-Held : (k : ℤ) → eq_ℤ k (pos fd) ≡ false → Held fd (sys_close k s).1.sockets
  unfolding sys_close
  close-Held (negsuc n) other = h
  close-Held (pos k) other = elim (Bool-cases (leb socket_max k)) [
    | inl e ↦ rw (e, sys_close) h
    | inr e ↦
        rw (e, sys_close) (Held-set fd k zero_socket s.sockets h (ground arith) (λ q. ground arith))
  ]

-- The calls that send, on a card with its queues.
module _ {W : Type 0} (transmit : List ℕ → W → W) (delay : W → W) (jiffies : W → ℕ) where
  step : Call → Sockets W → Sockets W
  unfolding sys_socket
  step (socket_call domain type protocol) s = (sys_socket domain type protocol s).1
  step (bind_call k a) s = (sys_bind k a s).1
  step (listen_call k) s = (sys_listen k s).1
  step (connect_call k a) s = (sys_connect transmit delay jiffies k a s).1
  step (send_call k p) s = (sys_send transmit delay jiffies k p s).1
  step (sendto_call k p a) s = (sys_sendto transmit delay jiffies k p a s).1
  step (close_call k) s = (sys_close k s).1

  -- The state after the calls.
  unfoldable pub run_all : List Call → Sockets W → Sockets W
  unfolding step
  run_all [] s = s
  run_all (c ∷ rest) s = run_all rest (step c s)

  module _ (fd : ℕ) where
    connect-Held :
        (s : Sockets W) (k : ℤ) (a : Option Address)
        → Held fd s.sockets
        → Held fd (sys_connect transmit delay jiffies k a s).1.sockets
    unfolding sys_connect is_unused
    connect-Held s (negsuc n) a h = h
    connect-Held s (pos k) none h = h
    connect-Held s (pos k) (some a) h = elim (Bool-cases (leb socket_max k)) [
      | inl e ↦ rw (e, sys_connect) h
      | inr e ↦ rw (e, sys_connect) (Held-set fd k _ s.sockets h (ground arith) (λ _. refl))
    ]

    send-Held :
        (s : Sockets W) (k : ℤ) (p : Option (List ℕ))
        → Held fd s.sockets
        → Held fd (sys_send transmit delay jiffies k p s).1.sockets
    unfolding sys_send
    send-Held s (negsuc n) p h = h
    send-Held s (pos k) none h = h
    send-Held s (pos k) (some p) h =
        let v = socket_at s k in
        elim (Bool-cases (leb socket_max k || length p == 0)) [
          | inl e ↦ rw (e, sys_send) h
          | inr e ↦ elim (Bool-cases (not (is_established v.state))) [
            | inl f ↦ rw (e, f, sys_send) h
            | inr f ↦ elim (Bool-cases (eq_ℤ v.type (pos 1))) [
              | inl g ↦
                  rw (e, f, g, sys_send)
                    (Held-set fd k _ s.sockets h (ground arith)
                      (λ q. established_lem v.state (ground arith)))
              | inr g ↦ elim (Bool-cases (eq_ℤ v.type (pos 2))) [
                | inl t ↦ rw (e, f, g, t, sys_send) h
                | inr t ↦ rw (e, f, g, t, sys_send) h
              ]
            ]
          ]
        ]

    sendto-Held :
        (s : Sockets W) (k : ℤ) (p : Option (List ℕ)) (a : Option Address)
        → Held fd s.sockets
        → Held fd (sys_sendto transmit delay jiffies k p a s).1.sockets
    unfolding sys_sendto
    sendto-Held s (negsuc n) p a h = h
    sendto-Held s (pos k) none a h = h
    sendto-Held s (pos k) (some p) none h = h
    sendto-Held s (pos k) (some p) (some a) h = elim (Bool-cases (leb socket_max k)) [
      | inl e ↦ rw (e, sys_sendto) h
      | inr e ↦
          let v : Socket = record (socket_at s k) { remote_addr = a } in
          let same : (k == fd ≡ true) → is_unused v.state ≡ false =
            λ q. ap (λ j. is_unused (socket_at s j).state) (ground arith) ∙ h.live in
          let sent : sys_sendto transmit delay jiffies (pos k) (some p) (some a) s
              ≡ sys_send transmit delay jiffies (pos k) (some p) (put_socket k v s) =
            rw (e, sys_sendto) refl in
          subst (λ r. Held fd r.1.sockets) (sym sent)
            (send-Held (put_socket k v s) (pos k) (some p)
              (Held-set fd k v s.sockets h (ground arith) same))
    ]

    step-Held :
        (c : Call) (s : Sockets W)
        → Held fd s.sockets
        → is_close fd c ≡ false
        → Held fd (step c s).sockets
    unfolding step
    step-Held (socket_call d t p) s h e = socket-Held fd s h d t p
    step-Held (bind_call k a) s h e = bind-Held fd s h k a
    step-Held (listen_call k) s h e = listen-Held fd s h k
    step-Held (connect_call k a) s h e = connect-Held s k a h
    step-Held (send_call k p) s h e = send-Held s k p h
    step-Held (sendto_call k p a) s h e = sendto-Held s k p a h
    step-Held (close_call k) s h e = close-Held fd s h k e

    run_all-Held :
        (calls : List Call) (s : Sockets W)
        → Held fd s.sockets
        → closes fd calls ≡ false
        → Held fd (run_all calls s).sockets
    unfolding run_all closes
    run_all-Held [] s h e = h
    run_all-Held (c ∷ rest) s h e =
        run_all-Held rest (step c s) (step-Held c s h (ground arith)) (ground arith)

    -- What `sys_socket` gives was free, and is in use afterwards.
    given-Held :
        (domain type protocol : ℤ) (s : Sockets W)
        → length s.sockets ≡ socket_max
        → (sys_socket domain type protocol s).0 ≡ pos fd
        → (is_free s fd ≡ true) × Held fd (sys_socket domain type protocol s).1.sockets
    unfolding sys_socket is_unused
    given-Held domain type protocol s l e = elim (Option-cases (first (is_free s) socket_max 0)) [
      | inl f ↦
          let none_given : (sys_socket domain type protocol s).0 ≡ negsuc 0 =
            rw (f, sys_socket) refl in
          cc (e, none_given)
      | inr (i, f) ↦
          let w = first-IsFirst (is_free s) socket_max 0 i f in
          let given : (sys_socket domain type protocol s).0 ≡ pos i = rw (f, sys_socket) refl in
          let same : i ≡ fd = ap pos_part (sym given ∙ e) in
          (
            subst (λ j. is_free s j ≡ true) same w.passes,
            subst (λ j. Held j (sys_socket domain type protocol s).1.sockets) same
                (rw (f, sys_socket) (set-Held i _ s.sockets l (omega (arith, w.below)) refl)),
          )
    ]

  -- On a table of 32 sockets: a descriptor that `sys_socket` gives was free, and after any further
  -- calls none of which closes it, it is in use and `sys_socket` does not give it again.
  pub sys_socket-run_all :
      (fd : ℕ) (domain type protocol : ℤ) (calls : List Call) (s : Sockets W)
      → length s.sockets ≡ socket_max
      → (sys_socket domain type protocol s).0 ≡ pos fd
      → closes fd calls ≡ false
      → let later = run_all calls (sys_socket domain type protocol s).1 in
        (is_free s fd ≡ true)
        × (is_free later fd ≡ false)
        × ((domain' type' protocol' : ℤ)
            → ¬ ((sys_socket domain' type' protocol' later).0 ≡ pos fd))
  unfolding sys_socket
  sys_socket-run_all fd domain type protocol calls s l e spared =
      let given = given-Held fd domain type protocol s l e in
      let later = run_all calls (sys_socket domain type protocol s).1 in
      let held = run_all-Held fd calls (sys_socket domain type protocol s).1 given.1 spared in
      (
        given.0,
        held.live,
        λ d t p again. cc (held.live, (given-Held fd d t p later held.size again).0),
      )

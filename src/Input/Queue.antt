-- ===== src/Input/Queue.antt =====
-- kernel/input_event.c: the event buffer is a first-in, first-out queue of at most 256 events.
use tor_os.Prelude.{
  ℕ, ◌+◌, ◌%◌, ◌^◌, ◌≤◌, ◌<◌, ◌≡◌, refl, sym, ap, ◌∙◌, true, false, none, some, arith, ◌==◌, leb,
  if◌then◌else◌, get_or, set, length, length-set, get_or-set_if, Bool-cases, inl, inr,
}
use tor_os.Input.{
  Event, Buffer, zero_event, buffer_size, sub32, input_event_read, input_event_write,
  input_event_available,
}

-- The indices are words, and at most 256 events wait.
pub record BufferIsValid (b : Buffer) : Type 0 where
  pub size : length b.events ≡ buffer_size
  pub head_word : b.head < 2 ^ 32
  pub tail_word : b.tail < 2 ^ 32
  pub fits : sub32 b.head b.tail ≤ buffer_size

-- The `k`th event that waits, from the oldest.
abbrev pub waiting : Buffer → ℕ → Event
waiting b k = get_or b.events ((b.tail + k) % 2 ^ 32 % buffer_size) zero_event

-- The buffer after a write and after a read that succeed.
abbrev pub written : Event → Buffer → Buffer
written e b = record b {
  events = set b.events (b.head % buffer_size) e;
  head = (b.head + 1) % 2 ^ 32;
}

abbrev pub removed : Buffer → Buffer
removed b = record b { tail = (b.tail + 1) % 2 ^ 32 }

equal : (a b : ℕ) → a ≡ b → (a == b) ≡ true
equal a b h = ground arith

unequal : (a b : ℕ) → (a ≡ b → ⊥) → (a == b) ≡ false
unequal a b h = elim (Bool-cases (a == b)) [ inl e ↦ absurd (h (ground arith)) | inr e ↦ e ]

start : (t : ℕ) → t < 2 ^ 32 → t ≡ (t + 0) % 2 ^ 32
start t h = omega arith

-- Of the slots in use only the one behind the last is where `head` points.
same_slot :
    (h t k : ℕ)
    → h < 2 ^ 32
    → t < 2 ^ 32
    → sub32 h t < buffer_size
    → k ≤ sub32 h t
    → (h % buffer_size == (t + k) % 2 ^ 32 % buffer_size) ≡ (k == sub32 h t)
same_slot h t k hw tw room le = elim (Bool-cases (k == sub32 h t)) [
  | inl e ↦
      let q : k ≡ sub32 h t = ground arith in
      equal (h % buffer_size) ((t + k) % 2 ^ 32 % buffer_size) (omega arith) ∙ sym e
  | inr e ↦
      let q : k < sub32 h t = ground arith in
      unequal (h % buffer_size) ((t + k) % 2 ^ 32 % buffer_size) (λ r. omega arith) ∙ sym e
]

module _ (b : Buffer) (v : BufferIsValid b) where
  waiting-written :
      (e : Event) (k : ℕ)
      → sub32 b.head b.tail < buffer_size
      → k ≤ sub32 b.head b.tail
      → waiting (written e b) k ≡ (if k == sub32 b.head b.tail then e else waiting b k)
  waiting-written e k room le =
      let h : b.head % buffer_size < length b.events = omega (arith, v.size) in
      get_or-set_if b.events (b.head % buffer_size) ((b.tail + k) % 2 ^ 32 % buffer_size) e
        zero_event h
      ∙ ap (λ c. if c then e else waiting b k)
          (same_slot b.head b.tail k v.head_word v.tail_word room le)

  -- `input_event_write` refuses, and changes nothing, when 256 events wait; otherwise the event is
  -- the last to wait, behind the others in their order, and the buffer stays valid.
  pub input_event_write_lem :
      (e : Event)
      → (sub32 b.head b.tail ≡ buffer_size → input_event_write e b ≡ (0, b))
        × (sub32 b.head b.tail < buffer_size
            → (input_event_write e b ≡ (1, written e b))
              × BufferIsValid (written e b)
              × (input_event_available (written e b) ≡ input_event_available b + 1)
              × ((k : ℕ)
                  → k ≤ input_event_available b
                  → waiting (written e b) k
                    ≡ (if k == input_event_available b then e else waiting b k)))
  unfolding input_event_write input_event_available
  input_event_write_lem e = (
    (λ full. rw (ge full) refl),
    λ room. (
      rw (less room) refl,
      record {
        size = length-set b.events (b.head % buffer_size) e ∙ v.size;
        head_word = omega arith;
        tail_word = v.tail_word;
        fits = omega (arith, v.head_word, v.tail_word);
      },
      omega (arith, v.head_word, v.tail_word),
      λ k le. waiting-written e k room le,
    ),
  )
    where
      ge : sub32 b.head b.tail ≡ buffer_size → leb buffer_size (sub32 b.head b.tail) ≡ true
      ge full = ground arith

      less : sub32 b.head b.tail < buffer_size → leb buffer_size (sub32 b.head b.tail) ≡ false
      less room = ground arith

  -- `input_event_read` gives nothing, and changes nothing, when no event waits; otherwise it gives
  -- the oldest, the others wait on in their order, and the buffer stays valid.
  pub input_event_read_lem :
      (input_event_available b ≡ 0 → input_event_read b ≡ (none, b))
      × (0 < input_event_available b
          → (input_event_read b ≡ (some (waiting b 0), removed b))
            × BufferIsValid (removed b)
            × (input_event_available (removed b) + 1 ≡ input_event_available b)
            × ((k : ℕ) → waiting (removed b) k ≡ waiting b (k + 1)))
  unfolding input_event_read input_event_available
  input_event_read_lem = (
    (λ empty. rw (eq empty) refl),
    λ some_wait. (
      rw (ne some_wait) (
          ap (λ i. (some (get_or b.events (i % buffer_size) zero_event), removed b))
            (start b.tail v.tail_word)),
      record {
        size = v.size;
        head_word = v.head_word;
        tail_word = omega arith;
        fits = omega (arith, v.head_word, v.tail_word, v.fits);
      },
      omega (arith, v.head_word, v.tail_word),
      λ k. ap (λ i. get_or b.events (i % buffer_size) zero_event) (omega arith),
    ),
  )
    where
      eq : sub32 b.head b.tail ≡ 0 → (b.head == b.tail) ≡ true
      eq empty = ground (arith, v.head_word, v.tail_word)

      ne : 0 < sub32 b.head b.tail → (b.head == b.tail) ≡ false
      ne some_wait = ground (arith, v.head_word, v.tail_word)

-- ===== src/Tests/Events.antt =====
-- kernel/input_event.c at concrete inputs.
use tor_os.Prelude.{
  ℕ, ◌+◌, ◌-◌, ◌^◌, ◌≤◌, ◌<◌, ◌≡◌, refl, none, some, arith, ◌==◌, if◌then◌else◌, replicate,
}
use tor_os.Prelude.Int.{pos}
use tor_os.Input.{
  Event, Buffer, zero_event, buffer_size, sub32, input_event_read, input_event_write,
  input_event_available,
}
use tor_os.Input.Queue.{
  BufferIsValid, waiting, written, removed, input_event_write_lem, input_event_read_lem,
}

-- Two events wait, and `head` has wrapped round.
abbrev wrapped : Buffer
wrapped = record { events = replicate 256 zero_event; head = 1; tail = 2 ^ 32 - 1 }

wrapped-BufferIsValid : BufferIsValid wrapped
wrapped-BufferIsValid = record {
  size = refl;
  head_word = omega arith;
  tail_word = omega arith;
  fits = omega arith;
}

abbrev key : Event
key = record { time_sec = 3; time_usec = 0; type = 1; code = 30; value = pos 1 }

input_event_write_lem_example :
    let b = wrapped in
    (sub32 b.head b.tail ≡ buffer_size → input_event_write key b ≡ (0, b))
    × (sub32 b.head b.tail < buffer_size
        → (input_event_write key b ≡ (1, written key b))
          × BufferIsValid (written key b)
          × (input_event_available (written key b) ≡ input_event_available b + 1)
          × ((k : ℕ)
              → k ≤ input_event_available b
              → waiting (written key b) k
                ≡ (if k == input_event_available b then key else waiting b k)))
input_event_write_lem_example = input_event_write_lem wrapped wrapped-BufferIsValid key

input_event_read_lem_example :
    let b = wrapped in
    (input_event_available b ≡ 0 → input_event_read b ≡ (none, b))
    × (0 < input_event_available b
        → (input_event_read b ≡ (some (waiting b 0), removed b))
          × BufferIsValid (removed b)
          × (input_event_available (removed b) + 1 ≡ input_event_available b)
          × ((k : ℕ) → waiting (removed b) k ≡ waiting b (k + 1)))
input_event_read_lem_example = input_event_read_lem wrapped wrapped-BufferIsValid

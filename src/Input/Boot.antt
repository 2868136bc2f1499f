-- ===== src/Input/Boot.antt =====
-- kernel/input_event.c: the subsystem as `input_subsystem_init` leaves it.
use tor_os.Prelude.{ℕ, ◌≡◌, refl, [], some}
use tor_os.Prelude.Int.{ℤ}
use tor_os.Input.{Device, input_event_buffer_init, input_report_event, input_subsystem_init}

-- `input_subsystem_init` registers the default handler before it sets `initialized`, so that the
-- call is refused: no handler is registered after it, and no event that a device reports reaches the
-- global buffer.
pub input_subsystem_init_drops :
    {W : Type 0} (address now : ℕ) (w : W) (d : Device W) (type code : ℕ) (value : ℤ)
    → let s = input_subsystem_init address w in
      (s.handlers ≡ [])
      × ((input_report_event now (some d) type code value s).global_buffer
          ≡ input_event_buffer_init)
unfolding input_subsystem_init input_report_event
input_subsystem_init_drops address now w d type code value = (refl, refl)

-- ===== src/Input.antt =====
-- kernel/input_event.c: the event buffer, the devices and the handlers.
-- A device or a handler is known by its address; a function pointer is a step on the rest of the
-- kernel's state `W`, and a handler's `event` may write to the global buffer as well. The event types
-- are below 128, the width of `evbit`. Each operation is one step under its lock. The mouse, the
-- key maps and the polling loops are left out.
pub mod Queue
pub mod Boot
pub mod Keyboard
pub mod Keys
use tor_os.Prelude.{
  ℕ, zero, suc, ◌+◌, ◌-◌, ◌/◌, ◌%◌, ◌^◌, Bool, true, false, not, ◌&&◌, ◌||◌, List, [], ◌∷◌, Option,
  none, some, ◌==◌, ltb, leb, if◌then◌else◌, get_or, set, replicate, bit_and, bit_or, bit_xor,
}
use tor_os.Prelude.Int.{ℤ, pos, negsuc}
use tor_os.Bitmap.{bit_get, bit_set, bit_clear}

abbrev pub sub32 : ℕ → ℕ → ℕ
sub32 a b = (a + 2 ^ 32 - b) % 2 ^ 32

abbrev pub buffer_size : ℕ
buffer_size = 256

-- `input_event_t`
pub record Event : Type 0 where
  pub time_sec : ℕ
  pub time_usec : ℕ
  pub type : ℕ
  pub code : ℕ
  pub value : ℤ

abbrev pub zero_event : Event
zero_event = record { time_sec = 0; time_usec = 0; type = 0; code = 0; value = pos 0 }

-- `input_event_buffer_t`
pub record Buffer : Type 0 where
  pub events : List Event
  pub head : ℕ
  pub tail : ℕ

unfoldable pub input_event_buffer_init : Buffer
input_event_buffer_init = record { events = replicate buffer_size zero_event; head = 0; tail = 0 }

-- `none` is the result 0.
unfoldable pub input_event_read : Buffer → Option Event × Buffer
input_event_read b = if b.head == b.tail then (none, b) else (
  some (get_or b.events (b.tail % buffer_size) zero_event),
  record b { tail = (b.tail + 1) % 2 ^ 32 },
)

unfoldable pub input_event_write : Event → Buffer → ℕ × Buffer
input_event_write e b = if leb buffer_size (sub32 b.head b.tail) then (0, b) else (
  1,
  record b { events = set b.events (b.head % buffer_size) e; head = (b.head + 1) % 2 ^ 32 },
)

unfoldable pub input_event_available : Buffer → ℕ
input_event_available b = sub32 b.head b.tail

-- `input_dev_t`: what the subsystem uses of it.
pub record Device (W : Type 0) : Type 0 where
  pub address : ℕ
  pub event : Option (ℕ → ℕ → ℤ → W → W)

-- `input_handler_t`; the event step takes the device's address.
pub record Handler (W : Type 0) : Type 0 where
  pub address : ℕ
  pub connect : Option (ℕ → W → W)
  pub disconnect : Option (ℕ → W → W)
  pub event : ℕ → Event → Buffer × W → Buffer × W
  pub evbit : List ℕ

-- `input_subsystem_t`, and the rest of the kernel.
pub record Subsystem (W : Type 0) : Type 0 where
  pub devices : List (Device W)
  pub handlers : List (Handler W)
  pub global_buffer : Buffer
  pub initialized : ℕ
  pub world : W

-- `evbit[type >> 5] & (1 << (type & 0x1F))`
abbrev pub wants : List ℕ → ℕ → Bool
wants evbit type = not (get_or evbit (type / 32) 0 / 2 ^ (type % 32) % 2 == 0)

module _ {W : Type 0} where
  abbrev pub call : Option (ℕ → W → W) → ℕ → W → W
  call none d w = w
  call (some f) d w = f d w

  -- The loops that tell the handlers of a device.
  unfoldable pub connect_all : List (Handler W) → ℕ → W → W
  connect_all [] d w = w
  connect_all (h ∷ hs) d w = connect_all hs d (call h.connect d w)

  unfoldable pub disconnect_all : List (Handler W) → ℕ → W → W
  disconnect_all [] d w = w
  disconnect_all (h ∷ hs) d w = disconnect_all hs d (call h.disconnect d w)

  -- "Connect to existing devices"
  unfoldable pub connect_devices : Handler W → List (Device W) → W → W
  connect_devices h [] w = w
  connect_devices h (d ∷ ds) w = connect_devices h ds (call h.connect d.address w)

  unfoldable pub drop_device : ℕ → List (Device W) → List (Device W)
  drop_device a [] = []
  drop_device a (d ∷ ds) = let rest = drop_device a ds in if d.address == a then ds else d ∷ rest

  unfoldable pub drop_handler : ℕ → List (Handler W) → List (Handler W)
  drop_handler a [] = []
  drop_handler a (h ∷ hs) = let rest = drop_handler a hs in if h.address == a then hs else h ∷ rest

  unfoldable pub input_register_device : Option (Device W) → Subsystem W → ℤ × Subsystem W
  unfolding connect_all
  input_register_device none s = (negsuc 0, s)
  input_register_device (some d) s = if s.initialized == 0 then (negsuc 0, s) else (
    pos 0,
    record s { devices = d ∷ s.devices; world = connect_all s.handlers d.address s.world },
  )

  unfoldable pub input_unregister_device : Option (Device W) → Subsystem W → Subsystem W
  unfolding disconnect_all drop_device
  input_unregister_device none s = s
  input_unregister_device (some d) s = if s.initialized == 0 then s else record s {
    world = disconnect_all s.handlers d.address s.world;
    devices = drop_device d.address s.devices;
  }

  unfoldable pub input_register_handler : Option (Handler W) → Subsystem W → ℤ × Subsystem W
  unfolding connect_devices
  input_register_handler none s = (negsuc 0, s)
  input_register_handler (some h) s = if s.initialized == 0 then (negsuc 0, s) else (
    pos 0,
    record s { handlers = h ∷ s.handlers; world = connect_devices h s.devices s.world },
  )

  unfoldable pub input_unregister_handler : Option (Handler W) → Subsystem W → Subsystem W
  unfolding drop_handler
  input_unregister_handler none s = s
  input_unregister_handler (some h) s =
      if s.initialized == 0 then s else record s { handlers = drop_handler h.address s.handlers }

  -- "Route to interested handlers"
  unfoldable pub route : List (Handler W) → ℕ → Event → Buffer × W → Buffer × W
  route [] d e r = r
  route (h ∷ hs) d e r = route hs d e (if wants h.evbit e.type then h.event d e r else r)

  -- "Call device-specific event handler"
  abbrev pub notify : Option (ℕ → ℕ → ℤ → W → W) → Event → W → W
  notify none e w = w
  notify (some f) e w = f e.type e.code e.value w

  -- `now` is what `rtc_get_time` returns.
  unfoldable pub input_report_event : ℕ → Option (Device W) → ℕ → ℕ → ℤ → Subsystem W → Subsystem W
  unfolding route
  input_report_event now none type code value s = s
  input_report_event now (some d) type code value s =
      if s.initialized == 0
      then s
      else let e : Event = record {
        time_sec = now;
        time_usec = 0;
        type = type;
        code = code;
        value = value;
      } in
        let r = route s.handlers d.address e (s.global_buffer, s.world) in
        record s { global_buffer = r.0; world = notify d.event e r.1 }

  unfoldable pub input_sync_device : ℕ → Option (Device W) → Subsystem W → Subsystem W
  unfolding input_report_event
  input_sync_device now d s = input_report_event now d 0 0 (pos 0) s

  -- The handler that writes every event to the global buffer.
  unfoldable pub default_handler : ℕ → Handler W
  unfolding input_event_write
  default_handler address = record {
    address = address;
    connect = none;
    disconnect = none;
    event = λ d e r. ((input_event_write e r.0).1, r.1);
    evbit = replicate 4 0xFFFFFFFF;
  }

  unfoldable pub input_subsystem_init : ℕ → W → Subsystem W
  unfolding input_register_handler default_handler input_event_buffer_init
  input_subsystem_init address w =
      record (input_register_handler (some (default_handler address)) (record {
        devices = [];
        handlers = [];
        global_buffer = input_event_buffer_init;
        initialized = 0;
        world = w;
      })).1 { initialized = 1 }

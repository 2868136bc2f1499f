-- ===== src/Init.antt =====
-- kernel/init.c: the service table, and the data of the driver table.
-- A function pointer is a step on the rest of the kernel's state `W`, and `none` is NULL; the steps
-- do not touch the tables. `jiffies` is what `get_jiffies` returns in a state. Printing is left out.
pub mod Login
pub mod Services
pub mod Run
pub mod Drivers
pub mod Defaults
use tor_os.Prelude.{
  ℕ, zero, suc, ◌+◌, ◌%◌, ◌^◌, Bool, true, false, not, ◌&&◌, List, [], ◌∷◌, Option, none, some,
  ◌==◌, ltb, leb, if◌then◌else◌, get_or, set, take, replicate,
}
use tor_os.Prelude.Int.{ℤ, pos, negsuc}
use tor_os.Libc.{strcmp, strncpy, is_zero}
use tor_os.Search.{first}

abbrev pub max_services : ℕ
max_services = 32

abbrev pub max_drivers : ℕ
max_drivers = 32

-- `service_state_t`
pub data ServiceState : Type 0 where
  stopped : ServiceState
  starting : ServiceState
  running : ServiceState
  stopping : ServiceState
  failed : ServiceState
  restarting : ServiceState

abbrev pub is_running : ServiceState → Bool
is_running running = true
is_running _ = false

-- `service_t`
pub record Service (W : Type 0) : Type 0 where
  pub name : List ℕ
  pub command : List ℕ
  pub description : List ℕ
  pub state : ServiceState
  pub pid : ℕ
  pub auto_start : ℕ
  pub restart_on_crash : ℕ
  pub restart_count : ℕ
  pub max_restarts : ℕ
  pub start_time : ℕ
  pub dependencies : List (List ℕ)
  pub num_dependencies : ℕ
  pub init_func : Option (W → ℤ × W)
  pub initialized : ℕ

-- `driver_type_t`
pub data DriverType : Type 0 where
  pci : DriverType
  usb : DriverType
  block : DriverType
  net : DriverType
  sound : DriverType
  gpu : DriverType
  input : DriverType

abbrev pub code : DriverType → ℕ
code pci = 0
code usb = 1
code block = 2
code net = 3
code sound = 4
code gpu = 5
code input = 6

-- `driver_t`, but for `match_pci`, which nothing sets or calls.
pub record Driver (W : Type 0) : Type 0 where
  pub name : List ℕ
  pub type : DriverType
  pub vendor_id : ℕ
  pub device_id : ℕ
  pub class_code : ℕ
  pub probe : Option (W → ℤ × W)
  pub init : Option (W → ℤ × W)
  pub shutdown : Option (W → W)
  pub loaded : ℕ

-- The static variables, and the rest of the kernel.
pub record Init (W : Type 0) : Type 0 where
  pub services : List (Service W)
  pub num_services : ℕ
  pub drivers : List (Driver W)
  pub num_drivers : ℕ
  pub world : W

abbrev pub zero_service : {W : Type 0} → Service W
zero_service = record {
  name = replicate 32 0;
  command = replicate 128 0;
  description = replicate 64 0;
  state = stopped;
  pid = 0;
  auto_start = 0;
  restart_on_crash = 0;
  restart_count = 0;
  max_restarts = 0;
  start_time = 0;
  dependencies = replicate 8 (replicate 32 0);
  num_dependencies = 0;
  init_func = none;
  initialized = 0;
}

abbrev pub zero_driver : {W : Type 0} → Driver W
zero_driver = record {
  name = replicate 32 0;
  type = pci;
  vendor_id = 0;
  device_id = 0;
  class_code = 0;
  probe = none;
  init = none;
  shutdown = none;
  loaded = 0;
}

-- `p ? p : ""`
abbrev pub or_empty : Option (List ℕ) → List ℕ
or_empty none = []
or_empty (some s) = s

module _ {W : Type 0} where
  abbrev pub service_at : Init W → ℕ → Service W
  service_at s i = get_or s.services i zero_service

  abbrev pub driver_at : Init W → ℕ → Driver W
  driver_at s i = get_or s.drivers i zero_driver

  -- `services[i] = v` and `drivers[i] = v`
  abbrev pub put_service : ℕ → Service W → Init W → Init W
  put_service i v s = record s { services = set s.services i v }

  abbrev pub put_driver : ℕ → Driver W → Init W → Init W
  put_driver i v s = record s { drivers = set s.drivers i v }

  unfoldable pub init_register_service :
      Option (List ℕ)
      → Option (List ℕ)
      → Option (List ℕ)
      → ℕ
      → Option (W → ℤ × W)
      → Init W
      → ℤ × Init W
  init_register_service none command description auto f s = (negsuc 0, s)
  init_register_service (some name) command description auto f s =
      if leb max_services s.num_services
      then (negsuc 0, s)
      else let v = service_at s s.num_services in
        (
          pos 0,
          record s {
            num_services = s.num_services + 1;
            services = set s.services s.num_services (record v {
              name = strncpy v.name name 31;
              command = strncpy v.command (or_empty command) 127;
              description = strncpy v.description (or_empty description) 63;
              state = stopped;
              auto_start = auto;
              restart_on_crash = 0;
              max_restarts = 5;
              restart_count = 0;
              init_func = f;
              num_dependencies = 0;
              initialized = 0;
            });
          },
        )

  -- The loop that looks a service up by its name.
  unfoldable pub find_service : List ℕ → Init W → Option ℕ
  unfolding first
  find_service name s = first (λ i. is_zero (strcmp (service_at s i).name name)) s.num_services 0

  -- A NULL initialiser counts as a success.
  abbrev pub call_init : Service W → W → ℤ × W
  call_init v w = elim v.init_func [ none ↦ (pos 0, w) | some f ↦ f w ]

  -- What follows the call: the result is tested against 0.
  unfoldable pub settle : (W → ℕ) → ℕ → Init W → ℤ × W → ℤ × Init W
  settle jiffies i s (negsuc k, u) = (
    negsuc 0,
    put_service i (record (service_at s i) { state = failed }) (record s { world = u }),
  )
  settle jiffies i s (pos k, u) = (
    pos 0,
    put_service i
        (record (service_at s i) { state = running; start_time = jiffies u; initialized = 1 })
        (record s { world = u }),
  )

  -- "Run init function"
  unfoldable pub run_init : (W → ℕ) → ℕ → Init W → ℤ × Init W
  unfolding settle
  run_init jiffies i s = settle jiffies i s (call_init (service_at s i) s.world)

  -- The loop over the dependencies, with `start` for the recursive call.
  unfoldable pub start_each :
      (List ℕ → Init W → Option (ℤ × Init W)) → List (List ℕ) → Init W → Option (Init W)
  start_each start [] s = some s
  start_each start (d ∷ ds) s = elim (start d s) [ none ↦ none | some r ↦ start_each start ds r.1 ]

  -- `init_start_service`, on fuel for the depth of its recursion; `none` is out of fuel.
  unfoldable pub init_start_service : ℕ → (W → ℕ) → List ℕ → Init W → Option (ℤ × Init W)
  unfolding find_service run_init start_each
  init_start_service zero jiffies name s = none
  init_start_service (suc fuel) jiffies name s = elim (find_service name s) [
    | none ↦ some (negsuc 0, s)
    | some i ↦
        let v = service_at s i in
        if is_running v.state
        then some (pos 0, s)
        else elim (start_each (init_start_service fuel jiffies)
            (take v.num_dependencies v.dependencies)
            (put_service i (record v { state = starting }) s)) [
              | none ↦ none
              | some s' ↦ some (run_init jiffies i s')
            ]
  ]

  unfoldable pub init_stop_service : List ℕ → Init W → ℤ × Init W
  unfolding find_service
  init_stop_service name s = elim (find_service name s) [
    | none ↦ (negsuc 0, s)
    | some i ↦ (pos 0, put_service i (record (service_at s i) { state = stopped }) s)
  ]

  -- The loop of `init_run_services`: `n` rounds from index `i`.
  unfoldable pub run_services : ℕ → (W → ℕ) → ℕ → ℕ → Init W → Option (Init W)
  unfolding init_start_service
  run_services fuel jiffies zero i s = some s
  run_services fuel jiffies (suc n) i s =
      if (service_at s i).auto_start == 0
      then run_services fuel jiffies n (i + 1) s
      else elim (init_start_service fuel jiffies (service_at s i).name s) [
        | none ↦ none
        | some r ↦ run_services fuel jiffies n (i + 1) r.1
      ]

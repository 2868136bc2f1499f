-- ===== src/Init/Drivers.antt =====
-- kernel/init.c: registering and loading drivers.
use tor_os.Prelude.{
  ℕ, zero, suc, ◌+◌, Bool, true, false, not, ◌&&◌, List, Option, none, some, ◌==◌, leb,
  if◌then◌else◌, set,
}
use tor_os.Prelude.Int.{ℤ, pos, negsuc}
use tor_os.Libc.{strncpy, is_zero}
use tor_os.Init.{Init, DriverType, code, max_drivers, driver_at, put_driver}

module _ {W : Type 0} where
  unfoldable pub driver_register :
      Option (List ℕ)
      → DriverType
      → Option (W → ℤ × W)
      → Option (W → ℤ × W)
      → Option (W → W)
      → Init W
      → ℤ × Init W
  driver_register none type probe init shutdown s = (negsuc 0, s)
  driver_register (some name) type probe init shutdown s =
      if leb max_drivers s.num_drivers
      then (negsuc 0, s)
      else let v = driver_at s s.num_drivers in
        (
          pos 0,
          record s {
            num_drivers = s.num_drivers + 1;
            drivers = set s.drivers s.num_drivers (record v {
              name = strncpy v.name name 31;
              type = type;
              probe = probe;
              init = init;
              shutdown = shutdown;
              loaded = 0;
            });
          },
        )

  -- A probe or an initialiser that is called and the test of its result against 0.
  abbrev pub call : Option (W → ℤ × W) → Bool → W → Bool × W
  call none default w = (default, w)
  call (some f) default w = let r = f w in (is_zero r.0, r.1)

  -- "if (init() == 0) { loaded = 1; loaded++; }" on the driver at `i`.
  unfoldable pub try_init : ℕ → ℕ × Init W → ℕ × Init W
  try_init i (n, s) =
      let v = driver_at s i in
      let r = call v.init false s.world in
      if r.0
      then (n + 1, put_driver i (record v { loaded = 1 }) (record s { world = r.1 }))
      else (n, record s { world = r.1 })

  -- One round of `driver_load_all`; the count of drivers loaded goes with the state.
  unfoldable pub load_one : ℕ → ℕ × Init W → ℕ × Init W
  unfolding try_init
  load_one i (n, s) =
      let v = driver_at s i in
      if not (v.loaded == 0)
      then (n, s)
      else let p = call v.probe true s.world in
        if p.0 then try_init i (n, record s { world = p.1 }) else (n, record s { world = p.1 })

  -- One round of `driver_load_by_type`, which does not probe.
  unfoldable pub load_typed : DriverType → ℕ → ℕ × Init W → ℕ × Init W
  unfolding try_init
  load_typed type i (n, s) =
      let v = driver_at s i in
      if code v.type == code type && v.loaded == 0 then try_init i (n, s) else (n, s)

  -- `for (...; n more rounds; i++)`
  unfoldable pub each_driver : (ℕ → ℕ × Init W → ℕ × Init W) → ℕ → ℕ → ℕ × Init W → ℕ × Init W
  each_driver step zero i r = r
  each_driver step (suc n) i r = each_driver step n (i + 1) (step i r)

  unfoldable pub driver_load_all : Init W → ℕ × Init W
  unfolding each_driver load_one
  driver_load_all s = each_driver load_one s.num_drivers 0 (0, s)

  unfoldable pub driver_load_by_type : DriverType → Init W → ℕ × Init W
  unfolding each_driver load_typed
  driver_load_by_type type s = each_driver (load_typed type) s.num_drivers 0 (0, s)

-- ===== src/Init/Defaults.antt =====
-- kernel/init.c: the services and the drivers that are registered at boot.
use tor_os.Prelude.{ℕ, List, [], ◌∷◌, none, some, replicate}
use tor_os.Prelude.Int.{ℤ, pos}
use tor_os.Init.{
  Init, DriverType, pci, block, net, sound, gpu, input, zero_service, zero_driver,
  init_register_service,
}
use tor_os.Init.Drivers.{driver_register}

-- The names and descriptions of the default services.
abbrev pub default_services : List (List ℕ × List ℕ)
default_services =
    (
      (b'd' ∷ b'r' ∷ b'i' ∷ b'v' ∷ b'e' ∷ b'r' ∷ b's' ∷ []),
      (b'H' ∷ b'a' ∷ b'r' ∷ b'd' ∷ b'w' ∷ b'a' ∷ b'r' ∷ b'e' ∷ b' ' ∷ b'd' ∷ b'r' ∷ b'i' ∷ b'v'
          ∷ b'e' ∷ b'r' ∷ b' ' ∷ b'l' ∷ b'o' ∷ b'a' ∷ b'd' ∷ b'e' ∷ b'r' ∷ []),
    )
    ∷ (
      (b'f' ∷ b'i' ∷ b'l' ∷ b'e' ∷ b's' ∷ b'y' ∷ b's' ∷ b't' ∷ b'e' ∷ b'm' ∷ []),
      (b'V' ∷ b'F' ∷ b'S' ∷ b' ' ∷ b'a' ∷ b'n' ∷ b'd' ∷ b' ' ∷ b'f' ∷ b'i' ∷ b'l' ∷ b'e' ∷ b's'
          ∷ b'y' ∷ b's' ∷ b't' ∷ b'e' ∷ b'm' ∷ b's' ∷ []),
    )
    ∷ (
      (b'n' ∷ b'e' ∷ b't' ∷ b'w' ∷ b'o' ∷ b'r' ∷ b'k' ∷ []),
      (b'N' ∷ b'e' ∷ b't' ∷ b'w' ∷ b'o' ∷ b'r' ∷ b'k' ∷ b' ' ∷ b's' ∷ b't' ∷ b'a' ∷ b'c' ∷ b'k'
          ∷ []),
    )
    ∷ (
      (b'a' ∷ b'u' ∷ b'd' ∷ b'i' ∷ b'o' ∷ []),
      (b'A' ∷ b'u' ∷ b'd' ∷ b'i' ∷ b'o' ∷ b' ' ∷ b's' ∷ b'u' ∷ b'b' ∷ b's' ∷ b'y' ∷ b's' ∷ b't'
          ∷ b'e' ∷ b'm' ∷ []),
    )
    ∷ (
      (b'g' ∷ b'p' ∷ b'u' ∷ []),
      (b'G' ∷ b'P' ∷ b'U' ∷ b' ' ∷ b'a' ∷ b'n' ∷ b'd' ∷ b' ' ∷ b'd' ∷ b'i' ∷ b's' ∷ b'p' ∷ b'l'
          ∷ b'a' ∷ b'y' ∷ []),
    )
    ∷ (
      (b'i' ∷ b'n' ∷ b'p' ∷ b'u' ∷ b't' ∷ []),
      (b'I' ∷ b'n' ∷ b'p' ∷ b'u' ∷ b't' ∷ b' ' ∷ b'd' ∷ b'e' ∷ b'v' ∷ b'i' ∷ b'c' ∷ b'e' ∷ b's'
          ∷ []),
    )
    ∷ (
      (b'w' ∷ b'i' ∷ b'n' ∷ b'd' ∷ b'o' ∷ b'w' ∷ b'i' ∷ b'n' ∷ b'g' ∷ []),
      (b'W' ∷ b'i' ∷ b'n' ∷ b'd' ∷ b'o' ∷ b'w' ∷ b' ' ∷ b'm' ∷ b'a' ∷ b'n' ∷ b'a' ∷ b'g' ∷ b'e'
          ∷ b'r' ∷ []),
    )
    ∷ (
      (b's' ∷ b'e' ∷ b'c' ∷ b'u' ∷ b'r' ∷ b'i' ∷ b't' ∷ b'y' ∷ []),
      (b'S' ∷ b'e' ∷ b'c' ∷ b'u' ∷ b'r' ∷ b'i' ∷ b't' ∷ b'y' ∷ b' ' ∷ b's' ∷ b'u' ∷ b'b' ∷ b's'
          ∷ b'y' ∷ b's' ∷ b't' ∷ b'e' ∷ b'm' ∷ []),
    )
    ∷ []

-- An initialiser that calls `f` and returns 0, as the wrappers do.
abbrev pub wrap : {W : Type 0} → (W → W) → W → ℤ × W
wrap f w = (pos 0, f w)

module _ {W : Type 0} where
  -- The calls of `init_register_service`, each with no command, started at boot, and no initialiser.
  unfoldable pub register_services : List (List ℕ × List ℕ) → Init W → Init W
  unfolding init_register_service
  register_services [] s = s
  register_services (v ∷ vs) s =
      register_services vs (init_register_service (some v.0) (some []) (some v.1) 1 none s).1

  unfoldable pub init_system_init : Init W → Init W
  unfolding register_services
  init_system_init s =
      register_services default_services
        (record s { services = replicate 32 zero_service; num_services = 0 })

  -- The calls of `driver_register`, each with no probe and no shutdown.
  unfoldable pub register_drivers : List (List ℕ × (DriverType × (W → W))) → Init W → Init W
  unfolding driver_register
  register_drivers [] s = s
  register_drivers (v ∷ vs) s =
      register_drivers vs (driver_register (some v.0) v.1.0 none (some (wrap v.1.1)) none s).1

  -- The initialisers of the other subsystems are arguments.
  unfoldable pub driver_init :
      (W → W) → (W → W) → (W → W) → (W → W) → (W → W) → (W → W) → Init W → Init W
  unfolding register_drivers
  driver_init virtio_input_init virtio_gpu_init audio_init net_init block_init font_system_init s =
      register_drivers
        ((
          (b'v' ∷ b'i' ∷ b'r' ∷ b't' ∷ b'i' ∷ b'o' ∷ b'-' ∷ b'i' ∷ b'n' ∷ b'p' ∷ b'u' ∷ b't' ∷ []),
          (input, virtio_input_init),
        )
          ∷ (
            (b'v' ∷ b'i' ∷ b'r' ∷ b't' ∷ b'i' ∷ b'o' ∷ b'-' ∷ b'g' ∷ b'p' ∷ b'u' ∷ []),
            (gpu, virtio_gpu_init),
          )
          ∷ ((b'a' ∷ b'u' ∷ b'd' ∷ b'i' ∷ b'o' ∷ []), (sound, audio_init))
          ∷ ((b'n' ∷ b'e' ∷ b't' ∷ b'w' ∷ b'o' ∷ b'r' ∷ b'k' ∷ []), (net, net_init))
          ∷ ((b'b' ∷ b'l' ∷ b'o' ∷ b'c' ∷ b'k' ∷ []), (block, block_init))
          ∷ ((b'f' ∷ b'o' ∷ b'n' ∷ b't' ∷ []), (pci, font_system_init))
          ∷ [])
        (record s { drivers = replicate 32 zero_driver; num_drivers = 0 })

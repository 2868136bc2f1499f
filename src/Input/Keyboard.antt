-- ===== src/Input/Keyboard.antt =====
-- kernel/input_event.c: the keyboard device and the keys that are down.
use tor_os.Prelude.{
  ℕ, ◌-◌, ◌^◌, Bool, true, false, not, ◌&&◌, ◌||◌, List, Option, none, some, ◌==◌, leb,
  if◌then◌else◌, bit_and, bit_or, bit_xor,
}
use tor_os.Prelude.Int.{ℤ, pos, negsuc}
use tor_os.Bitmap.{bit_get, bit_set, bit_clear}
use tor_os.Input.{Device, Subsystem, input_report_event}

-- `keyboard_device_t`
pub record Keyboard (W : Type 0) : Type 0 where
  pub dev : Device W
  pub key_state : List ℕ
  pub modifiers : ℕ

-- The bit of `modifiers` that a key holds while it is down.
abbrev pub held_mask : ℕ → Option ℕ
held_mask code =
    if code == 42
    then some 1
    else if code == 54
    then some 2
    else if code == 29
    then some 4
    else if code == 97
    then some 8
    else if code == 56
    then some 16
    else if code == 100
    then some 32
    else if code == 125
    then some 64
    else if code == 126
    then some 128
    else none

abbrev pub is_value : ℤ → ℕ → Bool
is_value (pos n) k = n == k
is_value (negsuc n) k = false

-- "Update modifiers"
unfoldable pub new_modifiers : ℕ → ℤ → ℕ → ℕ
new_modifiers code value mods = elim (held_mask code) [
  | some m ↦ bit_or (bit_and mods (2 ^ 32 - 1 - m)) (if is_value value 0 then 0 else m)
  | none ↦ if code == 58 && is_value value 1 then bit_xor mods 256 else mods
]

unfoldable pub new_key_state : ℕ → ℤ → List ℕ → List ℕ
new_key_state code value keys =
    if is_value value 1
    then bit_set keys code
    else if is_value value 0
    then bit_clear keys code
    else keys

abbrev pub key_max : ℕ
key_max = 256

abbrev pub differ : Bool → Bool → Bool
differ true b = not b
differ false b = b

module _ {W : Type 0} where
  unfoldable pub keyboard_report_key :
      ℕ → ℕ → ℤ → Keyboard W → Subsystem W → Keyboard W × Subsystem W
  unfolding new_key_state new_modifiers input_report_event
  keyboard_report_key now code value k s =
      if leb key_max code
      then (k, s)
      else let keys = new_key_state code value k.key_state in
        (
          record k { key_state = keys; modifiers = new_modifiers code value k.modifiers },
          if differ (bit_get k.key_state code) (bit_get keys code) || is_value value 2
              then input_report_event now (some k.dev) 1 code value s
              else s,
        )

  unfoldable pub keyboard_is_key_pressed : ℕ → Keyboard W → ℕ
  keyboard_is_key_pressed code k =
      if leb key_max code then 0 else if bit_get k.key_state code then 1 else 0

-- ===== src/Input/Keys.antt =====
-- kernel/input_event.c: which keys are down.
use tor_os.Prelude.{ℕ, ◌/◌, ◌<◌, ◌≡◌, Bool, true, false, arith, ◌==◌, if◌then◌else◌, length}
use tor_os.Prelude.Int.{pos}
use tor_os.Bitmap.{IsBytes, bit_get-bit_set, bit_get-bit_clear}
use tor_os.Input.{Subsystem}
use tor_os.Input.Keyboard.{
  Keyboard, key_max, new_key_state, keyboard_report_key, keyboard_is_key_pressed,
}

-- A press or a release of one of the 256 keys sets or clears that key alone: afterwards
-- `keyboard_is_key_pressed` is 1 for it after a press and 0 after a release, and as before for every
-- other key.
pub is_key_pressed-report_key :
    {W : Type 0} (now code : ℕ) (down : Bool) (k : Keyboard W) (s : Subsystem W)
    → IsBytes k.key_state
    → length k.key_state ≡ 33
    → code < key_max
    → let k' = (keyboard_report_key now code (pos (if down then 1 else 0)) k s).0 in
      (j : ℕ)
      → j < key_max
      → keyboard_is_key_pressed j k'
        ≡ (if code == j then (if down then 1 else 0) else keyboard_is_key_pressed j k)
unfolding keyboard_report_key keyboard_is_key_pressed new_key_state
is_key_pressed-report_key now code true k s h size lt j below =
    let len : code / 8 < length k.key_state = omega (arith, size) in
    ground (arith, bit_get-bit_set k.key_state code j h len)
is_key_pressed-report_key now code false k s h size lt j below =
    let len : code / 8 < length k.key_state = omega (arith, size) in
    ground (arith, bit_get-bit_clear k.key_state code j h len)

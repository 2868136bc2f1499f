-- ===== src/Tests/Text.antt =====
-- `vsnprintf` of libc/string.c at a concrete format.
use tor_os.Prelude.{ℕ, ◌<◌, ◌≡◌, refl, List, [], ◌∷◌, some, length, replicate, get_or, arith}
use tor_os.Prelude.Int.{negsuc}
use tor_os.Libc.Format.{
  Arg, signed, vsnprintf, format_loop, convert, put_text, put_char, itoa_decimal, put_digits,
  swap_ends,
}
use tor_os.Libc.Format.Bounds.{vsnprintf_lem}

-- "%d!" of -12, cut off after three bytes
abbrev fmt : List ℕ
fmt = b'%' ∷ b'd' ∷ b'!' ∷ []

abbrev args : List Arg
args = signed (negsuc 11) ∷ []

cut_off : vsnprintf 4 fmt args (replicate 5 255) ≡ some (3, b'-' ∷ b'1' ∷ b'2' ∷ 0 ∷ 255 ∷ [])
unfolding vsnprintf format_loop convert put_text put_char itoa_decimal put_digits swap_ends
cut_off = refl

vsnprintf_lem_example :
    (count : ℕ) × (out : List ℕ) × (vsnprintf 4 fmt args (replicate 5 255) ≡ some (count, out))
    × (count < 4)
    × (length out ≡ 5)
    × (get_or out count 1 ≡ 0)
vsnprintf_lem_example = vsnprintf_lem 4 fmt args (replicate 5 255) (omega arith) (omega arith)

-- ===== src/Libc/Format.antt =====
-- libc/string.c: numbers as text, and `vsnprintf`. A `char *` is the list of the bytes from it on,
-- and a buffer the list of its bytes. An argument is the value that `va_arg` gives, and one of another
-- type than the format asks for, which C leaves undefined, is read as 0 or NULL.
-- A buffer has less than 2 ^ 31 bytes, so that the position returned fits an `int`.
pub mod Bounds
use tor_os.Prelude.{
  ℕ, zero, suc, ◌+◌, ◌-◌, ◌*◌, ◌/◌, ◌%◌, ◌^◌, Bool, true, false, not, ◌&&◌, ◌||◌, List, [], ◌∷◌,
  ◌++◌, Option, none, some, ◌==◌, ltb, leb, if◌then◌else◌, get_or, set, length,
}
use tor_os.Prelude.Int.{ℤ, pos, negsuc}
use tor_os.Mm.{u64}

abbrev digit_char : ℕ → ℕ
digit_char d = if ltb d 10 then b'0' + d else b'A' + d - 10

-- The loop of `utoa` and `itoa`, the last digit first: 64 rounds are enough for 64 bits.
unfoldable pub put_digits : ℕ → ℕ → ℕ → List ℕ
put_digits zero base v = []
put_digits (suc fuel) base v =
    let rest = put_digits fuel base (v / base) in
    digit_char (v % base) ∷ (if v / base == 0 then [] else rest)

-- The loop that swaps the ends: `n` rounds from `i`.
unfoldable pub swap_ends : ℕ → ℕ → List ℕ → List ℕ
swap_ends zero i buf = buf
swap_ends (suc n) i buf =
    let j : ℕ = length buf - 1 - i in
    swap_ends n (i + 1) (set (set buf i (get_or buf j 0)) j (get_or buf i 0))

unfoldable pub utoa : ℕ → ℕ → List ℕ
unfolding put_digits swap_ends
utoa val base = let buf = put_digits 64 base val in swap_ends (length buf / 2) 0 buf

-- `itoa` in base 10, the only one that the code asks for.
unfoldable pub itoa_decimal : ℤ → List ℕ
unfolding put_digits swap_ends
itoa_decimal (pos v) = let buf = put_digits 64 10 v in swap_ends (length buf / 2) 0 buf
itoa_decimal (negsuc v) =
    let buf = put_digits 64 10 (v + 1) ++ b'-' ∷ [] in swap_ends (length buf / 2) 0 buf

pub data Arg : Type 0 where
  text : Option (List ℕ) → Arg
  signed : ℤ → Arg
  unsigned : ℕ → Arg

abbrev pub next_args : List Arg → List Arg
next_args [] = []
next_args (a ∷ rest) = rest

-- "(null)"
abbrev null_text : List ℕ
null_text = b'(' ∷ b'n' ∷ b'u' ∷ b'l' ∷ b'l' ∷ b')' ∷ []

abbrev text_arg : List Arg → List ℕ
text_arg (text (some s) ∷ rest) = s
text_arg _ = null_text

abbrev signed_arg : List Arg → ℤ
signed_arg (signed v ∷ rest) = v
signed_arg _ = pos 0

-- `(char)va_arg(ap, int)`
abbrev char_arg : List Arg → ℕ
char_arg (signed (pos n) ∷ rest) = n % 2 ^ 8
char_arg (signed (negsuc n) ∷ rest) = 2 ^ 8 - 1 - n % 2 ^ 8
char_arg _ = 0

-- A `uint` has 32 bits.
abbrev unsigned_arg : Bool → List Arg → ℕ
unsigned_arg long_flag (unsigned v ∷ rest) = if long_flag then u64 v else v % 2 ^ 32
unsigned_arg long_flag _ = 0

-- `pos` and `buf`; `none` is a write outside the buffer.
abbrev pub Out : Type 0
Out = Option (ℕ × List ℕ)

abbrev pub then_out : Out → (ℕ × List ℕ → Out) → Out
then_out none f = none
then_out (some o) f = f o

-- `buf[pos++] = c`
unfoldable pub put_char : ℕ → ℕ × List ℕ → Out
put_char c o = if ltb o.0 (length o.1) then some (o.0 + 1, set o.1 o.0 c) else none

-- `while (*t && pos < size - 1) buf[pos++] = *t++`
unfoldable pub put_text : ℕ → List ℕ → ℕ × List ℕ → Out
unfolding put_char
put_text size [] o = some o
put_text size (c ∷ t) o =
    if c == 0 || leb (size - 1) o.0 then some o else then_out (put_char c o) (put_text size t)

-- `if (pos < size - 1) buf[pos++] = c`
abbrev pub put_within : ℕ → ℕ → ℕ × List ℕ → Out
put_within size c o = if ltb o.0 (size - 1) then put_char c o else some o

-- `if (pos < size - 2) { ... }`
abbrev pub put_prefix : ℕ → ℕ × List ℕ → Out
put_prefix size o =
    if ltb o.0 (size - 2) then then_out (put_char b'0' o) (put_char b'x') else some o

-- The cases of the `switch`, for the byte `c`.
unfoldable pub convert : ℕ → ℕ → Bool → List Arg → ℕ × List ℕ → Out
convert size c long_flag args o =
    if c == b's'
    then put_text size (text_arg args) o
    else if c == b'c'
    then put_char (char_arg args) o
    else if c == b'd' || c == b'i'
    then put_text size (itoa_decimal (signed_arg args)) o
    else if c == b'u'
    then put_text size (utoa (unsigned_arg long_flag args) 10) o
    else if c == b'x'
    then put_text size (utoa (unsigned_arg long_flag args) 16) o
    else if c == b'p'
    then then_out (put_prefix size o) (put_text size (utoa (unsigned_arg true args) 16))
    else if c == b'%'
    then put_char b'%' o
    else then_out (put_char b'%' o) (put_within size c)

-- Whether the case takes an argument.
abbrev pub takes_arg : ℕ → Bool
takes_arg c =
    c == b's' || c == b'c' || c == b'd' || c == b'i' || c == b'u' || c == b'x' || c == b'p'

-- `*fmt`, and `if (*fmt) fmt++`
abbrev pub peek : List ℕ → ℕ
peek [] = 0
peek (c ∷ rest) = c

abbrev pub step : List ℕ → List ℕ
step [] = []
step (c ∷ rest) = if c == 0 then c ∷ rest else rest

-- The format after the `%` and an `l`.
abbrev pub after_flag : List ℕ → List ℕ
after_flag [] = []
after_flag (c ∷ rest) = if c == b'l' then rest else c ∷ rest

-- What a conversion leaves of the format and of the arguments, and its byte.
abbrev pub rest_fmt : List ℕ → List ℕ
rest_fmt fmt = step (after_flag fmt)

abbrev pub rest_args : List ℕ → List Arg → List Arg
rest_args fmt args = if takes_arg (peek (after_flag fmt)) then next_args args else args

-- The loop over the format: each round takes a byte of it or more.
unfoldable pub format_loop : ℕ → ℕ → List ℕ → List Arg → ℕ × List ℕ → Out
unfolding convert
format_loop zero size fmt args o = some o
format_loop (suc fuel) size [] args o = some o
format_loop (suc fuel) size (c ∷ fmt) args o =
    let spec : ℕ = peek (after_flag fmt) in
    let plain = then_out (put_char c o) (format_loop fuel size fmt args) in
    let converted =
      then_out (convert size spec (peek fmt == b'l') args o)
        (format_loop fuel size (rest_fmt fmt) (rest_args fmt args)) in
    if c == 0 || leb (size - 1) o.0 then some o else if c == b'%' then converted else plain

-- The terminating NUL; the number of bytes before it is the result.
unfoldable pub vsnprintf : ℕ → List ℕ → List Arg → List ℕ → Out
unfolding format_loop
vsnprintf size fmt args buf =
    if size == 0
    then some (0, buf)
    else then_out (format_loop (length fmt) size fmt args (0, buf))
        (λ o. if ltb o.0 (length o.1) then some (o.0, set o.1 o.0 0) else none)

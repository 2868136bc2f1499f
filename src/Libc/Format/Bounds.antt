-- ===== src/Libc/Format/Bounds.antt =====
-- `vsnprintf` never writes outside its buffer, and always ends the text.
use tor_os.Prelude.{
  ℕ, zero, suc, ◌+◌, ◌-◌, ◌≤◌, ◌<◌, ◌≡◌, ◌∙◌, refl, ap₂, fun_ext, Bool, true, false, ◌||◌, List, [],
  ◌∷◌, some, ◌==◌, ltb, leb, if◌then◌else◌, get_or, set, length, length-set, Bool-cases, inl, inr,
  arith, lt→ltb, get_or-set_if,
}
use tor_os.Libc.Format.{
  Out, Arg, then_out, put_char, put_text, put_within, put_prefix, convert, format_loop, vsnprintf,
  peek, step, after_flag, rest_fmt, rest_args,
}

-- A position that leaves room for the NUL, in a buffer of the old length.
module _ (size n : ℕ) where
  Fits : ℕ × List ℕ → Type 0
  Fits o = (o.0 < size) × (length o.1 ≡ n)

  -- The writes stay in the buffer and leave room for the NUL.
  IsSafe : Out → Type 0
  IsSafe r = (o : ℕ × List ℕ) × (r ≡ some o) × Fits o

  then_out-IsSafe :
      (r : Out) (f : ℕ × List ℕ → Out)
      → IsSafe r
      → ((o : ℕ × List ℕ) → Fits o → IsSafe (f o))
      → IsSafe (then_out r f)
  unfolding IsSafe
  then_out-IsSafe r f (o, e, fits) h = rw e (h o fits)

  module _ (le : size ≤ n) where
    put_char-IsSafe : (c : ℕ) (o : ℕ × List ℕ) → Fits o → o.0 + 1 < size → IsSafe (put_char c o)
    unfolding put_char Fits IsSafe
    put_char-IsSafe c o (p, l) room =
        let inside = lt→ltb o.0 (length o.1) (omega (arith, l)) in
        ((o.0 + 1, set o.1 o.0 c), rw inside refl, (room, length-set o.1 o.0 c ∙ l))

    put_text-IsSafe : (t : List ℕ) (o : ℕ × List ℕ) → Fits o → IsSafe (put_text size t o)
    unfolding put_text Fits IsSafe
    put_text-IsSafe [] o f = (o, refl, f)
    put_text-IsSafe (c ∷ t) o f = elim (Bool-cases (c == 0 || leb (size - 1) o.0)) [
      | inl e ↦ rw (e, put_text) (o, refl, f)
      | inr e ↦
          rw (e, put_text)
            (then_out-IsSafe (put_char c o) (put_text size t) (put_char-IsSafe c o f (ground arith))
              (λ o' f'. put_text-IsSafe t o' f'))
    ]

    put_within-IsSafe : (c : ℕ) (o : ℕ × List ℕ) → Fits o → IsSafe (put_within size c o)
    unfolding Fits IsSafe
    put_within-IsSafe c o f = elim (Bool-cases (ltb o.0 (size - 1))) [
      | inl e ↦ rw (e, put_within) (put_char-IsSafe c o f (ground arith))
      | inr e ↦ rw (e, put_within) (o, refl, f)
    ]

    put_prefix-IsSafe : (o : ℕ × List ℕ) → Fits o → IsSafe (put_prefix size o)
    unfolding Fits IsSafe put_char
    put_prefix-IsSafe o (p, l) = elim (Bool-cases (ltb o.0 (size - 2))) [
      | inl e ↦
          let first = lt→ltb o.0 (length o.1) (ground arith) in
          let second =
            lt→ltb (o.0 + 1) (length (set o.1 o.0 b'0'))
              (ground (arith, length-set o.1 o.0 b'0')) in
          rw (e, put_prefix)
            (rw first (
              rw second (
                (o.0 + 1 + 1, set (set o.1 o.0 b'0') (o.0 + 1) b'x'),
                refl,
                (
                  ground arith,
                  length-set (set o.1 o.0 b'0') (o.0 + 1) b'x' ∙ length-set o.1 o.0 b'0' ∙ l,
                ),
              )))
      | inr e ↦ rw (e, put_prefix) (o, refl, (p, l))
    ]

    pick-IsSafe : (b : Bool) (r s : Out) → IsSafe r → IsSafe s → IsSafe (if b then r else s)
    pick-IsSafe true r s x y = x
    pick-IsSafe false r s x y = y

    convert-IsSafe :
        (c : ℕ) (flag : Bool) (args : List Arg) (o : ℕ × List ℕ)
        → Fits o
        → o.0 + 1 < size
        → IsSafe (convert size c flag args o)
    unfolding convert
    convert-IsSafe c flag args o f room = pick-IsSafe (c == b's') _ _ (put_text-IsSafe _ o f) (
        pick-IsSafe (c == b'c') _ _ (put_char-IsSafe _ o f room) (
          pick-IsSafe (c == b'd' || c == b'i') _ _ (put_text-IsSafe _ o f) (
            pick-IsSafe (c == b'u') _ _ (put_text-IsSafe _ o f) (
              pick-IsSafe (c == b'x') _ _ (put_text-IsSafe _ o f) (
                pick-IsSafe (c == b'p') _ _
                  (then_out-IsSafe (put_prefix size o) _ (put_prefix-IsSafe o f)
                    (λ o' f'. put_text-IsSafe _ o' f'))
                  (pick-IsSafe (c == b'%') _ _ (put_char-IsSafe b'%' o f room) (
                    then_out-IsSafe (put_char b'%' o) _ (put_char-IsSafe b'%' o f room)
                      (λ o' f'. put_within-IsSafe c o' f'))))))))

    format_loop-IsSafe :
        (fuel : ℕ) (fmt : List ℕ) (args : List Arg) (o : ℕ × List ℕ)
        → Fits o
        → IsSafe (format_loop fuel size fmt args o)
    unfolding format_loop Fits IsSafe
    format_loop-IsSafe zero fmt args o f = (o, refl, f)
    format_loop-IsSafe (suc fuel) [] args o f = (o, refl, f)
    format_loop-IsSafe (suc fuel) (c ∷ fmt) args o f =
        elim (Bool-cases (c == 0 || leb (size - 1) o.0)) [
          | inl e ↦ rw (e, format_loop) (o, refl, f)
          | inr e ↦
              let room : o.0 + 1 < size = ground arith in
              let spec : ℕ = peek (after_flag fmt) in
              let flag = peek fmt == b'l' in
              let later = format_loop fuel size (rest_fmt fmt) (rest_args fmt args) in
              rw (e, format_loop)
                (pick-IsSafe (c == b'%') _ _
                  (then_out-IsSafe (convert size spec flag args o) later
                    (convert-IsSafe spec flag args o f room)
                    (λ o' f'. format_loop-IsSafe fuel (rest_fmt fmt) (rest_args fmt args) o' f'))
                  (then_out-IsSafe (put_char c o) (format_loop fuel size fmt args)
                    (put_char-IsSafe c o f room) (λ o' f'. format_loop-IsSafe fuel fmt args o' f')))
        ]

length-step : (fmt : List ℕ) → length (step fmt) ≤ length fmt
length-step [] = omega arith
length-step (c ∷ fmt) = ground arith

length-rest_fmt : (fmt : List ℕ) → length (rest_fmt fmt) ≤ length fmt
length-rest_fmt [] = omega arith
length-rest_fmt (c ∷ fmt) = elim (Bool-cases (c == b'l')) [
  | inl e ↦ rw e (omega (arith, length-step fmt))
  | inr e ↦ rw e (length-step (c ∷ fmt))
]

-- A unit of fuel for each byte of the format is enough: more changes nothing.
format_loop_enough :
    (size fuel more : ℕ) (fmt : List ℕ) (args : List Arg) (o : ℕ × List ℕ)
    → length fmt ≤ fuel
    → length fmt ≤ more
    → format_loop fuel size fmt args o ≡ format_loop more size fmt args o
unfolding format_loop
format_loop_enough size zero zero fmt args o h k = refl
format_loop_enough size zero (suc more) [] args o h k = refl
format_loop_enough size (suc fuel) zero [] args o h k = refl
format_loop_enough size (suc fuel) (suc more) [] args o h k = refl
format_loop_enough size zero (suc more) (c ∷ fmt) args o h k = absurd (omega arith)
format_loop_enough size (suc fuel) zero (c ∷ fmt) args o h k = absurd (omega arith)
format_loop_enough size (suc fuel) (suc more) (c ∷ fmt) args o h k =
    let shorter = length-rest_fmt fmt in
    let later = fun_ext (λ o'.
      format_loop_enough size fuel more (rest_fmt fmt) (rest_args fmt args) o' (omega arith)
        (omega arith)) in
    let plain =
      fun_ext (λ o'. format_loop_enough size fuel more fmt args o' (omega arith) (omega arith)) in
    ap₂
      (λ f g.
        if c == 0 || leb (size - 1) o.0
        then some o
        else if c == b'%'
        then then_out (convert size (peek (after_flag fmt)) (peek fmt == b'l') args o) f
        else then_out (put_char c o) g)
      later plain

-- Into a buffer of `size` bytes or more `vsnprintf` writes only inside it, whatever the format and
-- the arguments; the text ends with a NUL within the first `size` bytes, at the index returned. The
-- size is not 0.
pub vsnprintf_lem :
    (size : ℕ) (fmt : List ℕ) (args : List Arg) (buf : List ℕ)
    → 0 < size
    → size ≤ length buf
    → (count : ℕ) × (out : List ℕ) × (vsnprintf size fmt args buf ≡ some (count, out))
      × (count < size)
      × (length out ≡ length buf)
      × (get_or out count 1 ≡ 0)
unfolding vsnprintf Fits IsSafe
vsnprintf_lem size fmt args buf h le =
    let (o, e, f) =
      format_loop-IsSafe size (length buf) le (length fmt) fmt args (0, buf) (h, refl) in
    let not_zero : (size == 0) ≡ false = ground arith in
    let inside : o.0 < length o.1 = omega (arith, f.0, f.1) in
    (
      o.0,
      set o.1 o.0 0,
      rw (not_zero, vsnprintf) (rw e (rw (lt→ltb o.0 (length o.1) inside) refl)),
      f.0,
      length-set o.1 o.0 0 ∙ f.1,
      ground (arith, get_or-set_if o.1 o.0 o.0 0 1 inside),
    )

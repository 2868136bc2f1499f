-- ===== src/Libc.antt =====
-- libc/string.c: the string functions that the other components call.
-- A `char *` is the list of the bytes from it on; past the list's end a NUL is read. A `char` is
-- unsigned, as on AArch64.
pub mod Strings
pub mod Search
pub mod Format
use tor_os.Prelude.{
  ℕ, zero, suc, ◌+◌, Bool, true, false, not, ◌&&◌, List, [], ◌∷◌, Option, none, some, ◌==◌,
  if◌then◌else◌, get_or, set,
}
use tor_os.Prelude.Int.{ℤ, pos, negsuc, sub_ℕ}

-- `*s`
abbrev pub peek : List ℕ → ℕ
peek [] = 0
peek (c ∷ s) = c

-- `s + 1`
abbrev pub next : List ℕ → List ℕ
next [] = []
next (c ∷ s) = s

abbrev pub is_zero : ℤ → Bool
is_zero (pos zero) = true
is_zero _ = false

unfoldable pub strlen : List ℕ → ℕ
strlen [] = 0
strlen (c ∷ s) = if c == 0 then 0 else suc (strlen s)

unfoldable pub strcmp : List ℕ → List ℕ → ℤ
strcmp [] t = sub_ℕ 0 (peek t)
strcmp (c ∷ s) t = if not (c == 0) && c == peek t then strcmp s (next t) else sub_ℕ c (peek t)

unfoldable pub strncmp : List ℕ → List ℕ → ℕ → ℤ
strncmp s t zero = pos 0
strncmp s t (suc n) =
    let rest = strncmp (next s) (next t) n in
    if not (peek s == 0) && peek s == peek t then rest else sub_ℕ (peek s) (peek t)

-- Both loops: the bytes before the NUL of `src`, then NULs, `n` bytes in all.
unfoldable pub strncpy : List ℕ → List ℕ → ℕ → List ℕ
strncpy dst src zero = dst
strncpy [] src (suc n) = []
strncpy (d ∷ dst) src (suc n) =
    if peek src == 0 then 0 ∷ strncpy dst [] n else peek src ∷ strncpy dst (next src) n

-- The copy goes up to and with the NUL.
unfoldable pub strcpy : List ℕ → List ℕ → List ℕ
strcpy [] src = []
strcpy (d ∷ dst) src = if peek src == 0 then 0 ∷ dst else peek src ∷ strcpy dst (next src)

-- The loop of `strstr`, with `nl` the needle's length; `none` is NULL.
unfoldable pub strstr_loop : List ℕ → List ℕ → ℕ → Option (List ℕ)
strstr_loop [] needle nl = none
strstr_loop (c ∷ p) needle nl =
    let rest = strstr_loop p needle nl in
    if c == 0
    then none
    else if c == peek needle && is_zero (strncmp (c ∷ p) needle nl)
    then some (c ∷ p)
    else rest

unfoldable pub strstr : List ℕ → List ℕ → Option (List ℕ)
unfolding strlen strncmp strstr_loop
strstr haystack needle =
    if strlen needle == 0 then some haystack else strstr_loop haystack needle (strlen needle)

-- `strncpy(dst, src, n); dst[n] = '\0';`
abbrev pub copy_name : List ℕ → List ℕ → ℕ → List ℕ
copy_name dst src n = set (strncpy dst src n) n 0

unfoldable pub abs : ℤ → ℤ
abs (pos n) = pos n
abs (negsuc n) = pos (suc n)

-- `strcpy(dst + strlen(dst), src)`
unfoldable pub strcat : List ℕ → List ℕ → List ℕ
unfolding strcpy
strcat [] src = []
strcat (d ∷ dst) src = if d == 0 then strcpy (d ∷ dst) src else d ∷ strcat dst src

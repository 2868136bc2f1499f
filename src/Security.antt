-- ===== src/Security.antt =====
-- kernel/security.c: privilege levels and capabilities, access checks, ASLR, mandatory access
-- control. Sandboxes are in Security/Rules.antt, the audit log in Security/Audit.antt.
-- A pointer that may be NULL is an `Option`. Printing is left out.
pub mod Rules
pub mod LastMatch
pub mod Audit
pub mod Access
pub mod Aslr
use tor_os.Prelude.{
  ℕ, zero, suc, ◌+◌, ◌-◌, ◌*◌, ◌/◌, ◌%◌, ◌^◌, Bool, true, false, not, ◌&&◌, ◌||◌, List, [], ◌∷◌,
  Option, none, some, ◌==◌, ltb, leb, if◌then◌else◌, get_elem?, bit_and, bit_or,
}
use tor_os.Prelude.Int.{ℤ, pos, negsuc}
use tor_os.Security.Rules.{Sandbox, RuleType, fs_read, fs_write, fs_exec, sandbox_check, allow}

-- include/security.h
abbrev pub priv_kernel : ℕ
priv_kernel = 0

abbrev pub priv_guest : ℕ
priv_guest = 4

abbrev pub num_priv_levels : ℕ
num_priv_levels = 5

abbrev pub cap_fs : ℕ
cap_fs = 4

-- `cap_set_t default_caps[]`, by privilege level; `none` is a read past the array.
abbrev pub default_caps : ℕ → Option ℕ
default_caps level = get_elem? (127 ∷ 15 ∷ 14 ∷ 12 ∷ 0 ∷ []) level

-- `security_context_t`
pub record Context : Type 0 where
  pub uid : ℕ
  pub gid : ℕ
  pub euid : ℕ
  pub egid : ℕ
  pub priv_level : ℕ
  pub caps : ℕ
  pub cap_inheritable : ℕ
  pub cap_permitted : ℕ
  pub cap_effective : ℕ
  pub in_sandbox : ℕ

-- `none` when the capabilities are read past the array, which nothing checks.
unfoldable pub security_context_init : ℕ → Option Context
security_context_init priv_level =
    let id : ℕ = if priv_level == priv_kernel then 0 else 1000 in
    elim (default_caps priv_level) [
      | none ↦ none
      | some c ↦ some (record {
        uid = id;
        gid = id;
        euid = id;
        egid = id;
        priv_level = priv_level;
        caps = c;
        cap_inheritable = 0;
        cap_permitted = c;
        cap_effective = c;
        in_sandbox = 0;
      })
    ]

unfoldable pub security_check_cap : Option Context → ℕ → ℤ
security_check_cap none cap = negsuc 0
security_check_cap (some ctx) cap =
    if ctx.priv_level == priv_kernel
    then pos 0
    else if bit_and ctx.cap_effective cap == 0
    then negsuc 0
    else pos 0

-- The context that the pointer names, after the call, and the result.
unfoldable pub security_grant_cap : Context → ℕ → ℤ × Context
security_grant_cap ctx cap = if not (ctx.priv_level == priv_kernel) then (negsuc 0, ctx) else (
  pos 0,
  record ctx {
    cap_permitted = bit_or ctx.cap_permitted cap;
    cap_effective = bit_or ctx.cap_effective cap;
  },
)

-- `a & ~b` on a 32-bit word
abbrev pub and_not : ℕ → ℕ → ℕ
and_not a b = bit_and a (2 ^ 32 - 1 - b % 2 ^ 32)

unfoldable pub security_revoke_cap : Context → ℕ → ℤ × Context
security_revoke_cap ctx cap = (pos 0, record ctx { cap_effective = and_not ctx.cap_effective cap })

unfoldable pub security_set_privilege : Context → ℕ → Context
security_set_privilege ctx level =
    if leb num_priv_levels level then ctx else elim (default_caps level) [
      | none ↦ ctx
      | some c ↦ record ctx { priv_level = level; caps = c; cap_permitted = c; cap_effective = c }
    ]

unfoldable pub security_get_privilege : Option Context → ℕ
security_get_privilege none = priv_guest
security_get_privilege (some ctx) = ctx.priv_level

abbrev pub has_bit : ℕ → ℕ → Bool
has_bit access bit = not (bit_and access bit == 0)

-- The rule type that the sandbox check uses: that of the lowest access bit; `none` for no bit.
abbrev pub rule_of : ℕ → Option RuleType
rule_of access =
    if has_bit access 1
    then some fs_read
    else if has_bit access 2
    then some fs_write
    else if has_bit access 4
    then some fs_exec
    else none

abbrev pub is_neg : ℤ → Bool
is_neg (pos n) = false
is_neg (negsuc n) = true

-- "Capability check"
unfoldable pub capability_check : Context → ℕ → ℤ
unfolding security_check_cap
capability_check ctx access =
    if has_bit access 1 && is_neg (security_check_cap (some ctx) cap_fs)
    then negsuc 0
    else if has_bit access 2 && is_neg (security_check_cap (some ctx) cap_fs)
    then negsuc 0
    else pos 0

-- `active` is the sandbox that `active_sandbox` points to.
unfoldable pub security_check_access : Option Sandbox → Option Context → Option (List ℕ) → ℕ → ℤ
security_check_access active none path access = negsuc 0
security_check_access active (some ctx) none access = negsuc 0
security_check_access none (some ctx) (some path) access = capability_check ctx access
security_check_access (some box) (some ctx) (some path) access =
    if not (ctx.in_sandbox == 0) && not (box.active == 0)
    then elim (rule_of access) [
      | none ↦ pos 0
      | some type ↦
          if sandbox_check (some box) type (some path) == allow
          then capability_check ctx access
          else negsuc 0
    ]
    else capability_check ctx access

-- The static variables of the ASLR part.
pub record AslrState : Type 0 where
  pub aslr_entropy : ℕ
  pub aslr_on : ℕ

-- `cntvct` is what the timer register reads.
unfoldable pub aslr_init : ℕ → AslrState → AslrState
aslr_init cntvct s = record { aslr_entropy = cntvct; aslr_on = 1 }

-- `x & ((1ULL << bits) - 1)` is `x % 2 ^ bits`.
unfoldable pub aslr_random_bits : ℕ → AslrState → ℕ × AslrState
aslr_random_bits bits s =
    let e : ℕ = (s.aslr_entropy * 1103515245 + 12345) % 2 ^ 64 in
    (e % 2 ^ bits, record s { aslr_entropy = e })

-- `offset & ~0xFFFULL` drops the low twelve bits.
unfoldable pub aslr_randomize_stack : ℕ → AslrState → ℕ × AslrState
unfolding aslr_random_bits
aslr_randomize_stack base s =
    if s.aslr_on == 0
    then (base, s)
    else let (r, s') = aslr_random_bits 16 s in ((base + 2 ^ 64 - r / 4096 * 4096) % 2 ^ 64, s')

unfoldable pub aslr_randomize_mmap : ℕ → AslrState → ℕ × AslrState
unfolding aslr_random_bits
aslr_randomize_mmap base s =
    if s.aslr_on == 0
    then (base, s)
    else let (r, s') = aslr_random_bits 16 s in ((base + r / 4096 * 4096) % 2 ^ 64, s')

unfoldable pub aslr_randomize_pie : ℕ → AslrState → ℕ × AslrState
unfolding aslr_random_bits
aslr_randomize_pie base s =
    if s.aslr_on == 0
    then (base, s)
    else let (r, s') = aslr_random_bits 16 s in ((base + r / 4096 * 4096) % 2 ^ 64, s')

unfoldable pub aslr_set_enabled : ℕ → AslrState → AslrState
aslr_set_enabled enable s = record s { aslr_on = enable }

-- `mac_label_t`
pub record MacLabel : Type 0 where
  pub mac_level : ℕ
  pub mac_categories : ℕ

unfoldable pub mac_check_access : Option MacLabel → Option MacLabel → ℕ → ℤ
mac_check_access none object access = negsuc 0
mac_check_access (some subject) none access = negsuc 0
mac_check_access (some subject) (some object) access =
    if ltb subject.mac_level object.mac_level
    then negsuc 0
    else if ltb object.mac_level subject.mac_level
    then negsuc 0
    else if bit_and subject.mac_categories object.mac_categories == 0
    then negsuc 0
    else pos 0

-- ===== src/Security/Access.antt =====
-- Capabilities, access checks and labels of kernel/security.c.
use tor_os.Prelude.{
  ℕ, ◌<◌, ◌≡◌, refl, ◌≢◌, ◌↔◌, Bool, true, false, not, ◌||◌, List, none, some, arith, ◌==◌,
  if◌then◌else◌, bit_and, bit_or,
}
use tor_os.Prelude.Int.{pos, negsuc}
use tor_os.Bitmap.{all_below, all_below_at}
use tor_os.Security.Rules.{Sandbox, fs_read, fs_write, sandbox_check, allow}
use tor_os.Security.{
  Context, priv_kernel, cap_fs, security_check_cap, security_grant_cap, security_revoke_cap,
  security_check_access, capability_check, has_bit, and_not, MacLabel, mac_check_access,
}

-- The capability sets and capabilities of include/security.h are below 2 ^ 7: all pairs.
revoke_table : ℕ → Bool
revoke_table a = all_below 128 (λ c. bit_and (and_not a c) c == 0)

grant_table : ℕ → Bool
grant_table a = all_below 128 (λ c. c == 0 || not (bit_and (bit_or a c) c == 0))

revoke_table_holds : all_below 128 revoke_table ≡ true
unfolding all_below revoke_table
revoke_table_holds = refl

grant_table_holds : all_below 128 grant_table ≡ true
unfolding all_below grant_table
grant_table_holds = refl

revoked : (a c : ℕ) → a < 128 → c < 128 → (bit_and (and_not a c) c == 0) ≡ true
unfolding revoke_table
revoked a c ha hc =
    all_below_at 128 (λ c. bit_and (and_not a c) c == 0) c
      (all_below_at 128 revoke_table a revoke_table_holds ha) hc

granted : (a c : ℕ) → a < 128 → c < 128 → (c == 0 || not (bit_and (bit_or a c) c == 0)) ≡ true
unfolding grant_table
granted a c ha hc =
    all_below_at 128 (λ c. c == 0 || not (bit_and (bit_or a c) c == 0)) c
      (all_below_at 128 grant_table a grant_table_holds ha) hc

-- Over the seven capabilities: after `security_revoke_cap` the check of that capability fails for
-- everyone but the kernel level; `security_grant_cap` succeeds only at the kernel level, changes
-- nothing elsewhere, and a granted capability that is not empty is effective, so that it survives a
-- drop of `priv_level` alone.
pub check-revoke-grant :
    (ctx : Context) (c level : ℕ)
    → ctx.cap_effective < 128
    → c < 128
    → c ≢ 0
    → (ctx.priv_level ≢ priv_kernel
        → (security_check_cap (some (security_revoke_cap ctx c).1) c ≡ negsuc 0)
          × (security_grant_cap ctx c ≡ (negsuc 0, ctx)))
      × (ctx.priv_level ≡ priv_kernel
          → ((security_grant_cap ctx c).0 ≡ pos 0)
            × (security_check_cap
                  (some (record (security_grant_cap ctx c).1 { priv_level = level }))
                  c
                ≡ pos 0))
unfolding security_check_cap security_revoke_cap security_grant_cap
check-revoke-grant ctx c level ha hc ne = (
  (λ user. (ground (arith, revoked ctx.cap_effective c ha hc), ground arith)),
  (λ kernel. (ground arith, ground (arith, granted ctx.cap_effective c ha hc))),
)

-- `security_check_access` lets a read or a write through only with the file-system capability or
-- the kernel level, and, inside an active sandbox, only if the rule for the lowest access bit allows
-- the path.
pub security_check_access_sound :
    (box : Sandbox) (ctx : Context) (path : List ℕ) (access : ℕ)
    → security_check_access (some box) (some ctx) (some path) access ≡ pos 0
    → (has_bit access 1 || has_bit access 2) ≡ true
    → (security_check_cap (some ctx) cap_fs ≡ pos 0)
      × ((ctx.in_sandbox == 0) ≡ false
          → (box.active == 0) ≡ false
          → sandbox_check (some box) (if has_bit access 1 then fs_read else fs_write) (some path)
            ≡ allow)
unfolding security_check_access capability_check security_check_cap
security_check_access_sound box ctx path access h bits = ground arith

-- An access for reading and writing at once is checked against the rules for reading alone: where
-- reading is allowed, the answer is that of the capabilities, whatever the rules for writing say.
pub security_check_access-skips_write :
    (box : Sandbox) (ctx : Context) (path : List ℕ)
    → sandbox_check (some box) fs_read (some path) ≡ allow
    → security_check_access (some box) (some ctx) (some path) 3
      ≡ security_check_access none (some ctx) (some path) 3
unfolding security_check_access
security_check_access-skips_write box ctx path h = ground arith

-- `mac_check_access` grants exactly when the two levels are equal and the categories intersect,
-- whatever the access: reading down is refused like reading up.
pub mac_check_access_iff :
    (subject object : MacLabel) (access : ℕ)
    → (mac_check_access (some subject) (some object) access ≡ pos 0) ↔ (
        (subject.mac_level ≡ object.mac_level)
        × (bit_and subject.mac_categories object.mac_categories ≢ 0))
unfolding mac_check_access
mac_check_access_iff subject object access = ((λ h. ground arith), (λ h. ground arith))

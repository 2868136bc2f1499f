-- ===== src/Security/Aslr.antt =====
-- The randomised addresses: how far from the base they lie, and their alignment.
use tor_os.Prelude.{ℕ, ◌+◌, ◌*◌, ◌%◌, ◌^◌, ◌≤◌, ◌≡◌, arith}
use tor_os.Security.{
  AslrState, aslr_random_bits, aslr_randomize_stack, aslr_randomize_mmap, aslr_randomize_pie,
}

-- With a base that leaves 64 KB on either side, the three randomised addresses keep the base's
-- offset in its page; the stack moves down and the other two move up, by at most fifteen pages.
pub aslr_bounds :
    (base : ℕ) (s : AslrState)
    → 65536 ≤ base
    → base + 65536 ≤ 2 ^ 64
    → let stack = (aslr_randomize_stack base s).0 in
      let mmap = (aslr_randomize_mmap base s).0 in
      let pie = (aslr_randomize_pie base s).0 in
      (stack ≤ base)
      × (base ≤ stack + 15 * 4096)
      × (stack % 4096 ≡ base % 4096)
      × (base ≤ mmap)
      × (mmap ≤ base + 15 * 4096)
      × (mmap % 4096 ≡ base % 4096)
      × (base ≤ pie)
      × (pie ≤ base + 15 * 4096)
      × (pie % 4096 ≡ base % 4096)
unfolding aslr_randomize_stack aslr_randomize_mmap aslr_randomize_pie aslr_random_bits
aslr_bounds base s lo hi = ground arith

-- ===== src/Sched/UserCreate.antt =====
-- `user_proc_create`, and what its failure leaves behind.
use tor_os.Prelude.{ℕ, ◌<◌, ◌≡◌, List, some, ◌==◌, if◌then◌else◌}
use tor_os.Mm.{Mem}
use tor_os.Sched.{Sched, runnable, state_at, nproc, find_unused, proc_create}
use tor_os.Sched.Inv.{Inv}

module _ (k : ℕ) (name : List ℕ) (entry : ℕ) (m : Mem) (s : Sched) where
  -- `proc_create` succeeded: it found the slot, made it runnable and queued it last.
  record Made (i : ℕ) : Type 0 where
    found : find_unused nproc 0 s ≡ some i
    in_table : i < 64
    states :
        (j : ℕ)
        → state_at (proc_create k name entry m s).2 j ≡ (if i == j then runnable else state_at s j)

-- ===== src/Sched.antt =====
-- kernel/sched.c and the process half of kernel/user.c: the process table, the ready queue and the
-- round-robin scheduler. A `proc_t *` is its index in `proc_table`. The ready queue, threaded
-- through the `next` fields, is the list of the queued indices: `enqueue` appends at its end, which
-- is what the code does to a process that is not in the queue (the invariant is in Sched/Inv.antt).
-- Printing is left out.
pub mod Inv
pub mod Wake
pub mod Schedule
pub mod Fair
pub mod Create
pub mod UserCreate
use tor_os.Prelude.{
  ℕ, zero, suc, ◌+◌, ◌-◌, ◌%◌, ◌^◌, Bool, true, false, ◌&&◌, List, [], ◌∷◌, ◌++◌, Option, none,
  some, ◌==◌, leb, if◌then◌else◌, get_or, set, replicate, length,
}
use tor_os.Libc.{copy_name}
use tor_os.Mm.{Mem, u64, page_size, page_alloc}

pub data ProcState : Type 0 where
  unused runnable running sleeping zombie : ProcState

-- `context_t`: `saved` is x19 to x28, in order.
pub record Context : Type 0 where
  pub saved : List ℕ
  pub fp : ℕ
  pub lr : ℕ
  pub sp : ℕ

-- `proc_t`; a `stack` of 0 is NULL.
pub record Proc : Type 0 where
  pub pid : ℕ
  pub state : ProcState
  pub name : List ℕ
  pub ctx : Context
  pub stack : ℕ
  pub sleep_until : ℕ

-- A process as `memset(proc_table, 0, ...)` leaves it.
abbrev pub blank : Proc
blank = record {
  pid = 0;
  state = unused;
  name = replicate 16 0;
  ctx = record { saved = replicate 10 0; fp = 0; lr = 0; sp = 0 };
  stack = 0;
  sleep_until = 0;
}

abbrev pub nproc : ℕ
nproc = 64

-- The static variables; `ram` is the 64-bit word at each address.
pub record Sched : Type 0 where
  pub proc_table : List Proc
  pub proc_count : ℕ
  pub current : Option ℕ
  pub ready_queue : List ℕ
  pub next_pid : ℕ
  pub ram : ℕ → ℕ

abbrev pub state_eq : ProcState → ProcState → Bool
state_eq unused unused = true
state_eq runnable runnable = true
state_eq running running = true
state_eq sleeping sleeping = true
state_eq zombie zombie = true
state_eq _ _ = false

-- `proc_table[i]`; there is no read past the table.
abbrev pub proc_at : Sched → ℕ → Proc
proc_at s i = get_or s.proc_table i blank

abbrev pub state_at : Sched → ℕ → ProcState
state_at s i = (proc_at s i).state

abbrev pub set_state : Sched → ℕ → ProcState → Sched
set_state s i st = record s {
  proc_table = set s.proc_table i (record (proc_at s i) { state = st });
}

unfoldable pub sched_init : Sched → Sched
sched_init s = record s { proc_table = replicate nproc blank; current = none; ready_queue = [] }

unfoldable pub enqueue : ℕ → Sched → Sched
enqueue p s = record s { ready_queue = s.ready_queue ++ p ∷ [] }

unfoldable pub dequeue : Sched → Option ℕ × Sched
dequeue s = elim s.ready_queue [ [] ↦ (none, s) | p ∷ q ↦ (some p, record s { ready_queue = q }) ]

-- `for (...; n rounds; i++) if (proc_table[i].state == PROC_UNUSED)`
unfoldable pub find_unused : ℕ → ℕ → Sched → Option ℕ
find_unused zero i s = none
find_unused (suc n) i s = elim (state_eq (state_at s i) unused) [
  | true ↦ some i
  | false ↦ find_unused n (i + 1) s
]

-- A store of a 64-bit word.
abbrev pub store : (ℕ → ℕ) → ℕ → ℕ → ℕ → ℕ
store ram a v b = if a == b then v else ram b

-- The process that `proc_create` sets up, once its stack page is there.
abbrev pub new_proc : Proc → ℕ → List ℕ → ℕ → ℕ → Proc
new_proc p pid name entry stack = record p {
  pid = pid;
  state = runnable;
  name = copy_name p.name name 15;
  ctx = record { saved = replicate 10 0; fp = 0; lr = entry; sp = u64 (stack + page_size) };
  stack = stack;
}

-- With no page for the stack the slot is unused again; `proc_count` and `next_pid` stay raised.
unfoldable pub proc_create : ℕ → List ℕ → ℕ → Mem → Sched → Option ℕ × Mem × Sched
unfolding find_unused enqueue
proc_create kernel_end name entry m s = elim (find_unused nproc 0 s) [
  | none ↦ (none, m, s)
  | some i ↦
      let p = proc_at s i in
      let (page, m') = page_alloc kernel_end m in
      let counted = record s { proc_count = s.proc_count + 1; next_pid = u64 (s.next_pid + 1) } in
      elim page [
        | none ↦ (
          none,
          m',
          record counted {
            proc_table = set s.proc_table i (record p {
              pid = s.next_pid;
              state = unused;
              name = copy_name p.name name 15;
              stack = 0;
            });
          },
        )
        | some stack ↦
            let sp : ℕ = u64 (stack + page_size) in
            (
              some i,
              m',
              enqueue i (record counted {
                proc_table = set s.proc_table i (new_proc p s.next_pid name entry stack);
                ram = store (store s.ram sp entry) (u64 (sp + 2 ^ 64 - 8)) 0;
              }),
            )
      ]
]

-- The wake-up loop of `schedule`: `n` rounds from index `i`.
unfoldable pub wake : ℕ → ℕ → ℕ → Sched → Sched
unfolding enqueue
wake now zero i s = s
wake now (suc n) i s = wake now n (i + 1) (
    if state_eq (state_at s i) sleeping && leb (proc_at s i).sleep_until now
    then enqueue i (set_state s i runnable)
    else s)

-- "If current still running, put back"
unfoldable pub put_back : Sched → Sched
unfolding enqueue
put_back s = elim s.current [
  | none ↦ s
  | some c ↦ if state_eq (state_at s c) running then enqueue c (set_state s c runnable) else s
]

-- How `schedule` ends: it returns, or it spins in the idle loop over an empty queue, which only an
-- interrupt that calls `schedule` again can fill.
pub data Outcome : Type 0 where
  returns : Sched → Outcome
  idles : Sched → Outcome

-- "Pick next" and what follows.
unfoldable pub pick : Sched → Outcome
unfolding dequeue
pick s =
    let (next, s') = dequeue s in
    elim next [
      | some p ↦ returns (record (set_state s' p running) { current = some p })
      | none ↦ elim s.current [
        | none ↦ idles s
        | some c ↦
            if state_eq (state_at s c) runnable then returns (set_state s c running) else idles s
      ]
    ]

unfoldable pub schedule : ℕ → Sched → Outcome
schedule now s = pick (put_back (wake now nproc 0 s))

-- `yield`
unfoldable pub yield_cpu : ℕ → Sched → Outcome
yield_cpu now s = schedule now s

unfoldable pub sleep : ℕ → ℕ → Sched → Outcome
sleep now ms s = elim s.current [
  | none ↦ returns s
  | some c ↦ schedule now (record s {
    proc_table =
        set s.proc_table c
          (record (proc_at s c) { sleep_until = u64 (now + ms); state = sleeping });
  })
]

-- `user_proc_create` (kernel/user.c): the process is already queued when its second page fails.
unfoldable pub user_proc_create : ℕ → List ℕ → ℕ → Mem → Sched → Option ℕ × Mem × Sched
user_proc_create kernel_end name entry m s =
    let (p, m', s') = proc_create kernel_end name entry m s in
    elim p [
      | none ↦ (none, m', s')
      | some i ↦
          let (page, m'') = page_alloc kernel_end m' in
          elim page [ none ↦ (none, m'', set_state s' i unused) | some a ↦ (some i, m'', s') ]
    ]

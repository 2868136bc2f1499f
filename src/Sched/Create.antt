-- ===== src/Sched/Create.antt =====
-- `proc_create`: the slot, the queue, and the two failures.
use tor_os.Prelude.{
  ℕ, zero, suc, ◌+◌, ◌-◌, ◌^◌, ◌<◌, ◌≤◌, ◌≡◌, refl, sym, ◌∙◌, true, false, List, [], ◌∷◌, ◌++◌,
  Option, none, some, ◌==◌, if◌then◌else◌, set, length, arith, length-set, get_or-set_if,
  count-append, Bool-cases, Option-cases, inl, inr,
}
use tor_os.Libc.{copy_name}
use tor_os.Mm.{Mem, page_alloc, page_size, u64}
use tor_os.Sched.{
  Sched, unused, runnable, state_eq, state_at, proc_at, blank, nproc, enqueue, find_unused,
  proc_create, new_proc, store,
}
use tor_os.Sched.Inv.{Inv}

find_unused-true :
    (n i : ℕ) (s : Sched) → state_eq (state_at s i) unused ≡ true → find_unused (suc n) i s ≡ some i
unfolding find_unused
find_unused-true n i s e = rw (e, find_unused)

find_unused-false :
    (n i : ℕ) (s : Sched)
    → state_eq (state_at s i) unused ≡ false
    → find_unused (suc n) i s ≡ find_unused n (i + 1) s
unfolding find_unused
find_unused-false n i s e = rw (e, find_unused)

pub find_unused-some :
    (n i k : ℕ) (s : Sched)
    → find_unused n i s ≡ some k
    → (k < i + n) × (state_eq (state_at s k) unused ≡ true)
unfolding find_unused
find_unused-some zero i k s h = cc
find_unused-some (suc n) i k s h = elim (Bool-cases (state_eq (state_at s i) unused)) [
  | inl e ↦ ground (arith, find_unused-true n i s e)
  | inr e ↦
      let r = find_unused-some n (i + 1) k s (sym (find_unused-false n i s e) ∙ h) in
      (omega (arith, r.0), r.1)
]

find_unused-none :
    (n i : ℕ) (s : Sched)
    → find_unused n i s ≡ none
    → (j : ℕ) → i ≤ j
    → j < i + n
    → state_eq (state_at s j) unused ≡ false
unfolding find_unused
find_unused-none zero i s h j a b = absurd (omega arith)
find_unused-none (suc n) i s h j a b = elim (Bool-cases (state_eq (state_at s i) unused)) [
  | inl e ↦ ground (arith, find_unused-true n i s e)
  | inr e ↦ elim (Bool-cases (i == j)) [
    | inl q ↦ ground arith
    | inr q ↦
        find_unused-none n (i + 1) s (sym (find_unused-false n i s e) ∙ h) j (ground arith)
          (omega arith)
  ]
]

-- The three ways in which `proc_create` ends.
pub data Created (k : ℕ) (name : List ℕ) (entry : ℕ) (m : Mem) (s : Sched)
    : Option ℕ × Mem × Sched → Type 0 where
  full :
      ((j : ℕ) → j < 64 → state_eq (state_at s j) unused ≡ false)
      → Created k name entry m s (none, m, s)
  no_page :
      {s' : Sched} (i : ℕ)
      → (page_alloc k m).0 ≡ none
      → state_eq (state_at s i) unused ≡ true
      → ((j : ℕ) → state_at s' j ≡ state_at s j)
      → s'.ready_queue ≡ s.ready_queue
      → s'.next_pid ≡ u64 (s.next_pid + 1)
      → Created k name entry m s (none, (page_alloc k m).1, s')
  made :
      {s' : Sched} (i stack : ℕ)
      → (page_alloc k m).0 ≡ some stack
      → state_eq (state_at s i) unused ≡ true
      → ((j : ℕ)
          → proc_at s' j
            ≡ (if i == j then new_proc (proc_at s i) s.next_pid name entry stack else proc_at s j))
      → s'.ready_queue ≡ s.ready_queue ++ i ∷ []
      → s'.next_pid ≡ u64 (s.next_pid + 1)
      → s'.ram (u64 (stack + page_size)) ≡ entry
      → Created k name entry m s (some i, (page_alloc k m).1, s')

module _ (k : ℕ) (name : List ℕ) (entry : ℕ) (m : Mem) (s : Sched) where
  abbrev counted : Sched
  counted = record s { proc_count = s.proc_count + 1; next_pid = u64 (s.next_pid + 1) }

  abbrev failed : ℕ → Sched
  failed i = record counted {
    proc_table = set s.proc_table i (record (proc_at s i) {
      pid = s.next_pid;
      state = unused;
      name = copy_name (proc_at s i).name name 15;
      stack = 0;
    });
  }

  abbrev created : ℕ → ℕ → Sched
  created i stack = record counted {
    proc_table = set s.proc_table i (new_proc (proc_at s i) s.next_pid name entry stack);
    ready_queue = s.ready_queue ++ i ∷ [];
    ram =
        store (store s.ram (u64 (stack + page_size)) entry)
          (u64 (u64 (stack + page_size) + 2 ^ 64 - 8)) 0;
  }

  now_unused :
      (i j : ℕ)
      → i < length s.proc_table
      → state_at (failed i) j ≡ (if i == j then unused else state_at s j)
  now_unused i j lt = ground (
    arith,
    get_or-set_if s.proc_table i j
        (record (proc_at s i) {
          pid = s.next_pid;
          state = unused;
          name = copy_name (proc_at s i).name name 15;
          stack = 0;
        })
        blank lt,
  )

  pub now_runnable :
      (i stack j : ℕ)
      → i < length s.proc_table
      → state_at (created i stack) j ≡ (if i == j then runnable else state_at s j)
  now_runnable i stack j lt = ground (
    arith,
    get_or-set_if s.proc_table i j (new_proc (proc_at s i) s.next_pid name entry stack) blank lt,
  )

  pub create_full : find_unused nproc 0 s ≡ none → proc_create k name entry m s ≡ (none, m, s)
  unfolding proc_create
  create_full e = rw (e, proc_create)

  pub create_failed :
      (i : ℕ)
      → find_unused nproc 0 s ≡ some i
      → (page_alloc k m).0 ≡ none
      → proc_create k name entry m s ≡ (none, (page_alloc k m).1, failed i)
  unfolding proc_create
  create_failed i e p = rw (e, proc_create) (rw p)

  pub create_made :
      (i stack : ℕ)
      → find_unused nproc 0 s ≡ some i
      → (page_alloc k m).0 ≡ some stack
      → proc_create k name entry m s ≡ (some i, (page_alloc k m).1, created i stack)
  unfolding proc_create enqueue
  create_made i stack e p = rw (e, proc_create) (rw p)

  -- `proc_create`, on a valid state: it takes an unused slot, gives it the next pid, the name, the
  -- entry point and a stack page, makes it runnable and queues it last, and leaves every other
  -- process alone; it fails only when no slot is unused, or when there is no page, and then every
  -- state and the queue are as before, though the pid is spent.
  pub proc_create-Created : Inv s → Created k name entry m s (proc_create k name entry m s)
  proc_create-Created v = elim (Option-cases (find_unused nproc 0 s)) [
    | inl e ↦
        rw (create_full e)
          (full (λ j l. find_unused-none nproc 0 s e j (omega arith) (omega arith)))
    | inr (i, e) ↦
        let f = find_unused-some nproc 0 i s e in
        let lt : i < length s.proc_table = omega (arith, v.size) in
        elim (Option-cases (page_alloc k m).0) [
          | inl p ↦ rw (create_failed i e p) (
              no_page i p f.1
                (λ j. ground (
                  arith,
                  f.1,
                  get_or-set_if s.proc_table i j
                      (record (proc_at s i) {
                        pid = s.next_pid;
                        state = unused;
                        name = copy_name (proc_at s i).name name 15;
                        stack = 0;
                      })
                      blank lt,
                ))
                refl refl)
          | inr (stack, p) ↦ rw (create_made i stack e p) (
              made i stack p f.1
                (λ j.
                  get_or-set_if s.proc_table i j
                    (new_proc (proc_at s i) s.next_pid name entry stack) blank lt)
                refl refl (ground arith))
        ]
  ]

  -- `proc_create` keeps the scheduler's invariant.
  pub proc_create-Inv : Inv s → Inv (proc_create k name entry m s).2
  proc_create-Inv v = elim (Option-cases (find_unused nproc 0 s)) [
    | inl e ↦ rw (create_full e) v
    | inr (i, e) ↦
        let f = find_unused-some nproc 0 i s e in
        let lt : i < length s.proc_table = omega (arith, v.size) in
        elim (Option-cases (page_alloc k m).0) [
          | inl p ↦ rw (create_failed i e p) (record {
            size = length-set s.proc_table i _ ∙ v.size;
            queued = λ j. ground (arith, f.1, v.queued j, now_unused i j lt);
            alone = λ j r. ground (arith, v.alone j, now_unused i j lt);
            listed = v.listed;
          })
          | inr (stack, p) ↦ rw (create_made i stack e p) (record {
            size = length-set s.proc_table i _ ∙ v.size;
            queued = λ j. ground (
              arith,
              f.1,
              v.queued j,
              count-append j s.ready_queue (i ∷ []),
              now_runnable i stack j lt,
            );
            alone = λ j r. ground (arith, v.alone j, now_runnable i stack j lt);
            listed = v.listed;
          })
        ]
  ]

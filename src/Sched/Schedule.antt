-- ===== src/Sched/Schedule.antt =====
-- What `schedule` does: it puts the current process back and picks first come, first served.
use tor_os.Prelude.{
  ℕ, ◌<◌, ◌≡◌, refl, sym, ap, ap₂, ◌∙◌, ◌≢◌, true, false, List, [], ◌∷◌, ◌++◌, Option, none, some,
  if◌then◌else◌, arith, length-set, get_or-past, count, Option-cases, Bool-cases, inl, inr,
}
use mathlib.Core.List.{append-nil}
use native.Mathlib.Decide.{dec_lt}
use tor_os.Sched.{
  Sched, runnable, running, Outcome, returns, idles, state_eq, state_at, set_state, blank, nproc,
  enqueue, dequeue, wake, put_back, pick, schedule,
}
use tor_os.Sched.Inv.{Inv, state_at-set_state, admit-Inv}
use tor_os.Sched.Wake.{woken, Woke, wake_lem}

-- No process runs.
abbrev IsQuiet : Sched → Type 0
IsQuiet s = (i : ℕ) → state_at s i ≢ running

-- What `put_back` appends to the queue.
abbrev pub yielded : Sched → List ℕ
yielded s = elim s.current [
  | none ↦ []
  | some c ↦ if state_eq (state_at s c) running then c ∷ [] else []
]

record PutBack (s s' : Sched) : Type 0 where
  inv : Inv s'
  quiet : IsQuiet s'
  queue : s'.ready_queue ≡ s.ready_queue ++ yielded s
  same : s'.current ≡ s.current

module _ (s : Sched) where
  put_back-none : s.current ≡ none → put_back s ≡ s
  unfolding put_back
  put_back-none e = ground arith

  put_back-idle :
      (c : ℕ) → s.current ≡ some c → state_eq (state_at s c) running ≡ false → put_back s ≡ s
  unfolding put_back
  put_back-idle c e r = ground arith

  put_back-running :
      (c : ℕ)
      → s.current ≡ some c
      → state_eq (state_at s c) running ≡ true
      → put_back s ≡ enqueue c (set_state s c runnable)
  unfolding put_back
  put_back-running c e r = ground arith

  yielded-running :
      (c : ℕ) → s.current ≡ some c → state_eq (state_at s c) running ≡ true → yielded s ≡ c ∷ []
  yielded-running c e r = ground arith

  yielded-idle :
      (c : ℕ) → s.current ≡ some c → state_eq (state_at s c) running ≡ false → yielded s ≡ []
  yielded-idle c e r = ground arith

put_back_lem : (s : Sched) → Inv s → PutBack s (put_back s)
unfolding enqueue
put_back_lem s v = go s.current refl
  where
    stay : (s' : Sched) → s ≡ s' → IsQuiet s → yielded s ≡ [] → PutBack s s'
    stay s' e q y =
        rw (← e) (record {
          inv = v;
          quiet = q;
          queue = rw y (sym (append-nil s.ready_queue));
          same = refl;
        })

    go : (c : Option ℕ) → s.current ≡ c → PutBack s (put_back s)
    go none e =
        stay (put_back s) (sym (put_back-none s e)) (λ i r. ground (arith, v.alone i r))
          (ground arith)
    go (some c) e = elim (Bool-cases (state_eq (state_at s c) running)) [
      | inl run ↦
          let lt : c < 64 = v.listed c e in
          let at = λ (i : ℕ). state_at-set_state s c i runnable (omega (arith, v.size)) in
          rw (put_back-running s c e run) (record {
            inv = admit-Inv s c v lt (ground arith);
            quiet = λ i r. ground (arith, v.alone i, at i);
            queue = rw (yielded-running s c e run);
            same = refl;
          })
      | inr idle ↦
          stay (put_back s) (sym (put_back-idle s c e idle)) (λ i r. ground (arith, v.alone i r))
            (yielded-idle s c e idle)
    ]

yielded-same :
    (s s' : Sched)
    → s'.current ≡ s.current
    → ((j : ℕ) → state_eq (state_at s' j) running ≡ state_eq (state_at s j) running)
    → yielded s' ≡ yielded s
yielded-same s s' e r = elim (Option-cases s.current) [
  | inl n ↦ ground (arith, n)
  | inr (c, n) ↦ ground (arith, n, r c)
]

-- The processes that `schedule` chooses from, first come first: the queue as it was, the sleepers
-- whose time has come, and the current process if it still runs.
abbrev pub candidates : ℕ → Sched → List ℕ
candidates now s = (s.ready_queue ++ woken now nproc 0 s) ++ yielded s

-- What `schedule` may answer: with no candidate it idles; otherwise the first candidate is current
-- and runs, the others stay queued in order, and the invariant holds.
pub data Answer (q : List ℕ) : Outcome → Type 0 where
  none_left : {s : Sched} → q ≡ [] → Inv s → Answer q (idles s)
  first :
      {s : Sched} (p : ℕ)
      → q ≡ p ∷ s.ready_queue
      → s.current ≡ some p
      → state_at s p ≡ running
      → Inv s
      → Answer q (returns s)

pick-empty : (s : Sched) → Inv s → s.ready_queue ≡ [] → pick s ≡ idles s
unfolding pick dequeue
pick-empty s v e = elim (Option-cases s.current) [
  | inl n ↦ ground (arith, n)
  | inr (c, n) ↦ ground (arith, n, v.queued c)
]

pick-first :
    (s : Sched) (p : ℕ) (q : List ℕ)
    → s.ready_queue ≡ p ∷ q
    → pick s
      ≡ returns (record (set_state (record s { ready_queue = q }) p running) { current = some p })
unfolding pick dequeue
pick-first s p q e = ground arith

pick-Answer : (s : Sched) (q : List ℕ) → Inv s → IsQuiet s → s.ready_queue ≡ q → Answer q (pick s)
pick-Answer s [] v quiet e = rw (pick-empty s v e) (none_left refl v)
pick-Answer s (p ∷ q) v quiet e =
    let s' : Sched = record (set_state (record s { ready_queue = q }) p running) {
      current = some p;
    } in
    let queued = λ (i : ℕ). sym (ap (count i) e) ∙ v.queued i in
    let lt : p < 64 = elim (dec_lt p 64) [
      | yes h ↦ h
      | no h ↦ ground (arith, queued p, get_or-past s.proc_table p blank)
    ] in
    let at = λ (i : ℕ). state_at-set_state s p i running (omega (arith, v.size)) in
    rw (pick-first s p q e) (
      first p refl refl (ground (arith, at p)) (record {
        size = length-set s.proc_table p _ ∙ v.size;
        queued = λ i. ground (arith, queued i, at i);
        alone = λ i r. ground (arith, quiet i, at i);
        listed = λ c h. ground arith;
      }))

-- `schedule`, on a state that meets the invariant, chooses first come, first served among the
-- processes that are ready: it idles exactly when there is none; otherwise the first one becomes
-- current and runs, the others stay queued in order, and the invariant holds again.
pub schedule-Answer : (now : ℕ) (s : Sched) → Inv s → Answer (candidates now s) (schedule now s)
unfolding schedule
schedule-Answer now s v =
    let w : Woke now nproc 0 s (wake now nproc 0 s) = wake_lem now nproc 0 s (omega arith) v in
    let b = put_back_lem (wake now nproc 0 s) w.inv in
    pick-Answer (put_back (wake now nproc 0 s)) (candidates now s) b.inv b.quiet
      (b.queue ∙ ap₂ ◌++◌ w.queue (yielded-same s (wake now nproc 0 s) w.same w.runs))

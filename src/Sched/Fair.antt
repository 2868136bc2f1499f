-- ===== src/Sched/Fair.antt =====
-- Repeated `schedule`: every runnable process gets its turn.
use tor_os.Prelude.{
  ℕ, zero, suc, ◌<◌, ◌≡◌, refl, sym, ap, subst, ◌∙◌, List, [], ◌∷◌, ◌++◌, some, ◌==◌, length, arith,
  count, Bool-cases, inl, inr,
}
use mathlib.Core.List.{append_assoc}
use tor_os.Sched.{Sched, Outcome, returns, idles, runnable, running, state_at, schedule, nproc}
use tor_os.Sched.Inv.{Inv}
use tor_os.Sched.Wake.{woken}
use tor_os.Sched.Schedule.{Answer, none_left, first, candidates, yielded, schedule-Answer}

-- The state in which `schedule` leaves the scheduler, whether it returns or waits for an interrupt.
abbrev pub left_in : Outcome → Sched
left_in (returns s) = s
left_in (idles s) = s

-- `n` calls of `schedule`, at the times `times 0`, `times 1` and so on.
abbrev pub run_schedule : (ℕ → ℕ) → ℕ → Sched → Sched
run_schedule times zero s = s
run_schedule times (suc n) s = run_schedule (λ i. times (suc i)) n (left_in (schedule (times 0) s))

-- The process is current and runs.
abbrev pub HasTurn : ℕ → Sched → Type 0
HasTurn p s = (s.current ≡ some p) × (state_at s p ≡ running)

-- What one call does to a queue of candidates that is not empty.
after_first :
    (b : ℕ) (q : List ℕ) (o : Outcome)
    → Answer (b ∷ q) o
    → HasTurn b (left_in o) × ((left_in o).ready_queue ≡ q) × Inv (left_in o)
after_first b q (idles s) (none_left e v) = cc
after_first b q (returns s) (first c e h r v) =
    let same : b ≡ c = ground arith in ((rw same h, rw same r), ground arith, v)

module _ (p : ℕ) where
  later :
      (before rest : List ℕ) (now : ℕ) (s : Sched)
      → s.ready_queue ≡ before ++ p ∷ rest
      → candidates now s ≡ before ++ p ∷ (rest ++ (woken now nproc 0 s ++ yielded s))
  later before rest now s e =
      ap (λ q. (q ++ woken now nproc 0 s) ++ yielded s) e
      ∙ append_assoc (before ++ p ∷ rest) (woken now nproc 0 s) (yielded s)
      ∙ append_assoc before (p ∷ rest) (woken now nproc 0 s ++ yielded s)

  -- A process behind `before` among the candidates has its turn after as many calls more.
  turn_comes :
      (before rest : List ℕ) (times : ℕ → ℕ) (s : Sched)
      → Inv s
      → candidates (times 0) s ≡ before ++ p ∷ rest
      → HasTurn p (run_schedule times (suc (length before)) s)
  turn_comes [] rest times s v e =
      (after_first p rest (schedule (times 0) s)
        (subst (λ q. Answer q (schedule (times 0) s)) e (schedule-Answer (times 0) s v))).0
  turn_comes (b ∷ before) rest times s v e =
      let a =
        after_first b (before ++ p ∷ rest) (schedule (times 0) s)
          (subst (λ q. Answer q (schedule (times 0) s)) e (schedule-Answer (times 0) s v)) in
      let s' = left_in (schedule (times 0) s) in
      turn_comes before (rest ++ (woken (times 1) nproc 0 s' ++ yielded s')) (λ i. times (suc i)) s'
        a.2 (later before rest (times 1) s' a.1)

  -- A number that stands in a list splits it.
  split_at :
      (q : List ℕ)
      → count p q ≡ 1
      → (before : List ℕ) × (rest : List ℕ) × (q ≡ before ++ p ∷ rest) × (length before < length q)
  split_at [] h = absurd (omega arith)
  split_at (x ∷ q) h = elim (Bool-cases (p == x)) [
    | inl e ↦ let same : p ≡ x = ground arith in ([], q, ap (λ y. y ∷ q) (sym same), omega arith)
    | inr e ↦
        let (before, rest, f, l) = split_at q (ground arith) in
        (x ∷ before, rest, ap (λ y. x ∷ y) f, omega arith)
  ]

-- No runnable process starves: from a state that meets the invariant, `schedule`, called again and
-- again at whatever times, makes the process current and running after fewer calls than the ready
-- queue is long, and one more.
pub runnable_runs :
    (s : Sched) (p : ℕ) (times : ℕ → ℕ)
    → Inv s
    → state_at s p ≡ runnable
    → (k : ℕ) × (k < length s.ready_queue) × HasTurn p (run_schedule times (suc k) s)
runnable_runs s p times v r =
    let (before, rest, e, l) = split_at p s.ready_queue (v.queued p ∙ rw r refl) in
    (
      length before,
      l,
      turn_comes p before (rest ++ (woken (times 0) nproc 0 s ++ yielded s)) times s v
          (later p before rest (times 0) s e),
    )

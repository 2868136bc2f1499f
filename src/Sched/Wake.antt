-- ===== src/Sched/Wake.antt =====
-- What `schedule` does first: the sleepers whose time has come join the queue.
use tor_os.Prelude.{
  ℕ, zero, suc, ◌+◌, ◌≤◌, ◌≡◌, refl, sym, ap, ◌∙◌, true, ◌&&◌, List, [], ◌∷◌, ◌++◌, ◌==◌, leb,
  if◌then◌else◌, arith, get_or-set_if, Bool-cases, inl, inr,
}
use mathlib.Core.List.{append-nil, append_assoc}
use tor_os.Sched.{
  Sched, runnable, running, sleeping, state_eq, state_at, proc_at, set_state, blank, enqueue, wake,
}
use tor_os.Sched.Inv.{Inv, state_at-set_state, admit-Inv}

-- The sleepers among `n` processes from `i` on whose time has come, in the table's order.
unfoldable pub woken : ℕ → ℕ → ℕ → Sched → List ℕ
woken now zero i s = []
woken now (suc n) i s =
    if state_eq (state_at s i) sleeping && leb (proc_at s i).sleep_until now
    then i ∷ woken now n (i + 1) s
    else woken now n (i + 1) s

woken-same :
    (now n i : ℕ) (s s' : Sched)
    → ((j : ℕ) → i ≤ j → proc_at s' j ≡ proc_at s j)
    → woken now n i s' ≡ woken now n i s
unfolding woken
woken-same now zero i s s' h = refl
woken-same now (suc n) i s s' h =
    ground (arith, h i (omega arith), woken-same now n (i + 1) s s' (λ j l. h j (omega arith)))

pub record Woke (now n i : ℕ) (s s' : Sched) : Type 0 where
  pub inv : Inv s'
  pub queue : s'.ready_queue ≡ s.ready_queue ++ woken now n i s
  pub same : s'.current ≡ s.current
  pub runs : (j : ℕ) → state_eq (state_at s' j) running ≡ state_eq (state_at s j) running

pub wake_lem : (now n i : ℕ) (s : Sched) → i + n ≤ 64 → Inv s → Woke now n i s (wake now n i s)
unfolding wake woken
wake_lem now zero i s h v = record {
  inv = v;
  queue = sym (append-nil s.ready_queue);
  same = refl;
  runs = λ j. refl;
}
wake_lem now (suc n) i s h v =
    elim (Bool-cases (state_eq (state_at s i) sleeping && leb (proc_at s i).sleep_until now)) [
      | inl e ↦ rw e (
          due e (
            wake_lem now n (i + 1) (enqueue i (set_state s i runnable)) (omega arith)
              (admit-Inv s i v (omega arith) (ground arith))))
      | inr e ↦ rw e (
          let w = wake_lem now n (i + 1) s (omega arith) v in
          record { inv = w.inv; queue = rw e w.queue; same = w.same; runs = w.runs })
    ]
  where
    woke_one : Sched
    woke_one = enqueue i (set_state s i runnable)

    at : (j : ℕ) → state_at woke_one j ≡ (if i == j then runnable else state_at s j)
    at j = unfold enqueue in state_at-set_state s i j runnable (omega (arith, v.size))

    later : (j : ℕ) → i + 1 ≤ j → proc_at woke_one j ≡ proc_at s j
    later j l =
        unfold enqueue in
        ground (
          arith,
          get_or-set_if s.proc_table i j (record (proc_at s i) { state = runnable }) blank
              (omega (arith, v.size)),
        )

    due :
        (state_eq (state_at s i) sleeping && leb (proc_at s i).sleep_until now) ≡ true
        → Woke now n (i + 1) woke_one (wake now n (i + 1) woke_one)
        → Woke now (suc n) i s (wake now n (i + 1) woke_one)
    due e w =
        unfold enqueue in
        record {
          inv = w.inv;
          queue = rw e (
              w.queue
              ∙ ap (λ l. woke_one.ready_queue ++ l) (woken-same now n (i + 1) s woke_one later)
              ∙ append_assoc s.ready_queue (i ∷ []) (woken now n (i + 1) s));
          same = w.same;
          runs = λ j. w.runs j ∙ ground (arith, at j);
        }

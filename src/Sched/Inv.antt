-- ===== src/Sched/Inv.antt =====
-- The scheduler's invariant: the queue holds each runnable process once, and only the current
-- process runs.
use tor_os.Prelude.{
  ℕ, ◌<◌, ◌≡◌, ◌∙◌, Bool, true, false, [], ◌∷◌, some, ◌==◌, if◌then◌else◌, length, arith,
  length-set, get_or-set_if, count, count-append,
}
use tor_os.Sched.{
  Sched, ProcState, runnable, running, state_eq, state_at, proc_at, set_state, blank, enqueue,
}

abbrev pub one_if : Bool → ℕ
one_if true = 1
one_if false = 0

pub record Inv (s : Sched) : Type 0 where
  pub size : length s.proc_table ≡ 64
  pub queued : (i : ℕ) → count i s.ready_queue ≡ one_if (state_eq (state_at s i) runnable)
  pub alone : (i : ℕ) → state_at s i ≡ running → s.current ≡ some i
  pub listed : (c : ℕ) → s.current ≡ some c → c < 64

pub state_at-set_state :
    (s : Sched) (i j : ℕ) (st : ProcState)
    → i < length s.proc_table
    → state_at (set_state s i st) j ≡ (if i == j then st else state_at s j)
state_at-set_state s i j st h =
    ground (arith, get_or-set_if s.proc_table i j (record (proc_at s i) { state = st }) blank h)

-- A process that is not runnable is made runnable and queued.
pub admit-Inv :
    (s : Sched) (i : ℕ)
    → Inv s
    → i < 64
    → state_eq (state_at s i) runnable ≡ false
    → Inv (enqueue i (set_state s i runnable))
unfolding enqueue
admit-Inv s i v h e = record {
  size = length-set s.proc_table i _ ∙ v.size;
  queued = λ j. ground (
    arith,
    count-append j s.ready_queue (i ∷ []),
    v.queued j,
    state_at-set_state s i j runnable (omega (arith, v.size)),
  );
  alone =
      λ j r. ground (arith, v.alone j, state_at-set_state s i j runnable (omega (arith, v.size)));
  listed = v.listed;
}

-- ===== src/Tests/Processes.antt =====
-- kernel/sched.c and kernel/user.c at concrete inputs.
use tor_os.Prelude.{
  ℕ, suc, length, ◌<◌, ◌≡◌, refl, sym, ap, ◌∙◌, List, [], ◌∷◌, none, replicate, get_or-replicate,
}
use tor_os.Bitmap.{bit_get}
use tor_os.Mm.{Mem, page_alloc}
use tor_os.Sched.{
  Sched, blank, proc_create, schedule, find_unused, state_at, state_eq, unused, runnable, running,
}
use tor_os.Sched.Inv.{Inv, one_if}
use tor_os.Sched.Schedule.{Answer, candidates, schedule-Answer}
use tor_os.Sched.Fair.{HasTurn, run_schedule, runnable_runs}
use tor_os.Sched.Create.{proc_create-Inv}
use tor_os.Tests.Memory.{end_of_kernel, small_mem}

-- No process.
abbrev empty : Sched
empty = record {
  proc_table = replicate 64 blank;
  proc_count = 0;
  current = none;
  ready_queue = [];
  next_pid = 1;
  ram = λ a. 0;
}

empty_at : (i : ℕ) → state_at empty i ≡ unused
empty_at i = ap (λ p. p.state) (get_or-replicate 64 i blank)

apart : unused ≡ running → ⊥
apart h = cc

empty-Inv : Inv empty
empty-Inv = record {
  size = refl;
  queued = λ i. sym (ap (λ st. one_if (state_eq st runnable)) (empty_at i));
  alone = λ i h. absurd (apart (sym (empty_at i) ∙ h));
  listed = λ c h. cc;
}

abbrev shell : List ℕ
shell = b's' ∷ b'h' ∷ []

-- One process, just created.
abbrev one : Sched
one = (proc_create end_of_kernel shell 0x4000 small_mem empty).2

proc_create-Inv_example : Inv one
proc_create-Inv_example = proc_create-Inv end_of_kernel shell 0x4000 small_mem empty empty-Inv

one-Inv : Inv one
one-Inv = proc_create-Inv end_of_kernel shell 0x4000 small_mem empty empty-Inv

schedule-Answer_example : Answer (candidates 5 one) (schedule 5 one)
schedule-Answer_example = schedule-Answer 5 one one-Inv

runnable_runs_example :
    ((k : ℕ) × (k < length one.ready_queue) × HasTurn 0 (run_schedule (λ i. i) (suc k) one))
unfolding proc_create page_alloc find_unused bit_get
runnable_runs_example = runnable_runs one 0 (λ i. i) one-Inv refl

-- One page left.
abbrev last_page : Mem
last_page = record small_mem { page_bitmap = 255 ∷ 127 ∷ []; free_page_count = 1 }

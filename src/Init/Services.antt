-- ===== src/Init/Services.antt =====
-- kernel/init.c: starting services that have no dependencies, as every registered service is.
use tor_os.Prelude.{
  ℕ, zero, suc, ◌≤◌, ◌<◌, ◌≡◌, ◌⊎◌, refl, ap, ◌∙◌, true, false, List, Option, none, some, arith,
  ◌==◌, if◌then◌else◌, take, length, length-set, get_or-set_if, Bool-cases, Option-cases, inl, inr,
}
use tor_os.Prelude.Int.{ℤ, pos, negsuc}
use tor_os.Libc.{strcmp, is_zero}
use tor_os.Search.{first-IsFirst}
use tor_os.Init.{
  ServiceState, stopped, starting, running, stopping, failed, restarting, is_running, Service, Init,
  zero_service, service_at, put_service, find_service, call_init, settle, run_init, start_each,
  init_start_service, max_services,
}

pub is_running-running : (x : ServiceState) → is_running x ≡ true → x ≡ running
is_running-running stopped h = cc
is_running-running starting h = cc
is_running-running running h = refl
is_running-running stopping h = cc
is_running-running failed h = cc
is_running-running restarting h = cc

module _ {W : Type 0} where
  -- The table has its 32 entries, the count is within it, and no service has a dependency.
  pub record ServicesAreValid (s : Init W) : Type 0 where
    pub size : length s.services ≡ max_services
    pub count : s.num_services ≤ max_services
    pub no_deps : (i : ℕ) → (service_at s i).num_dependencies ≡ 0

  put-at :
      (i j : ℕ) (v : Service W) (s : Init W)
      → i < length s.services
      → service_at (put_service i v s) j ≡ (if i == j then v else service_at s j)
  put-at i j v s h = get_or-set_if s.services i j v zero_service h

  put-hit :
      (i : ℕ) (v : Service W) (s : Init W)
      → i < length s.services
      → service_at (put_service i v s) i ≡ v
  put-hit i v s h = put-at i i v s h ∙ ap (λ b. if b then v else service_at s i) (eq_refl i)
    where
      eq_refl : (k : ℕ) → (k == k) ≡ true
      eq_refl k = ground arith

  put-miss :
      (i j : ℕ) (v : Service W) (s : Init W)
      → i < length s.services
      → (i == j) ≡ false
      → service_at (put_service i v s) j ≡ service_at s j
  put-miss i j v s h e = put-at i j v s h ∙ ap (λ b. if b then v else service_at s j) e

  put-valid :
      (i : ℕ) (v : Service W) (s : Init W)
      → i < length s.services
      → v.num_dependencies ≡ 0
      → ServicesAreValid s
      → ServicesAreValid (put_service i v s)
  put-valid i v s h e w = record {
    size = length-set s.services i v ∙ w.size;
    count = w.count;
    no_deps = λ j. elim (Bool-cases (i == j)) [
      | inl q ↦
          ap (λ u. u.num_dependencies)
            (put-at i j v s h ∙ ap (λ b. if b then v else service_at s j) q)
          ∙ e
      | inr q ↦ ap (λ u. u.num_dependencies) (put-miss i j v s h q) ∙ w.no_deps j
    ];
  }

  with_world : (s : Init W) (u : W) → ServicesAreValid s → ServicesAreValid (record s { world = u })
  with_world s u v = record { size = v.size; count = v.count; no_deps = v.no_deps }

  -- How starting service `i` ended: it runs, or its initialiser failed; no other service changed.
  pub record Ended (i : ℕ) (s : Init W) (r : ℤ × Init W) : Type 0 where
    pub answer :
        ((r.0 ≡ pos 0) × ((service_at r.1 i).state ≡ running))
        ⊎ ((r.0 ≡ negsuc 0) × ((service_at r.1 i).state ≡ failed))
    pub others : (j : ℕ) → (i == j) ≡ false → service_at r.1 j ≡ service_at s j
    pub table : ServicesAreValid r.1
    pub same_count : r.1.num_services ≡ s.num_services

  settle-Ended :
      (jiffies : W → ℕ) (i : ℕ) (s : Init W) (r : ℤ × W)
      → i < length s.services
      → ServicesAreValid s
      → Ended i s (settle jiffies i s r)
  unfolding settle
  settle-Ended jiffies i s (pos k, u) h v =
      let w = record (service_at s i) {
        state = running;
        start_time = jiffies u;
        initialized = 1;
      } in
      record {
        answer = inl (refl, ap (λ x. x.state) (put-hit i w s h));
        others = λ j q. put-miss i j w s h q;
        table = put-valid i w (record s { world = u }) h (v.no_deps i) (with_world s u v);
        same_count = refl;
      }
  settle-Ended jiffies i s (negsuc k, u) h v =
      let w = record (service_at s i) { state = failed } in
      record {
        answer = inr (refl, ap (λ x. x.state) (put-hit i w s h));
        others = λ j q. put-miss i j w s h q;
        table = put-valid i w (record s { world = u }) h (v.no_deps i) (with_world s u v);
        same_count = refl;
      }

  -- Marking the service as starting first makes no difference to how it ends.
  through-starting :
      (i : ℕ) (s : Init W) (r : ℤ × Init W)
      → i < length s.services
      → Ended i (put_service i (record (service_at s i) { state = starting }) s) r
      → Ended i s r
  through-starting i s r h e = record {
    answer = e.answer;
    others =
        λ j q. e.others j q ∙ put-miss i j (record (service_at s i) { state = starting }) s h q;
    table = e.table;
    same_count = e.same_count;
  }

  start_each-none :
      (f : List ℕ → Init W → Option (ℤ × Init W)) (n : ℕ) (ds : List (List ℕ)) (s : Init W)
      → n ≡ 0
      → start_each f (take n ds) s ≡ some s
  unfolding start_each
  start_each-none f zero ds s h = refl
  start_each-none f (suc n) ds s h = absurd (omega arith)

  module _ (jiffies : W → ℕ) where
    -- Without dependencies one level of recursion is enough: `init_start_service` returns. For an
    -- unknown name it returns -1 and changes nothing. Otherwise the first service of that name runs
    -- afterwards and the result is 0, or its initialiser failed, it is marked as failed and the
    -- result is -1; no other service changes, and the table stays valid.
    pub init_start_service_lem :
        (fuel : ℕ) (name : List ℕ) (s : Init W)
        → ServicesAreValid s
        → (r : ℤ × Init W) × (init_start_service (suc fuel) jiffies name s ≡ some r)
          × (((find_service name s ≡ none) × (r ≡ (negsuc 0, s)))
              ⊎ ((i : ℕ) × (find_service name s ≡ some i) × Ended i s r))
    unfolding init_start_service find_service run_init
    init_start_service_lem fuel name s v = elim (Option-cases (find_service name s)) [
      | inl e ↦ ((negsuc 0, s), rw (e, init_start_service) refl, inl (e, refl))
      | inr (i, e) ↦
          let f =
            first-IsFirst (λ k. is_zero (strcmp (service_at s k).name name)) s.num_services 0 i e in
          let lt : i < length s.services = omega (arith, f.below, v.count, v.size) in
          elim (Bool-cases (is_running (service_at s i).state)) [
            | inl on ↦ (
              (pos 0, s),
              rw (e, init_start_service) (rw on refl),
              inr (
                i,
                e,
                record {
                  answer = inl (refl, is_running-running (service_at s i).state on);
                  others = λ j q. refl;
                  table = v;
                  same_count = refl;
                },
              ),
            )
            | inr off ↦
                let s' = put_service i (record (service_at s i) { state = starting }) s in
                let v' =
                  put-valid i (record (service_at s i) { state = starting }) s lt (v.no_deps i) v in
                let lt' : i < length s'.services = omega (arith, lt, v'.size, v.size) in
                (
                  run_init jiffies i s',
                  rw (e, init_start_service)
                      (rw
                        (
                          off,
                          start_each-none (init_start_service fuel jiffies)
                              (service_at s i).num_dependencies (service_at s i).dependencies s'
                              (v.no_deps i),
                        )
                        refl),
                  inr (
                    i,
                    e,
                    through-starting i s (run_init jiffies i s') lt
                        (settle-Ended jiffies i s' (call_init (service_at s' i) s'.world) lt' v'),
                  ),
                )
          ]
    ]

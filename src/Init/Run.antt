-- ===== src/Init/Run.antt =====
-- kernel/init.c: `init_run_services`, which starts the services that are marked for it in turn.
use tor_os.Prelude.{
  ℕ, zero, suc, ◌+◌, ◌≡◌, refl, sym, ap, subst, ◌∙◌, true, false, List, some, arith, ◌==◌,
  Bool-cases, inl, inr,
}
use tor_os.Prelude.Int.{ℤ, pos}
use tor_os.Init.{
  running, failed, is_running, Init, service_at, find_service, init_start_service, run_services,
}
use tor_os.Init.Services.{ServicesAreValid, Ended, init_start_service_lem}

differ : running ≡ failed → ⊥
differ h = cc

module _ {W : Type 0} where
  -- Every service that runs in `s` runs in `s'`.
  abbrev pub Kept : Init W → Init W → Type 0
  Kept s s' = (j : ℕ) → (service_at s j).state ≡ running → (service_at s' j).state ≡ running

  module _ (jiffies : W → ℕ) where
    -- A call on a service that runs returns at once.
    start_running :
        (fuel : ℕ) (name : List ℕ) (s : Init W) (i : ℕ)
        → find_service name s ≡ some i
        → (service_at s i).state ≡ running
        → init_start_service (suc fuel) jiffies name s ≡ some (pos 0, s)
    unfolding init_start_service
    start_running fuel name s i e on = rw (e, init_start_service) (rw (ap is_running on) refl)

    some-eq : (a b : ℤ × Init W) → some a ≡ some b → a ≡ b
    some-eq a b h = cc

    start-Kept :
        (fuel : ℕ) (name : List ℕ) (s : Init W) (r : ℤ × Init W) (i : ℕ)
        → init_start_service (suc fuel) jiffies name s ≡ some r
        → find_service name s ≡ some i
        → Ended i s r
        → Kept s r.1
    start-Kept fuel name s r i e found ended j on = elim (Bool-cases (i == j)) [
      | inr q ↦ ap (λ v. v.state) (ended.others j q) ∙ on
      | inl q ↦
          let p : i ≡ j = ground arith in
          let same : r ≡ (pos 0, s) =
            some-eq r (pos 0, s)
              (sym e
                ∙ start_running fuel name s i found
                    (subst (λ x. (service_at s x).state ≡ running) (sym p) on)) in
          ap (λ x. (service_at x.1 j).state) same ∙ on
    ]

    step :
        (fuel : ℕ) (name : List ℕ) (s : Init W)
        → ServicesAreValid s
        → (r : ℤ × Init W) × (init_start_service (suc fuel) jiffies name s ≡ some r)
          × ServicesAreValid r.1
          × Kept s r.1
    step fuel name s v =
        let (r, e, how) = init_start_service_lem jiffies fuel name s v in
        elim how [
          | inl (a, q) ↦ (
            r,
            e,
            subst (λ x. ServicesAreValid x.1) (sym q) v,
            λ j on. ap (λ x. (service_at x.1 j).state) q ∙ on,
          )
          | inr (i, found, ended) ↦ (r, e, ended.table, start-Kept fuel name s r i e found ended)
        ]

    round_skip :
        (fuel n i : ℕ) (s : Init W)
        → ((service_at s i).auto_start == 0) ≡ true
        → run_services fuel jiffies (suc n) i s ≡ run_services fuel jiffies n (i + 1) s
    unfolding run_services
    round_skip fuel n i s q = rw (q, run_services) refl

    round_start :
        (fuel n i : ℕ) (s : Init W) (r : ℤ × Init W)
        → ((service_at s i).auto_start == 0) ≡ false
        → init_start_service fuel jiffies (service_at s i).name s ≡ some r
        → run_services fuel jiffies (suc n) i s ≡ run_services fuel jiffies n (i + 1) r.1
    unfolding run_services
    round_start fuel n i s r q e = rw (q, run_services) (rw e refl)

    -- Where no service has a dependency, the loop of `init_run_services` ends, for any number of
    -- rounds and from any index, with one level of recursion; the table stays valid, and no service
    -- that was running is stopped by it.
    pub run_services-Kept :
        (fuel n i : ℕ) (s : Init W)
        → ServicesAreValid s
        → (s' : Init W) × (run_services (suc fuel) jiffies n i s ≡ some s')
          × ServicesAreValid s'
          × Kept s s'
    unfolding run_services
    run_services-Kept fuel zero i s v = (s, refl, v, λ j on. on)
    run_services-Kept fuel (suc n) i s v = elim (Bool-cases ((service_at s i).auto_start == 0)) [
      | inl q ↦
          let rest = run_services-Kept fuel n (i + 1) s v in
          (rest.0, round_skip (suc fuel) n i s q ∙ rest.1, rest.2, rest.3)
      | inr q ↦
          let a = step fuel (service_at s i).name s v in
          let rest = run_services-Kept fuel n (i + 1) a.0.1 a.2 in
          (
            rest.0,
            round_start (suc fuel) n i s a.0 q a.1 ∙ rest.1,
            rest.2,
            λ j on. rest.3 j (a.3 j on),
          )
    ]

-- ===== src/Scheduler/Rules.antt =====
-- Jobs with a rule for their next run are scheduled without a panic.
use aragorn.Prelude.{
  Str, ℤ, ◌-ℤ◌, is_positive, true, false, ◌≡◌, refl, ◌⊎◌, inl, inr, some, ok, Keeps, ◌>>=◌, [], ◌∷◌,
  Bool-cases, Option-cases,
}
use aragorn.Prelude.Assoc.{Assoc, get, AllValues, AllValues-put}
use aragorn.Prelude.ParseInt.{clamp}
use aragorn.Scheduler.{
  Scheduler, Cron, Job, schedule, schedule_all, time_until_next_run, put_job, put_cron,
  interval_job, cron_job, armed, add, add_cron, start,
}

module _ {J X : Type 0} where
  -- A job with a rule for its next run.
  abbrev pub HasRule : Job J X → Type 0
  HasRule j = (is_positive j.interval ≡ true) ⊎ ((x : X) × (j.cron_expr ≡ some x))

  abbrev pub AllRules : Scheduler J X → Type 0
  AllRules s = AllValues HasRule s.jobs

  has_time :
      (c : Cron X) (now : ℤ) (j : Job J X)
      → HasRule j
      → (d : ℤ) × (time_until_next_run c now j ≡ some d)
  unfolding time_until_next_run
  has_time c now j (inl p) = (j.interval, rw p)
  has_time c now j (inr (x, p)) = elim (Bool-cases (is_positive j.interval)) [
    | inl q ↦ (j.interval, rw q)
    | inr q ↦ (clamp (c.next x now -ℤ now), rw (q, p))
  ]

  pub schedule-ok :
      (c : Cron X) (now : ℤ) (j : Job J X)
      → HasRule j
      → (d : ℤ) × (schedule c now j ≡ ok (record j { timers = armed d ∷ j.timers }))
  unfolding schedule
  schedule-ok c now j h = let (d, p) = has_time c now j h in (d, rw (p, schedule))

  schedule_all-ok :
      (c : Cron X) (now : ℤ) (jobs : Assoc (Job J X))
      → AllValues HasRule jobs
      → (jobs' : Assoc (Job J X)) × (schedule_all c now jobs ≡ ok jobs')
  unfolding schedule_all ◌>>=◌
  schedule_all-ok c now [] h = ([], refl)
  schedule_all-ok c now ((name, j) ∷ jobs) (hj, h) =
      let (d, p) = schedule-ok c now j hj in
      let (jobs', q) = schedule_all-ok c now jobs h in
      ((name, record j { timers = armed d ∷ j.timers }) ∷ jobs', rw (p, q))

  -- A scheduler that does not run yet, whose jobs all have a rule, starts.
  pub start-ok :
      (c : Cron X) (now : ℤ) (s : Scheduler J X)
      → s.running ≡ false
      → AllRules s
      → (t : Scheduler J X) × (start c now s ≡ ok t)
  unfolding start ◌>>=◌
  start-ok c now s p h =
      let (jobs, q) = schedule_all-ok c now s.jobs h in
      (record s { jobs = jobs; running = true }, rw (p, q))

  put_job-Keeps :
      (c : Cron X) (now : ℤ) (name : Str) (j : Job J X) (s : Scheduler J X)
      → HasRule j
      → AllRules s
      → Keeps (λ t. AllRules t × (t.running ≡ s.running)) (put_job c now name j s)
  unfolding put_job ◌>>=◌
  put_job-Keeps c now name j s hj h = elim (Bool-cases s.running) [
    | inl p ↦
        let (d, q) = schedule-ok c now j hj in
        rw (p, q)
          (AllValues-put HasRule name (record j { timers = armed d ∷ j.timers }) s.jobs h hj, refl)
    | inr p ↦ rw p (AllValues-put HasRule name j s.jobs h hj, refl)
  ]

  pub add-Keeps :
      (c : Cron X) (now : ℤ) (name : Str) (body : J) (interval : ℤ) (s : Scheduler J X)
      → is_positive interval ≡ true
      → AllRules s
      → Keeps (λ t. AllRules t × (t.running ≡ s.running)) (add c now name body interval s)
  unfolding add
  add-Keeps c now name body interval s p h = elim (Option-cases (get name s.jobs)) [
    | inl q ↦ rw (q, add) (put_job-Keeps c now name (interval_job body interval) s (inl p) h)
    | inr (j, q) ↦ rw (q, add) tt
  ]

  pub add_cron-Keeps :
      (c : Cron X) (now : ℤ) (name : Str) (body : J) (expr : Str) (s : Scheduler J X)
      → AllRules s
      → Keeps (λ t. AllRules t × (t.running ≡ s.running)) (add_cron c now name body expr s)
  unfolding add_cron put_cron
  add_cron-Keeps c now name body expr s h = elim (Option-cases (get name s.jobs)) [
    | inl q ↦ elim (Option-cases (c.cron_parse expr)) [
      | inl r ↦ rw (q, r, add_cron, put_cron) tt
      | inr (x, r) ↦
          rw (q, r, add_cron, put_cron)
            (put_job-Keeps c now name (cron_job body x) s (inr (x, refl)) h)
    ]
    | inr (j, q) ↦ rw (q, add_cron) tt
  ]

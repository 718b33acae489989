-- ===== src/Scheduler/Calls.antt =====
-- What the methods of scheduler/scheduler.go do, and what they leave undone.
use aragorn.Prelude.{
  Str, str_eq_iff, str_eq_refl, ℤ, ◌≡◌, ◌≢◌, refl, subst, sym, Bool, true, false, Option, none,
  some, ok, err, ◌>>=◌, >>=-eq-ok, ◌∷◌, arith, Bool-cases, Option-cases, ◌⊎◌, inl, inr, is_positive,
}
use aragorn.Prelude.Assoc.{get, put, get-put}
use aragorn.Scheduler.{
  job_already_exist, invalid_cron_expr, armed, Cron, Job, Scheduler, schedule, put_job, put_cron,
  add, add_cron, interval_job, cron_job,
}

module _ {J X : Type 0} (c : Cron X) where
  -- The job that a scheduler holds for a new job: scheduled where the scheduler runs.
  abbrev pub HoldsNew : Bool → ℤ → Job J X → Option (Job J X) → Type 0
  HoldsNew true now j o = (j' : Job J X) × (schedule c now j ≡ ok j') × (o ≡ some j')
  HoldsNew false now j o = o ≡ some j

  put_job_lem :
      (now : ℤ) (name : Str) (j : Job J X) (s t : Scheduler J X)
      → put_job c now name j s ≡ ok t
      → HoldsNew s.running now j (get name t.jobs)
        × ((k : Str) → k ≢ name → get k t.jobs ≡ get k s.jobs)
        × (t.running ≡ s.running)
        × (t.removed ≡ s.removed)
  unfolding put_job
  put_job_lem now name j s t e = elim (Bool-cases s.running) [
    | inl p ↦
        let (j', scheduled, same) = >>=-eq-ok _ _ (rw (p, put_job) at e) in
        let added : record s { jobs = put name j' s.jobs } ≡ t = cc same in
        subst Added added (
          subst (λ b. HoldsNew b now j (get name (put name j' s.jobs))) (sym p)
              (j', scheduled, found j'),
          others j',
          refl,
          refl,
        )
    | inr p ↦
        let added : record s { jobs = put name j s.jobs } ≡ t = cc (rw (p, put_job) at e) in
        subst Added added (
          subst (λ b. HoldsNew b now j (get name (put name j s.jobs))) (sym p) (found j),
          others j,
          refl,
          refl,
        )
  ]
    where
      Added : Scheduler J X → Type 0
      Added u =
          HoldsNew s.running now j (get name u.jobs)
          × ((k : Str) → k ≢ name → get k u.jobs ≡ get k s.jobs)
          × (u.running ≡ s.running)
          × (u.removed ≡ s.removed)

      found : (j' : Job J X) → get name (put name j' s.jobs) ≡ some j'
      found j' = rw (get-put, str_eq_refl name)

      others : (j' : Job J X) (k : Str) → k ≢ name → get k (put name j' s.jobs) ≡ get k s.jobs
      others j' k h = ground (arith, get-put name k j' s.jobs, str_eq_iff name k)

  -- A job with a positive interval is scheduled after that interval.
  pub schedule_positive :
      (now : ℤ) (j : Job J X)
      → is_positive j.interval ≡ true
      → schedule c now j ≡ ok (record j { timers = armed j.interval ∷ j.timers })
  unfolding schedule
  schedule_positive now j p = ground arith

  can_put :
      (now : ℤ) (name : Str) (j : Job J X) (s : Scheduler J X)
      → (s.running ≡ false) ⊎ (is_positive j.interval ≡ true)
      → (t : Scheduler J X) × (put_job c now name j s ≡ ok t)
  unfolding put_job ◌>>=◌
  can_put now name j s (inl p) = (record s { jobs = put name j s.jobs }, rw p)
  can_put now name j s (inr p) = elim (Bool-cases s.running) [
    | inl r ↦ (
      record s { jobs = put name (record j { timers = armed j.interval ∷ j.timers }) s.jobs },
      rw (r, schedule_positive now j p),
    )
    | inr r ↦ (record s { jobs = put name j s.jobs }, rw r)
  ]

  -- What `Add` does: a name that is taken is refused; a new one is accepted where the scheduler does
  -- not run or the interval is positive; and when it succeeds the name was new, the map holds the new
  -- job under it, scheduled if the scheduler runs, and nothing else has changed.
  pub add_branches :
      (now : ℤ) (name : Str) (body : J) (interval : ℤ) (s : Scheduler J X)
      → ((j : Job J X)
          → get name s.jobs ≡ some j
          → add c now name body interval s ≡ err job_already_exist)
        × (get name s.jobs ≡ none
            → (s.running ≡ false) ⊎ (is_positive interval ≡ true)
            → (t : Scheduler J X) × (add c now name body interval s ≡ ok t))
        × ((t : Scheduler J X)
            → add c now name body interval s ≡ ok t
            → (get name s.jobs ≡ none)
              × HoldsNew s.running now (interval_job body interval) (get name t.jobs)
              × ((k : Str) → k ≢ name → get k t.jobs ≡ get k s.jobs)
              × (t.running ≡ s.running)
              × (t.removed ≡ s.removed))
  unfolding add
  add_branches now name body interval s = (
    λ j p. rw (p, add),
    λ p h. rw (p, add) (can_put now name (interval_job body interval) s h),
    λ t e. elim (Option-cases (get name s.jobs)) [
      | inl p ↦
          let (a, b, d, f) =
            put_job_lem now name (interval_job body interval) s t (rw (p, add) at e) in
          (p, a, b, d, f)
      | inr (j, p) ↦ cc (rw (p, add) at e)
    ],
  )

  -- What `AddCron` does: a name that is taken is refused whatever the expression; an expression that
  -- does not parse is refused under a new name; and when it succeeds the name was new, the expression
  -- has parsed, the map holds the new job under the name, scheduled if the scheduler runs, and nothing
  -- else has changed.
  pub add_cron_branches :
      (now : ℤ) (name : Str) (body : J) (expr : Str) (s : Scheduler J X)
      → ((j : Job J X)
          → get name s.jobs ≡ some j
          → add_cron c now name body expr s ≡ err job_already_exist)
        × (get name s.jobs ≡ none
            → c.cron_parse expr ≡ none
            → add_cron c now name body expr s ≡ err invalid_cron_expr)
        × ((t : Scheduler J X)
            → add_cron c now name body expr s ≡ ok t
            → (x : X) × (get name s.jobs ≡ none)
              × (c.cron_parse expr ≡ some x)
              × HoldsNew s.running now (cron_job body x) (get name t.jobs)
              × ((k : Str) → k ≢ name → get k t.jobs ≡ get k s.jobs)
              × (t.running ≡ s.running)
              × (t.removed ≡ s.removed))
  unfolding add_cron put_cron
  add_cron_branches now name body expr s = (
    λ j p. rw (p, add_cron),
    λ p q. rw (p, q, add_cron),
    λ t e. elim (Option-cases (get name s.jobs)) [
      | inl p ↦ elim (Option-cases (c.cron_parse expr)) [
        | inl q ↦ cc (rw (p, q, add_cron, put_cron) at e)
        | inr (x, q) ↦
            let (a, b, d, f) =
              put_job_lem now name (cron_job body x) s t (rw (p, q, add_cron, put_cron) at e) in
            (x, p, q, a, b, d, f)
      ]
      | inr (j, p) ↦ cc (rw (p, add_cron) at e)
    ],
  )

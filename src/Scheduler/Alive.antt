-- ===== src/Scheduler/Alive.antt =====
-- No job of a scheduler that runs is lost: scheduler/scheduler.go and scheduler/job.go, until `Stop`.
use aragorn.Prelude.{
  Str, ℤ, ◌≡◌, subst, sym, true, Option, none, some, ok, >>=-eq-ok, ◌∷◌, Bool-cases, Option-cases,
  inl, inr,
}
use aragorn.Prelude.Assoc.{
  get, put, remove, AllValues, AllValues-get, AllValues-put, AllValues-remove,
}
use aragorn.Scheduler.{
  Cron, Job, Scheduler, new, cancel, fire, start, put_job, interval_job, cron_job, put_cron, add,
  add_cron, remove_job,
}
use aragorn.Scheduler.Steps.{
  Step, Later, start_step, stop_step, add_step, add_cron_step, remove_step, fire_step, finish_step,
  fire_removed, finish_removed, here, next,
}
use aragorn.Scheduler.Live.{
  JobIsLive, JobIsLiveOnce, fire-JobIsLive, AllValues-once, schedule-JobIsLive,
  schedule_all-JobIsLive, finish-JobIsLive,
}
use aragorn.Scheduler.Invariant.{Reach-IsSingle}

module _ {J X : Type 0} (c : Cron X) where
  -- A step that is not a call of `Stop`.
  abbrev pub IsNoStop : {s t : Scheduler J X} → Step c s t → Type 0
  IsNoStop (start_step now e) = Unit
  IsNoStop (stop_step e) = ⊥
  IsNoStop (add_step now name body interval e) = Unit
  IsNoStop (add_cron_step now name body expr e) = Unit
  IsNoStop (remove_step name e) = Unit
  IsNoStop (fire_step name j i p e) = Unit
  IsNoStop (finish_step now name j j' i p f e) = Unit
  IsNoStop (fire_removed n j i p e) = Unit
  IsNoStop (finish_removed now n j j' i p f e) = Unit

  -- What a scheduler can become without a call of `Stop`.
  pub data NoStop (s : Scheduler J X) : Scheduler J X → Type 0 where
    begin : NoStop s s
    then_step : {t u : Scheduler J X} → NoStop s t → (st : Step c t u) → IsNoStop st → NoStop s u

  -- What a new scheduler can become so.
  abbrev pub Unstopped : Scheduler J X → Type 0
  Unstopped = NoStop new

  pub NoStop-trans : {s t u : Scheduler J X} → NoStop s t → NoStop t u → NoStop s u
  NoStop-trans l begin = l
  NoStop-trans l (then_step m st h) = then_step (NoStop-trans l m) st h

  pub NoStop-Later : {s t : Scheduler J X} → NoStop s t → Later c s t
  NoStop-Later begin = here
  NoStop-Later (then_step l st h) = next (NoStop-Later l) st

  -- Once the scheduler runs, each job of the map has a live timer.
  abbrev Alive : Scheduler J X → Type 0
  Alive s = s.running ≡ true → AllValues JobIsLive s.jobs

  start-Alive : (now : ℤ) (s t : Scheduler J X) → start c now s ≡ ok t → Alive t
  unfolding start
  start-Alive now s t e = elim (Bool-cases s.running) [
    | inl p ↦ cc (rw (p, start) at e)
    | inr p ↦
        let (jobs, scheduled, same) = >>=-eq-ok _ _ (rw (p, start) at e) in
        let started : record s { jobs = jobs; running = true } ≡ t = cc same in
        subst Alive started (λ _. schedule_all-JobIsLive c now s.jobs jobs scheduled)
  ]

  put_job-Alive :
      (now : ℤ) (name : Str) (j : Job J X) (s t : Scheduler J X)
      → Alive s
      → put_job c now name j s ≡ ok t
      → Alive t
  unfolding put_job
  put_job-Alive now name j s t v e = elim (Bool-cases s.running) [
    | inl p ↦
        let (j', scheduled, same) = >>=-eq-ok _ _ (rw (p, put_job) at e) in
        let added : record s { jobs = put name j' s.jobs } ≡ t = cc same in
        subst Alive added (λ h.
          AllValues-put JobIsLive name j' s.jobs (v h) (schedule-JobIsLive c now j j' scheduled))
    | inr p ↦
        let added : record s { jobs = put name j s.jobs } ≡ t = cc (rw (p, put_job) at e) in
        subst Alive added (λ h. cc)
  ]

  add-Alive :
      (now : ℤ) (name : Str) (body : J) (interval : ℤ) (s t : Scheduler J X)
      → Alive s
      → add c now name body interval s ≡ ok t
      → Alive t
  unfolding add
  add-Alive now name body interval s t v e = elim (Option-cases (get name s.jobs)) [
    | inl p ↦ put_job-Alive now name (interval_job body interval) s t v (rw (p, add) at e)
    | inr (j, p) ↦ cc (rw (p, add) at e)
  ]

  put_cron-Alive :
      (now : ℤ) (name : Str) (body : J) (x : Option X) (s t : Scheduler J X)
      → Alive s
      → put_cron c now name body x s ≡ ok t
      → Alive t
  unfolding put_cron
  put_cron-Alive now name body none s t v e = cc e
  put_cron-Alive now name body (some x) s t v e = put_job-Alive now name (cron_job body x) s t v e

  add_cron-Alive :
      (now : ℤ) (name : Str) (body : J) (expr : Str) (s t : Scheduler J X)
      → Alive s
      → add_cron c now name body expr s ≡ ok t
      → Alive t
  unfolding add_cron
  add_cron-Alive now name body expr s t v e = elim (Option-cases (get name s.jobs)) [
    | inl p ↦ put_cron-Alive now name body (c.cron_parse expr) s t v (rw (p, add_cron) at e)
    | inr (j, p) ↦ cc (rw (p, add_cron) at e)
  ]

  remove-Alive : (name : Str) (s t : Scheduler J X) → Alive s → remove_job name s ≡ ok t → Alive t
  unfolding remove_job
  remove-Alive name s t v e = elim (Option-cases (get name s.jobs)) [
    | inl p ↦ cc (rw (p, remove_job) at e)
    | inr (j, p) ↦
        let gone : record s { jobs = remove name s.jobs; removed = cancel j ∷ s.removed } ≡ t =
          cc (rw (p, remove_job) at e) in
        subst Alive gone (λ h. AllValues-remove JobIsLive name s.jobs (v h))
  ]

  -- A job of the map that stays live keeps the scheduler so.
  put-Alive :
      (name : Str) (j j' : Job J X) (s t : Scheduler J X)
      → get name s.jobs ≡ some j
      → t ≡ record s { jobs = put name j' s.jobs }
      → (JobIsLive j → JobIsLive j')
      → Alive s
      → Alive t
  put-Alive name j j' s t p e keeps v = subst Alive (sym e) (λ h.
      AllValues-put JobIsLive name j' s.jobs (v h)
        (keeps (AllValues-get JobIsLive name j s.jobs (v h) p)))

  Step-Alive : {s t : Scheduler J X} → Alive s → (st : Step c s t) → IsNoStop st → Alive t
  Step-Alive {s} {t} v (start_step now e) go = start-Alive now s t e
  Step-Alive {s} {t} v (stop_step e) go = absurd go
  Step-Alive {s} {t} v (add_step now name body interval e) go =
      add-Alive now name body interval s t v e
  Step-Alive {s} {t} v (add_cron_step now name body expr e) go =
      add_cron-Alive now name body expr s t v e
  Step-Alive {s} {t} v (remove_step name e) go = remove-Alive name s t v e
  Step-Alive {s} {t} v (fire_step name j i p e) go =
      put-Alive name j (fire i j) s t p e (fire-JobIsLive i j) v
  Step-Alive {s} {t} v (finish_step now name j j' i p f e) go =
      put-Alive name j j' s t p e (λ h. finish-JobIsLive c now i j j' h f) v
  Step-Alive {s} {t} v (fire_removed n j i p e) go = subst Alive (sym e) v
  Step-Alive {s} {t} v (finish_removed now n j j' i p f e) go = subst Alive (sym e) v

  Unstopped-Alive : {s : Scheduler J X} → Unstopped s → Alive s
  Unstopped-Alive begin = λ h. cc
  Unstopped-Alive (then_step u st h) = Step-Alive (Unstopped-Alive u) st h

  -- As long as `Stop` is not called, once the scheduler runs each job of the map has exactly one timer
  -- that is armed or executes, its newest: no job is forgotten, whatever calls, timers and runs of jobs
  -- come in whatever order.
  pub Unstopped-IsLiveOnce :
      {s : Scheduler J X} → Unstopped s → s.running ≡ true → AllValues JobIsLiveOnce s.jobs
  Unstopped-IsLiveOnce {s} u h =
      AllValues-once s.jobs (Unstopped-Alive u h) (Reach-IsSingle c (NoStop-Later u)).0

-- ===== src/Scheduler/Invariant.antt =====
-- The invariant of a scheduler, kept by every step of it.
use aragorn.Prelude.{
  Str, ℕ, ℤ, ◌≡◌, refl, subst, sym, true, false, Option, none, some, ok, >>=-eq-ok, [], ◌∷◌, set,
  All, All-get_elem?, All-set, Bool-cases, Option-cases, inl, inr,
}
use aragorn.Prelude.Assoc.{
  get, put, remove, AllValues, AllValues-get, AllValues-put, AllValues-remove,
}
use aragorn.Scheduler.{
  Cron, Job, Scheduler, new, cancel, fire, finish, start, stop, put_job, cancel_all, interval_job,
  cron_job, fire_at, put_cron, add, add_cron, remove_job,
}
use aragorn.Scheduler.Steps.{
  Step, Reach, start_step, stop_step, add_step, add_cron_step, remove_step, fire_step, finish_step,
  fire_removed, finish_removed, here, next,
}
use aragorn.Scheduler.Single.{
  JobIsSingle, HasNoTimers, fire-single, cancel-single, schedule-single, finish-single,
  schedule_all-single, cancel_all-single,
}

module _ {J X : Type 0} (c : Cron X) where
  -- What holds of a scheduler between two steps.
  pub record Inv (s : Scheduler J X) : Type 0 where
    pub jobs_single : AllValues JobIsSingle s.jobs
    pub removed_single : All JobIsSingle s.removed
    pub idle : s.running ≡ false → AllValues HasNoTimers s.jobs

  start-Inv : (now : ℤ) (s t : Scheduler J X) → Inv s → start c now s ≡ ok t → Inv t
  unfolding start
  start-Inv now s t v e = elim (Bool-cases s.running) [
    | inl p ↦ cc (rw (p, start) at e)
    | inr p ↦
        let (jobs, scheduled, same) = >>=-eq-ok _ _ (rw (p, start) at e) in
        let started : record s { jobs = jobs; running = true } ≡ t = cc same in
        subst Inv started (record {
          jobs_single = schedule_all-single c now s.jobs jobs (v.idle p) scheduled;
          removed_single = v.removed_single;
          idle = λ h. cc;
        })
  ]

  stop-Inv : (s t : Scheduler J X) → Inv s → stop s ≡ ok t → Inv t
  unfolding stop
  stop-Inv s t v e = elim (Bool-cases s.running) [
    | inr p ↦ cc (rw (p, stop) at e)
    | inl p ↦
        let stopped : record s { jobs = cancel_all s.jobs } ≡ t = cc (rw (p, stop) at e) in
        subst Inv stopped (record {
          jobs_single = cancel_all-single s.jobs v.jobs_single;
          removed_single = v.removed_single;
          idle = λ h. cc (p);
        })
  ]

  put_job-Inv :
      (now : ℤ) (name : Str) (j : Job J X) (s t : Scheduler J X)
      → j.timers ≡ []
      → Inv s
      → put_job c now name j s ≡ ok t
      → Inv t
  unfolding put_job
  put_job-Inv now name j s t fresh v e = elim (Bool-cases s.running) [
    | inl p ↦
        let (j', scheduled, same) = >>=-eq-ok _ _ (rw (p, put_job) at e) in
        let added : record s { jobs = put name j' s.jobs } ≡ t = cc same in
        subst Inv added (record {
          jobs_single =
              AllValues-put JobIsSingle name j' s.jobs v.jobs_single
                (schedule-single c now j j' (rw fresh tt) scheduled);
          removed_single = v.removed_single;
          idle = λ h. cc (p);
        })
    | inr p ↦
        let added : record s { jobs = put name j s.jobs } ≡ t = cc (rw (p, put_job) at e) in
        subst Inv added (record {
          jobs_single = AllValues-put JobIsSingle name j s.jobs v.jobs_single (rw fresh tt);
          removed_single = v.removed_single;
          idle = λ h. AllValues-put HasNoTimers name j s.jobs (v.idle h) fresh;
        })
  ]

  add-Inv :
      (now : ℤ) (name : Str) (body : J) (interval : ℤ) (s t : Scheduler J X)
      → Inv s
      → add c now name body interval s ≡ ok t
      → Inv t
  unfolding add
  add-Inv now name body interval s t v e = elim (Option-cases (get name s.jobs)) [
    | inl p ↦ put_job-Inv now name (interval_job body interval) s t refl v (rw (p, add) at e)
    | inr (j, p) ↦ cc (rw (p, add) at e)
  ]

  put_cron-Inv :
      (now : ℤ) (name : Str) (body : J) (x : Option X) (s t : Scheduler J X)
      → Inv s
      → put_cron c now name body x s ≡ ok t
      → Inv t
  unfolding put_cron
  put_cron-Inv now name body none s t v e = cc e
  put_cron-Inv now name body (some x) s t v e = put_job-Inv now name (cron_job body x) s t refl v e

  add_cron-Inv :
      (now : ℤ) (name : Str) (body : J) (expr : Str) (s t : Scheduler J X)
      → Inv s
      → add_cron c now name body expr s ≡ ok t
      → Inv t
  unfolding add_cron
  add_cron-Inv now name body expr s t v e = elim (Option-cases (get name s.jobs)) [
    | inl p ↦ put_cron-Inv now name body (c.cron_parse expr) s t v (rw (p, add_cron) at e)
    | inr (j, p) ↦ cc (rw (p, add_cron) at e)
  ]

  remove-Inv : (name : Str) (s t : Scheduler J X) → Inv s → remove_job name s ≡ ok t → Inv t
  unfolding remove_job
  remove-Inv name s t v e = elim (Option-cases (get name s.jobs)) [
    | inl p ↦ cc (rw (p, remove_job) at e)
    | inr (j, p) ↦
        let gone : record s { jobs = remove name s.jobs; removed = cancel j ∷ s.removed } ≡ t =
          cc (rw (p, remove_job) at e) in
        subst Inv gone (record {
          jobs_single = AllValues-remove JobIsSingle name s.jobs v.jobs_single;
          removed_single = (
            cancel-single j (AllValues-get JobIsSingle name j s.jobs v.jobs_single p),
            v.removed_single,
          );
          idle = λ h. AllValues-remove HasNoTimers name s.jobs (v.idle h);
        })
  ]

  fire-HasNoTimers : (i : ℕ) (j : Job J X) → HasNoTimers j → HasNoTimers (fire i j)
  unfolding fire fire_at
  fire-HasNoTimers i j h = rw (h, fire_at)

  finish-HasNoTimers :
      (now : ℤ) (i : ℕ) (j j' : Job J X) → HasNoTimers j → finish c now i j ≡ ok j' → HasNoTimers j'
  unfolding finish
  finish-HasNoTimers now i j j' h e =
      let same : j ≡ j' = cc (rw (h, finish) at e) in subst HasNoTimers same h

  -- A job of the map that keeps one live timer, and none where it had none, keeps the invariant.
  put-Inv :
      (name : Str) (j j' : Job J X) (s t : Scheduler J X)
      → get name s.jobs ≡ some j
      → t ≡ record s { jobs = put name j' s.jobs }
      → JobIsSingle j'
      → (HasNoTimers j → HasNoTimers j')
      → Inv s
      → Inv t
  put-Inv name j j' s t p e single bare v = subst Inv (sym e) (record {
    jobs_single = AllValues-put JobIsSingle name j' s.jobs v.jobs_single single;
    removed_single = v.removed_single;
    idle = λ h.
        AllValues-put HasNoTimers name j' s.jobs (v.idle h)
          (bare (AllValues-get HasNoTimers name j s.jobs (v.idle h) p));
  })

  set-Inv :
      (n : ℕ) (j' : Job J X) (s t : Scheduler J X)
      → t ≡ record s { removed = set s.removed n j' }
      → JobIsSingle j'
      → Inv s
      → Inv t
  set-Inv n j' s t e single v = subst Inv (sym e) (record {
    jobs_single = v.jobs_single;
    removed_single = All-set JobIsSingle s.removed n j' v.removed_single single;
    idle = v.idle;
  })

  -- Every step keeps the invariant.
  Step-Inv : {s t : Scheduler J X} → Inv s → Step c s t → Inv t
  Step-Inv {s} {t} v (start_step now e) = start-Inv now s t v e
  Step-Inv {s} {t} v (stop_step e) = stop-Inv s t v e
  Step-Inv {s} {t} v (add_step now name body interval e) = add-Inv now name body interval s t v e
  Step-Inv {s} {t} v (add_cron_step now name body expr e) = add_cron-Inv now name body expr s t v e
  Step-Inv {s} {t} v (remove_step name e) = remove-Inv name s t v e
  Step-Inv {s} {t} v (fire_step name j i p e) =
      put-Inv name j (fire i j) s t p e
        (fire-single i j (AllValues-get JobIsSingle name j s.jobs v.jobs_single p))
        (fire-HasNoTimers i j) v
  Step-Inv {s} {t} v (finish_step now name j j' i p f e) =
      put-Inv name j j' s t p e
        (finish-single c now i j j' (AllValues-get JobIsSingle name j s.jobs v.jobs_single p) f)
        (λ h. finish-HasNoTimers now i j j' h f) v
  Step-Inv {s} {t} v (fire_removed n j i p e) =
      set-Inv n (fire i j) s t e
        (fire-single i j (All-get_elem? JobIsSingle s.removed n j v.removed_single p)) v
  Step-Inv {s} {t} v (finish_removed now n j j' i p f e) =
      set-Inv n j' s t e
        (finish-single c now i j j' (All-get_elem? JobIsSingle s.removed n j v.removed_single p) f)
        v

  new-Inv : Inv new
  new-Inv = record { jobs_single = tt; removed_single = tt; idle = λ h. tt }

  Reach-Inv : {s : Scheduler J X} → Reach c s → Inv s
  Reach-Inv here = new-Inv
  Reach-Inv (next r st) = Step-Inv (Reach-Inv r) st

  -- Whatever happens to a new scheduler, of the timers that were made for a job, also for one that was
  -- removed, all but the newest are dead: no job is run twice at once, or by two chains of timers.
  pub Reach-IsSingle :
      {s : Scheduler J X} → Reach c s → AllValues JobIsSingle s.jobs × All JobIsSingle s.removed
  Reach-IsSingle r = let v = Reach-Inv r in (v.jobs_single, v.removed_single)

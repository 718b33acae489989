-- ===== src/Scheduler/Stopping.antt =====
-- What stopping a scheduler, or removing a job, does to the timers.
use aragorn.Prelude.{
  Str, str_eq, ℤ, ◌≡◌, refl, true, some, ok, err, ◌>>=◌, List, [], ◌∷◌, All, arith, Bool-cases, inl,
  inr, ap,
}
use aragorn.Prelude.Assoc.{Assoc, get, put, AllValues-get}
use aragorn.Scheduler.{
  already_started, Timer, armed, executing, stopped, returned, Cron, Job, Scheduler, stop_newest,
  return_at, cancel, finish, cancel_all, start, stop, remove_job,
}
use aragorn.Scheduler.Steps.{
  Step, Later, Reach, start_step, stop_step, add_step, add_cron_step, remove_step, fire_step,
  finish_step, fire_removed, finish_removed, here, next,
}
use aragorn.Scheduler.Calls.{add_branches, add_cron_branches}
use aragorn.Scheduler.Rules.{HasRule, schedule-ok}
use aragorn.Scheduler.Single.{AllDead, IsSingle, JobIsSingle}
use aragorn.Scheduler.Invariant.{Reach-IsSingle}

-- No timer executes.
abbrev pub IsIdle : Timer → Type 0
IsIdle (armed d) = Unit
IsIdle executing = ⊥
IsIdle stopped = Unit
IsIdle returned = Unit

stop_newest-AllDead : (ts : List Timer) → IsSingle ts → All IsIdle ts → AllDead (stop_newest ts)
unfolding stop_newest
stop_newest-AllDead [] h idle = tt
stop_newest-AllDead (armed d ∷ ts) h idle = (tt, h)
stop_newest-AllDead (executing ∷ ts) h idle = absurd idle.0
stop_newest-AllDead (stopped ∷ ts) h idle = (tt, h)
stop_newest-AllDead (returned ∷ ts) h idle = (tt, h)

module _ {J X : Type 0} where
  stop-ok :
      (s t : Scheduler J X)
      → stop s ≡ ok t
      → (s.running ≡ true) × (t ≡ record s { jobs = cancel_all s.jobs })
  unfolding stop
  stop-ok s t e = elim (Bool-cases s.running) [
    | inl p ↦ (p, cc (rw (p, stop) at e))
    | inr p ↦ cc (rw (p, stop) at e)
  ]

  get-cancel_all :
      (name : Str) (jobs : Assoc (Job J X)) (j : Job J X)
      → get name jobs ≡ some j
      → get name (cancel_all jobs) ≡ some (cancel j)
  unfolding cancel_all get
  get-cancel_all name [] j e = cc
  get-cancel_all name ((k, i) ∷ jobs) j e = elim (Bool-cases (str_eq k name)) [
    | inl p ↦ rw p (ap some (cancel_of i j (rw (p, get) at e)))
    | inr p ↦ rw p (get-cancel_all name jobs j (rw (p, get) at e))
  ]
    where
      cancel_of : (i j : Job J X) → some i ≡ some j → cancel i ≡ cancel j
      cancel_of i j e = let same : i ≡ j = cc e in ap cancel same

module _ {J X : Type 0} (c : Cron X) where
  -- When `Stop` succeeds, a job of the map none of whose timers executes then has afterwards only
  -- timers that never fire, and does not execute. The end of a run is one step here.
  pub stop-unarmed :
      (s t : Scheduler J X) (name : Str) (j : Job J X)
      → Reach c s
      → get name s.jobs ≡ some j
      → All IsIdle j.timers
      → stop s ≡ ok t
      → (get name t.jobs ≡ some (cancel j)) × AllDead (cancel j).timers
  unfolding cancel
  stop-unarmed s t name j r found idle e =
      let (p, same) = stop-ok s t e in
      let single = AllValues-get JobIsSingle name j s.jobs (Reach-IsSingle c r).0 found in
      (rw same (get-cancel_all name s.jobs j found), stop_newest-AllDead j.timers single idle)

  -- Once a scheduler runs no step makes it one that does not.
  Step-running : {s t : Scheduler J X} → s.running ≡ true → Step c s t → t.running ≡ true
  unfolding start remove_job ◌>>=◌
  Step-running {s} {t} r (start_step now e) = cc (rw (r, start) at e)
  Step-running {s} {t} r (stop_step e) = let (p, same) = stop-ok s t e in rw same r
  Step-running {s} {t} r (add_step now name body interval e) =
      let (a, b, d) = add_branches c now name body interval s in
      let (n, h, o, same, m) = d t e in rw same r
  Step-running {s} {t} r (add_cron_step now name body expr e) =
      let (a, b, d) = add_cron_branches c now name body expr s in
      let (x, n, q, h, o, same, m) = d t e in rw same r
  Step-running {s} {t} r (remove_step name e) = ground arith
  Step-running r (fire_step name j i p e) = rw e r
  Step-running r (finish_step now name j j' i p f e) = rw e r
  Step-running r (fire_removed n j i p e) = rw e r
  Step-running r (finish_removed now n j j' i p f e) = rw e r

  pub Later-running : {s t : Scheduler J X} → s.running ≡ true → Later c s t → t.running ≡ true
  Later-running r here = r
  Later-running r (next l st) = Step-running (Later-running r l) st

  -- A scheduler that was stopped cannot be started again: `Stop` leaves it marked as running, so
  -- whatever happens afterwards `Start` answers that it has started already.
  pub start_after_stop :
      (now : ℤ) (s : Scheduler J X) {t u : Scheduler J X}
      → stop s ≡ ok t
      → Later c t u
      → start c now u ≡ err already_started
  unfolding start
  start_after_stop now s {t} {u} e l =
      let (p, same) = stop-ok s t e in
      let still : t.running ≡ true = rw same p in rw (Later-running still l)

  -- A job that executes, and has a rule for its next run, arms a new timer when it ends, after a cancel
  -- too.
  finish_armed :
      (now : ℤ) (j : Job J X) (ts : List Timer)
      → j.timers ≡ executing ∷ ts
      → HasRule j
      → (d : ℤ) × (finish c now 0 (cancel j) ≡ ok (record j { timers = armed d ∷ returned ∷ ts }))
  unfolding finish cancel stop_newest return_at
  finish_armed now j ts e h =
      let (d, p) = schedule-ok c now (record j { timers = returned ∷ ts }) h in
      (d, rw (e, stop_newest, return_at) p)

  -- A job with a positive interval or a cron expression that executes when the scheduler is stopped
  -- runs on: whenever its run ends, it is scheduled again, and that is a step of the stopped scheduler.
  pub rearmed_after_stop :
      (now : ℤ) (name : Str) (j : Job J X) (ts : List Timer) (s t : Scheduler J X)
      → get name s.jobs ≡ some j
      → j.timers ≡ executing ∷ ts
      → HasRule j
      → stop s ≡ ok t
      → (get name t.jobs ≡ some (cancel j))
        × ((d : ℤ) × (finish c now 0 (cancel j)
              ≡ ok (record j { timers = armed d ∷ returned ∷ ts }))
            × Step c t (record t {
              jobs = put name (record j { timers = armed d ∷ returned ∷ ts }) t.jobs;
            }))
  rearmed_after_stop now name j ts s t found timers h e =
      let (p, same) = stop-ok s t e in
      let there : get name t.jobs ≡ some (cancel j) =
        rw same (get-cancel_all name s.jobs j found) in
      let (d, ends) = finish_armed now j ts timers h in
      (there, (d, ends, finish_step now name (cancel j) _ 0 there ends refl))

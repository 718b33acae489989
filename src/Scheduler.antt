-- ===== src/Scheduler.antt =====
-- Package scheduler: scheduler/scheduler.go and scheduler/job.go. Each method holds the mutex while it
-- runs, so methods are steps; what the timers do in between are steps of their own. At the end of a run
-- the source makes the new timer and then writes it to the job, without the mutex: here that is one
-- step, so what another method would see between the two is left out.
pub mod Steps
pub mod Single
pub mod Invariant
pub mod Calls
pub mod Stopping
pub mod Rules
pub mod Live
pub mod Alive
pub mod Waiting
pub mod Ticking
mod Tests
use aragorn.Prelude.{
  Str, ℕ, zero, suc, ℤ, pos, ◌-ℤ◌, is_positive, Bool, true, false, Option, none, some, Outcome, ok,
  err, panic, ◌>>=◌, List, [], ◌∷◌, get_elem?, if◌then◌else◌,
}
use aragorn.Prelude.Assoc.{Assoc, get, put, remove}
use aragorn.Prelude.ParseInt.{clamp}

pub data Error : Type 0 where
  invalid_cron_expr job_already_exist job_not_found already_started not_running : Error

-- A timer that time.AfterFunc made: it waits for a duration, its function executes, it was stopped
-- before it fired, or its function has returned.
pub data Timer : Type 0 where
  armed : ℤ → Timer
  executing stopped returned : Timer

-- What the program asks of package cronexpr: `cron_parse` finds nothing where it refuses the text, and
-- `next` is the next time after a time.
pub record Cron (X : Type 0) : Type 0 where
  pub cron_parse : Str → Option X
  pub next : X → ℤ → ℤ

-- `timers` are all the timers that were made for the job, the newest first: `job.timer` is the first,
-- and nil where there is none.
pub record Job (J X : Type 0) : Type 0 where
  pub body : J
  pub timers : List Timer
  pub interval : ℤ
  pub cron_expr : Option X

-- `removed` are the jobs that the map no longer holds; the functions of their timers still refer to
-- them.
pub record Scheduler (J X : Type 0) : Type 0 where
  pub jobs : Assoc (Job J X)
  pub running : Bool
  pub removed : List (Job J X)

-- Stopping a timer that has fired does nothing.
abbrev stop_timer : Timer → Timer
stop_timer (armed d) = stopped
stop_timer t = t

stop_newest : List Timer → List Timer
stop_newest [] = []
stop_newest (t ∷ ts) = stop_timer t ∷ ts

-- The function of an armed timer starts to execute.
abbrev fire_timer : Timer → Timer
fire_timer (armed d) = executing
fire_timer t = t

fire_at : ℕ → List Timer → List Timer
fire_at i [] = []
fire_at zero (t ∷ ts) = fire_timer t ∷ ts
fire_at (suc i) (t ∷ ts) = t ∷ fire_at i ts

return_at : ℕ → List Timer → List Timer
return_at i [] = []
return_at zero (t ∷ ts) = returned ∷ ts
return_at (suc i) (t ∷ ts) = t ∷ return_at i ts

abbrev is_executing : Option Timer → Bool
is_executing (some executing) = true
is_executing _ = false

module _ {J X : Type 0} where
  abbrev pub new : Scheduler J X
  new = record { jobs = []; running = false; removed = [] }

  -- `job.timeUntilNextRun` at a time; `none` is the use of a cron expression that is nil. The source
  -- reads the clock twice for a cron expression: here a step happens at one time. `time.Until` keeps to
  -- 64 bits.
  unfoldable pub time_until_next_run : Cron X → ℤ → Job J X → Option ℤ
  unfolding ◌-ℤ◌
  time_until_next_run c now j =
      if is_positive j.interval
      then some j.interval
      else elim j.cron_expr [ none ↦ none | some x ↦ some (clamp (c.next x now -ℤ now)) ]

  -- `job.schedule`
  unfoldable pub schedule : Cron X → ℤ → Job J X → Outcome Error (Job J X)
  unfolding time_until_next_run
  schedule c now j = elim (time_until_next_run c now j) [
    | none ↦ panic
    | some d ↦ ok (record j { timers = armed d ∷ j.timers })
  ]

  -- `job.cancel`
  unfoldable pub cancel : Job J X → Job J X
  unfolding stop_newest
  cancel j = record j { timers = stop_newest j.timers }

  -- The timer `i` of a job fires.
  unfoldable pub fire : ℕ → Job J X → Job J X
  unfolding fire_at
  fire i j = record j { timers = fire_at i j.timers }

  -- The function of the timer `i` ends its run of the job, and schedules the job again.
  unfoldable pub finish : Cron X → ℤ → ℕ → Job J X → Outcome Error (Job J X)
  unfolding schedule return_at
  finish c now i j =
      if is_executing (get_elem? j.timers i)
      then schedule c now (record j { timers = return_at i j.timers })
      else ok j

  -- `for _, j := range s.jobs { j.schedule() }`
  unfoldable pub schedule_all : Cron X → ℤ → Assoc (Job J X) → Outcome Error (Assoc (Job J X))
  unfolding schedule
  schedule_all c now [] = ok []
  schedule_all c now ((name, j) ∷ jobs) = do
    j' ← schedule c now j
    jobs' ← schedule_all c now jobs
    ok ((name, j') ∷ jobs')

  unfoldable pub cancel_all : Assoc (Job J X) → Assoc (Job J X)
  unfolding cancel
  cancel_all [] = []
  cancel_all ((name, j) ∷ jobs) = (name, cancel j) ∷ cancel_all jobs

  -- `Start`. A method that returns an error has changed nothing.
  unfoldable pub start : Cron X → ℤ → Scheduler J X → Outcome Error (Scheduler J X)
  unfolding schedule_all
  start c now s =
      if s.running
      then err already_started
      else (do jobs ← schedule_all c now s.jobs; ok (record s { jobs = jobs; running = true }))

  -- `Stop`. It leaves `running` as it is.
  unfoldable pub stop : Scheduler J X → Outcome Error (Scheduler J X)
  unfolding cancel_all
  stop s = if s.running then ok (record s { jobs = cancel_all s.jobs }) else err not_running

  -- The end of `Add` and `AddCron`: the new job is put in the map, and scheduled if the scheduler runs.
  put_job : Cron X → ℤ → Str → Job J X → Scheduler J X → Outcome Error (Scheduler J X)
  unfolding schedule
  put_job c now name j s =
      if s.running
      then (do j' ← schedule c now j; ok (record s { jobs = put name j' s.jobs }))
      else ok (record s { jobs = put name j s.jobs })

  -- The jobs that `Add` and `AddCron` make.
  abbrev pub interval_job : J → ℤ → Job J X
  interval_job body interval = record {
    body = body;
    timers = [];
    interval = interval;
    cron_expr = none;
  }

  abbrev pub cron_job : J → X → Job J X
  cron_job body x = record { body = body; timers = []; interval = pos 0; cron_expr = some x }

  -- `Add`
  unfoldable pub add : Cron X → ℤ → Str → J → ℤ → Scheduler J X → Outcome Error (Scheduler J X)
  unfolding put_job
  add c now name body interval s = elim (get name s.jobs) [
    | some _ ↦ err job_already_exist
    | none ↦ put_job c now name (interval_job body interval) s
  ]

  -- The end of `AddCron`, behind the parser of cron expressions.
  put_cron : Cron X → ℤ → Str → J → Option X → Scheduler J X → Outcome Error (Scheduler J X)
  unfolding put_job
  put_cron c now name body none s = err invalid_cron_expr
  put_cron c now name body (some x) s = put_job c now name (cron_job body x) s

  -- `AddCron`
  unfoldable pub add_cron :
      Cron X → ℤ → Str → J → Str → Scheduler J X → Outcome Error (Scheduler J X)
  unfolding put_cron
  add_cron c now name body expr s = elim (get name s.jobs) [
    | some _ ↦ err job_already_exist
    | none ↦ put_cron c now name body (c.cron_parse expr) s
  ]

  -- `Remove`
  unfoldable pub remove_job : Str → Scheduler J X → Outcome Error (Scheduler J X)
  unfolding cancel
  remove_job name s = elim (get name s.jobs) [
    | none ↦ err job_not_found
    | some j ↦ ok (record s { jobs = remove name s.jobs; removed = cancel j ∷ s.removed })
  ]

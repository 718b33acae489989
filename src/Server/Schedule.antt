-- ===== src/Server/Schedule.antt =====
-- server/server.go: the server puts suites on a scheduler and reports their runs.
pub mod Safe
pub mod Armed
pub mod Accepts
pub mod Going
use aragorn.Prelude.{
  Str, str_eq, ℤ, is_positive, Option, none, some, Outcome, ok, err, panic, ◌>>=◌, List, [], ◌∷◌,
  if◌then◌else◌,
}
use aragorn.Testsuite.{Env}
use aragorn.Notifier.{Report, Notifier}
use aragorn.Scheduler
use aragorn.Scheduler.{Scheduler, Cron}
use aragorn.Server.Suite.{Suite, run}

-- `suiteRunner`
pub record SuiteRunner (W : Type 0) : Type 0 where
  pub suite : Suite W
  pub notifier : Option (Notifier W)

pub record Server (W X : Type 0) : Type 0 where
  pub sch : Scheduler (SuiteRunner W) X
  pub notifier : Option (Notifier W)

-- Why a suite could not be scheduled.
pub data Cause : Type 0 where
  no_scheduling_rule : Cause
  refused : Scheduler.Error → Cause

-- The error of `AddSuite`: the path of the suite, and the cause.
pub record ScheduleError : Type 0 where
  pub path : Str
  pub cause : Cause

-- `suiteRunner.Run`
unfoldable pub run_suite : {W : Type 0} → Env W → SuiteRunner W → W → W
run_suite e sr w =
    let (r, w') = run e sr.suite w in elim sr.notifier [ none ↦ w' | some n ↦ n r w' ]

module _ {W X : Type 0} where
  -- `New`
  abbrev pub new_server : Option (Notifier W) → Server W X
  new_server n = record { sch = Scheduler.new; notifier = n }

  -- The result of a scheduler's method as one of `AddSuite`.
  pub adopt :
      Str
      → Server W X
      → Outcome Scheduler.Error (Scheduler (SuiteRunner W) X)
      → Outcome ScheduleError (Server W X)
  adopt path s (ok sch) = ok (record s { sch = sch })
  adopt path s (err e) = err (record { path = path; cause = refused e })
  adopt path s panic = panic

  -- `AddSuite`, with `scheduleSuite`
  unfoldable pub add_suite : Cron X → ℤ → Suite W → Server W X → Outcome ScheduleError (Server W X)
  unfolding adopt
  add_suite c now suite s =
      let sr : SuiteRunner W = record { suite = suite; notifier = s.notifier } in
      if str_eq suite.run_cron []
      then (if is_positive suite.run_every
          then adopt suite.path s (Scheduler.add c now suite.path sr suite.run_every s.sch)
          else err (record { path = suite.path; cause = no_scheduling_rule }))
      else adopt suite.path s (Scheduler.add_cron c now suite.path sr suite.run_cron s.sch)

  -- The loop of `runCommand.Run` of cmd/aragorn/run.go.
  unfoldable pub add_suites :
      Cron X → ℤ → List (Suite W) → Server W X → Outcome ScheduleError (Server W X)
  unfolding add_suite
  add_suites c now [] s = ok s
  add_suites c now (suite ∷ suites) s = do s' ← add_suite c now suite s; add_suites c now suites s'

  with_scheduler :
      Server W X
      → Outcome Scheduler.Error (Scheduler (SuiteRunner W) X)
      → Outcome Scheduler.Error (Server W X)
  with_scheduler s o = do sch ← o; ok (record s { sch = sch })

  -- `Server.Start`
  unfoldable pub start_server : Cron X → ℤ → Server W X → Outcome Scheduler.Error (Server W X)
  unfolding with_scheduler
  start_server c now s = with_scheduler s (Scheduler.start c now s.sch)

  -- `Server.Stop`, as far as the scheduler goes
  unfoldable pub stop_server : Server W X → Outcome Scheduler.Error (Server W X)
  unfolding with_scheduler
  stop_server s = with_scheduler s (Scheduler.stop s.sch)

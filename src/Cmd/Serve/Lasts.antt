-- ===== src/Cmd/Serve/Lasts.antt =====
-- What becomes of the server that `runCommand.Run` of cmd/aragorn/run.go has started, until it is stopped.
use aragorn.Prelude.{Str, ℤ, ◌≡◌, ok}
use aragorn.Prelude.Assoc.{AllValues}
use aragorn.Scheduler.{Scheduler, Cron}
use aragorn.Scheduler.Live.{JobIsLiveOnce}
use aragorn.Scheduler.Alive.{NoStop, NoStop-trans, NoStop-Later, Unstopped-IsLiveOnce}
use aragorn.Scheduler.Stopping.{Later-running}
use aragorn.Scheduler.Ticking.{Ticks, Ticks-NoStop, Ticks-bodies}
use aragorn.Server.Schedule.{Server, SuiteRunner, new_server}
use aragorn.Server.Schedule.Armed.{Holds, AllArmed-bodies}
use aragorn.Server.Schedule.Going.{add_suites-NoStop, start_server-NoStop}
use aragorn.Cmd.Program.{Program}
use aragorn.Cmd.Serve.{set_up_server}
use aragorn.Cmd.Serve.Starts.{Serves, steps, set_up_server-Serves}

module _ {C N W X : Type 0} (p : Program C N W) (c : Cron X) (now later : ℤ) (config : Str) where
  -- What holds of the jobs of the map, whatever calls but `Stop` there are as well.
  set_up_server-JobIsLiveOnce :
      (s : Server W X) (u : Scheduler (SuiteRunner W) X)
      → set_up_server p c now later config ≡ ok s
      → NoStop c s.sch u
      → AllValues JobIsLiveOnce u.jobs
  set_up_server-JobIsLiveOnce s u h l =
      let (r, (t, given, up)) = steps p c now later config s h in
      let added = add_suites-NoStop c now r.suites (new_server r.notifier) t given in
      let started = start_server-NoStop c later t s up in
      let running = (set_up_server-Serves p c now later config s h).running in
      Unstopped-IsLiveOnce c (NoStop-trans c (NoStop-trans c added started) l)
        (Later-running c running (NoStop-Later c l))

  -- From the start of the server of `run`, after which it calls no method of the scheduler but `Stop`,
  -- whatever timers fire and runs end in whatever order until then, there is still one job for each entry
  -- of the configuration: it is kept under the path of the suite that was loaded from the entry, in the
  -- order of the entries, it runs that suite and reports to the notifier of the configuration, and
  -- exactly one of its timers is armed or executes.
  pub set_up_server-IsLiveOnce :
      (s : Server W X) (u : Scheduler (SuiteRunner W) X)
      → set_up_server p c now later config ≡ ok s
      → Ticks c s.sch u
      → (r : Serves p c now later config s) × Holds r.notifier JobIsLiveOnce r.suites u.jobs
  set_up_server-IsLiveOnce s u h l =
      let r = set_up_server-Serves p c now later config s h in
      (
        r,
        AllArmed-bodies r.notifier JobIsLiveOnce r.suites s.sch.jobs u.jobs r.jobs
            (Ticks-bodies c l) (set_up_server-JobIsLiveOnce s u h (Ticks-NoStop c l)),
      )

-- ===== src/Cmd/Serve.antt =====
-- cmd/aragorn/run.go: the suites of a configuration on the scheduler of a server, until a signal.
pub mod Starts
pub mod Lasts
use aragorn.Prelude.{
  Str, codes, ℤ, false, Option, none, some, Outcome, ok, err, panic, ◌>>=◌, List, [], ◌∷◌, ◌++◌,
}
use aragorn.Scheduler
use aragorn.Scheduler.{Cron}
use aragorn.Server.Load.{gen_suites}
use aragorn.Server.Config.{new_config_from_file}
use aragorn.Server.Notifiers.{gen_notifier}
use aragorn.Server.Schedule.{
  Server, Cause, no_scheduling_rule, refused, ScheduleError, new_server, add_suites, start_server,
  stop_server,
}
use aragorn.Cmd.Usage.{Values, Failure, message, Ending, returned, crashed, Command}
use aragorn.Cmd.Program.{Program}

-- The texts of the errors of the scheduler.
scheduler_text : Scheduler.Error → Str
scheduler_text Scheduler.invalid_cron_expr = codes "invalid cron expression"
scheduler_text Scheduler.job_already_exist = codes "job already exist"
scheduler_text Scheduler.job_not_found = codes "job not found"
scheduler_text Scheduler.already_started = codes "already started"
scheduler_text Scheduler.not_running = codes "not running"

cause_text : Cause → Str
unfolding scheduler_text
cause_text no_scheduling_rule =
    codes "no scheduling rule set for test suite: please set runCron or runEvery"
cause_text (refused e) = scheduler_text e

-- The errors of `AddSuite` and `Start` by their texts.
added : {A : Type 0} → Outcome ScheduleError A → Outcome Str A
unfolding cause_text
added (ok a) = ok a
added (err e) =
    err (codes "could not schedule suite " ++ (e.path ++ (codes ": " ++ cause_text e.cause)))
added panic = panic

started : {A : Type 0} → Outcome Scheduler.Error A → Outcome Str A
unfolding scheduler_text
started (ok a) = ok a
started (err e) = err (scheduler_text e)
started panic = panic

module _ {C N W X : Type 0} (p : Program C N W) (c : Cron X) where
  -- `runCommand.Run` up to the start of the server: `now` and `later` are when the suites are added
  -- and when the server starts.
  unfoldable pub set_up_server : ℤ → ℤ → Str → Outcome Str (Server W X)
  unfolding added started
  set_up_server now later config = do
    cfg ← new_config_from_file p.loader.files p.decode_config config
    suites ← gen_suites p.loader cfg.dir cfg.suites []
    n ← gen_notifier p.find_notifier cfg.notifiers
    s ← added (add_suites c now suites (new_server n))
    started (start_server c later s)

  module _ (until_signal : Server W X → W → Server W X × W) where
    -- `srv.Stop(ctx)`, whose error is not looked at.
    stopped_server : Outcome Scheduler.Error (Server W X) → W → Ending (Option Failure) W
    stopped_server (ok s) w = returned none w
    stopped_server (err e) w = returned none w
    stopped_server panic w = crashed

    served : Outcome Str (Server W X) → W → Ending (Option Failure) W
    unfolding stopped_server
    served (ok s) w = let (s', w') = until_signal s w in stopped_server (stop_server s') w'
    served (err e) w = returned (some (message e)) w
    served panic w = crashed

    -- `runCommand.Run`; `until_signal` is what the timers of the scheduler do until a signal comes.
    unfoldable pub serve_run : Values → List Str → W → Ending (Option Failure) W
    unfolding served
    serve_run v args w =
        served (set_up_server (p.env.now w) (p.env.now w) (v.text (codes "config"))) w

    -- `runCommand`
    unfoldable pub run_command : Command W
    unfolding serve_run
    run_command = record {
      name = codes "run";
      args = [];
      short_help = codes "Schedule the test suites in the configuration file";
      long_help = codes "Schedule the test suites in the configuration file";
      flags =
          record {
            name = codes "config";
            usage = codes "Path to your config file";
            def_value = codes "config.json";
          }
          ∷ record {
            name = codes "shutdown-timeout";
            usage = codes "grace period for which to wait before shutting down";
            def_value = codes "10s";
          }
          ∷ [];
      hidden = false;
      run = serve_run;
    }

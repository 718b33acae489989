-- ===== src/Cmd/Execute.antt =====
-- `execCommand.Run` of cmd/aragorn/exec.go, from its flags and arguments to its end.
pub mod Passes
use aragorn.Prelude.{
  Str, codes, str_eq, Bool, true, false, Option, none, some, Outcome, ok, err, panic, ◌>>=◌, List,
  [], ◌∷◌, ◌++◌, if◌then◌else◌, ltb, ◌||◌, ◌≡◌, ◌∙◌, refl, sym, ap, ◌↔◌, inl, inr, Bool-cases,
  if_intro,
}
use aragorn.Testsuite.{Env}
use aragorn.Notifier.{Notifier}
use aragorn.Server.Suite.{Suite, run}
use aragorn.Server.Load.{gen_suites}
use aragorn.Server.Config.{new_config_from_file}
use aragorn.Server.Notifiers.{gen_notifier}
use aragorn.Cmd.Usage.{
  Flag, Values, Failure, something_went_wrong, message, Ending, returned, waits, crashed, Command,
  file_help,
}
use aragorn.Cmd.Exec.{ExecCommand, suite_options, exec, notify, get_suites_from_args}
use aragorn.Cmd.Runs.{some_failed, after_all}
use aragorn.Cmd.Program.{Program}

-- `execCommand.Register`
unfoldable pub exec_flags : List Flag
exec_flags =
    record { name = codes "config"; usage = codes "Path to your config file"; def_value = [] }
    ∷ record {
      name = codes "failfast";
      usage = codes "Stop after first test failure";
      def_value = codes "false";
    }
    ∷ record {
      name = codes "filter";
      usage = codes "Execute only the tests that match the regular expression";
      def_value = [];
    }
    ∷ record {
      name = codes "timeout";
      usage = codes "Timeout specifies a time limit for each test";
      def_value = codes "0s";
    }
    ∷ record { name = codes "wait"; usage = codes "Wait"; def_value = codes "false" }
    ∷ []

-- The fields of `execCommand` that its flags set.
unfoldable pub exec_of : Values → ExecCommand
exec_of v = record {
  failfast = v.bool (codes "failfast");
  filter = v.text (codes "filter");
  timeout = v.duration (codes "timeout");
}

module _ {C N W : Type 0} (p : Program C N W) where
  -- The suites and the notifier of a configuration file, or the suites of the arguments.
  unfoldable pub exec_suites :
      Str → ExecCommand → List Str → Outcome Str (List (Suite W) × Option (Notifier W))
  exec_suites config cmd args =
      if str_eq config []
      then (do
        suites ← get_suites_from_args p.loader p.tree args (suite_options cmd)
        ok (suites, none))
      else (do
        cfg ← new_config_from_file p.loader.files p.decode_config config
        suites ← gen_suites p.loader cfg.dir cfg.suites (suite_options cmd)
        n ← gen_notifier p.find_notifier cfg.notifiers
        ok (suites, n))

  failure_if : Bool → Option Failure
  failure_if true = some something_went_wrong
  failure_if false = none

  -- `if cmd.wait { select {} }`
  ended : Bool → Bool × W → Ending (Option Failure) W
  unfolding failure_if
  ended true (failed, w) = waits w
  ended false (failed, w) = returned (failure_if failed) w

  executed :
      Bool
      → Bool
      → Outcome Str (List (Suite W) × Option (Notifier W))
      → W
      → Ending (Option Failure) W
  unfolding ended
  executed wait failfast (ok (suites, n)) w = ended wait (exec p.env failfast n suites false w)
  executed wait failfast (err e) w = returned (some (message e)) w
  executed wait failfast panic w = crashed

  -- `execCommand.Run`
  unfoldable pub exec_run : Values → List Str → W → Ending (Option Failure) W
  unfolding exec_suites executed exec_of
  exec_run v args w =
      executed (v.bool (codes "wait")) (v.bool (codes "failfast"))
        (exec_suites (v.text (codes "config")) (exec_of v) args) w

  -- `execCommand`
  unfoldable pub exec_command : Command W
  unfolding exec_flags exec_run
  exec_command = record {
    name = codes "exec";
    args = codes "[file ...]";
    short_help = codes "Execute the test suites";
    long_help = codes "Execute the test suites" ++ file_help;
    flags = exec_flags;
    hidden = false;
    run = exec_run;
  }

-- ===== src/Cmd/Tests.antt =====
-- Two suites from the loader of the server's tests, one of which fails.
use aragorn.Prelude.{
  codes, str_eq, ℕ, ltb, ◌+◌, ◌≡◌, refl, pos, true, false, Option, some, ok, ◌>>=◌, List, [], ◌∷◌,
  keep, if◌then◌else◌,
}
use aragorn.Testsuite.{Env}
use aragorn.Notifier.{Notifier, new_report}
use aragorn.Server.Suite.{Suite, run, run_loop, run_test_with_retry, retry, run_test}
use aragorn.Server.Options.{
  apply_config, apply_options, new_suite, fail_fast_option, filter_option, timeout_option,
}
use aragorn.Server.Load.{new_suite_from_file, default_config}
use aragorn.Server.Tests.{loader, suite}
use aragorn.Cmd.Exec.{
  ExecCommand, suite_options, exec, notify, Tree, directory, regular, paths_of, here_if_none,
  get_suites_from_args, suites_of, has_suffix,
}
use aragorn.Cmd.Runs.{after_all, some_failed, exec-all, exec_stops}
use aragorn.Cmd.Settings.{failfast-exec}
use aragorn.Cmd.Watch.{Event, selects, is_valid_event}

abbrev env : Env ℕ
env = record { now = λ w. pos w; is_done = λ w. false; wait = λ d w. (false, w); new_md = λ w. w }

-- Each report counts a thousand.
abbrev counting : Option (Notifier ℕ)
counting = some (λ r w. w + 1000)

abbrev broken : Suite ℕ
broken = record suite {
  tests =
      record {
        name = codes "b";
        description = codes "";
        run = λ limit w. (codes "bad" ∷ [], w + 1);
      }
      ∷ [];
}

exec_runs : exec env true counting (suite ∷ broken ∷ suite ∷ []) false 0 ≡ (true, 2001)
unfolding exec run run_loop run_test_with_retry retry run_test new_report notify
exec_runs = refl

exec-all_example : exec env false counting (suite ∷ broken ∷ []) false 0 ≡ (
  some_failed env counting (suite ∷ broken ∷ []) 0,
  after_all env counting (suite ∷ broken ∷ []) 0,
)
exec-all_example = exec-all env counting (suite ∷ broken ∷ []) 0

suite_passes : some_failed env counting (suite ∷ []) 0 ≡ false
unfolding run run_loop run_test_with_retry retry run_test new_report notify
suite_passes = refl

broken_fails : ltb 0 (run env broken (after_all env counting (suite ∷ []) 0)).0.nb_failed ≡ true
unfolding run run_loop run_test_with_retry retry run_test new_report notify
broken_fails = refl

exec_stops_example :
    exec env true counting (suite ∷ broken ∷ suite ∷ []) false 0
    ≡ (true, after_all env counting (suite ∷ broken ∷ []) 0)
exec_stops_example =
    exec_stops env counting (suite ∷ []) (suite ∷ []) broken 0 suite_passes broken_fails

abbrev flags : ExecCommand
flags = record { failfast = false; filter = codes "b"; timeout = pos 5 }

exec_loads :
    new_suite_from_file loader (codes "/x") (suite_options flags)
    ≡ ok (record suite { failfast = false })
unfolding new_suite_from_file default_config apply_config apply_options ◌>>=◌ str_eq
    fail_fast_option filter_option timeout_option suite_options new_suite keep
exec_loads = refl

failfast-exec_example : false ≡ flags.failfast
failfast-exec_example =
    failfast-exec loader flags (codes "/x") (record suite { failfast = false }) exec_loads

-- The directory "." holds a suite file and another file.
abbrev tree : Tree
tree = record {
  stat = λ p. if str_eq p (codes ".") then ok directory else ok regular;
  walk = λ p. ok (codes "./x.suite.json" ∷ codes "./y.json" ∷ []);
  quote = λ s. s;
}

abbrev found_suite : Suite ℕ
found_suite = record suite {
  path = codes "./x.suite.json";
  name = codes "./x.suite.json";
  failfast = false;
}

args_load : get_suites_from_args loader tree [] (suite_options flags) ≡ ok (found_suite ∷ [])
unfolding get_suites_from_args suites_of here_if_none paths_of has_suffix new_suite_from_file
    default_config apply_config apply_options ◌>>=◌ str_eq fail_fast_option filter_option
    timeout_option suite_options new_suite keep
args_load = refl

abbrev events : List Event
events =
    record { name = codes "/x.suite.json"; op = 4 }
    ∷ record { name = codes "/x.suite.json"; op = 2 }
    ∷ record { name = codes "/x.json"; op = 1 }
    ∷ []

events_kept : keep (selects []) events ≡ record { name = codes "/x.suite.json"; op = 2 } ∷ []
unfolding keep selects is_valid_event has_suffix str_eq
events_kept = refl

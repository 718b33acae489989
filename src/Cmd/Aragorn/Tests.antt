-- ===== src/Cmd/Aragorn/Tests.antt =====
-- The program on a small outside: a number that counts what was printed and run.
use aragorn.Prelude.{
  Str, codes, str_eq, starts_with, ℕ, ◌+◌, ◌≡◌, ◌↔◌, refl, pos, true, false, none, some, ok, ◌>>=◌,
  inr, List, [], ◌∷◌, ◌++◌, keep, if◌then◌else◌,
}
use aragorn.Prelude.Assoc.{Assoc, get, put}
use aragorn.Prelude.Sort.{sort_by}
use aragorn.Files.{get_file_path}
use aragorn.Plugin.{Registration, for_type, test_suite_plugin}
use aragorn.Scheduler
use aragorn.Scheduler.{Cron, Job, Scheduler, fire}
use aragorn.Server.Options.{SuiteConfig, apply_options, apply_config, fail_fast_option, new_suite}
use aragorn.Server.Suite.{Suite, run}
use aragorn.Server.Load.{default_config, gen_suite, gen_suites, new_suite_from_file}
use aragorn.Server.Config.{new_config_from_file}
use aragorn.Server.Notifiers.{gen_notifier, gen_notifiers, combine}
use aragorn.Server.Schedule.{Server, SuiteRunner, add_suite, add_suites, start_server}
use aragorn.Server.Tests.{loader, suite, tests}
use aragorn.Log.{ZapConfig}
use aragorn.Cmd.Usage.{Values}
use aragorn.Cmd.Main.{Process, run_main}
use aragorn.Cmd.Main.Success.{ExitsWell, Succeeds, run_main-Succeeds}
use aragorn.Cmd.Exec.{directory, regular, has_suffix}
use aragorn.Cmd.Program.{Program}
use aragorn.Cmd.Init.{available_ids}
use aragorn.Cmd.Serve.{set_up_server}
use aragorn.Cmd.Serve.Lasts.{set_up_server-IsLiveOnce}
use aragorn.Scheduler.Ticking.{Ticks, at_once, then_tick}
use aragorn.Server.Schedule.Armed.{Holds}
use aragorn.Scheduler.Steps.{fire_step}
use aragorn.Scheduler.Live.{JobIsLiveOnce}
use aragorn.Cmd.Serve.Starts.{IsAccepted, Serves, set_up_server-IsAccepted, set_up_server-Serves}
use aragorn.Cmd.Watch.{Event, selects, is_valid_event, is_arg_file, fs_watch_event_loop}
use aragorn.Cmd.Watching.{Watcher, watch_files, with_file}
use aragorn.Cmd.Watching.Files.{fs_watch_event_loop-runs}
use aragorn.Cmd.Aragorn.{Outside, commands, aragorn_main}
use aragorn.Cmd.Aragorn.Exits.{ExecSucceeds, aragorn_main-ExecSucceeds}

abbrev no_values : Values
no_values = record { text = λ k. []; bool = λ k. false; duration = λ k. pos 0 }

abbrev zap_config : ZapConfig
zap_config = record {
  development = false;
  level = pos 0;
  disable_caller = false;
  disable_stacktrace = false;
}

abbrev process : Process ℕ
process = record {
  layout = record { trim_space = λ s. s; tabulate = λ tab pad rows. [] };
  quote = λ s. s;
  stderr = λ s w. w + 1;
  parse_flags = λ flags args w. (some (no_values, args), w);
  zap = record {
    development_config = zap_config;
    production_config = zap_config;
    level_of = λ level. inr (pos 0);
    build = λ cfg skipped w. (none, w);
  };
  log_sync = λ w. w;
  basic_tracer = λ w. w;
  jaeger_tracer = λ addr w. (none, w);
  jaeger_close = λ w. w;
  listen_and_serve = λ addr w. w;
}

abbrev entry : SuiteConfig
entry = record default_config { path = codes "x" }

-- Every configuration file has one entry and no notifier.
abbrev program : Program Unit Unit ℕ
program = record {
  loader = loader;
  decode_config = λ content cfg. ok (record cfg { suites = some entry ∷ [] });
  find_notifier = λ id. none;
  env = record {
    now = λ w. pos w;
    is_done = λ w. false;
    wait = λ d w. (false, w);
    new_md = λ w. w;
  };
  tree = record {
    stat = λ p. if str_eq p (codes ".") then ok directory else ok regular;
    walk = λ p. ok (codes "./x.suite.json" ∷ []);
    quote = λ s. s;
  };
}

abbrev http : Registration ℕ
http = record { typ = test_suite_plugin; id = codes "HTTP"; init = 1 }

abbrev registry : Assoc (Registration ℕ)
registry = (codes "aragorn.testsuite.v1.HTTP", http) ∷ []

abbrev cron : Cron ℕ
cron = record { cron_parse = λ s. none; next = λ x now. now }

abbrev watcher : Watcher ℕ
watcher = record {
  new_watcher = λ w. (none, w);
  add = λ s w. (none, w + 1);
  close = λ w. w;
  clean = λ s. s;
  events = λ w. [];
}

abbrev outside : Outside Unit Unit ℕ ℕ ℕ
outside = record {
  process = process;
  program = program;
  registry = registry;
  disk = record {
    mkdir = λ s w. (none, w);
    getwd = λ w. inr (codes "/p");
    create = λ s w. (none, w);
    encode = λ s cfg w. (none, w);
    base_name = λ s. s;
    join_path = λ a b. a ++ b;
    title = λ s. s;
    quote = λ s. s;
    example = λ n. none;
  };
  cron = cron;
  watcher = watcher;
  build = record {
    version = [];
    build_date = [];
    commit_hash = [];
    go_version = [];
    compiler = [];
    os = [];
    arch = [];
  };
  stdout = λ s w. w + 1;
  until_signal = λ s w. (s, w);
}

abbrev exec_args : List Str
exec_args = codes "aragorn" ∷ codes "exec" ∷ []

run_main-Succeeds_example :
    ExitsWell process (run_main process (commands outside) exec_args 0)
    ↔ Succeeds process (commands outside) exec_args 0
run_main-Succeeds_example = run_main-Succeeds process (commands outside) exec_args 0

aragorn_main-ExecSucceeds_example :
    ExitsWell process (aragorn_main outside exec_args 0) ↔ ExecSucceeds outside [] 0
aragorn_main-ExecSucceeds_example = aragorn_main-ExecSucceeds outside (codes "aragorn") [] 0

http_available : available_ids registry ≡ codes "HTTP" ∷ []
unfolding available_ids sort_by for_type starts_with
http_available = refl

abbrev watched : List Str
watched = codes "./a.json" ∷ codes "." ∷ []

files_watched : watch_files program.tree watcher watched 0 ≡ (ok (codes "./a.json" ∷ []), 2)
unfolding watch_files with_file str_eq
files_watched = refl

stats_regular : program.tree.stat (codes "./a.json") ≡ ok regular
unfolding str_eq
stats_regular = refl

abbrev watched_suite : Suite ℕ
watched_suite = record suite {
  path = codes "./a.json";
  name = codes "./a.json";
  failfast = true;
  timeout = pos 30000000000;
  tests = tests;
}

watched_loads :
    new_suite_from_file loader (codes "./a.json") (fail_fast_option true ∷ []) ≡ ok watched_suite
unfolding new_suite_from_file default_config apply_config apply_options ◌>>=◌ str_eq
    fail_fast_option new_suite
watched_loads = refl

-- A file that is no suite is written before the one that is watched.
abbrev another : Event
another = record { name = codes "/b"; op = 2 }

another_changes_nothing :
    fs_watch_event_loop loader program.env true (codes "./a.json" ∷ []) (another ∷ []) 0 ≡ ok 0
unfolding fs_watch_event_loop selects is_valid_event is_arg_file has_suffix str_eq
another_changes_nothing = refl

fs_watch_event_loop-runs_example :
    fs_watch_event_loop loader program.env true
      (codes "./a.json" ∷ [])
      (another ∷ record { name = codes "./a.json"; op = 2 } ∷ another ∷ [])
      0
    ≡ fs_watch_event_loop loader program.env true
        (codes "./a.json" ∷ [])
        (another ∷ [])
        (run program.env watched_suite 0).1
fs_watch_event_loop-runs_example =
    fs_watch_event_loop-runs program watcher true watched (codes "./a.json" ∷ []) 0 2 0
      (codes "./a.json") 2 (another ∷ []) (another ∷ []) 0 0 watched_suite files_watched refl
      stats_regular (inr refl) another_changes_nothing watched_loads

set_up_server-IsAccepted_example :
    ((s : Server ℕ ℕ) × (set_up_server program cron (pos 0) (pos 1) (codes "/c") ≡ ok s))
    ↔ IsAccepted program cron (pos 0) (pos 1) (codes "/c")
set_up_server-IsAccepted_example =
    set_up_server-IsAccepted program cron (pos 0) (pos 1) (codes "/c")

abbrev job : Job (SuiteRunner ℕ) ℕ
job = record {
  body = record {
    suite = record suite { failfast = false; timeout = pos 30000000000; tests = tests };
    notifier = none;
  };
  timers = Scheduler.armed (pos 1000000000) ∷ [];
  interval = pos 1000000000;
  cron_expr = none;
}

abbrev server : Server ℕ ℕ
server = record {
  sch = record { jobs = (codes "/x", job) ∷ []; running = true; removed = [] };
  notifier = none;
}

set_up_runs : set_up_server program cron (pos 0) (pos 1) (codes "/c") ≡ ok server
unfolding set_up_server new_config_from_file gen_suites gen_suite gen_notifier gen_notifiers combine
    default_config apply_options apply_config new_suite keep str_eq starts_with add_suites add_suite
    start_server Scheduler.start Scheduler.add Scheduler.schedule_all Scheduler.schedule
    Scheduler.time_until_next_run get put get_file_path ◌>>=◌
set_up_runs = refl

set_up_server-Serves_example : Serves program cron (pos 0) (pos 1) (codes "/c") server
set_up_server-Serves_example =
    set_up_server-Serves program cron (pos 0) (pos 1) (codes "/c") server set_up_runs

-- The scheduler of the server while its job executes.
abbrev executing : Scheduler (SuiteRunner ℕ) ℕ
executing = record server.sch { jobs = put (codes "/x") (fire 0 job) server.sch.jobs }

executing-Ticks : Ticks cron server.sch executing
unfolding get str_eq
executing-Ticks = then_tick at_once (fire_step (codes "/x") job 0 refl refl) tt

set_up_server-IsLiveOnce_example :
    (r : Serves program cron (pos 0) (pos 1) (codes "/c") server) × Holds r.notifier JobIsLiveOnce
      r.suites executing.jobs
set_up_server-IsLiveOnce_example =
    set_up_server-IsLiveOnce program cron (pos 0) (pos 1) (codes "/c") server executing set_up_runs
      executing-Ticks

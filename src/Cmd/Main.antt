-- ===== src/Cmd/Main.antt =====
-- `run` of cmd/aragorn/main.go: from the arguments of the process to its exit code.
pub mod Success
use aragorn.Prelude.{
  Str, codes, str_eq, ℕ, Bool, true, false, Option, none, some, ◌⊎◌, inl, inr, List, [], ◌∷◌, ◌++◌,
  if◌then◌else◌,
}
use aragorn.Log.{Zap, log_init}
use aragorn.Cmd.Args.{Parsed, parse_args, get_command_from_name}
use aragorn.Cmd.Usage.{
  Flag, Values, Failure, something_went_wrong, message, Ending, returned, waits, crashed, Command,
  Layout, line, usage, command_usage,
}

-- The outside of the process: the standard error, the flag package, package zap and Sync of the
-- logger, the tracers, and the server for debugging. `InitGlobalTracer` of the jaeger client may
-- return an error.
pub record Process (W : Type 0) : Type 0 where
  pub layout : Layout
  pub quote : Str → Str
  pub stderr : Str → W → W
  pub parse_flags : List Flag → List Str → W → (Option (Values × List Str)) × W
  pub zap : Zap W
  pub log_sync : W → W
  pub basic_tracer : W → W
  pub jaeger_tracer : Str → W → Option Str × W
  pub jaeger_close : W → W
  pub listen_and_serve : Str → W → W

abbrev pub success_exit_code : ℕ
success_exit_code = 0

abbrev pub error_exit_code : ℕ
error_exit_code = 1

abbrev pub global_flags : List Flag
global_flags =
    record { name = codes "debug"; usage = codes "Enable debug mode"; def_value = codes "false" }
    ∷ record {
      name = codes "log-level";
      usage = codes "Set the logging level (\"debug\"|\"info\"|\"warn\"|\"error\"|\"fatal\")";
      def_value = codes "info";
    }
    ∷ record {
      name = codes "http";
      usage =
          codes
            "Present the web based UI (tracing, metrics, expvar...) at the specified http host:port";
      def_value = [];
    }
    ∷ record {
      name = codes "tracer";
      usage = codes "Set the tracer (\"basic\"|\"jaeger\")";
      def_value = [];
    }
    ∷ record {
      name = codes "tracer-addr";
      usage = codes "Set the tracer address";
      def_value = codes "localhost:6831";
    }
    ∷ []

-- `os.Args[2:]`, where there are two arguments at least.
unfoldable pub after_command : List Str → List Str
after_command [] = []
after_command (_ ∷ []) = []
after_command (_ ∷ _ ∷ args) = args

-- What the flag -tracer names.
pub data Tracer : Type 0 where
  no_tracer basic jaeger : Tracer

unfoldable pub tracer_of : Str → Option Tracer
tracer_of s =
    if str_eq s []
    then some no_tracer
    else if str_eq s (codes "basic")
    then some basic
    else if str_eq s (codes "jaeger")
    then some jaeger
    else none

module _ {W : Type 0} (p : Process W) where
  -- The error of a command on the standard error, unless it is `errSomethingWentWrong`.
  report_failure : Failure → W → W
  report_failure something_went_wrong w = w
  report_failure (message e) w = p.stderr (line e) w

  -- The deferred calls.
  closed : Tracer → W → W
  closed no_tracer w = p.log_sync w
  closed basic w = p.log_sync w
  closed jaeger w = p.log_sync (p.jaeger_close w)

  -- The exit code by what the command returned.
  exit_with : Tracer → Ending (Option Failure) W → Ending ℕ W
  unfolding report_failure closed
  exit_with tr (returned none w) = returned success_exit_code (closed tr w)
  exit_with tr (returned (some e) w) = returned error_exit_code (closed tr (report_failure e w))
  exit_with tr (waits w) = waits w
  exit_with tr crashed = crashed

  -- The switch over the tracers, with the error of the tracer that is not set up.
  unfoldable pub start_tracer : Tracer → Str → W → Option Str × W
  start_tracer no_tracer addr w = (none, w)
  start_tracer basic addr w = (none, p.basic_tracer w)
  start_tracer jaeger addr w = p.jaeger_tracer addr w

  unfoldable pub start_http : Str → W → W
  start_http addr w = if str_eq addr [] then w else p.listen_and_serve addr w

  -- `log.Fatal` of `newJaegerTracer` ends the process before any deferred call.
  under_tracer : Command W → Values → List Str → Tracer → Option Str × W → Ending ℕ W
  unfolding exit_with start_http
  under_tracer cmd v args tr (some e, w) = returned error_exit_code w
  under_tracer cmd v args tr (none, w) =
      exit_with tr (cmd.run v args (start_http (v.text (codes "http")) w))

  traced : Command W → Values → List Str → Option Tracer → W → Ending ℕ W
  unfolding under_tracer start_tracer
  traced cmd v args none w = returned error_exit_code (
      p.log_sync
        (p.stderr (line (codes "unrecognized tracer: " ++ p.quote (v.text (codes "tracer")))) w))
  traced cmd v args (some tr) w =
      under_tracer cmd v args tr (start_tracer tr (v.text (codes "tracer-addr")) w)

  logging : Command W → Values → List Str → Option Str × W → Ending ℕ W
  unfolding traced tracer_of
  logging cmd v args (some e, w) = returned error_exit_code (p.stderr (line e) w)
  logging cmd v args (none, w) = traced cmd v args (tracer_of (v.text (codes "tracer"))) w

  parsed : Command W → Option (Values × List Str) × W → Ending ℕ W
  unfolding logging
  parsed cmd (none, w) = returned error_exit_code w
  parsed cmd (some (v, args), w) =
      logging cmd v args (log_init p.zap (v.text (codes "log-level")) (v.bool (codes "debug")) w)

  dispatch : List (Command W) → List Str → Parsed → Option (Command W) → W → Ending ℕ W
  unfolding usage command_usage parsed after_command
  dispatch cmds args a none w = returned error_exit_code (
      p.stderr (usage p.layout cmds)
        (p.stderr (line (codes "aragorn: " ++ (a.cmd_name ++ codes ": no such command"))) w))
  dispatch cmds args a (some cmd) w =
      let flags = global_flags ++ cmd.flags in
      if a.print_cmd_usage
      then returned error_exit_code
          (p.stderr (command_usage p.layout flags a.cmd_name cmd.args cmd.long_help) w)
      else parsed cmd (p.parse_flags flags (after_command args) w)

  -- `run`, over the list of commands.
  unfoldable pub run_main : List (Command W) → List Str → W → Ending ℕ W
  unfolding parse_args get_command_from_name dispatch
  run_main cmds args w =
      let a = parse_args args in
      if a.exit
      then returned error_exit_code (p.stderr (usage p.layout cmds) w)
      else dispatch cmds args a (get_command_from_name (λ (c : Command W). c.name) a.cmd_name cmds)
          w

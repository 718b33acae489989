-- ===== src/Cmd/Aragorn/Exits.antt =====
-- The exit code of `aragorn exec`: from cmd/aragorn/main.go to the runs of the suites.
use aragorn.Prelude.{
  Str, codes, str_eq, contains, starts_with, false, ◌≡◌, refl, subst, ◌↔◌, Option, none, some, List,
  [], ◌∷◌, ◌++◌,
}
use aragorn.Log.{log_init}
use aragorn.Cmd.Args.{parse_args, is_help_arg, get_command_from_name}
use aragorn.Cmd.Usage.{Values, Command}
use aragorn.Cmd.Main.{Tracer, global_flags, after_command, tracer_of, start_http, start_tracer}
use aragorn.Cmd.Main.Success.{ExitsWell, IsParsed, Logging, Traced, UnderTracer, run_main-Succeeds}
use aragorn.Cmd.Execute.{exec_flags, exec_command}
use aragorn.Cmd.Execute.Passes.{Passes, exec_run-Passes}
use aragorn.Cmd.Init.{init_command}
use aragorn.Cmd.Show.{list_command}
use aragorn.Cmd.Aragorn.{Outside, commands, aragorn_main}

module _ {C N P W X : Type 0} (o : Outside C N P W X) where
  -- What `aragorn exec` needs to succeed: its flags are parsed, the logger is set up, the tracer is
  -- known and is set up without an error, and then the suites are loaded, none has a failed test, and
  -- the flag -wait is not given.
  pub record ExecSucceeds (args : List Str) (w : W) : Type 0 where
    pub values : Values
    pub rest : List Str
    pub tracer : Tracer
    pub parsed : W
    pub logging : W
    pub tracing : W
    pub parses :
        o.process.parse_flags (global_flags ++ exec_flags) args w ≡ (some (values, rest), parsed)
    pub logs :
        log_init o.process.zap
          (values.text (codes "log-level"))
          (values.bool (codes "debug"))
          parsed
        ≡ (none, logging)
    pub traces : tracer_of (values.text (codes "tracer")) ≡ some tracer
    pub starts :
        start_tracer o.process tracer (values.text (codes "tracer-addr")) logging ≡ (none, tracing)
    pub passes :
        Passes o.program values rest (start_http o.process (values.text (codes "http")) tracing)

  exec_parsed :
      (prog : Str) (args : List Str)
      → parse_args (prog ∷ codes "exec" ∷ args)
        ≡ record { cmd_name = codes "exec"; print_cmd_usage = false; exit = false }
  unfolding parse_args is_help_arg str_eq contains starts_with
  exec_parsed prog [] = refl
  exec_parsed prog (arg ∷ args) = refl

  exec_named :
      get_command_from_name (λ (c : Command W). c.name) (codes "exec") (commands o)
      ≡ some (exec_command o.program)
  unfolding get_command_from_name commands init_command list_command exec_command str_eq
  exec_named = refl

  under_tracer :
      (v : Values) (rest : List Str) (tr : Tracer) (t : Option Str × W) (args : List Str)
      (w u x : W)
      → o.process.parse_flags (global_flags ++ exec_flags) args w ≡ (some (v, rest), u)
      → log_init o.process.zap (v.text (codes "log-level")) (v.bool (codes "debug")) u ≡ (none, x)
      → tracer_of (v.text (codes "tracer")) ≡ some tr
      → start_tracer o.process tr (v.text (codes "tracer-addr")) x ≡ t
      → UnderTracer o.process (exec_command o.program) v rest t
      → ExecSucceeds args w
  unfolding exec_command
  under_tracer v rest tr (some e, y) args w u x p l t s h = absurd h
  under_tracer v rest tr (none, y) args w u x p l t s h = record {
    values = v;
    rest = rest;
    tracer = tr;
    parsed = u;
    logging = x;
    tracing = y;
    parses = p;
    logs = l;
    traces = t;
    starts = s;
    passes = (exec_run-Passes o.program v rest _).0 h;
  }

  traced :
      (v : Values) (rest : List Str) (tr : Option Tracer) (args : List Str) (w u x : W)
      → o.process.parse_flags (global_flags ++ exec_flags) args w ≡ (some (v, rest), u)
      → log_init o.process.zap (v.text (codes "log-level")) (v.bool (codes "debug")) u ≡ (none, x)
      → tracer_of (v.text (codes "tracer")) ≡ tr
      → Traced o.process (exec_command o.program) v rest tr x
      → ExecSucceeds args w
  traced v rest none args w u x p l t h = absurd h
  traced v rest (some tr) args w u x p l t h = under_tracer v rest tr _ args w u x p l t refl h

  logging-ExecSucceeds :
      (v : Values) (rest : List Str) (l : Option Str × W) (args : List Str) (w u : W)
      → o.process.parse_flags (global_flags ++ exec_flags) args w ≡ (some (v, rest), u)
      → log_init o.process.zap (v.text (codes "log-level")) (v.bool (codes "debug")) u ≡ l
      → Logging o.process (exec_command o.program) v rest l
      → ExecSucceeds args w
  logging-ExecSucceeds v rest (some e, x) args w u p l h = absurd h
  logging-ExecSucceeds v rest (none, x) args w u p l h =
      traced v rest (tracer_of (v.text (codes "tracer"))) args w u x p l refl h

  parsed-ExecSucceeds :
      (r : Option (Values × List Str) × W) (args : List Str) (w : W)
      → o.process.parse_flags (global_flags ++ exec_flags) args w ≡ r
      → IsParsed o.process (exec_command o.program) r
      → ExecSucceeds args w
  parsed-ExecSucceeds (none, u) args w p h = absurd h
  parsed-ExecSucceeds (some (v, rest), u) args w p h =
      logging-ExecSucceeds v rest _ args w u p refl h

  ExecSucceeds-IsParsed :
      (args : List Str) (w : W)
      → ExecSucceeds args w
      → IsParsed o.process
          (exec_command o.program)
          (o.process.parse_flags (global_flags ++ exec_flags) args w)
  unfolding exec_command
  ExecSucceeds-IsParsed args w s =
      let ends = (exec_run-Passes o.program s.values s.rest _).1 s.passes in
      rw (s.parses, s.logs, s.traces, s.starts) ends

  -- `aragorn exec`, over tests that do not panic, exits with success exactly when its flags are parsed,
  -- the logger is set up, the tracer is known and is set up without an error, its suites are loaded and
  -- none has a failed test when they are run in order, and the flag -wait is not given.
  pub aragorn_main-ExecSucceeds :
      (prog : Str) (args : List Str) (w : W)
      → ExitsWell o.process (aragorn_main o (prog ∷ codes "exec" ∷ args) w) ↔ ExecSucceeds args w
  unfolding aragorn_main after_command exec_command
  aragorn_main-ExecSucceeds prog args w =
      let all = prog ∷ codes "exec" ∷ args in
      let main = run_main-Succeeds o.process (commands o) all w in
      (
        (λ h.
            let s = main.0 h in
            let cmd : s.cmd ≡ exec_command o.program =
              cc (exec_named, s.named, exec_parsed prog args) in
            parsed-ExecSucceeds _ args w refl (
              subst
                (λ c.
                  IsParsed o.process c
                    (o.process.parse_flags (global_flags ++ c.flags) (after_command all) w))
                cmd s.runs)),
        λ s.
            let asked = exec_parsed prog args in
            main.1 (record {
              cmd = exec_command o.program;
              no_usage = rw asked refl;
              no_help = rw asked refl;
              named = rw asked exec_named;
              runs = ExecSucceeds-IsParsed args w s;
            }),
      )

-- ===== src/Cmd/Main/Success.antt =====
-- When the program exits with success: `run` of cmd/aragorn/main.go.
use aragorn.Prelude.{
  Str, codes, ℕ, false, ◌≡◌, refl, subst, Option, none, some, ◌↔◌, inl, inr, List, ◌++◌, if_intro,
  Option-cases,
}
use aragorn.Log.{log_init}
use aragorn.Cmd.Args.{parse_args, get_command_from_name}
use aragorn.Cmd.Usage.{Values, Failure, Ending, returned, waits, crashed, Command, EndsWell}
use aragorn.Cmd.Main.{
  Process, Tracer, global_flags, after_command, tracer_of, success_exit_code, start_http,
  start_tracer, exit_with, under_tracer, traced, logging, parsed, dispatch, run_main,
}

module _ {W : Type 0} (p : Process W) where
  -- The process ends with the exit code of success.
  abbrev pub ExitsWell : Ending ℕ W → Type 0
  ExitsWell (returned code w) = code ≡ success_exit_code
  ExitsWell (waits w) = ⊥
  ExitsWell crashed = ⊥

  exit_with-ExitsWell :
      (tr : Tracer) (e : Ending (Option Failure) W) → ExitsWell (exit_with p tr e) ↔ EndsWell e
  unfolding exit_with
  exit_with-ExitsWell tr (returned none w) = ((λ h. tt), λ h. refl)
  exit_with-ExitsWell tr (returned (some e) w) = ((λ h. cc), λ h. absurd h)
  exit_with-ExitsWell tr (waits w) = ((λ h. h), λ h. h)
  exit_with-ExitsWell tr crashed = ((λ h. h), λ h. h)

  -- The tracer is set up, and the command returns without an error.
  abbrev pub UnderTracer : Command W → Values → List Str → Option Str × W → Type 0
  UnderTracer cmd v args (some e, w) = ⊥
  UnderTracer cmd v args (none, w) =
      EndsWell (cmd.run v args (start_http p (v.text (codes "http")) w))

  -- The tracer is known.
  abbrev pub Traced : Command W → Values → List Str → Option Tracer → W → Type 0
  Traced cmd v args none w = ⊥
  Traced cmd v args (some tr) w =
      UnderTracer cmd v args (start_tracer p tr (v.text (codes "tracer-addr")) w)

  abbrev pub Logging : Command W → Values → List Str → Option Str × W → Type 0
  Logging cmd v args (some e, w) = ⊥
  Logging cmd v args (none, w) = Traced cmd v args (tracer_of (v.text (codes "tracer"))) w

  abbrev pub IsParsed : Command W → Option (Values × List Str) × W → Type 0
  IsParsed cmd (none, w) = ⊥
  IsParsed cmd (some (v, args), w) =
      Logging cmd v args (log_init p.zap (v.text (codes "log-level")) (v.bool (codes "debug")) w)

  under_tracer-ExitsWell :
      (cmd : Command W) (v : Values) (args : List Str) (tr : Tracer) (o : Option Str × W)
      → ExitsWell (under_tracer p cmd v args tr o) ↔ UnderTracer cmd v args o
  unfolding under_tracer
  under_tracer-ExitsWell cmd v args tr (some e, w) = ((λ h. cc), λ h. absurd h)
  under_tracer-ExitsWell cmd v args tr (none, w) = exit_with-ExitsWell tr _

  traced-ExitsWell :
      (cmd : Command W) (v : Values) (args : List Str) (tr : Option Tracer) (w : W)
      → ExitsWell (traced p cmd v args tr w) ↔ Traced cmd v args tr w
  unfolding traced
  traced-ExitsWell cmd v args none w = ((λ h. cc), λ h. absurd h)
  traced-ExitsWell cmd v args (some tr) w = under_tracer-ExitsWell cmd v args tr _

  logging-ExitsWell :
      (cmd : Command W) (v : Values) (args : List Str) (o : Option Str × W)
      → ExitsWell (logging p cmd v args o) ↔ Logging cmd v args o
  unfolding logging
  logging-ExitsWell cmd v args (some e, w) = ((λ h. cc), λ h. absurd h)
  logging-ExitsWell cmd v args (none, w) = traced-ExitsWell cmd v args _ w

  parsed-ExitsWell :
      (cmd : Command W) (o : Option (Values × List Str) × W)
      → ExitsWell (parsed p cmd o) ↔ IsParsed cmd o
  unfolding parsed
  parsed-ExitsWell cmd (none, w) = ((λ h. cc), λ h. absurd h)
  parsed-ExitsWell cmd (some (v, args), w) = logging-ExitsWell cmd v args _

  -- What success needs: the arguments name a command of the list and do not ask for help, and the
  -- command gets as far as its end.
  pub record Succeeds (cmds : List (Command W)) (args : List Str) (w : W) : Type 0 where
    pub cmd : Command W
    pub no_usage : (parse_args args).exit ≡ false
    pub no_help : (parse_args args).print_cmd_usage ≡ false
    pub named :
        get_command_from_name (λ (c : Command W). c.name) (parse_args args).cmd_name cmds ≡ some cmd
    pub runs : IsParsed cmd (p.parse_flags (global_flags ++ cmd.flags) (after_command args) w)

  dispatched :
      (cmds : List (Command W)) (args : List Str) (cmd : Command W) (w : W)
      → (parse_args args).exit ≡ false
      → get_command_from_name (λ (c : Command W). c.name) (parse_args args).cmd_name cmds ≡ some cmd
      → ExitsWell (dispatch p cmds args (parse_args args) (some cmd) w) ↔ Succeeds cmds args w
  unfolding dispatch
  dispatched cmds args cmd w no_usage named =
      if_intro (λ o. ExitsWell o ↔ Succeeds cmds args w) (parse_args args).print_cmd_usage _ _
        (λ h. ((λ e. cc), λ s. let no = s.no_help in cc))
        (λ h.
          let ended =
            parsed-ExitsWell cmd
              (p.parse_flags (global_flags ++ cmd.flags) (after_command args) w) in
          (
            (λ e. record {
              cmd = cmd;
              no_usage = no_usage;
              no_help = h;
              named = named;
              runs = ended.0 e;
            }),
            λ s.
                let same : s.cmd ≡ cmd = cc (named, s.named) in
                ended.1 (
                  subst
                    (λ c.
                      IsParsed c (p.parse_flags (global_flags ++ c.flags) (after_command args) w))
                    same s.runs),
          ))

  -- The program exits with success exactly when its arguments name a command and do not ask for help,
  -- the flags are parsed, the logger is set up, the tracer is known and is set up without an error, and
  -- the command returns without an error.
  pub run_main-Succeeds :
      (cmds : List (Command W)) (args : List Str) (w : W)
      → ExitsWell (run_main p cmds args w) ↔ Succeeds cmds args w
  unfolding run_main dispatch
  run_main-Succeeds cmds args w =
      if_intro (λ o. ExitsWell o ↔ Succeeds cmds args w) (parse_args args).exit _ _
        (λ h. ((λ e. cc), λ s. let no = s.no_usage in cc))
        (λ h.
          elim (Option-cases
            (get_command_from_name (λ (c : Command W). c.name) (parse_args args).cmd_name cmds)) [
              | inl missing ↦ rw missing ((λ e. cc), λ s. let found = s.named in cc)
              | inr (cmd, found) ↦ rw found (dispatched cmds args cmd w h found)
            ])

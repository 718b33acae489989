-- ===== src/Cmd/Aragorn.antt =====
-- The whole program: the list of commands of `run` of cmd/aragorn/main.go, on the outside.
pub mod Exits
mod Tests
use aragorn.Prelude.{Str, ℕ, List, [], ◌∷◌}
use aragorn.Prelude.Assoc.{Assoc}
use aragorn.Plugin.{Registration}
use aragorn.Scheduler.{Cron}
use aragorn.Server.Schedule.{Server}
use aragorn.Cmd.Usage.{Ending, Command}
use aragorn.Cmd.Main.{Process, run_main}
use aragorn.Cmd.Program.{Program}
use aragorn.Cmd.Init.{Disk, init_command}
use aragorn.Cmd.Show.{Build, list_command, version_command}
use aragorn.Cmd.Execute.{exec_command}
use aragorn.Cmd.Watching.{Watcher, watch_command}
use aragorn.Cmd.Serve.{run_command}

-- What the commands ask of the outside, each of its part.
pub record Outside (C N P W X : Type 0) : Type 0 where
  pub process : Process W
  pub program : Program C N W
  pub registry : Assoc (Registration P)
  pub disk : Disk P W
  pub cron : Cron X
  pub watcher : Watcher W
  pub build : Build
  pub stdout : Str → W → W
  pub until_signal : Server W X → W → Server W X × W

module _ {C N P W X : Type 0} (o : Outside C N P W X) where
  -- `commands`
  unfoldable pub commands : List (Command W)
  commands =
      init_command o.registry o.disk
      ∷ list_command o.program o.process.layout o.stdout
      ∷ exec_command o.program
      ∷ watch_command o.program o.watcher
      ∷ run_command o.program o.cron o.until_signal
      ∷ version_command o.build o.stdout
      ∷ []

  -- `main`, by the arguments of the process.
  unfoldable pub aragorn_main : List Str → W → Ending ℕ W
  unfolding commands
  aragorn_main args w = run_main o.process commands args w

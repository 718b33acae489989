-- ===== src/Cmd/Program.antt =====
-- What the commands of cmd/aragorn share: the plugins, the files and the outside.
use aragorn.Prelude.{Str, Option}
use aragorn.Testsuite.{Env}
use aragorn.Server.Load.{Loader}
use aragorn.Server.Config.{DecodeConfig}
use aragorn.Server.Notifiers.{NotifierPlugin}
use aragorn.Cmd.Exec.{Tree}

-- `C` and `N` are the types of the configurations of test suites and of notifiers.
pub record Program (C N W : Type 0) : Type 0 where
  pub loader : Loader C W
  pub decode_config : DecodeConfig
  pub find_notifier : Str → Option (NotifierPlugin N W)
  pub env : Env W
  pub tree : Tree

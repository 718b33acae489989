-- ===== src/Server/Config.antt =====
-- The configuration file of the server: `NewConfigFromReader` and `NewConfigFromFile` of
-- server/config.go.
use aragorn.Prelude.{Str, codes, Option, none, some, Outcome, ok, wrap_err, ◌>>=◌, List, [], ◌++◌}
use aragorn.Prelude.Assoc.{Assoc}
use aragorn.Files.{Files}
use aragorn.Server.Options.{SuiteConfig}
use aragorn.Server.Load.{Reader}

pub record Config : Type 0 where
  pub notifiers : Assoc Str
  pub suites : List (Option SuiteConfig)
  pub path : Str
  pub dir : Str

abbrev pub zero_config : Config
zero_config = record { notifiers = []; suites = []; path = []; dir = [] }

-- The JSON decoder of the program at a Config, over a value.
abbrev pub DecodeConfig : Type 0
DecodeConfig = Str → Config → Outcome Str Config

module _ (files : Files) (decode : DecodeConfig) where
  placed : Reader → Config → Config
  placed r cfg = elim r.name [
    | none ↦ cfg
    | some name ↦ record cfg { path = name; dir = files.dir name }
  ]

  -- `NewConfigFromReader`
  unfoldable pub new_config_from_reader : Reader → Outcome Str Config
  unfolding placed
  new_config_from_reader r = do
    cfg ← wrap_err (λ e. codes "could not decode config: " ++ e) (decode r.content zero_config)
    ok (placed r cfg)

  -- `NewConfigFromFile`
  unfoldable pub new_config_from_file : Str → Outcome Str Config
  unfolding new_config_from_reader
  new_config_from_file path = do
    content ← wrap_err (λ e. codes "could not open config file: " ++ e) (files.read path)
    new_config_from_reader (record { name = some path; content = content })

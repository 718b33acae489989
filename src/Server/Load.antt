-- ===== src/Server/Load.antt =====
-- The loading of suites: `NewSuiteFromReader` of server/suite.go, `GenSuites` of server/config.go.
pub mod Fields
pub mod Order
use aragorn.Prelude.{
  Str, codes, ℤ, pos, Bool, false, Option, none, some, Outcome, ok, err, panic, wrap_err, ◌>>=◌,
  List, [], ◌∷◌, ◌++◌,
}
use aragorn.Testsuite.{Test}
use aragorn.Files.{Files, get_file_path}
use aragorn.Server.Suite.{Suite}
use aragorn.Server.Options.{
  SuiteConfig, SuiteOption, Compile, apply_options, base_suite_option, apply_config, new_suite,
}

-- A registered test suite plugin, with a configuration of type `C`: its zero value, the decoding of
-- JSON over a value that is there already, and the initialisation under a path and its directory.
pub record SuitePlugin (C W : Type 0) : Type 0 where
  pub zero_config : C
  pub decode : Str → C → Outcome Str C
  pub init : C → Str → Str → Outcome Str (List (Test W))

-- What loading needs of the outside: files, the JSON decoder of the program at a SuiteConfig, the
-- registry, regular expressions, and strconv.Quote.
pub record Loader (C W : Type 0) : Type 0 where
  pub files : Files
  pub decode_config : Str → SuiteConfig → Outcome Str SuiteConfig
  pub get_plugin : Str → Option (SuitePlugin C W)
  pub compile : Compile
  pub quote : Str → Str

-- An io.Reader by its content, with its name where it has one.
pub record Reader : Type 0 where
  pub name : Option Str
  pub content : Str

abbrev pub second : ℤ
second = pos 1000000000

-- What `NewSuiteFromReader` decodes a file over.
unfoldable pub default_config : SuiteConfig
default_config = record {
  path = [];
  name = [];
  run_every = pos 0;
  run_cron = [];
  retry_count = pos 1;
  retry_wait = second;
  timeout = pos 30000000000;
  fail_fast = false;
  typ = [];
  suite = none;
  base_suite = none;
  filter = [];
}

-- The bytes of a slice, none where it is nil.
abbrev pub bytes_of : Option Str → Str
bytes_of none = []
bytes_of (some b) = b

-- The name of a reader, or the empty text.
abbrev pub name_of : Reader → Str
name_of r = bytes_of r.name

-- The base suite that an entry of the configuration gives to the suite file.
base_options : Option Str → List SuiteOption
base_options none = []
base_options (some bs) = base_suite_option bs ∷ []

module _ {C W : Type 0} (l : Loader C W) where
  found : SuiteConfig → Option (SuitePlugin C W) → Outcome Str (SuitePlugin C W)
  found cfg none = err (codes "unsupported test suite type: " ++ l.quote cfg.typ)
  found cfg (some reg) = ok reg

  decode_base : SuitePlugin C W → Option Str → C → Outcome Str C
  decode_base reg none c = ok c
  decode_base reg (some bs) c =
      wrap_err (λ e. codes "could not decode base test suite: " ++ e) (reg.decode bs c)

  -- `NewSuiteFromReader`
  unfoldable pub new_suite_from_reader : Reader → List SuiteOption → Outcome Str (Suite W)
  unfolding found decode_base
  new_suite_from_reader r options = do
    decoded ←
        wrap_err (λ e. codes "could not decode suite: " ++ e)
          (l.decode_config r.content default_config)
    let cfg = apply_options options decoded
    reg ← found cfg (l.get_plugin cfg.typ)
    own ←
        wrap_err (λ e. codes "could not decode test suite: " ++ e)
          (reg.decode (bytes_of cfg.suite) reg.zero_config)
    based ← decode_base reg cfg.base_suite own
    tests ← reg.init based (name_of r) (l.files.dir (name_of r))
    new_suite l.compile (name_of r) cfg.typ tests cfg

  -- os.Open of a suite file, a reader with the path for its name.
  open_suite : Str → Outcome Str Reader
  open_suite path = do
    content ← wrap_err (λ e. codes "could not open suite file: " ++ e) (l.files.read path)
    ok (record { name = some path; content = content })

  -- `NewSuiteFromFile`
  unfoldable pub new_suite_from_file : Str → List SuiteOption → Outcome Str (Suite W)
  unfolding new_suite_from_reader open_suite
  new_suite_from_file path options = do r ← open_suite path; new_suite_from_reader r options

  -- `Config.genSuite`
  unfoldable pub gen_suite : Str → SuiteConfig → List SuiteOption → Outcome Str (Suite W)
  unfolding new_suite_from_reader open_suite base_options
  gen_suite path scfg options = do
    r ← open_suite path
    s ← new_suite_from_reader r (base_options scfg.suite)
    apply_config l.compile (apply_options options scfg) s

  -- The loop of `Config.GenSuites`, over the directory of the configuration. An entry may be nil,
  -- and its path is read nevertheless.
  unfoldable pub gen_suites :
      Str → List (Option SuiteConfig) → List SuiteOption → Outcome Str (List (Suite W))
  unfolding gen_suite
  gen_suites dir [] options = ok []
  gen_suites dir (none ∷ scfgs) options = panic
  gen_suites dir (some scfg ∷ scfgs) options =
      let path = get_file_path l.files dir scfg.path in
      do
        suite ← wrap_err (λ e. path ++ (codes ": " ++ e)) (gen_suite path scfg options)
        suites ← gen_suites dir scfgs options
        ok (suite ∷ suites)

-- ===== src/Server/Tests.antt =====
-- Suites loaded from two files of a small directory, one of which does not exist.
use aragorn.Prelude.{
  Str, codes, str_eq, ℕ, ◌≡◌, ◌≢◌, refl, pos, true, none, some, ok, err, starts_with, ◌>>=◌, List,
  [], ◌∷◌, ◌++◌, keep, if◌then◌else◌,
}
use aragorn.Testsuite.{Test}
use aragorn.Scheduler.{Cron}
use aragorn.Server.Suite.{Suite}
use aragorn.Server.Options.{SuiteConfig, apply_options, apply_config, fail_fast_option, new_suite}
use aragorn.Files.{get_file_path}
use aragorn.Server.Options.Filter.{IsFiltered, apply_config-IsFiltered}
use aragorn.Server.Load.{Loader, default_config, gen_suite, new_suite_from_file}
use aragorn.Server.Load.Fields.{HasSettings, gen_suite-HasSettings, failfast-new_suite_from_file}
use aragorn.Server.Load.Order.{AllLoaded}

abbrev pub test_named : Str → Test ℕ
test_named s = record { name = s; description = codes ""; run = λ limit w. ([], w) }

abbrev pub tests : List (Test ℕ)
tests = test_named (codes "a") ∷ test_named (codes "b") ∷ []

-- A suite file "x" holds the settings of a suite named "x" that runs each second; there is no file
-- "/none".
abbrev pub loader : Loader Unit ℕ
loader = record {
  files = record {
    read = λ p. if str_eq p (codes "/none") then err (codes "no such file") else ok p;
    join = λ dir p. dir ++ p;
    dir = λ p. codes "/";
  };
  decode_config = λ content base. ok (record base { name = content; run_every = pos 1000000000 });
  get_plugin = λ typ.
      some (record { zero_config = tt; decode = λ content c. ok c; init = λ c path dir. ok tests });
  compile = λ filter. ok (λ s. str_eq filter s);
  quote = λ s. s;
}

abbrev entry : SuiteConfig
entry = record default_config {
  path = codes "x";
  timeout = pos 5;
  retry_count = pos 0;
  filter = codes "b";
  fail_fast = true;
}

abbrev lost : SuiteConfig
lost = record default_config { path = codes "none" }

-- The suite of the entry: the timeout is that of the entry, the number of retries that of the file.
abbrev pub suite : Suite ℕ
suite = record {
  path = codes "/x";
  name = codes "/x";
  typ = codes "";
  run_cron = codes "";
  run_every = pos 1000000000;
  retry_count = pos 1;
  retry_wait = pos 1000000000;
  timeout = pos 5;
  failfast = true;
  tests = test_named (codes "b") ∷ [];
}

entry_loads : gen_suite loader (codes "/x") entry [] ≡ ok suite
unfolding gen_suite default_config apply_config apply_options ◌>>=◌ str_eq keep new_suite
entry_loads = refl

gen_suite-HasSettings_example :
    (content : Str) × (file : SuiteConfig) × (loader.files.read (codes "/x") ≡ ok content)
    × (loader.decode_config content default_config ≡ ok file)
    × HasSettings (codes "/x") (apply_options [] entry) file suite
gen_suite-HasSettings_example = gen_suite-HasSettings loader (codes "/x") entry [] suite entry_loads

-- The same file by itself, as `exec` loads it.
alone_loads :
    new_suite_from_file loader (codes "/x") (fail_fast_option true ∷ [])
    ≡ ok (record suite { tests = tests; timeout = pos 30000000000 })
unfolding new_suite_from_file default_config apply_config apply_options ◌>>=◌ str_eq
    fail_fast_option new_suite
alone_loads = refl

failfast-new_suite_from_file_example :
    (file : SuiteConfig) × (true ≡ (apply_options (fail_fast_option true ∷ []) file).fail_fast)
failfast-new_suite_from_file_example =
    failfast-new_suite_from_file loader (codes "/x") (fail_fast_option true ∷ [])
      (record suite { tests = tests; timeout = pos 30000000000 }) alone_loads

entry-AllLoaded : AllLoaded loader (codes "/") [] (some entry ∷ []) (suite ∷ [])
unfolding gen_suite default_config apply_config apply_options ◌>>=◌ str_eq keep get_file_path
    starts_with new_suite
entry-AllLoaded = (refl, tt)

lost_fails :
    gen_suite loader (codes "/none") lost [] ≡ err (codes "could not open suite file: no such file")
unfolding gen_suite ◌>>=◌ str_eq
lost_fails = refl

filter_set : entry.filter ≢ []
filter_set h = cc

entry_applies : apply_config loader.compile entry (record suite { tests = tests }) ≡ ok suite
unfolding apply_config ◌>>=◌ str_eq keep default_config
entry_applies = refl

apply_config-IsFiltered_example : IsFiltered (λ s. str_eq (codes "b") s) tests suite.tests
apply_config-IsFiltered_example =
    apply_config-IsFiltered loader.compile entry (record suite { tests = tests }) suite
      (λ s. str_eq (codes "b") s) filter_set refl entry_applies

-- No expression is a schedule.
abbrev no_cron : Cron ℕ
no_cron = record { cron_parse = λ s. none; next = λ e t. t }

-- ===== src/Server/Options.antt =====
-- server/suite_option.go, and the type SuiteConfig of server/suite.go.
pub mod Filter
use aragorn.Prelude.{
  Str, codes, str_eq, ℤ, pos, is_positive, Bool, true, false, Option, none, some, Outcome, ok, err,
  wrap_err, ◌>>=◌, List, [], ◌∷◌, ◌++◌, keep, if◌then◌else◌,
}
use aragorn.Testsuite.{Test}
use aragorn.Server.Suite.{Suite}

-- A raw message or a base suite is `none` where the Go slice is nil.
pub record SuiteConfig : Type 0 where
  pub path : Str
  pub name : Str
  pub run_every : ℤ
  pub run_cron : Str
  pub retry_count : ℤ
  pub retry_wait : ℤ
  pub timeout : ℤ
  pub fail_fast : Bool
  pub typ : Str
  pub suite : Option Str
  pub base_suite : Option Str
  pub filter : Str

abbrev pub SuiteOption : Type 0
SuiteOption = SuiteConfig → SuiteConfig

-- `Timeout`
unfoldable pub timeout_option : ℤ → SuiteOption
timeout_option timeout cfg = record cfg { timeout = timeout }

-- `FailFast`
unfoldable pub fail_fast_option : Bool → SuiteOption
fail_fast_option ff cfg = record cfg { fail_fast = ff }

-- `Filter`
unfoldable pub filter_option : Str → SuiteOption
filter_option filter cfg = record cfg { filter = filter }

-- `baseSuite`
unfoldable pub base_suite_option : Str → SuiteOption
base_suite_option bs cfg = record cfg { base_suite = some bs }

-- `SuiteConfig.applyOptions`
unfoldable pub apply_options : List SuiteOption → SuiteConfig → SuiteConfig
apply_options [] cfg = cfg
apply_options (option ∷ options) cfg = apply_options options (option cfg)

-- regexp.Compile, and MatchString of what it returns.
abbrev pub Compile : Type 0
Compile = Str → Outcome Str (Str → Bool)

module _ {W : Type 0} where
  -- The last part of `Suite.applyConfig`.
  unfoldable pub apply_filter : Compile → Str → Suite W → Outcome Str (Suite W)
  apply_filter compile filter s = if str_eq filter [] then ok s else (do
    re ← wrap_err (λ e. codes "filter: " ++ e) (compile filter)
    ok (record s { tests = keep (λ t. re t.name) s.tests }))

  -- The fields that `Suite.applyConfig` sets: a field of the configuration that is not set leaves that
  -- of the suite.
  unfoldable pub apply_fields : SuiteConfig → Suite W → Suite W
  apply_fields cfg s = record s {
    name = if str_eq cfg.name [] then s.name else cfg.name;
    run_every = if is_positive cfg.run_every then cfg.run_every else s.run_every;
    run_cron = if str_eq cfg.run_cron [] then s.run_cron else cfg.run_cron;
    retry_count = if is_positive cfg.retry_count then cfg.retry_count else s.retry_count;
    retry_wait = if is_positive cfg.retry_wait then cfg.retry_wait else s.retry_wait;
    timeout = if is_positive cfg.timeout then cfg.timeout else s.timeout;
    failfast = if cfg.fail_fast then true else s.failfast;
  }

  -- `Suite.applyConfig`
  unfoldable pub apply_config : Compile → SuiteConfig → Suite W → Outcome Str (Suite W)
  unfolding apply_filter apply_fields
  apply_config compile cfg s = apply_filter compile cfg.filter (apply_fields cfg s)

  -- `NewSuite`
  unfoldable pub new_suite :
      Compile → Str → Str → List (Test W) → SuiteConfig → Outcome Str (Suite W)
  unfolding apply_config
  new_suite compile path typ tests cfg = apply_config compile cfg (record {
    path = path;
    name = [];
    typ = typ;
    run_cron = [];
    run_every = pos 0;
    retry_count = pos 0;
    retry_wait = pos 0;
    timeout = pos 0;
    failfast = false;
    tests = tests;
  })

-- ===== src/Notifier.antt =====
-- notifier/notifier.go and notifier/multi.go: the report of a run, and notifiers of it.
pub mod Slack
use aragorn.Prelude.{Str, ℕ, ℤ, pos, ◌-ℤ◌, Bool, List, [], ◌∷◌, ◌++◌}
use aragorn.Testsuite.{Env, Test}

-- The interface `Suite`, as the values that its methods return.
pub record SuiteInfo (W : Type 0) : Type 0 where
  pub name : Str
  pub typ : Str
  pub failfast : Bool
  pub tests : List (Test W)

pub record TestReport (W : Type 0) : Type 0 where
  pub test : Test W
  pub start : ℤ
  pub duration : ℤ
  pub errs : List Str

pub record Report (W : Type 0) : Type 0 where
  pub suite : SuiteInfo W
  pub start : ℤ
  pub duration : ℤ
  pub test_reports : List (TestReport W)
  pub nb_failed : ℕ

-- The interface `Notifier`: what its `Notify` does to the outside.
abbrev pub Notifier : Type 0 → Type 0
Notifier W = Report W → W → W

module _ {W : Type 0} where
  -- `NewReport`
  unfoldable pub new_report : Env W → SuiteInfo W → W → Report W
  new_report e s w = record {
    suite = s;
    start = e.now w;
    duration = pos 0;
    test_reports = [];
    nb_failed = 0;
  }

  -- The `TestReport` that `Report.NewTestReport` appends to the report. The caller writes it through
  -- a pointer to that last entry: here it appends the entry once it is final.
  unfoldable pub new_test_report : Env W → Test W → W → TestReport W
  new_test_report e t w = record { test = t; start = e.now w; duration = pos 0; errs = [] }

  -- `Report.Done`
  unfoldable pub done : Env W → Report W → W → Report W
  unfolding ◌-ℤ◌
  done e r w = record r { duration = e.now w -ℤ r.start }

  -- `TestReport.Error` and `Errorf`, for the messages of one run in order.
  unfoldable pub log_errors : TestReport W → List Str → TestReport W
  log_errors tr msgs = record tr { errs = tr.errs ++ msgs }

  -- `TestReport.Reset`
  unfoldable pub reset : TestReport W → TestReport W
  reset tr = record tr { errs = [] }

  -- `TestReport.Done`
  unfoldable pub test_done : Env W → TestReport W → W → TestReport W
  unfolding ◌-ℤ◌
  test_done e tr w = record tr { duration = e.now w -ℤ tr.start }

  -- `multiNotifier.Notify`
  unfoldable pub multi : List (Notifier W) → Report W → W → W
  multi [] r w = w
  multi (n ∷ ns) r w = multi ns r (n r w)

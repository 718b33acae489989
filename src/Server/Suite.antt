-- ===== src/Server/Suite.antt =====
-- The run of a suite, `Suite.Run` of server/suite.go. Logging and tracing are left out.
pub mod Retry
pub mod Run
pub mod Reported
pub mod Attempts
pub mod Passes
mod Tests
use aragorn.Prelude.{
  Str, ℕ, zero, suc, ◌+◌, ℤ, pos, pos_part, leb_ℤ, Bool, not, ◌&&◌, ◌||◌, List, [], ◌∷◌, ◌++◌,
  is_empty, if◌then◌else◌,
}
use aragorn.Testsuite.{Env, Test}
use aragorn.Notifier.{
  TestReport, Report, SuiteInfo, new_report, new_test_report, done, log_errors, reset, test_done,
}

pub record Suite (W : Type 0) : Type 0 where
  pub path : Str
  pub name : Str
  pub typ : Str
  pub run_cron : Str
  pub run_every : ℤ
  pub retry_count : ℤ
  pub retry_wait : ℤ
  pub timeout : ℤ
  pub failfast : Bool
  pub tests : List (Test W)

-- What a run of one test leaves: whether it passed, its report, and the outside after it.
pub record Attempt (W : Type 0) : Type 0 where
  pub passed : Bool
  pub report : TestReport W
  pub world : W

module _ {W : Type 0} where
  -- The methods Name, Type, FailFast and Tests of a suite.
  abbrev pub info : Suite W → SuiteInfo W
  info s = record { name = s.name; typ = s.typ; failfast = s.failfast; tests = s.tests }

  -- `runTest`, of a test that does not panic: a panic, which would end the process, is no result here.
  unfoldable pub run_test : Env W → Suite W → Test W → TestReport W → W → Attempt W
  unfolding log_errors test_done
  run_test e s t tr w =
      let (msgs, w') = t.run s.timeout w in
      let tr' = test_done e (log_errors tr msgs) w' in
      record { passed = is_empty tr'.errs; report = tr'; world = w' }

  -- The loop of `runTestWithRetry`, from a given attempt on. The first argument bounds the rounds
  -- that may still follow; where it is zero, `attempt >= s.retryCount` holds.
  unfoldable pub retry : ℕ → Env W → Suite W → Test W → ℕ → TestReport W → W → Attempt W
  unfolding reset
  retry zero e s t attempt tr w = run_test e s t tr w
  retry (suc left) e s t attempt tr w =
      let a = run_test e s t tr w in
      let (cancelled, w') = e.wait s.retry_wait a.world in
      let again = retry left e s t (attempt + 1) (reset a.report) w' in
      if a.passed
      then a
      else if leb_ℤ s.retry_count (pos attempt)
      then a
      else if cancelled
      then record a { world = w' }
      else again

  -- `runTestWithRetry`
  unfoldable pub run_test_with_retry : Env W → Suite W → Test W → W → Attempt W
  unfolding new_test_report
  run_test_with_retry e s t w = retry (pos_part s.retry_count) e s t 1 (new_test_report e t w) w

  -- The loop of `runTests`.
  unfoldable pub run_loop : Env W → Suite W → List (Test W) → Report W → W → Report W × W
  run_loop e s [] r w = (r, w)
  run_loop e s (t ∷ ts) r w =
      let a = run_test_with_retry e s t w in
      let reported = record r { test_reports = r.test_reports ++ a.report ∷ [] } in
      let counted =
        if a.passed then reported else record reported { nb_failed = reported.nb_failed + 1 } in
      let rest = run_loop e s ts counted a.world in
      if not a.passed && s.failfast || e.is_done a.world then (counted, a.world) else rest

  -- `runTests`, with the deferred `report.Done`, as `Run` calls it.
  unfoldable pub run : Env W → Suite W → W → Report W × W
  unfolding new_report done
  run e s w =
      let (r, w') = run_loop e s s.tests (new_report e (info s) w) (e.new_md w) in (done e r w', w')

-- ===== src/Server/Suite/Run.antt =====
-- The run of a whole suite, `runTests` of server/suite.go.
use aragorn.Prelude.{
  ◌+◌, ◌≡◌, refl, sym, subst, Bool, true, false, not, ◌&&◌, ◌||◌, List, [], ◌∷◌, ◌++◌, map,
  is_empty, count, arith, if◌then◌else◌, if_intro,
}
use aragorn.Testsuite.{Env, Test}
use aragorn.Notifier.{TestReport, Report, new_report}
use aragorn.Server.Suite.{Suite, Attempt, run_test_with_retry, run_loop, run, info}
use aragorn.Server.Suite.Retry.{run_test_with_retry-IsOfOneAttempt}

-- A test failed when its report holds an error.
abbrev pub has_failed : {W : Type 0} → TestReport W → Bool
has_failed tr = not (is_empty tr.errs)

count-snoc {ℓ} :
    {A : Type ℓ} (p : A → Bool) (xs : List A) (x : A)
    → count p (xs ++ x ∷ []) ≡ (if p x then count p xs + 1 else count p xs)
unfolding count
count-snoc p [] x = ground arith
count-snoc p (y ∷ xs) x = ground (arith, count-snoc p xs x)

-- The report of a test that was run last goes to the end, and a failure is counted.
unfoldable pub add_attempt : {W : Type 0} → Report W → Attempt W → Report W
add_attempt r a =
    let reported = record r { test_reports = r.test_reports ++ a.report ∷ [] } in
    if a.passed then reported else record reported { nb_failed = reported.nb_failed + 1 }

module _ {W : Type 0} where
  -- Under failfast a failed report is the last.
  abbrev pub PassesButLast : List (TestReport W) → Type 0
  PassesButLast [] = Unit
  PassesButLast (tr ∷ []) = Unit
  PassesButLast (tr ∷ us ∷ rest) = (has_failed tr ≡ false) × PassesButLast (us ∷ rest)

  abbrev AllPass : List (TestReport W) → Type 0
  AllPass [] = Unit
  AllPass (tr ∷ rest) = (has_failed tr ≡ false) × AllPass rest

  PassesButLast-snoc :
      (xs : List (TestReport W)) (x : TestReport W) → AllPass xs → PassesButLast (xs ++ x ∷ [])
  PassesButLast-snoc [] x h = tt
  PassesButLast-snoc (y ∷ []) x h = (h.0, tt)
  PassesButLast-snoc (y ∷ z ∷ xs) x h = (h.0, PassesButLast-snoc (z ∷ xs) x h.1)

  AllPass-snoc :
      (xs : List (TestReport W)) (x : TestReport W)
      → AllPass xs
      → has_failed x ≡ false
      → AllPass (xs ++ x ∷ [])
  AllPass-snoc [] x h p = (p, tt)
  AllPass-snoc (y ∷ xs) x h p = (h.0, AllPass-snoc xs x h.1 p)

  AllPass-PassesButLast : (xs : List (TestReport W)) → AllPass xs → PassesButLast xs
  AllPass-PassesButLast [] h = tt
  AllPass-PassesButLast (x ∷ []) h = tt
  AllPass-PassesButLast (x ∷ y ∷ xs) h = (h.0, AllPass-PassesButLast (y ∷ xs) h.1)

  pub test_reports-add_attempt :
      (r : Report W) (a : Attempt W)
      → (add_attempt r a).test_reports ≡ r.test_reports ++ a.report ∷ []
  unfolding add_attempt
  test_reports-add_attempt r a = ground arith

  pub nb_failed-add_attempt :
      (r : Report W) (a : Attempt W)
      → a.passed ≡ false
      → (add_attempt r a).nb_failed ≡ r.nb_failed + 1
  unfolding add_attempt
  nb_failed-add_attempt r a h = rw h

  abbrev pub tests_of : List (TestReport W) → List (Test W)
  tests_of = map (λ tr. tr.test)

  -- The context is never cancelled.
  abbrev pub NeverDone : Env W → Type 0
  NeverDone e = (w : W) → e.is_done w ≡ false

-- A rule for the loop: what one more report keeps holds at the end.
module _ {W : Type 0} (e : Env W) (s : Suite W) where
  pub loop_induction {ℓ} :
      (P : Report W → Type ℓ)
      → ((r : Report W) (t : Test W) (w : W)
          → P r
          → P (add_attempt r (run_test_with_retry e s t w)))
      → (ts : List (Test W)) (r : Report W) (w : W) → P r
      → P (run_loop e s ts r w).0
  unfolding run_loop add_attempt
  loop_induction P keeps [] r w h = h
  loop_induction P keeps (t ∷ ts) r w h =
      let a : Attempt W = run_test_with_retry e s t w in
      let r' : Report W = add_attempt r a in
      if_intro (λ (res : Report W × W). P res.0) (not a.passed && s.failfast || e.is_done a.world)
        (r', a.world) (run_loop e s ts r' a.world) (λ _. keeps r t w h)
        (λ _. loop_induction P keeps ts r' a.world (keeps r t w h))

  abbrev Counted : Report W → Type 0
  Counted r = r.nb_failed ≡ count has_failed r.test_reports

  add_attempt-Counted :
      (r : Report W) (t : Test W) (w : W)
      → Counted r
      → Counted (add_attempt r (run_test_with_retry e s t w))
  unfolding add_attempt
  add_attempt-Counted r t w h =
      let a : Attempt W = run_test_with_retry e s t w in
      ground (
        arith,
        (run_test_with_retry-IsOfOneAttempt e s t w).0,
        count-snoc has_failed r.test_reports a.report,
      )

  new_report-Counted : (w : W) → Counted (new_report e (info s) w)
  unfolding new_report count
  new_report-Counted w = refl

  -- `NbFailed` is the number of reported tests with an error.
  pub nb_failed-run :
      (w : W) → (run e s w).0.nb_failed ≡ count has_failed (run e s w).0.test_reports
  unfolding run
  nb_failed-run w =
      loop_induction Counted add_attempt-Counted s.tests (new_report e (info s) w) (e.new_md w)
        (new_report-Counted w)

  run_loop-PassesButLast :
      (ts : List (Test W)) (r : Report W) (w : W)
      → s.failfast ≡ true
      → AllPass r.test_reports
      → PassesButLast (run_loop e s ts r w).0.test_reports
  unfolding run_loop add_attempt
  run_loop-PassesButLast [] r w ff h = AllPass-PassesButLast r.test_reports h
  run_loop-PassesButLast (t ∷ ts) r w ff h =
      let a : Attempt W = run_test_with_retry e s t w in
      let r' : Report W = add_attempt r a in
      let one = run_test_with_retry-IsOfOneAttempt e s t w in
      let reports = test_reports-add_attempt r a in
      if_intro (λ (res : Report W × W). PassesButLast res.0.test_reports)
        (not a.passed && s.failfast || e.is_done a.world) (r', a.world) (run_loop e s ts r' a.world)
        (λ _. subst PassesButLast (sym reports) (PassesButLast-snoc r.test_reports a.report h))
        (λ go. run_loop-PassesButLast ts r' a.world ff (
          subst AllPass (sym reports)
            (AllPass-snoc r.test_reports a.report h (ground (arith, go, ff, one.0)))))

  new_report-AllPass : (w : W) → AllPass (new_report e (info s) w).test_reports
  unfolding new_report
  new_report-AllPass w = tt

  -- Under failfast every report but the last is of a test that passed: the suite stops at the first
  -- failure.
  pub failfast_stops : (w : W) → s.failfast ≡ true → PassesButLast (run e s w).0.test_reports
  unfolding run
  failfast_stops w ff =
      run_loop-PassesButLast s.tests (new_report e (info s) w) (e.new_md w) ff
        (new_report-AllPass w)

-- ===== src/Server/Suite/Reported.antt =====
-- Which tests the run of a suite reports: `runTests` of server/suite.go.
use mathlib.Core.List.{map-append}
use aragorn.Prelude.{
  ◌≤◌, ◌≡◌, refl, sym, subst, ◌∙◌, true, false, not, ◌&&◌, ◌||◌, ◌⊎◌, inl, inr, List, [], ◌∷◌, ◌++◌,
  append_assoc, append-nil, arith, if_intro,
}
use aragorn.Testsuite.{Env, Test}
use aragorn.Notifier.{Report, new_report}
use aragorn.Server.Suite.{Suite, Attempt, run_test_with_retry, run_loop, run, info}
use aragorn.Server.Suite.Retry.{run_test_with_retry-IsOfOneAttempt}
use aragorn.Server.Suite.Run.{
  NeverDone, add_attempt, tests_of, test_reports-add_attempt, nb_failed-add_attempt,
}

module _ {W : Type 0} (e : Env W) (s : Suite W) where
  reported :
      (r : Report W) (t : Test W) (ts : List (Test W)) (w : W)
      → tests_of (add_attempt r (run_test_with_retry e s t w)).test_reports ++ ts
        ≡ tests_of r.test_reports ++ t ∷ ts
  reported r t ts w =
      let a : Attempt W = run_test_with_retry e s t w in
      rw (
        test_reports-add_attempt r a,
        map-append,
        append_assoc,
        (run_test_with_retry-IsOfOneAttempt e s t w).1,
      )

  run_loop-tests :
      (ts : List (Test W)) (r : Report W) (w : W)
      → (rest : List (Test W)) × (tests_of (run_loop e s ts r w).0.test_reports ++ rest
          ≡ tests_of r.test_reports ++ ts)
  unfolding run_loop add_attempt
  run_loop-tests [] r w = ([], refl)
  run_loop-tests (t ∷ ts) r w =
      let a : Attempt W = run_test_with_retry e s t w in
      let r' : Report W = add_attempt r a in
      let (rest, eq) = run_loop-tests ts r' a.world in
      if_intro
        (λ (res : Report W × W).
          (rest : List (Test W)) × (tests_of res.0.test_reports ++ rest
            ≡ tests_of r.test_reports ++ t ∷ ts))
        (not a.passed && s.failfast || e.is_done a.world) (r', a.world) (run_loop e s ts r' a.world)
        (λ _. (ts, reported r t ts w)) (λ _. (rest, eq ∙ reported r t ts w))

  -- The tests reported are a first part of the tests of the suite, in order.
  pub tests-run :
      (w : W) → (rest : List (Test W)) × (tests_of (run e s w).0.test_reports ++ rest ≡ s.tests)
  unfolding run new_report
  tests-run w = run_loop-tests s.tests (new_report e (info s) w) (e.new_md w)

  -- What the loop leaves when the context is not cancelled.
  abbrev Ended : List (Test W) → Report W → Type 0
  Ended all r = (tests_of r.test_reports ≡ all) ⊎ ((s.failfast ≡ true) × (1 ≤ r.nb_failed))

  run_loop-Ended :
      NeverDone e
      → (ts : List (Test W)) (r : Report W) (w : W)
      → Ended (tests_of r.test_reports ++ ts) (run_loop e s ts r w).0
  unfolding run_loop add_attempt
  run_loop-Ended never [] r w = inl (sym (append-nil _))
  run_loop-Ended never (t ∷ ts) r w =
      let a : Attempt W = run_test_with_retry e s t w in
      let r' : Report W = add_attempt r a in
      let later = run_loop-Ended never ts r' a.world in
      if_intro (λ (res : Report W × W). Ended (tests_of r.test_reports ++ t ∷ ts) res.0)
        (not a.passed && s.failfast || e.is_done a.world) (r', a.world) (run_loop e s ts r' a.world)
        (λ stop. inr (stopped a stop, omega (arith, nb_failed-add_attempt r a (failed a stop))))
        (λ _. subst (λ all. Ended all (run_loop e s ts r' a.world).0) (reported r t ts w) later)
    where
      stopped :
          (a : Attempt W)
          → (not a.passed && s.failfast || e.is_done a.world) ≡ true
          → s.failfast ≡ true
      stopped a h = ground (arith, never a.world)

      failed :
          (a : Attempt W)
          → (not a.passed && s.failfast || e.is_done a.world) ≡ true
          → a.passed ≡ false
      failed a h = ground (arith, never a.world)

  -- While the context is not cancelled, a run ends after all the tests of the suite, or under
  -- failfast with a failed test.
  pub run-ends :
      (w : W)
      → NeverDone e
      → (tests_of (run e s w).0.test_reports ≡ s.tests)
        ⊎ ((s.failfast ≡ true) × (1 ≤ (run e s w).0.nb_failed))
  unfolding run new_report
  run-ends w never = run_loop-Ended never s.tests (new_report e (info s) w) (e.new_md w)

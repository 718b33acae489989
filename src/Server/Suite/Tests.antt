-- ===== src/Server/Suite/Tests.antt =====
-- A flaky and a broken test, over a world that counts the attempts.
use aragorn.Prelude.{
  codes, ℕ, ◌+◌, ◌≤◌, ◌≡◌, refl, ◌⊎◌, pos, true, false, List, [], ◌∷◌, ◌++◌, ltb, count, arith,
  if◌then◌else◌,
}
use aragorn.Testsuite.{Env, Test}
use aragorn.Notifier.{new_test_report, new_report}
use aragorn.Server.Suite.{Suite, run_test, retry, run_test_with_retry, run_loop, run}
use aragorn.Server.Suite.Retry.{
  Counts, AlwaysFails, IsOfOneAttempt, retry_fuel, run_test_with_retry-IsOfOneAttempt,
  attempts_exhausted,
}
use aragorn.Server.Suite.Run.{has_failed, nb_failed-run, PassesButLast, failfast_stops, tests_of}
use aragorn.Server.Suite.Reported.{tests-run, run-ends}

abbrev counting : Env ℕ
counting = record {
  now = λ w. pos w;
  is_done = λ w. false;
  wait = λ d w. (false, w);
  new_md = λ w. w;
}

-- Fails at its first attempt of all.
abbrev flaky : Test ℕ
flaky = record {
  name = codes "flaky";
  description = codes "";
  run = λ limit w. (if ltb w 1 then codes "not yet" ∷ [] else [], w + 1);
}

abbrev broken : Test ℕ
broken = record {
  name = codes "broken";
  description = codes "";
  run = λ limit w. (codes "broken" ∷ [], w + 1);
}

abbrev suite : Suite ℕ
suite = record {
  path = codes "a.suite.json";
  name = codes "a";
  typ = codes "HTTP";
  run_cron = codes "";
  run_every = pos 0;
  retry_count = pos 3;
  retry_wait = pos 1;
  timeout = pos 30;
  failfast = true;
  tests = flaky ∷ broken ∷ flaky ∷ [];
}

-- The flaky test passes at its second attempt, the broken one takes all three, and failfast leaves
-- the last test out.
run_runs : ((run counting suite 0).1 ≡ 5) × ((run counting suite 0).0.nb_failed ≡ 1)
unfolding run run_loop run_test_with_retry retry run_test new_report
run_runs = (refl, refl)

broken-Counts : Counts counting suite broken (λ w. w)
broken-Counts = record { runs = λ w. refl; waits = λ w. refl }

broken_AlwaysFails : AlwaysFails counting suite broken
broken_AlwaysFails = record { fails = λ w e. cc; waits_out = λ w. refl }

retry_fuel_example :
    let tr = new_test_report counting broken 0 in
    retry 3 counting suite broken 1 tr 0 ≡ retry 2 counting suite broken 1 tr 0
retry_fuel_example =
    retry_fuel counting suite broken 2 1 (new_test_report counting broken 0) 0 (omega arith)

run_test_with_retry-IsOfOneAttempt_example :
    IsOfOneAttempt counting suite flaky (run_test_with_retry counting suite flaky 0)
run_test_with_retry-IsOfOneAttempt_example =
    run_test_with_retry-IsOfOneAttempt counting suite flaky 0

attempts_exhausted_example :
    let a = run_test_with_retry counting suite broken 5 in (a.passed ≡ false) × (a.world ≡ 5 + 3)
attempts_exhausted_example =
    attempts_exhausted counting suite broken (λ w. w) 5 broken-Counts broken_AlwaysFails

nb_failed-run_example :
    (run counting suite 0).0.nb_failed ≡ count has_failed (run counting suite 0).0.test_reports
nb_failed-run_example = nb_failed-run counting suite 0

failfast_stops_example : PassesButLast (run counting suite 0).0.test_reports
failfast_stops_example = failfast_stops counting suite 0 refl

tests-run_example :
    (rest : List (Test ℕ)) × (tests_of (run counting suite 0).0.test_reports ++ rest ≡ suite.tests)
tests-run_example = tests-run counting suite 0

run-ends_example :
    (tests_of (run counting suite 0).0.test_reports ≡ suite.tests)
    ⊎ ((suite.failfast ≡ true) × (1 ≤ (run counting suite 0).0.nb_failed))
run-ends_example = run-ends counting suite 0 (λ w. refl)

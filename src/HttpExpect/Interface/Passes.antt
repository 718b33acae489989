-- ===== src/HttpExpect/Interface/Passes.antt =====
-- When the run of a suite of HTTP tests reports no failure.
use aragorn.Prelude.{Str, ℤ, ◌≡◌, sym, subst, ◌↔◌, some, List, [], ◌∷◌, map, map-nil}
use aragorn.Testsuite.{Env, Test}
use aragorn.Server.Suite.{Suite, run}
use aragorn.Server.Suite.Run.{NeverDone}
use aragorn.Server.Suite.Attempts.{PassesIn, PassesIn-iff, IsQuiet as LogsNothing}
use aragorn.Server.Suite.Passes.{repetitions, AllQuiet, run-AllQuiet}
use aragorn.HttpExpect.Prepare.{Prepared}
use aragorn.HttpExpect.Run.{Net, Logged}
use aragorn.HttpExpect.Run.Passes.{IsQuiet, Succeeds, run_http-Succeeds}
use aragorn.HttpExpect.Interface.{Place, Runs, with_md, IsSteady, http_test, http_tests}

module _ {W : Type 0} (net : ℤ → Net W) (say : Logged → Str) where
  -- An attempt at a test with the metadata that was saved before it succeeds.
  abbrev pub SucceedsAt : ℤ → Prepared → Place W → Type 0
  SucceedsAt limit t p = Succeeds (net limit) t (some p.md) p.outside

  run_iff :
      (limit : ℤ) (t : Prepared) (p : Place W) (r : Runs (net limit) t p)
      → (map say r.ran.logged ≡ []) ↔ SucceedsAt limit t p
  unfolding IsQuiet
  run_iff limit t p r =
      let logged = map-nil say r.ran.logged in
      let succeeds = run_http-Succeeds (net limit) t (some p.md) p.outside in
      (
        (λ h. succeeds.0 (subst (IsQuiet (net limit)) (sym r.ends) (logged.0 h))),
        λ h. logged.1 (subst (IsQuiet (net limit)) r.ends (succeeds.1 h)),
      )

  module _ (e : Env (Place W)) (s : Suite (Place W)) where
    -- Each test succeeds in one of its attempts, with the metadata that was saved before.
    abbrev pub AllSucceed : List ((t : Prepared) × IsSteady net t) → Place W → Type 0
    AllSucceed [] p = Unit
    AllSucceed ((t, steady) ∷ ts) p =
        (q : Place W) × PassesIn e s (http_test net say t steady) (SucceedsAt s.timeout t)
          (repetitions e s) p q
        × AllSucceed ts q

    IsQuiet-iff :
        (t : Prepared) (steady : IsSteady net t) (p : Place W)
        → LogsNothing e s (http_test net say t steady) p ↔ SucceedsAt s.timeout t p
    unfolding http_test
    IsQuiet-iff t steady p = run_iff s.timeout t p (steady s.timeout p)

    AllQuiet-AllSucceed :
        (ts : List ((t : Prepared) × IsSteady net t)) (p : Place W)
        → AllQuiet e s (http_tests net say ts) p ↔ AllSucceed ts p
    unfolding http_tests
    AllQuiet-AllSucceed [] p = ((λ h. h), λ h. h)
    AllQuiet-AllSucceed ((t, steady) ∷ ts) p =
        let test = http_test net say t steady in
        let same = IsQuiet-iff t steady in
        (
          (λ h.
              let (q, one, more) = h in
              (
                q,
                PassesIn-iff e s test (LogsNothing e s test) (SucceedsAt s.timeout t) same
                    (repetitions e s) p q one,
                (AllQuiet-AllSucceed ts q).0 more,
              )),
          λ h.
              let (q, one, more) = h in
              (
                q,
                PassesIn-iff e s test (SucceedsAt s.timeout t) (LogsNothing e s test)
                    (λ w. ((same w).1, (same w).0)) (repetitions e s) p q one,
                (AllQuiet-AllSucceed ts q).1 more,
              ),
        )

  -- Where the context is not cancelled, the run of a suite of HTTP tests that no run makes panic or
  -- changes reports no failure exactly when, from empty metadata on, each test in order succeeds in one
  -- of the attempts that it is given, with what was saved before.
  pub run-AllSucceed :
      (e : Env W) (s : Suite (Place W)) (ts : List ((t : Prepared) × IsSteady net t)) (w : Place W)
      → s.tests ≡ http_tests net say ts
      → NeverDone e
      → ((run (with_md e) s w).0.nb_failed ≡ 0) ↔ AllSucceed (with_md e) s ts (record w { md = [] })
  unfolding with_md
  run-AllSucceed e s ts w tests never =
      let all = run-AllQuiet (with_md e) s w (λ p. never p.outside) in
      let same = AllQuiet-AllSucceed (with_md e) s ts (record w { md = [] }) in
      let P : List (Test (Place W)) → Type 0 =
        λ ts'. AllQuiet (with_md e) s ts' (record w { md = [] }) in
      ((λ h. same.0 (subst P tests (all.0 h))), λ h. all.1 (subst P (sym tests) (same.1 h)))

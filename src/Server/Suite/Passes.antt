-- ===== src/Server/Suite/Passes.antt =====
-- When no test of a run fails: `runTests` of server/suite.go.
use aragorn.Prelude.{
  ℕ, ◌+◌, ◌-◌, ◌≤◌, ◌≡◌, refl, sym, subst, ◌∙◌, pos_part, Bool, true, false, not, ◌&&◌, ◌||◌, ◌↔◌,
  List, [], ◌∷◌, arith, if_intro,
}
use aragorn.Testsuite.{Env, Test}
use aragorn.Notifier.{Report, new_report}
use aragorn.Server.Suite.{Suite, Attempt, run_test_with_retry, run_loop, run, info}
use aragorn.Server.Suite.Attempts.{PassesIn, IsQuiet, run_test_with_retry-IsPass}
use aragorn.Server.Suite.Run.{NeverDone, add_attempt, loop_induction, nb_failed-add_attempt}

module _ {W : Type 0} (e : Env W) (s : Suite W) where
  -- How often a test is repeated at most.
  abbrev pub repetitions : ℕ
  repetitions = pos_part s.retry_count - 1

  -- Each test logs nothing in one of its attempts, where the tests before it leave the outside.
  abbrev pub AllQuiet : List (Test W) → W → Type 0
  AllQuiet [] w = Unit
  AllQuiet (t ∷ ts) w = (w' : W) × PassesIn e s t (IsQuiet e s t) repetitions w w' × AllQuiet ts w'

  run_loop-grows :
      (ts : List (Test W)) (r : Report W) (w : W) → r.nb_failed ≤ (run_loop e s ts r w).0.nb_failed
  unfolding add_attempt
  run_loop-grows ts r w =
      loop_induction e s (λ r'. r.nb_failed ≤ r'.nb_failed) more ts r w (omega arith)
    where
      more :
          (r' : Report W) (t : Test W) (w : W)
          → r.nb_failed ≤ r'.nb_failed
          → r.nb_failed ≤ (add_attempt r' (run_test_with_retry e s t w)).nb_failed
      more r' t w h = ground arith

  nb_failed-passed :
      (r : Report W) (a : Attempt W) → a.passed ≡ true → (add_attempt r a).nb_failed ≡ r.nb_failed
  unfolding add_attempt
  nb_failed-passed r a h = rw h

  run_loop-AllQuiet :
      NeverDone e
      → (ts : List (Test W)) (r : Report W) (w : W)
      → ((run_loop e s ts r w).0.nb_failed ≡ r.nb_failed) ↔ AllQuiet ts w
  unfolding run_loop add_attempt
  run_loop-AllQuiet never [] r w = ((λ h. tt), λ h. refl)
  run_loop-AllQuiet never (t ∷ ts) r w =
      let a : Attempt W = run_test_with_retry e s t w in
      let r' : Report W = add_attempt r a in
      let (passes, passed) = run_test_with_retry-IsPass e s t w in
      let failed : a.passed ≡ false → r'.nb_failed ≡ r.nb_failed + 1 = nb_failed-add_attempt r a in
      let later = run_loop-AllQuiet never ts r' a.world in
      if_intro (λ (res : Report W × W). (res.0.nb_failed ≡ r.nb_failed) ↔ AllQuiet (t ∷ ts) w)
        (not a.passed && s.failfast || e.is_done a.world) (r', a.world) (run_loop e s ts r' a.world)
        (λ stop.
          let bad : a.passed ≡ false = ground (arith, never a.world, stop) in
          (
            (λ h. absurd (omega (arith, failed bad, h))),
            λ h. let (w', one, more) = h in let won = (passed w' one).0 in cc,
          ))
        (λ _.
          if_intro
            (λ (b : Bool).
              ((run_loop e s ts r' a.world).0.nb_failed ≡ r.nb_failed) ↔ AllQuiet (t ∷ ts) w)
            a.passed true false
            (λ won.
              let same = nb_failed-passed r a won in
              (
                (λ h. (a.world, passes won, later.0 (h ∙ sym same))),
                λ h.
                    let (w', one, more) = h in
                    later.1 (subst (AllQuiet ts) (sym (passed w' one).1) more) ∙ same,
              ))
            (λ bad.
              let grows = run_loop-grows ts r' a.world in
              (
                (λ h. absurd (omega (arith, failed bad, h, grows))),
                λ h. let (w', one, more) = h in let won = (passed w' one).0 in cc,
              )))

  -- Where the context is not cancelled, no test of a run fails exactly when each of its tests, run in
  -- order, logs nothing in one of the attempts that it is given.
  pub run-AllQuiet :
      (w : W) → NeverDone e → ((run e s w).0.nb_failed ≡ 0) ↔ AllQuiet s.tests (e.new_md w)
  unfolding run new_report
  run-AllQuiet w never = run_loop-AllQuiet never s.tests (new_report e (info s) w) (e.new_md w)

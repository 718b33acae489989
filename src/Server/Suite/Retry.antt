-- ===== src/Server/Suite/Retry.antt =====
-- The retries of one test, `runTestWithRetry` of server/suite.go.
use Prim.Native.Nat.{max}
use aragorn.Prelude.{
  ℕ, zero, suc, ◌+◌, ◌-◌, ◌≤◌, ◌≡◌, ◌≢◌, refl, pos, pos_part, leb_ℤ, false, List, [], ◌∷◌, is_empty,
  arith, if_intro,
}
use aragorn.Testsuite.{Env, Test}
use aragorn.Notifier.{TestReport, reset, new_test_report}
use aragorn.Server.Suite.{Suite, Attempt, run_test, retry, run_test_with_retry}

not_empty {ℓ} : {A : Type ℓ} (xs : List A) → xs ≢ [] → is_empty xs ≡ false
not_empty [] h = absurd (h refl)
not_empty (x ∷ xs) h = refl

module _ {W : Type 0} (e : Env W) (s : Suite W) (t : Test W) where
  -- One more round than is needed changes nothing: the bound on the rounds is never what ends the
  -- loop, from the attempt at which the rest of the attempts fits the bound.
  pub retry_fuel :
      (left attempt : ℕ) (tr : TestReport W) (w : W)
      → pos_part s.retry_count ≤ attempt + left
      → retry (suc left) e s t attempt tr w ≡ retry left e s t attempt tr w
  unfolding retry
  retry_fuel zero attempt tr w h = ground arith
  retry_fuel (suc left) attempt tr w h = ground (
    arith,
    retry_fuel left (attempt + 1) (reset (run_test e s t tr w).report)
        (e.wait s.retry_wait (run_test e s t tr w).world).1,
  )

  -- What a report says after the attempts that led to it.
  abbrev pub IsOfOneAttempt : Attempt W → Type 0
  IsOfOneAttempt a =
      (a.passed ≡ is_empty a.report.errs)
      × (a.report.test ≡ t)
      × ((w : W) × (a.report.errs ≡ (t.run s.timeout w).0))

  run_test-IsOfOneAttempt :
      (tr : TestReport W) (w : W)
      → tr.errs ≡ []
      → tr.test ≡ t
      → IsOfOneAttempt (run_test e s t tr w)
  unfolding run_test
  run_test-IsOfOneAttempt tr w h same = (refl, same, (w, rw h))

  retry-IsOfOneAttempt :
      (left attempt : ℕ) (tr : TestReport W) (w : W)
      → tr.errs ≡ []
      → tr.test ≡ t
      → IsOfOneAttempt (retry left e s t attempt tr w)
  unfolding retry
  retry-IsOfOneAttempt zero attempt tr w h same = run_test-IsOfOneAttempt tr w h same
  retry-IsOfOneAttempt (suc left) attempt tr w h same =
      let a : Attempt W = run_test e s t tr w in
      let first = run_test-IsOfOneAttempt tr w h same in
      let more =
        retry-IsOfOneAttempt left (attempt + 1) (reset a.report) (e.wait s.retry_wait a.world).1
          reset_errs (reset_test a first.1) in
      if_intro IsOfOneAttempt a.passed _ _ (λ _. first)
        (λ _.
          if_intro IsOfOneAttempt (leb_ℤ s.retry_count (pos attempt)) _ _ (λ _. first)
            (λ _.
              if_intro IsOfOneAttempt (e.wait s.retry_wait a.world).0 _ _ (λ _. first) (λ _. more)))
    where
      reset_errs : (reset (run_test e s t tr w).report).errs ≡ []
      reset_errs = refl

      reset_test : (a : Attempt W) → a.report.test ≡ t → (reset a.report).test ≡ t
      reset_test a h = h

  -- A test passes exactly when its report holds no error, and the errors reported are those that one
  -- single attempt logged: what earlier attempts logged is gone.
  pub run_test_with_retry-IsOfOneAttempt : (w : W) → IsOfOneAttempt (run_test_with_retry e s t w)
  unfolding run_test_with_retry
  run_test_with_retry-IsOfOneAttempt w =
      retry-IsOfOneAttempt (pos_part s.retry_count) 1 (new_test_report e t w) w refl refl

  -- A count of the attempts, kept in the outside.
  pub record Counts (n : W → ℕ) : Type 0 where
    pub runs : (w : W) → n (t.run s.timeout w).1 ≡ n w + 1
    pub waits : (w : W) → n (e.wait s.retry_wait w).1 ≡ n w

  retry_bounded :
      (n : W → ℕ) (left attempt : ℕ) (tr : TestReport W) (w : W)
      → Counts n
      → let a = retry left e s t attempt tr w in
        (n w + 1 ≤ n a.world) × (n a.world ≤ n w + max 1 (pos_part s.retry_count + 1 - attempt))
  unfolding retry run_test
  retry_bounded n zero attempt tr w c = omega (arith, c.runs w)
  retry_bounded n (suc left) attempt tr w c =
      let a : Attempt W = run_test e s t tr w in
      ground (
        arith,
        c.runs w,
        c.waits a.world,
        retry_bounded n left (attempt + 1) (reset a.report) (e.wait s.retry_wait a.world).1 c,
      )

  -- A test is attempted once at least, and `retryCount` times at most (once where that is not
  -- positive).
  attempts_bounded :
      (n : W → ℕ) (w : W)
      → Counts n
      → let a = run_test_with_retry e s t w in
        (n w + 1 ≤ n a.world) × (n a.world ≤ n w + max 1 (pos_part s.retry_count))
  unfolding run_test_with_retry
  attempts_bounded n w c =
      omega (arith, retry_bounded n (pos_part s.retry_count) 1 (new_test_report e t w) w c)

  -- Where no attempt passes and no wait is cancelled.
  pub record AlwaysFails : Type 0 where
    pub fails : (w : W) → (t.run s.timeout w).0 ≢ []
    pub waits_out : (w : W) → (e.wait s.retry_wait w).0 ≡ false

  run_test-fails :
      (tr : TestReport W) (w : W)
      → tr.errs ≡ []
      → AlwaysFails
      → (run_test e s t tr w).passed ≡ false
  unfolding run_test
  run_test-fails tr w h f = rw h (not_empty (t.run s.timeout w).0 (f.fails w))

  reset_errs : (tr : TestReport W) → (reset tr).errs ≡ []
  unfolding reset
  reset_errs tr = refl

  fresh : (w : W) → (new_test_report e t w).errs ≡ []
  unfolding new_test_report
  fresh w = refl

  run_test-count :
      (n : W → ℕ) (tr : TestReport W) (w : W) → Counts n → n (run_test e s t tr w).world ≡ n w + 1
  unfolding run_test
  run_test-count n tr w c = c.runs w

  retry_exhausted :
      (n : W → ℕ) (left attempt : ℕ) (tr : TestReport W) (w : W)
      → tr.errs ≡ []
      → Counts n
      → AlwaysFails
      → pos_part s.retry_count ≤ attempt + left
      → let a = retry left e s t attempt tr w in
        (a.passed ≡ false) × (n a.world ≡ n w + max 1 (pos_part s.retry_count + 1 - attempt))
  unfolding retry
  retry_exhausted n zero attempt tr w h c f enough =
      (run_test-fails tr w h f, omega (arith, run_test-count n tr w c))
  retry_exhausted n (suc left) attempt tr w h c f enough =
      let a : Attempt W = run_test e s t tr w in
      let again =
        retry_exhausted n left (attempt + 1) (reset a.report) (e.wait s.retry_wait a.world).1
          (reset_errs a.report) c f (omega arith) in
      let once = run_test-count n tr w c in
      let failed = run_test-fails tr w h f in
      let waited = f.waits_out a.world in
      let uncounted = c.waits a.world in ground (arith, failed, waited, again, uncounted, once)

  -- A test that fails at every attempt, with no wait cancelled, is attempted `retryCount` times in
  -- all (once where that is not positive), and is reported as failed.
  pub attempts_exhausted :
      (n : W → ℕ) (w : W)
      → Counts n
      → AlwaysFails
      → let a = run_test_with_retry e s t w in
        (a.passed ≡ false) × (n a.world ≡ n w + max 1 (pos_part s.retry_count))
  unfolding run_test_with_retry
  attempts_exhausted n w c f =
      let all =
        retry_exhausted n (pos_part s.retry_count) 1 (new_test_report e t w) w (fresh w) c f
          (omega arith) in
      (all.0, omega (arith, all.1))

-- ===== src/Server/Suite/Attempts.antt =====
-- Within how many attempts a test passes: `runTestWithRetry` of server/suite.go.
use aragorn.Prelude.{
  ℕ, zero, suc, ◌+◌, ◌-◌, ◌≤◌, ◌≡◌, refl, sym, ◌∙◌, pos, leb_ℤ, pos_part, true, false, ◌↔◌, ◌⊎◌,
  inl, inr, [], is_empty_iff, arith, if_intro, Bool-cases,
}
use aragorn.Testsuite.{Env, Test}
use aragorn.Notifier.{TestReport, reset, new_test_report}
use aragorn.Server.Suite.{Suite, Attempt, run_test, retry, run_test_with_retry}

module _ {W : Type 0} (e : Env W) (s : Suite W) (t : Test W) where
  -- From one outside to another, a test passes at its first attempt, or it does not, the wait after that
  -- is not cancelled, and it passes with one repetition less. `Q` says where an attempt passes.
  abbrev pub PassesIn : (W → Type 0) → ℕ → W → W → Type 0
  PassesIn Q zero w w' = Q w × ((t.run s.timeout w).1 ≡ w')
  PassesIn Q (suc n) w w' =
      (Q w × ((t.run s.timeout w).1 ≡ w'))
      ⊎ ((Q w → ⊥)
          × ((e.wait s.retry_wait (t.run s.timeout w).1).0 ≡ false)
          × PassesIn Q n (e.wait s.retry_wait (t.run s.timeout w).1).1 w')

  -- It does not matter in which words it is said where an attempt passes.
  pub PassesIn-iff :
      (Q R : W → Type 0)
      → ((w : W) → Q w ↔ R w)
      → (n : ℕ) (w w' : W) → PassesIn Q n w w'
      → PassesIn R n w w'
  PassesIn-iff Q R same zero w w' (q, h) = ((same w).0 q, h)
  PassesIn-iff Q R same (suc n) w w' (inl (q, h)) = inl ((same w).0 q, h)
  PassesIn-iff Q R same (suc n) w w' (inr (bad, wait, h)) =
      inr ((λ r. bad ((same w).1 r)), wait, PassesIn-iff Q R same n _ w' h)

  abbrev pub IsQuiet : W → Type 0
  IsQuiet w = (t.run s.timeout w).0 ≡ []

  -- An attempt passes where the test does within some repetitions, and then leaves the same outside.
  abbrev pub IsPass : ℕ → W → Attempt W → Type 0
  IsPass n w a =
      (a.passed ≡ true → PassesIn IsQuiet n w a.world)
      × ((w' : W) → PassesIn IsQuiet n w w' → (a.passed ≡ true) × (a.world ≡ w'))

  IsQuiet-iff :
      (tr : TestReport W) (w : W) → tr.errs ≡ [] → ((run_test e s t tr w).passed ≡ true) ↔ IsQuiet w
  unfolding run_test
  IsQuiet-iff tr w h = rw h (is_empty_iff (t.run s.timeout w).0)

  run_test-world : (tr : TestReport W) (w : W) → (run_test e s t tr w).world ≡ (t.run s.timeout w).1
  unfolding run_test
  run_test-world tr w = refl

  -- The first attempt passes.
  once-IsPass :
      (n : ℕ) (tr : TestReport W) (w : W)
      → tr.errs ≡ []
      → (run_test e s t tr w).passed ≡ true
      → IsPass n w (run_test e s t tr w)
  once-IsPass zero tr w h won =
      let world = run_test-world tr w in
      ((λ _. ((IsQuiet-iff tr w h).0 won, sym world)), λ w' p. (won, world ∙ p.1))
  once-IsPass (suc n) tr w h won =
      let world = run_test-world tr w in
      let quiet = (IsQuiet-iff tr w h).0 won in
      (
        (λ _. inl (quiet, sym world)),
        λ w' p. (
          won,
          elim p [ inl (q, same) ↦ world ∙ same | inr (bad, go, rest) ↦ absurd (bad quiet) ],
        ),
      )

  -- The last attempt does not pass.
  last-IsPass :
      (tr : TestReport W) (w : W)
      → tr.errs ≡ []
      → (run_test e s t tr w).passed ≡ false
      → IsPass zero w (run_test e s t tr w)
  last-IsPass tr w h bad = ((λ yes. cc), λ w' p. let yes = (IsQuiet-iff tr w h).1 p.0 in cc)

  -- The wait after an attempt that does not pass is cancelled.
  cancelled-IsPass :
      (n : ℕ) (tr : TestReport W) (w : W) (a : Attempt W)
      → tr.errs ≡ []
      → (run_test e s t tr w).passed ≡ false
      → (e.wait s.retry_wait (t.run s.timeout w).1).0 ≡ true
      → a.passed ≡ false
      → IsPass (suc n) w a
  cancelled-IsPass n tr w a h bad stop failed = (
    (λ yes. cc),
    λ w' p. elim p [
      | inl (q, same) ↦ let yes = (IsQuiet-iff tr w h).1 q in cc
      | inr (no_pass, go, rest) ↦ cc
    ],
  )

  later-IsPass :
      (n : ℕ) (tr : TestReport W) (w : W) (a : Attempt W)
      → tr.errs ≡ []
      → (run_test e s t tr w).passed ≡ false
      → (e.wait s.retry_wait (t.run s.timeout w).1).0 ≡ false
      → IsPass n (e.wait s.retry_wait (t.run s.timeout w).1).1 a
      → IsPass (suc n) w a
  later-IsPass n tr w a h bad go rest = (
    (λ yes. inr ((λ q. let yes' = (IsQuiet-iff tr w h).1 q in cc), go, rest.0 yes)),
    λ w' p. elim p [
      | inl (q, same) ↦ let yes = (IsQuiet-iff tr w h).1 q in cc
      | inr (no_pass, go', more) ↦ rest.1 w' more
    ],
  )

  retry-IsPass :
      (left attempt n : ℕ) (tr : TestReport W) (w : W)
      → tr.errs ≡ []
      → n ≡ pos_part s.retry_count - attempt
      → n ≤ left
      → IsPass n w (retry left e s t attempt tr w)
  unfolding retry run_test reset
  retry-IsPass zero attempt (suc n) tr w h same enough = absurd (omega arith)
  retry-IsPass zero attempt zero tr w h same enough =
      elim (Bool-cases (run_test e s t tr w).passed) [
        | inl won ↦ once-IsPass zero tr w h won
        | inr bad ↦ last-IsPass tr w h bad
      ]
  retry-IsPass (suc left) attempt zero tr w h same enough =
      let a : Attempt W = run_test e s t tr w in
      if_intro (IsPass zero w) a.passed _ _ (λ won. once-IsPass zero tr w h won)
        (λ bad.
          if_intro (IsPass zero w) (leb_ℤ s.retry_count (pos attempt)) _ _
            (λ _. last-IsPass tr w h bad) (λ more. absurd (ground arith)))
  retry-IsPass (suc left) attempt (suc n) tr w h same enough =
      let a : Attempt W = run_test e s t tr w in
      let again =
        retry-IsPass left (attempt + 1) n (reset a.report) (e.wait s.retry_wait a.world).1 refl
          (omega arith) (omega arith) in
      if_intro (IsPass (suc n) w) a.passed _ _ (λ won. once-IsPass (suc n) tr w h won)
        (λ bad.
          if_intro (IsPass (suc n) w) (leb_ℤ s.retry_count (pos attempt)) _ _
            (λ last. absurd (ground arith))
            (λ _.
              if_intro (IsPass (suc n) w) (e.wait s.retry_wait a.world).0 _ _
                (λ stop.
                  cancelled-IsPass n tr w (record a { world = (e.wait s.retry_wait a.world).1 }) h
                    bad stop bad)
                (λ go.
                  later-IsPass n tr w
                    (retry left e s t (attempt + 1) (reset a.report)
                      (e.wait s.retry_wait a.world).1)
                    h bad go again)))

  -- A test passes exactly when it does within as many attempts as are allowed, one at least.
  pub run_test_with_retry-IsPass :
      (w : W) → IsPass (pos_part s.retry_count - 1) w (run_test_with_retry e s t w)
  unfolding run_test_with_retry new_test_report
  run_test_with_retry-IsPass w =
      retry-IsPass (pos_part s.retry_count) 1 (pos_part s.retry_count - 1) (new_test_report e t w) w
        refl refl (omega arith)

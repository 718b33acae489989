-- ===== src/Cmd/Runs.antt =====
-- What `execCommand.exec` of cmd/aragorn/exec.go runs, and what it returns.
use aragorn.Prelude.{
  ltb, Bool, true, false, ◌||◌, ◌≡◌, refl, Option, List, [], ◌∷◌, ◌++◌, Bool-cases, inl, inr,
}
use aragorn.Testsuite.{Env}
use aragorn.Notifier.{Notifier}
use aragorn.Server.Suite.{Suite, run}
use aragorn.Cmd.Exec.{notify, exec}

||-false : (a b : Bool) → (a || b) ≡ false → (a ≡ false) × (b ≡ false)
||-false true b h = cc
||-false false b h = (refl, h)

module _ {W : Type 0} (e : Env W) (n : Option (Notifier W)) where
  -- The outside after all the suites were run and reported, in order.
  abbrev pub after_all : List (Suite W) → W → W
  after_all [] w = w
  after_all (suite ∷ suites) w =
      let (report, w') = run e suite w in after_all suites (notify n report w')

  -- Some suite had a failed test, when all were run in order.
  abbrev pub some_failed : List (Suite W) → W → Bool
  some_failed [] w = false
  some_failed (suite ∷ suites) w =
      let (report, w') = run e suite w in
      ltb 0 report.nb_failed || some_failed suites (notify n report w')

  exec-from :
      (suites : List (Suite W)) (failed : Bool) (w : W)
      → exec e false n suites failed w ≡ ((failed || some_failed suites w), after_all suites w)
  unfolding exec
  exec-from [] true w = refl
  exec-from [] false w = refl
  exec-from (suite ∷ suites) true w =
      let r = run e suite w in exec-from suites true (notify n r.0 r.1)
  exec-from (suite ∷ suites) false w =
      let r = run e suite w in
      elim (Bool-cases (ltb 0 r.0.nb_failed)) [
        | inl h ↦ rw h (exec-from suites true (notify n r.0 r.1))
        | inr h ↦ rw h (exec-from suites false (notify n r.0 r.1))
      ]

  -- Without failfast, `exec` runs every suite and reports it, in order, and returns an error exactly
  -- when some suite had a failed test.
  pub exec-all :
      (suites : List (Suite W)) (w : W)
      → exec e false n suites false w ≡ (some_failed suites w, after_all suites w)
  exec-all suites w = exec-from suites false w

  -- Under failfast, `exec` ends with an error after the first suite with a failed test, once that is
  -- reported: the suites before it, which did not fail, are run, and none after it.
  pub exec_stops :
      (before after : List (Suite W)) (suite : Suite W) (w : W)
      → some_failed before w ≡ false
      → ltb 0 (run e suite (after_all before w)).0.nb_failed ≡ true
      → exec e true n (before ++ suite ∷ after) false w ≡ (true, after_all (before ++ suite ∷ []) w)
  unfolding exec
  exec_stops [] after suite w h failed = rw failed
  exec_stops (s ∷ before) after suite w h failed =
      let r = run e s w in
      let (miss, rest) = ||-false (ltb 0 r.0.nb_failed) (some_failed before (notify n r.0 r.1)) h in
      rw miss (exec_stops before after suite (notify n r.0 r.1) rest failed)

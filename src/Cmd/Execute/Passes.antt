-- ===== src/Cmd/Execute/Passes.antt =====
-- When `exec` ends without an error: `execCommand.Run` of cmd/aragorn/exec.go.
use aragorn.Prelude.{
  Str, codes, Bool, true, false, Option, Outcome, ok, err, panic, List, [], ◌∷◌, ltb, ◌≡◌, ◌∙◌,
  refl, sym, ap, ◌↔◌, inl, inr, Bool-cases,
}
use aragorn.Testsuite.{Env}
use aragorn.Notifier.{Notifier}
use aragorn.Server.Suite.{Suite, run}
use aragorn.Cmd.Usage.{Values, EndsWell}
use aragorn.Cmd.Exec.{exec, notify}
use aragorn.Cmd.Runs.{some_failed, exec-all}
use aragorn.Cmd.Program.{Program}
use aragorn.Cmd.Execute.{exec_of, exec_suites, ended, failure_if, executed, exec_run}

-- `exec` fails exactly when some suite had a failed test, under failfast too.
exec-failed :
    {W : Type 0} (e : Env W) (failfast : Bool) (n : Option (Notifier W)) (suites : List (Suite W))
    (w : W)
    → (exec e failfast n suites false w).0 ≡ some_failed e n suites w
unfolding exec
exec-failed e false n suites w = ap (λ r. r.0) (exec-all e n suites w)
exec-failed e true n [] w = refl
exec-failed e true n (suite ∷ suites) w =
    let r = run e suite w in
    elim (Bool-cases (ltb 0 r.0.nb_failed)) [
      | inl h ↦ rw h refl
      | inr h ↦ rw h (exec-failed e true n suites (notify n r.0 r.1))
    ]

module _ {C N W : Type 0} (p : Program C N W) where
  -- What an `exec` without an error needs: the suites are loaded, no suite has a failed test when they
  -- are run in order, and the flag -wait is not given.
  pub record Passes (v : Values) (args : List Str) (w : W) : Type 0 where
    pub suites : List (Suite W)
    pub notifier : Option (Notifier W)
    pub loads : exec_suites p (v.text (codes "config")) (exec_of v) args ≡ ok (suites, notifier)
    pub all_pass : some_failed p.env notifier suites w ≡ false
    pub returns : v.bool (codes "wait") ≡ false

  ended-EndsWell :
      (wait : Bool) (r : Bool × W) → EndsWell (ended p wait r) ↔ ((r.0 ≡ false) × (wait ≡ false))
  unfolding ended failure_if
  ended-EndsWell true r = ((λ h. absurd h), λ h. cc)
  ended-EndsWell false (true, w) = ((λ h. absurd h), λ h. cc)
  ended-EndsWell false (false, w) = ((λ h. (refl, refl)), λ h. tt)

  executed-Passes :
      (v : Values) (args : List Str) (w : W)
      (o : Outcome Str (List (Suite W) × Option (Notifier W)))
      → exec_suites p (v.text (codes "config")) (exec_of v) args ≡ o
      → EndsWell (executed p (v.bool (codes "wait")) (v.bool (codes "failfast")) o w)
        ↔ Passes v args w
  unfolding executed
  executed-Passes v args w (ok (suites, n)) e =
      let failfast = v.bool (codes "failfast") in
      let ends = ended-EndsWell (v.bool (codes "wait")) (exec p.env failfast n suites false w) in
      let failed = exec-failed p.env failfast n suites w in
      (
        (λ h.
            let (none_failed, no_wait) = ends.0 h in
            record {
              suites = suites;
              notifier = n;
              loads = e;
              all_pass = sym failed ∙ none_failed;
              returns = no_wait;
            }),
        λ r.
            let both : (r.suites, r.notifier) ≡ (suites, n) = cc (e, r.loads) in
            let same =
              ap (λ (x : List (Suite W) × Option (Notifier W)). some_failed p.env x.1 x.0 w) both in
            ends.1 (failed ∙ (sym same ∙ r.all_pass), r.returns),
      )
  executed-Passes v args w (err msg) e = ((λ h. absurd h), λ r. let loads = r.loads in cc)
  executed-Passes v args w panic e = ((λ h. absurd h), λ r. let loads = r.loads in cc)

  -- `exec` ends without an error exactly when its suites are loaded, no suite has a failed test when
  -- they are run in order, and the flag -wait is not given.
  pub exec_run-Passes :
      (v : Values) (args : List Str) (w : W) → EndsWell (exec_run p v args w) ↔ Passes v args w
  unfolding exec_run
  exec_run-Passes v args w =
      executed-Passes v args w (exec_suites p (v.text (codes "config")) (exec_of v) args) refl

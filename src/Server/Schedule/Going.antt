-- ===== src/Server/Schedule/Going.antt =====
-- A server that takes suites and starts does not stop its scheduler: `AddSuite` and `Start` of
-- server/server.go as steps of the scheduler.
use aragorn.Prelude.{
  str_eq, ℤ, is_positive, ◌≡◌, subst, inl, inr, ok, >>=-eq-ok, List, [], ◌∷◌, Bool-cases,
}
use aragorn.Scheduler.{Cron}
use aragorn.Scheduler.Steps.{add_step, add_cron_step, start_step}
use aragorn.Scheduler.Alive.{NoStop, begin, then_step, NoStop-trans}
use aragorn.Server.Suite.{Suite}
use aragorn.Server.Schedule.{Server, add_suite, add_suites, start_server, with_scheduler}
use aragorn.Server.Schedule.Accepts.{adopted}

module _ {W X : Type 0} (c : Cron X) where
  add_suite-NoStop :
      (now : ℤ) (suite : Suite W) (s t : Server W X)
      → add_suite c now suite s ≡ ok t
      → NoStop c s.sch t.sch
  unfolding add_suite
  add_suite-NoStop now suite s t e = elim (Bool-cases (str_eq suite.run_cron [])) [
    | inl p ↦ elim (Bool-cases (is_positive suite.run_every)) [
      | inl q ↦
          let (sch, one, same) = adopted c suite.path s t _ (rw (p, q) at e) in
          subst (NoStop c s.sch) same (
            then_step begin
              (add_step now suite.path (record { suite = suite; notifier = s.notifier })
                suite.run_every one)
              tt)
      | inr q ↦ let e' = rw (p, q) at e in cc
    ]
    | inr p ↦
        let (sch, one, same) = adopted c suite.path s t _ (rw p at e) in
        subst (NoStop c s.sch) same (
          then_step begin
            (add_cron_step now suite.path (record { suite = suite; notifier = s.notifier })
              suite.run_cron one)
            tt)
  ]

  pub add_suites-NoStop :
      (now : ℤ) (suites : List (Suite W)) (s t : Server W X)
      → add_suites c now suites s ≡ ok t
      → NoStop c s.sch t.sch
  unfolding add_suites
  add_suites-NoStop now [] s t e =
      let same : s ≡ t = cc e in subst (λ (x : Server W X). NoStop c s.sch x.sch) same begin
  add_suites-NoStop now (suite ∷ suites) s t e =
      let (u, one, more) = >>=-eq-ok _ _ e in
      NoStop-trans c (add_suite-NoStop now suite s u one) (add_suites-NoStop now suites u t more)

  pub start_server-NoStop :
      (later : ℤ) (s t : Server W X) → start_server c later s ≡ ok t → NoStop c s.sch t.sch
  unfolding start_server with_scheduler
  start_server-NoStop later s t e =
      let (sch, one, e1) = >>=-eq-ok _ _ e in
      let same : record s { sch = sch } ≡ t = cc e1 in
      subst (λ (x : Server W X). NoStop c s.sch x.sch) same
        (then_step begin (start_step later one) tt)

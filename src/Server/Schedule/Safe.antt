-- ===== src/Server/Schedule/Safe.antt =====
-- The jobs of a server can always be scheduled: `AddSuite` of server/server.go asks for a rule first, so
-- no cron expression that is nil is used.
use aragorn.Prelude.{
  Str, str_eq, ℤ, is_positive, false, ◌≡◌, refl, inl, inr, Option, Outcome, ok, err, panic, ◌>>=◌,
  Keeps, List, [], ◌∷◌, Bool-cases,
}
use aragorn.Notifier.{Notifier}
use aragorn.Scheduler
use aragorn.Scheduler.{Scheduler, Cron}
use aragorn.Scheduler.Rules.{AllRules, start-ok, add-Keeps, add_cron-Keeps}
use aragorn.Server.Suite.{Suite}
use aragorn.Server.Schedule.{
  Server, SuiteRunner, ScheduleError, add_suite, add_suites, new_server, adopt,
}

module _ {W X : Type 0} (c : Cron X) where
  -- A server that was not started, whose jobs all have a rule.
  pub record IsReady (s : Server W X) : Type 0 where
    pub rules : AllRules s.sch
    pub waits : s.sch.running ≡ false

  adopt-IsReady :
      (path : Str) (s : Server W X) (o : Outcome Scheduler.Error (Scheduler (SuiteRunner W) X))
      → IsReady s
      → Keeps (λ t. AllRules t × (t.running ≡ s.sch.running)) o
      → Keeps IsReady (adopt path s o)
  unfolding adopt
  adopt-IsReady path s (ok t) v h = record { rules = h.0; waits = rw h.1 v.waits }
  adopt-IsReady path s (err e) v h = tt
  adopt-IsReady path s panic v h = absurd h

  add_suite-IsReady :
      (now : ℤ) (suite : Suite W) (s : Server W X)
      → IsReady s
      → Keeps IsReady (add_suite c now suite s)
  unfolding add_suite
  add_suite-IsReady now suite s v = elim (Bool-cases (str_eq suite.run_cron [])) [
    | inr p ↦ rw p (
        adopt-IsReady suite.path s _ v (
          add_cron-Keeps c now suite.path (record { suite = suite; notifier = s.notifier })
            suite.run_cron s.sch v.rules))
    | inl p ↦ elim (Bool-cases (is_positive suite.run_every)) [
      | inr q ↦ rw (p, q) tt
      | inl q ↦
          rw (p, q)
            (adopt-IsReady suite.path s _ v (
              add-Keeps c now suite.path (record { suite = suite; notifier = s.notifier })
                suite.run_every s.sch q v.rules))
    ]
  ]

  add_suites-IsReady :
      (now : ℤ) (suites : List (Suite W)) (s : Server W X)
      → IsReady s
      → Keeps IsReady (add_suites c now suites s)
  unfolding add_suites ◌>>=◌
  add_suites-IsReady now [] s v = v
  add_suites-IsReady now (suite ∷ suites) s v =
      go (add_suite c now suite s) (add_suite-IsReady now suite s v) (add_suites-IsReady now suites)
    where
      go :
          (o : Outcome ScheduleError (Server W X))
          → Keeps IsReady o
          → ((t : Server W X) → IsReady t → Keeps IsReady (add_suites c now suites t))
          → Keeps IsReady (o >>= add_suites c now suites)
      go (ok t) h rest = rest t h
      go (err e) h rest = tt
      go panic h rest = absurd h

  -- Where a new server has been given its suites, whatever those are, adding them has not panicked, and
  -- if all were accepted the scheduler starts.
  pub add_suites-starts :
      (now later : ℤ) (n : Option (Notifier W)) (suites : List (Suite W))
      → Keeps
          (λ s. (t : Scheduler (SuiteRunner W) X) × (Scheduler.start c later s.sch ≡ ok t))
          (add_suites c now suites (new_server n))
  add_suites-starts now later n suites =
      go (add_suites c now suites (new_server n))
        (add_suites-IsReady now suites (new_server n) (record { rules = tt; waits = refl }))
    where
      go :
          (o : Outcome ScheduleError (Server W X))
          → Keeps IsReady o
          → Keeps
              (λ s. (t : Scheduler (SuiteRunner W) X) × (Scheduler.start c later s.sch ≡ ok t))
              o
      go (ok t) h = start-ok c later t.sch h.waits h.rules
      go (err e) h = tt
      go panic h = absurd h

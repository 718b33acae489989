-- ===== src/Server/Schedule/Armed.antt =====
-- The jobs of a server that has started: `AddSuite` and `Start` of server/server.go.
use aragorn.Prelude.{
  str_eq, ℤ, is_positive, true, false, ◌≡◌, ◌∙◌, refl, sym, ap, subst, inl, inr, Option, Outcome,
  ok, err, panic, >>=-eq-ok, List, [], ◌∷◌, ◌++◌, append_assoc, append-nil, Bool-cases,
  Option-cases,
}
use aragorn.Prelude.Assoc.{Assoc, AllValues}
use aragorn.Notifier.{Notifier}
use aragorn.Scheduler
use aragorn.Scheduler.{
  Scheduler, Cron, Job, armed, schedule, schedule_all, time_until_next_run, start,
}
use aragorn.Scheduler.Ticking.{bodies}
use aragorn.Scheduler.Waiting.{HasMore, add-HasMore, add_cron-HasMore}
use aragorn.Server.Suite.{Suite}
use aragorn.Server.Schedule.{
  Server, SuiteRunner, new_server, adopt, add_suite, add_suites, start_server, with_scheduler,
}

module _ {W X : Type 0} (n : Option (Notifier W)) where
  -- A job for each suite, under its path and in order, which runs the suite for the notifier, and of
  -- which `P` holds.
  abbrev pub Holds :
      (Job (SuiteRunner W) X → Type 0) → List (Suite W) → Assoc (Job (SuiteRunner W) X) → Type 0
  Holds P [] [] = Unit
  Holds P [] (_ ∷ _) = ⊥
  Holds P (_ ∷ _) [] = ⊥
  Holds P (s ∷ ss) ((k, j) ∷ jobs) =
      ((k ≡ s.path) × (j.body ≡ record { suite = s; notifier = n }) × P j) × Holds P ss jobs

  abbrev IsNew : Job (SuiteRunner W) X → Type 0
  IsNew j = j.timers ≡ []

  abbrev IsArmed : Job (SuiteRunner W) X → Type 0
  IsArmed j = (d : ℤ) × (j.timers ≡ armed d ∷ [])

  -- One armed job for each suite, under its path, in order.
  abbrev pub AllArmed : List (Suite W) → Assoc (Job (SuiteRunner W) X) → Type 0
  AllArmed = Holds IsArmed

  Holds-bodies :
      (P Q : Job (SuiteRunner W) X → Type 0) (ss : List (Suite W))
      (jobs jobs' : Assoc (Job (SuiteRunner W) X))
      → Holds P ss jobs
      → bodies jobs' ≡ bodies jobs
      → AllValues Q jobs'
      → Holds Q ss jobs'
  unfolding bodies
  Holds-bodies P Q [] [] [] h e q = tt
  Holds-bodies P Q [] [] (_ ∷ _) h e q = cc
  Holds-bodies P Q [] (_ ∷ _) jobs' h e q = absurd h
  Holds-bodies P Q (_ ∷ _) [] jobs' h e q = absurd h
  Holds-bodies P Q (s ∷ ss) (_ ∷ _) [] h e q = cc
  Holds-bodies P Q (s ∷ ss) ((k, j) ∷ jobs) ((k', j') ∷ jobs') ((key, body, p), h) e (q, qs) =
      let rest : bodies jobs' ≡ bodies jobs = cc e in
      ((cc, cc, q), Holds-bodies P Q ss jobs jobs' h rest qs)

  -- Jobs whose names and bodies are those of one armed job for each suite, and of which `Q` holds.
  pub AllArmed-bodies :
      (Q : Job (SuiteRunner W) X → Type 0) (ss : List (Suite W))
      (jobs jobs' : Assoc (Job (SuiteRunner W) X))
      → AllArmed ss jobs
      → bodies jobs' ≡ bodies jobs
      → AllValues Q jobs'
      → Holds Q ss jobs'
  AllArmed-bodies Q ss jobs jobs' h e q = Holds-bodies IsArmed Q ss jobs jobs' h e q

  Holds-append :
      (ss : List (Suite W)) (s : Suite W) (jobs : Assoc (Job (SuiteRunner W) X))
      (j : Job (SuiteRunner W) X)
      → Holds IsNew ss jobs
      → j.body ≡ record { suite = s; notifier = n }
      → IsNew j
      → Holds IsNew (ss ++ s ∷ []) (jobs ++ (s.path, j) ∷ [])
  Holds-append [] s [] j h b e = ((refl, b, e), tt)
  Holds-append [] s (_ ∷ _) j h b e = absurd h
  Holds-append (_ ∷ _) s [] j h b e = absurd h
  Holds-append (t ∷ ss) s ((k, i) ∷ jobs) j (here, h) b e = (here, Holds-append ss s jobs j h b e)

  module _ (c : Cron X) where
    schedule-armed :
        (now : ℤ) (j j' : Job (SuiteRunner W) X)
        → schedule c now j ≡ ok j'
        → (d : ℤ) × (record j { timers = armed d ∷ j.timers } ≡ j')
    unfolding schedule
    schedule-armed now j j' h = elim (Option-cases (time_until_next_run c now j)) [
      | inl e ↦ let h' = rw (e, schedule) at h in cc
      | inr (d, e) ↦ (d, cc (rw (e, schedule) at h))
    ]

    schedule_all-AllArmed :
        (now : ℤ) (ss : List (Suite W)) (jobs jobs' : Assoc (Job (SuiteRunner W) X))
        → Holds IsNew ss jobs
        → schedule_all c now jobs ≡ ok jobs'
        → AllArmed ss jobs'
    unfolding schedule_all
    schedule_all-AllArmed now [] [] jobs' h e =
        let same : [] ≡ jobs' = cc e in subst (AllArmed []) same tt
    schedule_all-AllArmed now [] (_ ∷ _) jobs' h e = absurd h
    schedule_all-AllArmed now (_ ∷ _) [] jobs' h e = absurd h
    schedule_all-AllArmed now (s ∷ ss) ((k, j) ∷ jobs) jobs' ((key, body, fresh), h) e =
        let (j', one, e1) = >>=-eq-ok _ _ e in
        let (rest, more, e2) = >>=-eq-ok _ _ e1 in
        let (d, same) = schedule-armed now j j' one in
        let list : (k, j') ∷ rest ≡ jobs' = cc e2 in
        let timers =
          ap (λ (x : Job (SuiteRunner W) X). x.timers) (sym same) ∙ ap (λ ts. armed d ∷ ts) fresh in
        let body' = ap (λ (x : Job (SuiteRunner W) X). x.body) (sym same) ∙ body in
        subst (AllArmed (s ∷ ss)) list
          ((key, body', (d, timers)), schedule_all-AllArmed now ss jobs rest h more)

    -- The suites that a server has been given, each with a job that waits for the start.
    record Given (ss : List (Suite W)) (s : Server W X) : Type 0 where
      jobs : Holds IsNew ss s.sch.jobs
      idle : s.sch.running ≡ false
      tells : s.notifier ≡ n

    adopt-Given :
        (ss : List (Suite W)) (suite : Suite W) (s t : Server W X)
        (o : Outcome Scheduler.Error (Scheduler (SuiteRunner W) X))
        → Given ss s
        → ((sch : Scheduler (SuiteRunner W) X)
            → o ≡ ok sch
            → HasMore c suite.path (record { suite = suite; notifier = s.notifier }) s.sch sch)
        → adopt suite.path s o ≡ ok t
        → Given (ss ++ suite ∷ []) t
    unfolding adopt
    adopt-Given ss suite s t (ok sch) g more e =
        let (j, body, fresh, same) = more sch refl in
        let tells : j.body ≡ record { suite = suite; notifier = n } =
          body ∙ ap (λ m. record { suite = suite; notifier = m }) g.tells in
        let next : record s { sch = record s.sch { jobs = s.sch.jobs ++ (suite.path, j) ∷ [] } }
            ≡ t =
          ap (λ x. record s { sch = x }) same ∙ cc e in
        subst (Given (ss ++ suite ∷ [])) next (record {
          jobs = Holds-append ss suite s.sch.jobs j g.jobs tells fresh;
          idle = g.idle;
          tells = g.tells;
        })
    adopt-Given ss suite s t (err x) g more e = cc
    adopt-Given ss suite s t panic g more e = cc

    add_suite-Given :
        (now : ℤ) (ss : List (Suite W)) (suite : Suite W) (s t : Server W X)
        → Given ss s
        → add_suite c now suite s ≡ ok t
        → Given (ss ++ suite ∷ []) t
    unfolding add_suite
    add_suite-Given now ss suite s t g e = elim (Bool-cases (str_eq suite.run_cron [])) [
      | inl p ↦ elim (Bool-cases (is_positive suite.run_every)) [
        | inl q ↦
            adopt-Given ss suite s t _ g (λ sch. add-HasMore c now suite.path _ _ s.sch sch g.idle)
              (rw (p, q) at e)
        | inr q ↦ let e' = rw (p, q) at e in cc
      ]
      | inr p ↦
          adopt-Given ss suite s t _ g
            (λ sch. add_cron-HasMore c now suite.path _ _ s.sch sch g.idle) (rw p at e)
    ]

    add_suites-Given :
        (now : ℤ) (ss suites : List (Suite W)) (s t : Server W X)
        → Given ss s
        → add_suites c now suites s ≡ ok t
        → Given (ss ++ suites) t
    unfolding add_suites
    add_suites-Given now ss [] s t g e =
        let same : s ≡ t = cc e in
        subst (λ xs. Given xs t) (sym (append-nil ss)) (subst (Given ss) same g)
    add_suites-Given now ss (suite ∷ suites) s t g e =
        let (u, one, more) = >>=-eq-ok _ _ e in
        subst (λ xs. Given xs t) (append_assoc ss (suite ∷ []) suites)
          (add_suites-Given now (ss ++ suite ∷ []) suites u t
            (add_suite-Given now ss suite s u g one) more)

    start-jobs :
        (later : ℤ) (s t : Scheduler (SuiteRunner W) X)
        → s.running ≡ false
        → start c later s ≡ ok t
        → (jobs : Assoc (Job (SuiteRunner W) X)) × (schedule_all c later s.jobs ≡ ok jobs)
          × (record s { jobs = jobs; running = true } ≡ t)
    unfolding start
    start-jobs later s t idle e =
        let (jobs, scheduled, same) = >>=-eq-ok _ _ (rw (idle, start) at e) in
        (jobs, scheduled, cc same)

    -- A new server that has taken its suites and started has one job for each of them, under its path
    -- and in order, which runs the suite for the notifier of the server and has one timer, which is
    -- armed.
    pub start_server-AllArmed :
        (now later : ℤ) (suites : List (Suite W)) (s t : Server W X)
        → add_suites c now suites (new_server n) ≡ ok s
        → start_server c later s ≡ ok t
        → AllArmed suites t.sch.jobs × (t.sch.running ≡ true)
    unfolding start_server with_scheduler
    start_server-AllArmed now later suites s t given up =
        let g =
          add_suites-Given now [] suites (new_server n) s
            (record { jobs = tt; idle = refl; tells = refl }) given in
        let (sch, one, e1) = >>=-eq-ok _ _ up in
        let (jobs, scheduled, same) = start-jobs later s.sch sch g.idle one in
        let left : record s { sch = record s.sch { jobs = jobs; running = true } } ≡ t =
          ap (λ x. record s { sch = x }) same ∙ cc e1 in
        subst (λ (x : Server W X). AllArmed suites x.sch.jobs × (x.sch.running ≡ true)) left
          (schedule_all-AllArmed later suites s.sch.jobs jobs g.jobs scheduled, refl)

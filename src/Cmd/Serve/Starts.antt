-- ===== src/Cmd/Serve/Starts.antt =====
-- When the server of `runCommand.Run` of cmd/aragorn/run.go starts.
use aragorn.Prelude.{
  Str, ℤ, ◌≡◌, refl, ◌↔◌, Option, Outcome, ok, err, panic, ◌>>=◌, >>=-eq-ok, Keeps, All, List, [],
  true, subst,
}
use aragorn.Notifier.{Notifier}
use aragorn.Scheduler
use aragorn.Scheduler.{Scheduler, Cron}
use aragorn.Server.Suite.{Suite}
use aragorn.Server.Load.Order.{AllLoaded, gen_suites-AllLoaded}
use aragorn.Server.Config.{Config, new_config_from_file}
use aragorn.Server.Notifiers.{gen_notifier}
use aragorn.Server.Schedule.{
  Server, SuiteRunner, ScheduleError, new_server, add_suites, start_server,
}
use aragorn.Server.Schedule.Safe.{add_suites-starts}
use aragorn.Server.Schedule.Accepts.{HasRule, AllDistinct, add_suites-accepts}
use aragorn.Server.Schedule.Armed.{AllArmed, start_server-AllArmed}
use aragorn.Cmd.Program.{Program}
use aragorn.Cmd.Serve.{added, started, set_up_server}

module _ {C N W X : Type 0} (p : Program C N W) (c : Cron X) (now later : ℤ) (config : Str) where
  -- What a start needs: the configuration is read, every entry loads a suite, the notifiers are set
  -- up without a panic, every suite has a rule to be scheduled by, and no two have the same path.
  pub record IsAccepted : Type 0 where
    pub cfg : Config
    pub suites : List (Suite W)
    pub notifier : Option (Notifier W)
    pub reads : new_config_from_file p.loader.files p.decode_config config ≡ ok cfg
    pub loads : AllLoaded p.loader cfg.dir [] cfg.suites suites
    pub notifies : gen_notifier p.find_notifier cfg.notifiers ≡ ok notifier
    pub rules : All (HasRule c) suites
    pub distinct : AllDistinct suites

  -- What a start makes of a configuration: its suites, each loaded from its entry, have each one
  -- armed job under their paths, in order, which reports to the notifier of the configuration.
  pub record Serves (s : Server W X) : Type 0 where
    pub cfg : Config
    pub suites : List (Suite W)
    pub notifier : Option (Notifier W)
    pub reads : new_config_from_file p.loader.files p.decode_config config ≡ ok cfg
    pub loads : AllLoaded p.loader cfg.dir [] cfg.suites suites
    pub notifies : gen_notifier p.find_notifier cfg.notifiers ≡ ok notifier
    pub jobs : AllArmed notifier suites s.sch.jobs
    pub running : s.sch.running ≡ true

  added-ok : {A : Type 0} (o : Outcome ScheduleError A) (a : A) → added o ≡ ok a → o ≡ ok a
  unfolding added
  added-ok (ok b) a h = cc
  added-ok (err e) a h = cc
  added-ok panic a h = cc

  started-ok : {A : Type 0} (o : Outcome Scheduler.Error A) (a : A) → started o ≡ ok a → o ≡ ok a
  unfolding started
  started-ok (ok b) a h = cc
  started-ok (err e) a h = cc
  started-ok panic a h = cc

  -- The parts of a set-up that succeeds.
  pub steps :
      (s : Server W X)
      → set_up_server p c now later config ≡ ok s
      → (r : IsAccepted) × ((t : Server W X) × (add_suites c now r.suites (new_server r.notifier)
            ≡ ok t)
          × (start_server c later t ≡ ok s))
  unfolding set_up_server
  steps s h =
      let (cfg, reads, h1) = >>=-eq-ok _ _ h in
      let (suites, loads, h2) = >>=-eq-ok _ _ h1 in
      let (n, notifies, h3) = >>=-eq-ok _ _ h2 in
      let (t, accepts, up) = >>=-eq-ok _ _ h3 in
      let given = added-ok (add_suites c now suites (new_server n)) t accepts in
      let (rules, distinct) = (add_suites-accepts c now n suites).0 (t, given) in
      (
        record {
          cfg = cfg;
          suites = suites;
          notifier = n;
          reads = reads;
          loads = (gen_suites-AllLoaded p.loader cfg.dir [] cfg.suites suites).0 loads;
          notifies = notifies;
          rules = rules;
          distinct = distinct;
        },
        (t, given, started-ok (start_server c later t) s up),
      )

  starts :
      (n : Option (Notifier W)) (suites : List (Suite W)) (t : Server W X)
      → add_suites c now suites (new_server n) ≡ ok t
      → (s : Server W X) × (start_server c later t ≡ ok s)
  unfolding start_server ◌>>=◌
  starts n suites t accepts =
      let (sch, up) : (sch : Scheduler (SuiteRunner W) X) × (Scheduler.start c later t.sch
            ≡ ok sch) =
        subst
          (Keeps (λ (s : Server W X).
            (sch : Scheduler (SuiteRunner W) X) × (Scheduler.start c later s.sch ≡ ok sch)))
          accepts (add_suites-starts c now later n suites) in
      (record t { sch = sch }, rw up refl)

  -- The server of `run` starts exactly when the configuration is read, every entry loads a suite, the
  -- notifiers are set up without a panic, every suite has a cron expression that parses, or none and
  -- a positive interval, and no two suites have the same path.
  pub set_up_server-IsAccepted :
      ((s : Server W X) × (set_up_server p c now later config ≡ ok s)) ↔ IsAccepted
  unfolding set_up_server ◌>>=◌ added started
  set_up_server-IsAccepted = (
    (λ h. let (s, e) = h in (steps s e).0),
    λ r.
        let (t, given) = (add_suites-accepts c now r.notifier r.suites).1 (r.rules, r.distinct) in
        let (s, up) = starts r.notifier r.suites t given in
        let loads = (gen_suites-AllLoaded p.loader r.cfg.dir [] r.cfg.suites r.suites).1 r.loads in
        (s, rw (r.reads, loads, r.notifies, given, up) refl),
  )

  -- A server that `run` has started runs one armed job for each entry of the configuration.
  pub set_up_server-Serves : (s : Server W X) → set_up_server p c now later config ≡ ok s → Serves s
  set_up_server-Serves s h =
      let (r, (t, given, up)) = steps s h in
      let (jobs, running) = start_server-AllArmed r.notifier c now later r.suites t s given up in
      record {
        cfg = r.cfg;
        suites = r.suites;
        notifier = r.notifier;
        reads = r.reads;
        loads = r.loads;
        notifies = r.notifies;
        jobs = jobs;
        running = running;
      }

-- ===== src/Server/Schedule/Accepts.antt =====
-- Which suites a server that has not started accepts: `AddSuite` of server/server.go.
use aragorn.Prelude.{
  Str, str_eq, str_eq_iff, ℤ, is_positive, true, false, ◌≡◌, ◌≢◌, ◌↔◌, ◌⊎◌, ◌∙◌, refl, sym, ap,
  subst, inl, inr, Option, none, some, Outcome, ok, err, panic, ◌>>=◌, >>=-eq-ok, List, [], ◌∷◌,
  ◌++◌, All, Bool-cases,
}
use aragorn.Prelude.Assoc.{Assoc, get}
use aragorn.Notifier.{Notifier}
use aragorn.Scheduler
use aragorn.Scheduler.{Scheduler, Cron, Job}
use aragorn.Scheduler.Waiting.{
  HasMore, add-HasMore, add_cron-HasMore, add-fresh, add_cron-fresh, add-accepts, add_cron-accepts,
}
use aragorn.Server.Suite.{Suite}
use aragorn.Server.Schedule.{Server, SuiteRunner, new_server, adopt, add_suite, add_suites}

get-snoc :
    {V : Type 0} (k j : Str) (v : V) (m : Assoc V)
    → (get k (m ++ (j, v) ∷ []) ≡ none) ↔ ((get k m ≡ none) × (j ≢ k))
unfolding get
get-snoc k j v [] = elim (Bool-cases (str_eq j k)) [
  | inl hit ↦ rw hit ((λ h. cc), λ h. absurd (h.1 ((str_eq_iff j k).0 hit)))
  | inr miss ↦ rw miss ((λ h. (refl, λ e. let e' = (str_eq_iff j k).1 e in cc)), λ h. refl)
]
get-snoc k j v ((i, w) ∷ m) = elim (Bool-cases (str_eq i k)) [
  | inl hit ↦ rw hit ((λ h. cc), λ h. let e = h.0 in cc)
  | inr miss ↦ rw miss (get-snoc k j v m)
]

module _ {W : Type 0} where
  -- No two suites have the same path.
  abbrev pub AllDistinct : List (Suite W) → Type 0
  AllDistinct [] = Unit
  AllDistinct (s ∷ ss) = All (λ (t : Suite W). s.path ≢ t.path) ss × AllDistinct ss

module _ {W X : Type 0} (c : Cron X) where
  -- A cron expression that parses, or none and a positive interval.
  abbrev pub HasRule : Suite W → Type 0
  HasRule s =
      ((s.run_cron ≢ []) × ((x : X) × (c.cron_parse s.run_cron ≡ some x)))
      ⊎ ((s.run_cron ≡ []) × (is_positive s.run_every ≡ true))

  abbrev Fresh : Assoc (Job (SuiteRunner W) X) → Suite W → Type 0
  Fresh jobs s = get s.path jobs ≡ none

  All-snoc :
      (jobs : Assoc (Job (SuiteRunner W) X)) (s : Suite W) (j : Job (SuiteRunner W) X)
      (ss : List (Suite W))
      → All (Fresh (jobs ++ (s.path, j) ∷ [])) ss
        ↔ (All (Fresh jobs) ss × All (λ (t : Suite W). s.path ≢ t.path) ss)
  All-snoc jobs s j [] = ((λ h. (tt, tt)), λ h. tt)
  All-snoc jobs s j (t ∷ ss) =
      let here = get-snoc t.path s.path j jobs in
      let rest = All-snoc jobs s j ss in
      (
        (λ h. let (a, b) = here.0 h.0 in let (fs, ds) = rest.0 h.1 in ((a, fs), (b, ds))),
        λ h. let ((a, fs), (b, ds)) = h in (here.1 (a, b), rest.1 (fs, ds)),
      )

  -- What an accepted suite has, and makes of the server.
  abbrev Adds : Suite W → Server W X → Server W X → Type 0
  Adds suite s t =
      HasRule suite
      × Fresh s.sch.jobs suite
      × (t.sch.running ≡ false)
      × ((j : Job (SuiteRunner W) X) × (t.sch.jobs ≡ s.sch.jobs ++ (suite.path, j) ∷ []))

  pub adopted :
      (path : Str) (s t : Server W X) (o : Outcome Scheduler.Error (Scheduler (SuiteRunner W) X))
      → adopt path s o ≡ ok t
      → (sch : Scheduler (SuiteRunner W) X) × (o ≡ ok sch) × (sch ≡ t.sch)
  unfolding adopt
  adopted path s t (ok sch) e =
      let same : record s { sch = sch } ≡ t = cc e in
      (sch, refl, ap (λ (x : Server W X). x.sch) same)
  adopted path s t (err x) e = cc
  adopted path s t panic e = cc

  more-Adds :
      (suite : Suite W) (s t : Server W X) (sch : Scheduler (SuiteRunner W) X)
      (body : SuiteRunner W)
      → s.sch.running ≡ false
      → sch ≡ t.sch
      → HasRule suite
      → Fresh s.sch.jobs suite
      → HasMore c suite.path body s.sch sch
      → Adds suite s t
  more-Adds suite s t sch body idle same rule fresh (j, _, _, more) =
      let left = more ∙ same in
      (
        rule,
        fresh,
        sym (ap (λ (x : Scheduler (SuiteRunner W) X). x.running) left) ∙ idle,
        (j, sym (ap (λ (x : Scheduler (SuiteRunner W) X). x.jobs) left)),
      )

  add_suite-Adds :
      (now : ℤ) (suite : Suite W) (s t : Server W X)
      → s.sch.running ≡ false
      → add_suite c now suite s ≡ ok t
      → Adds suite s t
  unfolding add_suite
  add_suite-Adds now suite s t idle e = elim (Bool-cases (str_eq suite.run_cron [])) [
    | inl p ↦ elim (Bool-cases (is_positive suite.run_every)) [
      | inl q ↦
          let (sch, one, same) = adopted suite.path s t _ (rw (p, q) at e) in
          more-Adds suite s t sch _ idle same (inr ((str_eq_iff suite.run_cron []).0 p, q))
            (add-fresh c now suite.path _ _ s.sch sch one)
            (add-HasMore c now suite.path _ _ s.sch sch idle one)
      | inr q ↦ let e' = rw (p, q) at e in cc
    ]
    | inr p ↦
        let (sch, one, same) = adopted suite.path s t _ (rw p at e) in
        let (fresh, parses) = add_cron-fresh c now suite.path _ _ s.sch sch one in
        more-Adds suite s t sch _ idle same
          (inl ((λ no. let no' = (str_eq_iff suite.run_cron []).1 no in cc), parses)) fresh
          (add_cron-HasMore c now suite.path _ _ s.sch sch idle one)
  ]

  -- A suite that has a rule and a path of its own is accepted.
  add_suite-accepts :
      (now : ℤ) (suite : Suite W) (s : Server W X)
      → s.sch.running ≡ false
      → HasRule suite
      → Fresh s.sch.jobs suite
      → (t : Server W X) × (add_suite c now suite s ≡ ok t)
  unfolding add_suite adopt
  add_suite-accepts now suite s idle (inl (cron, (x, parsed))) fresh =
      let (sch, one) =
        add_cron-accepts c now suite.path (record { suite = suite; notifier = s.notifier })
          suite.run_cron x s.sch idle fresh parsed in
      let set : str_eq suite.run_cron [] ≡ false = not_eq cron in
      (record s { sch = sch }, rw (set, one) refl)
    where
      not_eq : suite.run_cron ≢ [] → str_eq suite.run_cron [] ≡ false
      not_eq h = elim (Bool-cases (str_eq suite.run_cron [])) [
        | inl e ↦ absurd (h ((str_eq_iff suite.run_cron []).0 e))
        | inr e ↦ e
      ]
  add_suite-accepts now suite s idle (inr (cron, every)) fresh =
      let (sch, one) =
        add-accepts c now suite.path (record { suite = suite; notifier = s.notifier })
          suite.run_every s.sch idle fresh in
      let set : str_eq suite.run_cron [] ≡ true = (str_eq_iff suite.run_cron []).1 cron in
      (record s { sch = sch }, rw (set, every, one) refl)

  -- What a list of suites needs to be accepted.
  abbrev Fits : Assoc (Job (SuiteRunner W) X) → List (Suite W) → Type 0
  Fits jobs suites = All HasRule suites × AllDistinct suites × All (Fresh jobs) suites

  add_suites-Fits :
      (now : ℤ) (suites : List (Suite W)) (s : Server W X)
      → s.sch.running ≡ false
      → ((t : Server W X) × (add_suites c now suites s ≡ ok t)) ↔ Fits s.sch.jobs suites
  unfolding add_suites ◌>>=◌
  add_suites-Fits now [] s idle = ((λ h. (tt, tt, tt)), λ h. (s, refl))
  add_suites-Fits now (suite ∷ suites) s idle = (
    (λ h.
        let (t, e) = h in
        let (u, one, more) = >>=-eq-ok _ _ e in
        let (rule, fresh, idle', (j, jobs)) = add_suite-Adds now suite s u idle one in
        let (rules, distinct, fits) = (add_suites-Fits now suites u idle').0 (t, more) in
        let (before, others) =
          (All-snoc s.sch.jobs suite j suites).0 (subst (λ js. All (Fresh js) suites) jobs fits) in
        ((rule, rules), (others, distinct), (fresh, before))),
    λ h.
        let ((rule, rules), (others, distinct), (fresh, before)) = h in
        let (u, one) = add_suite-accepts now suite s idle rule fresh in
        let (_, _, idle', (j, jobs)) = add_suite-Adds now suite s u idle one in
        let fits = (All-snoc s.sch.jobs suite j suites).1 (before, others) in
        let (t, more) =
          (add_suites-Fits now suites u idle').1
            (rules, distinct, subst (λ js. All (Fresh js) suites) (sym jobs) fits) in
        (t, rw one more),
  )

  All-Fresh : (suites : List (Suite W)) → All (Fresh []) suites
  unfolding get
  All-Fresh [] = tt
  All-Fresh (s ∷ ss) = (refl, All-Fresh ss)

  -- A new server accepts its suites exactly when each has a cron expression that parses, or none and a
  -- positive interval, and no two have the same path.
  pub add_suites-accepts :
      (now : ℤ) (n : Option (Notifier W)) (suites : List (Suite W))
      → ((t : Server W X) × (add_suites c now suites (new_server n) ≡ ok t))
        ↔ (All HasRule suites × AllDistinct suites)
  add_suites-accepts now n suites =
      let all = add_suites-Fits now suites (new_server n) refl in
      (
        (λ h. let (rules, distinct, _) = all.0 h in (rules, distinct)),
        λ h. all.1 (h.0, h.1, All-Fresh suites),
      )

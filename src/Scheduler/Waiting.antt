-- ===== src/Scheduler/Waiting.antt =====
-- `Add` and `AddCron` of scheduler/scheduler.go before the scheduler starts: the jobs stay in the order
-- in which they are added.
use aragorn.Prelude.{
  Str, str_eq, ℤ, ◌≡◌, refl, ap, subst, inl, inr, false, Option, none, some, ok, [], ◌∷◌, ◌++◌,
  Bool-cases, Option-cases,
}
use aragorn.Prelude.Assoc.{Assoc, get, put}
use aragorn.Scheduler.{
  Scheduler, Cron, Job, put_job, put_cron, add, add_cron, interval_job, cron_job,
}

put-new :
    {V : Type 0} (k : Str) (v : V) (m : Assoc V) → get k m ≡ none → put k v m ≡ m ++ (k, v) ∷ []
unfolding get put
put-new k v [] h = refl
put-new k v ((j, w) ∷ m) h = elim (Bool-cases (str_eq j k)) [
  | inl hit ↦ cc (rw hit at h)
  | inr miss ↦ rw miss (ap (λ x. (j, w) ∷ x) (put-new k v m (rw miss at h)))
]

module _ {J X : Type 0} (c : Cron X) where
  -- A scheduler with one job more, of a body, that waits for the start.
  abbrev pub HasMore : Str → J → Scheduler J X → Scheduler J X → Type 0
  HasMore name body s t =
      (j : Job J X) × (j.body ≡ body)
      × (j.timers ≡ [])
      × (record s { jobs = s.jobs ++ (name, j) ∷ [] } ≡ t)

  put_job-HasMore :
      (now : ℤ) (name : Str) (j : Job J X) (s t : Scheduler J X)
      → s.running ≡ false
      → get name s.jobs ≡ none
      → j.timers ≡ []
      → put_job c now name j s ≡ ok t
      → HasMore name j.body s t
  unfolding put_job
  put_job-HasMore now name j s t idle fresh none_yet e =
      let added : record s { jobs = put name j s.jobs } ≡ t = cc (rw (idle, put_job) at e) in
      (
        j,
        refl,
        none_yet,
        subst (λ m. record s { jobs = m } ≡ t) (put-new name j s.jobs fresh) added,
      )

  pub add-HasMore :
      (now : ℤ) (name : Str) (body : J) (interval : ℤ) (s t : Scheduler J X)
      → s.running ≡ false
      → add c now name body interval s ≡ ok t
      → HasMore name body s t
  unfolding add
  add-HasMore now name body interval s t idle e = elim (Option-cases (get name s.jobs)) [
    | inl fresh ↦
        put_job-HasMore now name (interval_job body interval) s t idle fresh refl
          (rw (fresh, add) at e)
    | inr (j, taken) ↦ let e' = rw (taken, add) at e in cc
  ]

  put_cron-HasMore :
      (now : ℤ) (name : Str) (body : J) (x : Option X) (s t : Scheduler J X)
      → s.running ≡ false
      → get name s.jobs ≡ none
      → put_cron c now name body x s ≡ ok t
      → HasMore name body s t
  unfolding put_cron
  put_cron-HasMore now name body none s t idle fresh e = cc
  put_cron-HasMore now name body (some x) s t idle fresh e =
      put_job-HasMore now name (cron_job body x) s t idle fresh refl e

  pub add_cron-HasMore :
      (now : ℤ) (name : Str) (body : J) (expr : Str) (s t : Scheduler J X)
      → s.running ≡ false
      → add_cron c now name body expr s ≡ ok t
      → HasMore name body s t
  unfolding add_cron
  add_cron-HasMore now name body expr s t idle e = elim (Option-cases (get name s.jobs)) [
    | inl fresh ↦
        put_cron-HasMore now name body (c.cron_parse expr) s t idle fresh
          (rw (fresh, add_cron) at e)
    | inr (j, taken) ↦ let e' = rw (taken, add_cron) at e in cc
  ]

  pub add-fresh :
      (now : ℤ) (name : Str) (body : J) (d : ℤ) (s t : Scheduler J X)
      → add c now name body d s ≡ ok t
      → get name s.jobs ≡ none
  unfolding add
  add-fresh now name body d s t e = elim (Option-cases (get name s.jobs)) [
    | inl fresh ↦ fresh
    | inr (j, taken) ↦ let e' = rw (taken, add) at e in cc
  ]

  pub add_cron-fresh :
      (now : ℤ) (name : Str) (body : J) (expr : Str) (s t : Scheduler J X)
      → add_cron c now name body expr s ≡ ok t
      → (get name s.jobs ≡ none) × ((x : X) × (c.cron_parse expr ≡ some x))
  unfolding add_cron put_cron
  add_cron-fresh now name body expr s t e = elim (Option-cases (get name s.jobs)) [
    | inl fresh ↦ elim (Option-cases (c.cron_parse expr)) [
      | inl bad ↦ let e' = rw (fresh, bad, add_cron) at e in cc
      | inr (x, parsed) ↦ (fresh, (x, parsed))
    ]
    | inr (j, taken) ↦ let e' = rw (taken, add_cron) at e in cc
  ]

  pub add-accepts :
      (now : ℤ) (name : Str) (body : J) (d : ℤ) (s : Scheduler J X)
      → s.running ≡ false
      → get name s.jobs ≡ none
      → (t : Scheduler J X) × (add c now name body d s ≡ ok t)
  unfolding add put_job
  add-accepts now name body d s idle fresh = (
    record s { jobs = put name (interval_job body d) s.jobs },
    rw (add, fresh, put_job, idle) refl,
  )

  pub add_cron-accepts :
      (now : ℤ) (name : Str) (body : J) (expr : Str) (x : X) (s : Scheduler J X)
      → s.running ≡ false
      → get name s.jobs ≡ none
      → c.cron_parse expr ≡ some x
      → (t : Scheduler J X) × (add_cron c now name body expr s ≡ ok t)
  unfolding add_cron put_cron put_job
  add_cron-accepts now name body expr x s idle fresh parsed = (
    record s { jobs = put name (cron_job body x) s.jobs },
    rw (add_cron, fresh, put_cron, parsed, put_job, idle) refl,
  )

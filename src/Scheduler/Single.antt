-- ===== src/Scheduler/Single.antt =====
-- A job never has two timers that can still run it, so it never runs twice at once.
use aragorn.Prelude.{
  ℕ, zero, suc, ℤ, ◌≡◌, refl, subst, sym, true, false, ok, >>=-eq-ok, List, [], ◌∷◌, get_elem?, All,
  Bool-cases, Option-cases, inl, inr,
}
use aragorn.Prelude.Assoc.{Assoc, AllValues}
use aragorn.Scheduler.{
  Timer, armed, executing, stopped, returned, Cron, Job, stop_newest, fire_at, return_at,
  is_executing, time_until_next_run, schedule, cancel, fire, finish, schedule_all, cancel_all,
}

-- A timer that will not run its job any more.
abbrev pub IsDead : Timer → Type 0
IsDead (armed d) = ⊥
IsDead executing = ⊥
IsDead stopped = Unit
IsDead returned = Unit

abbrev pub AllDead : List Timer → Type 0
AllDead = All IsDead

-- At most the newest timer is not dead.
abbrev pub IsSingle : List Timer → Type 0
IsSingle [] = Unit
IsSingle (t ∷ ts) = AllDead ts

AllDead-IsSingle : (ts : List Timer) → AllDead ts → IsSingle ts
AllDead-IsSingle [] h = tt
AllDead-IsSingle (t ∷ ts) h = h.1

fire_at-dead : (i : ℕ) (ts : List Timer) → AllDead ts → AllDead (fire_at i ts)
unfolding fire_at
fire_at-dead i [] h = tt
fire_at-dead zero (armed d ∷ ts) h = absurd h.0
fire_at-dead zero (executing ∷ ts) h = absurd h.0
fire_at-dead zero (stopped ∷ ts) h = h
fire_at-dead zero (returned ∷ ts) h = h
fire_at-dead (suc i) (t ∷ ts) h = (h.0, fire_at-dead i ts h.1)

fire_at-IsSingle : (i : ℕ) (ts : List Timer) → IsSingle ts → IsSingle (fire_at i ts)
unfolding fire_at
fire_at-IsSingle i [] h = tt
fire_at-IsSingle zero (t ∷ ts) h = h
fire_at-IsSingle (suc i) (t ∷ ts) h = fire_at-dead i ts h

stop_newest-IsSingle : (ts : List Timer) → IsSingle ts → IsSingle (stop_newest ts)
unfolding stop_newest
stop_newest-IsSingle [] h = tt
stop_newest-IsSingle (t ∷ ts) h = h

not_dead : (ts : List Timer) (i : ℕ) → AllDead ts → is_executing (get_elem? ts i) ≡ false
not_dead [] i h = refl
not_dead (armed d ∷ ts) zero h = refl
not_dead (executing ∷ ts) zero h = absurd h.0
not_dead (stopped ∷ ts) zero h = refl
not_dead (returned ∷ ts) zero h = refl
not_dead (t ∷ ts) (suc i) h = not_dead ts i h.1

-- Once the function that executes has returned, all timers are dead.
return_at-dead :
    (i : ℕ) (ts : List Timer)
    → IsSingle ts
    → is_executing (get_elem? ts i) ≡ true
    → AllDead (return_at i ts)
unfolding return_at
return_at-dead i [] h e = cc
return_at-dead zero (t ∷ ts) h e = (tt, h)
return_at-dead (suc i) (t ∷ ts) h e = cc (not_dead ts i h)

module _ {J X : Type 0} where
  abbrev pub JobIsSingle : Job J X → Type 0
  JobIsSingle j = IsSingle j.timers

  abbrev pub HasNoTimers : Job J X → Type 0
  HasNoTimers j = j.timers ≡ []

  pub fire-single : (i : ℕ) (j : Job J X) → JobIsSingle j → JobIsSingle (fire i j)
  unfolding fire
  fire-single i j h = fire_at-IsSingle i j.timers h

  pub cancel-single : (j : Job J X) → JobIsSingle j → JobIsSingle (cancel j)
  unfolding cancel
  cancel-single j h = stop_newest-IsSingle j.timers h

  pub cancel_all-single :
      (jobs : Assoc (Job J X))
      → AllValues JobIsSingle jobs
      → AllValues JobIsSingle (cancel_all jobs)
  unfolding cancel_all
  cancel_all-single [] h = tt
  cancel_all-single ((name, j) ∷ jobs) (hj, h) =
      (stop_newest-IsSingle j.timers hj, cancel_all-single jobs h)

module _ {J X : Type 0} (c : Cron X) where
  -- A job that is scheduled has one more timer, which is armed.
  pub schedule-armed :
      (now : ℤ) (j j' : Job J X)
      → schedule c now j ≡ ok j'
      → (d : ℤ) × (j' ≡ record j { timers = armed d ∷ j.timers })
  unfolding schedule
  schedule-armed now j j' e = elim (Option-cases (time_until_next_run c now j)) [
    | inl p ↦ cc (rw (p, schedule) at e)
    | inr (d, p) ↦ (d, cc (rw (p, schedule) at e))
  ]

  pub schedule-single :
      (now : ℤ) (j j' : Job J X) → AllDead j.timers → schedule c now j ≡ ok j' → JobIsSingle j'
  schedule-single now j j' h e =
      let (d, same) = schedule-armed now j j' e in subst JobIsSingle (sym same) h

  pub finish-single :
      (now : ℤ) (i : ℕ) (j j' : Job J X) → JobIsSingle j → finish c now i j ≡ ok j' → JobIsSingle j'
  unfolding finish
  finish-single now i j j' h e = elim (Bool-cases (is_executing (get_elem? j.timers i))) [
    | inl p ↦
        schedule-single now (record j { timers = return_at i j.timers }) j'
          (return_at-dead i j.timers h p) (rw (p, finish) at e)
    | inr p ↦ let same : j ≡ j' = cc (rw (p, finish) at e) in subst JobIsSingle same h
  ]

  pub schedule_all-single :
      (now : ℤ) (jobs jobs' : Assoc (Job J X))
      → AllValues HasNoTimers jobs
      → schedule_all c now jobs ≡ ok jobs'
      → AllValues JobIsSingle jobs'
  unfolding schedule_all
  schedule_all-single now [] jobs' h e =
      let same : [] ≡ jobs' = cc e in subst (AllValues JobIsSingle) same tt
  schedule_all-single now ((name, j) ∷ jobs) jobs' (hj, h) e =
      let (j', one, e1) = >>=-eq-ok _ _ e in
      let (rest, more, e2) = >>=-eq-ok _ _ e1 in
      let same : (name, j') ∷ rest ≡ jobs' = cc e2 in
      subst (AllValues JobIsSingle) same
        (schedule-single now j j' (rw hj tt) one, schedule_all-single now jobs rest h more)

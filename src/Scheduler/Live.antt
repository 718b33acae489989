-- ===== src/Scheduler/Live.antt =====
-- Jobs with a timer that will run them, or runs them.
use aragorn.Prelude.{
  ℕ, zero, suc, ℤ, ◌≡◌, subst, sym, ok, >>=-eq-ok, List, [], ◌∷◌, get_elem?, Bool-cases, inl, inr,
}
use aragorn.Prelude.Assoc.{Assoc, AllValues}
use aragorn.Scheduler.{
  Timer, armed, executing, stopped, returned, Cron, Job, fire, finish, schedule, schedule_all,
  fire_at, return_at, is_executing,
}
use aragorn.Scheduler.Single.{AllDead, IsSingle, JobIsSingle, schedule-armed}

-- A timer that will run its job, or runs it.
abbrev pub IsLive : Timer → Type 0
IsLive (armed d) = Unit
IsLive executing = Unit
IsLive stopped = ⊥
IsLive returned = ⊥

abbrev pub NewestIsLive : List Timer → Type 0
NewestIsLive [] = ⊥
NewestIsLive (t ∷ ts) = IsLive t

-- The newest timer is live, and no other.
abbrev pub IsLiveOnce : List Timer → Type 0
IsLiveOnce [] = ⊥
IsLiveOnce (t ∷ ts) = IsLive t × AllDead ts

fire_at-NewestIsLive : (i : ℕ) (ts : List Timer) → NewestIsLive ts → NewestIsLive (fire_at i ts)
unfolding fire_at
fire_at-NewestIsLive i [] h = h
fire_at-NewestIsLive zero (armed d ∷ ts) h = tt
fire_at-NewestIsLive zero (executing ∷ ts) h = tt
fire_at-NewestIsLive zero (stopped ∷ ts) h = h
fire_at-NewestIsLive zero (returned ∷ ts) h = h
fire_at-NewestIsLive (suc i) (t ∷ ts) h = h

IsLiveOnce-of_single : (ts : List Timer) → NewestIsLive ts → IsSingle ts → IsLiveOnce ts
IsLiveOnce-of_single [] live single = live
IsLiveOnce-of_single (t ∷ ts) live single = (live, single)

module _ {J X : Type 0} where
  abbrev pub JobIsLive : Job J X → Type 0
  JobIsLive j = NewestIsLive j.timers

  abbrev pub JobIsLiveOnce : Job J X → Type 0
  JobIsLiveOnce j = IsLiveOnce j.timers

  pub fire-JobIsLive : (i : ℕ) (j : Job J X) → JobIsLive j → JobIsLive (fire i j)
  unfolding fire
  fire-JobIsLive i j h = fire_at-NewestIsLive i j.timers h

  pub AllValues-once :
      (jobs : Assoc (Job J X))
      → AllValues JobIsLive jobs
      → AllValues JobIsSingle jobs
      → AllValues JobIsLiveOnce jobs
  AllValues-once [] live single = tt
  AllValues-once ((k, j) ∷ jobs) (l, live) (s, single) =
      (IsLiveOnce-of_single j.timers l s, AllValues-once jobs live single)

module _ {J X : Type 0} (c : Cron X) where
  pub schedule-JobIsLive : (now : ℤ) (j j' : Job J X) → schedule c now j ≡ ok j' → JobIsLive j'
  schedule-JobIsLive now j j' e =
      let (d, same) = schedule-armed c now j j' e in subst JobIsLive (sym same) tt

  pub schedule_all-JobIsLive :
      (now : ℤ) (jobs jobs' : Assoc (Job J X))
      → schedule_all c now jobs ≡ ok jobs'
      → AllValues JobIsLive jobs'
  unfolding schedule_all
  schedule_all-JobIsLive now [] jobs' e =
      let same : [] ≡ jobs' = cc e in subst (AllValues JobIsLive) same tt
  schedule_all-JobIsLive now ((name, j) ∷ jobs) jobs' e =
      let (j', one, e1) = >>=-eq-ok _ _ e in
      let (rest, more, e2) = >>=-eq-ok _ _ e1 in
      let same : (name, j') ∷ rest ≡ jobs' = cc e2 in
      subst (AllValues JobIsLive) same
        (schedule-JobIsLive now j j' one, schedule_all-JobIsLive now jobs rest more)

  pub finish-JobIsLive :
      (now : ℤ) (i : ℕ) (j j' : Job J X) → JobIsLive j → finish c now i j ≡ ok j' → JobIsLive j'
  unfolding finish
  finish-JobIsLive now i j j' h e = elim (Bool-cases (is_executing (get_elem? j.timers i))) [
    | inl p ↦
        schedule-JobIsLive now (record j { timers = return_at i j.timers }) j' (rw (p, finish) at e)
    | inr p ↦ let same : j ≡ j' = cc (rw (p, finish) at e) in subst JobIsLive same h
  ]

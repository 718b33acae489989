-- ===== src/Scheduler/Ticking.antt =====
-- What timers alone do to a scheduler: they fire, and the functions of timers end; no method is called.
use aragorn.Prelude.{
  Str, str_eq, ℤ, ◌≡◌, ◌∙◌, refl, ap, ok, some, List, [], ◌∷◌, get_elem?, ℕ, Bool-cases,
  Option-cases, inl, inr,
}
use aragorn.Prelude.Assoc.{Assoc, get, put}
use aragorn.Scheduler.{
  Cron, Job, Scheduler, fire, finish, schedule, time_until_next_run, return_at, is_executing,
}
use aragorn.Scheduler.Steps.{
  Step, start_step, stop_step, add_step, add_cron_step, remove_step, fire_step, finish_step,
  fire_removed, finish_removed,
}
use aragorn.Scheduler.Alive.{NoStop, begin, then_step}

module _ {J X : Type 0} where
  -- The names of the map with what their jobs run.
  unfoldable pub bodies : Assoc (Job J X) → List (Str × J)
  bodies [] = []
  bodies ((k, j) ∷ jobs) = (k, j.body) ∷ bodies jobs

  bodies-put :
      (name : Str) (j j' : Job J X) (jobs : Assoc (Job J X))
      → get name jobs ≡ some j
      → j'.body ≡ j.body
      → bodies (put name j' jobs) ≡ bodies jobs
  unfolding bodies put get
  bodies-put name j j' [] found same = cc
  bodies-put name j j' ((k, i) ∷ jobs) found same = elim (Bool-cases (str_eq k name)) [
    | inl hit ↦
        let here : i ≡ j = cc (rw (hit, get) at found) in
        let body : j'.body ≡ i.body = rw here same in rw (hit, put, bodies) (cc body)
    | inr miss ↦
        rw (miss, put, bodies)
          (ap (λ m. (k, i.body) ∷ m) (bodies-put name j j' jobs (rw (miss, get) at found) same))
  ]

module _ {J X : Type 0} (c : Cron X) where
  abbrev pub IsTick : {s t : Scheduler J X} → Step c s t → Type 0
  IsTick (start_step now e) = ⊥
  IsTick (stop_step e) = ⊥
  IsTick (add_step now name body interval e) = ⊥
  IsTick (add_cron_step now name body expr e) = ⊥
  IsTick (remove_step name e) = ⊥
  IsTick (fire_step name j i p e) = Unit
  IsTick (finish_step now name j j' i p f e) = Unit
  IsTick (fire_removed n j i p e) = Unit
  IsTick (finish_removed now n j j' i p f e) = Unit

  -- What a scheduler can become while none of its methods is called.
  pub data Ticks (s : Scheduler J X) : Scheduler J X → Type 0 where
    at_once : Ticks s s
    then_tick : {t u : Scheduler J X} → Ticks s t → (st : Step c t u) → IsTick st → Ticks s u

  pub Ticks-NoStop : {s t : Scheduler J X} → Ticks s t → NoStop c s t
  Ticks-NoStop at_once = begin
  Ticks-NoStop (then_tick l (start_step now e) h) = absurd h
  Ticks-NoStop (then_tick l (stop_step e) h) = absurd h
  Ticks-NoStop (then_tick l (add_step now name body interval e) h) = absurd h
  Ticks-NoStop (then_tick l (add_cron_step now name body expr e) h) = absurd h
  Ticks-NoStop (then_tick l (remove_step name e) h) = absurd h
  Ticks-NoStop (then_tick l (fire_step name j i p e) h) =
      then_step (Ticks-NoStop l) (fire_step name j i p e) tt
  Ticks-NoStop (then_tick l (finish_step now name j j' i p f e) h) =
      then_step (Ticks-NoStop l) (finish_step now name j j' i p f e) tt
  Ticks-NoStop (then_tick l (fire_removed n j i p e) h) =
      then_step (Ticks-NoStop l) (fire_removed n j i p e) tt
  Ticks-NoStop (then_tick l (finish_removed now n j j' i p f e) h) =
      then_step (Ticks-NoStop l) (finish_removed now n j j' i p f e) tt

  schedule-body : (now : ℤ) (j j' : Job J X) → schedule c now j ≡ ok j' → j'.body ≡ j.body
  unfolding schedule
  schedule-body now j j' e = elim (Option-cases (time_until_next_run c now j)) [
    | inl p ↦ let h = rw (p, schedule) at e in cc
    | inr (d, p) ↦ let h = rw (p, schedule) at e in cc
  ]

  finish-body : (now : ℤ) (i : ℕ) (j j' : Job J X) → finish c now i j ≡ ok j' → j'.body ≡ j.body
  unfolding finish
  finish-body now i j j' e = elim (Bool-cases (is_executing (get_elem? j.timers i))) [
    | inl p ↦
        schedule-body now (record j { timers = return_at i j.timers }) j' (rw (p, finish) at e)
    | inr p ↦ let h = rw (p, finish) at e in cc
  ]

  -- Timers leave the names of the map, their order, and what the jobs run as they are.
  pub Ticks-bodies : {s t : Scheduler J X} → Ticks s t → bodies t.jobs ≡ bodies s.jobs
  unfolding fire
  Ticks-bodies at_once = refl
  Ticks-bodies (then_tick l (start_step now e) h) = absurd h
  Ticks-bodies (then_tick l (stop_step e) h) = absurd h
  Ticks-bodies (then_tick l (add_step now name body interval e) h) = absurd h
  Ticks-bodies (then_tick l (add_cron_step now name body expr e) h) = absurd h
  Ticks-bodies (then_tick l (remove_step name e) h) = absurd h
  Ticks-bodies (then_tick {t} {u} l (fire_step name j i p e) h) =
      rw e (bodies-put name j (fire i j) t.jobs p refl) ∙ Ticks-bodies l
  Ticks-bodies (then_tick {t} {u} l (finish_step now name j j' i p f e) h) =
      rw e (bodies-put name j j' t.jobs p (finish-body now i j j' f)) ∙ Ticks-bodies l
  Ticks-bodies (then_tick l (fire_removed n j i p e) h) = rw e (Ticks-bodies l)
  Ticks-bodies (then_tick l (finish_removed now n j j' i p f e) h) = rw e (Ticks-bodies l)

-- ===== src/Scheduler/Steps.antt =====
-- What can happen to a scheduler, in any order: its methods are called, timers fire, and the functions
-- of timers end.
use aragorn.Prelude.{Str, ℕ, ℤ, ◌≡◌, some, ok, set, get_elem?}
use aragorn.Prelude.Assoc.{get, put}
use aragorn.Scheduler.{
  Cron, Job, Scheduler, new, fire, finish, start, stop, add, add_cron, remove_job,
}

module _ {J X : Type 0} (c : Cron X) where
  pub data Step (s t : Scheduler J X) : Type 0 where
    start_step : (now : ℤ) → start c now s ≡ ok t → Step s t
    stop_step : stop s ≡ ok t → Step s t
    add_step :
        (now : ℤ) (name : Str) (body : J) (interval : ℤ)
        → add c now name body interval s ≡ ok t
        → Step s t
    add_cron_step :
        (now : ℤ) (name : Str) (body : J) (expr : Str)
        → add_cron c now name body expr s ≡ ok t
        → Step s t
    remove_step : (name : Str) → remove_job name s ≡ ok t → Step s t
    fire_step :
        (name : Str) (j : Job J X) (i : ℕ)
        → get name s.jobs ≡ some j
        → t ≡ record s { jobs = put name (fire i j) s.jobs }
        → Step s t
    finish_step :
        (now : ℤ) (name : Str) (j j' : Job J X) (i : ℕ)
        → get name s.jobs ≡ some j
        → finish c now i j ≡ ok j'
        → t ≡ record s { jobs = put name j' s.jobs }
        → Step s t
    fire_removed :
        (n : ℕ) (j : Job J X) (i : ℕ)
        → get_elem? s.removed n ≡ some j
        → t ≡ record s { removed = set s.removed n (fire i j) }
        → Step s t
    finish_removed :
        (now : ℤ) (n : ℕ) (j j' : Job J X) (i : ℕ)
        → get_elem? s.removed n ≡ some j
        → finish c now i j ≡ ok j'
        → t ≡ record s { removed = set s.removed n j' }
        → Step s t

  -- What a scheduler can become.
  pub data Later (s : Scheduler J X) : Scheduler J X → Type 0 where
    here : Later s s
    next : {t u : Scheduler J X} → Later s t → Step t u → Later s u

  abbrev pub Reach : Scheduler J X → Type 0
  Reach = Later new

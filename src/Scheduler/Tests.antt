-- ===== src/Scheduler/Tests.antt =====
-- A scheduler with one job that is started, runs the job, and is stopped or loses the job meanwhile.
use aragorn.Prelude.{
  Str, codes, str_eq, ℕ, ℤ, pos, inl, Bool, true, false, ◌≡◌, refl, none, some, ok, err, List, [],
  ◌∷◌, All, if◌then◌else◌, ◌>>=◌,
}
use aragorn.Prelude.Assoc.{get, put, remove, AllValues}
use aragorn.Scheduler.{
  Cron, Job, Scheduler, Timer, armed, executing, stopped, returned, cancel, finish, new,
  interval_job, add, start, stop, remove_job, schedule_all, cancel_all, fire, already_started,
}
use aragorn.Scheduler.Steps.{Step, Reach, here, next, add_step, start_step, fire_step}
use aragorn.Scheduler.Single.{AllDead, JobIsSingle}
use aragorn.Scheduler.Invariant.{Reach-IsSingle}
use aragorn.Scheduler.Live.{JobIsLiveOnce}
use aragorn.Scheduler.Alive.{Unstopped, begin, then_step, Unstopped-IsLiveOnce}
use aragorn.Scheduler.Stopping.{stop-unarmed, start_after_stop, rearmed_after_stop}

-- Texts that are not empty parse, and stand for a period.
abbrev periodic : Cron ℕ
periodic = record {
  cron_parse = λ expr. if str_eq expr [] then none else some 60;
  next = λ period now. now;
}

abbrev a : Str
a = codes "a"

abbrev waiting : Job Str ℕ
waiting = interval_job (codes "body") (pos 5)

abbrev with_timers : List Timer → Job Str ℕ
with_timers ts = record waiting { timers = ts }

abbrev holding : Bool → Job Str ℕ → Scheduler Str ℕ
holding running j = record { jobs = (a, j) ∷ []; running = running; removed = [] }

abbrev busy : Scheduler Str ℕ
busy = holding true (with_timers (executing ∷ []))

added : add periodic (pos 0) a (codes "body") (pos 5) new ≡ ok (holding false waiting)
unfolding add get put
added = refl

started :
    start periodic (pos 0) (holding false waiting)
    ≡ ok (holding true (with_timers (armed (pos 5) ∷ [])))
unfolding start schedule_all ◌>>=◌
started = refl

abbrev started_once : Scheduler Str ℕ
started_once = holding true (with_timers (armed (pos 5) ∷ []))

started_once-Reach : Reach periodic started_once
started_once-Reach =
    next (next here (add_step (pos 0) a (codes "body") (pos 5) added)) (start_step (pos 0) started)

busy-Reach : Reach periodic busy
unfolding get put str_eq fire
busy-Reach = next started_once-Reach (fire_step a (with_timers (armed (pos 5) ∷ [])) 0 refl refl)

stopped_busy : stop busy ≡ ok busy
unfolding stop cancel_all
stopped_busy = refl

Reach-IsSingle_example : AllValues JobIsSingle busy.jobs × All JobIsSingle busy.removed
Reach-IsSingle_example = Reach-IsSingle periodic busy-Reach

started_once_found : get a started_once.jobs ≡ some (with_timers (armed (pos 5) ∷ []))
unfolding get str_eq
started_once_found = refl

stopped_once : stop started_once ≡ ok (holding true (with_timers (stopped ∷ [])))
unfolding stop cancel_all
stopped_once = refl

stop-unarmed_example :
    (get a (holding true (with_timers (stopped ∷ []))).jobs
      ≡ some (cancel (with_timers (armed (pos 5) ∷ []))))
    × AllDead (cancel (with_timers (armed (pos 5) ∷ []))).timers
stop-unarmed_example =
    stop-unarmed periodic started_once (holding true (with_timers (stopped ∷ []))) a
      (with_timers (armed (pos 5) ∷ [])) started_once-Reach started_once_found (tt, tt) stopped_once

start_after_stop_example : start periodic (pos 9) busy ≡ err already_started
start_after_stop_example = start_after_stop periodic (pos 9) busy stopped_busy here

busy_found : get a busy.jobs ≡ some (with_timers (executing ∷ []))
unfolding get str_eq
busy_found = refl

rearmed_after_stop_example :
    (get a busy.jobs ≡ some (cancel (with_timers (executing ∷ []))))
    × ((d : ℤ) × (finish periodic (pos 9) 0 (cancel (with_timers (executing ∷ [])))
          ≡ ok (with_timers (armed d ∷ returned ∷ [])))
        × Step periodic busy
            (record busy { jobs = put a (with_timers (armed d ∷ returned ∷ [])) busy.jobs }))
rearmed_after_stop_example =
    rearmed_after_stop periodic (pos 9) a (with_timers (executing ∷ [])) [] busy busy busy_found
      refl (inl refl) stopped_busy

abbrev emptied : Scheduler Str ℕ
emptied = record { jobs = []; running = true; removed = with_timers (executing ∷ []) ∷ [] }

removed_busy : remove_job a busy ≡ ok emptied
unfolding remove_job get remove str_eq
removed_busy = refl

busy-Unstopped : Unstopped periodic busy
unfolding get put str_eq fire
busy-Unstopped =
    then_step
      (then_step (then_step begin (add_step (pos 0) a (codes "body") (pos 5) added) tt)
        (start_step (pos 0) started) tt)
      (fire_step a (with_timers (armed (pos 5) ∷ [])) 0 refl refl) tt

Unstopped-IsLiveOnce_example : AllValues JobIsLiveOnce busy.jobs
Unstopped-IsLiveOnce_example = Unstopped-IsLiveOnce periodic busy-Unstopped refl

-- ===== src/Cmd/Watch.antt =====
-- cmd/aragorn/watch.go: the events of the file system after which a suite is run.
use aragorn.Prelude.{
  Str, str_eq, ℕ, ◌%◌, ◌/◌, ◌==◌, Bool, true, false, ◌&&◌, ◌||◌, Outcome, ok, err, panic, ◌>>=◌,
  List, [], ◌∷◌, if◌then◌else◌, keep, keep_nil, keep_hit, keep_miss, ◌++◌, ◌≡◌, refl, ap, ◌∙◌,
  fun_ext, Bool-cases, inl, inr,
}
use aragorn.Testsuite.{Env}
use aragorn.Server.Suite.{Suite, run}
use aragorn.Server.Options.{fail_fast_option}
use aragorn.Server.Load.{Loader, new_suite_from_file}
use aragorn.Cmd.Exec.{has_suffix, test_suite_json_suffix}

-- fsnotify.Event; `op` is a bit mask, of which the first bit is Create and the second Write.
pub record Event : Type 0 where
  pub name : Str
  pub op : ℕ

-- `watchCommand.isValidEvent`
unfoldable pub is_valid_event : ℕ → Bool
is_valid_event op = (op % 2 == 1) || (op / 2 % 2 == 1)

-- argFiles[name]
unfoldable pub is_arg_file : Str → List Str → Bool
is_arg_file name [] = false
is_arg_file name (file ∷ files) = if str_eq file name then true else is_arg_file name files

-- The condition of `watchCommand.fsWatchEventLoop`.
unfoldable pub selects : List Str → Event → Bool
unfolding is_valid_event is_arg_file
selects arg_files e =
    is_valid_event e.op
    && (has_suffix test_suite_json_suffix e.name || is_arg_file e.name arg_files)

module _ {C W : Type 0} (l : Loader C W) (env : Env W) where
  run_loaded : Outcome Str (Suite W) → W → Outcome Str W
  run_loaded (ok s) w = ok (run env s w).1
  run_loaded (err e) w = ok w
  run_loaded panic w = panic

  -- `watchCommand.runSuiteFromFile`; a message on the standard error is left out.
  unfoldable pub run_suite_from_file : Bool → Str → W → Outcome Str W
  unfolding run_loaded
  run_suite_from_file failfast path w =
      run_loaded (new_suite_from_file l path (fail_fast_option failfast ∷ [])) w

  -- `watchCommand.fsWatchEventLoop`, over the events until the channel is closed.
  unfoldable pub fs_watch_event_loop : Bool → List Str → List Event → W → Outcome Str W
  unfolding selects run_suite_from_file
  fs_watch_event_loop failfast arg_files [] w = ok w
  fs_watch_event_loop failfast arg_files (e ∷ es) w =
      let rest = fs_watch_event_loop failfast arg_files es in
      if selects arg_files e then run_suite_from_file failfast e.name w >>= rest else rest w

  pub run_suite_from_file-runs :
      (failfast : Bool) (path : Str) (w : W) (s : Suite W)
      → new_suite_from_file l path (fail_fast_option failfast ∷ []) ≡ ok s
      → run_suite_from_file failfast path w ≡ ok (run env s w).1
  unfolding run_suite_from_file run_loaded
  run_suite_from_file-runs failfast path w s h = rw (h, run_loaded) refl

  >>=-split :
      (f g h : W → Outcome Str W)
      → ((u : W) → h u ≡ (f u >>= g))
      → (o : Outcome Str W) → (o >>= h) ≡ ((o >>= f) >>= g)
  unfolding ◌>>=◌
  >>=-split f g h same (ok u) = same u
  >>=-split f g h same (err e) = refl
  >>=-split f g h same panic = refl

  -- The loop over some events, and then over others.
  pub fs_watch_event_loop-append :
      (failfast : Bool) (arg_files : List Str) (es es' : List Event) (w : W)
      → fs_watch_event_loop failfast arg_files (es ++ es') w ≡ (
          fs_watch_event_loop failfast arg_files es w
          >>= fs_watch_event_loop failfast arg_files es')
  unfolding fs_watch_event_loop ◌>>=◌
  fs_watch_event_loop-append failfast arg_files [] es' w = refl
  fs_watch_event_loop-append failfast arg_files (e ∷ es) es' w =
      let rest = fs_watch_event_loop-append failfast arg_files es es' in
      elim (Bool-cases (selects arg_files e)) [
        | inl h ↦ rw h (>>=-split _ _ _ rest (run_suite_from_file failfast e.name w))
        | inr h ↦ rw h (rest w)
      ]

  -- Events that are not of a suite that was created or written change nothing: the loop does what it
  -- does without them.
  fs_watch_event_loop-keep :
      (failfast : Bool) (arg_files : List Str) (es : List Event) (w : W)
      → fs_watch_event_loop failfast arg_files (keep (selects arg_files) es) w
        ≡ fs_watch_event_loop failfast arg_files es w
  unfolding fs_watch_event_loop ◌>>=◌
  fs_watch_event_loop-keep failfast arg_files [] w =
      ap (λ kept. fs_watch_event_loop failfast arg_files kept w) (keep_nil (selects arg_files))
  fs_watch_event_loop-keep failfast arg_files (e ∷ es) w =
      let rest = fs_watch_event_loop-keep failfast arg_files es in
      elim (Bool-cases (selects arg_files e)) [
        | inl h ↦
            ap (λ kept. fs_watch_event_loop failfast arg_files kept w)
              (keep_hit (selects arg_files) e es h)
            ∙ rw h (ap (λ f. run_suite_from_file failfast e.name w >>= f) (fun_ext rest))
        | inr h ↦
            ap (λ kept. fs_watch_event_loop failfast arg_files kept w)
              (keep_miss (selects arg_files) e es h)
            ∙ rw h (rest w)
      ]

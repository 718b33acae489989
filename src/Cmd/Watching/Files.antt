-- ===== src/Cmd/Watching/Files.antt =====
-- The regular files among the arguments of `watch`: cmd/aragorn/watch.go.
use aragorn.Prelude.{
  Str, ℕ, zero, suc, ◌%◌, ◌/◌, ◌∙◌, Bool, ◌⊎◌, inl, inr, ◌>>=◌, ◌++◌, true, ◌≡◌, refl, subst,
  Option, none, some, Outcome, ok, err, panic, List, [], ◌∷◌, get_elem?, str_eq, str_eq_refl, arith,
  if_intro,
}
use aragorn.Cmd.Exec.{Tree, Mode, directory, regular, other}
use aragorn.Server.Suite.{Suite, run}
use aragorn.Server.Options.{fail_fast_option}
use aragorn.Server.Load.{new_suite_from_file}
use aragorn.Cmd.Program.{Program}
use aragorn.Cmd.Watch.{
  Event, is_valid_event, is_arg_file, selects, run_suite_from_file-runs, fs_watch_event_loop,
  fs_watch_event_loop-append,
}
use aragorn.Cmd.Watching.{Watcher, with_file, keep_file, of_stat, of_add, watch_files}

module _ {W : Type 0} (t : Tree) (fsw : Watcher W) where
  -- What a round of the loop that succeeds has found, before the rounds after it.
  record Round (name : Str) (rest : W → Outcome Str (List Str) × W) (files : List Str) (w : W)
      : Type 0 where
    mode : Mode
    before : W
    more : List Str
    stats : t.stat name ≡ ok mode
    follows : rest before ≡ (ok more, w)
    keeps : with_file name mode more ≡ files

  keep_file-ok :
      (name : Str) (mode : Mode) (o : Outcome Str (List Str) × W) (files : List Str) (w : W)
      → keep_file t fsw name mode o ≡ (ok files, w)
      → (more : List Str) × (o ≡ (ok more, w)) × (with_file name mode more ≡ files)
  unfolding keep_file
  keep_file-ok name mode (ok more, u) files w h = (more, cc h, cc h)
  keep_file-ok name mode (err e, u) files w h = cc
  keep_file-ok name mode (panic, u) files w h = cc

  of_stat-Round :
      (name : Str) (o : Outcome Str Mode) (rest : W → Outcome Str (List Str) × W) (u : W)
      (files : List Str) (w : W)
      → t.stat name ≡ o
      → of_stat t fsw name o rest u ≡ (ok files, w)
      → Round name rest files w
  unfolding of_stat
  of_stat-Round name (ok mode) rest u files w s h =
      let (more, follows, keeps) = keep_file-ok name mode (rest u) files w h in
      record { mode = mode; before = u; more = more; stats = s; follows = follows; keeps = keeps }
  of_stat-Round name (err e) rest u files w s h = cc
  of_stat-Round name panic rest u files w s h = cc

  of_add-Round :
      (arg : Str) (o : Option Str × W) (rest : W → Outcome Str (List Str) × W) (files : List Str)
      (w : W)
      → of_add t fsw arg o rest ≡ (ok files, w)
      → Round (fsw.clean arg) rest files w
  unfolding of_add
  of_add-Round arg (some e, u) rest files w h = cc
  of_add-Round arg (none, u) rest files w h =
      of_stat-Round (fsw.clean arg) (t.stat (fsw.clean arg)) rest u files w refl h

  is_arg_file-with_file :
      (name file : Str) (mode : Mode) (files : List Str)
      → is_arg_file name files ≡ true
      → is_arg_file name (with_file file mode files) ≡ true
  unfolding with_file is_arg_file
  is_arg_file-with_file name file directory files h = h
  is_arg_file-with_file name file regular files h =
      if_intro (λ b. b ≡ true) (str_eq file name) _ _ (λ _. refl) (λ _. h)
  is_arg_file-with_file name file other files h = h

  here :
      (name : Str) (files more : List Str)
      → with_file name regular more ≡ files
      → is_arg_file name files ≡ true
  unfolding with_file is_arg_file
  here name files more same =
      subst (λ fs. is_arg_file name fs ≡ true) same (rw (str_eq_refl name) refl)

  is_arg_file-watch_files :
      (args files : List Str) (w w' : W) (i : ℕ) (arg : Str)
      → watch_files t fsw args w ≡ (ok files, w')
      → get_elem? args i ≡ some arg
      → t.stat (fsw.clean arg) ≡ ok regular
      → is_arg_file (fsw.clean arg) files ≡ true
  unfolding watch_files
  is_arg_file-watch_files [] files w w' i arg h at is = cc
  is_arg_file-watch_files (a ∷ args) files w w' zero arg h at is =
      let r = of_add-Round a _ (watch_files t fsw args) files w' h in
      let same : a ≡ arg = cc at in
      let mode : r.mode ≡ regular = cc (is, r.stats, same) in
      here (fsw.clean arg) files r.more (cc (r.keeps, mode, same))
  is_arg_file-watch_files (a ∷ args) files w w' (suc i) arg h at is =
      let r = of_add-Round a _ (watch_files t fsw args) files w' h in
      subst (λ fs. is_arg_file (fsw.clean arg) fs ≡ true) r.keeps
        (is_arg_file-with_file (fsw.clean arg) (fsw.clean a) r.mode r.more
          (is_arg_file-watch_files args r.more r.before w' i arg r.follows at is))

  watch_files-selects :
      (args files : List Str) (w w' : W) (i : ℕ) (arg : Str) (op : ℕ)
      → watch_files t fsw args w ≡ (ok files, w')
      → get_elem? args i ≡ some arg
      → t.stat (fsw.clean arg) ≡ ok regular
      → (op % 2 ≡ 1) ⊎ (op / 2 % 2 ≡ 1)
      → selects files (record { name = fsw.clean arg; op = op }) ≡ true
  unfolding selects is_valid_event
  watch_files-selects args files w w' i arg op h at is bit =
      let file = is_arg_file-watch_files args files w w' i arg h at is in
      elim bit [ inl b ↦ ground (arith, b, file) | inr b ↦ ground (arith, b, file) ]

module _ {C N W : Type 0} (p : Program C N W) (fsw : Watcher W) (failfast : Bool) where
  -- Once `watch` has added its arguments, each event that creates or writes a regular file that is one of
  -- them, under its clean name, makes the event loop run the suite that is loaded from the file, and go
  -- on with the events after it, whatever events there were before, if none of them made it panic.
  pub fs_watch_event_loop-runs :
      (args files : List Str) (w w' : W) (i : ℕ) (arg : Str) (op : ℕ) (es es' : List Event)
      (u u' : W) (s : Suite W)
      → watch_files p.tree fsw args w ≡ (ok files, w')
      → get_elem? args i ≡ some arg
      → p.tree.stat (fsw.clean arg) ≡ ok regular
      → (op % 2 ≡ 1) ⊎ (op / 2 % 2 ≡ 1)
      → fs_watch_event_loop p.loader p.env failfast files es u ≡ ok u'
      → new_suite_from_file p.loader (fsw.clean arg) (fail_fast_option failfast ∷ []) ≡ ok s
      → fs_watch_event_loop p.loader p.env failfast files
          (es ++ record { name = fsw.clean arg; op = op } ∷ es')
          u
        ≡ fs_watch_event_loop p.loader p.env failfast files es' (run p.env s u').1
  unfolding fs_watch_event_loop ◌>>=◌
  fs_watch_event_loop-runs args files w w' i arg op es es' u u' s h at is bit before loads =
      let chosen = watch_files-selects p.tree fsw args files w w' i arg op h at is bit in
      fs_watch_event_loop-append p.loader p.env failfast files es
        (record { name = fsw.clean arg; op = op } ∷ es') u
      ∙ rw
          (
            before,
            chosen,
            run_suite_from_file-runs p.loader p.env failfast (fsw.clean arg) u' s loads,
          )
          refl

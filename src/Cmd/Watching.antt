-- ===== src/Cmd/Watching.antt =====
-- `watchCommand.Run` of cmd/aragorn/watch.go: the files that are watched, and the run until a channel
-- of the watcher is closed.
pub mod Files
use aragorn.Prelude.{
  Str, codes, ℕ, zero, suc, Bool, true, false, ◌&&◌, ◌||◌, ◌≡◌, ◌∙◌, refl, sym, ap, subst, inl, inr,
  Option, none, some, Outcome, ok, err, panic, List, [], ◌∷◌, ◌++◌, get_elem?, str_eq, str_eq_refl,
  if◌then◌else◌, Bool-cases, arith,
}
use aragorn.Cmd.Usage.{Values, Failure, message, Ending, returned, crashed, Command, file_help}
use aragorn.Cmd.Exec.{Tree, Mode, directory, regular, other, here_if_none}
use aragorn.Cmd.Watch.{Event, fs_watch_event_loop}
use aragorn.Cmd.Program.{Program}

-- Packages fsnotify and path/filepath; an error is `some`. `events` are those that come before a
-- channel of the watcher is closed.
pub record Watcher (W : Type 0) : Type 0 where
  pub new_watcher : W → Option Str × W
  pub add : Str → W → Option Str × W
  pub close : W → W
  pub clean : Str → Str
  pub events : W → List Event

-- argFiles[name] = true, for a regular file
unfoldable pub with_file : Str → Mode → List Str → List Str
with_file name regular files = name ∷ files
with_file name directory files = files
with_file name other files = files

module _ {W : Type 0} (t : Tree) (fsw : Watcher W) where
  keep_file : Str → Mode → Outcome Str (List Str) × W → Outcome Str (List Str) × W
  unfolding with_file
  keep_file name mode (ok files, w) = (ok (with_file name mode files), w)
  keep_file name mode (err e, w) = (err e, w)
  keep_file name mode (panic, w) = (panic, w)

  of_stat :
      Str → Outcome Str Mode → (W → Outcome Str (List Str) × W) → W → Outcome Str (List Str) × W
  unfolding keep_file
  of_stat name (ok mode) rest w = keep_file name mode (rest w)
  of_stat name (err e) rest w = (err e, w)
  of_stat name panic rest w = (panic, w)

  of_add : Str → Option Str × W → (W → Outcome Str (List Str) × W) → Outcome Str (List Str) × W
  unfolding of_stat
  of_add arg (some e, w) rest = (
    err (
        codes "could not add " ++ (t.quote arg ++ (codes " directory to fsnotify watcher: " ++ e))),
    w,
  )
  of_add arg (none, w) rest = of_stat (fsw.clean arg) (t.stat (fsw.clean arg)) rest w

  -- The loop of `watchCommand.Run`: the regular files among the arguments.
  unfoldable pub watch_files : List Str → W → Outcome Str (List Str) × W
  unfolding of_add
  watch_files [] w = (ok [], w)
  watch_files (arg ∷ args) w =
      let rest = watch_files args in of_add arg (fsw.add (fsw.clean arg) w) rest

module _ {C N W : Type 0} (p : Program C N W) (fsw : Watcher W) where
  -- The end of the event loop closes the watcher; the loop itself never ends with an error.
  looped : W → Outcome Str W → Ending (Option Failure) W
  looped w (ok w') = returned none (fsw.close w')
  looped w (err e) = returned none (fsw.close w)
  looped w panic = crashed

  watched : Bool → Outcome Str (List Str) × W → Ending (Option Failure) W
  unfolding looped
  watched failfast (ok files, w) =
      looped w (fs_watch_event_loop p.loader p.env failfast files (fsw.events w) w)
  watched failfast (err e, w) = returned (some (message e)) (fsw.close w)
  watched failfast (panic, w) = crashed

  with_watcher : Bool → List Str → Option Str × W → Ending (Option Failure) W
  unfolding watched
  with_watcher failfast args (some e, w) =
      returned (some (message (codes "could not create new fsnotify watcher: " ++ e))) w
  with_watcher failfast args (none, w) = watched failfast (watch_files p.tree fsw args w)

  -- `watchCommand.Run`
  unfoldable pub watch_run : Values → List Str → W → Ending (Option Failure) W
  unfolding with_watcher here_if_none
  watch_run v args w =
      with_watcher (v.bool (codes "failfast")) (here_if_none args) (fsw.new_watcher w)

  -- `watchCommand`
  unfoldable pub watch_command : Command W
  unfolding watch_run
  watch_command = record {
    name = codes "watch";
    args = codes "[file ...]";
    short_help = codes "Watch the test suites and execute them on create or save";
    long_help = codes "Watch the test suites and execute them on create or save" ++ file_help;
    flags =
        record {
          name = codes "failfast";
          usage = codes "Stop after first test failure";
          def_value = codes "false";
        }
        ∷ [];
    hidden = false;
    run = watch_run;
  }

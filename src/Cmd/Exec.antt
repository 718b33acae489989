-- ===== src/Cmd/Exec.antt =====
-- cmd/aragorn/exec.go: the suites that the arguments name, and their runs one after another.
use aragorn.Prelude.{
  Str, codes, ℤ, is_positive, ltb, Bool, true, not, ◌&&◌, Option, none, some, Outcome, ok, wrap_err,
  ◌>>=◌, List, [], ◌∷◌, ◌++◌, if◌then◌else◌, keep,
}
use aragorn.Prelude.{str_eq}
use aragorn.Testsuite.{Env}
use aragorn.Notifier.{Report, Notifier}
use aragorn.Server.Suite.{Suite, run}
use aragorn.Server.Options.{SuiteOption, fail_fast_option, filter_option, timeout_option}
use aragorn.Server.Load.{Loader, new_suite_from_file}

-- The flags of `execCommand` that matter for the suites and their runs.
pub record ExecCommand : Type 0 where
  pub failfast : Bool
  pub filter : Str
  pub timeout : ℤ

-- The options that `execCommand.Run` gives to the suites.
unfoldable pub suite_options : ExecCommand → List SuiteOption
suite_options cmd =
    fail_fast_option cmd.failfast
    ∷ filter_option cmd.filter
    ∷ (if is_positive cmd.timeout then timeout_option cmd.timeout ∷ [] else [])

-- `n.Notify`, where there is a notifier.
unfoldable pub notify : {W : Type 0} → Option (Notifier W) → Report W → W → W
notify none r w = w
notify (some n) r w = n r w

-- The loop of `execCommand.exec`; `failed` says that `err` is set, as the result does.
unfoldable pub exec :
    {W : Type 0} → Env W → Bool → Option (Notifier W) → List (Suite W) → Bool → W → Bool × W
unfolding notify
exec e failfast n [] failed w = (failed, w)
exec e failfast n (suite ∷ suites) failed w =
    let (report, w') = run e suite w in
    let w'' = notify n report w' in
    let rest = exec e failfast n suites in
    if not failed && ltb 0 report.nb_failed
    then (if failfast then (true, w'') else rest true w'')
    else rest failed w''

-- What os.Stat says of an argument.
pub data Mode : Type 0 where
  directory regular other : Mode

-- os.Stat, and the paths that filepath.Walk visits.
pub record Tree : Type 0 where
  pub stat : Str → Outcome Str Mode
  pub walk : Str → Outcome Str (List Str)
  pub quote : Str → Str

-- strings.HasSuffix
unfoldable pub has_suffix : Str → Str → Bool
has_suffix suffix [] = str_eq suffix []
has_suffix suffix (c ∷ s) =
    let rest = has_suffix suffix s in if str_eq (c ∷ s) suffix then true else rest

abbrev pub test_suite_json_suffix : Str
test_suite_json_suffix = codes ".suite.json"

-- `args = []string{"."}` where there is no argument
unfoldable pub here_if_none : List Str → List Str
here_if_none [] = codes "." ∷ []
here_if_none (arg ∷ args) = arg ∷ args

module _ (t : Tree) where
  paths_in : Str → Mode → Outcome Str (List Str)
  unfolding has_suffix
  paths_in arg directory = do
    paths ←
        wrap_err (λ e. codes "could not walk " ++ (t.quote arg ++ (codes " directory: " ++ e)))
          (t.walk arg)
    ok (keep (has_suffix test_suite_json_suffix) paths)
  paths_in arg regular = ok (arg ∷ [])
  paths_in arg other = ok []

  -- The first loop of `getSuitesFromArgs`.
  unfoldable pub paths_of : List Str → Outcome Str (List Str)
  unfolding paths_in
  paths_of [] = ok []
  paths_of (arg ∷ args) = do
    mode ← t.stat arg
    paths ← paths_in arg mode
    more ← paths_of args
    ok (paths ++ more)

module _ {C W : Type 0} (l : Loader C W) where
  -- The last loop of `getSuitesFromArgs`.
  unfoldable pub suites_of : List Str → List SuiteOption → Outcome Str (List (Suite W))
  suites_of [] options = ok []
  suites_of (path ∷ paths) options = do
    s ← wrap_err (λ e. path ++ (codes ": " ++ e)) (new_suite_from_file l path options)
    suites ← suites_of paths options
    ok (s ∷ suites)

  -- `getSuitesFromArgs`
  unfoldable pub get_suites_from_args :
      Tree → List Str → List SuiteOption → Outcome Str (List (Suite W))
  unfolding here_if_none suites_of
  get_suites_from_args t args options = do
    paths ← paths_of t (here_if_none args)
    suites_of paths options

-- ===== src/Cmd/Settings.antt =====
-- What the flags of the commands do to the suites that they load: `suiteOpts` of cmd/aragorn/exec.go.
use aragorn.Prelude.{
  Str, ◌≡◌, refl, ◌∙◌, ok, >>=-eq-ok, wrap_err-eq-ok, List, [], ◌∷◌, map, if_intro, subst,
  is_positive,
}
use aragorn.Server.Suite.{Suite}
use aragorn.Server.Options.{
  SuiteConfig, SuiteOption, apply_options, fail_fast_option, filter_option, timeout_option,
}
use aragorn.Server.Load.{Loader, new_suite_from_file}
use aragorn.Server.Load.Fields.{failfast-new_suite_from_file, path-new_suite_from_file}
use aragorn.Cmd.Exec.{
  ExecCommand, suite_options, Tree, paths_of, suites_of, here_if_none, get_suites_from_args,
}

suite_options-failfast :
    (cmd : ExecCommand) (file : SuiteConfig)
    → (apply_options (suite_options cmd) file).fail_fast ≡ cmd.failfast
unfolding suite_options apply_options fail_fast_option filter_option timeout_option
suite_options-failfast cmd file =
    if_intro
      (λ options.
        (apply_options options
          (record file { fail_fast = cmd.failfast; filter = cmd.filter })).fail_fast
        ≡ cmd.failfast)
      (is_positive cmd.timeout) _ _ (λ h. refl) (λ h. refl)

module _ {C W : Type 0} (l : Loader C W) where
  -- A suite that `exec` loads from a file among its arguments, by `NewSuiteFromFile`, is failfast exactly
  -- when the flag is given: the setting of the file has no say.
  pub failfast-exec :
      (cmd : ExecCommand) (path : Str) (s : Suite W)
      → new_suite_from_file l path (suite_options cmd) ≡ ok s
      → s.failfast ≡ cmd.failfast
  failfast-exec cmd path s h =
      let (file, same) = failfast-new_suite_from_file l path (suite_options cmd) s h in
      same ∙ suite_options-failfast cmd file

  suites_of-paths :
      (options : List SuiteOption) (paths : List Str) (ss : List (Suite W))
      → suites_of l paths options ≡ ok ss
      → map (λ s. s.path) ss ≡ paths
  unfolding suites_of
  suites_of-paths options [] ss h =
      let list : [] ≡ ss = cc h in subst (λ x. map (λ s. s.path) x ≡ []) list refl
  suites_of-paths options (path ∷ paths) ss h =
      let (s, one, h1) = >>=-eq-ok _ _ h in
      let (rest, more, same) = >>=-eq-ok _ _ h1 in
      let list : s ∷ rest ≡ ss = cc same in
      let here = path-new_suite_from_file l path options s (wrap_err-eq-ok _ _ one) in
      let there = suites_of-paths options paths rest more in
      subst (λ x. map (λ s. s.path) x ≡ path ∷ paths) list (rw (here, there))

  -- The suites that arguments name are those of the paths found for the arguments, in their order, the
  -- current directory standing in for no argument.
  get_suites_from_args-paths :
      (t : Tree) (args : List Str) (options : List SuiteOption) (ss : List (Suite W))
      → get_suites_from_args l t args options ≡ ok ss
      → paths_of t (here_if_none args) ≡ ok (map (λ s. s.path) ss)
  unfolding get_suites_from_args
  get_suites_from_args-paths t args options ss h =
      let (paths, found, loaded) = >>=-eq-ok _ _ h in
      let same = suites_of-paths options paths ss loaded in rw same found

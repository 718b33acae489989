-- ===== src/Server/Load/Fields.antt =====
-- Where the settings of a loaded suite come from: `genSuite` of server/config.go, `applyConfig` of
-- server/suite_option.go.
use aragorn.Prelude.{
  Str, str_eq, str_eq_iff, ◌≡◌, refl, ◌∙◌, subst, ℤ, pos, is_positive, ◌||◌, Option, none, some, ok,
  ◌>>=◌, >>=-eq-ok, wrap_err-eq-ok, List, [], arith, if◌then◌else◌,
}
use aragorn.Testsuite.{Test}
use aragorn.Server.Suite.{Suite}
use aragorn.Server.Options.{
  SuiteConfig, SuiteOption, Compile, apply_options, base_suite_option, apply_filter, apply_fields,
  apply_config, new_suite,
}
use aragorn.Server.Load.{
  Loader, Reader, name_of, default_config, new_suite_from_reader, open_suite, base_options,
  gen_suite, new_suite_from_file,
}

-- The first of two settings that is set, else zero.
abbrev pub first_positive : ℤ → ℤ → ℤ
first_positive a b = if is_positive a then a else if is_positive b then b else pos 0

-- The first of two texts that is not empty.
abbrev pub first_text : Str → Str → Str
first_text a b = if str_eq a [] then b else a

module _ {W : Type 0} where
  -- A filter changes nothing but the tests.
  apply_filter-settings :
      (compile : Compile) (filter : Str) (s s' : Suite W)
      → apply_filter compile filter s ≡ ok s'
      → s' ≡ record s { tests = s'.tests }
  unfolding apply_filter ◌>>=◌
  apply_filter-settings compile filter s s' h = ground arith

-- What a suite that was loaded from `path` holds: each setting is that of `over` where it sets it,
-- else that of `file`.
pub record HasSettings {W : Type 0} (path : Str) (over file : SuiteConfig) (s : Suite W)
    : Type 0 where
  pub of_path : s.path ≡ path
  pub of_typ : s.typ ≡ file.typ
  pub of_name : s.name ≡ first_text over.name file.name
  pub of_run_cron : s.run_cron ≡ first_text over.run_cron file.run_cron
  pub of_run_every : s.run_every ≡ first_positive over.run_every file.run_every
  pub of_retry_count : s.retry_count ≡ first_positive over.retry_count file.retry_count
  pub of_retry_wait : s.retry_wait ≡ first_positive over.retry_wait file.retry_wait
  pub of_timeout : s.timeout ≡ first_positive over.timeout file.timeout
  pub of_failfast : s.failfast ≡ (over.fail_fast || file.fail_fast)

-- The base suite after the options of a suite file.
base_of : Option Str → SuiteConfig → Option Str
base_of none cfg = cfg.base_suite
base_of (some bs) cfg = some bs

-- `NewSuite` and then `applyConfig` of the entry.
twice-HasSettings :
    {W : Type 0} (compile : Compile) (path : Str) (over file : SuiteConfig) (base : Option Str)
    (tests : List (Test W)) (t s : Suite W)
    → new_suite compile path file.typ tests (record file { base_suite = base }) ≡ ok t
    → apply_config compile over t ≡ ok s
    → HasSettings path over file s
unfolding new_suite apply_config apply_fields
twice-HasSettings compile path over file base tests t s h k =
    let first = apply_filter-settings compile file.filter _ t h in
    let second = apply_filter-settings compile over.filter _ s k in
    ground (arith, str_eq_iff file.name [], str_eq_iff file.run_cron [])

new_suite-failfast :
    {W : Type 0} (compile : Compile) (path : Str) (tests : List (Test W)) (cfg : SuiteConfig)
    (s : Suite W)
    → new_suite compile path cfg.typ tests cfg ≡ ok s
    → s.failfast ≡ cfg.fail_fast
unfolding new_suite apply_config apply_fields
new_suite-failfast compile path tests cfg s h =
    let settings = apply_filter-settings compile cfg.filter _ s h in ground arith

new_suite-path :
    {W : Type 0} (compile : Compile) (path : Str) (tests : List (Test W)) (cfg : SuiteConfig)
    (s : Suite W)
    → new_suite compile path cfg.typ tests cfg ≡ ok s
    → s.path ≡ path
unfolding new_suite apply_config apply_fields
new_suite-path compile path tests cfg s h =
    let settings = apply_filter-settings compile cfg.filter _ s h in ground arith

module _ {C W : Type 0} (l : Loader C W) where
  -- A suite that was read holds what `NewSuite` makes of the decoded file and the options.
  read_inversion :
      (r : Reader) (options : List SuiteOption) (s : Suite W)
      → new_suite_from_reader l r options ≡ ok s
      → (decoded : SuiteConfig) × (tests : List (Test W)) × (l.decode_config r.content
            default_config
          ≡ ok decoded)
        × (let cfg = apply_options options decoded in
            new_suite l.compile (name_of r) cfg.typ tests cfg ≡ ok s)
  unfolding new_suite_from_reader
  read_inversion r options s h =
      let (decoded, d, h1) = >>=-eq-ok _ _ h in
      let (reg, _, h2) = >>=-eq-ok _ _ h1 in
      let (own, _, h3) = >>=-eq-ok _ _ h2 in
      let (based, _, h4) = >>=-eq-ok _ _ h3 in
      let (tests, _, h5) = >>=-eq-ok _ _ h4 in (decoded, tests, wrap_err-eq-ok _ _ d, h5)

  opened_name :
      (path : Str) (r : Reader)
      → open_suite l path ≡ ok r
      → (content : Str) × (l.files.read path ≡ ok content)
        × (r ≡ record { name = some path; content = content })
  unfolding open_suite
  opened_name path r h =
      let (content, found, same) = >>=-eq-ok _ _ h in
      (content, wrap_err-eq-ok _ _ found, ground (arith, same))

  -- The base suite is the only thing that the options of a suite file change.
  apply-base_options :
      (suite : Option Str) (cfg : SuiteConfig)
      → apply_options (base_options suite) cfg ≡ record cfg { base_suite = base_of suite cfg }
  unfolding apply_options base_options base_suite_option base_of
  apply-base_options none cfg = refl
  apply-base_options (some bs) cfg = refl

  -- A suite of the configuration takes each setting from its entry, as the options leave it, then
  -- from the suite file, which is decoded over the defaults; failfast is set when either sets it.
  pub gen_suite-HasSettings :
      (path : Str) (scfg : SuiteConfig) (options : List SuiteOption) (s : Suite W)
      → gen_suite l path scfg options ≡ ok s
      → (content : Str) × (file : SuiteConfig) × (l.files.read path ≡ ok content)
        × (l.decode_config content default_config ≡ ok file)
        × HasSettings path (apply_options options scfg) file s
  unfolding gen_suite
  gen_suite-HasSettings path scfg options s h =
      let (r, opened, h1) = >>=-eq-ok _ _ h in
      let (t, loaded, h2) = >>=-eq-ok _ _ h1 in
      let (file, tests, decoded, made) = read_inversion r (base_options scfg.suite) t loaded in
      let (content, found, reader) = opened_name path r opened in
      let base : Option Str = base_of scfg.suite file in
      let renamed =
        subst (λ (x : SuiteConfig). new_suite l.compile (name_of r) x.typ tests x ≡ ok t)
          (apply-base_options scfg.suite file) made in
      let at_path =
        subst
          (λ (x : Reader).
            new_suite l.compile (name_of x) file.typ tests (record file { base_suite = base })
            ≡ ok t)
          reader renamed in
      let decoded' =
        subst (λ (x : Reader). l.decode_config x.content default_config ≡ ok file) reader decoded in
      (
        content,
        file,
        found,
        decoded',
        twice-HasSettings l.compile path _ file base tests t s at_path h2,
      )

  -- A suite that is loaded from a file alone is failfast as the options leave the decoded file.
  pub failfast-new_suite_from_file :
      (path : Str) (options : List SuiteOption) (s : Suite W)
      → new_suite_from_file l path options ≡ ok s
      → (file : SuiteConfig) × (s.failfast ≡ (apply_options options file).fail_fast)
  unfolding new_suite_from_file
  failfast-new_suite_from_file path options s h =
      let (r, opened, h1) = >>=-eq-ok _ _ h in
      let (file, tests, decoded, made) = read_inversion r options s h1 in
      (file, new_suite-failfast l.compile (name_of r) tests (apply_options options file) s made)

  -- The path of a suite that is loaded from a file is that of the file.
  pub path-new_suite_from_file :
      (path : Str) (options : List SuiteOption) (s : Suite W)
      → new_suite_from_file l path options ≡ ok s
      → s.path ≡ path
  unfolding new_suite_from_file
  path-new_suite_from_file path options s h =
      let (r, opened, h1) = >>=-eq-ok _ _ h in
      let (file, tests, decoded, made) = read_inversion r options s h1 in
      let (content, found, reader) = opened_name path r opened in
      let named : name_of r ≡ path = rw reader refl in
      new_suite-path l.compile (name_of r) tests (apply_options options file) s made ∙ named

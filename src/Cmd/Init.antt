-- ===== src/Cmd/Init.antt =====
-- cmd/aragorn/init.go: a new suite file from the example of a test suite plugin.
pub mod Available
use aragorn.Prelude.{
  Str, codes, str_eq, pos, false, Option, none, some, Outcome, ok, err, panic, wrap_err, ◌⊎◌, inl,
  inr, List, [], ◌∷◌, ◌++◌, map, if◌then◌else◌,
}
use aragorn.Prelude.Assoc.{Assoc}
use aragorn.Prelude.Sort.{sort_by}
use aragorn.Plugin.{Registration, get_plugin, for_type, test_suite_plugin}
use aragorn.HttpExpect.Query.{join}
use aragorn.Server.Options.{SuiteConfig}
use aragorn.Cmd.Usage.{Failure, message, Ending, returned, crashed, Command}
use aragorn.Cmd.Exec.{test_suite_json_suffix}

-- What package os does to the outside, the encoder of a suite file, and texts; an error is `some`.
-- `example` is the example_suite `Example` of the configuration of a plugin, where it has the method.
pub record Disk (P W : Type 0) : Type 0 where
  pub mkdir : Str → W → Option Str × W
  pub getwd : W → Str ⊎ Str
  pub create : Str → W → Option Str × W
  pub encode : Str → SuiteConfig → W → Option Str × W
  pub base_name : Str → Str
  pub join_path : Str → Str → Str
  pub title : Str → Str
  pub quote : Str → Str
  pub example : P → Option (Outcome Str Str)

-- A suite configuration of which nothing is set.
abbrev unset : SuiteConfig
unset = record {
  path = [];
  name = [];
  run_every = pos 0;
  run_cron = [];
  retry_count = pos 0;
  retry_wait = pos 0;
  timeout = pos 0;
  fail_fast = false;
  typ = [];
  suite = none;
  base_suite = none;
  filter = [];
}

-- The type that the arguments name.
unfoldable pub type_of : List Str → Str
type_of [] = codes "HTTP"
type_of (arg ∷ args) = if str_eq arg [] then codes "HTTP" else arg

module _ {P : Type 0} (reg : Assoc (Registration P)) where
  -- The sorted ids of `availableTestSuites`.
  unfoldable pub available_ids : List Str
  available_ids =
      sort_by (λ s. s) (map (λ (r : Registration P). r.id) (for_type test_suite_plugin reg))

  -- `availableTestSuites`
  unfoldable pub available_test_suites : Str → Str
  unfolding available_ids
  available_test_suites sep = join sep available_ids

  module _ {W : Type 0} (d : Disk P W) where
    -- The suite configuration of the example, nil where there is none.
    example_suite : Option (Outcome Str Str) → Outcome Str (Option Str)
    example_suite none = ok none
    example_suite (some (ok b)) = ok (some b)
    example_suite (some (err e)) = err (codes "could not marshal testsuite config: " ++ e)
    example_suite (some panic) = panic

    written : Option Str × W → Ending (Option Failure) W
    written (none, w) = returned none w
    written (some e, w) = returned (some (message e)) w

    created : Str → SuiteConfig → Option Str × W → Ending (Option Failure) W
    unfolding written
    created path cfg (some e, w) = returned (some (message e)) w
    created path cfg (none, w) = written (d.encode path cfg w)

    in_directory : Str → Option Str → Str ⊎ Str → W → Ending (Option Failure) W
    unfolding created
    in_directory typ suite (inl e) w = returned (some (message e)) w
    in_directory typ suite (inr dir) w =
        let pkg = d.base_name dir in
        let path = d.join_path (codes ".aragorn") (pkg ++ test_suite_json_suffix) in
        created path (record unset { typ = typ; name = d.title pkg; suite = suite })
          (d.create path w)

    made : Str → Option Str → Option Str × W → Ending (Option Failure) W
    unfolding in_directory
    made typ suite (some e, w) = returned (some (message e)) w
    made typ suite (none, w) = in_directory typ suite (d.getwd w) w

    with_example : Str → Outcome Str (Option Str) → W → Ending (Option Failure) W
    unfolding made
    with_example typ (ok suite) w = made typ suite (d.mkdir (codes ".aragorn") w)
    with_example typ (err e) w = returned (some (message e)) w
    with_example typ panic w = crashed

    of_plugin : Str → Option (Registration P) → W → Ending (Option Failure) W
    unfolding with_example example_suite available_test_suites
    of_plugin typ none w =
        returned
          (some (
            message (
              d.quote typ
              ++ (codes " is not a valid test suite type (supported: "
                  ++ (available_test_suites (codes ", ") ++ codes ")")))))
          w
    of_plugin typ (some r) w = with_example typ (example_suite (d.example r.init)) w

    -- `initCommand.Run`
    unfoldable pub init_run : List Str → W → Ending (Option Failure) W
    unfolding type_of of_plugin
    init_run args w =
        let typ = type_of args in of_plugin typ (get_plugin test_suite_plugin typ reg) w

    -- `initCommand`
    unfoldable pub init_command : Command W
    unfolding init_run available_test_suites
    init_command = record {
      name = codes "init";
      args = codes "(" ++ (available_test_suites (codes " | ") ++ codes ") (default: HTTP)");
      short_help = codes "Set up a new Aragorn project";
      long_help = codes "Set up a new Aragorn project";
      flags = [];
      hidden = false;
      run = λ v args w. init_run args w;
    }

-- ===== src/Cmd/Show.antt =====
-- The commands that print: cmd/aragorn/list.go and cmd/aragorn/version.go.
use aragorn.Prelude.{
  Str, codes, false, Option, none, some, Outcome, ok, err, panic, List, [], ◌∷◌, ◌++◌, map,
}
use aragorn.Testsuite.{Test}
use aragorn.Server.Suite.{Suite}
use aragorn.Server.Options.{filter_option}
use aragorn.Cmd.Usage.{
  Values, Failure, message, Ending, returned, crashed, Command, Layout, file_help, line,
}
use aragorn.Cmd.Exec.{get_suites_from_args}
use aragorn.Cmd.Program.{Program}

module _ {C N W : Type 0} (p : Program C N W) (lay : Layout) (stdout : Str → W → W) where
  test_row : Suite W → Test W → List Str
  test_row s t = s.path ∷ s.name ∷ s.typ ∷ t.name ∷ t.description ∷ []

  -- The rows of the table of `listCommand.Run`, below its head.
  unfoldable pub list_rows : List (Suite W) → List (List Str)
  unfolding test_row
  list_rows [] = []
  list_rows (s ∷ suites) = map (test_row s) s.tests ++ list_rows suites

  list_head : List Str
  list_head = codes "Path" ∷ codes "Suite" ∷ codes "Type" ∷ codes "Test" ∷ codes "Description" ∷ []

  listed : Outcome Str (List (Suite W)) → W → Ending (Option Failure) W
  unfolding list_rows list_head
  listed (ok suites) w = returned none (stdout (lay.tabulate 0 2 (list_head ∷ list_rows suites)) w)
  listed (err e) w = returned (some (message e)) w
  listed panic w = crashed

  -- `listCommand.Run`
  unfoldable pub list_run : Values → List Str → W → Ending (Option Failure) W
  unfolding listed
  list_run v args w =
      listed
        (get_suites_from_args p.loader p.tree args (filter_option (v.text (codes "filter")) ∷ [])) w

  -- `listCommand`
  unfoldable pub list_command : Command W
  unfolding list_run
  list_command = record {
    name = codes "list";
    args = codes "[file ...]";
    short_help = codes "List the test suites";
    long_help = codes "List the test suites" ++ file_help;
    flags =
        record {
          name = codes "filter";
          usage = codes "List only the tests that match the regular expression";
          def_value = [];
        }
        ∷ [];
    hidden = false;
    run = list_run;
  }

-- The variables that the build sets, and package runtime.
pub record Build : Type 0 where
  pub version : Str
  pub build_date : Str
  pub commit_hash : Str
  pub go_version : Str
  pub compiler : Str
  pub os : Str
  pub arch : Str

-- The text of `versionCommand.Run`.
version_text : Build → Str
version_text b =
    line (codes "aragorn:")
    ++ (line (codes " version     : " ++ b.version)
        ++ (line (codes " build date  : " ++ b.build_date)
            ++ (line (codes " git hash    : " ++ b.commit_hash)
                ++ (line (codes " go version  : " ++ b.go_version)
                    ++ (line (codes " go compiler : " ++ b.compiler)
                        ++ line (codes " platform    : " ++ (b.os ++ (codes "/" ++ b.arch))))))))

-- `versionCommand`
unfoldable pub version_command : {W : Type 0} → Build → (Str → W → W) → Command W
unfolding version_text
version_command b stdout = record {
  name = codes "version";
  args = [];
  short_help = codes "Show the aragorn version information";
  long_help = codes "Show the aragorn version information";
  flags = [];
  hidden = false;
  run = λ v args w. returned none (stdout (version_text b) w);
}

-- ===== src/Cmd/Usage.antt =====
-- Commands, their flags and the texts that describe them: `command`, `resetUsage` and `usage` of
-- cmd/aragorn/main.go.
use aragorn.Prelude.{
  Str, codes, str_eq, ℕ, ℤ, Bool, Option, none, some, List, [], ◌∷◌, ◌++◌, map, is_empty,
  if◌then◌else◌,
}
use aragorn.Prelude.Sort.{sort_by}

-- A flag.Flag.
pub record Flag : Type 0 where
  pub name : Str
  pub usage : Str
  pub def_value : Str

-- The values of flags after a flag.FlagSet has parsed arguments, by the names of the flags.
pub record Values : Type 0 where
  pub text : Str → Str
  pub bool : Str → Bool
  pub duration : Str → ℤ

-- The error of a command: `errSomethingWentWrong`, or another one by its text.
pub data Failure : Type 0 where
  something_went_wrong : Failure
  message : Str → Failure

-- How a command or the program ends: with a result, never, or in a panic.
pub data Ending (A W : Type 0) : Type 0 where
  returned : A → W → Ending A W
  waits : W → Ending A W
  crashed : Ending A W

-- A command returned without an error.
abbrev pub EndsWell : {W : Type 0} → Ending (Option Failure) W → Type 0
EndsWell (returned none w) = Unit
EndsWell (returned (some e) w) = ⊥
EndsWell (waits w) = ⊥
EndsWell crashed = ⊥

-- The interface `command`: what `Register` adds to a flag set, and `Run` on the values of the flags.
pub record Command (W : Type 0) : Type 0 where
  pub name : Str
  pub args : Str
  pub short_help : Str
  pub long_help : Str
  pub flags : List Flag
  pub hidden : Bool
  pub run : Values → List Str → W → Ending (Option Failure) W

-- `fileHelp`
abbrev pub file_help : Str
file_help =
    codes
      "\n\nFor each operand that names a file of type directory,\nall the files with the extension .suite.json in the directory will be used as test suites.\n\nFor each operand that names a file of a type other than directory,\nthe file will be used as a test suite.\n\nIf no operands are given, the current directory is used.\n"

-- What usage texts ask of packages strings and text/tabwriter: the text of rows of cells under the
-- widths of a writer.
pub record Layout : Type 0 where
  pub trim_space : Str → Str
  pub tabulate : ℕ → ℕ → List (List Str) → Str

abbrev pub line : Str → Str
line s = s ++ codes "\n"

-- The rows of a command that is not hidden.
command_rows : {W : Type 0} → List (Command W) → List (List Str)
command_rows [] = []
command_rows (cmd ∷ cmds) =
    let rest = command_rows cmds in
    if cmd.hidden then rest else ([] ∷ cmd.name ∷ cmd.short_help ∷ []) ∷ rest

-- `usage` of `run`
unfoldable pub usage : {W : Type 0} → Layout → List (Command W) → Str
unfolding command_rows
usage lay cmds =
    line (codes "Aragorn is a regression testing tool")
    ++ (line []
        ++ (line (codes "Usage: \"aragorn [command]\"")
            ++ (line []
                ++ (line (codes "Commands:")
                    ++ (line []
                        ++ (lay.tabulate 0 2 (command_rows cmds)
                            ++ (line []
                                ++ line (
                                    codes
                                      "Use \"aragorn help [command]\" for more information about a command."))))))))

-- The default of a flag, as its usage shows it.
shown_default : Str → Str
shown_default s = if str_eq s [] then codes "<none>" else s

flag_row : Flag → List Str
unfolding shown_default
flag_row f =
    []
    ∷ (codes "-" ++ f.name)
    ∷ (f.usage ++ (codes " (default: " ++ (shown_default f.def_value ++ codes ")")))
    ∷ []

-- `fs.Usage` as `resetUsage` sets it.
unfoldable pub command_usage : Layout → List Flag → Str → Str → Str → Str
unfolding flag_row
command_usage lay flags name args long_help =
    line (codes "Usage: aragorn " ++ (name ++ (codes " " ++ args)))
    ++ (line []
        ++ (line (lay.trim_space long_help)
            ++ (line []
                ++ (if is_empty flags
                    then []
                    else line (codes "Flags:")
                      ++ (line []
                          ++ line (
                              lay.tabulate 4 2
                                (map flag_row (sort_by (λ (f : Flag). f.name) flags))))))))

-- ===== src/Cmd/Args.antt =====
-- `parseArgs` and `getCommandFromName` of cmd/aragorn/main.go.
use aragorn.Prelude.{
  Str, codes, str_eq, contains, ℕ, ◌+◌, Bool, true, false, ◌&&◌, ◌||◌, leb, Option, none, some,
  List, [], ◌∷◌, map, if◌then◌else◌,
}

lower_byte : ℕ → ℕ
lower_byte c = if leb 65 c && leb c 90 then c + 32 else c

-- strings.ToLower of ASCII text
to_lower : Str → Str
unfolding lower_byte
to_lower s = map lower_byte s

-- `isHelpArg` at its argument.
unfoldable pub is_help_arg : Str → Bool
unfolding to_lower contains
is_help_arg s = contains (codes "help") (to_lower s) || str_eq (to_lower s) (codes "-h")

-- The results of `parseArgs`.
pub record Parsed : Type 0 where
  pub cmd_name : Str
  pub print_cmd_usage : Bool
  pub exit : Bool

-- `parseArgs`
unfoldable pub parse_args : List Str → Parsed
unfolding is_help_arg
parse_args [] = record { cmd_name = []; print_cmd_usage = false; exit = true }
parse_args (_ ∷ []) = record { cmd_name = []; print_cmd_usage = false; exit = true }
parse_args (_ ∷ arg ∷ []) =
    if is_help_arg arg
    then record { cmd_name = []; print_cmd_usage = false; exit = true }
    else record { cmd_name = arg; print_cmd_usage = false; exit = false }
parse_args (_ ∷ arg ∷ next ∷ _) =
    if is_help_arg arg
    then record { cmd_name = next; print_cmd_usage = true; exit = false }
    else record { cmd_name = arg; print_cmd_usage = false; exit = false }

-- `getCommandFromName`, over commands that are known by their name.
unfoldable pub get_command_from_name : {C : Type 0} → (C → Str) → Str → List C → Option C
get_command_from_name name_of name [] = none
get_command_from_name name_of name (cmd ∷ cmds) =
    if str_eq (name_of cmd) name then some cmd else get_command_from_name name_of name cmds

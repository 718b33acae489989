-- ===== src/Plugin.antt =====
-- plugin/plugin.go: the registry of plugins.
pub mod Registered
mod Tests
use aragorn.Prelude.{
  Str, codes, str_eq, starts_with, Bool, true, false, Option, none, some, Outcome, ok, err, panic,
  List, [], ◌∷◌, ◌++◌, if◌then◌else◌, map, keep,
}
use aragorn.Prelude.Assoc.{Assoc, get, put}

abbrev pub test_suite_plugin : Str
test_suite_plugin = codes "aragorn.testsuite.v1"

abbrev pub notifier_plugin : Str
notifier_plugin = codes "aragorn.notifier.v1"

-- `init` stands for the configuration and the function that come with a plugin.
pub record Registration (P : Type 0) : Type 0 where
  pub typ : Str
  pub id : Str
  pub init : P

-- `registrationURI`
unfoldable pub registration_uri : Str → Str → Str
registration_uri t id = t ++ b'.' ∷ id

-- `ErrNoType` and `ErrNoPluginID`, which `Register` panics with.
pub data RegisterError : Type 0 where
  no_type no_plugin_id : RegisterError

module _ {P : Type 0} where
  -- `Register`: the registry that it leaves, or what it panics with.
  unfoldable pub register :
      Registration P → Assoc (Registration P) → Outcome RegisterError (Assoc (Registration P))
  unfolding registration_uri
  register r reg =
      if str_eq r.typ []
      then err no_type
      else if str_eq r.id []
      then err no_plugin_id
      else ok (put (registration_uri r.typ r.id) r reg)

  -- `Get`; nil is `none`.
  unfoldable pub get_plugin : Str → Str → Assoc (Registration P) → Option (Registration P)
  unfolding registration_uri
  get_plugin t id reg = get (registration_uri t id) reg

  -- `ForType`
  unfoldable pub for_type : Str → Assoc (Registration P) → List (Registration P)
  for_type t [] = []
  for_type t ((k, r) ∷ reg) =
      let rest = for_type t reg in if starts_with t k then r ∷ rest else rest

-- ===== src/Json.antt =====
-- Decoded JSON documents, the `interface{}` values that package json of pkg/util/json gives: numbers
-- keep their text (`UseNumber`). A null is the nil interface.
pub mod Duration
pub mod Decode
use aragorn.Prelude.{
  Str, codes, Bool, true, false, Option, none, some, List, [], ◌∷◌, str_eq, if◌then◌else◌,
}

mutual
  pub data Value : Type 0 where
    null : Value
    bool : Bool → Value
    num : Str → Value
    str : Str → Value
    arr : Items → Value
    obj : Fields → Value

  pub data Items : Type 0 where
    nil : Items
    cons : Value → Items → Items

  -- The entries of a map, in the order in which one iteration meets them.
  pub data Fields : Type 0 where
    end : Fields
    field : Str → Value → Fields → Fields

abbrev pub items : Items → List Value
items nil = []
items (cons x xs) = x ∷ items xs

-- v, ok := m[k]
unfoldable pub field_of : Str → Fields → Option Value
field_of k end = none
field_of k (field j v fs) = if str_eq j k then some v else field_of k fs

-- An interface is nil.
abbrev pub is_nil : Value → Bool
is_nil null = true
is_nil _ = false

-- What a map says of itself under "$ref" and "$raw".
abbrev pub ref_key : Str
ref_key = codes "$ref"

abbrev pub raw_key : Str
raw_key = codes "$raw"

abbrev text_of : Option Value → Option Str
text_of (some (str s)) = some s
text_of _ = none

abbrev is_true : Option Value → Bool
is_true (some (bool b)) = b
is_true _ = false

-- doc["$ref"].(string), doc["$raw"].(bool), doc["$raw"].(string)
unfoldable pub ref_of : Fields → Option Str
ref_of fs = text_of (field_of ref_key fs)

unfoldable pub is_raw : Fields → Bool
is_raw fs = is_true (field_of raw_key fs)

unfoldable pub raw_of : Fields → Option Str
raw_of fs = text_of (field_of raw_key fs)

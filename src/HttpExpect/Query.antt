-- ===== src/HttpExpect/Query.antt =====
-- Queries into a decoded document: `queryJSONData` of testsuite/httpexpect/response.go.
pub mod Lookup
pub mod Path
mod Tests
use aragorn.Prelude.{
  Str, codes, str_eq, ℕ, ℤ, Bool, false, pos, negsuc, leb, ◌==◌, Option, none, some, Outcome, ok,
  err, panic, wrap_err, ◌>>=◌, List, [], ◌∷◌, ◌++◌, length, get_elem?, if◌then◌else◌,
}
use aragorn.Prelude.Decimal.{itoa, atoi}
use aragorn.Json.{Value, null, bool, num, str, arr, obj, items, field_of}

cons_head : ℕ → List Str → List Str
cons_head c [] = (c ∷ []) ∷ []
cons_head c (part ∷ parts) = (c ∷ part) ∷ parts

-- strings.Split at one byte
unfoldable pub split : ℕ → Str → List Str
unfolding cons_head
split sep [] = [] ∷ []
split sep (c ∷ s) = let rest = split sep s in if c == sep then [] ∷ rest else cons_head c rest

-- strings.Join
unfoldable pub join : Str → List Str → Str
join sep [] = []
join sep (part ∷ []) = part
join sep (part ∷ more ∷ parts) = part ++ (sep ++ join sep (more ∷ parts))

abbrev pub invalid_array_index : Str
invalid_array_index = codes "invalid array index"

abbrev pub invalid_type : Str
invalid_type = codes "invalid type"

abbrev pub index_out_of_bounds : Str
index_out_of_bounds = codes "array index out of bounds"

abbrev pub object_field_not_found : Str
object_field_not_found = codes "object does not contain field"

-- `v[i]` of a slice, which panics out of range.
index : List Value → ℤ → Outcome Str Value
index xs (negsuc i) = panic
index xs (pos i) = elim (get_elem? xs i) [ none ↦ panic | some v ↦ ok v ]

-- `i >= len(v)`
is_beyond : List Value → ℤ → Bool
is_beyond xs (negsuc i) = false
is_beyond xs (pos i) = leb (length xs) i

at_index : List Value → Option ℤ → Outcome Str Value
unfolding index is_beyond
at_index xs none = err invalid_array_index
at_index xs (some i) = if is_beyond xs i then err index_out_of_bounds else index xs i

in_object : Option Value → Outcome Str Value
in_object none = err object_field_not_found
in_object (some v) = ok v

-- `lookupJSONData`
unfoldable pub lookup_json : Str → Value → Outcome Str Value
unfolding at_index in_object
lookup_json k (arr xs) =
    if str_eq k (codes "length")
    then ok (num (itoa (length (items xs))))
    else at_index (items xs) (atoi k)
lookup_json k (obj fs) = in_object (field_of k fs)
lookup_json k null = err invalid_type
lookup_json k (bool b) = err invalid_type
lookup_json k (num n) = err invalid_type
lookup_json k (str s) = err invalid_type

-- The loop of `queryJSONData`; `seen` are the keys before, which an error names with its own.
unfoldable pub query_from : List Str → List Str → Value → Outcome Str Value
unfolding lookup_json
query_from seen [] v = ok v
query_from seen (k ∷ ks) v = do
  u ← wrap_err (λ e. join (codes ".") (seen ++ k ∷ []) ++ (codes ": " ++ e)) (lookup_json k v)
  query_from (seen ++ k ∷ []) ks u

-- `queryJSONData`
unfoldable pub query_json : Str → Value → Outcome Str Value
unfolding query_from split
query_json q v = query_from [] (split b'.' q) v

-- ===== src/HttpExpect/Query/Tests.antt =====
-- Queries into a small document.
use aragorn.Prelude.{codes, str_eq, ◌≡◌, refl, ◌↔◌, false, ok, err, panic, ◌>>=◌}
use aragorn.Prelude.Decimal.{itoa, atoi}
use aragorn.Json.{Value, Items, num, arr, obj, nil, cons, end, field, field_of}
use aragorn.HttpExpect.Query.{join, lookup_json, query_json}
use aragorn.HttpExpect.Query.Lookup.{IsNegative, lookup_json-panic_iff}

abbrev numbers : Items
numbers = cons (num (codes "7")) (cons (num (codes "8")) nil)

abbrev document : Value
document = obj (field (codes "a") (arr numbers) end)

query_runs :
    (query_json (codes "a.1") document ≡ ok (num (codes "8")))
    × (query_json (codes "a.length") document ≡ ok (num (codes "2")))
    × (query_json (codes "a.2") document ≡ err (codes "a.2: array index out of bounds"))
    × (query_json (codes "b") document ≡ err (codes "b: object does not contain field"))
unfolding query_json lookup_json field_of str_eq itoa atoi join ◌>>=◌
query_runs = (refl, refl, refl, refl)

first_part : query_json (codes "a") document ≡ ok (arr numbers)
unfolding query_json lookup_json field_of str_eq ◌>>=◌
first_part = refl

second_part : query_json (codes "1") (arr numbers) ≡ ok (num (codes "8"))
unfolding query_json lookup_json str_eq atoi ◌>>=◌
second_part = refl

minus_one_panics : query_json (codes "a.-1") document ≡ panic
unfolding query_json lookup_json field_of str_eq atoi ◌>>=◌
minus_one_panics = refl

lookup_json-panic_iff_example : (lookup_json (codes "-1") (arr numbers) ≡ panic) ↔ (
    (xs : Items) × (arr numbers ≡ arr xs)
    × (str_eq (codes "-1") (codes "length") ≡ false)
    × IsNegative (codes "-1"))
lookup_json-panic_iff_example = lookup_json-panic_iff (codes "-1") (arr numbers)

-- ===== src/HttpExpect/Response/Tests.antt =====
-- A response that meets what is expected of it, and two that do not.
use aragorn.Prelude.{
  codes, str_eq, pos, true, false, ◌≡◌, refl, ◌↔◌, none, some, ok, ◌>>=◌, inl, inr, [], ◌∷◌,
  if◌then◌else◌,
}
use aragorn.Prelude.Assoc.{put}
use aragorn.Prelude.Decimal.{atoi}
use aragorn.Json.{Value, null, num, arr, obj, nil, cons, end, field, field_of}
use aragorn.HttpExpect.Query.{query_json, lookup_json}
use aragorn.HttpExpect.Response.{
  Expect, Answer, no_json, Decoder, log, check_header, check_document, check_schema, check_values,
  save, check_response, json, eq_ℤ, is_natural, match_document, contains_json_values,
  compare_values, unmarshal_json_body,
}
use aragorn.HttpExpect.Response.Passes.{Meets, Passes, check_response-Meets}

abbrev body : Value
body = obj (field (codes "n") (arr (cons (num (codes "7")) nil)) end)

-- Every body but the empty one is the same document, and all documents are equal.
abbrev decoder : Decoder
decoder = record {
  unmarshal = λ b. if str_eq b [] then inl (codes "EOF") else inr body;
  equal = λ v w. true;
}

abbrev answer : Answer
answer = record {
  status_code = pos 200;
  header = λ k. if str_eq k (codes "A") then codes "1" else [];
  body = codes "{}";
}

abbrev expect : Expect
expect = record {
  id = codes "first";
  save_doc = true;
  status_code = pos 200;
  header = (codes "A", codes "1") ∷ [];
  document = some (json body);
  json_schema = none;
  json_values = some (field (codes "n.0") (num (codes "7")) end);
}

expect_runs :
    check_response decoder answer expect (some [])
    ≡ ok (
      record { data_json = body; data_json_error = false; logged = [] },
      some ((codes "first", body) ∷ []),
    )
unfolding check_response query_json lookup_json atoi str_eq put field_of eq_ℤ is_natural
    check_header check_document check_schema check_values save match_document contains_json_values
    compare_values unmarshal_json_body ◌>>=◌
expect_runs = refl

-- The message of a body that does not decode comes once, though three checks need it, and nothing is
-- saved.
abbrev no_body : Answer
no_body = record answer { body = [] }

no_body_runs :
    check_response decoder no_body expect (some [])
    ≡ ok (
      record { data_json = null; data_json_error = true; logged = no_json (codes "EOF") ∷ [] },
      some [],
    )
unfolding check_response str_eq eq_ℤ is_natural log check_header check_document check_schema
    check_values save match_document contains_json_values unmarshal_json_body ◌>>=◌
no_body_runs = refl

check_response-Meets_example :
    Passes decoder answer expect (some []) (check_response decoder answer expect (some []))
    ↔ Meets decoder answer expect (some [])
check_response-Meets_example = check_response-Meets decoder answer expect (some [])

-- ===== src/HttpExpect/Run/Tests.antt =====
-- A test whose URL takes a saved value, and one that saves its document.
use aragorn.Prelude.{
  Str, codes, str_eq, ℕ, pos, ◌≡◌, refl, ap, Bool, true, false, none, some, ok, err, ◌>>=◌, inr, [],
  ◌∷◌, starts_with, All, arith, ◌+◌, if◌then◌else◌,
}
use aragorn.Prelude.Assoc.{Assoc, put}
use aragorn.Json.{Value, str, obj, end, field, field_of}
use aragorn.HttpExpect.Query.{split, join, query_from, query_json, lookup_json}
use aragorn.HttpExpect.Response.{
  check_response, check_header, check_document, check_schema, check_values, save, eq_ℤ, is_natural,
  unmarshal_json_body,
}
use aragorn.HttpExpect.Request.{Url}
use aragorn.HttpExpect.Replace.{IsFree, replace, first_match}
use aragorn.HttpExpect.Prepare.{Prepared}
use aragorn.HttpExpect.Run.{
  Net, Ran, document_of, inner, old_new, cons_some, sent_url, kept_test, run_http,
}
use aragorn.HttpExpect.Run.Vars.{IsName, IsVar, NoPanic, var_name}
use aragorn.HttpExpect.Run.Sent.{Piece, IsFound, sent_url-filled}
use aragorn.HttpExpect.Run.Shared.{FoundLater, run_http-FoundLater}
use aragorn.HttpExpect.Run.Again.{run_http-sticks}

abbrev text_of : Value → Str
text_of (str s) = s
text_of _ = []

abbrev body : Value
body = obj (field (codes "k") (str (codes "9")) end)

-- Each round trip counts one; the body of the reply does not depend on the request.
abbrev net_sharing : Bool → Net ℕ
net_sharing shared = record {
  round_trip = λ r w.
      (inr (record { status_code = pos 200; header = λ k. []; body = inr (codes "{}") }), w + 1);
  sprint = text_of;
  query_escape = λ s. s;
  decoder = record { unmarshal = λ s. inr body; equal = λ v w. true };
  shares_url = shared;
}

-- The path is "/{{a.k}}/x".
abbrev url : Url
url = record {
  origin = codes "http://h";
  path = codes "/{{a.k}}/x";
  raw_path = codes "/{{a.k}}/x";
  raw_query = codes "n=1";
}

abbrev test : Prepared
test = record {
  name = codes "b";
  description = [];
  request = record { method = codes "GET"; url = url; header = []; body = none };
  path_queries = codes "{{a.k}}" ∷ [];
  query_queries = [];
  expect = record {
    id = codes "b";
    save_doc = true;
    status_code = pos 200;
    header = [];
    document = none;
    json_schema = none;
    json_values = none;
  };
}

-- What a test with the id "a" saved, with a value.
abbrev saved_as : Str → Assoc Value
saved_as s = (codes "a", obj (field (codes "k") (str s) end)) ∷ []

abbrev sent : Url
sent = record url { path = codes "/9/x"; raw_path = [] }

abbrev left : Bool → Ran ℕ
left shared = record {
  logged = [];
  md = some ((codes "a", body) ∷ (codes "b", body) ∷ []);
  test = record test { request = record test.request { url = if shared then sent else url } };
  world = 1;
}

run_runs :
    (shared : Bool)
    → run_http (net_sharing shared) test (some (saved_as (codes "9"))) 0 ≡ ok (left shared)
unfolding run_http sent_url kept_test old_new inner query_json split lookup_json field_of str_eq
    replace first_match starts_with cons_some check_response check_header check_document
    check_schema check_values save eq_ℤ is_natural unmarshal_json_body put ◌>>=◌
run_runs shared = refl

run_http-FoundLater_example :
    FoundLater (net_sharing false) test (saved_as (codes "9")) 0 (left false)
run_http-FoundLater_example =
    run_http-FoundLater (net_sharing false) test (saved_as (codes "9")) 0 (left false) refl
      ((λ e. omega arith), tt) (run_runs false) refl

a_k-IsName : IsName (codes "a.k")
a_k-IsName = (
  (λ e. omega arith, λ e. omega arith),
  ((λ e. omega arith, λ e. omega arith), ((λ e. omega arith, λ e. omega arith), tt)),
)

vars : All IsVar test.path_queries
vars = ((codes "a.k", refl, a_k-IsName), tt)

saved_value : (s : Str) → query_json (codes "a.k") (obj (document_of (saved_as s))) ≡ ok (str s)
unfolding query_json split lookup_json field_of str_eq ◌>>=◌
saved_value s = refl

no_panic : (s : Str) → All (NoPanic (saved_as s)) test.path_queries
no_panic s = (
  (λ n h bad.
      let name = var_name (codes "a.k") n h in
      let same = ap (λ x. query_json x (obj (document_of (saved_as s)))) name in
      let found = saved_value s in cc),
  tt,
)

abbrev piece : Piece
piece = record { before = codes "/"; name = codes "a.k"; value = some (str (codes "9")) }

saved : All (IsFound (saved_as (codes "9")) test.path_queries) (piece ∷ [])
saved = (
  record {
    free = ((λ e. omega arith), tt);
    named = a_k-IsName;
    place = 0;
    listed = refl;
    found = saved_value (codes "9");
  },
  tt,
)

tail-IsFree : IsFree b'{' (codes "/x")
tail-IsFree = ((λ e. omega arith), ((λ e. omega arith), tt))

path-IsFree : IsFree b'{' (codes "/9/x")
path-IsFree =
    ((λ e. omega arith), ((λ e. omega arith), ((λ e. omega arith), ((λ e. omega arith), tt))))

query-IsFree : IsFree b'{' (codes "n=1")
query-IsFree = ((λ e. omega arith), ((λ e. omega arith), ((λ e. omega arith), tt)))

-- The path is "/{{a.k}}/x{{z}}", and nothing was saved under "z".
abbrev half_saved : Prepared
half_saved = record test {
  request = record test.request { url = record url { path = codes "/{{a.k}}/x{{z}}" } };
  path_queries = codes "{{a.k}}" ∷ codes "{{z}}" ∷ [];
}

z-IsName : IsName (codes "z")
z-IsName = ((λ e. omega arith, λ e. omega arith), tt)

lost_value :
    query_json (codes "z") (obj (document_of (saved_as (codes "9"))))
    ≡ err (codes "z: object does not contain field")
unfolding query_json query_from split join lookup_json field_of str_eq ◌>>=◌
lost_value = refl

half-NoPanic : All (NoPanic (saved_as (codes "9"))) half_saved.path_queries
half-NoPanic = (
  (no_panic (codes "9")).0,
  (
    λ n h bad.
        let name = var_name (codes "z") n h in
        let same = ap (λ x. query_json x (obj (document_of (saved_as (codes "9"))))) name in
        let found = lost_value in cc,
    tt,
  ),
)

abbrev lost : Piece
lost = record { before = codes "/x"; name = codes "z"; value = none }

half-IsFound : All (IsFound (saved_as (codes "9")) half_saved.path_queries) (piece ∷ lost ∷ [])
half-IsFound = (
  record {
    free = ((λ e. omega arith), tt);
    named = a_k-IsName;
    place = 0;
    listed = refl;
    found = saved_value (codes "9");
  },
  (
    record {
      free = ((λ e. omega arith), ((λ e. omega arith), tt));
      named = z-IsName;
      place = 1;
      listed = refl;
      found = (codes "z: object does not contain field", lost_value);
    },
    tt,
  ),
)

sent_url-filled_example :
    (u : Url) × (sent_url (net_sharing false) half_saved (some (saved_as (codes "9"))) ≡ ok u)
    × (u.path ≡ codes "/9/x{{z}}")
    × (u.raw_query ≡ codes "n=1")
    × (u.origin ≡ codes "http://h")
    × (u.raw_path ≡ [])
sent_url-filled_example =
    sent_url-filled (net_sharing false) (saved_as (codes "9")) half_saved (piece ∷ lost ∷ []) [] []
      (codes "n=1") ((vars.0, ((codes "z", refl, z-IsName), tt)), half-NoPanic) (tt, tt)
      (refl, half-IsFound, tt) (refl, tt, query-IsFree)

-- The second run finds "8" saved, and sends "9" nevertheless.
run_http-sticks_example :
    (u : Url) × (sent_url (net_sharing true) (left true).test (some (saved_as (codes "8"))) ≡ ok u)
    × (u.path ≡ codes "/9/x")
    × (u.raw_query ≡ codes "n=1")
run_http-sticks_example =
    run_http-sticks (net_sharing true) test (saved_as (codes "9")) (saved_as (codes "8")) 0
      (left true) (piece ∷ []) [] (codes "/x") (codes "n=1") refl
      (vars, no_panic (codes "9"), no_panic (codes "8")) (tt, tt, tt) (refl, saved, tail-IsFree)
      (refl, tt, query-IsFree) path-IsFree query-IsFree (run_runs true)

-- ===== src/HttpExpect/Prepare.antt =====
-- The tests of an HTTP suite from its configuration: `genTests` and `prepare` of
-- testsuite/httpexpect/config.go.
pub mod Accepted
pub mod Consistent
mod Tests
use aragorn.Prelude.{
  Str, codes, str_eq, ℕ, ℤ, pos, ltb, ◌+◌, Bool, true, false, not, ◌&&◌, ◌||◌, Option, none, some,
  Outcome, ok, err, panic, ◌>>=◌, ◌⊎◌, inl, inr, List, [], ◌∷◌, ◌++◌, is_empty, if◌then◌else◌,
}
use aragorn.Prelude.Assoc.{Assoc}
use aragorn.Json.{Value, Fields, null, obj, is_nil}
use aragorn.Testsuite.Header.{merge_headers}
use aragorn.HttpExpect.Response.{Document, raw, json, Schema, Expect, eq_ℤ}
use aragorn.HttpExpect.Documents.{Sources, fix_ref_in_doc, get_document_field, get_object_field}
use aragorn.HttpExpect.Request.{
  Request, Url, HttpRequest, Web, header_get, header_set, to_http_request,
}

-- The types `Test` and `Expect`; a map that is nil is `none`.
pub record TestConfig : Type 0 where
  pub id : Str
  pub name : Str
  pub request : Request
  pub status_code : ℤ
  pub header : Assoc Str
  pub document : Value
  pub json_schema : Option Fields
  pub json_values : Option Fields
  pub save_document : Bool

-- What `Base` and `Config` say of all tests.
pub record Base : Type 0 where
  pub url : Str
  pub header : Assoc Str
  pub root : Str

-- The messages of `prepare`.
pub data Problem : Type 0 where
  several_bodies document_and_schema document_and_values : Problem
  no_request no_document no_schema no_values : Str → Problem

-- The type `test`: its description, its request, the saved values in its URL and what it expects.
pub record Prepared : Type 0 where
  pub name : Str
  pub description : Str
  pub request : HttpRequest
  pub path_queries : List Str
  pub query_queries : List Str
  pub expect : Expect

-- The libraries: those of requests, the compiler of JSON schemas, and the matches of `varsTmpl`.
pub record Libraries : Type 0 where
  pub src : Sources
  pub web : Web
  pub new_schema : Fields → Outcome Str Schema
  pub find_vars : Str → List Str

-- A part of `prepare` that may fail with a message, and goes on either way.
unfoldable pub attempt :
    {A : Type 0}
    → (Str → Problem)
    → Outcome Str A
    → Outcome (List Problem) (List Problem × Option A)
attempt f (ok a) = ok ([], some a)
attempt f (err e) = ok (f e ∷ [], none)
attempt f panic = panic

-- A part for what may be absent.
unfoldable pub attempt_some :
    {A B : Type 0}
    → (Str → Problem)
    → (A → Outcome Str B)
    → Option A
    → Outcome (List Problem) (List Problem × Option B)
unfolding attempt
attempt_some f g none = ok ([], none)
attempt_some f g (some a) = attempt f (g a)

present : Value → Option Value
present v = if is_nil v then none else some v

unfoldable pub is_some : {A : Type 0} → Option A → Bool
is_some none = false
is_some (some a) = true

one_if : Bool → ℕ
one_if b = if b then 1 else 0

-- How many of body, multipart and formData are set.
unfoldable pub bodies : Request → ℕ
unfolding is_some one_if
bodies req =
    one_if (not (is_nil req.body))
    + (one_if (is_some req.multipart) + one_if (is_some req.form_data))

-- The message of `prepare` on the body of the request.
unfoldable pub body_clash : TestConfig → List Problem
unfolding bodies
body_clash t = if ltb 1 (bodies t.request) then several_bodies ∷ [] else []

-- The messages of `prepare` on what must not be expected together.
unfoldable pub expect_clashes : TestConfig → List Problem
unfolding is_some
expect_clashes t =
    (if not (is_nil t.document) && is_some t.json_schema then document_and_schema ∷ [] else [])
    ++ (if not (is_nil t.document) && is_some t.json_values then document_and_values ∷ [] else [])

-- A document that is to be compared with a decoded body.
is_json : Option Document → Bool
is_json (some (json v)) = true
is_json (some (raw b)) = false
is_json none = false

module _ (lib : Libraries) (base : Base) where
  -- `expectJSONBody`, once the document was found
  unfoldable pub expects_json : TestConfig → Option Document → Bool
  unfolding is_json is_some
  expects_json t document = is_json document || (is_some t.json_schema || is_some t.json_values)

  accept_json : Bool → HttpRequest → HttpRequest
  accept_json wanted r =
      if wanted && str_eq (header_get lib.web (codes "Accept") r.header) []
      then record r {
        header = header_set lib.web (codes "Accept") (codes "application/json") r.header;
      }
      else r

  -- The `test` that `prepare` has filled in, once there was no message.
  finished :
      TestConfig
      → List Problem
      → Option HttpRequest
      → Option Document
      → Option Schema
      → Option Fields
      → Outcome (List Problem) Prepared
  unfolding accept_json expects_json eq_ℤ
  finished t problems none document schema values = err problems
  finished t problems (some r) document schema values =
      if is_empty problems
      then ok (record {
        name = t.name;
        description = r.method ++ (codes " " ++ lib.web.url_string r.url);
        request = accept_json (expects_json t document) r;
        path_queries = lib.find_vars r.url.raw_path;
        query_queries = lib.find_vars r.url.raw_query;
        expect = record {
          id = t.id;
          save_doc = t.save_document;
          status_code = if eq_ℤ t.status_code (pos 0) then pos 200 else t.status_code;
          header = merge_headers (t.header ∷ []);
          document = document;
          json_schema = schema;
          json_values = values;
        };
      })
      else err problems

  -- `Test.prepare`
  unfoldable pub prepare : TestConfig → Outcome (List Problem) Prepared
  unfolding body_clash expect_clashes attempt_some finished present
  prepare t = do
    request ←
        attempt no_request
          (to_http_request lib.web lib.src base.root base.url base.header t.request)
    document ← attempt_some no_document (get_document_field lib.src base.root) (present t.document)
    schema ←
        attempt_some no_schema (λ s. lib.new_schema (fix_ref_in_doc lib.src base.root s))
          t.json_schema
    values ← attempt_some no_values (get_object_field lib.src base.root) t.json_values
    let problems =
        body_clash t ++ (request.0 ++ (expect_clashes t ++ (document.0 ++ (schema.0 ++ values.0))))
    finished t problems request.1 document.1 schema.1 values.1

-- Why `genTests` refuses a suite; for tests, by their names, with what is wrong with each.
pub data GenError : Type 0 where
  no_url no_tests : GenError
  bad_url : Str → GenError
  bad_tests : List (Str × List Problem) → GenError

-- The messages so far and the tests so far.
abbrev pub Gathered : Type 0
Gathered = List (Str × List Problem) × List Prepared

gather : Str → Outcome (List Problem) Prepared → Gathered → Outcome GenError Gathered
gather name (ok t) (errs, ts) = ok (errs, t ∷ ts)
gather name (err problems) (errs, ts) = ok ((name, problems) ∷ errs, ts)
gather name panic rest = panic

module _ (lib : Libraries) (base : Base) where
  -- The loop of `Config.genTests`. A test may be nil, and is prepared
  -- nevertheless.
  unfoldable pub gather_tests : List (Option TestConfig) → Outcome GenError Gathered
  unfolding prepare gather
  gather_tests [] = ok ([], [])
  gather_tests (none ∷ ts) = panic
  gather_tests (some t ∷ ts) = do rest ← gather_tests ts; gather t.name (prepare lib base t) rest

  no_errors : Gathered → Outcome GenError (List Prepared)
  no_errors ([], ts) = ok ts
  no_errors (e ∷ es, ts) = err (bad_tests (e ∷ es))

  with_url : Str ⊎ Url → List (Option TestConfig) → Outcome GenError (List Prepared)
  unfolding gather_tests no_errors
  with_url (inl e) ts = err (bad_url e)
  with_url (inr u) [] = err no_tests
  with_url (inr u) (t ∷ ts) = gather_tests (t ∷ ts) >>= no_errors

  -- `Config.genTests`
  unfoldable pub gen_tests : List (Option TestConfig) → Outcome GenError (List Prepared)
  unfolding with_url
  gen_tests ts = if str_eq base.url [] then err no_url else with_url (lib.web.parse_url base.url) ts

-- ===== src/HttpExpect/Prepare/Tests.antt =====
-- A test that is prepared, and one with a body and form data.
use aragorn.Prelude.{
  Str, codes, str_eq, contains, starts_with, pos, ◌≡◌, refl, ◌↔◌, true, false, none, some, ok, err,
  ◌>>=◌, inr, [], ◌∷◌, ◌++◌,
}
use aragorn.Prelude.Assoc.{get, put}
use aragorn.Files.{get_file_path, is_abs}
use aragorn.Json.{Fields, null, str, obj, end, field, field_of, ref_of, is_raw, raw_of}
use aragorn.Testsuite.Header.{merge_headers}
use aragorn.HttpExpect.Response.{json, eq_ℤ}
use aragorn.HttpExpect.Documents.{Sources, fix_ref_in_doc, get_document_field}
use aragorn.HttpExpect.Request.{Url, get_body, set_header, header_get, header_set, to_http_request}
use aragorn.HttpExpect.Prepare.{
  TestConfig, Base, Libraries, Prepared, several_bodies, bad_tests, is_some, bodies, body_clash,
  expect_clashes, attempt, attempt_some, expects_json, prepare, gather_tests, gen_tests,
}
use aragorn.HttpExpect.Prepare.Accepted.{Accepted, gen_tests-Accepted}
use aragorn.HttpExpect.Prepare.Consistent.{IsPrepared, prepare-IsPrepared}

abbrev sources : Sources
sources = record {
  files = record { read = λ p. ok p; join = λ dir p. dir ++ p; dir = λ p. codes "/" };
  abs = λ p. inr p;
  decode = λ content. ok null;
  decode_object = λ content. ok end;
}

abbrev url_of : Str → Url
url_of s = record { origin = []; path = s; raw_path = []; raw_query = [] }

abbrev libraries : Libraries
libraries = record {
  src = sources;
  web = record {
    canonical = λ k. k;
    new_request = λ method u. inr (url_of u);
    parse_url = λ u. inr (url_of u);
    url_string = λ u. u.path;
    multipart = λ parts. ([], []);
    encode_form = λ m. codes "form";
    base_name = λ p. p;
    marshal = λ v. inr (codes "json");
  };
  new_schema = λ s. ok (λ v. inr (true, []));
  find_vars = λ s. [];
}

abbrev base : Base
base = record { url = codes "http://h"; header = []; root = codes "/" }

-- A GET of "/" that expects an empty document.
abbrev test : TestConfig
test = record {
  id = codes "t";
  name = codes "T";
  request = record {
    url = [];
    path = [];
    method = [];
    header = [];
    body = null;
    multipart = none;
    form_data = none;
  };
  status_code = pos 0;
  header = [];
  document = obj end;
  json_schema = none;
  json_values = none;
  save_document = false;
}

abbrev prepared : Prepared
prepared = record {
  name = codes "T";
  description = codes "GET http://h/";
  request = record {
    method = codes "GET";
    url = url_of (codes "http://h/");
    header = (codes "Accept", codes "application/json") ∷ [];
    body = none;
  };
  path_queries = [];
  query_queries = [];
  expect = record {
    id = codes "t";
    save_doc = false;
    status_code = pos 200;
    header = merge_headers ([] ∷ []);
    document = some (json (obj end));
    json_schema = none;
    json_values = none;
  };
}

test_prepares : prepare libraries base test ≡ ok prepared
unfolding prepare attempt attempt_some body_clash expect_clashes bodies is_some to_http_request
    get_body set_header header_get get put str_eq get_document_field field_of ref_of raw_of is_raw
    expects_json eq_ℤ ◌>>=◌
test_prepares = refl

prepare-IsPrepared_example : IsPrepared libraries base test prepared
prepare-IsPrepared_example = prepare-IsPrepared libraries base test prepared test_prepares

gen_tests-Accepted_example :
    (gen_tests libraries base (some test ∷ []) ≡ ok (prepared ∷ []))
    ↔ Accepted libraries base (some test ∷ []) (prepared ∷ [])
gen_tests-Accepted_example = gen_tests-Accepted libraries base (some test ∷ []) (prepared ∷ [])

abbrev two_bodies : TestConfig
two_bodies = record test {
  request = record test.request { body = str (codes "b"); form_data = some [] };
}

two_bodies_fail :
    gen_tests libraries base (some test ∷ some two_bodies ∷ [])
    ≡ err (bad_tests ((codes "T", several_bodies ∷ []) ∷ []))
unfolding gen_tests gather_tests prepare attempt attempt_some body_clash expect_clashes bodies
    is_some to_http_request get_body set_header header_get header_set get put str_eq
    get_document_field field_of ref_of raw_of is_raw expects_json eq_ℤ ◌>>=◌
two_bodies_fail = refl

abbrev schema : Fields
schema = field (codes "$ref") (str (codes "s.json")) end

schema_fixed :
    fix_ref_in_doc sources (codes "/") schema
    ≡ field (codes "$ref") (str (codes "file:///s.json")) end
unfolding fix_ref_in_doc str_eq contains starts_with get_file_path is_abs
schema_fixed = refl

-- ===== src/HttpExpect/Interface/Tests.antt =====
-- A suite of two tests, the first of which saves its document.
use aragorn.Prelude.{
  Str, codes, ℕ, ◌+◌, ℤ, pos, ◌≡◌, refl, ◌↔◌, true, false, none, some, inr, List, [], ◌∷◌, ◌>>=◌,
}
use aragorn.Prelude.Assoc.{put}
use aragorn.Json.{Value, str, obj, end, field}
use aragorn.Testsuite.{Env}
use aragorn.Server.Suite.{Suite, run}
use aragorn.HttpExpect.Response.{
  check_response, check_header, check_document, check_schema, check_values, save, eq_ℤ,
  unmarshal_json_body,
}
use aragorn.HttpExpect.Prepare.{Prepared}
use aragorn.HttpExpect.Run.{Net, Logged, sent_url, kept_test, run_http}
use aragorn.HttpExpect.Interface.{Place, with_md, IsSteady, http_tests}
use aragorn.HttpExpect.Interface.Passes.{AllSucceed, run-AllSucceed}

abbrev body : Value
body = obj (field (codes "k") (str (codes "9")) end)

-- Each round trip counts one.
abbrev net : ℤ → Net ℕ
net limit = record {
  round_trip = λ r w.
      (inr (record { status_code = pos 200; header = λ k. []; body = inr (codes "{}") }), w + 1);
  sprint = λ v. [];
  query_escape = λ s. s;
  decoder = record { unmarshal = λ s. inr body; equal = λ v w. true };
  shares_url = true;
}

abbrev expecting : ℕ → Prepared
expecting code = record {
  name = codes "a";
  description = [];
  request = record {
    method = codes "GET";
    url = record { origin = codes "http://h"; path = codes "/"; raw_path = []; raw_query = [] };
    header = [];
    body = none;
  };
  path_queries = [];
  query_queries = [];
  expect = record {
    id = codes "a";
    save_doc = true;
    status_code = pos code;
    header = [];
    document = none;
    json_schema = none;
    json_values = none;
  };
}

steady : IsSteady net (expecting 200)
unfolding run_http sent_url kept_test check_response check_header check_document check_schema
    check_values save eq_ℤ unmarshal_json_body ◌>>=◌
steady limit p = record {
  ran = record {
    logged = [];
    md = some (put (codes "a") body p.md);
    test = expecting 200;
    world = p.outside + 1;
  };
  ends = refl;
  same = refl;
}

abbrev steady_twice : List ((t : Prepared) × IsSteady net t)
steady_twice = (expecting 200, steady) ∷ (expecting 200, steady) ∷ []

abbrev say : Logged → Str
say m = codes "failed"

abbrev suite : Suite (Place ℕ)
suite = record {
  path = codes "a.suite.json";
  name = codes "a";
  typ = codes "HTTP";
  run_cron = [];
  run_every = pos 0;
  retry_count = pos 3;
  retry_wait = pos 1;
  timeout = pos 30;
  failfast = false;
  tests = http_tests net say steady_twice;
}

abbrev counting : Env ℕ
counting = record {
  now = λ w. pos w;
  is_done = λ w. false;
  wait = λ d w. (false, w);
  new_md = λ w. w;
}

run-AllSucceed_example :
    ((run (with_md counting) suite (record { md = []; outside = 0 })).0.nb_failed ≡ 0)
    ↔ AllSucceed net say (with_md counting) suite steady_twice (record { md = []; outside = 0 })
run-AllSucceed_example =
    run-AllSucceed net say counting suite steady_twice (record { md = []; outside = 0 }) refl
      (λ w. refl)

-- ===== src/GrpcExpect/Interface/Tests.antt =====
-- A suite of a gRPC test, over a channel that answers with the requests it takes.
use aragorn.Prelude.{
  Str, codes, str_eq, ℕ, ◌+◌, pos, ◌≡◌, refl, ◌↔◌, false, Option, none, some, inr, List, [], ◌∷◌,
  map,
}
use aragorn.Testsuite.{Env}
use aragorn.Server.Suite.{Suite, run}
use aragorn.GrpcExpect.Call.{
  Failure, get_request_data, check_answer, check_headers, check_responses,
}
use aragorn.GrpcExpect.Call.Requests.{after}
use aragorn.GrpcExpect.Generate.{GrpcTest}
use aragorn.GrpcExpect.Interface.{Channel, request_at, handler_of, run_grpc, grpc_test}
use aragorn.GrpcExpect.Interface.Passes.{AllMeet, run-AllMeet}

abbrev taken : Option Str → List Str → List Str
taken none rest = rest
taken (some s) rest = s ∷ rest

-- Takes two requests at most, and counts the calls.
abbrev echo : Channel ℕ Str
echo = record {
  invoke_rpc = λ limit method headers request w. (
    inr (record {
      code = 0;
      message = [];
      md = λ k. [];
      resps = taken (request 0) (taken (request 1) []);
    }),
    w + 1,
  );
  messages = record { decode_as = λ got want. inr want; equal = str_eq };
}

abbrev calling : List Str → GrpcTest
calling wants = record {
  name = codes "a";
  description = [];
  method_name = codes "s/m";
  headers = [];
  msgs = codes "one" ∷ codes "two" ∷ [];
  expect = record { code = 0; header = []; msgs = wants };
}

echo_passes : run_grpc echo (calling (codes "one" ∷ codes "two" ∷ [])) (pos 30) 0 ≡ ([], 1)
unfolding run_grpc request_at handler_of after get_request_data check_answer check_headers
    check_responses str_eq
echo_passes = refl

abbrev say : Failure → Str
say m = codes "failed"

abbrev tests : List GrpcTest
tests = calling (codes "one" ∷ codes "two" ∷ []) ∷ calling (codes "one" ∷ []) ∷ []

abbrev suite : Suite ℕ
suite = record {
  path = codes "a.suite.json";
  name = codes "a";
  typ = codes "GRPC";
  run_cron = [];
  run_every = pos 0;
  retry_count = pos 3;
  retry_wait = pos 1;
  timeout = pos 30;
  failfast = false;
  tests = map (grpc_test echo say) tests;
}

abbrev counting : Env ℕ
counting = record {
  now = λ w. pos w;
  is_done = λ w. false;
  wait = λ d w. (false, w);
  new_md = λ w. w;
}

run-AllMeet_example :
    ((run counting suite 0).0.nb_failed ≡ 0) ↔ AllMeet echo say counting suite tests 0
run-AllMeet_example = run-AllMeet echo say counting suite tests 0 refl (λ w. refl)

-- ===== src/GrpcExpect/Interface.antt =====
-- A gRPC test as the run of a suite sees it: the methods of `test` in testsuite/grpcexpect/grpcexpect.go.
pub mod Passes
mod Tests
use aragorn.Prelude.{Str, ℕ, ℤ, Option, ◌⊎◌, List, [], ◌∷◌, map}
use aragorn.Testsuite.{Test}
use aragorn.GrpcExpect.Call.{Failure, Handler, Answer, Messages, get_request_data, check_answer}
use aragorn.GrpcExpect.Call.Requests.{after}
use aragorn.GrpcExpect.Generate.{GrpcTest}

-- The package grpcurl with a connection: a call under a time limit of a method with headers, which asks
-- for its requests one after another, until there is none.
pub record Channel (W : Type 0) (M : Type 0) : Type 0 where
  pub invoke_rpc : ℤ → Str → List Str → (ℕ → Option Str) → W → (Str ⊎ Answer M) × W
  pub messages : Messages M

-- The handler that `test.Run` makes.
unfoldable pub handler_of : GrpcTest → Handler
handler_of t = record { reqs = t.msgs; cur_req = 0 }

-- What a call is given when it has asked for `i` requests before.
unfoldable pub request_at : GrpcTest → ℕ → Option Str
unfolding handler_of get_request_data
request_at t i = (get_request_data (after i (handler_of t))).0

module _ {W M : Type 0} (channel : Channel W M) where
  -- `test.Run`, as what it logs.
  unfoldable pub run_grpc : GrpcTest → ℤ → W → List Failure × W
  unfolding request_at check_answer
  run_grpc t limit w =
      let (answer, w') = channel.invoke_rpc limit t.method_name t.headers (request_at t) w in
      (check_answer channel.messages t.expect answer, w')

  -- The methods Name, Description and Run; `say` formats a message.
  unfoldable pub grpc_test : (Failure → Str) → GrpcTest → Test W
  unfolding run_grpc
  grpc_test say t = record {
    name = t.name;
    description = t.description;
    run = λ limit w. let (logged, w') = run_grpc t limit w in (map say logged, w');
  }

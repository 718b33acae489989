-- ===== src/GrpcExpect/Generate.antt =====
-- The gRPC tests of a configuration: `genTests` of testsuite/grpcexpect/config.go.
pub mod Generated
mod Tests
use aragorn.Prelude.{
  Str, codes, ℕ, suc, ◌+◌, Outcome, ok, err, panic, ◌>>=◌, List, [], ◌∷◌, ◌++◌, map,
}
use aragorn.Prelude.Assoc.{Assoc}
use aragorn.Json.{Value}
use aragorn.Testsuite.Header.{merge_headers, slice}
use aragorn.GrpcExpect.Call.{Expect}
use aragorn.GrpcExpect.Document.{Sources, LoadError, new_doc_to_msgs}

-- The types `TestConfig`, `RequestConfig` and `ExpectConfig`.
pub record TestConfig : Type 0 where
  pub name : Str
  pub method : Str
  pub request_header : Assoc Str
  pub request_document : Value
  pub code : ℕ
  pub expect_header : Assoc Str
  pub expect_document : Value

-- What the type `Config` says of all tests.
pub record Config : Type 0 where
  pub path : Str
  pub address : Str
  pub header : Assoc Str

-- The type `test`, less the connection.
pub record GrpcTest : Type 0 where
  pub name : Str
  pub description : Str
  pub method_name : Str
  pub headers : List Str
  pub msgs : List Str
  pub expect : Expect

pub data Side : Type 0 where
  of_request of_expect : Side

-- The error of `genTests`: the index and the name of the test, the side, and the cause.
pub record GenError : Type 0 where
  pub index : ℕ
  pub name : Str
  pub side : Side
  pub cause : LoadError

located : {A : Type 0} → ℕ → Str → Side → Outcome LoadError A → Outcome GenError A
located i name side (ok a) = ok a
located i name side (err e) = err (record { index = i; name = name; side = side; cause = e })
located i name side panic = panic

-- `encode` is json.Marshal, whose error is ignored; `depth` bounds the files that refer to one another.
module _ (src : Sources) (encode : Value → Str) (depth : ℕ) (cfg : Config) where
  -- The messages of a document.
  encoded : Value → Outcome LoadError (List Str)
  encoded doc = new_doc_to_msgs src depth cfg.path doc >>= λ vs. ok (map encode vs)

  -- One round of the loop of `Config.genTests`.
  unfoldable pub gen_test : ℕ → TestConfig → Outcome GenError GrpcTest
  unfolding located encoded
  gen_test i t = do
    req ← located i t.name of_request (encoded t.request_document)
    exp ← located i t.name of_expect (encoded t.expect_document)
    ok (record {
      name = t.name;
      description = codes "grpc://" ++ (cfg.address ++ (codes "/" ++ t.method));
      method_name = t.method;
      headers = slice (merge_headers (cfg.header ∷ t.request_header ∷ []));
      msgs = req;
      expect = record { code = t.code; header = merge_headers (t.expect_header ∷ []); msgs = exp };
    })

  -- The loop of `Config.genTests`, from the index `i` on.
  unfoldable pub gen_from : ℕ → List TestConfig → Outcome GenError (List GrpcTest)
  unfolding gen_test
  gen_from i [] = ok []
  gen_from i (t ∷ ts) = do test ← gen_test i t; tests ← gen_from (i + 1) ts; ok (test ∷ tests)

  -- `Config.genTests`
  unfoldable pub gen_grpc_tests : List TestConfig → Outcome GenError (List GrpcTest)
  unfolding gen_from
  gen_grpc_tests ts = gen_from 0 ts

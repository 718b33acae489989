-- ===== src/GrpcExpect/Example.antt =====
-- The example suite that `init` writes for the type GRPC: `Config.Example` of
-- testsuite/grpcexpect/config.go.
use aragorn.Prelude.{
  Str, codes, str_eq, ok_of, ℕ, suc, ◌≡◌, refl, true, false, none, ok, ◌>>=◌, List, [], ◌∷◌,
}
use aragorn.Json.{Value, str, obj, end, field, field_of}
use aragorn.GrpcExpect.Document.{Sources, ref_of, raw_of, new_doc_to_msgs}
use aragorn.GrpcExpect.Document.Flat.{IsFlat, load_doc-flat}
use aragorn.GrpcExpect.Generate
use aragorn.GrpcExpect.Generate.{TestConfig, GrpcTest, gen_test, gen_from, gen_grpc_tests}
use aragorn.GrpcExpect.Dial.{Link}

-- The test of the example.
abbrev example_test : TestConfig
example_test = record {
  name = codes "Simple Call";
  method = codes "grpcexpect.testing.TestService/SimpleCall";
  request_header = (codes "hello", codes "world") ∷ [];
  request_document = obj (field (codes "username") (str (codes "world")) end);
  code = 0;
  expect_header = (codes "hello", codes "world") ∷ [];
  expect_document = obj (field (codes "message") (str (codes "Hello world!")) end);
}

-- `Config.Example`: the connection, and the rest of the configuration with its tests.
unfoldable pub grpc_example : {O : Type 0} → Link O × Generate.Config × List TestConfig
grpc_example = (
  record {
    root = [];
    address = codes "localhost:50051";
    proto_set_path = [];
    tls = false;
    ca_path = [];
    server_host_override = [];
    insecure = true;
    oauth2 = none;
  },
  record { path = []; address = codes "localhost:50051"; header = [] },
  example_test ∷ [],
)

example_documents : IsFlat example_test.request_document × IsFlat example_test.expect_document
unfolding IsFlat ref_of raw_of field_of str_eq
example_documents = ((refl, refl, (tt, tt, tt)), (refl, refl, (tt, tt, tt)))

-- The example makes a test, whatever the files and the encoder of messages are.
grpc_example_lem :
    (O : Type 0) (src : Sources) (encode : Value → Str) (n : ℕ)
    → (ts : List GrpcTest) × (gen_grpc_tests src encode
          (suc n)
          (grpc_example {O = O}).1
          (grpc_example {O = O}).2
        ≡ ok ts)
unfolding grpc_example gen_grpc_tests gen_from gen_test new_doc_to_msgs ◌>>=◌
grpc_example_lem O src encode n =
    let (request, expected) = example_documents in
    let one = load_doc-flat src n [] example_test.request_document request in
    let two = load_doc-flat src n [] example_test.expect_document expected in
    ok_of _ (rw (one, two) tt)

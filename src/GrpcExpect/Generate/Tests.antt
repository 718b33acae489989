-- ===== src/GrpcExpect/Generate/Tests.antt =====
-- A test without documents, and one whose document is a number.
use aragorn.Prelude.{Str, codes, ◌≡◌, refl, ok, err, ◌>>=◌, [], ◌∷◌, ◌++◌}
use aragorn.Json.{Value, null, num, end}
use aragorn.Testsuite.Header.{merge_headers, slice}
use aragorn.GrpcExpect.Document.{Sources, failed, new_doc_to_msgs, load_doc, load_with}
use aragorn.GrpcExpect.Generate.{TestConfig, Config, GrpcTest, GenError, of_request, gen_test}
use aragorn.GrpcExpect.Generate.Generated.{AllGenerated}

abbrev sources : Sources
sources = record {
  files = record { read = λ p. ok p; join = λ dir p. dir ++ p; dir = λ p. codes "/" };
  decode_object = λ content. ok end;
  base64 = λ s. s;
}

abbrev encode : Value → Str
encode v = codes "json"

abbrev config : Config
config = record { path = codes "/s"; address = codes "h:1"; header = [] }

abbrev call : TestConfig
call = record {
  name = codes "call";
  method = codes "S/M";
  request_header = [];
  request_document = null;
  code = 0;
  expect_header = [];
  expect_document = null;
}

abbrev wrong : TestConfig
wrong = record call { name = codes "wrong"; request_document = num (codes "7") }

abbrev generated : GrpcTest
generated = record {
  name = codes "call";
  description = codes "grpc://h:1/S/M";
  method_name = codes "S/M";
  headers = slice (merge_headers ([] ∷ [] ∷ []));
  msgs = codes "json" ∷ [];
  expect = record { code = 0; header = merge_headers ([] ∷ []); msgs = codes "json" ∷ [] };
}

abbrev refused : GenError
refused = record {
  index = 1;
  name = codes "wrong";
  side = of_request;
  cause = failed (codes "invalid document type");
}

call-AllGenerated : AllGenerated sources encode 1 config 0 (call ∷ []) (generated ∷ [])
unfolding gen_test new_doc_to_msgs load_doc load_with ◌>>=◌
call-AllGenerated = (refl, tt)

wrong_fails : gen_test sources encode 1 config 1 wrong ≡ err refused
unfolding gen_test new_doc_to_msgs load_doc load_with ◌>>=◌
wrong_fails = refl

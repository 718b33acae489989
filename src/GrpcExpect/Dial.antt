-- ===== src/GrpcExpect/Dial.antt =====
-- The connection of a gRPC suite: `transportDialOption` of testsuite/grpcexpect/config.go and `New` of
-- testsuite/grpcexpect/grpcexpect.go.
pub mod Trust
mod Tests
use aragorn.Prelude.{
  Str, codes, str_eq, ℕ, Bool, true, false, ◌||◌, Option, none, some, Outcome, ok, err, panic,
  wrap_err, ◌>>=◌, List, [], ◌∷◌, ◌++◌, if◌then◌else◌,
}
use aragorn.Json.{Value}
use aragorn.Files.{Files, get_file_path}
use aragorn.GrpcExpect.Document.{Sources}
use aragorn.GrpcExpect.Generate
use aragorn.GrpcExpect.Generate.{TestConfig, GenError, GrpcTest, gen_grpc_tests}

-- What `Config` says of the connection; `oauth2` is the credentials, where there are any.
pub record Link (O : Type 0) : Type 0 where
  pub root : Str
  pub address : Str
  pub proto_set_path : Str
  pub tls : Bool
  pub ca_path : Str
  pub server_host_override : Str
  pub insecure : Bool
  pub oauth2 : Option O

-- A tls.Config; the pool of root certificates is never nil here.
pub record TlsConfig : Type 0 where
  pub server_name : Str
  pub root_cas : List Str
  pub insecure_skip_verify : Bool

-- The options of grpc.Dial.
pub data DialOption (O : Type 0) : Type 0 where
  unary_interceptor stream_interceptor with_insecure : DialOption O
  transport_credentials : TlsConfig → DialOption O
  per_rpc_credentials : O → DialOption O

-- AppendCertsFromPEM on an empty pool: the certificates that it finds, where it finds any.
abbrev pub ReadCerts : Type 0
ReadCerts = Str → Option (List Str)

appended : Option (List Str) → Outcome Str (List Str)
appended none = err (codes "credentials: failed to append certificates")
appended (some certs) = ok certs

module _ {O : Type 0} (files : Files) (read_certs : ReadCerts) where
  -- The pool of root certificates.
  roots_of : Link O → Outcome Str (List Str)
  unfolding appended
  roots_of cfg = if str_eq cfg.ca_path [] then ok [] else (do
    b ←
        wrap_err (λ e. codes "could not read CA file: " ++ e)
          (files.read (get_file_path files cfg.root cfg.ca_path))
    appended (read_certs b))

  -- `Config.transportDialOption`
  unfoldable pub transport_dial_option : Link O → Outcome Str (DialOption O)
  unfolding roots_of
  transport_dial_option cfg =
      if cfg.tls
      then (do
        roots ← roots_of cfg
        ok (
            transport_credentials (record {
              server_name = cfg.server_host_override;
              root_cas = roots;
              insecure_skip_verify = cfg.insecure;
            })))
      else ok with_insecure

  -- The options that `New` dials with.
  unfoldable pub dial_options : Link O → Outcome Str (List (DialOption O))
  unfolding transport_dial_option
  dial_options cfg = do
    tc ← transport_dial_option cfg
    ok (
        unary_interceptor
        ∷ stream_interceptor
        ∷ tc
        ∷ elim cfg.oauth2 [ none ↦ [] | some o ↦ per_rpc_credentials o ∷ [] ])

-- grpc.Dial, and the sources of descriptors of grpcurl.
pub record Grpc (O K D : Type 0) : Type 0 where
  pub dial : Str → List (DialOption O) → Outcome Str K
  pub from_proto_sets : Str → Outcome Str D
  pub from_server : K → D

-- Why a suite could not be made.
pub data NewError : Type 0 where
  no_connection : Str → NewError
  bad_test : GenError → NewError

connected : {A : Type 0} → Outcome Str A → Outcome NewError A
connected (ok a) = ok a
connected (err e) = err (no_connection e)
connected panic = panic

generated : {A : Type 0} → Outcome GenError A → Outcome NewError A
generated (ok a) = ok a
generated (err e) = err (bad_test e)
generated panic = panic

module _ {O K D : Type 0} (grpc : Grpc O K D) (src : Sources) (read_certs : ReadCerts) where
  descriptors : Link O → K → Outcome Str D
  descriptors cfg cc =
      if str_eq cfg.proto_set_path []
      then ok (grpc.from_server cc)
      else grpc.from_proto_sets (get_file_path src.files cfg.root cfg.proto_set_path)

  -- `New`: the connection, the descriptors and the tests.
  unfoldable pub new_grpc_suite :
      (Value → Str)
      → ℕ
      → Link O
      → Generate.Config
      → List TestConfig
      → Outcome NewError (K × D × List GrpcTest)
  unfolding connected generated descriptors dial_options
  new_grpc_suite encode depth cfg tests_cfg tests = do
    opts ← connected (dial_options src.files read_certs cfg)
    cc ← connected (grpc.dial cfg.address opts)
    desc ← connected (descriptors cfg cc)
    ts ← generated (gen_grpc_tests src encode depth tests_cfg tests)
    ok (cc, desc, ts)

  -- The function that makes a suite of a configuration in a file, under the directory of the file.
  unfoldable pub init_grpc :
      (Value → Str)
      → ℕ
      → Link O
      → Generate.Config
      → List TestConfig
      → Str
      → Str
      → Outcome NewError (K × D × List GrpcTest)
  unfolding new_grpc_suite
  init_grpc encode depth cfg tests_cfg tests path root =
      new_grpc_suite encode depth (record cfg { root = root }) (record tests_cfg { path = path })
        tests

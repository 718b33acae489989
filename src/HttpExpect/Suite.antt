-- ===== src/HttpExpect/Suite.antt =====
-- The HTTP suite as a whole: `New` and the plugin of testsuite/httpexpect/httpexpect.go.
use aragorn.Prelude.{Str, Bool, Option, none, some, Outcome, ok, ◌>>=◌, List, if◌then◌else◌}
use aragorn.HttpExpect.Prepare.{TestConfig, Base, Libraries, Prepared, GenError, gen_tests}

-- What an http.Client goes through, below the tracing of its requests.
pub data Transport : Type 0 where
  default_transport insecure_transport : Transport

-- A client that traces its requests, and one that adds the tokens of OAuth2 credentials.
pub data Client (O : Type 0) : Type 0 where
  tracing : Transport → Client O
  authorised : O → Client O → Client O

-- `Config`, with the rest of `Base`.
pub record Config (O : Type 0) : Type 0 where
  pub base : Base
  pub insecure : Bool
  pub oauth2 : Option O
  pub tests : List (Option TestConfig)

module _ {O : Type 0} (lib : Libraries) where
  with_credentials : Option O → Client O → Client O
  with_credentials none client = client
  with_credentials (some o) client = authorised o client

  client_of : Config O → Client O
  unfolding with_credentials
  client_of cfg =
      with_credentials cfg.oauth2
        (tracing (if cfg.insecure then insecure_transport else default_transport))

  -- `New`: the client of the tests, and the tests.
  unfoldable pub new_http_suite : Config O → Outcome GenError (Client O × List Prepared)
  unfolding client_of
  new_http_suite cfg = do tests ← gen_tests lib cfg.base cfg.tests; ok (client_of cfg, tests)

  -- The function that makes a suite of a configuration under the directory of its file.
  unfoldable pub init_http : Config O → Str → Outcome GenError (Client O × List Prepared)
  unfolding new_http_suite
  init_http cfg root = new_http_suite (record cfg { base = record cfg.base { root = root } })

-- ===== src/HttpExpect/Example.antt =====
-- The example suite that `init` writes for the type HTTP: `Config.Example` of
-- testsuite/httpexpect/config.go.
use aragorn.Prelude.{codes, pos, false, none, some, [], ◌∷◌}
use aragorn.Json.{str, obj, end, field, null}
use aragorn.HttpExpect.Prepare.{TestConfig}
use aragorn.HttpExpect.Suite.{Config}

-- The test of the example.
abbrev example_test : TestConfig
example_test = record {
  id = codes "index";
  name = codes "Index";
  request = record {
    url = [];
    path = codes "/";
    method = [];
    header = [];
    body = null;
    multipart = none;
    form_data = some ((codes "name", codes "John Doe") ∷ []);
  };
  status_code = pos 404;
  header = (codes "X-Custom-Header", codes "1") ∷ [];
  document = obj (field (codes "message") (str (codes "User not found!")) end);
  json_schema = none;
  json_values = none;
  save_document = false;
}

-- `Config.Example`
unfoldable pub http_example : {O : Type 0} → Config O
http_example = record {
  base = record { url = codes "localhost:8000"; header = []; root = [] };
  insecure = false;
  oauth2 = none;
  tests = some example_test ∷ [];
}

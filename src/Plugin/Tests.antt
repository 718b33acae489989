-- ===== src/Plugin/Tests.antt =====
-- A test suite and a notifier, registered one after the other.
use aragorn.Prelude.{codes, str_eq, ℕ, ◌≡◌, refl, some, ok, err, [], ◌∷◌}
use aragorn.Prelude.Assoc.{Assoc, get, put}
use aragorn.Plugin.{
  Registration, no_plugin_id, registration_uri, register, get_plugin, test_suite_plugin,
  notifier_plugin,
}

abbrev http : Registration ℕ
http = record { typ = test_suite_plugin; id = codes "HTTP"; init = 1 }

abbrev slack : Registration ℕ
slack = record { typ = notifier_plugin; id = codes "slack"; init = 2 }

abbrev one : Assoc (Registration ℕ)
one = (codes "aragorn.testsuite.v1.HTTP", http) ∷ []

abbrev two : Assoc (Registration ℕ)
two = (codes "aragorn.testsuite.v1.HTTP", http) ∷ (codes "aragorn.notifier.v1.slack", slack) ∷ []

http_registers : register http [] ≡ ok one
unfolding register registration_uri str_eq put
http_registers = refl

slack_registers : register slack one ≡ ok two
unfolding register registration_uri str_eq put
slack_registers = refl

nameless_panics : register (record slack { id = [] }) one ≡ err no_plugin_id
unfolding register str_eq
nameless_panics = refl

http_found : get_plugin test_suite_plugin (codes "HTTP") two ≡ some http
unfolding get_plugin registration_uri get str_eq
http_found = refl

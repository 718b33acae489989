-- ===== src/Testsuite/Header/Merge/Tests.antt =====
-- Concrete headers.
use aragorn.Prelude.{codes, str_eq, ◌≡◌, refl, some, [], ◌∷◌}
use aragorn.Prelude.Assoc.{get}
use aragorn.Testsuite.Header.{Header, merge_headers}
use aragorn.Testsuite.Header.Merge.{get-merge_headers}

abbrev suite_header : Header
suite_header = (codes "a", codes "1") ∷ (codes "b", codes "2") ∷ []

abbrev test_header : Header
test_header = (codes "b", codes "3") ∷ []

-- The header of the test goes before that of the suite.
get-merge_headers_example :
    get (codes "b") (merge_headers (suite_header ∷ test_header ∷ [])) ≡ some (codes "3")
unfolding get str_eq
get-merge_headers_example =
    get-merge_headers (codes "b") (suite_header ∷ test_header ∷ [])
      ((refl, (refl, tt)), ((refl, tt), tt))

-- ===== src/HttpExpect/Interface.antt =====
-- An HTTP test as the run of a suite sees it: the methods of `test` in testsuite/httpexpect/httpexpect.go,
-- and the metadata in the context, testsuite/testsuite.go.
pub mod Passes
mod Tests
use aragorn.Prelude.{Str, ℤ, ◌≡◌, Outcome, ok, Option, none, some, List, [], ◌∷◌, map}
use aragorn.Prelude.Assoc.{Assoc}
use aragorn.Json.{Value}
use aragorn.Testsuite.{Env, Test}
use aragorn.HttpExpect.Prepare.{Prepared}
use aragorn.HttpExpect.Run.{Net, Logged, Ran, run_http}

-- The metadata that the tests of a suite share, and the outside of the program.
pub record Place (W : Type 0) : Type 0 where
  pub md : Assoc Value
  pub outside : W

-- The map of the metadata after a run, which has got one since it began.
md_of : Option (Assoc Value) → Assoc Value
md_of none = []
md_of (some m) = m

-- A run of a test that ends, and leaves the test as it was.
pub record Runs {W : Type 0} (net : Net W) (t : Prepared) (p : Place W) : Type 0 where
  pub ran : Ran W
  pub ends : run_http net t (some p.md) p.outside ≡ ok ran
  pub same : ran.test ≡ t

module _ {W : Type 0} where
  -- The outside of the run of a suite, with `NewMDContext(ctx, NewMD())` at its beginning.
  unfoldable pub with_md : Env W → Env (Place W)
  with_md e = record {
    now = λ p. e.now p.outside;
    is_done = λ p. e.is_done p.outside;
    wait = λ d p. let (cancelled, w) = e.wait d p.outside in (cancelled, record p { outside = w });
    new_md = λ p. record p { md = [] };
  }

  -- What a run leaves to the next one.
  unfoldable pub next : {net : Net W} → {t : Prepared} → (p : Place W) → Runs net t p → Place W
  unfolding md_of
  next p r = record { md = md_of r.ran.md; outside = r.ran.world }

  -- A test that no run makes panic or changes, so that it is a function of the outside. What net/http
  -- does depends on the time limit in the context.
  abbrev pub IsSteady : (ℤ → Net W) → Prepared → Type 0
  IsSteady net t = (limit : ℤ) (p : Place W) → Runs (net limit) t p

  -- The methods Name, Description and Run; `say` formats a message.
  unfoldable pub http_test :
      (net : ℤ → Net W) → (Logged → Str) → (t : Prepared) → IsSteady net t → Test (Place W)
  unfolding next
  http_test net say t steady = record {
    name = t.name;
    description = t.description;
    run = λ limit p. let r = steady limit p in (map say r.ran.logged, next p r);
  }

  -- The tests of a suite.
  unfoldable pub http_tests :
      (net : ℤ → Net W)
      → (Logged → Str)
      → List ((t : Prepared) × IsSteady net t)
      → List (Test (Place W))
  unfolding http_test
  http_tests net say [] = []
  http_tests net say ((t, steady) ∷ ts) = http_test net say t steady ∷ http_tests net say ts

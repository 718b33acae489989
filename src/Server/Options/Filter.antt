-- ===== src/Server/Options/Filter.antt =====
-- The tests that a filter leaves, `applyConfig` of server/suite_option.go.
use mathlib.Core.List.{Sublistᴰ}
use mathlib.Core.List.Sublistᴰ.{slnil, cons, cons-cons}
use aragorn.Prelude.{
  Str, str_eq_iff, ◌≡◌, ◌≢◌, refl, Bool, true, false, ok, ◌>>=◌, List, [], ◌∷◌, keep, count, length,
  All, arith,
}
use aragorn.Testsuite.{Test}
use aragorn.Server.Suite.{Suite}
use aragorn.Server.Options.{SuiteConfig, Compile, apply_config}

module _ {ℓ} {A : Type ℓ} (p : A → Bool) where
  keep-Sublist : (xs : List A) → Sublistᴰ (keep p xs) xs
  unfolding keep
  keep-Sublist [] = slnil
  keep-Sublist (x ∷ xs) = go (p x) (keep-Sublist xs)
    where
      go :
          (b : Bool)
          → Sublistᴰ (keep p xs) xs
          → Sublistᴰ (elim b [ true ↦ x ∷ keep p xs | false ↦ keep p xs ]) (x ∷ xs)
      go true rest = cons-cons refl rest
      go false rest = cons rest

  keep-All : (xs : List A) → All (λ x. p x ≡ true) (keep p xs)
  unfolding keep
  keep-All [] = tt
  keep-All (x ∷ xs) = go (p x) refl (keep-All xs)
    where
      go :
          (b : Bool)
          → p x ≡ b
          → All (λ x. p x ≡ true) (keep p xs)
          → All (λ x. p x ≡ true) (elim b [ true ↦ x ∷ keep p xs | false ↦ keep p xs ])
      go true e rest = (e, rest)
      go false e rest = rest

  length-keep : (xs : List A) → length (keep p xs) ≡ count p xs
  unfolding keep count
  length-keep [] = refl
  length-keep (x ∷ xs) = ground (arith, length-keep xs)

module _ {W : Type 0} where
  -- What a filter leaves of some tests: in order, those that it accepts, and all of those.
  pub record IsFiltered (accepts : Str → Bool) (before after : List (Test W)) : Type 0 where
    pub in_order : Sublistᴰ after before
    pub accepted : All (λ t. accepts t.name ≡ true) after
    pub complete : length after ≡ count (λ t. accepts t.name) before

  -- A filter that is set, and compiles, leaves the tests whose name it matches, all of them and in
  -- order.
  pub apply_config-IsFiltered :
      (compile : Compile) (cfg : SuiteConfig) (s s' : Suite W) (accepts : Str → Bool)
      → cfg.filter ≢ []
      → compile cfg.filter ≡ ok accepts
      → apply_config compile cfg s ≡ ok s'
      → IsFiltered accepts s.tests s'.tests
  unfolding apply_config ◌>>=◌
  apply_config-IsFiltered compile cfg s s' accepts set compiled h =
      let matches : Test W → Bool = λ t. accepts t.name in
      let kept : s'.tests ≡ keep matches s.tests =
        ground (arith, compiled, str_eq_iff cfg.filter []) in
      rw kept (record {
        in_order = keep-Sublist matches s.tests;
        accepted = keep-All matches s.tests;
        complete = length-keep matches s.tests;
      })

-- ===== src/GrpcExpect/Generate/Generated.antt =====
-- The first test that cannot be generated is named by its place.
use aragorn.Prelude.{
  Str, ℕ, suc, ◌+◌, ◌≡◌, refl, sym, ap, subst, ◌⊎◌, inl, inr, Outcome, ok, err, panic, ◌>>=◌, List,
  [], ◌∷◌, ◌++◌, length, arith,
}
use aragorn.Json.{Value}
use aragorn.GrpcExpect.Document.{Sources, LoadError}
use aragorn.GrpcExpect.Generate.{
  TestConfig, Config, GrpcTest, GenError, Side, of_request, of_expect, located, encoded, gen_test,
  gen_from, gen_grpc_tests,
}

-- Inversion of a bind that fails.
>>=-eq-err :
    {E A B : Type 0} (m : Outcome E A) (f : A → Outcome E B) {e : E}
    → (m >>= f) ≡ err e
    → (m ≡ err e) ⊎ ((a : A) × (m ≡ ok a) × (f a ≡ err e))
unfolding ◌>>=◌
>>=-eq-err (ok a) f h = inr (a, refl, h)
>>=-eq-err (err e') f h = inl cc
>>=-eq-err panic f h = cc

-- An error that names a place and a test.
IsAt : ℕ → Str → GenError → Type 0
IsAt i name e = (e.index ≡ i) × (e.name ≡ name)

located-IsAt :
    {A : Type 0} (i : ℕ) (name : Str) (side : Side) (o : Outcome LoadError A) (e : GenError)
    → located i name side o ≡ err e
    → IsAt i name e
unfolding located IsAt
located-IsAt i name side (ok a) e h = cc
located-IsAt i name side (err c) e h =
    let same : record { index = i; name = name; side = side; cause = c } ≡ e = cc h in
    (ap (λ x. x.index) (sym same), ap (λ x. x.name) (sym same))
located-IsAt i name side panic e h = cc

module _ (src : Sources) (encode : Value → Str) (depth : ℕ) (cfg : Config) where
  -- Entry by entry, from the index `i` on, the tests are those that the entries generate.
  abbrev pub AllGenerated : ℕ → List TestConfig → List GrpcTest → Type 0
  AllGenerated i [] [] = Unit
  AllGenerated i [] (_ ∷ _) = ⊥
  AllGenerated i (_ ∷ _) [] = ⊥
  AllGenerated i (t ∷ ts) (g ∷ gs) =
      (gen_test src encode depth cfg i t ≡ ok g) × AllGenerated (i + 1) ts gs

  gen_from-fails :
      (i : ℕ) (before after : List TestConfig) (t : TestConfig) (gs : List GrpcTest) (e : GenError)
      → AllGenerated i before gs
      → gen_test src encode depth cfg (i + length before) t ≡ err e
      → gen_from src encode depth cfg i (before ++ t ∷ after) ≡ err e
  unfolding gen_from ◌>>=◌
  gen_from-fails i [] after t gs e h bad =
      let here : i + 0 ≡ i = omega arith in
      let bad' = subst (λ x. gen_test src encode depth cfg x t ≡ err e) here bad in rw bad' refl
  gen_from-fails i (_ ∷ _) after t [] e h bad = absurd h
  gen_from-fails i (b ∷ before) after t (g ∷ gs) e (one, more) bad =
      let there : i + suc (length before) ≡ i + 1 + length before = omega arith in
      let bad' = subst (λ x. gen_test src encode depth cfg x t ≡ err e) there bad in
      rw (one, gen_from-fails (i + 1) before after t gs e more bad') refl

  gen_test-IsAt :
      (i : ℕ) (t : TestConfig) (e : GenError)
      → gen_test src encode depth cfg i t ≡ err e
      → IsAt i t.name e
  unfolding gen_test
  gen_test-IsAt i t e h =
      elim (>>=-eq-err
        (located i t.name of_request (encoded src encode depth cfg t.request_document)) _ h) [
          | inl h' ↦ located-IsAt i t.name of_request _ e h'
          | inr (req, _, h') ↦
              elim (>>=-eq-err
                (located i t.name of_expect (encoded src encode depth cfg t.expect_document)) _
                h') [ inl h'' ↦ located-IsAt i t.name of_expect _ e h'' | inr (exp, _, h'') ↦ cc ]
        ]

  -- The first test that cannot be generated ends the generation with its error, which names the test
  -- and its place among the tests; the tests after it have no say.
  gen_grpc_tests_fails :
      (before after : List TestConfig) (t : TestConfig) (gs : List GrpcTest) (e : GenError)
      → AllGenerated 0 before gs
      → gen_test src encode depth cfg (length before) t ≡ err e
      → (gen_grpc_tests src encode depth cfg (before ++ t ∷ after) ≡ err e)
        × (e.index ≡ length before)
        × (e.name ≡ t.name)
  unfolding gen_grpc_tests IsAt
  gen_grpc_tests_fails before after t gs e h bad =
      let (at, named) = gen_test-IsAt (length before) t e bad in
      (
        gen_from-fails 0 before after t gs e h
            (subst (λ x. gen_test src encode depth cfg x t ≡ err e) (omega arith) bad),
        at,
        named,
      )

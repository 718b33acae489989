-- ===== src/HttpExpect/Prepare/Accepted.antt =====
-- Which configurations of HTTP tests are accepted: `genTests` of testsuite/httpexpect/config.go.
use aragorn.Prelude.{
  Option, none, some, Str, str_eq, str_eq_iff, ◌≡◌, ◌≢◌, refl, subst, Outcome, ok, err, panic,
  ◌>>=◌, >>=-eq-ok, ◌⊎◌, inl, inr, ◌↔◌, List, [], ◌∷◌, if_intro, arith,
}
use aragorn.HttpExpect.Request.{Url}
use aragorn.HttpExpect.Prepare.{
  TestConfig, Base, Problem, Prepared, Libraries, Gathered, prepare, gather, gather_tests,
  no_errors, with_url, gen_tests,
}

module _ (lib : Libraries) (base : Base) where
  -- Entry by entry, the tests are those that the configurations prepare.
  abbrev pub AllPrepared : List (Option TestConfig) → List Prepared → Type 0
  AllPrepared [] [] = Unit
  AllPrepared [] (_ ∷ _) = ⊥
  AllPrepared (_ ∷ _) [] = ⊥
  AllPrepared (none ∷ _) (_ ∷ _) = ⊥
  AllPrepared (some t ∷ ts) (p ∷ ps) = (prepare lib base t ≡ ok p) × AllPrepared ts ps

  step :
      (t : TestConfig) (ts : List (Option TestConfig)) (o : Outcome (List Problem) Prepared)
      → prepare lib base t ≡ o
      → (errs : List (Str × List Problem)) (rest ps : List Prepared)
      → gather_tests lib base ts ≡ ok (errs, rest)
      → gather t.name o (errs, rest) ≡ ok ([], ps)
      → ((qs : List Prepared) → gather_tests lib base ts ≡ ok ([], qs) → AllPrepared ts qs)
      → AllPrepared (some t ∷ ts) ps
  unfolding gather
  step t ts (ok p) e errs rest ps more one k =
      let clean : errs ≡ [] = cc one in
      let list : p ∷ rest ≡ ps = cc one in
      let more' = subst (λ x. gather_tests lib base ts ≡ ok (x, rest)) clean more in
      subst (AllPrepared (some t ∷ ts)) list (e, k rest more')
  step t ts (err problems) e errs rest ps more one k = cc
  step t ts panic e errs rest ps more one k = cc

  gathered_of :
      (ts : List (Option TestConfig)) (ps : List Prepared)
      → gather_tests lib base ts ≡ ok ([], ps)
      → AllPrepared ts ps
  unfolding gather_tests
  gathered_of [] [] h = tt
  gathered_of [] (_ ∷ _) h = cc
  gathered_of (none ∷ ts) ps h = cc
  gathered_of (some t ∷ ts) ps h =
      let (g, more, one) = >>=-eq-ok _ _ h in
      step t ts (prepare lib base t) refl g.0 g.1 ps more one (gathered_of ts)

  of_gathered :
      (ts : List (Option TestConfig)) (ps : List Prepared)
      → AllPrepared ts ps
      → gather_tests lib base ts ≡ ok ([], ps)
  unfolding gather_tests gather ◌>>=◌
  of_gathered [] [] h = refl
  of_gathered [] (_ ∷ _) h = absurd h
  of_gathered (_ ∷ _) [] h = absurd h
  of_gathered (none ∷ _) (_ ∷ _) h = absurd h
  of_gathered (some t ∷ ts) (p ∷ ps) (one, more) = rw (of_gathered ts ps more, one) refl

  -- What a suite needs for `ps` to be its tests: a base URL that parses, a test, and that every test is
  -- prepared.
  pub record Accepted (ts : List (Option TestConfig)) (ps : List Prepared) : Type 0 where
    pub has_url : base.url ≢ []
    pub parses : (u : Url) × (lib.web.parse_url base.url ≡ inr u)
    pub has_tests : ts ≢ []
    pub prepared : AllPrepared ts ps

  all_prepared :
      (ts : List (Option TestConfig)) (ps : List Prepared) (g : Gathered)
      → gather_tests lib base ts ≡ ok g
      → no_errors lib base g ≡ ok ps
      → AllPrepared ts ps
  unfolding no_errors
  all_prepared ts ps ([], qs) h e =
      let same : qs ≡ ps = cc e in subst (AllPrepared ts) same (gathered_of ts qs h)
  all_prepared ts ps (x ∷ xs, qs) h e = cc

  url_iff :
      (r : Str ⊎ Url) (ts : List (Option TestConfig)) (ps : List Prepared)
      → base.url ≢ []
      → lib.web.parse_url base.url ≡ r
      → (with_url lib base r ts ≡ ok ps) ↔ Accepted ts ps
  unfolding with_url no_errors ◌>>=◌
  url_iff (inl e) ts ps set same = ((λ h. cc), λ a. let (u, parsed) = a.parses in cc)
  url_iff (inr u) [] ps set same = ((λ h. cc), λ a. absurd (a.has_tests refl))
  url_iff (inr u) (t ∷ ts) ps set same = (
    (λ h.
        let (g, gathered, e) = >>=-eq-ok (gather_tests lib base (t ∷ ts)) (no_errors lib base) h in
        record {
          has_url = set;
          parses = (u, same);
          has_tests = λ e'. cc;
          prepared = all_prepared (t ∷ ts) ps g gathered e;
        }),
    λ a. let all = of_gathered (t ∷ ts) ps a.prepared in rw all refl,
  )

  -- The tests of a suite are generated exactly when the base URL is set and parses, there is a test,
  -- and every test is prepared; they are then those tests, in the order of the configuration.
  pub gen_tests-Accepted :
      (ts : List (Option TestConfig)) (ps : List Prepared)
      → (gen_tests lib base ts ≡ ok ps) ↔ Accepted ts ps
  unfolding gen_tests
  gen_tests-Accepted ts ps =
      if_intro (λ o. (o ≡ ok ps) ↔ Accepted ts ps) (str_eq base.url []) _ _
        (λ h. ((λ e. cc), λ a. absurd (a.has_url ((str_eq_iff base.url []).0 h))))
        (λ h.
          url_iff (lib.web.parse_url base.url) ts ps
            (λ e. ground (arith, h, (str_eq_iff base.url []).1 e)) refl)

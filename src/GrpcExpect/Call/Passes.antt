-- ===== src/GrpcExpect/Call/Passes.antt =====
-- When the checks of a gRPC test log nothing.
use aragorn.Prelude.{
  Str, str_eq, str_eq_iff, ℕ, ◌==◌, ==_iff, Bool, true, false, ◌≡◌, refl, ap, subst, ◌⊎◌, inl, inr,
  ◌↔◌, List, [], ◌∷◌, ◌++◌, if◌then◌else◌, if_intro, length, arith, suc,
}
use aragorn.Prelude.Assoc.{Assoc}
use aragorn.GrpcExpect.Call.{
  Failure, Answer, Expect, Messages, wrong_number, check_entry, check_headers, check_number,
  compare_response, check_responses, check_answer,
}

append-[] : (xs ys : List Failure) → xs ++ ys ≡ [] → (xs ≡ []) × (ys ≡ [])
append-[] [] ys h = (refl, h)
append-[] (x ∷ xs) ys h = cc

-- Two parts log nothing when together they log nothing.
append-nil_iff :
    {P Q : Type 0}
    → (xs ys : List Failure) → ((xs ≡ []) ↔ P)
    → ((ys ≡ []) ↔ Q)
    → (xs ++ ys ≡ []) ↔ (P × Q)
append-nil_iff [] ys p q = ((λ h. (p.0 refl, q.0 h)), λ h. q.1 h.1)
append-nil_iff (x ∷ xs) ys p q = ((λ h. cc), λ h. let e = p.1 h.0 in cc)

-- A message is logged exactly when the test fails.
logged_iff :
    {P : Type 0}
    → (b : Bool) (f : Failure) → ((b ≡ true) ↔ P)
    → ((if b then [] else f ∷ []) ≡ []) ↔ P
logged_iff true f p = ((λ h. p.0 refl), λ h. refl)
logged_iff false f p = ((λ h. cc), λ h. let e = p.1 h in cc)

-- The first value of each expected header is the one expected.
abbrev pub HeadersMet : (Str → List Str) → Assoc Str → Type 0
HeadersMet md [] = Unit
HeadersMet md ((k, want) ∷ header) =
    ((rest : List Str) × (md k ≡ want ∷ rest)) × HeadersMet md header

check_headers_iff :
    (md : Str → List Str) (header : Assoc Str)
    → (check_headers md header ≡ []) ↔ HeadersMet md header
unfolding check_headers check_entry
check_headers_iff md [] = ((λ h. tt), λ h. refl)
check_headers_iff md ((k, want) ∷ header) =
    append-nil_iff _ _ (entry (md k) refl) (check_headers_iff md header)
  where
    entry :
        (vs : List Str)
        → md k ≡ vs
        → (check_entry k want vs ≡ []) ↔ ((rest : List Str) × (md k ≡ want ∷ rest))
    entry [] e = ((λ h. cc), λ h. let (rest, e') = h in cc)
    entry (got ∷ rest) e = logged_iff (str_eq got want) _ (
      (λ h. let same = (str_eq_iff got want).0 h in (rest, cc)),
      λ h. let (rest', e') = h in (str_eq_iff got want).1 cc,
    )

module _ {M : Type 0} (lib : Messages M) where
  -- Each expected message decodes as a message that equals the response at its place, and there are as
  -- many responses as expected.
  abbrev pub ResponsesMet : List Str → List M → Type 0
  ResponsesMet [] [] = Unit
  ResponsesMet [] (_ ∷ _) = ⊥
  ResponsesMet (_ ∷ _) [] = ⊥
  ResponsesMet (want ∷ wants) (got ∷ gots) =
      ((m : M) × (lib.decode_as got want ≡ inr m) × (lib.equal got m ≡ true))
      × ResponsesMet wants gots

  responses_iff :
      (wants : List Str) (gots : List M)
      → ((check_responses lib wants gots ≡ []) × (length wants ≡ length gots))
        ↔ ResponsesMet wants gots
  unfolding check_responses compare_response
  responses_iff [] [] = ((λ h. tt), λ h. (refl, refl))
  responses_iff [] (got ∷ gots) = ((λ h. omega (arith, h.1)), λ h. absurd h)
  responses_iff (want ∷ wants) [] = ((λ h. omega (arith, h.1)), λ h. absurd h)
  responses_iff (want ∷ wants) (got ∷ gots) =
      let rest = responses_iff wants gots in
      let here = response (lib.decode_as got want) refl in
      (
        (λ h.
            let same : length wants ≡ length gots = omega (arith, h.1) in
            let (e, e') = append-[] _ _ h.0 in (here.0 e, rest.0 (e', same))),
        λ h. let (e', same) = rest.1 h.1 in let e = here.1 h.0 in (rw (e, e') refl, ap suc same),
      )
    where
      response :
          (r : Str ⊎ M)
          → lib.decode_as got want ≡ r
          → (compare_response lib got r ≡ [])
            ↔ ((m : M) × (lib.decode_as got want ≡ inr m) × (lib.equal got m ≡ true))
      response (inl msg) e = ((λ h. cc), λ h. let (m, e', h') = h in cc)
      response (inr m) e = logged_iff (lib.equal got m) _ (
        (λ h. (m, e, h)),
        λ h.
            let (m', e', h') = h in
            let same : m' ≡ m = cc (e, e') in subst (λ x. lib.equal got x ≡ true) same h',
      )

  -- What a test expects of the answer to its call.
  pub record Meets (exp : Expect) (answer : Answer M) : Type 0 where
    pub code : answer.code ≡ exp.code
    pub headers : HeadersMet answer.md exp.header
    pub responses : ResponsesMet exp.msgs answer.resps

  number_iff : (got want : ℕ) → (check_number got want ≡ []) ↔ (want ≡ got)
  unfolding check_number
  number_iff got want = logged_iff (want == got) (wrong_number got want) (==_iff want got)

  answer_iff :
      (exp : Expect) (answer : Answer M)
      → (check_answer lib exp (inr answer) ≡ []) ↔ Meets exp answer
  unfolding check_answer
  answer_iff exp answer =
      let headers = check_headers_iff answer.md exp.header in
      let number = number_iff (length answer.resps) (length exp.msgs) in
      let responses = responses_iff exp.msgs answer.resps in
      if_intro (λ fs. (fs ≡ []) ↔ Meets exp answer) (answer.code == exp.code) _ _
        (λ c. (
          (λ h.
              let (a, h') = append-[] _ _ h in
              let (n, r) = append-[] _ _ h' in
              record {
                code = (==_iff answer.code exp.code).0 c;
                headers = headers.0 a;
                responses = responses.0 (r, number.0 n);
              }),
          λ m.
              let (r, same) = responses.1 m.responses in
              let n = number.1 same in let a = headers.1 m.headers in rw (a, n, r) refl,
        ))
        (λ c. ((λ h. cc), λ m. let same = (==_iff answer.code exp.code).1 m.code in cc))

  -- A gRPC test logs nothing exactly when the call was made and its answer has the status code, the
  -- headers and, one for one, the messages that the test expects.
  pub check_answer-Meets :
      (exp : Expect) (result : Str ⊎ Answer M)
      → (check_answer lib exp result ≡ [])
        ↔ ((answer : Answer M) × (result ≡ inr answer) × Meets exp answer)
  unfolding check_answer
  check_answer-Meets exp (inl e) = ((λ h. cc), λ h. let (a, e', m) = h in cc)
  check_answer-Meets exp (inr answer) =
      let here = answer_iff exp answer in
      (
        (λ h. (answer, refl, here.0 h)),
        λ h. let (a, e, m) = h in let same : a ≡ answer = cc e in here.1 (subst (Meets exp) same m),
      )

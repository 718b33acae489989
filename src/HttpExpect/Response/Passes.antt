-- ===== src/HttpExpect/Response/Passes.antt =====
-- When a response passes all its checks: `checkResponse` of testsuite/httpexpect/response.go against
-- what a test expects.
use aragorn.Prelude.{
  Str, ℤ, pos, negsuc, true, false, not, ◌&&◌, ◌≡◌, refl, ap, Option, Outcome, ok, err, panic,
  ◌>>=◌, ◌⊎◌, inl, inr, ◌↔◌, [], ==_iff, Bool-cases, arith,
}
use aragorn.Prelude.Assoc.{Assoc}
use aragorn.Json.{Value}
use aragorn.HttpExpect.Response.{
  Expect, Answer, Decoder, State, start, check_header, check_document, check_schema, check_values,
  save, check_response, eq_ℤ, is_natural,
}
use aragorn.HttpExpect.Response.Meets.{
  IsSound, Checks, both, log-logs, HeadersMet, DocumentMet, SchemaMet, header-Checks,
  document-Checks, schema-Checks,
}
use aragorn.HttpExpect.Response.Values.{Tries, ValuesMet, SaveMet, check_values-Tries, save-clean}

eq_ℤ_iff : (a b : ℤ) → (eq_ℤ a b ≡ true) ↔ (a ≡ b)
unfolding eq_ℤ
eq_ℤ_iff (pos m) (pos n) = ((λ h. ap pos ((==_iff m n).0 h)), λ h. (==_iff m n).1 cc)
eq_ℤ_iff (negsuc m) (negsuc n) = ((λ h. ap negsuc ((==_iff m n).0 h)), λ h. (==_iff m n).1 cc)
eq_ℤ_iff (pos m) (negsuc n) = ((λ h. cc), λ h. cc)
eq_ℤ_iff (negsuc m) (pos n) = ((λ h. cc), λ h. cc)

start-IsSound : (d : Decoder) (answer : Answer) → IsSound d answer start
start-IsSound d answer = record { decoded = inl refl; errors = λ h. cc }

module _ (d : Decoder) (answer : Answer) (exp : Expect) (md : Option (Assoc Value)) where
  -- What a test expects of a response: the status code, where one is expected, and then all of its
  -- headers, its document, its schema and its values, and a document to save where one is to be saved.
  pub record Meets : Type 0 where
    pub status : (answer.status_code ≡ exp.status_code) ⊎ (is_natural exp.status_code ≡ false)
    pub headers : HeadersMet d answer exp.header
    pub document : DocumentMet d answer exp.document
    pub schema : SchemaMet d answer exp.json_schema
    pub values : ValuesMet d answer exp.json_values
    pub saved : SaveMet d answer exp md

  -- The checks end without a panic, and have logged nothing.
  unfoldable pub Passes : Outcome Str (State × Option (Assoc Value)) → Type 0
  Passes (ok r) = r.0.logged ≡ []
  Passes (err e) = ⊥
  Passes panic = ⊥

  unfoldable pub checked : State
  checked =
      check_schema d answer exp.json_schema
        (check_document d answer exp.document (check_header d answer exp.header start))

  abbrev pub AllMet : Type 0
  AllMet =
      ((HeadersMet d answer exp.header × DocumentMet d answer exp.document)
        × SchemaMet d answer exp.json_schema)

  pub checked-Checks : Checks d answer AllMet start checked
  unfolding checked
  checked-Checks =
      let h = header-Checks d answer exp.header start (start-IsSound d answer) in
      let c = both d answer h (document-Checks d answer exp.document _ h.sound) in
      both d answer c (schema-Checks d answer exp.json_schema _ c.sound)

  rest-Passes :
      (o : Outcome Str State)
      → Tries d answer (ValuesMet d answer exp.json_values) checked o
      → Passes (o >>= λ s. ok (save d answer exp md s))
        ↔ ((AllMet × ValuesMet d answer exp.json_values) × SaveMet d answer exp md)
  unfolding Tries Passes ◌>>=◌
  rest-Passes (ok s) c =
      let all = both d answer checked-Checks c in
      let final = save-clean d answer exp md s all.sound in
      (
        (λ h. let (l, p) = final.0 h in ((all.clean.0 l).1, p)),
        λ h. final.1 (all.clean.1 (refl, h.0), h.1),
      )
  rest-Passes (err e) c = absurd c
  rest-Passes panic c = ((λ h. absurd h), λ h. c h.0.1)

  status-met :
      (not (eq_ℤ answer.status_code exp.status_code) && is_natural exp.status_code) ≡ false
      → (answer.status_code ≡ exp.status_code) ⊎ (is_natural exp.status_code ≡ false)
  status-met h = elim (Bool-cases (eq_ℤ answer.status_code exp.status_code)) [
    | inl e ↦ inl ((eq_ℤ_iff answer.status_code exp.status_code).0 e)
    | inr e ↦ inr (ground (arith, h, e))
  ]

  status-unmet :
      (not (eq_ℤ answer.status_code exp.status_code) && is_natural exp.status_code) ≡ true
      → (answer.status_code ≡ exp.status_code) ⊎ (is_natural exp.status_code ≡ false)
      → ⊥
  status-unmet h (inl e) =
      let same = (eq_ℤ_iff answer.status_code exp.status_code).1 e in ground (arith, h, same)
  status-unmet h (inr e) = ground (arith, h, e)

  -- The checks of a response end without a panic and log nothing exactly when the response is what the
  -- test expects.
  pub check_response-Meets : Passes (check_response d answer exp md) ↔ Meets
  unfolding check_response checked Passes
  check_response-Meets =
      elim (Bool-cases
        (not (eq_ℤ answer.status_code exp.status_code) && is_natural exp.status_code)) [
          | inl h ↦ rw h ((λ l. absurd (log-logs _ start l)), λ m. absurd (status-unmet h m.status))
          | inr h ↦
              let rest =
                rest-Passes (check_values d answer exp.json_values checked)
                  (check_values-Tries d answer exp.json_values checked checked-Checks.sound) in
              rw h (
                (λ l.
                    let p = rest.0 l in
                    record {
                      status = status-met h;
                      headers = p.0.0.0.0;
                      document = p.0.0.0.1;
                      schema = p.0.0.1;
                      values = p.0.1;
                      saved = p.1;
                    }),
                λ m. rest.1 ((((m.headers, m.document), m.schema), m.values), m.saved),
              )
        ]

-- ===== src/HttpExpect/Prepare/Consistent.antt =====
-- What a test that was prepared is: `prepare` of testsuite/httpexpect/config.go.
use aragorn.Prelude.{
  Str, codes, str_eq, ◌≤◌, ltb, pos, Bool, true, false, not, ◌&&◌, ◌||◌, ◌≡◌, ◌↔◌, ◌⊎◌, inl, inr,
  Bool-cases, refl, ap, ◌∙◌, subst, Option, none, some, Outcome, ok, err, panic, >>=-eq-ok, List,
  [], ◌∷◌, ◌++◌, str_eq_refl, if◌then◌else◌, arith,
}
use aragorn.HttpExpect.Response.{Document, raw, json, Schema, eq_ℤ}
use aragorn.Json.{Value, is_nil, Fields}
use aragorn.HttpExpect.Request.{
  HttpRequest, Web, to_http_request, first_value, header_get, header_set,
}
use aragorn.Prelude.Assoc.{Assoc, get, put, get-put}
use aragorn.HttpExpect.Prepare.{
  TestConfig, Base, Problem, Prepared, Libraries, bodies, is_some, body_clash, expect_clashes,
  prepare, finished, attempt, no_request, is_json, accept_json, expects_json, several_bodies,
  document_and_schema, document_and_values,
}

append-nil : {A : Type 0} → (xs ys : List A) → xs ++ ys ≡ [] → (xs ≡ []) × (ys ≡ [])
append-nil [] ys h = (refl, h)
append-nil (x ∷ xs) ys h = cc

clash_nil : (b : Bool) (p : Problem) → (if b then p ∷ [] else []) ≡ [] → b ≡ false
clash_nil true p h = cc
clash_nil false p h = refl

ok_inj : {A : Type 0} {a b : A} → ◌≡◌ {A = Outcome (List Problem) A} (ok a) (ok b) → a ≡ b
ok_inj h = cc h

header_get-set :
    (web : Web) (k v : Str) (h : Assoc Str) → header_get web k (header_set web k v h) ≡ v
unfolding header_get header_set
header_get-set web k v h =
    let k' : Str = web.canonical k in
    let got : get k' (put k' v h) ≡ some v = get-put k' k' v h ∙ rw (str_eq_refl k') refl in
    ap first_value got

attempt-some :
    {A : Type 0} (f : Str → Problem) (o : Outcome Str A) (x : List Problem × Option A) (a : A)
    → attempt f o ≡ ok x
    → x.1 ≡ some a
    → o ≡ ok a
unfolding attempt
attempt-some f (ok b) x a h e =
    let same : ([], some b) ≡ x = ok_inj h in
    let found : some b ≡ some a = ap (λ y. y.1) same ∙ e in cc found
attempt-some f (err m) x a h e =
    let same : (f m ∷ [], none) ≡ x = ok_inj h in
    let found : none ≡ some a = ap (λ y. y.1) same ∙ e in cc found
attempt-some f panic x a h e = cc

-- A check decodes the body as JSON: against a document that is not raw, a schema, or values.
abbrev pub AsksJson : TestConfig → Option Document → Type 0
AsksJson t document =
    ((v : Value) × (document ≡ some (json v)))
    ⊎ (((s : Fields) × (t.json_schema ≡ some s)) ⊎ ((v : Fields) × (t.json_values ≡ some v)))

any_json :
    (document : Option Document) (schema values : Option Fields)
    → ((is_json document || (is_some schema || is_some values)) ≡ true) ↔ (
        ((v : Value) × (document ≡ some (json v)))
        ⊎ (((s : Fields) × (schema ≡ some s)) ⊎ ((v : Fields) × (values ≡ some v))))
unfolding is_json is_some
any_json (some (json v)) schema values = ((λ h. inl (v, refl)), λ h. refl)
any_json (some (raw x)) (some s) values = ((λ h. inr (inl (s, refl))), λ h. refl)
any_json none (some s) values = ((λ h. inr (inl (s, refl))), λ h. refl)
any_json (some (raw x)) none (some v) = ((λ h. inr (inr (v, refl))), λ h. refl)
any_json none none (some v) = ((λ h. inr (inr (v, refl))), λ h. refl)
any_json (some (raw x)) none none =
    ((λ h. cc), λ h. elim h [ inl (v, e) ↦ cc | inr (inl (s, e)) ↦ cc | inr (inr (v, e)) ↦ cc ])
any_json none none none =
    ((λ h. cc), λ h. elim h [ inl (v, e) ↦ cc | inr (inl (s, e)) ↦ cc | inr (inr (v, e)) ↦ cc ])

module _ (lib : Libraries) (base : Base) where
  expects_json_iff :
      (t : TestConfig) (document : Option Document)
      → (expects_json lib base t document ≡ true) ↔ AsksJson t document
  unfolding expects_json
  expects_json_iff t document = any_json document t.json_schema t.json_values

  -- The Accept header of a request that asks for JSON: its own, where it has one.
  abbrev pub accept_of : HttpRequest → Str
  accept_of r =
      if str_eq (header_get lib.web (codes "Accept") r.header) []
      then codes "application/json"
      else header_get lib.web (codes "Accept") r.header

  accept-wanted :
      (wanted : Bool) (r : HttpRequest)
      → wanted ≡ true
      → header_get lib.web (codes "Accept") (accept_json lib base wanted r).header ≡ accept_of r
  unfolding accept_json
  accept-wanted wanted r w =
      elim (Bool-cases (str_eq (header_get lib.web (codes "Accept") r.header) [])) [
        | inl e ↦
            rw (w, e, accept_json)
              (header_get-set lib.web (codes "Accept") (codes "application/json") r.header)
        | inr e ↦ rw (w, e, accept_json) refl
      ]

  accept-unwanted :
      (wanted : Bool) (r : HttpRequest) → wanted ≡ false → accept_json lib base wanted r ≡ r
  unfolding accept_json
  accept-unwanted wanted r w = rw (w, accept_json) refl

  -- What a test that was prepared is: no two of body, multipart and form data are set, no document is
  -- expected beside a schema or values, the expected status code is 200 where none is given, and its
  -- request is the one that `toHTTPRequest` makes, which has got the Accept header "application/json" if
  -- it had none and a check decodes the body as JSON.
  pub record IsPrepared (t : TestConfig) (p : Prepared) : Type 0 where
    pub request : HttpRequest
    pub made : to_http_request lib.web lib.src base.root base.url base.header t.request ≡ ok request
    pub one_body : bodies t.request ≤ 1
    pub no_schema_beside : is_nil t.document ≡ false → is_some t.json_schema ≡ false
    pub no_values_beside : is_nil t.document ≡ false → is_some t.json_values ≡ false
    pub status :
        p.expect.status_code ≡ (if eq_ℤ t.status_code (pos 0) then pos 200 else t.status_code)
    pub accepts :
        AsksJson t p.expect.document
        → header_get lib.web (codes "Accept") p.request.header ≡ accept_of request
    pub as_made : ¬ AsksJson t p.expect.document → p.request ≡ request

  problems_of :
      (t : TestConfig) (p : Prepared) (xs ys : List Problem)
      → body_clash t ++ (xs ++ (expect_clashes t ++ ys)) ≡ []
      → (bodies t.request ≤ 1)
        × (is_nil t.document ≡ false → is_some t.json_schema ≡ false)
        × (is_nil t.document ≡ false → is_some t.json_values ≡ false)
  unfolding body_clash expect_clashes
  problems_of t p xs ys h =
      let (a, h1) = append-nil (body_clash t) (xs ++ (expect_clashes t ++ ys)) h in
      let (b, h2) = append-nil xs (expect_clashes t ++ ys) h1 in
      let (c, h3) = append-nil (expect_clashes t) ys h2 in
      let (d, e) =
        append-nil
          (if not (is_nil t.document) && is_some t.json_schema
            then document_and_schema ∷ []
            else [])
          (if not (is_nil t.document) && is_some t.json_values
            then document_and_values ∷ []
            else [])
          c in
      let one = clash_nil (ltb 1 (bodies t.request)) several_bodies a in
      let s = clash_nil (not (is_nil t.document) && is_some t.json_schema) document_and_schema d in
      let v = clash_nil (not (is_nil t.document) && is_some t.json_values) document_and_values e in
      (ground (arith, one), (λ n. ground (arith, n, s)), λ n. ground (arith, n, v))

  -- What the end of `prepare` adds to a request.
  abbrev IsFinished : TestConfig → HttpRequest → Prepared → Type 0
  IsFinished t r p =
      (p.expect.status_code ≡ (if eq_ℤ t.status_code (pos 0) then pos 200 else t.status_code))
      × (AsksJson t p.expect.document
          → header_get lib.web (codes "Accept") p.request.header ≡ accept_of r)
      × (¬ AsksJson t p.expect.document → p.request ≡ r)

  finished-clean :
      (t : TestConfig) (p : Prepared) (problems : List Problem) (o : Option HttpRequest)
      (document : Option Document) (schema : Option Schema) (values : Option Fields)
      → finished lib base t problems o document schema values ≡ ok p
      → (problems ≡ []) × ((r : HttpRequest) × (o ≡ some r) × IsFinished t r p)
  unfolding finished
  finished-clean t p problems none document schema values h = cc
  finished-clean t p (x ∷ xs) (some r) document schema values h = cc
  finished-clean t p [] (some r) document schema values h =
      let wanted = expects_json lib base t document in
      let asks = expects_json_iff t document in
      (
        refl,
        (
          r,
          refl,
          subst (IsFinished t r) (ok_inj h) (
            refl,
            (λ a. accept-wanted wanted r (asks.1 a)),
            λ n. elim (Bool-cases wanted) [
              | inl e ↦ absurd (n (asks.0 e))
              | inr e ↦ accept-unwanted wanted r e
            ],
          ),
        ),
      )

  -- A test that was prepared has nothing set together that must not be and expects a status code. Its
  -- request is the one that `toHTTPRequest` makes of its description: with "application/json" for its
  -- Accept header if it had none, where the body is compared with a document that is not raw, a schema or
  -- values, and unchanged where it is compared with none of these, also if the document is saved.
  pub prepare-IsPrepared :
      (t : TestConfig) (p : Prepared) → prepare lib base t ≡ ok p → IsPrepared t p
  unfolding prepare
  prepare-IsPrepared t p h =
      let (request, requested, h1) = >>=-eq-ok _ _ h in
      let (document, _, h2) = >>=-eq-ok _ _ h1 in
      let (schema, _, h3) = >>=-eq-ok _ _ h2 in
      let (values, _, h4) = >>=-eq-ok _ _ h3 in
      let (clean, (r, found, (status, accepts, as_made))) =
        finished-clean t p _ request.1 document.1 schema.1 values.1 h4 in
      let (one, beside, beside') =
        problems_of t p request.0 (document.0 ++ (schema.0 ++ values.0)) clean in
      record {
        request = r;
        made = attempt-some no_request _ request r requested found;
        one_body = one;
        no_schema_beside = beside;
        no_values_beside = beside';
        status = status;
        accepts = accepts;
        as_made = as_made;
      }

-- ===== src/HttpExpect/Response/Meets.antt =====
-- When the checks of a response log nothing.
use aragorn.Prelude.{
  Str, str_eq, str_eq_iff, Bool, true, false, not, ◌≡◌, ◌≢◌, ◌∙◌, refl, sym, subst, Option, none,
  some, ◌⊎◌, inl, inr, ◌↔◌, List, [], ◌∷◌, ◌++◌, if_intro, arith,
}
use aragorn.Prelude.Assoc.{Assoc}
use aragorn.Json.{Value, null, is_nil}
use aragorn.HttpExpect.Response.{
  Document, raw, json, Schema, Answer, Failure, no_json, Decoder, State, log, unmarshalled,
  compare_document, validate, validated, check_entry, check_header, unmarshal_json_body,
  match_document, match_json_schema, check_document, check_schema,
}

pub log-logs : (f : Failure) (s : State) → (log f s).logged ≢ []
unfolding log
log-logs f s h = go s.logged h
  where
    go : (fs : List Failure) → fs ++ f ∷ [] ≡ [] → ⊥
    go [] e = cc
    go (g ∷ gs) e = cc

module _ (d : Decoder) (answer : Answer) where
  -- The body decodes as a document of which `P` holds.
  abbrev pub Decodes : (Value → Type 0) → Type 0
  Decodes P = (v : Value) × (d.unmarshal answer.body ≡ inr v) × P v

  abbrev pub NoDocument : Type 0
  NoDocument = (v : Value) → d.unmarshal answer.body ≡ inr v → ⊥

  -- What was decoded is the body, and a failure to decode was logged.
  pub record IsSound (s : State) : Type 0 where
    pub decoded : (s.data_json ≡ null) ⊎ (d.unmarshal answer.body ≡ inr s.data_json)
    pub errors : s.data_json_error ≡ true → (s.logged ≢ []) × NoDocument

  -- A check that logs nothing new exactly when `P` holds.
  pub record Checks (P : Type 0) (s s' : State) : Type 0 where
    pub sound : IsSound s'
    pub clean : (s'.logged ≡ []) ↔ ((s.logged ≡ []) × P)

  pub kept : {P : Type 0} → (s : State) → IsSound s → P → Checks P s s
  kept s v p = record { sound = v; clean = ((λ h. (h, p)), λ h. h.0) }

  pub logs : {P : Type 0} → (f : Failure) (s : State) → IsSound s → (P → ⊥) → Checks P s (log f s)
  unfolding log
  logs f s v no_p = record {
    sound = record { decoded = v.decoded; errors = λ h. (log-logs f s, (v.errors h).1) };
    clean = ((λ h. absurd (log-logs f s h)), λ h. absurd (no_p h.1));
  }

  -- The same check, of what is equivalent.
  weaken : {P Q : Type 0} {s s' : State} → Checks P s s' → (P → Q) → (Q → P) → Checks Q s s'
  weaken c f g = record {
    sound = c.sound;
    clean = ((λ h. let (h', p) = c.clean.0 h in (h', f p)), λ h. c.clean.1 (h.0, g h.1));
  }

  -- One check after another.
  pub both :
      {P Q : Type 0} {s s' s'' : State} → Checks P s s' → Checks Q s' s'' → Checks (P × Q) s s''
  both a b = record {
    sound = b.sound;
    clean = (
      (λ h. let (h', q) = b.clean.0 h in let (h0, p) = a.clean.0 h' in (h0, (p, q))),
      λ h. b.clean.1 (a.clean.1 (h.0, h.1.0), h.1.1),
    );
  }

  -- What `unmarshalJSONBody` promises of its result.
  unfoldable pub Unmarshals : State → Bool × State → Type 0
  Unmarshals s (true, s') =
      (d.unmarshal answer.body ≡ inr s'.data_json) × IsSound s' × (s'.logged ≡ s.logged)
  Unmarshals s (false, s') = NoDocument × IsSound s' × (s'.logged ≢ [])

  pub unmarshal-Unmarshals : (s : State) → IsSound s → Unmarshals s (unmarshal_json_body d answer s)
  unfolding unmarshal_json_body Unmarshals log unmarshalled
  unmarshal-Unmarshals s v =
      if_intro (Unmarshals s) (not (is_nil s.data_json)) _ _ (λ h. (not_nil h v.decoded, v, refl))
        (λ _.
          if_intro (Unmarshals s) s.data_json_error _ _ (λ h. ((v.errors h).1, v, (v.errors h).0))
            (λ h. decode (d.unmarshal answer.body) refl))
    where
      not_nil :
          not (is_nil s.data_json) ≡ true
          → (s.data_json ≡ null) ⊎ (d.unmarshal answer.body ≡ inr s.data_json)
          → d.unmarshal answer.body ≡ inr s.data_json
      not_nil h (inl e) = ground (arith, e)
      not_nil h (inr e) = e

      decode :
          (r : Str ⊎ Value) → d.unmarshal answer.body ≡ r → Unmarshals s (unmarshalled d answer r s)
      decode (inl msg) e = (
        (λ x e'. cc),
        record { decoded = v.decoded; errors = λ _. (log-logs (no_json msg) s, λ x e'. cc) },
        log-logs (no_json msg) s,
      )
      decode (inr x) e = (e, record { decoded = inr e; errors = v.errors }, refl)

  -- A check of the decoded body, once that is there.
  after_unmarshal :
      (P : Value → Type 0) (f : Bool × State → State) (s : State) (r : Bool × State)
      → Unmarshals s r
      → ((s' : State) → f (false, s') ≡ s')
      → ((s' : State) → IsSound s' → Checks (P s'.data_json) s' (f (true, s')))
      → Checks (Decodes P) s (f r)
  unfolding Unmarshals
  after_unmarshal P f s (true, s') (e, v, same) skip step =
      let c = step s' v in
      record {
        sound = c.sound;
        clean = (
          (λ h. let (h', p) = c.clean.0 h in (sym same ∙ h', (s'.data_json, e, p))),
          λ h. c.clean.1 (same ∙ h.0, same_document h.1),
        );
      }
    where
      same_document : Decodes P → P s'.data_json
      same_document (x, e', p) = let eq : x ≡ s'.data_json = cc (e, e') in subst P eq p
  after_unmarshal P f s (false, s') (no_doc, v, l) skip step =
      subst (Checks (Decodes P) s) (sym (skip s'))
        (record { sound = v; clean = ((λ h. absurd (l h)), λ h. absurd (no_doc h.1.0 h.1.1)) })

  -- The headers are there and have the expected values.
  abbrev pub HeadersMet : Assoc Str → Type 0
  HeadersMet [] = Unit
  HeadersMet ((k, v) ∷ h) = ((answer.header k ≢ []) × (answer.header k ≡ v)) × HeadersMet h

  entry-Checks :
      (k v : Str) (s : State)
      → IsSound s
      → Checks
          ((answer.header k ≢ []) × (answer.header k ≡ v))
          s
          (check_entry k v (answer.header k) s)
  unfolding check_entry
  entry-Checks k v s sound =
      let val : Str = answer.header k in
      if_intro (Checks _ s) (str_eq val []) _ _
        (λ h. logs _ s sound (λ p. p.0 ((str_eq_iff val []).0 h)))
        (λ h.
          if_intro (Checks _ s) (str_eq val v) _ _
            (λ e.
              kept s sound
                ((λ z. ground (arith, h, (str_eq_iff val []).1 z)), (str_eq_iff val v).0 e))
            (λ e. logs _ s sound (λ p. ground (arith, e, (str_eq_iff val v).1 p.1))))

  pub header-Checks :
      (h : Assoc Str) (s : State) → IsSound s → Checks (HeadersMet h) s (check_header d answer h s)
  unfolding check_header
  header-Checks [] s v = kept s v tt
  header-Checks ((k, e) ∷ h) s v =
      let first = entry-Checks k e s v in
      both first (header-Checks h (check_entry k e (answer.header k) s) first.sound)

  -- The document is the body, or equals what the body decodes as.
  abbrev pub DocumentMet : Option Document → Type 0
  DocumentMet none = Unit
  DocumentMet (some (raw b)) = answer.body ≡ b
  DocumentMet (some (json v)) = (is_nil v ≡ true) ⊎ Decodes (λ x. d.equal v x ≡ true)

  compare-Checks :
      (v : Value) (s : State)
      → IsSound s
      → Checks (Decodes (λ x. d.equal v x ≡ true)) s (match_document d answer (json v) s)
  unfolding match_document compare_document
  compare-Checks v s sound =
      after_unmarshal (λ x. d.equal v x ≡ true) (compare_document d answer v) s _
        (unmarshal-Unmarshals s sound) (λ s'. refl)
        (λ s' v'.
          if_intro (Checks (d.equal v s'.data_json ≡ true) s') (d.equal v s'.data_json) _ _
            (λ h. kept s' v' h) (λ h. logs _ s' v' (λ p. cc)))

  pub document-Checks :
      (o : Option Document) (s : State)
      → IsSound s
      → Checks (DocumentMet o) s (check_document d answer o s)
  unfolding check_document match_document
  document-Checks none s sound = kept s sound tt
  document-Checks (some (raw b)) s sound =
      if_intro (Checks (answer.body ≡ b) s) (str_eq answer.body b) _ _
        (λ h. kept s sound ((str_eq_iff answer.body b).0 h))
        (λ h. logs _ s sound (λ p. ground (arith, h, (str_eq_iff answer.body b).1 p)))
  document-Checks (some (json v)) s sound =
      if_intro (Checks (DocumentMet (some (json v))) s) (is_nil v) _ _ (λ h. kept s sound (inl h))
        (λ h. weaken (compare-Checks v s sound) inr (λ o. elim o [ inl e ↦ cc | inr p ↦ p ]))

  -- The body decodes as a document that the schema accepts.
  abbrev pub SchemaMet : Option Schema → Type 0
  SchemaMet none = Unit
  SchemaMet (some schema) = Decodes (λ x. (es : List Str) × (schema x ≡ inr (true, es)))

  pub schema-Checks :
      (o : Option Schema) (s : State)
      → IsSound s
      → Checks (SchemaMet o) s (check_schema d answer o s)
  unfolding check_schema match_json_schema validate validated
  schema-Checks none s sound = kept s sound tt
  schema-Checks (some schema) s sound =
      after_unmarshal _ (validate d answer schema) s _ (unmarshal-Unmarshals s sound) (λ s'. refl)
        (λ s' v'. go s' v' (schema s'.data_json) refl)
    where
      go :
          (s' : State)
          → IsSound s'
          → (r : Str ⊎ (Bool × List Str)) → schema s'.data_json ≡ r
          → Checks
              ((es : List Str) × (schema s'.data_json ≡ inr (true, es)))
              s'
              (validated d answer r s')
      go s' v' (inl msg) e = logs _ s' v' (λ p. let (es, e') = p in cc)
      go s' v' (inr (true, es)) e = kept s' v' (es, e)
      go s' v' (inr (false, es)) e = logs _ s' v' (λ p. let (es', e') = p in cc)

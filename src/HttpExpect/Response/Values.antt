-- ===== src/HttpExpect/Response/Values.antt =====
-- When the checks of expected values, and of a document to save, log nothing.
use aragorn.Prelude.{
  Str, Bool, true, false, ◌≡◌, ◌∙◌, refl, sym, subst, Option, none, some, Outcome, ok, err, panic,
  ◌>>=◌, ◌⊎◌, inl, inr, ◌↔◌, [], if_intro, arith,
}
use aragorn.Prelude.Assoc.{Assoc}
use aragorn.Json.{Value, Fields, end, field}
use aragorn.HttpExpect.Query.{query_json}
use aragorn.HttpExpect.Response.{
  Expect, Answer, Decoder, State, log, compare_value, compare_values, contains_json_values,
  compare_if, unmarshal_json_body, check_values, put_document, save,
}
use aragorn.HttpExpect.Response.Meets.{
  IsSound, Checks, Decodes, Unmarshals, unmarshal-Unmarshals, kept, logs, both,
}

module _ (d : Decoder) (answer : Answer) where
  -- The queries find values that equal those expected.
  abbrev pub ValuesFound : Fields → Value → Type 0
  ValuesFound end x = Unit
  ValuesFound (field q expected fs) x =
      ((val : Value) × (query_json q x ≡ ok val) × (d.equal val expected ≡ true)) × ValuesFound fs x

  -- The check of a call that may panic.
  unfoldable pub Tries : Type 0 → State → Outcome Str State → Type 0
  Tries P s (ok s') = Checks d answer P s s'
  Tries P s (err e) = ⊥
  Tries P s panic = P → ⊥

  value-Tries :
      (q : Str) (expected x : Value) (s : State) (o : Outcome Str Value)
      → IsSound d answer s
      → query_json q x ≡ o
      → Tries
          ((val : Value) × (query_json q x ≡ ok val) × (d.equal val expected ≡ true))
          s
          (compare_value d answer q expected o s)
  unfolding Tries compare_value
  value-Tries q expected x s (ok val) v e =
      if_intro (Tries _ s) (d.equal val expected) _ _ (λ h. kept d answer s v (val, e, h))
        (λ h.
          logs d answer _ s v
            (λ p. let (val', e', h') = p in let same : val' ≡ val = cc (e, e') in cc))
  value-Tries q expected x s (err msg) v e = logs d answer _ s v (λ p. let (val', e', h') = p in cc)
  value-Tries q expected x s panic v e = λ p. let (val', e', h') = p in cc

  compare_value-data :
      (q : Str) (expected : Value) (o : Outcome Str Value) (s s' : State)
      → compare_value d answer q expected o s ≡ ok s'
      → s'.data_json ≡ s.data_json
  unfolding compare_value log
  compare_value-data q expected o s s' h = ground arith

  bind-Tries :
      (P Q : Type 0) (s : State) (m : Outcome Str State) (f : State → Outcome Str State)
      → Tries P s m
      → ((s' : State) → m ≡ ok s' → IsSound d answer s' → Tries Q s' (f s'))
      → Tries (P × Q) s (m >>= f)
  unfolding Tries ◌>>=◌
  bind-Tries P Q s (ok s') f c k = go (f s') (k s' refl c.sound)
    where
      go : (o : Outcome Str State) → Tries Q s' o → Tries (P × Q) s o
      go (ok t) h = both d answer c h
      go (err e) h = h
      go panic h = λ p. h p.1
  bind-Tries P Q s (err e) f c k = c
  bind-Tries P Q s panic f c k = λ p. c p.0

  values-Tries :
      (fs : Fields) (s : State)
      → IsSound d answer s
      → Tries (ValuesFound fs s.data_json) s (compare_values d answer fs s)
  unfolding compare_values Tries
  values-Tries end s v = kept d answer s v tt
  values-Tries (field q expected fs) s v =
      bind-Tries _ _ s _ _ (value-Tries q expected s.data_json s _ v refl) (λ s' e v'.
        subst (λ x. Tries (ValuesFound fs x) s' (compare_values d answer fs s'))
          (compare_value-data q expected _ s s' e) (values-Tries fs s' v'))

  -- The body decodes as a document in which the queries find what is expected.
  abbrev pub ValuesMet : Option Fields → Type 0
  ValuesMet none = Unit
  ValuesMet (some fs) = Decodes d answer (ValuesFound fs)

  compare_if-Tries :
      (fs : Fields) (s : State) (r : Bool × State)
      → Unmarshals d answer s r
      → Tries (Decodes d answer (ValuesFound fs)) s (compare_if d answer fs r)
  unfolding compare_if Unmarshals Tries
  compare_if-Tries fs s (true, s') (e, v, same) =
      go (compare_values d answer fs s') (values-Tries fs s' v)
    where
      there : Decodes d answer (ValuesFound fs) → ValuesFound fs s'.data_json
      there (x, e', p) = let eq : x ≡ s'.data_json = cc (e, e') in subst (ValuesFound fs) eq p

      go :
          (o : Outcome Str State)
          → Tries (ValuesFound fs s'.data_json) s' o
          → Tries (Decodes d answer (ValuesFound fs)) s o
      go (ok t) c = record {
        sound = c.sound;
        clean = (
          (λ h. let (h', p) = c.clean.0 h in (sym same ∙ h', (s'.data_json, e, p))),
          λ h. c.clean.1 (same ∙ h.0, there h.1),
        );
      }
      go (err e') c = c
      go panic c = λ p. c (there p)
  compare_if-Tries fs s (false, s') (no_doc, v, l) = record {
    sound = v;
    clean = ((λ h. absurd (l h)), λ h. absurd (no_doc h.1.0 h.1.1));
  }

  pub check_values-Tries :
      (o : Option Fields) (s : State)
      → IsSound d answer s
      → Tries (ValuesMet o) s (check_values d answer o s)
  unfolding check_values contains_json_values Tries
  check_values-Tries none s v = kept d answer s v tt
  check_values-Tries (some fs) s v =
      compare_if-Tries fs s (unmarshal_json_body d answer s) (unmarshal-Unmarshals d answer s v)

  -- A document that is to be saved is there to be saved.
  abbrev pub SaveMet : Expect → Option (Assoc Value) → Type 0
  SaveMet exp none = Unit
  SaveMet exp (some m) = (exp.save_doc ≡ false) ⊎ Decodes d answer (λ x. Unit)

  put-clean :
      (k : Str) (m : Assoc Value) (s : State) (r : Bool × State)
      → Unmarshals d answer s r
      → ((put_document d answer k m r).0.logged ≡ [])
        ↔ ((s.logged ≡ []) × Decodes d answer (λ x. Unit))
  unfolding put_document Unmarshals
  put-clean k m s (true, s') (e, v, same) =
      ((λ h. (sym same ∙ h, (s'.data_json, e, tt))), λ h. same ∙ h.0)
  put-clean k m s (false, s') (no_doc, v, l) =
      ((λ h. absurd (l h)), λ h. absurd (no_doc h.1.0 h.1.1))

  pub save-clean :
      (exp : Expect) (md : Option (Assoc Value)) (s : State)
      → IsSound d answer s
      → ((save d answer exp md s).0.logged ≡ []) ↔ ((s.logged ≡ []) × SaveMet exp md)
  unfolding save
  save-clean exp none s v = ((λ h. (h, tt)), λ h. h.0)
  save-clean exp (some m) s v =
      if_intro
        (λ (r : State × Option (Assoc Value)).
          (r.0.logged ≡ []) ↔ ((s.logged ≡ []) × SaveMet exp (some m)))
        exp.save_doc _ _
        (λ h.
          let c = put-clean exp.id m s _ (unmarshal-Unmarshals d answer s v) in
          (
            (λ l. let (l', p) = c.0 l in (l', inr p)),
            λ l. c.1 (l.0, elim l.1 [ inl e ↦ cc | inr p ↦ p ]),
          ))
        (λ h. ((λ l. (l, inl h)), λ l. l.0))

-- ===== src/HttpExpect/Response/Saves.antt =====
-- What the checks of a response save: the last part of `checkResponse` of
-- testsuite/httpexpect/response.go.
use aragorn.Prelude.{
  Str, Bool, true, false, not, ◌&&◌, ◌≡◌, ◌≢◌, refl, sym, subst, Option, some, Outcome, ok, err,
  panic, ◌>>=◌, inr, [], if_intro,
}
use aragorn.Prelude.Assoc.{Assoc, put}
use aragorn.Json.{Value}
use aragorn.HttpExpect.Response.{
  Failure, log, Expect, Answer, Decoder, State, start, check_values, save, put_document,
  unmarshal_json_body, check_response, eq_ℤ, is_natural,
}
use aragorn.HttpExpect.Response.Meets.{IsSound, log-logs, Unmarshals, unmarshal-Unmarshals}
use aragorn.HttpExpect.Response.Values.{Tries, ValuesMet, check_values-Tries}
use aragorn.HttpExpect.Response.Passes.{checked, checked-Checks}

logged_first :
    (f : Failure) (md : Option (Assoc Value)) (r : State × Option (Assoc Value))
    → ◌≡◌ {A = Outcome Str (State × Option (Assoc Value))} (ok (log f start, md)) (ok r)
    → r.0.logged ≢ []
logged_first f md r h quiet =
    let same : (log f start, md) ≡ r = cc h in
    log-logs f start
      (subst (λ (x : State × Option (Assoc Value)). x.0.logged ≡ []) (sym same) quiet)

module _ (d : Decoder) (answer : Answer) where
  -- The decoded body is saved under a key.
  abbrev pub IsSaved : Str → Assoc Value → Option (Assoc Value) → Type 0
  IsSaved k m saved = (v : Value) × (d.unmarshal answer.body ≡ inr v) × (saved ≡ some (put k v m))

  put-IsSaved :
      (k : Str) (m : Assoc Value) (s : State) (r : Bool × State)
      → Unmarshals d answer s r
      → (put_document d answer k m r).0.logged ≡ []
      → IsSaved k m (put_document d answer k m r).1
  unfolding put_document Unmarshals
  put-IsSaved k m s (true, s') (e, v, same) h = (s'.data_json, e, refl)
  put-IsSaved k m s (false, s') (no_doc, v, l) h = absurd (l h)

  module _ (exp : Expect) (m : Assoc Value) (saves : exp.save_doc ≡ true) where
    save-IsSaved :
        (s : State)
        → IsSound d answer s
        → (save d answer exp (some m) s).0.logged ≡ []
        → IsSaved exp.id m (save d answer exp (some m) s).1
    unfolding save
    save-IsSaved s sound = rw saves (
        put-IsSaved exp.id m s (unmarshal_json_body d answer s)
          (unmarshal-Unmarshals d answer s sound))

    IsSaved-of :
        (o : Outcome Str State) (r : State × Option (Assoc Value))
        → Tries d answer (ValuesMet d answer exp.json_values) (checked d answer exp (some m)) o
        → (o >>= λ s. ok (save d answer exp (some m) s)) ≡ ok r
        → r.0.logged ≡ []
        → IsSaved exp.id m r.1
    unfolding Tries ◌>>=◌
    IsSaved-of (ok s) r c h quiet =
        let same : save d answer exp (some m) s ≡ r = cc h in
        subst (λ (x : State × Option (Assoc Value)). x.0.logged ≡ [] → IsSaved exp.id m x.1) same
          (save-IsSaved s c.sound) quiet
    IsSaved-of (err e) r c h quiet = cc
    IsSaved-of panic r c h quiet = cc

    pub check_response-IsSaved :
        (r : State × Option (Assoc Value))
        → check_response d answer exp (some m) ≡ ok r
        → r.0.logged ≡ []
        → IsSaved exp.id m r.1
    unfolding check_response checked
    check_response-IsSaved r h quiet =
        if_intro
          (λ (o : Outcome Str (State × Option (Assoc Value))). o ≡ ok r → IsSaved exp.id m r.1)
          (not (eq_ℤ answer.status_code exp.status_code) && is_natural exp.status_code) _ _
          (λ _ e. absurd (logged_first _ _ r e quiet))
          (λ _ e.
            let o = check_values d answer exp.json_values (checked d answer exp (some m)) in
            let sound = (checked-Checks d answer exp (some m)).sound in
            IsSaved-of o r (check_values-Tries d answer exp.json_values _ sound) e quiet)
          h

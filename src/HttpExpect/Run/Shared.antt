-- ===== src/HttpExpect/Run/Shared.antt =====
-- What one run of an HTTP test leaves for others: the metadata, and the test itself.
use aragorn.Prelude.{
  Str, str_eq, str_eq_refl, true, ◌≡◌, ◌≢◌, ◌↔◌, ◌∙◌, refl, sym, ap, subst, Option, some, Outcome,
  ok, err, panic, >>=-eq-ok, ◌⊎◌, inl, inr, [], ◌∷◌, ◌++◌, map, map-nil, Bool-cases,
}
use aragorn.Prelude.Assoc.{Assoc, get, put, get-put}
use aragorn.Json.{Value, obj, field_of}
use aragorn.HttpExpect.Query.{query_json}
use aragorn.HttpExpect.Query.Path.{query_json-append, query_json-field}
use aragorn.HttpExpect.Response.{State}
use aragorn.HttpExpect.Response.Saves.{check_response-IsSaved}
use aragorn.HttpExpect.Request.{Url}
use aragorn.HttpExpect.Replace.{IsFree}
use aragorn.HttpExpect.Prepare.{Prepared}
use aragorn.HttpExpect.Run.{
  Reply, Net, Logged, failed, Ran, answer_of, document_of, sent_url, kept_test, checked_reply,
  read_body, replied, run_http,
}

field_of-document_of : (k : Str) (m : Assoc Value) → field_of k (document_of m) ≡ get k m
unfolding field_of get
field_of-document_of k [] = refl
field_of-document_of k ((j, v) ∷ m) = elim (Bool-cases (str_eq j k)) [
  | inl h ↦ rw h
  | inr h ↦ rw h (field_of-document_of k m)
]

-- The metadata under a key that was put there.
query_json-put :
    (k : Str) (v : Value) (m : Assoc Value)
    → IsFree b'.' k
    → query_json k (obj (document_of (put k v m))) ≡ ok v
query_json-put k v m free =
    query_json-field k (document_of (put k v m)) v free
      (field_of-document_of k (put k v m) ∙ (get-put k k v m ∙ rw (str_eq_refl k) refl))

module _ {W : Type 0} (net : Net W) where
  quiet_checks :
      (t : Prepared) (w : W) (o : Outcome Str (State × Option (Assoc Value))) (r : Ran W)
      → checked_reply net t w o ≡ ok r
      → r.logged ≡ []
      → (c : State × Option (Assoc Value)) × (o ≡ ok c) × (c.0.logged ≡ []) × (c.1 ≡ r.md)
  unfolding checked_reply
  quiet_checks t w (ok (s, md)) r h quiet =
      let left : record { logged = map failed s.logged; md = md; test = t; world = w } ≡ r = cc h in
      (
        (s, md),
        refl,
        (map-nil failed s.logged).0 (ap (λ (x : Ran W). x.logged) left ∙ quiet),
        ap (λ (x : Ran W). x.md) left,
      )
  quiet_checks t w (err e) r h quiet = cc
  quiet_checks t w panic r h quiet = cc

  -- What a run that logs nothing saves: the decoded body of the reply, under the id of the test.
  abbrev Saved : Prepared → Assoc Value → Str ⊎ Reply → Ran W → Type 0
  Saved t m got r =
      (reply : Reply) × (body : Str) × (v : Value) × (got ≡ inr reply)
      × (reply.body ≡ inr body)
      × (net.decoder.unmarshal body ≡ inr v)
      × (r.md ≡ some (put t.expect.id v m))

  message_logged :
      (x : Logged) (md : Option (Assoc Value)) (t : Prepared) (w : W) (r : Ran W)
      → ◌≡◌ {A = Outcome Str (Ran W)}
          (ok (record { logged = x ∷ []; md = md; test = t; world = w }))
          (ok r)
      → r.logged ≢ []
  message_logged x md t w r h quiet =
      let left : record { logged = x ∷ []; md = md; test = t; world = w } ≡ r = cc h in
      let logged = ap (λ (y : Ran W). y.logged) left ∙ quiet in cc

  read-Saved :
      (t : Prepared) (m : Assoc Value) (w : W) (reply : Reply) (b : Str ⊎ Str) (r : Ran W)
      → reply.body ≡ b
      → t.expect.save_doc ≡ true
      → read_body net reply t (some m) w b ≡ ok r
      → r.logged ≡ []
      → Saved t m (inr reply) r
  unfolding read_body
  read-Saved t m w reply (inl e) r is saves h quiet =
      absurd (message_logged _ (some m) t w r h quiet)
  read-Saved t m w reply (inr body) r is saves h quiet =
      let answer = answer_of reply body in
      let (c, checks, clean, md) = quiet_checks t w _ r h quiet in
      let (v, decodes, saved) =
        check_response-IsSaved net.decoder answer t.expect m saves c checks clean in
      (reply, body, v, refl, is, decodes, sym md ∙ saved)

  replied-Saved :
      (t : Prepared) (m : Assoc Value) (got : Str ⊎ Reply) (w : W) (r : Ran W)
      → t.expect.save_doc ≡ true
      → replied net t (some m) (got, w) ≡ ok r
      → r.logged ≡ []
      → Saved t m got r
  unfolding replied
  replied-Saved t m (inl e) w r saves h quiet = absurd (message_logged _ (some m) t w r h quiet)
  replied-Saved t m (inr reply) w r saves h quiet =
      read-Saved t m w reply reply.body r refl saves h quiet

  -- What a later test finds after a run: the saved document is the decoded body of the reply to the
  -- request that was sent, and a query that starts with the id of the test finds what the rest of the
  -- query finds in that document.
  abbrev pub FoundLater : Prepared → Assoc Value → W → Ran W → Type 0
  FoundLater t m w r =
      (u : Url) × (reply : Reply) × (body : Str) × (v : Value) × (m' : Assoc Value) × (sent_url net
          t (some m)
        ≡ ok u)
      × ((net.round_trip (record t.request { url = u }) w).0 ≡ inr reply)
      × (reply.body ≡ inr body)
      × (net.decoder.unmarshal body ≡ inr v)
      × (r.md ≡ some m')
      × ((k : Str) (x : Value)
          → (query_json (t.expect.id ++ b'.' ∷ k) (obj (document_of m')) ≡ ok x)
            ↔ (query_json k v ≡ ok x))

  query_json-saved :
      (id k : Str) (v x : Value) (m : Assoc Value)
      → IsFree b'.' id
      → (query_json (id ++ b'.' ∷ k) (obj (document_of (put id v m))) ≡ ok x)
        ↔ (query_json k v ≡ ok x)
  query_json-saved id k v x m free =
      let parts = query_json-append id k (obj (document_of (put id v m))) x in
      let first = query_json-put id v m free in
      (
        (λ h.
            let (y, one, two) = parts.0 h in
            let same : y ≡ v = cc (first, one) in subst (λ z. query_json k z ≡ ok x) same two),
        λ h. parts.1 (v, first, h),
      )

  -- When a test whose id has no dot saves its document and logs nothing, the decoded body of the reply
  -- is in the metadata that it leaves, and later queries that start with the id find what is in it.
  pub run_http-FoundLater :
      (t : Prepared) (m : Assoc Value) (w : W) (r : Ran W)
      → t.expect.save_doc ≡ true
      → IsFree b'.' t.expect.id
      → run_http net t (some m) w ≡ ok r
      → r.logged ≡ []
      → FoundLater t m w r
  unfolding run_http kept_test
  run_http-FoundLater t m w r saves free h quiet =
      let (u, filled, rest) = >>=-eq-ok _ _ h in
      let sent = net.round_trip (record t.request { url = u }) w in
      let (reply, body, v, got, read, decodes, left) =
        replied-Saved (kept_test net t u) m sent.0 sent.1 r saves rest quiet in
      (
        u,
        reply,
        body,
        v,
        put t.expect.id v m,
        filled,
        got,
        read,
        decodes,
        left,
        λ k x. query_json-saved t.expect.id k v x m free,
      )

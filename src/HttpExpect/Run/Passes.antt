-- ===== src/HttpExpect/Run/Passes.antt =====
-- When the run of an HTTP test logs nothing: `test.Run` of testsuite/httpexpect/httpexpect.go.
use aragorn.Prelude.{
  Str, ◌≡◌, refl, subst, Option, Outcome, ok, err, panic, ◌>>=◌, ◌⊎◌, inl, inr, ◌↔◌, [], map-nil,
}
use aragorn.Prelude.Assoc.{Assoc}
use aragorn.Json.{Value}
use aragorn.HttpExpect.Response.{State, check_response}
use aragorn.HttpExpect.Response.Passes.{Meets, Passes, check_response-Meets}
use aragorn.HttpExpect.Request.{Url}
use aragorn.HttpExpect.Prepare.{Prepared}
use aragorn.HttpExpect.Run.{
  Reply, Net, failed, Ran, sent_url, kept_test, answer_of, checked_reply, read_body, replied,
  run_http,
}

module _ {W : Type 0} (net : Net W) where
  -- A run that ends without a panic and has logged nothing.
  unfoldable pub IsQuiet : Outcome Str (Ran W) → Type 0
  IsQuiet (ok r) = r.logged ≡ []
  IsQuiet (err e) = ⊥
  IsQuiet panic = ⊥

  -- What a quiet run needs: the saved values can be filled in, the server replies to the request with
  -- the URL that results, the body can be read, and the response is what the test expects.
  pub record Succeeds (t : Prepared) (md : Option (Assoc Value)) (w : W) : Type 0 where
    pub url : Url
    pub reply : Reply
    pub body : Str
    pub filled : sent_url net t md ≡ ok url
    pub replies : (net.round_trip (record t.request { url = url }) w).0 ≡ inr reply
    pub reads : reply.body ≡ inr body
    pub meets : Meets net.decoder (answer_of reply body) t.expect md

  checked_reply-IsQuiet :
      (t : Prepared) (w : W) (reply : Reply) (body : Str) (md : Option (Assoc Value))
      (o : Outcome Str (State × Option (Assoc Value)))
      → IsQuiet (checked_reply net t w o) ↔ Passes net.decoder (answer_of reply body) t.expect md o
  unfolding IsQuiet checked_reply Passes
  checked_reply-IsQuiet t w reply body md (ok (s, md')) = map-nil failed s.logged
  checked_reply-IsQuiet t w reply body md (err e) = ((λ h. h), λ h. h)
  checked_reply-IsQuiet t w reply body md panic = ((λ h. h), λ h. h)

  -- A body that was read, and meets what is expected.
  abbrev Reads : Prepared → Option (Assoc Value) → Reply → Str ⊎ Str → Type 0
  Reads t md reply b =
      (body : Str) × (b ≡ inr body) × Meets net.decoder (answer_of reply body) t.expect md

  read-IsQuiet :
      (t : Prepared) (w : W) (reply : Reply) (md : Option (Assoc Value)) (b : Str ⊎ Str)
      → IsQuiet (read_body net reply t md w b) ↔ Reads t md reply b
  unfolding IsQuiet read_body
  read-IsQuiet t w reply md (inl e) = ((λ h. cc), λ h. let (body, e', m) = h in cc)
  read-IsQuiet t w reply md (inr body) =
      let answer = answer_of reply body in
      let quiet =
        checked_reply-IsQuiet t w reply body md (check_response net.decoder answer t.expect md) in
      let meets = check_response-Meets net.decoder answer t.expect md in
      (
        (λ h. (body, refl, meets.0 (quiet.0 h))),
        λ h.
            let (read, e, m) = h in
            let same : read ≡ body = cc e in
            quiet.1
              (meets.1 (subst (λ b. Meets net.decoder (answer_of reply b) t.expect md) same m)),
      )

  abbrev Fits : Prepared → Option (Assoc Value) → Str ⊎ Reply → Type 0
  Fits t md r = (reply : Reply) × (r ≡ inr reply) × Reads t md reply reply.body

  replied-IsQuiet :
      (t : Prepared) (md : Option (Assoc Value)) (r : (Str ⊎ Reply) × W)
      → IsQuiet (replied net t md r) ↔ Fits t md r.0
  unfolding IsQuiet replied
  replied-IsQuiet t md (inl e, w) = ((λ h. cc), λ h. let (reply, e', m) = h in cc)
  replied-IsQuiet t md (inr reply, w) =
      let reads = read-IsQuiet t w reply md reply.body in
      (
        (λ h. (reply, refl, reads.0 h)),
        λ h.
            let (other, e, m) = h in
            let same : other ≡ reply = cc e in reads.1 (subst (λ r. Reads t md r r.body) same m),
      )

  filled-IsQuiet :
      (t : Prepared) (md : Option (Assoc Value)) (w : W) (o : Outcome Str Url)
      → sent_url net t md ≡ o
      → IsQuiet (
          o >>= λ u.
          replied net (kept_test net t u) md (net.round_trip (record t.request { url = u }) w))
        ↔ Succeeds t md w
  unfolding IsQuiet ◌>>=◌ kept_test
  filled-IsQuiet t md w (ok u) e =
      let sent = net.round_trip (record t.request { url = u }) w in
      let quiet = replied-IsQuiet (kept_test net t u) md sent in
      (
        (λ h.
            let (reply, got, (body, read, m)) = quiet.0 h in
            record {
              url = u;
              reply = reply;
              body = body;
              filled = e;
              replies = got;
              reads = read;
              meets = m;
            }),
        λ s.
            let same : s.url ≡ u = cc (e, s.filled) in
            quiet.1 (
              s.reply,
              subst (λ x. (net.round_trip (record t.request { url = x }) w).0 ≡ inr s.reply) same
                  s.replies,
              (s.body, s.reads, s.meets),
            ),
      )
  filled-IsQuiet t md w (err msg) e = ((λ h. absurd h), λ s. let f = s.filled in cc)
  filled-IsQuiet t md w panic e = ((λ h. absurd h), λ s. let f = s.filled in cc)

  -- The run of an HTTP test ends without a panic and logs nothing exactly when the saved values can be
  -- filled into its URL, the server replies to the request, the body can be read, and the response is
  -- what the test expects.
  pub run_http-Succeeds :
      (t : Prepared) (md : Option (Assoc Value)) (w : W)
      → IsQuiet (run_http net t md w) ↔ Succeeds t md w
  unfolding run_http
  run_http-Succeeds t md w = filled-IsQuiet t md w (sent_url net t md) refl

-- ===== src/HttpExpect/Run/Again.antt =====
-- A test that is run again: the URL that `test.Run` of testsuite/httpexpect/httpexpect.go changes is
-- one that the test keeps, or a copy.
use aragorn.Prelude.{
  Str, true, false, ◌≡◌, ◌∙◌, refl, ap, Option, some, Outcome, ok, err, panic, >>=-eq-ok, ◌⊎◌, inl,
  inr, List, [], All, if◌then◌else◌, arith,
}
use aragorn.Prelude.Assoc.{Assoc}
use aragorn.Json.{Value}
use aragorn.HttpExpect.Request.{Url}
use aragorn.HttpExpect.Response.{State}
use aragorn.HttpExpect.Replace.{IsFree}
use aragorn.HttpExpect.Prepare.{Prepared}
use aragorn.HttpExpect.Run.{
  Reply, Net, Ran, sent_url, kept_test, checked_reply, read_body, replied, run_http,
}
use aragorn.HttpExpect.Run.Vars.{IsVar, NoPanic}
use aragorn.HttpExpect.Run.Sent.{Piece, template, filled, IsFound, sent_url-filled}

module _ {W : Type 0} (net : Net W) where
  checked_reply-test :
      (t : Prepared) (w : W) (o : Outcome Str (State × Option (Assoc Value))) (r : Ran W)
      → checked_reply net t w o ≡ ok r
      → r.test ≡ t
  unfolding checked_reply
  checked_reply-test t w (ok c) r h = cc
  checked_reply-test t w (err e) r h = cc
  checked_reply-test t w panic r h = cc

  read-test :
      (reply : Reply) (t : Prepared) (md : Option (Assoc Value)) (w : W) (b : Str ⊎ Str) (r : Ran W)
      → read_body net reply t md w b ≡ ok r
      → r.test ≡ t
  unfolding read_body
  read-test reply t md w (inl e) r h = cc
  read-test reply t md w (inr body) r h = checked_reply-test t w _ r h

  replied-test :
      (t : Prepared) (md : Option (Assoc Value)) (o : (Str ⊎ Reply) × W) (r : Ran W)
      → replied net t md o ≡ ok r
      → r.test ≡ t
  unfolding replied
  replied-test t md (inl e, w) r h = cc
  replied-test t md (inr reply, w) r h = read-test reply t md w reply.body r h

  run_http-test :
      (t : Prepared) (md : Option (Assoc Value)) (w : W) (r : Ran W)
      → run_http net t md w ≡ ok r
      → (u : Url) × (sent_url net t md ≡ ok u) × (r.test ≡ kept_test net t u)
  unfolding run_http
  run_http-test t md w r h =
      let (u, filled, rest) = >>=-eq-ok _ _ h in
      (u, filled, replied-test (kept_test net t u) md _ r rest)

  abbrev sending : Prepared → Url → Prepared
  sending t u = record t { request = record t.request { url = u } }

  kept_test-sending :
      (t : Prepared) (u : Url)
      → kept_test net t u ≡ sending t (if net.shares_url then u else t.request.url)
  unfolding kept_test
  kept_test-sending t u = refl

  -- Where a copied request has a URL of its own, a run leaves the test as it was.
  run_http-keeps :
      (t : Prepared) (md : Option (Assoc Value)) (w : W) (r : Ran W)
      → net.shares_url ≡ false
      → run_http net t md w ≡ ok r
      → r.test ≡ t
  run_http-keeps t md w r own h =
      let (u, filled, same) = run_http-test t md w r h in
      let url : (if net.shares_url then u else t.request.url) ≡ t.request.url =
        ground (arith, own) in
      same ∙ (kept_test-sending t u ∙ ap (sending t) url)

  -- Where a copied request shares its URL with the test, a run that fills in all variables leaves their
  -- values in the test: where the path and the query that it sends have no opening brace left, the next
  -- run sends the same path and query, whatever is saved then, if the lookup of no variable panics.
  pub run_http-sticks :
      (t : Prepared) (m m' : Assoc Value) (w : W) (r : Ran W) (ps rs : List Piece) (tail end : Str)
      → net.shares_url ≡ true
      → All IsVar t.path_queries × All (NoPanic m) t.path_queries × All (NoPanic m') t.path_queries
      → All IsVar t.query_queries
        × All (NoPanic m) t.query_queries
        × All (NoPanic m') t.query_queries
      → (t.request.url.path ≡ template ps tail)
        × All (IsFound m t.path_queries) ps
        × IsFree b'{' tail
      → (t.request.url.raw_query ≡ template rs end)
        × All (IsFound m t.query_queries) rs
        × IsFree b'{' end
      → IsFree b'{' (filled net.sprint ps tail)
      → IsFree b'{' (filled (λ v. net.query_escape (net.sprint v)) rs end)
      → run_http net t (some m) w ≡ ok r
      → (u : Url) × (sent_url net r.test (some m') ≡ ok u)
        × (u.path ≡ filled net.sprint ps tail)
        × (u.raw_query ≡ filled (λ v. net.query_escape (net.sprint v)) rs end)
  run_http-sticks t m m' w r ps rs tail end shared (vars, safe, safe') (vars', safe2, safe2') path
        query path_free query_free h =
      let (u, sent, path_is, query_is, _, _) =
        sent_url-filled net m t ps rs tail end (vars, safe) (vars', safe2) path query in
      let (u1, sent1, same) = run_http-test t (some m) w r h in
      let url : u1 ≡ u = cc (sent, sent1) in
      let kept : (if net.shares_url then u1 else t.request.url) ≡ u = ground (arith, shared, url) in
      let left : r.test ≡ sending t u = same ∙ (kept_test-sending t u1 ∙ ap (sending t) kept) in
      let (u2, sent2, path2, query2, _, _) =
        sent_url-filled net m' (sending t u) [] [] (filled net.sprint ps tail)
          (filled (λ v. net.query_escape (net.sprint v)) rs end) (vars, safe') (vars', safe2')
          (path_is, tt, path_free) (query_is, tt, query_free) in
      (u2, rw left sent2, path2, query2)

-- ===== src/HttpExpect/Run.antt =====
-- The run of an HTTP test: `test.Run` of testsuite/httpexpect/httpexpect.go. A clone of a request is
-- the same value; tracing is left out.
pub mod Vars
pub mod Sent
pub mod Shared
pub mod Again
pub mod Passes
mod Tests
use aragorn.Prelude.{
  Str, ℕ, zero, suc, ◌-◌, ltb, ℤ, Bool, Option, none, some, Outcome, ok, err, panic, ◌>>=◌, ◌⊎◌,
  inl, inr, List, [], ◌∷◌, map, length, take, is_empty, if◌then◌else◌,
}
use aragorn.Prelude.Assoc.{Assoc}
use aragorn.Json.{Value, Fields, obj, end, field}
use aragorn.HttpExpect.Query.{query_json}
use aragorn.HttpExpect.Response.{Answer, Decoder, Failure, State, check_response}
use aragorn.HttpExpect.Request.{Url, HttpRequest}
use aragorn.HttpExpect.Replace.{replace}
use aragorn.HttpExpect.Prepare.{Prepared}

-- An http.Response; reading its body may fail.
pub record Reply : Type 0 where
  pub status_code : ℤ
  pub header : Str → Str
  pub body : Str ⊎ Str

-- The packages net/http, net/url and fmt, as far as a run needs them; `W` is the outside.
-- `shares_url` says whether the copy that WithContext makes of a request has the same *url.URL, as
-- newer versions of Go do it, or one of its own.
pub record Net (W : Type 0) : Type 0 where
  pub round_trip : HttpRequest → W → (Str ⊎ Reply) × W
  pub sprint : Value → Str
  pub query_escape : Str → Str
  pub decoder : Decoder
  pub shares_url : Bool

-- The messages of a run.
pub data Logged : Type 0 where
  no_reply no_body : Str → Logged
  failed : Failure → Logged

-- What a run leaves: its messages, the metadata, the test and the outside.
pub record Ran (W : Type 0) : Type 0 where
  pub logged : List Logged
  pub md : Option (Assoc Value)
  pub test : Prepared
  pub world : W

-- The response that the checks see.
abbrev pub answer_of : Reply → Str → Answer
answer_of r body = record { status_code = r.status_code; header = r.header; body = body }

-- The metadata as a document.
abbrev pub document_of : Assoc Value → Fields
document_of [] = end
document_of ((k, v) ∷ m) = field k v (document_of m)

abbrev pub drop : ℕ → Str → Str
drop zero s = s
drop (suc n) [] = []
drop (suc n) (c ∷ s) = drop n s

-- `q[2:len(q)-2]`, which panics where q is too short.
unfoldable pub inner : Str → Outcome Str Str
inner q = if ltb (length q) 4 then panic else ok (take (length q - 4) (drop 2 q))

-- One pair of the replacer, or none where the value is not found.
pair_of : (Value → Str) → Str → Outcome Str Value → Outcome Str (Option (Str × Str))
pair_of text q (ok v) = ok (some (q, text v))
pair_of text q (err e) = ok none
pair_of text q panic = panic

unfoldable pub cons_some : {A : Type 0} → Option A → List A → List A
cons_some none xs = xs
cons_some (some x) xs = x ∷ xs

-- The loops over `urlPathQueries` and `urlQueryQueries`, up to the text of a value.
unfoldable pub old_new : (Value → Str) → Assoc Value → List Str → Outcome Str (List (Str × Str))
unfolding pair_of
old_new text md [] = ok []
old_new text md (q ∷ qs) = do
  k ← inner q
  pair ← pair_of text q (query_json k (obj (document_of md)))
  pairs ← old_new text md qs
  ok (cons_some pair pairs)

module _ {W : Type 0} (net : Net W) where
  fill_path : List Str → Assoc Value → Url → Outcome Str Url
  fill_path qs md u =
      if is_empty qs
      then ok u
      else old_new net.sprint md qs >>= λ pairs.
          ok (record u { path = replace pairs u.path; raw_path = [] })

  fill_query : List Str → Assoc Value → Url → Outcome Str Url
  fill_query qs md u =
      if is_empty qs
      then ok u
      else old_new (λ v. net.query_escape (net.sprint v)) md qs >>= λ pairs.
          ok (record u { raw_query = replace pairs u.raw_query })

  -- The URL of the request that is sent, with the saved values filled in.
  unfoldable pub sent_url : Prepared → Option (Assoc Value) → Outcome Str Url
  unfolding fill_path fill_query
  sent_url t none = ok t.request.url
  sent_url t (some md) = do
    u ← fill_path t.path_queries md t.request.url
    fill_query t.query_queries md u

  -- The test after its copied request got a URL.
  unfoldable pub kept_test : Prepared → Url → Prepared
  kept_test t u = record t {
    request = record t.request { url = if net.shares_url then u else t.request.url };
  }

  checked_reply : Prepared → W → Outcome Str (State × Option (Assoc Value)) → Outcome Str (Ran W)
  checked_reply t w (ok (s, md)) =
      ok (record { logged = map failed s.logged; md = md; test = t; world = w })
  checked_reply t w (err e) = err e
  checked_reply t w panic = panic

  read_body : Reply → Prepared → Option (Assoc Value) → W → Str ⊎ Str → Outcome Str (Ran W)
  unfolding checked_reply
  read_body r t md w (inl e) = ok (record { logged = no_body e ∷ []; md = md; test = t; world = w })
  read_body r t md w (inr body) =
      checked_reply t w (check_response net.decoder (answer_of r body) t.expect md)

  replied : Prepared → Option (Assoc Value) → (Str ⊎ Reply) × W → Outcome Str (Ran W)
  unfolding read_body
  replied t md (inl e, w) = ok (record { logged = no_reply e ∷ []; md = md; test = t; world = w })
  replied t md (inr r, w) = read_body r t md w r.body

  -- `test.Run`, under the metadata of the context, where there is any.
  unfoldable pub run_http : Prepared → Option (Assoc Value) → W → Outcome Str (Ran W)
  unfolding sent_url kept_test replied
  run_http t md w = do
    u ← sent_url t md
    replied (kept_test t u) md (net.round_trip (record t.request { url = u }) w)

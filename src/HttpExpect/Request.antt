-- ===== src/HttpExpect/Request.antt =====
-- The HTTP requests of tests: testsuite/httpexpect/request.go.
use aragorn.Prelude.{
  Str, codes, str_eq, starts_with, Option, none, some, Outcome, ok, err, ◌>>=◌, ◌⊎◌, inl, inr, List,
  [], ◌∷◌, ◌++◌, if◌then◌else◌,
}
use aragorn.Prelude.Assoc.{Assoc, get, put}
use aragorn.Files.{get_file_path}
use aragorn.Json.{Value, is_nil}
use aragorn.HttpExpect.Response.{Document, raw, json}
use aragorn.HttpExpect.Documents.{Sources, get_document_field}

-- The type `Request`; a map that is nil is `none`.
pub record Request : Type 0 where
  pub url : Str
  pub path : Str
  pub method : Str
  pub header : Assoc Str
  pub body : Value
  pub multipart : Option (Assoc Str)
  pub form_data : Option (Assoc Str)

-- A part of a multipart body: a form field, or a file by its name and content.
pub data Part : Type 0 where
  form_field : Str → Str → Part
  form_file : Str → Str → Str → Part

-- A parsed URL: what comes before its path, the path, decoded and as written, and the query.
pub record Url : Type 0 where
  pub origin : Str
  pub path : Str
  pub raw_path : Str
  pub raw_query : Str

pub record HttpRequest : Type 0 where
  pub method : Str
  pub url : Url
  pub header : Assoc Str
  pub body : Option Str

-- The packages net/http, net/url, mime/multipart, path/filepath and encoding/json, as far as requests
-- need them: `canonical` is the form of a header's name, `multipart` gives a body and its content
-- type.
pub record Web : Type 0 where
  pub canonical : Str → Str
  pub new_request : Str → Str → Str ⊎ Url
  pub parse_url : Str → Str ⊎ Url
  pub url_string : Url → Str
  pub multipart : List Part → Str × Str
  pub encode_form : Assoc Str → Str
  pub base_name : Str → Str
  pub marshal : Value → Str ⊎ Str

-- The first value of a header, or the empty text.
abbrev pub first_value : Option Str → Str
first_value none = []
first_value (some v) = v

module _ (web : Web) where
  -- Header.Get
  unfoldable pub header_get : Str → Assoc Str → Str
  header_get k h = first_value (get (web.canonical k) h)

  -- Header.Set
  unfoldable pub header_set : Str → Str → Assoc Str → Assoc Str
  header_set k v h = put (web.canonical k) v h

  -- `setHeaderinHTTPRequest`
  unfoldable pub set_header : Assoc Str → Assoc Str → Assoc Str
  unfolding header_set
  set_header [] h = h
  set_header ((k, v) ∷ m) h = set_header m (header_set k v h)

  module _ (src : Sources) (root : Str) where
    -- `addMultipartKV`
    part_of : Str → Str → Outcome Str Part
    part_of k [] = ok (form_field k [])
    part_of k (c ∷ v) =
        let path = get_file_path src.files root v in
        if starts_with (codes "@") (c ∷ v)
        then (do content ← src.files.read path; ok (form_file k (web.base_name path) content))
        else ok (form_field k (c ∷ v))

    parts_of : Assoc Str → Outcome Str (List Part)
    unfolding part_of
    parts_of [] = ok []
    parts_of ((k, v) ∷ m) = do part ← part_of k v; parts ← parts_of m; ok (part ∷ parts)

    marshalled : Str ⊎ Str → Outcome Str (Option Str × Str)
    marshalled (inl e) = err e
    marshalled (inr body) = ok (some body, codes "application/json; charset=utf-8")

    body_of : Document → Outcome Str (Option Str × Str)
    unfolding marshalled
    body_of (raw bytes) = ok (some bytes, [])
    body_of (json v) = marshalled (web.marshal v)

    form_body : Option (Assoc Str) → Outcome Str (Option Str × Str)
    form_body none = ok (none, [])
    form_body (some m) = ok (some (web.encode_form m), codes "application/x-www-form-urlencoded")

    other_body : Option (Assoc Str) → Option (Assoc Str) → Outcome Str (Option Str × Str)
    unfolding parts_of form_body
    other_body none form_data = form_body form_data
    other_body (some m) form_data = do
      parts ← parts_of m
      let (body, content_type) = web.multipart parts
      ok (some body, content_type)

    -- `Request.getBody`: the body, if any, and its content type.
    unfoldable pub get_body : Request → Outcome Str (Option Str × Str)
    unfolding body_of other_body
    get_body req =
        if is_nil req.body
        then other_body req.multipart req.form_data
        else get_document_field src root req.body >>= body_of

    -- `Request.toHTTPRequest`, with the URL and the headers of `Config.Base`.
    unfoldable pub to_http_request : Str → Assoc Str → Request → Outcome Str HttpRequest
    unfolding get_body set_header header_get
    to_http_request base_url base_header req = do
      (body, content_type) ← get_body req
      let method = if str_eq req.method [] then codes "GET" else req.method
      let path = if str_eq req.path [] then codes "/" else req.path
      let full = (if str_eq req.url [] then base_url else req.url) ++ path
      url ← elim (web.new_request method full) [ inl e ↦ err e | inr u ↦ ok u ]
      let h = set_header req.header (set_header base_header [])
      let typed =
          if str_eq content_type []
          then h
          else if str_eq (header_get (codes "Content-Type") h) []
          then header_set (codes "Content-Type") content_type h
          else h
      ok (record { method = method; url = url; header = typed; body = body })

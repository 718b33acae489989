-- ===== src/HttpExpect/Response.antt =====
-- The checks of a response: `checkResponse` and the methods of `response` in
-- testsuite/httpexpect/response.go.
pub mod Meets
pub mod Values
pub mod Passes
pub mod Saves
mod Tests
use aragorn.Prelude.{
  Str, str_eq, ℕ, ℤ, pos, negsuc, Bool, true, false, not, ◌&&◌, ◌==◌, Option, none, some, Outcome,
  ok, err, panic, ◌>>=◌, ◌⊎◌, inl, inr, List, [], ◌∷◌, ◌++◌, if◌then◌else◌, length, take, ltb,
  codes,
}
use aragorn.Prelude.Assoc.{Assoc, put}
use aragorn.Prelude.Decimal.{itoa}
use aragorn.Json.{Value, Fields, null, end, field, is_nil}
use aragorn.HttpExpect.Query.{query_json}

-- An expected document: bytes, or a decoded document; the null document is the nil interface, no
-- expectation.
pub data Document : Type 0 where
  raw : Str → Document
  json : Value → Document

-- The schema library, at one compiled schema: an error, or whether the document is valid and what is
-- wrong with it.
abbrev pub Schema : Type 0
Schema = Value → Str ⊎ (Bool × List Str)

-- What the type `test` of testsuite/httpexpect/httpexpect.go holds for the checks.
pub record Expect : Type 0 where
  pub id : Str
  pub save_doc : Bool
  pub status_code : ℤ
  pub header : Assoc Str
  pub document : Option Document
  pub json_schema : Option Schema
  pub json_values : Option Fields

-- An http.Response with its body; `header` is the Get of its headers.
pub record Answer : Type 0 where
  pub status_code : ℤ
  pub header : Str → Str
  pub body : Str

-- The messages that the checks log, by the arguments of their format.
pub data Failure : Type 0 where
  wrong_status : ℤ → ℤ → Str → Failure
  missing_header : Str → Failure
  wrong_header : Str → Str → Str → Failure
  no_match : Failure
  no_json : Str → Failure
  no_schema : Str → Failure
  not_valid : List Str → Failure
  no_value : Str → Str → Failure
  wrong_value : Str → Value → Value → Failure

-- json.Unmarshal of a body into an interface, and cmp.Equal of two decoded documents.
pub record Decoder : Type 0 where
  pub unmarshal : Str → Str ⊎ Value
  pub equal : Value → Value → Bool

-- The fields of `response` that its methods change, and what was logged.
pub record State : Type 0 where
  pub data_json : Value
  pub data_json_error : Bool
  pub logged : List Failure

abbrev pub start : State
start = record { data_json = null; data_json_error = false; logged = [] }

-- logger.Errorf
unfoldable pub log : Failure → State → State
log f s = record s { logged = s.logged ++ f ∷ [] }

abbrev max_error_body_size : ℕ
max_error_body_size = 512

-- The body that a message shows.
shown : Str → Str
shown body =
    if ltb max_error_body_size (length body)
    then take max_error_body_size body ++ (codes "... (" ++ (itoa (length body) ++ codes ")"))
    else body

-- `a == b`, `a >= 0`
unfoldable pub eq_ℤ : ℤ → ℤ → Bool
eq_ℤ (pos m) (pos n) = m == n
eq_ℤ (negsuc m) (negsuc n) = m == n
eq_ℤ (pos m) (negsuc n) = false
eq_ℤ (negsuc m) (pos n) = false

unfoldable pub is_natural : ℤ → Bool
is_natural (pos n) = true
is_natural (negsuc n) = false

check_entry : Str → Str → Str → State → State
unfolding log
check_entry k v val s =
    if str_eq val []
    then log (missing_header k) s
    else if str_eq val v
    then s
    else log (wrong_header k val v) s

module _ (d : Decoder) (answer : Answer) where
  -- `response.checkHeader`
  unfoldable pub check_header : Assoc Str → State → State
  unfolding check_entry
  check_header [] s = s
  check_header ((k, v) ∷ h) s = check_header h (check_entry k v (answer.header k) s)

  unmarshalled : Str ⊎ Value → State → Bool × State
  unfolding log
  unmarshalled (inl e) s = (false, log (no_json e) (record s { data_json_error = true }))
  unmarshalled (inr v) s = (true, record s { data_json = v })

  -- `response.unmarshalJSONBody`
  unfoldable pub unmarshal_json_body : State → Bool × State
  unfolding unmarshalled
  unmarshal_json_body s =
      if not (is_nil s.data_json)
      then (true, s)
      else if s.data_json_error
      then (false, s)
      else unmarshalled (d.unmarshal answer.body) s

  compare_document : Value → Bool × State → State
  unfolding log
  compare_document v (false, s) = s
  compare_document v (true, s) = if d.equal v s.data_json then s else log no_match s

  -- `response.matchDocument`
  unfoldable pub match_document : Document → State → State
  unfolding log unmarshal_json_body compare_document
  match_document (raw b) s = if str_eq answer.body b then s else log no_match s
  match_document (json v) s = compare_document v (unmarshal_json_body s)

  validated : Str ⊎ (Bool × List Str) → State → State
  unfolding log
  validated (inl e) s = log (no_schema e) s
  validated (inr (true, es)) s = s
  validated (inr (false, es)) s = log (not_valid es) s

  validate : Schema → Bool × State → State
  unfolding validated
  validate schema (false, s) = s
  validate schema (true, s) = validated (schema s.data_json) s

  -- `response.matchJSONSchema`
  unfoldable pub match_json_schema : Schema → State → State
  unfolding unmarshal_json_body validate
  match_json_schema schema s = validate schema (unmarshal_json_body s)

  compare_value : Str → Value → Outcome Str Value → State → Outcome Str State
  unfolding log
  compare_value query expected (ok val) s =
      if d.equal val expected then ok s else ok (log (wrong_value query val expected) s)
  compare_value query expected (err e) s = ok (log (no_value query e) s)
  compare_value query expected panic s = panic

  -- The loop of `response.containsJSONValues`.
  unfoldable pub compare_values : Fields → State → Outcome Str State
  unfolding compare_value
  compare_values end s = ok s
  compare_values (field query expected fs) s = do
    s' ← compare_value query expected (query_json query s.data_json) s
    compare_values fs s'

  compare_if : Fields → Bool × State → Outcome Str State
  unfolding compare_values
  compare_if fs (false, s) = ok s
  compare_if fs (true, s) = compare_values fs s

  -- `response.containsJSONValues`
  unfoldable pub contains_json_values : Fields → State → Outcome Str State
  unfolding unmarshal_json_body compare_if
  contains_json_values fs s = compare_if fs (unmarshal_json_body s)

  unfoldable pub check_document : Option Document → State → State
  unfolding match_document
  check_document none s = s
  check_document (some (raw b)) s = match_document (raw b) s
  check_document (some (json v)) s = if is_nil v then s else match_document (json v) s

  unfoldable pub check_schema : Option Schema → State → State
  unfolding match_json_schema
  check_schema none s = s
  check_schema (some schema) s = match_json_schema schema s

  unfoldable pub check_values : Option Fields → State → Outcome Str State
  unfolding contains_json_values
  check_values none s = ok s
  check_values (some fs) s = contains_json_values fs s

  put_document : Str → Assoc Value → Bool × State → State × Option (Assoc Value)
  put_document k m (false, s) = (s, some m)
  put_document k m (true, s) = (s, some (put k s.data_json m))

  -- The last part of `checkResponse`, on the metadata of the run, where there is any.
  unfoldable pub save : Expect → Option (Assoc Value) → State → State × Option (Assoc Value)
  unfolding unmarshal_json_body put_document
  save exp none s = (s, none)
  save exp (some m) s =
      if exp.save_doc then put_document exp.id m (unmarshal_json_body s) else (s, some m)

  -- `checkResponse`: what was logged, and the metadata that it leaves.
  unfoldable pub check_response :
      Expect → Option (Assoc Value) → Outcome Str (State × Option (Assoc Value))
  unfolding log eq_ℤ is_natural shown check_header check_document check_schema check_values save
  check_response exp md =
      if not (eq_ℤ answer.status_code exp.status_code) && is_natural exp.status_code
      then ok (log (wrong_status answer.status_code exp.status_code (shown answer.body)) start, md)
      else (do
        s ← check_values exp.json_values (
            check_schema exp.json_schema
              (check_document exp.document (check_header exp.header start)))
        ok (save exp md s))

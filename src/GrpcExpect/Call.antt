-- ===== src/GrpcExpect/Call.antt =====
-- The call of a gRPC test and the checks of what came back: `handler` and `test.Run` of
-- testsuite/grpcexpect/grpcexpect.go.
pub mod Requests
pub mod Passes
mod Tests
use aragorn.Prelude.{
  Str, str_eq, ℕ, suc, ◌+◌, leb, ◌==◌, Bool, true, false, not, Option, none, some, ◌⊎◌, inl, inr,
  List, [], ◌∷◌, ◌++◌, if◌then◌else◌, length, get_elem?,
}
use aragorn.Prelude.Assoc.{Assoc}

-- The messages that the checks log, by the arguments of their format.
pub data Failure : Type 0 where
  no_call : Str → Failure
  wrong_code : ℕ → ℕ → Str → Failure
  missing_header : Str → Failure
  wrong_header : Str → Str → Str → Failure
  wrong_number : ℕ → ℕ → Failure
  no_document : Str → Failure
  wrong_response : Failure

-- What `handler` holds for the requests.
pub record Handler : Type 0 where
  pub reqs : List Str
  pub cur_req : ℕ

-- `handler.getRequestData`; io.EOF is `none`. An index beyond the requests has been tested for.
unfoldable pub get_request_data : Handler → Option Str × Handler
get_request_data h =
    if leb (length h.reqs) h.cur_req
    then (none, h)
    else (get_elem? h.reqs h.cur_req, record h { cur_req = h.cur_req + 1 })

-- What `handler` has got when a call is over: the status, the metadata (`h.md[k]` of a missing key is
-- empty) and the responses, of a type `M` of messages.
pub record Answer (M : Type 0) : Type 0 where
  pub code : ℕ
  pub message : Str
  pub md : Str → List Str
  pub resps : List M

-- `expect`
pub record Expect : Type 0 where
  pub code : ℕ
  pub header : Assoc Str
  pub msgs : List Str

-- The message library: the decoding of an expected document as a message of the type of a response,
-- and the comparison of messages.
pub record Messages (M : Type 0) : Type 0 where
  pub decode_as : M → Str → Str ⊎ M
  pub equal : M → M → Bool

check_entry : Str → Str → List Str → List Failure
check_entry k want [] = missing_header k ∷ []
check_entry k want (got ∷ _) = if str_eq got want then [] else wrong_header k got want ∷ []

-- The loop of `test.Run` over the expected headers.
unfoldable pub check_headers : (Str → List Str) → Assoc Str → List Failure
unfolding check_entry
check_headers md [] = []
check_headers md ((k, want) ∷ header) = check_entry k want (md k) ++ check_headers md header

check_number : ℕ → ℕ → List Failure
check_number got want = if want == got then [] else wrong_number got want ∷ []

module _ {M : Type 0} (lib : Messages M) where
  compare_response : M → Str ⊎ M → List Failure
  compare_response got (inl e) = no_document e ∷ []
  compare_response got (inr want) = if lib.equal got want then [] else wrong_response ∷ []

  -- The loop of `test.Run` over the expected messages, which ends with the responses.
  unfoldable pub check_responses : List Str → List M → List Failure
  unfolding compare_response
  check_responses [] gots = []
  check_responses (want ∷ wants) [] = []
  check_responses (want ∷ wants) (got ∷ gots) =
      compare_response got (lib.decode_as got want) ++ check_responses wants gots

  -- `test.Run` after the call, as what it logs.
  unfoldable pub check_answer : Expect → Str ⊎ Answer M → List Failure
  unfolding check_headers check_number check_responses
  check_answer exp (inl e) = no_call e ∷ []
  check_answer exp (inr answer) =
      if answer.code == exp.code
      then check_headers answer.md exp.header
        ++ (check_number (length answer.resps) (length exp.msgs)
            ++ check_responses exp.msgs answer.resps)
      else wrong_code answer.code exp.code answer.message ∷ []

-- ===== src/GrpcExpect/Call/Tests.antt =====
-- Answers whose messages are texts, which decode as themselves unless they are empty.
use aragorn.Prelude.{Str, codes, str_eq, ◌≡◌, refl, inl, inr, [], ◌∷◌, if◌then◌else◌}
use aragorn.GrpcExpect.Call.{
  Answer, Expect, Messages, missing_header, wrong_number, wrong_response, check_headers,
  check_responses, check_answer,
}

abbrev texts : Messages Str
texts = record {
  decode_as = λ got want. if str_eq want [] then inl (codes "EOF") else inr want;
  equal = str_eq;
}

abbrev expect : Expect
expect = record {
  code = 0;
  header = (codes "k", codes "v") ∷ [];
  msgs = codes "one" ∷ codes "two" ∷ [];
}

abbrev answer : Answer Str
answer = record {
  code = 0;
  message = [];
  md = λ k. codes "v" ∷ codes "w" ∷ [];
  resps = codes "one" ∷ codes "two" ∷ [];
}

answer_passes : check_answer texts expect (inr answer) ≡ []
unfolding check_answer check_headers check_responses str_eq
answer_passes = refl

-- One response too few, and no header.
short_fails :
    check_answer texts expect (inr (record answer { md = λ k. []; resps = codes "no" ∷ [] }))
    ≡ missing_header (codes "k") ∷ wrong_number 1 2 ∷ wrong_response ∷ []
unfolding check_answer check_headers check_responses str_eq
short_fails = refl

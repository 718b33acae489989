-- ===== src/GrpcExpect/Interface/Passes.antt =====
-- When the run of a suite of gRPC tests reports no failure.
use aragorn.Prelude.{
  Str, ℤ, ◌≡◌, refl, sym, subst, ap, fun_ext, ◌∙◌, ◌↔◌, ◌⊎◌, inr, List, [], ◌∷◌, map, map-nil,
  get_elem?,
}
use aragorn.Testsuite.{Env, Test}
use aragorn.Server.Suite.{Suite, run}
use aragorn.Server.Suite.Run.{NeverDone}
use aragorn.Server.Suite.Attempts.{PassesIn, PassesIn-iff, IsQuiet}
use aragorn.Server.Suite.Passes.{repetitions, AllQuiet, run-AllQuiet}
use aragorn.GrpcExpect.Call.{Failure, Answer, check_answer}
use aragorn.GrpcExpect.Call.Requests.{get_request_data-after}
use aragorn.GrpcExpect.Call.Passes.{Meets, check_answer-Meets}
use aragorn.GrpcExpect.Generate.{GrpcTest}
use aragorn.GrpcExpect.Interface.{Channel, handler_of, request_at, run_grpc, grpc_test}

-- A call is given the messages of the test, in order.
request_at-msgs : (t : GrpcTest) → request_at t ≡ get_elem? t.msgs
unfolding request_at handler_of
request_at-msgs t = fun_ext (λ i. get_request_data-after i t.msgs)

module _ {W M : Type 0} (channel : Channel W M) where
  -- What a call with the messages of a test brings.
  abbrev pub called : GrpcTest → ℤ → W → (Str ⊎ Answer M) × W
  called t limit w = channel.invoke_rpc limit t.method_name t.headers (get_elem? t.msgs) w

  -- A call brings what its test expects.
  abbrev pub MeetsAt : ℤ → GrpcTest → W → Type 0
  MeetsAt limit t w =
      (answer : Answer M) × ((called t limit w).0 ≡ inr answer)
      × Meets channel.messages t.expect answer

  run_grpc-called :
      (t : GrpcTest) (limit : ℤ) (w : W)
      → run_grpc channel t limit w
        ≡ (check_answer channel.messages t.expect (called t limit w).0, (called t limit w).1)
  unfolding run_grpc
  run_grpc-called t limit w = rw (request_at-msgs t) refl

  module _ (say : Failure → Str) (e : Env W) (s : Suite W) where
    -- Each test has a call that brings what it expects among the attempts that it is given.
    abbrev pub AllMeet : List GrpcTest → W → Type 0
    AllMeet [] w = Unit
    AllMeet (t ∷ ts) w =
        (w' : W) × PassesIn e s (grpc_test channel say t) (MeetsAt s.timeout t) (repetitions e s) w
          w'
        × AllMeet ts w'

    IsQuiet-iff :
        (t : GrpcTest) (w : W) → IsQuiet e s (grpc_test channel say t) w ↔ MeetsAt s.timeout t w
    unfolding grpc_test
    IsQuiet-iff t w =
        let logged = map-nil say (run_grpc channel t s.timeout w).0 in
        let same = ap (λ r. r.0) (run_grpc-called t s.timeout w) in
        let meets = check_answer-Meets channel.messages t.expect (called t s.timeout w).0 in
        ((λ h. meets.0 (sym same ∙ logged.0 h)), λ h. logged.1 (same ∙ meets.1 h))

    AllQuiet-AllMeet :
        (ts : List GrpcTest) (w : W)
        → AllQuiet e s (map (grpc_test channel say) ts) w ↔ AllMeet ts w
    AllQuiet-AllMeet [] w = ((λ h. h), λ h. h)
    AllQuiet-AllMeet (t ∷ ts) w =
        let test = grpc_test channel say t in
        let same = IsQuiet-iff t in
        (
          (λ h.
              let (w', one, more) = h in
              (
                w',
                PassesIn-iff e s test (IsQuiet e s test) (MeetsAt s.timeout t) same
                    (repetitions e s) w w' one,
                (AllQuiet-AllMeet ts w').0 more,
              )),
          λ h.
              let (w', one, more) = h in
              (
                w',
                PassesIn-iff e s test (MeetsAt s.timeout t) (IsQuiet e s test)
                    (λ x. ((same x).1, (same x).0)) (repetitions e s) w w' one,
                (AllQuiet-AllMeet ts w').1 more,
              ),
        )

    -- Where the context is not cancelled, the run of a suite of gRPC tests reports no failure exactly
    -- when each test in order has, among the attempts that it is given, a call of its method with its
    -- headers and messages that brings the code, the headers and the messages that it expects.
    pub run-AllMeet :
        (ts : List GrpcTest) (w : W)
        → s.tests ≡ map (grpc_test channel say) ts
        → NeverDone e
        → ((run e s w).0.nb_failed ≡ 0) ↔ AllMeet ts (e.new_md w)
    run-AllMeet ts w tests never =
        let all = run-AllQuiet e s w never in
        let same = AllQuiet-AllMeet ts (e.new_md w) in
        let P : List (Test W) → Type 0 = λ ts'. AllQuiet e s ts' (e.new_md w) in
        ((λ h. same.0 (subst P tests (all.0 h))), λ h. all.1 (subst P (sym tests) (same.1 h)))

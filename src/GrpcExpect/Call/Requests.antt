-- ===== src/GrpcExpect/Call/Requests.antt =====
-- The requests that a call takes from the handler.
use aragorn.Prelude.{
  Str, ℕ, zero, suc, ◌≤◌, ◌<◌, leb, ◌≡◌, refl, sym, subst, ap, ◌∙◌, Option, ◌⊎◌, inl, List,
  if_intro, length, get_elem?, get_elem?-above, arith,
}
use aragorn.GrpcExpect.Call.{Handler, get_request_data}

-- The handler after a number of calls.
unfoldable pub after : ℕ → Handler → Handler
unfolding get_request_data
after zero h = h
after (suc i) h = (get_request_data (after i h)).1

reqs-after : (i : ℕ) (h : Handler) → (after i h).reqs ≡ h.reqs
unfolding after
reqs-after zero h = refl
reqs-after (suc i) h =
    let rest = reqs-after i h in
    if_intro (λ (r : Option Str × Handler). r.1.reqs ≡ h.reqs)
      (leb (length (after i h).reqs) (after i h).cur_req) _ _ (λ _. rest) (λ _. rest)

cur_req-after :
    (i : ℕ) (reqs : List Str)
    → let h = after i (record { reqs = reqs; cur_req = 0 }) in
      ((i ≤ length reqs) × (h.cur_req ≡ i)) ⊎ ((length reqs < i) × (h.cur_req ≡ length reqs))
unfolding after
cur_req-after zero reqs = inl (omega arith, refl)
cur_req-after (suc i) reqs =
    let rest = cur_req-after i reqs in
    let same = reqs-after i (record { reqs = reqs; cur_req = 0 }) in ground (arith, same)

-- Where a handler stands after `i` calls.
abbrev IsAt : ℕ → Handler → Type 0
IsAt i h =
    ((i ≤ length h.reqs) × (h.cur_req ≡ i)) ⊎ ((length h.reqs < i) × (h.cur_req ≡ length h.reqs))

taken : (i : ℕ) (h : Handler) → IsAt i h → (get_request_data h).0 ≡ get_elem? h.reqs i
unfolding get_request_data
taken i h at =
    if_intro (λ (r : Option Str × Handler). r.0 ≡ get_elem? h.reqs i)
      (leb (length h.reqs) h.cur_req) _ _
      (λ b.
        let above : length h.reqs ≤ i = ground (arith, at, b) in
        sym (get_elem?-above h.reqs i above))
      (λ b. let same : h.cur_req ≡ i = ground (arith, at, b) in ap (get_elem? h.reqs) same)

-- A call takes the messages of the request in order, and then the end of them, however often it asks.
pub get_request_data-after :
    (i : ℕ) (reqs : List Str)
    → (get_request_data (after i (record { reqs = reqs; cur_req = 0 }))).0 ≡ get_elem? reqs i
get_request_data-after i reqs =
    let h : Handler = after i (record { reqs = reqs; cur_req = 0 }) in
    let same = reqs-after i (record { reqs = reqs; cur_req = 0 }) in
    let at : IsAt i h =
      subst (λ x. ((i ≤ length x) × (h.cur_req ≡ i)) ⊎ ((length x < i) × (h.cur_req ≡ length x)))
        (sym same) (cur_req-after i reqs) in
    taken i h at ∙ ap (λ x. get_elem? x i) same

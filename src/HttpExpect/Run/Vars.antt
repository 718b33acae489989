-- ===== src/HttpExpect/Run/Vars.antt =====
-- The variables of an HTTP test, and the replacer that `test.Run` of
-- testsuite/httpexpect/httpexpect.go makes of them.
use aragorn.Prelude.{
  Str, starts_with, starts_with-append, ℕ, zero, suc, true, false, ◌≡◌, ◌≢◌, ◌∙◌, refl, sym, ap,
  subst, Option, none, some, Outcome, ok, err, panic, ◌>>=◌, >>=-eq-ok, ◌⊎◌, List, [], ◌∷◌, ◌++◌,
  All, get_elem?, Bool-cases, inl, inr, arith, length, take, length-append, ◌-◌, ltb,
}
use aragorn.Prelude.Assoc.{Assoc}
use aragorn.Json.{Value, obj}
use aragorn.HttpExpect.Query.{query_json}
use aragorn.HttpExpect.Replace.{first_match, replace, replace-miss, replace-free, Opens, IsFree}
use aragorn.HttpExpect.Run.{document_of, inner, pair_of, cons_some, old_new}

-- A name as `varsTmpl` matches it between braces has no brace.
abbrev pub IsName : Str → Type 0
IsName n = All (λ c. (c ≢ b'{') × (c ≢ b'}')) n

-- The variable of a name.
abbrev pub var : Str → Str
var n = b'{' ∷ b'{' ∷ (n ++ b'}' ∷ b'}' ∷ [])

abbrev pub IsVar : Str → Type 0
IsVar q = (n : Str) × (q ≡ var n) × IsName n

take-append : (a b : Str) → take (length a) (a ++ b) ≡ a
take-append [] b = refl
take-append (c ∷ a) b = ap (λ t. c ∷ t) (take-append a b)

-- The query of a variable is its name.
inner-var : (n : Str) → inner (var n) ≡ ok n
unfolding inner
inner-var n =
    let long : ltb (length (var n)) 4 ≡ false =
      ground (arith, length-append n (b'}' ∷ b'}' ∷ [])) in
    let kept : length (var n) - 4 ≡ length n = omega (arith, length-append n (b'}' ∷ b'}' ∷ [])) in
    rw (long, kept) (ap ok (take-append n (b'}' ∷ b'}' ∷ [])))

names_equal :
    (n k s : Str)
    → IsName n
    → IsName k
    → starts_with (n ++ b'}' ∷ b'}' ∷ []) ((k ++ b'}' ∷ b'}' ∷ []) ++ s) ≡ true
    → n ≡ k
unfolding starts_with
names_equal [] [] s hn hk h = refl
names_equal [] (c ∷ k) s hn ((_, other), hk) h = absurd (ground (arith, h, other))
names_equal (c ∷ n) [] s ((_, other), hn) hk h = absurd (ground (arith, h, other))
names_equal (c ∷ n) (d ∷ k) s (_, hn) (_, hk) h = ground (arith, h, names_equal n k s hn hk)

-- A variable that a text starts with is the only one.
var_unique : (n k s : Str) → IsName n → IsName k → starts_with (var n) (var k ++ s) ≡ true → n ≡ k
unfolding starts_with
var_unique n k s hn hk h = names_equal n k s hn hk h

-- Looking for the value of a variable does not make the program panic.
abbrev pub NoPanic : Assoc Value → Str → Type 0
NoPanic md q = (n : Str) → q ≡ var n → query_json n (obj (document_of md)) ≢ panic

-- A pair of the replacer whose old text is a variable.
abbrev pub IsVarPair : (Str × Str) → Type 0
IsVarPair (old, new) = (k : Str) × (old ≡ var k)

Opens-of_vars : (pairs : List (Str × Str)) → All IsVarPair pairs → All (Opens b'{') pairs
Opens-of_vars [] h = tt
Opens-of_vars ((old, new) ∷ pairs) ((k, e), h) = ((_, e), Opens-of_vars pairs h)

-- A variable starts with two braces.
first_match-one_brace :
    (pairs : List (Str × Str)) (c : ℕ) (s : Str)
    → All IsVarPair pairs
    → c ≢ b'{'
    → first_match pairs (b'{' ∷ c ∷ s) ≡ none
unfolding first_match starts_with
first_match-one_brace [] c s vars other = refl
first_match-one_brace ((old, new) ∷ pairs) c s ((k, e), vars) other =
    rw e (ground (arith, other, first_match-one_brace pairs c s vars other))

first_match-inside :
    (pairs : List (Str × Str)) (n s : Str)
    → All IsVarPair pairs
    → IsName n
    → first_match pairs (b'{' ∷ ((n ++ b'}' ∷ b'}' ∷ []) ++ s)) ≡ none
first_match-inside pairs [] s vars hn =
    first_match-one_brace pairs b'}' (b'}' ∷ s) vars (λ e. omega (arith, e))
first_match-inside pairs (c ∷ n) s vars ((other, _), hn) =
    first_match-one_brace pairs c ((n ++ b'}' ∷ b'}' ∷ []) ++ s) vars other

name-IsFree : (n : Str) → IsName n → IsFree b'{' (n ++ b'}' ∷ b'}' ∷ [])
name-IsFree [] h = ((λ e. omega (arith, e)), ((λ e. omega (arith, e)), tt))
name-IsFree (c ∷ n) ((other, _), h) = (other, name-IsFree n h)

-- A variable that no pair replaces stays as it is.
pub replace-var :
    (pairs : List (Str × Str)) (n s : Str)
    → All IsVarPair pairs
    → IsName n
    → first_match pairs (var n ++ s) ≡ none
    → replace pairs (var n ++ s) ≡ var n ++ replace pairs s
replace-var pairs n s vars hn missing =
    let inside = b'{' ∷ ((n ++ b'}' ∷ b'}' ∷ []) ++ s) in
    replace-miss pairs b'{' inside missing
    ∙ ap (λ t. b'{' ∷ t)
        (replace-miss pairs b'{' ((n ++ b'}' ∷ b'}' ∷ []) ++ s)
            (first_match-inside pairs n s vars hn)
          ∙ ap (λ t. b'{' ∷ t)
              (replace-free b'{' pairs (n ++ b'}' ∷ b'}' ∷ []) s (Opens-of_vars pairs vars)
                (name-IsFree n hn)))

module _ (text : Value → Str) (md : Assoc Value) where
  -- What the value of a variable, or its absence, makes of the pairs of the other variables.
  abbrev Extends : Str → List (Str × Str) → List (Str × Str) → Type 0
  Extends n more pairs =
      ((v : Value) × (query_json n (obj (document_of md)) ≡ ok v)
        × ((var n, text v) ∷ more ≡ pairs))
      ⊎ ((e : Str) × (query_json n (obj (document_of md)) ≡ err e) × (more ≡ pairs))

  extends :
      (n : Str) (o : Outcome Str Value) (pair : Option (Str × Str)) (more pairs : List (Str × Str))
      → query_json n (obj (document_of md)) ≡ o
      → pair_of text (var n) o ≡ ok pair
      → cons_some pair more ≡ pairs
      → Extends n more pairs
  unfolding pair_of cons_some
  extends n (ok v) none more pairs e f h = cc
  extends n (ok v) (some p) more pairs e f h =
      let same : p ≡ (var n, text v) = cc f in inl (v, e, cc (same, h))
  extends n (err msg) none more pairs e f h = inr (msg, e, h)
  extends n (err msg) (some p) more pairs e f h = cc
  extends n panic pair more pairs e f h = cc

  old_new-cons :
      (n : Str) (qs : List Str) (pairs : List (Str × Str))
      → old_new text md (var n ∷ qs) ≡ ok pairs
      → (more : List (Str × Str)) × (old_new text md qs ≡ ok more) × Extends n more pairs
  unfolding old_new
  old_new-cons n qs pairs h =
      let (k, cut, h1) = >>=-eq-ok _ _ h in
      let (pair, found, h2) = >>=-eq-ok _ _ h1 in
      let (more, rest, h3) = >>=-eq-ok _ _ h2 in
      let name : k ≡ n = cc (cut, inner-var n) in
      let query =
        subst (λ x. pair_of text (var n) (query_json x (obj (document_of md))) ≡ ok pair) name
          found in
      (
        more,
        rest,
        extends n (query_json n (obj (document_of md))) pair more pairs refl query (cc h3),
      )

  -- The old texts of the replacer are variables.
  pub old_new-IsVarPair :
      (qs : List Str) (pairs : List (Str × Str))
      → All IsVar qs
      → old_new text md qs ≡ ok pairs
      → All IsVarPair pairs
  unfolding old_new
  old_new-IsVarPair [] pairs vars h =
      let none_left : [] ≡ pairs = cc h in subst (All IsVarPair) none_left tt
  old_new-IsVarPair (q ∷ qs) pairs ((n, same, is_name), vars) h =
      let list : old_new text md (var n ∷ qs) ≡ ok pairs =
        subst (λ x. old_new text md (x ∷ qs) ≡ ok pairs) same h in
      let (more, rest, e) = old_new-cons n qs pairs list in
      let all = old_new-IsVarPair qs more vars rest in
      elim e [
        | inl (v, found, list') ↦ subst (All IsVarPair) list' ((n, refl), all)
        | inr (msg, missing, list') ↦ subst (All IsVarPair) list' all
      ]

  pub old_new-Opens :
      (qs : List Str) (pairs : List (Str × Str))
      → All IsVar qs
      → old_new text md qs ≡ ok pairs
      → All (Opens b'{') pairs
  old_new-Opens qs pairs vars h = Opens-of_vars pairs (old_new-IsVarPair qs pairs vars h)

  -- Where a variable stands whose value is not found no pair applies.
  pub old_new-first_match-none :
      (qs : List Str) (pairs : List (Str × Str)) (n s e : Str)
      → All IsVar qs
      → IsName n
      → query_json n (obj (document_of md)) ≡ err e
      → old_new text md qs ≡ ok pairs
      → first_match pairs (var n ++ s) ≡ none
  unfolding old_new first_match
  old_new-first_match-none [] pairs n s e vars hn missing h =
      let none_left : [] ≡ pairs = cc h in
      subst (λ p. first_match p (var n ++ s) ≡ none) none_left refl
  old_new-first_match-none (q ∷ qs) pairs n s e ((k, same, hk), vars) hn missing h =
      let list : old_new text md (var k ∷ qs) ≡ ok pairs =
        subst (λ x. old_new text md (x ∷ qs) ≡ ok pairs) same h in
      let (more, rest, x) = old_new-cons k qs pairs list in
      let later = old_new-first_match-none qs more n s e vars hn missing rest in
      elim x [
        | inl (w, found, list') ↦
            subst (λ p. first_match p (var n ++ s) ≡ none) list'
              (elim (Bool-cases (starts_with (var k) (var n ++ s))) [
                | inl hit ↦
                    let name : k ≡ n = var_unique k n s hk hn hit in cc (name, found, missing)
                | inr miss ↦ rw miss later
              ])
        | inr (msg, other, list') ↦ subst (λ p. first_match p (var n ++ s) ≡ none) list' later
      ]

  -- The pair of a variable applies where the variable stands, unless that was another one's.
  first_match-pair :
      (n k s : Str) (v w : Value) (more : List (Str × Str))
      → IsName n
      → IsName k
      → query_json n (obj (document_of md)) ≡ ok v
      → query_json k (obj (document_of md)) ≡ ok w
      → (starts_with (var k) (var n ++ s) ≡ false
          → first_match more (var n ++ s) ≡ some (var n, text v))
      → first_match ((var k, text w) ∷ more) (var n ++ s) ≡ some (var n, text v)
  unfolding first_match
  first_match-pair n k s v w more hn hk found other rest =
      elim (Bool-cases (starts_with (var k) (var n ++ s))) [
        | inl hit ↦
            let name : k ≡ n = var_unique k n s hk hn hit in
            let value : w ≡ v = cc (name, found, other) in rw hit (cc (name, value))
        | inr miss ↦ rw miss (rest miss)
      ]

  here_or_later :
      (q n : Str) (qs : List Str) (i : ℕ)
      → get_elem? (q ∷ qs) i ≡ some (var n)
      → (q ≡ var n) ⊎ ((j : ℕ) × (get_elem? qs j ≡ some (var n)))
  here_or_later q n qs zero h = inl (cc h)
  here_or_later q n qs (suc i) h = inr (i, h)

  -- A variable whose value is found is replaced by it.
  pub old_new-first_match :
      (qs : List Str) (pairs : List (Str × Str)) (i : ℕ) (n s : Str) (v : Value)
      → All IsVar qs
      → IsName n
      → get_elem? qs i ≡ some (var n)
      → query_json n (obj (document_of md)) ≡ ok v
      → old_new text md qs ≡ ok pairs
      → first_match pairs (var n ++ s) ≡ some (var n, text v)
  old_new-first_match [] pairs i n s v vars hn at found h = cc
  old_new-first_match (q ∷ qs) pairs i n s v ((k, same, hk), vars) hn at found h =
      let list : old_new text md (var k ∷ qs) ≡ ok pairs =
        subst (λ x. old_new text md (x ∷ qs) ≡ ok pairs) same h in
      let (more, rest, e) = old_new-cons k qs pairs list in
      let later : (j : ℕ)
          → get_elem? qs j ≡ some (var n)
          → first_match more (var n ++ s) ≡ some (var n, text v) =
        λ j there. old_new-first_match qs more j n s v vars hn there found rest in
      elim (here_or_later q n qs i at) [
        | inl here ↦
            let starts : starts_with (var k) (var n ++ s) ≡ true =
              subst (λ x. starts_with x (var n ++ s) ≡ true) (sym here ∙ same)
                (starts_with-append (var n) s) in
            let name : k ≡ n = var_unique k n s hk hn starts in
            elim e [
              | inl (w, other, list') ↦
                  subst (λ p. first_match p (var n ++ s) ≡ some (var n, text v)) list'
                    (first_match-pair n k s v w more hn hk found other (λ miss. cc (miss, starts)))
              | inr (msg, other, list') ↦ cc (name, found, other)
            ]
        | inr (j, there) ↦ elim e [
          | inl (w, other, list') ↦
              subst (λ p. first_match p (var n ++ s) ≡ some (var n, text v)) list'
                (first_match-pair n k s v w more hn hk found other (λ miss. later j there))
          | inr (msg, other, list') ↦
              subst (λ p. first_match p (var n ++ s) ≡ some (var n, text v)) list' (later j there)
        ]
      ]

  pair_of-ok :
      (q : Str) (o : Outcome Str Value)
      → o ≢ panic
      → (pair : Option (Str × Str)) × (pair_of text q o ≡ ok pair)
  unfolding pair_of
  pair_of-ok q (ok v) h = (some (q, text v), refl)
  pair_of-ok q (err e) h = (none, refl)
  pair_of-ok q panic h = absurd (h refl)

  pub old_new-ok :
      (qs : List Str)
      → All IsVar qs
      → All (NoPanic md) qs
      → (pairs : List (Str × Str)) × (old_new text md qs ≡ ok pairs)
  unfolding old_new ◌>>=◌
  old_new-ok [] vars safe = ([], refl)
  old_new-ok (q ∷ qs) ((n, same, hn), vars) (no_panic, safe) =
      let (pair, one) = pair_of-ok q (query_json n (obj (document_of md))) (no_panic n same) in
      let (pairs, more) = old_new-ok qs vars safe in
      let cut : inner q ≡ ok n = ap inner same ∙ inner-var n in
      (cons_some pair pairs, rw (cut, one, more) refl)

-- A variable has one name.
pub var_name : (n k : Str) → var n ≡ var k → n ≡ k
var_name n k h =
    let cut : inner (var n) ≡ inner (var k) = ap inner h in cc (cut, inner-var n, inner-var k)

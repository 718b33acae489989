-- ===== src/HttpExpect/Replace.antt =====
-- strings.NewReplacer and its Replace, which testsuite/httpexpect/httpexpect.go uses, for old texts
-- that are not empty.
use aragorn.Prelude.{
  Str, starts_with, ℕ, zero, suc, ◌≡◌, ◌≢◌, refl, ap, Option, none, some, List, [], ◌∷◌, ◌++◌,
  length, All, if◌then◌else◌, arith,
}

-- The pair of an old and a new text that applies at the start of a text: pairs are compared in order.
unfoldable pub first_match : List (Str × Str) → Str → Option (Str × Str)
first_match [] s = none
first_match ((old, new) ∷ pairs) s =
    if starts_with old s then some (old, new) else first_match pairs s

-- How many bytes follow the first one.
length_rest : Str → ℕ
length_rest [] = 0
length_rest (c ∷ s) = length s

-- One byte, or the new text; `rest` continues after a number of bytes that are replaced.
emit : ℕ → Option (Str × Str) → (ℕ → Str) → Str
unfolding length_rest
emit c none rest = c ∷ rest 0
emit c (some (old, new)) rest = new ++ rest (length_rest old)

replace_from : List (Str × Str) → Str → ℕ → Str
unfolding first_match emit
replace_from pairs [] skip = []
replace_from pairs (c ∷ s) (suc skip) = replace_from pairs s skip
replace_from pairs (c ∷ s) zero =
    let rest = replace_from pairs s in emit c (first_match pairs (c ∷ s)) rest

-- strings.NewReplacer(pairs...).Replace(s)
unfoldable pub replace : List (Str × Str) → Str → Str
unfolding replace_from
replace pairs s = replace_from pairs s 0

replace_from-skip :
    (pairs : List (Str × Str)) (a s : Str)
    → replace_from pairs (a ++ s) (length a) ≡ replace_from pairs s 0
unfolding replace_from
replace_from-skip pairs [] s = refl
replace_from-skip pairs (c ∷ a) s = replace_from-skip pairs a s

-- Where a pair applies, its new text comes before what the rest becomes.
pub replace-hit :
    (pairs : List (Str × Str)) (c : ℕ) (old new s : Str)
    → first_match pairs ((c ∷ old) ++ s) ≡ some (c ∷ old, new)
    → replace pairs ((c ∷ old) ++ s) ≡ new ++ replace pairs s
unfolding replace replace_from emit length_rest
replace-hit pairs c old new s h = rw h (ap (λ t. new ++ t) (replace_from-skip pairs old s))

-- Where no pair applies, a byte stays as it is.
pub replace-miss :
    (pairs : List (Str × Str)) (c : ℕ) (s : Str)
    → first_match pairs (c ∷ s) ≡ none
    → replace pairs (c ∷ s) ≡ c ∷ replace pairs s
unfolding replace replace_from emit
replace-miss pairs c s h = rw h refl

-- The old texts start with one byte.
abbrev pub Opens : ℕ → (Str × Str) → Type 0
Opens c (old, new) = (t : Str) × (old ≡ c ∷ t)

-- A text without that byte.
abbrev pub IsFree : ℕ → Str → Type 0
IsFree c = All (λ b. b ≢ c)

first_match-other :
    (c b : ℕ) (pairs : List (Str × Str)) (s : Str)
    → All (Opens c) pairs
    → b ≢ c
    → first_match pairs (b ∷ s) ≡ none
unfolding first_match starts_with
first_match-other c b [] s opens other = refl
first_match-other c b ((old, new) ∷ pairs) s ((t, e), opens) other =
    rw e (ground (arith, other, first_match-other c b pairs s opens other))

-- A text without the byte with which all old texts start stays as it is.
pub replace-free :
    (c : ℕ) (pairs : List (Str × Str)) (before s : Str)
    → All (Opens c) pairs
    → IsFree c before
    → replace pairs (before ++ s) ≡ before ++ replace pairs s
unfolding replace replace_from emit
replace-free c pairs [] s opens free = refl
replace-free c pairs (b ∷ before) s opens (other, free) =
    rw (first_match-other c b pairs (before ++ s) opens other)
      (ap (λ t. b ∷ t) (replace-free c pairs before s opens free))

pub replace-nil : (pairs : List (Str × Str)) → replace pairs [] ≡ []
unfolding replace replace_from
replace-nil pairs = refl

replace_runs :
    replace ((b'a' ∷ [], b'x' ∷ b'y' ∷ []) ∷ (b'a' ∷ b'b' ∷ [], []) ∷ []) (b'c' ∷ b'a' ∷ b'b' ∷ [])
    ≡ b'c' ∷ b'x' ∷ b'y' ∷ b'b' ∷ []
unfolding replace replace_from first_match emit starts_with
replace_runs = refl

-- ===== src/Prelude/ParseInt.antt =====
-- strconv.ParseInt to base 10 on 64 bits, and what it reads of the decimal numeral of a number.
use Prim.Native.Nat.{ℕ, zero, suc, ◌+◌, ◌-◌, ◌*◌, ◌/◌, ◌%◌, ◌≤◌, ◌<◌}
use mathlib.Core.Path.{◌≡◌, refl, ap, subst, ◌∙◌, sym}
use mathlib.Core.Bool.{true, false, ◌&&◌}
use mathlib.Core.List.{[], ◌∷◌}
use mathlib.Core.Logic.{inl, inr}
use mathlib.Core.Option.{Option, none, some}
use native.Mathlib.Omega.{arith}
use aragorn.Prelude.Tests.{leb, ltb, ◌==◌, if◌then◌else◌, if_intro, Bool-cases}
use aragorn.Prelude.Int.{ℤ, pos, negsuc}
use aragorn.Prelude.Text.{Str}
use aragorn.Prelude.Decimal.{itoa, itoa_loop}

-- ErrSyntax and ErrRange
pub data NumError : Type 0 where
  syntax range : NumError

pub data Unsigned : Type 0 where
  value : ℕ → Unsigned
  bad : NumError → Unsigned

abbrev pub max_uint64 : ℕ
max_uint64 = 18446744073709551615

abbrev pub max_int64 : ℕ
max_int64 = 9223372036854775807

-- The loop of strconv.ParseUint: a number that leaves the range ends it, whatever follows.
unfoldable pub digits_uint64 : Str → ℕ → Unsigned
digits_uint64 [] n = value n
digits_uint64 (c ∷ s) n =
    let n1 = n * 10 + (c - 48) in
    let rest = digits_uint64 s n1 in
    if leb 48 c && leb c 57 then (if leb n1 max_uint64 then rest else bad range) else bad syntax

unfoldable pub parse_uint : Str → Unsigned
unfolding digits_uint64
parse_uint [] = bad syntax
parse_uint (c ∷ s) = digits_uint64 (c ∷ s) 0

-- The result of ParseInt by that of ParseUint, for a numeral without a minus and for one with it: a
-- number out of range is the nearest one with an error.
unfoldable pub positive_int : Unsigned → ℤ × Option NumError
positive_int (value n) = if leb n max_int64 then (pos n, none) else (pos max_int64, some range)
positive_int (bad syntax) = (pos 0, some syntax)
positive_int (bad range) = (pos max_int64, some range)

unfoldable pub negative_int : Unsigned → ℤ × Option NumError
negative_int (value zero) = (pos 0, none)
negative_int (value (suc n)) =
    if leb n max_int64 then (negsuc n, none) else (negsuc max_int64, some range)
negative_int (bad syntax) = (pos 0, some syntax)
negative_int (bad range) = (negsuc max_int64, some range)

-- strconv.ParseInt(s, 10, 64)
unfoldable pub parse_int : Str → ℤ × Option NumError
unfolding parse_uint positive_int negative_int
parse_int [] = (pos 0, some syntax)
parse_int (c ∷ s) =
    if c == b'-'
    then negative_int (parse_uint s)
    else if c == b'+'
    then positive_int (parse_uint s)
    else positive_int (parse_uint (c ∷ s))

-- One digit.
digit_in_range :
    (d n : ℕ) (out : Str)
    → d < 10
    → n * 10 + d ≤ max_uint64
    → digits_uint64 ((48 + d) ∷ out) n ≡ digits_uint64 out (n * 10 + d)
unfolding digits_uint64
digit_in_range d n out h m =
    let digit : (leb 48 (48 + d) && leb (48 + d) 57) ≡ true = ground arith in
    let same : 48 + d - 48 ≡ d = omega arith in
    let fits : leb (n * 10 + d) max_uint64 ≡ true = ground arith in rw (digit, same, fits) refl

digit_out_of_range :
    (d n : ℕ) (out : Str)
    → d < 10
    → max_uint64 < n * 10 + d
    → digits_uint64 ((48 + d) ∷ out) n ≡ bad range
unfolding digits_uint64
digit_out_of_range d n out h m =
    let digit : (leb 48 (48 + d) && leb (48 + d) 57) ≡ true = ground arith in
    let same : 48 + d - 48 ≡ d = omega arith in
    let fits : leb (n * 10 + d) max_uint64 ≡ false = ground arith in rw (digit, same, fits) refl

-- What holds of the loop of a numeral, by its last digit.
itoa_loop_cases :
    (P : Str → Type 0) (f n : ℕ) (out : Str)
    → (n < 10 → P ((48 + n % 10) ∷ out))
    → (10 ≤ n → P (itoa_loop f (n / 10) ((48 + n % 10) ∷ out)))
    → P (itoa_loop (suc f) n out)
unfolding itoa_loop
itoa_loop_cases P f n out small large =
    if_intro P (ltb n 10) _ _ (λ h. small (ground (arith, h))) (λ h. large (ground (arith, h)))

-- The loop of a numeral, before some text, reads as the number before that text.
digits_uint64-itoa_loop :
    (f n : ℕ) (out : Str)
    → n < f
    → n ≤ max_uint64
    → digits_uint64 (itoa_loop f n out) 0 ≡ digits_uint64 out n
digits_uint64-itoa_loop zero n out h m = absurd (omega arith)
digits_uint64-itoa_loop (suc f) n out h m =
    itoa_loop_cases (λ s. digits_uint64 s 0 ≡ digits_uint64 out n) f n out
      (λ small.
        digit_in_range (n % 10) 0 out (omega arith) (omega arith)
        ∙ ap (digits_uint64 out) (omega arith))
      (λ large.
        digits_uint64-itoa_loop f (n / 10) ((48 + n % 10) ∷ out) (omega arith) (omega arith)
        ∙ (digit_in_range (n % 10) (n / 10) out (omega arith) (omega arith)
            ∙ ap (digits_uint64 out) (omega arith)))

-- A numeral of a number above the range is out of range.
digits_uint64-itoa_loop-above :
    (f n : ℕ) (out : Str) → n < f → max_uint64 < n → digits_uint64 (itoa_loop f n out) 0 ≡ bad range
digits_uint64-itoa_loop-above zero n out h m = absurd (omega arith)
digits_uint64-itoa_loop-above (suc f) n out h m =
    itoa_loop_cases (λ s. digits_uint64 s 0 ≡ bad range) f n out (λ small. absurd (omega arith))
      (λ large. elim (Bool-cases (leb (n / 10) max_uint64)) [
        | inl fits ↦
            digits_uint64-itoa_loop f (n / 10) ((48 + n % 10) ∷ out) (omega arith)
              (ground (arith, fits))
            ∙ digit_out_of_range (n % 10) (n / 10) out (omega arith) (omega arith)
        | inr above ↦
            digits_uint64-itoa_loop-above f (n / 10) ((48 + n % 10) ∷ out) (omega arith)
              (ground (arith, above))
      ])

-- A numeral starts with a digit.
abbrev StartsWithDigit : Str → Type 0
StartsWithDigit [] = ⊥
StartsWithDigit (c ∷ s) = (48 ≤ c) × (c ≤ 57)

itoa_loop-StartsWithDigit : (f n : ℕ) (out : Str) → n < f → StartsWithDigit (itoa_loop f n out)
itoa_loop-StartsWithDigit zero n out h = absurd (omega arith)
itoa_loop-StartsWithDigit (suc f) n out h =
    itoa_loop_cases StartsWithDigit f n out (λ small. (omega arith, omega arith))
      (λ large. itoa_loop-StartsWithDigit f (n / 10) ((48 + n % 10) ∷ out) (omega arith))

parse_uint-digits : (s : Str) → StartsWithDigit s → parse_uint s ≡ digits_uint64 s 0
unfolding parse_uint
parse_uint-digits [] h = absurd h
parse_uint-digits (c ∷ s) h = refl

-- A numeral without a sign.
parse_int-digits : (s : Str) → StartsWithDigit s → parse_int s ≡ positive_int (digits_uint64 s 0)
unfolding parse_int parse_uint
parse_int-digits [] h = absurd h
parse_int-digits (c ∷ s) (low, high) =
    let minus : (c == b'-') ≡ false = ground arith in
    let plus : (c == b'+') ≡ false = ground arith in rw (minus, plus) refl

-- What `%d` prints of an integer.
abbrev pub decimal : ℤ → Str
decimal (pos n) = itoa n
decimal (negsuc n) = b'-' ∷ itoa (suc n)

-- The integer of 64 bits that is nearest.
abbrev pub clamp : ℤ → ℤ
clamp (pos n) = if leb n max_int64 then pos n else pos max_int64
clamp (negsuc n) = if leb n max_int64 then negsuc n else negsuc max_int64

-- The error for an integer that has more than 64 bits.
abbrev pub range_error : ℤ → Option NumError
range_error (pos n) = if leb n max_int64 then none else some range
range_error (negsuc n) = if leb n max_int64 then none else some range

-- The numeral of a number of any size reads as that number, or as out of range.
itoa-cases :
    (n : ℕ) (P : Unsigned → Type 0)
    → (n ≤ max_uint64 → P (value n))
    → (max_uint64 < n → P (bad range))
    → P (digits_uint64 (itoa n) 0)
unfolding itoa digits_uint64
itoa-cases n P small large = elim (Bool-cases (leb n max_uint64)) [
  | inl h ↦
      subst P (sym (digits_uint64-itoa_loop (suc n) n [] (omega arith) (ground (arith, h))))
        (small (ground (arith, h)))
  | inr h ↦
      subst P (sym (digits_uint64-itoa_loop-above (suc n) n [] (omega arith) (ground (arith, h))))
        (large (ground (arith, h)))
]

itoa-StartsWithDigit : (n : ℕ) → StartsWithDigit (itoa n)
unfolding itoa
itoa-StartsWithDigit n = itoa_loop-StartsWithDigit (suc n) n [] (omega arith)

-- The decimal numeral of an integer reads as that integer where it has 64 bits, and else as the
-- nearest integer that has, with an error.
pub parse_int-decimal : (z : ℤ) → parse_int (decimal z) ≡ (clamp z, range_error z)
unfolding parse_int positive_int negative_int
parse_int-decimal (pos n) =
    parse_int-digits (itoa n) (itoa-StartsWithDigit n)
    ∙ itoa-cases n (λ u. positive_int u ≡ (clamp (pos n), range_error (pos n)))
        (λ h. elim (Bool-cases (leb n max_int64)) [ inl e ↦ rw e refl | inr e ↦ rw e refl ])
        (λ h. let e : leb n max_int64 ≡ false = ground arith in rw e refl)
parse_int-decimal (negsuc n) =
    ap negative_int (parse_uint-digits (itoa (suc n)) (itoa-StartsWithDigit (suc n)))
    ∙ itoa-cases (suc n) (λ u. negative_int u ≡ (clamp (negsuc n), range_error (negsuc n)))
        (λ h. elim (Bool-cases (leb n max_int64)) [ inl e ↦ rw e refl | inr e ↦ rw e refl ])
        (λ h. let e : leb n max_int64 ≡ false = ground arith in rw e refl)

digit_not_quote :
    (s : Str) → StartsWithDigit s → (c : ℕ) × (t : Str) × (s ≡ c ∷ t) × ((c == b'"') ≡ false)
digit_not_quote [] h = absurd h
digit_not_quote (c ∷ s) (low, high) = (c, s, refl, ground arith)

-- A numeral has a first byte, which is no quote.
pub decimal-first : (z : ℤ) → (c : ℕ) × (t : Str) × (decimal z ≡ c ∷ t) × ((c == b'"') ≡ false)
decimal-first (pos n) = digit_not_quote (itoa n) (itoa-StartsWithDigit n)
decimal-first (negsuc n) = (b'-', itoa (suc n), refl, refl)

-- ===== src/Prelude/Decimal.antt =====
-- Decimal numerals: what `%d` prints of a number that is not negative, and strconv.Atoi.
use Prim.Native.Nat.{ℕ, zero, suc, ◌+◌, ◌-◌, ◌*◌, ◌/◌, ◌%◌}
use mathlib.Core.Path.{◌≡◌, refl}
use mathlib.Core.Bool.{◌&&◌}
use mathlib.Core.List.{[], ◌∷◌}
use mathlib.Core.Option.{Option, none, some}
use aragorn.Prelude.Tests.{leb, ltb, ◌==◌, if◌then◌else◌}
use aragorn.Prelude.Int.{ℤ, pos, negsuc}
use aragorn.Prelude.Text.{Str, codes}

-- One round for each digit; `n + 1` rounds are more than the digits of `n`.
unfoldable pub itoa_loop : ℕ → ℕ → Str → Str
itoa_loop zero n out = out
itoa_loop (suc f) n out =
    let digit = 48 + n % 10 in
    let rest = itoa_loop f (n / 10) (digit ∷ out) in if ltb n 10 then digit ∷ out else rest

unfoldable pub itoa : ℕ → Str
unfolding itoa_loop
itoa n = itoa_loop (suc n) n []

digits : Str → ℕ → Option ℕ
digits [] n = some n
digits (c ∷ s) n = if leb 48 c && leb c 57 then digits s (n * 10 + (c - 48)) else none

abbrev max_int : ℕ
max_int = 9223372036854775807

in_range : Option ℕ → Option ℤ
in_range none = none
in_range (some n) = if leb n max_int then some (pos n) else none

-- -n, down to the least int.
negated : Option ℕ → Option ℤ
negated none = none
negated (some zero) = some (pos 0)
negated (some (suc n)) = if leb n max_int then some (negsuc n) else none

unsigned : Str → Option ℕ
unfolding digits
unsigned [] = none
unsigned (c ∷ s) = digits (c ∷ s) 0

-- strconv.Atoi on 64-bit ints: an optional sign, then one digit at least.
unfoldable pub atoi : Str → Option ℤ
unfolding unsigned in_range negated
atoi [] = none
atoi (c ∷ s) =
    if c == b'-'
    then negated (unsigned s)
    else if c == b'+'
    then in_range (unsigned s)
    else in_range (unsigned (c ∷ s))

itoa_runs : itoa 1207 ≡ codes "1207"
unfolding itoa
itoa_runs = refl

atoi_runs : (atoi (codes "-12") ≡ some (negsuc 11)) × (atoi (codes "1x") ≡ none)
unfolding atoi
atoi_runs = (refl, refl)

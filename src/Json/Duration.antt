-- ===== src/Json/Duration.antt =====
-- pkg/util/json/duration.go: durations in JSON.
mod Tests
use aragorn.Prelude.{
  Str, codes, str_eq, ℕ, ◌==◌, ◌&&◌, ℤ, pos, negsuc, ◌≡◌, ◌≢◌, ◌∙◌, refl, ap, subst, Option, none,
  some, Bool, true, false, List, [], ◌∷◌, ◌++◌, is_empty, not, if◌then◌else◌, inl, inr, Bool-cases,
  arith,
}
use aragorn.Prelude.ParseInt.{
  NumError, parse_int, parse_int-decimal, decimal-first, decimal, clamp, range_error,
}

-- Why a duration is refused: time.ParseDuration says so, or strconv.ParseInt does.
pub data DurationError : Type 0 where
  no_duration : Str → DurationError
  no_int : NumError → DurationError

-- All bytes but the last one, and the last one.
unfoldable pub split_last : Str → Option (Str × ℕ)
split_last [] = none
split_last (c ∷ s) = elim (split_last s) [
  | none ↦ some ([], c)
  | some (before, last) ↦ some (c ∷ before, last)
]

-- `b[1 : len(b)-1]`, where the tests before it hold.
inside_quotes : Option (Str × ℕ) → Option Str
inside_quotes none = none
inside_quotes (some (inside, last)) =
    if last == b'"' && not (is_empty inside) then some inside else none

unfoldable pub unquoted : Str → Option Str
unfolding inside_quotes split_last
unquoted [] = none
unquoted (c ∷ s) = if c == b'"' then inside_quotes (split_last s) else none

of_duration : ℤ × Option Str → ℤ × Option DurationError
of_duration (d, none) = (d, none)
of_duration (d, some e) = (d, some (no_duration e))

of_int : ℤ × Option NumError → ℤ × Option DurationError
of_int (d, none) = (d, none)
of_int (d, some e) = (d, some (no_int e))

module _ (parse_duration : Str → ℤ × Option Str) where
  read_bytes : Option Str → Str → ℤ × Option DurationError
  unfolding of_duration of_int
  read_bytes (some sd) b = of_duration (parse_duration sd)
  read_bytes none b = of_int (parse_int b)

  -- `Duration.UnmarshalJSON`: the duration that it sets, and its error. `parse_duration` is
  -- time.ParseDuration.
  unfoldable pub unmarshal_duration : Str → ℤ × Option DurationError
  unfolding unquoted read_bytes
  unmarshal_duration b = read_bytes (unquoted b) b

  -- The error of a number that has more than 64 bits.
  abbrev pub int_error : Option NumError → Option DurationError
  int_error none = none
  int_error (some e) = some (no_int e)

  of_int-error : (z : ℤ) (e : Option NumError) → of_int (z, e) ≡ (z, int_error e)
  unfolding of_int
  of_int-error z none = refl
  of_int-error z (some e) = refl

  unquoted-decimal : (z : ℤ) → unquoted (decimal z) ≡ none
  unfolding unquoted
  unquoted-decimal z = let (c, s, is, other) = decimal-first z in ap unquoted is ∙ rw other refl

  -- The JSON number that encodes an integer decodes as a duration of that many nanoseconds where it
  -- has 64 bits, and else as the nearest duration, with an error.
  pub unmarshal_duration-decimal :
      (z : ℤ) → unmarshal_duration (decimal z) ≡ (clamp z, int_error (range_error z))
  unfolding unmarshal_duration read_bytes
  unmarshal_duration-decimal z =
      rw (unquoted-decimal z, parse_int-decimal z) (of_int-error (clamp z) (range_error z))

  split_last-append : (s : Str) (last : ℕ) → split_last (s ++ last ∷ []) ≡ some (s, last)
  unfolding split_last
  split_last-append [] last = refl
  split_last-append (c ∷ s) last = rw (split_last-append s last) refl

  -- A text between quotes, unless it is empty, decodes as what time.ParseDuration makes of it.
  unmarshal_duration-quoted :
      (c : ℕ) (s : Str)
      → unmarshal_duration (b'"' ∷ (c ∷ s) ++ b'"' ∷ []) ≡ of_duration (parse_duration (c ∷ s))
  unfolding unmarshal_duration read_bytes unquoted inside_quotes
  unmarshal_duration-quoted c s = rw (split_last-append (c ∷ s) b'"') refl

-- ===== src/Json/Duration/Tests.antt =====
-- Durations as numbers and as texts.
use aragorn.Prelude.{Str, codes, ℤ, pos, ◌≡◌, refl, Option, none, some}
use aragorn.Prelude.ParseInt.{decimal, range}
use aragorn.Json.Duration.{
  no_int, unmarshal_duration, unmarshal_duration-decimal, unquoted, split_last,
}

abbrev parse_duration : Str → ℤ × Option Str
parse_duration s = (pos 70000000000, none)

-- One more than the greatest duration.
unmarshal_duration-decimal_example :
    unmarshal_duration parse_duration (decimal (pos 9223372036854775808))
    ≡ (pos 9223372036854775807, some (no_int range))
unmarshal_duration-decimal_example =
    unmarshal_duration-decimal parse_duration (pos 9223372036854775808)

text_runs : unmarshal_duration parse_duration (codes "\"1m10s\"") ≡ (pos 70000000000, none)
unfolding unmarshal_duration unquoted split_last
text_runs = refl

-- ===== src/Log.antt =====
-- The set-up of the logger: `Init` of log/log.go, over package zap. What is logged is not modelled.
use aragorn.Prelude.{Str, ℕ, ℤ, Bool, true, Option, some, ◌⊎◌, inl, inr, if◌then◌else◌}

-- A zap.Config, as far as `Init` sets it.
pub record ZapConfig : Type 0 where
  pub development : Bool
  pub level : ℤ
  pub disable_caller : Bool
  pub disable_stacktrace : Bool

-- Package zap: its two configurations, the parser of levels, and Build, which makes the logger of the
-- package for a number of callers to be skipped; an error is `some`.
pub record Zap (W : Type 0) : Type 0 where
  pub development_config : ZapConfig
  pub production_config : ZapConfig
  pub level_of : Str → Str ⊎ ℤ
  pub build : ZapConfig → ℕ → W → Option Str × W

module _ {W : Type 0} (z : Zap W) where
  -- The end of `Init`.
  built : ZapConfig → ℕ → W → Option Str × W
  built cfg skipped w = z.build (record cfg { disable_stacktrace = true }) skipped w

  with_level : Str ⊎ ℤ → W → Option Str × W
  unfolding built
  with_level (inl e) w = (some e, w)
  with_level (inr level) w =
      built (record z.production_config { disable_caller = true; level = level }) 0 w

  -- `Init`
  unfoldable pub log_init : Str → Bool → W → Option Str × W
  unfolding with_level
  log_init level debug w =
      if debug then built z.development_config 1 w else with_level (z.level_of level) w

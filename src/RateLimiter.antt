-- ===== src/RateLimiter.antt =====
-- m_rate_limiter.py. The clock's readings are an argument.
pub mod Spacing
mod Tests
use live_translation.Common.{Bool, true, false, if◌then◌else◌}
use live_translation.Common.Float.{Floats}
use live_translation.Data.{Outcome, passed, exited, rate_limit_exceeded}

pub record RateLimiter (F : Type 0) : Type 0 where
  pub flowrate_per_second : F
  pub last_package_time : F

module _ {F : Type 0} (o : Floats F) where
  -- The constructor.
  unfoldable pub create : F → RateLimiter F
  create flowrate_per_second = record {
    flowrate_per_second = flowrate_per_second;
    last_package_time = o.fzero;
  }

  -- `current_time - self._last_package_time < 1/self.flowrate_per_second`
  abbrev pub is_too_early : RateLimiter F → F → Bool
  is_too_early s current_time =
      o.flt (o.sub current_time s.last_package_time) (o.div o.fone s.flowrate_per_second)

  unfoldable pub execute : RateLimiter F → F → RateLimiter F × Outcome
  execute s current_time =
      if o.feq s.flowrate_per_second o.fzero
      then (s, passed)
      else if is_too_early s current_time
      then (s, exited rate_limit_exceeded)
      else (record s { last_package_time = current_time }, passed)

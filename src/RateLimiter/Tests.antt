-- ===== src/RateLimiter/Tests.antt =====
-- Tests of the rate limiter, and the theorem about it at a concrete sequence of times.
use live_translation.Common.{◌≡◌, refl, List, [], ◌∷◌}
use live_translation.Common.Int.{ℤ, pos, ◌-ℤ◌}
use live_translation.Common.Ticks.{ticks}
use live_translation.RateLimiter.{RateLimiter, create, execute}
use live_translation.RateLimiter.Spacing.{passing, AreSpaced, passing-AreSpaced}

abbrev arrivals : List ℤ
arrivals = pos 7 ∷ pos 7 ∷ pos 8 ∷ pos 11 ∷ []

passing-arrivals : passing ticks (create ticks (pos 1)) arrivals ≡ pos 7 ∷ pos 8 ∷ pos 11 ∷ []
unfolding passing create execute ◌-ℤ◌
passing-arrivals = refl

abbrev limiter : RateLimiter ℤ
limiter = record { flowrate_per_second = pos 1; last_package_time = pos 0 }

passing-AreSpaced_example : AreSpaced ticks (pos 1) (pos 0) (passing ticks limiter arrivals)
passing-AreSpaced_example = passing-AreSpaced ticks limiter arrivals refl

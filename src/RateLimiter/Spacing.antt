-- ===== src/RateLimiter/Spacing.antt =====
-- The times of the packages that the rate limiter lets through.
use live_translation.Common.{
  ◌≡◌, Bool, true, false, List, [], ◌∷◌, Bool-cases, inl, inr, if◌then◌else◌,
}
use live_translation.Common.Float.{Floats}
use live_translation.Data.{Outcome, passed, exited, raised}
use live_translation.RateLimiter.{RateLimiter, is_too_early, execute}

abbrev is_passed : Outcome → Bool
is_passed passed = true
is_passed (exited m) = false
is_passed (raised e) = false

module _ {F : Type 0} (o : Floats F) where
  -- The times, out of those at which packages arrive, of the packages that are let through.
  unfoldable pub passing : RateLimiter F → List F → List F
  passing s [] = []
  passing s (now ∷ times) =
      let (s', outcome) = execute o s now in
      let rest = passing s' times in if is_passed outcome then now ∷ rest else rest

  -- Each time is at least `1 / flowrate` after the one before it.
  abbrev pub AreSpaced : F → F → List F → Type 0
  AreSpaced rate last [] = Unit {0}
  AreSpaced rate last (now ∷ times) =
      (o.flt (o.sub now last) (o.div o.fone rate) ≡ false) × AreSpaced rate now times

  -- With a flow rate other than zero two packages that are let through, one after the other, are
  -- at least `1 / flowrate` seconds apart, and the first is as long after the last package before.
  pub passing-AreSpaced :
      (s : RateLimiter F) (times : List F)
      → o.feq s.flowrate_per_second o.fzero ≡ false
      → AreSpaced s.flowrate_per_second s.last_package_time (passing s times)
  unfolding passing execute
  passing-AreSpaced s [] h = tt
  passing-AreSpaced s (now ∷ times) h = elim (Bool-cases (is_too_early o s now)) [
    | inl early ↦ rw (h, early) (passing-AreSpaced s times h)
    | inr late ↦
        rw (h, late) (late, passing-AreSpaced (record s { last_package_time = now }) times h)
  ]

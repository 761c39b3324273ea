-- ===== src/Common/Float.antt =====
-- Python's floats: their operations are a parameter of the code that uses them.
use live_translation.Common.Int.{ℤ}
use live_translation.Common.{ℕ, ◌≡◌, Bool, true, false}

pub record Floats (F : Type 0) : Type 0 where
  pub fzero : F
  pub fone : F
  pub add : F → F → F
  pub sub : F → F → F
  pub div : F → F → F
  pub fabs : F → F
  -- `a / b` of two ints, where `b` is not zero, and the int that stands beside a float.
  pub quotient : ℤ → ℕ → F
  pub of_nat : ℕ → F
  -- `a < b`, `a <= b` and `a == b`
  pub flt : F → F → Bool
  pub fle : F → F → Bool
  pub feq : F → F → Bool

-- What IEEE 754 says of comparisons where no operand is NaN.
pub record IsOrdered {F : Type 0} (o : Floats F) : Type 0 where
  pub flt_asymm : (a b : F) → o.flt a b ≡ true → o.flt b a ≡ false
  pub flt-not-fle : (a b : F) → o.flt a b ≡ false → o.fle b a ≡ true
  pub not-flt-of-fle : (a b : F) → o.fle b a ≡ true → o.flt a b ≡ false
  pub fle_trans : (a b c : F) → o.fle a b ≡ true → o.fle b c ≡ true → o.fle a c ≡ true

-- ===== src/Common/Ticks.antt =====
-- Floats that are whole numbers of ticks, where 48000 ticks are one: an instance on which the code can run.
use live_translation.Common.{◌+◌, ◌*◌, ◌/◌, ◌≡◌, true, false, ◌&&◌, arith}
use live_translation.Common.Int.{ℤ, pos, pos_part, neg_part, ◌+ℤ◌, ◌-ℤ◌, ltb_ℤ, leb_ℤ}
use live_translation.Common.Float.{Floats, IsOrdered}

abbrev pub ticks : Floats ℤ
ticks = record {
  fzero = pos 0;
  fone = pos 1;
  add = ◌+ℤ◌;
  sub = ◌-ℤ◌;
  div = λ a b. pos (pos_part a / pos_part b);
  fabs = λ a. pos (pos_part a + neg_part a);
  quotient = λ a n. pos (pos_part a * (48000 / n)) -ℤ pos (neg_part a * (48000 / n));
  of_nat = λ n. pos (n * 48000);
  flt = ltb_ℤ;
  fle = leb_ℤ;
  feq = λ a b. leb_ℤ a b && leb_ℤ b a;
}

pub ticks_asymm : (a b : ℤ) → ltb_ℤ a b ≡ true → ltb_ℤ b a ≡ false
ticks_asymm a b h = ground arith

pub ticks_not_lt : (a b : ℤ) → ltb_ℤ a b ≡ false → leb_ℤ b a ≡ true
ticks_not_lt a b h = ground arith

pub ticks_le : (a b : ℤ) → leb_ℤ b a ≡ true → ltb_ℤ a b ≡ false
ticks_le a b h = ground arith

pub ticks_trans : (a b c : ℤ) → leb_ℤ a b ≡ true → leb_ℤ b c ≡ true → leb_ℤ a c ≡ true
ticks_trans a b c h k = ground arith

abbrev pub ticks-IsOrdered : IsOrdered ticks
ticks-IsOrdered = record {
  flt_asymm = ticks_asymm;
  flt-not-fle = ticks_not_lt;
  not-flt-of-fle = ticks_le;
  fle_trans = ticks_trans;
}

-- ===== src/Config/Double.antt =====
-- A double, and the comparisons of it that config_loader.h makes: NaN, an infinity, or a number by its
-- sign, significand and exponent of 2. A comparison with NaN is false, and -0.0 is 0.0.
use common_system.Prelude.{ℕ, ◌+◌, ◌*◌, ◌^◌, Bool, true, false, not, ltb, ℤ, pos, negsuc}

pub data Double : Type 0 where
  nan : Double
  infinity : Bool → Double
  finite : Bool → ℕ → ℤ → Double

-- Whether it is `< 0.0`. The Boolean says that the sign is a minus.
abbrev pub less_than_zero : Double → Bool
less_than_zero nan = false
less_than_zero (infinity minus) = minus
less_than_zero (finite false significand exponent) = false
less_than_zero (finite true significand exponent) = ltb 0 significand

-- Whether it is `> 1.0`.
abbrev pub greater_than_one : Double → Bool
greater_than_one nan = false
greater_than_one (infinity minus) = not minus
greater_than_one (finite true significand exponent) = false
greater_than_one (finite false significand (pos k)) = ltb 1 (significand * 2 ^ k)
greater_than_one (finite false significand (negsuc k)) = ltb (2 ^ (k + 1)) significand

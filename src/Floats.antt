-- ===== src/Floats.antt =====
-- Doubles, by their operations, and the conversions of numbers.
use c_client.Prelude.{ℕ, ◌-◌, ◌%◌, Bool, Option}
use c_client.Prelude.Int.{ℤ, pos, negsuc}
use c_client.Extension.{Double}

-- The operations on doubles, as the machine has them; `to_int` is the cast, a fault when the value
-- is no `int`.
pub record Floats : Type 0 where
  pub of_int : ℤ → Double
  pub add : Double → Double → Double
  pub sub : Double → Double → Double
  pub mul : Double → Double → Double
  pub div : Double → Double → Double
  pub neg : Double → Double
  pub eq : Double → Double → Bool
  pub lt : Double → Double → Bool
  pub to_int : Double → Option ℤ

-- A literal without a fraction, or an `int` that is not negative, as a double.
abbrev pub number_of : Floats → ℕ → Double
number_of fl n = fl.of_int (pos n)

-- The cast to `uint8_t`.
unfoldable pub to_uint8 : ℤ → ℕ
to_uint8 (pos n) = n % 256
to_uint8 (negsuc n) = 255 - n % 256

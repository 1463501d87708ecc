-- ===== src/Prelude/Decimals.antt =====
-- The decimal numbers of the package `rust_decimal`, as far as they are read, compared and ordered.
-- `parse` is `Decimal::from_str`; equality is equality of the numbers, whatever their scale.
use Prim.Native.String.{String}
use mathlib.Core.Path.{◌≡◌}
use mathlib.Core.Logic.{◌≢◌}
use mathlib.Core.Bool.{Bool, true, false}
use mathlib.Core.Option.{Option}

pub record Decimals : Type 1 where
  pub Decimal : Type 0
  pub Decimal-discrete : Discrete Decimal
  pub decimal_zero : Decimal
  pub parse : String → Option Decimal
  pub lt : Decimal → Decimal → Bool
  -- The order is a strict total order.
  pub lt_irrefl : (a : Decimal) → lt a a ≡ false
  pub lt_trans : (a b c : Decimal) → lt a b ≡ true → lt b c ≡ true → lt a c ≡ true
  pub lt_total : (a b : Decimal) → a ≢ b → lt a b ≡ false → lt b a ≡ true

-- ===== src/Prelude/Samples.antt =====
-- Decimal numbers that stand for those of `rust_decimal` in the runs: natural numbers, of which a
-- few are read.
use Prim.Native.String.{String}
use text.Mathlib.Text.{◌==◌ as str_eq}
use native.Mathlib.Decide.{ℕ_discrete}
use native.Mathlib.Omega.{arith}
use mathlib.Core.Path.{◌≡◌}
use mathlib.Core.Logic.{◌≢◌}
use mathlib.Core.Bool.{true, false}
use mathlib.Core.Option.{Option, none, some}
use Prim.Native.Nat.{ℕ}
use okx.Prelude.Tests.{ltb, if◌then◌else◌}
use okx.Prelude.Decimals.{Decimals}

abbrev pub read : String → Option ℕ
read text =
    if str_eq text "0"
    then some 0
    else if str_eq text "1"
    then some 1
    else if str_eq text "2"
    then some 2
    else none

pub ltb_irrefl : (a : ℕ) → ltb a a ≡ false
ltb_irrefl a = ground arith

pub ltb_trans : (a b c : ℕ) → ltb a b ≡ true → ltb b c ≡ true → ltb a c ≡ true
ltb_trans a b c h g = ground arith

pub ltb_total : (a b : ℕ) → a ≢ b → ltb a b ≡ false → ltb b a ≡ true
ltb_total a b n h = ground arith

abbrev pub decimals : Decimals
decimals = record {
  Decimal = ℕ;
  Decimal-discrete = ℕ_discrete;
  decimal_zero = 0;
  parse = read;
  lt = ltb;
  lt_irrefl = ltb_irrefl;
  lt_trans = ltb_trans;
  lt_total = ltb_total;
}

-- ===== src/Execution/Attribution/Tests.antt =====
-- crates/okx-execution/src/finance/attribution.rs: a reduction of one lot beside another owner's.
-- Decimal numbers are natural numbers here.
use Prim.Native.String.{String}
use okx.Prelude.{ℕ, ◌+◌, ◌-◌, ◌*◌, ◌/◌, false, List, [], ◌∷◌, some, ◌≡◌, refl}
use okx.Prelude.Int.{pos}
use okx.Prelude.Samples.{decimals}
use native.Mathlib.Decide.{ℕ_discrete}
use okx.Execution.Attribution.{
  Arithmetic, PositionLot, open_lots, sort_in, sort, set_qty, write, position_pnl, available,
  take_from, consume, reductions, settle, reduce_fifo,
}
use okx.Execution.Attribution.Owned.{Kept, reduce_fifo-Kept}

abbrev numbers : Arithmetic ℕ
numbers = record {
  decimal_one = 1;
  neg = λ a. a;
  abs = λ a. a;
  sub = λ a b. a - b;
  mul = λ a b. a * b;
  checked_add = λ a b. some (a + b);
  checked_sub = λ a b. some (a - b);
  checked_mul = λ a b. some (a * b);
  checked_div = λ a b. some (a / b);
  round_to_zero = λ scale a. a;
}

abbrev lot : String → ℕ → ℕ → PositionLot decimals
lot owner quantity opened = record {
  contract_value = 1;
  inverse = false;
  lot_id = owner;
  instance_id = some owner;
  instrument_id = "BTC";
  signed_qty = quantity;
  unit_cost = 10;
  opened_at = pos opened;
}

abbrev lots : List (PositionLot decimals)
lots = lot "b" 1 1 ∷ lot "a" 2 3 ∷ lot "a" 3 2 ∷ []

-- The older lot goes first, and the lot of b stays.
reduced :
    (reduce_fifo decimals numbers lots "a" "BTC" 4 12).0
    ≡ lot "b" 1 1 ∷ lot "a" 1 3 ∷ lot "a" 0 2 ∷ []
unfolding reduce_fifo reductions open_lots sort sort_in available consume take_from position_pnl
    settle write set_qty ℕ_discrete
reduced = refl

reduce_fifo-Kept_example :
    Kept decimals "a" "BTC" lots (reduce_fifo decimals numbers lots "a" "BTC" 4 12).0
reduce_fifo-Kept_example = reduce_fifo-Kept decimals "a" "BTC" numbers lots 4 12

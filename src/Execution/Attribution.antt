-- ===== src/Execution/Attribution.antt =====
-- crates/okx-execution/src/finance/attribution.rs: the lots of positions, how a reduction consumes
-- them, and how funding is shared out. The numbers of `rust_decimal` and their arithmetic are a
-- parameter. An error `StoreError::Invalid` is its text.
use Prim.Native.String.{String}
use text.Mathlib.Text.{◌==◌ as str_eq}
use mathlib.Core.Logic.{ite}
use okx.Prelude.{
  ℕ, zero, suc, Bool, true, false, not, ◌&&◌, ◌||◌, List, [], ◌∷◌, ◌++◌, map, Option, none, some,
  ltb, if◌then◌else◌,
}
use okx.Prelude.Int.{ℤ, ltb_ℤ, eqb_ℤ}
use okx.Prelude.Decimals.{Decimals}
use okx.Prelude.Texts.{str_lt}
use okx.Prelude.Options as Options
use okx.Prelude.Results.{Result, ok, err, ◌>>=◌, ◌>>◌, reject, ok_or}
pub mod Owned
pub mod Tests

-- The arithmetic of `rust_decimal`: `none` is an overflow or a division by zero. `sub` and `mul` are
-- the operators `-` and `*`, which are used only where they cannot overflow.
pub record Arithmetic (D : Type 0) : Type 0 where
  pub decimal_one : D
  pub neg : D → D
  pub abs : D → D
  pub sub : D → D → D
  pub mul : D → D → D
  pub checked_add : D → D → Option D
  pub checked_sub : D → D → Option D
  pub checked_mul : D → D → Option D
  pub checked_div : D → D → Option D
  pub round_to_zero : ℕ → D → D

module _ (dec : Decimals) where
  open dec use {Decimal, Decimal-discrete, decimal_zero, lt}

  pub record PositionLot : Type 0 where
    pub contract_value : Decimal
    pub inverse : Bool
    pub lot_id : String
    pub instance_id : Option String
    pub instrument_id : String
    pub signed_qty : Decimal
    pub unit_cost : Decimal
    pub opened_at : ℤ

  pub record LotReduction : Type 0 where
    pub lot_id : String
    pub quantity : Decimal
    pub realized_pnl : Decimal

  abbrev pub is_positive : Decimal → Bool
  is_positive d = lt decimal_zero d

  abbrev pub is_zero : Decimal → Bool
  is_zero d = ite (Decimal-discrete d decimal_zero) true false

  abbrev pub min_of : Decimal → Decimal → Decimal
  min_of a b = if lt b a then b else a

  abbrev is_some_of : Option String → String → Bool
  is_some_of none instance_id = false
  is_some_of (some id) instance_id = str_eq id instance_id

  -- Whether a lot is of the instance and the instrument.
  abbrev pub belongs : String → String → PositionLot → Bool
  belongs instance_id instrument_id lot =
      is_some_of lot.instance_id instance_id && str_eq lot.instrument_id instrument_id

  abbrev pub shift : ℕ × PositionLot → ℕ × PositionLot
  shift (i, lot) = (suc i, lot)

  -- The lots that can be reduced, with their places.
  unfoldable pub open_lots : String → String → List PositionLot → List (ℕ × PositionLot)
  open_lots instance_id instrument_id [] = []
  open_lots instance_id instrument_id (lot ∷ lots) =
      let rest = map shift (open_lots instance_id instrument_id lots) in
      if belongs instance_id instrument_id lot && not (is_zero lot.signed_qty)
      then (0, lot) ∷ rest
      else rest

  -- The order of `sort_by`: on the time of opening, then on the id.
  abbrev opened_before : PositionLot → PositionLot → Bool
  opened_before a b =
      ltb_ℤ a.opened_at b.opened_at || (eqb_ℤ a.opened_at b.opened_at && str_lt a.lot_id b.lot_id)

  unfoldable pub sort_in : ℕ × PositionLot → List (ℕ × PositionLot) → List (ℕ × PositionLot)
  sort_in entry [] = entry ∷ []
  sort_in entry (e ∷ entries) =
      let rest = sort_in entry entries in
      if opened_before e.1 entry.1 then e ∷ rest else entry ∷ e ∷ entries

  -- A stable sort.
  unfoldable pub sort : List (ℕ × PositionLot) → List (ℕ × PositionLot)
  unfolding sort_in
  sort [] = []
  sort (entry ∷ entries) = sort_in entry (sort entries)

  -- `lots[i].signed_qty = q`
  unfoldable pub set_qty : ℕ → Decimal → List PositionLot → List PositionLot
  set_qty i q [] = []
  set_qty zero q (lot ∷ lots) = (record lot { signed_qty = q }) ∷ lots
  set_qty (suc i) q (lot ∷ lots) = lot ∷ set_qty i q lots

  -- The loop over the updates.
  unfoldable pub write : List (ℕ × Decimal) → List PositionLot → List PositionLot
  unfolding set_qty
  write [] lots = lots
  write ((i, q) ∷ updates) lots = write updates (set_qty i q lots)

  module _ (ops : Arithmetic Decimal) where
    open ops use {
      decimal_one, neg, abs, sub, mul, checked_add, checked_sub, checked_mul, checked_div,
      round_to_zero,
    }

    abbrev delta : Decimal → Decimal → Bool → Option Decimal
    delta entry exit true =
        Options.◌>>=◌ (checked_div decimal_one entry)
          λ e. Options.◌>>=◌ (checked_div decimal_one exit) λ x. checked_sub e x
    delta entry exit false = checked_sub exit entry

    unfoldable pub position_pnl :
        Decimal → Decimal → Decimal → Decimal → Bool → Decimal → Result String Decimal
    position_pnl quantity entry exit contract_value inverse direction = do
      reject (not (is_positive entry) || not (is_positive exit) || not (is_positive contract_value))
          "INVALID_CONTRACT_MECHANICS"
      change ← ok_or (delta entry exit inverse) "MONEY_OVERFLOW"
      ok_or
          (Options.◌>>=◌ (checked_mul quantity contract_value)
            λ q. Options.◌>>=◌ (checked_mul q change) λ v. checked_mul v direction)
          "MONEY_OVERFLOW"

    unfoldable pub available : Decimal → List (ℕ × PositionLot) → Result String Decimal
    available a [] = ok a
    available a ((i, lot) ∷ entries) =
        ok_or (checked_add a (abs lot.signed_qty)) "MONEY_OVERFLOW" >>= λ next.
        available next entries

    -- One round of the loop over the lots: the reduction and what is left of the lot.
    unfoldable pub take_from :
        Decimal → Decimal → PositionLot → Result String (LotReduction × Decimal)
    unfolding position_pnl
    take_from exit_price remaining lot = do
      let qty = min_of remaining (abs lot.signed_qty)
      let direction = if is_positive lot.signed_qty then decimal_one else neg decimal_one
      pnl ← position_pnl qty lot.unit_cost exit_price lot.contract_value lot.inverse direction
      left ← ok_or (checked_sub lot.signed_qty (mul qty direction)) "MONEY_OVERFLOW"
      ok (record { lot_id = lot.lot_id; quantity = qty; realized_pnl = pnl }, left)

    -- The loop over the lots: the reductions and the updates.
    unfoldable pub consume :
        Decimal
        → Decimal
        → List (ℕ × PositionLot)
        → Result String (List LotReduction × List (ℕ × Decimal))
    unfolding take_from
    consume exit_price remaining [] = ok ([], [])
    consume exit_price remaining ((i, lot) ∷ entries) = elim (is_zero remaining) [
      | true ↦ ok ([], [])
      | false ↦ do
        first ← take_from exit_price remaining lot
        rest ← consume exit_price (sub remaining (first.0).quantity) entries
        ok (first.0 ∷ rest.0, (i, first.1) ∷ rest.1)
    ]

    -- The part of `reduce_fifo` that only reads the lots.
    unfoldable pub reductions :
        List PositionLot
        → String
        → String
        → Decimal
        → Decimal
        → Result String (List LotReduction × List (ℕ × Decimal))
    unfolding open_lots sort available consume
    reductions lots instance_id instrument_id quantity exit_price = do
      reject (not (is_positive quantity) || not (is_positive exit_price)) "INVALID_REDUCTION"
      let entries = sort (open_lots instance_id instrument_id lots)
      total ← available decimal_zero entries
      reject (lt total quantity) "INSTANCE_POSITION_INSUFFICIENT"
      consume exit_price quantity entries

    -- The lots after their updates, if there are any.
    unfoldable pub settle :
        List PositionLot
        → Result String (List LotReduction × List (ℕ × Decimal))
        → List PositionLot × Result String (List LotReduction)
    unfolding write
    settle lots (ok (result, updates)) = (write updates lots, ok result)
    settle lots (err e) = (lots, err e)

    unfoldable pub reduce_fifo :
        List PositionLot
        → String
        → String
        → Decimal
        → Decimal
        → List PositionLot × Result String (List LotReduction)
    unfolding reductions settle
    reduce_fifo lots instance_id instrument_id quantity exit_price =
        settle lots (reductions lots instance_id instrument_id quantity exit_price)

    -- `.try_fold(Decimal::ZERO, ..)` over the exposures.
    unfoldable pub total_of : Decimal → List (String × Decimal) → Result String Decimal
    total_of a [] = ok a
    total_of a ((id, q) ∷ exposures) =
        ok_or (checked_add a q) "MONEY_OVERFLOW" >>= λ next. total_of next exposures

    -- The loop of `allocate_funding`: the shares, and what was allocated.
    unfoldable pub allocate :
        Decimal
        → Decimal
        → ℕ
        → List (String × Decimal)
        → Decimal
        → Result String (List (String × Decimal) × Decimal)
    allocate amount total scale [] allocated = ok ([], allocated)
    allocate amount total scale ((id, q) ∷ exposures) allocated = do
      share ← ok_or (Options.◌>>=◌ (checked_mul amount q) λ v. checked_div v total) "MONEY_OVERFLOW"
      let a = round_to_zero scale share
      next ← ok_or (checked_add allocated a) "MONEY_OVERFLOW"
      (result, all) ← allocate amount total scale exposures next
      ok ((id, a) ∷ result, all)

    unfoldable pub allocate_funding :
        Decimal → List (String × Decimal) → ℕ → Result String (List (String × Decimal))
    unfolding total_of allocate
    allocate_funding amount exposures scale = do
      reject (ltb 28 scale) "UNSUPPORTED_PRECISION"
      total ← total_of decimal_zero exposures
      elim (is_zero total) [
        | true ↦ ok (("unattributed", amount) ∷ [])
        | false ↦ do
          (result, allocated) ← allocate amount total scale exposures decimal_zero
          residual ← ok_or (checked_sub amount allocated) "MONEY_OVERFLOW"
          ok (result ++ (("rounding_residual", residual) ∷ []))
      ]

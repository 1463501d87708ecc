-- ===== src/Observation/OrderBook/Defs.antt =====
-- The types and operations of crates/okx-observation/src/order_book.rs. A side of the book, a
-- `BTreeMap` by price, is a list of its entries in the order of the prices.
use Prim.Native.String.{String}
use mathlib.Core.Logic.{ite}
use okx.Prelude.{
  ℕ, Bool, true, false, not, List, [], ◌∷◌, map, Option, none, some, ◌==◌, if◌then◌else◌,
}
use okx.Prelude.Int.{ℤ, negsuc, eqb_ℤ}
use okx.Prelude.Decimals.{Decimals}
use mathlib.Core.List.{reverse}

pub record BookLevelUpdate : Type 0 where
  pub price : String
  pub size : String
  pub order_count : Option String

pub record OrderBookMessage : Type 0 where
  pub asks : List BookLevelUpdate
  pub bids : List BookLevelUpdate
  pub exchange_timestamp_ms : String
  pub seq_id : ℤ
  pub prev_seq_id : ℤ

pub record BookLevel : Type 0 where
  pub price : String
  pub size : String
  pub order_count : Option String

pub data OrderBookStatus : Type 0 where
  waiting_snapshot contiguous invalid : OrderBookStatus

pub record OrderBookSnapshot : Type 0 where
  pub generation : ℕ
  pub status : OrderBookStatus
  pub seq_id : Option ℤ
  pub exchange_timestamp_ms : Option String
  pub asks : List BookLevel
  pub bids : List BookLevel

pub data OrderBookError : Type 0 where
  invalid_snapshot_prev_seq_id : ℤ → OrderBookError
  not_contiguous : OrderBookError
  generation_mismatch : ℕ → ℕ → OrderBookError
  sequence_gap : ℤ → ℤ → OrderBookError
  invalid_decimal : String → String → OrderBookError
  negative_size : String → OrderBookError
  non_positive_price : String → OrderBookError

pub data Result {ℓ} (A : Type ℓ) : Type ℓ where
  ok : A → Result A
  err : OrderBookError → Result A

infixl 5 ◌>>=◌
abbrev pub ◌>>=◌ {ℓ κ} : {A : Type ℓ} {B : Type κ} → Result A → (A → Result B) → Result B
ok a >>= f = f a
err e >>= f = err e

abbrev pub is_ok {ℓ} : {A : Type ℓ} → Result A → Bool
is_ok (ok _) = true
is_ok (err _) = false

abbrev pub is_contiguous : OrderBookStatus → Bool
is_contiguous contiguous = true
is_contiguous _ = false

module _ (dec : Decimals) where
  open dec use {Decimal, Decimal-discrete, decimal_zero, parse, lt}

  abbrev pub Side : Type 0
  Side = List (Decimal × BookLevel)

  pub record OrderBookState : Type 0 where
    pub generation : ℕ
    pub status : OrderBookStatus
    pub last_seq_id : Option ℤ
    pub exchange_timestamp_ms : Option String
    pub asks : Side
    pub bids : Side

  -- `side.insert(price, level)`
  unfoldable pub insert : Decimal → BookLevel → Side → Side
  insert price level [] = (price, level) ∷ []
  insert price level ((p, l) ∷ side) =
      ite (Decimal-discrete price p) ((p, level) ∷ side)
        (if lt price p then (price, level) ∷ (p, l) ∷ side else (p, l) ∷ insert price level side)

  -- `side.remove(&price)`
  unfoldable pub remove : Decimal → Side → Side
  remove price [] = []
  remove price ((p, l) ∷ side) = ite (Decimal-discrete price p) side ((p, l) ∷ remove price side)

  -- `side.get(&price)`
  unfoldable pub get : Decimal → Side → Option BookLevel
  get price [] = none
  get price ((p, l) ∷ side) = ite (Decimal-discrete price p) (some l) (get price side)

  unfoldable pub waiting : ℕ → OrderBookState
  waiting generation = record {
    generation = generation;
    status = waiting_snapshot;
    last_seq_id = none;
    exchange_timestamp_ms = none;
    asks = [];
    bids = [];
  }

  unfoldable pub invalidate : OrderBookState → OrderBookState
  invalidate s = record s {
    status = invalid;
    last_seq_id = none;
    exchange_timestamp_ms = none;
    asks = [];
    bids = [];
  }

  -- `decimal`
  unfoldable pub decimal : String → String → Result Decimal
  decimal field value = elim (parse value) [
    | none ↦ err (invalid_decimal field value)
    | some d ↦ ok d
  ]

  -- The body of the loop of `apply_levels`.
  unfoldable pub apply_level : Side → BookLevelUpdate → Result Side
  unfolding decimal insert remove
  apply_level side update = decimal "price" update.price >>= λ price.
      if not (lt decimal_zero price)
      then err (non_positive_price update.price)
      else (decimal "size" update.size >>= λ size.
          if lt size decimal_zero
          then err (negative_size update.size)
          else ok (
              ite (Decimal-discrete size decimal_zero) (remove price side) (
                insert price
                  (record {
                    price = update.price;
                    size = update.size;
                    order_count = update.order_count;
                  })
                  side)))

  unfoldable pub apply_levels : Side → List BookLevelUpdate → Result Side
  apply_levels side [] = ok side
  apply_levels side (update ∷ levels) = apply_level side update >>= λ next. apply_levels next levels

  unfoldable pub levels_from_snapshot : List BookLevelUpdate → Result Side
  levels_from_snapshot levels = apply_levels [] levels

  abbrev both : Result Side → Result Side → Result (Side × Side)
  both asks bids = do a ← asks; b ← bids; ok (a, b)

  -- The state with the sides of a message, or without its book on an error.
  abbrev pub settle :
      OrderBookState
      → ℕ
      → OrderBookMessage
      → Result (Side × Side)
      → OrderBookState × Result (Unit {0})
  settle s generation message (err e) = (invalidate s, err e)
  settle s generation message (ok (asks, bids)) = (
    record {
      generation = generation;
      status = contiguous;
      last_seq_id = some message.seq_id;
      exchange_timestamp_ms = some message.exchange_timestamp_ms;
      asks = asks;
      bids = bids;
    },
    ok tt,
  )

  unfoldable pub apply_snapshot :
      OrderBookState → ℕ → OrderBookMessage → OrderBookState × Result (Unit {0})
  unfolding invalidate
  apply_snapshot s generation message =
      if not (eqb_ℤ message.prev_seq_id (negsuc 0))
      then (invalidate s, err (invalid_snapshot_prev_seq_id message.prev_seq_id))
      else settle s generation message
          (both (levels_from_snapshot message.asks) (levels_from_snapshot message.bids))

  -- `apply_update` behind the test of the sequence: `expected` is the last sequence number.
  abbrev pub follow : OrderBookState → OrderBookMessage → ℤ → OrderBookState × Result (Unit {0})
  follow s message expected =
      if not (eqb_ℤ message.prev_seq_id expected)
      then (invalidate s, err (sequence_gap expected message.prev_seq_id))
      else settle s s.generation message
          (both (apply_levels s.asks message.asks) (apply_levels s.bids message.bids))

  unfoldable pub apply_update :
      OrderBookState → ℕ → OrderBookMessage → OrderBookState × Result (Unit {0})
  unfolding invalidate
  apply_update s generation message =
      if not (generation == s.generation)
      then (invalidate s, err (generation_mismatch s.generation generation))
      else if not (is_contiguous s.status)
      then (s, err not_contiguous)
      else elim s.last_seq_id [
        | none ↦ (s, err not_contiguous)
        | some expected ↦ follow s message expected
      ]

  abbrev pub levels_of : Side → List BookLevel
  levels_of = map (λ entry. entry.1)

  unfoldable pub snapshot : OrderBookState → OrderBookSnapshot
  snapshot s = record {
    generation = s.generation;
    status = s.status;
    seq_id = s.last_seq_id;
    exchange_timestamp_ms = s.exchange_timestamp_ms;
    asks = levels_of s.asks;
    bids = reverse (levels_of s.bids);
  }

-- ===== src/Observation/Stream/State.antt =====
-- crates/okx-observation/src/stream.rs: the state of the live view of a market and its updates. The
-- numbers of its order book are a parameter.
use Prim.Native.String.{String}
use okx.Prelude.{ℕ, Option, none, some, ◌==◌, if◌then◌else◌}
use okx.Prelude.Decimals.{Decimals}
use okx.Prelude.Results.{Result, ok, err}
use okx.Api.PublicData.{
  PublicTicker, PublicMarkPrice, PublicIndexTicker, PublicFundingRate, PublicOpenInterest,
}
use okx.Observation.OrderBook.Defs as OrderBook
use okx.Observation.OrderBook.Defs.{OrderBookMessage, OrderBookError, OrderBookState}
use okx.Observation.Market.Snapshot.{MarketError}

pub record Observed {ℓ} (T : Type ℓ) : Type ℓ where
  pub generation : ℕ
  pub received_at_ms : ℕ
  pub value : T

pub data MarketStreamError : Type 0 where
  generation_mismatch : ℕ → ℕ → MarketStreamError
  instrument_not_found : String → MarketStreamError
  reference_generation_mismatch : String → String → MarketStreamError
  incomplete : MarketStreamError
  order_book_not_contiguous : MarketStreamError
  order_book_error : OrderBookError → MarketStreamError
  market_error : MarketError → MarketStreamError

abbrev pub Outcome : Type 0
Outcome = Result MarketStreamError (Unit {0})

module _ (dec : Decimals) where
  pub record MarketStreamState : Type 0 where
    pub instrument_id : String
    pub generation : ℕ
    pub reference_generation : String
    pub ticker : Option (Observed PublicTicker)
    pub mark_price : Option (Observed PublicMarkPrice)
    pub index_ticker : Option (Observed PublicIndexTicker)
    pub funding_rate : Option (Observed PublicFundingRate)
    pub open_interest : Option (Observed PublicOpenInterest)
    pub order_book : OrderBookState dec
    pub order_book_received_at_ms : Option ℕ

  unfoldable pub new : String → ℕ → String → MarketStreamState
  new instrument_id generation reference_generation = record {
    instrument_id = instrument_id;
    generation = generation;
    reference_generation = reference_generation;
    ticker = none;
    mark_price = none;
    index_ticker = none;
    funding_rate = none;
    open_interest = none;
    order_book = OrderBook.waiting dec generation;
    order_book_received_at_ms = none;
  }

  unfoldable pub reset_generation : MarketStreamState → ℕ → String → MarketStreamState
  reset_generation s generation reference_generation = record s {
    generation = generation;
    reference_generation = reference_generation;
    ticker = none;
    mark_price = none;
    index_ticker = none;
    funding_rate = none;
    open_interest = none;
    order_book = OrderBook.waiting dec generation;
    order_book_received_at_ms = none;
  }

  unfoldable pub require_generation : MarketStreamState → ℕ → Outcome
  require_generation s generation =
      if generation == s.generation
      then ok tt
      else err (generation_mismatch s.generation generation)

  -- A change of the state behind `self.require_generation(generation)?`.
  unfoldable pub guarded :
      MarketStreamState → ℕ → MarketStreamState × Outcome → MarketStreamState × Outcome
  unfolding require_generation
  guarded s generation next = elim (require_generation s generation) [
    | ok _ ↦ next
    | err e ↦ (s, err e)
  ]

  unfoldable pub apply_ticker :
      MarketStreamState → ℕ → ℕ → PublicTicker → MarketStreamState × Outcome
  unfolding guarded
  apply_ticker s generation received_at_ms value = guarded s generation (
    record s {
      ticker =
          some (record { generation = generation; received_at_ms = received_at_ms; value = value });
    },
    ok tt,
  )

  unfoldable pub apply_mark_price :
      MarketStreamState → ℕ → ℕ → PublicMarkPrice → MarketStreamState × Outcome
  unfolding guarded
  apply_mark_price s generation received_at_ms value = guarded s generation (
    record s {
      mark_price =
          some (record { generation = generation; received_at_ms = received_at_ms; value = value });
    },
    ok tt,
  )

  unfoldable pub apply_index_ticker :
      MarketStreamState → ℕ → ℕ → PublicIndexTicker → MarketStreamState × Outcome
  unfolding guarded
  apply_index_ticker s generation received_at_ms value = guarded s generation (
    record s {
      index_ticker =
          some (record { generation = generation; received_at_ms = received_at_ms; value = value });
    },
    ok tt,
  )

  unfoldable pub apply_funding_rate :
      MarketStreamState → ℕ → ℕ → PublicFundingRate → MarketStreamState × Outcome
  unfolding guarded
  apply_funding_rate s generation received_at_ms value = guarded s generation (
    record s {
      funding_rate =
          some (record { generation = generation; received_at_ms = received_at_ms; value = value });
    },
    ok tt,
  )

  unfoldable pub apply_open_interest :
      MarketStreamState → ℕ → ℕ → PublicOpenInterest → MarketStreamState × Outcome
  unfolding guarded
  apply_open_interest s generation received_at_ms value = guarded s generation (
    record s {
      open_interest =
          some (record { generation = generation; received_at_ms = received_at_ms; value = value });
    },
    ok tt,
  )

  -- What the two updates of the order book do with its answer.
  unfoldable pub with_book :
      MarketStreamState
      → ℕ
      → OrderBookState dec × OrderBook.Result (Unit {0})
      → MarketStreamState × Outcome
  with_book s received_at_ms (book, OrderBook.Result.ok _) =
      (record s { order_book = book; order_book_received_at_ms = some received_at_ms }, ok tt)
  with_book s received_at_ms (book, OrderBook.Result.err e) =
      (record s { order_book = book; order_book_received_at_ms = none }, err (order_book_error e))

  unfoldable pub apply_book_snapshot :
      MarketStreamState → ℕ → ℕ → OrderBookMessage → MarketStreamState × Outcome
  unfolding guarded with_book
  apply_book_snapshot s generation received_at_ms value =
      guarded s generation
        (with_book s received_at_ms (OrderBook.apply_snapshot dec s.order_book generation value))

  unfoldable pub apply_book_update :
      MarketStreamState → ℕ → ℕ → OrderBookMessage → MarketStreamState × Outcome
  unfolding guarded with_book
  apply_book_update s generation received_at_ms value =
      guarded s generation
        (with_book s received_at_ms (OrderBook.apply_update dec s.order_book generation value))

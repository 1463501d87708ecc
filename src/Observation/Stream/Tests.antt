-- ===== src/Observation/Stream/Tests.antt =====
-- crates/okx-observation/src/stream.rs: a live view with all of its sources.
use Prim.Native.String.{String}
use okx.Prelude.{◌≡◌, refl, true, false, Option, none, some, [], ◌∷◌, List}
use okx.Prelude.Int.{pos, negsuc}
use okx.Prelude.Samples.{decimals}
use okx.Prelude.Maps.{String-discrete}
use okx.Prelude.SortedMaps.{get, put}
use okx.Prelude.Texts.{trim_start, trim_end, trim, is_blank}
use okx.Prelude.Results.{ok}
use okx.Api.PublicData.{
  PublicTicker, PublicMarkPrice, PublicIndexTicker, PublicFundingRate, PublicOpenInterest,
}
use okx.Observation.OrderBook.Defs as OrderBook
use okx.Observation.OrderBook.Defs.{BookLevelUpdate, OrderBookMessage, contiguous}
use okx.Observation.OrderBook.Linkage as Linkage
use okx.Observation.Reference.Normalize.{
  require, optional, is_preopen, is_incomplete_preopen_future_listing, funding_requirement,
  normalize_upcoming_changes, try_from,
}
use okx.Observation.Reference.Registry.{load, generation_for, from_public}
use okx.Observation.Reference.Tests.{registry}
use okx.Observation.Market.Types.{GenerationInput}
use okx.Observation.Market.Snapshot as Snapshot
use okx.Observation.Market.Snapshot.{from_bootstrap, snapshot_of}
use okx.Observation.Stream.State.{
  MarketStreamState, new, require_generation, guarded, apply_ticker, apply_mark_price,
  apply_index_ticker, apply_funding_rate, apply_open_interest, with_book, apply_book_snapshot,
}
use okx.Observation.Stream.Times.{
  oldest_of, first_stale, current_received_at, required_receive_times,
}
use okx.Observation.Stream.Readiness.{
  LiveMarketSnapshot, fresh, stale, current, report, current_funding, bootstrap_if_complete,
  market_of, publish, timed_readiness, readiness_with_budgets,
}
use okx.Observation.Stream.Fresh.{IsFresh, fresh-IsFresh, fresh-publish}
use okx.Observation.Stream.Invariant.{
  IsCoherent, Call, tickers, mark_prices, index_tickers, funding_rates, open_interests,
  book_snapshots, run, new-run-IsCoherent,
}

abbrev ticker : PublicTicker
ticker = record {
  instrument_type = "SWAP";
  instrument_id = "D";
  last = "1";
  last_size = "1";
  ask_price = "1";
  ask_size = "1";
  bid_price = "1";
  bid_size = "1";
  open_24h = "1";
  high_24h = "1";
  low_24h = "1";
  volume_currency_24h = "1";
  volume_24h = "1";
  sod_utc0 = "1";
  sod_utc8 = "1";
  ts = "1";
}

abbrev mark_price : PublicMarkPrice
mark_price = record { instrument_type = "SWAP"; instrument_id = "D"; mark_price = "1"; ts = "1" }

abbrev index_ticker : PublicIndexTicker
index_ticker = record {
  instrument_id = "DU";
  index_price = "1";
  open_24h = "1";
  high_24h = "1";
  low_24h = "1";
  sod_utc0 = "1";
  sod_utc8 = "1";
  ts = "1";
}

abbrev funding_rate : PublicFundingRate
funding_rate = record {
  instrument_type = "SWAP";
  instrument_id = "D";
  funding_rate = "1";
  funding_time = "1";
  next_funding_time = "1";
  impact_value = "1";
  interest_rate = "1";
  premium = "1";
  min_funding_rate = "1";
  max_funding_rate = "1";
  method = "1";
  formula_type = "1";
  settlement_state = "1";
  settled_funding_rate = "1";
  ts = "1";
}

abbrev open_interest : PublicOpenInterest
open_interest = record {
  instrument_type = "SWAP";
  instrument_id = "D";
  oi = "1";
  oi_currency = "1";
  oi_usd = "1";
  ts = "1";
}

abbrev message : OrderBookMessage
message = record {
  asks = record { price = "2"; size = "1"; order_count = none } ∷ [];
  bids = [];
  exchange_timestamp_ms = "1";
  seq_id = pos 10;
  prev_seq_id = negsuc 0;
}

-- All sources, between the times 100 and 105.
abbrev calls : List (Call decimals)
calls =
    tickers 7 100 ticker
    ∷ mark_prices 7 101 mark_price
    ∷ index_tickers 7 102 index_ticker
    ∷ funding_rates 7 103 funding_rate
    ∷ open_interests 7 104 open_interest
    ∷ book_snapshots 7 105 message
    ∷ []

abbrev pub view : MarketStreamState decimals
view = run decimals (new decimals "D" 7 "g") calls

abbrev pub digest : GenerationInput → Option String
digest m = some "m"

view_fresh :
    (readiness_with_budgets decimals digest view registry 110 10 60 true true false true).quality
    ≡ fresh
unfolding String-discrete from_public load generation_for is_incomplete_preopen_future_listing
    is_preopen require try_from normalize_upcoming_changes put get trim trim_start trim_end is_blank
    optional funding_requirement new OrderBook.waiting require_generation guarded apply_ticker
    apply_mark_price apply_index_ticker apply_funding_rate apply_open_interest with_book
    apply_book_snapshot OrderBook.apply_snapshot OrderBook.levels_from_snapshot
    OrderBook.apply_levels OrderBook.apply_level OrderBook.decimal OrderBook.insert oldest_of
    first_stale current_received_at required_receive_times report current current_funding
    bootstrap_if_complete market_of timed_readiness readiness_with_budgets from_bootstrap
    snapshot_of Snapshot.require_instrument Snapshot.require_field Snapshot.ticker_state
    Snapshot.mark_price_state Snapshot.index_price_state Snapshot.funding_rate_state
    Snapshot.funding_state Snapshot.open_interest_state Snapshot.generation_for
view_fresh = refl

-- A price may be 9 milliseconds old, not 10.
view_stale :
    (readiness_with_budgets decimals digest view registry 110 9 60 true true false true).quality
    ≡ stale
unfolding String-discrete from_public load generation_for is_incomplete_preopen_future_listing
    is_preopen require try_from normalize_upcoming_changes put get trim trim_start trim_end is_blank
    optional funding_requirement new OrderBook.waiting require_generation guarded apply_ticker
    apply_mark_price apply_index_ticker apply_funding_rate apply_open_interest with_book
    apply_book_snapshot OrderBook.apply_snapshot OrderBook.levels_from_snapshot
    OrderBook.apply_levels OrderBook.apply_level OrderBook.decimal OrderBook.insert oldest_of
    first_stale current_received_at required_receive_times report timed_readiness
    readiness_with_budgets
view_stale = refl

fresh-IsFresh_example :
    IsFresh decimals digest view registry 110 10 60 true true
    × (view.order_book.generation ≡ view.generation)
    × Linkage.Fits decimals contiguous view.order_book
fresh-IsFresh_example =
    fresh-IsFresh decimals digest view registry 110 10 60 true true false true
      (new-run-IsCoherent decimals "D" 7 "g" calls) view_fresh

source_time : is_blank "2" ≡ false
unfolding is_blank trim trim_start trim_end
source_time = refl

fresh-publish_example :
    (live : LiveMarketSnapshot) × (publish decimals digest view registry "2" ≡ ok live)
    × (live.generation ≡ view.generation)
    × (live.market.instrument_id ≡ view.instrument_id)
    × (live.market.reference_generation ≡ registry.generation)
    × (live.order_book ≡ OrderBook.snapshot decimals view.order_book)
fresh-publish_example =
    fresh-publish decimals digest view registry 110 10 60 true true false true "2" view_fresh
      source_time

new-run-IsCoherent_example : IsCoherent decimals view
new-run-IsCoherent_example = new-run-IsCoherent decimals "D" 7 "g" calls

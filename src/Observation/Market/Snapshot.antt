-- ===== src/Observation/Market/Snapshot.antt =====
-- crates/okx-observation/src/market.rs: the snapshot of a market, from what the exchange answers and
-- the rules of the instrument. The digest of `generation_for`, SHA-256 over a JSON text, is a
-- parameter; `none` is an error of the writer.
use Prim.Native.String.{String}
use text.Mathlib.Text.{◌==◌ as str_eq}
use okx.Prelude.{false, not, Option, none, some, if◌then◌else◌}
use okx.Prelude.SortedMaps.{get}
use okx.Prelude.Texts.{is_blank}
use okx.Prelude.Results.{Result, ok, err, ◌>>=◌, ◌>>◌, reject, ok_or}
use okx.Api.PublicData.{
  InstrumentType, swap, futures, PublicTicker, PublicMarkPrice, PublicIndexTicker,
  PublicFundingRate, PublicOpenInterest,
}
use okx.Observation.Reference.Types.{
  FundingRequirement, required, not_applicable, unknown, InstrumentSpec, ReferenceRegistry,
}
use okx.Observation.Reference.Normalize.{optional}
use okx.Observation.Market.Types.{
  MarketBootstrap, TickerState, MarketUniverseTicker, MarkPriceState, IndexPriceState, FundingState,
  OpenInterestState, MarketSnapshot, GenerationInput, SnapshotQualityReport,
}

pub data MarketError : Type 0 where
  empty_source_timestamp : MarketError
  instrument_not_found : String → MarketError
  instrument_not_live : String → MarketError
  unsupported_instrument_type : String → MarketError
  missing_underlying : String → MarketError
  instrument_mismatch : String → String → String → MarketError
  index_mismatch : String → String → MarketError
  missing_field : String → String → MarketError
  funding_required : MarketError
  unexpected_funding : MarketError
  unknown_funding_requirement : String → String → MarketError
  serialization : MarketError

unfoldable pub require_instrument : String → String → String → Result MarketError (Unit {0})
require_instrument origin expected actual =
    if str_eq actual expected then ok tt else err (instrument_mismatch origin expected actual)

unfoldable pub require_field : String → String → String → Result MarketError String
require_field origin field value =
    if is_blank value then err (missing_field origin field) else ok value

abbrev type_of : String → Result MarketError InstrumentType
type_of text =
    if str_eq text "SWAP"
    then ok swap
    else if str_eq text "FUTURES"
    then ok futures
    else err (unsupported_instrument_type text)

-- `MarketUniverseTicker::try_from`
unfoldable pub universe_ticker : PublicTicker → Result MarketError MarketUniverseTicker
unfolding require_field optional
universe_ticker value = do
  instrument_id ← require_field "bulk ticker" "instId" value.instrument_id
  instrument_type ← type_of value.instrument_type
  ts ← require_field "bulk ticker" "ts" value.ts
  ok (record {
    instrument_id = instrument_id;
    instrument_type = instrument_type;
    last = optional value.last;
    best_bid = optional value.bid_price;
    best_ask = optional value.ask_price;
    open_24h = optional value.open_24h;
    volume_24h = optional value.volume_24h;
    volume_currency_24h = optional value.volume_currency_24h;
    exchange_timestamp_ms = ts;
  })

unfoldable pub m2 : ReferenceRegistry → String → Result MarketError SnapshotQualityReport
m2 reference instrument_id = do
  instrument ← ok_or (get instrument_id reference.instruments) (instrument_not_found instrument_id)
  reject (not (str_eq instrument.state "live")) (instrument_not_live instrument_id)
  ok (record {
    schema = "okx.snapshot-quality/v1";
    instrument_id = instrument_id;
    reference_generation = reference.generation;
    reference_source_received_at = reference.source_received_at;
    market_mode = "rest_bootstrap";
    persistent_ws_connected = false;
    sequence_continuity_proven = false;
    reason = "M2_REST_BOOTSTRAP_ONLY";
  })

-- `.filter(|value| !value.trim().is_empty())`
abbrev pub not_blank : Option String → Option String
not_blank none = none
not_blank (some value) = optional value

unfoldable pub ticker_state : PublicTicker → Result MarketError TickerState
unfolding require_field optional
ticker_state value = do
  last ← require_field "ticker" "last" value.last
  last_size ← require_field "ticker" "lastSz" value.last_size
  best_ask ← require_field "ticker" "askPx" value.ask_price
  best_ask_size ← require_field "ticker" "askSz" value.ask_size
  best_bid ← require_field "ticker" "bidPx" value.bid_price
  best_bid_size ← require_field "ticker" "bidSz" value.bid_size
  ts ← require_field "ticker" "ts" value.ts
  ok (record {
    last = last;
    last_size = last_size;
    best_ask = best_ask;
    best_ask_size = best_ask_size;
    best_bid = best_bid;
    best_bid_size = best_bid_size;
    open_24h = optional value.open_24h;
    high_24h = optional value.high_24h;
    low_24h = optional value.low_24h;
    volume_currency_24h = optional value.volume_currency_24h;
    volume_24h = optional value.volume_24h;
    exchange_timestamp_ms = ts;
  })

unfoldable pub mark_price_state : PublicMarkPrice → Result MarketError MarkPriceState
unfolding require_field
mark_price_state value = do
  price ← require_field "mark price" "markPx" value.mark_price
  ts ← require_field "mark price" "ts" value.ts
  ok (record { price = price; exchange_timestamp_ms = ts })

unfoldable pub index_price_state : String → PublicIndexTicker → Result MarketError IndexPriceState
unfolding require_field
index_price_state underlying value = do
  price ← require_field "index ticker" "idxPx" value.index_price
  ts ← require_field "index ticker" "ts" value.ts
  ok (record { index_id = underlying; price = price; exchange_timestamp_ms = ts })

unfoldable pub funding_rate_state :
    String → PublicFundingRate → Result MarketError (Option FundingState)
unfolding require_instrument require_field optional
funding_rate_state instrument_id funding = do
  require_instrument "funding rate" instrument_id funding.instrument_id
  rate ← require_field "funding rate" "fundingRate" funding.funding_rate
  funding_time ← require_field "funding rate" "fundingTime" funding.funding_time
  next_funding_time ← require_field "funding rate" "nextFundingTime" funding.next_funding_time
  ts ← require_field "funding rate" "ts" funding.ts
  ok (
      some (record {
        rate = rate;
        funding_time_ms = funding_time;
        next_funding_time_ms = next_funding_time;
        premium = optional funding.premium;
        min_rate = optional funding.min_funding_rate;
        max_rate = optional funding.max_funding_rate;
        exchange_timestamp_ms = ts;
      }))

abbrev or_missing : Option String → String
or_missing none = "<missing>"
or_missing (some rule) = rule

-- The `match` on the funding requirement of the instrument.
unfoldable pub funding_state :
    FundingRequirement
    → String
    → Option String
    → Option PublicFundingRate
    → Result MarketError (Option FundingState)
unfolding funding_rate_state
funding_state required instrument_id rule_type none = err funding_required
funding_state required instrument_id rule_type (some funding) =
    funding_rate_state instrument_id funding
funding_state not_applicable instrument_id rule_type none = ok none
funding_state not_applicable instrument_id rule_type (some funding) = err unexpected_funding
funding_state unknown instrument_id rule_type funding =
    err (unknown_funding_requirement instrument_id (or_missing rule_type))

unfoldable pub open_interest_state : PublicOpenInterest → Result MarketError OpenInterestState
unfolding require_field optional
open_interest_state value = do
  contracts ← require_field "open interest" "oi" value.oi
  ts ← require_field "open interest" "ts" value.ts
  ok (record {
    contracts = contracts;
    currency = optional value.oi_currency;
    usd = optional value.oi_usd;
    exchange_timestamp_ms = ts;
  })

module _ (digest : GenerationInput → Option String) where
  unfoldable pub generation_for : MarketSnapshot → Result MarketError String
  generation_for snapshot =
      ok_or
        (digest (record {
          schema = "okx.market-snapshot/v1";
          instrument_id = snapshot.instrument_id;
          instrument_type = snapshot.instrument_type;
          underlying = snapshot.underlying;
          reference_generation = snapshot.reference_generation;
          ticker = snapshot.ticker;
          mark_price = snapshot.mark_price;
          index_price = snapshot.index_price;
          funding = snapshot.funding;
          open_interest = snapshot.open_interest;
        }))
        serialization

  -- What `from_bootstrap` does once the instrument is known to be live and to have an index.
  unfoldable pub snapshot_of :
      ReferenceRegistry
      → InstrumentSpec
      → String
      → String
      → String
      → MarketBootstrap
      → Result MarketError MarketSnapshot
  unfolding require_instrument ticker_state mark_price_state index_price_state funding_state
      open_interest_state generation_for
  snapshot_of reference instrument instrument_id underlying source_received_at bootstrap = do
    require_instrument "ticker" instrument_id bootstrap.ticker.instrument_id
    require_instrument "mark price" instrument_id bootstrap.mark_price.instrument_id
    require_instrument "open interest" instrument_id bootstrap.open_interest.instrument_id
    reject (not (str_eq bootstrap.index_ticker.instrument_id underlying))
        (index_mismatch underlying bootstrap.index_ticker.instrument_id)
    ticker ← ticker_state bootstrap.ticker
    mark_price ← mark_price_state bootstrap.mark_price
    index_price ← index_price_state underlying bootstrap.index_ticker
    funding ←
        funding_state instrument.funding_requirement instrument_id instrument.rule_type
          bootstrap.funding_rate
    open_interest ← open_interest_state bootstrap.open_interest
    let snapshot : MarketSnapshot = record {
      schema = "okx.market-snapshot/v1";
      instrument_id = instrument_id;
      instrument_type = instrument.instrument_type;
      underlying = underlying;
      reference_generation = reference.generation;
      market_generation = "";
      source_received_at = source_received_at;
      ticker = ticker;
      mark_price = mark_price;
      index_price = index_price;
      funding = funding;
      open_interest = open_interest;
    }
    generation ← generation_for snapshot
    ok (record snapshot { market_generation = generation })

  unfoldable pub from_bootstrap :
      ReferenceRegistry → String → String → MarketBootstrap → Result MarketError MarketSnapshot
  unfolding snapshot_of
  from_bootstrap reference instrument_id source_received_at bootstrap = do
    reject (is_blank source_received_at) empty_source_timestamp
    instrument ←
        ok_or (get instrument_id reference.instruments) (instrument_not_found instrument_id)
    reject (not (str_eq instrument.state "live")) (instrument_not_live instrument_id)
    underlying ← ok_or (not_blank instrument.underlying) (missing_underlying instrument_id)
    snapshot_of reference instrument instrument_id underlying source_received_at bootstrap

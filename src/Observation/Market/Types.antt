-- ===== src/Observation/Market/Types.antt =====
-- The types of crates/okx-observation/src/market.rs.
use Prim.Native.String.{String}
use okx.Prelude.{Bool, Option}
use okx.Api.PublicData.{
  InstrumentType, PublicTicker, PublicMarkPrice, PublicIndexTicker, PublicFundingRate,
  PublicOpenInterest,
}

pub record MarketBootstrap : Type 0 where
  pub ticker : PublicTicker
  pub mark_price : PublicMarkPrice
  pub index_ticker : PublicIndexTicker
  pub funding_rate : Option PublicFundingRate
  pub open_interest : PublicOpenInterest

pub record TickerState : Type 0 where
  pub last : String
  pub last_size : String
  pub best_ask : String
  pub best_ask_size : String
  pub best_bid : String
  pub best_bid_size : String
  pub open_24h : Option String
  pub high_24h : Option String
  pub low_24h : Option String
  pub volume_currency_24h : Option String
  pub volume_24h : Option String
  pub exchange_timestamp_ms : String

pub record MarketUniverseTicker : Type 0 where
  pub instrument_id : String
  pub instrument_type : InstrumentType
  pub last : Option String
  pub best_bid : Option String
  pub best_ask : Option String
  pub open_24h : Option String
  pub volume_24h : Option String
  pub volume_currency_24h : Option String
  pub exchange_timestamp_ms : String

pub record MarkPriceState : Type 0 where
  pub price : String
  pub exchange_timestamp_ms : String

pub record IndexPriceState : Type 0 where
  pub index_id : String
  pub price : String
  pub exchange_timestamp_ms : String

pub record FundingState : Type 0 where
  pub rate : String
  pub funding_time_ms : String
  pub next_funding_time_ms : String
  pub premium : Option String
  pub min_rate : Option String
  pub max_rate : Option String
  pub exchange_timestamp_ms : String

pub record OpenInterestState : Type 0 where
  pub contracts : String
  pub currency : Option String
  pub usd : Option String
  pub exchange_timestamp_ms : String

pub record MarketSnapshot : Type 0 where
  pub schema : String
  pub instrument_id : String
  pub instrument_type : InstrumentType
  pub underlying : String
  pub reference_generation : String
  pub market_generation : String
  pub source_received_at : String
  pub ticker : TickerState
  pub mark_price : MarkPriceState
  pub index_price : IndexPriceState
  pub funding : Option FundingState
  pub open_interest : OpenInterestState

pub record SnapshotQualityReport : Type 0 where
  pub schema : String
  pub instrument_id : String
  pub reference_generation : String
  pub reference_source_received_at : String
  pub market_mode : String
  pub persistent_ws_connected : Bool
  pub sequence_continuity_proven : Bool
  pub reason : String

-- What the generation of a snapshot is the digest of.
pub record GenerationInput : Type 0 where
  pub schema : String
  pub instrument_id : String
  pub instrument_type : InstrumentType
  pub underlying : String
  pub reference_generation : String
  pub ticker : TickerState
  pub mark_price : MarkPriceState
  pub index_price : IndexPriceState
  pub funding : Option FundingState
  pub open_interest : OpenInterestState

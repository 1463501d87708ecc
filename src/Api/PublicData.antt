-- ===== src/Api/PublicData.antt =====
-- The public data of the exchange that the observation reads: types of
-- crates/okx-api/src/market_data.rs, crates/okx-api/src/public_data.rs and
-- crates/okx-api/src/instrument.rs.
use Prim.Native.String.{String}
use okx.Prelude.{List}

pub data InstrumentType : Type 0 where
  swap futures : InstrumentType

pub record PublicTicker : Type 0 where
  pub instrument_type : String
  pub instrument_id : String
  pub last : String
  pub last_size : String
  pub ask_price : String
  pub ask_size : String
  pub bid_price : String
  pub bid_size : String
  pub open_24h : String
  pub high_24h : String
  pub low_24h : String
  pub volume_currency_24h : String
  pub volume_24h : String
  pub sod_utc0 : String
  pub sod_utc8 : String
  pub ts : String

pub record PublicMarkPrice : Type 0 where
  pub instrument_type : String
  pub instrument_id : String
  pub mark_price : String
  pub ts : String

pub record PublicIndexTicker : Type 0 where
  pub instrument_id : String
  pub index_price : String
  pub open_24h : String
  pub high_24h : String
  pub low_24h : String
  pub sod_utc0 : String
  pub sod_utc8 : String
  pub ts : String

pub record PublicFundingRate : Type 0 where
  pub instrument_type : String
  pub instrument_id : String
  pub funding_rate : String
  pub funding_time : String
  pub next_funding_time : String
  pub impact_value : String
  pub interest_rate : String
  pub premium : String
  pub min_funding_rate : String
  pub max_funding_rate : String
  pub method : String
  pub formula_type : String
  pub settlement_state : String
  pub settled_funding_rate : String
  pub ts : String

pub record PublicOpenInterest : Type 0 where
  pub instrument_type : String
  pub instrument_id : String
  pub oi : String
  pub oi_currency : String
  pub oi_usd : String
  pub ts : String

pub record UpcomingParameterChange : Type 0 where
  pub param : String
  pub new_value : String
  pub effective_time_ms : String

pub record PublicInstrument : Type 0 where
  pub instrument_type : String
  pub instrument_id : String
  pub instrument_family : String
  pub underlying : String
  pub state : String
  pub rule_type : String
  pub base_currency : String
  pub quote_currency : String
  pub settle_currency : String
  pub tick_size : String
  pub lot_size : String
  pub min_size : String
  pub max_limit_size : String
  pub max_market_size : String
  pub max_limit_amount : String
  pub max_market_amount : String
  pub contract_type : String
  pub contract_value : String
  pub contract_value_currency : String
  pub fee_group_id : String
  pub lever : String
  pub list_time : String
  pub expiry_time : String
  pub initial_price_limit_pct : String
  pub floating_price_limit_pct : String
  pub maximum_price_limit_pct : String
  pub upcoming_parameter_changes : List UpcomingParameterChange

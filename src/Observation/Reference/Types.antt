-- ===== src/Observation/Reference/Types.antt =====
-- crates/okx-observation/src/reference.rs: the types of the instruments of the exchange and their
-- rules.
use Prim.Native.String.{String}
use okx.Prelude.{List, Option}
use okx.Prelude.Maps.{String-discrete}
use okx.Api.PublicData.{InstrumentType}

pub data FundingRequirement : Type 0 where
  required not_applicable unknown : FundingRequirement

pub record UpcomingRuleChange : Type 0 where
  pub param : String
  pub new_value : String
  pub effective_time_ms : String

pub record InstrumentSpec : Type 0 where
  pub instrument_id : String
  pub instrument_type : InstrumentType
  pub instrument_family : Option String
  pub underlying : Option String
  pub state : String
  pub rule_type : Option String
  pub funding_requirement : FundingRequirement
  pub base_currency : Option String
  pub quote_currency : Option String
  pub settle_currency : Option String
  pub tick_size : String
  pub lot_size : String
  pub min_size : String
  pub max_limit_size : Option String
  pub max_market_size : Option String
  pub max_limit_amount : Option String
  pub max_market_amount : Option String
  pub contract_type : Option String
  pub contract_value : Option String
  pub contract_value_currency : Option String
  pub fee_group_id : Option String
  pub max_leverage : Option String
  pub list_time_ms : Option String
  pub expiry_time_ms : Option String
  pub initial_price_limit_pct : Option String
  pub floating_price_limit_pct : Option String
  pub maximum_price_limit_pct : Option String
  pub upcoming_rule_changes : List UpcomingRuleChange

pub record ReferenceRegistry : Type 0 where
  pub source_received_at : String
  pub generation : String
  pub instruments : List (String × InstrumentSpec)

pub record InstrumentRulesSnapshot : Type 0 where
  pub reference_generation : String
  pub source_received_at : String
  pub instrument : InstrumentSpec

pub record InstrumentSearchSnapshot : Type 0 where
  pub reference_generation : String
  pub source_received_at : String
  pub asset : String
  pub settle_currency : Option String
  pub instrument_type : Option InstrumentType
  pub instruments : List InstrumentSpec

pub data ReferenceError : Type 0 where
  empty_source_timestamp : ReferenceError
  unsupported_instrument_type : String → ReferenceError
  missing_required_field : (instrument_id field : String) → ReferenceError
  duplicate_instrument : String → ReferenceError
  unsupported_upcoming_parameter malformed_upcoming_parameter :
      (instrument_id param : String) → ReferenceError
  serialization : ReferenceError

unfoldable pub InstrumentSpec-discrete : Discrete InstrumentSpec
InstrumentSpec-discrete = hlevel String-discrete

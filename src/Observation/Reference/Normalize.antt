-- ===== src/Observation/Reference/Normalize.antt =====
-- crates/okx-observation/src/reference.rs: one instrument of the exchange, checked and tidied.
use Prim.Native.String.{String}
use text.Mathlib.Text.{◌==◌ as str_eq}
use okx.Prelude.{
  ℕ, Bool, false, not, ◌&&◌, ◌||◌, List, [], ◌∷◌, Option, none, some, ltb, if◌then◌else◌,
}
use okx.Prelude.Texts.{trim, is_blank, parse_u64, str_lt}
use okx.Prelude.Results.{Result, ok, err, ◌>>=◌, ◌>>◌, reject}
use okx.Api.PublicData.{InstrumentType, swap, futures, PublicInstrument, UpcomingParameterChange}
use okx.Observation.Reference.Types.{
  FundingRequirement, required, not_applicable, unknown, UpcomingRuleChange, InstrumentSpec,
  ReferenceError, unsupported_instrument_type, missing_required_field,
  unsupported_upcoming_parameter, malformed_upcoming_parameter,
}

unfoldable pub require : String → String → String → Result ReferenceError String
require instrument_id value field =
    if is_blank value then err (missing_required_field instrument_id field) else ok value

unfoldable pub optional : String → Option String
optional value = if is_blank value then none else some value

unfoldable pub is_preopen : PublicInstrument → Bool
is_preopen instrument = str_eq (trim instrument.state) "preopen"

unfoldable pub is_incomplete_preopen_future_listing : PublicInstrument → Bool
unfolding is_preopen
is_incomplete_preopen_future_listing instrument =
    str_eq (trim instrument.instrument_type) "FUTURES"
    && is_preopen instrument
    && is_blank instrument.instrument_id
    && not (is_blank instrument.instrument_family)

-- The requirement of a future by its rule.
abbrev pub of_rule : String → FundingRequirement
of_rule rule =
    if str_eq rule "xperp" || str_eq rule "pre_market"
    then required
    else if str_eq rule "normal"
    then not_applicable
    else unknown

unfoldable pub funding_requirement : InstrumentType → Option String → FundingRequirement
funding_requirement swap rule_type = required
funding_requirement futures none = unknown
funding_requirement futures (some rule) = of_rule rule

-- The order of `sort_by`: on the time, then the parameter, then the value, each as a text.
abbrev pub before : UpcomingRuleChange → UpcomingRuleChange → Bool
before a b =
    str_lt a.effective_time_ms b.effective_time_ms
    || (str_eq a.effective_time_ms b.effective_time_ms
        && (str_lt a.param b.param || (str_eq a.param b.param && str_lt a.new_value b.new_value)))

-- A change goes in front of the first one that is not before it.
sort_in : UpcomingRuleChange → List UpcomingRuleChange → List UpcomingRuleChange
sort_in change [] = change ∷ []
sort_in change (c ∷ cs) =
    let rest = sort_in change cs in if before c change then c ∷ rest else change ∷ c ∷ cs

-- A stable sort.
sort : List UpcomingRuleChange → List UpcomingRuleChange
unfolding sort_in
sort [] = []
sort (change ∷ changes) = sort_in change (sort changes)

abbrev is_positive : Option ℕ → Bool
is_positive none = false
is_positive (some n) = ltb 0 n

-- One round of the loop of `normalize_upcoming_changes`.
normalize_change : String → UpcomingParameterChange → Result ReferenceError UpcomingRuleChange
normalize_change instrument_id change = do
  reject
      (not (
        str_eq change.param "tickSz"
        || str_eq change.param "minSz"
        || str_eq change.param "maxMktSz"))
      (unsupported_upcoming_parameter instrument_id change.param)
  reject (is_blank change.new_value || not (is_positive (parse_u64 change.effective_time_ms)))
      (malformed_upcoming_parameter instrument_id change.param)
  ok (record {
    param = change.param;
    new_value = change.new_value;
    effective_time_ms = change.effective_time_ms;
  })

normalize_changes :
    String → List UpcomingParameterChange → Result ReferenceError (List UpcomingRuleChange)
unfolding normalize_change
normalize_changes instrument_id [] = ok []
normalize_changes instrument_id (change ∷ changes) = do
  first ← normalize_change instrument_id change
  rest ← normalize_changes instrument_id changes
  ok (first ∷ rest)

unfoldable pub normalize_upcoming_changes :
    String → List UpcomingParameterChange → Result ReferenceError (List UpcomingRuleChange)
unfolding normalize_changes sort
normalize_upcoming_changes instrument_id changes = do
  normalized ← normalize_changes instrument_id changes
  ok (sort normalized)

abbrev pub instrument_type_of : String → Result ReferenceError InstrumentType
instrument_type_of text =
    if str_eq text "SWAP"
    then ok swap
    else if str_eq text "FUTURES"
    then ok futures
    else err (unsupported_instrument_type text)

-- `InstrumentSpec::try_from`
unfoldable pub try_from : PublicInstrument → Result ReferenceError InstrumentSpec
unfolding require optional funding_requirement
try_from value = do
  instrument_id ← require value.instrument_id value.instrument_id "instId"
  instrument_type ← instrument_type_of value.instrument_type
  upcoming_rule_changes ← normalize_upcoming_changes instrument_id value.upcoming_parameter_changes
  state ← require value.instrument_id value.state "state"
  tick_size ← require value.instrument_id value.tick_size "tickSz"
  lot_size ← require value.instrument_id value.lot_size "lotSz"
  min_size ← require value.instrument_id value.min_size "minSz"
  ok (record {
    instrument_id = instrument_id;
    instrument_type = instrument_type;
    instrument_family = optional value.instrument_family;
    underlying = optional value.underlying;
    state = state;
    rule_type = optional value.rule_type;
    funding_requirement = funding_requirement instrument_type (optional value.rule_type);
    base_currency = optional value.base_currency;
    quote_currency = optional value.quote_currency;
    settle_currency = optional value.settle_currency;
    tick_size = tick_size;
    lot_size = lot_size;
    min_size = min_size;
    max_limit_size = optional value.max_limit_size;
    max_market_size = optional value.max_market_size;
    max_limit_amount = optional value.max_limit_amount;
    max_market_amount = optional value.max_market_amount;
    contract_type = optional value.contract_type;
    contract_value = optional value.contract_value;
    contract_value_currency = optional value.contract_value_currency;
    fee_group_id = optional value.fee_group_id;
    max_leverage = optional value.lever;
    list_time_ms = optional value.list_time;
    expiry_time_ms = optional value.expiry_time;
    initial_price_limit_pct = optional value.initial_price_limit_pct;
    floating_price_limit_pct = optional value.floating_price_limit_pct;
    maximum_price_limit_pct = optional value.maximum_price_limit_pct;
    upcoming_rule_changes = upcoming_rule_changes;
  })

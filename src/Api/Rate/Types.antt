-- ===== src/Api/Rate/Types.antt =====
-- The types of crates/okx-api/src/rate.rs. An `Instant` is a number of nanoseconds on the
-- monotonic clock.
use Prim.Native.String.{String}
use okx.Prelude.{ℕ, Bool, List, Option}
use okx.Prelude.Maps.{String-discrete}

pub data RateOperationClass : Type 0 where
  public_rest_read private_rest_read ws_login ws_subscribe ws_unsubscribe place_order amend_order
        amend_algo_order cancel_order ws_place_order ws_amend_order ws_cancel_order :
      RateOperationClass

pub data RateDomainKind : Type 0 where
  public_rest_ip private_rest_user ws_connection_control ws_order_user trade_place_instrument
        trade_amend_instrument trade_cancel_instrument trade_place_family trade_amend_family
        trade_cancel_family subaccount_aggregate :
      RateDomainKind

pub data RateThrottleSource : Type 0 where
  local_budget exchange : RateThrottleSource

pub data RateDecision : Type 0 where
  deferred rejected : RateDecision

pub record RateDomainKey : Type 0 where
  pub kind : RateDomainKind
  pub endpoint : Option String
  pub scope : Option String

unfoldable pub RateDomainKind-discrete : Discrete RateDomainKind
RateDomainKind-discrete = hlevel

unfoldable pub RateDomainKey-discrete : Discrete RateDomainKey
unfolding RateDomainKind-discrete String-discrete
RateDomainKey-discrete = hlevel (RateDomainKind-discrete, String-discrete)

pub record RateWindowSpec : Type 0 where
  pub key : RateDomainKey
  pub max_requests : ℕ  -- u32
  pub window_ms : ℕ  -- u64

pub record RateRequestPlan : Type 0 where
  pub operation : RateOperationClass
  pub domains : List RateWindowSpec

pub record RateDomainEvidence : Type 0 where
  pub kind : RateDomainKind
  pub endpoint : Option String
  pub scope : Option String
  pub local_max_requests : ℕ
  pub local_window_ms : ℕ

pub record RateThrottleEvidence : Type 0 where
  pub schema : String
  pub source : RateThrottleSource
  pub exchange_code : Option String
  pub operation : RateOperationClass
  pub domain : RateDomainEvidence
  pub attempt_count : ℕ
  pub local_defer_ms : ℕ
  pub server_retry_after_ms : Option ℕ
  pub request_sent : Bool
  pub retryable : Bool
  pub decision : RateDecision

pub record RateBudgetSnapshot : Type 0 where
  pub schema : String
  pub tracked_domains : ℕ
  pub current_subaccount_limit_per_2s : ℕ
  pub next_subaccount_limit_per_2s : Option ℕ
  pub exchange_rate_limit_observed_at_ms : Option ℕ
  pub last_throttle : Option RateThrottleEvidence

-- The oldest attempt stands first.
pub record RateWindowState : Type 0 where
  pub attempts : List ℕ
  pub blocked_until : Option ℕ

pub record RateBudgetState : Type 0 where
  pub windows : List (RateDomainKey × RateWindowState)
  pub current_subaccount_limit_per_2s : ℕ
  pub next_subaccount_limit_per_2s : Option ℕ
  pub exchange_rate_limit_observed_at_ms : Option ℕ
  pub last_throttle : Option RateThrottleEvidence

abbrev pub rate_throttle_schema_v1 : String
rate_throttle_schema_v1 = "okx.rate-throttle/v1"

abbrev pub rate_budget_snapshot_schema_v1 : String
rate_budget_snapshot_schema_v1 = "okx.rate-budget/v1"

abbrev pub general_rate_limit_code : String
general_rate_limit_code = "50011"

abbrev pub subaccount_rate_limit_code : String
subaccount_rate_limit_code = "50061"

abbrev pub default_subaccount_order_limit_per_2s : ℕ
default_subaccount_order_limit_per_2s = 1000

abbrev pub local_fallback_limit : ℕ
local_fallback_limit = 1

abbrev pub local_fallback_window_ms : ℕ
local_fallback_window_ms = 1000

abbrev pub trade_instrument_limit_per_2s : ℕ
trade_instrument_limit_per_2s = 60

abbrev pub trade_window_ms : ℕ
trade_window_ms = 2000

abbrev pub ws_control_limit_per_hour : ℕ
ws_control_limit_per_hour = 480

abbrev pub ws_control_window_ms : ℕ
ws_control_window_ms = 3600000

abbrev pub max_local_defer_ms : ℕ
max_local_defer_ms = 10000

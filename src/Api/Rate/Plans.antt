-- ===== src/Api/Rate/Plans.antt =====
-- crates/okx-api/src/rate.rs: which windows a request is held to.
pub mod Ready
pub mod Shared
use Prim.Native.String.{String, ◌++◌ as str_append}
use text.Mathlib.Text.{◌==◌ as str_eq}
use okx.Prelude.{ℕ, ◌||◌, List, [], ◌∷◌, Option, none, some, max, if◌then◌else◌}
use okx.Api.Rate.Types.{
  RateOperationClass, public_rest_read, private_rest_read, place_order, amend_order,
  amend_algo_order, cancel_order, ws_place_order, ws_amend_order, ws_cancel_order, RateDomainKind,
  public_rest_ip, private_rest_user, ws_connection_control, ws_order_user, trade_place_instrument,
  trade_amend_instrument, trade_cancel_instrument, trade_place_family, trade_amend_family,
  trade_cancel_family, subaccount_aggregate, RateWindowSpec, RateRequestPlan, RateBudgetState,
  local_fallback_limit, local_fallback_window_ms, trade_instrument_limit_per_2s, trade_window_ms,
  ws_control_limit_per_hour, ws_control_window_ms,
}

-- The arms of a `match` on a text, in order, and what its last arm gives.
abbrev by_text {ℓ} : {A : Type ℓ} → String → List (String × A) → A → A
by_text path [] other = other
by_text path ((arm, a) ∷ arms) other = if str_eq path arm then a else by_text path arms other

unfoldable pub param : List (String × String) → String → Option String
param [] key = none
param ((candidate, value) ∷ params) key =
    if str_eq candidate key then some value else param params key

abbrev prefixed : String → Option String → Option String
prefixed p none = none
prefixed p (some value) = some (str_append p value)

abbrev or_else : Option String → Option String → Option String
or_else none other = other
or_else (some v) other = some v

-- The limits that `public_rest_policy` lists.
abbrev public_arms : List (String × (ℕ × ℕ))
public_arms =
    ("/api/v5/public/time", (5, 2000))
    ∷ ("/api/v5/public/instruments", (10, 2000))
    ∷ ("/api/v5/market/ticker", (10, 2000))
    ∷ ("/api/v5/market/tickers", (20, 2000))
    ∷ ("/api/v5/market/trades", (100, 2000))
    ∷ ("/api/v5/public/mark-price", (10, 2000))
    ∷ ("/api/v5/market/index-tickers", (10, 2000))
    ∷ ("/api/v5/public/funding-rate", (10, 2000))
    ∷ ("/api/v5/public/funding-rate-history", (10, 2000))
    ∷ ("/api/v5/public/open-interest", (10, 2000))
    ∷ ("/api/v5/rubik/stat/contracts/open-interest-history", (10, 2000))
    ∷ ("/api/v5/market/history-candles", (10, 2000))
    ∷ ("/api/v5/public/price-limit", (10, 2000))
    ∷ ("/api/v5/system/status", (1, 1000))
    ∷ []

public_limits : String → ℕ × ℕ
public_limits path = by_text path public_arms (local_fallback_limit, local_fallback_window_ms)

public_scope : String → List (String × String) → Option String
unfolding param
public_scope path params =
    if str_eq path "/api/v5/public/funding-rate-history"
      || str_eq path "/api/v5/rubik/stat/contracts/open-interest-history"
    then or_else (prefixed "public_ip+instrument:" (param params "instId")) (some "public_ip")
    else some "public_ip"

-- `public_rest_policy`: the limit, the window and the scope.
unfoldable pub public_rest_policy : String → List (String × String) → ℕ × ℕ × Option String
unfolding public_limits public_scope
public_rest_policy path params =
    ((public_limits path).0, (public_limits path).1, public_scope path params)

-- The limits that `private_rest_policy` lists.
abbrev private_arms : List (String × (ℕ × ℕ))
private_arms =
    ("/api/v5/account/config", (5, 2000))
    ∷ ("/api/v5/account/instruments", (20, 2000))
    ∷ ("/api/v5/account/max-size", (20, 2000))
    ∷ ("/api/v5/account/leverage-info", (20, 2000))
    ∷ ("/api/v5/account/trade-fee", (5, 2000))
    ∷ ("/api/v5/account/balance", (10, 2000))
    ∷ ("/api/v5/account/positions", (10, 2000))
    ∷ ("/api/v5/account/account-position-risk", (10, 2000))
    ∷ ("/api/v5/account/position-builder", (2, 2000))
    ∷ ("/api/v5/account/positions-history", (10, 2000))
    ∷ ("/api/v5/asset/balances", (6, 1000))
    ∷ ("/api/v5/trade/orders-pending", (60, 2000))
    ∷ ("/api/v5/trade/orders-algo-pending", (20, 2000))
    ∷ ("/api/v5/trade/cancel-algos", (20, 2000))
    ∷ ("/api/v5/trade/amend-algos", (20, 2000))
    ∷ ("/api/v5/trade/order-algo", (20, 2000))
    ∷ ("/api/v5/trade/orders-history", (40, 2000))
    ∷ ("/api/v5/trade/orders-history-archive", (20, 2000))
    ∷ ("/api/v5/trade/fills-history", (10, 2000))
    ∷ ("/api/v5/account/bills-archive", (5, 2000))
    ∷ ("/api/v5/trade/account-rate-limit", (1, 1000))
    ∷ ("/api/v5/trade/order", (60, 2000))
    ∷ []

private_limits : String → ℕ × ℕ
private_limits path = by_text path private_arms (local_fallback_limit, local_fallback_window_ms)

private_scope : String → List (String × String) → Option String
unfolding param
private_scope path params =
    if str_eq path "/api/v5/account/instruments"
    then prefixed "authenticated_user+inst_type:" (param params "instType")
    else if str_eq path "/api/v5/trade/order"
        || str_eq path "/api/v5/trade/cancel-algos"
        || str_eq path "/api/v5/trade/amend-algos"
    then prefixed "authenticated_user+instrument:" (param params "instId")
    else some "authenticated_user"

-- `private_rest_policy`
unfoldable pub private_rest_policy : String → List (String × String) → ℕ × ℕ × Option String
unfolding private_limits private_scope
private_rest_policy path params =
    ((private_limits path).0, (private_limits path).1, private_scope path params)

-- A plan with one window.
abbrev single :
    RateOperationClass → RateDomainKind → Option String → Option String → ℕ → ℕ → RateRequestPlan
single operation kind endpoint scope max_requests window_ms = record {
  operation = operation;
  domains =
      record {
        key = record { kind = kind; endpoint = endpoint; scope = scope };
        max_requests = max_requests;
        window_ms = window_ms;
      }
      ∷ [];
}

unfoldable pub public_rest_plan : String → List (String × String) → RateRequestPlan
unfolding public_rest_policy
public_rest_plan path params =
    let policy = public_rest_policy path params in
    single public_rest_read public_rest_ip (some path) (policy.2) (policy.0) (policy.1)

unfoldable pub private_rest_plan : String → List (String × String) → RateRequestPlan
unfolding private_rest_policy
private_rest_plan path params =
    let policy = private_rest_policy path params in
    single private_rest_read private_rest_user (some path) (policy.2) (policy.0) (policy.1)

unfoldable pub amend_algo_rest_plan : String → RateRequestPlan
unfolding private_rest_plan
amend_algo_rest_plan instrument_id =
    let plan = private_rest_plan "/api/v5/trade/amend-algos" (("instId", instrument_id) ∷ []) in
    record plan { operation = amend_algo_order }

-- `trade_domain` of `trade_rest_plan`
trade_domain : RateOperationClass → Option String → RateDomainKind
trade_domain place_order (some _) = trade_place_family
trade_domain amend_order (some _) = trade_amend_family
trade_domain cancel_order (some _) = trade_cancel_family
trade_domain place_order none = trade_place_instrument
trade_domain amend_order none = trade_amend_instrument
trade_domain cancel_order none = trade_cancel_instrument
trade_domain _ _ = ws_order_user

trade_endpoint : RateOperationClass → String
trade_endpoint place_order = "/api/v5/trade/order"
trade_endpoint amend_order = "/api/v5/trade/amend-order"
trade_endpoint cancel_order = "/api/v5/trade/cancel-order"
trade_endpoint _ = "trade"

abbrev unwrap_or : Option String → String → String
unwrap_or none other = other
unwrap_or (some v) other = v

-- The window over all orders of the sub-account, for placing and amending only.
aggregate : RateOperationClass → ℕ → List RateWindowSpec
aggregate operation current_limit = elim operation [
  | place_order ↦ window ∷ []
  | amend_order ↦ window ∷ []
  | _ ↦ []
]
  where
    window : RateWindowSpec
    window = record {
      key = record {
        kind = subaccount_aggregate;
        endpoint = none;
        scope = some "authenticated_subaccount";
      };
      max_requests = max current_limit 1;
      window_ms = trade_window_ms;
    }

unfoldable pub trade_rest_plan :
    RateBudgetState → RateOperationClass → String → Option String → RateRequestPlan
unfolding trade_domain trade_endpoint aggregate
trade_rest_plan state operation instrument_id instrument_family = record {
  operation = operation;
  domains =
      record {
        key = record {
          kind = trade_domain operation instrument_family;
          endpoint = some (trade_endpoint operation);
          scope = some (unwrap_or instrument_family instrument_id);
        };
        max_requests = trade_instrument_limit_per_2s;
        window_ms = trade_window_ms;
      }
      ∷ aggregate operation state.current_subaccount_limit_per_2s;
}

-- The assertion of a debug build, that the operation is a login or a subscription, is left out.
unfoldable pub ws_control_plan : RateOperationClass → String → RateRequestPlan
ws_control_plan operation connection_scope =
    single operation ws_connection_control none (some connection_scope) ws_control_limit_per_hour
      ws_control_window_ms

rest_equivalent : RateOperationClass → RateOperationClass
rest_equivalent ws_place_order = place_order
rest_equivalent ws_amend_order = amend_order
rest_equivalent ws_cancel_order = cancel_order
rest_equivalent operation = operation

unfoldable pub ws_order_plan :
    RateBudgetState → RateOperationClass → String → Option String → RateRequestPlan
unfolding rest_equivalent trade_rest_plan
ws_order_plan state operation instrument_id instrument_family =
    let plan = trade_rest_plan state (rest_equivalent operation) instrument_id instrument_family in
    record plan { operation = operation }

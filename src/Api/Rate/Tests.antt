-- ===== src/Api/Rate/Tests.antt =====
-- crates/okx-api/src/rate.rs: a full window, a throttle of the exchange, and plans.
use okx.Prelude.{
  ◌+◌, ◌≤◌, ◌<◌, ◌≡◌, ◌≢◌, refl, true, false, List, [], ◌∷◌, Option, none, some, All, length, arith,
}
use okx.Prelude.Maps.{String-discrete}
use okx.Api.Rate.Types.{
  public_rest_read, place_order, ws_place_order, public_rest_ip, RateDomainKey,
  RateDomainKind-discrete, RateDomainKey-discrete, RateWindowSpec, RateRequestPlan, RateBudgetState,
  RateThrottleEvidence, local_budget, exchange, deferred,
}
use okx.Api.Rate.Budget.{
  new, from_millis, duration_ms_ceil, prune, full_wait, examine, constrain, window_of, put_window,
  scan, record_attempts, admitted, throttled, admit_at, record_exchange_throttle, exchange_defer_ms,
  select_exchange_domain, block_all, decide, domain_evidence,
}
use okx.Api.Rate.Plans.{trade_rest_plan, ws_order_plan}
use okx.Api.Rate.Plans.Ready.{IsReady, trade_rest_plan-IsReady}
use okx.Api.Rate.Plans.Shared.{placing, Shares, ws_order_plan-Shares}
use okx.Api.Rate.Windows.{find_spec}
use okx.Api.Rate.Spaced.{Spaced}
use okx.Api.Rate.Sliding.{Call, admits, throttles, limits, log, InOrder, log-Spaced}
use okx.Api.Rate.Throttle.{PutOff, admit_at-PutOff, Reported, throttle_reports}
use okx.Api.Rate.Blocked.{run, throttle_blocks}
use okx.Api.Rate.Retry.{retry_admitted}

abbrev key : RateDomainKey
key = record { kind = public_rest_ip; endpoint = some "/time"; scope = none }

abbrev spec : RateWindowSpec
spec = record { key = key; max_requests = 1; window_ms = 2000 }

abbrev pub plan : RateRequestPlan
plan = record { operation = public_rest_read; domains = spec ∷ [] }

-- One request at the instant 5000000.
abbrev pub once : RateBudgetState
once = (admit_at new plan 5000000).0

abbrev pub evidence : RateThrottleEvidence
evidence = record {
  schema = "okx.rate-throttle/v1";
  source = local_budget;
  exchange_code = none;
  operation = public_rest_read;
  domain = domain_evidence spec;
  attempt_count = 1;
  local_defer_ms = 1997;
  server_retry_after_ms = none;
  request_sent = false;
  retryable = true;
  decision = deferred;
}

-- The window that holds the first request.
abbrev pub busy : RateBudgetState
busy = (admit_at once plan 8000000).0

pub put_off : admit_at once plan 8000000 ≡ (busy, throttled evidence)
unfolding admit_at decide scan examine prune full_wait constrain window_of put_window
    record_attempts duration_ms_ceil new RateDomainKey-discrete RateDomainKind-discrete
    String-discrete domain_evidence
put_off = refl

admit_at-PutOff_example : PutOff once plan 8000000 busy evidence
admit_at-PutOff_example = admit_at-PutOff once plan 8000000 put_off

not_blocked : (window_of once.windows key).blocked_until ≡ none
unfolding admit_at decide scan examine prune full_wait constrain window_of put_window
    record_attempts duration_ms_ceil new RateDomainKey-discrete RateDomainKind-discrete
    String-discrete domain_evidence
not_blocked = refl

one_attempt : (window_of once.windows key).attempts ≡ 5000000 ∷ []
unfolding admit_at decide scan examine prune full_wait constrain window_of put_window
    record_attempts duration_ms_ceil new RateDomainKey-discrete RateDomainKind-discrete
    String-discrete domain_evidence
one_attempt = refl

few_attempts : length (window_of once.windows key).attempts ≤ 1
few_attempts = rw one_attempt (omega arith)

short_attempts :
    All (λ a. a + from_millis 2000 < 18446744073709551615) (window_of once.windows key).attempts
short_attempts = rw one_attempt (omega arith, tt)

retry_admitted_example : (admit_at busy plan (8000000 + from_millis 1997)).1 ≡ admitted
retry_admitted_example =
    retry_admitted once plan spec 8000000 refl not_blocked few_attempts short_attempts put_off
      (omega arith)

abbrev blocked : Option (RateBudgetState × RateThrottleEvidence)
blocked = record_exchange_throttle once plan "50011" (some 3000) 6000000

abbrev blocked_evidence : RateThrottleEvidence
blocked_evidence = record evidence {
  source = exchange;
  exchange_code = some "50011";
  local_defer_ms = 3000;
  server_retry_after_ms = some 3000;
  request_sent = true;
}

abbrev blocked_state : RateBudgetState
blocked_state = record once {
  windows = block_all plan.domains (6000000 + from_millis 3000) once.windows;
  last_throttle = some blocked_evidence;
}

throttle_recorded :
    record_exchange_throttle once plan "50011" (some 3000) 6000000
    ≡ some (blocked_state, blocked_evidence)
unfolding record_exchange_throttle exchange_defer_ms select_exchange_domain
throttle_recorded = refl

key_found : find_spec key plan.domains ≡ some spec
unfolding RateDomainKey-discrete RateDomainKind-discrete String-discrete
key_found = refl

-- What comes between the throttle and the request: two requests, one of them after the window has
-- emptied, a new limit and another throttle.
abbrev between : List Call
between =
    admits plan 7000000
    ∷ limits 10 none 5
    ∷ throttles plan "50011" none 8000000
    ∷ admits plan 3000000000
    ∷ []

throttle_blocks_example : (admit_at (run blocked_state between) plan 3005999999).1 ≢ admitted
throttle_blocks_example =
    throttle_blocks once plan "50011" (some 3000) 6000000 throttle_recorded key spec key_found
      between (omega arith, (refl, tt), (omega arith, (refl, tt), tt)) plan spec (refl, tt)
      key_found 3005999999 (omega arith)

throttle_reports_example : Reported plan "50011" (some 3000) blocked_state blocked_evidence
throttle_reports_example = throttle_reports once plan "50011" (some 3000) 6000000 throttle_recorded

-- Two requests that are let through, one that is put off in between and a throttle.
abbrev calls : List Call
calls =
    admits plan 5000000
    ∷ admits plan 8000000
    ∷ throttles plan "50011" (some 1) 8000000
    ∷ admits plan 2006000000
    ∷ []

calls-InOrder : InOrder key 1 2000000000 0 calls
unfolding RateDomainKey-discrete RateDomainKind-discrete String-discrete
calls-InOrder = (
  omega arith,
  (refl, tt),
  (omega arith, omega arith),
  (
    omega arith,
    (refl, tt),
    (omega arith, omega arith),
    (omega arith, (refl, tt), (omega arith, omega arith), tt),
  ),
)

log-Spaced_example : Spaced 1 2000000000 (log key new calls)
log-Spaced_example = log-Spaced key 1 2000000000 calls (omega arith) (omega arith) calls-InOrder

trade_rest_plan-IsReady_example :
    IsReady (trade_rest_plan new place_order "BTC-USDT" (some "BTC-USD"))
trade_rest_plan-IsReady_example =
    trade_rest_plan-IsReady new place_order "BTC-USDT" (some "BTC-USD")

ws_order_plan-Shares_example :
    Shares new ws_place_order place_order
      (ws_order_plan new ws_place_order "BTC-USDT" none)
      (trade_rest_plan new place_order "BTC-USDT" none)
ws_order_plan-Shares_example = ws_order_plan-Shares new "BTC-USDT" none placing

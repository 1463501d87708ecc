-- ===== src/Api/Rate/Budget.antt =====
-- crates/okx-api/src/rate.rs: admission to the windows of a plan, and the answers of the exchange.
use Prim.Native.String.{String}
use text.Mathlib.Text.{◌==◌ as str_eq}
use okx.Prelude.{
  ℕ, ◌+◌, ◌-◌, ◌*◌, ◌/◌, ◌%◌, true, false, List, [], ◌∷◌, ◌++◌, Option, none, some, max, ltb, leb,
  ◌==◌, if◌then◌else◌, length,
}
use okx.Prelude.Words.{saturating_add}
use okx.Prelude.Maps.{lookup, insert}
use okx.Api.Rate.Types.{
  local_budget, exchange, deferred, subaccount_aggregate, RateDomainKey, RateDomainKey-discrete,
  RateWindowSpec, RateRequestPlan, RateDomainEvidence, RateThrottleEvidence, RateBudgetSnapshot,
  RateWindowState, RateBudgetState, rate_throttle_schema_v1, rate_budget_snapshot_schema_v1,
  subaccount_rate_limit_code, default_subaccount_order_limit_per_2s, local_fallback_window_ms,
  trade_window_ms, max_local_defer_ms,
}

unfoldable pub new : RateBudgetState
new = record {
  windows = [];
  current_subaccount_limit_per_2s = default_subaccount_order_limit_per_2s;
  next_subaccount_limit_per_2s = none;
  exchange_rate_limit_observed_at_ms = none;
  last_throttle = none;
}

-- `Duration::from_millis`, in nanoseconds
abbrev pub from_millis : ℕ → ℕ
from_millis ms = ms * 1000000

-- `duration_ms_ceil` of a duration in nanoseconds
unfoldable pub duration_ms_ceil : ℕ → ℕ
duration_ms_ceil duration =
    let millis = duration / 1000000 in
    saturating_add (if ltb millis 18446744073709551616 then millis else 18446744073709551615)
      (if duration % 1000000 == 0 then 0 else 1)

-- `value.clamp(low, high)`
abbrev pub clamp : ℕ → ℕ → ℕ → ℕ
clamp value low high = if ltb value low then low else if ltb high value then high else value

-- The attempts that `prune` leaves. `Instant::duration_since` is 0 for a later instant.
unfoldable pub prune : List ℕ → ℕ → ℕ → List ℕ
prune [] window_ms now = []
prune (attempt ∷ attempts) window_ms now =
    if leb (from_millis window_ms) (now - attempt)
    then prune attempts window_ms now
    else attempt ∷ attempts

unfoldable pub domain_evidence : RateWindowSpec → RateDomainEvidence
domain_evidence spec = record {
  kind = spec.key.kind;
  endpoint = spec.key.endpoint;
  scope = spec.key.scope;
  local_max_requests = spec.max_requests;
  local_window_ms = spec.window_ms;
}

abbrev pub Windows : Type 0
Windows = List (RateDomainKey × RateWindowState)

abbrev pub empty_window : RateWindowState
empty_window = record { attempts = []; blocked_until = none }

abbrev pub or_default : Option RateWindowState → RateWindowState
or_default none = empty_window
or_default (some w) = w

-- `windows.entry(key).or_default()`
unfoldable pub window_of : Windows → RateDomainKey → RateWindowState
window_of windows key = or_default (lookup RateDomainKey-discrete key windows)

-- A write to that entry.
unfoldable pub put_window : Windows → RateDomainKey → RateWindowState → Windows
put_window windows key w = insert RateDomainKey-discrete key w windows

-- How long a window that is not blocked makes a request wait; `none` lets it pass.
unfoldable pub full_wait : RateWindowSpec → List ℕ → ℕ → Option ℕ
unfolding duration_ms_ceil
full_wait spec [] now = none
full_wait spec (oldest ∷ attempts) now =
    if leb spec.max_requests (length (oldest ∷ attempts))
    then some (
        let release_at = oldest + from_millis spec.window_ms in
        if ltb now release_at then duration_ms_ceil (release_at - now) else 1)
    else none

-- One window of a request: what becomes of it, and how long it makes the request wait.
unfoldable pub examine : RateWindowSpec → ℕ → RateWindowState → RateWindowState × Option ℕ
unfolding prune full_wait duration_ms_ceil
examine spec now window =
    let left = prune window.attempts spec.window_ms now in
    elim window.blocked_until [
      | none ↦ (record { attempts = left; blocked_until = none }, full_wait spec left now)
      | some blocked_until ↦
          if ltb now blocked_until
          then (
            record { attempts = left; blocked_until = some blocked_until },
            some (duration_ms_ceil (blocked_until - now)),
          )
          else (record { attempts = left; blocked_until = none }, full_wait spec left now)
    ]

-- The longest wait so far; of equal waits the first stays.
unfoldable pub constrain :
    Option (RateWindowSpec × ℕ) → RateWindowSpec → Option ℕ → Option (RateWindowSpec × ℕ)
constrain constraining spec none = constraining
constrain none spec (some wait_ms) = some (spec, wait_ms)
constrain (some (held_by, current)) spec (some wait_ms) =
    if ltb current wait_ms then some (spec, wait_ms) else some (held_by, current)

-- The first loop of `admit_at`.
unfoldable pub scan :
    List RateWindowSpec
    → ℕ
    → Windows
    → Option (RateWindowSpec × ℕ)
    → Windows × Option (RateWindowSpec × ℕ)
scan [] now windows constraining = (windows, constraining)
scan (spec ∷ specs) now windows constraining =
    let (window, wait) = examine spec now (window_of windows spec.key) in
    scan specs now (put_window windows spec.key window) (constrain constraining spec wait)

-- The second loop of `admit_at`.
unfoldable pub record_attempts : List RateWindowSpec → ℕ → Windows → Windows
record_attempts [] now windows = windows
record_attempts (spec ∷ specs) now windows =
    let window = window_of windows spec.key in
    record_attempts specs now
      (put_window windows spec.key (record window { attempts = window.attempts ++ now ∷ [] }))

pub data Admission : Type 0 where
  admitted : Admission
  throttled : RateThrottleEvidence → Admission

local_evidence : RateRequestPlan → RateWindowSpec → ℕ → RateThrottleEvidence
unfolding domain_evidence
local_evidence plan spec wait_ms = record {
  schema = rate_throttle_schema_v1;
  source = local_budget;
  exchange_code = none;
  operation = plan.operation;
  domain = domain_evidence spec;
  attempt_count = 1;
  local_defer_ms = clamp wait_ms 1 max_local_defer_ms;
  server_retry_after_ms = none;
  request_sent = false;
  retryable = true;
  decision = deferred;
}

unfoldable pub decide :
    RateBudgetState
    → RateRequestPlan
    → ℕ
    → Windows × Option (RateWindowSpec × ℕ)
    → RateBudgetState × Admission
unfolding local_evidence
decide state plan now (windows, some (spec, wait_ms)) =
    let evidence = local_evidence plan spec wait_ms in
    (record state { windows = windows; last_throttle = some evidence }, throttled evidence)
decide state plan now (windows, none) =
    (record state { windows = record_attempts plan.domains now windows }, admitted)

-- `admit_at`; `admit` calls it at the current instant.
unfoldable pub admit_at : RateBudgetState → RateRequestPlan → ℕ → RateBudgetState × Admission
unfolding decide
admit_at state plan now = decide state plan now (scan plan.domains now state.windows none)

find_aggregate : List RateWindowSpec → Option RateWindowSpec
find_aggregate [] = none
find_aggregate (spec ∷ specs) = elim spec.key.kind [
  | subaccount_aggregate ↦ some spec
  | _ ↦ find_aggregate specs
]

first : List RateWindowSpec → Option RateWindowSpec
first [] = none
first (spec ∷ specs) = some spec

-- `select_exchange_domain`; `none` is the panic at a plan with no domain.
unfoldable pub select_exchange_domain : RateRequestPlan → String → Option RateWindowSpec
unfolding find_aggregate first
select_exchange_domain plan exchange_code =
    if str_eq exchange_code subaccount_rate_limit_code
    then elim (find_aggregate plan.domains) [
      | some domain ↦ some domain
      | none ↦ first plan.domains
    ]
    else first plan.domains

unfoldable pub longest_window : List RateWindowSpec → Option ℕ
longest_window [] = none
longest_window (spec ∷ specs) = elim (longest_window specs) [
  | none ↦ some spec.window_ms
  | some w ↦ some (max spec.window_ms w)
]

abbrev pub unwrap_or : Option ℕ → ℕ → ℕ
unwrap_or none other = other
unwrap_or (some v) other = v

-- `exchange_defer_ms`
unfoldable pub exchange_defer_ms : RateRequestPlan → String → Option ℕ → ℕ
unfolding longest_window
exchange_defer_ms plan exchange_code server_retry_after_ms =
    let local =
      if str_eq exchange_code subaccount_rate_limit_code
      then trade_window_ms
      else clamp (unwrap_or (longest_window plan.domains) local_fallback_window_ms) 250
          trade_window_ms in
    clamp (elim server_retry_after_ms [ none ↦ local | some server ↦ max server local ]) 1
      max_local_defer_ms

abbrev pub later_of : Option ℕ → ℕ → ℕ
later_of none until = until
later_of (some current) until = max current until

-- The loop of `record_exchange_throttle`.
unfoldable pub block_all : List RateWindowSpec → ℕ → Windows → Windows
block_all [] until windows = windows
block_all (spec ∷ specs) until windows =
    let window = window_of windows spec.key in
    block_all specs until (
      put_window windows spec.key
        (record window { blocked_until = some (later_of window.blocked_until until) }))

-- `record_exchange_throttle` at the instant `now`; `none` is a panic.
unfoldable pub record_exchange_throttle :
    RateBudgetState
    → RateRequestPlan
    → String
    → Option ℕ
    → ℕ
    → Option (RateBudgetState × RateThrottleEvidence)
unfolding exchange_defer_ms select_exchange_domain domain_evidence
record_exchange_throttle state plan exchange_code server_retry_after_ms now =
    let local_defer_ms = exchange_defer_ms plan exchange_code server_retry_after_ms in
    elim (select_exchange_domain plan exchange_code) [
      | none ↦ none
      | some domain ↦
          let evidence : RateThrottleEvidence = record {
            schema = rate_throttle_schema_v1;
            source = exchange;
            exchange_code = some exchange_code;
            operation = plan.operation;
            domain = domain_evidence domain;
            attempt_count = 1;
            local_defer_ms = local_defer_ms;
            server_retry_after_ms = server_retry_after_ms;
            request_sent = true;
            retryable = true;
            decision = deferred;
          } in
          some (
            record state {
              windows = block_all plan.domains (now + from_millis local_defer_ms) state.windows;
              last_throttle = some evidence;
            },
            evidence,
          )
    ]

abbrev positive : Option ℕ → Option ℕ
positive none = none
positive (some v) = if ltb 0 v then some v else none

unfoldable pub update_subaccount_rate_limit : RateBudgetState → ℕ → Option ℕ → ℕ → RateBudgetState
update_subaccount_rate_limit state current_per_2s next_per_2s observed_at_ms = record state {
  current_subaccount_limit_per_2s = max current_per_2s 1;
  next_subaccount_limit_per_2s = positive next_per_2s;
  exchange_rate_limit_observed_at_ms = some observed_at_ms;
}

unfoldable pub snapshot : RateBudgetState → RateBudgetSnapshot
snapshot state = record {
  schema = rate_budget_snapshot_schema_v1;
  tracked_domains = length state.windows;
  current_subaccount_limit_per_2s = state.current_subaccount_limit_per_2s;
  next_subaccount_limit_per_2s = state.next_subaccount_limit_per_2s;
  exchange_rate_limit_observed_at_ms = state.exchange_rate_limit_observed_at_ms;
  last_throttle = state.last_throttle;
}

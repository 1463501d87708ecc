-- ===== src/Api/Rate/Throttle.antt =====
-- crates/okx-api/src/rate.rs: requests that are put off, by the budget or by the exchange.
use Prim.Native.String.{String}
use okx.Prelude.{
  ℕ, ◌+◌, ◌≤◌, ◌≡◌, true, false, List, [], ◌∷◌, Option, none, some, arith, min, max, All, All-mono,
}
use okx.Api.Rate.Types.{
  RateDomainKey, RateWindowSpec, RateRequestPlan, RateBudgetState, RateThrottleEvidence,
  local_budget, exchange, local_fallback_window_ms,
}
use okx.Api.Rate.Budget.{
  from_millis, window_of, admit_at, throttled, record_exchange_throttle, exchange_defer_ms,
  block_all, longest_window, unwrap_or,
}
use okx.Api.Rate.Windows.{find_spec, DistinctKeys}
use okx.Api.Rate.Closed.{Cause, put_off-window, put_off-Cause}
use okx.Api.Rate.Trimmed.{Trimmed, examined-Trimmed}

-- What a request that is put off reports and leaves behind.
pub record PutOff (s : RateBudgetState) (plan : RateRequestPlan) (now : ℕ) (s' : RateBudgetState)
    (e : RateThrottleEvidence) : Type 0 where
  pub local : e.source ≡ local_budget
  pub not_sent : e.request_sent ≡ false
  pub at_least : 1 ≤ e.local_defer_ms
  pub at_most : e.local_defer_ms ≤ 10000
  pub reported : s'.last_throttle ≡ some e
  pub trimmed :
      (k : RateDomainKey)
      → DistinctKeys plan.domains
      → Trimmed (find_spec k plan.domains) now (window_of s.windows k) (window_of s'.windows k)
  pub cause : DistinctKeys plan.domains → Cause plan now s'.windows e

-- A request that is put off is not sent, waits for between 1 and 10000 milliseconds and is kept as
-- the last throttle. If its plan names each window once, then the window that is reported is one of
-- the plan that is blocked or holds as many attempts as its limit, and no attempt is entered: each
-- window of the plan loses exactly the attempts at its front that it has outlived, and its block if
-- that has ended; other windows stay as they are.
pub admit_at-PutOff :
    (s : RateBudgetState) (plan : RateRequestPlan) (now : ℕ) {s' : RateBudgetState}
    {e : RateThrottleEvidence}
    → admit_at s plan now ≡ (s', throttled e)
    → PutOff s plan now s' e
unfolding admit_at
admit_at-PutOff s plan now {s'} {e} h = record {
  local = ground arith;
  not_sent = ground arith;
  at_least = ground arith;
  at_most = ground arith;
  reported = ground arith;
  trimmed = λ k d.
      rw (put_off-window s plan now k d h)
        (examined-Trimmed (find_spec k plan.domains) now (window_of s.windows k));
  cause = λ d. put_off-Cause s plan now d h;
}

-- The wait that a throttle of the exchange asks for.
exchange_defer_bounds :
    (plan : RateRequestPlan) (code : String) (retry : Option ℕ)
    → (250 ≤ exchange_defer_ms plan code retry) × (exchange_defer_ms plan code retry ≤ 10000)
unfolding exchange_defer_ms
exchange_defer_bounds plan code retry = ground arith

exchange_defer_retry :
    (plan : RateRequestPlan) (code : String) (server : ℕ)
    → min server 10000 ≤ exchange_defer_ms plan code (some server)
unfolding exchange_defer_ms
exchange_defer_retry plan code server = ground arith

pub throttle_parts :
    (s : RateBudgetState) (plan : RateRequestPlan) (code : String) (retry : Option ℕ) (now : ℕ)
    {s' : RateBudgetState} {e : RateThrottleEvidence}
    → record_exchange_throttle s plan code retry now ≡ some (s', e)
    → (e.local_defer_ms ≡ exchange_defer_ms plan code retry)
      × (s'.windows ≡ block_all plan.domains (now + from_millis e.local_defer_ms) s.windows)
      × (e.source ≡ exchange)
      × (e.exchange_code ≡ some code)
      × (e.request_sent ≡ true)
      × (s'.last_throttle ≡ some e)
unfolding record_exchange_throttle
throttle_parts s plan code retry now h =
    (ground arith, ground arith, ground arith, ground arith, ground arith, ground arith)

longest_window_bounds :
    (specs : List RateWindowSpec) (other : ℕ)
    → All (λ spec. spec.window_ms ≤ unwrap_or (longest_window specs) other) specs
unfolding longest_window
longest_window_bounds [] other = tt
longest_window_bounds (spec ∷ specs) other = (
  ground arith,
  All-mono _ _ specs (λ x h. ground (arith, h)) (longest_window_bounds specs spec.window_ms),
)

exchange_defer_windows :
    (plan : RateRequestPlan) (code : String) (retry : Option ℕ)
    → All (λ spec. min spec.window_ms 2000 ≤ exchange_defer_ms plan code retry) plan.domains
unfolding exchange_defer_ms
exchange_defer_windows plan code retry =
    All-mono _ _ plan.domains (λ spec h. ground (arith, h))
      (longest_window_bounds plan.domains local_fallback_window_ms)

exchange_defer_most :
    (plan : RateRequestPlan) (code : String) (retry : Option ℕ)
    → exchange_defer_ms plan code retry ≤ max (unwrap_or retry 0) 2000
unfolding exchange_defer_ms
exchange_defer_most plan code retry = ground arith

-- What a throttle of the exchange reports and leaves behind.
pub record Reported (plan : RateRequestPlan) (code : String) (retry : Option ℕ)
    (s' : RateBudgetState) (e : RateThrottleEvidence) : Type 0 where
  pub at_least : 250 ≤ e.local_defer_ms
  pub at_most : e.local_defer_ms ≤ 10000
  pub asked : (server : ℕ) → retry ≡ some server → min server 10000 ≤ e.local_defer_ms
  pub no_longer : (server : ℕ) → retry ≡ some server → e.local_defer_ms ≤ max server 2000
  pub unasked : retry ≡ none → e.local_defer_ms ≤ 2000
  pub each_window : All (λ spec. min spec.window_ms 2000 ≤ e.local_defer_ms) plan.domains
  pub by_exchange : e.source ≡ exchange
  pub named : e.exchange_code ≡ some code
  pub sent : e.request_sent ≡ true
  pub kept : s'.last_throttle ≡ some e

-- Whether the server names a retry time or not, the wait that a throttle of the exchange reports lies
-- between 250 and 10000 milliseconds and is no shorter than any window of the plan, up to 2000; it is
-- no shorter than what the server asked for, up to 10000, and no longer than that or 2000, and at most
-- 2000 if the server names none. The report is the last throttle and says that the request was sent.
pub throttle_reports :
    (s : RateBudgetState) (plan : RateRequestPlan) (code : String) (retry : Option ℕ) (now : ℕ)
    {s' : RateBudgetState} {e : RateThrottleEvidence}
    → record_exchange_throttle s plan code retry now ≡ some (s', e)
    → Reported plan code retry s' e
throttle_reports s plan code retry now {s'} {e} h =
    let parts = throttle_parts s plan code retry now h in
    let defer = parts.0 in
    let (low, high) = exchange_defer_bounds plan code retry in
    let most = exchange_defer_most plan code retry in
    record {
      at_least = omega (arith, defer, low);
      at_most = omega (arith, defer, high);
      asked = λ server a. ground (arith, defer, exchange_defer_retry plan code server);
      no_longer = λ server a. ground (arith, defer, most);
      unasked = λ a. ground (arith, defer, most);
      each_window = rw defer (exchange_defer_windows plan code retry);
      by_exchange = parts.2;
      named = parts.3;
      sent = parts.4;
      kept = parts.5;
    }

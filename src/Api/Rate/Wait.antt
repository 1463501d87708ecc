-- ===== src/Api/Rate/Wait.antt =====
-- crates/okx-api/src/rate.rs: `admit_wait`, the loop that asks again after each wait. Other tasks may
-- use the budget while it sleeps, so each round finds the state and the clock as they are then.
-- Instants and durations are nanoseconds.
use okx.Prelude.{
  ℕ, zero, suc, ◌+◌, ◌-◌, Bool, true, false, not, ◌||◌, Option, none, some, ◌==◌, ltb,
  if◌then◌else◌,
}
use okx.Api.Rate.Types.{
  RateThrottleSource, local_budget, exchange, RateRequestPlan, RateThrottleEvidence,
  RateBudgetState,
}
use okx.Api.Rate.Budget.{Admission, admitted, throttled, from_millis, admit_at}
pub mod Ends
pub mod Tests

-- What a round finds: the state, the clock at `admit` and at `started.elapsed()`.
pub record Turn : Type 0 where
  pub state : RateBudgetState
  pub now : ℕ
  pub later : ℕ

abbrev is_local : RateThrottleSource → Bool
is_local local_budget = true
is_local exchange = false

-- Whether the loop gives up at a throttle.
unfoldable pub gives_up : RateThrottleEvidence → ℕ → ℕ → Bool
gives_up e max_wait elapsed =
    let remaining = max_wait - elapsed in
    let delay = from_millis e.local_defer_ms in
    not (is_local e.source) || e.request_sent || delay == 0 || ltb remaining delay

-- The loop from round k on, for a number of rounds: the state and the answer; `none` if the rounds
-- are used up.
unfoldable pub admit_wait :
    (ℕ → Turn) → RateRequestPlan → ℕ → ℕ → ℕ → ℕ → Option (RateBudgetState × Admission)
unfolding gives_up
admit_wait turns plan max_wait started zero k = none
admit_wait turns plan max_wait started (suc rounds) k =
    let rest = admit_wait turns plan max_wait started rounds (suc k) in
    let turn = turns k in
    let answer = admit_at turn.state plan turn.now in
    elim answer.1 [
      | admitted ↦ some answer
      | throttled e ↦ if gives_up e max_wait (turn.later - started) then some answer else rest
    ]

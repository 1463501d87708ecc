-- ===== src/Observation/Stream/Times.antt =====
-- crates/okx-observation/src/stream.rs: when each required source was received, and which is too old.
use Prim.Native.String.{String}
use text.Mathlib.Text.{◌==◌ as str_eq}
use okx.Prelude.Options.{◌>>=◌}
use okx.Prelude.{
  ℕ, ◌-◌, min, Bool, ◌||◌, List, [], ◌∷◌, ◌++◌, Option, none, some, ◌==◌, ltb, if◌then◌else◌,
}
use okx.Prelude.Decimals.{Decimals}
use okx.Observation.Reference.Types.{FundingRequirement, required, not_applicable, unknown}
use okx.Observation.Stream.State.{Observed, MarketStreamState}

-- `.iter().map(|(_, at)| *at).min()`
unfoldable pub oldest_of : List (String × ℕ) → Option ℕ
oldest_of [] = none
oldest_of ((name, at) ∷ times) = elim (oldest_of times) [
  | none ↦ some at
  | some oldest ↦ some (min at oldest)
]

abbrev pub budget_of : String → ℕ → ℕ → ℕ
budget_of name price_max_age_ms context_max_age_ms =
    if str_eq name "funding_rate" || str_eq name "open_interest"
    then context_max_age_ms
    else price_max_age_ms

abbrev pub is_stale : ℕ → ℕ → ℕ → Bool
is_stale now_ms received_at_ms budget_ms =
    ltb now_ms received_at_ms || ltb budget_ms (now_ms - received_at_ms)

-- The first source that is out of its budget, and that budget.
unfoldable pub first_stale : List (String × ℕ) → ℕ → ℕ → ℕ → Option (String × ℕ × ℕ)
first_stale [] now_ms price_max_age_ms context_max_age_ms = none
first_stale ((name, at) ∷ times) now_ms price_max_age_ms context_max_age_ms =
    let rest = first_stale times now_ms price_max_age_ms context_max_age_ms in
    let budget_ms = budget_of name price_max_age_ms context_max_age_ms in
    if is_stale now_ms at budget_ms then some (name, at, budget_ms) else rest

module _ (dec : Decimals) where
  unfoldable pub current_received_at {ℓ} :
      {T : Type ℓ} → MarketStreamState dec → Option (Observed T) → Option ℕ
  current_received_at s none = none
  current_received_at s (some observed) =
      if observed.generation == s.generation then some observed.received_at_ms else none

  -- The times with that of the funding rate, where the instrument has one.
  abbrev pub with_funding :
      FundingRequirement → Option ℕ → List (String × ℕ) → Option (List (String × ℕ))
  with_funding required none times = none
  with_funding required (some at) times = some (times ++ (("funding_rate", at) ∷ []))
  with_funding not_applicable at times = some times
  with_funding unknown at times = none

  unfoldable pub required_receive_times :
      MarketStreamState dec → FundingRequirement → Option (List (String × ℕ))
  unfolding current_received_at
  required_receive_times s funding_requirement = do
    ticker ← current_received_at s s.ticker
    mark_price ← current_received_at s s.mark_price
    index_ticker ← current_received_at s s.index_ticker
    open_interest ← current_received_at s s.open_interest
    order_book ← s.order_book_received_at_ms
    with_funding funding_requirement (current_received_at s s.funding_rate) (
        ("ticker", ticker)
        ∷ ("mark_price", mark_price)
        ∷ ("index_ticker", index_ticker)
        ∷ ("open_interest", open_interest)
        ∷ ("order_book", order_book)
        ∷ [])

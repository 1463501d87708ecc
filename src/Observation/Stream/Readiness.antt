-- ===== src/Observation/Stream/Readiness.antt =====
-- crates/okx-observation/src/stream.rs: whether the live view of a market is fresh, and the snapshot
-- that it publishes. A reason that is formatted from parts is those parts. The digest of a snapshot
-- is a parameter.
use Prim.Native.String.{String}
use text.Mathlib.Text.{◌==◌ as str_eq}
use okx.Prelude.{ℕ, ◌-◌, Bool, true, false, not, List, Option, none, some, ◌==◌, if◌then◌else◌}
use okx.Prelude.Decimals.{Decimals}
use okx.Prelude.SortedMaps.{get}
use okx.Prelude.Results.{Result, ok, err, ◌>>=◌, ◌>>◌, reject, ok_or, map_err, is_ok}
use okx.Api.PublicData.{PublicFundingRate}
use okx.Observation.Stream.Times.{oldest_of, first_stale, required_receive_times}
use okx.Observation.OrderBook.Defs as OrderBook
use okx.Observation.OrderBook.Defs.{OrderBookSnapshot, is_contiguous}
use okx.Observation.Reference.Types.{
  FundingRequirement, required, not_applicable, unknown, InstrumentSpec, ReferenceRegistry,
}
use okx.Observation.Market.Types.{MarketBootstrap, MarketSnapshot, GenerationInput}
use okx.Observation.Market.Snapshot.{from_bootstrap}
use okx.Observation.Stream.State.{
  Observed, MarketStreamState, MarketStreamError, instrument_not_found,
  reference_generation_mismatch, incomplete, order_book_not_contiguous, market_error,
}

pub data MarketReadiness : Type 0 where
  not_ready degraded fresh stale : MarketReadiness

pub data Reason : Type 0 where
  said : String → Reason
  dependency_stale : String → ℕ → ℕ → Reason

pub record MarketReadinessReport : Type 0 where
  pub quality : MarketReadiness
  pub reason : Reason
  pub generation : ℕ
  pub reference_generation : String
  pub sequence_continuity_proven : Bool
  pub oldest_required_receive_ms : Option ℕ

pub record LiveMarketSnapshot : Type 0 where
  pub generation : ℕ
  pub market : MarketSnapshot
  pub order_book : OrderBookSnapshot

abbrev pub is_unknown : FundingRequirement → Bool
is_unknown unknown = true
is_unknown _ = false

module _ (dec : Decimals) where
  unfoldable pub current {ℓ} : {T : Type ℓ} → MarketStreamState dec → Option (Observed T) → Option T
  current s none = none
  current s (some observed) =
      if observed.generation == s.generation then some observed.value else none

  unfoldable pub report :
      MarketStreamState dec → MarketReadiness → Reason → Option ℕ → MarketReadinessReport
  report s quality reason oldest_required_receive_ms = record {
    quality = quality;
    reason = reason;
    generation = s.generation;
    reference_generation = s.reference_generation;
    sequence_continuity_proven = is_contiguous s.order_book.status;
    oldest_required_receive_ms = oldest_required_receive_ms;
  }

  -- The funding rate that the bootstrap holds.
  unfoldable pub current_funding :
      MarketStreamState dec
      → FundingRequirement
      → Result MarketStreamError (Option PublicFundingRate)
  unfolding current
  current_funding s required =
      ok_or (current s s.funding_rate) incomplete >>= λ rate. ok (some rate)
  current_funding s not_applicable = ok none
  current_funding s unknown = err incomplete

  unfoldable pub bootstrap_if_complete :
      MarketStreamState dec → FundingRequirement → Result MarketStreamError MarketBootstrap
  unfolding current current_funding
  bootstrap_if_complete s funding_requirement = do
    ticker ← ok_or (current s s.ticker) incomplete
    mark_price ← ok_or (current s s.mark_price) incomplete
    index_ticker ← ok_or (current s s.index_ticker) incomplete
    open_interest ← ok_or (current s s.open_interest) incomplete
    funding_rate ← current_funding s funding_requirement
    ok (record {
      ticker = ticker;
      mark_price = mark_price;
      index_ticker = index_ticker;
      funding_rate = funding_rate;
      open_interest = open_interest;
    })

  module _ (digest : GenerationInput → Option String) where
    -- The bootstrap of the state and the snapshot made of it.
    unfoldable pub market_of :
        MarketStreamState dec
        → ReferenceRegistry
        → FundingRequirement
        → String
        → Result MarketStreamError MarketSnapshot
    unfolding bootstrap_if_complete
    market_of s reference funding_requirement source_received_at = do
      bootstrap ← bootstrap_if_complete s funding_requirement
      map_err market_error
          (from_bootstrap digest reference s.instrument_id source_received_at bootstrap)

    unfoldable pub publish :
        MarketStreamState dec
        → ReferenceRegistry
        → String
        → Result MarketStreamError LiveMarketSnapshot
    unfolding market_of
    publish s reference source_received_at = do
      reject (not (str_eq reference.generation s.reference_generation))
          (reference_generation_mismatch s.reference_generation reference.generation)
      instrument ←
          ok_or (get s.instrument_id reference.instruments) (instrument_not_found s.instrument_id)
      reject (not (is_contiguous s.order_book.status)) order_book_not_contiguous
      market ← market_of s reference instrument.funding_requirement source_received_at
      ok (record {
        generation = s.generation;
        market = market;
        order_book = OrderBook.snapshot dec s.order_book;
      })

    abbrev fallback_quality : Bool → MarketReadiness
    fallback_quality true = degraded
    fallback_quality false = not_ready

    abbrev stale_reason : Bool → ℕ → String × ℕ × ℕ → Reason
    stale_reason true now_ms (name, at, budget_ms) = dependency_stale name (now_ms - at) budget_ms
    stale_reason false now_ms source = said "WS_DEPENDENCY_STALE"

    -- The end of `readiness_with_budgets`, once the times of all sources are known.
    unfoldable pub timed_readiness :
        MarketStreamState dec
        → ReferenceRegistry
        → InstrumentSpec
        → ℕ
        → ℕ
        → ℕ
        → Bool
        → Bool
        → List (String × ℕ)
        → MarketReadinessReport
    unfolding oldest_of first_stale report market_of
    timed_readiness s reference instrument now_ms price_max_age_ms context_max_age_ms
          rest_fallback_available identify_source times =
        let fallback = fallback_quality rest_fallback_available in
        if not (is_contiguous s.order_book.status)
        then report s fallback (said "ORDER_BOOK_NOT_CONTIGUOUS") none
        else elim (oldest_of times) [
          | none ↦ report s fallback (said "WS_DEPENDENCIES_INCOMPLETE") none
          | some oldest ↦ elim (first_stale times now_ms price_max_age_ms context_max_age_ms) [
            | some source ↦
                report s stale (stale_reason identify_source now_ms source) (some oldest)
            | none ↦
                if not
                  (is_ok (market_of s reference instrument.funding_requirement "stream-readiness"))
                then report s fallback (said "WS_DEPENDENCY_INCONSISTENT") (some oldest)
                else report s fresh (said "WS_CURRENT_GENERATION_COMPLETE") (some oldest)
          ]
        ]

    unfoldable pub readiness_with_budgets :
        MarketStreamState dec
        → ReferenceRegistry
        → ℕ
        → ℕ
        → ℕ
        → Bool
        → Bool
        → Bool
        → Bool
        → MarketReadinessReport
    unfolding report required_receive_times timed_readiness
    readiness_with_budgets s reference now_ms price_max_age_ms context_max_age_ms connection_active
          subscriptions_complete rest_fallback_available identify_source =
        let fallback = fallback_quality rest_fallback_available in
        if not connection_active
        then report s fallback (said "WS_CONNECTION_NOT_ACTIVE") none
        else if not subscriptions_complete
        then report s fallback (said "WS_SUBSCRIPTIONS_INCOMPLETE") none
        else if not (str_eq reference.generation s.reference_generation)
        then report s fallback (said "REFERENCE_GENERATION_CHANGED") none
        else elim (get s.instrument_id reference.instruments) [
          | none ↦ report s fallback (said "REFERENCE_INSTRUMENT_MISSING") none
          | some instrument ↦
              if not (str_eq instrument.state "live")
              then report s fallback (said "REFERENCE_INSTRUMENT_NOT_LIVE") none
              else if is_unknown instrument.funding_requirement
              then report s fallback (said "FUNDING_SEMANTICS_UNKNOWN") none
              else elim (required_receive_times dec s instrument.funding_requirement) [
                | none ↦ report s fallback (said "WS_DEPENDENCIES_INCOMPLETE") none
                | some times ↦
                    timed_readiness s reference instrument now_ms price_max_age_ms
                      context_max_age_ms rest_fallback_available identify_source times
              ]
        ]

    unfoldable pub readiness :
        MarketStreamState dec
        → ReferenceRegistry
        → ℕ
        → ℕ
        → Bool
        → Bool
        → Bool
        → MarketReadinessReport
    unfolding readiness_with_budgets
    readiness s reference now_ms max_age_ms connection_active subscriptions_complete
          rest_fallback_available =
        readiness_with_budgets s reference now_ms max_age_ms max_age_ms connection_active
          subscriptions_complete rest_fallback_available false

    unfoldable pub risk_readiness :
        MarketStreamState dec → ReferenceRegistry → ℕ → ℕ → ℕ → Bool → Bool → MarketReadinessReport
    unfolding readiness_with_budgets
    risk_readiness s reference now_ms price_max_age_ms context_max_age_ms connection_active
          subscriptions_complete =
        readiness_with_budgets s reference now_ms price_max_age_ms context_max_age_ms
          connection_active subscriptions_complete false true

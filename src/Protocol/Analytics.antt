-- ===== src/Protocol/Analytics.antt =====
-- The research requests of crates/okx-protocol/src/analytics.rs. The type `f64` is a parameter.
use Prim.Native.String.{String}
use okx.Prelude.{ℕ, List, Option}

pub data RangeMode : Type 0 where
  strict normalize : RangeMode

pub record EmaParameters : Type 0 where
  pub fast : ℕ
  pub slow : ℕ

pub data FundingMode : Type 0 where
  observed zero_assumption : FundingMode

pub data ResearchDataMode : Type 0 where
  historical_observed counterfactual : ResearchDataMode

pub data ResearchResultView : Type 0 where
  trades summary variants equity export : ResearchResultView

pub record ResearchCosts (F : Type 0) : Type 0 where
  pub maker_fee_bps : F
  pub taker_fee_bps : F
  pub slippage_bps : F
  pub funding_mode : FundingMode

-- The fields of a constructor stand in the order of the source.
pub data ResearchRequest (F : Type 0) : Type 0 where
  capabilities : ResearchRequest F
  benchmark : (idempotency_key : String) → ResearchRequest F
  validate :
      (instruments : List String) (timeframe_ms start_ms end_ms : ℕ) (range_mode : RangeMode)
      (strategy_id : String) (parameters : EmaParameters) (costs : ResearchCosts F)
      (data_mode : ResearchDataMode)
      → ResearchRequest F
  backtest :
      (idempotency_key : String) (instruments : List String) (timeframe_ms start_ms end_ms : ℕ)
      (strategy_id : String) (parameters : EmaParameters) (costs : ResearchCosts F)
      (data_mode : ResearchDataMode) (seed : ℕ)
      → ResearchRequest F
  grid :
      (idempotency_key : String) (instruments : List String) (timeframe_ms start_ms end_ms : ℕ)
      (strategy_id : String) (variants : List EmaParameters) (costs : ResearchCosts F)
      (data_mode : ResearchDataMode) (seed : ℕ)
      → ResearchRequest F
  status : (job_id : String) → ResearchRequest F
  cancel : (job_id idempotency_key : String) → ResearchRequest F
  result :
      (job_id : String) (cursor : Option String) (limit : ℕ) (view : ResearchResultView)
      → ResearchRequest F

-- ===== src/Agent/Budget.antt =====
-- crates/okx-agent/src/analytics/budget.rs: the memory that a research job is admitted with.
use Prim.Native.String.{String}
use okx.Prelude.{
  ℕ, suc, ◌+◌, ◌-◌, ◌*◌, ◌/◌, max, Bool, ◌||◌, Option, none, some, List, length, ltb, leb, ◌==◌,
  if◌then◌else◌,
}
use okx.Prelude.Words.{checked_add, checked_mul}
use okx.Protocol.Analytics.{
  ResearchRequest, capabilities, benchmark, validate, backtest, grid, status, cancel, result,
}
pub mod Bounds

abbrev pub memory_total_mib : ℕ
memory_total_mib = 4096

abbrev pub mib : ℕ
mib = 1048576

abbrev pub estimated_bytes_per_bar : ℕ
estimated_bytes_per_bar = 2048

abbrev pub estimated_bytes_per_instrument : ℕ
estimated_bytes_per_instrument = 16777216

abbrev pub estimated_bytes_per_variant : ℕ
estimated_bytes_per_variant = 65536

-- The errors, by their texts.
pub data BudgetError : Type 0 where
  not_research_job research_request research_bars research_memory : BudgetError

pub data Result : Type 0 where
  ok : ℕ → Result
  err : BudgetError → Result

-- `n.div_ceil(d)`, for a `d` that is not zero
abbrev pub div_ceil : ℕ → ℕ → ℕ
div_ceil n d = (n + (d - 1)) / d

abbrev ok_or : Option ℕ → BudgetError → (ℕ → Result) → Result
ok_or none e f = err e
ok_or (some n) e f = f n

abbrev and_then : Option ℕ → (ℕ → Option ℕ) → Option ℕ
and_then none f = none
and_then (some n) f = f n

-- The check of the memory that a number of bars takes.
unfoldable pub memory_of : ℕ → ℕ → ℕ → Result
memory_of bars instruments variant_count =
    ok_or
      (and_then
        (and_then (checked_mul bars estimated_bytes_per_bar)
          (λ n. checked_add n (instruments * estimated_bytes_per_instrument)))
        (λ n. checked_add n (instruments * variant_count * estimated_bytes_per_variant)))
      research_memory
      (λ bytes.
        let needed = max (div_ceil bytes mib) 1 in
        if ltb memory_total_mib needed then err research_memory else ok needed)

-- `estimated_mib` of a job with a range of bars.
unfoldable pub estimate : ℕ → ℕ → ℕ → ℕ → ℕ → Result
unfolding memory_of
estimate instruments start_ms end_ms timeframe_ms variant_count =
    if instruments == 0
      || ltb 8 instruments
      || timeframe_ms == 0
      || leb end_ms start_ms
      || variant_count == 0
      || ltb 64 variant_count
    then err research_request
    else ok_or (checked_mul (div_ceil (end_ms - start_ms) timeframe_ms) instruments) research_bars
        (λ bars.
          if ltb 1000000 bars then err research_bars else memory_of bars instruments variant_count)

module _ {F : Type 0} where
  unfoldable pub estimated_mib : ResearchRequest F → Result
  unfolding estimate
  estimated_mib (benchmark idempotency_key) = ok 3072
  estimated_mib
        (backtest key instruments timeframe_ms start_ms end_ms strategy_id parameters costs
          data_mode seed) =
      estimate (length instruments) start_ms end_ms timeframe_ms 1
  estimated_mib
        (grid key instruments timeframe_ms start_ms end_ms strategy_id variants costs data_mode
          seed) =
      estimate (length instruments) start_ms end_ms timeframe_ms (length variants)
  estimated_mib _ = err not_research_job

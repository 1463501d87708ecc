-- ===== src/Agent/Budget/Bounds.antt =====
-- crates/okx-agent/src/analytics/budget.rs: what is admitted, and with how much memory.
use native.Mathlib.Nat.{mul-le-mul_right}
use okx.Prelude.{ℕ, ◌+◌, ◌-◌, ◌*◌, ◌/◌, ◌≤◌, ◌<◌, ◌≡◌, ◌≢◌, refl, length, max, arith}
use okx.Protocol.Analytics.{
  ResearchRequest, capabilities, benchmark, validate, backtest, grid, status, cancel, result,
}
use okx.Agent.Budget.{
  not_research_job, research_memory, Result, ok, err, memory_of, div_ceil, estimate, estimated_mib,
}

-- The memory is that of the bytes, rounded up, and never refused for so few of them.
rounded :
    (bytes : ℕ)
    → bytes ≤ 2216689664
    → (1 ≤ max ((bytes + 1048575) / 1048576) 1)
      × (max ((bytes + 1048575) / 1048576) 1 ≤ 2114)
      × (bytes ≤ max ((bytes + 1048575) / 1048576) 1 * 1048576)
rounded bytes h = (omega arith, omega arith, omega arith)

-- A million bars of eight instruments and 64 variants never need more than 2114 MiB.
pub memory_of-ok :
    (bars instruments variant_count : ℕ)
    → bars ≤ 1000000
    → instruments ≤ 8
    → variant_count ≤ 64
    → (m : ℕ) × (memory_of bars instruments variant_count ≡ ok m)
      × (1 ≤ m)
      × (m ≤ 2114)
      × (bars * 2048 + instruments * 16777216 + instruments * variant_count * 65536 ≤ m * 1048576)
unfolding memory_of
memory_of-ok bars instruments variant_count b i v =
    let k = instruments * variant_count in
    let few : k ≤ 512 = omega (arith, mul-le-mul_right variant_count i) in
    let bytes = bars * 2048 + instruments * 16777216 + k * 65536 in
    let r = rounded bytes (omega arith) in
    (max ((bytes + 1048575) / 1048576) 1, ground (arith, few, r), r.0, r.1, r.2)

-- The bytes that a job is taken to need.
abbrev pub bytes_of : ℕ → ℕ → ℕ → ℕ → ℕ → ℕ
bytes_of instruments start_ms end_ms timeframe_ms variant_count =
    div_ceil (end_ms - start_ms) timeframe_ms * instruments * 2048
    + instruments * 16777216
    + instruments * variant_count * 65536

-- What is known of a job by the outcome of its estimate.
abbrev pub Told : ℕ → ℕ → ℕ → ℕ → ℕ → Result → Type 0
Told instruments start_ms end_ms timeframe_ms variant_count (ok m) =
    (1 ≤ m)
    × (m ≤ 2114)
    × (bytes_of instruments start_ms end_ms timeframe_ms variant_count ≤ m * 1048576)
    × (start_ms < end_ms)
    × (1 ≤ timeframe_ms)
    × (div_ceil (end_ms - start_ms) timeframe_ms * instruments ≤ 1000000)
    × (1 ≤ instruments)
    × (instruments ≤ 8)
    × (1 ≤ variant_count)
    × (variant_count ≤ 64)
Told instruments start_ms end_ms timeframe_ms variant_count (err e) = e ≢ research_memory

estimate-Told :
    (instruments start_ms end_ms timeframe_ms variant_count : ℕ)
    → Told instruments start_ms end_ms timeframe_ms variant_count
        (estimate instruments start_ms end_ms timeframe_ms variant_count)
unfolding estimate
estimate-Told instruments start_ms end_ms timeframe_ms variant_count =
    let bars = div_ceil (end_ms - start_ms) timeframe_ms * instruments in
    ground (arith, memory_of-ok bars instruments variant_count)

module _ {F : Type 0} where
  abbrev pub Sized : ResearchRequest F → Result → Type 0
  Sized (benchmark key) outcome = outcome ≡ ok 3072
  Sized
        (backtest key instruments timeframe_ms start_ms end_ms strategy_id parameters costs
          data_mode seed)
        outcome =
      Told (length instruments) start_ms end_ms timeframe_ms 1 outcome
  Sized
        (grid key instruments timeframe_ms start_ms end_ms strategy_id variants costs data_mode
          seed)
        outcome =
      Told (length instruments) start_ms end_ms timeframe_ms (length variants) outcome
  Sized _ outcome = outcome ≡ err not_research_job

  -- A benchmark is estimated at 3072 MiB. An estimate of a backtest or a grid is between 1 and
  -- 2114 MiB, below the total of 4096, covers the bytes of its bars, instruments and variants, and is
  -- given only for 1 to 8 instruments, 1 to 64 variants, a timeframe of at least one millisecond, a
  -- range that is not empty and at most a million bars over all instruments; where there is none, the
  -- error is never the one for memory. Any other request is not a research job.
  pub estimated_mib-Sized : (r : ResearchRequest F) → Sized r (estimated_mib r)
  unfolding estimated_mib
  estimated_mib-Sized capabilities = refl
  estimated_mib-Sized (benchmark key) = refl
  estimated_mib-Sized (validate instruments timeframe_ms start_ms end_ms mode strategy p c d) = refl
  estimated_mib-Sized (backtest key instruments timeframe_ms start_ms end_ms strategy p c d seed) =
      estimate-Told (length instruments) start_ms end_ms timeframe_ms 1
  estimated_mib-Sized (grid key instruments timeframe_ms start_ms end_ms strategy vs c d seed) =
      estimate-Told (length instruments) start_ms end_ms timeframe_ms (length vs)
  estimated_mib-Sized (status job_id) = refl
  estimated_mib-Sized (cancel job_id key) = refl
  estimated_mib-Sized (result job_id cursor limit view) = refl

-- A range that is not empty, of at most a million bars over 1 to 8 instruments and with 1 to 64
-- variants, is admitted.
pub estimate-ok :
    (instruments start_ms end_ms timeframe_ms variant_count : ℕ)
    → 1 ≤ instruments
    → instruments ≤ 8
    → 1 ≤ timeframe_ms
    → start_ms < end_ms
    → 1 ≤ variant_count
    → variant_count ≤ 64
    → div_ceil (end_ms - start_ms) timeframe_ms * instruments ≤ 1000000
    → (m : ℕ) × (estimate instruments start_ms end_ms timeframe_ms variant_count ≡ ok m)
unfolding estimate
estimate-ok instruments start_ms end_ms timeframe_ms variant_count i1 i8 t r v1 v64 few =
    let bars = div_ceil (end_ms - start_ms) timeframe_ms * instruments in
    let m = memory_of-ok bars instruments variant_count few i8 v64 in (m.0, ground (arith, m.1))

-- ===== src/Api/Clock/Timing.antt =====
-- crates/okx-api/src/clock.rs: how far the time of a request is from the clocks it rests on.
use Prim.Native.String.{String}
use okx.Prelude.{ℕ, ◌+◌, ◌-◌, ◌/◌, ◌≤◌, ◌<◌, ◌≡◌, Option, some, arith}
use okx.Prelude.Int.{pos_part, neg_part, ◌-ℤ◌}
use okx.Api.Clock.{
  ClockEvidence, MutationTiming, ok, from_sample, snapshot, timestamp_from_unix_ms,
  from_exchange_time_ms, mutation_timing,
}

pub record Issued (format : ℕ → Option String) (request_time_ms ttl issued_at : ℕ)
    (t : MutationTiming) : Type 0 where
  pub ttl_range : (1 ≤ ttl) × (ttl ≤ 10000)
  pub request : t.request_time_ms ≡ request_time_ms
  pub in_i64 : request_time_ms < 9223372036854775808
  pub text : format request_time_ms ≡ some t.request_timestamp
  pub deadline : t.exp_time_ms ≡ request_time_ms + ttl
  pub issued : t.issued_at ≡ issued_at

pub from_exchange_time_ms-Issued :
    (format : ℕ → Option String) (request_time_ms ttl issued_at : ℕ) {t : MutationTiming}
    → from_exchange_time_ms format request_time_ms ttl issued_at ≡ ok t
    → Issued format request_time_ms ttl issued_at t
unfolding from_exchange_time_ms timestamp_from_unix_ms
from_exchange_time_ms-Issued format request_time_ms ttl issued_at h = ground arith

record Estimated (format : ℕ → Option String) (e : ClockEvidence) (ttl now issued_at : ℕ)
    (t : MutationTiming) : Type 0 where
  ahead : pos_part e.offset_ms ≤ 5000
  behind : neg_part e.offset_ms ≤ 5000
  round_trip : e.round_trip_ms ≤ 2000
  age : (now - e.observed_at) / 1000000 ≤ 2000
  issue :
      from_exchange_time_ms format
        (e.server_time_ms + e.round_trip_ms / 2 + (now - e.observed_at) / 1000000)
        ttl
        issued_at
      ≡ ok t

mutation_timing-Estimated :
    (format : ℕ → Option String) (e : ClockEvidence) (ttl now issued_at : ℕ) {t : MutationTiming}
    → mutation_timing format e ttl now issued_at ≡ ok t
    → Estimated format e ttl now issued_at t
unfolding mutation_timing snapshot
mutation_timing-Estimated format e ttl now issued_at h = ground arith

from_sample-offset :
    (server_time_ms local_started_ms round_trip observed_at : ℕ) {e : ClockEvidence}
    → from_sample server_time_ms local_started_ms round_trip observed_at ≡ ok e
    → (e.server_time_ms ≤ e.local_midpoint_ms + pos_part e.offset_ms)
      × (e.local_midpoint_ms ≤ e.server_time_ms + neg_part e.offset_ms)
unfolding from_sample ◌-ℤ◌
from_sample-offset server_time_ms local_started_ms round_trip observed_at h = ground arith

-- The times of a request against the clocks they were taken from.
pub record Near (e : ClockEvidence) (ttl now : ℕ) (t : MutationTiming) : Type 0 where
  pub in_range : (1 ≤ ttl) × (ttl ≤ 10000)
  pub deadline : t.exp_time_ms ≡ t.request_time_ms + ttl
  pub deadline_u64 : t.exp_time_ms < 18446744073709551616
  pub estimate :
      t.request_time_ms ≡ e.server_time_ms + e.round_trip_ms / 2 + (now - e.observed_at) / 1000000
  pub not_ahead : t.request_time_ms ≤ e.local_midpoint_ms + (now - e.observed_at) / 1000000 + 6000
  pub not_behind : e.local_midpoint_ms + (now - e.observed_at) / 1000000 ≤ t.request_time_ms + 5000
  pub fresh : (now - e.observed_at) / 1000000 ≤ 2000

-- The times of a request that rest on a sample of the exchange's clock: the time to live is from 1 to
-- 10000 milliseconds and the deadline is that much later, within a `u64`; the time is the server's,
-- moved on by half the round trip and by the age of the sample, at most 6000 milliseconds ahead of
-- the local clock and at most 5000 behind it; the sample is at most 2000 milliseconds old.
pub mutation_timing-Near :
    (format : ℕ → Option String)
    (server_time_ms local_started_ms round_trip observed_at ttl now issued_at : ℕ)
    {e : ClockEvidence} {t : MutationTiming}
    → from_sample server_time_ms local_started_ms round_trip observed_at ≡ ok e
    → mutation_timing format e ttl now issued_at ≡ ok t
    → Near e ttl now t
mutation_timing-Near format server local round_trip observed_at ttl now issued_at {e} {t} sampled
      h =
    let m = mutation_timing-Estimated format e ttl now issued_at h in
    let age = (now - e.observed_at) / 1000000 in
    let request = e.server_time_ms + e.round_trip_ms / 2 + age in
    let i = from_exchange_time_ms-Issued format request ttl issued_at m.issue in
    let (over, under) = from_sample-offset server local round_trip observed_at sampled in
    record {
      in_range = i.ttl_range;
      deadline = omega (arith, i.deadline, i.request);
      deadline_u64 = omega (arith, i.in_i64, i.deadline, i.ttl_range.1);
      estimate = i.request;
      not_ahead = omega (arith, i.request, over, m.ahead, m.round_trip);
      not_behind = omega (arith, i.request, under, m.behind);
      fresh = m.age;
    }

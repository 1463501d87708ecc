-- ===== src/Api/ClockTests.antt =====
-- crates/okx-api/src/clock.rs: one sample of the exchange's clock and a request.
use Prim.Native.String.{String}
use okx.Prelude.{ℕ, ◌+◌, ◌≡◌, refl, Option, some, arith}
use okx.Prelude.Int.{negsuc, ◌-ℤ◌}
use okx.Api.Clock.{
  ClockEvidence, MutationTiming, ok, from_sample, snapshot, timestamp_from_unix_ms,
  from_exchange_time_ms, mutation_timing, refreshed_after_elapsed_ms,
}
use okx.Api.Clock.Timing.{Near, mutation_timing-Near}
use okx.Api.Clock.Refresh.{Moved, refresh_twice}

-- A calendar that gives every time the same text.
abbrev calendar : ℕ → Option String
calendar t = some "2026-01-01T00:00:00.000Z"

abbrev evidence : ClockEvidence
evidence = record {
  server_time_ms = 50000;
  local_midpoint_ms = 50110;
  offset_ms = negsuc 109;
  round_trip_ms = 20;
  observed_at = 1000000;
}

abbrev timing : MutationTiming
timing = record {
  request_time_ms = 50015;
  request_timestamp = "2026-01-01T00:00:00.000Z";
  exp_time_ms = 55015;
  issued_at = 7000000;
}

sampled : from_sample 50000 50100 20000000 1000000 ≡ ok evidence
unfolding from_sample ◌-ℤ◌
sampled = refl

timed : mutation_timing calendar evidence 5000 6000000 7000000 ≡ ok timing
unfolding mutation_timing snapshot from_exchange_time_ms timestamp_from_unix_ms
timed = refl

refreshed :
    refreshed_after_elapsed_ms calendar timing 100 8000000
    ≡ ok (record timing { request_time_ms = 50115; exp_time_ms = 55115; issued_at = 8000000 })
unfolding refreshed_after_elapsed_ms from_exchange_time_ms timestamp_from_unix_ms
refreshed = refl

mutation_timing-Near_example : Near evidence 5000 6000000 timing
mutation_timing-Near_example =
    mutation_timing-Near calendar 50000 50100 20000000 1000000 5000 6000000 7000000 sampled timed

abbrev moved : MutationTiming
moved = record timing { request_time_ms = 50115; exp_time_ms = 55115; issued_at = 8000000 }

refresh_twice_example :
    Moved calendar timing 100 8000000 moved
    × (refreshed_after_elapsed_ms calendar moved 50 9000000
        ≡ refreshed_after_elapsed_ms calendar timing (100 + 50) 9000000)
refresh_twice_example =
    refresh_twice calendar timing 100 50 8000000 9000000
      (record { later = omega arith; within = omega arith }) refreshed

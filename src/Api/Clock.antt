-- ===== src/Api/Clock.antt =====
-- crates/okx-api/src/clock.rs: the evidence on the exchange's clock and the times of a request that
-- changes an account. An `Instant` is a number of nanoseconds on the monotonic clock. The calendar
-- of the package `chrono` is a parameter: the text of a time in milliseconds, if it has one.
use Prim.Native.String.{String}
use okx.Prelude.{
  ℕ, ◌+◌, ◌-◌, ◌*◌, ◌/◌, Bool, true, false, not, ◌&&◌, ◌||◌, Option, none, some, ltb, leb, ◌==◌,
  if◌then◌else◌,
}
use okx.Prelude.Words.{checked_add}
use okx.Prelude.Int.{ℤ, pos, pos_part, neg_part, ◌+ℤ◌, ◌-ℤ◌}
pub mod Timing
pub mod Refresh

abbrev pub max_clock_abs_offset_ms : ℕ
max_clock_abs_offset_ms = 5000

abbrev pub max_clock_rtt_ms : ℕ
max_clock_rtt_ms = 2000

abbrev pub max_clock_evidence_age_ms : ℕ
max_clock_evidence_age_ms = 2000

abbrev pub max_mutation_request_ttl_ms : ℕ
max_mutation_request_ttl_ms = 10000

-- The errors `OkxError::Clock`, by their texts.
pub data ClockError : Type 0 where
  round_trip_overflow midpoint_overflow offset_overflow : ClockError
  unsafe_evidence : ClockError
  server_time_overflow invalid_ttl timestamp_exceeds_i64 invalid_timestamp : ClockError
  deadline_overflow age_overflow monotonic_overflow : ClockError

pub data Result {ℓ} (A : Type ℓ) : Type ℓ where
  ok : A → Result A
  err : ClockError → Result A

-- `option.ok_or_else(...)?`
abbrev pub ok_or {ℓ} : {A : Type ℓ} → Option A → ClockError → Result A
ok_or none e = err e
ok_or (some a) e = ok a

infixl 5 ◌>>=◌
abbrev pub ◌>>=◌ {ℓ κ} : {A : Type ℓ} {B : Type κ} → Result A → (A → Result B) → Result B
ok a >>= f = f a
err e >>= f = err e

pub record ClockEvidenceSnapshot : Type 0 where
  pub server_time_ms : ℕ
  pub local_midpoint_ms : ℕ
  pub offset_ms : ℤ
  pub round_trip_ms : ℕ
  pub age_ms : ℕ
  pub max_abs_offset_ms : ℕ
  pub max_round_trip_ms : ℕ
  pub max_age_ms : ℕ
  pub accepted : Bool

pub record ClockEvidence : Type 0 where
  pub server_time_ms : ℕ
  pub local_midpoint_ms : ℕ
  pub offset_ms : ℤ
  pub round_trip_ms : ℕ
  pub observed_at : ℕ

pub record MutationTiming : Type 0 where
  pub request_time_ms : ℕ
  pub request_timestamp : String
  pub exp_time_ms : ℕ
  pub issued_at : ℕ

-- `u64::try_from(duration.as_millis())` of a duration in nanoseconds
abbrev pub millis : ℕ → Option ℕ
millis duration =
    let ms = duration / 1000000 in if ltb ms 18446744073709551616 then some ms else none

-- `i64::try_from`
abbrev pub i64_of : ℤ → Option ℤ
i64_of a =
    if ltb (pos_part a) 9223372036854775808 && leb (neg_part a) 9223372036854775808
    then some a
    else none

-- `unsigned_abs`
abbrev pub unsigned_abs : ℤ → ℕ
unsigned_abs a = pos_part a + neg_part a

unfoldable pub from_sample : ℕ → ℕ → ℕ → ℕ → Result ClockEvidence
unfolding ◌-ℤ◌
from_sample server_time_ms local_started_ms round_trip observed_at = do
  round_trip_ms ← ok_or (millis round_trip) round_trip_overflow
  local_midpoint_ms ← ok_or (checked_add local_started_ms (round_trip_ms / 2)) midpoint_overflow
  offset_ms ← ok_or (i64_of (pos server_time_ms -ℤ pos local_midpoint_ms)) offset_overflow
  ok (record {
    server_time_ms = server_time_ms;
    local_midpoint_ms = local_midpoint_ms;
    offset_ms = offset_ms;
    round_trip_ms = round_trip_ms;
    observed_at = observed_at;
  })

-- `unwrap_or`
abbrev unwrap_or : Option ℕ → ℕ → ℕ
unwrap_or none n = n
unwrap_or (some a) n = a

-- `snapshot` at the instant `now`; `elapsed` is zero for an instant to come.
unfoldable pub snapshot : ClockEvidence → ℕ → ClockEvidenceSnapshot
snapshot e now =
    let age_ms = unwrap_or (millis (now - e.observed_at)) 18446744073709551615 in
    record {
      server_time_ms = e.server_time_ms;
      local_midpoint_ms = e.local_midpoint_ms;
      offset_ms = e.offset_ms;
      round_trip_ms = e.round_trip_ms;
      age_ms = age_ms;
      max_abs_offset_ms = max_clock_abs_offset_ms;
      max_round_trip_ms = max_clock_rtt_ms;
      max_age_ms = max_clock_evidence_age_ms;
      accepted =
          leb (unsigned_abs e.offset_ms) max_clock_abs_offset_ms
          && leb e.round_trip_ms max_clock_rtt_ms
          && leb age_ms max_clock_evidence_age_ms;
    }

module _ (format : ℕ → Option String) where
  unfoldable pub timestamp_from_unix_ms : ℕ → Result String
  timestamp_from_unix_ms value =
      if ltb value 9223372036854775808
      then ok_or (format value) invalid_timestamp
      else err timestamp_exceeds_i64

  -- `from_exchange_time_ms`, which reads the instant `issued_at`.
  unfoldable pub from_exchange_time_ms : ℕ → ℕ → ℕ → Result MutationTiming
  unfolding timestamp_from_unix_ms
  from_exchange_time_ms request_time_ms ttl_ms issued_at =
      if ttl_ms == 0 || ltb max_mutation_request_ttl_ms ttl_ms
      then err invalid_ttl
      else (timestamp_from_unix_ms request_time_ms >>= λ request_timestamp.
          ok_or (checked_add request_time_ms ttl_ms) deadline_overflow >>= λ exp_time_ms.
          ok (record {
            request_time_ms = request_time_ms;
            request_timestamp = request_timestamp;
            exp_time_ms = exp_time_ms;
            issued_at = issued_at;
          }))

  -- `value.checked_add(...)` of an option
  abbrev and_then_add : Option ℕ → ℕ → Option ℕ
  and_then_add none n = none
  and_then_add (some a) n = checked_add a n

  -- `mutation_timing` with the snapshot of the instant `now`, issued at `issued_at`.
  unfoldable pub mutation_timing : ClockEvidence → ℕ → ℕ → ℕ → Result MutationTiming
  unfolding snapshot from_exchange_time_ms
  mutation_timing e ttl_ms now issued_at =
      let evidence = snapshot e now in
      if not evidence.accepted
      then err unsafe_evidence
      else (ok_or
            (and_then_add (checked_add e.server_time_ms (e.round_trip_ms / 2)) evidence.age_ms)
            server_time_overflow
          >>= λ estimated_server_now_ms.
              from_exchange_time_ms estimated_server_now_ms ttl_ms issued_at)

  unfoldable pub refreshed_after_elapsed_ms : MutationTiming → ℕ → ℕ → Result MutationTiming
  unfolding from_exchange_time_ms
  refreshed_after_elapsed_ms t elapsed_ms issued_at =
      ok_or (checked_add t.request_time_ms elapsed_ms) monotonic_overflow >>= λ fresh_server_now_ms.
      from_exchange_time_ms fresh_server_now_ms (t.exp_time_ms - t.request_time_ms) issued_at

  -- `refreshed_for_send` at the instant `now`, issued at `issued_at`.
  unfoldable pub refreshed_for_send : MutationTiming → ℕ → ℕ → Result MutationTiming
  unfolding refreshed_after_elapsed_ms
  refreshed_for_send t now issued_at =
      ok_or (millis (now - t.issued_at)) age_overflow >>= λ elapsed_ms.
      refreshed_after_elapsed_ms t elapsed_ms issued_at

-- ===== src/Api/Clock/Refresh.antt =====
-- crates/okx-api/src/clock.rs: the times of a request moved on before it is sent.
use Prim.Native.String.{String}
use okx.Prelude.{ℕ, ◌+◌, ◌-◌, ◌≤◌, ◌≡◌, refl, Option, some, arith}
use okx.Api.Clock.{MutationTiming, ok, refreshed_after_elapsed_ms}
use okx.Api.Clock.Timing.{Issued, from_exchange_time_ms-Issued}

-- A time that was issued stays in its range.
pub record IsTiming (t : MutationTiming) : Type 0 where
  pub later : t.request_time_ms + 1 ≤ t.exp_time_ms
  pub within : t.exp_time_ms ≤ t.request_time_ms + 10000

refreshed-Issued :
    (format : ℕ → Option String) (t : MutationTiming) (elapsed_ms issued_at : ℕ)
    {t' : MutationTiming}
    → refreshed_after_elapsed_ms format t elapsed_ms issued_at ≡ ok t'
    → Issued format
        (t.request_time_ms + elapsed_ms)
        (t.exp_time_ms - t.request_time_ms)
        issued_at
        t'
unfolding refreshed_after_elapsed_ms
refreshed-Issued format t elapsed_ms issued_at {t'} h =
    from_exchange_time_ms-Issued format (t.request_time_ms + elapsed_ms)
      (t.exp_time_ms - t.request_time_ms) issued_at (ground arith)

-- The times of a request moved on by an age: the time to live stays what it was, the age is added to
-- the time of the request and to its deadline, and the text is that of the new time.
pub record Moved (format : ℕ → Option String) (t : MutationTiming) (elapsed_ms issued_at : ℕ)
    (t' : MutationTiming) : Type 0 where
  pub request : t'.request_time_ms ≡ t.request_time_ms + elapsed_ms
  pub deadline : t'.exp_time_ms ≡ t.exp_time_ms + elapsed_ms
  pub text : format (t.request_time_ms + elapsed_ms) ≡ some t'.request_timestamp
  pub issued : t'.issued_at ≡ issued_at
  pub timing : IsTiming t'

refreshed-Moved :
    (format : ℕ → Option String) (t : MutationTiming) (elapsed_ms issued_at : ℕ)
    {t' : MutationTiming}
    → IsTiming t
    → refreshed_after_elapsed_ms format t elapsed_ms issued_at ≡ ok t'
    → Moved format t elapsed_ms issued_at t'
refreshed-Moved format t elapsed_ms issued_at {t'} valid h =
    let i = refreshed-Issued format t elapsed_ms issued_at h in
    let request = i.request in
    let deadline : t'.exp_time_ms ≡ t.exp_time_ms + elapsed_ms =
      omega (arith, i.deadline, valid.later) in
    record {
      request = request;
      deadline = deadline;
      text = i.text;
      issued = i.issued;
      timing = record {
        later = omega (arith, request, deadline, valid.later);
        within = omega (arith, request, deadline, valid.within);
      };
    }

-- If the times of a request, with a time to live of 1 to 10000 milliseconds, are moved on by one age,
-- then that age is added to the time of the request and to its deadline, so that the time to live
-- stays what it was, and the text and the instant of issue are the new ones; and moving them on by a
-- second age gives the same, errors included, as moving the first ones on by the sum.
pub refresh_twice :
    (format : ℕ → Option String) (t : MutationTiming) (first second issued_at later : ℕ)
    {t' : MutationTiming}
    → IsTiming t
    → refreshed_after_elapsed_ms format t first issued_at ≡ ok t'
    → Moved format t first issued_at t'
      × (refreshed_after_elapsed_ms format t' second later
          ≡ refreshed_after_elapsed_ms format t (first + second) later)
unfolding refreshed_after_elapsed_ms
refresh_twice format t first second issued_at later {t'} valid h =
    let moved = refreshed-Moved format t first issued_at valid h in
    let on : t'.request_time_ms + second ≡ t.request_time_ms + (first + second) =
      omega (arith, moved.request) in
    let kept : t'.exp_time_ms - t'.request_time_ms ≡ t.exp_time_ms - t.request_time_ms =
      omega (arith, moved.request, moved.deadline) in
    (moved, rw (on, kept) refl)

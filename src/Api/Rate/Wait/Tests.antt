-- ===== src/Api/Rate/Wait/Tests.antt =====
-- crates/okx-api/src/rate.rs: a request that finds its window full, waits and is let through.
use okx.Prelude.{ℕ, zero, suc, ◌+◌, ◌≤◌, ◌≡◌, refl, some, ap, subst, arith}
use okx.Prelude.Maps.{String-discrete}
use okx.Api.Rate.Types.{RateDomainKind-discrete, RateDomainKey-discrete, RateThrottleEvidence}
use okx.Api.Rate.Budget.{
  new, from_millis, duration_ms_ceil, prune, full_wait, examine, constrain, window_of, put_window,
  scan, record_attempts, admitted, throttled, admit_at, decide, domain_evidence,
}
use okx.Api.Rate.Tests.{plan, once, evidence, busy, put_off}
use okx.Api.Rate.Wait.{Turn, admit_wait}
use okx.Api.Rate.Wait.Ends.{answer, IsClock, admit_wait-ends}

-- The first round finds the window full, the others come when it is free again.
abbrev turns : ℕ → Turn
turns zero = record { state = once; now = 8000000; later = 8000000 }
turns (suc k) = record { state = busy; now = 3000000000; later = 3000000000 }

let_through : (admit_at busy plan 3000000000).1 ≡ admitted
unfolding new admit_at decide scan examine full_wait prune duration_ms_ceil constrain window_of
    put_window record_attempts domain_evidence RateDomainKey-discrete RateDomainKind-discrete
    String-discrete
let_through = refl

slept :
    (k : ℕ) (e : RateThrottleEvidence)
    → (answer turns plan k).1 ≡ throttled e
    → (turns k).later + from_millis e.local_defer_ms ≤ (turns (suc k)).now
slept zero e h =
    let same : evidence ≡ e = cc (h, ap (λ a. a.1) put_off) in
    subst (λ (x : RateThrottleEvidence). 8000000 + from_millis x.local_defer_ms ≤ 3000000000) same
      (omega arith)
slept (suc k) e h = cc (h, let_through)

together : (k : ℕ) → (turns k).now ≤ (turns k).later
together zero = omega arith
together (suc k) = omega arith

turns-IsClock : IsClock turns plan 8000000
turns-IsClock = record { begins = omega arith; goes_on = together; sleeps = slept }

admit_wait-ends_example :
    (i : ℕ) × (admit_wait turns plan 2000000000 8000000 2002 0 ≡ some (answer turns plan i))
admit_wait-ends_example =
    admit_wait-ends turns plan 2000000000 8000000 2001 turns-IsClock (omega arith)

-- ===== src/Api/Rate/Retry.antt =====
-- crates/okx-api/src/rate.rs: a request that was put off, tried again after the reported wait.
use okx.Prelude.{
  ℕ, ◌+◌, ◌-◌, ◌≤◌, ◌<◌, ◌≡◌, refl, sym, ap, subst, ◌∙◌, List, [], ◌∷◌, Option, none, some, arith,
  length, All,
}
use okx.Api.Rate.Types.{
  RateWindowSpec, RateWindowState, RateRequestPlan, RateBudgetState, RateThrottleEvidence,
}
use okx.Api.Rate.Budget.{
  from_millis, window_of, prune, full_wait, examine, scan, admit_at, duration_ms_ceil, admitted,
  throttled, clamp, constrain,
}
use okx.Api.Rate.Windows.{find_spec, DistinctKeys, examined}
use okx.Api.Rate.Closed.{put_off-window}

-- The nanoseconds of a rounded-up wait reach its end.
duration_ms_ceil-reaches : (d : ℕ) → d < 18446744073709551615 → d ≤ from_millis (duration_ms_ceil d)
unfolding duration_ms_ceil
duration_ms_ceil-reaches d h = ground arith

length-prune-le : (xs : List ℕ) (w now : ℕ) → length (prune xs w now) ≤ length xs
unfolding prune
length-prune-le [] w now = omega arith
length-prune-le (x ∷ xs) w now = ground (arith, length-prune-le xs w now)

full_wait_reaches :
    (spec : RateWindowSpec) (oldest now wait : ℕ) (rest : List ℕ)
    → oldest + from_millis spec.window_ms < 18446744073709551615
    → full_wait spec (oldest ∷ rest) now ≡ some wait
    → oldest + from_millis spec.window_ms ≤ now + from_millis wait
unfolding full_wait
full_wait_reaches spec oldest now wait rest small h =
    let release_at = oldest + from_millis spec.window_ms in
    ground (arith, duration_ms_ceil-reaches (release_at - now))

prune-drops :
    (oldest w now : ℕ) (rest : List ℕ)
    → oldest + from_millis w ≤ now
    → prune (oldest ∷ rest) w now ≡ prune rest w now
unfolding prune
prune-drops oldest w now rest h = ground arith

full_wait-none :
    (spec : RateWindowSpec) (left : List ℕ) (now : ℕ)
    → length left < spec.max_requests
    → full_wait spec left now ≡ none
unfolding full_wait
full_wait-none spec [] now h = refl
full_wait-none spec (x ∷ xs) now h = ground arith

no_wait : (spec : RateWindowSpec) (now : ℕ) {wait : ℕ} → full_wait spec [] now ≡ some wait → ⊥
unfolding full_wait
no_wait spec now h = cc

full_wait-pos :
    (spec : RateWindowSpec) (left : List ℕ) (now wait : ℕ)
    → full_wait spec left now ≡ some wait
    → 1 ≤ wait
unfolding full_wait duration_ms_ceil
full_wait-pos spec [] now wait h = cc
full_wait-pos spec (oldest ∷ rest) now wait h = ground arith

All-prune : (P : ℕ → Type 0) (xs : List ℕ) (w now : ℕ) → All P xs → All P (prune xs w now)
unfolding prune
All-prune P [] w now h = tt
All-prune P (x ∷ xs) w now h = ground (arith, All-prune P xs w now h.1)

-- After the wait the oldest of at most `max_requests` attempts has left the window.
full_window_opens :
    (spec : RateWindowSpec) (left : List ℕ) (now wait : ℕ)
    → length left ≤ spec.max_requests
    → All (λ a. a + from_millis spec.window_ms < 18446744073709551615) left
    → full_wait spec left now ≡ some wait
    → full_wait spec (prune left spec.window_ms (now + from_millis wait)) (now + from_millis wait)
      ≡ none
full_window_opens spec [] now wait few small h = absurd (no_wait spec now h)
full_window_opens spec (oldest ∷ rest) now wait few small h =
    let later = now + from_millis wait in
    let reaches = full_wait_reaches spec oldest now wait rest small.0 h in
    let shorter : length (prune (oldest ∷ rest) spec.window_ms later) < spec.max_requests =
      rw (prune-drops oldest spec.window_ms later rest reaches)
        (omega (arith, length-prune-le rest spec.window_ms later)) in
    full_wait-none spec (prune (oldest ∷ rest) spec.window_ms later) later shorter

admit-one :
    (s : RateBudgetState) (plan : RateRequestPlan) (spec : RateWindowSpec) (now : ℕ)
    → plan.domains ≡ spec ∷ []
    → (examine spec now (window_of s.windows spec.key)).1 ≡ none
    → (admit_at s plan now).1 ≡ admitted
unfolding admit_at scan constrain
admit-one s plan spec now one pass =
    let alone : scan plan.domains now s.windows none ≡ scan (spec ∷ []) now s.windows none =
      ap (λ (l : List RateWindowSpec). scan l now s.windows none) one in
    ground arith

put_off-one :
    (s : RateBudgetState) (plan : RateRequestPlan) (spec : RateWindowSpec) (now : ℕ)
    {s' : RateBudgetState} {e : RateThrottleEvidence}
    → plan.domains ≡ spec ∷ []
    → admit_at s plan now ≡ (s', throttled e)
    → (wait : ℕ) × ((examine spec now (window_of s.windows spec.key)).1 ≡ some wait)
      × (e.local_defer_ms ≡ clamp wait 1 10000)
unfolding admit_at scan constrain
put_off-one s plan spec now {s'} {e} one h =
    let alone : scan plan.domains now s.windows none ≡ scan (spec ∷ []) now s.windows none =
      ap (λ (l : List RateWindowSpec). scan l now s.windows none) one in
    ground arith

find_spec_self : (spec : RateWindowSpec) → find_spec spec.key (spec ∷ []) ≡ some spec
find_spec_self spec = ground arith

kept-one :
    (s : RateBudgetState) (plan : RateRequestPlan) (spec : RateWindowSpec) (now : ℕ)
    {s' : RateBudgetState} {e : RateThrottleEvidence}
    → plan.domains ≡ spec ∷ []
    → admit_at s plan now ≡ (s', throttled e)
    → window_of s'.windows spec.key ≡ (examine spec now (window_of s.windows spec.key)).0
kept-one s plan spec now one h =
    let d : DistinctKeys plan.domains = subst DistinctKeys (sym one) (refl, tt) in
    let found : find_spec spec.key plan.domains ≡ some spec =
      ap (find_spec spec.key) one ∙ find_spec_self spec in
    put_off-window s plan now spec.key d h
    ∙ ap (λ (o : Option RateWindowSpec). examined o now (window_of s.windows spec.key)) found

examine-free :
    (spec : RateWindowSpec) (now : ℕ) (w : RateWindowState)
    → w.blocked_until ≡ none
    → examine spec now w ≡ (
      record { attempts = prune w.attempts spec.window_ms now; blocked_until = none },
      full_wait spec (prune w.attempts spec.window_ms now) now,
    )
unfolding examine
examine-free spec now w free = ground arith

-- A request to a single window that is full but not blocked is let through when it is tried again
-- after the reported wait, if nothing else is asked meanwhile and the wait was not cut to 10000.
pub retry_admitted :
    (s : RateBudgetState) (plan : RateRequestPlan) (spec : RateWindowSpec) (now : ℕ)
    {s' : RateBudgetState} {e : RateThrottleEvidence}
    → plan.domains ≡ spec ∷ []
    → (window_of s.windows spec.key).blocked_until ≡ none
    → length (window_of s.windows spec.key).attempts ≤ spec.max_requests
    → All
        (λ a. a + from_millis spec.window_ms < 18446744073709551615)
        (window_of s.windows spec.key).attempts
    → admit_at s plan now ≡ (s', throttled e)
    → e.local_defer_ms < 10000
    → (admit_at s' plan (now + from_millis e.local_defer_ms)).1 ≡ admitted
retry_admitted s plan spec now {s'} {e} one free few small h short =
    let w = window_of s.windows spec.key in
    let left = prune w.attempts spec.window_ms now in
    let (wait, waits, defer) = put_off-one s plan spec now one h in
    let first = examine-free spec now w free in
    let held : full_wait spec left now ≡ some wait = sym (ap (λ r. r.1) first) ∙ waits in
    let positive = full_wait-pos spec left now wait held in
    let exact : e.local_defer_ms ≡ wait = ground arith in
    let later = now + from_millis wait in
    let opens =
      full_window_opens spec left now wait
        (omega (arith, length-prune-le w.attempts spec.window_ms now))
        (All-prune _ w.attempts spec.window_ms now small) held in
    let w' : RateWindowState = record { attempts = left; blocked_until = none } in
    let kept : window_of s'.windows spec.key ≡ w' =
      kept-one s plan spec now one h ∙ ap (λ r. r.0) first in
    let pass : (examine spec later w').1 ≡ none =
      ap (λ r. r.1) (examine-free spec later w' refl) ∙ opens in
    subst (λ (d : ℕ). (admit_at s' plan (now + from_millis d)).1 ≡ admitted) (sym exact)
      (admit-one s' plan spec later one
        (subst (λ (v : RateWindowState). (examine spec later v).1 ≡ none) (sym kept) pass))

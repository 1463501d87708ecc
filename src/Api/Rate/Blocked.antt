-- ===== src/Api/Rate/Blocked.antt =====
-- crates/okx-api/src/rate.rs: how long a throttle of the exchange keeps its windows closed.
use Prim.Native.String.{String}
use okx.Prelude.{
  ℕ, ◌+◌, ◌<◌, ◌≡◌, ◌≢◌, refl, sym, subst, ◌∙◌, ◌⊎◌, inl, inr, List, [], ◌∷◌, Option, none, some,
  arith, Option-cases,
}
use okx.Api.Rate.Types.{
  RateDomainKey, RateWindowSpec, RateWindowState, RateRequestPlan, RateBudgetState,
  RateThrottleEvidence,
}
use okx.Api.Rate.Budget.{
  Windows, from_millis, window_of, examine, scan, admit_at, admitted, record_exchange_throttle,
  record_attempts, update_subaccount_rate_limit,
}
use okx.Api.Rate.Windows.{
  find_spec, DistinctKeys, examined, attempted, record_attempts-window, block_all-keeps,
  scan-window, scan-none-wait, BlockedUntil, block_all-BlockedUntil,
}
use okx.Api.Rate.Throttle.{throttle_parts}
use okx.Api.Rate.Sliding.{Call, admits, throttles, limits, step}

examine-blocked :
    (spec : RateWindowSpec) (now until : ℕ) (w : RateWindowState)
    → BlockedUntil until w
    → now < until
    → (examine spec now w).1 ≢ none
unfolding examine
examine-blocked spec now until w (b, e, le) lt = λ h. ground arith

-- A plan with a blocked window is put off.
scan-blocked :
    (plan : RateRequestPlan) (now until : ℕ) (ws : Windows) (k : RateDomainKey)
    (found : RateWindowSpec)
    → DistinctKeys plan.domains
    → find_spec k plan.domains ≡ some found
    → BlockedUntil until (window_of ws k)
    → now < until
    → (scan plan.domains now ws none).1 ≢ none
scan-blocked plan now until ws k found d f b lt h =
    examine-blocked found now until (window_of ws k) b lt
      (scan-none-wait plan.domains now ws none k found d h f)

admitted-scan :
    (s : RateBudgetState) (plan : RateRequestPlan) (now : ℕ)
    → (admit_at s plan now).1 ≡ admitted
    → (scan plan.domains now s.windows none).1 ≡ none
unfolding admit_at
admitted-scan s plan now h = ground arith

-- The window of a key after a request that came before the end of its block.
examined-BlockedUntil :
    (o : Option RateWindowSpec) (now until : ℕ) (w : RateWindowState)
    → BlockedUntil until w
    → now < until
    → BlockedUntil until (examined o now w)
unfolding examine
examined-BlockedUntil none now until w b lt = b
examined-BlockedUntil (some spec) now until w (b, e, le) lt = (b, ground arith, le)

attempted-blocked :
    (o : Option RateWindowSpec) (now : ℕ) (w : RateWindowState)
    → (attempted o now w).blocked_until ≡ w.blocked_until
attempted-blocked none now w = refl
attempted-blocked (some spec) now w = refl

-- A request leaves what `scan` left, or that with its attempts.
admit_at-windows :
    (s : RateBudgetState) (plan : RateRequestPlan) (now : ℕ)
    → let ws = (scan plan.domains now s.windows none).0 in
      ((admit_at s plan now).0.windows ≡ ws)
      ⊎ ((admit_at s plan now).0.windows ≡ record_attempts plan.domains now ws)
unfolding admit_at
admit_at-windows s plan now = ground arith

admits-BlockedUntil :
    (s : RateBudgetState) (plan : RateRequestPlan) (now until : ℕ) (k : RateDomainKey)
    → DistinctKeys plan.domains
    → now < until
    → BlockedUntil until (window_of s.windows k)
    → BlockedUntil until (window_of (admit_at s plan now).0.windows k)
admits-BlockedUntil s plan now until k d lt b =
    let ws = (scan plan.domains now s.windows none).0 in
    let o = find_spec k plan.domains in
    let scanned : BlockedUntil until (window_of ws k) =
      subst (BlockedUntil until) (sym (scan-window plan.domains now s.windows none k d))
        (examined-BlockedUntil o now until (window_of s.windows k) b lt) in
    elim (admit_at-windows s plan now) [
      | inl e ↦ rw e scanned
      | inr e ↦
          let put = record_attempts-window plan.domains now ws k d in
          rw (e, put) (scanned.0, attempted-blocked o now (window_of ws k) ∙ scanned.1, scanned.2)
    ]

throttles-BlockedUntil :
    (s : RateBudgetState) (plan : RateRequestPlan) (code : String) (retry : Option ℕ)
    (now until : ℕ) (k : RateDomainKey)
    → BlockedUntil until (window_of s.windows k)
    → BlockedUntil until (window_of (step s (throttles plan code retry now)).windows k)
unfolding step
throttles-BlockedUntil s plan code retry now until k b =
    elim (Option-cases (record_exchange_throttle s plan code retry now)) [
      | inl e ↦ rw e b
      | inr ((s', e'), e) ↦
          let parts = throttle_parts s plan code retry now e in
          rw (e, parts.1)
            (block_all-keeps plan.domains until (now + from_millis e'.local_defer_ms) s.windows k b)
    ]

-- The requests among the calls are made before `until`, and their plans name each window once.
abbrev pub Before : ℕ → List Call → Type 0
Before until [] = Unit {0}
Before until (admits plan now ∷ cs) = (now < until) × DistinctKeys plan.domains × Before until cs
Before until (_ ∷ cs) = Before until cs

abbrev pub run : RateBudgetState → List Call → RateBudgetState
run s [] = s
run s (c ∷ cs) = run (step s c) cs

run-BlockedUntil :
    (s : RateBudgetState) (until : ℕ) (k : RateDomainKey) (cs : List Call)
    → Before until cs
    → BlockedUntil until (window_of s.windows k)
    → BlockedUntil until (window_of (run s cs).windows k)
unfolding step update_subaccount_rate_limit
run-BlockedUntil s until k [] o b = b
run-BlockedUntil s until k (admits plan now ∷ cs) (lt, d, o) b =
    run-BlockedUntil (step s (admits plan now)) until k cs o
      (admits-BlockedUntil s plan now until k d lt b)
run-BlockedUntil s until k (throttles plan code retry now ∷ cs) o b =
    run-BlockedUntil (step s (throttles plan code retry now)) until k cs o
      (throttles-BlockedUntil s plan code retry now until k b)
run-BlockedUntil s until k (limits current next at ∷ cs) o b =
    run-BlockedUntil (step s (limits current next at)) until k cs o b

-- After the exchange has throttled a request, no request that shares a window with it is let
-- through before the reported wait is over, whatever requests, throttles and new limits come in
-- between; these requests too are made before the wait is over, and each plan names a window once.
pub throttle_blocks :
    (s : RateBudgetState) (plan : RateRequestPlan) (code : String) (retry : Option ℕ) (now : ℕ)
    {s' : RateBudgetState} {e : RateThrottleEvidence}
    → record_exchange_throttle s plan code retry now ≡ some (s', e)
    → (k : RateDomainKey) (mine : RateWindowSpec) → find_spec k plan.domains ≡ some mine
    → (calls : List Call) → Before (now + from_millis e.local_defer_ms) calls
    → (next : RateRequestPlan) (theirs : RateWindowSpec) → DistinctKeys next.domains
    → find_spec k next.domains ≡ some theirs
    → (later : ℕ) → later < now + from_millis e.local_defer_ms
    → (admit_at (run s' calls) next later).1 ≢ admitted
throttle_blocks s plan code retry now {s'} {e} h k mine fm calls o next theirs d ft later lt
      passed =
    let until = now + from_millis e.local_defer_ms in
    let parts = throttle_parts s plan code retry now h in
    let blocked : BlockedUntil until (window_of s'.windows k) =
      subst (λ (ws : Windows). BlockedUntil until (window_of ws k)) (sym parts.1)
        (block_all-BlockedUntil plan.domains until s.windows k mine fm) in
    scan-blocked next later until (run s' calls).windows k theirs d ft
      (run-BlockedUntil s' until k calls o blocked) lt
      (admitted-scan (run s' calls) next later passed)

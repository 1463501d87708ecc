-- ===== src/Api/Rate/Sliding.antt =====
-- crates/okx-api/src/rate.rs: how many requests the budget lets through in any stretch of time.
use Prim.Native.String.{String}
use mathlib.Core.List.{append_assoc, append-nil}
use okx.Prelude.{
  ℕ, ◌+◌, ◌≤◌, ◌<◌, ◌≡◌, refl, sym, subst, inl, inr, List, [], ◌∷◌, ◌++◌, Option, none, some, arith,
  length, Option-cases,
}
use okx.Api.Rate.Types.{
  RateDomainKey, RateWindowSpec, RateWindowState, RateRequestPlan, RateBudgetState,
}
use okx.Api.Rate.Budget.{
  new, exchange_defer_ms, from_millis, window_of, prune, full_wait, examine, scan, admit_at,
  Admission, admitted, throttled, record_exchange_throttle, update_subaccount_rate_limit,
}
use okx.Api.Rate.Windows.{
  find_spec, DistinctKeys, examined, attempted, scan-window, scan-none-wait, record_attempts-window,
  block_all-attempts,
}
use okx.Api.Rate.Spaced.{Spaced, Kept, Aged-mono, Kept-prune, Kept-snoc}

-- The limits of a window are at least as strict as `m` requests in `h` nanoseconds.
abbrev pub FitsSpec : ℕ → ℕ → Option RateWindowSpec → Type 0
FitsSpec m h none = Unit {0}
FitsSpec m h (some spec) = (spec.max_requests ≤ m) × (h ≤ from_millis spec.window_ms)

pub examine-attempts :
    (spec : RateWindowSpec) (now : ℕ) (w : RateWindowState)
    → (examine spec now w).0.attempts ≡ prune w.attempts spec.window_ms now
unfolding examine
examine-attempts spec now w = ground arith

full_wait-few :
    (spec : RateWindowSpec) (left : List ℕ) (now m : ℕ)
    → 0 < m
    → spec.max_requests ≤ m
    → full_wait spec left now ≡ none
    → length left < m
unfolding full_wait
full_wait-few spec [] now m pos le h = pos
full_wait-few spec (x ∷ xs) now m pos le h = ground arith

-- A window that makes nobody wait keeps fewer attempts than its limit.
examine-few :
    (spec : RateWindowSpec) (now m : ℕ) (w : RateWindowState)
    → 0 < m
    → spec.max_requests ≤ m
    → (examine spec now w).1 ≡ none
    → length (examine spec now w).0.attempts < m
unfolding examine
examine-few spec now m w pos le h =
    ground (arith, full_wait-few spec (prune w.attempts spec.window_ms now) now m pos le)

pub data Call : Type 0 where
  admits : RateRequestPlan → ℕ → Call
  throttles : RateRequestPlan → String → Option ℕ → ℕ → Call
  limits : ℕ → Option ℕ → ℕ → Call

abbrev after_throttle {ℓ} :
    {A : Type ℓ} → RateBudgetState → Option (RateBudgetState × A) → RateBudgetState
after_throttle s none = s
after_throttle s (some (s', _)) = s'

-- The state after a call. A throttle that panics leaves it alone.
unfoldable pub step : RateBudgetState → Call → RateBudgetState
step s (admits plan now) = (admit_at s plan now).0
step s (throttles plan code retry now) =
    after_throttle s (record_exchange_throttle s plan code retry now)
step s (limits current next at) = update_subaccount_rate_limit s current next at

abbrev entry : Option RateWindowSpec → ℕ → Admission → List ℕ
entry (some spec) now admitted = now ∷ []
entry none now admitted = []
entry o now (throttled e) = []

-- The attempt that a call enters in the window of `k`.
pub entered : RateDomainKey → RateBudgetState → Call → List ℕ
entered k s (admits plan now) = entry (find_spec k plan.domains) now (admit_at s plan now).1
entered k s (throttles plan code retry now) = []
entered k s (limits current next at) = []

-- All attempts of the key, oldest first.
pub log : RateDomainKey → RateBudgetState → List Call → List ℕ
log k s [] = []
log k s (c ∷ cs) = entered k s c ++ log k (step s c) cs

-- The requests come in the order of time, and their plans name the key once, with a window that is
-- at least as strict as `m` requests in `h` nanoseconds.
abbrev pub InOrder : RateDomainKey → ℕ → ℕ → ℕ → List Call → Type 0
InOrder k m h last [] = Unit {0}
InOrder k m h last (admits plan now ∷ cs) =
    (last ≤ now)
    × DistinctKeys plan.domains
    × FitsSpec m h (find_spec k plan.domains)
    × InOrder k m h now cs
InOrder k m h last (throttles plan code retry now ∷ cs) = InOrder k m h last cs
InOrder k m h last (limits current next at ∷ cs) = InOrder k m h last cs

abbrev attempts_of : RateDomainKey → RateBudgetState → List ℕ
attempts_of k s = (window_of s.windows k).attempts

-- A request that is put off enters nothing.
admit-throttled :
    (k : RateDomainKey) (now : ℕ) (s : RateBudgetState) (plan : RateRequestPlan)
    {c : RateWindowSpec × ℕ}
    → (scan plan.domains now s.windows none).1 ≡ some c
    → (entered k s (admits plan now) ≡ [])
      × (attempts_of k (step s (admits plan now))
          ≡ (window_of (scan plan.domains now s.windows none).0 k).attempts)
unfolding entered step admit_at
admit-throttled k now s plan h = (ground arith, ground arith)

-- A request that is let through enters its instant in each of its windows.
admit-admitted :
    (k : RateDomainKey) (now : ℕ) (s : RateBudgetState) (plan : RateRequestPlan)
    → DistinctKeys plan.domains
    → (scan plan.domains now s.windows none).1 ≡ none
    → (entered k s (admits plan now) ≡ entry (find_spec k plan.domains) now admitted)
      × (attempts_of k (step s (admits plan now))
          ≡ (attempted
              (find_spec k plan.domains)
              now
              (window_of (scan plan.domains now s.windows none).0 k)).attempts)
unfolding entered step admit_at
admit-admitted k now s plan d h =
    let ws = (scan plan.domains now s.windows none).0 in
    let put = record_attempts-window plan.domains now ws k d in (ground arith, ground arith)

-- The window of the key after the scan, by whether the plan names the key.
scanned-Kept :
    (m h last now : ℕ) (l : List ℕ) (o : Option RateWindowSpec) (w : RateWindowState)
    → 0 < h
    → last ≤ now
    → FitsSpec m h o
    → Kept m h last l w.attempts
    → Kept m h now l (examined o now w).attempts
scanned-Kept m h last now l none w pos le f kept = record {
  old = kept.old;
  split = kept.split;
  aged = Aged-mono h last now kept.old le kept.aged;
  spaced = kept.spaced;
}
scanned-Kept m h last now l (some spec) w pos le f kept =
    rw (examine-attempts spec now w)
      (Kept-prune m h spec.window_ms last now l w.attempts pos f.1 le kept)

attempted-Kept :
    (m h now : ℕ) (l : List ℕ) (o : Option RateWindowSpec) (w v : RateWindowState)
    → 0 < m
    → FitsSpec m h o
    → ((found : RateWindowSpec) → o ≡ some found → (examine found now w).1 ≡ none)
    → v ≡ examined o now w
    → Kept m h now l v.attempts
    → Kept m h now (l ++ entry o now admitted) (attempted o now v).attempts
attempted-Kept m h now l none w v pos f pass e kept = rw (append-nil l) kept
attempted-Kept m h now l (some spec) w v pos f pass e kept =
    let few = examine-few spec now m w pos f.0 (pass spec refl) in
    Kept-snoc m h now l v.attempts (rw e few) kept

admit-Kept :
    (k : RateDomainKey) (m h last now : ℕ) (s : RateBudgetState) (plan : RateRequestPlan)
    (l : List ℕ)
    → 0 < m
    → 0 < h
    → last ≤ now
    → DistinctKeys plan.domains
    → FitsSpec m h (find_spec k plan.domains)
    → Kept m h last l (attempts_of k s)
    → Kept m h now (l ++ entered k s (admits plan now)) (attempts_of k (step s (admits plan now)))
admit-Kept k m h last now s plan l m_pos pos le d f kept =
    let o = find_spec k plan.domains in
    let w = window_of s.windows k in
    let ws = (scan plan.domains now s.windows none).0 in
    let seen : window_of ws k ≡ examined o now w =
      scan-window plan.domains now s.windows none k d in
    let scanned : Kept m h now l (window_of ws k).attempts =
      subst (λ (v : RateWindowState). Kept m h now l v.attempts) (sym seen)
        (scanned-Kept m h last now l o w pos le f kept) in
    elim (Option-cases (scan plan.domains now s.windows none).1) [
      | inr (c, e) ↦
          let (nothing, same) = admit-throttled k now s plan e in
          rw (nothing, same) (rw (append-nil l) scanned)
      | inl e ↦
          let (one, more) = admit-admitted k now s plan d e in
          rw (one, more)
            (attempted-Kept m h now l o w (window_of ws k) m_pos f
              (λ found hf. scan-none-wait plan.domains now s.windows none k found d e hf) seen
              scanned)
    ]

throttle-attempts :
    (k : RateDomainKey) (s : RateBudgetState) (plan : RateRequestPlan) (code : String)
    (retry : Option ℕ) (now : ℕ)
    → attempts_of k (step s (throttles plan code retry now)) ≡ attempts_of k s
unfolding step record_exchange_throttle
throttle-attempts k s plan code retry now = ground (
  arith,
  block_all-attempts plan.domains (now + from_millis (exchange_defer_ms plan code retry)) s.windows
      k,
)

limits-attempts :
    (k : RateDomainKey) (s : RateBudgetState) (current : ℕ) (next : Option ℕ) (at : ℕ)
    → attempts_of k (step s (limits current next at)) ≡ attempts_of k s
unfolding step update_subaccount_rate_limit
limits-attempts k s current next at = refl

calls-Spaced :
    (k : RateDomainKey) (m h last : ℕ) (s : RateBudgetState) (l : List ℕ) (cs : List Call)
    → 0 < m
    → 0 < h
    → InOrder k m h last cs
    → Kept m h last l (attempts_of k s)
    → Spaced m h (l ++ log k s cs)
unfolding log entered
calls-Spaced k m h last s l [] m_pos pos o kept = rw (append-nil l) kept.spaced
calls-Spaced k m h last s l (admits plan now ∷ cs) m_pos pos o kept = rw (← append_assoc l) (
    calls-Spaced k m h now (step s (admits plan now)) (l ++ entered k s (admits plan now)) cs m_pos
      pos o.3 (admit-Kept k m h last now s plan l m_pos pos o.0 o.1 o.2 kept))
calls-Spaced k m h last s l (throttles plan code retry now ∷ cs) m_pos pos o kept =
    calls-Spaced k m h last (step s (throttles plan code retry now)) l cs m_pos pos o
      (rw (throttle-attempts k s plan code retry now) kept)
calls-Spaced k m h last s l (limits current next at ∷ cs) m_pos pos o kept =
    calls-Spaced k m h last (step s (limits current next at)) l cs m_pos pos o
      (rw (limits-attempts k s current next at) kept)

-- However requests, throttles and new limits follow one another from the start, of any `m + 1`
-- requests in a row that the budget lets through in the window of `k`, the last comes `h` nanoseconds
-- or more after the first: no more than `m` in any stretch of that length. The requests come in the
-- order of time, and each plan names `k` at most once, with a limit of at most `m` requests in a
-- window of at least `h`; `m` and `h` are positive.
pub log-Spaced :
    (k : RateDomainKey) (m h : ℕ) (cs : List Call)
    → 0 < m
    → 0 < h
    → InOrder k m h 0 cs
    → Spaced m h (log k new cs)
unfolding new window_of
log-Spaced k m h cs m_pos pos o =
    calls-Spaced k m h 0 new [] cs m_pos pos o
      (record { old = []; split = refl; aged = tt; spaced = λ i a b p q. cc p })

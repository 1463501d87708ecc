-- ===== src/Api/Rate/Windows.antt =====
-- crates/okx-api/src/rate.rs: what the loops of `admit_at` and `record_exchange_throttle` do to the
-- window of one key.
use mathlib.Core.Logic.{ite}
use okx.Prelude.{ℕ, ◌≤◌, ◌≡◌, refl, sym, subst, List, [], ◌∷◌, ◌++◌, Option, none, some, arith}
use okx.Prelude.Maps.{lookup-insert}
use okx.Api.Rate.Types.{RateDomainKey, RateDomainKey-discrete, RateWindowSpec, RateWindowState}
use okx.Api.Rate.Budget.{
  Windows, window_of, put_window, examine, constrain, scan, record_attempts, block_all, later_of,
}

abbrev same_key : (j k : RateDomainKey) → Dec (j ≡ k)
same_key = RateDomainKey-discrete

-- The first window of a plan that a key names.
abbrev pub find_spec : RateDomainKey → List RateWindowSpec → Option RateWindowSpec
find_spec k [] = none
find_spec k (spec ∷ specs) = ite (RateDomainKey-discrete spec.key k) (some spec) (find_spec k specs)

-- No key names two windows of a plan.
abbrev pub DistinctKeys : List RateWindowSpec → Type 0
DistinctKeys [] = Unit {0}
DistinctKeys (spec ∷ specs) = (find_spec spec.key specs ≡ none) × DistinctKeys specs

pub window_of-put :
    (ws : Windows) (k j : RateDomainKey) (w : RateWindowState)
    → window_of (put_window ws k w) j ≡ ite (RateDomainKey-discrete k j) w (window_of ws j)
unfolding window_of put_window
window_of-put ws k j w = ground (arith, lookup-insert RateDomainKey-discrete j k w ws)

-- What `scan` leaves of the window of `k`.
abbrev pub examined : Option RateWindowSpec → ℕ → RateWindowState → RateWindowState
examined none now w = w
examined (some spec) now w = (examine spec now w).0

-- A key that names no window of a list is none of its keys.
pub find_spec_same :
    (specs : List RateWindowSpec) (j k : RateDomainKey)
    → find_spec j specs ≡ none
    → j ≡ k
    → find_spec k specs ≡ none
find_spec_same specs j k h e = subst (λ i. find_spec i specs ≡ none) e h

pub scan-window :
    (specs : List RateWindowSpec) (now : ℕ) (ws : Windows) (c : Option (RateWindowSpec × ℕ))
    (k : RateDomainKey)
    → DistinctKeys specs
    → window_of (scan specs now ws c).0 k ≡ examined (find_spec k specs) now (window_of ws k)
unfolding scan
scan-window [] now ws c k d = refl
scan-window (spec ∷ specs) now ws c k d =
    let (w, wait) = examine spec now (window_of ws spec.key) in
    let ws' = put_window ws spec.key w in
    let rest = scan-window specs now ws' (constrain c spec wait) k d.1 in
    let put = window_of-put ws spec.key k w in
    let absent = find_spec_same specs spec.key k d.0 in ground arith

constrain-none :
    (c : Option (RateWindowSpec × ℕ)) (spec : RateWindowSpec) (wait : Option ℕ)
    → constrain c spec wait ≡ none
    → (c ≡ none) × (wait ≡ none)
unfolding constrain
constrain-none c spec none h = (h, refl)
constrain-none none spec (some wait_ms) h = ground arith
constrain-none (some (held_by, current)) spec (some wait_ms) h = ground arith

-- If nothing constrains the request, no window makes it wait.
pub scan-none :
    (specs : List RateWindowSpec) (now : ℕ) (ws : Windows) (c : Option (RateWindowSpec × ℕ))
    → (scan specs now ws c).1 ≡ none
    → c ≡ none
unfolding scan
scan-none [] now ws c h = h
scan-none (spec ∷ specs) now ws c h =
    let (w, wait) = examine spec now (window_of ws spec.key) in
    let rest = scan-none specs now (put_window ws spec.key w) (constrain c spec wait) h in
    (constrain-none c spec wait rest).0

pub scan-none-wait :
    (specs : List RateWindowSpec) (now : ℕ) (ws : Windows) (c : Option (RateWindowSpec × ℕ))
    (k : RateDomainKey) (found : RateWindowSpec)
    → DistinctKeys specs
    → (scan specs now ws c).1 ≡ none
    → find_spec k specs ≡ some found
    → (examine found now (window_of ws k)).1 ≡ none
unfolding scan
scan-none-wait [] now ws c k found d h f = cc
scan-none-wait (spec ∷ specs) now ws c k found d h f =
    let (w, wait) = examine spec now (window_of ws spec.key) in
    let ws' = put_window ws spec.key w in
    let c' = constrain c spec wait in
    let here = constrain-none c spec wait (scan-none specs now ws' c' h) in
    let there = scan-none-wait specs now ws' c' k found d.1 h in
    let put = window_of-put ws spec.key k w in
    let absent = find_spec_same specs spec.key k d.0 in
    elim (RateDomainKey-discrete spec.key k) [
      | yes e ↦
          let it : spec ≡ found = ground arith in
          subst (λ j. (examine found now (window_of ws j)).1 ≡ none) e
            (subst (λ (x : RateWindowSpec). (examine x now (window_of ws spec.key)).1 ≡ none) it
              here.1)
      | no n ↦
          let same : window_of ws' k ≡ window_of ws k = ground arith in
          let later : find_spec k specs ≡ some found = ground arith in
          subst (λ (v : RateWindowState). (examine found now v).1 ≡ none) same (there later)
    ]

-- The attempt that an admission adds to a window.
abbrev pub attempted : Option RateWindowSpec → ℕ → RateWindowState → RateWindowState
attempted none now w = w
attempted (some spec) now w = record w { attempts = w.attempts ++ now ∷ [] }

pub record_attempts-window :
    (specs : List RateWindowSpec) (now : ℕ) (ws : Windows) (k : RateDomainKey)
    → DistinctKeys specs
    → window_of (record_attempts specs now ws) k
      ≡ attempted (find_spec k specs) now (window_of ws k)
unfolding record_attempts
record_attempts-window [] now ws k d = refl
record_attempts-window (spec ∷ specs) now ws k d =
    let w = window_of ws spec.key in
    let w' : RateWindowState = record w { attempts = w.attempts ++ now ∷ [] } in
    let rest = record_attempts-window specs now (put_window ws spec.key w') k d.1 in
    let put = window_of-put ws spec.key k w' in
    let absent = find_spec_same specs spec.key k d.0 in ground arith

pub block_all-attempts :
    (specs : List RateWindowSpec) (until : ℕ) (ws : Windows) (k : RateDomainKey)
    → (window_of (block_all specs until ws) k).attempts ≡ (window_of ws k).attempts
unfolding block_all
block_all-attempts [] until ws k = refl
block_all-attempts (spec ∷ specs) until ws k =
    let w = window_of ws spec.key in
    let w' : RateWindowState = record w { blocked_until = some (later_of w.blocked_until until) } in
    let rest = block_all-attempts specs until (put_window ws spec.key w') k in
    let put = window_of-put ws spec.key k w' in ground arith

-- A window is blocked until `until` at least.
abbrev pub BlockedUntil : ℕ → RateWindowState → Type 0
BlockedUntil until w = (b : ℕ) × (w.blocked_until ≡ some b) × (until ≤ b)

later_of_bounds : (o : Option ℕ) (until : ℕ) → until ≤ later_of o until
later_of_bounds none until = omega arith
later_of_bounds (some c) until = omega arith

block-BlockedUntil :
    (w : RateWindowState) (until until' : ℕ)
    → BlockedUntil until w
    → until ≤ later_of w.blocked_until until'
block-BlockedUntil w until until' (b, e, h) = ground arith

-- A throttle of the exchange never shortens a block.
pub block_all-keeps :
    (specs : List RateWindowSpec) (until until' : ℕ) (ws : Windows) (k : RateDomainKey)
    → BlockedUntil until (window_of ws k)
    → BlockedUntil until (window_of (block_all specs until' ws) k)
unfolding block_all
block_all-keeps [] until until' ws k h = h
block_all-keeps (spec ∷ specs) until until' ws k h =
    let w = window_of ws spec.key in
    let w' : RateWindowState = record w {
      blocked_until = some (later_of w.blocked_until until');
    } in
    let put = window_of-put ws spec.key k w' in
    block_all-keeps specs until until' (put_window ws spec.key w') k
      (elim (RateDomainKey-discrete spec.key k) [
        | yes e ↦
            let was : BlockedUntil until w =
              subst (λ j. BlockedUntil until (window_of ws j)) (sym e) h in
            (later_of w.blocked_until until', ground arith, block-BlockedUntil w until until' was)
        | no n ↦ (h.0, ground (arith, h.1), h.2)
      ])

pub block_all-BlockedUntil :
    (specs : List RateWindowSpec) (until : ℕ) (ws : Windows) (k : RateDomainKey)
    (found : RateWindowSpec)
    → find_spec k specs ≡ some found
    → BlockedUntil until (window_of (block_all specs until ws) k)
unfolding block_all
block_all-BlockedUntil [] until ws k found f = cc
block_all-BlockedUntil (spec ∷ specs) until ws k found f =
    let w = window_of ws spec.key in
    let w' : RateWindowState = record w { blocked_until = some (later_of w.blocked_until until) } in
    let put = window_of-put ws spec.key k w' in
    elim (RateDomainKey-discrete spec.key k) [
      | yes e ↦
          block_all-keeps specs until until (put_window ws spec.key w') k
            (later_of w.blocked_until until, ground arith, later_of_bounds w.blocked_until until)
      | no n ↦ block_all-BlockedUntil specs until (put_window ws spec.key w') k found (ground arith)
    ]

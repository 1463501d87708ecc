-- ===== src/Api/Rate/Closed.antt =====
-- crates/okx-api/src/rate.rs: the window for which `admit_at` puts a request off.
use okx.Prelude.{
  ℕ, ◌≤◌, ◌<◌, ◌≡◌, ◌≢◌, refl, sym, ap, subst, ◌∙◌, ◌⊎◌, inl, inr, List, [], ◌∷◌, Option, none,
  some, arith, Option-cases, length,
}
use native.Mathlib.Decide.{dec_lt}
use okx.Api.Rate.Types.{
  RateDomainKey, RateWindowSpec, RateWindowState, RateRequestPlan, RateBudgetState,
  RateThrottleEvidence, RateDomainEvidence,
}
use okx.Api.Rate.Budget.{
  Windows, window_of, put_window, full_wait, examine, constrain, scan, prune, domain_evidence,
  admit_at, throttled,
}
use okx.Api.Rate.Windows.{
  find_spec, DistinctKeys, window_of-put, find_spec_same, examined, scan-window,
}

-- A window that lets nothing through: its block is to end yet, or it keeps as many attempts as its
-- limit.
abbrev pub Closed : RateWindowSpec → ℕ → RateWindowState → Type 0
Closed spec now w =
    ((b : ℕ) × (w.blocked_until ≡ some b) × (now < b)) ⊎ (spec.max_requests ≤ length w.attempts)

full_wait-many :
    (spec : RateWindowSpec) (left : List ℕ) (now : ℕ) {wait_ms : ℕ}
    → full_wait spec left now ≡ some wait_ms
    → spec.max_requests ≤ length left
unfolding full_wait
full_wait-many spec [] now h = cc h
full_wait-many spec (x ∷ xs) now h = ground arith

pub examine-Closed :
    (spec : RateWindowSpec) (now : ℕ) (w : RateWindowState) {wait_ms : ℕ}
    → (examine spec now w).1 ≡ some wait_ms
    → Closed spec now (examine spec now w).0
unfolding examine
examine-Closed spec now w {wait_ms} h =
    let many : full_wait spec (prune w.attempts spec.window_ms now) now ≡ some wait_ms
        → spec.max_requests ≤ length (prune w.attempts spec.window_ms now) =
      full_wait-many spec (prune w.attempts spec.window_ms now) now in
    elim (Option-cases w.blocked_until) [
      | inl free ↦ inr (ground (arith, many))
      | inr (b, e) ↦ elim (dec_lt now b) [
        | yes lt ↦ inl (b, ground arith, lt)
        | no n ↦ inr (ground (arith, many))
      ]
    ]

constrain-some :
    (c : Option (RateWindowSpec × ℕ)) (spec : RateWindowSpec) (wait : Option ℕ)
    {held : RateWindowSpec} {wait_ms : ℕ}
    → constrain c spec wait ≡ some (held, wait_ms)
    → (c ≡ some (held, wait_ms)) ⊎ ((spec ≡ held) × (wait ≡ some wait_ms))
unfolding constrain
constrain-some c spec none h = inl h
constrain-some none spec (some w) h = inr (ground arith)
constrain-some (some (held_by, current)) spec (some w) h = ground arith

find_spec_first :
    (spec : RateWindowSpec) (specs : List RateWindowSpec)
    → find_spec spec.key (spec ∷ specs) ≡ some spec
find_spec_first spec specs = ground arith

-- What constrains a request is a window of its plan, which makes it wait.
pub scan-some :
    (specs : List RateWindowSpec) (now : ℕ) (ws : Windows) (c : Option (RateWindowSpec × ℕ))
    {held : RateWindowSpec} {wait_ms : ℕ}
    → DistinctKeys specs
    → (scan specs now ws c).1 ≡ some (held, wait_ms)
    → (c ≡ some (held, wait_ms))
      ⊎ ((find_spec held.key specs ≡ some held)
          × ((examine held now (window_of ws held.key)).1 ≡ some wait_ms))
unfolding scan
scan-some [] now ws c d h = inl h
scan-some (spec ∷ specs) now ws c {held} {wait_ms} d h =
    let (w, wait) = examine spec now (window_of ws spec.key) in
    let ws' = put_window ws spec.key w in
    elim (scan-some specs now ws' (constrain c spec wait) d.1 h) [
      | inl e ↦ elim (constrain-some c spec wait e) [
        | inl before ↦ inl before
        | inr (same, waits) ↦ inr (
          subst (λ x. find_spec x.key (spec ∷ specs) ≡ some x) same (find_spec_first spec specs),
          subst (λ x. (examine x now (window_of ws x.key)).1 ≡ some wait_ms) same waits,
        )
      ]
      | inr (found, waits) ↦
          let other : spec.key ≢ held.key =
            λ e. cc (find_spec_same specs spec.key held.key d.0 e, found) in
          let put : window_of ws' held.key ≡ window_of ws held.key =
            ground (arith, window_of-put ws spec.key held.key w, other) in
          inr (
            ground (arith, other, found),
            subst (λ v. (examine held now v).1 ≡ some wait_ms) put waits,
          )
    ]

-- A report names a window, with its limits.
abbrev pub Names : RateWindowSpec → RateDomainEvidence → Type 0
Names spec domain =
    (domain.kind ≡ spec.key.kind)
    × (domain.endpoint ≡ spec.key.endpoint)
    × (domain.scope ≡ spec.key.scope)
    × (domain.local_max_requests ≡ spec.max_requests)
    × (domain.local_window_ms ≡ spec.window_ms)

domain_evidence-Names : (spec : RateWindowSpec) → Names spec (domain_evidence spec)
unfolding domain_evidence
domain_evidence-Names spec = (refl, refl, refl, refl, refl)

-- A window of the plan that the report names is closed.
abbrev pub Cause : RateRequestPlan → ℕ → Windows → RateThrottleEvidence → Type 0
Cause plan now ws e =
    (spec : RateWindowSpec) × (find_spec spec.key plan.domains ≡ some spec)
    × Names spec e.domain
    × Closed spec now (window_of ws spec.key)

constrained :
    (s : RateBudgetState) (plan : RateRequestPlan) (now : ℕ) {s' : RateBudgetState}
    {e : RateThrottleEvidence}
    → admit_at s plan now ≡ (s', throttled e)
    → (held : RateWindowSpec) × (wait_ms : ℕ) × ((scan plan.domains now s.windows none).1
        ≡ some (held, wait_ms))
      × (e.domain ≡ domain_evidence held)
      × (s'.windows ≡ (scan plan.domains now s.windows none).0)
unfolding admit_at
constrained s plan now h = elim (Option-cases (scan plan.domains now s.windows none).1) [
  | inl e ↦ ground (arith, e)
  | inr ((held, wait_ms), e) ↦ (held, wait_ms, e, ground (arith, e), ground (arith, e))
]

-- The window of a key after a request that is put off.
pub put_off-window :
    (s : RateBudgetState) (plan : RateRequestPlan) (now : ℕ) {s' : RateBudgetState}
    {e : RateThrottleEvidence} (k : RateDomainKey)
    → DistinctKeys plan.domains
    → admit_at s plan now ≡ (s', throttled e)
    → window_of s'.windows k ≡ examined (find_spec k plan.domains) now (window_of s.windows k)
put_off-window s plan now k d h =
    let (held, wait_ms, scanned, domain, windows) = constrained s plan now h in
    rw windows (scan-window plan.domains now s.windows none k d)

pub put_off-Cause :
    (s : RateBudgetState) (plan : RateRequestPlan) (now : ℕ) {s' : RateBudgetState}
    {e : RateThrottleEvidence}
    → DistinctKeys plan.domains
    → admit_at s plan now ≡ (s', throttled e)
    → Cause plan now s'.windows e
put_off-Cause s plan now {s'} d h =
    let (held, wait_ms, scanned, domain, windows) = constrained s plan now h in
    elim (scan-some plan.domains now s.windows none d scanned) [
      | inl never ↦ cc never
      | inr (found, waits) ↦
          let there : window_of s'.windows held.key
              ≡ (examine held now (window_of s.windows held.key)).0 =
            put_off-window s plan now held.key d h
            ∙ ap (λ o. examined o now (window_of s.windows held.key)) found in
          (
            held,
            found,
            subst (Names held) (sym domain) (domain_evidence-Names held),
            subst (Closed held now) (sym there)
                (examine-Closed held now (window_of s.windows held.key) waits),
          )
    ]

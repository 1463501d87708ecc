-- ===== src/Api/Rate/Wait/Ends.antt =====
-- crates/okx-api/src/rate.rs: `admit_wait` ends.
use okx.Prelude.{
  ℕ, zero, suc, ◌+◌, ◌-◌, ◌*◌, ◌≤◌, ◌<◌, false, some, ◌≡◌, refl, Bool-cases, inl, inr, ◌⊎◌, arith,
}
use okx.Api.Rate.Types.{RateRequestPlan, RateThrottleEvidence, RateBudgetState}
use okx.Api.Rate.Budget.{Admission, admitted, throttled, from_millis, admit_at}
use okx.Api.Rate.Wait.{Turn, gives_up, admit_wait}

Admission-cases :
    (a : Admission) → (a ≡ admitted) ⊎ ((e : RateThrottleEvidence) × (a ≡ throttled e))
Admission-cases admitted = inl refl
Admission-cases (throttled e) = inr (e, refl)

absurd : (d m e : ℕ) → 1000000 ≤ d → d ≤ m - e → m < e + 0 * 1000000 → ⊥
absurd d m e a b c = omega (arith, a, b, c)

module _ (turns : ℕ → Turn) (plan : RateRequestPlan) where
  -- The answer of a round.
  abbrev pub answer : ℕ → RateBudgetState × Admission
  answer k = admit_at (turns k).state plan (turns k).now

  -- What the clock and `sleep` promise: time does not go back, and a sleep lasts at least as long as
  -- it was asked to.
  pub record IsClock (started : ℕ) : Type 0 where
    pub begins : started ≤ (turns 0).now
    pub goes_on : (k : ℕ) → (turns k).now ≤ (turns k).later
    pub sleeps :
        (k : ℕ) (e : RateThrottleEvidence)
        → (answer k).1 ≡ throttled e
        → (turns k).later + from_millis e.local_defer_ms ≤ (turns (suc k)).now

  -- A loop that does not give up has a delay, within what remains.
  gives_up-false :
      (e : RateThrottleEvidence) (max_wait elapsed : ℕ)
      → gives_up e max_wait elapsed ≡ false
      → (1000000 ≤ from_millis e.local_defer_ms)
        × (from_millis e.local_defer_ms ≤ max_wait - elapsed)
  unfolding gives_up
  gives_up-false e max_wait elapsed h = ground arith

  admit_wait_from :
      (max_wait started rounds k : ℕ)
      → IsClock started
      → started ≤ (turns k).later
      → max_wait < ((turns k).later - started) + rounds * 1000000
      → (i : ℕ) × (admit_wait turns plan max_wait started (suc rounds) k ≡ some (answer i))
  unfolding admit_wait
  admit_wait_from max_wait started zero k c s h = elim (Admission-cases (answer k).1) [
    | inl a ↦ (k, ground (arith, a))
    | inr (e, a) ↦ elim (Bool-cases (gives_up e max_wait ((turns k).later - started))) [
      | inl g ↦ (k, ground (arith, a, g))
      | inr g ↦
          let (d, r) = gives_up-false e max_wait ((turns k).later - started) g in
          elim (absurd (from_millis e.local_defer_ms) max_wait ((turns k).later - started) d r
            h) [ ]
    ]
  ]
  admit_wait_from max_wait started (suc n) k c s h = elim (Admission-cases (answer k).1) [
    | inl a ↦ (k, ground (arith, a))
    | inr (e, a) ↦ elim (Bool-cases (gives_up e max_wait ((turns k).later - started))) [
      | inl g ↦ (k, ground (arith, a, g))
      | inr g ↦
          let (d, r) = gives_up-false e max_wait ((turns k).later - started) g in
          let next = c.sleeps k e a in
          let later = c.goes_on (suc k) in
          let (i, w) =
            admit_wait_from max_wait started n (suc k) c (omega (arith, next, later, s))
              (omega (arith, next, later, s, h, d)) in
          (i, ground (arith, a, g, w))
    ]
  ]

  -- With more rounds than the longest wait has milliseconds, the loop ends, with the answer of one
  -- of its rounds, whatever other tasks do to the budget in between; the clock does not go back, and
  -- a sleep lasts at least as long as it was asked to.
  pub admit_wait-ends :
      (max_wait started rounds : ℕ)
      → IsClock started
      → max_wait < rounds * 1000000
      → (i : ℕ) × (admit_wait turns plan max_wait started (suc rounds) 0 ≡ some (answer i))
  admit_wait-ends max_wait started rounds c h =
      let start = c.begins in
      let first = c.goes_on 0 in
      admit_wait_from max_wait started rounds 0 c (omega (arith, start, first)) (omega (arith, h))

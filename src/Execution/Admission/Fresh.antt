-- ===== src/Execution/Admission/Fresh.antt =====
-- crates/okx-execution/src/risk/admission.rs: the orders that are admitted.
use okx.Prelude.{◌<◌, ◌≡◌, ◌↔◌, true, false, arith}
use okx.Prelude.Int.{ℤ, pos, negsuc, pos_part, neg_part, ◌+ℤ◌, ◌-ℤ◌, ◌≤ℤ◌, ◌<ℤ◌, eqb_ℤ_iff}
use okx.Prelude.Decimals.{Decimals}
use okx.Execution.Admission.{FreshnessLimits, ok, AdmissionEvidence, is_stale, evaluate_admission}

-- Evidence of the time `at` is not from the future, and at most `limit` old.
abbrev pub Recent : ℤ → ℤ → ℤ → Type 0
Recent now at limit = (at ≤ℤ now) × (now ≤ℤ at +ℤ limit)

-- A time in milliseconds since 1970 that an `i64` holds.
abbrev pub IsTime : ℤ → Type 0
IsTime t = (neg_part t ≡ 0) × (pos_part t < 9223372036854775808)

is_stale-Recent :
    (now at limit : ℤ)
    → IsTime now
    → IsTime at
    → (is_stale now at limit ≡ false) ↔ Recent now at limit
unfolding is_stale ◌+ℤ◌ ◌-ℤ◌
is_stale-Recent (pos now) (pos at) (pos limit) h g = ground arith
is_stale-Recent (pos now) (pos at) (negsuc limit) h g = ground arith
is_stale-Recent (pos now) (negsuc at) limit h g = absurd (omega (arith, g.0))
is_stale-Recent (negsuc now) at limit h g = absurd (omega (arith, h.0))

module _ (dec : Decimals) where
  open dec use {decimal_zero, lt}

  pub record IsAdmissible (e : AdmissionEvidence dec) (ttl : FreshnessLimits) : Type 0 where
    pub in_time : e.now <ℤ e.deadline
    pub same_policy : e.policy_revision ≡ e.planned_policy_revision
    pub same_quote : e.quote_generation ≡ e.public_generation
    pub same_rules : e.rules_generation ≡ e.public_generation
    pub same_account : e.account_generation ≡ e.private_generation
    pub recent_quote : Recent e.now e.quote_at ttl.quote_ms
    pub recent_account : Recent e.now e.account_at ttl.account_ms
    pub whole : e.complete ≡ true
    pub positive : lt decimal_zero e.requested_qty ≡ true
    pub running : e.risk_increase ≡ true → (e.paused ≡ false) × (e.stopped ≡ false)
    pub confirmed : e.risk_increase ≡ false → lt e.confirmed_reduce_qty e.requested_qty ≡ false

  -- For times that are not negative, an order is admitted exactly if its deadline is to come, its
  -- policy is the planned one, quote, rules and account are of the generations in force, quote and
  -- account are not from the future and not older than their limits, the account is complete, the
  -- size is positive, and: an order that raises the risk finds trading neither paused nor stopped,
  -- any other is at most the confirmed reduction.
  pub evaluate_admission_iff :
      (e : AdmissionEvidence dec) (ttl : FreshnessLimits)
      → IsTime e.now
      → IsTime e.quote_at
      → IsTime e.account_at
      → (evaluate_admission dec e ttl ≡ ok) ↔ IsAdmissible e ttl
  unfolding evaluate_admission
  evaluate_admission_iff e ttl now quote account =
      let same = eqb_ℤ_iff e.policy_revision e.planned_policy_revision in
      let q = is_stale-Recent e.now e.quote_at ttl.quote_ms now quote in
      let a = is_stale-Recent e.now e.account_at ttl.account_ms now account in
      (
        λ h. record {
          in_time = ground arith;
          same_policy = same.0 (ground arith);
          same_quote = ground arith;
          same_rules = ground arith;
          same_account = ground arith;
          recent_quote = q.0 (ground arith);
          recent_account = a.0 (ground arith);
          whole = ground arith;
          positive = ground arith;
          running = ground arith;
          confirmed = ground arith;
        },
        λ h. ground (
          arith,
          h.in_time,
          same.1 h.same_policy,
          q.1 h.recent_quote,
          a.1 h.recent_account,
          h.running,
          h.confirmed,
        ),
      )

-- ===== src/Execution/Admission.antt =====
-- crates/okx-execution/src/risk/admission.rs: the last test of an order before it is sent, and
-- crates/okx-execution/src/finance/coverage.rs: which times the ledger covers. The numbers of
-- `rust_decimal` are a parameter.
use okx.Prelude.{ℕ, Bool, true, false, not, ◌&&◌, ◌||◌, List, any, ltb, leb, ◌==◌, if◌then◌else◌}
use okx.Prelude.Int.{ℤ, pos, ◌-ℤ◌, ltb_ℤ, leb_ℤ, eqb_ℤ, i64_wrap}
use okx.Prelude.Decimals.{Decimals}
pub mod Fresh

pub record FreshnessLimits : Type 0 where
  pub quote_ms : ℤ
  pub account_ms : ℤ

-- `FreshnessLimits::default`
abbrev pub default_limits : FreshnessLimits
default_limits = record { quote_ms = pos 2000; account_ms = pos 5000 }

-- The errors `StoreError::Invalid`, by their texts.
pub data StoreError : Type 0 where
  command_expired policy_changed source_generation_mismatch waiting_fresh_quote
        waiting_account_evidence invalid_size risk_increase_stopped confirmed_reduction_exceeded :
      StoreError

pub data StoreResult : Type 0 where
  ok : StoreResult
  err : StoreError → StoreResult

-- Whether evidence of the time `at` is from the future or older than the limit.
unfoldable pub is_stale : ℤ → ℤ → ℤ → Bool
is_stale now at limit = ltb_ℤ now at || ltb_ℤ limit (i64_wrap (now -ℤ at))

module _ (dec : Decimals) where
  open dec use {Decimal, decimal_zero, lt}

  pub record AdmissionEvidence : Type 0 where
    pub now : ℤ
    pub deadline : ℤ
    pub quote_at : ℤ
    pub account_at : ℤ
    pub public_generation : ℕ
    pub private_generation : ℕ
    pub quote_generation : ℕ
    pub account_generation : ℕ
    pub rules_generation : ℕ
    pub policy_revision : ℤ
    pub planned_policy_revision : ℤ
    pub risk_increase : Bool
    pub paused : Bool
    pub stopped : Bool
    pub complete : Bool
    pub confirmed_reduce_qty : Decimal
    pub requested_qty : Decimal

  unfoldable pub evaluate_admission : AdmissionEvidence → FreshnessLimits → StoreResult
  evaluate_admission e ttl =
      if leb_ℤ e.deadline e.now
      then err command_expired
      else if not (eqb_ℤ e.policy_revision e.planned_policy_revision)
      then err policy_changed
      else if not (e.quote_generation == e.public_generation)
          || not (e.rules_generation == e.public_generation)
          || not (e.account_generation == e.private_generation)
      then err source_generation_mismatch
      else if is_stale e.now e.quote_at ttl.quote_ms
      then err waiting_fresh_quote
      else if is_stale e.now e.account_at ttl.account_ms || not e.complete
      then err waiting_account_evidence
      else if not (lt decimal_zero e.requested_qty)
      then err invalid_size
      else if e.risk_increase
      then (if e.paused || e.stopped then err risk_increase_stopped else ok)
      else if lt e.confirmed_reduce_qty e.requested_qty
      then err confirmed_reduction_exceeded
      else ok

-- The reason of `Partial` is always the same text.
pub data Coverage : Type 0 where
  complete partial unavailable_before_t0 : Coverage

unfoldable pub coverage_at : ℤ → ℤ → List (ℤ × ℤ) → Coverage
coverage_at time t0 gaps =
    if ltb_ℤ time t0
    then unavailable_before_t0
    else if any (λ gap. leb_ℤ gap.0 time && leb_ℤ time gap.1) gaps
    then partial
    else complete

-- ===== src/Execution/Tests.antt =====
-- crates/okx-execution/src/risk/admission.rs: an order that is admitted.
use okx.Prelude.{◌≡◌, refl, ◌↔◌, true, false, arith}
use okx.Prelude.Int.{pos, ◌-ℤ◌}
use okx.Prelude.Samples.{decimals}
use okx.Execution.Admission.{AdmissionEvidence, default_limits, ok, is_stale, evaluate_admission}
use okx.Execution.Admission.Fresh.{IsAdmissible, evaluate_admission_iff}

abbrev order : AdmissionEvidence decimals
order = record {
  now = pos 5001;
  deadline = pos 6000;
  quote_at = pos 3001;
  account_at = pos 1;
  public_generation = 7;
  private_generation = 91;
  quote_generation = 7;
  account_generation = 91;
  rules_generation = 7;
  policy_revision = pos 2;
  planned_policy_revision = pos 2;
  risk_increase = true;
  paused = false;
  stopped = false;
  complete = true;
  confirmed_reduce_qty = 0;
  requested_qty = 1;
}

evaluate_admission_iff_example :
    (evaluate_admission decimals order default_limits ≡ ok)
    ↔ IsAdmissible decimals order default_limits
evaluate_admission_iff_example =
    evaluate_admission_iff decimals order default_limits (refl, omega arith) (refl, omega arith)
      (refl, omega arith)

admitted : evaluate_admission decimals order default_limits ≡ ok
unfolding evaluate_admission is_stale ◌-ℤ◌
admitted = refl

-- ===== src/Api/Rate/Plans/Ready.antt =====
-- crates/okx-api/src/rate.rs: the plans that requests are given.
use Prim.Native.String.{String}
use text.Mathlib.Text.{◌==◌ as str_eq}
use okx.Prelude.{
  ℕ, ◌<◌, ◌≡◌, ◌≢◌, refl, List, [], ◌∷◌, Option, none, arith, Bool-cases, inl, inr, All,
}
use okx.Api.Rate.Types.{
  RateOperationClass, subaccount_aggregate, local_fallback_limit, local_fallback_window_ms,
  RateDomainKey, RateWindowSpec, RateRequestPlan, RateBudgetState, place_order, amend_order,
}
use okx.Api.Rate.Plans.{
  by_text, public_arms, private_arms, public_limits, private_limits, trade_domain, aggregate,
  public_rest_plan, private_rest_plan, trade_rest_plan,
}
use okx.Api.Rate.Windows.{find_spec, DistinctKeys}

-- A window lets some request through.
abbrev pub IsOpen : RateWindowSpec → Type 0
IsOpen spec = (0 < spec.max_requests) × (0 < spec.window_ms)

-- A plan has a window, names each window once, and each window lets some request through.
pub record IsReady (plan : RateRequestPlan) : Type 0 where
  pub nonempty : plan.domains ≢ []
  pub distinct : DistinctKeys plan.domains
  pub windows_open : All IsOpen plan.domains

by_text-All :
    (P : ℕ × ℕ → Type 0) (path : String) (arms : List (String × (ℕ × ℕ))) (other : ℕ × ℕ)
    → All (λ arm. P (arm.1)) arms
    → P other
    → P (by_text path arms other)
by_text-All P path [] other h o = o
by_text-All P path ((arm, a) ∷ arms) other h o = elim (Bool-cases (str_eq path arm)) [
  | inl e ↦ rw e (h.0)
  | inr e ↦ rw e (by_text-All P path arms other h.1 o)
]

abbrev Positive : ℕ × ℕ → Type 0
Positive limits = (0 < limits.0) × (0 < limits.1)

public_limits-Positive : (path : String) → Positive (public_limits path)
unfolding public_limits
public_limits-Positive path =
    by_text-All Positive path public_arms (local_fallback_limit, local_fallback_window_ms)
      (omega arith) (omega arith)

private_limits-Positive : (path : String) → Positive (private_limits path)
unfolding private_limits
private_limits-Positive path =
    by_text-All Positive path private_arms (local_fallback_limit, local_fallback_window_ms)
      (omega arith) (omega arith)

-- A plan for a public read has a window, names each window once, and each window lets some request through.
pub public_rest_plan-IsReady :
    (path : String) (params : List (String × String)) → IsReady (public_rest_plan path params)
unfolding public_rest_plan
public_rest_plan-IsReady path params = record {
  nonempty = λ e. cc e;
  distinct = (refl, tt);
  windows_open = (public_limits-Positive path, tt);
}

-- A plan for a private read has a window, names each window once, and each window lets some request through.
pub private_rest_plan-IsReady :
    (path : String) (params : List (String × String)) → IsReady (private_rest_plan path params)
unfolding private_rest_plan
private_rest_plan-IsReady path params = record {
  nonempty = λ e. cc e;
  distinct = (refl, tt);
  windows_open = (private_limits-Positive path, tt);
}

trade_domain-ne :
    (operation : RateOperationClass) (family : Option String)
    → trade_domain operation family ≢ subaccount_aggregate
unfolding trade_domain
trade_domain-ne operation family = λ e. ground arith

aggregate-absent :
    (operation : RateOperationClass) (current : ℕ) (key : RateDomainKey)
    → key.kind ≢ subaccount_aggregate
    → find_spec key (aggregate operation current) ≡ none
unfolding aggregate
aggregate-absent place_order current key ne = ground arith
aggregate-absent amend_order current key ne = ground arith
aggregate-absent _ current key ne = refl

aggregate-DistinctKeys :
    (operation : RateOperationClass) (current : ℕ) → DistinctKeys (aggregate operation current)
unfolding aggregate
aggregate-DistinctKeys place_order current = (refl, tt)
aggregate-DistinctKeys amend_order current = (refl, tt)
aggregate-DistinctKeys _ current = tt

aggregate-IsOpen :
    (operation : RateOperationClass) (current : ℕ) → All IsOpen (aggregate operation current)
unfolding aggregate
aggregate-IsOpen place_order current = omega arith
aggregate-IsOpen amend_order current = omega arith
aggregate-IsOpen _ current = tt

-- A plan for placing, amending or cancelling an order over REST, whatever the current limit of the
-- sub-account, has a window, names each window once, and each window lets some request through.
pub trade_rest_plan-IsReady :
    (s : RateBudgetState) (operation : RateOperationClass) (instrument : String)
    (family : Option String)
    → IsReady (trade_rest_plan s operation instrument family)
unfolding trade_rest_plan
trade_rest_plan-IsReady s operation instrument family =
    let current = s.current_subaccount_limit_per_2s in
    record {
      nonempty = λ e. cc e;
      distinct = (
        aggregate-absent operation current _ (trade_domain-ne operation family),
        aggregate-DistinctKeys operation current,
      );
      windows_open = (omega arith, aggregate-IsOpen operation current);
    }

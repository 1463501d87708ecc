-- ===== src/Api/Rate/Plans/Shared.antt =====
-- crates/okx-api/src/rate.rs: the windows that orders over REST and over the websocket share.
use Prim.Native.String.{String}
use okx.Prelude.{ℕ, ◌≡◌, refl, ◌↔◌, Option, none, some, max, arith}
use okx.Api.Rate.Types.{
  RateOperationClass, subaccount_aggregate, place_order, amend_order, cancel_order, ws_place_order,
  ws_amend_order, ws_cancel_order, RateDomainKey, RateDomainKey-discrete, RateDomainKind-discrete,
  RateWindowSpec, RateRequestPlan, RateBudgetState,
}
use okx.Api.Rate.Budget.{admit_at, admitted}
use okx.Api.Rate.Plans.{trade_domain, aggregate, trade_rest_plan, ws_order_plan, rest_equivalent}
use okx.Api.Rate.Plans.Ready.{IsReady, trade_rest_plan-IsReady}
use okx.Api.Rate.Windows.{find_spec}

-- An operation over the websocket and the one over REST that does the same.
pub data SameOrder : RateOperationClass → RateOperationClass → Type 0 where
  placing : SameOrder ws_place_order place_order
  amending : SameOrder ws_amend_order amend_order
  cancelling : SameOrder ws_cancel_order cancel_order

abbrev pub account_key : RateDomainKey
account_key = record {
  kind = subaccount_aggregate;
  endpoint = none;
  scope = some "authenticated_subaccount";
}

-- The window over all orders of the sub-account, which orders to cancel do not enter.
abbrev pub account_window : RateOperationClass → ℕ → Option RateWindowSpec
account_window cancel_order current = none
account_window operation current =
    some (record { key = account_key; max_requests = max current 1; window_ms = 2000 })

-- A plan of an order over the websocket, against the plan of the same order over REST.
pub record Shares (s : RateBudgetState) (operation rest : RateOperationClass)
    (ws_plan rest_plan : RateRequestPlan) : Type 0 where
  pub ready : IsReady ws_plan
  pub named : ws_plan.operation ≡ operation
  pub windows : ws_plan.domains ≡ rest_plan.domains
  pub account :
      find_spec account_key ws_plan.domains ≡ account_window rest s.current_subaccount_limit_per_2s
  pub left_alike :
      (state : RateBudgetState) (now : ℕ)
      → (admit_at state ws_plan now).0.windows ≡ (admit_at state rest_plan now).0.windows
  pub admitted_alike :
      (state : RateBudgetState) (now : ℕ)
      → ((admit_at state ws_plan now).1 ≡ admitted) ↔ ((admit_at state rest_plan now).1 ≡ admitted)

-- Which requests are let through depends on the windows of their plans only.
alike :
    (state : RateBudgetState) (p q : RateRequestPlan) (now : ℕ)
    → p.domains ≡ q.domains
    → ((admit_at state p now).0.windows ≡ (admit_at state q now).0.windows)
      × (((admit_at state p now).1 ≡ admitted) ↔ ((admit_at state q now).1 ≡ admitted))
unfolding admit_at
alike state p q now e = (ground (arith, e), (ground (arith, e), ground (arith, e)))

account-found :
    (s : RateBudgetState) {operation rest : RateOperationClass} (instrument : String)
    (family : Option String)
    → SameOrder operation rest
    → find_spec account_key (trade_rest_plan s rest instrument family).domains
      ≡ account_window rest s.current_subaccount_limit_per_2s
unfolding trade_rest_plan aggregate trade_domain RateDomainKey-discrete RateDomainKind-discrete
account-found s instrument (some f) placing = ground arith
account-found s instrument none placing = ground arith
account-found s instrument (some f) amending = ground arith
account-found s instrument none amending = ground arith
account-found s instrument (some f) cancelling = ground arith
account-found s instrument none cancelling = ground arith

same_windows :
    (s : RateBudgetState) {operation rest : RateOperationClass} (instrument : String)
    (family : Option String)
    → SameOrder operation rest
    → (ws_order_plan s operation instrument family).domains
      ≡ (trade_rest_plan s rest instrument family).domains
unfolding ws_order_plan rest_equivalent
same_windows s instrument family placing = refl
same_windows s instrument family amending = refl
same_windows s instrument family cancelling = refl

same_windows-Shares :
    (s : RateBudgetState) (operation rest : RateOperationClass) (p q : RateRequestPlan)
    → p.operation ≡ operation
    → p.domains ≡ q.domains
    → IsReady q
    → find_spec account_key q.domains ≡ account_window rest s.current_subaccount_limit_per_2s
    → Shares s operation rest p q
same_windows-Shares s operation rest p q named e r found = record {
  ready = record {
    nonempty = rw e r.nonempty;
    distinct = rw e r.distinct;
    windows_open = rw e r.windows_open;
  };
  named = named;
  windows = e;
  account = rw e found;
  left_alike = λ state now. (alike state p q now e).0;
  admitted_alike = λ state now. (alike state p q now e).1;
}

-- An order to place, amend or cancel over the websocket shares all its windows with the same order
-- over REST: in any state, at any instant, the one is let through exactly if the other is, and both
-- leave the same windows. To place or amend enters the window of the sub-account too, at its current
-- limit, at least one, in 2 seconds; to cancel does not. The plan has a window, names each window
-- once, and each lets some request through.
pub ws_order_plan-Shares :
    (s : RateBudgetState) {operation rest : RateOperationClass} (instrument : String)
    (family : Option String)
    → SameOrder operation rest
    → Shares s operation rest
        (ws_order_plan s operation instrument family)
        (trade_rest_plan s rest instrument family)
unfolding ws_order_plan
ws_order_plan-Shares s {operation} {rest} instrument family same =
    same_windows-Shares s operation rest _ _ refl (same_windows s instrument family same)
      (trade_rest_plan-IsReady s rest instrument family) (account-found s instrument family same)

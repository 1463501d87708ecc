-- ===== src/Agent/Tests.antt =====
-- crates/okx-agent/src/analytics/budget.rs: the estimate of a grid.
use okx.Prelude.{ℕ, ◌≡◌, refl, [], ◌∷◌, arith}
use okx.Protocol.Analytics.{observed, historical_observed, ResearchRequest, grid}
use okx.Agent.Budget.{ok, memory_of, estimate, estimated_mib}
use okx.Agent.Budget.Bounds.{Sized, estimated_mib-Sized, estimate-ok}

abbrev request : ResearchRequest ℕ
request =
    grid "grid-key" ("BTC-USDT" ∷ "ETH-USDT" ∷ []) 60000 60000 6060000 "ema_cross_v1"
      (record { fast = 2; slow = 90 } ∷ [])
      (record { maker_fee_bps = 0; taker_fee_bps = 5; slippage_bps = 2; funding_mode = observed })
      historical_observed 448

estimated : estimated_mib request ≡ ok 33
unfolding estimated_mib estimate memory_of
estimated = refl

estimated_mib-Sized_example : Sized request (estimated_mib request)
estimated_mib-Sized_example = estimated_mib-Sized request

estimate-ok_example : (m : ℕ) × (estimate 2 60000 6060000 60000 1 ≡ ok m)
estimate-ok_example =
    estimate-ok 2 60000 6060000 60000 1 (omega arith) (omega arith) (omega arith) (omega arith)
      (omega arith) (omega arith) (omega arith)

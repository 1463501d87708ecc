-- ===== src/Runtime/Public/Log.antt =====
-- crates/okx-runtime/src/public/state.rs: runs of the operations on the connection, and what their
-- order says of the state.
use Prim.Native.String.{String}
use mathlib.Core.Logic.{ite}
use okx.Prelude.{ℕ, Bool, true, false, List, [], ◌∷◌, Option, ◌≡◌, refl, ap, ◌∙◌}
use okx.Prelude.Decimals.{Decimals}
use okx.Prelude.Maps.{
  has_key, has_key-insert_key, Unique, has_key-remove_key, remove_key-Unique, insert_key-Unique,
}
use okx.Observation.Reference.Types.{ReferenceRegistry}
use okx.Observation.Stream.State.{MarketStreamState}
use okx.Runtime.Public.Types.{
  WsArg, Subscription, Subscription-discrete, is_connected, PublicRuntimeState,
}
use okx.Runtime.Public.Subscriptions.{subscription_from_arg}
use okx.Runtime.Public.State.{
  remove_market, begin_generation, set_disconnected, set_connecting, acknowledge, unacknowledge,
}

module _ (dec : Decimals) where
  -- The calls on the state. `observes` is what the coordinator does in between to the registry and
  -- to the markets: it may change them in any way.
  pub data Call : Type 0 where
    begins : ℕ → List String → Call
    disconnects : Bool → String → Call
    connects : Call
    acknowledges : WsArg → Option String → Call
    unacknowledges : WsArg → Call
    removes : String → Call
    observes : ReferenceRegistry → List (String × MarketStreamState dec) → Call

  abbrev pub step : PublicRuntimeState dec → Call → PublicRuntimeState dec
  step s (begins generation demands) = begin_generation dec s generation demands
  step s (disconnects again reason) = set_disconnected dec s again reason
  step s connects = set_connecting dec s
  step s (acknowledges arg id) = acknowledge dec s arg id
  step s (unacknowledges arg) = unacknowledge dec s arg
  step s (removes instrument_id) = remove_market dec s instrument_id
  step s (observes reference markets) = record s { reference = reference; markets = markets }

  abbrev pub run : PublicRuntimeState dec → List Call → PublicRuntimeState dec
  run s [] = s
  run s (call ∷ calls) = run (step s call) calls

  -- Whether a connection stands after a call, if one stood before.
  abbrev pub linked_by : Bool → Call → Bool
  linked_by b (begins generation demands) = true
  linked_by b (disconnects again reason) = false
  linked_by b connects = false
  linked_by b _ = b

  -- Whether the last of the calls that begin or end a connection began one.
  abbrev pub linked : Bool → List Call → Bool
  linked b [] = b
  linked b (call ∷ calls) = linked (linked_by b call) calls

  -- Whether a subscription is acknowledged after a call, if it was before.
  abbrev pub acknowledged_by : Subscription → Bool → Call → Bool
  acknowledged_by q b (begins generation demands) = false
  acknowledged_by q b (disconnects again reason) = false
  acknowledged_by q b connects = false
  acknowledged_by q b (acknowledges arg id) =
      ite (Subscription-discrete (subscription_from_arg arg) q) true b
  acknowledged_by q b (unacknowledges arg) =
      ite (Subscription-discrete (subscription_from_arg arg) q) false b
  acknowledged_by q b _ = b

  -- Whether the last of the calls on a subscription or the connection acknowledged it.
  abbrev pub acknowledged : Subscription → Bool → List Call → Bool
  acknowledged q b [] = b
  acknowledged q b (call ∷ calls) = acknowledged q (acknowledged_by q b call) calls

  abbrev held : PublicRuntimeState dec → Subscription → Bool
  held s q = has_key Subscription-discrete s.acknowledged_subscriptions q

  step-linked :
      (s : PublicRuntimeState dec) (call : Call)
      → is_connected (step s call).connection_state
        ≡ linked_by (is_connected s.connection_state) call
  unfolding begin_generation set_disconnected set_connecting acknowledge unacknowledge remove_market
  step-linked s (begins generation demands) = refl
  step-linked s (disconnects true reason) = refl
  step-linked s (disconnects false reason) = refl
  step-linked s connects = refl
  step-linked s (acknowledges arg id) = refl
  step-linked s (unacknowledges arg) = refl
  step-linked s (removes instrument_id) = refl
  step-linked s (observes reference markets) = refl

  pub run-linked :
      (s : PublicRuntimeState dec) (calls : List Call)
      → is_connected (run s calls).connection_state ≡ linked (is_connected s.connection_state) calls
  run-linked s [] = refl
  run-linked s (call ∷ calls) =
      run-linked (step s call) calls ∙ ap (λ b. linked b calls) (step-linked s call)

  step-Unique :
      (s : PublicRuntimeState dec) (call : Call)
      → Unique Subscription-discrete s.acknowledged_subscriptions
      → Unique Subscription-discrete (step s call).acknowledged_subscriptions
  unfolding begin_generation set_disconnected set_connecting acknowledge unacknowledge remove_market
  step-Unique s (begins generation demands) u = tt
  step-Unique s (disconnects again reason) u = tt
  step-Unique s connects u = tt
  step-Unique s (acknowledges arg id) u = insert_key-Unique Subscription-discrete _ _ u
  step-Unique s (unacknowledges arg) u = remove_key-Unique Subscription-discrete _ _ u
  step-Unique s (removes instrument_id) u = u
  step-Unique s (observes reference markets) u = u

  step-held :
      (s : PublicRuntimeState dec) (q : Subscription) (call : Call)
      → Unique Subscription-discrete s.acknowledged_subscriptions
      → held (step s call) q ≡ acknowledged_by q (held s q) call
  unfolding begin_generation set_disconnected set_connecting acknowledge unacknowledge remove_market
  step-held s q (begins generation demands) u = refl
  step-held s q (disconnects again reason) u = refl
  step-held s q connects u = refl
  step-held s q (acknowledges arg id) u = has_key-insert_key Subscription-discrete _ q _
  step-held s q (unacknowledges arg) u = has_key-remove_key Subscription-discrete _ q _ u
  step-held s q (removes instrument_id) u = refl
  step-held s q (observes reference markets) u = refl

  pub run-held :
      (s : PublicRuntimeState dec) (q : Subscription) (calls : List Call)
      → Unique Subscription-discrete s.acknowledged_subscriptions
      → held (run s calls) q ≡ acknowledged q (held s q) calls
  run-held s q [] u = refl
  run-held s q (call ∷ calls) u =
      run-held (step s call) q calls (step-Unique s call u)
      ∙ ap (λ b. acknowledged q b calls) (step-held s q call u)

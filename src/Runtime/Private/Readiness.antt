-- ===== src/Runtime/Private/Readiness.antt =====
-- crates/okx-runtime/src/private/state.rs: what has to happen in a generation before a cursor is
-- given, and what takes readiness away.
use Prim.Native.String.{String}
use mathlib.Core.Logic.{ite}
use okx.Prelude.{ℕ, ◌≡◌, refl, ◌⊎◌, Bool, true, false, List, [], ◌∷◌, arith, any, inl, inr}
use okx.Prelude.Maps.{has_key, has_key-insert_key}
use okx.Runtime.Private.Types.{
  PrivateSubscription, PrivateSubscription-discrete, account_subscription, positions_any,
  orders_any, subscription_from_arg, account_event, positions_event, PrivateRuntimeState,
}
use okx.Runtime.Private.State.{
  convergence_ready, set_connecting, begin_generation, set_disconnected, acknowledge_login,
  acknowledge_subscription, acknowledge_business_login, acknowledge_algo_subscription,
  observe_event, observe_algo_event, is_connected,
}
use okx.Runtime.Private.Calls.{
  Call, connects, begins, disconnects, logs_in, subscribes, observes, business_logs_in,
  algo_subscribes, observes_algo, step, run,
}

module _ {B P O : Type 0} where
  abbrev pub is_login : Call B P O → Bool
  is_login (logs_in id) = true
  is_login _ = false

  abbrev pub acknowledges : PrivateSubscription → Call B P O → Bool
  acknowledges subscription (subscribes arg id) =
      ite (PrivateSubscription-discrete (subscription_from_arg arg) subscription) true false
  acknowledges subscription _ = false

  abbrev pub is_account_data : Call B P O → Bool
  is_account_data (observes (account_event balances) at) = true
  is_account_data _ = false

  abbrev pub is_positions_data : Call B P O → Bool
  is_positions_data (observes (positions_event positions) at) = true
  is_positions_data _ = false

  -- A flag that only certain calls set.
  run_cause :
      (flag : PrivateRuntimeState B P O → Bool) (test : Call B P O → Bool)
      → ((s : PrivateRuntimeState B P O) (c : Call B P O)
          → flag (step s c) ≡ true
          → (flag s ≡ true) ⊎ (test c ≡ true))
      → (s : PrivateRuntimeState B P O) (cs : List (Call B P O)) → flag (run s cs) ≡ true
      → (flag s ≡ true) ⊎ (any test cs ≡ true)
  unfolding run
  run_cause flag test one s [] h = inl h
  run_cause flag test one s (c ∷ cs) h = elim (run_cause flag test one (step s c) cs h) [
    | inr later ↦ inr (ground arith)
    | inl now ↦ elim (one s c now) [ inl before ↦ inl before | inr here ↦ inr (ground arith) ]
  ]

  step-logged_in :
      (s : PrivateRuntimeState B P O) (c : Call B P O)
      → (step s c).logged_in ≡ true
      → (s.logged_in ≡ true) ⊎ (is_login c ≡ true)
  unfolding step set_connecting begin_generation set_disconnected acknowledge_login
      acknowledge_subscription acknowledge_business_login acknowledge_algo_subscription
      observe_event observe_algo_event
  step-logged_in s c h = ground arith

  step-account :
      (s : PrivateRuntimeState B P O) (c : Call B P O)
      → (step s c).account_data_seen ≡ true
      → (s.account_data_seen ≡ true) ⊎ (is_account_data c ≡ true)
  unfolding step set_connecting begin_generation set_disconnected acknowledge_login
      acknowledge_subscription acknowledge_business_login acknowledge_algo_subscription
      observe_event observe_algo_event
  step-account s c h = ground arith

  step-positions :
      (s : PrivateRuntimeState B P O) (c : Call B P O)
      → (step s c).positions_data_seen ≡ true
      → (s.positions_data_seen ≡ true) ⊎ (is_positions_data c ≡ true)
  unfolding step set_connecting begin_generation set_disconnected acknowledge_login
      acknowledge_subscription acknowledge_business_login acknowledge_algo_subscription
      observe_event observe_algo_event
  step-positions s c h = ground arith

  abbrev acked : PrivateSubscription → PrivateRuntimeState B P O → Bool
  acked subscription s =
      has_key PrivateSubscription-discrete s.acknowledged_subscriptions subscription

  -- The calls other than an acknowledgement add no subscription.
  step-acked :
      (subscription : PrivateSubscription) (s : PrivateRuntimeState B P O) (c : Call B P O)
      → acked subscription (step s c) ≡ true
      → (acked subscription s ≡ true) ⊎ (acknowledges subscription c ≡ true)
  unfolding step set_connecting begin_generation set_disconnected acknowledge_login
      acknowledge_subscription acknowledge_business_login acknowledge_algo_subscription
      observe_event observe_algo_event
  step-acked subscription s (subscribes arg id) h =
      let put =
        has_key-insert_key PrivateSubscription-discrete (subscription_from_arg arg) subscription
          s.acknowledged_subscriptions in
      ground arith
  step-acked subscription s (observes event at) h = inl (ground arith)
  step-acked subscription s (algo_subscribes arg id) h = inl (ground arith)
  step-acked subscription s (observes_algo at) h = inl (ground arith)
  step-acked subscription s connects h = cc
  step-acked subscription s (begins g) h = cc
  step-acked subscription s (disconnects b reason) h = cc
  step-acked subscription s (logs_in id) h = inl h
  step-acked subscription s (business_logs_in id) h = inl h

  abbrev pub is_begin : Call B P O → Bool
  is_begin (begins g) = true
  is_begin _ = false

  step-connected :
      (s : PrivateRuntimeState B P O) (c : Call B P O)
      → is_connected (step s c).connection_state ≡ true
      → (is_connected s.connection_state ≡ true) ⊎ (is_begin c ≡ true)
  unfolding step set_connecting begin_generation set_disconnected acknowledge_login
      acknowledge_subscription acknowledge_business_login acknowledge_algo_subscription
      observe_event observe_algo_event
  step-connected s c h = ground arith

  ready_parts :
      (s : PrivateRuntimeState B P O)
      → convergence_ready s ≡ true
      → (is_connected s.connection_state ≡ true)
        × (s.logged_in ≡ true)
        × (s.account_data_seen ≡ true)
        × (s.positions_data_seen ≡ true)
        × (acked account_subscription s ≡ true)
        × (acked positions_any s ≡ true)
        × (acked orders_any s ≡ true)
  unfolding convergence_ready
  ready_parts s h = ground arith

  -- The calls that a generation needs before it is ready.
  pub record Evidence (cs : List (Call B P O)) : Type 0 where
    pub login : any is_login cs ≡ true
    pub account_ack : any (acknowledges account_subscription) cs ≡ true
    pub positions_ack : any (acknowledges positions_any) cs ≡ true
    pub orders_ack : any (acknowledges orders_any) cs ≡ true
    pub account_data : any is_account_data cs ≡ true
    pub positions_data : any is_positions_data cs ≡ true

  -- A flag that is down at first was set by one of the calls.
  set_since :
      (flag : PrivateRuntimeState B P O → Bool) (test : Call B P O → Bool)
      → ((s : PrivateRuntimeState B P O) (c : Call B P O)
          → flag (step s c) ≡ true
          → (flag s ≡ true) ⊎ (test c ≡ true))
      → (s : PrivateRuntimeState B P O) (cs : List (Call B P O)) → flag s ≡ false
      → flag (run s cs) ≡ true
      → any test cs ≡ true
  set_since flag test one s cs down up = elim (run_cause flag test one s cs up) [
    | inl already ↦ cc
    | inr since ↦ since
  ]

  -- From the beginning of a generation on the state is ready only after a login, the
  -- acknowledgements of the three baseline subscriptions, account data and positions data.
  pub ready-Evidence :
      (s : PrivateRuntimeState B P O) (g : ℕ) (cs : List (Call B P O))
      → convergence_ready (run (step s (begins g)) cs) ≡ true
      → Evidence cs
  unfolding step begin_generation
  ready-Evidence s g cs ready =
      let s' = begin_generation s g in
      let (_, l, a, p, sa, sp, so) = ready_parts (run s' cs) ready in
      record {
        login = set_since (λ t. t.logged_in) is_login step-logged_in s' cs refl l;
        account_ack =
            set_since (acked account_subscription) (acknowledges account_subscription)
              (step-acked account_subscription) s' cs refl sa;
        positions_ack =
            set_since (acked positions_any) (acknowledges positions_any) (step-acked positions_any)
              s' cs refl sp;
        orders_ack =
            set_since (acked orders_any) (acknowledges orders_any) (step-acked orders_any) s' cs
              refl so;
        account_data =
            set_since (λ t. t.account_data_seen) is_account_data step-account s' cs refl a;
        positions_data =
            set_since (λ t. t.positions_data_seen) is_positions_data step-positions s' cs refl p;
      }

  -- After a disconnection the state is ready again only in a new generation.
  pub disconnected-new_generation :
      (s : PrivateRuntimeState B P O) (is_reconnecting : Bool) (reason : String)
      (cs : List (Call B P O))
      → convergence_ready (run (step s (disconnects is_reconnecting reason)) cs) ≡ true
      → any is_begin cs ≡ true
  unfolding step set_disconnected
  disconnected-new_generation s is_reconnecting reason cs ready =
      set_since (λ t. is_connected t.connection_state) is_begin step-connected
        (set_disconnected s is_reconnecting reason) cs (ground arith)
        (ready_parts (run (set_disconnected s is_reconnecting reason) cs) ready).0

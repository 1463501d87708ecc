-- ===== src/Runtime/Private/Calls.antt =====
-- crates/okx-runtime/src/private/state.rs: what the coordinator does to the state, call after call.
use Prim.Native.String.{String}
use okx.Prelude.{
  ℕ, ◌+◌, ◌≤◌, ◌<◌, ◌≡◌, refl, ◌∙◌, Bool, List, [], ◌∷◌, ◌++◌, Option, arith, length, length-append,
}
use okx.Runtime.Private.Types.{PrivateWsArg, PrivateWsEvent, PrivateRuntimeState}
use okx.Runtime.Private.State.{
  new, acknowledge_business_login, acknowledge_algo_subscription, observe_algo_event,
  set_connecting, begin_generation, set_disconnected, acknowledge_login, acknowledge_subscription,
  observe_event,
}
use okx.Runtime.Private.Journal.{Journal, observe_event-Journal}

-- The calls that change the state.
pub data Call (B P O : Type 0) : Type 0 where
  connects : Call B P O
  begins : ℕ → Call B P O
  disconnects : Bool → String → Call B P O
  logs_in : Option String → Call B P O
  subscribes : PrivateWsArg → Option String → Call B P O
  observes : PrivateWsEvent B P O → ℕ → Call B P O
  business_logs_in : Option String → Call B P O
  algo_subscribes : PrivateWsArg → Option String → Call B P O
  observes_algo : ℕ → Call B P O

module _ {B P O : Type 0} where
  unfoldable pub step : PrivateRuntimeState B P O → Call B P O → PrivateRuntimeState B P O
  step s connects = set_connecting s
  step s (begins generation) = begin_generation s generation
  step s (disconnects is_reconnecting reason) = set_disconnected s is_reconnecting reason
  step s (logs_in id) = acknowledge_login s id
  step s (subscribes arg id) = acknowledge_subscription s arg id
  step s (observes event at) = observe_event s event at
  step s (business_logs_in id) = acknowledge_business_login s id
  step s (algo_subscribes arg id) = (acknowledge_algo_subscription s arg id).0
  step s (observes_algo at) = observe_algo_event s at

  unfoldable pub run : PrivateRuntimeState B P O → List (Call B P O) → PrivateRuntimeState B P O
  run s [] = s
  run s (c ∷ cs) = run (step s c) cs

  pub run-append :
      (s : PrivateRuntimeState B P O) (cs ds : List (Call B P O))
      → run s (cs ++ ds) ≡ run (run s cs) ds
  unfolding run
  run-append s [] ds = refl
  run-append s (c ∷ cs) ds = run-append (step s c) cs ds

  -- The events of the current generation, after those of `h`.
  abbrev pub history : List (PrivateWsEvent B P O) → Call B P O → List (PrivateWsEvent B P O)
  history h (begins generation) = []
  history h (observes event at) = h ++ event ∷ []
  history h _ = h

  -- The events that the calls observe.
  abbrev pub observed : List (Call B P O) → List (PrivateWsEvent B P O)
  observed [] = []
  observed (observes event at ∷ cs) = event ∷ observed cs
  observed (_ ∷ cs) = observed cs

  -- Generations only rise: the coordinator adds 1 for each connection.
  abbrev pub Rising : ℕ → List (Call B P O) → Type 0
  Rising g [] = Unit {0}
  Rising g (begins generation ∷ cs) = (g < generation) × Rising generation cs
  Rising g (_ ∷ cs) = Rising g cs

  -- A call that touches neither the numbers nor the journal.
  Journal-same :
      (s s' : PrivateRuntimeState B P O) (h : List (PrivateWsEvent B P O))
      → s'.event_sequence ≡ s.event_sequence
      → s'.event_journal ≡ s.event_journal
      → Journal s h
      → Journal s' h
  Journal-same s s' h n k j = record { counted = n ∙ j.counted; kept = k ∙ j.kept }

  algo_subscribe-Journal :
      (s : PrivateRuntimeState B P O) (h : List (PrivateWsEvent B P O)) (arg : PrivateWsArg)
      (id : Option String)
      → Journal s h
      → Journal (acknowledge_algo_subscription s arg id).0 h
  unfolding acknowledge_algo_subscription
  algo_subscribe-Journal s h arg id =
      Journal-same s (acknowledge_algo_subscription s arg id).0 h (ground arith) (ground arith)

  observe_algo-Journal :
      (s : PrivateRuntimeState B P O) (h : List (PrivateWsEvent B P O)) (at : ℕ)
      → Journal s h
      → Journal (observe_algo_event s at) h
  unfolding observe_algo_event
  observe_algo-Journal s h at =
      Journal-same s (observe_algo_event s at) h (ground arith) (ground arith)

  step-Journal :
      (s : PrivateRuntimeState B P O) (h : List (PrivateWsEvent B P O)) (c : Call B P O)
      → length h + 1 < 18446744073709551616
      → Journal s h
      → Journal (step s c) (history h c)
  unfolding step set_connecting begin_generation set_disconnected acknowledge_login
      acknowledge_subscription acknowledge_business_login
  step-Journal s h connects short j = record { counted = j.counted; kept = j.kept }
  step-Journal s h (begins generation) short j = record { counted = refl; kept = refl }
  step-Journal s h (disconnects b reason) short j = record { counted = j.counted; kept = j.kept }
  step-Journal s h (logs_in id) short j = record { counted = j.counted; kept = j.kept }
  step-Journal s h (subscribes arg id) short j = record { counted = j.counted; kept = j.kept }
  step-Journal s h (observes event at) short j = observe_event-Journal s h event at short j
  step-Journal s h (business_logs_in id) short j = record { counted = j.counted; kept = j.kept }
  step-Journal s h (algo_subscribes arg id) short j = algo_subscribe-Journal s h arg id j
  step-Journal s h (observes_algo at) short j = observe_algo-Journal s h at j

  unfoldable pub histories :
      List (PrivateWsEvent B P O) → List (Call B P O) → List (PrivateWsEvent B P O)
  histories h [] = h
  histories h (c ∷ cs) = histories (history h c) cs

  history-length :
      (h : List (PrivateWsEvent B P O)) (c : Call B P O) → length (history h c) ≤ length h + 1
  history-length h connects = omega arith
  history-length h (begins generation) = omega arith
  history-length h (observes event at) = omega (arith, length-append h (event ∷ []))
  history-length h _ = omega arith

  pub histories-length :
      (h : List (PrivateWsEvent B P O)) (cs : List (Call B P O))
      → length (histories h cs) ≤ length h + length cs
  unfolding histories
  histories-length h [] = omega arith
  histories-length h (c ∷ cs) = omega (arith, history-length h c, histories-length (history h c) cs)

  pub run-Journal :
      (s : PrivateRuntimeState B P O) (h : List (PrivateWsEvent B P O)) (cs : List (Call B P O))
      → length h + length cs < 18446744073709551616
      → Journal s h
      → Journal (run s cs) (histories h cs)
  unfolding run histories
  run-Journal s h [] short j = j
  run-Journal s h (c ∷ cs) short j =
      run-Journal (step s c) (history h c) cs (omega (arith, history-length h c))
        (step-Journal s h c (omega arith) j)

  pub new-Journal : Journal {B = B} {P = P} {O = O} new []
  unfolding new
  new-Journal = record { counted = refl; kept = refl }

  -- Only a begin changes the generation.
  abbrev KeepsGeneration : Call B P O → Type 0
  KeepsGeneration (begins generation) = ⊥
  KeepsGeneration _ = Unit {0}

  algo_subscribe-generation :
      (s : PrivateRuntimeState B P O) (arg : PrivateWsArg) (id : Option String)
      → (acknowledge_algo_subscription s arg id).0.generation ≡ s.generation
  unfolding acknowledge_algo_subscription
  algo_subscribe-generation s arg id = ground arith

  observe_algo-generation :
      (s : PrivateRuntimeState B P O) (at : ℕ) → (observe_algo_event s at).generation ≡ s.generation
  unfolding observe_algo_event
  observe_algo-generation s at = ground arith

  observe_event-generation :
      (s : PrivateRuntimeState B P O) (event : PrivateWsEvent B P O) (at : ℕ)
      → (observe_event s event at).generation ≡ s.generation
  unfolding observe_event
  observe_event-generation s event at = ground arith

  pub step-generation :
      (s : PrivateRuntimeState B P O) (c : Call B P O)
      → KeepsGeneration c
      → (step s c).generation ≡ s.generation
  unfolding step set_connecting set_disconnected acknowledge_login acknowledge_subscription
      acknowledge_business_login
  step-generation s connects k = refl
  step-generation s (begins generation) k = absurd k
  step-generation s (disconnects b reason) k = refl
  step-generation s (logs_in id) k = refl
  step-generation s (subscribes arg id) k = refl
  step-generation s (observes event at) k = observe_event-generation s event at
  step-generation s (business_logs_in id) k = refl
  step-generation s (algo_subscribes arg id) k = algo_subscribe-generation s arg id
  step-generation s (observes_algo at) k = observe_algo-generation s at

  pub begun :
      (s : PrivateRuntimeState B P O) (generation : ℕ)
      → (step s (begins generation)).generation ≡ generation
  unfolding step begin_generation
  begun s generation = refl

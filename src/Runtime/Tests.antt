-- ===== src/Runtime/Tests.antt =====
-- crates/okx-runtime/src/private/state.rs: a connection that becomes ready. Balances, positions
-- and orders are numbers.
use Prim.Native.String.{String}
use okx.Prelude.{
  ℕ, zero, suc, ◌+◌, ◌≤◌, ◌<◌, ◌≡◌, refl, ◌∙◌, ap, true, List, [], ◌∷◌, some, none, any, length,
  arith,
}
use okx.Prelude.Maps.{String-discrete}
use okx.Runtime.Private.Types.{
  PrivateWsArg, PrivateChannel-discrete, PrivateSubscription-discrete, account, positions, orders,
  orders_algo, account_event, positions_event, orders_event, PrivateRuntimeState,
  PrivateConvergenceCursor, AlgoConvergenceCursor, PrivateConvergenceWindow, ok, err, journal_gap,
}
use okx.Runtime.Private.State.{
  new, subscriptions_complete, convergence_ready, algo_ready, status, convergence_cursor,
  convergence_window, algo_convergence_cursor, algo_convergence_unchanged,
  protected_oco_window_unchanged, acknowledge_business_login, acknowledge_algo_subscription,
  set_connecting, begin_generation, set_disconnected, acknowledge_login, acknowledge_subscription,
  trim, observe_event, observe_algo_event,
}
use okx.Runtime.Private.Calls.{
  Call, connects, begins, disconnects, logs_in, subscribes, observes, business_logs_in,
  algo_subscribes, observes_algo, step, run, observed, Rising,
}
use okx.Runtime.Private.Convergence.{window-observed, window-gap}
use okx.Runtime.Private.Readiness.{Evidence, ready-Evidence, is_begin, disconnected-new_generation}
use okx.Runtime.Private.Protected.{protected-observed}
use okx.Runtime.Private.Algo.{algo_events, unchanged-algo_events}

abbrev Calls : Type 0
Calls = List (Call ℕ ℕ ℕ)

abbrev State : Type 0
State = PrivateRuntimeState ℕ ℕ ℕ

abbrev arg : PrivateWsArg
arg = record {
  channel = account;
  ccy = none;
  instrument_type = none;
  instrument_family = none;
  instrument_id = none;
}

abbrev any_arg : PrivateWsArg
any_arg = record arg { instrument_type = some "ANY" }

-- The calls of a connection up to its first positions.
abbrev opening : Calls
opening =
    logs_in (some "id")
    ∷ subscribes arg none
    ∷ subscribes (record any_arg { channel = positions }) none
    ∷ subscribes (record any_arg { channel = orders }) none
    ∷ observes (account_event (1 ∷ [])) 5
    ∷ observes (positions_event []) 6
    ∷ business_logs_in (some "business")
    ∷ algo_subscribes (record any_arg { channel = orders_algo }) (some "business")
    ∷ []

abbrev before : Calls
before = connects ∷ begins 1 ∷ opening

abbrev ready_state : State
ready_state = run new before

abbrev cursor : PrivateConvergenceCursor
cursor = record { generation = 1; sequence = 2 }

abbrev algo_cursor : AlgoConvergenceCursor
algo_cursor = record { generation = 1; sequence = 0 }

before_ready : convergence_cursor ready_state ≡ ok cursor
unfolding convergence_cursor convergence_ready subscriptions_complete new step run set_connecting
    begin_generation acknowledge_login acknowledge_subscription acknowledge_business_login
    acknowledge_algo_subscription observe_event trim PrivateSubscription-discrete
    PrivateChannel-discrete String-discrete
before_ready = refl

before_algo : algo_convergence_cursor ready_state ≡ ok algo_cursor
unfolding algo_convergence_cursor algo_ready convergence_ready subscriptions_complete new step run
    set_connecting begin_generation acknowledge_login acknowledge_subscription
    acknowledge_business_login acknowledge_algo_subscription observe_event trim
    PrivateSubscription-discrete PrivateChannel-discrete String-discrete
before_algo = refl

abbrev orders_after : Calls
orders_after =
    observes (orders_event (7 ∷ [])) 8 ∷ observes_algo 9 ∷ observes (orders_event []) 9 ∷ []

abbrev fingerprint : String → String
fingerprint id = id

abbrev window : PrivateConvergenceWindow ℕ ℕ ℕ
window = record {
  generation = 1;
  status = status fingerprint (run ready_state orders_after);
  events = orders_event (7 ∷ []) ∷ orders_event [] ∷ [];
}

window_read : convergence_window fingerprint (run ready_state orders_after) cursor ≡ ok window
unfolding convergence_window convergence_ready subscriptions_complete new step run set_connecting
    begin_generation acknowledge_login acknowledge_subscription acknowledge_business_login
    acknowledge_algo_subscription observe_event observe_algo_event trim PrivateSubscription-discrete
    PrivateChannel-discrete String-discrete
window_read = refl

window-observed_example :
    (window.events ≡ observed orders_after) × (length (observed orders_after) ≤ 4096)
window-observed_example =
    window-observed fingerprint before orders_after before_ready tt (omega arith) window_read

-- The same event again and again.
abbrev many : ℕ → Calls
many zero = []
many (suc n) = observes (orders_event []) 9 ∷ many n

many-length : (n : ℕ) → length (many n) ≡ n
many-length zero = refl
many-length (suc n) = ap suc (many-length n)

many-observed : (n : ℕ) → length (observed (many n)) ≡ n
many-observed zero = refl
many-observed (suc n) = ap suc (many-observed n)

many-Rising : (g n : ℕ) → Rising g (many n)
many-Rising g zero = tt
many-Rising g (suc n) = many-Rising g n

observe-ready :
    (s : State)
    → convergence_ready s ≡ true
    → convergence_ready (step s (observes (orders_event []) 9)) ≡ true
unfolding convergence_ready subscriptions_complete step observe_event
observe-ready s h = h

many-ready :
    (n : ℕ) (s : State) → convergence_ready s ≡ true → convergence_ready (run s (many n)) ≡ true
unfolding run
many-ready zero s h = h
many-ready (suc n) s h = many-ready n (step s (observes (orders_event []) 9)) (observe-ready s h)

observe-generation : (s : State) → (step s (observes (orders_event []) 9)).generation ≡ s.generation
unfolding step observe_event
observe-generation s = refl

many-generation : (n : ℕ) (s : State) → (run s (many n)).generation ≡ s.generation
unfolding run
many-generation zero s = refl
many-generation (suc n) s =
    many-generation n (step s (observes (orders_event []) 9)) ∙ observe-generation s

opened : convergence_ready ready_state ≡ true
unfolding convergence_ready subscriptions_complete new step run set_connecting begin_generation
    acknowledge_login acknowledge_subscription acknowledge_business_login
    acknowledge_algo_subscription observe_event trim PrivateSubscription-discrete
    PrivateChannel-discrete String-discrete
opened = refl

many_short : length before + length (many 4097) + 1 < 18446744073709551616
many_short = omega (arith, many-length 4097)

many_lost : 4096 < length (observed (many 4097))
many_lost = omega (arith, many-observed 4097)

window-gap_example :
    convergence_window fingerprint (run ready_state (many 4097)) cursor ≡ err journal_gap
window-gap_example =
    window-gap fingerprint before (many 4097) before_ready (many-Rising ready_state.generation 4097)
      many_short (many-generation 4097 ready_state) (many-ready 4097 ready_state opened) many_lost

-- The opening again, from the beginning of its generation.
opened_again : convergence_ready (run (step (step new connects) (begins 1)) opening) ≡ true
unfolding run
opened_again = opened

ready-Evidence_example : Evidence opening
ready-Evidence_example = ready-Evidence (step new connects) 1 opening opened_again

reopened :
    convergence_ready
      (run (step ready_state (disconnects true "closed")) (connects ∷ begins 2 ∷ opening))
    ≡ true
unfolding convergence_ready subscriptions_complete new step run set_connecting begin_generation
    set_disconnected acknowledge_login acknowledge_subscription acknowledge_business_login
    acknowledge_algo_subscription observe_event trim PrivateSubscription-discrete
    PrivateChannel-discrete String-discrete
reopened = refl

disconnected-new_generation_example : any is_begin (connects ∷ begins 2 ∷ opening) ≡ true
disconnected-new_generation_example =
    disconnected-new_generation ready_state true "closed" (connects ∷ begins 2 ∷ opening) reopened

-- Orders that leave the algo events alone.
abbrev no_algo : Calls
no_algo = observes (orders_event (7 ∷ [])) 8 ∷ []

algo_same : algo_convergence_unchanged (run ready_state no_algo) algo_cursor ≡ ok tt
unfolding algo_convergence_unchanged algo_ready convergence_ready subscriptions_complete new step
    run set_connecting begin_generation acknowledge_login acknowledge_subscription
    acknowledge_business_login acknowledge_algo_subscription observe_event trim
    PrivateSubscription-discrete PrivateChannel-discrete String-discrete
algo_same = refl

unchanged-algo_events_example :
    (algo_events no_algo ≡ 0) × ((run ready_state no_algo).generation ≡ ready_state.generation)
unchanged-algo_events_example = unchanged-algo_events ready_state no_algo before_algo tt algo_same

-- Neither an event nor an algo event: only a subscription.
abbrev quiet : Calls
quiet = subscribes arg none ∷ []

quiet_unchanged :
    protected_oco_window_unchanged fingerprint (run ready_state quiet) cursor algo_cursor ≡ true
unfolding protected_oco_window_unchanged convergence_window algo_convergence_unchanged algo_ready
    convergence_ready subscriptions_complete new step run set_connecting begin_generation
    acknowledge_login acknowledge_subscription acknowledge_business_login
    acknowledge_algo_subscription observe_event trim PrivateSubscription-discrete
    PrivateChannel-discrete String-discrete
quiet_unchanged = refl

protected-observed_example :
    (observed quiet ≡ [])
    × (algo_events quiet ≡ 0)
    × ((run ready_state quiet).generation ≡ ready_state.generation)
protected-observed_example =
    protected-observed fingerprint before quiet before_ready before_algo tt (omega arith)
      quiet_unchanged

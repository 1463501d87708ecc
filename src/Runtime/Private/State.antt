-- ===== src/Runtime/Private/State.antt =====
-- The operations of `PrivateRuntimeState`, crates/okx-runtime/src/private/state.rs.
use Prim.Native.String.{String}
use text.Mathlib.Text.{◌==◌ as str_eq}
use mathlib.Core.Logic.{ite}
use okx.Prelude.{
  ℕ, Bool, true, false, not, ◌&&◌, List, [], ◌∷◌, ◌++◌, Option, none, some, ltb, ◌==◌,
  if◌then◌else◌, length, all,
}
use okx.Prelude.Words.{saturating_add, checked_add}
use okx.Prelude.Maps.{has_key, insert_key}
use okx.Runtime.Private.Types.{
  PrivateWsArg, PrivateSubscription-discrete, orders_algo_any, baseline_private_subscriptions,
  subscription_from_arg, PrivateConnectionState, disconnected, connecting, connected, reconnecting,
  PrivateWsStatus, PrivateWsEvent, account_event, positions_event, orders_event,
  PrivateConvergenceCursor, AlgoConvergenceCursor, PrivateConvergenceWindow, not_ready,
  generation_changed, journal_gap, algo_changed, Result, ok, err, PrivateRuntimeState,
  private_ws_status_schema_v1, private_event_journal_capacity,
}

abbrev pub is_some {ℓ} : {A : Type ℓ} → Option A → Bool
is_some none = false
is_some (some _) = true

abbrev pub is_connected : PrivateConnectionState → Bool
is_connected connected = true
is_connected _ = false

-- Equality of optional connection ids.
abbrev same_id : Option String → Option String → Bool
same_id none none = true
same_id (some a) (some b) = str_eq a b
same_id _ _ = false

abbrev replace_id : Option String → Option String → Option String
replace_id none old = old
replace_id (some new) old = some new

abbrev pub is_ok : Result (Unit {0}) → Bool
is_ok (ok _) = true
is_ok (err _) = false

module _ {B P O : Type 0} where
  unfoldable pub new : PrivateRuntimeState B P O
  new = record {
    connection_state = disconnected;
    generation = 0;
    logged_in = false;
    connection_id = none;
    acknowledged_subscriptions = [];
    account_data_seen = false;
    positions_data_seen = false;
    orders_updates_seen = false;
    business_logged_in = false;
    business_connection_id = none;
    algo_subscription_acked = false;
    algo_event_sequence = 0;
    algo_sequence_exhausted = false;
    last_inbound_ms = none;
    last_error = none;
    event_sequence = 0;
    event_journal = [];
  }

  unfoldable pub subscriptions_complete : PrivateRuntimeState B P O → Bool
  subscriptions_complete s =
      all (has_key PrivateSubscription-discrete s.acknowledged_subscriptions)
        baseline_private_subscriptions

  unfoldable pub convergence_ready : PrivateRuntimeState B P O → Bool
  unfolding subscriptions_complete
  convergence_ready s =
      is_connected s.connection_state
      && s.logged_in
      && is_some s.connection_id
      && subscriptions_complete s
      && s.account_data_seen
      && s.positions_data_seen

  unfoldable pub algo_ready : PrivateRuntimeState B P O → Bool
  algo_ready s =
      convergence_ready s
      && s.business_logged_in
      && is_some s.business_connection_id
      && s.algo_subscription_acked
      && not s.algo_sequence_exhausted

  -- `connection_fingerprint`, the hexadecimal SHA-256 of the id, is an argument.
  unfoldable pub status : (String → String) → PrivateRuntimeState B P O → PrivateWsStatus
  status connection_fingerprint s = record {
    schema = private_ws_status_schema_v1;
    connection_state = s.connection_state;
    connection_generation = s.generation;
    logged_in = s.logged_in;
    connection_id_fingerprint = elim s.connection_id [
      | none ↦ none
      | some id ↦ some (connection_fingerprint id)
    ];
    acknowledged_subscriptions = length s.acknowledged_subscriptions;
    subscriptions_complete = subscriptions_complete s;
    account_data_seen = s.account_data_seen;
    positions_data_seen = s.positions_data_seen;
    orders_updates_seen = s.orders_updates_seen;
    algo_subscription_ready = algo_ready s;
    algo_events_seen = s.algo_event_sequence;
    last_inbound_ms = s.last_inbound_ms;
    last_error = s.last_error;
  }

  unfoldable pub convergence_cursor : PrivateRuntimeState B P O → Result PrivateConvergenceCursor
  convergence_cursor s =
      if not (convergence_ready s)
      then err not_ready
      else ok (record { generation = s.generation; sequence = s.event_sequence })

  -- Whether the event after the cursor has left the journal.
  abbrev pub has_gap : ℕ → List (ℕ × PrivateWsEvent B P O) → Bool
  has_gap sequence [] = false
  has_gap sequence ((oldest_sequence, _) ∷ _) = ltb (saturating_add sequence 1) oldest_sequence

  -- The events of the journal behind a sequence number.
  abbrev pub events_after : ℕ → List (ℕ × PrivateWsEvent B P O) → List (PrivateWsEvent B P O)
  events_after sequence [] = []
  events_after sequence ((n, event) ∷ journal) =
      if ltb sequence n
      then event ∷ events_after sequence journal
      else events_after sequence journal

  unfoldable pub convergence_window :
      (String → String)
      → PrivateRuntimeState B P O
      → PrivateConvergenceCursor
      → Result (PrivateConvergenceWindow B P O)
  convergence_window connection_fingerprint s cursor =
      if not (cursor.generation == s.generation)
      then err generation_changed
      else if not (convergence_ready s)
      then err not_ready
      else if has_gap cursor.sequence s.event_journal
      then err journal_gap
      else ok (record {
        generation = s.generation;
        status = status connection_fingerprint s;
        events = events_after cursor.sequence s.event_journal;
      })

  unfoldable pub algo_convergence_cursor : PrivateRuntimeState B P O → Result AlgoConvergenceCursor
  algo_convergence_cursor s =
      if not (algo_ready s)
      then err not_ready
      else ok (record { generation = s.generation; sequence = s.algo_event_sequence })

  unfoldable pub algo_convergence_unchanged :
      PrivateRuntimeState B P O → AlgoConvergenceCursor → Result (Unit {0})
  algo_convergence_unchanged s cursor =
      if not (cursor.generation == s.generation)
      then err generation_changed
      else if not (algo_ready s)
      then err not_ready
      else if not (cursor.sequence == s.algo_event_sequence)
      then err algo_changed
      else ok tt

  abbrev pub is_empty_window : Result (PrivateConvergenceWindow B P O) → Bool
  is_empty_window (ok window) = elim window.events [ [] ↦ true | _ ∷ _ ↦ false ]
  is_empty_window (err _) = false

  unfoldable pub protected_oco_window_unchanged :
      (String → String)
      → PrivateRuntimeState B P O
      → PrivateConvergenceCursor
      → AlgoConvergenceCursor
      → Bool
  protected_oco_window_unchanged connection_fingerprint s private_cursor algo =
      is_empty_window (convergence_window connection_fingerprint s private_cursor)
      && is_ok (algo_convergence_unchanged s algo)

  unfoldable pub acknowledge_business_login :
      PrivateRuntimeState B P O → Option String → PrivateRuntimeState B P O
  acknowledge_business_login s connection_id = record s {
    business_logged_in = true;
    business_connection_id = connection_id;
  }

  -- Whether the acknowledgement is that of the algo channel on the business connection.
  abbrev pub accepts_algo : PrivateRuntimeState B P O → PrivateWsArg → Option String → Bool
  accepts_algo s arg connection_id =
      s.business_logged_in
      && is_some connection_id
      && same_id s.business_connection_id connection_id
      && ite (PrivateSubscription-discrete (subscription_from_arg arg) orders_algo_any) true false

  unfoldable pub acknowledge_algo_subscription :
      PrivateRuntimeState B P O → PrivateWsArg → Option String → PrivateRuntimeState B P O × Bool
  acknowledge_algo_subscription s arg connection_id =
      if accepts_algo s arg connection_id
      then (record s { algo_subscription_acked = true }, true)
      else (s, false)

  unfoldable pub observe_algo_event : PrivateRuntimeState B P O → ℕ → PrivateRuntimeState B P O
  observe_algo_event s received_at_ms = elim (checked_add s.algo_event_sequence 1) [
    | some next ↦ record s { algo_event_sequence = next }
    | none ↦ record s { algo_sequence_exhausted = true }
  ]

  unfoldable pub set_connecting : PrivateRuntimeState B P O → PrivateRuntimeState B P O
  set_connecting s = record s {
    connection_state = connecting;
    logged_in = false;
    connection_id = none;
    acknowledged_subscriptions = [];
    business_logged_in = false;
    business_connection_id = none;
    algo_subscription_acked = false;
  }

  unfoldable pub begin_generation : PrivateRuntimeState B P O → ℕ → PrivateRuntimeState B P O
  begin_generation s generation = record s {
    connection_state = connected;
    generation = generation;
    logged_in = false;
    connection_id = none;
    acknowledged_subscriptions = [];
    account_data_seen = false;
    positions_data_seen = false;
    orders_updates_seen = false;
    business_logged_in = false;
    business_connection_id = none;
    algo_subscription_acked = false;
    algo_event_sequence = 0;
    algo_sequence_exhausted = false;
    last_inbound_ms = none;
    last_error = none;
    event_sequence = 0;
    event_journal = [];
  }

  unfoldable pub set_disconnected :
      PrivateRuntimeState B P O → Bool → String → PrivateRuntimeState B P O
  set_disconnected s is_reconnecting reason = record s {
    connection_state = if is_reconnecting then reconnecting else disconnected;
    logged_in = false;
    connection_id = none;
    acknowledged_subscriptions = [];
    business_logged_in = false;
    business_connection_id = none;
    algo_subscription_acked = false;
    last_error = some reason;
  }

  unfoldable pub acknowledge_login :
      PrivateRuntimeState B P O → Option String → PrivateRuntimeState B P O
  acknowledge_login s connection_id = record s {
    logged_in = true;
    connection_id = replace_id connection_id s.connection_id;
  }

  unfoldable pub acknowledge_subscription :
      PrivateRuntimeState B P O → PrivateWsArg → Option String → PrivateRuntimeState B P O
  acknowledge_subscription s arg connection_id = record s {
    acknowledged_subscriptions =
        insert_key PrivateSubscription-discrete (subscription_from_arg arg)
          s.acknowledged_subscriptions;
    connection_id = replace_id connection_id s.connection_id;
  }

  -- `while journal.len() > capacity { journal.pop_front() }`
  unfoldable pub trim : ℕ → List (ℕ × PrivateWsEvent B P O) → List (ℕ × PrivateWsEvent B P O)
  trim capacity [] = []
  trim capacity (entry ∷ journal) =
      if ltb capacity (length (entry ∷ journal)) then trim capacity journal else entry ∷ journal

  -- The flag that an event of its kind sets.
  abbrev flag : PrivateRuntimeState B P O → PrivateWsEvent B P O → PrivateRuntimeState B P O
  flag s (account_event _) = record s { account_data_seen = true }
  flag s (positions_event _) = record s { positions_data_seen = true }
  flag s (orders_event _) = record s { orders_updates_seen = true }

  unfoldable pub observe_event :
      PrivateRuntimeState B P O → PrivateWsEvent B P O → ℕ → PrivateRuntimeState B P O
  observe_event s event received_at_ms =
      let flagged = flag (record s { last_inbound_ms = some received_at_ms }) event in
      let sequence = saturating_add s.event_sequence 1 in
      record flagged {
        event_sequence = sequence;
        event_journal =
            trim private_event_journal_capacity (s.event_journal ++ (sequence, event) ∷ []);
      }

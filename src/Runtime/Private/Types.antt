-- ===== src/Runtime/Private/Types.antt =====
-- The types of crates/okx-runtime/src/private/state.rs and of
-- crates/okx-ws/src/private_protocol.rs. `B`, `P` and `O` stand for the balances, positions and
-- orders that an event carries: no operation looks into them.
use Prim.Native.String.{String}
use okx.Prelude.{ℕ, Bool, List, [], ◌∷◌, Option, none, some}
use okx.Prelude.Maps.{String-discrete}

pub data PrivateChannel : Type 0 where
  account positions orders orders_algo : PrivateChannel

unfoldable pub PrivateChannel-discrete : Discrete PrivateChannel
PrivateChannel-discrete = hlevel

pub record PrivateWsArg : Type 0 where
  pub channel : PrivateChannel
  pub ccy : Option String
  pub instrument_type : Option String
  pub instrument_family : Option String
  pub instrument_id : Option String

pub record PrivateSubscription : Type 0 where
  pub channel : PrivateChannel
  pub ccy : Option String
  pub instrument_type : Option String
  pub instrument_family : Option String
  pub instrument_id : Option String

unfoldable pub PrivateSubscription-discrete : Discrete PrivateSubscription
unfolding PrivateChannel-discrete String-discrete
PrivateSubscription-discrete = hlevel (PrivateChannel-discrete, String-discrete)

abbrev pub account_subscription : PrivateSubscription
account_subscription = record {
  channel = account;
  ccy = none;
  instrument_type = none;
  instrument_family = none;
  instrument_id = none;
}

-- A subscription to all instrument types of a channel.
abbrev any_type : PrivateChannel → PrivateSubscription
any_type channel = record {
  channel = channel;
  ccy = none;
  instrument_type = some "ANY";
  instrument_family = none;
  instrument_id = none;
}

abbrev pub positions_any : PrivateSubscription
positions_any = any_type positions

abbrev pub orders_any : PrivateSubscription
orders_any = any_type orders

abbrev pub orders_algo_any : PrivateSubscription
orders_algo_any = any_type orders_algo

abbrev pub baseline_private_subscriptions : List PrivateSubscription
baseline_private_subscriptions = account_subscription ∷ positions_any ∷ orders_any ∷ []

abbrev pub subscription_from_arg : PrivateWsArg → PrivateSubscription
subscription_from_arg arg = record {
  channel = arg.channel;
  ccy = arg.ccy;
  instrument_type = arg.instrument_type;
  instrument_family = arg.instrument_family;
  instrument_id = arg.instrument_id;
}

pub data PrivateConnectionState : Type 0 where
  disconnected connecting connected reconnecting : PrivateConnectionState

pub record PrivateWsStatus : Type 0 where
  pub schema : String
  pub connection_state : PrivateConnectionState
  pub connection_generation : ℕ
  pub logged_in : Bool
  pub connection_id_fingerprint : Option String
  pub acknowledged_subscriptions : ℕ
  pub subscriptions_complete : Bool
  pub account_data_seen : Bool
  pub positions_data_seen : Bool
  pub orders_updates_seen : Bool
  pub algo_subscription_ready : Bool
  pub algo_events_seen : ℕ
  pub last_inbound_ms : Option ℕ
  pub last_error : Option String

pub data PrivateWsEvent (B P O : Type 0) : Type 0 where
  account_event : List B → PrivateWsEvent B P O
  positions_event : List P → PrivateWsEvent B P O
  orders_event : List O → PrivateWsEvent B P O

pub record PrivateConvergenceCursor : Type 0 where
  pub generation : ℕ
  pub sequence : ℕ

pub record AlgoConvergenceCursor : Type 0 where
  pub generation : ℕ
  pub sequence : ℕ

pub record PrivateConvergenceWindow (B P O : Type 0) : Type 0 where
  pub generation : ℕ
  pub status : PrivateWsStatus
  pub events : List (PrivateWsEvent B P O)

pub data PrivateConvergenceError : Type 0 where
  not_ready generation_changed journal_gap algo_changed : PrivateConvergenceError

pub data Result {ℓ} (A : Type ℓ) : Type ℓ where
  ok : A → Result A
  err : PrivateConvergenceError → Result A

-- The oldest event stands first in the journal.
pub record PrivateRuntimeState (B P O : Type 0) : Type 0 where
  pub connection_state : PrivateConnectionState
  pub generation : ℕ
  pub logged_in : Bool
  pub connection_id : Option String
  pub acknowledged_subscriptions : List PrivateSubscription
  pub account_data_seen : Bool
  pub positions_data_seen : Bool
  pub orders_updates_seen : Bool
  pub business_logged_in : Bool
  pub business_connection_id : Option String
  pub algo_subscription_acked : Bool
  pub algo_event_sequence : ℕ
  pub algo_sequence_exhausted : Bool
  pub last_inbound_ms : Option ℕ
  pub last_error : Option String
  pub event_sequence : ℕ
  pub event_journal : List (ℕ × PrivateWsEvent B P O)

abbrev pub private_ws_status_schema_v1 : String
private_ws_status_schema_v1 = "okx.private-ws-status/v1"

abbrev pub private_event_journal_capacity : ℕ
private_event_journal_capacity = 4096

-- ===== src/Runtime/Public/Types.antt =====
-- The types of crates/okx-runtime/src/public/state.rs and crates/okx-runtime/src/public/mod.rs, and
-- the subscriptions of crates/okx-ws/src/protocol.rs. Errors of the transport and of JSON are
-- without their content.
use Prim.Native.String.{String}
use okx.Prelude.{ℕ, Bool, List, Option, none, some}
use okx.Prelude.Int.{ℤ}
use okx.Prelude.Decimals.{Decimals}
use okx.Prelude.Maps.{String-discrete}
use okx.Observation.Reference.Types.{ReferenceRegistry, ReferenceError}
use okx.Observation.Stream.State.{MarketStreamState, MarketStreamError}
use okx.Observation.Stream.Readiness.{MarketReadiness, Reason}

pub data PublicChannel : Type 0 where
  instruments tickers mark_price index_tickers funding_rate open_interest books : PublicChannel

unfoldable pub PublicChannel-discrete : Discrete PublicChannel
PublicChannel-discrete = hlevel

pub record WsArg : Type 0 where
  pub channel : PublicChannel
  pub instrument_type : Option String
  pub instrument_family : Option String
  pub instrument_id : Option String

pub record Subscription : Type 0 where
  pub channel : PublicChannel
  pub instrument_type : Option String
  pub instrument_family : Option String
  pub instrument_id : Option String

unfoldable pub Subscription-discrete : Discrete Subscription
unfolding PublicChannel-discrete String-discrete
Subscription-discrete = hlevel (PublicChannel-discrete, String-discrete)

-- `Subscription::instrument`
abbrev pub for_instrument : PublicChannel → String → Subscription
for_instrument channel instrument_id = record {
  channel = channel;
  instrument_type = none;
  instrument_family = none;
  instrument_id = some instrument_id;
}

-- `Subscription::instrument_type`
abbrev pub for_type : PublicChannel → String → Subscription
for_type channel instrument_type = record {
  channel = channel;
  instrument_type = some instrument_type;
  instrument_family = none;
  instrument_id = none;
}

pub data PublicConnectionState : Type 0 where
  disconnected connecting connected reconnecting : PublicConnectionState

abbrev pub is_connected : PublicConnectionState → Bool
is_connected connected = Bool.true
is_connected _ = Bool.false

pub data PublicRuntimeError : Type 0 where
  web_socket json : PublicRuntimeError
  reference_error : ReferenceError → PublicRuntimeError
  stream_error : MarketStreamError → PublicRuntimeError
  command_channel_closed command_queue_full clock_before_epoch : PublicRuntimeError
  instrument_not_found : String → PublicRuntimeError
  missing_underlying : String → PublicRuntimeError
  unknown_funding_semantics : String → PublicRuntimeError
  unsupported_book_action : Option String → PublicRuntimeError
  missing_channel_instrument : PublicChannel → PublicRuntimeError
  market_state_not_initialized : String → PublicRuntimeError
  market_not_fresh : String → PublicRuntimeError

pub record PublicQualitySnapshot : Type 0 where
  pub schema : String
  pub instrument_id : String
  pub quality : MarketReadiness
  pub reference_generation : String
  pub reference_source_received_at : String
  pub market_mode : String
  pub persistent_ws_connected : Bool
  pub connection_state : PublicConnectionState
  pub connection_generation : ℕ
  pub connection_id_fingerprint : Option String
  pub acknowledged_subscriptions : ℕ
  pub sequence_continuity_proven : Bool
  pub order_book_seq_id : Option ℤ
  pub order_book_exchange_timestamp_ms : Option String
  pub oldest_required_receive_ms : Option ℕ
  pub reason : Reason
  pub last_error : Option String

module _ (dec : Decimals) where
  pub record PublicRuntimeState : Type 0 where
    pub reference : ReferenceRegistry
    pub markets : List (String × MarketStreamState dec)
    pub connection_state : PublicConnectionState
    pub generation : ℕ
    pub connection_id : Option String
    pub acknowledged_subscriptions : List Subscription
    pub last_error : Option String

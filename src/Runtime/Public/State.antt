-- ===== src/Runtime/Public/State.antt =====
-- crates/okx-runtime/src/public/state.rs: the state of the public connection and its markets. The
-- fingerprint of a connection, a SHA-256, and the digest of a market snapshot are parameters.
use Prim.Native.String.{String}
use okx.Prelude.{
  ℕ, Bool, true, false, not, ◌&&◌, List, [], ◌∷◌, ◌++◌, Option, none, some, length, if◌then◌else◌,
}
use okx.Prelude.Decimals.{Decimals}
use okx.Prelude.Maps.{has_key, insert_key, remove_key}
use okx.Prelude.SortedMaps.{get, put, delete}
use okx.Prelude.Results.{Result, ok, err, ◌>>=◌, ◌>>◌, reject, ok_or, map_err}
use okx.Observation.Reference.Types.{ReferenceRegistry}
use okx.Observation.Market.Types.{GenerationInput}
use okx.Observation.Stream.State as Stream
use okx.Observation.Stream.State.{MarketStreamState}
use okx.Observation.Stream.Readiness as Readiness
use okx.Observation.Stream.Readiness.{
  MarketReadiness, not_ready, degraded, fresh, stale, MarketReadinessReport, LiveMarketSnapshot,
}
use okx.Runtime.Public.Types.{
  WsArg, Subscription, Subscription-discrete, disconnected, connecting, connected, reconnecting,
  is_connected, PublicRuntimeError, stream_error, market_state_not_initialized, market_not_fresh,
  PublicQualitySnapshot, PublicRuntimeState,
}
use okx.Runtime.Public.Subscriptions.{
  baseline_subscriptions, required_subscriptions, subscription_from_arg,
}

abbrev pub is_fresh : MarketReadiness → Bool
is_fresh fresh = true
is_fresh _ = false

-- `.all(|subscription| acknowledged.contains(&subscription))`
abbrev pub all_acknowledged : List Subscription → List Subscription → Bool
all_acknowledged acknowledged [] = true
all_acknowledged acknowledged (subscription ∷ subscriptions) =
    has_key Subscription-discrete acknowledged subscription
    && all_acknowledged acknowledged subscriptions

module _ (dec : Decimals) where
  unfoldable pub new : ReferenceRegistry → PublicRuntimeState dec
  new reference = record {
    reference = reference;
    markets = [];
    connection_state = disconnected;
    generation = 0;
    connection_id = none;
    acknowledged_subscriptions = [];
    last_error = none;
  }

  unfoldable pub remove_market : PublicRuntimeState dec → String → PublicRuntimeState dec
  remove_market s instrument_id = record s { markets = delete instrument_id s.markets }

  -- The market of a demand in a new generation.
  unfoldable pub begin_market :
      ℕ
      → String
      → String
      → List (String × MarketStreamState dec)
      → List (String × MarketStreamState dec)
  begin_market generation reference_generation instrument_id markets =
      elim (get instrument_id markets) [
        | some state ↦
            put instrument_id (Stream.reset_generation dec state generation reference_generation)
              markets
        | none ↦
            put instrument_id (Stream.new dec instrument_id generation reference_generation) markets
      ]

  -- The loop of `begin_generation`.
  unfoldable pub begin_markets :
      ReferenceRegistry
      → ℕ
      → List String
      → List (String × MarketStreamState dec)
      → List (String × MarketStreamState dec)
  unfolding begin_market
  begin_markets reference generation [] markets = markets
  begin_markets reference generation (instrument_id ∷ demands) markets =
      elim (get instrument_id reference.instruments) [
        | some _ ↦
            begin_markets reference generation demands
              (begin_market generation reference.generation instrument_id markets)
        | none ↦ begin_markets reference generation demands markets
      ]

  unfoldable pub begin_generation :
      PublicRuntimeState dec → ℕ → List String → PublicRuntimeState dec
  unfolding begin_markets
  begin_generation s generation demands = record s {
    connection_state = connected;
    generation = generation;
    connection_id = none;
    acknowledged_subscriptions = [];
    last_error = none;
    markets = begin_markets s.reference generation demands s.markets;
  }

  unfoldable pub set_disconnected : PublicRuntimeState dec → Bool → String → PublicRuntimeState dec
  set_disconnected s is_reconnecting reason = record s {
    connection_state = if is_reconnecting then reconnecting else disconnected;
    connection_id = none;
    acknowledged_subscriptions = [];
    last_error = some reason;
  }

  unfoldable pub set_connecting : PublicRuntimeState dec → PublicRuntimeState dec
  set_connecting s = record s {
    connection_state = connecting;
    connection_id = none;
    acknowledged_subscriptions = [];
  }

  -- `if connection_id.is_some() { self.connection_id = connection_id }`
  abbrev or_old : Option String → Option String → Option String
  or_old none old = old
  or_old (some id) old = some id

  unfoldable pub acknowledge :
      PublicRuntimeState dec → WsArg → Option String → PublicRuntimeState dec
  unfolding subscription_from_arg
  acknowledge s arg connection_id = record s {
    acknowledged_subscriptions =
        insert_key Subscription-discrete (subscription_from_arg arg) s.acknowledged_subscriptions;
    connection_id = or_old connection_id s.connection_id;
  }

  unfoldable pub unacknowledge : PublicRuntimeState dec → WsArg → PublicRuntimeState dec
  unfolding subscription_from_arg
  unacknowledge s arg = record s {
    acknowledged_subscriptions =
        remove_key Subscription-discrete (subscription_from_arg arg) s.acknowledged_subscriptions;
  }

  unfoldable pub subscriptions_complete : PublicRuntimeState dec → String → Bool
  unfolding required_subscriptions baseline_subscriptions
  subscriptions_complete s instrument_id = elim (required_subscriptions s.reference instrument_id) [
    | err _ ↦ false
    | ok required ↦
        all_acknowledged s.acknowledged_subscriptions (baseline_subscriptions ++ required)
  ]

  abbrev market_of :
      PublicRuntimeState dec → String → Result PublicRuntimeError (MarketStreamState dec)
  market_of s instrument_id =
      ok_or (get instrument_id s.markets) (market_state_not_initialized instrument_id)

  module _ (digest : GenerationInput → Option String) where
    unfoldable pub readiness :
        PublicRuntimeState dec
        → String
        → ℕ
        → ℕ
        → Bool
        → Result PublicRuntimeError MarketReadinessReport
    unfolding subscriptions_complete
    readiness s instrument_id now_ms max_age_ms rest_fallback_available = do
      market ← market_of s instrument_id
      ok (
          Readiness.readiness dec digest market s.reference now_ms max_age_ms
            (is_connected s.connection_state) (subscriptions_complete s instrument_id)
            rest_fallback_available)

    unfoldable pub fresh_snapshot :
        PublicRuntimeState dec
        → String
        → ℕ
        → ℕ
        → String
        → Result PublicRuntimeError LiveMarketSnapshot
    unfolding readiness
    fresh_snapshot s instrument_id now_ms max_age_ms source_received_at = do
      report ← readiness s instrument_id now_ms max_age_ms false
      reject (not (is_fresh report.quality)) (market_not_fresh instrument_id)
      market ← market_of s instrument_id
      map_err stream_error (Readiness.publish dec digest market s.reference source_received_at)

    module _ (connection_fingerprint : String → String) where
      abbrev fingerprint_of : Option String → Option String
      fingerprint_of none = none
      fingerprint_of (some id) = some (connection_fingerprint id)

      unfoldable pub quality_from_readiness :
          PublicRuntimeState dec
          → String
          → MarketStreamState dec
          → MarketReadinessReport
          → PublicQualitySnapshot
      quality_from_readiness s instrument_id market report = record {
        schema = "okx.snapshot-quality/v2";
        instrument_id = instrument_id;
        quality = report.quality;
        reference_generation = s.reference.generation;
        reference_source_received_at = s.reference.source_received_at;
        market_mode = "websocket";
        persistent_ws_connected = is_connected s.connection_state;
        connection_state = s.connection_state;
        connection_generation = s.generation;
        connection_id_fingerprint = fingerprint_of s.connection_id;
        acknowledged_subscriptions = length s.acknowledged_subscriptions;
        sequence_continuity_proven = report.sequence_continuity_proven;
        order_book_seq_id = market.order_book.last_seq_id;
        order_book_exchange_timestamp_ms = market.order_book.exchange_timestamp_ms;
        oldest_required_receive_ms = report.oldest_required_receive_ms;
        reason = report.reason;
        last_error = s.last_error;
      }

      unfoldable pub quality_snapshot :
          PublicRuntimeState dec
          → String
          → ℕ
          → ℕ
          → Bool
          → Result PublicRuntimeError PublicQualitySnapshot
      unfolding readiness quality_from_readiness
      quality_snapshot s instrument_id now_ms max_age_ms rest_fallback_available = do
        market ← market_of s instrument_id
        report ← readiness s instrument_id now_ms max_age_ms rest_fallback_available
        ok (quality_from_readiness s instrument_id market report)

      unfoldable pub risk_quality_snapshot :
          PublicRuntimeState dec
          → String
          → ℕ
          → ℕ
          → ℕ
          → Result PublicRuntimeError PublicQualitySnapshot
      unfolding subscriptions_complete quality_from_readiness
      risk_quality_snapshot s instrument_id now_ms price_max_age_ms context_max_age_ms = do
        market ← market_of s instrument_id
        let report =
            Readiness.risk_readiness dec digest market s.reference now_ms price_max_age_ms
              context_max_age_ms (is_connected s.connection_state)
              (subscriptions_complete s instrument_id)
        ok (quality_from_readiness s instrument_id market report)

      unfoldable pub risk_fresh_snapshot :
          PublicRuntimeState dec
          → String
          → ℕ
          → ℕ
          → ℕ
          → String
          → Result PublicRuntimeError LiveMarketSnapshot
      unfolding risk_quality_snapshot
      risk_fresh_snapshot s instrument_id now_ms price_max_age_ms context_max_age_ms
            source_received_at =
          do
            quality ←
                risk_quality_snapshot s instrument_id now_ms price_max_age_ms context_max_age_ms
            reject (not (is_fresh quality.quality)) (market_not_fresh instrument_id)
            market ← market_of s instrument_id
            map_err stream_error
                (Readiness.publish dec digest market s.reference source_received_at)

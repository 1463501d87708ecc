-- ===== src/Runtime/Public/Tests.antt =====
-- crates/okx-runtime/src/public/state.rs: a connection that gives a snapshot for new risk.
use Prim.Native.String.{String}
use okx.Prelude.{◌≡◌, refl, false, none, some, [], ◌∷◌, List}
use okx.Prelude.Samples.{decimals}
use okx.Prelude.Maps.{String-discrete}
use okx.Prelude.SortedMaps.{get, put}
use okx.Prelude.Texts.{trim_start, trim_end, trim, is_blank}
use okx.Prelude.Results.{ok}
use okx.Observation.OrderBook.Defs as OrderBook
use okx.Observation.Reference.Normalize.{
  require, optional, is_preopen, is_incomplete_preopen_future_listing, funding_requirement,
  normalize_upcoming_changes, try_from,
}
use okx.Observation.Reference.Registry.{load, generation_for, from_public}
use okx.Observation.Reference.Tests.{registry}
use okx.Observation.Stream.Tests.{view, digest}
use okx.Observation.Market.Snapshot as Snapshot
use okx.Observation.Market.Snapshot.{from_bootstrap, snapshot_of}
use okx.Observation.Stream.State.{
  MarketStreamState, new, require_generation, guarded, apply_ticker, apply_mark_price,
  apply_index_ticker, apply_funding_rate, apply_open_interest, with_book, apply_book_snapshot,
}
use okx.Observation.Stream.Times.{
  oldest_of, first_stale, current_received_at, required_receive_times,
}
use okx.Observation.Stream.Readiness.{
  LiveMarketSnapshot, fresh, current, report, current_funding, bootstrap_if_complete, market_of,
  publish, timed_readiness, readiness_with_budgets,
}
use okx.Observation.Stream.Readiness.{risk_readiness}
use okx.Runtime.Public.Types.{
  instruments, tickers, mark_price, index_tickers, funding_rate, open_interest, books,
  PublicChannel, PublicChannel-discrete, PublicQualitySnapshot, Subscription-discrete,
  PublicRuntimeState,
}
use okx.Runtime.Public.Subscriptions.{
  baseline_subscriptions, required_subscriptions, subscription_from_arg,
}
use okx.Runtime.Public.State as State
use okx.Runtime.Public.Log.{Call, begins, acknowledges, observes, run}
use okx.Runtime.Public.Evidence.{Evidence, risk_fresh_snapshot-Evidence, risk_quality-snapshot}

abbrev of : PublicChannel → String → Call decimals
of channel id =
    acknowledges
      (record {
        channel = channel;
        instrument_type = none;
        instrument_family = none;
        instrument_id = some id;
      })
      none

abbrev every : String → Call decimals
every type =
    acknowledges
      (record {
        channel = instruments;
        instrument_type = some type;
        instrument_family = none;
        instrument_id = none;
      })
      (some "c")

abbrev calls : List (Call decimals)
calls =
    begins 7 ("D" ∷ [])
    ∷ every "SWAP"
    ∷ every "FUTURES"
    ∷ of tickers "D"
    ∷ of mark_price "D"
    ∷ of index_tickers "DU"
    ∷ of funding_rate "D"
    ∷ of open_interest "D"
    ∷ of books "D"
    ∷ observes registry (("D", view) ∷ [])
    ∷ []

abbrev state : PublicRuntimeState decimals
state = run decimals (State.new decimals registry) calls

abbrev fingerprint : String → String
fingerprint id = id

-- The quality report for new risk and the snapshot.
reported :
    (quality : PublicQualitySnapshot) × (State.risk_quality_snapshot decimals digest fingerprint
        state "D" 110 10 60
      ≡ ok quality)
    × (quality.quality ≡ fresh)
unfolding String-discrete from_public load generation_for is_incomplete_preopen_future_listing
    is_preopen require try_from normalize_upcoming_changes put get trim trim_start trim_end is_blank
    optional funding_requirement new OrderBook.waiting require_generation guarded apply_ticker
    apply_mark_price apply_index_ticker apply_funding_rate apply_open_interest with_book
    apply_book_snapshot OrderBook.apply_snapshot OrderBook.levels_from_snapshot
    OrderBook.apply_levels OrderBook.apply_level OrderBook.decimal OrderBook.insert oldest_of
    first_stale current_received_at required_receive_times report current current_funding
    bootstrap_if_complete market_of timed_readiness readiness_with_budgets from_bootstrap
    snapshot_of Snapshot.require_instrument Snapshot.require_field Snapshot.ticker_state
    Snapshot.mark_price_state Snapshot.index_price_state Snapshot.funding_rate_state
    Snapshot.funding_state Snapshot.open_interest_state Snapshot.generation_for
    PublicChannel-discrete Subscription-discrete baseline_subscriptions required_subscriptions
    subscription_from_arg risk_readiness publish State.new State.begin_generation
    State.begin_markets State.begin_market State.acknowledge State.subscriptions_complete
    State.quality_from_readiness State.risk_quality_snapshot State.risk_fresh_snapshot
reported = (_, refl, refl)

given :
    (live : LiveMarketSnapshot) × (State.risk_fresh_snapshot decimals digest fingerprint state "D"
        110 10 60 "2"
      ≡ ok live)
unfolding String-discrete from_public load generation_for is_incomplete_preopen_future_listing
    is_preopen require try_from normalize_upcoming_changes put get trim trim_start trim_end is_blank
    optional funding_requirement new OrderBook.waiting require_generation guarded apply_ticker
    apply_mark_price apply_index_ticker apply_funding_rate apply_open_interest with_book
    apply_book_snapshot OrderBook.apply_snapshot OrderBook.levels_from_snapshot
    OrderBook.apply_levels OrderBook.apply_level OrderBook.decimal OrderBook.insert oldest_of
    first_stale current_received_at required_receive_times report current current_funding
    bootstrap_if_complete market_of timed_readiness readiness_with_budgets from_bootstrap
    snapshot_of Snapshot.require_instrument Snapshot.require_field Snapshot.ticker_state
    Snapshot.mark_price_state Snapshot.index_price_state Snapshot.funding_rate_state
    Snapshot.funding_state Snapshot.open_interest_state Snapshot.generation_for
    PublicChannel-discrete Subscription-discrete baseline_subscriptions required_subscriptions
    subscription_from_arg risk_readiness publish State.new State.begin_generation
    State.begin_markets State.begin_market State.acknowledge State.subscriptions_complete
    State.quality_from_readiness State.risk_quality_snapshot State.risk_fresh_snapshot
given = (_, refl)

risk_fresh_snapshot-Evidence_example :
    Evidence decimals digest fingerprint state calls "D" 110 10 60 given.0
risk_fresh_snapshot-Evidence_example =
    risk_fresh_snapshot-Evidence decimals digest fingerprint registry calls "D" 110 10 60 "2"
      given.1

source_time : is_blank "2" ≡ false
unfolding is_blank trim trim_start trim_end
source_time = refl

risk_quality-snapshot_example :
    (live : LiveMarketSnapshot) × (State.risk_fresh_snapshot decimals digest fingerprint state "D"
        110 10 60 "2"
      ≡ ok live)
    × ((market : MarketStreamState decimals) × (get "D" state.markets ≡ some market)
        × (live.generation ≡ market.generation))
risk_quality-snapshot_example =
    risk_quality-snapshot decimals digest fingerprint state "D" 110 10 60 "2" reported.1 reported.2
      source_time

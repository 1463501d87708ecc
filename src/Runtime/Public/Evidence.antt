-- ===== src/Runtime/Public/Evidence.antt =====
-- crates/okx-runtime/src/public/state.rs: what a snapshot for new risk rests on.
use Prim.Native.String.{String}
use okx.Prelude.{
  ℕ, true, false, List, [], ◌∷◌, ◌++◌, Option, some, ◌≡◌, refl, sym, ◌∙◌, arith, All, All-mono,
}
use okx.Prelude.Decimals.{Decimals}
use okx.Prelude.Maps.{has_key}
use okx.Prelude.SortedMaps.{get}
use okx.Prelude.Texts.{is_blank}
use okx.Prelude.Results.{ok}
use okx.Observation.Reference.Types.{ReferenceRegistry}
use okx.Observation.Market.Types.{GenerationInput}
use okx.Observation.Stream.State.{MarketStreamState}
use okx.Observation.Stream.Readiness.{
  fresh, LiveMarketSnapshot, risk_readiness, readiness_with_budgets, publish,
}
use okx.Observation.Stream.Fresh.{IsFresh, readiness-IsFresh, fresh-publish}
use okx.Runtime.Public.Types.{
  Subscription, Subscription-discrete, is_connected, PublicRuntimeState, PublicQualitySnapshot,
}
use okx.Runtime.Public.Subscriptions.{baseline_subscriptions, required_subscriptions}
use okx.Runtime.Public.State.{
  all_acknowledged, new, subscriptions_complete, quality_from_readiness, risk_quality_snapshot,
  risk_fresh_snapshot,
}
use okx.Runtime.Public.Log.{Call, run, linked, acknowledged, run-linked, run-held}

all_acknowledged-All :
    (held qs : List Subscription)
    → all_acknowledged held qs ≡ true
    → All (λ q. has_key Subscription-discrete held q ≡ true) qs
all_acknowledged-All held [] h = tt
all_acknowledged-All held (q ∷ qs) h =
    (ground (arith, h), all_acknowledged-All held qs (ground (arith, h)))

module _ (dec : Decimals) (digest : GenerationInput → Option String)
    (connection_fingerprint : String → String) where
  subscriptions_complete-All :
      (s : PublicRuntimeState dec) (id : String)
      → subscriptions_complete dec s id ≡ true
      → (wanted : List Subscription) × (required_subscriptions s.reference id ≡ ok wanted)
        × All
            (λ q. has_key Subscription-discrete s.acknowledged_subscriptions q ≡ true)
            (baseline_subscriptions ++ wanted)
  unfolding subscriptions_complete
  subscriptions_complete-All s id h =
      let (wanted, e, c) : (wanted : List Subscription) × (required_subscriptions s.reference id
            ≡ ok wanted)
          × (all_acknowledged s.acknowledged_subscriptions (baseline_subscriptions ++ wanted)
              ≡ true) =
        ground arith in
      (
        wanted,
        e,
        all_acknowledged-All s.acknowledged_subscriptions (baseline_subscriptions ++ wanted) c,
      )

  -- A snapshot for new risk, taken apart.
  snapshot_parts :
      (s : PublicRuntimeState dec) (id : String) (now price context : ℕ) (at : String)
      {live : LiveMarketSnapshot}
      → risk_fresh_snapshot dec digest connection_fingerprint s id now price context at ≡ ok live
      → (market : MarketStreamState dec) × (get id s.markets ≡ some market)
        × ((risk_readiness dec digest market s.reference now price context
              (is_connected s.connection_state)
              (subscriptions_complete dec s id)).quality
            ≡ fresh)
        × (publish dec digest market s.reference at ≡ ok live)
  unfolding risk_fresh_snapshot risk_quality_snapshot quality_from_readiness
  snapshot_parts s id now price context at h = ground arith

  publish-generation :
      (market : MarketStreamState dec) (reference : ReferenceRegistry) (at : String)
      {live : LiveMarketSnapshot}
      → publish dec digest market reference at ≡ ok live
      → live.generation ≡ market.generation
  unfolding publish
  publish-generation market reference at h = ground arith

  -- What must have happened, and what must hold, for a snapshot for new risk.
  pub record Evidence (s : PublicRuntimeState dec) (calls : List (Call dec)) (id : String)
      (now price context : ℕ) (live : LiveMarketSnapshot) : Type 0 where
    pub connection : linked dec false calls ≡ true
    pub wanted : List Subscription
    pub required : required_subscriptions s.reference id ≡ ok wanted
    pub subscriptions :
        All (λ q. acknowledged dec q false calls ≡ true) (baseline_subscriptions ++ wanted)
    pub market : MarketStreamState dec
    pub stored : get id s.markets ≡ some market
    pub is_fresh : IsFresh dec digest market s.reference now price context true true
    pub generation : live.generation ≡ market.generation

  -- From the start on, whatever calls are made and however the registry and the markets change in
  -- between: a snapshot for new risk is given only if the last call that began or ended a connection
  -- began one, since then each baseline subscription and each that the instrument requires was
  -- acknowledged and not revoked, and the live view of the market is fresh within the two budgets;
  -- the snapshot is of the generation of that view.
  pub risk_fresh_snapshot-Evidence :
      (reference : ReferenceRegistry) (calls : List (Call dec)) (id : String)
      (now price context : ℕ) (at : String) {live : LiveMarketSnapshot}
      → risk_fresh_snapshot dec digest connection_fingerprint
          (run dec (new dec reference) calls)
          id
          now
          price
          context
          at
        ≡ ok live
      → Evidence (run dec (new dec reference) calls) calls id now price context live
  unfolding new risk_readiness
  risk_fresh_snapshot-Evidence reference calls id now price context at h =
      let start = new dec reference in
      let s = run dec start calls in
      let (market, e, q, p) = snapshot_parts s id now price context at h in
      let f =
        readiness-IsFresh dec digest market s.reference now price context
          (is_connected s.connection_state) (subscriptions_complete dec s id) false true q in
      let (wanted, r, a) = subscriptions_complete-All s id f.subscriptions in
      record {
        connection = sym (run-linked dec start calls) ∙ f.connection;
        wanted = wanted;
        required = r;
        subscriptions =
            All-mono _ _ (baseline_subscriptions ++ wanted)
              (λ q k. sym (run-held dec start q calls tt) ∙ k) a;
        market = market;
        stored = e;
        is_fresh = record {
          connection = refl;
          subscriptions = refl;
          same_reference = f.same_reference;
          instrument = f.instrument;
          listed = f.listed;
          live = f.live;
          sources = f.sources;
        };
        generation = publish-generation market s.reference at p;
      }

  -- If the quality report for new risk says fresh, then a snapshot for new risk under a source time
  -- that is not blank is given at the same time, of the generation of the stored view.
  pub risk_quality-snapshot :
      (s : PublicRuntimeState dec) (id : String) (now price context : ℕ) (at : String)
      {quality : PublicQualitySnapshot}
      → risk_quality_snapshot dec digest connection_fingerprint s id now price context ≡ ok quality
      → quality.quality ≡ fresh
      → is_blank at ≡ false
      → (live : LiveMarketSnapshot) × (risk_fresh_snapshot dec digest connection_fingerprint s id
            now price context at
          ≡ ok live)
        × ((market : MarketStreamState dec) × (get id s.markets ≡ some market)
            × (live.generation ≡ market.generation))
  unfolding risk_fresh_snapshot risk_quality_snapshot quality_from_readiness risk_readiness
  risk_quality-snapshot s id now price context at {quality} h f n =
      let (market, e) : (market : MarketStreamState dec) × (get id s.markets ≡ some market) =
        ground (arith, h) in
      let q : (readiness_with_budgets dec digest market s.reference now price context
            (is_connected s.connection_state) (subscriptions_complete dec s id) false true).quality
          ≡ fresh =
        ground (arith, h, e, f) in
      let (live, p, g, i, r, b) =
        fresh-publish dec digest market s.reference now price context
          (is_connected s.connection_state) (subscriptions_complete dec s id) false true at q n in
      (live, ground (arith, e, q, p), (market, e, g))

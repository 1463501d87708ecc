-- ===== src/Observation/Stream/Fresh.antt =====
-- crates/okx-observation/src/stream.rs: what a fresh report of the live view proves.
use Prim.Native.String.{String}
use text.Mathlib.Text.{◌==◌ as str_eq}
use text.Mathlib.TextEquality.{eq_iff}
use okx.Prelude.{ℕ, Bool, true, false, List, Option, none, some, ◌≡◌, refl, subst, arith}
use okx.Prelude.Decimals.{Decimals}
use okx.Prelude.SortedMaps.{get}
use okx.Prelude.Texts.{is_blank}
use okx.Prelude.Results.{ok, is_ok, is_ok-ok, bind-ok}
use okx.Observation.OrderBook.Defs as OrderBook
use okx.Observation.OrderBook.Defs.{contiguous, is_contiguous}
use okx.Observation.Reference.Types.{FundingRequirement, InstrumentSpec, ReferenceRegistry}
use okx.Observation.Market.Types.{MarketBootstrap, MarketSnapshot, GenerationInput}
use okx.Observation.Market.Snapshot.{snapshot_of, generation_for, from_bootstrap}
use okx.Observation.Stream.State.{MarketStreamState}
use okx.Observation.Stream.Times.{first_stale, required_receive_times}
use okx.Observation.Stream.Readiness.{
  fresh, LiveMarketSnapshot, bootstrap_if_complete, market_of, publish, report, timed_readiness,
  readiness_with_budgets,
}
use okx.Observation.OrderBook.Linkage as Linkage
use okx.Observation.Stream.Invariant.{IsCoherent}
use okx.Observation.Stream.Current.{first_stale-none, AllCurrent, times-AllCurrent}

module _ (digest : GenerationInput → Option String) where
  snapshot_of_source :
      (reference : ReferenceRegistry) (i : InstrumentSpec) (id u a b : String) (m : MarketBootstrap)
      → is_ok (snapshot_of digest reference i id u a m)
        ≡ is_ok (snapshot_of digest reference i id u b m)
  unfolding snapshot_of generation_for
  snapshot_of_source reference i id u a b m = ground arith

  from_bootstrap_source :
      (reference : ReferenceRegistry) (id a b : String) (m : MarketBootstrap)
      → is_blank a ≡ false
      → is_blank b ≡ false
      → is_ok (from_bootstrap digest reference id a m)
        ≡ is_ok (from_bootstrap digest reference id b m)
  unfolding from_bootstrap
  from_bootstrap_source reference id a b m ha hb =
      ground (arith, λ (i : InstrumentSpec) (u : String). snapshot_of_source reference i id u a b m)

  -- A market snapshot is of the instrument and the rules that it was asked for.
  from_bootstrap-ids :
      (reference : ReferenceRegistry) (id a : String) (m : MarketBootstrap)
      {market : MarketSnapshot}
      → from_bootstrap digest reference id a m ≡ ok market
      → (market.instrument_id ≡ id)
        × (market.reference_generation ≡ reference.generation)
        × (market.source_received_at ≡ a)
  unfolding from_bootstrap snapshot_of generation_for
  from_bootstrap-ids reference id a m h = ground arith

stream_readiness : is_blank "stream-readiness" ≡ false
unfolding is_blank
stream_readiness = refl

module _ (dec : Decimals) (digest : GenerationInput → Option String) where
  timed-fresh :
      (s : MarketStreamState dec) (reference : ReferenceRegistry) (i : InstrumentSpec)
      (now price context : ℕ) (rest identify : Bool) (times : List (String × ℕ))
      → (timed_readiness dec digest s reference i now price context rest identify times).quality
        ≡ fresh
      → (s.order_book.status ≡ contiguous)
        × (first_stale times now price context ≡ none)
        × (is_ok (market_of dec digest s reference i.funding_requirement "stream-readiness") ≡ true)
  unfolding timed_readiness report
  timed-fresh s reference i now price context rest identify times h = ground arith

  readiness-fresh :
      (s : MarketStreamState dec) (reference : ReferenceRegistry) (now price context : ℕ)
      (connected subscribed rest identify : Bool)
      → (readiness_with_budgets dec digest s reference now price context connected subscribed rest
          identify).quality
        ≡ fresh
      → (connected ≡ true)
        × (subscribed ≡ true)
        × (str_eq reference.generation s.reference_generation ≡ true)
        × ((i : InstrumentSpec) × (get s.instrument_id reference.instruments ≡ some i)
            × (str_eq i.state "live" ≡ true)
            × ((times : List (String × ℕ)) × (required_receive_times dec s i.funding_requirement
                  ≡ some times)
                × ((timed_readiness dec digest s reference i now price context rest identify
                      times).quality
                    ≡ fresh)))
  unfolding readiness_with_budgets report
  readiness-fresh s reference now price context connected subscribed rest identify h = ground arith

  -- What a fresh report says of the connection, the rules of the instrument and its sources.
  pub record IsFresh (s : MarketStreamState dec) (reference : ReferenceRegistry)
      (now price context : ℕ) (connected subscribed : Bool) : Type 0 where
    pub connection : connected ≡ true
    pub subscriptions : subscribed ≡ true
    pub same_reference : reference.generation ≡ s.reference_generation
    pub instrument : InstrumentSpec
    pub listed : get s.instrument_id reference.instruments ≡ some instrument
    pub live : instrument.state ≡ "live"
    pub sources : AllCurrent dec s instrument now price context

  -- A fresh report of any state.
  pub readiness-IsFresh :
      (s : MarketStreamState dec) (reference : ReferenceRegistry) (now price context : ℕ)
      (connected subscribed rest identify : Bool)
      → (readiness_with_budgets dec digest s reference now price context connected subscribed rest
          identify).quality
        ≡ fresh
      → IsFresh s reference now price context connected subscribed
  readiness-IsFresh s reference now price context connected subscribed rest identify h =
      let (c, b, g, (i, e, l, (times, t, q))) =
        readiness-fresh s reference now price context connected subscribed rest identify h in
      let (k, n, _) = timed-fresh s reference i now price context rest identify times q in
      record {
        connection = c;
        subscriptions = b;
        same_reference = (eq_iff reference.generation s.reference_generation).0 g;
        instrument = i;
        listed = e;
        live = (eq_iff i.state "live").0 l;
        sources =
            times-AllCurrent dec now price context s i t
              (first_stale-none times now price context n) k;
      }

  -- If the report of a live view is fresh, where the view is coherent, as any calls on a new one leave
  -- it, then the connection is active with all subscriptions, the rules are those of the reference
  -- generation of the view and the instrument is live by them, each source that it requires, the order
  -- book among them, is of the generation of the view and was received not in the future and within
  -- the budget of its kind; and the book is contiguous, with a sequence number, a timestamp and sides
  -- that rise strictly in price.
  pub fresh-IsFresh :
      (s : MarketStreamState dec) (reference : ReferenceRegistry) (now price context : ℕ)
      (connected subscribed rest identify : Bool)
      → IsCoherent dec s
      → (readiness_with_budgets dec digest s reference now price context connected subscribed rest
          identify).quality
        ≡ fresh
      → IsFresh s reference now price context connected subscribed
        × (s.order_book.generation ≡ s.generation)
        × Linkage.Fits dec contiguous s.order_book
  fresh-IsFresh s reference now price context connected subscribed rest identify c h =
      let it =
        readiness-IsFresh s reference now price context connected subscribed rest identify h in
      (
        it,
        c.book_generation,
        subst (λ st. Linkage.Fits dec st s.order_book) it.sources.book_contiguous c.book_valid,
      )

  market_of_source :
      (s : MarketStreamState dec) (reference : ReferenceRegistry) (r : FundingRequirement)
      (a b : String)
      → is_blank a ≡ false
      → is_blank b ≡ false
      → is_ok (market_of dec digest s reference r a) ≡ true
      → (market : MarketSnapshot) × (market_of dec digest s reference r b ≡ ok market)
        × (market.instrument_id ≡ s.instrument_id)
        × (market.reference_generation ≡ reference.generation)
  unfolding market_of
  market_of_source s reference r a b ha hb h =
      let (first, f) = is_ok-ok (market_of dec digest s reference r a) h in
      let (m, boot, sealed) = bind-ok (bootstrap_if_complete dec s r) _ f in
      let id = s.instrument_id in
      let other : is_ok (from_bootstrap digest reference id b m) ≡ true =
        ground (arith, sealed, from_bootstrap_source digest reference id a b m ha hb) in
      let (market, made) = is_ok-ok (from_bootstrap digest reference id b m) other in
      let (same, rules, _) = from_bootstrap-ids digest reference id b m made in
      (market, ground (arith, boot, made), same, rules)

  -- If the report of the live view is fresh, then publishing under a source time that is not blank
  -- succeeds: with the generation, the instrument and the order book of the state and the rules of the
  -- registry.
  pub fresh-publish :
      (s : MarketStreamState dec) (reference : ReferenceRegistry) (now price context : ℕ)
      (connected subscribed rest identify : Bool) (source_received_at : String)
      → (readiness_with_budgets dec digest s reference now price context connected subscribed rest
          identify).quality
        ≡ fresh
      → is_blank source_received_at ≡ false
      → (live : LiveMarketSnapshot) × (publish dec digest s reference source_received_at ≡ ok live)
        × (live.generation ≡ s.generation)
        × (live.market.instrument_id ≡ s.instrument_id)
        × (live.market.reference_generation ≡ reference.generation)
        × (live.order_book ≡ OrderBook.snapshot dec s.order_book)
  unfolding publish
  fresh-publish s reference now price context connected subscribed rest identify at h n =
      let (c, b, g, (i, e, l, (times, t, q))) =
        readiness-fresh s reference now price context connected subscribed rest identify h in
      let (k, _, m) = timed-fresh s reference i now price context rest identify times q in
      let (market, p, id, r) =
        market_of_source s reference i.funding_requirement "stream-readiness" at stream_readiness n
          m in
      (
        record {
          generation = s.generation;
          market = market;
          order_book = OrderBook.snapshot dec s.order_book;
        },
        ground (arith, g, e, k, p),
        refl,
        id,
        r,
        refl,
      )

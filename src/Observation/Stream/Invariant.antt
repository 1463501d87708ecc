-- ===== src/Observation/Stream/Invariant.antt =====
-- crates/okx-observation/src/stream.rs: what holds of the live view after any calls.
use Prim.Native.String.{String}
use okx.Prelude.{
  ℕ, Bool, true, false, List, [], ◌∷◌, Option, none, some, ◌≡◌, refl, subst, arith, Bool-cases, inl,
  inr, ◌==◌,
}
use okx.Prelude.Decimals.{Decimals}
use okx.Prelude.Int.{ℤ}
use okx.Api.PublicData.{
  PublicTicker, PublicMarkPrice, PublicIndexTicker, PublicFundingRate, PublicOpenInterest,
}
use okx.Observation.OrderBook.Defs as OrderBook
use okx.Observation.OrderBook.Defs.{OrderBookMessage, contiguous, is_contiguous}
use okx.Observation.OrderBook.Linkage as Linkage
use okx.Observation.Stream.State.{
  Observed, MarketStreamState, Outcome, new, reset_generation, require_generation, guarded,
  apply_ticker, apply_mark_price, apply_index_ticker, apply_funding_rate, apply_open_interest,
  with_book, apply_book_snapshot, apply_book_update,
}

abbrev is_some {ℓ} : {T : Type ℓ} → Option T → Bool
is_some none = false
is_some (some _) = true

module _ (dec : Decimals) where
  -- An observation, if there is one, is of this generation.
  abbrev pub Of {ℓ} : {T : Type ℓ} → ℕ → Option (Observed T) → Type 0
  Of g none = Unit
  Of g (some observed) = observed.generation ≡ g

  pub record IsCoherent (s : MarketStreamState dec) : Type 0 where
    pub ticker : Of s.generation s.ticker
    pub mark_price : Of s.generation s.mark_price
    pub index_ticker : Of s.generation s.index_ticker
    pub funding_rate : Of s.generation s.funding_rate
    pub open_interest : Of s.generation s.open_interest
    pub book_generation : s.order_book.generation ≡ s.generation
    pub book_valid : Linkage.IsValid dec s.order_book
    pub book_received : is_some s.order_book_received_at_ms ≡ is_contiguous s.order_book.status

  coherent :
      (s : MarketStreamState dec)
      → Of s.generation s.ticker
      → Of s.generation s.mark_price
      → Of s.generation s.index_ticker
      → Of s.generation s.funding_rate
      → Of s.generation s.open_interest
      → s.order_book.generation ≡ s.generation
      → Linkage.IsValid dec s.order_book
      → is_some s.order_book_received_at_ms ≡ is_contiguous s.order_book.status
      → IsCoherent s
  coherent s t m x f o g v r = record {
    ticker = t;
    mark_price = m;
    index_ticker = x;
    funding_rate = f;
    open_interest = o;
    book_generation = g;
    book_valid = v;
    book_received = r;
  }

  -- The calls on a live view.
  pub data Call : Type 0 where
    resets : ℕ → String → Call
    tickers : ℕ → ℕ → PublicTicker → Call
    mark_prices : ℕ → ℕ → PublicMarkPrice → Call
    index_tickers : ℕ → ℕ → PublicIndexTicker → Call
    funding_rates : ℕ → ℕ → PublicFundingRate → Call
    open_interests : ℕ → ℕ → PublicOpenInterest → Call
    book_snapshots : ℕ → ℕ → OrderBookMessage → Call
    book_updates : ℕ → ℕ → OrderBookMessage → Call

  abbrev pub step : MarketStreamState dec → Call → MarketStreamState dec
  step s (resets g r) = reset_generation dec s g r
  step s (tickers g t v) = (apply_ticker dec s g t v).0
  step s (mark_prices g t v) = (apply_mark_price dec s g t v).0
  step s (index_tickers g t v) = (apply_index_ticker dec s g t v).0
  step s (funding_rates g t v) = (apply_funding_rate dec s g t v).0
  step s (open_interests g t v) = (apply_open_interest dec s g t v).0
  step s (book_snapshots g t m) = (apply_book_snapshot dec s g t m).0
  step s (book_updates g t m) = (apply_book_update dec s g t m).0

  abbrev pub run : MarketStreamState dec → List Call → MarketStreamState dec
  run s [] = s
  run s (c ∷ cs) = run (step s c) cs

  -- A guarded change either does not happen or is of the generation of the state.
  guarded-IsCoherent :
      (s : MarketStreamState dec) (g : ℕ) (next : MarketStreamState dec × Outcome)
      → IsCoherent s
      → (g ≡ s.generation → IsCoherent next.0)
      → IsCoherent (guarded dec s g next).0
  unfolding guarded require_generation
  guarded-IsCoherent s g next c h = elim (Bool-cases (g == s.generation)) [
    | inl same ↦ subst IsCoherent (ground (arith, same)) (h (ground (arith, same)))
    | inr other ↦ subst IsCoherent (ground (arith, other)) c
  ]

  -- What an answer of the book may be, for its generation and its validity.
  record IsAnswer (s : MarketStreamState dec)
      (answer : OrderBook.OrderBookState dec × OrderBook.Result (Unit {0})) : Type 0 where
    valid : Linkage.IsValid dec answer.0
    generation : answer.0.generation ≡ s.generation
    status : OrderBook.is_ok answer.1 ≡ is_contiguous answer.0.status

  with_book-IsCoherent :
      (s : MarketStreamState dec) (at : ℕ)
      (answer : OrderBook.OrderBookState dec × OrderBook.Result (Unit {0}))
      → IsCoherent s
      → IsAnswer s answer
      → IsCoherent (with_book dec s at answer).0
  unfolding with_book
  with_book-IsCoherent s at (book, OrderBook.Result.ok _) c a =
      coherent _ c.ticker c.mark_price c.index_ticker c.funding_rate c.open_interest a.generation
        a.valid a.status
  with_book-IsCoherent s at (book, OrderBook.Result.err e) c a =
      coherent _ c.ticker c.mark_price c.index_ticker c.funding_rate c.open_interest a.generation
        a.valid a.status

  snapshot-IsAnswer :
      (s : MarketStreamState dec) (g : ℕ) (m : OrderBookMessage)
      → IsCoherent s
      → g ≡ s.generation
      → IsAnswer s (OrderBook.apply_snapshot dec s.order_book g m)
  unfolding OrderBook.apply_snapshot OrderBook.invalidate
  snapshot-IsAnswer s g m c e = record {
    valid =
        Linkage.snapshot_outcome dec s.order_book g m
          (OrderBook.apply_snapshot dec s.order_book g m) refl;
    generation = ground (arith, c.book_generation, e);
    status = ground arith;
  }

  has_seq_id :
      (b : OrderBook.OrderBookState dec)
      → Linkage.IsValid dec b
      → b.status ≡ contiguous
      → (n : ℤ) × (b.last_seq_id ≡ some n)
  has_seq_id b v e = (subst (λ st. Linkage.Fits dec st b) e v).0

  update-IsAnswer :
      (s : MarketStreamState dec) (g : ℕ) (m : OrderBookMessage)
      → IsCoherent s
      → g ≡ s.generation
      → IsAnswer s (OrderBook.apply_update dec s.order_book g m)
  unfolding OrderBook.apply_update OrderBook.invalidate
  update-IsAnswer s g m c e = record {
    valid =
        Linkage.update_outcome dec s.order_book g m (OrderBook.apply_update dec s.order_book g m)
          refl c.book_valid;
    generation = ground (arith, c.book_generation, e);
    status = ground (arith, c.book_generation, e, has_seq_id s.order_book c.book_valid);
  }

  fresh-IsCoherent :
      (s : MarketStreamState dec) (g : ℕ) (r : String) → IsCoherent (reset_generation dec s g r)
  unfolding reset_generation OrderBook.waiting
  fresh-IsCoherent s g r = coherent _ tt tt tt tt tt refl (Linkage.waiting-IsValid dec g) refl

  new-IsCoherent : (id : String) (g : ℕ) (r : String) → IsCoherent (new dec id g r)
  unfolding new OrderBook.waiting
  new-IsCoherent id g r = coherent _ tt tt tt tt tt refl (Linkage.waiting-IsValid dec g) refl

  step-IsCoherent :
      (s : MarketStreamState dec) (call : Call) → IsCoherent s → IsCoherent (step s call)
  unfolding apply_ticker apply_mark_price apply_index_ticker apply_funding_rate apply_open_interest
      apply_book_snapshot apply_book_update
  step-IsCoherent s (resets g r) c = fresh-IsCoherent s g r
  step-IsCoherent s (tickers g t v) c = guarded-IsCoherent s g _ c λ e.
      coherent _ e c.mark_price c.index_ticker c.funding_rate c.open_interest c.book_generation
        c.book_valid c.book_received
  step-IsCoherent s (mark_prices g t v) c = guarded-IsCoherent s g _ c λ e.
      coherent _ c.ticker e c.index_ticker c.funding_rate c.open_interest c.book_generation
        c.book_valid c.book_received
  step-IsCoherent s (index_tickers g t v) c = guarded-IsCoherent s g _ c λ e.
      coherent _ c.ticker c.mark_price e c.funding_rate c.open_interest c.book_generation
        c.book_valid c.book_received
  step-IsCoherent s (funding_rates g t v) c = guarded-IsCoherent s g _ c λ e.
      coherent _ c.ticker c.mark_price c.index_ticker e c.open_interest c.book_generation
        c.book_valid c.book_received
  step-IsCoherent s (open_interests g t v) c = guarded-IsCoherent s g _ c λ e.
      coherent _ c.ticker c.mark_price c.index_ticker c.funding_rate e c.book_generation
        c.book_valid c.book_received
  step-IsCoherent s (book_snapshots g t m) c = guarded-IsCoherent s g _ c λ e.
      with_book-IsCoherent s t (OrderBook.apply_snapshot dec s.order_book g m) c
        (snapshot-IsAnswer s g m c e)
  step-IsCoherent s (book_updates g t m) c = guarded-IsCoherent s g _ c λ e.
      with_book-IsCoherent s t (OrderBook.apply_update dec s.order_book g m) c
        (update-IsAnswer s g m c e)

  run-IsCoherent :
      (s : MarketStreamState dec) (calls : List Call) → IsCoherent s → IsCoherent (run s calls)
  run-IsCoherent s [] c = c
  run-IsCoherent s (call ∷ calls) c = run-IsCoherent (step s call) calls (step-IsCoherent s call c)

  -- After any calls on a new live view, failed ones included: each observation it holds is of its
  -- current generation, its order book is of that generation and valid, and the book has a receive
  -- time exactly if it is contiguous.
  pub new-run-IsCoherent :
      (id : String) (g : ℕ) (r : String) (calls : List Call)
      → IsCoherent (run (new dec id g r) calls)
  new-run-IsCoherent id g r calls = run-IsCoherent (new dec id g r) calls (new-IsCoherent id g r)

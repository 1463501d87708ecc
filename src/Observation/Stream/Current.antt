-- ===== src/Observation/Stream/Current.antt =====
-- crates/okx-observation/src/stream.rs: the sources of the live view that are in time.
use Prim.Native.String.{String}
use okx.Prelude.{
  ℕ, ◌+◌, ◌≤◌, List, [], ◌∷◌, ◌++◌, All-snoc, Option, none, some, All, ◌≡◌, refl, sym, subst, arith,
}
use okx.Prelude.Decimals.{Decimals}
use okx.Prelude.Options.{bind-some}
use okx.Observation.OrderBook.Defs.{contiguous}
use okx.Observation.Reference.Types.{
  FundingRequirement, required, not_applicable, unknown, InstrumentSpec,
}
use okx.Observation.Stream.State.{Observed, MarketStreamState}
use okx.Observation.Stream.Times.{
  budget_of, with_funding, first_stale, current_received_at, required_receive_times,
}

-- Neither in the future nor older than its budget.
abbrev pub InBudget : ℕ → ℕ → ℕ → Type 0
InBudget now at budget = (at ≤ now) × (now ≤ at + budget)

pub first_stale-none :
    (times : List (String × ℕ)) (now price context : ℕ)
    → first_stale times now price context ≡ none
    → All (λ t. InBudget now t.1 (budget_of t.0 price context)) times
unfolding first_stale
first_stale-none [] now price context h = tt
first_stale-none ((name, at) ∷ times) now price context h =
    ground (arith, first_stale-none times now price context)

module _ (dec : Decimals) where
  -- A source that was received in the generation of the state, within its budget.
  abbrev pub Current {ℓ} :
      {T : Type ℓ} → MarketStreamState dec → ℕ → ℕ → Option (Observed T) → Type ℓ
  Current {T = T} s now budget o =
      (observed : Observed T) × (o ≡ some observed)
      × (observed.generation ≡ s.generation)
      × InBudget now observed.received_at_ms budget

  current_received_at-Current {ℓ} :
      {T : Type ℓ} (s : MarketStreamState dec) (o : Option (Observed T)) (at now budget : ℕ)
      → current_received_at dec s o ≡ some at
      → InBudget now at budget
      → Current s now budget o
  unfolding current_received_at
  current_received_at-Current s none at now budget h b = cc h
  current_received_at-Current s (some o) at now budget h b =
      let same : o.generation ≡ s.generation = ground (arith, h) in
      let received : o.received_at_ms ≡ at = ground (arith, h, same) in
      (o, refl, same, subst (λ t. InBudget now t budget) (sym received) b)

  -- The funding rate that an instrument requires.
  abbrev pub FundingCurrent : MarketStreamState dec → FundingRequirement → ℕ → ℕ → Type 0
  FundingCurrent s required now budget = Current s now budget s.funding_rate
  FundingCurrent s not_applicable now budget = Unit
  FundingCurrent s unknown now budget = ⊥

  -- Each source that the instrument requires, received within its own budget and, but for the order
  -- book, in the generation of the state; the book is contiguous.
  pub record AllCurrent (s : MarketStreamState dec) (instrument : InstrumentSpec)
      (now price context : ℕ) : Type 0 where
    pub ticker : Current s now price s.ticker
    pub mark_price : Current s now price s.mark_price
    pub index_ticker : Current s now price s.index_ticker
    pub open_interest : Current s now context s.open_interest
    pub order_book : (at : ℕ) × (s.order_book_received_at_ms ≡ some at) × InBudget now at price
    pub funding_rate : FundingCurrent s instrument.funding_requirement now context
    pub book_contiguous : s.order_book.status ≡ contiguous

module _ (dec : Decimals) (now price context : ℕ) where
  abbrev Timely : String × ℕ → Type 0
  Timely t = InBudget now t.1 (budget_of t.0 price context)

  abbrev Funded : FundingRequirement → Option ℕ → Type 0
  Funded required o = (at : ℕ) × (o ≡ some at) × InBudget now at context
  Funded not_applicable o = Unit
  Funded unknown o = ⊥

  with_funding-Funded :
      (r : FundingRequirement) (o : Option ℕ) (base : List (String × ℕ)) {times : List (String × ℕ)}
      → with_funding dec r o base ≡ some times
      → All Timely times
      → All Timely base × Funded r o
  with_funding-Funded required none base h a = cc h
  with_funding-Funded required (some at) base {times} h a =
      let snoc : times ≡ base ++ (("funding_rate", at) ∷ []) = cc h in
      let both = All-snoc Timely base ("funding_rate", at) (subst (All Timely) snoc a) in
      (both.0, (at, refl, both.1))
  with_funding-Funded not_applicable o base h a = (subst (All Timely) (cc h) a, tt)
  with_funding-Funded unknown o base h a = cc h

  Funded-FundingCurrent :
      (s : MarketStreamState dec) (r : FundingRequirement)
      → Funded r (current_received_at dec s s.funding_rate)
      → FundingCurrent dec s r now context
  Funded-FundingCurrent s required (at, e, b) =
      current_received_at-Current dec s s.funding_rate at now context e b
  Funded-FundingCurrent s not_applicable f = tt
  Funded-FundingCurrent s unknown f = f

  pub times-AllCurrent :
      (s : MarketStreamState dec) (instrument : InstrumentSpec) {times : List (String × ℕ)}
      → required_receive_times dec s instrument.funding_requirement ≡ some times
      → All Timely times
      → s.order_book.status ≡ contiguous
      → AllCurrent dec s instrument now price context
  unfolding required_receive_times
  times-AllCurrent s instrument h a c =
      let (t, e1, h1) = bind-some (current_received_at dec s s.ticker) _ h in
      let (m, e2, h2) = bind-some (current_received_at dec s s.mark_price) _ h1 in
      let (x, e3, h3) = bind-some (current_received_at dec s s.index_ticker) _ h2 in
      let (i, e4, h4) = bind-some (current_received_at dec s s.open_interest) _ h3 in
      let (b, e5, h5) = bind-some s.order_book_received_at_ms _ h4 in
      let r = instrument.funding_requirement in
      let (l, f) = with_funding-Funded r (current_received_at dec s s.funding_rate) _ h5 a in
      record {
        ticker = current_received_at-Current dec s s.ticker t now price e1 l.0;
        mark_price = current_received_at-Current dec s s.mark_price m now price e2 l.1.0;
        index_ticker = current_received_at-Current dec s s.index_ticker x now price e3 l.1.1.0;
        open_interest =
            current_received_at-Current dec s s.open_interest i now context e4 l.1.1.1.0;
        order_book = (b, e5, l.1.1.1.1.0);
        funding_rate = Funded-FundingCurrent s r f;
        book_contiguous = c;
      }

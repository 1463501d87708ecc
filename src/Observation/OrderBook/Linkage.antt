-- ===== src/Observation/OrderBook/Linkage.antt =====
-- crates/okx-observation/src/order_book.rs: the whole book, from its snapshot through the updates
-- linked to it by their sequence numbers.
use Prim.Native.String.{String}
use okx.Prelude.{
  ℕ, ◌≡◌, ◌≢◌, refl, sym, subst, ◌⊎◌, inl, inr, none, some, List, [], ◌∷◌, arith, Bool-cases,
}
use okx.Prelude.Int.{ℤ, negsuc, eqb_ℤ, eqb_ℤ_iff}
use okx.Prelude.Decimals.{Decimals}
use okx.Observation.OrderBook.Defs.{
  BookLevelUpdate, OrderBookMessage, OrderBookStatus, waiting_snapshot, contiguous, invalid,
  OrderBookError, not_contiguous, Side, OrderBookState, Result, ok, err, apply_levels,
  levels_from_snapshot, waiting, invalidate, apply_snapshot, apply_update, snapshot,
  invalid_snapshot_prev_seq_id,
}
use okx.Observation.OrderBook.Levels.{IsSide, empty-IsSide, apply_levels-IsSide}

module _ (dec : Decimals) where
  open dec use {Decimal}

  -- Only a contiguous book has a sequence number, a timestamp and levels.
  abbrev pub Fits : OrderBookStatus → OrderBookState dec → Type 0
  Fits contiguous s =
      ((n : ℤ) × (s.last_seq_id ≡ some n))
      × ((t : String) × (s.exchange_timestamp_ms ≡ some t))
      × IsSide dec s.asks
      × IsSide dec s.bids
  Fits _ s =
      (s.last_seq_id ≡ none) × (s.exchange_timestamp_ms ≡ none) × (s.asks ≡ []) × (s.bids ≡ [])

  abbrev pub IsValid : OrderBookState dec → Type 0
  IsValid s = Fits s.status s

  pub waiting-IsValid : (g : ℕ) → IsValid (waiting dec g)
  unfolding waiting
  waiting-IsValid g = (refl, refl, refl, refl)

  invalidate-IsValid : (s : OrderBookState dec) → IsValid (invalidate dec s)
  unfolding invalidate
  invalidate-IsValid s = (refl, refl, refl, refl)

  -- A snapshot that is accepted, taken apart.
  pub record Restarted (s : OrderBookState dec) (g : ℕ) (m : OrderBookMessage)
      (s' : OrderBookState dec) : Type 0 where
    pub generation : s'.generation ≡ g
    pub status : s'.status ≡ contiguous
    pub seq_id : s'.last_seq_id ≡ some m.seq_id
    pub timestamp : s'.exchange_timestamp_ms ≡ some m.exchange_timestamp_ms
    pub asks : levels_from_snapshot dec m.asks ≡ ok s'.asks
    pub bids : levels_from_snapshot dec m.bids ≡ ok s'.bids
    pub first : m.prev_seq_id ≡ negsuc 0

  pub apply_snapshot-Restarted :
      (s : OrderBookState dec) (g : ℕ) (m : OrderBookMessage) {s' : OrderBookState dec}
      → apply_snapshot dec s g m ≡ (s', ok tt)
      → Restarted s g m s'
  unfolding apply_snapshot
  apply_snapshot-Restarted s g m {s'} h =
      let first = (eqb_ℤ_iff m.prev_seq_id (negsuc 0)).0 in
      elim (Bool-cases (eqb_ℤ m.prev_seq_id (negsuc 0))) [
        | inl e ↦ ground (arith, first e)
        | inr e ↦ ground arith
      ]

  pub record Followed (s : OrderBookState dec) (g : ℕ) (m : OrderBookMessage)
      (s' : OrderBookState dec) : Type 0 where
    pub same_generation : g ≡ s.generation
    pub generation : s'.generation ≡ g
    pub status : s'.status ≡ contiguous
    pub linked : s.last_seq_id ≡ some m.prev_seq_id
    pub seq_id : s'.last_seq_id ≡ some m.seq_id
    pub timestamp : s'.exchange_timestamp_ms ≡ some m.exchange_timestamp_ms
    pub asks : apply_levels dec s.asks m.asks ≡ ok s'.asks
    pub bids : apply_levels dec s.bids m.bids ≡ ok s'.bids

  pub apply_update-Followed :
      (s : OrderBookState dec) (g : ℕ) (m : OrderBookMessage) {s' : OrderBookState dec}
      → apply_update dec s g m ≡ (s', ok tt)
      → Followed s g m s'
  unfolding apply_update
  apply_update-Followed s g m {s'} h = ground (arith, λ (n : ℤ). (eqb_ℤ_iff m.prev_seq_id n).0)

  failed_update :
      (s : OrderBookState dec) (g : ℕ) (m : OrderBookMessage) {s' : OrderBookState dec}
      {e : OrderBookError}
      → apply_update dec s g m ≡ (s', err e)
      → (s' ≡ invalidate dec s)
        ⊎ ((e ≡ not_contiguous)
            × (s' ≡ s)
            × (g ≡ s.generation)
            × ((s.status ≢ contiguous) ⊎ (s.last_seq_id ≡ none)))
  unfolding apply_update
  failed_update s g m h = ground arith

  failed_snapshot :
      (s : OrderBookState dec) (g : ℕ) (m : OrderBookMessage) {s' : OrderBookState dec}
      {e : OrderBookError}
      → apply_snapshot dec s g m ≡ (s', err e)
      → s' ≡ invalidate dec s
  unfolding apply_snapshot
  failed_snapshot s g m h = ground arith

  -- A book that was given up: of its generation, but invalid, without levels, sequence number and
  -- timestamp, in the published snapshot too, and it takes no update until a snapshot comes.
  pub record Revoked (s s' : OrderBookState dec) : Type 0 where
    pub generation : s'.generation ≡ s.generation
    pub status : s'.status ≡ invalid
    pub seq_id : s'.last_seq_id ≡ none
    pub timestamp : s'.exchange_timestamp_ms ≡ none
    pub asks : s'.asks ≡ []
    pub bids : s'.bids ≡ []
    pub published_asks : (snapshot dec s').asks ≡ []
    pub published_bids : (snapshot dec s').bids ≡ []
    pub refuses :
        (m : OrderBookMessage) → apply_update dec s' s.generation m ≡ (s', err not_contiguous)

  invalidate-Revoked : (s : OrderBookState dec) → Revoked s (invalidate dec s)
  unfolding invalidate apply_update snapshot
  invalidate-Revoked s = record {
    generation = refl;
    status = refl;
    seq_id = refl;
    timestamp = refl;
    asks = refl;
    bids = refl;
    published_asks = refl;
    published_bids = refl;
    refuses = λ m. ground arith;
  }

  -- An update that fails gives the book up: it keeps its generation, but is invalid, without levels,
  -- sequence number and timestamp, and refuses updates. Only if the update is of the generation of a
  -- book that is not contiguous or has no sequence number, the error says so and the book stays as it
  -- is.
  pub apply_update-revokes :
      (s : OrderBookState dec) (g : ℕ) (m : OrderBookMessage) {s' : OrderBookState dec}
      {e : OrderBookError}
      → apply_update dec s g m ≡ (s', err e)
      → Revoked s s'
        ⊎ ((e ≡ not_contiguous)
            × (s' ≡ s)
            × (g ≡ s.generation)
            × ((s.status ≢ contiguous) ⊎ (s.last_seq_id ≡ none)))
  apply_update-revokes s g m h = elim (failed_update s g m h) [
    | inl e ↦ inl (subst (Revoked s) (sym e) (invalidate-Revoked s))
    | inr kept ↦ inr kept
  ]

  -- Why a snapshot is refused.
  abbrev pub Refusal : OrderBookMessage → OrderBookError → Type 0
  Refusal m e =
      ((m.prev_seq_id ≢ negsuc 0) × (e ≡ invalid_snapshot_prev_seq_id m.prev_seq_id))
      ⊎ (levels_from_snapshot dec m.asks ≡ err e)
      ⊎ (levels_from_snapshot dec m.bids ≡ err e)

  refused_snapshot :
      (s : OrderBookState dec) (g : ℕ) (m : OrderBookMessage) {s' : OrderBookState dec}
      {e : OrderBookError}
      → apply_snapshot dec s g m ≡ (s', err e)
      → Refusal m e
  unfolding apply_snapshot
  refused_snapshot s g m h = ground (arith, (eqb_ℤ_iff m.prev_seq_id (negsuc 0)).1)

  -- A snapshot fails only if its previous sequence number is not -1 or its asks or bids are refused,
  -- with the error that says so; and it gives the book up, which keeps its generation, but is invalid,
  -- without levels, sequence number and timestamp, and refuses updates.
  pub apply_snapshot-revokes :
      (s : OrderBookState dec) (g : ℕ) (m : OrderBookMessage) {s' : OrderBookState dec}
      {e : OrderBookError}
      → apply_snapshot dec s g m ≡ (s', err e)
      → Revoked s s' × Refusal m e
  apply_snapshot-revokes s g m h = (
    subst (Revoked s) (sym (failed_snapshot s g m h)) (invalidate-Revoked s),
    refused_snapshot s g m h,
  )

  settled-IsValid :
      (s' : OrderBookState dec) (m : OrderBookMessage)
      → s'.status ≡ contiguous
      → s'.last_seq_id ≡ some m.seq_id
      → s'.exchange_timestamp_ms ≡ some m.exchange_timestamp_ms
      → IsSide dec s'.asks
      → IsSide dec s'.bids
      → IsValid s'
  settled-IsValid s' m status seq_id timestamp asks bids =
      subst (λ st. Fits st s') (sym status)
        ((m.seq_id, seq_id), (m.exchange_timestamp_ms, timestamp), asks, bids)

  pub snapshot_sides :
      (levels : List BookLevelUpdate) {side : Side dec}
      → levels_from_snapshot dec levels ≡ ok side
      → IsSide dec side
  unfolding levels_from_snapshot
  snapshot_sides levels h = apply_levels-IsSide dec [] levels h (empty-IsSide dec)

  pub Restarted-IsValid :
      (s : OrderBookState dec) (g : ℕ) (m : OrderBookMessage) {s' : OrderBookState dec}
      → Restarted s g m s'
      → IsValid s'
  Restarted-IsValid s g m {s'} r =
      settled-IsValid s' m r.status r.seq_id r.timestamp (snapshot_sides m.asks r.asks)
        (snapshot_sides m.bids r.bids)

  -- The sides of a book that an update is linked to.
  pub linked_sides :
      (st : OrderBookStatus) (s : OrderBookState dec) {n : ℤ}
      → s.last_seq_id ≡ some n
      → Fits st s
      → IsSide dec s.asks × IsSide dec s.bids
  linked_sides contiguous s linked h = (h.2, h.3)
  linked_sides waiting_snapshot s linked h = cc (linked, h.0)
  linked_sides invalid s linked h = cc (linked, h.0)

  pub Followed-IsValid :
      (s : OrderBookState dec) (g : ℕ) (m : OrderBookMessage) {s' : OrderBookState dec}
      → Followed s g m s'
      → IsValid s
      → IsValid s'
  Followed-IsValid s g m {s'} f h =
      let (asks, bids) = linked_sides s.status s f.linked h in
      settled-IsValid s' m f.status f.seq_id f.timestamp
        (apply_levels-IsSide dec s.asks m.asks f.asks asks)
        (apply_levels-IsSide dec s.bids m.bids f.bids bids)

  -- The calls on a book.
  pub data Call : Type 0 where
    snapshots : ℕ → OrderBookMessage → Call
    updates : ℕ → OrderBookMessage → Call
    invalidates : Call

  abbrev pub step : OrderBookState dec → Call → OrderBookState dec
  step s (snapshots g m) = (apply_snapshot dec s g m).0
  step s (updates g m) = (apply_update dec s g m).0
  step s invalidates = invalidate dec s

  abbrev pub run : OrderBookState dec → List Call → OrderBookState dec
  run s [] = s
  run s (c ∷ cs) = run (step s c) cs

  pub snapshot_outcome :
      (s : OrderBookState dec) (g : ℕ) (m : OrderBookMessage)
      (outcome : OrderBookState dec × Result (Unit {0}))
      → apply_snapshot dec s g m ≡ outcome
      → IsValid outcome.0
  snapshot_outcome s g m (s', ok tt) e = Restarted-IsValid s g m (apply_snapshot-Restarted s g m e)
  snapshot_outcome s g m (s', err x) e =
      subst IsValid (sym (failed_snapshot s g m e)) (invalidate-IsValid s)

  pub update_outcome :
      (s : OrderBookState dec) (g : ℕ) (m : OrderBookMessage)
      (outcome : OrderBookState dec × Result (Unit {0}))
      → apply_update dec s g m ≡ outcome
      → IsValid s
      → IsValid outcome.0
  update_outcome s g m (s', ok tt) e h = Followed-IsValid s g m (apply_update-Followed s g m e) h
  update_outcome s g m (s', err x) e h = elim (failed_update s g m e) [
    | inl revoked ↦ subst IsValid (sym revoked) (invalidate-IsValid s)
    | inr kept ↦ subst IsValid (sym kept.1) h
  ]

  step-IsValid : (s : OrderBookState dec) (c : Call) → IsValid s → IsValid (step s c)
  step-IsValid s (snapshots g m) h = snapshot_outcome s g m (apply_snapshot dec s g m) refl
  step-IsValid s (updates g m) h = update_outcome s g m (apply_update dec s g m) refl h
  step-IsValid s invalidates h = invalidate-IsValid s

  run-IsValid : (s : OrderBookState dec) (cs : List Call) → IsValid s → IsValid (run s cs)
  run-IsValid s [] h = h
  run-IsValid s (c ∷ cs) h = run-IsValid (step s c) cs (step-IsValid s c h)

  -- After any calls from a waiting book: a contiguous book has a sequence number and a timestamp, its
  -- sides rise strictly in price, and each entry stands under the positive price that its text
  -- reads, with a positive size; a book that is not contiguous has none of these.
  pub waiting-run-IsValid : (g : ℕ) (cs : List Call) → IsValid (run (waiting dec g) cs)
  waiting-run-IsValid g cs = run-IsValid (waiting dec g) cs (waiting-IsValid g)

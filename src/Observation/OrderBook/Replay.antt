-- ===== src/Observation/OrderBook/Replay.antt =====
-- crates/okx-observation/src/order_book.rs: a book against the messages it was made of.
use okx.Prelude.{ℕ, ◌≡◌, refl, sym, ◌∙◌, ap, Option, none, some, List, [], ◌∷◌, ◌++◌}
use okx.Prelude.Int.{ℤ}
use okx.Prelude.Decimals.{Decimals}
use okx.Observation.OrderBook.Defs.{
  BookLevel, BookLevelUpdate, OrderBookMessage, OrderBookState, Side, ok, get, levels_from_snapshot,
  apply_snapshot, apply_update,
}
use okx.Observation.OrderBook.Levels.{empty-IsSide, get-apply_levels, written}
use okx.Observation.OrderBook.Linkage.{
  apply_snapshot-Restarted, apply_update-Followed, IsValid, Restarted-IsValid, Followed-IsValid,
  linked_sides,
}

module _ (dec : Decimals) where
  open dec use {Decimal}

  -- Updates that are accepted one after the other.
  pub data Accepts : OrderBookState dec → List OrderBookMessage → OrderBookState dec → Type 0 where
    end : {s : OrderBookState dec} → Accepts s [] s
    next :
        {s mid s' : OrderBookState dec} {m : OrderBookMessage} {ms : List OrderBookMessage} (g : ℕ)
        → apply_update dec s g m ≡ (mid, ok tt)
        → Accepts mid ms s'
        → Accepts s (m ∷ ms) s'

  -- Each message names the sequence number of the one before it.
  abbrev pub Linked : ℤ → List OrderBookMessage → ℤ → Type 0
  Linked n [] n' = n ≡ n'
  Linked n (m ∷ ms) n' = (m.prev_seq_id ≡ n) × Linked m.seq_id ms n'

  abbrev pub asks_of : List OrderBookMessage → List BookLevelUpdate
  asks_of [] = []
  asks_of (m ∷ ms) = m.asks ++ asks_of ms

  abbrev pub bids_of : List OrderBookMessage → List BookLevelUpdate
  bids_of [] = []
  bids_of (m ∷ ms) = m.bids ++ bids_of ms

  written-append :
      (q : Decimal) (xs ys : List BookLevelUpdate) (old : Option BookLevel)
      → written dec q (xs ++ ys) old ≡ written dec q ys (written dec q xs old)
  written-append q [] ys old = refl
  written-append q (x ∷ xs) ys old = written-append q xs ys _

  -- What both sides of a book hold, in terms of what they held and of the messages since.
  abbrev Holds : (Decimal → Option BookLevel) → List BookLevelUpdate → Side dec → Type 0
  Holds old levels side = (q : Decimal) → get dec q side ≡ written dec q levels (old q)

  accepted :
      (s : OrderBookState dec) (ms : List OrderBookMessage) (s' : OrderBookState dec) (n : ℤ)
      → Accepts s ms s'
      → IsValid dec s
      → s.last_seq_id ≡ some n
      → (s'.generation ≡ s.generation)
        × ((n' : ℤ) × (s'.last_seq_id ≡ some n') × Linked n ms n')
        × Holds (λ q. get dec q s.asks) (asks_of ms) s'.asks
        × Holds (λ q. get dec q s.bids) (bids_of ms) s'.bids
  accepted s ms s' n end h e = (refl, (n, e, refl), λ q. refl, λ q. refl)
  accepted s (m ∷ ms) s' n (next {mid = mid} g one rest) h e =
      let f = apply_update-Followed dec s g m one in
      let (asks, bids) = linked_sides dec s.status s f.linked h in
      let later = accepted mid ms s' m.seq_id rest (Followed-IsValid dec s g m f h) f.seq_id in
      let link : m.prev_seq_id ≡ n = cc (f.linked, e) in
      let (n', seq, linked) = later.1 in
      (
        later.0 ∙ f.generation ∙ f.same_generation,
        (n', seq, (link, linked)),
        λ q.
            later.2 q
            ∙ ap (written dec q (asks_of ms)) (get-apply_levels dec q s.asks m.asks asks f.asks)
            ∙ sym (written-append q m.asks (asks_of ms) (get dec q s.asks)),
        λ q.
            later.3 q
            ∙ ap (written dec q (bids_of ms)) (get-apply_levels dec q s.bids m.bids bids f.bids)
            ∙ sym (written-append q m.bids (bids_of ms) (get dec q s.bids)),
      )

  snapshot-Holds :
      (levels : List BookLevelUpdate) {side : Side dec}
      → levels_from_snapshot dec levels ≡ ok side
      → Holds (λ q. none) levels side
  unfolding levels_from_snapshot get
  snapshot-Holds levels h q = get-apply_levels dec q [] levels (empty-IsSide dec) h

  -- After an accepted snapshot and updates that were all accepted, the book has the snapshot's
  -- generation; each update names the sequence number of the message before it and the book has that
  -- of the last; and each side gives, at every price, the last level stated for it since the
  -- snapshot, and none where that level is of size zero or no message states one.
  pub replay :
      (s : OrderBookState dec) (g : ℕ) (m : OrderBookMessage) (ms : List OrderBookMessage)
      {s0 s' : OrderBookState dec}
      → apply_snapshot dec s g m ≡ (s0, ok tt)
      → Accepts s0 ms s'
      → (s'.generation ≡ g)
        × ((n' : ℤ) × (s'.last_seq_id ≡ some n') × Linked m.seq_id ms n')
        × Holds (λ q. none) (asks_of (m ∷ ms)) s'.asks
        × Holds (λ q. none) (bids_of (m ∷ ms)) s'.bids
  replay s g m ms {s0} {s'} h accepts =
      let r = apply_snapshot-Restarted dec s g m h in
      let later = accepted s0 ms s' m.seq_id accepts (Restarted-IsValid dec s g m r) r.seq_id in
      (
        later.0 ∙ r.generation,
        later.1,
        λ q.
            later.2 q
            ∙ ap (written dec q (asks_of ms)) (snapshot-Holds m.asks r.asks q)
            ∙ sym (written-append q m.asks (asks_of ms) none),
        λ q.
            later.3 q
            ∙ ap (written dec q (bids_of ms)) (snapshot-Holds m.bids r.bids q)
            ∙ sym (written-append q m.bids (bids_of ms) none),
      )

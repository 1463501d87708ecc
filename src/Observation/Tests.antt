-- ===== src/Observation/Tests.antt =====
-- crates/okx-observation/src/order_book.rs: a snapshot and an update of it.
use Prim.Native.String.{String}
use native.Mathlib.Decide.{ℕ_discrete}
use okx.Prelude.{ℕ, ◌≡◌, ◌≢◌, refl, ◌⊎◌, none, some, [], ◌∷◌}
use okx.Prelude.Int.{ℤ, pos, negsuc}
use okx.Prelude.Samples.{decimals}
use okx.Observation.OrderBook.Defs.{
  BookLevelUpdate, OrderBookMessage, OrderBookState, contiguous, not_contiguous, sequence_gap,
  invalid_snapshot_prev_seq_id, ok, err, insert, remove, get, waiting, invalidate, decimal,
  apply_level, apply_levels, levels_from_snapshot, apply_snapshot, apply_update, snapshot,
}
use okx.Observation.OrderBook.Levels.{written}
use okx.Observation.OrderBook.Linkage.{
  Revoked, Refusal, IsValid, snapshots, updates, run, waiting-run-IsValid, apply_update-revokes,
  apply_snapshot-revokes,
}
use okx.Observation.OrderBook.Replay.{end, next, Linked, asks_of, bids_of, replay}

abbrev level : String → String → BookLevelUpdate
level price size = record { price = price; size = size; order_count = none }

abbrev first : OrderBookMessage
first = record {
  asks = level "2" "1" ∷ level "1" "2" ∷ [];
  bids = [];
  exchange_timestamp_ms = "1";
  seq_id = pos 10;
  prev_seq_id = negsuc 0;
}

abbrev second : OrderBookMessage
second = record {
  asks = level "2" "0" ∷ [];
  bids = level "1" "1" ∷ [];
  exchange_timestamp_ms = "2";
  seq_id = pos 11;
  prev_seq_id = pos 10;
}

abbrev start : OrderBookState decimals
start = waiting decimals 7

abbrev book : OrderBookState decimals
book = (apply_snapshot decimals start 7 first).0

abbrev book' : OrderBookState decimals
book' = (apply_update decimals book 7 second).0

snapshot_taken : apply_snapshot decimals start 7 first ≡ (book, ok tt)
unfolding waiting apply_snapshot levels_from_snapshot apply_levels apply_level decimal insert remove
snapshot_taken = refl

update_taken : apply_update decimals book 7 second ≡ (book', ok tt)
unfolding waiting apply_snapshot apply_update levels_from_snapshot apply_levels apply_level decimal
    insert remove
update_taken = refl

asks_published :
    (snapshot decimals book').asks ≡ record { price = "1"; size = "2"; order_count = none } ∷ []
unfolding waiting apply_snapshot apply_update levels_from_snapshot apply_levels apply_level decimal
    insert remove snapshot ℕ_discrete
asks_published = refl

gap :
    apply_update decimals book 7 first
    ≡ (invalidate decimals book, err (sequence_gap (pos 10) (negsuc 0)))
unfolding waiting apply_snapshot apply_update levels_from_snapshot apply_levels apply_level decimal
    insert remove
gap = refl

not_first :
    apply_snapshot decimals book 7 second
    ≡ (invalidate decimals book, err (invalid_snapshot_prev_seq_id (pos 10)))
unfolding apply_snapshot
not_first = refl

replay_example :
    (book'.generation ≡ 7)
    × ((n' : ℤ) × (book'.last_seq_id ≡ some n') × Linked decimals (pos 10) (second ∷ []) n')
    × ((q : ℕ)
        → get decimals q book'.asks
          ≡ written decimals q (asks_of decimals (first ∷ second ∷ [])) none)
    × ((q : ℕ)
        → get decimals q book'.bids
          ≡ written decimals q (bids_of decimals (first ∷ second ∷ [])) none)
replay_example =
    replay decimals start 7 first (second ∷ []) snapshot_taken (next 7 update_taken end)

waiting-run-IsValid_example :
    IsValid decimals (run decimals start (snapshots 7 first ∷ updates 7 second ∷ []))
waiting-run-IsValid_example =
    waiting-run-IsValid decimals 7 (snapshots 7 first ∷ updates 7 second ∷ [])

apply_update-revokes_example :
    Revoked decimals book (invalidate decimals book)
    ⊎ ((sequence_gap (pos 10) (negsuc 0) ≡ not_contiguous)
        × (invalidate decimals book ≡ book)
        × (7 ≡ book.generation)
        × ((book.status ≢ contiguous) ⊎ (book.last_seq_id ≡ none)))
apply_update-revokes_example = apply_update-revokes decimals book 7 first gap

apply_snapshot-revokes_example :
    Revoked decimals book (invalidate decimals book)
    × Refusal decimals second (invalid_snapshot_prev_seq_id (pos 10))
apply_snapshot-revokes_example = apply_snapshot-revokes decimals book 7 second not_first

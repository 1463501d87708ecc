-- ===== src/Observation/Reference/Registry.antt =====
-- crates/okx-observation/src/reference.rs: the registry, loaded once and updated from then on. The
-- digest of its instruments, SHA-256 over their JSON text, is a parameter; `none` is an error of
-- the writer.
use Prim.Native.String.{String}
use text.Mathlib.Text.{◌==◌ as str_eq}
use mathlib.Core.Logic.{ite}
use okx.Prelude.{
  Bool, true, false, ◌||◌, List, [], ◌∷◌, map, filter, Option, none, some, if◌then◌else◌,
}
use okx.Prelude.Maps.{String-discrete, has_key, insert_key}
use okx.Prelude.SortedMaps.{get, put, delete}
use okx.Prelude.Texts.{is_blank}
use okx.Prelude.Results.{Result, ok, err, ◌>>=◌, ◌>>◌, reject, ok_or}
use okx.Api.PublicData.{InstrumentType, swap, futures, PublicInstrument}
use okx.Observation.Reference.Types.{
  InstrumentSpec, InstrumentSpec-discrete, ReferenceRegistry, InstrumentRulesSnapshot,
  InstrumentSearchSnapshot, ReferenceError, empty_source_timestamp, duplicate_instrument,
  serialization,
}
use okx.Observation.Reference.Normalize.{
  require, is_preopen, is_incomplete_preopen_future_listing, try_from,
}

abbrev pub Instruments : Type 0
Instruments = List (String × InstrumentSpec)

unfoldable pub same_instruments : Instruments → Instruments → Bool
unfolding String-discrete InstrumentSpec-discrete
same_instruments xs ys = ite (discrete xs ys) true false
  where
    discrete : Discrete Instruments
    discrete = hlevel (String-discrete, InstrumentSpec-discrete)

-- The loop of `from_public`, with the ids seen so far.
unfoldable pub load :
    List PublicInstrument → List String → Instruments → Result ReferenceError Instruments
load [] seen normalized = ok normalized
load (instrument ∷ instruments) seen normalized =
    elim (is_incomplete_preopen_future_listing instrument) [
      | true ↦ load instruments seen normalized
      | false ↦ do
        instrument_id ← require instrument.instrument_id instrument.instrument_id "instId"
        reject (has_key String-discrete seen instrument_id) (duplicate_instrument instrument_id)
        let seen' = insert_key String-discrete instrument_id seen
        elim (is_preopen instrument) [
          | true ↦ load instruments seen' normalized
          | false ↦ try_from instrument >>= λ spec.
              load instruments seen' (put instrument_id spec normalized)
        ]
    ]

-- The loop of `apply_public_updates`: the new rules and the ids that go.
unfoldable pub stage :
    List PublicInstrument
    → List String
    → Instruments
    → List String
    → Result ReferenceError (Instruments × List String)
stage [] seen normalized preopen_ids = ok (normalized, preopen_ids)
stage (update ∷ updates) seen normalized preopen_ids =
    elim (is_incomplete_preopen_future_listing update) [
      | true ↦ stage updates seen normalized preopen_ids
      | false ↦ do
        instrument_id ← require update.instrument_id update.instrument_id "instId"
        reject (has_key String-discrete seen instrument_id) (duplicate_instrument instrument_id)
        let seen' = insert_key String-discrete instrument_id seen
        elim (is_preopen update) [
          | true ↦
              stage updates seen' normalized (insert_key String-discrete instrument_id preopen_ids)
          | false ↦ try_from update >>= λ spec.
              stage updates seen' (put instrument_id spec normalized) preopen_ids
        ]
    ]

unfoldable pub delete_all : List String → Instruments → Instruments
delete_all [] next = next
delete_all (instrument_id ∷ ids) next = delete_all ids (delete instrument_id next)

unfoldable pub put_all : Instruments → Instruments → Instruments
put_all [] next = next
put_all ((instrument_id, spec) ∷ specs) next = put_all specs (put instrument_id spec next)

unfoldable pub instrument_rules : ReferenceRegistry → String → Option InstrumentRulesSnapshot
instrument_rules registry instrument_id = elim (get instrument_id registry.instruments) [
  | none ↦ none
  | some instrument ↦ some (record {
    reference_generation = registry.generation;
    source_received_at = registry.source_received_at;
    instrument = instrument;
  })
]

abbrev is_some_of : Option String → String → Bool
is_some_of none asset = false
is_some_of (some s) asset = str_eq s asset

-- `settle_currency.is_none_or(...)`
abbrev settles : Option String → InstrumentSpec → Bool
settles none instrument = true
settles (some settle) instrument = is_some_of instrument.settle_currency settle

abbrev same_type : InstrumentType → InstrumentType → Bool
same_type swap swap = true
same_type futures futures = true
same_type _ _ = false

abbrev has_type : Option InstrumentType → InstrumentSpec → Bool
has_type none instrument = true
has_type (some expected) instrument = same_type instrument.instrument_type expected

unfoldable pub find_instruments :
    ReferenceRegistry → String → Option String → Option InstrumentType → InstrumentSearchSnapshot
find_instruments registry asset settle_currency instrument_type =
    let of_asset =
      filter
        (λ (i : InstrumentSpec).
          is_some_of i.base_currency asset || is_some_of i.contract_value_currency asset)
        (map (λ entry. entry.1) registry.instruments) in
    record {
      reference_generation = registry.generation;
      source_received_at = registry.source_received_at;
      asset = asset;
      settle_currency = settle_currency;
      instrument_type = instrument_type;
      instruments = filter (has_type instrument_type) (filter (settles settle_currency) of_asset);
    }

module _ (digest : Instruments → Option String) where
  unfoldable pub generation_for : Instruments → Result ReferenceError String
  generation_for instruments = ok_or (digest instruments) serialization

  unfoldable pub from_public :
      String → List PublicInstrument → Result ReferenceError ReferenceRegistry
  unfolding load generation_for
  from_public source_received_at instruments = do
    reject (is_blank source_received_at) empty_source_timestamp
    normalized ← load instruments [] []
    generation ← generation_for normalized
    ok (record {
      source_received_at = source_received_at;
      generation = generation;
      instruments = normalized;
    })

  -- The registry with the next instruments, if they differ, and whether they do.
  unfoldable pub renew :
      ReferenceRegistry → String → Instruments → Result ReferenceError (ReferenceRegistry × Bool)
  unfolding generation_for
  renew registry source_received_at next =
      if same_instruments next registry.instruments
      then ok (record registry { source_received_at = source_received_at }, false)
      else (generation_for next >>= λ generation. ok (
        record {
          source_received_at = source_received_at;
          generation = generation;
          instruments = next;
        },
        true,
      ))

  -- An error leaves the registry as it is.
  unfoldable pub keep :
      ReferenceRegistry
      → Result ReferenceError (ReferenceRegistry × Bool)
      → ReferenceRegistry × Result ReferenceError Bool
  keep registry (ok (registry', changed)) = (registry', ok changed)
  keep registry (err e) = (registry, err e)

  -- The registry after the updates, and whether it changed.
  unfoldable pub updated :
      ReferenceRegistry
      → String
      → List PublicInstrument
      → Result ReferenceError (ReferenceRegistry × Bool)
  unfolding stage delete_all put_all renew
  updated registry source_received_at updates = do
    reject (is_blank source_received_at) empty_source_timestamp
    (normalized, preopen_ids) ← stage updates [] [] []
    renew registry source_received_at
        (put_all normalized (delete_all preopen_ids registry.instruments))

  unfoldable pub apply_public_updates :
      ReferenceRegistry
      → String
      → List PublicInstrument
      → ReferenceRegistry × Result ReferenceError Bool
  unfolding updated keep
  apply_public_updates registry source_received_at updates =
      keep registry (updated registry source_received_at updates)

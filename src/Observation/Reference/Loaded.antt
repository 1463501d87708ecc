-- ===== src/Observation/Reference/Loaded.antt =====
-- crates/okx-observation/src/reference.rs: what holds of every registry.
use Prim.Native.String.{String}
use okx.Prelude.{
  ◌≡◌, refl, sym, ◌∙◌, ap, subst, Bool, true, false, List, [], ◌∷◌, Option, some, All, arith,
  Bool-cases, inl, inr,
}
use okx.Prelude.Maps.{String-discrete, insert_key}
use okx.Prelude.SortedMaps.{
  put, delete, Distinct, put-Distinct, put-All, delete-Distinct, delete-All,
}
use okx.Prelude.Texts.{is_blank}
use okx.Prelude.Results.{Result, ok, err, ◌>>=◌, bind-ok, ok_inj, reject}
use okx.Api.PublicData.{PublicInstrument}
use okx.Observation.Reference.Types.{InstrumentSpec, ReferenceRegistry, ReferenceError}
use okx.Observation.Reference.Normalize.{
  require, funding_requirement, normalize_upcoming_changes, is_preopen,
  is_incomplete_preopen_future_listing, instrument_type_of, try_from,
}
use okx.Observation.Reference.Registry.{
  Instruments, load, stage, delete_all, put_all, generation_for, from_public, same_instruments,
  renew, keep, updated, apply_public_updates,
}

-- The rules that a registry holds of an instrument.
pub record IsSpec (spec : InstrumentSpec) : Type 0 where
  pub named : is_blank spec.instrument_id ≡ false
  pub stated : is_blank spec.state ≡ false
  pub ticked : is_blank spec.tick_size ≡ false
  pub lotted : is_blank spec.lot_size ≡ false
  pub sized : is_blank spec.min_size ≡ false
  pub funded : spec.funding_requirement ≡ funding_requirement spec.instrument_type spec.rule_type

abbrev pub IsEntry : String × InstrumentSpec → Type 0
IsEntry entry = (entry.1.instrument_id ≡ entry.0) × IsSpec entry.1

require-ok :
    (id value field : String) {v : String}
    → require id value field ≡ ok v
    → (v ≡ value) × (is_blank value ≡ false)
unfolding require
require-ok id value field h = ground arith

pub try_from-IsSpec :
    (value : PublicInstrument) {spec : InstrumentSpec}
    → try_from value ≡ ok spec
    → (spec.instrument_id ≡ value.instrument_id) × IsSpec spec
unfolding try_from
try_from-IsSpec value {spec} h =
    let (id, a, h1) = bind-ok (require value.instrument_id value.instrument_id "instId") _ h in
    let (type, b, h2) = bind-ok (instrument_type_of value.instrument_type) _ h1 in
    let (changes, c, h3) =
      bind-ok (normalize_upcoming_changes id value.upcoming_parameter_changes) _ h2 in
    let (state, d, h4) = bind-ok (require value.instrument_id value.state "state") _ h3 in
    let (tick, e, h5) = bind-ok (require value.instrument_id value.tick_size "tickSz") _ h4 in
    let (lot, f, h6) = bind-ok (require value.instrument_id value.lot_size "lotSz") _ h5 in
    let (size, g, h7) = bind-ok (require value.instrument_id value.min_size "minSz") _ h6 in
    let named = require-ok value.instrument_id value.instrument_id "instId" a in
    let stated = require-ok value.instrument_id value.state "state" d in
    let ticked = require-ok value.instrument_id value.tick_size "tickSz" e in
    let lotted = require-ok value.instrument_id value.lot_size "lotSz" f in
    let sized = require-ok value.instrument_id value.min_size "minSz" g in
    subst (λ (s : InstrumentSpec). (s.instrument_id ≡ value.instrument_id) × IsSpec s) (ok_inj h7)
      (
        named.0,
        record {
          named = ap is_blank named.0 ∙ named.1;
          stated = ap is_blank stated.0 ∙ stated.1;
          ticked = ap is_blank ticked.0 ∙ ticked.1;
          lotted = ap is_blank lotted.0 ∙ lotted.1;
          sized = ap is_blank sized.0 ∙ sized.1;
          funded = refl;
        },
      )

load_entries :
    (instruments : List PublicInstrument) (seen : List String) (normalized : Instruments)
    {loaded : Instruments}
    → load instruments seen normalized ≡ ok loaded
    → Distinct normalized
    → All IsEntry normalized
    → Distinct loaded × All IsEntry loaded
unfolding load require
load_entries [] seen normalized h d a =
    (subst Distinct (ok_inj h) d, subst (All IsEntry) (ok_inj h) a)
load_entries (i ∷ instruments) seen normalized {loaded} h d a =
    elim (Bool-cases (is_incomplete_preopen_future_listing i)) [
      | inl skip ↦ load_entries instruments seen normalized (ground (arith, skip)) d a
      | inr listed ↦ elim (Bool-cases (is_preopen i)) [
        | inl waits ↦
            load_entries instruments (insert_key String-discrete i.instrument_id seen) normalized
              (ground (arith, listed, waits)) d a
        | inr opens ↦
            let (spec, e) : (spec : InstrumentSpec) × (try_from i ≡ ok spec) =
              ground (arith, listed, opens) in
            let t = try_from-IsSpec i e in
            load_entries instruments (insert_key String-discrete i.instrument_id seen)
              (put i.instrument_id spec normalized) (ground (arith, listed, opens, e))
              (put-Distinct i.instrument_id spec normalized d)
              (put-All IsEntry i.instrument_id spec normalized (t.0, t.1) a)
      ]
    ]

pub stage_entries :
    (updates : List PublicInstrument) (seen : List String) (normalized : Instruments)
    (preopen_ids : List String) {staged : Instruments × List String}
    → stage updates seen normalized preopen_ids ≡ ok staged
    → Distinct normalized
    → All IsEntry normalized
    → Distinct staged.0 × All IsEntry staged.0
unfolding stage require
stage_entries [] seen normalized preopen_ids h d a =
    subst (λ (s : Instruments × List String). Distinct s.0 × All IsEntry s.0) (ok_inj h) (d, a)
stage_entries (i ∷ updates) seen normalized preopen_ids {staged} h d a =
    let seen' = insert_key String-discrete i.instrument_id seen in
    elim (Bool-cases (is_incomplete_preopen_future_listing i)) [
      | inl skip ↦
          stage_entries updates seen normalized preopen_ids {staged = staged} (ground (arith, skip))
            d a
      | inr listed ↦ elim (Bool-cases (is_preopen i)) [
        | inl waits ↦
            stage_entries updates seen' normalized
              (insert_key String-discrete i.instrument_id preopen_ids) {staged = staged}
              (ground (arith, listed, waits)) d a
        | inr opens ↦
            let (spec, e) : (spec : InstrumentSpec) × (try_from i ≡ ok spec) =
              ground (arith, listed, opens) in
            let t = try_from-IsSpec i e in
            stage_entries updates seen' (put i.instrument_id spec normalized) preopen_ids
              {staged = staged} (ground (arith, listed, opens, e))
              (put-Distinct i.instrument_id spec normalized d)
              (put-All IsEntry i.instrument_id spec normalized (t.0, t.1) a)
      ]
    ]

pub delete_all-entries :
    (ids : List String) (m : Instruments)
    → Distinct m
    → All IsEntry m
    → Distinct (delete_all ids m) × All IsEntry (delete_all ids m)
unfolding delete_all
delete_all-entries [] m d a = (d, a)
delete_all-entries (id ∷ ids) m d a =
    delete_all-entries ids (delete id m) (delete-Distinct id m d) (delete-All IsEntry id m a)

put_all-entries :
    (specs m : Instruments)
    → Distinct m
    → All IsEntry m
    → All IsEntry specs
    → Distinct (put_all specs m) × All IsEntry (put_all specs m)
unfolding put_all
put_all-entries [] m d a b = (d, a)
put_all-entries ((id, spec) ∷ specs) m d a b =
    put_all-entries specs (put id spec m) (put-Distinct id spec m d)
      (put-All IsEntry id spec m b.0 a) b.1

module _ (digest : Instruments → Option String) where
  -- A registry has each instrument once, under its own id and with rules that were checked, and its
  -- generation is the digest of its instruments.
  pub record IsRegistry (registry : ReferenceRegistry) : Type 0 where
    pub distinct : Distinct registry.instruments
    pub entries : All IsEntry registry.instruments
    pub generation : digest registry.instruments ≡ some registry.generation

  generation_for-ok :
      (m : Instruments) {g : String} → generation_for digest m ≡ ok g → digest m ≡ some g
  unfolding generation_for
  generation_for-ok m h = ground arith

  pub from_public-IsRegistry :
      (at : String) (instruments : List PublicInstrument) {registry : ReferenceRegistry}
      → from_public digest at instruments ≡ ok registry
      → IsRegistry registry
  unfolding from_public
  from_public-IsRegistry at instruments {registry} h =
      let (_, _, h1) = bind-ok (reject (is_blank at) _) _ h in
      let (m, l, h2) = bind-ok (load instruments [] []) _ h1 in
      let (g, e, h3) = bind-ok (generation_for digest m) _ h2 in
      let (d, a) = load_entries instruments [] [] l tt tt in
      subst IsRegistry (ok_inj h3)
        (record { distinct = d; entries = a; generation = generation_for-ok m e })

  renew-IsRegistry :
      (registry : ReferenceRegistry) (at : String) (next : Instruments)
      {result : ReferenceRegistry × Bool}
      → renew digest registry at next ≡ ok result
      → IsRegistry registry
      → Distinct next
      → All IsEntry next
      → IsRegistry result.0
  unfolding renew
  renew-IsRegistry registry at next {result} h r d a =
      elim (Bool-cases (same_instruments next registry.instruments)) [
        | inl same ↦
            let kept : renew digest registry at next
                ≡ ok (record registry { source_received_at = at }, false) =
              ground (arith, same) in
            subst (λ (x : ReferenceRegistry × Bool). IsRegistry x.0) (ok_inj (sym kept ∙ h))
              (record { distinct = r.distinct; entries = r.entries; generation = r.generation })
        | inr other ↦
            let made : String → ReferenceRegistry × Bool =
              λ g. (record { source_received_at = at; generation = g; instruments = next }, true) in
            let renewed : renew digest registry at next
                ≡ (generation_for digest next >>= λ g. ok (made g)) =
              ground (arith, other) in
            let (g, e, h1) =
              bind-ok (generation_for digest next) (λ g. ok (made g)) (sym renewed ∙ h) in
            subst (λ (x : ReferenceRegistry × Bool). IsRegistry x.0) (ok_inj h1)
              (record { distinct = d; entries = a; generation = generation_for-ok next e })
      ]

  keep-IsRegistry :
      (registry : ReferenceRegistry) (result : Result ReferenceError (ReferenceRegistry × Bool))
      → ((x : ReferenceRegistry × Bool) → result ≡ ok x → IsRegistry x.0)
      → IsRegistry registry
      → IsRegistry (keep digest registry result).0
  unfolding keep
  keep-IsRegistry registry (ok x) h r = h x refl
  keep-IsRegistry registry (err e) h r = r

  updated-IsRegistry :
      (registry : ReferenceRegistry) (at : String) (updates : List PublicInstrument)
      (x : ReferenceRegistry × Bool)
      → updated digest registry at updates ≡ ok x
      → IsRegistry registry
      → IsRegistry x.0
  unfolding updated
  updated-IsRegistry registry at updates x h r =
      let (_, _, h1) = bind-ok (reject (is_blank at) _) _ h in
      let (staged, s, h2) = bind-ok (stage updates [] [] []) _ h1 in
      let (_, b) = stage_entries updates [] [] [] s tt tt in
      let (d, a) = delete_all-entries staged.1 registry.instruments r.distinct r.entries in
      let next = put_all staged.0 (delete_all staged.1 registry.instruments) in
      let (d', a') = put_all-entries staged.0 (delete_all staged.1 registry.instruments) d a b in
      renew-IsRegistry registry at next h2 r d' a'

  -- Whatever updates come, and whether they are accepted or not: a registry keeps each instrument
  -- once, under its own id, with its required fields, and its generation is the digest of its
  -- instruments.
  pub apply_public_updates-IsRegistry :
      (registry : ReferenceRegistry) (at : String) (updates : List PublicInstrument)
      → IsRegistry registry
      → IsRegistry (apply_public_updates digest registry at updates).0
  unfolding apply_public_updates
  apply_public_updates-IsRegistry registry at updates r =
      keep-IsRegistry registry (updated digest registry at updates)
        (λ x h. updated-IsRegistry registry at updates x h r) r

-- ===== src/Observation/Reference/Updates.antt =====
-- crates/okx-observation/src/reference.rs: what updates make of the rules of each instrument.
use Prim.Native.String.{String}
use mathlib.Core.Logic.{ite}
use okx.Prelude.{
  ◌≡◌, ◌≢◌, refl, sym, ◌∙◌, ap, Bool, true, false, List, [], ◌∷◌, Option, none, some, arith,
  Bool-cases, inl, inr, if◌then◌else◌,
}
use okx.Prelude.Maps.{String-discrete, has_key, insert_key, has_key-insert_key}
use okx.Prelude.SortedMaps.{get, put, delete, Distinct, get-put, get-delete, delete-Distinct}
use okx.Prelude.Texts.{is_blank}
use okx.Prelude.Results.{Result, ok, err, bind-ok, ok_inj, reject}
use okx.Api.PublicData.{PublicInstrument}
use okx.Observation.Reference.Types.{InstrumentSpec, ReferenceRegistry, ReferenceError}
use okx.Observation.Reference.Normalize.{
  require, is_preopen, is_incomplete_preopen_future_listing, try_from,
}
use okx.Observation.Reference.Registry.{
  Instruments, same_instruments, generation_for, stage, delete_all, put_all, renew, keep, updated,
  apply_public_updates,
}
use okx.Observation.Reference.Loaded.{stage_entries}

-- What an update says of an instrument: none where it is not open yet.
abbrev pub stated : PublicInstrument → Option InstrumentSpec
stated update = elim (is_preopen update) [
  | true ↦ none
  | false ↦ elim (try_from update) [ ok spec ↦ some spec | err e ↦ none ]
]

-- The rules of `id` after updates: what the first that names it says, or else the old ones.
abbrev pub told : String → List PublicInstrument → Option InstrumentSpec → Option InstrumentSpec
told id [] old = old
told id (update ∷ updates) old =
    let rest = told id updates old in
    elim (is_incomplete_preopen_future_listing update) [
      | true ↦ rest
      | false ↦ ite (String-discrete id update.instrument_id) (stated update) rest
    ]

-- What the staged rules and ids make of the old rules of `id`.
abbrev after : String → Instruments × List String → Option InstrumentSpec → Option InstrumentSpec
after id (specs, ids) old = elim (get id specs) [
  | some spec ↦ some spec
  | none ↦ if has_key String-discrete ids id then none else old
]

get-delete_all :
    (q : String) (ids : List String) (m : Instruments)
    → Distinct m
    → get q (delete_all ids m) ≡ (if has_key String-discrete ids q then none else get q m)
unfolding delete_all
get-delete_all q [] m d = refl
get-delete_all q (id ∷ ids) m d =
    ground (arith, get-delete_all q ids (delete id m) (delete-Distinct id m d), get-delete q id m d)

get-put_all :
    (q : String) (specs m : Instruments)
    → Distinct specs
    → get q (put_all specs m) ≡ elim (get q specs) [ some spec ↦ some spec | none ↦ get q m ]
unfolding put_all get
get-put_all q [] m d = refl
get-put_all q ((id, spec) ∷ specs) m d =
    ground (arith, get-put_all q specs (put id spec m) d.1, get-put q id spec m, d.0)

-- An id that was seen already keeps what was said of it.
stage_seen :
    (q : String) (old : Option InstrumentSpec) (updates : List PublicInstrument)
    (seen : List String) (normalized : Instruments) (ids : List String)
    {staged : Instruments × List String}
    → stage updates seen normalized ids ≡ ok staged
    → has_key String-discrete seen q ≡ true
    → after q staged old ≡ after q (normalized, ids) old
unfolding stage require
stage_seen q old [] seen normalized ids h k =
    ap (λ (s : Instruments × List String). after q s old) (sym (ok_inj h))
stage_seen q old (i ∷ updates) seen normalized ids {staged} h k =
    let id = i.instrument_id in
    let seen' = insert_key String-discrete id seen in
    let ids' = insert_key String-discrete id ids in
    let held = has_key-insert_key String-discrete id q seen in
    elim (Bool-cases (is_incomplete_preopen_future_listing i)) [
      | inl skip ↦
          stage_seen q old updates seen normalized ids {staged = staged} (ground (arith, skip)) k
      | inr listed ↦
          let new : has_key String-discrete seen id ≡ false = ground (arith, listed) in
          let other : q ≢ id = λ e. cc (k, new, ap (has_key String-discrete seen) e) in
          elim (Bool-cases (is_preopen i)) [
            | inl waits ↦
                stage_seen q old updates seen' normalized ids' {staged = staged}
                  (ground (arith, listed, waits)) (ground (arith, held, k))
                ∙ ground (arith, other, has_key-insert_key String-discrete id q ids)
            | inr opens ↦
                let (spec, e) : (spec : InstrumentSpec) × (try_from i ≡ ok spec) =
                  ground (arith, listed, opens) in
                stage_seen q old updates seen' (put id spec normalized) ids {staged = staged}
                  (ground (arith, listed, opens, e)) (ground (arith, held, k))
                ∙ ground (arith, other, get-put q id spec normalized)
          ]
    ]

-- An id that was not seen yet has what the updates say of it.
stage_new :
    (q : String) (old : Option InstrumentSpec) (updates : List PublicInstrument)
    (seen : List String) (normalized : Instruments) (ids : List String)
    {staged : Instruments × List String}
    → stage updates seen normalized ids ≡ ok staged
    → has_key String-discrete seen q ≡ false
    → get q normalized ≡ none
    → has_key String-discrete ids q ≡ false
    → after q staged old ≡ told q updates old
unfolding stage require
stage_new q old [] seen normalized ids h k g d =
    ap (λ (s : Instruments × List String). after q s old) (sym (ok_inj h)) ∙ ground (arith, g, d)
stage_new q old (i ∷ updates) seen normalized ids {staged} h k g d =
    let id = i.instrument_id in
    let seen' = insert_key String-discrete id seen in
    let ids' = insert_key String-discrete id ids in
    let held = has_key-insert_key String-discrete id q seen in
    let gone = has_key-insert_key String-discrete id q ids in
    elim (Bool-cases (is_incomplete_preopen_future_listing i)) [
      | inl skip ↦
          stage_new q old updates seen normalized ids {staged = staged} (ground (arith, skip)) k g d
          ∙ ground (arith, skip)
      | inr listed ↦ elim (Bool-cases (is_preopen i)) [
        | inl waits ↦
            let h' : stage updates seen' normalized ids' ≡ ok staged =
              ground (arith, listed, waits) in
            elim (String-discrete q id) [
              | yes e ↦
                  stage_seen q old updates seen' normalized ids' {staged = staged} h'
                    (ground (arith, held, e))
                  ∙ ground (arith, e, g, gone, listed, waits)
              | no n ↦
                  stage_new q old updates seen' normalized ids' {staged = staged} h'
                    (ground (arith, held, n, k)) g (ground (arith, gone, n, d))
                  ∙ ground (arith, n, listed)
            ]
        | inr opens ↦
            let (spec, t) : (spec : InstrumentSpec) × (try_from i ≡ ok spec) =
              ground (arith, listed, opens) in
            let next = put id spec normalized in
            let placed = get-put q id spec normalized in
            let h' : stage updates seen' next ids ≡ ok staged = ground (arith, listed, opens, t) in
            elim (String-discrete q id) [
              | yes e ↦
                  stage_seen q old updates seen' next ids {staged = staged} h'
                    (ground (arith, held, e))
                  ∙ ground (arith, e, placed, listed, opens, t)
              | no n ↦
                  stage_new q old updates seen' next ids {staged = staged} h'
                    (ground (arith, held, n, k)) (ground (arith, placed, n, g)) d
                  ∙ ground (arith, n, listed)
            ]
      ]
    ]

same_instruments_sound : (a b : Instruments) → same_instruments a b ≡ true → a ≡ b
unfolding same_instruments
same_instruments_sound a b h = ground arith

module _ (digest : Instruments → Option String) where
  renew-instruments :
      (registry : ReferenceRegistry) (at : String) (next : Instruments)
      {result : ReferenceRegistry × Bool}
      → renew digest registry at next ≡ ok result
      → result.0.instruments ≡ next
  unfolding renew generation_for
  renew-instruments registry at next {result} h =
      elim (Bool-cases (same_instruments next registry.instruments)) [
        | inl same ↦ ground (arith, same_instruments_sound next registry.instruments same)
        | inr other ↦ ground (arith, other)
      ]

  updated-told :
      (registry : ReferenceRegistry) (at : String) (updates : List PublicInstrument)
      {result : ReferenceRegistry × Bool} (q : String)
      → Distinct registry.instruments
      → updated digest registry at updates ≡ ok result
      → get q result.0.instruments ≡ told q updates (get q registry.instruments)
  unfolding updated get
  updated-told registry at updates {result} q d h =
      let (_, _, h1) = bind-ok (reject (is_blank at) _) _ h in
      let (staged, s, h2) = bind-ok (stage updates [] [] []) _ h1 in
      let old = registry.instruments in
      let placed : get q result.0.instruments ≡ after q staged (get q old) = ground (
        arith,
        renew-instruments registry at (put_all staged.0 (delete_all staged.1 old)) h2,
        get-put_all q staged.0 (delete_all staged.1 old)
            (stage_entries updates [] [] [] {staged = staged} s tt tt).0,
        get-delete_all q staged.1 old d,
      ) in
      placed ∙ stage_new q (get q old) updates [] [] [] {staged = staged} s refl refl refl

  keep-ok :
      (registry : ReferenceRegistry) (result : Result ReferenceError (ReferenceRegistry × Bool))
      {registry' : ReferenceRegistry} {changed : Bool}
      → keep digest registry result ≡ (registry', ok changed)
      → result ≡ ok (registry', changed)
  unfolding keep
  keep-ok registry (ok x) h = cc h
  keep-ok registry (err e) h = cc h

  -- When updates are accepted, then each instrument has afterwards the rules of the first update
  -- that names it, none if that update lists it as not open yet, and its old rules if no update
  -- names it; the registry had each instrument once.
  pub apply_public_updates-told :
      (registry : ReferenceRegistry) (at : String) (updates : List PublicInstrument)
      {registry' : ReferenceRegistry} {changed : Bool} (q : String)
      → Distinct registry.instruments
      → apply_public_updates digest registry at updates ≡ (registry', ok changed)
      → get q registry'.instruments ≡ told q updates (get q registry.instruments)
  unfolding apply_public_updates
  apply_public_updates-told registry at updates {registry'} {changed} q d h =
      updated-told registry at updates q d (keep-ok registry (updated digest registry at updates) h)

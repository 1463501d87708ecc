-- ===== src/Observation/Reference/Tests.antt =====
-- crates/okx-observation/src/reference.rs: a registry of one instrument and an update of it.
use Prim.Native.String.{String}
use okx.Prelude.{◌≡◌, refl, true, Option, some, [], ◌∷◌}
use okx.Prelude.Maps.{String-discrete}
use okx.Prelude.SortedMaps.{get, put, delete}
use okx.Prelude.Texts.{trim_start, trim_end, trim, is_blank}
use okx.Prelude.Results.{ok, err}
use okx.Api.PublicData.{PublicInstrument}
use okx.Observation.Reference.Types.{ReferenceRegistry, InstrumentSpec-discrete}
use okx.Observation.Reference.Normalize.{
  require, optional, is_preopen, is_incomplete_preopen_future_listing, funding_requirement,
  normalize_upcoming_changes, try_from,
}
use okx.Observation.Reference.Registry.{
  Instruments, same_instruments, load, stage, delete_all, put_all, generation_for, from_public,
  renew, keep, updated, apply_public_updates,
}
use okx.Observation.Reference.Loaded.{
  IsRegistry, from_public-IsRegistry, apply_public_updates-IsRegistry,
}
use okx.Observation.Reference.Updates.{told, apply_public_updates-told}

abbrev pub swap_d : PublicInstrument
swap_d = record {
  instrument_type = "SWAP";
  instrument_id = "D";
  instrument_family = "";
  underlying = "DU";
  state = "live";
  rule_type = "normal";
  base_currency = "";
  quote_currency = "";
  settle_currency = "USDT";
  tick_size = "1";
  lot_size = "1";
  min_size = "1";
  max_limit_size = "";
  max_market_size = "";
  max_limit_amount = "";
  max_market_amount = "";
  contract_type = "";
  contract_value = "";
  contract_value_currency = "";
  fee_group_id = "";
  lever = "";
  list_time = "";
  expiry_time = "";
  initial_price_limit_pct = "";
  floating_price_limit_pct = "";
  maximum_price_limit_pct = "";
  upcoming_parameter_changes = [];
}

-- The same instrument, suspended.
abbrev suspended_d : PublicInstrument
suspended_d = record swap_d { state = "suspend" }

abbrev digest : Instruments → Option String
digest m = some "g"

abbrev pub registry : ReferenceRegistry
registry = elim (from_public digest "1" (swap_d ∷ [])) [
  | ok r ↦ r
  | err e ↦ record { source_received_at = ""; generation = ""; instruments = [] }
]

registry_loaded : from_public digest "1" (swap_d ∷ []) ≡ ok registry
unfolding from_public load generation_for is_incomplete_preopen_future_listing is_preopen require
    try_from normalize_upcoming_changes put get trim trim_start trim_end is_blank optional
    funding_requirement
registry_loaded = refl

apply_public_updates-IsRegistry_example :
    IsRegistry digest (apply_public_updates digest registry "2" (suspended_d ∷ [])).0
apply_public_updates-IsRegistry_example =
    apply_public_updates-IsRegistry digest registry "2" (suspended_d ∷ [])
      (from_public-IsRegistry digest "1" (swap_d ∷ []) registry_loaded)

abbrev next : ReferenceRegistry
next = (apply_public_updates digest registry "2" (suspended_d ∷ [])).0

updates_taken : apply_public_updates digest registry "2" (suspended_d ∷ []) ≡ (next, ok true)
unfolding from_public load generation_for is_incomplete_preopen_future_listing is_preopen require
    try_from normalize_upcoming_changes put get trim trim_start trim_end is_blank optional
    funding_requirement apply_public_updates updated stage delete_all put_all renew keep
    same_instruments InstrumentSpec-discrete String-discrete delete
updates_taken = refl

apply_public_updates-told_example :
    get "D" next.instruments ≡ told "D" (suspended_d ∷ []) (get "D" registry.instruments)
apply_public_updates-told_example =
    apply_public_updates-told digest registry "2" (suspended_d ∷ []) "D"
      (from_public-IsRegistry digest "1" (swap_d ∷ []) registry_loaded).distinct updates_taken

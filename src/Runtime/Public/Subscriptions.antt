-- ===== src/Runtime/Public/Subscriptions.antt =====
-- crates/okx-runtime/src/public/subscriptions.rs: which subscriptions an instrument requires. A set
-- of subscriptions is a list with none of them twice.
use Prim.Native.String.{String}
use okx.Prelude.{List, [], ◌∷◌}
use okx.Prelude.Maps.{insert_key}
use okx.Prelude.SortedMaps.{get}
use okx.Prelude.Results.{Result, ok, err, ◌>>=◌, ok_or}
use okx.Observation.Reference.Types.{
  FundingRequirement, required, not_applicable, unknown, ReferenceRegistry,
}
use okx.Observation.Market.Snapshot.{not_blank}
use okx.Runtime.Public.Types.{
  instruments, tickers, mark_price, index_tickers, funding_rate, open_interest, books, WsArg,
  Subscription, Subscription-discrete, for_instrument, for_type, PublicRuntimeError,
  instrument_not_found, missing_underlying, unknown_funding_semantics,
}

unfoldable pub baseline_subscriptions : List Subscription
baseline_subscriptions = for_type instruments "SWAP" ∷ for_type instruments "FUTURES" ∷ []

-- The five subscriptions that every instrument requires.
abbrev pub market_subscriptions : String → String → List Subscription
market_subscriptions instrument_id underlying =
    for_instrument tickers instrument_id
    ∷ for_instrument mark_price instrument_id
    ∷ for_instrument index_tickers underlying
    ∷ for_instrument open_interest instrument_id
    ∷ for_instrument books instrument_id
    ∷ []

abbrev pub with_funding_rate :
    FundingRequirement → String → List Subscription → Result PublicRuntimeError (List Subscription)
with_funding_rate required instrument_id subscriptions =
    ok (for_instrument funding_rate instrument_id ∷ subscriptions)
with_funding_rate not_applicable instrument_id subscriptions = ok subscriptions
with_funding_rate unknown instrument_id subscriptions =
    err (unknown_funding_semantics instrument_id)

unfoldable pub required_subscriptions :
    ReferenceRegistry → String → Result PublicRuntimeError (List Subscription)
required_subscriptions reference instrument_id = do
  instrument ← ok_or (get instrument_id reference.instruments) (instrument_not_found instrument_id)
  underlying ← ok_or (not_blank instrument.underlying) (missing_underlying instrument_id)
  with_funding_rate instrument.funding_requirement instrument_id
      (market_subscriptions instrument_id underlying)

-- `set.extend(subscriptions)`
unfoldable pub extend : List Subscription → List Subscription → List Subscription
extend [] desired = desired
extend (subscription ∷ subscriptions) desired =
    extend subscriptions (insert_key Subscription-discrete subscription desired)

-- The loop of `desired_subscriptions`.
unfoldable pub desire : ReferenceRegistry → List String → List Subscription → List Subscription
unfolding extend required_subscriptions
desire reference [] desired = desired
desire reference (instrument_id ∷ demands) desired =
    elim (required_subscriptions reference instrument_id) [
      | ok wanted ↦ desire reference demands (extend wanted desired)
      | err _ ↦ desire reference demands desired
    ]

unfoldable pub desired_subscriptions : ReferenceRegistry → List String → List Subscription
unfolding desire baseline_subscriptions
desired_subscriptions reference demands = desire reference demands baseline_subscriptions

unfoldable pub subscription_from_arg : WsArg → Subscription
subscription_from_arg arg = record {
  channel = arg.channel;
  instrument_type = arg.instrument_type;
  instrument_family = arg.instrument_family;
  instrument_id = arg.instrument_id;
}

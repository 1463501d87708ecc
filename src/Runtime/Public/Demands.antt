-- ===== src/Runtime/Public/Demands.antt =====
-- crates/okx-runtime/src/public/coordinator.rs: the working set of markets that are asked for.
use Prim.Native.String.{String}
use okx.Prelude.{
  ℕ, true, false, List, [], ◌∷◌, ◌++◌, Option, none, some, length, leb, if◌then◌else◌,
}
use okx.Prelude.Maps.{String-discrete, insert_key, remove_key}
pub mod WorkingSet
pub mod Tests

abbrev pub max_active_markets : ℕ
max_active_markets = 12

-- The oldest demand goes; that there is none is a panic, which cannot happen.
abbrev pub evict : List String → List String → List String × List String × Option String
evict demands [] = (demands, [], none)
evict demands (evicted ∷ recency) =
    (remove_key String-discrete evicted demands, recency, some evicted)

-- The demands, their order and the demand that was given up.
unfoldable pub touch_demand :
    List String → List String → String → List String × List String × Option String
touch_demand demands recency instrument_id =
    let demands' = insert_key String-discrete instrument_id demands in
    let recency' = remove_key String-discrete instrument_id recency ++ (instrument_id ∷ []) in
    if leb (length recency') max_active_markets
    then (demands', recency', none)
    else evict demands' recency'

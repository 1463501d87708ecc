-- ===== src/Runtime/Public/Demands/Tests.antt =====
-- crates/okx-runtime/src/public/coordinator.rs: a working set.
use Prim.Native.String.{String}
use okx.Prelude.{List, [], ◌∷◌, some, true, ◌≡◌, refl}
use okx.Prelude.Maps.{String-discrete, has_key}
use okx.Runtime.Public.Demands.{touch_demand}
use okx.Runtime.Public.Demands.WorkingSet.{IsWorkingSet, run, touches-IsWorkingSet}

-- Twelve markets, the first of them asked for again.
abbrev ids : List String
ids = "a" ∷ "b" ∷ "c" ∷ "d" ∷ "e" ∷ "f" ∷ "g" ∷ "h" ∷ "i" ∷ "j" ∷ "k" ∷ "l" ∷ "a" ∷ []

-- The thirteenth market takes the place of b.
b_goes : (touch_demand (run ([], []) ids).0 (run ([], []) ids).1 "m").2 ≡ some "b"
unfolding touch_demand String-discrete
b_goes = refl

touches-IsWorkingSet_example :
    IsWorkingSet (run ([], []) ids).0 (run ([], []) ids).1
    × (has_key String-discrete (touch_demand (run ([], []) ids).0 (run ([], []) ids).1 "m").0 "m"
        ≡ true)
touches-IsWorkingSet_example = touches-IsWorkingSet ids "m"

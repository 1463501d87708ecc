-- ===== src/Prelude/Sets.antt =====
-- Sets of numbers (`BTreeSet<u64>`), where only membership and size are observed.
use Prim.Native.Nat.{ℕ}
use mathlib.Core.Path.{◌≡◌, refl}
use mathlib.Core.Bool.{Bool, true, false, ◌||◌}
use mathlib.Core.List.{List, [], ◌∷◌}
use native.Mathlib.Omega.{arith}
use okx.Prelude.Tests.{◌==◌, if◌then◌else◌}
use okx.Prelude.Lists.{count}

abbrev pub contains : List ℕ → ℕ → Bool
contains [] a = false
contains (x ∷ xs) a = x == a || contains xs a

-- `insert` tells whether the element is new.
abbrev pub insert : ℕ → List ℕ → List ℕ × Bool
insert a xs = if contains xs a then (xs, false) else (a ∷ xs, true)

pub contains-count :
    (xs : List ℕ) (a : ℕ) → contains xs a ≡ (if count a xs == 0 then false else true)
contains-count [] a = refl
contains-count (x ∷ xs) a = ground (arith, contains-count xs a)

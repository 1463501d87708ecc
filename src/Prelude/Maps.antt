-- ===== src/Prelude/Maps.antt =====
-- Maps (`BTreeMap`) as association lists with one entry for a key, and equality of texts.
use Prim.Native.String.{String}
use mathlib.Core.Path.{◌≡◌, refl}
use mathlib.Core.Logic.{ite}
use mathlib.Core.Bool.{Bool, true, false}
use mathlib.Core.Option.{Option, none, some}
use mathlib.Core.List.{List, [], ◌∷◌}
use native.Mathlib.Omega.{arith}
use text.Mathlib.Text.{◌==◌ as str_eq}
use text.Mathlib.TextEquality.{eq_iff}

String_decision : (s t : String) (b : Bool) → str_eq s t ≡ b → Dec (s ≡ t)
String_decision s t true e = yes ((eq_iff s t).0 e)
String_decision s t false e = no (λ p. cc ((eq_iff s t).1 p))

unfoldable pub String-discrete : Discrete String
unfolding String_decision
String-discrete s t = String_decision s t (str_eq s t) refl

module _ {ℓ} {K V : Type ℓ} (dec : Discrete K) where
  -- `map.get(key)`
  abbrev pub lookup : K → List (K × V) → Option V
  lookup k [] = none
  lookup k ((j, v) ∷ m) = ite (dec j k) (some v) (lookup k m)

  -- `map.insert(key, value)`
  abbrev pub insert : K → V → List (K × V) → List (K × V)
  insert k v [] = (k, v) ∷ []
  insert k v ((j, w) ∷ m) = ite (dec j k) ((k, v) ∷ m) ((j, w) ∷ insert k v m)

  -- `map.remove(key)`
  abbrev pub remove : K → List (K × V) → List (K × V)
  remove k [] = []
  remove k ((j, w) ∷ m) = ite (dec j k) m ((j, w) ∷ remove k m)

  pub lookup-insert :
      (j k : K) (v : V) (m : List (K × V))
      → lookup j (insert k v m) ≡ ite (dec k j) (some v) (lookup j m)
  lookup-insert j k v [] = refl
  lookup-insert j k v ((i, w) ∷ m) = ground (arith, lookup-insert j k v m)

-- Sets (`BTreeSet`) of keys, as lists with no key twice.
module _ {ℓ} {K : Type ℓ} (dec : Discrete K) where
  -- `set.contains(key)`
  abbrev pub has_key : List K → K → Bool
  has_key [] k = false
  has_key (j ∷ js) k = ite (dec j k) true (has_key js k)

  -- `set.insert(key)`
  abbrev pub insert_key : K → List K → List K
  insert_key k js = elim (has_key js k) [ true ↦ js | false ↦ k ∷ js ]

  -- `set.remove(key)`
  abbrev pub remove_key : K → List K → List K
  remove_key k [] = []
  remove_key k (j ∷ js) = ite (dec j k) js (j ∷ remove_key k js)

  pub has_key-insert_key :
      (k j : K) (js : List K) → has_key (insert_key k js) j ≡ ite (dec k j) true (has_key js j)
  has_key-insert_key k j js = ground arith

module _ {K : Type 0} (dec : Discrete K) where
  -- No key stands twice.
  abbrev pub Unique : List K → Type 0
  Unique [] = Unit
  Unique (j ∷ js) = (has_key dec js j ≡ false) × Unique js

  pub has_key-remove_key :
      (k j : K) (js : List K)
      → Unique js
      → has_key dec (remove_key dec k js) j ≡ ite (dec k j) false (has_key dec js j)
  has_key-remove_key k j [] u = ground arith
  has_key-remove_key k j (i ∷ js) u = ground (arith, has_key-remove_key k j js u.1, u.0)

  pub remove_key-Unique : (k : K) (js : List K) → Unique js → Unique (remove_key dec k js)
  remove_key-Unique k [] u = tt
  remove_key-Unique k (i ∷ js) u =
      ground (arith, remove_key-Unique k js u.1, has_key-remove_key k i js u.1, u.0)

  pub insert_key-Unique : (k : K) (js : List K) → Unique js → Unique (insert_key dec k js)
  insert_key-Unique k js u = ground (arith, u)

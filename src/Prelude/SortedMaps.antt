-- ===== src/Prelude/SortedMaps.antt =====
-- Maps (`BTreeMap`) with texts for keys, as lists of their entries in the order of the keys.
use Prim.Native.String.{String}
use mathlib.Core.Path.{◌≡◌, refl, sym, subst, ap₂}
use mathlib.Core.Logic.{ite, inl, inr}
use mathlib.Core.Option.{Option, none, some}
use mathlib.Core.List.{List, [], ◌∷◌}
use native.Mathlib.Omega.{arith}
use okx.Prelude.Tests.{if◌then◌else◌, Option-cases}
use okx.Prelude.Lists.{All}
use okx.Prelude.Maps.{String-discrete}
use okx.Prelude.Texts.{str_lt}

module _ {ℓ} {V : Type ℓ} where
  -- `map.get(key)`
  unfoldable pub get : String → List (String × V) → Option V
  get k [] = none
  get k ((j, v) ∷ m) = ite (String-discrete k j) (some v) (get k m)

  replace : String → V → List (String × V) → List (String × V)
  replace k v [] = []
  replace k v ((j, w) ∷ m) = ite (String-discrete k j) ((k, v) ∷ m) ((j, w) ∷ replace k v m)

  place : String → V → List (String × V) → List (String × V)
  place k v [] = (k, v) ∷ []
  place k v ((j, w) ∷ m) =
      let rest = place k v m in if str_lt k j then (k, v) ∷ (j, w) ∷ m else (j, w) ∷ rest

  -- `map.insert(key, value)`
  unfoldable pub put : String → V → List (String × V) → List (String × V)
  unfolding get replace place
  put k v m = elim (get k m) [ none ↦ place k v m | some _ ↦ replace k v m ]

  -- `map.remove(key)`
  unfoldable pub delete : String → List (String × V) → List (String × V)
  delete k [] = []
  delete k ((j, w) ∷ m) = ite (String-discrete k j) m ((j, w) ∷ delete k m)

  -- No key stands twice.
  abbrev pub Distinct : List (String × V) → Type ℓ
  Distinct [] = Unit
  Distinct ((j, w) ∷ m) = (get j m ≡ none) × Distinct m

  get-place :
      (q k : String) (v : V) (m : List (String × V))
      → get k m ≡ none
      → get q (place k v m) ≡ ite (String-discrete q k) (some v) (get q m)
  unfolding get place
  get-place q k v [] h = refl
  get-place q k v ((j, w) ∷ m) h = ground (arith, get-place q k v m)

  get-replace :
      (q k : String) (v u : V) (m : List (String × V))
      → get k m ≡ some u
      → get q (replace k v m) ≡ ite (String-discrete q k) (some v) (get q m)
  unfolding get replace
  get-replace q k v u [] h = cc h
  get-replace q k v u ((j, w) ∷ m) h = ground (arith, get-replace q k v u m)

  put_new : (k : String) (v : V) (m : List (String × V)) → get k m ≡ none → put k v m ≡ place k v m
  unfolding put
  put_new k v m e = ground arith

  put_old :
      (k : String) (v u : V) (m : List (String × V)) → get k m ≡ some u → put k v m ≡ replace k v m
  unfolding put
  put_old k v u m e = ground arith

  pub get-put :
      (q k : String) (v : V) (m : List (String × V))
      → get q (put k v m) ≡ ite (String-discrete q k) (some v) (get q m)
  get-put q k v m = elim (Option-cases (get k m)) [
    | inl e ↦ rw (put_new k v m e) (get-place q k v m e)
    | inr (u, e) ↦ rw (put_old k v u m e) (get-replace q k v u m e)
  ]

  place-Distinct :
      (k : String) (v : V) (m : List (String × V))
      → get k m ≡ none
      → Distinct m
      → Distinct (place k v m)
  unfolding get place
  place-Distinct k v [] h d = (refl, tt)
  place-Distinct k v ((j, w) ∷ m) h d = ground (arith, place-Distinct k v m, get-place j k v m)

  replace-Distinct :
      (k : String) (v u : V) (m : List (String × V))
      → get k m ≡ some u
      → Distinct m
      → Distinct (replace k v m)
  unfolding get replace
  replace-Distinct k v u [] h d = tt
  replace-Distinct k v u ((j, w) ∷ m) h d =
      ground (arith, replace-Distinct k v u m, get-replace j k v u m)

  pub put-Distinct :
      (k : String) (v : V) (m : List (String × V)) → Distinct m → Distinct (put k v m)
  put-Distinct k v m d = elim (Option-cases (get k m)) [
    | inl e ↦ rw (put_new k v m e) (place-Distinct k v m e d)
    | inr (u, e) ↦ rw (put_old k v u m e) (replace-Distinct k v u m e d)
  ]

  place-All {κ} :
      (P : String × V → Type κ) (k : String) (v : V) (m : List (String × V))
      → P (k, v)
      → All P m
      → All P (place k v m)
  unfolding place
  place-All P k v [] p h = (p, tt)
  place-All P k v ((j, w) ∷ m) p h = ground (arith, place-All P k v m p h.1)

  replace-All {κ} :
      (P : String × V → Type κ) (k : String) (v : V) (m : List (String × V))
      → P (k, v)
      → All P m
      → All P (replace k v m)
  unfolding replace
  replace-All P k v [] p h = tt
  replace-All P k v ((j, w) ∷ m) p h = ground (arith, replace-All P k v m p h.1)

  pub put-All {κ} :
      (P : String × V → Type κ) (k : String) (v : V) (m : List (String × V))
      → P (k, v)
      → All P m
      → All P (put k v m)
  put-All P k v m p h = elim (Option-cases (get k m)) [
    | inl e ↦ rw (put_new k v m e) (place-All P k v m p h)
    | inr (u, e) ↦ rw (put_old k v u m e) (replace-All P k v m p h)
  ]

  pub delete-All {κ} :
      (P : String × V → Type κ) (k : String) (m : List (String × V)) → All P m → All P (delete k m)
  unfolding delete
  delete-All P k [] h = tt
  delete-All P k ((j, w) ∷ m) h = ground (arith, delete-All P k m h.1)

  pub get-delete :
      (q k : String) (m : List (String × V))
      → Distinct m
      → get q (delete k m) ≡ ite (String-discrete q k) none (get q m)
  unfolding get delete
  get-delete q k [] d = ground arith
  get-delete q k ((j, w) ∷ m) d = ground (arith, get-delete q k m d.1)

  pub delete-Distinct : (k : String) (m : List (String × V)) → Distinct m → Distinct (delete k m)
  unfolding get delete
  delete-Distinct k [] d = tt
  delete-Distinct k ((j, w) ∷ m) d = ground (arith, delete-Distinct k m d.1, get-delete j k m d.1)

  pub get-All {κ} :
      (P : String × V → Type κ) (k : String) (m : List (String × V)) {v : V}
      → get k m ≡ some v
      → All P m
      → P (k, v)
  unfolding get
  get-All P k [] h a = cc h
  get-All P k ((j, w) ∷ m) {v} h a = elim (String-discrete k j) [
    | yes e ↦
        let same : w ≡ v = ground arith in
        subst (λ (e' : String × V). P e') (ap₂ (λ (x : String) (y : V). (x, y)) (sym e) same) a.0
    | no n ↦ get-All P k m (ground arith) a.1
  ]

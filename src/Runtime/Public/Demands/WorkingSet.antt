-- ===== src/Runtime/Public/Demands/WorkingSet.antt =====
-- crates/okx-runtime/src/public/coordinator.rs: what holds of the working set of markets.
use Prim.Native.String.{String}
use mathlib.Core.Logic.{ite}
use okx.Prelude.{
  suc, ◌≤◌, ◌<◌, ◌≢◌, Bool, true, false, List, [], ◌∷◌, ◌++◌, length, leb, ◌≡◌, refl, sym, ◌∙◌, ap,
  subst, arith, Bool-cases, inl, inr,
}
use okx.Prelude.Maps.{
  String-discrete, has_key, insert_key, remove_key, has_key-insert_key, Unique, has_key-remove_key,
  remove_key-Unique, insert_key-Unique,
}
use okx.Runtime.Public.Demands.{max_active_markets, evict, touch_demand}

abbrev has : List String → String → Bool
has = has_key String-discrete

-- The demands and their order: the same markets, none twice, and no more than 12.
pub record IsWorkingSet (demands recency : List String) : Type 0 where
  pub demands_once : Unique String-discrete demands
  pub recency_once : Unique String-discrete recency
  pub same : (q : String) → has demands q ≡ has recency q
  pub bounded : length recency ≤ max_active_markets

has_snoc :
    (xs : List String) (y q : String)
    → has (xs ++ (y ∷ [])) q ≡ ite (String-discrete y q) true (has xs q)
has_snoc [] y q = refl
has_snoc (x ∷ xs) y q = ground (arith, has_snoc xs y q)

snoc-Unique :
    (xs : List String) (y : String)
    → Unique String-discrete xs
    → has xs y ≡ false
    → Unique String-discrete (xs ++ (y ∷ []))
snoc-Unique [] y u h = (refl, tt)
snoc-Unique (x ∷ xs) y u h = ground (arith, snoc-Unique xs y u.1, has_snoc xs y x, u.0, h)

length_snoc : (xs : List String) (y : String) → length (xs ++ (y ∷ [])) ≡ suc (length xs)
length_snoc [] y = refl
length_snoc (x ∷ xs) y = ap suc (length_snoc xs y)

length_remove :
    (k : String) (xs : List String) → length (remove_key String-discrete k xs) ≤ length xs
length_remove k [] = omega arith
length_remove k (x ∷ xs) = ground (arith, length_remove k xs)

-- The first of a long list is not the last.
first_other :
    (kept r : List String) (x id : String)
    → x ∷ r ≡ kept ++ (id ∷ [])
    → has kept id ≡ false
    → 12 < length (x ∷ r)
    → x ≢ id
first_other [] r x id e h l =
    let short : length (x ∷ r) ≡ 1 = ap length e in λ p. omega (arith, short, l)
first_other (k ∷ ks) r x id e h l = let same : x ≡ k = cc e in λ p. ground (arith, same, h, p)

without :
    (x : String) (r : List String) (q : String) {a b : Bool}
    → has r x ≡ false
    → a ≡ ite (String-discrete x q) false b
    → b ≡ has (x ∷ r) q
    → a ≡ has r q
without x r q n h g = ground (arith, n, h, g)

-- The demands and their order behind the new one, before any is given up.
module _ (demands recency : List String) (id : String) (w : IsWorkingSet demands recency) where
  abbrev demands' : List String
  demands' = insert_key String-discrete id demands

  abbrev kept : List String
  kept = remove_key String-discrete id recency

  kept_new : has kept id ≡ false
  kept_new = has_key-remove_key String-discrete id id recency w.recency_once ∙ ground arith

  next_once : Unique String-discrete (kept ++ (id ∷ []))
  next_once =
      snoc-Unique kept id (remove_key-Unique String-discrete id recency w.recency_once) kept_new

  next_same : (q : String) → has demands' q ≡ has (kept ++ (id ∷ [])) q
  next_same q = ground (
    arith,
    w.same q,
    has_key-insert_key String-discrete id q demands,
    has_snoc kept id q,
    has_key-remove_key String-discrete id q recency w.recency_once,
  )

  next_length : length (kept ++ (id ∷ [])) ≤ 13
  next_length =
      let a = length_snoc kept id in
      let b = length_remove id recency in let c = w.bounded in omega (arith, a, b, c)

  evict-IsWorkingSet :
      (r : List String)
      → r ≡ kept ++ (id ∷ [])
      → leb (length r) max_active_markets ≡ false
      → IsWorkingSet (evict demands' r).0 (evict demands' r).1
        × (has (evict demands' r).0 id ≡ true)
  evict-IsWorkingSet [] e h = cc h
  evict-IsWorkingSet (x ∷ r) e h =
      let u : Unique String-discrete (x ∷ r) = subst (Unique String-discrete) (sym e) next_once in
      let d = insert_key-Unique String-discrete id demands w.demands_once in
      let listed : (q : String) → has demands' q ≡ has (x ∷ r) q =
        λ q. next_same q ∙ ap (λ l. has l q) (sym e) in
      let removed : (q : String)
          → has (remove_key String-discrete x demands') q
            ≡ ite (String-discrete x q) false (has demands' q) =
        λ q. has_key-remove_key String-discrete x q demands' d in
      let other = first_other kept r x id e kept_new (ground (arith, h)) in
      let long = subst (λ l. length l ≤ 13) (sym e) next_length in
      (
        record {
          demands_once = remove_key-Unique String-discrete x demands' d;
          recency_once = u.1;
          same = λ q. without x r q u.0 (removed q) (listed q);
          bounded = omega (arith, long);
        },
        removed id ∙ ground (arith, other, has_key-insert_key String-discrete id id demands),
      )

  touch_demand-IsWorkingSet :
      IsWorkingSet (touch_demand demands recency id).0 (touch_demand demands recency id).1
      × (has (touch_demand demands recency id).0 id ≡ true)
  unfolding touch_demand
  touch_demand-IsWorkingSet =
      elim (Bool-cases (leb (length (kept ++ (id ∷ []))) max_active_markets)) [
        | inl e ↦ rw e (
          record {
            demands_once = insert_key-Unique String-discrete id demands w.demands_once;
            recency_once = next_once;
            same = next_same;
            bounded = ground (arith, e);
          },
          ground (arith, has_key-insert_key String-discrete id id demands),
        )
        | inr e ↦ rw e (evict-IsWorkingSet (kept ++ (id ∷ [])) refl e)
      ]

abbrev pub State : Type 0
State = List String × List String

abbrev pub step : State → String → State
step (demands, recency) id =
    ((touch_demand demands recency id).0, (touch_demand demands recency id).1)

abbrev pub run : State → List String → State
run s [] = s
run s (id ∷ ids) = run (step s id) ids

run-IsWorkingSet :
    (s : State) (ids : List String)
    → IsWorkingSet s.0 s.1
    → IsWorkingSet (run s ids).0 (run s ids).1
run-IsWorkingSet s [] w = w
run-IsWorkingSet (d, r) (id ∷ ids) w =
    run-IsWorkingSet (step (d, r) id) ids (touch_demand-IsWorkingSet d r id w).0

empty-IsWorkingSet : IsWorkingSet [] []
empty-IsWorkingSet = record {
  demands_once = tt;
  recency_once = tt;
  same = λ q. refl;
  bounded = omega arith;
}

-- After any demands from the start: at most 12 markets are asked for, none of them twice, and the
-- order of the demands has the same markets, also once each; and a market that is asked for next is
-- then among them.
pub touches-IsWorkingSet :
    (ids : List String) (id : String)
    → IsWorkingSet (run ([], []) ids).0 (run ([], []) ids).1
      × (has_key String-discrete (touch_demand (run ([], []) ids).0 (run ([], []) ids).1 id).0 id
          ≡ true)
touches-IsWorkingSet ids id =
    let w = run-IsWorkingSet ([], []) ids empty-IsWorkingSet in
    (w, (touch_demand-IsWorkingSet _ _ id w).1)

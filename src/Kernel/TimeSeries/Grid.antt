-- ===== src/Kernel/TimeSeries/Grid.antt =====
-- The bar times of a range, for the second loop of `coverage` in
-- crates/okx-kernel/src/time_series.rs.
use native.Mathlib.Nat.{
  div-add-mod', mul-mod_left, lt_of_mul-lt-mul_right, mul-le-mul_right, zero-add, add-zero,
  mod-eq_of_lt,
}
use okx.Kernel.TimeSeries.Ranges.{IsValid, bars_fill}
use okx.Prelude.{
  ℕ, zero, suc, ◌+◌, ◌-◌, ◌*◌, ◌/◌, ◌%◌, ◌≤◌, ◌<◌, ◌≡◌, refl, subst, ==_iff, sym, ap, ◌∙◌, List, [],
  ◌∷◌, true, false, arith, ◌==◌, if◌then◌else◌, length, contains, Bool-cases, inl, inr,
}
use okx.Prelude.Words.{u64}
use okx.Kernel.TimeSeries.{ClosedRange, Gaps, check_bar, check_bars, on_grid}

-- The time of bar `index`.
abbrev pub slot : ClosedRange → ℕ → ℕ
slot r index = r.start_ms + index * r.timeframe_ms

-- How many of the bars `index`, …, `index + left - 1` stand in a set of times.
pub hits : ClosedRange → List ℕ → ℕ → ℕ → ℕ
hits r observed zero index = 0
hits r observed (suc left) index =
    (if contains observed (slot r index) then 1 else 0) + hits r observed left (index + 1)

pub hits-le :
    (r : ClosedRange) (observed : List ℕ) (left index : ℕ) → hits r observed left index ≤ left
unfolding hits
hits-le r observed zero index = omega arith
hits-le r observed (suc left) index = ground (arith, hits-le r observed left (index + 1))

pub hits_empty : (r : ClosedRange) (left index : ℕ) → hits r [] left index ≡ 0
unfolding hits
hits_empty r zero index = refl
hits_empty r (suc left) index = omega (arith, hits_empty r left (index + 1))

-- How many bars have the time `t`.
occurs : ClosedRange → ℕ → ℕ → ℕ → ℕ
occurs r t zero index = 0
occurs r t (suc left) index = (if t == slot r index then 1 else 0) + occurs r t left (index + 1)

slot_mono : (r : ClosedRange) (i : ℕ) → slot r (i + 1) ≡ slot r i + r.timeframe_ms
slot_mono r i = omega arith

occurs_before : (r : ClosedRange) (t left index : ℕ) → t < slot r index → occurs r t left index ≡ 0
unfolding occurs
occurs_before r t zero index h = refl
occurs_before r t (suc left) index h =
    let later : t < slot r (index + 1) = omega (arith, slot_mono r index) in
    ground (arith, occurs_before r t left (index + 1) later)

occurs_once :
    (r : ClosedRange) (t left index k : ℕ)
    → 0 < r.timeframe_ms
    → k < left
    → t ≡ slot r (index + k)
    → occurs r t left index ≡ 1
unfolding occurs
occurs_once r t zero index k pos h e = elim h [ ]
occurs_once r t (suc left) index zero pos h e =
    let here : t ≡ slot r index = omega arith in
    let rest = occurs_before r t left (index + 1) (omega (arith, slot_mono r index)) in ground arith
occurs_once r t (suc left) index (suc k) pos h e =
    let further : slot r index < slot r (index + suc k) = omega (arith) in
    let rest = occurs_once r t left (index + 1) k pos (omega arith) (omega arith) in ground arith

-- A new time adds one hit for each bar at that time.
hits-cons :
    (r : ClosedRange) (t : ℕ) (observed : List ℕ) (left index : ℕ)
    → contains observed t ≡ false
    → hits r (t ∷ observed) left index ≡ occurs r t left index + hits r observed left index
unfolding hits occurs
hits-cons r t observed zero index h = refl
hits-cons r t observed (suc left) index h =
    let rest = hits-cons r t observed left (index + 1) h in
    elim (Bool-cases (t == slot r index)) [
      | inl e ↦
          let miss : contains observed (slot r index) ≡ false =
            subst (λ x. contains observed x ≡ false) ((==_iff t (slot r index)).0 e) h in
          ground arith
      | inr e ↦ ground arith
    ]

pub bars_below :
    (r : ClosedRange) (t : ℕ)
    → IsValid r
    → on_grid r t ≡ true
    → (t - r.start_ms) / r.timeframe_ms < r.expected_bars
bars_below r t v h =
    let far = div-add-mod' (t - r.start_ms) r.timeframe_ms in
    let fill = bars_fill r v in
    let d = (t - r.start_ms) / r.timeframe_ms in
    let inside : d * r.timeframe_ms < r.expected_bars * r.timeframe_ms = ground arith in
    lt_of_mul-lt-mul_right r.timeframe_ms inside

-- A time on the grid is the time of a bar of the range.
pub on_grid-slot :
    (r : ClosedRange) (t : ℕ)
    → 0 < r.timeframe_ms
    → on_grid r t ≡ true
    → t ≡ slot r ((t - r.start_ms) / r.timeframe_ms)
on_grid-slot r t pos h = ground (arith, div-add-mod' (t - r.start_ms) r.timeframe_ms)

pub slot-on_grid :
    (r : ClosedRange) (i : ℕ) → IsValid r → i < r.expected_bars → on_grid r (slot r i) ≡ true
slot-on_grid r i v h =
    let fill = bars_fill r v in
    let far : slot r i - r.start_ms ≡ i * r.timeframe_ms = omega arith in
    let whole : (slot r i - r.start_ms) % r.timeframe_ms ≡ 0 =
      rw far (mul-mod_left i r.timeframe_ms) in
    let pos = v.positive in
    let step : suc i * r.timeframe_ms ≤ r.expected_bars * r.timeframe_ms =
      mul-le-mul_right r.timeframe_ms h in
    ground arith

-- All times are distinct and on the grid.
abbrev pub Distinct : ClosedRange → List ℕ → Type 0
Distinct r [] = Unit {0}
Distinct r (t ∷ ts) = (contains ts t ≡ false) × (on_grid r t ≡ true) × Distinct r ts

-- So many bars are hit as there are distinct times on the grid.
pub hits-Distinct :
    (r : ClosedRange) (observed : List ℕ)
    → IsValid r
    → Distinct r observed
    → hits r observed r.expected_bars 0 ≡ length observed
hits-Distinct r [] v d = hits_empty r r.expected_bars 0
hits-Distinct r (t ∷ ts) v d =
    let k = (t - r.start_ms) / r.timeframe_ms in
    omega (
      arith,
      hits-cons r t ts r.expected_bars 0 d.0,
      occurs_once r t r.expected_bars 0 k v.positive (bars_below r t v d.1)
          (on_grid-slot r t v.positive d.1 ∙ ap (slot r) (sym (zero-add k))),
      hits-Distinct r ts v d.2,
    )

-- Every bar is hit exactly when none is missed.
pub hits_full :
    (r : ClosedRange) (observed : List ℕ) (left index : ℕ)
    → hits r observed left index ≡ left
    → (k : ℕ) → k < left
    → contains observed (slot r (index + k)) ≡ true
unfolding hits
hits_full r observed zero index h k lt = elim lt [ ]
hits_full r observed (suc left) index h zero lt =
    let most = hits-le r observed left (index + 1) in rw (add-zero index) (ground arith)
hits_full r observed (suc left) index h (suc k) lt =
    let most = hits-le r observed left (index + 1) in
    let rest : hits r observed left (index + 1) ≡ left = ground arith in
    let shift : index + 1 + k ≡ index + suc k = omega arith in
    subst (λ j. contains observed (slot r j) ≡ true) shift
      (hits_full r observed left (index + 1) rest k (omega arith))

shifted : (index k : ℕ) → index + suc k ≡ index + 1 + k
shifted index k = omega arith

pub hits_all :
    (r : ClosedRange) (observed : List ℕ) (left index : ℕ)
    → ((k : ℕ) → k < left → contains observed (slot r (index + k)) ≡ true)
    → hits r observed left index ≡ left
unfolding hits
hits_all r observed zero index h = refl
hits_all r observed (suc left) index h =
    let here : contains observed (slot r index) ≡ true =
      subst (λ j. contains observed (slot r j) ≡ true) (add-zero index) (h 0 (omega arith)) in
    let rest : hits r observed left (index + 1) ≡ left =
      hits_all r observed left (index + 1) (λ k lt.
        subst (λ j. contains observed (slot r j) ≡ true) (shifted index k)
          (h (suc k) (omega arith))) in
    ground arith

-- The second loop counts the bars that are not hit.
pub check_bars-missing :
    (r : ClosedRange) (observed : List ℕ) (left index : ℕ) (g : Gaps)
    → r.start_ms + (index + left) * r.timeframe_ms < 18446744073709551616
    → g.missing + left < 18446744073709551616
    → (check_bars r observed left index g).missing + hits r observed left index ≡ g.missing + left
unfolding check_bars check_bar hits
check_bars-missing r observed zero index g e h = refl
check_bars-missing r observed (suc left) index g e h =
    let bound : slot r index < 18446744073709551616 = omega arith in
    let reached : r.start_ms + (index + 1 + left) * r.timeframe_ms < 18446744073709551616 =
      subst (λ j. r.start_ms + j * r.timeframe_ms < 18446744073709551616) (shifted index left) e in
    let exact : u64 (slot r index) ≡ slot r index = mod-eq_of_lt bound in
    let g' = check_bar observed (slot r index) g in
    let room : g'.missing + left < 18446744073709551616 = ground arith in
    let rest = check_bars-missing r observed left (index + 1) g' reached room in
    rw (exact, check_bars) (ground arith)

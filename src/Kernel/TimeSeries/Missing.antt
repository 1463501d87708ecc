-- ===== src/Kernel/TimeSeries/Missing.antt =====
-- crates/okx-kernel/src/time_series.rs: the missing times that a coverage report names.
use native.Mathlib.Nat.{mul-le-mul_left, mod-eq_of_lt}
use mathlib.Core.List.{append_assoc, append-nil}
use okx.Prelude.{
  ℕ, zero, suc, ◌+◌, ◌*◌, ◌≤◌, ◌<◌, ◌≡◌, refl, sym, ◌∙◌, ap, subst, true, false, ◌||◌, List, [],
  ◌∷◌, ◌++◌, Option, none, some, arith, ltb, if◌then◌else◌, length, contains, length-append,
  Bool-cases, inl, inr, ==_iff,
}
use okx.Prelude.Words.{u64}
use okx.Kernel.TimeSeries.{
  ClosedRange, Seen, Gaps, on_grid, see, see_all, check_bar, check_bars, coverage,
}
use okx.Kernel.TimeSeries.Ranges.{IsValid, bars_fill}
use okx.Kernel.TimeSeries.Grid.{slot, slot-on_grid}
use okx.Kernel.TimeSeries.Coverage.{start}

-- The first `n` elements.
abbrev pub take {ℓ} : {A : Type ℓ} → ℕ → List A → List A
take zero xs = []
take (suc n) [] = []
take (suc n) (x ∷ xs) = x ∷ take n xs

abbrev pub head {ℓ} : {A : Type ℓ} → List A → Option A
head [] = none
head (x ∷ xs) = some x

-- The times of the bars `index`, …, `index + left - 1` that are not in a list, in order.
unfoldable pub missing_from : ClosedRange → List ℕ → ℕ → ℕ → List ℕ
missing_from r times zero index = []
missing_from r times (suc left) index =
    let rest = missing_from r times left (index + 1) in
    if contains times (slot r index) then rest else slot r index ∷ rest

take-append {ℓ} : {A : Type ℓ} (n : ℕ) (xs ys : List A) → length xs ≡ n → take n (xs ++ ys) ≡ xs
take-append zero [] ys h = refl
take-append zero (x ∷ xs) ys h = absurd (omega arith)
take-append (suc n) [] ys h = absurd (omega arith)
take-append (suc n) (x ∷ xs) ys h = ap (λ l. x ∷ l) (take-append n xs ys (omega arith))

take-short {ℓ} : {A : Type ℓ} (n : ℕ) (xs : List A) → length xs ≤ n → take n xs ≡ xs
take-short zero [] h = refl
take-short zero (x ∷ xs) h = absurd (omega arith)
take-short (suc n) [] h = refl
take-short (suc n) (x ∷ xs) h = ap (λ l. x ∷ l) (take-short n xs (omega arith))

abbrev first_or : Option ℕ → List ℕ → Option ℕ
first_or none ts = head ts
first_or (some t) ts = some t

abbrev Room : ClosedRange → ℕ → ℕ → Type 0
Room r left index = r.start_ms + (index + left) * r.timeframe_ms < 18446744073709551616

shifted : (index k : ℕ) → index + suc k ≡ index + 1 + k
shifted index k = omega arith

first_or-nil : (o : Option ℕ) → o ≡ first_or o []
first_or-nil none = refl
first_or-nil (some t) = refl

check_bar-hit :
    (times : List ℕ) (t : ℕ) (g : Gaps) → contains times t ≡ true → check_bar times t g ≡ g
unfolding check_bar
check_bar-hit times t g h = ground arith

-- The first missing time and the first sixteen are named, and all of them counted.
record Named (gaps : List ℕ) (g g' : Gaps) : Type 0 where
  count : g'.missing ≡ g.missing + length gaps
  first : g'.first_missing_ms ≡ first_or g.first_missing_ms gaps
  sample : g'.missing_sample_ms ≡ take 16 (g.missing_sample_ms ++ gaps)

missing_from-hit :
    (r : ClosedRange) (times : List ℕ) (left index : ℕ)
    → contains times (slot r index) ≡ true
    → missing_from r times left (index + 1) ≡ missing_from r times (suc left) index
unfolding missing_from
missing_from-hit r times left index h = ground arith

missing_from-miss :
    (r : ClosedRange) (times : List ℕ) (left index : ℕ)
    → contains times (slot r index) ≡ false
    → slot r index ∷ missing_from r times left (index + 1) ≡ missing_from r times (suc left) index
unfolding missing_from
missing_from-miss r times left index h = ground arith

check_bar-missing :
    (times : List ℕ) (t : ℕ) (g : Gaps)
    → contains times t ≡ false
    → g.missing + 1 < 18446744073709551616
    → (check_bar times t g).missing ≡ g.missing + 1
unfolding check_bar
check_bar-missing times t g h few = ground arith

-- A missing bar and the rest of the loop behind it.
miss-Named :
    (times : List ℕ) (t : ℕ) (gaps : List ℕ) (g g' : Gaps)
    → contains times t ≡ false
    → g.missing + 1 < 18446744073709551616
    → length g.missing_sample_ms ≤ 16
    → Named gaps (check_bar times t g) g'
    → Named (t ∷ gaps) g g'
unfolding check_bar
miss-Named times t gaps g g' miss few short n = record {
  count = omega (arith, n.count, check_bar-missing times t g miss few);
  first = ground (arith, n.first);
  sample = elim (Bool-cases (ltb (length g.missing_sample_ms) 16)) [
    | inl room ↦
        let grown : (check_bar times t g).missing_sample_ms ≡ g.missing_sample_ms ++ t ∷ [] =
          ground arith in
        n.sample
        ∙ ap (λ l. take 16 (l ++ gaps)) grown
        ∙ ap (take 16) (append_assoc g.missing_sample_ms (t ∷ []) gaps)
    | inr full ↦
        let kept : (check_bar times t g).missing_sample_ms ≡ g.missing_sample_ms = ground arith in
        let sixteen : length g.missing_sample_ms ≡ 16 = ground arith in
        n.sample
        ∙ ap (λ l. take 16 (l ++ gaps)) kept
        ∙ take-append 16 g.missing_sample_ms gaps sixteen
        ∙ sym (take-append 16 g.missing_sample_ms (t ∷ gaps) sixteen)
  ];
}

check_bar-short :
    (times : List ℕ) (t : ℕ) (g : Gaps)
    → length g.missing_sample_ms ≤ 16
    → length (check_bar times t g).missing_sample_ms ≤ 16
unfolding check_bar
check_bar-short times t g short = ground (arith, length-append g.missing_sample_ms (t ∷ []))

check_bars-Named :
    (r : ClosedRange) (times : List ℕ) (left index : ℕ) (g : Gaps)
    → Room r left index
    → g.missing + left < 18446744073709551616
    → length g.missing_sample_ms ≤ 16
    → Named (missing_from r times left index) g (check_bars r times left index g)
unfolding check_bars missing_from
check_bars-Named r times zero index g room few short = record {
  count = omega arith;
  first = first_or-nil g.first_missing_ms;
  sample =
      sym (ap (take 16) (append-nil g.missing_sample_ms) ∙ take-short 16 g.missing_sample_ms short);
}
check_bars-Named r times (suc left) index g room few short =
    let t = slot r index in
    let bound : t < 18446744073709551616 = omega arith in
    let exact : u64 t ≡ t = mod-eq_of_lt bound in
    let reached : Room r left (index + 1) =
      subst (λ j. r.start_ms + j * r.timeframe_ms < 18446744073709551616) (shifted index left)
        room in
    let after : ℕ → Gaps = λ time. check_bars r times left (index + 1) (check_bar times time g) in
    elim (Bool-cases (contains times t)) [
      | inl hit ↦
          let same = check_bar-hit times t g hit in
          subst (λ ms. Named ms g (after (u64 t))) (missing_from-hit r times left index hit)
            (subst (λ time. Named (missing_from r times left (index + 1)) g (after time))
              (sym exact)
              (subst
                (λ (g' : Gaps).
                  Named (missing_from r times left (index + 1)) g
                    (check_bars r times left (index + 1) g'))
                (sym same)
                (check_bars-Named r times left (index + 1) g reached (omega arith) short)))
      | inr miss ↦
          let g' = check_bar times t g in
          let one = check_bar-missing times t g miss (omega arith) in
          let rest =
            check_bars-Named r times left (index + 1) g' reached (omega (arith, one))
              (check_bar-short times t g short) in
          subst (λ ms. Named ms g (after (u64 t))) (missing_from-miss r times left index miss)
            (subst (λ time. Named (t ∷ missing_from r times left (index + 1)) g (after time))
              (sym exact)
              (miss-Named times t (missing_from r times left (index + 1)) g (after t) miss
                (omega arith) short rest))
    ]

-- What the first loop keeps is what the list has of the times of the range.
see_all-contains :
    (r : ClosedRange) (ts : List ℕ) (s : Seen) (t : ℕ)
    → on_grid r t ≡ true
    → contains (see_all r ts s).observed t ≡ contains ts t || contains s.observed t
unfolding see_all see
see_all-contains r [] s t on = refl
see_all-contains r (x ∷ ts) s t on =
    ground (arith, see_all-contains r ts (see r x s) t on, ==_iff x t)

missing_from-cong :
    (r : ClosedRange) (ts : List ℕ) (left index : ℕ)
    → IsValid r
    → index + left ≤ r.expected_bars
    → missing_from r (see_all r ts start).observed left index ≡ missing_from r ts left index
unfolding missing_from
missing_from-cong r ts zero index v within = refl
missing_from-cong r ts (suc left) index v within =
    let rest = missing_from-cong r ts left (index + 1) v (omega arith) in
    let same = see_all-contains r ts start (slot r index) (slot-on_grid r index v (omega arith)) in
    ground (arith, rest, same)

-- The report counts the bar times of a valid range that are not among the times given, names the
-- first of them, and lists the first sixteen in order. The range ends below 2^64.
pub coverage-missing_from :
    (r : ClosedRange) (ts : List ℕ)
    → IsValid r
    → r.end_ms < 18446744073709551616
    → let gaps = missing_from r ts r.expected_bars 0 in
      let c = coverage r ts in
      (c.missing_bars ≡ length gaps)
      × (c.first_missing_ms ≡ head gaps)
      × (c.missing_sample_ms ≡ take 16 gaps)
unfolding coverage
coverage-missing_from r ts v fits =
    let fill = bars_fill r v in
    let few : 0 + r.expected_bars < 18446744073709551616 =
      omega (arith, mul-le-mul_left r.expected_bars v.positive) in
    let n =
      check_bars-Named r (see_all r ts start).observed r.expected_bars 0
        (record { missing = 0; first_missing_ms = none; missing_sample_ms = [] }) (omega arith) few
        (omega arith) in
    let same = missing_from-cong r ts r.expected_bars 0 v (omega arith) in
    (omega (arith, n.count, ap length same), n.first ∙ ap head same, n.sample ∙ ap (take 16) same)

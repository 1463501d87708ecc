-- ===== src/Kernel/TimeSeries/Coverage.antt =====
-- What `coverage` of crates/okx-kernel/src/time_series.rs reports about a list of bar times.
use native.Mathlib.Nat.{mul-le-mul_left, zero-add}
use okx.Prelude.{
  ℕ, ◌+◌, ◌-◌, ◌/◌, ◌≤◌, ◌<◌, ◌≡◌, ◌↔◌, refl, subst, sym, ap, ◌∙◌, List, [], ◌∷◌, true, none, arith,
  ◌==◌, if◌then◌else◌, length, contains, count, contains-count, ==_iff, Bool-cases, inl, inr,
}
use okx.Kernel.TimeSeries.{ClosedRange, Seen, Gaps, on_grid, see, see_all, coverage}
use okx.Kernel.TimeSeries.Ranges.{IsValid, bars_fill}
use okx.Kernel.TimeSeries.Grid.{
  slot, hits, Distinct, hits-Distinct, hits_full, hits_all, check_bars-missing, on_grid-slot,
  bars_below, slot-on_grid,
}

see-Distinct :
    (r : ClosedRange) (t : ℕ) (s : Seen) → Distinct r s.observed → Distinct r (see r t s).observed
unfolding see
see-Distinct r t s d = ground arith

see_all-Distinct :
    (r : ClosedRange) (ts : List ℕ) (s : Seen)
    → Distinct r s.observed
    → Distinct r (see_all r ts s).observed
unfolding see_all
see_all-Distinct r [] s d = d
see_all-Distinct r (t ∷ ts) s d = see_all-Distinct r ts (see r t s) (see-Distinct r t s d)

abbrev tally : Seen → ℕ
tally s = length s.observed + s.duplicates + s.unexpected

see-tally :
    (r : ClosedRange) (t : ℕ) (s : Seen)
    → tally s + 1 < 18446744073709551616
    → tally (see r t s) ≡ tally s + 1
unfolding see
see-tally r t s h = ground arith

see_all-tally :
    (r : ClosedRange) (ts : List ℕ) (s : Seen)
    → tally s + length ts < 18446744073709551616
    → tally (see_all r ts s) ≡ tally s + length ts
unfolding see_all
see_all-tally r [] s h = omega arith
see_all-tally r (t ∷ ts) s h =
    let one = see-tally r t s (omega arith) in
    omega (arith, see_all-tally r ts (see r t s) (omega arith))

abbrev pub start : Seen
start = record { observed = []; duplicates = 0; unexpected = 0 }

abbrev no_gaps : Gaps
no_gaps = record { missing = 0; first_missing_ms = none; missing_sample_ms = [] }

-- Every bar is counted as missing or hit.
missing-hits :
    (r : ClosedRange) (ts : List ℕ)
    → IsValid r
    → r.end_ms < 18446744073709551616
    → (coverage r ts).missing_bars + hits r (see_all r ts start).observed r.expected_bars 0
      ≡ r.expected_bars
unfolding coverage
missing-hits r ts v fits =
    let fill = bars_fill r v in
    let room : 0 + r.expected_bars < 18446744073709551616 =
      omega (arith, mul-le-mul_left r.expected_bars v.positive) in
    omega (
      arith,
      check_bars-missing r (see_all r ts start).observed r.expected_bars 0 no_gaps (omega arith)
          room,
    )

missing_lem :
    (r : ClosedRange) (ts : List ℕ)
    → IsValid r
    → r.end_ms < 18446744073709551616
    → (coverage r ts).missing_bars + length (see_all r ts start).observed ≡ r.expected_bars
missing_lem r ts v fits = omega (
  arith,
  missing-hits r ts v fits,
  hits-Distinct r (see_all r ts start).observed v (see_all-Distinct r ts start tt),
)

-- Every bar is either observed or missing, and every time given is counted once.
pub coverage_accounts :
    (r : ClosedRange) (ts : List ℕ)
    → IsValid r
    → r.end_ms < 18446744073709551616
    → length ts < 18446744073709551616
    → let c = coverage r ts in
      (c.missing_bars + c.observed_unique_bars ≡ r.expected_bars)
      × (c.observed_unique_bars + c.duplicate_bars + c.unexpected_bars ≡ length ts)
unfolding coverage
coverage_accounts r ts v fits short =
    (missing_lem r ts v fits, omega (arith, see_all-tally r ts start (omega arith)))

-- How often a time should stand in a complete list.
abbrev pub bars_at : ClosedRange → ℕ → ℕ
bars_at r t = if on_grid r t then 1 else 0

count-Distinct :
    (r : ClosedRange) (obs : List ℕ) (t : ℕ) → Distinct r obs → count t obs ≤ bars_at r t
count-Distinct r [] t d = omega arith
count-Distinct r (x ∷ obs) t d =
    ground (arith, count-Distinct r obs t d.2, contains-count obs x, ==_iff x t)

see_clean :
    (r : ClosedRange) (x : ℕ) (s : Seen)
    → tally s + 1 < 18446744073709551616
    → (see r x s).duplicates ≡ 0
    → (see r x s).unexpected ≡ 0
    → (s.duplicates ≡ 0)
      × (s.unexpected ≡ 0)
      × ((t : ℕ) → count t (see r x s).observed ≡ count t s.observed + (if x == t then 1 else 0))
unfolding see
see_clean r x s h d u = (ground arith, ground arith, λ t. ground arith)

see_keeps :
    (r : ClosedRange) (x : ℕ) (s : Seen)
    → count x s.observed + 1 ≤ bars_at r x
    → ((see r x s).duplicates ≡ s.duplicates)
      × ((see r x s).unexpected ≡ s.unexpected)
      × ((t : ℕ) → count t (see r x s).observed ≡ count t s.observed + (if x == t then 1 else 0))
unfolding see
see_keeps r x s h =
    let absent = contains-count s.observed x in
    (ground arith, ground arith, λ t. ground (arith, contains-count s.observed x))

-- If no time is a duplicate or off the grid, all times are observed as often as they are given.
see_all_clean :
    (r : ClosedRange) (ts : List ℕ) (s : Seen)
    → tally s + length ts < 18446744073709551616
    → (see_all r ts s).duplicates ≡ 0
    → (see_all r ts s).unexpected ≡ 0
    → (s.duplicates ≡ 0)
      × (s.unexpected ≡ 0)
      × ((t : ℕ) → count t (see_all r ts s).observed ≡ count t s.observed + count t ts)
unfolding see_all
see_all_clean r [] s h d u = (d, u, λ t. omega arith)
see_all_clean r (x ∷ ts) s h d u =
    let s' = see r x s in
    let one = see-tally r x s (omega arith) in
    let (d', u', later) = see_all_clean r ts s' (omega arith) d u in
    let (d₀, u₀, now) = see_clean r x s (omega arith) d' u' in
    (d₀, u₀, λ t. ground (arith, later t, now t))

see_all_keeps :
    (r : ClosedRange) (ts : List ℕ) (s : Seen)
    → ((t : ℕ) → count t s.observed + count t ts ≤ bars_at r t)
    → ((see_all r ts s).duplicates ≡ s.duplicates)
      × ((see_all r ts s).unexpected ≡ s.unexpected)
      × ((t : ℕ) → count t (see_all r ts s).observed ≡ count t s.observed + count t ts)
unfolding see_all
see_all_keeps r [] s h = (refl, refl, λ t. omega arith)
see_all_keeps r (x ∷ ts) s h =
    let s' = see r x s in
    let (d₀, u₀, now) = see_keeps r x s (ground (arith, h x)) in
    let (d', u', later) = see_all_keeps r ts s' (λ t. ground (arith, h t, now t)) in
    (d' ∙ d₀, u' ∙ u₀, λ t. ground (arith, later t, now t))

observed_slot :
    (r : ClosedRange) (obs : List ℕ) (k : ℕ)
    → count (slot r k) obs ≡ bars_at r (slot r k)
    → on_grid r (slot r k) ≡ true
    → contains obs (slot r k) ≡ true
observed_slot r obs k e on = ground (arith, contains-count obs (slot r k))

complete_parts :
    (r : ClosedRange) (ts : List ℕ)
    → (coverage r ts).complete ≡ true
    → ((coverage r ts).missing_bars ≡ 0)
      × ((see_all r ts start).duplicates ≡ 0)
      × ((see_all r ts start).unexpected ≡ 0)
unfolding coverage
complete_parts r ts h = ground arith

complete_of_parts :
    (r : ClosedRange) (ts : List ℕ)
    → (coverage r ts).missing_bars ≡ 0
    → (see_all r ts start).duplicates ≡ 0
    → (see_all r ts start).unexpected ≡ 0
    → (coverage r ts).complete ≡ true
unfolding coverage
complete_of_parts r ts m d u = ground arith

complete_counts :
    (r : ClosedRange) (ts : List ℕ)
    → IsValid r
    → r.end_ms < 18446744073709551616
    → length ts < 18446744073709551616
    → (coverage r ts).complete ≡ true
    → (t : ℕ) → count t ts ≡ bars_at r t
complete_counts r ts v fits short h t =
    let obs = (see_all r ts start).observed in
    let (m, d, u) = complete_parts r ts h in
    let (_, _, same) = see_all_clean r ts start (omega arith) d u in
    let full : hits r obs r.expected_bars 0 ≡ r.expected_bars =
      omega (arith, missing-hits r ts v fits) in
    let most = count-Distinct r obs t (see_all-Distinct r ts start tt) in
    elim (Bool-cases (on_grid r t)) [
      | inr off ↦ ground (arith, same t)
      | inl on ↦
          let k = (t - r.start_ms) / r.timeframe_ms in
          let hit : contains obs (slot r (0 + k)) ≡ true =
            hits_full r obs r.expected_bars 0 full k (bars_below r t v on) in
          let at_t : slot r (0 + k) ≡ t =
            ap (slot r) (zero-add k) ∙ sym (on_grid-slot r t v.positive on) in
          let seen : contains obs t ≡ true = subst (λ x. contains obs x ≡ true) at_t hit in
          ground (arith, same t, contains-count obs t)
    ]

counts_complete :
    (r : ClosedRange) (ts : List ℕ)
    → IsValid r
    → r.end_ms < 18446744073709551616
    → ((t : ℕ) → count t ts ≡ bars_at r t)
    → (coverage r ts).complete ≡ true
counts_complete r ts v fits h =
    let obs = (see_all r ts start).observed in
    let (d, u, same) = see_all_keeps r ts start (λ t. omega (arith, h t)) in
    let full : hits r obs r.expected_bars 0 ≡ r.expected_bars =
      hits_all r obs r.expected_bars 0 (λ k lt.
        observed_slot r obs (0 + k) (same (slot r (0 + k)) ∙ zero-add _ ∙ h (slot r (0 + k)))
          (slot-on_grid r (0 + k) v (omega arith))) in
    complete_of_parts r ts (omega (arith, missing-hits r ts v fits)) d u

-- The report says `complete` exactly when every bar time of the range is given once and no other
-- time is given.
pub coverage-complete :
    (r : ClosedRange) (ts : List ℕ)
    → IsValid r
    → r.end_ms < 18446744073709551616
    → length ts < 18446744073709551616
    → ((coverage r ts).complete ≡ true) ↔ ((t : ℕ) → count t ts ≡ bars_at r t)
coverage-complete r ts v fits short =
    (complete_counts r ts v fits short, counts_complete r ts v fits)

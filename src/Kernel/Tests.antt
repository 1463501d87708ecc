-- ===== src/Kernel/Tests.antt =====
-- crates/okx-kernel/src/time_series.rs: runs on concrete ranges.
use okx.Prelude.{length, ℕ, ◌+◌, ◌≤◌, ◌<◌, ◌≡◌, refl, ◌↔◌, true, List, [], ◌∷◌, count, arith}
use okx.Kernel.TimeSeries.{
  ClosedRange, ok, strict, normalize, relative_closed, coverage, see_all, see, check_bars,
  check_bar,
}
use okx.Kernel.TimeSeries.Ranges.{
  IsValid, Covers, normalize-ok, relative_closed-ok, normalize_widest,
}
use okx.Kernel.TimeSeries.Coverage.{coverage_accounts, coverage-complete, bars_at}
use okx.Kernel.TimeSeries.Missing.{take, head, missing_from, coverage-missing_from}

-- Five bars of ten milliseconds.
abbrev five_bars : ClosedRange
five_bars = record { start_ms = 100; end_ms = 150; timeframe_ms = 10; expected_bars = 5 }

-- A gap at 120, one time twice and one outside.
abbrev times : List ℕ
times = 100 ∷ 110 ∷ 130 ∷ 110 ∷ 155 ∷ 140 ∷ []

five_bars-IsValid : IsValid five_bars
five_bars-IsValid = record {
  positive = omega arith;
  start_aligned = refl;
  end_aligned = refl;
  nonempty = omega arith;
  counted = refl;
}

missing : (coverage five_bars times).missing_bars ≡ 1
unfolding coverage see_all see check_bars check_bar
missing = refl

missing_at : (coverage five_bars times).missing_sample_ms ≡ 120 ∷ []
unfolding coverage see_all see check_bars check_bar
missing_at = refl

normalized : normalize 95 157 10 ≡ ok five_bars
unfolding normalize strict
normalized = refl

relative : relative_closed 157 10 5 ≡ ok five_bars
unfolding relative_closed strict
relative = refl

coverage_accounts_example :
    ((coverage five_bars times).missing_bars + (coverage five_bars times).observed_unique_bars ≡ 5)
    × ((coverage five_bars times).observed_unique_bars
          + (coverage five_bars times).duplicate_bars
          + (coverage five_bars times).unexpected_bars
        ≡ 6)
coverage_accounts_example =
    coverage_accounts five_bars times five_bars-IsValid (omega arith) (omega arith)

coverage-complete_example :
    ((coverage five_bars times).complete ≡ true) ↔ ((t : ℕ) → count t times ≡ bars_at five_bars t)
coverage-complete_example =
    coverage-complete five_bars times five_bars-IsValid (omega arith) (omega arith)

normalize-ok_example : Covers 95 157 10 five_bars
normalize-ok_example = normalize-ok 95 157 10 normalized

relative_closed-ok_example :
    IsValid five_bars
    × (five_bars.timeframe_ms ≡ 10)
    × (five_bars.expected_bars ≡ 5)
    × (five_bars.end_ms ≤ 157)
    × (157 < five_bars.end_ms + 10)
relative_closed-ok_example = relative_closed-ok 157 10 5 relative

normalize_widest_example :
    (r : ClosedRange) × (normalize 95 157 10 ≡ ok r) × (r.start_ms ≤ 110) × (140 ≤ r.end_ms)
normalize_widest_example =
    normalize_widest 95 157 10 110 140 (omega arith) refl refl (omega arith) (omega arith)
      (omega arith) (omega arith)

coverage-missing_from_example :
    ((coverage five_bars times).missing_bars ≡ length (missing_from five_bars times 5 0))
    × ((coverage five_bars times).first_missing_ms ≡ head (missing_from five_bars times 5 0))
    × ((coverage five_bars times).missing_sample_ms ≡ take 16 (missing_from five_bars times 5 0))
coverage-missing_from_example =
    coverage-missing_from five_bars times five_bars-IsValid (omega arith)

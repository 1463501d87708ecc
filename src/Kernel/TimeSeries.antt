-- ===== src/Kernel/TimeSeries.antt =====
-- crates/okx-kernel/src/time_series.rs: half-open ranges of closed bars and their coverage.
pub mod Ranges
pub mod Grid
pub mod Coverage
pub mod Missing
use okx.Prelude.{
  ℕ, zero, suc, ◌+◌, ◌-◌, ◌*◌, ◌/◌, ◌%◌, Bool, ◌&&◌, ◌||◌, not, List, [], ◌∷◌, ◌++◌, Option, none,
  some, ltb, leb, ◌==◌, if◌then◌else◌, length, contains,
}
use okx.Prelude.Words.{u64, checked_add, checked_mul, checked_sub}

pub record ClosedRange : Type 0 where
  pub start_ms : ℕ
  pub end_ms : ℕ
  pub timeframe_ms : ℕ
  pub expected_bars : ℕ

pub data RangeError : Type 0 where
  invalid_timeframe range_not_aligned empty_range range_overflow range_unavailable : RangeError

pub data Result {ℓ} (A : Type ℓ) : Type ℓ where
  ok : A → Result A
  err : RangeError → Result A

-- `a.is_multiple_of(b)`, for `b` that is not 0
abbrev pub is_multiple_of : ℕ → ℕ → Bool
is_multiple_of a b = a % b == 0

-- `ClosedRange::strict`
unfoldable pub strict : ℕ → ℕ → ℕ → Result ClosedRange
strict start_ms end_ms timeframe_ms =
    if timeframe_ms == 0
    then err invalid_timeframe
    else if not (is_multiple_of start_ms timeframe_ms) || not (is_multiple_of end_ms timeframe_ms)
    then err range_not_aligned
    else if leb end_ms start_ms
    then err empty_range
    else ok (record {
      start_ms = start_ms;
      end_ms = end_ms;
      timeframe_ms = timeframe_ms;
      expected_bars = (end_ms - start_ms) / timeframe_ms;
    })

-- The start rounded up to a multiple; `none` when that passes the largest `u64`.
abbrev pub round_up : ℕ → ℕ → Option ℕ
round_up requested_start_ms timeframe_ms =
    if requested_start_ms % timeframe_ms == 0
    then some requested_start_ms
    else checked_add requested_start_ms (timeframe_ms - requested_start_ms % timeframe_ms)

-- `ClosedRange::normalize`
unfoldable pub normalize : ℕ → ℕ → ℕ → Result ClosedRange
normalize requested_start_ms requested_end_ms timeframe_ms =
    if timeframe_ms == 0
    then err invalid_timeframe
    else elim (round_up requested_start_ms timeframe_ms) [
      | none ↦ err range_overflow
      | some start ↦ strict start (requested_end_ms / timeframe_ms * timeframe_ms) timeframe_ms
    ]

-- The start that lies `bars` bars before the end.
abbrev pub relative_start : ℕ → ℕ → ℕ → Result ℕ
relative_start end_ms timeframe_ms bars = elim (checked_mul bars timeframe_ms) [
  | none ↦ err range_overflow
  | some duration ↦ elim (checked_sub end_ms duration) [
    | none ↦ err range_unavailable
    | some start_ms ↦ ok start_ms
  ]
]

-- `ClosedRange::relative_closed`
unfoldable pub relative_closed : ℕ → ℕ → ℕ → Result ClosedRange
relative_closed now_ms timeframe_ms bars =
    if timeframe_ms == 0
    then err invalid_timeframe
    else elim (relative_start (now_ms / timeframe_ms * timeframe_ms) timeframe_ms bars) [
      | err e ↦ err e
      | ok start_ms ↦ strict start_ms (now_ms / timeframe_ms * timeframe_ms) timeframe_ms
    ]

pub record BarCoverage : Type 0 where
  pub expected_bars : ℕ
  pub observed_unique_bars : ℕ
  pub missing_bars : ℕ
  pub first_missing_ms : Option ℕ
  pub missing_sample_ms : List ℕ
  pub duplicate_bars : ℕ
  pub unexpected_bars : ℕ
  pub complete : Bool

-- The variables of the first loop of `coverage`.
pub record Seen : Type 0 where
  pub observed : List ℕ
  pub duplicates : ℕ
  pub unexpected : ℕ

abbrev pub on_grid : ClosedRange → ℕ → Bool
on_grid r time = not (
    ltb time r.start_ms
    || leb r.end_ms time
    || not (is_multiple_of (time - r.start_ms) r.timeframe_ms))

-- One round of the first loop.
unfoldable pub see : ClosedRange → ℕ → Seen → Seen
see r time s =
    if not (on_grid r time)
    then record s { unexpected = u64 (s.unexpected + 1) }
    else if contains s.observed time
    then record s { duplicates = u64 (s.duplicates + 1) }
    else record s { observed = time ∷ s.observed }

unfoldable pub see_all : ClosedRange → List ℕ → Seen → Seen
see_all r [] s = s
see_all r (time ∷ times) s = see_all r times (see r time s)

-- The variables of the second loop of `coverage`.
pub record Gaps : Type 0 where
  pub missing : ℕ
  pub first_missing_ms : Option ℕ
  pub missing_sample_ms : List ℕ

abbrev pub first_of_two : Option ℕ → ℕ → Option ℕ
first_of_two none time = some time
first_of_two (some t) time = some t

-- One round of the second loop.
unfoldable pub check_bar : List ℕ → ℕ → Gaps → Gaps
check_bar observed time g = if contains observed time then g else record {
  missing = u64 (g.missing + 1);
  first_missing_ms = first_of_two g.first_missing_ms time;
  missing_sample_ms =
      if ltb (length g.missing_sample_ms) 16
      then g.missing_sample_ms ++ time ∷ []
      else g.missing_sample_ms;
}

-- The second loop from `index` on, with `left` rounds to go.
unfoldable pub check_bars : ClosedRange → List ℕ → ℕ → ℕ → Gaps → Gaps
check_bars r observed zero index g = g
check_bars r observed (suc left) index g =
    check_bars r observed left (index + 1)
      (check_bar observed (u64 (r.start_ms + index * r.timeframe_ms)) g)

-- `ClosedRange::coverage`
unfoldable pub coverage : ClosedRange → List ℕ → BarCoverage
coverage r times =
    let s : Seen = see_all r times (record { observed = []; duplicates = 0; unexpected = 0 }) in
    let g : Gaps =
      check_bars r s.observed r.expected_bars 0
        (record { missing = 0; first_missing_ms = none; missing_sample_ms = [] }) in
    record {
      expected_bars = r.expected_bars;
      observed_unique_bars = length s.observed;
      missing_bars = g.missing;
      first_missing_ms = g.first_missing_ms;
      missing_sample_ms = g.missing_sample_ms;
      duplicate_bars = s.duplicates;
      unexpected_bars = s.unexpected;
      complete = g.missing == 0 && s.duplicates == 0 && s.unexpected == 0;
    }

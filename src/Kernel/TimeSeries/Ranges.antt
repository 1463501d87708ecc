-- ===== src/Kernel/TimeSeries/Ranges.antt =====
-- What `strict`, `normalize` and `relative_closed` of crates/okx-kernel/src/time_series.rs promise.
use native.Mathlib.Nat.{
  mul_comm, eq_of_mul-eq-mul_left, lt_of_mul-lt-mul_left, div-add-mod', mod-lt, mod-mod, add-mod,
  mul-mod_left, lt-div-mul-add, div-mul-le_self, mul-le-mul_left,
}
use okx.Prelude.{
  ℕ, ◌+◌, ◌-◌, ◌*◌, ◌/◌, ◌%◌, ◌≤◌, ◌<◌, ◌≡◌, sym, ap, ◌∙◌, some, false, arith, ◌==◌, Bool-cases,
  Option-cases, inl, inr,
}
use okx.Kernel.TimeSeries.{ClosedRange, ok, strict, normalize, relative_closed, round_up}

pub record IsValid (r : ClosedRange) : Type 0 where
  pub positive : 0 < r.timeframe_ms
  pub start_aligned : r.start_ms % r.timeframe_ms ≡ 0
  pub end_aligned : r.end_ms % r.timeframe_ms ≡ 0
  pub nonempty : r.start_ms < r.end_ms
  pub counted : r.expected_bars ≡ (r.end_ms - r.start_ms) / r.timeframe_ms

pub strict-ok :
    (s e tf : ℕ) {r : ClosedRange}
    → strict s e tf ≡ ok r
    → IsValid r × (r.start_ms ≡ s) × (r.end_ms ≡ e) × (r.timeframe_ms ≡ tf)
unfolding strict
strict-ok s e tf h = ground arith

pub strict_lem :
    (s e tf : ℕ)
    → 0 < tf
    → s % tf ≡ 0
    → e % tf ≡ 0
    → s < e
    → strict s e tf
      ≡ ok (record { start_ms = s; end_ms = e; timeframe_ms = tf; expected_bars = (e - s) / tf })
unfolding strict
strict_lem s e tf a b c d = ground arith

-- The distance of two multiples is a multiple.
pub sub-mod : (s e tf : ℕ) → s % tf ≡ 0 → e % tf ≡ 0 → s ≤ e → (e - s) % tf ≡ 0
sub-mod s e tf a b h =
    let whole : s + (e - s) ≡ e = omega arith in
    let grown : (e - s) % tf ≡ s % tf + (e - s) % tf = omega arith in
    sym (mod-mod (e - s) tf)
    ∙ ap (λ (t : ℕ). t % tf) grown
    ∙ sym (add-mod s (e - s) tf)
    ∙ ap (λ (t : ℕ). t % tf) whole
    ∙ b

-- A valid range is made of whole bars.
pub bars_fill :
    (r : ClosedRange) → IsValid r → r.start_ms + r.expected_bars * r.timeframe_ms ≡ r.end_ms
bars_fill r v = rw v.counted (
    omega (
      arith,
      div-add-mod' (r.end_ms - r.start_ms) r.timeframe_ms,
      sub-mod r.start_ms r.end_ms r.timeframe_ms v.start_aligned v.end_aligned (omega arith),
      v.nonempty,
    ))

round_up_aligned : (s tf : ℕ) → 0 < tf → (s + (tf - s % tf)) % tf ≡ 0
round_up_aligned s tf pos =
    let low : s % tf < tf = mod-lt s pos in
    let whole : s + (tf - s % tf) ≡ (s / tf + 1) * tf = omega (arith, div-add-mod' s tf) in
    rw whole (mul-mod_left (s / tf + 1) tf)

round_up_lem :
    (s tf : ℕ) {t : ℕ} → 0 < tf → round_up s tf ≡ some t → (t % tf ≡ 0) × (s ≤ t) × (t < s + tf)
round_up_lem s tf {t} pos h = elim (Bool-cases (s % tf == 0)) [
  | inl e ↦ ground arith
  | inr e ↦
      let low : s % tf < tf = mod-lt s pos in
      let aligned : (s + (tf - s % tf)) % tf ≡ 0 = round_up_aligned s tf pos in ground arith
]

-- What `normalize` returns covers every whole bar of the request, and nothing beside.
pub record Covers (s e tf : ℕ) (r : ClosedRange) : Type 0 where
  pub valid : IsValid r
  pub same_frame : r.timeframe_ms ≡ tf
  pub not_before : s ≤ r.start_ms
  pub start_close : r.start_ms < s + tf
  pub not_after : r.end_ms ≤ e
  pub end_close : e < r.end_ms + tf

normalize_starts :
    (s e tf t : ℕ) → 0 < tf → round_up s tf ≡ some t → normalize s e tf ≡ strict t (e / tf * tf) tf
unfolding normalize
normalize_starts s e tf t pos up = ground arith

-- A range that `normalize` returns is valid: its ends are multiples of the timeframe with the right
-- number of bars between them. It lies inside the request and leaves less than one bar at each end.
pub normalize-ok : (s e tf : ℕ) {r : ClosedRange} → normalize s e tf ≡ ok r → Covers s e tf r
unfolding normalize
normalize-ok s e tf h = elim (Bool-cases (tf == 0)) [
  | inl z ↦ ground arith
  | inr nz ↦ elim (Option-cases (round_up s tf)) [
    | inl none_up ↦ ground arith
    | inr (start, up) ↦
        let pos : 0 < tf = ground arith in
        let ends = normalize_starts s e tf start pos up in
        let (v, a, b, c) = strict-ok start (e / tf * tf) tf (sym ends ∙ h) in
        let (u, w, x) = round_up_lem s tf pos up in
        let close : e < e / tf * tf + tf = lt-div-mul-add pos in
        let under : e / tf * tf ≤ e = div-mul-le_self e tf in
        record {
          valid = v;
          same_frame = c;
          not_before = omega arith;
          start_close = omega arith;
          not_after = omega arith;
          end_close = omega arith;
        }
  ]
]

relative_start_lem :
    (now tf bars : ℕ) {r : ClosedRange}
    → (tf == 0) ≡ false
    → relative_closed now tf bars ≡ ok r
    → (bars * tf ≤ now / tf * tf) × (strict (now / tf * tf - bars * tf) (now / tf * tf) tf ≡ ok r)
unfolding relative_closed
relative_start_lem now tf bars nz h = ground arith

-- A range that `relative_closed` returns is valid, has the number of bars asked for, and ends at the
-- last multiple of the timeframe that is not after now.
pub relative_closed-ok :
    (now tf bars : ℕ) {r : ClosedRange}
    → relative_closed now tf bars ≡ ok r
    → IsValid r
      × (r.timeframe_ms ≡ tf)
      × (r.expected_bars ≡ bars)
      × (r.end_ms ≤ now)
      × (now < r.end_ms + tf)
unfolding relative_closed
relative_closed-ok now tf bars {r} h = elim (Bool-cases (tf == 0)) [
  | inl z ↦ ground arith
  | inr nz ↦
      let pos : 0 < tf = ground arith in
      let start = now / tf * tf - bars * tf in
      let (fits, ends) = relative_start_lem now tf bars nz h in
      let (v, a, b, c) = strict-ok start (now / tf * tf) tf ends in
      let close : now < now / tf * tf + tf = lt-div-mul-add pos in
      let under : now / tf * tf ≤ now = div-mul-le_self now tf in
      let filled : start + r.expected_bars * tf ≡ now / tf * tf =
        rw (← a, ← b, ← c) (bars_fill r v) in
      let counted : tf * r.expected_bars ≡ tf * bars =
        omega (arith, mul_comm tf r.expected_bars, mul_comm tf bars) in
      (v, c, eq_of_mul-eq-mul_left tf pos _ _ counted, omega arith, omega arith)
]

multiple_le : (x y tf : ℕ) → x % tf ≡ 0 → y % tf ≡ 0 → x < y + tf → x ≤ y
multiple_le x y tf a b h =
    let dx : tf * (x / tf) ≡ x = omega (arith, div-add-mod' x tf, mul_comm tf (x / tf)) in
    let dy : tf * (y / tf) ≡ y = omega (arith, div-add-mod' y tf, mul_comm tf (y / tf)) in
    let grown : tf * (y / tf + 1) ≡ y + tf = omega (arith, dy) in
    let below : x / tf < y / tf + 1 = lt_of_mul-lt-mul_left tf (rw (dx, grown) h) in
    rw (← dx, ← dy) (mul-le-mul_left tf (omega arith))

round_up_fits :
    (s tf a : ℕ)
    → 0 < tf
    → a % tf ≡ 0
    → s ≤ a
    → a < 18446744073709551616
    → (t : ℕ) × (round_up s tf ≡ some t) × (t ≤ a)
round_up_fits s tf a pos ha sa fits = elim (Bool-cases (s % tf == 0)) [
  | inl e ↦ (s, ground arith, sa)
  | inr e ↦
      let t = s + (tf - s % tf) in
      let low : s % tf < tf = mod-lt s pos in
      let under : t ≤ a = multiple_le t a tf (round_up_aligned s tf pos) ha (ground arith) in
      (t, ground arith, under)
]

-- Where some range `a` to `b` of multiples of the timeframe lies inside the request, `normalize`
-- returns a range that contains it.
pub normalize_widest :
    (s e tf a b : ℕ)
    → 0 < tf
    → a % tf ≡ 0
    → b % tf ≡ 0
    → s ≤ a
    → a < b
    → b ≤ e
    → a < 18446744073709551616
    → (r : ClosedRange) × (normalize s e tf ≡ ok r) × (r.start_ms ≤ a) × (b ≤ r.end_ms)
normalize_widest s e tf a b pos ha hb sa ab be fits =
    let (t, up, ta) = round_up_fits s tf a pos ha sa fits in
    let (t_aligned, st, _) = round_up_lem s tf pos up in
    let stop = e / tf * tf in
    let close : e < stop + tf = lt-div-mul-add pos in
    let stop_aligned : stop % tf ≡ 0 = mul-mod_left (e / tf) tf in
    let b_under : b ≤ stop = multiple_le b stop tf hb stop_aligned (omega arith) in
    (
      record { start_ms = t; end_ms = stop; timeframe_ms = tf; expected_bars = (stop - t) / tf },
      normalize_starts s e tf t pos up
          ∙ strict_lem t stop tf pos t_aligned stop_aligned (omega arith),
      ta,
      b_under,
    )

-- ===== src/Runtime/Private/Convergence.antt =====
-- crates/okx-runtime/src/private/state.rs: what a convergence window tells about the events since
-- its cursor was taken.
use Prim.Native.String.{String}
use mathlib.Core.List.{append-nil, append_assoc}
use okx.Prelude.{
  ℕ, suc, ltb, lt→ltb, ◌+◌, ◌-◌, ◌≤◌, ◌<◌, ◌≡◌, refl, sym, ap, subst, ◌∙◌, true, false, List, [],
  ◌∷◌, ◌++◌, arith, length, length-append, drop, drop-drop, drop_cong, drop-length, length-drop,
}
use okx.Runtime.Private.Types.{
  PrivateWsEvent, PrivateRuntimeState, PrivateConvergenceCursor, PrivateConvergenceWindow, ok, err,
  journal_gap,
}
use okx.Runtime.Private.State.{
  new, convergence_ready, convergence_cursor, convergence_window, has_gap, events_after,
}
use okx.Runtime.Private.Journal.{Journal, number, events_after-number}
use okx.Runtime.Private.Calls.{
  Call, begins, observes, step, run, histories, observed, Rising, run-Journal, histories-length,
  new-Journal, step-generation, begun,
}

module _ {B P O : Type 0} where
  pub generation_rises :
      (s : PrivateRuntimeState B P O) (g : ℕ) (cs : List (Call B P O))
      → s.generation ≡ g
      → Rising g cs
      → g ≤ (run s cs).generation
  unfolding run
  generation_rises s g [] e r = omega arith
  generation_rises s g (begins generation ∷ cs) e r =
      omega (
        arith,
        generation_rises (step s (begins generation)) generation cs (begun s generation) r.1,
      )
  generation_rises s g (c ∷ cs) e r =
      generation_rises (step s c) g cs (step-generation s c tt ∙ e) r

  -- While the generation stays, its history grows by the events observed.
  same_generation :
      (s : PrivateRuntimeState B P O) (h : List (PrivateWsEvent B P O)) (g : ℕ)
      (cs : List (Call B P O))
      → s.generation ≡ g
      → Rising g cs
      → (run s cs).generation ≡ g
      → histories h cs ≡ h ++ observed cs
  unfolding run histories
  same_generation s h g [] e r same = sym (append-nil h)
  same_generation s h g (begins generation ∷ cs) e r same =
      let later =
        generation_rises (step s (begins generation)) generation cs (begun s generation) r.1 in
      absurd (omega arith)
  same_generation s h g (observes event at ∷ cs) e r same =
      same_generation (step s (observes event at)) (h ++ event ∷ []) g cs
        (step-generation s (observes event at) tt ∙ e) r same
      ∙ append_assoc h (event ∷ []) (observed cs)
  same_generation s h g (c ∷ cs) e r same =
      same_generation (step s c) h g cs (step-generation s c tt ∙ e) r same

  window_parts :
      (fp : String → String) (s : PrivateRuntimeState B P O) (c : PrivateConvergenceCursor)
      {w : PrivateConvergenceWindow B P O}
      → convergence_window fp s c ≡ ok w
      → (c.generation ≡ s.generation)
        × (convergence_ready s ≡ true)
        × (has_gap c.sequence s.event_journal ≡ false)
        × (w.events ≡ events_after c.sequence s.event_journal)
  unfolding convergence_window
  window_parts fp s c h = (ground arith, ground arith, ground arith, ground arith)

  cursor_parts :
      (s : PrivateRuntimeState B P O) {c : PrivateConvergenceCursor}
      → convergence_cursor s ≡ ok c
      → (c.generation ≡ s.generation) × (c.sequence ≡ s.event_sequence)
  unfolding convergence_cursor
  cursor_parts s h = (ground arith, ground arith)

  -- A gap is seen exactly when an event behind the number has left the journal.
  has_gap-number :
      (c d : ℕ) (e : PrivateWsEvent B P O) (es : List (PrivateWsEvent B P O))
      → c + 1 < 18446744073709551616
      → has_gap c (number (suc d) (e ∷ es)) ≡ ltb c d
  has_gap-number c d e es short = ground arith

  no_gap :
      (c : ℕ) (h : List (PrivateWsEvent B P O)) (d : ℕ)
      → c + 1 < 18446744073709551616
      → d ≤ length h - 1
      → has_gap c (number (suc d) (drop d h)) ≡ false
      → d ≤ c
  no_gap c h d short le clear = no_gap_of (drop d h) refl
    where
      no_gap_of : (es : List (PrivateWsEvent B P O)) → drop d h ≡ es → d ≤ c
      no_gap_of [] e =
          let none_left : length h - d ≡ 0 = sym (length-drop d h) ∙ ap length e in omega arith
      no_gap_of (x ∷ es) e =
          let clear' : has_gap c (number (suc d) (x ∷ es)) ≡ false =
            subst (λ l. has_gap c (number (suc d) l) ≡ false) e clear in
          let within : ltb c d ≡ false = sym (has_gap-number c d x es short) ∙ clear' in
          ground arith

  -- The window of a state with the history `h ++ es`, behind the number of the last event of `h`.
  window-history :
      (fp : String → String) (s : PrivateRuntimeState B P O) (h es : List (PrivateWsEvent B P O))
      (c : PrivateConvergenceCursor) {w : PrivateConvergenceWindow B P O}
      → Journal s (h ++ es)
      → c.sequence ≡ length h
      → length h + 1 < 18446744073709551616
      → convergence_window fp s c ≡ ok w
      → (w.events ≡ es) × (length es ≤ 4096)
  window-history fp s h es c j at short got =
      let (_, _, clear, events) = window_parts fp s c got in
      let all = h ++ es in
      let d = length all - 4096 in
      let sizes = length-append h es in
      let clear' : has_gap c.sequence (number (suc d) (drop d all)) ≡ false =
        sym (ap (has_gap c.sequence) j.kept) ∙ clear in
      let kept : d ≤ c.sequence = no_gap c.sequence all d (omega arith) (omega arith) clear' in
      let whole : d + (c.sequence - d) ≡ length h = omega arith in
      (
        events
            ∙ ap (events_after c.sequence) j.kept
            ∙ events_after-number c.sequence d (drop d all)
            ∙ drop-drop (c.sequence - d) d all
            ∙ drop_cong (d + (c.sequence - d)) (length h) all whole
            ∙ drop-length h es,
        omega arith,
      )

  -- The history when a cursor is taken, and the journal later in the same generation.
  since_cursor :
      (before after : List (Call B P O)) {c : PrivateConvergenceCursor}
      → convergence_cursor (run new before) ≡ ok c
      → Rising (run {B = B} {P = P} {O = O} new before).generation after
      → length before + length after + 1 < 18446744073709551616
      → (run (run new before) after).generation
        ≡ (run {B = B} {P = P} {O = O} new before).generation
      → (h : List (PrivateWsEvent B P O)) × (c.sequence ≡ length h)
        × (length h ≤ length before)
        × Journal (run (run new before) after) (h ++ observed after)
  since_cursor before after {c} taken rising short same =
      let s = run {B = B} {P = P} {O = O} new before in
      let h = histories [] before in
      let seen = histories-length [] before in
      let j = run-Journal new [] before (omega arith) new-Journal in
      let grown = same_generation s h s.generation after refl rising same in
      (
        h,
        (cursor_parts s taken).1 ∙ j.counted,
        omega arith,
        subst (λ l. Journal (run s after) l) grown (run-Journal s h after (omega arith) j),
      )

  -- Whatever happens between taking a cursor and reading its window, a window that is returned
  -- holds exactly the events observed in between, in their order, and there are at most 4096 of
  -- them. Generations only rise, and fewer than 2^64 - 1 calls are made.
  pub window-observed :
      (fp : String → String) (before after : List (Call B P O)) {c : PrivateConvergenceCursor}
      {w : PrivateConvergenceWindow B P O}
      → convergence_cursor (run new before) ≡ ok c
      → Rising (run {B = B} {P = P} {O = O} new before).generation after
      → length before + length after + 1 < 18446744073709551616
      → convergence_window fp (run (run new before) after) c ≡ ok w
      → (w.events ≡ observed after) × (length (observed after) ≤ 4096)
  window-observed fp before after {c} taken rising short got =
      let s = run {B = B} {P = P} {O = O} new before in
      let same = sym (window_parts fp (run s after) c got).0 ∙ (cursor_parts s taken).0 in
      let (h, at, few, j) = since_cursor before after taken rising short same in
      window-history fp (run s after) h (observed after) c j at (omega arith) got

  gap_error :
      (fp : String → String) (s : PrivateRuntimeState B P O) (c : PrivateConvergenceCursor)
      → c.generation ≡ s.generation
      → convergence_ready s ≡ true
      → has_gap c.sequence s.event_journal ≡ true
      → convergence_window fp s c ≡ err journal_gap
  unfolding convergence_window
  gap_error fp s c g ready gap = ground arith

  -- With more than 4096 events behind it a number has a gap.
  gap_seen :
      (s : PrivateRuntimeState B P O) (h es : List (PrivateWsEvent B P O)) (c : ℕ)
      → Journal s (h ++ es)
      → c ≡ length h
      → c + 1 < 18446744073709551616
      → 4096 < length es
      → has_gap c s.event_journal ≡ true
  gap_seen s h es c j at short many =
      let all = h ++ es in
      let d = length all - 4096 in
      let sizes = length-append h es in
      ap (has_gap c) j.kept ∙ gap_of d (drop d all) (length-drop d all) (omega arith)
    where
      gap_of :
          (d : ℕ) (left : List (PrivateWsEvent B P O))
          → length left ≡ length (h ++ es) - d
          → (c < d) × (0 < length (h ++ es) - d)
          → has_gap c (number (suc d) left) ≡ true
      gap_of d [] size (lt, some_left) = absurd (omega arith)
      gap_of d (x ∷ left) size (lt, some_left) = has_gap-number c d x left short ∙ lt→ltb c d lt

  -- If more than 4096 events of the same generation were observed since the cursor, a ready state
  -- refuses the window with a journal gap. Generations only rise, and fewer than 2^64 - 1 calls are
  -- made.
  pub window-gap :
      (fp : String → String) (before after : List (Call B P O)) {c : PrivateConvergenceCursor}
      → convergence_cursor (run new before) ≡ ok c
      → Rising (run {B = B} {P = P} {O = O} new before).generation after
      → length before + length after + 1 < 18446744073709551616
      → (run (run new before) after).generation
        ≡ (run {B = B} {P = P} {O = O} new before).generation
      → convergence_ready (run (run new before) after) ≡ true
      → 4096 < length (observed after)
      → convergence_window fp (run (run new before) after) c ≡ err journal_gap
  window-gap fp before after {c} taken rising short same ready many =
      let s = run {B = B} {P = P} {O = O} new before in
      let (h, at, few, j) = since_cursor before after taken rising short same in
      gap_error fp (run s after) c ((cursor_parts s taken).0 ∙ sym same) ready
        (gap_seen (run s after) h (observed after) c.sequence j at (omega arith) many)

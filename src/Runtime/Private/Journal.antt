-- ===== src/Runtime/Private/Journal.antt =====
-- crates/okx-runtime/src/private/state.rs: the event journal holds the last events of a
-- generation under consecutive numbers.
use mathlib.Core.Path.{ap₂}
use okx.Prelude.Words.{saturating_add}
use okx.Prelude.{
  ℕ, zero, suc, ◌+◌, ◌-◌, ◌<◌, ◌≡◌, refl, sym, ap, ◌∙◌, List, [], ◌∷◌, ◌++◌, arith, ltb, length,
  length-append, drop, length-drop, drop-drop, drop-append, drop-nil, drop_cong, Bool-cases, inl,
  inr,
}
use okx.Runtime.Private.Types.{PrivateWsEvent, PrivateRuntimeState}
use okx.Runtime.Private.State.{events_after, trim, observe_event}

module _ {B P O : Type 0} where
  -- Events under consecutive numbers from `n` on.
  abbrev pub number : ℕ → List (PrivateWsEvent B P O) → List (ℕ × PrivateWsEvent B P O)
  number n [] = []
  number n (e ∷ es) = (n, e) ∷ number (suc n) es

  pub length-number : (n : ℕ) (es : List (PrivateWsEvent B P O)) → length (number n es) ≡ length es
  length-number n [] = refl
  length-number n (e ∷ es) = ap suc (length-number (suc n) es)

  number-append :
      (n : ℕ) (es : List (PrivateWsEvent B P O)) (e : PrivateWsEvent B P O)
      → number n (es ++ e ∷ []) ≡ number n es ++ (n + length es, e) ∷ []
  number-append n [] e = ap (λ (k : ℕ). (k, e) ∷ []) (omega arith)
  number-append n (x ∷ es) e =
      ap (λ l. (n, x) ∷ l)
        (number-append (suc n) es e
          ∙ ap (λ (k : ℕ). number (suc n) es ++ (k, e) ∷ []) (omega arith))

  drop-number :
      (k n : ℕ) (es : List (PrivateWsEvent B P O))
      → drop k (number n es) ≡ number (n + k) (drop k es)
  drop-number zero n es = ap (λ (j : ℕ). number j es) (omega arith)
  drop-number (suc k) n [] = refl
  drop-number (suc k) n (e ∷ es) =
      drop-number k (suc n) es ∙ ap (λ (j : ℕ). number j (drop k es)) (omega arith)

  -- The loop of `observe_event` drops what is over the capacity.
  trim-drop :
      (capacity : ℕ) (j : List (ℕ × PrivateWsEvent B P O))
      → trim capacity j ≡ drop (length j - capacity) j
  unfolding trim
  trim-drop capacity [] = sym (drop-nil (0 - capacity))
  trim-drop capacity (x ∷ j) = elim (Bool-cases (ltb capacity (length (x ∷ j)))) [
    | inl over ↦
        let one : length (x ∷ j) - capacity ≡ suc (length j - capacity) = ground arith in
        rw (over, one) (trim-drop capacity j)
    | inr fits ↦
        let none_over : length (x ∷ j) - capacity ≡ 0 = ground arith in rw (fits, none_over)
  ]

  -- The journal of a state whose generation has seen the events `h`, oldest first.
  pub record Journal (s : PrivateRuntimeState B P O) (h : List (PrivateWsEvent B P O))
      : Type 0 where
    pub counted : s.event_sequence ≡ length h
    pub kept : s.event_journal ≡ number (suc (length h - 4096)) (drop (length h - 4096) h)

  observe-journal :
      (h : List (PrivateWsEvent B P O)) (e : PrivateWsEvent B P O)
      → trim 4096
          (number (suc (length h - 4096)) (drop (length h - 4096) h) ++ (length h + 1, e) ∷ [])
        ≡ number
            (suc (length (h ++ e ∷ []) - 4096))
            (drop (length (h ++ e ∷ []) - 4096) (h ++ e ∷ []))
  observe-journal h e =
      let d = length h - 4096 in
      let h' = h ++ e ∷ [] in
      let journal = number (suc d) (drop d h) ++ (length h + 1, e) ∷ [] in
      let grown : length h' ≡ length h + 1 = length-append h (e ∷ []) in
      let last : suc d + length (drop d h) ≡ length h + 1 = omega (arith, length-drop d h) in
      let whole : journal ≡ number (suc d) (drop d h') =
        ap (λ (k : ℕ). number (suc d) (drop d h) ++ (k, e) ∷ []) (sym last)
        ∙ sym (number-append (suc d) (drop d h) e)
        ∙ ap (number (suc d)) (sym (drop-append d h (e ∷ []) (omega arith))) in
      let k = length journal - 4096 in
      let size : length journal ≡ length h' - d =
        ap length whole ∙ length-number (suc d) (drop d h') ∙ length-drop d h' in
      let there : d + k ≡ length h' - 4096 = omega arith in
      let there' : suc d + k ≡ suc (length h' - 4096) = omega arith in
      trim-drop 4096 journal
      ∙ ap (drop k) whole
      ∙ drop-number k (suc d) (drop d h')
      ∙ ap₂ number there' (drop-drop k d h' ∙ drop_cong (d + k) (length h' - 4096) h' there)

  pub observe_event-Journal :
      (s : PrivateRuntimeState B P O) (h : List (PrivateWsEvent B P O)) (e : PrivateWsEvent B P O)
      (at : ℕ)
      → length h + 1 < 18446744073709551616
      → Journal s h
      → Journal (observe_event s e at) (h ++ e ∷ [])
  unfolding observe_event
  observe_event-Journal s h e at short j =
      let grown : length (h ++ e ∷ []) ≡ length h + 1 = length-append h (e ∷ []) in
      let next : saturating_add s.event_sequence 1 ≡ length h + 1 = ground arith in
      record {
        counted = next ∙ sym grown;
        kept =
            ap (trim 4096) (ap₂ (λ j' (n : ℕ). j' ++ (n, e) ∷ []) j.kept next)
            ∙ observe-journal h e;
      }

  -- The events behind the number `c`, and whether one of them is lost.
  pub events_after-number :
      (c n : ℕ) (es : List (PrivateWsEvent B P O))
      → events_after c (number (suc n) es) ≡ drop (c - n) es
  events_after-number c n [] = sym (drop-nil (c - n))
  events_after-number c n (e ∷ es) =
      let rest = events_after-number c (suc n) es in
      elim (Bool-cases (ltb c (suc n))) [
        | inl before ↦
            let none_dropped : c - suc n ≡ 0 = ground arith in
            let at_start : c - n ≡ 0 = ground arith in
            rw (before, at_start) (ap (λ l. e ∷ l) (rest ∙ drop_cong (c - suc n) 0 es none_dropped))
        | inr after ↦
            let one_more : c - n ≡ suc (c - suc n) = ground arith in rw (after, one_more) rest
      ]

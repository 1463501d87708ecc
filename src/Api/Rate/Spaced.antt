-- ===== src/Api/Rate/Spaced.antt =====
-- crates/okx-api/src/rate.rs: attempts that keep their distance, and what `prune` and an
-- admission do to them.
use mathlib.Core.List.{append_assoc}
use native.Mathlib.Decide.{dec_lt}
use okx.Prelude.{
  ℕ, ◌+◌, ◌-◌, ◌≤◌, ◌<◌, ◌≡◌, refl, sym, ap, subst, ◌∙◌, inl, inr, List, [], ◌∷◌, ◌++◌, some, arith,
  length, leb, Bool-cases, All, All-append, All-mono, get_elem?, get_elem?-append_left,
  get_elem?-append_right, get_elem?-lt, get_elem?-All, length-append,
}
use okx.Api.Rate.Budget.{from_millis, prune}

-- An attempt is entered, if at all, `h` nanoseconds or more after the attempt `m` places before.
abbrev pub Spaced : ℕ → ℕ → List ℕ → Type 0
Spaced m h log = (i a b : ℕ) → get_elem? log i ≡ some a → get_elem? log (i + m) ≡ some b → a + h ≤ b

abbrev pub Aged : ℕ → ℕ → List ℕ → Type 0
Aged h now = All (λ a. a + h ≤ now)

-- The log of the attempts is made of those that were pruned and those that are kept.
pub record Kept (m h now : ℕ) (log attempts : List ℕ) : Type 0 where
  pub old : List ℕ
  pub split : log ≡ old ++ attempts
  pub aged : Aged h now old
  pub spaced : Spaced m h log

-- What `prune` drops is as old as the window is long.
pub prune_split :
    (xs : List ℕ) (h w now : ℕ)
    → 0 < h
    → h ≤ from_millis w
    → (old : List ℕ) × (xs ≡ old ++ prune xs w now) × Aged h now old
unfolding prune
prune_split [] h w now pos le = ([], refl, tt)
prune_split (x ∷ xs) h w now pos le = elim (Bool-cases (leb (from_millis w) (now - x))) [
  | inl e ↦
      let (old, split, aged) = prune_split xs h w now pos le in
      (x ∷ old, ground arith, (ground arith, aged))
  | inr e ↦ ([], ground arith, tt)
]

pub Aged-mono : (h now now' : ℕ) (xs : List ℕ) → now ≤ now' → Aged h now xs → Aged h now' xs
Aged-mono h now now' xs le = All-mono _ _ xs (λ a p. omega arith)

pub Kept-prune :
    (m h w now now' : ℕ) (log attempts : List ℕ)
    → 0 < h
    → h ≤ from_millis w
    → now ≤ now'
    → Kept m h now log attempts
    → Kept m h now' log (prune attempts w now')
Kept-prune m h w now now' log attempts pos le later k =
    let (old, split, aged) = prune_split attempts h w now' pos le in
    record {
      old = k.old ++ old;
      split = k.split ∙ ap (◌++◌ k.old) split ∙ sym (append_assoc k.old old _);
      aged = All-append _ k.old old (Aged-mono h now now' k.old later k.aged) aged;
      spaced = k.spaced;
    }

-- The last entry of a log.
last_entry :
    (log : List ℕ) (now j : ℕ) {b : ℕ}
    → length log ≤ j
    → get_elem? (log ++ now ∷ []) j ≡ some b
    → (j ≡ length log) × (now ≡ b)
last_entry log now j {b} le e =
    let at_end : get_elem? (now ∷ []) (j - length log) ≡ some b =
      sym (get_elem?-append_right log (now ∷ []) j le) ∙ e in
    let short = get_elem?-lt (now ∷ []) (j - length log) at_end in
    let here : j ≡ length log = omega arith in
    let first : j - length log ≡ 0 = omega arith in
    let it : get_elem? (now ∷ []) 0 ≡ some b =
      subst (λ n. get_elem? (now ∷ []) n ≡ some b) first at_end in
    (here, cc it)

Spaced-snoc :
    (m h now : ℕ) (log attempts : List ℕ)
    → Kept m h now log attempts
    → length attempts < m
    → Spaced m h (log ++ now ∷ [])
Spaced-snoc m h now log attempts k few i a b ha hb =
    let sizes : length log ≡ length k.old + length attempts =
      ap length k.split ∙ length-append k.old attempts in
    elim (dec_lt (i + m) (length log)) [
      | yes inside ↦
          k.spaced i a b (sym (get_elem?-append_left log (now ∷ []) i (omega arith)) ∙ ha)
            (sym (get_elem?-append_left log (now ∷ []) (i + m) inside) ∙ hb)
      | no outside ↦
          let (at_end, is_now) = last_entry log now (i + m) (omega arith) hb in
          let low : i < length k.old = omega arith in
          let in_log : get_elem? log i ≡ some a =
            sym (get_elem?-append_left log (now ∷ []) i (omega arith)) ∙ ha in
          let in_both : get_elem? (k.old ++ attempts) i ≡ some a =
            subst (λ (l : List ℕ). get_elem? l i ≡ some a) k.split in_log in
          let in_old : get_elem? k.old i ≡ some a =
            sym (get_elem?-append_left k.old attempts i low) ∙ in_both in
          let aged = get_elem?-All (λ x. x + h ≤ now) k.old i k.aged in_old in omega arith
    ]

-- An attempt entered while fewer than `m` are kept.
pub Kept-snoc :
    (m h now : ℕ) (log attempts : List ℕ)
    → length attempts < m
    → Kept m h now log attempts
    → Kept m h now (log ++ now ∷ []) (attempts ++ now ∷ [])
Kept-snoc m h now log attempts few k = record {
  old = k.old;
  split = grown;
  aged = k.aged;
  spaced = Spaced-snoc m h now log attempts k few;
}
  where
    grown : log ++ now ∷ [] ≡ k.old ++ (attempts ++ now ∷ [])
    grown = ap (λ (l : List ℕ). l ++ now ∷ []) k.split ∙ append_assoc k.old attempts (now ∷ [])

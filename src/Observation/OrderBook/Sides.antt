-- ===== src/Observation/OrderBook/Sides.antt =====
-- crates/okx-observation/src/order_book.rs: a side of the book under insertions and removals.
use mathlib.Core.Logic.{ite}
use okx.Prelude.{
  ◌≡◌, refl, ◌≢◌, inl, inr, true, none, some, [], ◌∷◌, All, All-mono, arith, Bool-cases,
}
use okx.Prelude.Decimals.{Decimals}
use okx.Observation.OrderBook.Defs.{BookLevel, Side, insert, remove, get}

module _ (dec : Decimals) where
  open dec use {Decimal, Decimal-discrete, decimal_zero, parse, lt, lt_irrefl, lt_trans, lt_total}

  abbrev pub Above : Decimal → Side dec → Type 0
  Above p = All (λ entry. lt p entry.0 ≡ true)

  -- The prices rise strictly.
  abbrev pub Rising : Side dec → Type 0
  Rising [] = Unit
  Rising ((p, l) ∷ side) = Above p side × Rising side

  insert-Above :
      (q p : Decimal) (level : BookLevel) (side : Side dec)
      → lt q p ≡ true
      → Above q side
      → Above q (insert dec p level side)
  unfolding insert
  insert-Above q p level [] h a = (h, tt)
  insert-Above q p level ((r, l) ∷ side) h a = ground (arith, insert-Above q p level side h a.1)

  Above-trans : (p r : Decimal) (side : Side dec) → lt p r ≡ true → Above r side → Above p side
  Above-trans p r side h a = All-mono _ _ side (λ entry g. lt_trans p r entry.0 h g) a

  pub insert-Rising :
      (p : Decimal) (level : BookLevel) (side : Side dec)
      → Rising side
      → Rising (insert dec p level side)
  unfolding insert
  insert-Rising p level [] h = (tt, tt)
  insert-Rising p level ((r, l) ∷ side) h =
      let rest = insert-Rising p level side h.1 in
      elim (Bool-cases (lt p r)) [
        | inl less ↦ ground (arith, Above-trans p r side less h.0)
        | inr more ↦
            ground
              (arith, rest, λ (n : p ≢ r). insert-Above r p level side (lt_total p r n more) h.0)
      ]

  remove-Above : (q p : Decimal) (side : Side dec) → Above q side → Above q (remove dec p side)
  unfolding remove
  remove-Above q p [] a = tt
  remove-Above q p ((r, l) ∷ side) a = ground (arith, remove-Above q p side a.1)

  pub remove-Rising : (p : Decimal) (side : Side dec) → Rising side → Rising (remove dec p side)
  unfolding remove
  remove-Rising p [] h = tt
  remove-Rising p ((r, l) ∷ side) h =
      ground (arith, remove-Above r p side h.0, remove-Rising p side h.1)

  -- A property of the entries that the new one has.
  pub insert-All :
      (P : Decimal × BookLevel → Type 0) (p : Decimal) (level : BookLevel) (side : Side dec)
      → ((r : Decimal) → p ≡ r → P (r, level))
      → All P side
      → All P (insert dec p level side)
  unfolding insert
  insert-All P p level [] new h = (new p refl, tt)
  insert-All P p level ((r, l) ∷ side) new h =
      ground (arith, new p refl, new r, insert-All P p level side new h.1)

  pub remove-All :
      (P : Decimal × BookLevel → Type 0) (p : Decimal) (side : Side dec)
      → All P side
      → All P (remove dec p side)
  unfolding remove
  remove-All P p [] h = tt
  remove-All P p ((r, l) ∷ side) h = ground (arith, remove-All P p side h.1)

  -- No price below the first is on a side.
  get-Above : (p : Decimal) (side : Side dec) → Above p side → get dec p side ≡ none
  unfolding get
  get-Above p [] a = refl
  get-Above p ((r, l) ∷ side) a = ground (arith, get-Above p side a.1, lt_irrefl r)

  pub get-insert :
      (q p : Decimal) (level : BookLevel) (side : Side dec)
      → get dec q (insert dec p level side)
        ≡ ite (Decimal-discrete q p) (some level) (get dec q side)
  unfolding insert get
  get-insert q p level [] = refl
  get-insert q p level ((r, l) ∷ side) = ground (arith, get-insert q p level side)

  pub get-remove :
      (q p : Decimal) (side : Side dec)
      → Rising side
      → get dec q (remove dec p side) ≡ ite (Decimal-discrete q p) none (get dec q side)
  unfolding remove get
  get-remove q p [] h = ground arith
  get-remove q p ((r, l) ∷ side) h = ground (arith, get-remove q p side h.1, get-Above r side h.0)

-- ===== src/Observation/OrderBook/Levels.antt =====
-- crates/okx-observation/src/order_book.rs: what the levels of a message make of a side.
use mathlib.Core.Logic.{ite}
use okx.Prelude.{
  ◌≡◌, refl, sym, ◌∙◌, ap, subst, true, false, Option, none, some, List, [], ◌∷◌, All, arith,
}
use okx.Prelude.Decimals.{Decimals}
use okx.Observation.OrderBook.Defs.{
  BookLevel, BookLevelUpdate, Side, Result, ok, err, ◌>>=◌, insert, remove, get, decimal,
  apply_level, apply_levels,
}
use okx.Observation.OrderBook.Sides.{
  Rising, insert-Rising, remove-Rising, insert-All, remove-All, get-insert, get-remove,
}

-- The level an update states.
abbrev pub level_of : BookLevelUpdate → BookLevel
level_of update = record {
  price = update.price;
  size = update.size;
  order_count = update.order_count;
}

pub bind-ok {ℓ κ} :
    {A : Type ℓ} {B : Type κ} (r : Result A) (f : A → Result B) {b : B}
    → (r >>= f) ≡ ok b
    → (a : A) × (r ≡ ok a) × (f a ≡ ok b)
bind-ok (ok a) f h = (a, refl, h)
bind-ok (err e) f h = cc h

module _ (dec : Decimals) where
  open dec use {Decimal, Decimal-discrete, decimal_zero, parse, lt, lt_total}

  -- An entry stands under the positive price its text reads, and its size is positive.
  pub record IsEntry (entry : Decimal × BookLevel) : Type 0 where
    pub priced : parse entry.1.price ≡ some entry.0
    pub positive : lt decimal_zero entry.0 ≡ true
    pub size : Decimal
    pub sized : parse entry.1.size ≡ some size
    pub present : lt decimal_zero size ≡ true

  pub record IsSide (side : Side dec) : Type 0 where
    pub rising : Rising dec side
    pub entries : All IsEntry side

  -- What an update that is accepted does to a side.
  pub record Applied (side : Side dec) (update : BookLevelUpdate) (next : Side dec) : Type 0 where
    pub price : Decimal
    pub size : Decimal
    pub priced : parse update.price ≡ some price
    pub positive : lt decimal_zero price ≡ true
    pub sized : parse update.size ≡ some size
    pub not_negative : lt size decimal_zero ≡ false
    pub result :
        next
        ≡ ite
            (Decimal-discrete size decimal_zero)
            (remove dec price side)
            (insert dec price (level_of update) side)

  pub apply_level-Applied :
      (side : Side dec) (update : BookLevelUpdate) {next : Side dec}
      → apply_level dec side update ≡ ok next
      → Applied side update next
  unfolding apply_level decimal
  apply_level-Applied side update h = ground arith

  pub empty-IsSide : IsSide []
  empty-IsSide = record { rising = tt; entries = tt }

  apply_level-IsSide :
      (side : Side dec) (update : BookLevelUpdate) {next : Side dec}
      → apply_level dec side update ≡ ok next
      → IsSide side
      → IsSide next
  apply_level-IsSide side update {next} h s =
      let a = apply_level-Applied side update h in
      elim (Decimal-discrete a.size decimal_zero) [
        | yes zero_size ↦
            let same : next ≡ remove dec a.price side = ground (arith, a.result) in
            subst IsSide (sym same) (record {
              rising = remove-Rising dec a.price side s.rising;
              entries = remove-All dec IsEntry a.price side s.entries;
            })
        | no n ↦
            let same : next ≡ insert dec a.price (level_of update) side =
              ground (arith, a.result) in
            let more = lt_total a.size decimal_zero n a.not_negative in
            subst IsSide (sym same) (record {
              rising = insert-Rising dec a.price (level_of update) side s.rising;
              entries =
                  insert-All dec IsEntry a.price (level_of update) side
                    (λ r e. record {
                      priced = a.priced ∙ ap some e;
                      positive = subst (λ d. lt decimal_zero d ≡ true) e a.positive;
                      size = a.size;
                      sized = a.sized;
                      present = more;
                    })
                    s.entries;
            })
      ]

  -- The levels of a message leave a side ordered, and every entry of it positive.
  pub apply_levels-IsSide :
      (side : Side dec) (levels : List BookLevelUpdate) {next : Side dec}
      → apply_levels dec side levels ≡ ok next
      → IsSide side
      → IsSide next
  unfolding apply_levels
  apply_levels-IsSide side [] h s = subst IsSide (cc h) s
  apply_levels-IsSide side (update ∷ levels) {next} h s =
      let (middle, one, rest) =
        bind-ok (apply_level dec side update) (λ n. apply_levels dec n levels) h in
      apply_levels-IsSide middle levels rest (apply_level-IsSide side update one s)

  -- What an update states for the price `q`: none for a size of zero, and `old` for another price.
  abbrev after_update : Decimal → BookLevelUpdate → Option BookLevel → Option BookLevel
  after_update q update old = elim (parse update.price) [
    | none ↦ old
    | some price ↦
        ite (Decimal-discrete q price)
          (elim (parse update.size) [
            | none ↦ none
            | some size ↦ ite (Decimal-discrete size decimal_zero) none (some (level_of update))
          ])
          old
  ]

  get-apply_level :
      (q : Decimal) (side : Side dec) (update : BookLevelUpdate) {next : Side dec}
      → IsSide side
      → apply_level dec side update ≡ ok next
      → get dec q next ≡ after_update q update (get dec q side)
  get-apply_level q side update s h =
      let a = apply_level-Applied side update h in
      ground (
        arith,
        a.result,
        a.priced,
        a.sized,
        get-remove dec q a.price side s.rising,
        get-insert dec q a.price (level_of update) side,
      )

  -- The last level that a list of updates states for the price `q`; `old` where none names it.
  abbrev pub written : Decimal → List BookLevelUpdate → Option BookLevel → Option BookLevel
  written q [] old = old
  written q (update ∷ levels) old = written q levels (after_update q update old)

  -- Reading a side after the levels of a message gives the last level that they state for the price,
  -- and what the side had before where they state none.
  pub get-apply_levels :
      (q : Decimal) (side : Side dec) (levels : List BookLevelUpdate) {next : Side dec}
      → IsSide side
      → apply_levels dec side levels ≡ ok next
      → get dec q next ≡ written q levels (get dec q side)
  unfolding apply_levels
  get-apply_levels q side [] s h = ground arith
  get-apply_levels q side (update ∷ levels) s h =
      let (middle, one, rest) =
        bind-ok (apply_level dec side update) (λ n. apply_levels dec n levels) h in
      get-apply_levels q middle levels (apply_level-IsSide side update one s) rest
      ∙ ap (written q levels) (get-apply_level q side update s one)

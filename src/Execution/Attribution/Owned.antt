-- ===== src/Execution/Attribution/Owned.antt =====
-- crates/okx-execution/src/finance/attribution.rs: whose lots a reduction changes.
use Prim.Native.String.{String}
use okx.Prelude.{
  arith, ℕ, zero, suc, Bool, true, false, not, ◌&&◌, ◌||◌, List, [], ◌∷◌, map, some, get_elem?,
  All-mono, All, ◌≡◌, refl, ap, subst, ◌∙◌, Bool-cases, inl, inr, if◌then◌else◌,
}
use okx.Prelude.Decimals.{Decimals}
use okx.Prelude.Results.{Result, ok, err, ◌>>=◌, reject, bind-ok, ok_inj}
use okx.Execution.Attribution.{
  Arithmetic, is_zero, is_positive, shift, take_from, PositionLot, LotReduction, belongs, open_lots,
  sort_in, sort, set_qty, write, available, consume, reductions, settle, reduce_fifo,
}

module _ (dec : Decimals) (instance_id instrument_id : String) where
  open dec use {Decimal}

  -- The lot is the same but for its quantity, and wholly the same if it is of another instance or
  -- instrument.
  abbrev pub KeptLot : PositionLot dec → PositionLot dec → Type 0
  KeptLot lot lot' =
      (lot' ≡ record lot { signed_qty = lot'.signed_qty })
      × (belongs dec instance_id instrument_id lot ≡ false → lot' ≡ lot)

  -- Lot by lot.
  abbrev pub Kept : List (PositionLot dec) → List (PositionLot dec) → Type 0
  Kept [] [] = Unit
  Kept (lot ∷ lots) (lot' ∷ lots') = KeptLot lot lot' × Kept lots lots'
  Kept _ _ = ⊥

  -- At this place stands a lot of the instance and the instrument.
  abbrev OwnAt : List (PositionLot dec) → ℕ → Type 0
  OwnAt lots i =
      (lot : PositionLot dec) × (get_elem? lots i ≡ some lot)
      × (belongs dec instance_id instrument_id lot ≡ true)

  Kept-refl : (lots : List (PositionLot dec)) → Kept lots lots
  Kept-refl [] = tt
  Kept-refl (lot ∷ lots) = ((refl, λ h. refl), Kept-refl lots)

  KeptLot-belongs :
      (a b : PositionLot dec)
      → KeptLot a b
      → belongs dec instance_id instrument_id b ≡ belongs dec instance_id instrument_id a
  KeptLot-belongs a b k = ap (belongs dec instance_id instrument_id) k.0

  KeptLot-trans : (a b c : PositionLot dec) → KeptLot a b → KeptLot b c → KeptLot a c
  KeptLot-trans a b c k l = (
    l.0 ∙ ap (λ (x : PositionLot dec). record x { signed_qty = c.signed_qty }) k.0,
    λ h. l.1 (KeptLot-belongs a b k ∙ h) ∙ k.1 h,
  )

  Kept-trans : (xs ys zs : List (PositionLot dec)) → Kept xs ys → Kept ys zs → Kept xs zs
  Kept-trans [] [] [] k l = tt
  Kept-trans [] [] (z ∷ zs) k l = elim l [ ]
  Kept-trans [] (y ∷ ys) zs k l = elim k [ ]
  Kept-trans (x ∷ xs) [] zs k l = elim k [ ]
  Kept-trans (x ∷ xs) (y ∷ ys) [] k l = elim l [ ]
  Kept-trans (x ∷ xs) (y ∷ ys) (z ∷ zs) k l =
      (KeptLot-trans x y z k.0 l.0, Kept-trans xs ys zs k.1 l.1)

  set_qty-Kept :
      (i : ℕ) (q : Decimal) (lots : List (PositionLot dec))
      → OwnAt lots i
      → Kept lots (set_qty dec i q lots)
  unfolding set_qty
  set_qty-Kept i q [] o = tt
  set_qty-Kept zero q (lot ∷ lots) (l, e, b) =
      let same : lot ≡ l = cc e in
      let own : belongs dec instance_id instrument_id lot ≡ true =
        ap (belongs dec instance_id instrument_id) same ∙ b in
      ((refl, λ h. cc (h, own)), Kept-refl lots)
  set_qty-Kept (suc i) q (lot ∷ lots) o = ((refl, λ h. refl), set_qty-Kept i q lots o)

  Kept-OwnAt : (xs ys : List (PositionLot dec)) (i : ℕ) → Kept xs ys → OwnAt xs i → OwnAt ys i
  Kept-OwnAt [] [] i k o = o
  Kept-OwnAt [] (y ∷ ys) i k o = elim k [ ]
  Kept-OwnAt (x ∷ xs) [] i k o = elim k [ ]
  Kept-OwnAt (x ∷ xs) (y ∷ ys) zero k (l, e, b) =
      let same : x ≡ l = cc e in
      (y, refl, KeptLot-belongs x y k.0 ∙ ap (belongs dec instance_id instrument_id) same ∙ b)
  Kept-OwnAt (x ∷ xs) (y ∷ ys) (suc i) k o = Kept-OwnAt xs ys i k.1 o

  write-Kept :
      (lots : List (PositionLot dec)) (updates : List (ℕ × Decimal))
      → All (λ u. OwnAt lots u.0) updates
      → Kept lots (write dec updates lots)
  unfolding write
  write-Kept lots [] a = Kept-refl lots
  write-Kept lots ((i, q) ∷ updates) a =
      let next = set_qty dec i q lots in
      let k = set_qty-Kept i q lots a.0 in
      Kept-trans lots next (write dec updates next) k (
        write-Kept next updates (
          All-mono (λ u. OwnAt lots u.0) (λ u. OwnAt next u.0) updates
            (λ u o. Kept-OwnAt lots next u.0 k o) a.1))

  shifted :
      (lot : PositionLot dec) (lots : List (PositionLot dec)) (entries : List (ℕ × PositionLot dec))
      → All (λ e. OwnAt lots e.0) entries
      → All (λ e. OwnAt (lot ∷ lots) e.0) (map (shift dec) entries)
  shifted lot lots [] a = tt
  shifted lot lots (e ∷ entries) a = (a.0, shifted lot lots entries a.1)

  if_All :
      (P : ℕ × PositionLot dec → Type 0) (b : Bool) (xs ys : List (ℕ × PositionLot dec))
      → (b ≡ true → All P xs)
      → All P ys
      → All P (if b then xs else ys)
  if_All P true xs ys f a = f refl
  if_All P false xs ys f a = a

  open_lots-OwnAt :
      (lots : List (PositionLot dec))
      → All (λ e. OwnAt lots e.0) (open_lots dec instance_id instrument_id lots)
  unfolding open_lots
  open_lots-OwnAt [] = tt
  open_lots-OwnAt (lot ∷ lots) =
      let rest =
        shifted lot lots (open_lots dec instance_id instrument_id lots) (open_lots-OwnAt lots) in
      if_All (λ e. OwnAt (lot ∷ lots) e.0)
        (belongs dec instance_id instrument_id lot && not (is_zero dec lot.signed_qty)) _ _
        (λ e. ((lot, refl, ground (arith, e)), rest)) rest

  sort_in-All :
      (P : ℕ × PositionLot dec → Type 0) (entry : ℕ × PositionLot dec)
      (entries : List (ℕ × PositionLot dec))
      → P entry
      → All P entries
      → All P (sort_in dec entry entries)
  unfolding sort_in
  sort_in-All P entry [] p a = (p, tt)
  sort_in-All P entry (e ∷ entries) p a =
      ground (arith, sort_in-All P entry entries p a.1, p, a.0, a.1)

  sort-All :
      (P : ℕ × PositionLot dec → Type 0) (entries : List (ℕ × PositionLot dec))
      → All P entries
      → All P (sort dec entries)
  unfolding sort
  sort-All P [] a = tt
  sort-All P (e ∷ entries) a = sort_in-All P e (sort dec entries) a.0 (sort-All P entries a.1)

  module _ (ops : Arithmetic Decimal) where
    consume-OwnAt :
        (lots : List (PositionLot dec)) (exit remaining : Decimal)
        (entries : List (ℕ × PositionLot dec)) {out : List (LotReduction dec) × List (ℕ × Decimal)}
        → consume dec ops exit remaining entries ≡ ok out
        → All (λ e. OwnAt lots e.0) entries
        → All (λ u. OwnAt lots u.0) out.1
    unfolding consume
    consume-OwnAt lots exit remaining [] {out} h a =
        subst (λ (o : List (LotReduction dec) × List (ℕ × Decimal)). All (λ u. OwnAt lots u.0) o.1)
          (ok_inj h) tt
    consume-OwnAt lots exit remaining ((i, lot) ∷ entries) {out} h a =
        elim (Bool-cases (is_zero dec remaining)) [
          | inl e ↦
              let done : ([], []) ≡ out = ground (arith, h, e) in
              subst
                (λ (o : List (LotReduction dec) × List (ℕ × Decimal)).
                  All (λ u. OwnAt lots u.0) o.1)
                done tt
          | inr e ↦
              let h1 : (take_from dec ops exit remaining lot >>= λ first.
              consume dec ops exit (ops.sub remaining (first.0).quantity) entries >>= λ rest.
              ok (first.0 ∷ rest.0, (i, first.1) ∷ rest.1))
                  ≡ ok out =
                ground (arith, h, e) in
              let (first, _, h2) = bind-ok (take_from dec ops exit remaining lot) _ h1 in
              let (rest, k, h3) =
                bind-ok (consume dec ops exit (ops.sub remaining (first.0).quantity) entries) _
                  h2 in
              subst
                (λ (o : List (LotReduction dec) × List (ℕ × Decimal)).
                  All (λ u. OwnAt lots u.0) o.1)
                (ok_inj h3)
                (
                  a.0,
                  consume-OwnAt lots exit (ops.sub remaining (first.0).quantity) entries
                      {out = rest} k a.1,
                )
        ]

    reductions-OwnAt :
        (lots : List (PositionLot dec)) (quantity exit : Decimal)
        {out : List (LotReduction dec) × List (ℕ × Decimal)}
        → reductions dec ops lots instance_id instrument_id quantity exit ≡ ok out
        → All (λ u. OwnAt lots u.0) out.1
    unfolding reductions
    reductions-OwnAt lots quantity exit {out} h =
        let entries = sort dec (open_lots dec instance_id instrument_id lots) in
        let (_, _, h1) =
          bind-ok
            (reject (not (is_positive dec quantity) || not (is_positive dec exit))
              "INVALID_REDUCTION")
            _ h in
        let (total, _, h2) = bind-ok (available dec ops dec.decimal_zero entries) _ h1 in
        let (_, _, h3) =
          bind-ok (reject (dec.lt total quantity) "INSTANCE_POSITION_INSUFFICIENT") _ h2 in
        consume-OwnAt lots exit quantity (sort dec (open_lots dec instance_id instrument_id lots))
          {out = out} h3
          (sort-All _ (open_lots dec instance_id instrument_id lots) (open_lots-OwnAt lots))

    settle-Kept :
        (lots : List (PositionLot dec))
        (result : Result String (List (LotReduction dec) × List (ℕ × Decimal)))
        → ((out : List (LotReduction dec) × List (ℕ × Decimal))
            → result ≡ ok out
            → All (λ u. OwnAt lots u.0) out.1)
        → Kept lots (settle dec ops lots result).0
    unfolding settle
    settle-Kept lots (ok (result, updates)) f = write-Kept lots updates (f (result, updates) refl)
    settle-Kept lots (err e) f = Kept-refl lots

    -- A reduction changes no lot of another instance or instrument, adds and drops none, and
    -- changes nothing of any lot but its quantity, whether it fails or not.
    pub reduce_fifo-Kept :
        (lots : List (PositionLot dec)) (quantity exit : Decimal)
        → Kept lots (reduce_fifo dec ops lots instance_id instrument_id quantity exit).0
    unfolding reduce_fifo
    reduce_fifo-Kept lots quantity exit =
        settle-Kept lots (reductions dec ops lots instance_id instrument_id quantity exit)
          (λ out h. reductions-OwnAt lots quantity exit {out = out} h)

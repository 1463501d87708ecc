-- ===== src/Agent/Cursor/Bytes.antt =====
-- Bytes (`u8`) with `^` and `|`, and the comparison of two texts of bytes that looks at all of them,
-- as in crates/okx-agent/src/analytics/cursor.rs.
use okx.Prelude.{
  ℕ, zero, suc, ◌+◌, ◌*◌, ◌/◌, ◌%◌, ◌<◌, max, List, [], ◌∷◌, ◌≡◌, refl, All, length, arith,
}

-- `a ^ b` on the last n bits.
unfoldable pub xor_bits : ℕ → ℕ → ℕ → ℕ
xor_bits zero a b = 0
xor_bits (suc n) a b = (a % 2 + b % 2) % 2 + 2 * xor_bits n (a / 2) (b / 2)

-- `a | b` on the last n bits.
unfoldable pub or_bits : ℕ → ℕ → ℕ → ℕ
or_bits zero a b = 0
or_bits (suc n) a b = max (a % 2) (b % 2) + 2 * or_bits n (a / 2) (b / 2)

abbrev pub xor : ℕ → ℕ → ℕ
xor = xor_bits 8

abbrev pub or : ℕ → ℕ → ℕ
or = or_bits 8

abbrev pub IsByte : ℕ → Type 0
IsByte n = n < 256

-- `.iter().zip(expected).fold(difference, |diff, (left, right)| diff | (left ^ right))`
unfoldable pub fold_difference : List ℕ → List ℕ → ℕ → ℕ
unfolding xor_bits or_bits
fold_difference [] bs d = d
fold_difference (a ∷ xs) [] d = d
fold_difference (a ∷ xs) (b ∷ bs) d = fold_difference xs bs (or d (xor a b))

-- 2 ^ n
abbrev pow : ℕ → ℕ
pow zero = 1
pow (suc n) = 2 * pow n

xor_self : (n a : ℕ) → xor_bits n a a ≡ 0
unfolding xor_bits
xor_self zero a = refl
xor_self (suc n) a = let h = xor_self n (a / 2) in omega (arith, h)

xor_bound : (n a b : ℕ) → xor_bits n a b < pow n
unfolding xor_bits
xor_bound zero a b = omega arith
xor_bound (suc n) a b = let h = xor_bound n (a / 2) (b / 2) in omega (arith, h)

or_bound : (n a b : ℕ) → or_bits n a b < pow n
unfolding or_bits
or_bound zero a b = omega arith
or_bound (suc n) a b = let h = or_bound n (a / 2) (b / 2) in omega (arith, h)

xor_zero : (n a b : ℕ) → a < pow n → b < pow n → xor_bits n a b ≡ 0 → a ≡ b
unfolding xor_bits
xor_zero zero a b ha hb h = omega arith
xor_zero (suc n) a b ha hb h =
    let k = xor_zero n (a / 2) (b / 2) (omega arith) (omega arith) (omega arith) in omega (arith, k)

or_zero : (n a b : ℕ) → a < pow n → b < pow n → or_bits n a b ≡ 0 → (a ≡ 0) × (b ≡ 0)
unfolding or_bits
or_zero zero a b ha hb h = (omega arith, omega arith)
or_zero (suc n) a b ha hb h =
    let k = or_zero n (a / 2) (b / 2) (omega arith) (omega arith) (omega arith) in
    (omega (arith, k.0), omega (arith, k.1))

pub difference_self : (xs : List ℕ) → fold_difference xs xs 0 ≡ 0
unfolding fold_difference or_bits
difference_self [] = refl
difference_self (x ∷ xs) = rw (xor_self 8 x) (difference_self xs)

-- Two texts of bytes of the same length that differ nowhere are equal.
pub difference_zero :
    (xs ys : List ℕ) (d : ℕ)
    → All IsByte xs
    → All IsByte ys
    → length xs ≡ length ys
    → d < 256
    → fold_difference xs ys d ≡ 0
    → (d ≡ 0) × (xs ≡ ys)
unfolding fold_difference
difference_zero [] [] d a b l h e = (e, refl)
difference_zero [] (y ∷ ys) d a b l h e = cc l
difference_zero (x ∷ xs) [] d a b l h e = cc l
difference_zero (x ∷ xs) (y ∷ ys) d a b l h e =
    let (z, rest) =
      difference_zero xs ys (or d (xor x y)) a.1 b.1 (omega (arith, l)) (or_bound 8 d (xor x y))
        e in
    let (d0, x0) = or_zero 8 d (xor x y) h (xor_bound 8 x y) z in
    let same = xor_zero 8 x y a.0 b.0 x0 in (d0, cc (same, rest))

-- ===== src/BigInt/Digits.antt =====
-- Arrays of 16-bit digits, least significant first, and the numbers that they stand for.
use yarg_lang.Prelude.{
  ℕ, zero, suc, ◌+◌, ◌*◌, ◌≤◌, ◌<◌, ◌≡◌, ◌≢◌, refl, List, [], ◌∷◌, ◌++◌, arith, length, take, drop,
  get_or, All, replicate,
}
use native.Mathlib.Nat.{zero-add}

abbrev pub val : List ℕ → ℕ
val [] = 0
val (x ∷ xs) = x + 65536 * val xs

-- 65536 to the power n.
abbrev pub scale : ℕ → ℕ
scale zero = 1
scale (suc n) = 65536 * scale n

-- Every half-word holds 16 bits.
abbrev pub IsDigit : ℕ → Type 0
IsDigit x = x < 65536

abbrev pub Digits : List ℕ → Type 0
Digits = All IsDigit

pub scale-pos : (n : ℕ) → 0 < scale n
scale-pos zero = omega arith
scale-pos (suc n) = omega (arith, scale-pos n)

pub scale_mono : (n k : ℕ) → n ≤ k → scale n ≤ scale k
scale_mono zero k h = omega (arith, scale-pos k)
scale_mono (suc n) zero h = elim h [ ]
scale_mono (suc n) (suc k) h = omega (arith, scale_mono n k (omega arith))

pub val-lt-scale : (xs : List ℕ) → Digits xs → val xs < scale (length xs)
val-lt-scale [] h = omega arith
val-lt-scale (x ∷ xs) h = omega (arith, val-lt-scale xs h.1)

pub val-take-lt : (n : ℕ) (xs : List ℕ) → Digits xs → val (take n xs) < scale n
val-take-lt zero xs h = omega arith
val-take-lt (suc n) [] h = scale-pos (suc n)
val-take-lt (suc n) (x ∷ xs) h = omega (arith, val-take-lt n xs h.1)

-- One more digit on top.
pub val-take-suc :
    (n : ℕ) (xs : List ℕ) → val (take (suc n) xs) ≡ val (take n xs) + scale n * get_or xs n 0
val-take-suc zero [] = omega arith
val-take-suc zero (x ∷ xs) = omega arith
val-take-suc (suc n) [] = omega arith
val-take-suc (suc n) (x ∷ xs) = omega (arith, ap_mul (val-take-suc n xs))
  where
    ap_mul :
        val (take (suc n) xs) ≡ val (take n xs) + scale n * get_or xs n 0
        → 65536 * val (take (suc n) xs) ≡ 65536 * val (take n xs) + 65536 * scale n * get_or xs n 0
    ap_mul e = grind arith

pub get_or-IsDigit : (xs : List ℕ) (n : ℕ) → Digits xs → get_or xs n 0 < 65536
get_or-IsDigit [] n h = omega arith
get_or-IsDigit (x ∷ xs) zero h = h.0
get_or-IsDigit (x ∷ xs) (suc n) h = get_or-IsDigit xs n h.1

-- The top digit of a number of `n + 1` digits is not zero exactly when the number needs them all.
pub top-ne-zero : (n : ℕ) (xs : List ℕ) → get_or xs n 0 ≢ 0 → scale n ≤ val (take (suc n) xs)
top-ne-zero n xs h = grind (arith, val-take-suc n xs)

pub ne-zero-top :
    (n : ℕ) (xs : List ℕ) → Digits xs → scale n ≤ val (take (suc n) xs) → get_or xs n 0 ≢ 0
ne-zero-top n xs ds h e = grind (arith, val-take-suc n xs, val-take-lt n xs ds)

pub val-replicate : (n : ℕ) → val (replicate n 0) ≡ 0
val-replicate zero = refl
val-replicate (suc n) = omega (arith, val-replicate n)

pub val-append : (xs ys : List ℕ) → val (xs ++ ys) ≡ val xs + scale (length xs) * val ys
val-append [] ys = omega arith
val-append (x ∷ xs) ys = grind (arith, val-append xs ys)

-- The low `n` digits and the rest.
pub val-split : (n : ℕ) (xs : List ℕ) → val xs ≡ val (take n xs) + scale n * val (drop n xs)
val-split zero xs = omega arith
val-split (suc n) [] = omega arith
val-split (suc n) (x ∷ xs) = grind (arith, val-split n xs)

pub scale-add : (n k j : ℕ) → j ≡ n + k → scale j ≡ scale n * scale k
scale-add zero k j e = rw (e, zero-add) (omega arith)
scale-add (suc n) k zero e = absurd (omega arith)
scale-add (suc n) k (suc j) e = grind (arith, scale-add n k j (omega arith))

-- ===== src/BigInt/Product.antt =====
-- Long multiplication (big-int.c: int_mul).
pub mod Rows
pub mod Exact
use yarg_lang.Prelude.{
  ℕ, suc, ◌+◌, ◌*◌, ◌%◌, Bool, true, false, xor, List, [], ◌∷◌, ltb, if◌then◌else◌,
}
use yarg_lang.Prelude.Int.{pos}
use yarg_lang.BigInt.Layout.{Integer, digits, concrete254}
use yarg_lang.BigInt.Words.{int_set_i}
use yarg_lang.BigInt.Shift.{int_shift}
use yarg_lang.BigInt.Sum.{u32, int_add}

-- The result `r` and the scratch integer `pp` of `int_mul`.
pub record Scratch : Type 0 where
  pub r : Integer
  pub pp : Integer

-- The partial product of two digits, moved to its place.
abbrev pub partial_product : ℕ → ℕ → Integer → Integer
partial_product x y pp = int_set_i (pos (u32 (x * y))) pp

-- The inner loop: one digit of `a` times the digits of `b`, added into `r` from place `p` on. It
-- stops at once where `r` has no room.
pub mul_row : List ℕ → ℕ → ℕ → Scratch → Scratch
mul_row [] x p s = s
mul_row (y ∷ ys) x p s =
    let pp = partial_product x y s.pp in
    let moved = int_shift (pos p) pp in
    let r' = int_add s.r moved s.r in
    let rest = mul_row ys x (p + 1) (record { r = r'; pp = moved }) in
    if ltb s.r.m (p + pp.d)
    then record { r = record (s.r) { overflow = true }; pp = pp }
    else (if r'.overflow then record { r = r'; pp = moved } else rest)

-- The outer loop goes on after an overflow.
pub mul_rows : List ℕ → List ℕ → ℕ → Scratch → Scratch
mul_rows [] bs p s = s
mul_rows (x ∷ xs) bs p s = mul_rows xs bs (p + 1) (mul_row bs x p s)

pub int_mul : Integer → Integer → Integer → Integer
int_mul a b r =
    let s =
      mul_rows (digits a) (digits b) 0 (record { r = int_set_i (pos 0) r; pp = concrete254 }) in
    record (s.r) { neg = xor a.neg b.neg }

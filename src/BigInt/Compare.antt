-- ===== src/BigInt/Compare.antt =====
-- Comparison (big-int.c: int_is_abs, int_is).
pub mod Order
use yarg_lang.Prelude.{
  ℕ, zero, suc, ◌+◌, ◌*◌, ◌/◌, ◌-◌, Bool, true, false, ◌&&◌, xor, List, ltb, ◌==◌, if◌then◌else◌,
  get_or,
}
use yarg_lang.BigInt.Layout.{Integer}

pub data IntComp : Type 0 where
  int_lt int_eq int_gt : IntComp

-- Word `k` of `w_`.
abbrev pub word : List ℕ → ℕ → ℕ
word h k = get_or h (2 * k) 0 + 65536 * get_or h (2 * k + 1) 0

-- The loop over words `n - 1`, ..., 0.
pub compare_words : ℕ → List ℕ → List ℕ → IntComp
compare_words zero ah bh = int_eq
compare_words (suc n) ah bh =
    let rest = compare_words n ah bh in
    if ltb (word bh n) (word ah n)
    then int_gt
    else (if ltb (word ah n) (word bh n) then int_lt else rest)

pub int_is_abs : Integer → Integer → IntComp
int_is_abs a b =
    if a.d == b.d
    then compare_words ((a.d + 1) / 2) a.h b.h
    else (if ltb b.d a.d then int_gt else int_lt)

-- `a == b` there compares pointers, and two names of one object have one value.
pub int_is : Integer → Integer → IntComp
int_is a b =
    if xor a.neg b.neg
    then (if a.d == 1 && (b.d == 1 && (get_or a.h 0 0 == 0 && get_or b.h 0 0 == 0))
        then int_eq
        else (if a.neg then int_lt else int_gt))
    else (if a.neg
        then elim (int_is_abs a b) [ int_lt ↦ int_gt | int_gt ↦ int_lt | int_eq ↦ int_eq ]
        else int_is_abs a b)

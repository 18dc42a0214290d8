-- ===== src/BigInt/Words/Read.antt =====
-- Reading an Integer back into a machine integer (big-int.c).
use yarg_lang.Prelude.{
  ℕ, zero, suc, ◌+◌, ◌*◌, ◌%◌, ◌≤◌, ◌<◌, ◌≡◌, refl, List, arith, take, take-take, get_or, leb,
  if◌then◌else◌, ap, ◌∙◌,
}
use yarg_lang.Prelude.Int.{ℤ, pos, negsuc, ◌≤ℤ◌, ltb_ℤ}
use yarg_lang.BigInt.Digits.{
  val, val-split, Digits, val-take-suc, val-take-lt, get_or-IsDigit, scale_mono,
}
use yarg_lang.BigInt.Layout.{Integer, mag, value}
use yarg_lang.BigInt.Layout.Normal.{IsShaped, IsNormal}
use yarg_lang.BigInt.Compare.{word}
use yarg_lang.BigInt.Words.{
  low_words, int_to_u64, int_to_i64, int_to_i32, int_to_u32, int_set_u, int_set_i,
}
use yarg_lang.BigInt.Words.Stored.{int_set_u-Computes, int_set_i-Computes}

-- Four half-words are the two low words.
val-take-four :
    (h : List ℕ) → (val (take 2 h) ≡ word h 0) × (val (take 4 h) ≡ word h 0 + 4294967296 * word h 1)
val-take-four h =
    omega (arith, val-take-suc 0 h, val-take-suc 1 h, val-take-suc 2 h, val-take-suc 3 h)

low_of_Digits :
    (d : ℕ) (h : List ℕ)
    → Digits h
    → 1 ≤ d
    → (d % 2 ≡ 1 → get_or h d 0 ≡ 0)
    → word h 0 + 4294967296 * (if leb d 2 then 0 else word h 1)
      ≡ val (take d h) % 18446744073709551616
low_of_Digits zero h ds lo pad = elim lo [ ]
low_of_Digits (suc zero) h ds lo pad =
    omega (arith, pad refl, val-take-suc 0 h, get_or-IsDigit h 0 ds)
low_of_Digits (suc (suc zero)) h ds lo pad = omega (arith, (val-take-four h).0, val-take-lt 2 h ds)
low_of_Digits (suc (suc (suc zero))) h ds lo pad =
    omega (arith, pad refl, (val-take-four h).1, val-take-suc 3 h, val-take-lt 4 h ds)
low_of_Digits (suc (suc (suc (suc d)))) h ds lo pad =
    let all : List ℕ = take (suc (suc (suc (suc d)))) h in
    let low = take-take 4 (suc (suc (suc (suc d)))) h (omega arith) in
    ground (arith, val-split 4 all, ap val low, (val-take-four h).1, val-take-lt 4 h ds)

-- The two low words are the number modulo 2 ^ 64.
low_words_lem : (i : Integer) → IsNormal i → low_words i ≡ mag i % 18446744073709551616
low_words_lem i n = low_of_Digits i.d i.h n.shaped.bits n.least n.padded

-- For a well-formed integer, `int_to_u64` is its low 64 bits, and 0 where it is negative.
pub int_to_u64_lem :
    (i : Integer) → IsNormal i → int_to_u64 i ≡ (if i.neg then 0 else mag i % 18446744073709551616)
unfolding int_to_u64
int_to_u64_lem i n = rw (low_words_lem i n)

-- `int_to_i64` is exact on the well-formed integers that an `int64_t` holds.
pub int_to_i64-value :
    (i : Integer)
    → IsNormal i
    → negsuc 9223372036854775807 ≤ℤ value i
    → value i ≤ℤ pos 9223372036854775807
    → int_to_i64 i ≡ value i
unfolding int_to_i64
int_to_i64-value i n lo hi = ground (arith, low_words_lem i n)

-- For every `int64_t` and storage with room for four digits, `int_to_i64` reads back what
-- `int_set_i` stored.
pub int_to_i64-int_set_i :
    (z : ℤ) (i : Integer)
    → IsShaped i
    → 4 ≤ i.m
    → negsuc 9223372036854775807 ≤ℤ z
    → z ≤ℤ pos 9223372036854775807
    → int_to_i64 (int_set_i z i) ≡ z
int_to_i64-int_set_i z i si room lo hi =
    let (n, e) = (int_set_i-Computes z i si).exact (ground (arith, scale_mono 4 i.m room)) in
    int_to_i64-value (int_set_i z i) n (rw e lo) (rw e hi) ∙ e

-- For every number below 2 ^ 64 and storage with room for four digits, `int_to_u64` reads back what
-- `int_set_u` stored.
pub int_to_u64-int_set_u :
    (t : ℕ) (i : Integer)
    → IsShaped i
    → 4 ≤ i.m
    → t < 18446744073709551616
    → int_to_u64 (int_set_u t i) ≡ t
int_to_u64-int_set_u t i si room small =
    let (n, e) = (int_set_u-Computes t i si).exact (omega (arith, scale_mono 4 i.m room)) in
    int_to_u64_lem (int_set_u t i) n ∙ ground (arith, e)

-- An integer as the nearest `int32_t`.
abbrev pub clamp_i32 : ℤ → ℤ
clamp_i32 z =
    if ltb_ℤ z (negsuc 2147483647)
    then negsuc 2147483647
    else if ltb_ℤ (pos 2147483647) z
    then pos 2147483647
    else z

-- On well-formed integers below 2 ^ 32 in magnitude, `int_to_i32` gives the nearest `int32_t`.
pub int_to_i32-clamp :
    (i : Integer) → IsNormal i → mag i < 4294967296 → int_to_i32 i ≡ clamp_i32 (value i)
unfolding int_to_i32
int_to_i32-clamp i n small =
    let low : word i.h 0 ≡ mag i = ground (arith, low_words_lem i n) in ground (arith, low)

-- `int_to_u32` is the low 32 bits, whatever the sign.
pub int_to_u32_lem : (i : Integer) → IsNormal i → int_to_u32 i ≡ mag i % 4294967296
unfolding int_to_u32
int_to_u32_lem i n = omega (
  arith,
  low_words_lem i n,
  get_or-IsDigit i.h 0 n.shaped.bits,
  get_or-IsDigit i.h 1 n.shaped.bits,
)

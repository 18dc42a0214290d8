-- ===== src/BigInt/Words.antt =====
-- Setting an Integer from machine integers and reading it back (big-int.c: int_set_u, int_set_i,
-- int_to_u64, int_to_i64, int_to_u32, int_to_i32, int_is_range).
pub mod Stored
pub mod Read
pub mod Range
use yarg_lang.Prelude.{
  ℕ, zero, suc, ◌+◌, ◌-◌, ◌*◌, ◌%◌, ◌/◌, Bool, true, false, List, [], ◌∷◌, ltb, leb, ◌==◌,
  if◌then◌else◌, set, get_or,
}
use yarg_lang.Prelude.Int.{ℤ, pos, negsuc, sub_ℕ, ltb_ℤ}
use yarg_lang.BigInt.Layout.{Integer, concrete254}
use yarg_lang.BigInt.Compare.{int_is, word, int_lt, int_gt}

-- What the loop of `int_set_u` leaves: the half-words from `ip` on, how many it wrote, and what is
-- left of the number.
pub record Filled : Type 0 where
  pub slots : List ℕ
  pub n : ℕ
  pub left : ℕ

-- One round writes a word, which is two half-words.
pub set_words : List ℕ → ℕ → Filled
set_words [] to = record { slots = []; n = 0; left = to }
set_words (l ∷ []) to = record { slots = l ∷ []; n = 0; left = to }
set_words (l ∷ h ∷ rest) to =
    let more = set_words rest (to / 4294967296) in
    if to == 0 then record { slots = l ∷ h ∷ rest; n = 0; left = 0 } else record {
      slots = to % 65536 ∷ to % 4294967296 / 65536 ∷ more.slots;
      n = suc (suc more.n);
      left = more.left;
    }

pub int_set_u : ℕ → Integer → Integer
int_set_u to i =
    let w = set_words i.h to in
    let d = w.n % 256 in
    let s : Integer = record i { neg = false; overflow = ltb 0 w.left; h = w.slots; d = d } in
    if d == 0
    then record s { h = set (set w.slots 0 0) 1 0; d = 1 }
    else (if get_or w.slots (d - 1) 0 == 0 then record s { d = d - 1 } else s)

-- The magnitude of an `int64_t`, as `int_set_i` computes it.
unfoldable pub abs_i64 : ℤ → ℕ
abs_i64 (pos n) = n
abs_i64 (negsuc n) = if suc n == 9223372036854775808 then 9223372036854775808 else suc n

abbrev pub is_negative : ℤ → Bool
is_negative (pos n) = false
is_negative (negsuc n) = true

pub int_set_i : ℤ → Integer → Integer
int_set_i to i = record (int_set_u (abs_i64 to) (record i { overflow = false })) {
  neg = is_negative to;
}

-- The two low words; the second counts only where it is in use.
abbrev pub low_words : Integer → ℕ
low_words i = word i.h 0 + 4294967296 * (if leb i.d 2 then 0 else word i.h 1)

pub int_to_u64 : Integer → ℕ
int_to_u64 i = if i.neg then 0 else low_words i

-- `r.ull64_ &= 0x7FFFFFFFFFFFFFFF` keeps the low 63 bits.
pub int_to_i64 : Integer → ℤ
int_to_i64 i =
    if i.neg
    then (if leb 9223372036854775808 (low_words i)
        then negsuc 9223372036854775807
        else sub_ℕ 0 (low_words i))
    else pos (low_words i % 9223372036854775808)

-- Negating the least `int32_t` wraps to itself.
pub int_to_i32 : Integer → ℤ
int_to_i32 i =
    let low = word i.h 0 in
    let u : ℕ = if ltb 2147483648 low then 2147483648 else low in
    if i.neg
    then (if u == 2147483648 then negsuc 2147483647 else sub_ℕ 0 u)
    else pos (if ltb 2147483647 low then 2147483647 else low)

pub int_to_u32 : Integer → ℕ
int_to_u32 i = word i.h 0

pub data IntRange : Type 0 where
  int_below int_within int_above : IntRange

-- The local `t` is set to the upper bound and then to the lower one.
pub int_is_range : Integer → ℤ → ℕ → IntRange
int_is_range i l u =
    let t = int_set_u u concrete254 in
    elim (int_is i t) [
      | int_gt ↦ int_above
      | _ ↦ elim (int_is i (int_set_i l t)) [ int_lt ↦ int_below | _ ↦ int_within ]
    ]

-- ===== src/BigInt/Shift.antt =====
-- Moving by whole digits (big-int.c: int_shift).
pub mod Scaled
use yarg_lang.Prelude.{
  ℕ, suc, ◌+◌, ◌-◌, ◌%◌, Bool, true, false, ◌&&◌, List, ◌++◌, ltb, ◌==◌, if◌then◌else◌, take, drop,
  set, get_or, replicate,
}
use yarg_lang.Prelude.Int.{ℤ, pos, negsuc}
use yarg_lang.BigInt.Layout.{Integer}

-- The `memmove` up by `n` half-words and the `memset` below.
abbrev pub moved_up : ℕ → Integer → List ℕ
moved_up n i = replicate n 0 ++ (take i.d i.h ++ drop (i.d + n) i.h)

pub shift_up : ℕ → Integer → Integer
shift_up n i =
    let d = (i.d + n) % 256 in
    if ltb i.m (i.d + n)
    then record i { overflow = true }
    else record i { d = d; h = if ltb d i.m then set (moved_up n i) d 0 else moved_up n i }

-- The `memmove` down by `k` half-words and the `memset` above.
abbrev pub moved_down : ℕ → Integer → List ℕ
moved_down k i = take (i.d - k) (drop k i.h) ++ (replicate k 0 ++ drop (i.d - k + k) i.h)

pub shift_down : ℕ → Integer → Integer
shift_down k i = record i { d = if i.d - k == 0 then 1 else i.d - k; h = moved_down k i }

-- Zero is left alone. A move down is by at most `d_` digits.
pub int_shift : ℤ → Integer → Integer
int_shift shift i =
    if i.d == 1 && get_or i.h 0 0 == 0
    then i
    else elim shift [ pos n ↦ shift_up n i | negsuc k ↦ shift_down (suc k) i ]

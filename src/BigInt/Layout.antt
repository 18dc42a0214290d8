-- ===== src/BigInt/Layout.antt =====
-- The struct Int, here `Integer`, and its initialisation (cyarg/big-int/big-int.h, big-int.c). The
-- words w_ are kept as their 16-bit halves, low half first: word k is the half-words 2k and 2k + 1.
pub mod Normal
use yarg_lang.Prelude.{
  ℕ, ◌+◌, ◌-◌, ◌*◌, ◌%◌, ◌/◌, Bool, true, false, ◌&&◌, ◌||◌, not, List, leb, ltb, ◌==◌,
  if◌then◌else◌, take, set, get_or, replicate,
}
use yarg_lang.Prelude.Int.{ℤ, pos, sub_ℕ}
use yarg_lang.BigInt.Digits.{val}

pub record Integer : Type 0 where
  pub neg : Bool
  pub overflow : Bool
  pub obj : Bool
  pub literal : Bool
  pub d : ℕ
  pub m : ℕ
  pub h : List ℕ

-- The digits in use, and the magnitude and the integer that they stand for.
abbrev pub digits : Integer → List ℕ
digits i = take i.d i.h

abbrev pub mag : Integer → ℕ
mag i = val (digits i)

abbrev pub signed : Bool → ℕ → ℤ
signed true n = sub_ℕ 0 n
signed false n = pos n

abbrev pub value : Integer → ℤ
value i = signed i.neg (mag i)

-- `w_[0] = 0` clears two half-words.
unfoldable pub int_init : Integer → Integer
int_init i = record i {
  neg = false;
  overflow = false;
  literal = false;
  d = 1;
  h = set (set i.h 0 0) 1 0;
}

-- A local IntConcrete254 after `int_init_concrete254`; C leaves its other words unset, here they are 0.
unfoldable pub concrete254 : Integer
unfolding int_init
concrete254 = int_init (record {
  neg = false;
  overflow = false;
  obj = false;
  literal = false;
  d = 1;
  m = 254;
  h = replicate 254 0;
})

unfoldable pub int_is_zero : Integer → Bool
int_is_zero i = get_or i.h 0 0 == 0 && i.d == 1

unfoldable pub int_neg : Integer → Integer
int_neg i = record i { neg = not i.neg }

-- The assertions of `int_invariant`, in order; that on `neg_` holds of every Bool.
unfoldable pub int_invariant : Integer → Bool
int_invariant i =
    not i.overflow
    && (i.m % 2 == 0
        && ((leb 1 i.d && leb i.d i.m)
            && ((if i.d % 2 == 1 then get_or i.h i.d 0 == 0 else true)
                && (if ltb 1 i.d then not (get_or i.h (i.d - 1) 0 == 0) else true))))

-- ===== src/BigInt/Tests.antt =====
-- The integers of cyarg/big-int/big-int.c at work on small numbers.
use yarg_lang.Prelude.{ℕ, ◌<◌, ◌≡◌, Bool, true, false, [], ◌∷◌, arith, refl}
use yarg_lang.Prelude.Int.{pos, negsuc, ◌+ℤ◌, ◌-ℤ◌, ◌*ℤ◌}
use yarg_lang.BigInt.Layout.{Integer, value}
use yarg_lang.BigInt.Layout.Normal.{IsShaped, IsNormal}
use yarg_lang.BigInt.Compare.{int_is, int_lt}
use yarg_lang.BigInt.Compare.Order.{int_is-three_way}
use yarg_lang.BigInt.Sum.{int_add, int_sub}
use yarg_lang.BigInt.Sum.Signed.{Computes, int_add-Computes, int_sub-Computes}
use yarg_lang.BigInt.Words.{int_set_i, int_to_i64, int_is_range}
use yarg_lang.BigInt.Words.Stored.{int_set_i-Computes}
use yarg_lang.BigInt.Words.Read.{int_to_i64-int_set_i}
use yarg_lang.BigInt.Words.Range.{range_of, int_is_range_lem}
use yarg_lang.BigInt.Product.{int_mul}
use yarg_lang.BigInt.Product.Exact.{int_mul-value, int_mul-room}

-- One digit, in room for two.
abbrev small : Bool → ℕ → Integer
small neg x = record {
  neg = neg;
  overflow = false;
  obj = false;
  literal = false;
  d = 1;
  m = 2;
  h = x ∷ 0 ∷ [];
}

-- 6 + 5 * 65536, and its room is for four digits
abbrev wide : Integer
wide = record {
  neg = false;
  overflow = false;
  obj = false;
  literal = false;
  d = 2;
  m = 4;
  h = 6 ∷ 5 ∷ 0 ∷ 0 ∷ [];
}

small-IsShaped : (neg : Bool) (x : ℕ) → x < 65536 → IsShaped (small neg x)
small-IsShaped neg x lt = record {
  even = refl;
  some_room = omega arith;
  fits = omega arith;
  sized = refl;
  bits = (lt, (omega arith, tt));
}

small-IsNormal : (neg : Bool) (x : ℕ) → x < 65536 → IsNormal (small neg x)
small-IsNormal neg x lt = record {
  shaped = small-IsShaped neg x lt;
  least = omega arith;
  most = omega arith;
  padded = λ _. refl;
  top = λ more. absurd (omega arith);
}

wide-IsShaped : IsShaped wide
wide-IsShaped = record {
  even = refl;
  some_room = omega arith;
  fits = omega arith;
  sized = refl;
  bits = (omega arith, (omega arith, (omega arith, (omega arith, tt))));
}

wide-IsNormal : IsNormal wide
wide-IsNormal = record {
  shaped = wide-IsShaped;
  least = omega arith;
  most = omega arith;
  padded = λ odd. absurd (omega arith);
  top = λ more. λ e. omega (arith, e);
}

abbrev minus_seven : Integer
minus_seven = small true 7

minus_seven-IsNormal : IsNormal minus_seven
minus_seven-IsNormal = small-IsNormal true 7 (omega arith)

abbrev nine : Integer
nine = small false 9

nine-IsNormal : IsNormal nine
nine-IsNormal = small-IsNormal false 9 (omega arith)

int_mul-room_example : (int_mul minus_seven nine wide).overflow ≡ false
int_mul-room_example =
    int_mul-room minus_seven nine wide minus_seven-IsNormal nine-IsNormal wide-IsShaped
      (omega arith)

no_overflow : (int_mul minus_seven nine wide).overflow ≡ false
no_overflow =
    int_mul-room minus_seven nine wide minus_seven-IsNormal nine-IsNormal wide-IsShaped
      (omega arith)

int_mul-value_example :
    IsNormal (int_mul minus_seven nine wide)
    × (value (int_mul minus_seven nine wide) ≡ negsuc 62)
    × ((int_mul minus_seven nine wide).m ≡ 4)
unfolding ◌*ℤ◌
int_mul-value_example =
    int_mul-value minus_seven nine wide minus_seven-IsNormal nine-IsNormal wide-IsShaped no_overflow

int_add-Computes_example : Computes wide (pos 2) (int_add minus_seven nine wide)
unfolding ◌+ℤ◌
int_add-Computes_example =
    int_add-Computes minus_seven nine wide minus_seven-IsNormal nine-IsNormal wide-IsShaped

int_sub-Computes_example : Computes wide (negsuc 15) (int_sub minus_seven nine wide)
unfolding ◌-ℤ◌
int_sub-Computes_example =
    int_sub-Computes minus_seven nine wide minus_seven-IsNormal nine-IsNormal wide-IsShaped

int_is-three_way_example : int_is minus_seven nine ≡ int_lt
int_is-three_way_example = int_is-three_way minus_seven nine minus_seven-IsNormal nine-IsNormal

int_set_i-Computes_example :
    Computes (record wide { overflow = false }) (negsuc 9) (int_set_i (negsuc 9) wide)
int_set_i-Computes_example = int_set_i-Computes (negsuc 9) wide wide-IsShaped

int_to_i64-int_set_i_example : int_to_i64 (int_set_i (negsuc 9) wide) ≡ negsuc 9
int_to_i64-int_set_i_example =
    int_to_i64-int_set_i (negsuc 9) wide wide-IsShaped (omega arith) (omega arith) (omega arith)

int_is_range_lem_example : int_is_range nine (negsuc 127) 127 ≡ range_of (pos 9) (negsuc 127) 127
int_is_range_lem_example =
    int_is_range_lem nine (negsuc 127) 127 nine-IsNormal (omega arith) (omega arith)

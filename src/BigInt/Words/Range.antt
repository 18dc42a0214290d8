-- ===== src/BigInt/Words/Range.antt =====
-- `int_is_range` (big-int.c) compares with both bounds.
use yarg_lang.Prelude.{
  ℕ, ◌≤◌, ◌<◌, ◌≡◌, arith, if◌then◌else◌, refl, length-replicate, All-replicate, ap, ◌∙◌,
}
use yarg_lang.Prelude.Int.{ℤ, pos, abs, ltb_ℤ}
use yarg_lang.BigInt.Digits.{IsDigit, scale, scale_mono}
use yarg_lang.BigInt.Layout.{Integer, value, concrete254}
use yarg_lang.BigInt.Layout.Normal.{IsShaped, IsNormal}
use yarg_lang.BigInt.Compare.{IntComp, int_lt, int_gt}
use yarg_lang.BigInt.Compare.Order.{three_way_ℤ, int_is-three_way}
use yarg_lang.BigInt.Words.{
  IntRange, int_below, int_within, int_above, int_set_u, int_set_i, int_is_range,
}
use yarg_lang.BigInt.Words.Stored.{int_set_u-Computes, int_set_i-Computes}

pub concrete254-IsShaped : IsShaped concrete254
unfolding concrete254
concrete254-IsShaped = record {
  even = refl;
  some_room = omega arith;
  fits = omega arith;
  sized = length-replicate {A = ℕ} 254 0;
  bits = All-replicate IsDigit 254 (omega arith);
}

pub m-concrete254 : concrete254.m ≡ 254
unfolding concrete254
m-concrete254 = refl

-- 64 bits have room in 254 digits.
pub fits_254 : (t m : ℕ) → m ≡ 254 → t ≤ 18446744073709551616 → t < scale m
fits_254 t m e h = omega (arith, scale_mono 5 m (omega arith))

-- Where `z` stands against the range.
abbrev pub range_of : ℤ → ℤ → ℕ → IntRange
range_of z l u = if ltb_ℤ (pos u) z then int_above else if ltb_ℤ z l then int_below else int_within

branches :
    (x y : IntComp) (z l : ℤ) (u : ℕ)
    → x ≡ three_way_ℤ z (pos u)
    → y ≡ three_way_ℤ z l
    → (elim x [ int_gt ↦ int_above | _ ↦ elim y [ int_lt ↦ int_below | _ ↦ int_within ] ])
      ≡ range_of z l u
branches x y z l u p q = ground arith

-- For a well-formed integer, a lower bound of at most 2 ^ 63 in magnitude and an upper bound below 2
-- ^ 64, `int_is_range` says where the value stands against the two bounds, the upper one first.
pub int_is_range_lem :
    (i : Integer) (l : ℤ) (u : ℕ)
    → IsNormal i
    → abs l ≤ 9223372036854775808
    → u < 18446744073709551616
    → int_is_range i l u ≡ range_of (value i) l u
unfolding int_is_range
int_is_range_lem i l u n hl hu =
    let c = concrete254-IsShaped in
    let cu = int_set_u-Computes u concrete254 c in
    let (nu, eu) = cu.exact (fits_254 _ _ m-concrete254 (omega arith)) in
    let cl = int_set_i-Computes l (int_set_u u concrete254) nu.shaped in
    let (nl, el) = cl.exact (fits_254 _ _ (cu.room ∙ m-concrete254) (omega arith)) in
    branches _ _ (value i) l u
      (int_is-three_way i (int_set_u u concrete254) n nu ∙ ap (three_way_ℤ (value i)) eu)
      (int_is-three_way i (int_set_i l (int_set_u u concrete254)) n nl
        ∙ ap (three_way_ℤ (value i)) el)

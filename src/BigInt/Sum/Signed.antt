-- ===== src/BigInt/Sum/Signed.antt =====
-- `int_add` and `int_sub` (big-int.c) on signed integers.
use yarg_lang.Prelude.{
  ℕ, ◌+◌, ◌≤◌, ◌<◌, ◌≡◌, refl, Bool, true, false, arith, leb, if◌then◌else◌, ◌||◌, ◌∙◌,
}
use yarg_lang.Prelude.Int.{ℤ, sub_ℕ, abs, ◌+ℤ◌, ◌-ℤ◌}
use native.Mathlib.Decide.{dec_lt}
use yarg_lang.BigInt.Digits.{scale}
use yarg_lang.BigInt.Layout.{Integer, mag, signed, value}
use yarg_lang.BigInt.Layout.Normal.{IsShaped, IsShaped-of, IsNormal}
use yarg_lang.BigInt.Compare.Order.{int_is_abs-three_way}
use yarg_lang.BigInt.Sum.{add_pos, sub_a_gt_b, int_sub_abs, int_add, int_sub}
use yarg_lang.BigInt.Sum.Addition.{Stores, add_pos-Stores}
use yarg_lang.BigInt.Sum.Subtraction.{sub_a_gt_b-Stores}

-- `s` is what `r` becomes when the integer `z` is stored in it: the room stays, `overflow_` is set
-- when `z` has no room and stays set, and otherwise `s` is well formed and holds `z`.
pub record Computes (r : Integer) (z : ℤ) (s : Integer) : Type 0 where
  pub shaped : IsShaped s
  pub room : s.m ≡ r.m
  pub flag : s.overflow ≡ (r.overflow || leb (scale r.m) (abs z))
  pub exact : abs z < scale r.m → IsNormal s × (value s ≡ z)

-- The sign does not matter to the shape.
pub unsigned-IsNormal : (i : Integer) {neg : Bool} → IsNormal i → IsNormal (record i { neg = neg })
unsigned-IsNormal i n = record {
  shaped = IsShaped-of n.shaped _ refl refl n.shaped.bits;
  least = n.least;
  most = n.most;
  padded = n.padded;
  top = n.top;
}

pub with_sign :
    (neg : Bool) {r : Integer} {t : ℕ} {s : Integer} (z : ℤ)
    → Stores r t s
    → z ≡ signed neg t
    → Computes r z (record s { neg = neg })
with_sign neg {r} {t} {s} z st e = record {
  shaped = resign st.shaped;
  room = st.room;
  flag = st.flag ∙ (rw abs_z);
  exact = λ fits. let (n, m) = st.exact (rw abs_z at fits) in (unsigned-IsNormal s n, rw (m, e));
}
  where
    abs_z : abs z ≡ t
    abs_z = rw e (ground arith)

    resign : IsShaped s → IsShaped (record s { neg = neg })
    resign h = IsShaped-of h _ refl refl h.bits

module _ (a b r : Integer) (na : IsNormal a) (nb : IsNormal b) (sr : IsShaped r) where
  -- Which subtraction `int_sub_abs` makes, and the sign it gives.
  int_sub_abs-lt : mag a < mag b → int_sub_abs a b r ≡ record (sub_a_gt_b b a r) { neg = true }
  unfolding int_sub_abs
  int_sub_abs-lt l = ground (arith, int_is_abs-three_way a b na nb)

  int_sub_abs-ge : mag b ≤ mag a → int_sub_abs a b r ≡ record (sub_a_gt_b a b r) { neg = false }
  unfolding int_sub_abs
  int_sub_abs-ge l = ground (arith, int_is_abs-three_way a b na nb)

  int_sub_abs-Computes : (z : ℤ) → z ≡ sub_ℕ (mag a) (mag b) → Computes r z (int_sub_abs a b r)
  int_sub_abs-Computes z e = elim (dec_lt (mag a) (mag b)) [
    | yes l ↦
        rw (int_sub_abs-lt l)
          (with_sign true z (sub_a_gt_b-Stores b a r nb na sr (omega arith)) (rw e (ground arith)))
    | no l ↦
        rw (int_sub_abs-ge (omega arith))
          (with_sign false z (sub_a_gt_b-Stores a b r na nb sr (omega arith)) (rw e (ground arith)))
  ]

by_signs :
    (r : Integer) (z : ℤ) (p q : Bool) {w x y v : Integer}
    → (p ≡ true → q ≡ true → Computes r z w)
    → (p ≡ true → q ≡ false → Computes r z x)
    → (p ≡ false → q ≡ true → Computes r z y)
    → (p ≡ false → q ≡ false → Computes r z v)
    → Computes r z (if p then (if q then w else x) else (if q then y else v))
by_signs r z true true c d e f = c refl refl
by_signs r z true false c d e f = d refl refl
by_signs r z false true c d e f = e refl refl
by_signs r z false false c d e f = f refl refl

-- Of two integers that are not negative, `int_add` adds the magnitudes.
pub int_add-nonneg :
    (a b r : Integer)
    → a.neg ≡ false
    → b.neg ≡ false
    → int_add a b r ≡ record (add_pos a b r) { neg = false }
unfolding int_add
int_add-nonneg a b r p q = ground (arith, p, q)

-- `overflow_` stays set.
pub int_add-overflow : (a b r : Integer) → r.overflow ≡ true → (int_add a b r).overflow ≡ true
unfolding int_add add_pos int_sub_abs sub_a_gt_b
int_add-overflow a b r o = ground (arith, o)

module _ (a b r : Integer) (na : IsNormal a) (nb : IsNormal b) (sr : IsShaped r) where
  add_signed :
      (neg : Bool) (z : ℤ)
      → z ≡ signed neg (mag a + mag b)
      → Computes r z (record (add_pos a b r) { neg = neg })
  add_signed neg z e = with_sign neg z (add_pos-Stores a b r na nb sr) e

  -- For well-formed `a` and `b` and any storage `r`, also where `r` is `a` or `b`: `int_add` stores
  -- the sum of the values in `r`, as `Computes` says: the room stays, `overflow_` is set exactly
  -- when the sum has no room or it was set before, and with room the result is well formed and its
  -- value is the sum.
  pub int_add-Computes : Computes r (value a +ℤ value b) (int_add a b r)
  unfolding int_add ◌+ℤ◌
  int_add-Computes =
      by_signs r _ a.neg b.neg (λ p q. add_signed true _ (ground (arith, p, q)))
        (λ p q. int_sub_abs-Computes b a r nb na sr _ (ground (arith, p, q)))
        (λ p q. int_sub_abs-Computes a b r na nb sr _ (ground (arith, p, q)))
        (λ p q. add_signed false _ (ground (arith, p, q)))

  -- For well-formed `a` and `b` and any storage `r`: `int_sub` stores the difference of the values
  -- in `r`, as `Computes` says: the room stays, `overflow_` is set exactly when the difference has
  -- no room or it was set before, and with room the result is well formed and its value is the
  -- difference.
  pub int_sub-Computes : Computes r (value a -ℤ value b) (int_sub a b r)
  unfolding int_sub ◌-ℤ◌
  int_sub-Computes =
      by_signs r _ a.neg b.neg (λ p q. int_sub_abs-Computes b a r nb na sr _ (ground (arith, p, q)))
        (λ p q. add_signed true _ (ground (arith, p, q)))
        (λ p q. add_signed false _ (ground (arith, p, q)))
        (λ p q. int_sub_abs-Computes a b r na nb sr _ (ground (arith, p, q)))

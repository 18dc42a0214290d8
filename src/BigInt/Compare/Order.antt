-- ===== src/BigInt/Compare/Order.antt =====
-- The comparisons are those of the numbers.
use yarg_lang.Prelude.{
  ℕ, zero, suc, ◌+◌, ◌-◌, ◌*◌, ◌/◌, ◌%◌, ◌<◌, ◌≡◌, ◌⊎◌, inl, inr, refl, Bool, true, List, arith,
  take, get_or, ltb, if◌then◌else◌, ◌==◌, ◌&&◌, ◌↔◌,
}
use native.Mathlib.Decide.{ℕ_discrete}
use yarg_lang.Prelude.Int.{ℤ, ltb_ℤ}
use yarg_lang.BigInt.Digits.{val, scale, Digits, scale_mono, val-take-suc, val-take-lt}
use yarg_lang.BigInt.Layout.{Integer, int_is_zero, mag, value}
use yarg_lang.BigInt.Layout.Normal.{IsNormal, int_is_zero_iff, mag-lt, scale-le-mag}
use yarg_lang.BigInt.Compare.{
  IntComp, int_lt, int_eq, int_gt, word, compare_words, int_is_abs, int_is,
}

abbrev pub three_way : ℕ → ℕ → IntComp
three_way x y = if ltb x y then int_lt else if ltb y x then int_gt else int_eq

abbrev pub three_way_ℤ : ℤ → ℤ → IntComp
three_way_ℤ x y = if ltb_ℤ x y then int_lt else if ltb_ℤ y x then int_gt else int_eq

val-take-word :
    (k : ℕ) (h : List ℕ)
    → val (take (2 * suc k) h) ≡ val (take (2 * k) h) + scale (2 * k) * word h k
val-take-word k h = grow (2 * k) (2 * k + 1) (2 * suc k) (omega arith) (omega arith)
  where
    grow :
        (a b c : ℕ)
        → b ≡ suc a
        → c ≡ suc b
        → val (take c h) ≡ val (take a h) + scale a * (get_or h a 0 + 65536 * get_or h b 0)
    grow a b c e f = ground (arith, val-take-suc a h, val-take-suc (suc a) h)

high_digit_decides : (s x y v w : ℕ) → x < s → v < w → x + s * v < y + s * w
high_digit_decides s x y v w h l = grind arith

three_way-high :
    (s x y v w : ℕ)
    → x < s
    → y < s
    → three_way (x + s * v) (y + s * w)
      ≡ (if ltb w v then int_gt else if ltb v w then int_lt else three_way x y)
three_way-high s x y v w hx hy =
    ground (arith, high_digit_decides s x y v w hx, high_digit_decides s y x w v hy, same)
  where
    same : v ≡ w → s * v ≡ s * w
    same e = rw e

compare_words_lem :
    (k : ℕ) (ah bh : List ℕ)
    → Digits ah
    → Digits bh
    → compare_words k ah bh ≡ three_way (val (take (2 * k) ah)) (val (take (2 * k) bh))
unfolding compare_words
compare_words_lem zero ah bh da db = refl
compare_words_lem (suc k) ah bh da db = rw (
  val-take-word k ah,
  val-take-word k bh,
  three_way-high (scale (2 * k)) _ _ (word ah k) (word bh k) (val-take-lt (2 * k) ah da)
      (val-take-lt (2 * k) bh db),
  compare_words_lem k ah bh da db,
)

-- The words in use hold the digits in use: an odd number of digits is padded by a zero.
val-take-padded : (i : Integer) → IsNormal i → val (take (2 * ((i.d + 1) / 2)) i.h) ≡ mag i
val-take-padded i n = elim (ℕ_discrete (i.d % 2) 1) [
  | no even ↦ words (2 * ((i.d + 1) / 2)) (inl (omega arith))
  | yes odd ↦ words (2 * ((i.d + 1) / 2)) (inr (omega arith, n.padded odd))
]
  where
    words :
        (k : ℕ) → (k ≡ i.d) ⊎ ((k ≡ suc i.d) × (get_or i.h i.d 0 ≡ 0)) → val (take k i.h) ≡ mag i
    words k (inl e) = rw e
    words k (inr (e, z)) = rw (e, val-take-suc i.d i.h, z) (omega arith)

-- On well-formed integers `int_is_abs` gives the order of their magnitudes.
pub int_is_abs-three_way :
    (a b : Integer) → IsNormal a → IsNormal b → int_is_abs a b ≡ three_way (mag a) (mag b)
unfolding int_is_abs
int_is_abs-three_way a b na nb = elim (ℕ_discrete a.d b.d) [
  | yes e ↦ ground (
    arith,
    compare_words_lem ((a.d + 1) / 2) a.h b.h na.shaped.bits nb.shaped.bits,
    val-take-padded a na,
    val-take-padded b nb,
  )
  | no ne ↦ ground (arith, longer a b na nb, longer b a nb na)
]
  where
    longer : (x y : Integer) → IsNormal x → IsNormal y → x.d < y.d → mag x < mag y
    longer x y nx ny l = omega (
      arith,
      mag-lt x nx.shaped,
      scale_mono x.d (y.d - 1) (omega arith),
      scale-le-mag y ny (omega (arith, nx.least)),
    )

-- The test for two zeros.
both_zero :
    (p q x y : Bool) {P Q : Type 0}
    → ((x && p) ≡ true) ↔ P
    → ((y && q) ≡ true) ↔ Q
    → ((p && (q && (x && y))) ≡ true) ↔ (P × Q)
both_zero p q x y e f =
    (λ h. (e.0 (ground arith), f.0 (ground arith)), λ (u, v). ground (arith, e.1 u, f.1 v))

-- On well-formed integers `int_is` gives the order of their values; a negative zero is equal to
-- zero.
pub int_is-three_way :
    (a b : Integer) → IsNormal a → IsNormal b → int_is a b ≡ three_way_ℤ (value a) (value b)
unfolding int_is int_is_zero
int_is-three_way a b na nb = ground (arith, int_is_abs-three_way a b na nb, zeros.0, zeros.1)
  where
    zeros :
        ((a.d == 1 && (b.d == 1 && (get_or a.h 0 0 == 0 && get_or b.h 0 0 == 0))) ≡ true)
        ↔ ((mag a ≡ 0) × (mag b ≡ 0))
    zeros =
        both_zero (a.d == 1) (b.d == 1) (get_or a.h 0 0 == 0) (get_or b.h 0 0 == 0)
          (int_is_zero_iff a na) (int_is_zero_iff b nb)

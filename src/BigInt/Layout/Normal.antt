-- ===== src/BigInt/Layout/Normal.antt =====
-- The well-formed integers: the storage has its size, and the digits in use are those that the
-- number needs.
use yarg_lang.Prelude.{
  ℕ, suc, ◌-◌, ◌%◌, ◌≤◌, ◌<◌, ◌≡◌, ◌≢◌, refl, true, List, [], ◌∷◌, arith, length, take, set, get_or,
  ◌↔◌, ◌∙◌,
}
use yarg_lang.BigInt.Digits.{
  val, scale, Digits, scale-pos, val-take-suc, val-take-lt, top-ne-zero, ne-zero-top,
}
use yarg_lang.BigInt.Layout.{Integer, mag, int_init, int_is_zero}

-- The storage: an even number of half-words, at most 254, each of 16 bits.
pub record IsShaped (i : Integer) : Type 0 where
  pub even : i.m % 2 ≡ 0
  pub some_room : 2 ≤ i.m
  pub fits : i.m ≤ 254
  pub sized : length i.h ≡ i.m
  pub bits : Digits i.h

-- New contents of the same size keep the shape.
pub IsShaped-of :
    {i : Integer}
    → IsShaped i
    → (s : Integer) → s.m ≡ i.m
    → length s.h ≡ length i.h
    → Digits s.h
    → IsShaped s
IsShaped-of sh s em len ds = record {
  even = omega (arith, sh.even);
  some_room = omega (arith, sh.some_room);
  fits = omega (arith, sh.fits);
  sized = omega (arith, sh.sized);
  bits = ds;
}

-- What `int_invariant` asserts besides that there was no overflow.
pub record IsNormal (i : Integer) : Type 0 where
  pub shaped : IsShaped i
  pub least : 1 ≤ i.d
  pub most : i.d ≤ i.m
  pub padded : i.d % 2 ≡ 1 → get_or i.h i.d 0 ≡ 0
  pub top : 1 < i.d → get_or i.h (i.d - 1) 0 ≢ 0

pub mag-lt : (i : Integer) → IsShaped i → mag i < scale i.d
mag-lt i s = val-take-lt i.d i.h s.bits

-- A well-formed integer of more than one digit needs them all.
pub scale-le-mag : (i : Integer) → IsNormal i → 1 < i.d → scale (i.d - 1) ≤ mag i
scale-le-mag i n h = needs (i.d - 1) (omega arith) (n.top h)
  where
    needs : (k : ℕ) → i.d ≡ suc k → get_or i.h k 0 ≢ 0 → scale k ≤ mag i
    needs k e t = rw e (top-ne-zero k i.h t)

pub top-of-scale :
    (i : Integer) → IsShaped i → 1 < i.d → scale (i.d - 1) ≤ mag i → get_or i.h (i.d - 1) 0 ≢ 0
top-of-scale i s h = needs (i.d - 1) (omega arith)
  where
    needs : (k : ℕ) → i.d ≡ suc k → scale k ≤ mag i → get_or i.h k 0 ≢ 0
    needs k e l = ne-zero-top k i.h s.bits (rw e at l)

abbrev pub cleared : List ℕ → List ℕ
cleared h = set (set h 0 0) 1 0

pub cleared_lem :
    (h : List ℕ)
    → Digits h
    → (val (take 1 (cleared h)) ≡ 0)
      × (get_or (cleared h) 1 0 ≡ 0)
      × (length (cleared h) ≡ length h)
      × Digits (cleared h)
cleared_lem [] ds = (refl, refl, refl, tt)
cleared_lem (x ∷ []) ds = (refl, refl, refl, (omega arith, tt))
cleared_lem (x ∷ y ∷ h) ds = (refl, refl, refl, (omega arith, (omega arith, ds.1.1)))

-- Storage that `int_init` has initialised is well formed and holds zero.
pub int_init-IsNormal : (i : Integer) → IsShaped i → IsNormal (int_init i) × (mag (int_init i) ≡ 0)
unfolding int_init
int_init-IsNormal i s =
    let (zero_mag, pad, len, ds) = cleared_lem i.h s.bits in
    (
      record {
        shaped = record {
          even = s.even;
          some_room = s.some_room;
          fits = s.fits;
          sized = len ∙ s.sized;
          bits = ds;
        };
        least = omega arith;
        most = omega arith;
        padded = λ _. pad;
        top = λ p. absurd (omega arith);
      },
      zero_mag,
    )

-- On well-formed integers `int_is_zero` is true exactly where the magnitude is 0.
pub int_is_zero_iff : (i : Integer) → IsNormal i → (int_is_zero i ≡ true) ↔ (mag i ≡ 0)
unfolding int_is_zero
int_is_zero_iff i n = (
  λ z. (one_digit (ground arith)).1 (ground arith),
  λ z.
      let one : i.d ≡ 1 = ground (arith, scale-le-mag i n, scale-pos (i.d - 1)) in
      ground (arith, (one_digit one).0 z),
)
  where
    one_digit : i.d ≡ 1 → (mag i ≡ 0) ↔ (get_or i.h 0 0 ≡ 0)
    one_digit e = rw e (rw (val-take-suc 0 i.h) (λ p. omega arith, λ p. omega arith))

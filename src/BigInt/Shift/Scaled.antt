-- ===== src/BigInt/Shift/Scaled.antt =====
-- `int_shift` (big-int.c) multiplies and divides by powers of 65536.
use yarg_lang.Prelude.{
  ℕ, zero, suc, ◌+◌, ◌-◌, ◌*◌, ◌%◌, ◌≤◌, ◌<◌, ◌≡◌, inl, inr, refl, false, List, ◌++◌, ◌&&◌, arith,
  take, drop, get_or, set, ltb, if◌then◌else◌, ◌==◌, length, ap, ◌∙◌, sym, lt→ltb, Bool-cases,
  append_assoc, replicate, All-append, All-take, All-drop, All-replicate, All-set, length-append,
  length-drop, length-replicate, length-set, take-append-length, take-set, get_or-set_self,
}
use native.Mathlib.Decide.{dec_lt}
use yarg_lang.Prelude.Int.{pos}
use yarg_lang.BigInt.Digits.{
  val, scale, Digits, IsDigit, scale-pos, scale_mono, scale-add, val-append, val-replicate,
}
use yarg_lang.BigInt.Layout.{Integer, mag, digits, int_is_zero}
use yarg_lang.BigInt.Layout.Normal.{
  IsShaped, IsShaped-of, IsNormal, mag-lt, scale-le-mag, int_is_zero_iff,
}
use yarg_lang.BigInt.Sum.Addition.{Stores, IsNormal-of-scale, length-digits}
use yarg_lang.BigInt.Shift.{moved_up, shift_up, int_shift}

-- A well-formed integer that is not zero needs all its digits, also a single one.
pub scale-le-mag_of_pos :
    (i : Integer) → IsNormal i → 0 < mag i → (k : ℕ) → i.d ≡ suc k → scale k ≤ mag i
scale-le-mag_of_pos i n p zero e = p
scale-le-mag_of_pos i n p (suc k) e =
    omega (arith, scale_mono (suc k) (i.d - 1) (omega arith), scale-le-mag i n (omega arith))

module _ (i : Integer) (ni : IsNormal i) (n : ℕ) where
  shifted : List ℕ
  shifted = replicate n 0 ++ digits i

  length-shifted : length shifted ≡ i.d + n
  unfolding shifted
  length-shifted = omega (
    arith,
    length-append (replicate n 0) (digits i),
    length-replicate {A = ℕ} n 0,
    length-digits i ni,
  )

  take-moved_up : take (i.d + n) (moved_up n i) ≡ shifted
  unfolding shifted
  take-moved_up =
      rw (← append_assoc)
        (take-append-length shifted (drop (i.d + n) i.h) (i.d + n) (sym length-shifted))

  val-moved_up : val (take (i.d + n) (moved_up n i)) ≡ scale n * mag i
  unfolding shifted
  val-moved_up =
      rw
        (
          take-moved_up,
          val-append (replicate n 0) (digits i),
          val-replicate n,
          length-replicate {A = ℕ} n 0,
        )
        (omega arith)

  moved_up_shape : i.d + n ≤ i.m → (length (moved_up n i) ≡ length i.h) × Digits (moved_up n i)
  moved_up_shape fits = (
    omega (
      arith,
      length-append (replicate n 0) (digits i ++ drop (i.d + n) i.h),
      length-append (digits i) (drop (i.d + n) i.h),
      length-replicate {A = ℕ} n 0,
      length-digits i ni,
      length-drop (i.d + n) i.h,
      ni.shaped.sized,
    ),
    All-append IsDigit (replicate n 0) _ (All-replicate IsDigit n (omega arith)) (
        All-append IsDigit (digits i) _ (All-take IsDigit i.d i.h ni.shaped.bits)
          (All-drop IsDigit (i.d + n) i.h ni.shaped.bits)),
  )

  product_lt : scale n * mag i < scale (i.d + n)
  product_lt =
      grind (arith, scale-add n i.d (i.d + n) (omega arith), mag-lt i ni.shaped, scale-pos n)

  -- With room for it, a moved number that is not zero needs its top digit.
  product_ge : 0 < mag i → scale (i.d + n - 1) ≤ scale n * mag i
  product_ge p = grind (
    arith,
    scale-add n (i.d - 1) (i.d + n - 1) (omega (arith, ni.least)),
    scale-le-mag_of_pos i ni p (i.d - 1) (omega (arith, ni.least)),
  )

  -- The digit above the top is cleared.
  abbrev capped : List ℕ
  capped = if ltb (i.d + n) i.m then set (moved_up n i) (i.d + n) 0 else moved_up n i

  capped_lem :
      i.d + n ≤ i.m
      → (length capped ≡ length i.h)
        × Digits capped
        × (val (take (i.d + n) capped) ≡ scale n * mag i)
        × ((i.d + n) % 2 ≡ 1 → get_or capped (i.d + n) 0 ≡ 0)
  capped_lem fits =
      let (len, ds) = moved_up_shape fits in
      elim (Bool-cases (ltb (i.d + n) i.m)) [
        | inl l ↦ rw l (
          length-set (moved_up n i) (i.d + n) 0 ∙ len,
          All-set IsDigit (moved_up n i) (i.d + n) ds (omega arith),
          ap val (take-set (moved_up n i) (i.d + n) (i.d + n) 0 (omega arith)) ∙ val-moved_up,
          λ _.
              get_or-set_self (moved_up n i) (i.d + n) 0 0
                (ground (arith, l, len, ni.shaped.sized)),
        )
        | inr g ↦
            rw g (len, ds, val-moved_up, λ odd. absurd (ground (arith, g, ni.shaped.even, odd)))
      ]

  shift_up-Stores : 0 < mag i → Stores i (scale n * mag i) (shift_up n i)
  unfolding shift_up
  shift_up-Stores p = elim (dec_lt i.m (i.d + n)) [
    | yes over ↦
        let large : scale i.m ≤ scale n * mag i =
          omega (arith, product_ge p, scale_mono i.m (i.d + n - 1) (omega arith)) in
        rw (lt→ltb i.m (i.d + n) over) (record {
          shaped = IsShaped-of ni.shaped _ refl refl ni.shaped.bits;
          room = refl;
          flag = ground (arith, large);
          exact = λ fits. absurd (omega (arith, large));
        })
    | no fits ↦
        let (len, ds, whole, pad) = capped_lem (omega arith) in
        let small : (i.d + n) % 256 ≡ i.d + n = omega (arith, ni.shaped.fits) in
        let room : ltb i.m (i.d + n) ≡ false = ground (arith, fits) in
        let s : Integer = record i { d = i.d + n; h = capped } in
        let sh : IsShaped s = IsShaped-of ni.shaped s refl len ds in
        let least : scale n * mag i < scale i.m =
          omega (arith, product_lt, scale_mono (i.d + n) i.m (omega arith)) in
        rw (room, small)
          (record {
            shaped = sh;
            room = refl;
            flag = ground (arith, least);
            exact = λ _. (
              IsNormal-of-scale s sh (omega (arith, ni.least)) (omega arith) pad
                  (λ _. omega (arith, whole, product_ge p)),
              whole,
            );
          })
  ]

-- `int_shift` of a well-formed integer up by `n` digits multiplies its magnitude by 65536 ^ n, as
-- `Stores` says, and sets `overflow_` exactly where there is no room for that or it was set before.
pub int_shift-up-Stores :
    (i : Integer) (n : ℕ) → IsNormal i → Stores i (scale n * mag i) (int_shift (pos n) i)
unfolding int_shift int_is_zero
int_shift-up-Stores i n ni = elim (Bool-cases (i.d == 1 && get_or i.h 0 0 == 0)) [
  | inl z ↦
      let nothing : scale n * mag i ≡ 0 =
        rw ((int_is_zero_iff i ni).0 (ground (arith, z))) (omega arith) in
      rw z (record {
        shaped = ni.shaped;
        room = refl;
        flag = ground (arith, nothing, scale-pos i.m);
        exact = λ _. (ni, (int_is_zero_iff i ni).0 (ground (arith, z)) ∙ sym nothing);
      })
  | inr nz ↦ rw nz (shift_up-Stores i ni n (ground (arith, nz, (int_is_zero_iff i ni).1)))
]

pub int_shift-neg : (n : ℕ) (i : Integer) → (int_shift (pos n) i).neg ≡ i.neg
unfolding int_shift shift_up
int_shift-neg n i = ground arith

-- ===== src/BigInt/Sum/Addition.antt =====
-- `addPos` (big-int.c) adds magnitudes.
use yarg_lang.Prelude.{
  ℕ, ◌+◌, ◌-◌, ◌%◌, ◌≤◌, ◌<◌, ◌≡◌, inl, inr, false, arith, take, get_or, leb, ◌||◌, max, length, ap,
  ◌∙◌, Bool-cases, length-take, All-take, ap₂,
}
use native.Mathlib.Nat.{add-zero}
use yarg_lang.BigInt.Digits.{val, scale, Digits, IsDigit, scale_mono}
use yarg_lang.BigInt.Layout.{Integer, mag, digits}
use yarg_lang.BigInt.Layout.Normal.{
  IsShaped, IsShaped-of, IsNormal, mag-lt, scale-le-mag, top-of-scale,
}
use yarg_lang.BigInt.Sum.{Written, add_loop, add_pos}
use yarg_lang.BigInt.Sum.Carry.{Holds, Ends, add_loop-Holds, add_loop-shape, add_loop-Ends}

-- `s` is what `r` becomes when the number `t` is stored in it: the room stays, `overflow_` is set
-- when `t` has no room and stays set, and otherwise `s` is well formed and holds `t`.
pub record Stores (r : Integer) (t : ℕ) (s : Integer) : Type 0 where
  pub shaped : IsShaped s
  pub room : s.m ≡ r.m
  pub flag : s.overflow ≡ (r.overflow || leb (scale r.m) t)
  pub exact : t < scale r.m → IsNormal s × (mag s ≡ t)

-- A number in storage whose digits are all needed is well formed.
pub IsNormal-of-scale :
    (s : Integer)
    → IsShaped s
    → 1 ≤ s.d
    → s.d ≤ s.m
    → (s.d % 2 ≡ 1 → get_or s.h s.d 0 ≡ 0)
    → (1 < s.d → scale (s.d - 1) ≤ mag s)
    → IsNormal s
IsNormal-of-scale s sh lo hi pad needs = record {
  shaped = sh;
  least = lo;
  most = hi;
  padded = pad;
  top = λ h. top-of-scale s sh h (needs h);
}

-- A well-formed integer is at least what fewer digits can hold.
pub scale-le-mag_of_lt : (i : Integer) → IsNormal i → (k : ℕ) → 0 < k → k < i.d → scale k ≤ mag i
scale-le-mag_of_lt i n k pos lt =
    omega (arith, scale_mono k (i.d - 1) (omega arith), scale-le-mag i n (omega arith))

pub length-digits : (i : Integer) → IsNormal i → length (digits i) ≡ i.d
length-digits i n = omega (arith, length-take i.d i.h, n.shaped.sized, n.most)

module _ (a b r : Integer) (na : IsNormal a) (nb : IsNormal b) (sr : IsShaped r) where
  abbrev w : Written
  w = add_loop (digits a) (digits b) 0 r.h

  abbrev sum : ℕ
  sum = mag a + mag b

  a-Digits : Digits (digits a)
  a-Digits = All-take IsDigit a.d a.h na.shaped.bits

  b-Digits : Digits (digits b)
  b-Digits = All-take IsDigit b.d b.h nb.shaped.bits

  w-Holds : Holds w r.h sum
  w-Holds =
      rw add-zero at (add_loop-Holds (digits a) (digits b) 0 r.h a-Digits b-Digits (omega arith))

  w-IsShaped : (s : Integer) → s.m ≡ r.m → s.h ≡ w.slots → IsShaped s
  w-IsShaped s em eh =
      let (len, ds) = add_loop-shape (digits a) (digits b) 0 r.h (omega arith) sr.bits in
      IsShaped-of sr s em (rw eh len) (rw eh ds)

  add_pos-IsShaped : IsShaped (add_pos a b r)
  unfolding add_pos
  add_pos-IsShaped = w-IsShaped (add_pos a b r) (ground arith) (ground arith)

  -- The sum has room.
  module _ (o : w.over ≡ false) where
    ends : Ends w (max a.d b.d) sum r.m
    ends =
        rw (length-digits a na, length-digits b nb, add-zero, sr.sized) at
          (add_loop-Ends (digits a) (digits b) 0 r.h a-Digits b-Digits (omega arith) o)

    add_pos_fields :
        ((add_pos a b r).d ≡ w.n)
        × ((add_pos a b r).h ≡ w.slots)
        × ((add_pos a b r).m ≡ r.m)
        × ((add_pos a b r).overflow ≡ r.overflow)
    unfolding add_pos
    add_pos_fields = ground (arith, ends.goes_on, ends.inside, sr.fits, o)

    mag-add_pos : mag (add_pos a b r) ≡ sum
    mag-add_pos =
        let (d, h, _, _) = add_pos_fields in ap₂ (λ n xs. val (take n xs)) d h ∙ w-Holds.1 o

    add_pos_fits : sum < scale r.m
    add_pos_fits =
        let (ed, _, _, _) = add_pos_fields in
        omega (
          arith,
          mag-add_pos,
          mag-lt (add_pos a b r) add_pos-IsShaped,
          scale_mono (add_pos a b r).d r.m (omega (arith, ed, ends.inside)),
        )

    needs_digits : 1 < w.n → scale (w.n - 1) ≤ sum
    needs_digits many =
        grind
          (arith, ends.count, scale-le-mag_of_lt a na (w.n - 1), scale-le-mag_of_lt b nb (w.n - 1))

    add_pos-IsNormal : IsNormal (add_pos a b r)
    add_pos-IsNormal =
        let (ed, eh, em, _) = add_pos_fields in
        IsNormal-of-scale (add_pos a b r) add_pos-IsShaped
          (omega (arith, ed, ends.some_digits, na.least, sr.some_room))
          (omega (arith, ed, em, ends.inside)) (λ _. rw (eh, ed) ends.pad)
          (λ many. rw (mag-add_pos, ed) (needs_digits (rw ed at many)))

  -- For well-formed `a` and `b` and any storage `r`: `add_pos` stores the sum of the magnitudes in
  -- `r`, as `Stores` says: the room stays, `overflow_` is set exactly when the sum has no room or it
  -- was set before, and with room the result is well formed and holds the sum.
  pub add_pos-Stores : Stores r sum (add_pos a b r)
  unfolding add_pos
  add_pos-Stores = elim (Bool-cases w.over) [
    | inl o ↦ record {
      shaped = add_pos-IsShaped;
      room = ground arith;
      flag = ground (arith, w-Holds.0 o, sr.sized);
      exact = λ fits. absurd (omega (arith, w-Holds.0 o, ap scale sr.sized));
    }
    | inr o ↦ record {
      shaped = add_pos-IsShaped;
      room = (add_pos_fields o).2;
      flag = ground (arith, (add_pos_fields o).3, add_pos_fits o);
      exact = λ fits. (add_pos-IsNormal o, mag-add_pos o);
    }
  ]

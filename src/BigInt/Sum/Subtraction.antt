-- ===== src/BigInt/Sum/Subtraction.antt =====
-- `subAGtB` (big-int.c) subtracts magnitudes.
use yarg_lang.Prelude.{
  ℕ, ◌-◌, ◌%◌, ◌≤◌, ◌<◌, ◌≡◌, inl, inr, refl, true, false, List, arith, take, get_or, set,
  if◌then◌else◌, ◌==◌, min, length, ap, ap₂, ◌∙◌, sym, Bool-cases, All-take, All-set, length-set,
  take-set, get_or-set_self,
}
use yarg_lang.BigInt.Digits.{val, scale, Digits, IsDigit, scale_mono, val-take-lt}
use yarg_lang.BigInt.Layout.{Integer, mag, digits}
use yarg_lang.BigInt.Layout.Normal.{IsShaped, IsShaped-of, IsNormal}
use yarg_lang.BigInt.Sum.{Written, sub_loop, strip, sub_a_gt_b}
use yarg_lang.BigInt.Sum.Carry.{Holds}
use yarg_lang.BigInt.Sum.Addition.{Stores, length-digits}
use yarg_lang.BigInt.Sum.Borrow.{
  Stripped, sub_loop-Holds, sub_loop-shape, sub_loop-count, sub_loop-returned, strip_lem,
}

module _ (a b r : Integer) (na : IsNormal a) (nb : IsNormal b) (sr : IsShaped r)
    (le : mag b ≤ mag a) where
  abbrev w : Written
  w = sub_loop (digits a) (digits b) 0 r.h

  abbrev difference : ℕ
  difference = mag a - mag b

  w-Holds : Holds w r.h difference
  w-Holds =
      sub_loop-Holds (digits a) (digits b) 0 r.h difference
        (All-take IsDigit a.d a.h na.shaped.bits) (All-take IsDigit b.d b.h nb.shaped.bits)
        (omega arith) (omega arith)

  -- The half-word behind an odd number of digits is cleared.
  abbrev padded : List ℕ
  padded = if w.n % 2 == 1 then set w.slots w.n 0 else w.slots

  -- The difference has room.
  module _ (o : w.over ≡ false) where
    count : w.n ≡ min r.m a.d
    count =
        omega
          (arith, (sub_loop-count (digits a) (digits b) 0 r.h o).0, length-digits a na, sr.sized)

    stripped : Stripped padded w.n (strip w.n padded w.n)
    stripped = strip_lem w.n padded w.n (omega arith)

    sub_fields :
        ((sub_a_gt_b a b r).d ≡ strip w.n padded w.n)
        × ((sub_a_gt_b a b r).h ≡ padded)
        × ((sub_a_gt_b a b r).m ≡ r.m)
        × ((sub_a_gt_b a b r).overflow ≡ r.overflow)
    unfolding sub_a_gt_b
    sub_fields =
        let (n, ret) = sub_loop-count (digits a) (digits b) 0 r.h o in
        let small : w.n % 256 ≡ w.n = omega (arith, count, sr.fits) in
        rw (ret, small) (refl, refl, refl, refl)

    padded_lem :
        (take w.n padded ≡ take w.n w.slots)
        × (length padded ≡ r.m)
        × Digits padded
        × (w.n % 2 ≡ 1 → get_or padded w.n 0 ≡ 0)
    padded_lem =
        let (len, ds) = sub_loop-shape (digits a) (digits b) 0 r.h sr.bits in
        elim (Bool-cases (w.n % 2 == 1)) [
          | inl odd ↦ rw odd (
            take-set w.slots w.n w.n 0 (omega arith),
            length-set w.slots w.n 0 ∙ len ∙ sr.sized,
            All-set IsDigit w.slots w.n ds (omega arith),
            λ _.
                get_or-set_self w.slots w.n 0 0
                  (ground (arith, odd, count, sr.even, len, sr.sized)),
          )
          | inr even ↦ rw even (refl, len ∙ sr.sized, ds, λ odd. ground (arith, even, odd))
        ]

    mag-sub_a_gt_b : mag (sub_a_gt_b a b r) ≡ difference
    mag-sub_a_gt_b =
        let (d, h, _, _) = sub_fields in
        ap₂ (λ n xs. val (take n xs)) d h ∙ stripped.same ∙ ap val padded_lem.0 ∙ w-Holds.1 o

    difference_fits : difference < scale r.m
    difference_fits =
        let (len, ds) = sub_loop-shape (digits a) (digits b) 0 r.h sr.bits in
        omega (
          arith,
          w-Holds.1 o,
          val-take-lt w.n w.slots ds,
          scale_mono w.n r.m (omega (arith, count)),
        )

    sub_a_gt_b-IsNormal : IsNormal (sub_a_gt_b a b r)
    sub_a_gt_b-IsNormal =
        let (ed, eh, em, _) = sub_fields in
        let (_, len, ds, pad) = padded_lem in
        record {
          shaped = IsShaped-of sr (sub_a_gt_b a b r) em (rw eh (len ∙ sym sr.sized)) (rw eh ds);
          least = rw ed (stripped.least (omega (arith, count, na.least, sr.some_room)));
          most = omega (arith, ed, em, stripped.shorter, count);
          padded = λ odd. rw (eh, ed) (stripped.pad (rw ed at odd) pad);
          top = λ many. rw (eh, ed) (stripped.top (rw ed at many));
        }

  -- The difference has no room.
  module _ (o : w.over ≡ true) where
    gave_up : sub_a_gt_b a b r ≡ record r { h = w.slots; overflow = true }
    unfolding sub_a_gt_b
    gave_up = rw (← sub_loop-returned (digits a) (digits b) 0 r.h, o)

    gave_up-IsShaped : IsShaped (record r { h = w.slots; overflow = true })
    gave_up-IsShaped =
        let (len, ds) = sub_loop-shape (digits a) (digits b) 0 r.h sr.bits in
        IsShaped-of sr _ refl len ds

  -- For well-formed `a` and `b`, of which `a` is not the smaller in magnitude, and any storage `r`:
  -- `sub_a_gt_b` stores the difference of the magnitudes in `r`, as `Stores` says: the room stays,
  -- `overflow_` is set exactly when the difference has no room or it was set before, and with room
  -- the result is well formed and holds the difference.
  pub sub_a_gt_b-Stores : Stores r difference (sub_a_gt_b a b r)
  sub_a_gt_b-Stores = elim (Bool-cases w.over) [
    | inl o ↦ rw (gave_up o) (record {
      shaped = gave_up-IsShaped o;
      room = refl;
      flag = ground (arith, w-Holds.0 o, sr.sized);
      exact = λ fits. absurd (omega (arith, w-Holds.0 o, ap scale sr.sized));
    })
    | inr o ↦
        let n = sub_a_gt_b-IsNormal o in
        record {
          shaped = n.shaped;
          room = (sub_fields o).2;
          flag = ground (arith, (sub_fields o).3, difference_fits o);
          exact = λ fits. (n, mag-sub_a_gt_b o);
        }
  ]

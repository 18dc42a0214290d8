-- ===== src/BigInt/Product/Exact.antt =====
-- The whole product (big-int.c: int_mul).
use yarg_lang.Prelude.{
  ℕ, ◌+◌, ◌*◌, ◌≤◌, ◌<◌, ◌≡◌, inl, inr, refl, Bool, true, false, List, [], ◌∷◌, arith, xor, length,
  ◌∙◌, sym, ap, subst, All-take,
}
use mathlib.Core.Bool.{false≢true}
use yarg_lang.Prelude.Int.{pos, pos_part, neg_part, sub_ℕ, ◌*ℤ◌}
use yarg_lang.BigInt.Digits.{val, scale, Digits, IsDigit, scale-pos, scale_mono, scale-add}
use yarg_lang.BigInt.Layout.{Integer, mag, value, signed, digits, concrete254}
use yarg_lang.BigInt.Layout.Normal.{IsShaped, IsNormal, mag-lt}
use yarg_lang.BigInt.Sum.Addition.{length-digits}
use yarg_lang.BigInt.Sum.Signed.{Computes, unsigned-IsNormal}
use yarg_lang.BigInt.Words.{int_set_i}
use yarg_lang.BigInt.Words.Stored.{int_set_i-Computes, int_set_i-neg}
use yarg_lang.BigInt.Words.Range.{concrete254-IsShaped, m-concrete254}
use yarg_lang.BigInt.Product.{Scratch, mul_row, mul_rows, int_mul}
use yarg_lang.BigInt.Product.Rows.{Sums, Outcome, RowRoom, mul_row_lem, mul_row-overflow}

-- The room that the rows left need.
abbrev RowsRoom : ℕ → ℕ → ℕ → List ℕ → List ℕ → Type 0
RowsRoom m t p xs bs = (t + scale p * (val xs * val bs) < scale m) × (p + length xs + length bs ≤ m)

mul_rows-overflow :
    (xs bs : List ℕ) (p : ℕ) (s : Scratch)
    → s.r.overflow ≡ true
    → (mul_rows xs bs p s).r.overflow ≡ true
unfolding mul_rows
mul_rows-overflow [] bs p s o = o
mul_rows-overflow (x ∷ xs) bs p s o =
    mul_rows-overflow xs bs (p + 1) (mul_row bs x p s) (mul_row-overflow bs x p s o)

rows_total :
    (t p x v w : ℕ)
    → t + scale p * (x * w) + scale (p + 1) * (v * w) ≡ t + scale p * ((x + 65536 * v) * w)
rows_total t p x v w = rw (scale-add p 1 (p + 1) refl) (omega arith)

mul_rows_lem :
    (xs bs : List ℕ) (p m t : ℕ) (s : Scratch)
    → Digits xs
    → Digits bs
    → m ≤ 254
    → Sums m t s
    → Outcome (RowsRoom m t p xs bs) m (t + scale p * (val xs * val bs)) (mul_rows xs bs p s)
unfolding mul_rows
mul_rows_lem [] bs p m t s dx db hm st = inr (subst (λ u. Sums m u s) (omega arith) st)
mul_rows_lem (x ∷ xs) bs p m t s dx db hm st =
    go (mul_row_lem bs x p m t s dx.0 db hm st) (mul_rows_lem xs bs (p + 1) m _ _ dx.1 db hm)
  where
    next : Scratch
    next = mul_row bs x p s

    Row : Type 0
    Row = Outcome (RowRoom m t p bs x) m (t + scale p * (x * val bs)) next

    Rest : Type 0
    Rest =
        Outcome (RowsRoom m (t + scale p * (x * val bs)) (p + 1) xs bs) m
          (t + scale p * (x * val bs) + scale (p + 1) * (val xs * val bs))
          (mul_rows xs bs (p + 1) next)

    Result : Type 0
    Result =
        Outcome (RowsRoom m t p (x ∷ xs) bs) m (t + scale p * (val (x ∷ xs) * val bs))
          (mul_rows xs bs (p + 1) next)

    carry_over : Rest → Result
    carry_over (inl (o, none_there)) = inl (
      o,
      λ room. none_there (rw (rows_total t p x (val xs) (val bs)) room.0, omega (arith, room.1)),
    )
    carry_over (inr st') = inr (
        subst (λ u. Sums m u (mul_rows xs bs (p + 1) next)) (rows_total t p x (val xs) (val bs))
          st')

    go : Row → (Sums m (t + scale p * (x * val bs)) next → Rest) → Result
    go (inl (o, none_there)) rest = inl (
      mul_rows-overflow xs bs (p + 1) next o,
      λ room. none_there (omega (arith, room.0), omega (arith, room.1)),
    )
    go (inr st') rest = carry_over (rest st')

mul_lt : (x y v w : ℕ) → x < v → y < w → x * y < v * w
mul_lt x y v w h k = grind arith

signed-parts : (x : ℕ) → (pos_part (sub_ℕ 0 x) ≡ 0) × (neg_part (sub_ℕ 0 x) ≡ x)
signed-parts x = ground arith

-- The sign of a product.
signed-mul : (p q : Bool) (x y : ℕ) → signed (xor p q) (x * y) ≡ signed p x *ℤ signed q y
unfolding ◌*ℤ◌
signed-mul true true x y =
    rw ((signed-parts x).0, (signed-parts x).1, (signed-parts y).0, (signed-parts y).1)
      (ground arith)
signed-mul true false x y = rw ((signed-parts x).0, (signed-parts x).1) (ground arith)
signed-mul false true x y = rw ((signed-parts y).0, (signed-parts y).1) (ground arith)
signed-mul false false x y = ground arith

module _ (a b r : Integer) (na : IsNormal a) (nb : IsNormal b) (sr : IsShaped r) where
  abbrev start : Scratch
  start = record { r = int_set_i (pos 0) r; pp = concrete254 }

  cleared_r : Computes (record r { overflow = false }) (pos 0) (int_set_i (pos 0) r)
  cleared_r = int_set_i-Computes (pos 0) r sr

  start-Sums : Sums r.m 0 start
  start-Sums =
      let (n, e) = cleared_r.exact (omega (arith, scale-pos r.m)) in
      record {
        normal = n;
        nonneg = int_set_i-neg (pos 0) r;
        clean = ground (arith, cleared_r.flag, scale-pos r.m);
        room = cleared_r.room;
        holds = ground (arith, e, int_set_i-neg (pos 0) r);
        scratch = concrete254-IsShaped;
        scratch_room = m-concrete254;
      }

  rows :
      Outcome
        (RowsRoom r.m 0 0 (digits a) (digits b))
        r.m
        (mag a * mag b)
        (mul_rows (digits a) (digits b) 0 start)
  rows =
      subst
        (λ u.
          Outcome (RowsRoom r.m 0 0 (digits a) (digits b)) r.m u
            (mul_rows (digits a) (digits b) 0 start))
        (omega arith)
        (mul_rows_lem (digits a) (digits b) 0 r.m 0 start (All-take IsDigit a.d a.h na.shaped.bits)
          (All-take IsDigit b.d b.h nb.shaped.bits) sr.fits start-Sums)

  -- For well-formed `a` and `b` and any storage `r`: where `int_mul` leaves `overflow_` clear, its
  -- result is well formed, its value is the product of the values of `a` and `b`, and the room of
  -- `r` is unchanged.
  pub int_mul-value :
      (int_mul a b r).overflow ≡ false
      → IsNormal (int_mul a b r)
        × (value (int_mul a b r) ≡ value a *ℤ value b)
        × ((int_mul a b r).m ≡ r.m)
  unfolding int_mul
  int_mul-value clean = elim rows [
    | inl (over, _) ↦ absurd (false≢true (sym clean ∙ over))
    | inr st ↦ (
      unsigned-IsNormal _ st.normal,
      ap (signed (xor a.neg b.neg)) st.holds ∙ signed-mul a.neg b.neg (mag a) (mag b),
      st.room,
    )
  ]

  product_fits : a.d + b.d ≤ r.m → 0 + scale 0 * (mag a * mag b) < scale r.m
  product_fits room =
      let pa = mag-lt a na.shaped in
      let pb = mag-lt b nb.shaped in
      grind (
        arith,
        mul_lt (mag a) (mag b) (scale a.d) (scale b.d) pa pb,
        scale-add a.d b.d (a.d + b.d) refl,
        scale_mono (a.d + b.d) r.m room,
      )

  -- For well-formed `a` and `b`: storage with room for as many digits as both have together is room
  -- enough for `int_mul`, which leaves `overflow_` clear.
  pub int_mul-room : a.d + b.d ≤ r.m → (int_mul a b r).overflow ≡ false
  unfolding int_mul
  int_mul-room room = elim rows [
    | inl (_, none_there) ↦ absurd (
        none_there (product_fits room, omega (arith, room, length-digits a na, length-digits b nb)))
    | inr st ↦ st.clean
  ]

-- ===== src/BigInt/Product/Rows.antt =====
-- One row of the long multiplication.
use yarg_lang.Prelude.{
  ℕ, ◌+◌, ◌-◌, ◌*◌, ◌≤◌, ◌<◌, ◌≡◌, ◌⊎◌, inl, inr, refl, true, false, List, [], ◌∷◌, arith, ltb, leb,
  length, ◌∙◌, if_cases, ap₂, sym, ap, subst, Bool-cases,
}
use mathlib.Core.Bool.{false≢true}
use native.Mathlib.Decide.{dec_lt}
use yarg_lang.Prelude.Int.{pos}
use yarg_lang.BigInt.Digits.{val, scale, Digits, scale-pos, scale_mono, scale-add}
use yarg_lang.BigInt.Layout.{Integer, mag}
use yarg_lang.BigInt.Layout.Normal.{IsShaped, IsNormal, mag-lt, scale-le-mag}
use yarg_lang.BigInt.Sum.{u32, add_pos, int_add}
use yarg_lang.BigInt.Sum.Addition.{Stores, add_pos-Stores}
use yarg_lang.BigInt.Sum.Signed.{Computes, unsigned-IsNormal, int_add-nonneg, int_add-overflow}
use yarg_lang.BigInt.Words.Stored.{int_set_i-Computes, int_set_i-neg}
use yarg_lang.BigInt.Words.Range.{fits_254}
use yarg_lang.BigInt.Shift.{int_shift}
use yarg_lang.BigInt.Shift.Scaled.{int_shift-up-Stores, int_shift-neg}
use yarg_lang.BigInt.Product.{Scratch, partial_product, mul_row}

-- The running sum: `r` holds `t`, in `m` digits, with no overflow so far.
pub record Sums (m t : ℕ) (s : Scratch) : Type 0 where
  pub normal : IsNormal (s.r)
  pub nonneg : s.r.neg ≡ false
  pub clean : s.r.overflow ≡ false
  pub room : s.r.m ≡ m
  pub holds : mag (s.r) ≡ t
  pub scratch : IsShaped (s.pp)
  pub scratch_room : s.pp.m ≡ 254

-- Either there was an overflow, which the stated room excludes, or `r` holds `t`.
abbrev pub Outcome : Type 0 → ℕ → ℕ → Scratch → Type 0
Outcome Room m t s = ((s.r.overflow ≡ true) × ¬ Room) ⊎ Sums m t s

pub mul_row-overflow :
    (ys : List ℕ) (x p : ℕ) (s : Scratch)
    → s.r.overflow ≡ true
    → (mul_row ys x p s).r.overflow ≡ true
unfolding mul_row
mul_row-overflow [] x p s o = o
mul_row-overflow (y ∷ ys) x p s o =
    ground (arith, int_add-overflow (s.r) (int_shift (pos p) (partial_product x y (s.pp))) (s.r) o)

-- A product of two digits.
module _ (x y : ℕ) (hx : x < 65536) (hy : y < 65536) where
  digit_product_lt : x * y < 4294967296
  digit_product_lt = grind arith

  module _ (i : Integer) (si : IsShaped i) (e : i.m ≡ 254) where
    abbrev pp : Integer
    pp = partial_product x y i

    computed : Computes (record i { overflow = false }) (pos (u32 (x * y))) pp
    computed = int_set_i-Computes (pos (u32 (x * y))) i si

    pp-room : pp.m ≡ 254
    pp-room = computed.room ∙ e

    pp-neg : pp.neg ≡ false
    pp-neg = int_set_i-neg (pos (u32 (x * y))) i

    has_room : u32 (x * y) + 0 < scale i.m
    has_room = fits_254 _ i.m e (omega arith)

    pp-IsNormal : IsNormal pp
    pp-IsNormal = (computed.exact has_room).0

    mag-pp : mag pp ≡ x * y
    mag-pp = ground (arith, (computed.exact has_room).1, pp-neg, digit_product_lt)

    pp-clean : pp.overflow ≡ false
    pp-clean = ground (arith, computed.flag, has_room)

    pp-digits : pp.d ≤ 2
    pp-digits = elim (dec_lt 2 pp.d) [
      | yes many ↦ absurd (
          omega (
            arith,
            mag-pp,
            digit_product_lt,
            scale_mono 2 (pp.d - 1) (omega arith),
            scale-le-mag pp pp-IsNormal (omega arith),
          ))
      | no few ↦ omega arith
    ]

    -- The product in its place, where the place is inside the scratch integer.
    module _ (p : ℕ) (inside : p + pp.d ≤ 254) where
      abbrev moved : Integer
      moved = int_shift (pos p) pp

      moved_fits : scale p * mag pp < scale pp.m
      moved_fits = grind (
        arith,
        pp-room,
        mag-lt pp pp-IsNormal.shaped,
        scale-pos p,
        scale-add p pp.d (p + pp.d) (omega arith),
        scale_mono (p + pp.d) pp.m (omega (arith, pp-room)),
      )

      moved-Stores : Stores pp (scale p * mag pp) moved
      moved-Stores = int_shift-up-Stores pp p pp-IsNormal

      moved-IsNormal : IsNormal moved
      moved-IsNormal = (moved-Stores.exact moved_fits).0

      mag-moved : mag moved ≡ scale p * (x * y)
      mag-moved = (moved-Stores.exact moved_fits).1 ∙ ap (λ k. scale p * k) mag-pp

      moved-neg : moved.neg ≡ false
      moved-neg = int_shift-neg p pp ∙ pp-neg

      moved-room : moved.m ≡ 254
      moved-room = moved-Stores.room ∙ pp-room

-- The room that a row needs.
abbrev pub RowRoom : ℕ → ℕ → ℕ → List ℕ → ℕ → Type 0
RowRoom m t p ys x = (t + scale p * (x * val ys) < scale m) × (p + length ys + 1 ≤ m)

row_total :
    (t p x y v : ℕ)
    → t + scale p * (x * y) + scale (p + 1) * (x * v) ≡ t + scale p * (x * (y + 65536 * v))
row_total t p x y v = rw (scale-add p 1 (p + 1) refl) (omega arith)

-- Adding a well-formed number that is not negative to the running sum.
add_moved :
    (m t u : ℕ) (s : Scratch) (moved : Integer)
    → Sums m t s
    → IsNormal moved
    → mag moved ≡ u
    → moved.neg ≡ false
    → moved.m ≡ 254
    → let r' = int_add (s.r) moved (s.r) in
      ((r'.overflow ≡ true) × (scale m ≤ t + u))
      ⊎ ((r'.overflow ≡ false) × Sums m (t + u) (record { r = r'; pp = moved }))
add_moved m t u s moved st nm em en er =
    rw (int_add-nonneg (s.r) moved (s.r) st.nonneg en) (elim (Bool-cases (leb (scale m) (t + u))) [
      | inl over ↦
          inl (ground (arith, stored.flag, st.holds, em, st.room, over), ground (arith, over))
      | inr fits ↦
          let (n, h) = stored.exact (ground (arith, st.holds, em, st.room, fits)) in
          let clean : (add_pos (s.r) moved (s.r)).overflow ≡ false =
            ground (arith, stored.flag, st.holds, em, st.room, fits, st.clean) in
          inr (
            clean,
            record {
              normal = unsigned-IsNormal _ n;
              nonneg = refl;
              clean = clean;
              room = stored.room ∙ st.room;
              holds = h ∙ ap₂ (λ a b. a + b) st.holds em;
              scratch = nm.shaped;
              scratch_room = er;
            },
          )
    ])
  where
    stored : Stores (s.r) (mag (s.r) + mag moved) (add_pos (s.r) moved (s.r))
    stored = add_pos-Stores (s.r) moved (s.r) st.normal nm st.normal.shaped

-- A row adds its digit times the other number, in its place.
pub mul_row_lem :
    (ys : List ℕ) (x p m t : ℕ) (s : Scratch)
    → x < 65536
    → Digits ys
    → m ≤ 254
    → Sums m t s
    → Outcome (RowRoom m t p ys x) m (t + scale p * (x * val ys)) (mul_row ys x p s)
unfolding mul_row
mul_row_lem [] x p m t s hx ds hm st = inr (subst (λ u. Sums m u s) (grind arith) st)
mul_row_lem (y ∷ ys) x p m t s hx ds hm st =
    if_cases Result (ltb (s.r.m) (p + pp-here.d))
      (λ out. inl (refl, λ room. ground (arith, room.1, few, st.room, out)))
      (λ inside.
        let fits : p + pp-here.d ≤ 254 = ground (arith, st.room, inside) in
        let step =
          add_moved m t (scale p * (x * y)) s (int_shift (pos p) pp-here) st
            (moved-IsNormal x y hx ds.0 (s.pp) st.scratch st.scratch_room p fits)
            (mag-moved x y hx ds.0 (s.pp) st.scratch st.scratch_room p fits)
            (moved-neg x y hx ds.0 (s.pp) st.scratch st.scratch_room p fits)
            (moved-room x y hx ds.0 (s.pp) st.scratch st.scratch_room p fits) in
        if_cases Result (int_add (s.r) (int_shift (pos p) pp-here) (s.r)).overflow
          (λ over. inl (over, λ room. overflows over room step))
          (λ clean. goes_on clean step (mul_row_lem ys x (p + 1) m _ _ hx ds.1 hm)))
  where
    pp-here : Integer
    pp-here = partial_product x y (s.pp)

    Result : Scratch → Type 0
    Result = Outcome (RowRoom m t p (y ∷ ys) x) m (t + scale p * (x * val (y ∷ ys)))

    few : pp-here.d ≤ 2
    few = pp-digits x y hx ds.0 (s.pp) st.scratch st.scratch_room

    next : Scratch
    next = record {
      r = int_add (s.r) (int_shift (pos p) pp-here) (s.r);
      pp = int_shift (pos p) pp-here;
    }

    Step : Type 0
    Step =
        ((next.r.overflow ≡ true) × (scale m ≤ t + scale p * (x * y)))
        ⊎ ((next.r.overflow ≡ false) × Sums m (t + scale p * (x * y)) next)

    overflows : next.r.overflow ≡ true → RowRoom m t p (y ∷ ys) x → ¬ Step
    overflows over room (inl (_, large)) = omega (arith, room.0)
    overflows over room (inr (clean, _)) = false≢true (sym clean ∙ over)

    Rest : Type 0
    Rest =
        Outcome (RowRoom m (t + scale p * (x * y)) (p + 1) ys x) m
          (t + scale p * (x * y) + scale (p + 1) * (x * val ys)) (mul_row ys x (p + 1) next)

    carry_over : Rest → Result (mul_row ys x (p + 1) next)
    carry_over (inl (o, none_there)) =
        inl (o, λ room. none_there (rw (row_total t p x y (val ys)) room.0, omega (arith, room.1)))
    carry_over (inr st') =
        inr (subst (λ u. Sums m u (mul_row ys x (p + 1) next)) (row_total t p x y (val ys)) st')

    goes_on :
        next.r.overflow ≡ false
        → Step
        → (Sums m (t + scale p * (x * y)) next → Rest)
        → Result (mul_row ys x (p + 1) next)
    goes_on clean (inl (over, _)) rest = absurd (false≢true (sym clean ∙ over))
    goes_on clean (inr (_, st')) rest = carry_over (rest st')

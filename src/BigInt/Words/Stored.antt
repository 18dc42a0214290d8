-- ===== src/BigInt/Words/Stored.antt =====
-- `int_set_u` and `int_set_i` (big-int.c) store the number.
use yarg_lang.Prelude.{
  ℕ, zero, suc, ◌-◌, ◌/◌, ◌%◌, ◌≤◌, ◌<◌, ◌≡◌, ◌≢◌, inl, inr, refl, false, List, [], ◌∷◌, arith,
  take, get_or, ltb, leb, ◌==◌, length, subst, ap, ◌∙◌, sym, Bool-cases,
}
use yarg_lang.Prelude.Int.{ℤ, pos, abs}
use yarg_lang.BigInt.Digits.{val, scale, Digits, scale_mono, val-take-lt, top-ne-zero}
use yarg_lang.BigInt.Layout.{Integer}
use yarg_lang.BigInt.Layout.Normal.{IsShaped, IsShaped-of, cleared, cleared_lem}
use yarg_lang.BigInt.Sum.Addition.{Stores, IsNormal-of-scale}
use yarg_lang.BigInt.Sum.Borrow.{val-take-zero_top}
use yarg_lang.BigInt.Sum.Signed.{Computes, with_sign}
use yarg_lang.BigInt.Words.{Filled, set_words, int_set_u, abs_i64, is_negative, int_set_i}

record FilledBy (slots : List ℕ) (t : ℕ) (w : Filled) : Type 0 where
  long : length w.slots ≡ length slots
  bits : Digits w.slots
  inside : w.n ≤ length slots
  whole : w.n % 2 ≡ 0
  none_left : w.left ≡ 0 → val (take w.n w.slots) ≡ t
  some_left : 0 < w.left → scale (length slots) ≤ t
  least : (k : ℕ) → w.n ≡ suc (suc k) → scale k ≤ t
  empty : w.n ≡ 0 → 0 < length slots → t ≡ 0

-- One more word makes the number larger by a word's size.
least_step :
    (m t : ℕ)
    → ((k : ℕ) → m ≡ suc (suc k) → scale k ≤ t / 4294967296)
    → m % 2 ≡ 0
    → 0 < t
    → scale m ≤ t
least_step zero t h e p = omega arith
least_step (suc zero) t h e p = absurd (omega arith)
least_step (suc (suc m)) t h e p = omega (arith, h m refl)

set_words_lem :
    (slots : List ℕ) (t : ℕ)
    → Digits slots
    → length slots % 2 ≡ 0
    → FilledBy slots t (set_words slots t)
unfolding set_words
set_words_lem [] t ds e = record {
  long = refl;
  bits = tt;
  inside = omega arith;
  whole = refl;
  none_left = λ z. sym z;
  some_left = λ z. z;
  least = λ k z. absurd (omega arith);
  empty = λ z p. absurd (omega arith);
}
set_words_lem (l ∷ []) t ds e = absurd (omega arith)
set_words_lem (l ∷ h ∷ rest) t ds e =
    let f = set_words_lem rest (t / 4294967296) ds.1.1 (omega arith) in
    elim (Bool-cases (t == 0)) [
      | inl z ↦
          let t0 : t ≡ 0 = ground (arith, z) in
          rw z (record {
            long = refl;
            bits = ds;
            inside = omega arith;
            whole = refl;
            none_left = λ _. sym t0;
            some_left = λ p. absurd (omega arith);
            least = λ k p. absurd (omega arith);
            empty = λ _ _. t0;
          })
      | inr nz ↦
          let pos_t : 0 < t = ground (arith, nz) in
          rw nz (record {
            long = ap (λ k. suc (suc k)) f.long;
            bits = (omega arith, (omega arith, f.bits));
            inside = omega (arith, f.inside);
            whole = omega (arith, f.whole);
            none_left = λ z. omega (arith, f.none_left z);
            some_left = λ z. omega (arith, f.some_left z);
            least = λ k e'.
                subst (λ j. scale j ≤ t) (omega arith) (least_step _ t f.least f.whole pos_t);
            empty = λ z _. absurd (omega arith);
          })
    ]

top_needed : (n k : ℕ) (h : List ℕ) → n ≡ suc k → get_or h k 0 ≢ 0 → scale k ≤ val (take n h)
top_needed n k h e top = rw e (top-ne-zero k h top)

module _ (i : Integer) (si : IsShaped i) (t : ℕ) where
  abbrev w : Filled
  w = set_words i.h t

  abbrev empty_room : Integer
  empty_room = record i { overflow = false }

  filled : FilledBy i.h t w
  filled = set_words_lem i.h t si.bits (omega (arith, si.sized, si.even))

  small : w.n % 256 ≡ w.n
  small = omega (arith, filled.inside, si.sized, si.fits)

  val-lt : val (take w.n w.slots) < scale i.m
  val-lt = omega (
    arith,
    val-take-lt w.n w.slots filled.bits,
    scale_mono w.n i.m (omega (arith, filled.inside, si.sized)),
  )

  flag_lem : ltb 0 w.left ≡ leb (scale i.m) t
  flag_lem = ground (arith, filled.none_left, filled.some_left, si.sized, val-lt)

  left-zero : t < scale i.m → w.left ≡ 0
  left-zero fits = ground (arith, flag_lem)

  -- The result with `d` digits, where these hold the number and need all of them.
  stored :
      (h : List ℕ) (d : ℕ)
      → (length h ≡ length i.h) × Digits h
      → 1 ≤ d
      → d ≤ i.m
      → (d % 2 ≡ 1 → get_or h d 0 ≡ 0)
      → (t < scale i.m → (val (take d h) ≡ t) × (1 < d → scale (d - 1) ≤ t))
      → Stores empty_room t (record i { neg = false; overflow = ltb 0 w.left; h = h; d = d })
  stored h d (len, ds) lo hi pad holds =
      let s : Integer = record i { neg = false; overflow = ltb 0 w.left; h = h; d = d } in
      let sh : IsShaped s = IsShaped-of si s refl len ds in
      record {
        shaped = sh;
        room = refl;
        flag = flag_lem;
        exact = λ fits.
            let (m, needs) = holds fits in
            (IsNormal-of-scale s sh lo hi pad (λ many. rw m (needs many)), m);
      }

  -- Nothing written: the number is zero.
  stored_zero :
      w.n ≡ 0
      → Stores empty_room t
          (record i { neg = false; overflow = ltb 0 w.left; h = cleared w.slots; d = 1 })
  stored_zero z =
      let (zero_val, pad, len, ds) = cleared_lem w.slots filled.bits in
      stored (cleared w.slots) 1 (len ∙ filled.long, ds) (omega arith) (omega (arith, si.some_room))
        (λ _. pad)
        (λ _. (
          zero_val ∙ sym (filled.empty z (omega (arith, si.sized, si.some_room))),
          λ many. absurd (omega arith),
        ))

  -- The top half-word of the last word is zero, or it is not.
  module _ (nz : w.n ≢ 0) where
    stored_odd :
        get_or w.slots (w.n - 1) 0 ≡ 0
        → Stores empty_room t
            (record i { neg = false; overflow = ltb 0 w.left; h = w.slots; d = w.n - 1 })
    stored_odd z =
        stored w.slots (w.n - 1) (filled.long, filled.bits) (omega (arith, filled.whole))
          (omega (arith, filled.inside, si.sized)) (λ _. z)
          (λ fits. (
            val-take-zero_top w.slots w.n (omega (arith, filled.whole)) z
                ∙ filled.none_left (left-zero fits),
            λ many. filled.least (w.n - 1 - 1) (omega arith),
          ))

    stored_even :
        get_or w.slots (w.n - 1) 0 ≢ 0
        → Stores empty_room t
            (record i { neg = false; overflow = ltb 0 w.left; h = w.slots; d = w.n })
    stored_even top =
        stored w.slots w.n (filled.long, filled.bits) (omega arith)
          (omega (arith, filled.inside, si.sized)) (λ odd. absurd (omega (arith, filled.whole)))
          (λ fits.
            let whole_val = filled.none_left (left-zero fits) in
            (
              whole_val,
              λ _. omega (arith, whole_val, top_needed w.n (w.n - 1) w.slots (omega arith) top),
            ))

  pub int_set_u-Stores : Stores empty_room t (int_set_u t i)
  unfolding int_set_u
  int_set_u-Stores = elim (Bool-cases (w.n == 0)) [
    | inl z ↦ rw (small, z) (stored_zero (ground (arith, z)))
    | inr nz ↦ elim (Bool-cases (get_or w.slots (w.n - 1) 0 == 0)) [
      | inl z ↦ rw (small, nz, z) (stored_odd (ground (arith, nz)) (ground (arith, z)))
      | inr z ↦ rw (small, nz, z) (stored_even (ground (arith, nz)) (ground (arith, z)))
    ]
  ]

  int_set_u-neg : (int_set_u t i).neg ≡ false
  unfolding int_set_u
  int_set_u-neg = ground arith

with_own_sign : (s : Integer) → s.neg ≡ false → record s { neg = false } ≡ s
with_own_sign s e j = record s { neg = sym e j }

-- In any storage `int_set_u` stores its argument, with the old `overflow_` forgotten: `overflow_` is
-- set exactly when there is no room for it, and with room the result is well formed and its value is
-- the argument.
pub int_set_u-Computes :
    (t : ℕ) (i : Integer)
    → IsShaped i
    → Computes (record i { overflow = false }) (pos t) (int_set_u t i)
int_set_u-Computes t i si =
    subst (Computes (record i { overflow = false }) (pos t))
      (with_own_sign (int_set_u t i) (int_set_u-neg i si t))
      (with_sign false (pos t) (int_set_u-Stores i si t) refl)

abs_i64-abs : (z : ℤ) → abs_i64 z ≡ abs z
unfolding abs_i64
abs_i64-abs z = ground arith

-- In any storage `int_set_i` stores its argument, the least `int64_t` included, with the old
-- `overflow_` forgotten: `overflow_` is set exactly when there is no room for it, and with room the
-- result is well formed and its value is the argument.
pub int_set_i-Computes :
    (z : ℤ) (i : Integer) → IsShaped i → Computes (record i { overflow = false }) z (int_set_i z i)
unfolding int_set_i
int_set_i-Computes z i si =
    with_sign (is_negative z) z
      (int_set_u-Stores (record i { overflow = false }) (IsShaped-of si _ refl refl si.bits)
        (abs_i64 z))
      (rw (abs_i64-abs z) (ground arith))

pub int_set_i-neg : (z : ℤ) (i : Integer) → (int_set_i z i).neg ≡ is_negative z
unfolding int_set_i
int_set_i-neg z i = refl

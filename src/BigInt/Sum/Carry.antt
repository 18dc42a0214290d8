-- ===== src/BigInt/Sum/Carry.antt =====
-- The loop of `addPos` (big-int.c).
use yarg_lang.Prelude.{
  ℕ, zero, suc, ◌+◌, ◌*◌, ◌/◌, ◌≤◌, ◌<◌, ◌≡◌, ◌⊎◌, inl, inr, refl, true, false, List, [], ◌∷◌,
  arith, take, get_or, ltb, if◌then◌else◌, ◌==◌, max, length, ap, length-set, Bool-cases, All-set,
  min, sym,
}
use mathlib.Core.Bool.{false≢true}
use native.Mathlib.Nat.{zero-add}
use yarg_lang.BigInt.Digits.{val, scale, Digits, IsDigit}
use yarg_lang.BigInt.Sum.{Written, put, gives_up, u32, add_end, add_loop}

-- What the half-words written stand for, against the number `t` that they should hold.
abbrev pub Holds : Written → List ℕ → ℕ → Type 0
Holds w slots t =
    (w.over ≡ true → scale (length slots) ≤ t) × (w.over ≡ false → val (take w.n w.slots) ≡ t)

add_end-Holds : (c : ℕ) (slots : List ℕ) → Holds (add_end c slots) slots c
unfolding add_end
add_end-Holds c [] = ground arith
add_end-Holds c (s ∷ ss) = ground arith

pub take-nil : (n : ℕ) (xs : List ℕ) → xs ≡ [] → val (take n xs) ≡ 0
take-nil zero xs e = refl
take-nil (suc n) xs e = rw e

add_loop-no_room : (xs ys : List ℕ) (c : ℕ) → (add_loop xs ys c []).slots ≡ []
unfolding add_loop
add_loop-no_room [] [] c = refl
add_loop-no_room [] (y ∷ ys) c = ground (arith, add_loop-no_room [] ys c)
add_loop-no_room (x ∷ xs) [] c = ground (arith, add_loop-no_room xs [] c)
add_loop-no_room (x ∷ xs) (y ∷ ys) c = ground (arith, add_loop-no_room xs ys c)

-- A digit that is left over where there is no room.
no_room :
    (w : Written) (ps t u : ℕ)
    → w.slots ≡ []
    → ps < 4294967296
    → (1 ≤ ps → 1 ≤ t) × (ps ≡ 0 → 65536 * u ≡ t)
    → Holds w [] u
    → Holds (if u32 ps == 0 then w else gives_up) [] t
no_room w ps t u e small parts h = elim (Bool-cases (u32 ps == 0)) [
  | inl z ↦ rw z (ground (arith, take-nil w.n w.slots e, parts.1, h.0, h.1))
  | inr nz ↦ rw nz (ground (arith, parts.0))
]

pub add_loop-Holds :
    (xs ys : List ℕ) (c : ℕ) (slots : List ℕ)
    → Digits xs
    → Digits ys
    → c < 65536
    → Holds (add_loop xs ys c slots) slots (val xs + val ys + c)
unfolding add_loop
add_loop-Holds [] [] c slots dx dy h = ground (arith, add_end-Holds c slots)
add_loop-Holds [] (y ∷ ys) c [] dx dy h =
    no_room (add_loop [] ys c []) (y + c) _ (val [] + val ys + c) (add_loop-no_room [] ys c)
      (omega arith) (omega arith) (add_loop-Holds [] ys c [] tt dy.1 h)
add_loop-Holds [] (y ∷ ys) c (s ∷ ss) dx dy h =
    ground (arith, add_loop-Holds [] ys (u32 (y + c) / 65536) ss tt dy.1 (omega arith))
add_loop-Holds (x ∷ xs) [] c [] dx dy h =
    no_room (add_loop xs [] c []) (x + c) _ (val xs + val [] + c) (add_loop-no_room xs [] c)
      (omega arith) (omega arith) (add_loop-Holds xs [] c [] dx.1 tt h)
add_loop-Holds (x ∷ xs) [] c (s ∷ ss) dx dy h =
    ground (arith, add_loop-Holds xs [] (u32 (x + c) / 65536) ss dx.1 tt (omega arith))
add_loop-Holds (x ∷ xs) (y ∷ ys) c [] dx dy h =
    no_room (add_loop xs ys c []) (x + y + c) _ (val xs + val ys + c) (add_loop-no_room xs ys c)
      (omega arith) (omega arith) (add_loop-Holds xs ys c [] dx.1 dy.1 h)
add_loop-Holds (x ∷ xs) (y ∷ ys) c (s ∷ ss) dx dy h =
    ground (arith, add_loop-Holds xs ys (u32 (x + y + c) / 65536) ss dx.1 dy.1 (omega arith))

add_end-shape :
    (c s : ℕ) (ss : List ℕ)
    → c < 65536
    → Digits (s ∷ ss)
    → (length (add_end c (s ∷ ss)).slots ≡ suc (length ss)) × Digits (add_end c (s ∷ ss)).slots
unfolding add_end
add_end-shape c s ss h ds = elim (Bool-cases (ltb 0 c)) [
  | inl e ↦ rw e (ap suc (length-set ss 0 0), (h, All-set IsDigit ss 0 ds.1 (omega arith)))
  | inr e ↦ rw e (refl, (h, ds.1))
]

-- The half-words written are as many as there were, and each of 16 bits.
pub add_loop-shape :
    (xs ys : List ℕ) (c : ℕ) (slots : List ℕ)
    → c < 65536
    → Digits slots
    → (length (add_loop xs ys c slots).slots ≡ length slots) × Digits (add_loop xs ys c slots).slots
unfolding add_loop add_end
add_loop-shape [] [] c [] h ds = ground arith
add_loop-shape [] [] c (s ∷ ss) h ds = add_end-shape c s ss h ds
add_loop-shape [] (y ∷ ys) c [] h ds = rw (add_loop-no_room [] (y ∷ ys) c) (refl, tt)
add_loop-shape [] (y ∷ ys) c (s ∷ ss) h ds =
    let (l, d) = add_loop-shape [] ys (u32 (y + c) / 65536) ss (omega arith) ds.1 in
    (ap suc l, (omega arith, d))
add_loop-shape (x ∷ xs) [] c [] h ds = rw (add_loop-no_room (x ∷ xs) [] c) (refl, tt)
add_loop-shape (x ∷ xs) [] c (s ∷ ss) h ds =
    let (l, d) = add_loop-shape xs [] (u32 (x + c) / 65536) ss (omega arith) ds.1 in
    (ap suc l, (omega arith, d))
add_loop-shape (x ∷ xs) (y ∷ ys) c [] h ds = rw (add_loop-no_room (x ∷ xs) (y ∷ ys) c) (refl, tt)
add_loop-shape (x ∷ xs) (y ∷ ys) c (s ∷ ss) h ds =
    let (l, d) = add_loop-shape xs ys (u32 (x + y + c) / 65536) ss (omega arith) ds.1 in
    (ap suc l, (omega arith, d))

-- Where the sum has room, the digits written are those of the longer operand, and a carry if there
-- is one, and the half-word behind them is zero.
pub record Ends (w : Written) (p t room : ℕ) : Type 0 where
  pub goes_on : w.returned ≡ false
  pub count : (w.n ≤ p) ⊎ ((w.n ≡ suc p) × (scale p ≤ t))
  pub some_digits : min room p ≤ w.n
  pub inside : w.n ≤ room
  pub pad : get_or w.slots w.n 0 ≡ 0

Ends-put :
    (x p' t' : ℕ) {w : Written} {p t room : ℕ}
    → Ends w p t room
    → p' ≡ suc p
    → 65536 * t ≤ t'
    → Ends (put x w) p' t' (suc room)
Ends-put x p' t' e refl_p le = record {
  goes_on = e.goes_on;
  count = rw refl_p (ground (arith, e.count));
  some_digits = omega (arith, e.some_digits);
  inside = omega (arith, e.inside);
  pad = e.pad;
}

Ends-no_room :
    (w : Written) (ps p p' t t' : ℕ)
    → w.slots ≡ []
    → (w.over ≡ false → Ends w p t 0)
    → p' ≡ suc p
    → (if u32 ps == 0 then w else gives_up).over ≡ false
    → Ends (if u32 ps == 0 then w else gives_up) p' t' 0
Ends-no_room w ps p p' t t' empty e eq o = elim (Bool-cases (u32 ps == 0)) [
  | inl z ↦ rw z (stays (e (rw z at o)))
  | inr nz ↦ absurd (false≢true (sym (rw nz at o)))
]
  where
    stays : Ends w p t 0 → Ends w p' t' 0
    stays e' = record {
      goes_on = e'.goes_on;
      count = inl (omega (arith, e'.inside));
      some_digits = omega arith;
      inside = e'.inside;
      pad = e'.pad;
    }

add_end-Ends :
    (c : ℕ) (slots : List ℕ)
    → (add_end c slots).over ≡ false
    → Ends (add_end c slots) 0 c (length slots)
unfolding add_end
add_end-Ends c [] o = record {
  goes_on = refl;
  count = inl (omega arith);
  some_digits = omega arith;
  inside = omega arith;
  pad = refl;
}
add_end-Ends c (s ∷ []) o = record {
  goes_on = ground arith;
  count = ground arith;
  some_digits = omega arith;
  inside = ground arith;
  pad = ground arith;
}
add_end-Ends c (s ∷ s' ∷ ss) o = record {
  goes_on = ground arith;
  count = ground arith;
  some_digits = omega arith;
  inside = ground arith;
  pad = ground arith;
}

pub add_loop-Ends :
    (xs ys : List ℕ) (c : ℕ) (slots : List ℕ)
    → Digits xs
    → Digits ys
    → c < 65536
    → (add_loop xs ys c slots).over ≡ false
    → Ends
        (add_loop xs ys c slots)
        (max (length xs) (length ys))
        (val xs + val ys + c)
        (length slots)
unfolding add_loop
add_loop-Ends [] [] c slots dx dy h o = rw zero-add (add_end-Ends c slots o)
add_loop-Ends [] (y ∷ ys) c [] dx dy h o =
    Ends-no_room (add_loop [] ys c []) (y + c) _ _ _ _ (add_loop-no_room [] ys c)
      (add_loop-Ends [] ys c [] tt dy.1 h) (omega arith) o
add_loop-Ends [] (y ∷ ys) c (s ∷ ss) dx dy h o =
    Ends-put _ _ _ (add_loop-Ends [] ys (u32 (y + c) / 65536) ss tt dy.1 (omega arith) o)
      (omega arith) (omega arith)
add_loop-Ends (x ∷ xs) [] c [] dx dy h o =
    Ends-no_room (add_loop xs [] c []) (x + c) _ _ _ _ (add_loop-no_room xs [] c)
      (add_loop-Ends xs [] c [] dx.1 tt h) (omega arith) o
add_loop-Ends (x ∷ xs) [] c (s ∷ ss) dx dy h o =
    Ends-put _ _ _ (add_loop-Ends xs [] (u32 (x + c) / 65536) ss dx.1 tt (omega arith) o)
      (omega arith) (omega arith)
add_loop-Ends (x ∷ xs) (y ∷ ys) c [] dx dy h o =
    Ends-no_room (add_loop xs ys c []) (x + y + c) _ _ _ _ (add_loop-no_room xs ys c)
      (add_loop-Ends xs ys c [] dx.1 dy.1 h) (omega arith) o
add_loop-Ends (x ∷ xs) (y ∷ ys) c (s ∷ ss) dx dy h o =
    Ends-put _ _ _ (add_loop-Ends xs ys (u32 (x + y + c) / 65536) ss dx.1 dy.1 (omega arith) o)
      (omega arith) (omega arith)

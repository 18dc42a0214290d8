-- ===== src/BigInt/Sum/Borrow.antt =====
-- The loop of `subAGtB` and the removal of leading zeros (big-int.c).
use yarg_lang.Prelude.{
  ℕ, zero, suc, ◌+◌, ◌-◌, ◌*◌, ◌/◌, ◌%◌, ◌≤◌, ◌<◌, ◌≡◌, ◌≢◌, inl, inr, refl, false, List, [], ◌∷◌,
  arith, take, get_or, ltb, if◌then◌else◌, ◌==◌, ◌&&◌, min, length, ap, ◌∙◌, Bool-cases,
}
use yarg_lang.BigInt.Digits.{val, Digits, val-take-suc}
use yarg_lang.BigInt.Sum.{Written, gives_up, u32, sub_loop, strip}
use yarg_lang.BigInt.Sum.Carry.{Holds, take-nil}

-- The digit that one round computes, and the borrow that it leaves.
abbrev pub digit : ℕ → ℕ → ℕ
digit a bd = if ltb a (u32 bd) then 65536 + a - u32 bd else a - u32 bd

abbrev pub borrows : ℕ → ℕ → ℕ
borrows a bd = if ltb a (u32 bd) then 1 else 0

round_lem :
    (x y c : ℕ)
    → x < 65536
    → y < 65536
    → c ≤ 1
    → (digit x (y + c) < 65536)
      × (borrows x (y + c) ≤ 1)
      × (digit x (y + c) + y + c ≡ x + 65536 * borrows x (y + c))
round_lem x y c hx hy hc = ground arith

sub_loop-no_room : (xs ys : List ℕ) (c : ℕ) → (sub_loop xs ys c []).slots ≡ []
unfolding sub_loop
sub_loop-no_room [] ys c = refl
sub_loop-no_room (x ∷ xs) [] c = ground (arith, sub_loop-no_room xs [] (borrows x (0 + c)))
sub_loop-no_room (x ∷ xs) (y ∷ ys) c = ground (arith, sub_loop-no_room xs ys (borrows x (y + c)))

no_room :
    (w : Written) (pd t u : ℕ)
    → w.slots ≡ []
    → pd < 65536
    → t ≡ pd + 65536 * u
    → Holds w [] u
    → Holds (if pd % 65536 == 0 then w else gives_up) [] t
no_room w pd t u e small parts h = elim (Bool-cases (pd % 65536 == 0)) [
  | inl z ↦ rw z (ground (arith, take-nil w.n w.slots e, h.0, h.1))
  | inr nz ↦ rw nz (ground arith)
]

-- The loop writes the difference `t`.
pub sub_loop-Holds :
    (xs ys : List ℕ) (c : ℕ) (slots : List ℕ) (t : ℕ)
    → Digits xs
    → Digits ys
    → c ≤ 1
    → t + val ys + c ≡ val xs
    → Holds (sub_loop xs ys c slots) slots t
unfolding sub_loop
sub_loop-Holds [] ys c slots t dx dy h e = (λ o. cc, λ o. omega arith)
sub_loop-Holds (x ∷ xs) [] c [] t dx dy h e =
    let (lt, b, eq) = round_lem x 0 c dx.0 (omega arith) h in
    no_room (sub_loop xs [] (borrows x (0 + c)) []) (digit x (0 + c)) t (t / 65536)
      (sub_loop-no_room xs [] _) lt (omega arith)
      (sub_loop-Holds xs [] _ [] (t / 65536) dx.1 tt b (omega arith))
sub_loop-Holds (x ∷ xs) [] c (s ∷ ss) t dx dy h e =
    let (lt, b, eq) = round_lem x 0 c dx.0 (omega arith) h in
    let rest = sub_loop-Holds xs [] (borrows x (0 + c)) ss (t / 65536) dx.1 tt b (omega arith) in
    (λ o. omega (arith, rest.0 o), λ o. omega (arith, rest.1 o))
sub_loop-Holds (x ∷ xs) (y ∷ ys) c [] t dx dy h e =
    let (lt, b, eq) = round_lem x y c dx.0 dy.0 h in
    no_room (sub_loop xs ys (borrows x (y + c)) []) (digit x (y + c)) t (t / 65536)
      (sub_loop-no_room xs ys _) lt (omega arith)
      (sub_loop-Holds xs ys _ [] (t / 65536) dx.1 dy.1 b (omega arith))
sub_loop-Holds (x ∷ xs) (y ∷ ys) c (s ∷ ss) t dx dy h e =
    let (lt, b, eq) = round_lem x y c dx.0 dy.0 h in
    let rest = sub_loop-Holds xs ys (borrows x (y + c)) ss (t / 65536) dx.1 dy.1 b (omega arith) in
    (λ o. omega (arith, rest.0 o), λ o. omega (arith, rest.1 o))

pub sub_loop-shape :
    (xs ys : List ℕ) (c : ℕ) (slots : List ℕ)
    → Digits slots
    → (length (sub_loop xs ys c slots).slots ≡ length slots) × Digits (sub_loop xs ys c slots).slots
unfolding sub_loop
sub_loop-shape [] ys c slots ds = (refl, ds)
sub_loop-shape (x ∷ xs) [] c [] ds = rw (sub_loop-no_room (x ∷ xs) [] c) (refl, tt)
sub_loop-shape (x ∷ xs) [] c (s ∷ ss) ds =
    let (l, d) = sub_loop-shape xs [] (borrows x (0 + c)) ss ds.1 in (ap suc l, (omega arith, d))
sub_loop-shape (x ∷ xs) (y ∷ ys) c [] ds = rw (sub_loop-no_room (x ∷ xs) (y ∷ ys) c) (refl, tt)
sub_loop-shape (x ∷ xs) (y ∷ ys) c (s ∷ ss) ds =
    let (l, d) = sub_loop-shape xs ys (borrows x (y + c)) ss ds.1 in (ap suc l, (omega arith, d))

-- Where the difference has room, a digit is written for each digit of `a` and each place of `r`.
pub sub_loop-count :
    (xs ys : List ℕ) (c : ℕ) (slots : List ℕ)
    → (sub_loop xs ys c slots).over ≡ false
    → ((sub_loop xs ys c slots).n ≡ min (length slots) (length xs))
      × ((sub_loop xs ys c slots).returned ≡ false)
unfolding sub_loop
sub_loop-count [] ys c slots o = (omega arith, refl)
sub_loop-count (x ∷ xs) [] c [] o = ground (arith, sub_loop-count xs [] (borrows x (0 + c)) [])
sub_loop-count (x ∷ xs) [] c (s ∷ ss) o =
    let (n, r) = sub_loop-count xs [] (borrows x (0 + c)) ss o in (omega arith, r)
sub_loop-count (x ∷ xs) (y ∷ ys) c [] o =
    ground (arith, sub_loop-count xs ys (borrows x (y + c)) [])
sub_loop-count (x ∷ xs) (y ∷ ys) c (s ∷ ss) o =
    let (n, r) = sub_loop-count xs ys (borrows x (y + c)) ss o in (omega arith, r)

-- The flag is set by returning only.
pub sub_loop-returned :
    (xs ys : List ℕ) (c : ℕ) (slots : List ℕ)
    → (sub_loop xs ys c slots).over ≡ (sub_loop xs ys c slots).returned
unfolding sub_loop
sub_loop-returned [] ys c slots = refl
sub_loop-returned (x ∷ xs) [] c [] = ground (arith, sub_loop-returned xs [] (borrows x (0 + c)) [])
sub_loop-returned (x ∷ xs) [] c (s ∷ ss) = sub_loop-returned xs [] (borrows x (0 + c)) ss
sub_loop-returned (x ∷ xs) (y ∷ ys) c [] =
    ground (arith, sub_loop-returned xs ys (borrows x (y + c)) [])
sub_loop-returned (x ∷ xs) (y ∷ ys) c (s ∷ ss) = sub_loop-returned xs ys (borrows x (y + c)) ss

-- `e` digits are what is left of `d` digits without their leading zeros.
pub record Stripped (h : List ℕ) (d e : ℕ) : Type 0 where
  pub shorter : e ≤ d
  pub least : 1 ≤ d → 1 ≤ e
  pub same : val (take e h) ≡ val (take d h)
  pub top : 1 < e → get_or h (e - 1) 0 ≢ 0
  pub pad : e % 2 ≡ 1 → (d % 2 ≡ 1 → get_or h d 0 ≡ 0) → get_or h e 0 ≡ 0

pub val-take-zero_top :
    (h : List ℕ) (d : ℕ) → 1 < d → get_or h (d - 1) 0 ≡ 0 → val (take (d - 1) h) ≡ val (take d h)
val-take-zero_top h d l z = below (d - 1) (omega arith) z
  where
    below : (k : ℕ) → d ≡ suc k → get_or h k 0 ≡ 0 → val (take k h) ≡ val (take d h)
    below k e z' = rw (e, val-take-suc k h, z') (omega arith)

pub strip_lem : (fuel : ℕ) (h : List ℕ) (d : ℕ) → d ≤ suc fuel → Stripped h d (strip fuel h d)
unfolding strip
strip_lem zero h d l = record {
  shorter = omega arith;
  least = λ p. p;
  same = refl;
  top = λ p. absurd (omega arith);
  pad = λ p z. z p;
}
strip_lem (suc fuel) h d l = elim (Bool-cases (ltb 1 d && get_or h (d - 1) 0 == 0)) [
  | inr stop ↦ rw stop (record {
    shorter = omega arith;
    least = λ p. p;
    same = refl;
    top = λ p. ground (arith, stop, p);
    pad = λ p z. z p;
  })
  | inl more ↦
      let rest = strip_lem fuel h (d - 1) (omega arith) in
      let many : 1 < d = ground (arith, more) in
      let zero_top : get_or h (d - 1) 0 ≡ 0 = ground (arith, more) in
      rw more (record {
        shorter = omega (arith, rest.shorter);
        least = λ p. rest.least (omega arith);
        same = rest.same ∙ val-take-zero_top h d many zero_top;
        top = rest.top;
        pad = λ p z. rest.pad p (λ _. zero_top);
      })
]

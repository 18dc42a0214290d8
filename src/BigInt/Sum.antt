-- ===== src/BigInt/Sum.antt =====
-- Addition and subtraction (big-int.c: int_add, addPos, int_sub, int_sub_abs, subAGtB).
-- A pointer with its end is the list of the half-words between them. `rp` advances with `ap` and
-- `bp` and is written after they are read, so that `r` may be `a` or `b`.
pub mod Carry
pub mod Addition
pub mod Borrow
pub mod Subtraction
pub mod Signed
use yarg_lang.Prelude.{
  ℕ, zero, suc, ◌+◌, ◌-◌, ◌%◌, ◌/◌, Bool, true, false, ◌&&◌, ◌||◌, List, [], ◌∷◌, ltb, ◌==◌,
  if◌then◌else◌, set, get_or,
}
use yarg_lang.BigInt.Layout.{Integer, digits}
use yarg_lang.BigInt.Compare.{IntComp, int_lt, int_eq, int_gt, int_is_abs}

-- What a loop leaves: the half-words from the first `rp` on, how far `rp` went, whether it set
-- `overflow_`, and whether it returned at once, before `d_` is set.
pub record Written : Type 0 where
  pub slots : List ℕ
  pub n : ℕ
  pub over : Bool
  pub returned : Bool

abbrev pub put : ℕ → Written → Written
put x w = record w { slots = x ∷ w.slots; n = suc w.n }

abbrev pub gives_up : Written
gives_up = record { slots = []; n = 0; over = true; returned = true }

abbrev pub u32 : ℕ → ℕ
u32 x = x % 4294967296

-- Behind the loop of `addPos`: the last carry.
pub add_end : ℕ → List ℕ → Written
add_end carry [] = record { slots = []; n = 0; over = ltb 0 carry; returned = false }
add_end carry (s ∷ ss) =
    if ltb 0 carry
    then record { slots = carry ∷ set ss 0 0; n = 1; over = false; returned = false }
    else record { slots = carry ∷ ss; n = 0; over = false; returned = false }

-- The loop of `addPos`: the digits left of `a` and of `b`, the carry, and the room left in `r`.
-- Where no room is left the carry is not written again.
pub add_loop : List ℕ → List ℕ → ℕ → List ℕ → Written
unfolding add_end
add_loop [] [] carry slots = add_end carry slots
add_loop [] (b ∷ bs) carry [] =
    let rest = add_loop [] bs carry [] in if u32 (b + carry) == 0 then rest else gives_up
add_loop [] (b ∷ bs) carry (s ∷ ss) =
    let ps = u32 (b + carry) in put (ps % 65536) (add_loop [] bs (ps / 65536) ss)
add_loop (a ∷ as') [] carry [] =
    let rest = add_loop as' [] carry [] in if u32 (a + carry) == 0 then rest else gives_up
add_loop (a ∷ as') [] carry (s ∷ ss) =
    let ps = u32 (a + carry) in put (ps % 65536) (add_loop as' [] (ps / 65536) ss)
add_loop (a ∷ as') (b ∷ bs) carry [] =
    let rest = add_loop as' bs carry [] in if u32 (a + b + carry) == 0 then rest else gives_up
add_loop (a ∷ as') (b ∷ bs) carry (s ∷ ss) =
    let ps = u32 (a + b + carry) in put (ps % 65536) (add_loop as' bs (ps / 65536) ss)

pub add_pos : Integer → Integer → Integer → Integer
add_pos a b r =
    let w = add_loop (digits a) (digits b) 0 r.h in
    if w.returned
    then record r { h = w.slots; overflow = true }
    else record r { h = w.slots; overflow = r.overflow || w.over; d = w.n % 256 }

-- The loop of `subAGtB`. A digit of the difference that has no room must be zero.
pub sub_loop : List ℕ → List ℕ → ℕ → List ℕ → Written
sub_loop [] bs borrow slots = record { slots = slots; n = 0; over = false; returned = false }
sub_loop (a ∷ as') [] borrow [] =
    let pd =
      if ltb a (u32 (0 + borrow)) then 65536 + a - u32 (0 + borrow) else a - u32 (0 + borrow) in
    let rest = sub_loop as' [] (if ltb a (u32 (0 + borrow)) then 1 else 0) [] in
    if pd % 65536 == 0 then rest else gives_up
sub_loop (a ∷ as') [] borrow (s ∷ ss) =
    let pd =
      if ltb a (u32 (0 + borrow)) then 65536 + a - u32 (0 + borrow) else a - u32 (0 + borrow) in
    put (pd % 65536) (sub_loop as' [] (if ltb a (u32 (0 + borrow)) then 1 else 0) ss)
sub_loop (a ∷ as') (b ∷ bs) borrow [] =
    let pd =
      if ltb a (u32 (b + borrow)) then 65536 + a - u32 (b + borrow) else a - u32 (b + borrow) in
    let rest = sub_loop as' bs (if ltb a (u32 (b + borrow)) then 1 else 0) [] in
    if pd % 65536 == 0 then rest else gives_up
sub_loop (a ∷ as') (b ∷ bs) borrow (s ∷ ss) =
    let pd =
      if ltb a (u32 (b + borrow)) then 65536 + a - u32 (b + borrow) else a - u32 (b + borrow) in
    put (pd % 65536) (sub_loop as' bs (if ltb a (u32 (b + borrow)) then 1 else 0) ss)

-- `while (r->d_ > 1 && rh[r->d_ - 1] == 0) r->d_--`, on at most `d_` rounds.
pub strip : ℕ → List ℕ → ℕ → ℕ
strip zero h d = d
strip (suc fuel) h d =
    let shorter = strip fuel h (d - 1) in if ltb 1 d && get_or h (d - 1) 0 == 0 then shorter else d

pub sub_a_gt_b : Integer → Integer → Integer → Integer
sub_a_gt_b a b r =
    let w = sub_loop (digits a) (digits b) 0 r.h in
    if w.returned
    then record r { h = w.slots; overflow = true }
    else let d = w.n % 256 in
      let h = if d % 2 == 1 then set w.slots d 0 else w.slots in record r { h = h; d = strip d h d }

pub int_sub_abs : Integer → Integer → Integer → Integer
int_sub_abs a b r = elim (int_is_abs a b) [
  | int_lt ↦ record (sub_a_gt_b b a r) { neg = true }
  | _ ↦ record (sub_a_gt_b a b r) { neg = false }
]

pub int_add : Integer → Integer → Integer → Integer
int_add a b r =
    if a.neg
    then (if b.neg then record (add_pos a b r) { neg = true } else int_sub_abs b a r)
    else (if b.neg then int_sub_abs a b r else record (add_pos a b r) { neg = false })

pub int_sub : Integer → Integer → Integer → Integer
int_sub a b r =
    if a.neg
    then (if b.neg then int_sub_abs b a r else record (add_pos a b r) { neg = true })
    else (if b.neg then record (add_pos a b r) { neg = false } else int_sub_abs a b r)

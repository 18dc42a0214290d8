-- ===== src/Routine/Stack.antt =====
-- The slices of a routine (cyarg/routine.c) hold one stack: what `push`, `pop` and `peek` do to it.
use yarg_lang.Prelude.{
  ℕ, zero, suc, ◌+◌, ◌*◌, ◌/◌, ◌%◌, ◌≤◌, ◌<◌, ◌≡◌, ◌≢◌, inl, inr, refl, sym, ap, ap₂, ◌∙◌, List, [],
  ◌∷◌, ◌++◌, Bool, true, false, arith, none, ◌==◌, ==_iff, subst, ltb, get_or, set, length, All,
  All-set, All-append, length-set, length-append, get_or-set_self, get_or-set_ne, Bool-cases,
}
use native.Mathlib.Nat.{mod-lt, div-add-mod}
use yarg_lang.Table.Cells.{ValueCell}
use yarg_lang.Routine.{
  Routine, StackError, slot, write_slot, blank, push, put_next, add_slice, new_slice,
}

split_index : (i j : ℕ) → i ≢ j → i / 64 ≡ j / 64 → i % 64 ≢ j % 64
split_index i j h d m = h (sym (div-add-mod i 64) ∙ omega (arith, d, m) ∙ div-add-mod j 64)

module _ {V : Type 0} (nil : V) (error_of : StackError → V) where
  -- All slices are whole, and the cell above the top is in one.
  pub record IsSliced (slices : List (List (ValueCell V ℕ))) (top : ℕ) : Type 0 where
    pub whole : All (λ (s : List (ValueCell V ℕ)). length s ≡ 64) slices
    pub room : top / 64 < length slices

  abbrev cell_at : List (List (ValueCell V ℕ)) → ℕ → ValueCell V ℕ
  cell_at slices i = slot nil error_of slices i

  -- The cells below an index, the highest first.
  abbrev pub stack_below : List (List (ValueCell V ℕ)) → ℕ → List (ValueCell V ℕ)
  stack_below slices zero = []
  stack_below slices (suc n) = slot nil error_of slices n ∷ stack_below slices n

  whole_slice :
      (slices : List (List (ValueCell V ℕ))) (i : ℕ)
      → All (λ (s : List (ValueCell V ℕ)). length s ≡ 64) slices
      → i < length slices
      → length (get_or slices i []) ≡ 64
  whole_slice [] i h lt = absurd (omega arith)
  whole_slice (s ∷ ss) zero h lt = h.0
  whole_slice (s ∷ ss) (suc i) h lt = whole_slice ss i h.1 (omega arith)

  pub slot-write_self :
      (slices : List (List (ValueCell V ℕ))) (i : ℕ) (c : ValueCell V ℕ)
      → IsSliced slices i
      → slot nil error_of (write_slot nil error_of slices i c) i ≡ c
  slot-write_self slices i c h =
      let row = get_or slices (i / 64) [] in
      ap (λ s. get_or s (i % 64) (blank nil error_of))
        (get_or-set_self slices (i / 64) (set row (i % 64) c) [] h.room)
      ∙ get_or-set_self row (i % 64) c (blank nil error_of) (
          omega
            (arith, mod-lt i {m = 64} (omega arith), whole_slice slices (i / 64) h.whole h.room))

  pub slot-write_ne :
      (slices : List (List (ValueCell V ℕ))) (i j : ℕ) (c : ValueCell V ℕ)
      → i ≢ j
      → i / 64 < length slices
      → slot nil error_of (write_slot nil error_of slices i c) j ≡ slot nil error_of slices j
  slot-write_ne slices i j c ne lt =
      let row = get_or slices (i / 64) [] in
      let b = blank nil error_of in
      let written = set slices (i / 64) (set row (i % 64) c) in
      elim (Bool-cases ((i / 64) == (j / 64))) [
        | inr other ↦
            ap (λ s. get_or s (j % 64) b)
              (get_or-set_ne slices (set row (i % 64) c) []
                (λ e. ground (arith, ==_iff (i / 64) (j / 64))))
        | inl same ↦
            let e = (==_iff (i / 64) (j / 64)).0 same in
            subst
              (λ q.
                get_or (get_or written q []) (j % 64) b ≡ get_or (get_or slices q []) (j % 64) b)
              e
              (ap (λ s. get_or s (j % 64) b)
                  (get_or-set_self slices (i / 64) (set row (i % 64) c) [] lt)
                ∙ get_or-set_ne row c b (split_index i j ne e))
      ]

  pub stack_below-write :
      (slices : List (List (ValueCell V ℕ))) (i n : ℕ) (c : ValueCell V ℕ)
      → n ≤ i
      → i / 64 < length slices
      → stack_below (write_slot nil error_of slices i c) n ≡ stack_below slices n
  stack_below-write slices i zero c le lt = refl
  stack_below-write slices i (suc n) c le lt =
      ap₂ ◌∷◌ (slot-write_ne slices i n c (λ e. omega (arith, e)) lt)
        (stack_below-write slices i n c (omega arith) lt)

  get_or-append :
      (ss : List (List (ValueCell V ℕ))) (s : List (ValueCell V ℕ)) (i : ℕ)
      → i < length ss
      → get_or (ss ++ (s ∷ [])) i [] ≡ get_or ss i []
  get_or-append [] s i h = absurd (omega arith)
  get_or-append (x ∷ ss) s zero h = refl
  get_or-append (x ∷ ss) s (suc i) h = get_or-append ss s i (omega arith)

  stack_below-append :
      (ss : List (List (ValueCell V ℕ))) (s : List (ValueCell V ℕ)) (n : ℕ)
      → n ≤ 64 * length ss
      → stack_below (ss ++ (s ∷ [])) n ≡ stack_below ss n
  stack_below-append ss s zero h = refl
  stack_below-append ss s (suc n) h =
      ap₂ ◌∷◌
        (ap (λ l. get_or l (n % 64) (blank nil error_of))
          (get_or-append ss s (n / 64) (omega arith)))
        (stack_below-append ss s n (omega arith))

  whole-write :
      (slices : List (List (ValueCell V ℕ))) (i : ℕ) (c : ValueCell V ℕ)
      → IsSliced slices i
      → All (λ (s : List (ValueCell V ℕ)). length s ≡ 64) (write_slot nil error_of slices i c)
  whole-write slices i c h =
      All-set (λ (s : List (ValueCell V ℕ)). length s ≡ 64) slices (i / 64) h.whole
        (length-set (get_or slices (i / 64) []) (i % 64) c
          ∙ whole_slice slices (i / 64) h.whole h.room)

  pub IsSliced-le :
      (slices : List (List (ValueCell V ℕ))) (n m : ℕ)
      → n ≤ m
      → IsSliced slices m
      → IsSliced slices n
  IsSliced-le slices n m le h = record { whole = h.whole; room = omega (arith, h.room) }

  abbrev pub top_cell : V → ValueCell V ℕ
  top_cell v = record { value = v; cell_type = none }

  -- What `push` leaves where the routine does not run out of slices.
  pub record Pushed (r : Routine V) (v : V) (p : Routine V) : Type 0 where
    pub sliced : IsSliced p.slices (r.stack_top_index + 1)
    pub top : p.stack_top_index ≡ r.stack_top_index + 1
    pub stacked :
        stack_below p.slices (r.stack_top_index + 1)
        ≡ top_cell v ∷ stack_below r.slices r.stack_top_index

  length-new_slice : length (new_slice nil error_of) ≡ 64
  unfolding new_slice
  length-new_slice = refl

  length-write_slot :
      (slices : List (List (ValueCell V ℕ))) (i : ℕ) (c : ValueCell V ℕ)
      → length (write_slot nil error_of slices i c) ≡ length slices
  length-write_slot slices i c =
      length-set slices (i / 64) (set (get_or slices (i / 64) []) (i % 64) c)

  stack_below-written :
      (slices : List (List (ValueCell V ℕ))) (n : ℕ) (c : ValueCell V ℕ)
      → IsSliced slices n
      → stack_below (write_slot nil error_of slices n c) (n + 1) ≡ c ∷ stack_below slices n
  stack_below-written slices n c h =
      let written = write_slot nil error_of slices n c in
      let next : n + 1 ≡ suc n = omega arith in
      ap (stack_below written) next
      ∙ ap₂ ◌∷◌ (slot-write_self slices n c h) (stack_below-write slices n n c (omega arith) h.room)

  -- While the next cell is in a slice that is there, nothing is added.
  pub push-within :
      (room : Bool) (r : Routine V) (v : V)
      → (r.stack_top_index + 1) / 64 < length r.slices
      → push nil error_of room r v ≡ put_next nil error_of r v
  unfolding push
  push-within room r v h =
      let no_more : ltb (length r.slices) ((r.stack_top_index + 1) / 64 + 1) ≡ false =
        ground (arith, h) in
      rw (no_more, push) refl

  push-beyond :
      (r : Routine V) (v : V)
      → length r.slices ≤ (r.stack_top_index + 1) / 64
      → r.grows ≡ true
      → push nil error_of true r v ≡ add_slice nil error_of (put_next nil error_of r v)
  unfolding push
  push-beyond r v h g =
      let more : ltb (length r.slices) ((r.stack_top_index + 1) / 64 + 1) ≡ true =
        ground (arith, h) in
      rw (more, g, push) refl

  pub put_next-Pushed :
      (r : Routine V) (v : V)
      → IsSliced r.slices r.stack_top_index
      → (r.stack_top_index + 1) / 64 < length r.slices
      → Pushed r v (put_next nil error_of r v)
  put_next-Pushed r v h lt = record {
    sliced = record {
      whole = whole-write r.slices r.stack_top_index (top_cell v) h;
      room = rw (length-write_slot r.slices r.stack_top_index (top_cell v)) lt;
    };
    top = refl;
    stacked = stack_below-written r.slices r.stack_top_index (top_cell v) h;
  }

  add_slice-Pushed :
      (r : Routine V) (v : V)
      → IsSliced r.slices r.stack_top_index
      → Pushed r v (add_slice nil error_of (put_next nil error_of r v))
  add_slice-Pushed r v h = record {
    sliced = record {
      whole =
          All-append (λ (s : List (ValueCell V ℕ)). length s ≡ 64)
            (write_slot nil error_of r.slices r.stack_top_index (top_cell v))
            (new_slice nil error_of ∷ []) (whole-write r.slices r.stack_top_index (top_cell v) h)
            (length-new_slice, tt);
      room = omega (
        arith,
        h.room,
        length-append (write_slot nil error_of r.slices r.stack_top_index (top_cell v))
            (new_slice nil error_of ∷ []),
        length-write_slot r.slices r.stack_top_index (top_cell v),
      );
    };
    top = refl;
    stacked =
        stack_below-append (write_slot nil error_of r.slices r.stack_top_index (top_cell v))
          (new_slice nil error_of) (r.stack_top_index + 1)
          (omega (arith, h.room, length-write_slot r.slices r.stack_top_index (top_cell v)))
        ∙ stack_below-written r.slices r.stack_top_index (top_cell v) h;
  }

  -- On a routine that may grow and gets the slice that it asks for, with whole slices and a cell
  -- above the top, `push` puts the value on the stack that the slices hold, moves the top by one,
  -- and leaves whole slices and a cell above the top.
  pub push-refines :
      (r : Routine V) (v : V)
      → IsSliced r.slices r.stack_top_index
      → r.grows ≡ true
      → Pushed r v (push nil error_of true r v)
  push-refines r v h g = elim (Bool-cases (ltb ((r.stack_top_index + 1) / 64) (length r.slices))) [
    | inl within ↦ rw (push-within true r v (ground arith)) (put_next-Pushed r v h (ground arith))
    | inr beyond ↦ rw (push-beyond r v (ground arith) g) (add_slice-Pushed r v h)
  ]

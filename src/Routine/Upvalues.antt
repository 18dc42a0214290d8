-- ===== src/Routine/Upvalues.antt =====
-- What the upvalues of a routine read, when the stack is written, a call ends or a cell is captured
-- (cyarg/routine.c: closeUpvalues; cyarg/vm.c: captureUpvalue).
use yarg_lang.Prelude.{ℕ, ◌<◌, ◌≡◌, ◌≢◌, ap, List, some, arith}
use yarg_lang.Table.Cells.{ValueCell}
use yarg_lang.Routine.{
  Routine, Upvalue, StackError, capture, slot, close_upvalues, capture_upvalue, read_upvalue,
}
use yarg_lang.Routine.Open.{
  IsDescending, AreBelow, IsFresh, reads-same, reads-close_from, close_from-AreBelow,
  close_from-IsDescending, capture-IsCapture, capture_again,
}

module _ {V : Type 0} (nil : V) (error_of : StackError → V) (r : Routine V) where
  pub read_upvalue-write :
      (slices : List (List (ValueCell V ℕ))) (n p : ℕ)
      → AreBelow n r.open_upvalues
      → ((i : ℕ) → i < n → slot nil error_of slices i ≡ slot nil error_of r.slices i)
      → read_upvalue nil error_of (record r { slices = slices }) p ≡ read_upvalue nil error_of r p
  unfolding read_upvalue
  read_upvalue-write slices n p below same =
      reads-same (slot nil error_of slices) (slot nil error_of r.slices) n r.open_upvalues r.closed
        p below same

  -- What `closeUpvalues` leaves open is below, still in order, and all upvalues read what they read.
  pub record Closes (last : ℕ) (c : Routine V) : Type 0 where
    pub below : AreBelow last c.open_upvalues
    pub descending : IsDescending c.open_upvalues
    pub reading : (p : ℕ) → read_upvalue nil error_of c p ≡ read_upvalue nil error_of r p

  -- Closing the upvalues from an index on, as `Closes` says.
  pub close_upvalues-reads :
      (last : ℕ) → IsDescending r.open_upvalues → Closes last (close_upvalues nil error_of r last)
  unfolding close_upvalues read_upvalue
  close_upvalues-reads last h =
      let at = slot nil error_of r.slices in
      record {
        below = close_from-AreBelow at last r.open_upvalues r.closed h;
        descending = close_from-IsDescending at last r.open_upvalues r.closed h;
        reading = λ p. reads-close_from at last r.open_upvalues r.closed p h;
      }

  -- Where the open upvalues are in order and a fresh address is given, `capture_upvalue` gives an
  -- upvalue that reads the cell at the offset, leaves what all others read and the order as they
  -- were, and gives the same upvalue and the same routine when it is called again.
  pub capture_upvalue-reads :
      (fresh offset : ℕ)
      → IsDescending r.open_upvalues
      → IsFresh fresh r.open_upvalues
      → let taken = capture_upvalue nil error_of fresh r offset in
        (read_upvalue nil error_of taken.1 taken.0 ≡ some (slot nil error_of r.slices offset))
        × ((p : ℕ)
            → p ≢ fresh
            → read_upvalue nil error_of taken.1 p ≡ read_upvalue nil error_of r p)
        × IsDescending taken.1.open_upvalues
        × (capture_upvalue nil error_of fresh taken.1 offset ≡ taken)
  unfolding capture_upvalue read_upvalue
  capture_upvalue-reads fresh offset h f =
      let c = capture-IsCapture fresh offset r.open_upvalues h f in
      let taken = capture fresh offset r.open_upvalues in
      (
        ground (arith, c.found),
        λ p ne. ground (arith, c.others p ne),
        c.descending,
        ap (λ (t : ℕ × List Upvalue). (t.0, record r { open_upvalues = t.1 }))
            (capture_again fresh offset taken.0 taken.1 c.descending c.found),
      )

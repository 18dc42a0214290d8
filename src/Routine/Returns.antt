-- ===== src/Routine/Returns.antt =====
-- A return from a call (cyarg/routine.c: op_return), and the errors that end a routine.
use yarg_lang.Prelude.{
  ℕ, ◌+◌, ◌-◌, ◌/◌, ◌<◌, ◌≡◌, refl, sym, subst, ◌∙◌, ◌∷◌, Bool, true, false, arith, ◌==◌,
  if◌then◌else◌, length,
}
use yarg_lang.Routine.{
  CallFrame, Routine, StackError, ExecState, exec_closed, innermost_left, put_next, peek, pop,
  pop_frame, close_upvalues, op_return, read_upvalue,
}
use yarg_lang.Routine.Stack.{
  IsSliced, IsSliced-le, stack_below, top_cell, slot-write_ne, push-within, put_next-Pushed,
}
use yarg_lang.Routine.Open.{IsDescending, AreBelow, AreBelow-le}
use yarg_lang.Routine.Upvalues.{close_upvalues-reads, read_upvalue-write}

module _ {V : Type 0} (nil : V) (error_of : StackError → V) where
  -- Whole slices with a cell above the top, and open upvalues in order on the stack.
  pub record IsRoutine (r : Routine V) : Type 0 where
    pub sliced : IsSliced nil error_of r.slices r.stack_top_index
    pub descending : IsDescending r.open_upvalues
    pub below : AreBelow r.stack_top_index r.open_upvalues

  -- The result stands where the call did, all upvalues read what they read, and the call is gone.
  pub record Returned (r : Routine V) (entry : ℕ) (q : Routine V) : Type 0 where
    pub stacked :
        stack_below nil error_of q.slices q.stack_top_index
        ≡ top_cell nil error_of (peek nil error_of r 0) ∷ stack_below nil error_of r.slices entry
    pub reading : (p : ℕ) → read_upvalue nil error_of q p ≡ read_upvalue nil error_of r p
    pub left : q.frames ≡ innermost_left r.frames
    pub still : IsRoutine q

  module _ (r : Routine V) (frame : CallFrame) (valid : IsRoutine r)
      (inside : frame.stack_entry_index < r.stack_top_index) where
    abbrev closing : Routine V
    closing =
        close_upvalues nil error_of
          (record r { stack_top_index = r.stack_top_index - 1; result = peek nil error_of r 0 })
          frame.stack_entry_index

    abbrev returning : Routine V
    returning = pop_frame nil error_of (record closing { frames = innermost_left r.frames }) frame

    returning-Returned :
        Returned r frame.stack_entry_index (put_next nil error_of returning (peek nil error_of r 0))
    unfolding close_upvalues read_upvalue
    returning-Returned =
        let entry = frame.stack_entry_index in
        let closes =
          close_upvalues-reads nil error_of
            (record r { stack_top_index = r.stack_top_index - 1; result = peek nil error_of r 0 })
            entry valid.descending in
        let at_entry : IsSliced nil error_of r.slices entry =
          IsSliced-le nil error_of r.slices entry r.stack_top_index (omega arith) valid.sliced in
        let room : (entry + 1) / 64 < length r.slices = omega (arith, valid.sliced.room) in
        let pushed = put_next-Pushed nil error_of returning (peek nil error_of r 0) at_entry room in
        record {
          stacked = pushed.stacked;
          reading = λ p.
              read_upvalue-write nil error_of returning
                (put_next nil error_of returning (peek nil error_of r 0)).slices entry p
                closes.below
                (λ i lt.
                  slot-write_ne nil error_of r.slices entry i
                    (top_cell nil error_of (peek nil error_of r 0)) (λ e. omega (arith, e))
                    at_entry.room)
              ∙ closes.reading p;
          left = refl;
          still = record {
            sliced = pushed.sliced;
            descending = closes.descending;
            below = AreBelow-le closing.open_upvalues entry (entry + 1) (omega arith) closes.below;
          };
        }

    Returned-as :
        (b : Bool) (state : ExecState) (q : Routine V)
        → Returned r frame.stack_entry_index q
        → Returned r frame.stack_entry_index
            (if b then record q { state = state } else record q { result = nil })
    unfolding read_upvalue
    Returned-as true state q h = record {
      stacked = h.stacked;
      reading = h.reading;
      left = h.left;
      still = record {
        sliced = h.still.sliced;
        descending = h.still.descending;
        below = h.still.below;
      };
    }
    Returned-as false state q h = record {
      stacked = h.stacked;
      reading = h.reading;
      left = h.left;
      still = record {
        sliced = h.still.sliced;
        descending = h.still.descending;
        below = h.still.below;
      };
    }

    -- On a well-formed routine with a frame that begins below the top, `op_return` puts the result
    -- where the call stood and drops the rest of the frame, every upvalue reads the cell that it
    -- read before, the call is gone from the frames, and the routine is well formed.
    pub op_return-Returned :
        (room : Bool) → Returned r frame.stack_entry_index (op_return nil error_of room r frame).0
    unfolding op_return pop close_upvalues
    op_return-Returned room =
        let fits : (frame.stack_entry_index + 1) / 64 < length r.slices =
          omega (arith, valid.sliced.room) in
        let q = put_next nil error_of returning (peek nil error_of r 0) in
        subst
          (λ (p : Routine V). Returned r frame.stack_entry_index (
            if length p.frames == 0
            then record p { state = exec_closed }
            else record p { result = nil }))
          (sym (push-within nil error_of room returning (peek nil error_of r 0) fits))
          (Returned-as (length q.frames == 0) exec_closed q returning-Returned)

-- ===== src/Routine.antt =====
-- A routine (cyarg/routine.c): its value stack in slices of 64 cells, its call frames, its state, and the
-- open upvalues (`captureUpvalue` and `callfn` stand in cyarg/vm.c).
pub mod Stack
pub mod Open
pub mod Upvalues
pub mod Returns
pub mod Pinned
pub mod Tests
use yarg_lang.Prelude.{
  ℕ, zero, suc, ◌+◌, ◌-◌, ◌/◌, ◌%◌, List, [], ◌∷◌, ◌++◌, Bool, true, false, Option, none, some,
  ◌==◌, ltb, leb, if◌then◌else◌, get_or, set, length, replicate,
}
use yarg_lang.Table.Cells.{ValueCell}

pub data ExecState : Type 0 where
  exec_unbound : ExecState
  exec_running : ExecState
  exec_suspended : ExecState
  exec_closed : ExecState
  exec_error : ExecState

pub record CallFrame : Type 0 where
  pub closure : ℕ
  pub ip : ℕ
  pub stack_entry_index : ℕ

-- An upvalue that is open: its `contents` is the cell of the stack at the offset.
pub record Upvalue : Type 0 where
  pub address : ℕ
  pub stack_offset : ℕ

-- The frames are those below `frameCount`, the innermost first; `closed` holds the cells of the upvalues
-- that are closed; `grows` tells that `addSlice` is not NULL.
pub record Routine (V : Type 0) : Type 0 where
  pub slices : List (List (ValueCell V ℕ))
  pub stack_top_index : ℕ
  pub frames : List CallFrame
  pub open_upvalues : List Upvalue
  pub closed : List (ℕ × ValueCell V ℕ)
  pub state : ExecState
  pub result : V
  pub error : V
  pub grows : Bool

-- The messages of `runtimeError` that the routines and the calls raise themselves.
pub data StackError : Type 0 where
  value_stack_exceeded : StackError
  fixed_value_stack_exceeded : StackError
  wrong_arity : (expected : ℕ) (got : ℕ) → StackError
  stack_overflow : StackError

abbrev pub close_from :
    {V : Type 0}
    → (ℕ → ValueCell V ℕ)
    → ℕ
    → List Upvalue
    → List (ℕ × ValueCell V ℕ)
    → List Upvalue × List (ℕ × ValueCell V ℕ)
close_from at last [] done = ([], done)
close_from at last (u ∷ us) done =
    let rest = close_from at last us ((u.address, at u.stack_offset) ∷ done) in
    if leb last u.stack_offset then rest else (u ∷ us, done)

-- The address of the upvalue for the offset, and the list with it in its place.
abbrev pub capture : ℕ → ℕ → List Upvalue → ℕ × List Upvalue
capture fresh offset [] = (fresh, record { address = fresh; stack_offset = offset } ∷ [])
capture fresh offset (u ∷ us) =
    let rest = capture fresh offset us in
    if ltb offset u.stack_offset
    then (rest.0, u ∷ rest.1)
    else if u.stack_offset == offset
    then (u.address, u ∷ us)
    else (fresh, record { address = fresh; stack_offset = offset } ∷ u ∷ us)

-- Where the upvalue at an address is open, its offset.
abbrev pub offset_of : List Upvalue → ℕ → Option ℕ
offset_of [] p = none
offset_of (u ∷ us) p = if u.address == p then some u.stack_offset else offset_of us p

abbrev pub cell_of : {V : Type 0} → List (ℕ × ValueCell V ℕ) → ℕ → Option (ValueCell V ℕ)
cell_of [] p = none
cell_of ((q, c) ∷ cs) p = if q == p then some c else cell_of cs p

abbrev pub innermost_left : List CallFrame → List CallFrame
innermost_left [] = []
innermost_left (f ∷ fs) = fs

-- The values, with nil, and what `runtimeError` leaves as the error of a routine.
module _ {V : Type 0} (nil : V) (error_of : StackError → V) where
  abbrev pub blank : ValueCell V ℕ
  blank = record { value = nil; cell_type = none }

  abbrev pub slot : List (List (ValueCell V ℕ)) → ℕ → ValueCell V ℕ
  slot slices index = get_or (get_or slices (index / 64) []) (index % 64) blank

  abbrev pub write_slot :
      List (List (ValueCell V ℕ)) → ℕ → ValueCell V ℕ → List (List (ValueCell V ℕ))
  write_slot slices index c =
      set slices (index / 64) (set (get_or slices (index / 64) []) (index % 64) c)

  abbrev pub reset_routine : Routine V → Routine V
  reset_routine r = record r { result = nil; stack_top_index = 0; frames = []; open_upvalues = [] }

  unfoldable pub init_routine : Routine V → Routine V
  init_routine r = reset_routine (record r {
    state = exec_unbound;
    error = nil;
    slices = replicate 64 blank ∷ [];
    grows = true;
  })

  unfoldable pub runtime_error : Routine V → StackError → Routine V
  runtime_error r e = reset_routine (record r { error = error_of e; state = exec_error })

  unfoldable pub new_slice : List (ValueCell V ℕ)
  new_slice = replicate 64 blank

  abbrev pub add_slice : Routine V → Routine V
  add_slice r = record r { slices = r.slices ++ (new_slice ∷ []) }

  -- The routine with the value written above the top.
  abbrev pub put_next : Routine V → V → Routine V
  put_next r v = record r {
    slices = write_slot r.slices r.stack_top_index (record { value = v; cell_type = none });
    stack_top_index = r.stack_top_index + 1;
  }

  -- `room` tells whether a slice can be allocated.
  unfoldable pub push : Bool → Routine V → V → Routine V
  push room r v =
      let next = put_next r v in
      if ltb (length r.slices) (next.stack_top_index / 64 + 1)
      then if r.grows
        then if room then add_slice next else runtime_error next value_stack_exceeded
        else runtime_error next fixed_value_stack_exceeded
      else next

  abbrev pub peek_cell : Routine V → ℕ → ValueCell V ℕ
  peek_cell r distance = slot r.slices (r.stack_top_index - 1 - distance)

  abbrev pub peek : Routine V → ℕ → V
  peek r distance = (peek_cell r distance).value

  -- `type` is none for NIL_VAL, the type of a variable that takes any value.
  -- The type of the cell on top; with no cell on the stack the index wraps, and the write is out of bounds.
  unfoldable pub push_typed : Bool → Routine V → V → Option ℕ → Option (Routine V)
  push_typed room r v type =
      let pushed = push room r v in
      if pushed.stack_top_index == 0
      then none
      else some (record pushed {
        slices =
            write_slot pushed.slices (pushed.stack_top_index - 1)
              (record { value = peek pushed 0; cell_type = type });
      })

  unfoldable pub pop : Routine V → V × Routine V
  pop r = (peek r 0, record r { stack_top_index = r.stack_top_index - 1 })

  unfoldable pub pop_n : ℕ → Routine V → Routine V
  pop_n zero r = r
  pop_n (suc n) r = pop_n n (pop r).1

  unfoldable pub close_upvalues : Routine V → ℕ → Routine V
  close_upvalues r last =
      let closing = close_from (slot r.slices) last r.open_upvalues r.closed in
      record r { open_upvalues = closing.0; closed = closing.1 }

  unfoldable pub op_close_upvalues : Routine V → Routine V
  op_close_upvalues r = (pop (close_upvalues r (r.stack_top_index - 1))).1

  abbrev pub pop_frame : Routine V → CallFrame → Routine V
  pop_frame r frame = record r { stack_top_index = frame.stack_entry_index }

  -- The routine, and the number of the frames that remain.
  unfoldable pub op_return : Bool → Routine V → CallFrame → Routine V × ℕ
  op_return room r frame =
      let popped = pop r in
      let closed_up =
        close_upvalues (record popped.1 { result = popped.0 }) frame.stack_entry_index in
      let left = pop_frame (record closed_up { frames = innermost_left r.frames }) frame in
      let pushed = push room left left.result in
      (
        (if length pushed.frames == 0
            then record pushed { state = exec_closed }
            else record pushed { result = nil }),
        length pushed.frames,
      )

  -- A call of a closure whose function has this arity and this code.
  unfoldable pub callfn : Routine V → ℕ → ℕ → ℕ → ℕ → Bool × Routine V
  callfn r closure arity code arg_count =
      if (if arg_count == arity then false else true)
      then (false, runtime_error r (wrong_arity arity arg_count))
      else if length r.frames == 20
      then (false, runtime_error r stack_overflow)
      else (
        true,
        record r {
          frames =
              record {
                closure = closure;
                ip = code;
                stack_entry_index = r.stack_top_index - (arg_count + 1);
              }
              ∷ r.frames;
        },
      )

  unfoldable pub yield_from_routine : Routine V → Routine V
  yield_from_routine r = record r { result = peek r 0; state = exec_suspended }

  -- The errors and the result of the pair that is received; nothing while the routine has none.
  unfoldable pub receive_from_routine : Routine V → Option (V × V)
  receive_from_routine r = elim r.state [
    | exec_closed ↦ some (nil, r.result)
    | exec_suspended ↦ some (nil, r.result)
    | exec_error ↦ some (r.error, nil)
    | _ ↦ none
  ]

  -- The cell of the frame at the index.
  unfoldable pub frame_slot : Routine V → CallFrame → ℕ → ValueCell V ℕ
  frame_slot r frame index = peek_cell r (r.stack_top_index - (frame.stack_entry_index + index + 1))

  unfoldable pub capture_upvalue : ℕ → Routine V → ℕ → ℕ × Routine V
  capture_upvalue fresh r offset =
      let taken = capture fresh offset r.open_upvalues in
      (taken.0, record r { open_upvalues = taken.1 })

  -- What the upvalue at an address reads: a cell of the stack while it is open, its own once it is closed.
  unfoldable pub read_upvalue : Routine V → ℕ → Option (ValueCell V ℕ)
  read_upvalue r p = elim (offset_of r.open_upvalues p) [
    | some o ↦ some (slot r.slices o)
    | none ↦ cell_of r.closed p
  ]

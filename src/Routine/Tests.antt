-- ===== src/Routine/Tests.antt =====
-- A routine (cyarg/routine.c) with numbers for values: a call of two frames, and a stack that is full.
use yarg_lang.Prelude.{ℕ, ◌≡◌, ◌≢◌, refl, Bool, true, false, [], ◌∷◌, none, some, arith, replicate}
use yarg_lang.Table.Cells.{ValueCell}
use yarg_lang.Routine.{
  CallFrame, Routine, StackError, exec_running, push, pop, pop_n, callfn, capture_upvalue,
  close_upvalues, op_return, read_upvalue, yield_from_routine, receive_from_routine, frame_slot,
}
use yarg_lang.Routine.Stack.{Pushed, push-refines}
use yarg_lang.Routine.Open.{IsDescending}
use yarg_lang.Routine.Upvalues.{capture_upvalue-reads}
use yarg_lang.Routine.Pinned.{Pinned}
use yarg_lang.Routine.Returns.{IsRoutine, Returned, op_return-Returned}

abbrev message : StackError → ℕ
message e = 99

abbrev cell : ℕ → ValueCell ℕ ℕ
cell v = record { value = v; cell_type = none }

abbrev outer : CallFrame
outer = record { closure = 11; ip = 0; stack_entry_index = 0 }

abbrev inner : CallFrame
inner = record { closure = 12; ip = 0; stack_entry_index = 1 }

-- The inner call at 1 has a variable at 2, and is about to return 44.
abbrev called : Routine ℕ
called = record {
  slices = (cell 11 ∷ cell 12 ∷ cell 33 ∷ cell 44 ∷ replicate 60 (cell 0)) ∷ [];
  stack_top_index = 4;
  frames = inner ∷ outer ∷ [];
  open_upvalues =
      record { address = 502; stack_offset = 2 } ∷ record { address = 500; stack_offset = 0 } ∷ [];
  closed = [];
  state = exec_running;
  result = 0;
  error = 0;
  grows = true;
}

called-IsRoutine : IsRoutine 0 message called
called-IsRoutine = record {
  sliced = record { whole = (refl, tt); room = omega arith };
  descending = (((omega arith, λ e. omega (arith, e)), tt), (tt, tt));
  below = (omega arith, (omega arith, tt));
}

abbrev full : Bool → Routine ℕ
full grows = record called {
  slices = replicate 64 (cell 5) ∷ [];
  stack_top_index = 63;
  grows = grows;
}

-- The variable at 2 leaves the stack with the call; its upvalue keeps it.
returns :
    ((op_return 0 message false called inner).0.stack_top_index ≡ 2)
    × ((op_return 0 message false called inner).1 ≡ 1)
    × (read_upvalue 0 message (op_return 0 message false called inner).0 502 ≡ some (cell 33))
    × ((op_return 0 message false called inner).0.open_upvalues
        ≡ record { address = 500; stack_offset = 0 } ∷ [])
    × (receive_from_routine 0 message (yield_from_routine 0 message called) ≡ some (0, 44))
    × (receive_from_routine 0 message called ≡ none)
    × ((callfn 0 message called 13 2 0 1).0 ≡ false)
    × (frame_slot 0 message called inner 1 ≡ cell 33)
    × ((pop_n 0 message 2 called).stack_top_index ≡ 2)
unfolding op_return pop close_upvalues push read_upvalue receive_from_routine yield_from_routine
    callfn frame_slot pop_n
returns = (refl, refl, refl, refl, refl, refl, refl, refl, refl)

push-refines_example : Pushed 0 message (full true) 7 (push 0 message true (full true) 7)
push-refines_example =
    push-refines 0 message (full true) 7 (record { whole = (refl, tt); room = omega arith }) refl

op_return-Returned_example : Returned 0 message called 1 (op_return 0 message false called inner).0
op_return-Returned_example =
    op_return-Returned 0 message called inner called-IsRoutine (omega arith) false

-- The outer call's variable at 1 has no upvalue yet.
capture_upvalue-reads_example :
    (read_upvalue 0 message
        (capture_upvalue 0 message 501 called 1).1
        (capture_upvalue 0 message 501 called 1).0
      ≡ some (cell 12))
    × ((p : ℕ)
        → p ≢ 501
        → read_upvalue 0 message (capture_upvalue 0 message 501 called 1).1 p
          ≡ read_upvalue 0 message called p)
    × IsDescending (capture_upvalue 0 message 501 called 1).1.open_upvalues
    × (capture_upvalue 0 message 501 (capture_upvalue 0 message 501 called 1).1 1
        ≡ capture_upvalue 0 message 501 called 1)
capture_upvalue-reads_example =
    capture_upvalue-reads 0 message called 501 1 called-IsRoutine.descending
      (λ e. omega (arith, e), (λ e. omega (arith, e), tt))

abbrev all_pinned : Pinned
all_pinned = record { routines = 21 ∷ 22 ∷ []; handlers = 31 ∷ 32 ∷ [] }

-- ===== src/Bytecode.antt =====
-- The bytes of the code that the compiler writes and the machine reads (cyarg/compiler.c,
-- cyarg/chunk.c: writeChunk, and `run` of cyarg/vm.c): integers that stand in the code, and jumps.
pub mod RoundTrip
pub mod Tests
use yarg_lang.Prelude.{
  ℕ, ◌+◌, ◌-◌, ◌*◌, ◌/◌, ◌%◌, List, [], ◌∷◌, ◌++◌, Bool, true, false, ltb, leb, if◌then◌else◌,
  get_or, set, length,
}
use yarg_lang.Prelude.Int.{ℤ, pos, negsuc, abs}
use yarg_lang.BigInt.Layout.{Integer}
use yarg_lang.BigInt.Words.{int_set_u, is_negative}

pub data ImmediateOp : Type 0 where
  op_immediate_n8 op_immediate_p8 op_immediate_n16 op_immediate_p16 op_immediate_n24
        op_immediate_p24 :
      ImmediateOp

-- The opcode and the bytes for a number of at most 24 bits and a sign; both bounds of each test are
-- one bound of the magnitude.
unfoldable pub emit_immediate_constant : ℤ → ImmediateOp × List ℕ
emit_immediate_constant v =
    let n = abs v in
    if leb n 255
    then ((if is_negative v then op_immediate_n8 else op_immediate_p8), n % 256 ∷ [])
    else if leb n 65535
    then (
      (if is_negative v then op_immediate_n16 else op_immediate_p16),
      n % 256 ∷ (n / 256) % 256 ∷ [],
    )
    else (
      (if is_negative v then op_immediate_n24 else op_immediate_p24),
      n % 256 ∷ (n / 256) % 256 ∷ (n / 65536) % 256 ∷ [],
    )

unfoldable pub has_two_bytes : ImmediateOp → Bool
has_two_bytes op_immediate_n8 = false
has_two_bytes op_immediate_p8 = false
has_two_bytes op = true

unfoldable pub has_three_bytes : ImmediateOp → Bool
has_three_bytes op_immediate_n24 = true
has_three_bytes op_immediate_p24 = true
has_three_bytes op = false

unfoldable pub is_negative_op : ImmediateOp → Bool
is_negative_op op_immediate_n8 = true
is_negative_op op_immediate_n16 = true
is_negative_op op_immediate_n24 = true
is_negative_op op = false

-- The number at the instruction pointer.
unfoldable pub read_immediate : ImmediateOp → List ℕ → ℕ
read_immediate op code =
    get_or code 0 0
    + (if has_two_bytes op then 256 * get_or code 1 0 else 0)
    + (if has_three_bytes op then 65536 * get_or code 2 0 else 0)

-- `int_init_concrete2`, as the literal that is pushed.
abbrev pub literal_concrete2 : Integer
literal_concrete2 = record {
  neg = false;
  overflow = false;
  obj = false;
  literal = true;
  d = 1;
  m = 2;
  h = 0 ∷ 0 ∷ [];
}

unfoldable pub load_immediate : ImmediateOp → List ℕ → Integer
load_immediate op code = record (int_set_u (read_immediate op code) literal_concrete2) {
  neg = is_negative_op op;
}

-- The code with the jump, and the place of its offset.
unfoldable pub emit_jump : ℕ → List ℕ → ℕ × List ℕ
emit_jump instruction code =
    let longer = code ++ (instruction ∷ 255 ∷ 255 ∷ []) in (length longer - 2, longer)

-- Whether the error is reported, and the code.
unfoldable pub patch_jump : ℕ → List ℕ → Bool × List ℕ
patch_jump offset code =
    let jump = length code - offset - 2 in
    (ltb 65535 jump, set (set code offset ((jump / 256) % 256)) (offset + 1) (jump % 256))

unfoldable pub emit_loop : ℕ → ℕ → List ℕ → Bool × List ℕ
emit_loop instruction loop_start code =
    let opened = code ++ (instruction ∷ []) in
    let offset = length opened - loop_start + 2 in
    (ltb 65535 offset, opened ++ ((offset / 256) % 256 ∷ offset % 256 ∷ []))

-- `READ_SHORT` with the instruction pointer at an index; it is then two further on.
unfoldable pub read_short : List ℕ → ℕ → ℕ
read_short code ip = get_or code ip 0 * 256 + get_or code (ip + 1) 0

unfoldable pub jump_to : List ℕ → ℕ → ℕ
jump_to code ip = ip + 2 + read_short code ip

unfoldable pub loop_to : List ℕ → ℕ → ℕ
loop_to code ip = ip + 2 - read_short code ip

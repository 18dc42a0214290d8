-- ===== src/Bytecode/RoundTrip.antt =====
-- What is written in the code is what the machine reads from it.
use yarg_lang.Prelude.{
  ℕ, zero, suc, ◌+◌, ◌-◌, ◌*◌, ◌/◌, ◌%◌, ◌≤◌, ◌<◌, ◌≡◌, ◌≢◌, refl, sym, ap, ap₂, ◌∙◌, List, [], ◌∷◌,
  ◌++◌, Bool, true, false, arith, leb, if◌then◌else◌, if_cases, get_or, set, length, length-append,
  length-set, get_or-set_self, get_or-set_ne,
}
use yarg_lang.Prelude.Int.{ℤ, pos, negsuc, abs}
use yarg_lang.BigInt.Layout.{value, signed}
use yarg_lang.BigInt.Layout.Normal.{IsNormal, IsShaped}
use yarg_lang.BigInt.Words.{int_set_u, is_negative}
use yarg_lang.BigInt.Words.Stored.{int_set_u-Stores}
use yarg_lang.BigInt.Sum.Signed.{unsigned-IsNormal}
use yarg_lang.Bytecode.{
  ImmediateOp, op_immediate_n8, op_immediate_p8, op_immediate_n16, op_immediate_p16,
  op_immediate_n24, op_immediate_p24, emit_immediate_constant, read_immediate, has_two_bytes,
  has_three_bytes, is_negative_op, literal_concrete2, load_immediate, patch_jump, emit_loop,
  read_short, jump_to, loop_to,
}

reads_one :
    (b : Bool) (x : ℕ)
    → read_immediate (if b then op_immediate_n8 else op_immediate_p8) (x ∷ []) ≡ x
unfolding read_immediate has_two_bytes has_three_bytes
reads_one true x = omega arith
reads_one false x = omega arith

reads_two :
    (b : Bool) (x y : ℕ)
    → read_immediate (if b then op_immediate_n16 else op_immediate_p16) (x ∷ y ∷ []) ≡ x + 256 * y
unfolding read_immediate has_two_bytes has_three_bytes
reads_two true x y = omega arith
reads_two false x y = omega arith

reads_three :
    (b : Bool) (x y z : ℕ)
    → read_immediate (if b then op_immediate_n24 else op_immediate_p24) (x ∷ y ∷ z ∷ [])
      ≡ x + 256 * y + 65536 * z
unfolding read_immediate has_two_bytes has_three_bytes
reads_three true x y z = omega arith
reads_three false x y z = omega arith

read-emit :
    (v : ℤ)
    → abs v < 16777216
    → read_immediate (emit_immediate_constant v).0 (emit_immediate_constant v).1 ≡ abs v
unfolding emit_immediate_constant
read-emit v h =
    let n = abs v in
    let P : ImmediateOp × List ℕ → Type 0 = λ e. read_immediate e.0 e.1 ≡ n in
    if_cases P (leb n 255) (λ one. reads_one (is_negative v) (n % 256) ∙ ground arith)
      (λ more.
        if_cases P (leb n 65535)
          (λ two. reads_two (is_negative v) (n % 256) ((n / 256) % 256) ∙ ground arith)
          (λ three.
            reads_three (is_negative v) (n % 256) ((n / 256) % 256) ((n / 65536) % 256)
            ∙ omega arith))

sign-emit : (v : ℤ) → is_negative_op (emit_immediate_constant v).0 ≡ is_negative v
unfolding emit_immediate_constant is_negative_op
sign-emit v = ground arith

with_sign : (v : ℤ) → signed (is_negative v) (abs v) ≡ v
with_sign (pos n) = ground arith
with_sign (negsuc n) = ground arith

concrete2-IsShaped : IsShaped literal_concrete2
concrete2-IsShaped = record {
  even = refl;
  some_room = omega arith;
  fits = omega arith;
  sized = refl;
  bits = (omega arith, (omega arith, tt));
}

-- For every integer below 2 ^ 24 in magnitude, what `load_immediate` makes of the opcode and the
-- bytes that `emit_immediate_constant` writes is well formed and has that value.
pub load-emit_immediate_constant :
    (v : ℤ)
    → abs v < 16777216
    → let i = load_immediate (emit_immediate_constant v).0 (emit_immediate_constant v).1 in
      IsNormal i × (value i ≡ v)
unfolding load_immediate
load-emit_immediate_constant v h =
    let read = read-emit v h in
    let n = read_immediate (emit_immediate_constant v).0 (emit_immediate_constant v).1 in
    let stored = int_set_u-Stores literal_concrete2 concrete2-IsShaped n in
    let (normal, held) = stored.exact (omega (arith, read, h)) in
    (
      unsigned-IsNormal (int_set_u n literal_concrete2) normal,
      ap₂ signed (sign-emit v) (held ∙ read) ∙ with_sign v,
    )

-- Where the two bytes of an offset are in the code and `patch_jump` reports no error, a jump that is
-- read there goes to the end of the code, and all other bytes are as they were.
pub patch_jump-jump_to :
    (offset : ℕ) (code : List ℕ)
    → offset + 2 ≤ length code
    → (patch_jump offset code).0 ≡ false
    → (jump_to (patch_jump offset code).1 offset ≡ length (patch_jump offset code).1)
      × ((i : ℕ)
          → i ≢ offset
          → i ≢ offset + 1
          → get_or (patch_jump offset code).1 i 0 ≡ get_or code i 0)
unfolding patch_jump jump_to read_short
patch_jump-jump_to offset code h quiet =
    let jump = length code - offset - 2 in
    let high = (jump / 256) % 256 in
    let low = jump % 256 in
    let half = set code offset high in
    let size = length-set half (offset + 1) low ∙ length-set code offset high in
    let small : jump ≤ 65535 = ground arith in
    let first : get_or (set half (offset + 1) low) offset 0 ≡ high =
      get_or-set_ne half low 0 (λ e. omega (arith, e))
      ∙ get_or-set_self code offset high 0 (omega arith) in
    let second : get_or (set half (offset + 1) low) (offset + 1) 0 ≡ low =
      get_or-set_self half (offset + 1) low 0 (omega (arith, length-set code offset high)) in
    (
      omega (arith, first, second, size),
      λ i ne ne'.
          get_or-set_ne half low 0 (λ e. ne' (sym e)) ∙ get_or-set_ne code high 0 (λ e. ne (sym e)),
    )

get_or-append_right :
    (xs ys : List ℕ) (k n : ℕ) → n ≡ length xs + k → get_or (xs ++ ys) n 0 ≡ get_or ys k 0
get_or-append_right [] ys k n e = ap (λ m. get_or ys m 0) (omega (arith, e))
get_or-append_right (x ∷ xs) ys k zero e = absurd (omega (arith, e))
get_or-append_right (x ∷ xs) ys k (suc n) e = get_or-append_right xs ys k n (omega (arith, e))

-- Where the start of a loop is in the code and `emit_loop` reports no error, the loop instruction,
-- when it is read, goes back to the start.
pub emit_loop-loop_to :
    (instruction loop_start : ℕ) (code : List ℕ)
    → loop_start ≤ length code
    → (emit_loop instruction loop_start code).0 ≡ false
    → loop_to (emit_loop instruction loop_start code).1 (length code + 1) ≡ loop_start
unfolding emit_loop loop_to read_short
emit_loop-loop_to instruction loop_start code h quiet =
    let opened = code ++ (instruction ∷ []) in
    let size = length-append code (instruction ∷ []) in
    let offset = length opened - loop_start + 2 in
    let small : offset ≤ 65535 = ground arith in
    let bytes = (offset / 256) % 256 ∷ offset % 256 ∷ [] in
    let first = get_or-append_right opened bytes 0 (length code + 1) (omega (arith, size)) in
    let second = get_or-append_right opened bytes 1 (length code + 1 + 1) (omega (arith, size)) in
    omega (arith, first, second, size)

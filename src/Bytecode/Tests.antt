-- ===== src/Bytecode/Tests.antt =====
-- Integers and jumps in code (cyarg/compiler.c, cyarg/vm.c).
use yarg_lang.Prelude.{ℕ, ◌≡◌, ◌≢◌, refl, false, List, [], ◌∷◌, arith, get_or, length}
use yarg_lang.Prelude.Int.{negsuc}
use yarg_lang.BigInt.Layout.{value}
use yarg_lang.BigInt.Layout.Normal.{IsNormal}
use yarg_lang.Bytecode.{
  op_immediate_n24, emit_immediate_constant, load_immediate, emit_jump, patch_jump, emit_loop,
  jump_to, loop_to,
}
use yarg_lang.Bytecode.RoundTrip.{
  load-emit_immediate_constant, patch_jump-jump_to, emit_loop-loop_to,
}

-- -(1 + 2 * 256 + 3 * 65536), and a jump of opcode 40 over two bytes.
written :
    (emit_immediate_constant (negsuc 197120) ≡ (op_immediate_n24, 1 ∷ 2 ∷ 3 ∷ []))
    × (emit_jump 40 (9 ∷ []) ≡ (2, 9 ∷ 40 ∷ 255 ∷ 255 ∷ []))
    × (patch_jump 2 (9 ∷ 40 ∷ 255 ∷ 255 ∷ 7 ∷ 8 ∷ []) ≡ (false, 9 ∷ 40 ∷ 0 ∷ 2 ∷ 7 ∷ 8 ∷ []))
    × (emit_loop 41 1 (9 ∷ 7 ∷ []) ≡ (false, 9 ∷ 7 ∷ 41 ∷ 0 ∷ 4 ∷ []))
unfolding emit_immediate_constant emit_jump patch_jump emit_loop
written = (refl, refl, refl, refl)

load-emit_immediate_constant_example :
    let i =
      load_immediate
        (emit_immediate_constant (negsuc 197120)).0
        (emit_immediate_constant (negsuc 197120)).1 in
    IsNormal i × (value i ≡ negsuc 197120)
load-emit_immediate_constant_example = load-emit_immediate_constant (negsuc 197120) (omega arith)

abbrev jumping : List ℕ
jumping = 9 ∷ 40 ∷ 255 ∷ 255 ∷ 7 ∷ 8 ∷ []

patch_jump-jump_to_example :
    (jump_to (patch_jump 2 jumping).1 2 ≡ length (patch_jump 2 jumping).1)
    × ((i : ℕ) → i ≢ 2 → i ≢ 3 → get_or (patch_jump 2 jumping).1 i 0 ≡ get_or jumping i 0)
unfolding patch_jump
patch_jump-jump_to_example = patch_jump-jump_to 2 jumping (omega arith) refl

emit_loop-loop_to_example : loop_to (emit_loop 41 1 (9 ∷ 7 ∷ [])).1 3 ≡ 1
unfolding emit_loop
emit_loop-loop_to_example = emit_loop-loop_to 41 1 (9 ∷ 7 ∷ []) (omega arith) refl

-- ===== src/Compiler/Tests.antt =====
-- Functions in a function (cyarg/compiler.c), where the names are of one character.
use yarg_lang.Prelude.{ℕ, ◌≡◌, refl, true, false, [], ◌∷◌, none, some, arith}
use yarg_lang.Compiler.{
  Local, FunctionCompiler, op_close_upvalue, op_pop, own_initializer, already_declared,
  resolve_local, add_upvalue, resolve_upvalue, declare_variable, mark_initialized, begin_scope,
  end_scope,
}
use yarg_lang.Compiler.Captures.{Finds, resolve_upvalue-Finds}
use yarg_lang.Compiler.Blocks.{end_scope-begin_scope}

abbrev local : ℕ → ℕ → Local
local c d = record { name = c ∷ []; depth = some d; is_captured = false }

-- `a` and `b` are locals of the outermost function, and `c` of the one in it.
abbrev outermost : FunctionCompiler
outermost = record { locals = local 98 1 ∷ local 97 1 ∷ []; upvalues = []; scope_depth = 1 }

abbrev middle : FunctionCompiler
middle = record { locals = local 99 1 ∷ []; upvalues = []; scope_depth = 1 }

abbrev innermost : FunctionCompiler
innermost = record { locals = []; upvalues = []; scope_depth = 1 }

-- `a` is the upvalue 0 of both inner functions, and captured where it stands.
captures :
    ((resolve_upvalue innermost (middle ∷ outermost ∷ []) (97 ∷ [])).upvalue ≡ some 0)
    × ((resolve_upvalue innermost (middle ∷ outermost ∷ []) (97 ∷ [])).outer
        ≡ record middle { upvalues = record { index = 0; is_local = true } ∷ [] }
          ∷ record outermost {
            locals =
                local 98 1 ∷ record { name = 97 ∷ []; depth = some 1; is_captured = true } ∷ [];
          }
          ∷ [])
    × ((resolve_upvalue innermost (middle ∷ outermost ∷ []) (100 ∷ [])).upvalue ≡ none)
    × ((declare_variable middle (99 ∷ [])).1 ≡ already_declared ∷ [])
    × (resolve_local (declare_variable middle (100 ∷ [])).0.locals (100 ∷ [])
        ≡ some (1, own_initializer ∷ []))
    × (resolve_local (mark_initialized (declare_variable middle (100 ∷ [])).0).locals (100 ∷ [])
        ≡ some (1, []))
unfolding resolve_upvalue resolve_local add_upvalue declare_variable mark_initialized
captures = (refl, refl, refl, refl, refl, refl)

resolve_upvalue-Finds_example :
    Finds innermost
      (middle ∷ outermost ∷ [])
      (97 ∷ [])
      (resolve_upvalue innermost (middle ∷ outermost ∷ []) (97 ∷ []))
unfolding resolve_upvalue resolve_local add_upvalue
resolve_upvalue-Finds_example =
    resolve_upvalue-Finds innermost (middle ∷ outermost ∷ []) (97 ∷ []) refl

abbrev in_block : FunctionCompiler
in_block = record middle {
  locals =
      record { name = 101 ∷ []; depth = some 2; is_captured = true }
      ∷ local 100 2
      ∷ local 99 1
      ∷ [];
  scope_depth = 2;
}

end_scope-begin_scope_example : end_scope in_block ≡ (
  op_close_upvalue ∷ op_pop ∷ [],
  record in_block { locals = local 99 1 ∷ []; scope_depth = 1 },
)
unfolding begin_scope
end_scope-begin_scope_example =
    end_scope-begin_scope middle in_block
      (record { name = 101 ∷ []; depth = some 2; is_captured = true } ∷ local 100 2 ∷ [])
      (local 99 1 ∷ []) refl refl ((2, refl, omega arith), ((2, refl, omega arith), tt))
      ((1, refl, omega arith), tt)

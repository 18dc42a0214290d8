-- ===== src/Compiler.antt =====
-- The scopes of the compiler (cyarg/compiler.c): the locals of the functions that enclose each other, and
-- the upvalues through which an inner function reaches the locals of an outer one.
pub mod Scope
pub mod Captures
pub mod Blocks
pub mod Tests
use yarg_lang.Prelude.{
  ℕ, zero, suc, ◌+◌, ◌-◌, List, [], ◌∷◌, ◌++◌, Bool, true, false, not, ◌&&◌, ◌||◌, Option, none,
  some, ◌==◌, ltb, if◌then◌else◌, length,
}

-- A depth of -1, before the initialiser is compiled, is none.
pub record Local : Type 0 where
  pub name : List ℕ
  pub depth : Option ℕ
  pub is_captured : Bool

pub record CompilerUpvalue : Type 0 where
  pub index : ℕ
  pub is_local : Bool

-- The locals are the innermost first, so that the index of one is the number of those behind it; the
-- upvalues are in their order.
pub record FunctionCompiler : Type 0 where
  pub locals : List Local
  pub upvalues : List CompilerUpvalue
  pub scope_depth : ℕ

-- The calls of `errorAt`; the first one is reported, and `panicMode` silences the others.
pub data ScopeError : Type 0 where
  own_initializer too_many_locals too_many_upvalues already_declared : ScopeError

pub data ScopeOp : Type 0 where
  op_close_upvalue op_pop : ScopeOp

abbrev pub identifiers_equal : List ℕ → List ℕ → Bool
identifiers_equal [] [] = true
identifiers_equal (a ∷ as') (b ∷ bs) = a == b && identifiers_equal as' bs
identifiers_equal _ _ = false

abbrev pub is_uninitialised : Local → Bool
is_uninitialised l = elim l.depth [ none ↦ true | some d ↦ false ]

-- The index of the local, with the error for a variable that its own initialiser reads.
unfoldable pub resolve_local : List Local → List ℕ → Option (ℕ × List ScopeError)
resolve_local [] name = none
resolve_local (l ∷ ls) name =
    let rest = resolve_local ls name in
    if identifiers_equal name l.name
    then some (length ls, if is_uninitialised l then own_initializer ∷ [] else [])
    else rest

abbrev pub capture_local : ℕ → List Local → List Local
capture_local i [] = []
capture_local i (l ∷ ls) =
    let rest = capture_local i ls in
    if length ls == i then record l { is_captured = true } ∷ ls else l ∷ rest

abbrev pub find_upvalue : ℕ → Bool → ℕ → List CompilerUpvalue → Option ℕ
find_upvalue index is_local i [] = none
find_upvalue index is_local i (u ∷ us) =
    let rest = find_upvalue index is_local (i + 1) us in
    if u.index == index && (if u.is_local then is_local else not is_local) then some i else rest

-- The index of the upvalue, the upvalues, and the error where there are 256.
unfoldable pub add_upvalue :
    List CompilerUpvalue → ℕ → Bool → ℕ × List CompilerUpvalue × List ScopeError
add_upvalue us index is_local = elim (find_upvalue index is_local 0 us) [
  | some i ↦ (i, us, [])
  | none ↦
      if length us == 256
      then (0, us, too_many_upvalues ∷ [])
      else (length us, us ++ (record { index = index; is_local = is_local } ∷ []), [])
]

pub record Resolved : Type 0 where
  pub upvalue : Option ℕ
  pub inner : FunctionCompiler
  pub outer : List FunctionCompiler
  pub errors : List ScopeError

abbrev pub with_upvalue :
    FunctionCompiler → List FunctionCompiler → List ScopeError → ℕ → Bool → Resolved
with_upvalue f outer errors index is_local =
    let added = add_upvalue f.upvalues index is_local in
    record {
      upvalue = some added.0;
      inner = record f { upvalues = added.1 };
      outer = outer;
      errors = errors ++ added.2;
    }

-- A compiler, and those that enclose it.
unfoldable pub resolve_upvalue : FunctionCompiler → List FunctionCompiler → List ℕ → Resolved
resolve_upvalue f [] name = record { upvalue = none; inner = f; outer = []; errors = [] }
resolve_upvalue f (g ∷ gs) name =
    let further = resolve_upvalue g gs name in
    elim (resolve_local g.locals name) [
      | some found ↦
          with_upvalue f (record g { locals = capture_local found.0 g.locals } ∷ gs) found.1 found.0
            true
      | none ↦ elim further.upvalue [
        | some u ↦ with_upvalue f (further.inner ∷ further.outer) further.errors u false
        | none ↦ record {
          upvalue = none;
          inner = f;
          outer = further.inner ∷ further.outer;
          errors = further.errors;
        }
      ]
    ]

abbrev pub add_local : FunctionCompiler → List ℕ → FunctionCompiler × List ScopeError
add_local f name = if length f.locals == 256 then (f, too_many_locals ∷ []) else (
  record f { locals = record { name = name; depth = none; is_captured = false } ∷ f.locals },
  [],
)

-- Whether a local of the name stands in the innermost scope.
abbrev pub is_declared : ℕ → List ℕ → List Local → Bool
is_declared scope_depth name [] = false
is_declared scope_depth name (l ∷ ls) =
    let rest = is_declared scope_depth name ls in
    if (elim l.depth [ none ↦ false | some d ↦ ltb d scope_depth ])
    then false
    else if identifiers_equal name l.name
    then true
    else rest

unfoldable pub declare_variable : FunctionCompiler → List ℕ → FunctionCompiler × List ScopeError
declare_variable f name =
    if f.scope_depth == 0
    then (f, [])
    else if is_declared f.scope_depth name f.locals
    then (f, already_declared ∷ [])
    else add_local f name

abbrev pub initialise_top : ℕ → List Local → List Local
initialise_top d [] = []
initialise_top d (l ∷ ls) = record l { depth = some d } ∷ ls

unfoldable pub mark_initialized : FunctionCompiler → FunctionCompiler
mark_initialized f =
    if f.scope_depth == 0 then f else record f { locals = initialise_top f.scope_depth f.locals }

unfoldable pub begin_scope : FunctionCompiler → FunctionCompiler
begin_scope f = record f { scope_depth = f.scope_depth + 1 }

-- The code that is emitted, and the locals that are left.
abbrev pub drop_locals : ℕ → List Local → List ScopeOp × List Local
drop_locals scope_depth [] = ([], [])
drop_locals scope_depth (l ∷ ls) =
    let rest = drop_locals scope_depth ls in
    if (elim l.depth [ none ↦ false | some d ↦ ltb scope_depth d ])
    then ((if l.is_captured then op_close_upvalue else op_pop) ∷ rest.0, rest.1)
    else ([], l ∷ ls)

unfoldable pub end_scope : FunctionCompiler → List ScopeOp × FunctionCompiler
end_scope f =
    let left = drop_locals (f.scope_depth - 1) f.locals in
    (left.0, record f { scope_depth = f.scope_depth - 1; locals = left.1 })

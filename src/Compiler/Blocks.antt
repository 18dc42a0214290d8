-- ===== src/Compiler/Blocks.antt =====
-- A block of statements (cyarg/compiler.c: beginScope, declareVariable, endScope).
use yarg_lang.Prelude.{
  ℕ, ◌-◌, ◌≤◌, ◌<◌, ◌≡◌, refl, ap, ap₂, ◌∙◌, List, [], ◌∷◌, ◌++◌, Bool, true, false, Option, none,
  some, arith, ltb, if◌then◌else◌, map, All,
}
use yarg_lang.Compiler.{
  Local, FunctionCompiler, ScopeOp, op_close_upvalue, op_pop, drop_locals, begin_scope, end_scope,
}

-- A local whose initialiser is compiled, in a scope of the depth or further out.
abbrev pub IsWithin : ℕ → Local → Type 0
IsWithin scope_depth l = (d : ℕ) × (l.depth ≡ some d) × (d ≤ scope_depth)

abbrev pub IsDeeper : ℕ → Local → Type 0
IsDeeper scope_depth l = (d : ℕ) × (l.depth ≡ some d) × (scope_depth < d)

abbrev pub leaving : Local → ScopeOp
leaving l = if l.is_captured then op_close_upvalue else op_pop

abbrev test : ℕ → Option ℕ → Bool
test scope_depth o = elim o [ none ↦ false | some d ↦ ltb scope_depth d ]

drop_locals-within : (n : ℕ) (ls : List Local) → All (IsWithin n) ls → drop_locals n ls ≡ ([], ls)
drop_locals-within n [] h = refl
drop_locals-within n (l ∷ ls) h =
    let stays : test n l.depth ≡ false = ap (test n) h.0.1 ∙ ground (arith, h.0.2) in
    ap (λ b. if b then (leaving l ∷ (drop_locals n ls).0, (drop_locals n ls).1) else ([], l ∷ ls))
      stays

drop_locals-deeper :
    (n : ℕ) (ns ls : List Local)
    → All (IsDeeper n) ns
    → All (IsWithin n) ls
    → drop_locals n (ns ++ ls) ≡ (map leaving ns, ls)
drop_locals-deeper n [] ls d w = drop_locals-within n ls w
drop_locals-deeper n (l ∷ ns) ls d w =
    let goes : test n l.depth ≡ true = ap (test n) d.0.1 ∙ ground (arith, d.0.2) in
    let rest = drop_locals n (ns ++ ls) in
    ap (λ b. if b then (leaving l ∷ rest.0, rest.1) else ([], l ∷ (ns ++ ls))) goes
    ∙ ap (λ (r : List ScopeOp × List Local). (leaving l ∷ r.0, r.1))
        (drop_locals-deeper n ns ls d.1 w)

-- At the end of a block, whose own locals are deeper than the scope around it and stand before those
-- of that scope, `end_scope` emits one instruction for each of its locals, the innermost first,
-- which closes the upvalue of a captured one and pops another, and leaves the locals and the depth
-- of the scope around.
pub end_scope-begin_scope :
    (f g : FunctionCompiler) (ns ls : List Local)
    → g.scope_depth ≡ (begin_scope f).scope_depth
    → g.locals ≡ ns ++ ls
    → All (IsDeeper f.scope_depth) ns
    → All (IsWithin f.scope_depth) ls
    → end_scope g ≡ (map leaving ns, record g { locals = ls; scope_depth = f.scope_depth })
unfolding end_scope begin_scope
end_scope-begin_scope f g ns ls depth locals d w =
    let back : g.scope_depth - 1 ≡ f.scope_depth = omega (arith, depth) in
    let dropped = ap₂ drop_locals back locals ∙ drop_locals-deeper f.scope_depth ns ls d w in
    ap₂ (λ (r : List ScopeOp × List Local) n. (r.0, record g { locals = r.1; scope_depth = n }))
      dropped back

-- ===== src/Compiler/Scope.antt =====
-- The rule of scopes, and the local that `resolveLocal` finds (cyarg/compiler.c).
use yarg_lang.Prelude.{
  ℕ, suc, ◌≡◌, inl, inr, refl, ap, ap₂, subst, List, [], ◌∷◌, ◌++◌, Bool, true, false, ◌&&◌, none,
  some, arith, ◌==◌, ==_iff, length, Bool-cases, ◌<◌, All, length-append,
}
use yarg_lang.Compiler.{
  FunctionCompiler, Local, identifiers_equal, ScopeError, resolve_local, capture_local,
}

-- The locals of each function, the innermost function first.
abbrev pub scopes : List FunctionCompiler → List (List Local)
scopes [] = []
scopes (g ∷ gs) = g.locals ∷ scopes gs

abbrev pub IsAbsent : List ℕ → List Local → Type 0
IsAbsent name = All (λ l. ¬ (name ≡ l.name))

-- The innermost local of the name stands at the index, from the outermost; `ls'` is `ls` with it marked.
pub record InnermostAt (name : List ℕ) (ls : List Local) (i : ℕ) (ls' : List Local) : Type 0 where
  pub inner : List Local
  pub local : Local
  pub outer : List Local
  pub joined : ls ≡ inner ++ (local ∷ outer)
  pub hides : IsAbsent name inner
  pub named : name ≡ local.name
  pub index : i ≡ length outer
  pub marked : ls' ≡ inner ++ (record local { is_captured = true } ∷ outer)

-- The local that a name means in the functions around, by the rule of scopes: the innermost one of
-- the nearest function that has one; and the locals with that one marked.
pub data Owner (name : List ℕ) : List (List Local) → ℕ → ℕ → List (List Local) → Type 0 where
  nearest :
      {ls ls' : List Local} {further : List (List Local)} {i : ℕ}
      → InnermostAt name ls i ls'
      → Owner name (ls ∷ further) 1 i (ls' ∷ further)
  further_out :
      {ls : List Local} {further further' : List (List Local)} {n i : ℕ}
      → IsAbsent name ls
      → Owner name further n i further'
      → Owner name (ls ∷ further) (suc n) i (ls ∷ further')

pub both : (a b : Bool) → (a && b) ≡ true → (a ≡ true) × (b ≡ true)
both a b h = ground arith

identifiers_equal-same : (a b : List ℕ) → identifiers_equal a b ≡ true → a ≡ b
identifiers_equal-same [] [] h = refl
identifiers_equal-same [] (y ∷ ys) h = cc
identifiers_equal-same (x ∷ xs) [] h = cc
identifiers_equal-same (x ∷ xs) (y ∷ ys) h =
    let (l, r) = both (x == y) (identifiers_equal xs ys) h in
    ap₂ (λ c cs. c ∷ cs) ((==_iff x y).0 l) (identifiers_equal-same xs ys r)

identifiers_equal_refl : (a : List ℕ) → identifiers_equal a a ≡ true
identifiers_equal_refl [] = refl
identifiers_equal_refl (x ∷ xs) = rw (identifiers_equal_refl xs) (ground arith)

identifiers_equal-other : (a b : List ℕ) → identifiers_equal a b ≡ false → ¬ (a ≡ b)
identifiers_equal-other a b h e =
    let same : identifiers_equal a b ≡ true =
      subst (λ c. identifiers_equal a c ≡ true) e (identifiers_equal_refl a) in
    absurd (ground arith)

pub resolve_local-IsAbsent :
    (ls : List Local) (name : List ℕ) → resolve_local ls name ≡ none → IsAbsent name ls
unfolding resolve_local
resolve_local-IsAbsent [] name h = tt
resolve_local-IsAbsent (l ∷ ls) name h = elim (Bool-cases (identifiers_equal name l.name)) [
  | inl e ↦ absurd (ground (arith, e))
  | inr e ↦
      (identifiers_equal-other name l.name e, resolve_local-IsAbsent ls name (ground (arith, e)))
]

InnermostAt-lt :
    {name : List ℕ} {ls ls' : List Local} {i : ℕ} → InnermostAt name ls i ls' → i < length ls
InnermostAt-lt h =
    omega (arith, h.index, ap length h.joined, length-append h.inner (h.local ∷ h.outer))

-- The local that `resolve_local` finds is the innermost one, and it is the one that is marked.
pub resolve_local-InnermostAt :
    (ls : List Local) (name : List ℕ) (found : ℕ × List ScopeError)
    → resolve_local ls name ≡ some found
    → InnermostAt name ls found.0 (capture_local found.0 ls)
unfolding resolve_local
resolve_local-InnermostAt [] name found h = cc
resolve_local-InnermostAt (l ∷ ls) name found h =
    elim (Bool-cases (identifiers_equal name l.name)) [
      | inl e ↦
          let same : found.0 ≡ length ls = ground (arith, e) in
          let here : (length ls == found.0) ≡ true = ground (arith, same) in
          record {
            inner = [];
            local = l;
            outer = ls;
            joined = refl;
            hides = tt;
            named = identifiers_equal-same name l.name e;
            index = same;
            marked = rw here refl;
          }
      | inr e ↦
          let rest : resolve_local ls name ≡ some found = ground (arith, e) in
          let found' = resolve_local-InnermostAt ls name found rest in
          let there : (length ls == found.0) ≡ false = ground (arith, InnermostAt-lt found') in
          record {
            inner = l ∷ found'.inner;
            local = found'.local;
            outer = found'.outer;
            joined = ap (λ k. l ∷ k) found'.joined;
            hides = (identifiers_equal-other name l.name e, found'.hides);
            named = found'.named;
            index = found'.index;
            marked = rw there (ap (λ k. l ∷ k) found'.marked);
          }
    ]

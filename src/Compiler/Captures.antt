-- ===== src/Compiler/Captures.antt =====
-- What the upvalues of a function stand for, at run time, in the functions around it (cyarg/compiler.c:
-- addUpvalue, resolveUpvalue; cyarg/vm.c: OP_CLOSURE).
use yarg_lang.Prelude.{
  ℕ, zero, suc, ◌+◌, ◌≡◌, inl, inr, refl, sym, ap, ap₂, subst, ◌∙◌, List, [], ◌∷◌, ◌++◌, Bool, true,
  false, not, ◌&&◌, Option, none, some, arith, ◌==◌, ==_iff, if◌then◌else◌, length, Bool-cases,
  Option-cases, All,
}
use yarg_lang.Compiler.{
  CompilerUpvalue, FunctionCompiler, ScopeError, Resolved, resolve_local, capture_local,
  find_upvalue, add_upvalue, with_upvalue, resolve_upvalue,
}
use yarg_lang.Compiler.Scope.{
  scopes, IsAbsent, Owner, nearest, further_out, resolve_local-IsAbsent, resolve_local-InnermostAt,
  both,
}

-- The upvalue at an index.
abbrev pub upvalue_at : List CompilerUpvalue → ℕ → Option CompilerUpvalue
upvalue_at [] i = none
upvalue_at (u ∷ us) zero = some u
upvalue_at (u ∷ us) (suc i) = upvalue_at us i

-- A local of a function around, as the number of functions to go out, and the index there.
abbrev outward : Option (ℕ × ℕ) → Option (ℕ × ℕ)
outward none = none
outward (some (n, i)) = some (suc n, i)

-- As OP_CLOSURE fills the closure: a cell of the frame around, or an upvalue of the closure around.
abbrev pub stands_for : List CompilerUpvalue → List FunctionCompiler → ℕ → Option (ℕ × ℕ)
stands_for us [] i = none
stands_for us (g ∷ gs) i = elim (upvalue_at us i) [
  | none ↦ none
  | some u ↦ if u.is_local then some (1, u.index) else outward (stands_for g.upvalues gs u.index)
]

abbrev entry : ℕ → Bool → CompilerUpvalue
entry index is_local = record { index = index; is_local = is_local }

upvalue_at-append :
    (us vs : List CompilerUpvalue) (i : ℕ) (u : CompilerUpvalue)
    → upvalue_at us i ≡ some u
    → upvalue_at (us ++ vs) i ≡ some u
upvalue_at-append [] vs i u h = cc
upvalue_at-append (v ∷ us) vs zero u h = h
upvalue_at-append (v ∷ us) vs (suc i) u h = upvalue_at-append us vs i u h

upvalue_at-last :
    (us : List CompilerUpvalue) (u : CompilerUpvalue)
    → upvalue_at (us ++ (u ∷ [])) (length us) ≡ some u
upvalue_at-last [] u = refl
upvalue_at-last (v ∷ us) u = upvalue_at-last us u

same_bool : (b c : Bool) → (if b then c else not c) ≡ true → b ≡ c
same_bool true c h = sym h
same_bool false true h = cc
same_bool false false h = refl

find_upvalue_lem :
    (index : ℕ) (is_local : Bool) (k i : ℕ) (us : List CompilerUpvalue)
    → find_upvalue index is_local k us ≡ some i
    → (j : ℕ) × (i ≡ k + j) × (upvalue_at us j ≡ some (entry index is_local))
find_upvalue_lem index is_local k i [] h = cc
find_upvalue_lem index is_local k i (u ∷ us) h =
    let b = u.index == index && (if u.is_local then is_local else not is_local) in
    elim (Bool-cases b) [
      | inl hit ↦
          let (same, kind) =
            both (u.index == index) (if u.is_local then is_local else not is_local) hit in
          (
            0,
            ground (arith, hit),
            ap some
                (ap₂ entry ((==_iff u.index index).0 same) (same_bool u.is_local is_local kind)),
          )
      | inr miss ↦
          let further : find_upvalue index is_local (k + 1) us ≡ some i = ground (arith, miss) in
          let (j, e, at) = find_upvalue_lem index is_local (k + 1) i us further in
          (suc j, omega (arith, e), at)
    ]

-- What `addUpvalue` leaves, where it reports nothing.
record Adds (us : List CompilerUpvalue) (index : ℕ) (is_local : Bool)
    (added : ℕ × List CompilerUpvalue × List ScopeError) : Type 0 where
  here : upvalue_at added.1 added.0 ≡ some (entry index is_local)
  kept : (i : ℕ) (u : CompilerUpvalue) → upvalue_at us i ≡ some u → upvalue_at added.1 i ≡ some u

add_upvalue-Adds :
    (us : List CompilerUpvalue) (index : ℕ) (is_local : Bool)
    → (add_upvalue us index is_local).2 ≡ []
    → Adds us index is_local (add_upvalue us index is_local)
unfolding add_upvalue
add_upvalue-Adds us index is_local h = elim (Option-cases (find_upvalue index is_local 0 us)) [
  | inr (i, found) ↦
      let (j, e, at) = find_upvalue_lem index is_local 0 i us found in
      let there : j ≡ i = omega (arith, e) in
      rw (found, add_upvalue)
        (record {
          here = subst (λ n. upvalue_at us n ≡ some (entry index is_local)) there at;
          kept = λ i u m. m;
        })
  | inl new ↦ elim (Bool-cases (length us == 256)) [
    | inl full ↦ absurd (ground (arith, new, full))
    | inr room ↦
        rw (new, room, add_upvalue)
          (record {
            here = upvalue_at-last us (entry index is_local);
            kept = λ i u m. upvalue_at-append us (entry index is_local ∷ []) i u m;
          })
  ]
]

no_errors : (es fs : List ScopeError) → es ++ fs ≡ [] → (es ≡ []) × (fs ≡ [])
no_errors [] fs h = (refl, h)
no_errors (e ∷ es) fs h = cc

outward-some :
    (o : Option (ℕ × ℕ)) (p : ℕ × ℕ)
    → outward o ≡ some p
    → (q : ℕ × ℕ) × (o ≡ some q) × (outward (some q) ≡ some p)
outward-some none p h = cc
outward-some (some q) p h = (q, refl, h)

module _ (us : List CompilerUpvalue) (g : FunctionCompiler) (gs : List FunctionCompiler) (i : ℕ)
    (u : CompilerUpvalue) (e : upvalue_at us i ≡ some u) where
  abbrev standing : Option CompilerUpvalue → Option (ℕ × ℕ)
  standing o = elim o [
    | none ↦ none
    | some v ↦ if v.is_local then some (1, v.index) else outward (stands_for g.upvalues gs v.index)
  ]

  stands_local : u.is_local ≡ true → stands_for us (g ∷ gs) i ≡ some (1, u.index)
  stands_local l =
      ap standing e
      ∙ ap (λ b. if b then some (1, u.index) else outward (stands_for g.upvalues gs u.index)) l

  stands_outer :
      u.is_local ≡ false → stands_for us (g ∷ gs) i ≡ outward (stands_for g.upvalues gs u.index)
  stands_outer l =
      ap standing e
      ∙ ap (λ b. if b then some (1, u.index) else outward (stands_for g.upvalues gs u.index)) l

-- What an upvalue stands for stays, where upvalues are only added, here and further out.
stands_for-kept :
    (us us' : List CompilerUpvalue) (g g' : FunctionCompiler) (gs gs' : List FunctionCompiler)
    → ((i : ℕ) (u : CompilerUpvalue) → upvalue_at us i ≡ some u → upvalue_at us' i ≡ some u)
    → ((i : ℕ) (p : ℕ × ℕ)
        → stands_for g.upvalues gs i ≡ some p
        → stands_for g'.upvalues gs' i ≡ some p)
    → (i : ℕ) (p : ℕ × ℕ) → stands_for us (g ∷ gs) i ≡ some p
    → stands_for us' (g' ∷ gs') i ≡ some p
stands_for-kept us us' g g' gs gs' near far i p h = elim (Option-cases (upvalue_at us i)) [
  | inl e ↦ absurd (ground (arith, e))
  | inr (u, e) ↦
      let e' = near i u e in
      elim (Bool-cases u.is_local) [
        | inl local ↦
            stands_local us' g' gs' i u e' local ∙ sym (stands_local us g gs i u e local) ∙ h
        | inr outer ↦
            let through : outward (stands_for g.upvalues gs u.index) ≡ some p =
              sym (stands_outer us g gs i u e outer) ∙ h in
            let (q, at, out) = outward-some (stands_for g.upvalues gs u.index) p through in
            let at' = far u.index q at in
            stands_outer us' g' gs' i u e' outer ∙ ap outward at' ∙ out
      ]
]

-- What a name that is resolved comes to.
pub record Finds (f : FunctionCompiler) (gs : List FunctionCompiler) (name : List ℕ) (r : Resolved)
    : Type 0 where
  pub means :
      (u : ℕ)
      → r.upvalue ≡ some u
      → (p : ℕ × ℕ) × (stands_for r.inner.upvalues r.outer u ≡ some p)
        × Owner name (scopes gs) p.0 p.1 (scopes r.outer)
  pub misses : r.upvalue ≡ none → All (IsAbsent name) (scopes gs) × (scopes r.outer ≡ scopes gs)
  pub own : r.inner.locals ≡ f.locals
  pub kept :
      (i : ℕ) (p : ℕ × ℕ)
      → stands_for f.upvalues gs i ≡ some p
      → stands_for r.inner.upvalues r.outer i ≡ some p

-- Where resolving a name in the functions around reports no error: where an upvalue is found, it
-- stands, through the closures that are made at run time, for the innermost local of the name in the
-- nearest function that has one, that local is marked as captured, and no other local has changed;
-- where none is found, no function around has a local of the name, and no local has changed. The
-- locals of the function itself are as they were, and so is what the upvalues that were there stand
-- for.
pub resolve_upvalue-Finds :
    (f : FunctionCompiler) (gs : List FunctionCompiler) (name : List ℕ)
    → (resolve_upvalue f gs name).errors ≡ []
    → Finds f gs name (resolve_upvalue f gs name)
unfolding resolve_upvalue
resolve_upvalue-Finds f [] name h = record {
  means = λ u e. cc;
  misses = λ _. (tt, refl);
  own = refl;
  kept = λ i p e. e;
}
resolve_upvalue-Finds f (g ∷ gs) name h = elim (Option-cases (resolve_local g.locals name)) [
  | inr (found, e) ↦
      let g' : FunctionCompiler = record g { locals = capture_local found.0 g.locals } in
      let r = with_upvalue f (g' ∷ gs) found.1 found.0 true in
      let eq : resolve_upvalue f (g ∷ gs) name ≡ r = rw (e, resolve_upvalue) refl in
      let quiet =
        no_errors found.1 (add_upvalue f.upvalues found.0 true).2
          (ap (λ (q : Resolved). q.errors) (sym eq) ∙ h) in
      let added = add_upvalue-Adds f.upvalues found.0 true quiet.1 in
      subst (Finds f (g ∷ gs) name) (sym eq) (record {
        means = λ u t.
            let same : (add_upvalue f.upvalues found.0 true).0 ≡ u = cc in
            (
              (1, found.0),
              subst (λ k. stands_for r.inner.upvalues (g' ∷ gs) k ≡ some (1, found.0)) same
                  (stands_local r.inner.upvalues g' gs (add_upvalue f.upvalues found.0 true).0
                    (entry found.0 true) added.here refl),
              nearest (resolve_local-InnermostAt g.locals name found e),
            );
        misses = λ t. cc;
        own = refl;
        kept = stands_for-kept f.upvalues r.inner.upvalues g g' gs gs added.kept (λ i p t. t);
      })
  | inl outside ↦
      let far = resolve_upvalue g gs name in
      elim (Option-cases far.upvalue) [
        | inl missed ↦
            let r : Resolved = record {
              upvalue = none;
              inner = f;
              outer = far.inner ∷ far.outer;
              errors = far.errors;
            } in
            let eq : resolve_upvalue f (g ∷ gs) name ≡ r =
              rw (outside, missed, resolve_upvalue) refl in
            let further =
              resolve_upvalue-Finds g gs name (ap (λ (q : Resolved). q.errors) (sym eq) ∙ h) in
            subst (Finds f (g ∷ gs) name) (sym eq) (record {
              means = λ u t. cc;
              misses = λ _. (
                (resolve_local-IsAbsent g.locals name outside, (further.misses missed).0),
                ap₂ (λ l ls. l ∷ ls) further.own (further.misses missed).1,
              );
              own = refl;
              kept =
                  stands_for-kept f.upvalues f.upvalues g far.inner gs far.outer (λ i u t. t)
                    further.kept;
            })
        | inr (u, through) ↦
            let r = with_upvalue f (far.inner ∷ far.outer) far.errors u false in
            let eq : resolve_upvalue f (g ∷ gs) name ≡ r =
              rw (outside, through, resolve_upvalue) refl in
            let quiet =
              no_errors far.errors (add_upvalue f.upvalues u false).2
                (ap (λ (q : Resolved). q.errors) (sym eq) ∙ h) in
            let added = add_upvalue-Adds f.upvalues u false quiet.1 in
            let further = resolve_upvalue-Finds g gs name quiet.0 in
            subst (Finds f (g ∷ gs) name) (sym eq) (record {
              means = λ v t.
                  let same : (add_upvalue f.upvalues u false).0 ≡ v = cc in
                  let (p, at, meant) = further.means u through in
                  (
                    (suc p.0, p.1),
                    subst
                        (λ k.
                          stands_for r.inner.upvalues (far.inner ∷ far.outer) k
                          ≡ some (suc p.0, p.1))
                        same
                        (stands_outer r.inner.upvalues far.inner far.outer
                            (add_upvalue f.upvalues u false).0 (entry u false) added.here refl
                          ∙ ap outward at),
                    subst
                        (λ l.
                          Owner name (g.locals ∷ scopes gs) (suc p.0) p.1 (l ∷ scopes far.outer))
                        (sym further.own)
                        (further_out (resolve_local-IsAbsent g.locals name outside) meant),
                  );
              misses = λ t. cc;
              own = refl;
              kept =
                  stands_for-kept f.upvalues r.inner.upvalues g far.inner gs far.outer added.kept
                    further.kept;
            })
      ]
]

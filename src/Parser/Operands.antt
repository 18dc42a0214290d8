-- ===== src/Parser/Operands.antt =====
-- cyarg/parser.c: the parts of a node, read off their tokens where the parser of expressions reads off its own.
use yarg_lang.Prelude.{
  ℕ, zero, suc, ◌+◌, ◌≤◌, ◌<◌, ◌≡◌, refl, ap, arith, Bool, true, false, ◌&&◌, List, [], ◌∷◌, ◌++◌,
  append_assoc, append-nil, leb, ltb, length, length-append,
}
use yarg_lang.Scanner.Kinds.{
  TokenType, token_error, token_equal, token_left_paren, token_right_paren, token_comma,
  token_right_square_bracket,
}
use yarg_lang.Scanner.Tokens.{Token}
use yarg_lang.Parser.Kinds.{◌=?◌}
use yarg_lang.Parser.Rules.{precedence_of}
use yarg_lang.Parser.Syntax.{
  ExprOp, expr_op_not, expr_op_negate, expr_op_deref_ptr, ExprLiteral, expr_literal_nil,
  ExprBuiltin, expr_builtin_load, Node, Expr, null, node, Exprs, no_exprs, expr_then,
}
use yarg_lang.Parser.State.{Message, Parse, Report, ◌>>◌}
use yarg_lang.Parser.Expressions.{
  single, exprs_append, exprs_count, assignment, too_many, arguments, expression_list, call,
  method_call,
}
use yarg_lang.Parser.Grammar.{
  sign, op_kind, op_level, literal_kind, builtin_kind, node_tokens, expr_tokens, value_tokens,
  items_tokens, more_tokens, node_level, assigned_bound, bound_after, takes_call, is_call, IsNull,
  FitsPrefix, FitsInfix, FitsExpr, FitsValue, FitsCall, FitsItems,
}
use yarg_lang.Parser.Reading.{
  head_kind, IsClean, Reads, Reads-pure, Reads-bind, Reads-map, Reads-consume, Reads-match,
  Reads-no_match, Reads-check,
}

abbrev exprs_join : Exprs → Exprs → Exprs
exprs_join no_exprs es = es
exprs_join (expr_then d ds) es = expr_then d (exprs_join ds es)

exprs_join-append :
    (ds : Exprs) (e : Expr) (es : Exprs)
    → exprs_join (exprs_append ds e) es ≡ exprs_join ds (expr_then e es)
exprs_join-append no_exprs e es = refl
exprs_join-append (expr_then d ds) e es = ap (expr_then d) (exprs_join-append ds e es)

exprs_join-one : (ds : Exprs) (e : Expr) → exprs_join ds (expr_then e no_exprs) ≡ exprs_append ds e
exprs_join-one no_exprs e = refl
exprs_join-one (expr_then d ds) e = ap (expr_then d) (exprs_join-one ds e)

exprs_count-append :
    (ds : Exprs) (e : Expr) → exprs_count (exprs_append ds e) ≡ suc (exprs_count ds)
exprs_count-append no_exprs e = refl
exprs_count-append (expr_then d ds) e = ap suc (exprs_count-append ds e)

-- What may follow an expression of precedence p.
abbrev pub IsAfter : ℕ → List Token → Type 0
IsAfter p ts =
    IsClean ts
    × (precedence_of (head_kind ts) < p)
    × ((leb p 1 && (head_kind ts =? token_equal)) ≡ false)

-- What may follow a node.
abbrev pub IsAfterNode : Bool → Node → List Token → Type 0
IsAfterNode can n ts =
    IsClean ts
    × (precedence_of (head_kind ts) < bound_after n)
    × ((can && (head_kind ts =? token_equal)) ≡ false)
    × ((takes_call n && (head_kind ts =? token_left_paren)) ≡ false)

-- The kinds that begin no expression and separate two.
abbrev pub Starts : TokenType → Type 0
Starts t =
    ((t =? token_error) ≡ false)
    × ((t =? token_right_paren) ≡ false)
    × ((t =? token_right_square_bracket) ≡ false)

builtin_kind-Starts : (b : ExprBuiltin) → Starts (builtin_kind b)
builtin_kind-Starts expr_builtin_load = (refl, refl, refl)
builtin_kind-Starts _ = (refl, refl, refl)

literal_kind-Starts : (l : ExprLiteral) → Starts (literal_kind l)
literal_kind-Starts expr_literal_nil = (refl, refl, refl)
literal_kind-Starts _ = (refl, refl, refl)

pub FitsPrefix-Starts :
    (can : Bool) (n : Node) (xs : List Token)
    → FitsPrefix can n
    → Starts (head_kind (node_tokens n ++ xs))
unfolding FitsPrefix node_tokens
FitsPrefix-Starts can (Node.operation expr_op_not rhs assigned) xs h = (refl, refl, refl)
FitsPrefix-Starts can (Node.operation expr_op_negate rhs assigned) xs h = (refl, refl, refl)
FitsPrefix-Starts can (Node.operation expr_op_deref_ptr rhs assigned) xs h = (refl, refl, refl)
FitsPrefix-Starts can (Node.operation _ rhs assigned) xs h = absurd h
FitsPrefix-Starts can (Node.grouping e) xs h = (refl, refl, refl)
FitsPrefix-Starts can (Node.variable name assigned) xs h = (refl, refl, refl)
FitsPrefix-Starts can (Node.literal l) xs h = literal_kind-Starts l
FitsPrefix-Starts can (Node.number n) xs h = (refl, refl, refl)
FitsPrefix-Starts can (Node.string text) xs h = (refl, refl, refl)
FitsPrefix-Starts can (Node.builtin b) xs h = builtin_kind-Starts b
FitsPrefix-Starts can (Node.super_ name called) xs h = (refl, refl, refl)
FitsPrefix-Starts can _ xs h = absurd h

pub FitsExpr-Starts :
    (p : ℕ) (e : Expr) (ts : List Token) → FitsExpr p e → Starts (head_kind (expr_tokens e ++ ts))
unfolding FitsExpr expr_tokens
FitsExpr-Starts p null ts h = absurd h
FitsExpr-Starts p (node n next) ts h =
    rw append_assoc (FitsPrefix-Starts (leb p 1) n (expr_tokens next ++ ts) h.0)

abbrev OpFacts : ExprOp → TokenType → Type 0
OpFacts op t =
    (precedence_of t ≡ op_level op)
    × ((t =? token_error) ≡ false)
    × ((t =? token_equal) ≡ false)
    × ((t =? token_left_paren) ≡ false)

op_kind-OpFacts : (op : ExprOp) → 1 ≤ op_level op → OpFacts op (op_kind op)
op_kind-OpFacts expr_op_not h = absurd (omega arith)
op_kind-OpFacts expr_op_negate h = absurd (omega arith)
op_kind-OpFacts expr_op_deref_ptr h = absurd (omega arith)
op_kind-OpFacts _ h = (refl, refl, refl, refl)

-- The token that begins a node between two operands.
abbrev pub InfixFacts : Node → TokenType → Type 0
InfixFacts n t =
    (precedence_of t ≡ node_level n)
    × ((t =? token_error) ≡ false)
    × ((t =? token_equal) ≡ false)
    × ((t =? token_left_paren) ≡ is_call n)

pub FitsInfix-InfixFacts :
    (can : Bool) (n : Node) (xs : List Token)
    → FitsInfix can n
    → InfixFacts n (head_kind (node_tokens n ++ xs))
unfolding FitsInfix node_tokens
FitsInfix-InfixFacts can (Node.operation op rhs assigned) xs h = op_kind-OpFacts op h.0
FitsInfix-InfixFacts can (Node.call items) xs h = (refl, refl, refl, refl)
FitsInfix-InfixFacts can (Node.dot name assigned called) xs h = (refl, refl, refl, refl)
FitsInfix-InfixFacts can (Node.element index assigned) xs h = (refl, refl, refl, refl)
FitsInfix-InfixFacts can _ xs h = absurd h

pub assigned_bound_le :
    (p n : ℕ) (can : Bool) (v : Expr)
    → p ≤ n
    → (can ≡ true → p ≤ 1)
    → FitsValue can v
    → p ≤ assigned_bound n v
unfolding FitsValue
assigned_bound_le p n can null h k f = h
assigned_bound_le p n can (node m next) h k f = k f.0

pub IsNull-bound : (p n : ℕ) (v : Expr) → p ≤ n → IsNull v → p ≤ assigned_bound n v
IsNull-bound p n null h f = h
IsNull-bound p n (node m next) h f = absurd f

pub FitsValue-FitsExpr :
    (can : Bool) (n : Node) (next : Expr) → FitsValue can (node n next) → FitsExpr 1 (node n next)
unfolding FitsValue FitsExpr
FitsValue-FitsExpr can n next h = (h.1, h.2)

module _ (panic : Bool) (errors : List Report) (parse : ℕ → Parse Expr) (bound : ℕ)
    (inner : (p : ℕ) (e : Expr) (previous : Token) (ts : List Token)
      → 1 ≤ p
      → p ≤ 8
      → FitsExpr p e
      → IsAfter p ts
      → length (expr_tokens e) < bound
      → Reads panic errors previous (parse p) (expr_tokens e) e ts) where
  pub FitsExpr-IsClean :
      (p : ℕ) (e : Expr) (ts : List Token) → FitsExpr p e → IsClean (expr_tokens e ++ ts)
  FitsExpr-IsClean p e ts h = (FitsExpr-Starts p e ts h).0

  -- An assignment, or what follows where there is none.
  pub value_tokens-IsClean :
      (can : Bool) (v : Expr) (ts : List Token) → IsClean ts → IsClean (value_tokens v ++ ts)
  unfolding value_tokens
  value_tokens-IsClean can null ts h = h
  value_tokens-IsClean can (node n next) ts h = refl

  pub assignment-Reads :
      (can : Bool) (v : Expr) (previous : Token) (ts : List Token) (n : ℕ)
      → FitsValue can v
      → IsClean ts
      → precedence_of (head_kind ts) < assigned_bound n v
      → (can && (head_kind ts =? token_equal)) ≡ false
      → length (value_tokens v) < bound
      → Reads panic errors previous (assignment parse can) (value_tokens v) v ts
  unfolding assignment value_tokens expr_tokens FitsValue
  assignment-Reads false null previous ts n h clean low free short =
      Reads-pure panic errors previous null ts
  assignment-Reads false (node m next) previous ts n h clean low free short = absurd (ground arith)
  assignment-Reads true null previous ts n h clean low free short =
      Reads-no_match panic errors token_equal _ free (Reads-pure panic errors previous null ts)
  assignment-Reads true (node m next) previous ts n h clean low free short =
      let fits = FitsValue-FitsExpr true m next h in
      Reads-match panic errors token_equal _ refl (FitsExpr-IsClean 1 (node m next) ts fits) (
        inner 1 (node m next) _ ts (omega arith) (omega arith) fits (clean, low, free)
          (omega arith))

  Reads-too_many {ℓ} :
      {B : Type ℓ} {c : Token} {q : Parse B} {xs ts : List Token} {b : B} (n : ℕ) (m : Message)
      → n ≤ 255
      → Reads panic errors c q xs b ts
      → Reads panic errors c (too_many parse n m >> q) xs b ts
  Reads-too_many n m h next =
      let few : ltb 255 n ≡ false = ground arith in
      record { last = next.last; reads = rw few next.reads }

  -- The arguments that are left, up to the closing parenthesis.
  arguments-Reads :
      (k : ℕ) (done : Exprs) (e : Expr) (es : Exprs) (previous : Token) (ts : List Token)
      → FitsExpr 1 e
      → FitsItems es
      → exprs_count done + suc (exprs_count es) ≤ 255
      → length (expr_tokens e ++ more_tokens es) < bound
      → length (expr_tokens e ++ more_tokens es) < k
      → Reads panic errors previous
          (arguments parse k done)
          (expr_tokens e ++ more_tokens es)
          (exprs_join done (expr_then e es))
          (sign token_right_paren ∷ ts)
  unfolding arguments more_tokens FitsItems
  arguments-Reads zero done e es previous ts h hs count short enough = absurd (omega arith)
  arguments-Reads (suc k) done e no_exprs previous ts h hs count short enough = rw exprs_join-one (
      Reads-bind panic errors _
        (inner 1 e previous _ (omega arith) (omega arith) h (refl, omega arith, refl)
          (omega (arith, length-append (expr_tokens e) [])))
        λ c.
          Reads-too_many _ _ (omega arith)
            (Reads-no_match panic errors token_comma _ refl (Reads-pure panic errors c _ _)))
  arguments-Reads (suc k) done e (expr_then d es) previous ts h hs count short enough =
      let rest = expr_tokens d ++ more_tokens es in
      let size = length-append (expr_tokens e) (sign token_comma ∷ rest) in
      rw⁻¹ exprs_join-append (
        Reads-bind panic errors _
          (inner 1 e previous _ (omega arith) (omega arith) h (refl, omega arith, refl)
            (omega (arith, size)))
          λ c. Reads-too_many _ _ (omega arith) (
            Reads-match panic errors token_comma _ refl
              (rw append_assoc
                (FitsExpr-IsClean 1 d (more_tokens es ++ (sign token_right_paren ∷ ts)) hs.0))
              (arguments-Reads k (exprs_append done e) d es _ ts hs.0 hs.1
                (omega (arith, exprs_count-append done e)) (omega (arith, size))
                (omega (arith, size)))))

  -- The arguments of a call, after its opening parenthesis.
  expression_list-Reads :
      (k : ℕ) (items : Exprs) (previous : Token) (ts : List Token)
      → FitsItems items
      → exprs_count items ≤ 255
      → IsClean ts
      → length (items_tokens items) < bound
      → length (items_tokens items) < k
      → Reads panic errors previous
          (expression_list parse k)
          (items_tokens items ++ (sign token_right_paren ∷ []))
          items
          ts
  unfolding expression_list items_tokens FitsItems
  expression_list-Reads k no_exprs previous ts h count clean short enough =
      Reads-check panic errors token_right_paren _
        (Reads-consume panic errors token_right_paren _ refl clean (Reads-pure panic errors _ _ ts))
  expression_list-Reads k (expr_then e es) previous ts h count clean short enough =
      let close = sign token_right_paren ∷ ts in
      let opened : (head_kind
              (((expr_tokens e ++ more_tokens es) ++ (sign token_right_paren ∷ [])) ++ ts)
            =? token_right_paren)
          ≡ false =
        rw (append_assoc, append_assoc) (FitsExpr-Starts 1 e (more_tokens es ++ close) h.0).1 in
      Reads-check panic errors token_right_paren _ (
        rw opened (
          Reads-bind panic errors _
            (arguments-Reads k no_exprs e es previous ts h.0 h.1 (omega arith) short enough)
            λ c.
              Reads-consume panic errors token_right_paren _ refl clean
                (Reads-pure panic errors _ _ ts)))

  pub items-IsClean :
      (items : Exprs) (ts : List Token)
      → FitsItems items
      → IsClean ((items_tokens items ++ (sign token_right_paren ∷ [])) ++ ts)
  unfolding items_tokens FitsItems
  items-IsClean no_exprs ts h = refl
  items-IsClean (expr_then e es) ts h =
      rw (append_assoc, append_assoc)
        (FitsExpr-IsClean 1 e (more_tokens es ++ (sign token_right_paren ∷ ts)) h.0)

  pub call-Reads :
      (k : ℕ) (items : Exprs) (previous : Token) (ts : List Token)
      → FitsItems items
      → exprs_count items ≤ 255
      → IsClean ts
      → length (items_tokens items) < bound
      → length (items_tokens items) < k
      → Reads panic errors previous
          (call parse k)
          (items_tokens items ++ (sign token_right_paren ∷ []))
          (single (Node.call items))
          ts
  unfolding call
  call-Reads k items previous ts h count clean short enough =
      Reads-map panic errors (λ items. single (Node.call items))
        (expression_list-Reads k items previous ts h count clean short enough)

  -- The call of a method, or what follows where there is none.
  pub method_call-Reads :
      (k : ℕ) (called : Expr) (previous : Token) (ts : List Token)
      → FitsCall called
      → IsClean ts
      → (called ≡ null → (head_kind ts =? token_left_paren) ≡ false)
      → length (expr_tokens called) < bound
      → length (expr_tokens called) < k
      → Reads panic errors previous (method_call parse k) (expr_tokens called) called ts
  unfolding method_call expr_tokens node_tokens FitsCall
  method_call-Reads k null previous ts h clean free short enough =
      Reads-no_match panic errors token_left_paren _ (free refl) (Reads-pure panic errors _ _ ts)
  method_call-Reads k (node (Node.call items) null) previous ts h clean free short enough =
      let size = length-append (items_tokens items) (sign token_right_paren ∷ []) in
      let whole = length-append (items_tokens items ++ (sign token_right_paren ∷ [])) [] in
      rw append-nil (
        Reads-match panic errors token_left_paren _ refl (items-IsClean items ts h.0) (
          call-Reads k items _ ts h.0 h.1 clean (omega (arith, size, whole))
            (omega (arith, size, whole))))
  method_call-Reads k (node (Node.call items) (node m next)) previous ts h clean free short enough =
      absurd h
  method_call-Reads k (node _ next) previous ts h clean free short enough = absurd h

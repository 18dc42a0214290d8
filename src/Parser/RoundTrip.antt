-- ===== src/Parser/RoundTrip.antt =====
-- cyarg/parser.c: the parser reads the tokens of a syntax tree back as that tree.
use yarg_lang.Prelude.{
  ℕ, zero, suc, ◌≤◌, ◌<◌, ◌≡◌, refl, ap, arith, Bool, true, false, ◌&&◌, List, [], ◌++◌,
  append_assoc, leb, leb→le, length, length-append,
}
use yarg_lang.Scanner.Kinds.{TokenType, token_equal, token_left_paren}
use yarg_lang.Scanner.Tokens.{Token}
use yarg_lang.Parser.Kinds.{◌=?◌}
use yarg_lang.Parser.Rules.{precedence_of}
use yarg_lang.Parser.Numbers.{number_of, value}
use yarg_lang.Parser.Numbers.Decimal.{number_of-decimal}
use yarg_lang.Parser.Syntax.{
  ExprOp, expr_op_not, expr_op_negate, expr_op_deref_ptr, decimal, Node, Expr, null, node,
}
use yarg_lang.Parser.State.{Parse, Report, ◌>>◌, pure, returned}
use yarg_lang.Parser.Expressions.{single, set_next}
use yarg_lang.Parser.Precedence.{
  operation_then, operations, reject_assignment, parse_from, parse_precedence,
}
use yarg_lang.Parser.Grammar.{
  op_level, operand_level, IsDecimal, node_tokens, expr_tokens, node_level, bound_after, FitsPrefix,
  FitsInfix, FitsExpr, FitsNext,
}
use yarg_lang.Parser.Reading.{
  head_kind, before, Reads, current-before, Reads-pure, Reads-bind, Reads-map, Reads-advance,
  Reads-no_match, Reads-previous, Reads-current, Reads-end,
}
use yarg_lang.Parser.Operands.{
  IsAfter, IsAfterNode, FitsInfix-InfixFacts, assigned_bound_le, IsNull-bound,
}
use yarg_lang.Parser.Runs.{FitsPrefix-PrefixRun, FitsInfix-InfixRun}

op_level_le : (op : ExprOp) → op_level op ≤ operand_level op
op_level_le expr_op_not = omega arith
op_level_le _ = omega arith

bound_after-FitsPrefix : (p : ℕ) (n : Node) → p ≤ 8 → FitsPrefix (leb p 1) n → p ≤ bound_after n
unfolding FitsPrefix
bound_after-FitsPrefix p (Node.operation expr_op_not rhs v) h f = IsNull-bound p 8 v h f.1
bound_after-FitsPrefix p (Node.operation expr_op_negate rhs v) h f = IsNull-bound p 8 v h f.1
bound_after-FitsPrefix p (Node.operation expr_op_deref_ptr rhs v) h f =
    assigned_bound_le p 8 (leb p 1) v h (leb→le p 1) f.1
bound_after-FitsPrefix p (Node.operation _ rhs v) h f = absurd f
bound_after-FitsPrefix p (Node.variable name v) h f =
    assigned_bound_le p 11 (leb p 1) v (omega arith) (leb→le p 1) f
bound_after-FitsPrefix p (Node.dot name v called) h f = absurd f
bound_after-FitsPrefix p (Node.element index v) h f = absurd f
bound_after-FitsPrefix p _ h f = omega arith

bound_after-FitsInfix :
    (p : ℕ) (n : Node) → p ≤ 8 → p ≤ node_level n → FitsInfix (leb p 1) n → p ≤ bound_after n
unfolding FitsInfix
bound_after-FitsInfix p (Node.operation op rhs v) h level f =
    IsNull-bound p (operand_level op) v (omega (arith, op_level_le op)) f.2
bound_after-FitsInfix p (Node.variable name v) h level f = absurd f
bound_after-FitsInfix p (Node.dot name v called) h level f =
    assigned_bound_le p 11 (leb p 1) v (omega arith) (leb→le p 1) f.0
bound_after-FitsInfix p (Node.element index v) h level f =
    assigned_bound_le p 11 (leb p 1) v (omega arith) (leb→le p 1) f.1
bound_after-FitsInfix p _ h level f = omega arith

precedence_of-left_paren : (t : TokenType) → precedence_of t < 9 → (t =? token_left_paren) ≡ false
precedence_of-left_paren token_left_paren h = absurd (omega arith)
precedence_of-left_paren _ h = refl

and_false : (b : Bool) → (b && false) ≡ false
and_false true = refl
and_false false = refl

le→leb : (m n : ℕ) → m ≤ n → leb m n ≡ true
le→leb m n h = ground arith

gt→leb : (m n : ℕ) → n < m → leb m n ≡ false
gt→leb m n h = ground arith

FitsInfix-length : (can : Bool) (n : Node) → FitsInfix can n → 0 < length (node_tokens n)
unfolding FitsInfix node_tokens
FitsInfix-length can (Node.operation op rhs v) f = omega arith
FitsInfix-length can (Node.call items) f = omega arith
FitsInfix-length can (Node.dot name v called) f = omega arith
FitsInfix-length can (Node.element index v) f = omega arith
FitsInfix-length can _ f = absurd f

-- What follows a node in its expression may follow it.
FitsNext-IsAfterNode :
    (p : ℕ) (m : Node) (next : Expr) (ts : List Token)
    → p ≤ 8
    → p ≤ bound_after m
    → FitsNext p m next
    → IsAfter p ts
    → IsAfterNode (leb p 1) m (expr_tokens next ++ ts)
unfolding FitsNext expr_tokens
FitsNext-IsAfterNode p m null ts h bound f after = (
  after.0,
  omega (arith, after.1),
  after.2,
  ground (arith, precedence_of-left_paren (head_kind ts)),
)
FitsNext-IsAfterNode p m (node n next) ts h bound f after =
    let facts = FitsInfix-InfixFacts (leb p 1) n (expr_tokens next ++ ts) f.3 in
    rw append_assoc (facts.1, rw facts.0 f.1, rw facts.2 (and_false (leb p 1)), rw facts.3 f.2)

module _ (panic : Bool) (errors : List Report) where
  module _ (parse : ℕ → Parse Expr) (bound : ℕ) (strtod_length : List ℕ → ℕ)
      (decimals : (ds : List ℕ) → IsDecimal ds → number_of strtod_length ds ≡ value (decimal ds))
      (inner : (p : ℕ) (e : Expr) (previous : Token) (ts : List Token)
        → 1 ≤ p
        → p ≤ 8
        → FitsExpr p e
        → IsAfter p ts
        → length (expr_tokens e) < bound
        → Reads panic errors previous (parse p) (expr_tokens e) e ts) where
    operations-Reads :
        (k p : ℕ) (m : Node) (next : Expr) (previous : Token) (ts : List Token)
        → 1 ≤ p
        → p ≤ 8
        → FitsNext p m next
        → IsAfter p ts
        → length (expr_tokens next) ≤ bound
        → length (expr_tokens next) < k
        → Reads panic errors previous
            (operations parse k p (leb p 1) (single m))
            (expr_tokens next)
            (node m next)
            ts
    unfolding operations operation_then FitsNext expr_tokens
    operations-Reads zero p m next previous ts low high f after short enough = absurd (omega arith)
    operations-Reads (suc k) p m null previous ts low high f after short enough =
        let stop : leb p (precedence_of (head_kind ts)) ≡ false =
          gt→leb p (precedence_of (head_kind ts)) after.1 in
        Reads-current panic errors _ (
          rw (current-before panic errors previous ts, stop)
            (Reads-pure panic errors previous (single m) ts))
    operations-Reads (suc k) p m (node n next) previous ts low high f after short enough =
        let facts = FitsInfix-InfixFacts (leb p 1) n (expr_tokens next ++ ts) f.3 in
        let size = length-append (node_tokens n) (expr_tokens next) in
        let after' =
          FitsNext-IsAfterNode p n next ts high (bound_after-FitsInfix p n high f.0 f.3) f.4
            after in
        let run =
          FitsInfix-InfixRun panic errors parse bound strtod_length decimals inner (leb p 1) n k
            (expr_tokens next ++ ts) f.3 after' (omega (arith, size)) (omega (arith, size)) in
        let goes : leb p (precedence_of (head_kind ((node_tokens n ++ expr_tokens next) ++ ts)))
            ≡ true =
          rw (append_assoc, facts.0) (le→leb p (node_level n) f.0) in
        Reads-current panic errors _ (
          rw (current-before panic errors previous, goes)
            (rw run.is_tokens (
              Reads-advance panic errors (rw append_assoc run.clean) (
                Reads-previous panic errors _ (
                  rw run.is_rule (
                    Reads-bind panic errors _ run.run λ c.
                      Reads-map panic errors (set_next (single m)) (
                        operations-Reads k p n next c ts low high f.4 after (omega (arith, size))
                          (omega (arith, size, FitsInfix-length (leb p 1) n f.3)))))))))

  reject_assignment-Reads :
      (can : Bool) (parse : ℕ → Parse Expr) (e : Expr) (previous : Token) (ts : List Token)
      → (can && (head_kind ts =? token_equal)) ≡ false
      → Reads panic errors previous (reject_assignment parse can >> pure e) [] e ts
  unfolding reject_assignment
  reject_assignment-Reads false parse e previous ts free = Reads-pure panic errors previous e ts
  reject_assignment-Reads true parse e previous ts free =
      Reads-end panic errors _
        (Reads-no_match panic errors token_equal _ free (Reads-pure panic errors previous tt ts))
        λ c. Reads-pure panic errors c e ts

  pub parse_precedence-Reads :
      (strtod_length : List ℕ → ℕ) (fuel p : ℕ) (e : Expr) (previous : Token) (ts : List Token)
      → ((ds : List ℕ) → IsDecimal ds → number_of strtod_length ds ≡ value (decimal ds))
      → 1 ≤ p
      → p ≤ 8
      → FitsExpr p e
      → IsAfter p ts
      → length (expr_tokens e) < fuel
      → Reads panic errors previous (parse_precedence strtod_length fuel p) (expr_tokens e) e ts
  unfolding parse_precedence parse_from FitsExpr expr_tokens
  parse_precedence-Reads strtod_length zero p e previous ts decimals low high f after short =
      absurd (omega arith)
  parse_precedence-Reads strtod_length (suc fuel) p null previous ts decimals low high f after
        short =
      absurd f
  parse_precedence-Reads strtod_length (suc fuel) p (node n next) previous ts decimals low high f
        after short =
      let size = length-append (node_tokens n) (expr_tokens next) in
      let after' =
        FitsNext-IsAfterNode p n next ts high (bound_after-FitsPrefix p n high f.0) f.1 after in
      let run =
        FitsPrefix-PrefixRun panic errors (parse_precedence strtod_length fuel) fuel strtod_length
          decimals (λ q d c us. parse_precedence-Reads strtod_length fuel q d c us decimals)
          (leb p 1) n (expr_tokens next ++ ts) f.0 after' (omega (arith, size)) in
      rw run.is_tokens (
        Reads-advance panic errors (rw append_assoc run.clean) (
          Reads-previous panic errors _ (
            rw run.is_rule (
              Reads-bind panic errors _ run.run λ c.
                Reads-end panic errors _
                  (operations-Reads (parse_precedence strtod_length fuel) fuel strtod_length
                    decimals
                    (λ q d c us. parse_precedence-Reads strtod_length fuel q d c us decimals) fuel p
                    n next c ts low high f.1 after (omega (arith, size))
                    (omega (arith, size, ap length run.is_tokens)))
                  λ c.
                    reject_assignment-Reads (leb p 1) (parse_precedence strtod_length fuel)
                      (node n next) c ts after.2))))

  -- For a precedence from 1 to 8 and a syntax tree that fits it, where at least as much fuel as one
  -- more than its tokens is given, and where what follows is no report of the scanner, binds less
  -- tightly than the precedence and, at precedence 1, is no `=`: from a parser before the tokens of
  -- the tree, `parse_precedence` gives back the tree, with the parser before what follows, and
  -- reports nothing. Types, addresses, the bracketed collections, and numbers other than decimal
  -- integers do not fit.
  pub parse_precedence-expr_tokens :
      (strtod_length : List ℕ → ℕ) (fuel p : ℕ) (e : Expr) (previous : Token) (ts : List Token)
      → 1 ≤ p
      → p ≤ 8
      → FitsExpr p e
      → IsAfter p ts
      → length (expr_tokens e) < fuel
      → (last : Token) × (parse_precedence strtod_length fuel p
            (before panic errors previous (expr_tokens e ++ ts))
          ≡ returned (e, before panic errors last ts))
  parse_precedence-expr_tokens strtod_length fuel p e previous ts low high fits after enough =
      let run =
        parse_precedence-Reads strtod_length fuel p e previous ts (number_of-decimal strtod_length)
          low high fits after enough in
      (run.last, run.reads)

-- ===== src/Parser/Runs.antt =====
-- cyarg/parser.c: each node of an expression, read off its tokens by the function that the table names.
use mathlib.Core.Bool.{true≢false}
use yarg_lang.Prelude.{
  ℕ, suc, ◌≤◌, ◌<◌, ◌≡◌, refl, subst, arith, Bool, true, false, ◌&&◌, List, [], ◌∷◌, ◌++◌,
  append_assoc, append-nil, leb, length, length-append, take-append-length, some, inl, inr,
}
use yarg_lang.Scanner.Kinds.{
  TokenType, token_equal, token_left_paren, token_right_paren, token_right_square_bracket,
  token_dot, token_identifier, token_left_square_bracket, token_number, token_string, token_super,
  token_star, token_and, token_or,
}
use yarg_lang.Scanner.Tokens.{Token}
use yarg_lang.Parser.Kinds.{◌=?◌, is_type_token}
use yarg_lang.Parser.Rules.{Prefix, Infix, prefix_rule, infix_rule, precedence_of}
use yarg_lang.Parser.Nodes.{builtin_of, literal_of}
use yarg_lang.Parser.Syntax.{
  ExprOp, expr_op_not, expr_op_negate, expr_op_logical_and, expr_op_logical_or, expr_op_deref_ptr,
  ExprLiteral, expr_literal_nil, ExprBuiltin, expr_builtin_int8, expr_builtin_uint8,
  expr_builtin_int16, expr_builtin_uint16, expr_builtin_int32, expr_builtin_uint32,
  expr_builtin_int64, expr_builtin_uint64, expr_builtin_int, expr_builtin_mfloat64,
  expr_builtin_string, decimal, Node, Expr, null, node,
}
use yarg_lang.Parser.State.{Parse, Report}
use yarg_lang.Parser.Expressions.{
  single, string_text, prefix_op, number, string, literal, builtin, named_variable, variable,
  super_, dot, deref, unary, unary_place, grouping, and_, or_, binary,
}
use yarg_lang.Parser.Precedence.{run_prefix, run_infix}
use yarg_lang.Parser.Grammar.{
  token, sign, op_kind, operand_level, literal_kind, builtin_kind, IsDecimal, node_tokens,
  expr_tokens, value_tokens, items_tokens, assigned_bound, takes_call, FitsPrefix, FitsInfix,
  FitsExpr, FitsValue, FitsCall,
}
use yarg_lang.Parser.Reading.{
  head_kind, IsClean, Reads, Reads-pure, Reads-bind, Reads-map, Reads-consume, Reads-match,
  Reads-no_match, Reads-previous,
}
use yarg_lang.Parser.Operands.{
  IsAfter, IsAfterNode, FitsExpr-Starts, FitsValue-FitsExpr, value_tokens-IsClean, assignment-Reads,
  items-IsClean, call-Reads, method_call-Reads,
}
use yarg_lang.Parser.Numbers.{number_of, value}

abbrev BuiltinFacts : ExprBuiltin → TokenType → Type 0
BuiltinFacts b t = (prefix_rule t ≡ some Prefix.builtin) × (builtin_of t ≡ some b)

builtin_kind-BuiltinFacts :
    (b : ExprBuiltin) → is_type_token (builtin_kind b) ≡ false → BuiltinFacts b (builtin_kind b)
builtin_kind-BuiltinFacts expr_builtin_int8 h = absurd (true≢false h)
builtin_kind-BuiltinFacts expr_builtin_uint8 h = absurd (true≢false h)
builtin_kind-BuiltinFacts expr_builtin_int16 h = absurd (true≢false h)
builtin_kind-BuiltinFacts expr_builtin_uint16 h = absurd (true≢false h)
builtin_kind-BuiltinFacts expr_builtin_int32 h = absurd (true≢false h)
builtin_kind-BuiltinFacts expr_builtin_uint32 h = absurd (true≢false h)
builtin_kind-BuiltinFacts expr_builtin_int64 h = absurd (true≢false h)
builtin_kind-BuiltinFacts expr_builtin_uint64 h = absurd (true≢false h)
builtin_kind-BuiltinFacts expr_builtin_int h = absurd (true≢false h)
builtin_kind-BuiltinFacts expr_builtin_mfloat64 h = absurd (true≢false h)
builtin_kind-BuiltinFacts expr_builtin_string h = absurd (true≢false h)
builtin_kind-BuiltinFacts _ h = (refl, refl)

literal_kind-facts :
    (l : ExprLiteral)
    → (prefix_rule (literal_kind l) ≡ some Prefix.literal) × (literal_of (literal_kind l) ≡ some l)
literal_kind-facts expr_literal_nil = (refl, refl)
literal_kind-facts _ = (refl, refl)

string_text-quoted : (text : List ℕ) → string_text (b'"' ∷ (text ++ (b'"' ∷ []))) ≡ text
string_text-quoted text =
    take-append-length text (b'"' ∷ []) _ (omega (arith, length-append text (b'"' ∷ [])))

module _ (panic : Bool) (errors : List Report) (parse : ℕ → Parse Expr) (bound : ℕ)
    (strtod_length : List ℕ → ℕ)
    (decimals : (ds : List ℕ) → IsDecimal ds → number_of strtod_length ds ≡ value (decimal ds))
    (inner : (p : ℕ) (e : Expr) (previous : Token) (ts : List Token)
      → 1 ≤ p
      → p ≤ 8
      → FitsExpr p e
      → IsAfter p ts
      → length (expr_tokens e) < bound
      → Reads panic errors previous (parse p) (expr_tokens e) e ts) where
  -- A node at the start of an expression: its first token has a rule, which reads the rest.
  pub record PrefixRun (can : Bool) (n : Node) (ts : List Token) : Type 0 where
    pub first : Token
    pub rest : List Token
    pub rule : Prefix
    pub is_tokens : node_tokens n ≡ first ∷ rest
    pub is_rule : prefix_rule first.kind ≡ some rule
    pub clean : IsClean (rest ++ ts)
    pub run :
        Reads panic errors first (run_prefix parse strtod_length bound rule can) rest (single n) ts

  operand-IsClean :
      (e : Expr) (xs ts : List Token) → FitsExpr 8 e → IsClean ((expr_tokens e ++ xs) ++ ts)
  operand-IsClean e xs ts h = rw append_assoc (FitsExpr-Starts 8 e (xs ++ ts) h).0

  unary-Reads :
      (op : ExprOp) (rhs : Expr) (ts : List Token)
      → prefix_op (op_kind op) ≡ op
      → FitsExpr 8 rhs
      → IsClean ts
      → precedence_of (head_kind ts) < 8
      → length (expr_tokens rhs) < bound
      → Reads panic errors
          (sign (op_kind op))
          (unary parse)
          (expr_tokens rhs ++ [])
          (single (Node.operation op rhs null))
          ts
  unfolding unary
  unary-Reads op rhs ts e h clean low short = Reads-previous panic errors _ (
      Reads-bind panic errors _
        (inner 8 rhs _ ts (omega arith) (omega arith) h (clean, low, refl) short)
        λ c. rw e (Reads-pure panic errors c _ ts))

  operand-IsAfter :
      (v : Expr) (ts : List Token)
      → IsClean ts
      → precedence_of (head_kind ts) < assigned_bound 8 v
      → IsAfter 8 (value_tokens v ++ ts)
  unfolding value_tokens
  operand-IsAfter null ts clean low = (clean, low, refl)
  operand-IsAfter (node n next) ts clean low = (refl, omega arith, refl)

  called-IsClean :
      (called : Expr) (ts : List Token)
      → FitsCall called
      → IsClean ts
      → IsClean (expr_tokens called ++ ts)
  unfolding expr_tokens node_tokens FitsCall
  called-IsClean null ts h clean = clean
  called-IsClean (node (Node.call items) null) ts h clean = refl
  called-IsClean (node (Node.call items) (node m next)) ts h clean = absurd h
  called-IsClean (node _ next) ts h clean = absurd h

  -- The right operand of an operator.
  operand-Reads :
      (p : ℕ) (rhs : Expr) (previous : Token) (ts : List Token)
      → 1 ≤ p
      → p ≤ 8
      → leb p 1 ≡ false
      → FitsExpr p rhs
      → IsClean ts
      → precedence_of (head_kind ts) < p
      → suc (length (expr_tokens rhs ++ [])) ≤ bound
      → Reads panic errors previous (parse p) (expr_tokens rhs) rhs ts
  operand-Reads p rhs previous ts low high e h clean below short =
      inner p rhs previous ts low high h (clean, below, rw e refl)
        (omega (arith, length-append (expr_tokens rhs) []))

  pub FitsPrefix-PrefixRun :
      (can : Bool) (n : Node) (ts : List Token)
      → FitsPrefix can n
      → IsAfterNode can n ts
      → length (node_tokens n) ≤ bound
      → PrefixRun can n ts
  unfolding FitsPrefix node_tokens unary_place grouping variable named_variable literal number
      string builtin super_
  FitsPrefix-PrefixRun can (Node.operation expr_op_not rhs (node m next)) ts h after short =
      absurd h.1
  FitsPrefix-PrefixRun can (Node.operation expr_op_not rhs null) ts h after short = record {
    first = sign (op_kind expr_op_not);
    rest = expr_tokens rhs ++ [];
    rule = Prefix.unary;
    is_tokens = refl;
    is_rule = refl;
    clean = operand-IsClean rhs [] ts h.0;
    run =
        unary-Reads expr_op_not rhs ts refl h.0 after.0 after.1
          (omega (arith, length-append (expr_tokens rhs) []));
  }
  FitsPrefix-PrefixRun can (Node.operation expr_op_negate rhs (node m next)) ts h after short =
      absurd h.1
  FitsPrefix-PrefixRun can (Node.operation expr_op_negate rhs null) ts h after short = record {
    first = sign (op_kind expr_op_negate);
    rest = expr_tokens rhs ++ [];
    rule = Prefix.unary;
    is_tokens = refl;
    is_rule = refl;
    clean = operand-IsClean rhs [] ts h.0;
    run =
        unary-Reads expr_op_negate rhs ts refl h.0 after.0 after.1
          (omega (arith, length-append (expr_tokens rhs) []));
  }
  FitsPrefix-PrefixRun can (Node.operation expr_op_deref_ptr rhs assigned) ts h after short =
      let size = length-append (expr_tokens rhs) (value_tokens assigned) in
      record {
        first = sign token_star;
        rest = expr_tokens rhs ++ value_tokens assigned;
        rule = Prefix.unary_place;
        is_tokens = refl;
        is_rule = refl;
        clean = operand-IsClean rhs (value_tokens assigned) ts h.0;
        run =
            Reads-bind panic errors _
              (inner 8 rhs _ _ (omega arith) (omega arith) h.0
                (operand-IsAfter assigned ts after.0 after.1) (omega (arith, size)))
              λ c.
                Reads-map panic errors (λ v. single (Node.operation expr_op_deref_ptr rhs v))
                  (assignment-Reads panic errors parse bound inner can assigned c ts 8 h.1 after.0
                    after.1 after.2 (omega (arith, size)));
      }
  FitsPrefix-PrefixRun can (Node.grouping e) ts h after short =
      let size = length-append (expr_tokens e) (sign token_right_paren ∷ []) in
      record {
        first = sign token_left_paren;
        rest = expr_tokens e ++ (sign token_right_paren ∷ []);
        rule = Prefix.grouping;
        is_tokens = refl;
        is_rule = refl;
        clean = rw append_assoc (FitsExpr-Starts 1 e (sign token_right_paren ∷ ts) h).0;
        run =
            Reads-bind panic errors _
              (inner 1 e _ _ (omega arith) (omega arith) h (refl, omega arith, refl)
                (omega (arith, size)))
              λ c.
                Reads-consume panic errors token_right_paren _ refl after.0
                  (Reads-pure panic errors _ _ ts);
      }
  FitsPrefix-PrefixRun can (Node.variable name assigned) ts h after short = record {
    first = token token_identifier name;
    rest = value_tokens assigned;
    rule = Prefix.variable;
    is_tokens = refl;
    is_rule = refl;
    clean = value_tokens-IsClean panic errors parse bound inner can assigned ts after.0;
    run = Reads-previous panic errors _ (
        Reads-map panic errors (λ v. single (Node.variable name v))
          (assignment-Reads panic errors parse bound inner can assigned _ ts 11 h after.0 after.1
            after.2 short));
  }
  FitsPrefix-PrefixRun can (Node.literal l) ts h after short = record {
    first = sign (literal_kind l);
    rest = [];
    rule = Prefix.literal;
    is_tokens = refl;
    is_rule = (literal_kind-facts l).0;
    clean = after.0;
    run =
        Reads-previous panic errors _
          (rw (literal_kind-facts l).1 (Reads-pure panic errors _ _ ts));
  }
  FitsPrefix-PrefixRun can (Node.number (decimal ds)) ts h after short = record {
    first = token token_number ds;
    rest = [];
    rule = Prefix.number;
    is_tokens = refl;
    is_rule = refl;
    clean = after.0;
    run = Reads-previous panic errors _ (rw (decimals ds h) (Reads-pure panic errors _ _ ts));
  }
  FitsPrefix-PrefixRun can (Node.string text) ts h after short = record {
    first = token token_string (b'"' ∷ (text ++ (b'"' ∷ [])));
    rest = [];
    rule = Prefix.string;
    is_tokens = refl;
    is_rule = refl;
    clean = after.0;
    run =
        Reads-previous panic errors _
          (rw (string_text-quoted text) (Reads-pure panic errors _ _ ts));
  }
  FitsPrefix-PrefixRun can (Node.builtin b) ts h after short = record {
    first = sign (builtin_kind b);
    rest = [];
    rule = Prefix.builtin;
    is_tokens = refl;
    is_rule = (builtin_kind-BuiltinFacts b h).0;
    clean = after.0;
    run =
        Reads-previous panic errors _
          (rw (builtin_kind-BuiltinFacts b h).1 (Reads-pure panic errors _ _ ts));
  }
  FitsPrefix-PrefixRun can (Node.super_ name called) ts h after short = record {
    first = sign token_super;
    rest = sign token_dot ∷ token token_identifier name ∷ expr_tokens called;
    rule = Prefix.super_;
    is_tokens = refl;
    is_rule = refl;
    clean = refl;
    run = Reads-consume panic errors token_dot _ refl refl (
        Reads-consume panic errors token_identifier _ refl (called-IsClean called ts h after.0) (
          Reads-previous panic errors _ (
            Reads-map panic errors (λ c. single (Node.super_ name c))
              (method_call-Reads panic errors parse bound inner bound called _ ts h after.0
                (λ e.
                  subst
                    (λ c.
                      (takes_call (Node.super_ name c) && (head_kind ts =? token_left_paren))
                      ≡ false)
                    e after.3)
                (omega arith) (omega arith)))));
  }
  FitsPrefix-PrefixRun can _ ts h after short = absurd h

  called-free :
      (called : Expr) (ts : List Token)
      → FitsCall called
      → (head_kind ts =? token_equal) ≡ false
      → (head_kind (expr_tokens called ++ ts) =? token_equal) ≡ false
  unfolding expr_tokens node_tokens FitsCall
  called-free null ts h free = free
  called-free (node (Node.call items) null) ts h free = refl
  called-free (node (Node.call items) (node m next)) ts h free = absurd h
  called-free (node _ next) ts h free = absurd h

  null_call-free :
      (name : List ℕ) (called : Expr) (ts : List Token)
      → (takes_call (Node.dot name null called) && (head_kind ts =? token_left_paren)) ≡ false
      → called ≡ null
      → (head_kind ts =? token_left_paren) ≡ false
  null_call-free name called ts h e =
      subst (λ c. (takes_call (Node.dot name null c) && (head_kind ts =? token_left_paren)) ≡ false)
        e h

  -- What follows the name after a dot.
  dot-Reads :
      (can : Bool) (name : List ℕ) (assigned called : Expr) (k : ℕ) (previous : Token)
      (ts : List Token)
      → FitsInfix can (Node.dot name assigned called)
      → IsAfterNode can (Node.dot name assigned called) ts
      → length (value_tokens assigned ++ expr_tokens called) < bound
      → length (value_tokens assigned ++ expr_tokens called) < k
      → Reads panic errors previous
          (dot parse k can)
          (token token_identifier name ∷ (value_tokens assigned ++ expr_tokens called))
          (single (Node.dot name assigned called))
          ts
  unfolding FitsInfix FitsValue dot value_tokens expr_tokens
  dot-Reads false name null called k previous ts h after short enough =
      Reads-consume panic errors token_identifier _ refl (called-IsClean called ts h.1 after.0) (
        Reads-previous panic errors _ (
          Reads-map panic errors (λ v. single (Node.dot name null v))
            (method_call-Reads panic errors parse bound inner k called _ ts h.1 after.0
              (null_call-free name called ts after.3) short enough)))
  dot-Reads true name null called k previous ts h after short enough =
      Reads-consume panic errors token_identifier _ refl (called-IsClean called ts h.1 after.0) (
        Reads-previous panic errors _ (
          Reads-no_match panic errors token_equal _ (called-free called ts h.1 after.2) (
            Reads-map panic errors (λ v. single (Node.dot name null v))
              (method_call-Reads panic errors parse bound inner k called _ ts h.1 after.0
                (null_call-free name called ts after.3) short enough))))
  dot-Reads false name (node m next) null k previous ts h after short enough = absurd (ground arith)
  dot-Reads true name (node m next) null k previous ts h after short enough =
      let fits = FitsValue-FitsExpr true m next h.0 in
      let size = length-append (value_tokens (node m next)) [] in
      rw append-nil (
        Reads-consume panic errors token_identifier _ refl refl (
          Reads-previous panic errors _ (
            Reads-match panic errors token_equal _ refl (FitsExpr-Starts 1 (node m next) ts fits).0
              (Reads-map panic errors (λ v. single (Node.dot name v null))
                (inner 1 (node m next) _ ts (omega arith) (omega arith) fits
                  (after.0, after.1, after.2) (omega (arith, size)))))))
  dot-Reads can name (node m next) (node m' next') k previous ts h after short enough = elim h.2 [
    | inl e ↦ absurd e
    | inr e ↦ absurd e
  ]

  -- A node between two operands, likewise.
  pub record InfixRun (can : Bool) (n : Node) (k : ℕ) (ts : List Token) : Type 0 where
    pub first : Token
    pub rest : List Token
    pub rule : Infix
    pub is_tokens : node_tokens n ≡ first ∷ rest
    pub is_rule : infix_rule first.kind ≡ some rule
    pub clean : IsClean (rest ++ ts)
    pub run : Reads panic errors first (run_infix parse k (some rule) can) rest (single n) ts

  pub FitsInfix-InfixRun :
      (can : Bool) (n : Node) (k : ℕ) (ts : List Token)
      → FitsInfix can n
      → IsAfterNode can n ts
      → length (node_tokens n) ≤ bound
      → length (node_tokens n) ≤ k
      → InfixRun can n k ts
  unfolding FitsInfix node_tokens and_ or_ binary deref dot
  FitsInfix-InfixRun can (Node.operation op rhs (node m next)) k ts h after short enough =
      absurd h.2
  FitsInfix-InfixRun can (Node.operation expr_op_not rhs null) k ts h after short enough =
      absurd (omega arith)
  FitsInfix-InfixRun can (Node.operation expr_op_negate rhs null) k ts h after short enough =
      absurd (omega arith)
  FitsInfix-InfixRun can (Node.operation expr_op_deref_ptr rhs null) k ts h after short enough =
      absurd (omega arith)
  FitsInfix-InfixRun can (Node.operation expr_op_logical_and rhs null) k ts h after short enough =
      record {
        first = sign token_and;
        rest = expr_tokens rhs ++ [];
        rule = Infix.and_;
        is_tokens = refl;
        is_rule = refl;
        clean = rw append_assoc (FitsExpr-Starts 3 rhs ts h.1).0;
        run =
            Reads-bind panic errors _
              (operand-Reads 3 rhs _ ts (omega arith) (omega arith) refl h.1 after.0 after.1 short)
              λ c. Reads-pure panic errors c _ ts;
      }
  FitsInfix-InfixRun can (Node.operation expr_op_logical_or rhs null) k ts h after short enough =
      record {
        first = sign token_or;
        rest = expr_tokens rhs ++ [];
        rule = Infix.or_;
        is_tokens = refl;
        is_rule = refl;
        clean = rw append_assoc (FitsExpr-Starts 2 rhs ts h.1).0;
        run =
            Reads-bind panic errors _
              (operand-Reads 2 rhs _ ts (omega arith) (omega arith) refl h.1 after.0 after.1 short)
              λ c. Reads-pure panic errors c _ ts;
      }
  FitsInfix-InfixRun can (Node.operation op rhs null) k ts h after short enough = record {
    first = sign (op_kind op);
    rest = expr_tokens rhs ++ [];
    rule = Infix.binary;
    is_tokens = refl;
    is_rule = refl;
    clean = rw append_assoc (FitsExpr-Starts (operand_level op) rhs ts h.1).0;
    run = Reads-previous panic errors _ (
        Reads-bind panic errors _
          (operand-Reads (operand_level op) rhs _ ts (omega arith) (omega arith) refl h.1 after.0
            after.1 short)
          λ c. Reads-pure panic errors c _ ts);
  }
  FitsInfix-InfixRun can (Node.call items) k ts h after short enough =
      let size = length-append (items_tokens items) (sign token_right_paren ∷ []) in
      record {
        first = sign token_left_paren;
        rest = items_tokens items ++ (sign token_right_paren ∷ []);
        rule = Infix.call;
        is_tokens = refl;
        is_rule = refl;
        clean = items-IsClean panic errors parse bound inner items ts h.0;
        run =
            call-Reads panic errors parse bound inner k items _ ts h.0 h.1 after.0
              (omega (arith, size)) (omega (arith, size));
      }
  FitsInfix-InfixRun can (Node.element index assigned) k ts h after short enough =
      let close = sign token_right_square_bracket in
      let size = length-append (expr_tokens index) (close ∷ value_tokens assigned) in
      record {
        first = sign token_left_square_bracket;
        rest = expr_tokens index ++ (close ∷ value_tokens assigned);
        rule = Infix.deref;
        is_tokens = refl;
        is_rule = refl;
        clean =
            rw append_assoc (FitsExpr-Starts 1 index (close ∷ (value_tokens assigned ++ ts)) h.0).0;
        run =
            Reads-bind panic errors _
              (inner 1 index _ _ (omega arith) (omega arith) h.0 (refl, omega arith, refl)
                (omega (arith, size)))
              λ c.
                Reads-consume panic errors token_right_square_bracket _ refl
                  (value_tokens-IsClean panic errors parse bound inner can assigned ts after.0)
                  (Reads-map panic errors (λ v. single (Node.element index v))
                    (assignment-Reads panic errors parse bound inner can assigned _ ts 11 h.1
                      after.0 after.1 after.2 (omega (arith, size))));
      }
  FitsInfix-InfixRun can (Node.dot name assigned called) k ts h after short enough = record {
    first = sign token_dot;
    rest = token token_identifier name ∷ (value_tokens assigned ++ expr_tokens called);
    rule = Infix.dot;
    is_tokens = refl;
    is_rule = refl;
    clean = refl;
    run = dot-Reads can name assigned called k _ ts h after (omega arith) (omega arith);
  }
  FitsInfix-InfixRun can _ k ts h after short enough = absurd h

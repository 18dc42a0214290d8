-- ===== src/Parser/Grammar.antt =====
-- The grammar of the expressions, independent of the parser: which syntax trees the tokens of an
-- expression of a precedence can have, and those tokens.
use yarg_lang.Prelude.{
  ℕ, ◌≤◌, ◌<◌, ◌≡◌, ◌⊎◌, Bool, true, false, ◌&&◌, List, [], ◌∷◌, ◌++◌, leb, All,
}
use yarg_lang.Scanner.Kinds.{
  TokenType, token_left_paren, token_right_paren, token_left_square_bracket,
  token_right_square_bracket, token_comma, token_dot, token_minus, token_plus, token_slash,
  token_star, token_bar, token_amp, token_caret, token_percent, token_colon, token_bang,
  token_bang_equal, token_equal, token_equal_equal, token_greater, token_greater_equal,
  token_right_shift, token_less, token_less_equal, token_left_shift, token_identifier, token_string,
  token_number, token_and, token_compile, token_cpeek, token_false, token_int, token_int8,
  token_int16, token_int32, token_int64, token_len, token_machine_float64, token_make_channel,
  token_make_routine, token_make_syncgroup, token_new, token_nil, token_or, token_peek, token_pin,
  token_read_yarg_source, token_receive, token_resume, token_send, token_share, token_start,
  token_type_string, token_super, token_true, token_uint8, token_uint16, token_uint32, token_uint64,
  token_vm_read_xip_file, token_load, token_ts_set, token_ts_read, token_ts_write,
  token_ts_interrupt, token_ts_sync,
}
use yarg_lang.Scanner.Tokens.{Token}
use yarg_lang.Parser.Kinds.{is_type_token}
use yarg_lang.Parser.Syntax.{
  ExprOp, expr_op_equal, expr_op_greater, expr_op_right_shift, expr_op_less, expr_op_left_shift,
  expr_op_add, expr_op_subtract, expr_op_multiply, expr_op_divide, expr_op_bit_or, expr_op_bit_and,
  expr_op_bit_xor, expr_op_modulo, expr_op_not_equal, expr_op_greater_equal, expr_op_less_equal,
  expr_op_not, expr_op_negate, expr_op_logical_and, expr_op_logical_or, expr_op_deref_ptr,
  ExprLiteral, expr_literal_true, expr_literal_false, expr_literal_nil, ExprBuiltin,
  expr_builtin_read_yarg_source, expr_builtin_read_xip_file, expr_builtin_compile,
  expr_builtin_make_routine, expr_builtin_make_channel, expr_builtin_make_syncgroup,
  expr_builtin_resume, expr_builtin_start, expr_builtin_receive, expr_builtin_send,
  expr_builtin_cpeek, expr_builtin_share, expr_builtin_peek, expr_builtin_len, expr_builtin_pin,
  expr_builtin_new, expr_builtin_int8, expr_builtin_uint8, expr_builtin_int16, expr_builtin_uint16,
  expr_builtin_int32, expr_builtin_uint32, expr_builtin_int64, expr_builtin_uint64,
  expr_builtin_ts_set, expr_builtin_ts_read, expr_builtin_ts_write, expr_builtin_ts_interrupt,
  expr_builtin_ts_sync, expr_builtin_int, expr_builtin_mfloat64, expr_builtin_string,
  expr_builtin_load, Number, decimal, Node, Expr, null, node, Exprs, no_exprs, expr_then,
}
use yarg_lang.Parser.Expressions.{exprs_count}

abbrev pub token : TokenType → List ℕ → Token
token kind text = record { kind = kind; text = text; at_line = 1 }

abbrev pub sign : TokenType → Token
sign kind = token kind []

abbrev pub op_kind : ExprOp → TokenType
op_kind expr_op_equal = token_equal_equal
op_kind expr_op_greater = token_greater
op_kind expr_op_right_shift = token_right_shift
op_kind expr_op_less = token_less
op_kind expr_op_left_shift = token_left_shift
op_kind expr_op_add = token_plus
op_kind expr_op_subtract = token_minus
op_kind expr_op_multiply = token_star
op_kind expr_op_divide = token_slash
op_kind expr_op_bit_or = token_bar
op_kind expr_op_bit_and = token_amp
op_kind expr_op_bit_xor = token_caret
op_kind expr_op_modulo = token_percent
op_kind expr_op_not_equal = token_bang_equal
op_kind expr_op_greater_equal = token_greater_equal
op_kind expr_op_less_equal = token_less_equal
op_kind expr_op_not = token_bang
op_kind expr_op_negate = token_minus
op_kind expr_op_logical_and = token_and
op_kind expr_op_logical_or = token_or
op_kind expr_op_deref_ptr = token_star

-- How tightly an operator between two operands binds; 0 for one before its operand.
abbrev pub op_level : ExprOp → ℕ
op_level expr_op_equal = 4
op_level expr_op_greater = 5
op_level expr_op_right_shift = 7
op_level expr_op_less = 5
op_level expr_op_left_shift = 7
op_level expr_op_add = 6
op_level expr_op_subtract = 6
op_level expr_op_multiply = 7
op_level expr_op_divide = 7
op_level expr_op_bit_or = 6
op_level expr_op_bit_and = 6
op_level expr_op_bit_xor = 6
op_level expr_op_modulo = 6
op_level expr_op_not_equal = 4
op_level expr_op_greater_equal = 5
op_level expr_op_less_equal = 5
op_level expr_op_logical_and = 3
op_level expr_op_logical_or = 2
op_level _ = 0

-- The precedence of its right operand: `and` and `or` group to the right, all others to the left.
abbrev pub operand_level : ExprOp → ℕ
operand_level expr_op_equal = 5
operand_level expr_op_greater = 6
operand_level expr_op_right_shift = 8
operand_level expr_op_less = 6
operand_level expr_op_left_shift = 8
operand_level expr_op_add = 7
operand_level expr_op_subtract = 7
operand_level expr_op_multiply = 8
operand_level expr_op_divide = 8
operand_level expr_op_bit_or = 7
operand_level expr_op_bit_and = 7
operand_level expr_op_bit_xor = 7
operand_level expr_op_modulo = 7
operand_level expr_op_not_equal = 5
operand_level expr_op_greater_equal = 6
operand_level expr_op_less_equal = 6
operand_level expr_op_logical_and = 3
operand_level expr_op_logical_or = 2
operand_level _ = 8

abbrev pub literal_kind : ExprLiteral → TokenType
literal_kind expr_literal_false = token_false
literal_kind expr_literal_nil = token_nil
literal_kind expr_literal_true = token_true

abbrev pub builtin_kind : ExprBuiltin → TokenType
builtin_kind expr_builtin_peek = token_peek
builtin_kind expr_builtin_read_yarg_source = token_read_yarg_source
builtin_kind expr_builtin_read_xip_file = token_vm_read_xip_file
builtin_kind expr_builtin_compile = token_compile
builtin_kind expr_builtin_make_routine = token_make_routine
builtin_kind expr_builtin_make_channel = token_make_channel
builtin_kind expr_builtin_make_syncgroup = token_make_syncgroup
builtin_kind expr_builtin_resume = token_resume
builtin_kind expr_builtin_send = token_send
builtin_kind expr_builtin_receive = token_receive
builtin_kind expr_builtin_share = token_share
builtin_kind expr_builtin_start = token_start
builtin_kind expr_builtin_cpeek = token_cpeek
builtin_kind expr_builtin_len = token_len
builtin_kind expr_builtin_pin = token_pin
builtin_kind expr_builtin_new = token_new
builtin_kind expr_builtin_int8 = token_int8
builtin_kind expr_builtin_uint8 = token_uint8
builtin_kind expr_builtin_int16 = token_int16
builtin_kind expr_builtin_uint16 = token_uint16
builtin_kind expr_builtin_int32 = token_int32
builtin_kind expr_builtin_uint32 = token_uint32
builtin_kind expr_builtin_int64 = token_int64
builtin_kind expr_builtin_uint64 = token_uint64
builtin_kind expr_builtin_ts_set = token_ts_set
builtin_kind expr_builtin_ts_read = token_ts_read
builtin_kind expr_builtin_ts_write = token_ts_write
builtin_kind expr_builtin_ts_interrupt = token_ts_interrupt
builtin_kind expr_builtin_ts_sync = token_ts_sync
builtin_kind expr_builtin_int = token_int
builtin_kind expr_builtin_mfloat64 = token_machine_float64
builtin_kind expr_builtin_string = token_type_string
builtin_kind expr_builtin_load = token_load

-- The digits of a number, with no zero before them.
abbrev pub IsDigit : ℕ → Type 0
IsDigit c = (b'0' ≤ c) × (c ≤ b'9')

abbrev pub IsDecimal : List ℕ → Type 0
IsDecimal [] = ⊥
IsDecimal (c ∷ []) = IsDigit c
IsDecimal (c ∷ d ∷ ds) = (b'1' ≤ c) × (c ≤ b'9') × All IsDigit (d ∷ ds)

abbrev pub number_text : Number → List ℕ
number_text (decimal ds) = ds
number_text _ = []

unfoldable mutual
  pub node_tokens : Node → List Token
  node_tokens (Node.operation op rhs assigned) =
      sign (op_kind op) ∷ (expr_tokens rhs ++ value_tokens assigned)
  node_tokens (Node.grouping e) =
      sign token_left_paren ∷ (expr_tokens e ++ (sign token_right_paren ∷ []))
  node_tokens (Node.variable name assigned) = token token_identifier name ∷ value_tokens assigned
  node_tokens (Node.literal l) = sign (literal_kind l) ∷ []
  node_tokens (Node.number n) = token token_number (number_text n) ∷ []
  node_tokens (Node.string text) = token token_string (b'"' ∷ (text ++ (b'"' ∷ []))) ∷ []
  node_tokens (Node.call items) =
      sign token_left_paren ∷ (items_tokens items ++ (sign token_right_paren ∷ []))
  node_tokens (Node.collection is_map items n) =
      sign token_left_square_bracket
      ∷ (items_tokens items ++ (sign token_right_square_bracket ∷ []))
  node_tokens (Node.element index assigned) =
      sign token_left_square_bracket
      ∷ (expr_tokens index ++ (sign token_right_square_bracket ∷ value_tokens assigned))
  node_tokens (Node.pair key item) = expr_tokens key ++ (sign token_colon ∷ expr_tokens item)
  node_tokens (Node.builtin b) = sign (builtin_kind b) ∷ []
  node_tokens (Node.dot name assigned called) =
      sign token_dot ∷ token token_identifier name ∷ (value_tokens assigned ++ expr_tokens called)
  node_tokens (Node.super_ name called) =
      sign token_super ∷ sign token_dot ∷ token token_identifier name ∷ expr_tokens called
  node_tokens _ = []

  pub expr_tokens : Expr → List Token
  expr_tokens null = []
  expr_tokens (node n next) = node_tokens n ++ expr_tokens next

  -- An assignment, where there is one.
  pub value_tokens : Expr → List Token
  value_tokens null = []
  value_tokens (node n next) = sign token_equal ∷ (node_tokens n ++ expr_tokens next)

  -- Several expressions, with commas between them.
  pub items_tokens : Exprs → List Token
  items_tokens no_exprs = []
  items_tokens (expr_then e es) = expr_tokens e ++ more_tokens es

  pub more_tokens : Exprs → List Token
  more_tokens no_exprs = []
  more_tokens (expr_then e es) = sign token_comma ∷ (expr_tokens e ++ more_tokens es)

-- How tightly a node that follows another binds to it.
abbrev pub node_level : Node → ℕ
node_level (Node.operation op rhs assigned) = op_level op
node_level (Node.call items) = 9
node_level (Node.dot name assigned called) = 9
node_level (Node.element index assigned) = 10
node_level _ = 0

-- What follows a node binds less tightly than this, as its last operand would take it otherwise.
abbrev pub assigned_bound : ℕ → Expr → ℕ
assigned_bound n null = n
assigned_bound n (node m next) = 1

abbrev pub bound_after : Node → ℕ
bound_after (Node.operation op rhs assigned) = assigned_bound (operand_level op) assigned
bound_after (Node.variable name assigned) = assigned_bound 11 assigned
bound_after (Node.element index assigned) = assigned_bound 11 assigned
bound_after (Node.dot name assigned called) = assigned_bound 11 assigned
bound_after _ = 11

-- A name after a dot that a `(` makes a call.
abbrev pub takes_call : Node → Bool
takes_call (Node.dot name null null) = true
takes_call (Node.super_ name null) = true
takes_call _ = false

abbrev pub is_call : Node → Bool
is_call (Node.call items) = true
is_call _ = false

abbrev pub IsNull : Expr → Type 0
IsNull null = Unit
IsNull (node n next) = ⊥

-- `FitsExpr p e`: the tree of an expression whose operators bind at least as tightly as p.
-- Assignments stand only where p allows them, which `can` says. Types, addresses and numbers other
-- than decimal ones are left out.
unfoldable mutual
  pub FitsPrefix : Bool → Node → Type 0
  FitsPrefix can (Node.operation expr_op_not rhs assigned) = FitsExpr 8 rhs × IsNull assigned
  FitsPrefix can (Node.operation expr_op_negate rhs assigned) = FitsExpr 8 rhs × IsNull assigned
  FitsPrefix can (Node.operation expr_op_deref_ptr rhs assigned) =
      FitsExpr 8 rhs × FitsValue can assigned
  FitsPrefix can (Node.grouping e) = FitsExpr 1 e
  FitsPrefix can (Node.variable name assigned) = FitsValue can assigned
  FitsPrefix can (Node.literal l) = Unit
  FitsPrefix can (Node.number (decimal ds)) = IsDecimal ds
  FitsPrefix can (Node.string text) = Unit
  FitsPrefix can (Node.builtin b) = is_type_token (builtin_kind b) ≡ false
  FitsPrefix can (Node.super_ name called) = FitsCall called
  FitsPrefix can _ = ⊥

  pub FitsInfix : Bool → Node → Type 0
  FitsInfix can (Node.operation op rhs assigned) =
      (1 ≤ op_level op) × FitsExpr (operand_level op) rhs × IsNull assigned
  FitsInfix can (Node.call items) = FitsItems items × (exprs_count items ≤ 255)
  FitsInfix can (Node.dot name assigned called) =
      FitsValue can assigned × FitsCall called × (IsNull assigned ⊎ IsNull called)
  FitsInfix can (Node.element index assigned) = FitsExpr 1 index × FitsValue can assigned
  FitsInfix can _ = ⊥

  pub FitsExpr : ℕ → Expr → Type 0
  FitsExpr p null = ⊥
  FitsExpr p (node n next) = FitsPrefix (leb p 1) n × FitsNext p n next

  -- The nodes after `previous`.
  pub FitsNext : ℕ → Node → Expr → Type 0
  FitsNext p previous null = Unit
  FitsNext p previous (node n next) =
      (p ≤ node_level n)
      × (node_level n < bound_after previous)
      × ((takes_call previous && is_call n) ≡ false)
      × FitsInfix (leb p 1) n
      × FitsNext p n next

  pub FitsValue : Bool → Expr → Type 0
  FitsValue can null = Unit
  FitsValue can (node n next) = (can ≡ true) × FitsPrefix true n × FitsNext 1 n next

  pub FitsCall : Expr → Type 0
  FitsCall null = Unit
  FitsCall (node (Node.call items) null) = FitsItems items × (exprs_count items ≤ 255)
  FitsCall _ = ⊥

  pub FitsItems : Exprs → Type 0
  FitsItems no_exprs = Unit
  FitsItems (expr_then e es) = FitsExpr 1 e × FitsItems es

-- ===== src/Parser/Expressions.antt =====
-- cyarg/parser.c: the functions that parse an expression. Each takes `parse_precedence` as the parser
-- of the expressions inside its own, and fuel for its loop; `Precedence` ties the knot.
use yarg_lang.Prelude.{
  ℕ, zero, suc, ◌+◌, ◌-◌, ltb, Bool, true, false, ◌||◌, List, Option, none, some, if◌then◌else◌,
  length, take, drop,
}
use yarg_lang.Scanner.Kinds.{
  TokenType, token_right_paren, token_right_square_bracket, token_left_square_bracket, token_comma,
  token_equal, token_colon, token_dot, token_identifier, token_left_paren, token_any, token_bang,
}
use yarg_lang.Parser.Kinds.{◌=?◌}
use yarg_lang.Parser.Rules.{precedence_of, prec_assignment, prec_or, prec_and, prec_unary}
use yarg_lang.Parser.Syntax.{
  ExprOp, expr_op_not, expr_op_negate, expr_op_logical_and, expr_op_logical_or, expr_op_deref_ptr,
  expr_literal_nil, Node, operation, collection, element, pair, type_literal, indexed, Expr, null,
  node, Exprs, no_exprs, expr_then,
}
use yarg_lang.Parser.Nodes.{type_literal_of, builtin_of, literal_of, binary_op}
use yarg_lang.Parser.Numbers.{strto_num, number_of, NumberValue, value, wrong, undefined}
use yarg_lang.Parser.State.{
  ◌>>=◌, ◌>>◌, Message, expect_right_paren_after_arguments, too_many_arguments,
  too_many_initialisers, expect_dot_after_super, expect_superclass_method, expect_property_name,
  expect_bracket_after_expression, expect_bracket_initialising, collection_must_have_size,
  expect_bracket_after_array_type, expect_paren_after_expression, reserved_word, Parse, pure, crash,
  exhausted, error, error_at_current, check, match_token, consume, previous_token,
}

-- A node with no successor.
abbrev pub single : Node → Expr
single n = node n null

abbrev pub single_or_null {ℓ} : {A : Type ℓ} → (A → Node) → Option A → Expr
single_or_null f none = null
single_or_null f (some a) = single (f a)

-- The type of a token: a literal, `any` as nil, or null.
abbrev pub simple_type : TokenType → Expr
simple_type token_any = single (Node.literal expr_literal_nil)
simple_type t = single_or_null type_literal (type_literal_of t)

abbrev pub is_null : Expr → Bool
is_null null = true
is_null (node n next) = false

abbrev pub set_next : Expr → Expr → Expr
set_next null further = null
set_next (node n next) further = node n further

-- The text between the quotes.
abbrev pub string_text : List ℕ → List ℕ
string_text text = take (length text - 2) (drop 1 text)

abbrev pub prefix_op : TokenType → ExprOp
prefix_op t = if t =? token_bang then expr_op_not else expr_op_negate

abbrev pub exprs_append : Exprs → Expr → Exprs
exprs_append no_exprs e = expr_then e no_exprs
exprs_append (expr_then d ds) e = expr_then d (exprs_append ds e)

abbrev pub exprs_count : Exprs → ℕ
exprs_count no_exprs = 0
exprs_count (expr_then e es) = suc (exprs_count es)

-- The node of a number, or the report; the conversion of a double out of range has no result.
abbrev pub number_node : NumberValue → Parse Expr
number_node (value v) = pure (single (Node.number v))
number_node (wrong m) = do error_at_current m; pure null
number_node undefined = crash

unfoldable pub number : (List ℕ → ℕ) → Parse Expr
number strtod_length = do t ← previous_token; number_node (number_of strtod_length t.text)

abbrev pub address_node : Option ℕ → Parse Expr
address_node none = crash
address_node (some v) = pure (single (Node.address v))

unfoldable pub address : Parse Expr
address = do t ← previous_token; address_node (strto_num (drop 2 t.text) 16)

unfoldable pub string : Parse Expr
string = do t ← previous_token; pure (single (Node.string (string_text t.text)))

unfoldable pub literal : Parse Expr
literal = do t ← previous_token; pure (single_or_null Node.literal (literal_of t.kind))

unfoldable pub builtin : Parse Expr
builtin = do t ← previous_token; pure (single_or_null Node.builtin (builtin_of t.kind))

unfoldable pub reserved : Parse Expr
reserved = do error reserved_word; pure null

-- `expression` and the functions that read several: `fuel` bounds the turns of their loops.
module _ (parse_precedence : ℕ → Parse Expr) where
  abbrev pub expression : Parse Expr
  expression = parse_precedence prec_assignment

  -- `if (canAssign && match(parser, TOKEN_EQUAL)) ... = expression(parser)`
  unfoldable pub assignment : Bool → Parse Expr
  assignment false = pure null
  assignment true = do
    is_equal ← match_token token_equal
    if is_equal then expression else pure null

  unfoldable pub named_variable : List ℕ → Bool → Parse Expr
  named_variable name can_assign = do
    assigned ← assignment can_assign
    pure (single (Node.variable name assigned))

  unfoldable pub variable : Bool → Parse Expr
  variable can_assign = do t ← previous_token; named_variable t.text can_assign

  unfoldable pub this_ : Parse Expr
  this_ = variable false

  abbrev pub too_many : ℕ → Message → Parse (Unit {0})
  too_many n m = if ltb 255 n then error m else pure tt

  -- The loop of `expressionList`.
  unfoldable pub arguments : ℕ → Exprs → Parse Exprs
  arguments zero items = exhausted
  arguments (suc fuel) items = do
    e ← expression
    too_many (suc (exprs_count items)) too_many_arguments
    more ← match_token token_comma
    if more then arguments fuel (exprs_append items e) else pure (exprs_append items e)

  unfoldable pub expression_list : ℕ → Parse Exprs
  expression_list fuel = do
    is_empty ← check token_right_paren
    items ← (if is_empty then pure no_exprs else arguments fuel no_exprs)
    consume token_right_paren expect_right_paren_after_arguments
    pure items

  unfoldable pub call : ℕ → Parse Expr
  call fuel = do items ← expression_list fuel; pure (single (Node.call items))

  -- `if (match(parser, TOKEN_LEFT_PAREN))` the call of a method
  unfoldable pub method_call : ℕ → Parse Expr
  method_call fuel = do
    is_call ← match_token token_left_paren
    if is_call then call fuel else pure null

  unfoldable pub super_ : ℕ → Parse Expr
  super_ fuel = do
    consume token_dot expect_dot_after_super
    consume token_identifier expect_superclass_method
    t ← previous_token
    called ← method_call fuel
    pure (single (Node.super_ t.text called))

  abbrev pub assigned_or_called : ℕ → List ℕ → Bool → Parse Expr
  assigned_or_called fuel name true = do
    assigned ← expression
    pure (single (Node.dot name assigned null))
  assigned_or_called fuel name false = do
    called ← method_call fuel
    pure (single (Node.dot name null called))

  unfoldable pub dot : ℕ → Bool → Parse Expr
  dot fuel can_assign = do
    consume token_identifier expect_property_name
    t ← previous_token
    is_assigned ← (if can_assign then match_token token_equal else pure false)
    assigned_or_called fuel t.text is_assigned

  unfoldable pub deref : Bool → Parse Expr
  deref can_assign = do
    index ← parse_precedence prec_assignment
    consume token_right_square_bracket expect_bracket_after_expression
    assigned ← assignment can_assign
    pure (single (element index assigned))

  -- `appendInitializer`: the initialiser, and whether it is a pair.
  unfoldable pub initializer : Parse (Expr × Bool)
  initializer = do
    key_or_item ← expression
    is_pair ← match_token token_colon
    if is_pair
        then (do assigned ← expression; pure (single (pair key_or_item assigned), true))
        else pure (key_or_item, false)

  -- The loop of `collectionInitializers`, with `isMap`.
  unfoldable pub initializers : ℕ → Exprs → Bool → Parse (Exprs × Bool)
  initializers zero items is_map = exhausted
  initializers (suc fuel) items is_map = do
    (e, is_pair) ← initializer
    too_many (suc (exprs_count items)) too_many_initialisers
    more ← match_token token_comma
    if more
        then initializers fuel (exprs_append items e) (is_map || is_pair)
        else pure (exprs_append items e, is_map || is_pair)

  unfoldable pub collection_init : ℕ → Parse Expr
  collection_init fuel = do
    is_empty ← check token_right_square_bracket
    (items, is_map) ←
        (if is_empty then pure (no_exprs, false) else initializers fuel no_exprs false)
    consume token_right_square_bracket expect_bracket_initialising
    pure (single (collection is_map items (exprs_count items)))

  unfoldable pub unary : Parse Expr
  unary = do
    t ← previous_token
    rhs ← parse_precedence prec_unary
    pure (single (operation (prefix_op t.kind) rhs null))

  unfoldable pub unary_place : Bool → Parse Expr
  unary_place can_assign = do
    rhs ← parse_precedence prec_unary
    assigned ← assignment can_assign
    pure (single (operation expr_op_deref_ptr rhs assigned))

  unfoldable pub grouping : Parse Expr
  grouping = do
    e ← expression
    consume token_right_paren expect_paren_after_expression
    pure (single (Node.grouping e))

  unfoldable pub and_ : Parse Expr
  and_ = do rhs ← parse_precedence prec_and; pure (single (operation expr_op_logical_and rhs null))

  unfoldable pub or_ : Parse Expr
  or_ = do rhs ← parse_precedence prec_or; pure (single (operation expr_op_logical_or rhs null))

  unfoldable pub binary : Parse Expr
  binary = do
    t ← previous_token
    rhs ← parse_precedence (precedence_of t.kind + 1)
    pure (single_or_null (λ op. operation op rhs null) (binary_op t.kind))

  -- The collection that an index makes of the type before it, after the `[`.
  unfoldable pub index_type : Parse Expr
  index_type = do
    is_empty ← check token_right_square_bracket
    index ← (if is_empty then pure null else parse_precedence prec_assignment)
    (if is_null index then error collection_must_have_size else pure tt)
    consume token_right_square_bracket expect_bracket_after_array_type
    pure (single (indexed index))

  -- `consumeCollectionIndex`, on a pointer that is not null.
  unfoldable pub consume_collection_index : Expr → Parse Expr
  consume_collection_index cursor = do
    is_indexed ← match_token token_left_square_bracket
    made ← (if is_indexed then index_type else pure null)
    pure (set_next cursor made)

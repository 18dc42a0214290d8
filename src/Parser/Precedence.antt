-- ===== src/Parser/Precedence.antt =====
-- cyarg/parser.c: the types among the expressions, and `parsePrecedence`, which looks the functions up
-- in the table. The fuel bounds the depth of the expression and the turns of every loop.
use yarg_lang.Prelude.{
  List, ℕ, zero, suc, leb, Bool, true, false, Option, none, some, if◌then◌else◌,
}
use yarg_lang.Scanner.Kinds.{
  token_identifier, token_left_paren, token_left_brace, token_right_brace, token_at,
  token_semicolon, token_struct, token_equal,
}
use yarg_lang.Parser.Kinds.{◌=?◌}
use yarg_lang.Parser.Rules.{Prefix, Infix, prefix_rule, infix_rule, precedence_of, prec_assignment}
use yarg_lang.Parser.Syntax.{
  expr_literal_nil, Node, type_struct, Expr, null, node, StructFields, no_fields, field_then,
}
use yarg_lang.Parser.State.{
  ◌>>=◌, ◌>>◌, expect_name_of_field, expect_semicolon_after_field, expect_brace_to_start_struct,
  expect_brace_after_fields, expect_expression, invalid_assignment_target, invalid_type, Parse,
  pure, crash, exhausted, error, error_at_current, advance, check, match_token, consume,
  check_type_token, previous_token, current_token,
}
use yarg_lang.Parser.Expressions.{
  single, simple_type, set_next, number, address, string, literal, builtin, reserved, expression,
  variable, this_, call, super_, dot, deref, collection_init, unary, unary_place, grouping, and_,
  or_, binary, consume_collection_index,
}

module _ (parse_precedence : ℕ → Parse Expr) where
  abbrev pub nil_type : Parse Expr
  nil_type = pure (single (Node.literal expr_literal_nil))

  -- The type that `typeExpression` made, with its index.
  unfoldable pub indexed_type : Expr → Parse Expr
  indexed_type null = do error_at_current invalid_type; pure null
  indexed_type (node n next) = consume_collection_index parse_precedence (node n next)

  unfoldable pub offset : Parse Expr
  offset = do
    is_placed ← match_token token_at
    if is_placed then expression parse_precedence else nil_type

  unfoldable mutual
    -- `typeExpression`
    pub type_expression : ℕ → Parse Expr
    type_expression zero = exhausted
    type_expression (suc fuel) = do
      is_type ← check_type_token
      if is_type then declared_type fuel else pure null

    -- `typeExpression`, at a token of a type
    pub declared_type : ℕ → Parse Expr
    declared_type zero = exhausted
    declared_type (suc fuel) = do
      advance
      t ← previous_token
      e ← (if t.kind =? token_struct then struct_expression fuel else pure (simple_type t.kind))
      indexed_type e

    -- `structExpression`
    pub struct_expression : ℕ → Parse Expr
    struct_expression zero = exhausted
    struct_expression (suc fuel) = do
      consume token_left_brace expect_brace_to_start_struct
      fields ← struct_fields fuel
      consume token_right_brace expect_brace_after_fields
      pure (single (type_struct fields))

    -- The loop of `structExpression`.
    pub struct_fields : ℕ → Parse StructFields
    struct_fields zero = exhausted
    struct_fields (suc fuel) = do
      is_end ← check token_right_brace
      if is_end then pure no_fields else field_stmt fuel

    -- `fieldStmt`, and the rest of the fields
    pub field_stmt : ℕ → Parse StructFields
    field_stmt zero = exhausted
    field_stmt (suc fuel) = do
      is_type ← check_type_token
      type ← (if is_type then type_expression fuel else nil_type)
      at ← offset
      consume token_identifier expect_name_of_field
      t ← previous_token
      consume token_semicolon expect_semicolon_after_field
      more ← struct_fields fuel
      pure (field_then t.text type at more)

  -- `type`, where it makes a type
  unfoldable pub type_value : ℕ → Parse Expr
  type_value fuel = do
    t ← previous_token
    e ← (if t.kind =? token_struct then struct_expression fuel else pure (simple_type t.kind))
    consume_collection_index parse_precedence e

  unfoldable pub type_ : ℕ → Parse Expr
  type_ fuel = do
    is_builtin ← check token_left_paren
    if is_builtin then builtin else type_value fuel

  abbrev pub run_prefix : (List ℕ → ℕ) → ℕ → Prefix → Bool → Parse Expr
  run_prefix strtod_length fuel Prefix.grouping can_assign = grouping parse_precedence
  run_prefix strtod_length fuel Prefix.collectioninit can_assign =
      collection_init parse_precedence fuel
  run_prefix strtod_length fuel Prefix.unary can_assign = unary parse_precedence
  run_prefix strtod_length fuel Prefix.unary_place can_assign =
      unary_place parse_precedence can_assign
  run_prefix strtod_length fuel Prefix.address can_assign = address
  run_prefix strtod_length fuel Prefix.variable can_assign = variable parse_precedence can_assign
  run_prefix strtod_length fuel Prefix.string can_assign = string
  run_prefix strtod_length fuel Prefix.number can_assign = number strtod_length
  run_prefix strtod_length fuel Prefix.type_ can_assign = type_ fuel
  run_prefix strtod_length fuel Prefix.reserved can_assign = reserved
  run_prefix strtod_length fuel Prefix.builtin can_assign = builtin
  run_prefix strtod_length fuel Prefix.literal can_assign = literal
  run_prefix strtod_length fuel Prefix.super_ can_assign = super_ parse_precedence fuel
  run_prefix strtod_length fuel Prefix.this_ can_assign = this_ parse_precedence

  -- A call of the null pointer crashes.
  abbrev pub run_infix : ℕ → Option Infix → Bool → Parse Expr
  run_infix fuel none can_assign = crash
  run_infix fuel (some Infix.call) can_assign = call parse_precedence fuel
  run_infix fuel (some Infix.deref) can_assign = deref parse_precedence can_assign
  run_infix fuel (some Infix.dot) can_assign = dot parse_precedence fuel can_assign
  run_infix fuel (some Infix.binary) can_assign = binary parse_precedence
  run_infix fuel (some Infix.and_) can_assign = and_ parse_precedence
  run_infix fuel (some Infix.reserved) can_assign = reserved
  run_infix fuel (some Infix.or_) can_assign = or_ parse_precedence

  -- The store of `*cursor`, at a node that may be null.
  abbrev pub store_next : Expr → Parse (Unit {0})
  store_next null = crash
  store_next (node n next) = pure tt

  -- The body of the loop of `parsePrecedence`, whose further turns are `rest`.
  unfoldable pub operation_then : ℕ → Bool → Expr → (Expr → Parse Expr) → Parse Expr
  operation_then fuel can_assign cursor rest = do
    advance
    t ← previous_token
    next ← run_infix fuel (infix_rule t.kind) can_assign
    store_next cursor
    further ← rest next
    pure (set_next cursor further)

  -- The loop of `parsePrecedence`, from the node at whose `nextExpr` it writes.
  unfoldable pub operations : ℕ → ℕ → Bool → Expr → Parse Expr
  operations zero precedence can_assign cursor = exhausted
  operations (suc fuel) precedence can_assign cursor = do
    t ← current_token
    if leb precedence (precedence_of t.kind)
        then operation_then fuel can_assign cursor (operations fuel precedence can_assign)
        else pure cursor

  -- The end of `parsePrecedence`: a `=` that nothing took.
  unfoldable pub reject_assignment : Bool → Parse (Unit {0})
  reject_assignment false = pure tt
  reject_assignment true = do
    is_equal ← match_token token_equal
    if is_equal then error invalid_assignment_target else pure tt

  unfoldable pub parse_from : (List ℕ → ℕ) → ℕ → ℕ → Option Prefix → Parse Expr
  parse_from strtod_length fuel precedence none = do error expect_expression; pure null
  parse_from strtod_length fuel precedence (some rule) = do
    let can_assign = leb precedence prec_assignment
    e ← run_prefix strtod_length fuel rule can_assign
    whole ← operations fuel precedence can_assign e
    reject_assignment can_assign
    pure whole

unfoldable pub parse_precedence : (List ℕ → ℕ) → ℕ → ℕ → Parse Expr
parse_precedence strtod_length zero precedence = exhausted
parse_precedence strtod_length (suc fuel) precedence = do
  advance
  t ← previous_token
  parse_from (parse_precedence strtod_length fuel) strtod_length fuel precedence
      (prefix_rule t.kind)

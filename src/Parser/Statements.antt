-- ===== src/Parser/Statements.antt =====
-- cyarg/parser.c: the functions that parse a statement or a declaration, and `parse`. Each takes the
-- parsers of the expressions, the types, the statements and the declarations inside its own; `fuel`
-- bounds the turns of its loop.
use yarg_lang.Prelude.{ℕ, zero, suc, ltb, Bool, true, false, ◌||◌, List, [], ◌∷◌, if◌then◌else◌}
use yarg_lang.Scanner.Kinds.{
  TokenType, token_semicolon, token_comma, token_identifier, token_equal, token_right_brace,
  token_eof, token_left_paren, token_right_paren, token_else, token_var, token_left_brace,
}
use yarg_lang.Parser.Kinds.{◌=?◌}
use yarg_lang.Parser.Syntax.{Expr, null, Exprs}
use yarg_lang.Parser.State.{
  Message, expression_expected, expect_semicolon_after_value, expect_semicolon_after_expression,
  expect_comma_after_location, expect_comma_after_offset, expect_variable_name,
  expect_semicolon_after_variable, expect_brace_after_block, expect_paren_after_if,
  expect_paren_after_while, expect_paren_after_for, expect_paren_after_condition,
  expect_semicolon_after_condition, expect_paren_after_clauses, too_many_parameters,
  expect_place_name, expect_semicolon_after_place, expect_brace_after_places, Parse, pure,
  exhausted, error, check, match_token, consume, previous_token, current_token, ◌>>=◌, ◌>>◌,
}
use yarg_lang.Parser.Expressions.{exprs_append, exprs_count}

-- The statements that hold one expression.
pub data ExpressionKind : Type 0 where
  stmt_expression stmt_print stmt_error stmt_yield stmt_return : ExpressionKind

-- `Stmts` is `ObjStmt*`: null, or a statement and its `nextStmt`. A statement begins with its line.
mutual
  pub data Stmt : Type 0 where
    expression_stmt : ExpressionKind → ℕ → Expr → Stmt
    poke_stmt : ℕ → Expr → Expr → Expr → Stmt
    var_stmt : ℕ → List ℕ → Expr → Expr → Stmt
    block_stmt : ℕ → Stmts → Stmt
    if_stmt : ℕ → Expr → Stmts → Stmts → Stmt
    while_stmt : ℕ → Expr → Stmts → Stmt
    for_stmt : ℕ → Stmts → Expr → Expr → Stmts → Stmt
    fun_stmt : ℕ → List ℕ → Exprs → Stmts → Stmt
    class_stmt : ℕ → List ℕ → Expr → Stmts → Stmt
    place_stmt : ℕ → Expr → List (List ℕ × Expr) → Stmt

  pub data Stmts : Type 0 where
    no_stmts : Stmts
    stmt_then : Stmt → Stmts → Stmts

abbrev pub only : Stmt → Stmts
only d = stmt_then d no_stmts

-- `parser->current.type` is the end of a block, or of the source.
abbrev pub at_block_end : TokenType → Bool
at_block_end t = (t =? token_right_brace) || (t =? token_eof)

module _ (expression : Parse Expr) where
  -- The two cases of `expressionStatement`, after the line is taken.
  unfoldable pub empty_statement : ExpressionKind → ℕ → Bool → Parse Stmt
  empty_statement kind line expects = do
    (if expects then error expression_expected else pure tt)
    pure (expression_stmt kind line null)

  unfoldable pub full_statement : ExpressionKind → ℕ → Message → Parse Stmt
  full_statement kind line m = do
    e ← expression
    consume token_semicolon m
    pure (expression_stmt kind line e)

  unfoldable pub expression_statement : ExpressionKind → Bool → Message → Parse Stmt
  expression_statement kind expects m = do
    t ← current_token
    is_empty ← match_token token_semicolon
    if is_empty then empty_statement kind t.at_line expects else full_statement kind t.at_line m

  -- `pokeStatement`: the offset is null where there is one comma.
  unfoldable pub poke_value : Expr → Parse (Expr × Expr)
  poke_value first = do
    has_offset ← check token_comma
    if has_offset
        then (do
          consume token_comma expect_comma_after_offset
          value ← expression
          pure (first, value))
        else pure (null, first)

  unfoldable pub poke_statement : Parse Stmt
  poke_statement = do
    t ← current_token
    location ← expression
    consume token_comma expect_comma_after_location
    first ← expression
    (offset, assigned) ← poke_value first
    consume token_semicolon expect_semicolon_after_value
    pure (poke_stmt t.at_line location offset assigned)

  -- `if (match(parser, TOKEN_EQUAL))` the initialiser
  unfoldable pub initialiser : Parse Expr
  initialiser = do
    is_initialised ← match_token token_equal
    if is_initialised then expression else pure null

  unfoldable pub var_declaration : Parse Expr → Parse Stmt
  var_declaration type = do
    t ← type
    consume token_identifier expect_variable_name
    name ← previous_token
    initial ← initialiser
    consume token_semicolon expect_semicolon_after_variable
    pure (var_stmt name.at_line name.text t initial)

  -- The parameters of a function, as the loop of `funDeclaration` reads them.
  unfoldable pub parameters : ℕ → Exprs → Parse Exprs
  parameters zero items = exhausted
  parameters (suc fuel) items = do
    e ← expression
    (if ltb 255 (suc (exprs_count items)) then error too_many_parameters else pure tt)
    more ← match_token token_comma
    if more then parameters fuel (exprs_append items e) else pure (exprs_append items e)

  -- `placeAliasDeclaration`
  unfoldable pub place_alias : Parse (List ℕ × Expr)
  place_alias = do
    location ← expression
    consume token_identifier expect_place_name
    t ← previous_token
    consume token_semicolon expect_semicolon_after_place
    pure (t.text, location)

  unfoldable pub place_aliases : ℕ → Parse (List (List ℕ × Expr))
  place_aliases zero = exhausted
  place_aliases (suc fuel) = do
    t ← current_token
    if at_block_end t.kind
        then pure []
        else (do alias ← place_alias; aliases ← place_aliases fuel; pure (alias ∷ aliases))

  unfoldable pub place_body : ℕ → Bool → Parse (List (List ℕ × Expr))
  place_body fuel true = do
    aliases ← place_aliases fuel
    consume token_right_brace expect_brace_after_places
    pure aliases
  place_body fuel false = do alias ← place_alias; pure (alias ∷ [])

  unfoldable pub place_declaration : ℕ → Parse Stmt
  place_declaration fuel = do
    t ← previous_token
    type ← expression
    is_block ← match_token token_left_brace
    aliases ← place_body fuel is_block
    pure (place_stmt t.at_line type aliases)

-- The loop of `block`, then `block`.
unfoldable pub block_statements : Parse Stmt → ℕ → Parse Stmts
block_statements declaration zero = exhausted
block_statements declaration (suc fuel) = do
  t ← current_token
  if at_block_end t.kind
      then pure no_stmts
      else (do d ← declaration; ds ← block_statements declaration fuel; pure (stmt_then d ds))

unfoldable pub block : Parse Stmt → ℕ → Parse Stmts
block declaration fuel = do
  ds ← block_statements declaration fuel
  consume token_right_brace expect_brace_after_block
  pure ds

unfoldable pub block_statement : Parse Stmt → ℕ → Parse Stmt
block_statement declaration fuel = do
  t ← previous_token
  ds ← block declaration fuel
  pure (block_stmt t.at_line ds)

module _ (expression type_expression : Parse Expr) (statement : Parse Stmt) where
  unfoldable pub else_statement : Parse Stmts
  else_statement = do
    has_else ← match_token token_else
    if has_else then (do d ← statement; pure (only d)) else pure no_stmts

  unfoldable pub if_statement : Parse Stmt
  if_statement = do
    t ← previous_token
    consume token_left_paren expect_paren_after_if
    test ← expression
    consume token_right_paren expect_paren_after_condition
    d ← statement
    otherwise ← else_statement
    pure (if_stmt t.at_line test (only d) otherwise)

  unfoldable pub while_statement : Parse Stmt
  while_statement = do
    t ← previous_token
    consume token_left_paren expect_paren_after_while
    test ← expression
    consume token_right_paren expect_paren_after_condition
    d ← statement
    pure (while_stmt t.at_line test (only d))

  -- The clauses of a `for`: each is null where it is left out.
  abbrev pub for_initializer : Bool → Parse Stmts
  for_initializer true = do d ← var_declaration expression type_expression; pure (only d)
  for_initializer false = do
    d ← expression_statement expression stmt_expression true expect_semicolon_after_expression
    pure (only d)

  unfoldable pub for_first : Parse Stmts
  for_first = do
    is_empty ← match_token token_semicolon
    if is_empty then pure no_stmts else (do is_var ← match_token token_var; for_initializer is_var)

  -- An expression up to a token, or nothing where the token comes at once.
  unfoldable pub clause : TokenType → Message → Parse Expr
  clause t m = do
    is_empty ← match_token t
    if is_empty then pure null else (do e ← expression; consume t m; pure e)

  unfoldable pub for_statement : Parse Stmt
  for_statement = do
    t ← previous_token
    consume token_left_paren expect_paren_after_for
    initial ← for_first
    condition ← clause token_semicolon expect_semicolon_after_condition
    further ← clause token_right_paren expect_paren_after_clauses
    d ← statement
    pure (for_stmt t.at_line initial condition further (only d))

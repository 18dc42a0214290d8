-- ===== src/Parser/Declarations.antt =====
-- cyarg/parser.c: `statement`, `declaration` and `parse`, which ends with the reports. The fuel bounds
-- the depth of the statements and the turns of every loop.
use yarg_lang.Prelude.{ℕ, zero, suc, Bool, true, false, List, [], if◌then◌else◌}
use yarg_lang.Compiler.{identifiers_equal}
use yarg_lang.Scanner.Kinds.{
  TokenType, token_identifier, token_right_brace, token_eof, token_left_paren, token_right_paren,
  token_var, token_print, token_poke, token_stmt_error, token_for, token_if, token_yield,
  token_return, token_while, token_left_brace, token_less, token_class, token_fun, token_place,
}
use yarg_lang.Scanner.Tokens.{Token}
use yarg_lang.Parser.Rules.{prec_assignment}
use yarg_lang.Parser.Syntax.{Expr, null, no_exprs}
use yarg_lang.Parser.State.{
  Message, expect_semicolon_after_value, expect_semicolon_after_expression,
  expect_semicolon_after_error, expect_semicolon_after_yield, expect_semicolon_after_return,
  expect_function_name, expect_method_name, expect_paren_after_function,
  expect_paren_after_parameters, expect_brace_before_body, expect_class_name,
  expect_superclass_name, own_superclass, expect_brace_before_class, expect_brace_after_class,
  Parser, returned, Parse, pure, exhausted, error, advance, check, match_token, consume,
  check_type_token, previous_token, current_token, synchronize, ◌>>=◌, ◌>>◌,
}
use yarg_lang.Parser.Expressions.{named_variable}
use yarg_lang.Parser.Precedence.{parse_precedence, type_expression}
use yarg_lang.Parser.Statements.{
  stmt_expression, stmt_print, stmt_error, stmt_yield, stmt_return, Stmt, fun_stmt, class_stmt,
  Stmts, no_stmts, stmt_then, at_block_end, expression_statement, poke_statement, var_declaration,
  parameters, place_declaration, block, block_statement, if_statement, while_statement,
  for_statement,
}

-- `if (match(parser, t)) p else q`
unfoldable pub on_match {ℓ} : {A : Type ℓ} → TokenType → Parse A → Parse A → Parse A
on_match t p q = do is_matched ← match_token t; if is_matched then p else q

module _ (parse : ℕ → Parse Expr) (type : Parse Expr) (fuel : ℕ) (inner outer : Parse Stmt) where
  -- `statement`: `inner` parses the statements inside it, and `outer` the declarations.
  unfoldable pub statement_with : Parse Stmt
  statement_with =
      on_match token_print
        (expression_statement (parse prec_assignment) stmt_print true expect_semicolon_after_value)
        (on_match token_poke (poke_statement (parse prec_assignment)) (
          on_match token_stmt_error
            (expression_statement (parse prec_assignment) stmt_error true
              expect_semicolon_after_error)
            (on_match token_for (for_statement (parse prec_assignment) type inner) (
              on_match token_if (if_statement (parse prec_assignment) type inner) (
                on_match token_yield
                  (expression_statement (parse prec_assignment) stmt_yield false
                    expect_semicolon_after_yield)
                  (on_match token_return
                    (expression_statement (parse prec_assignment) stmt_return false
                      expect_semicolon_after_return)
                    (on_match token_while (while_statement (parse prec_assignment) type inner) (
                      on_match token_left_brace (block_statement outer fuel) (
                        expression_statement (parse prec_assignment) stmt_expression true
                          expect_semicolon_after_expression)))))))))

  unfoldable pub fun_declaration : Message → Parse Stmt
  fun_declaration m = do
    consume token_identifier m
    name ← previous_token
    consume token_left_paren expect_paren_after_function
    is_empty ← check token_right_paren
    items ← (if is_empty then pure no_exprs else parameters (parse prec_assignment) fuel no_exprs)
    consume token_right_paren expect_paren_after_parameters
    consume token_left_brace expect_brace_before_body
    body ← block outer fuel
    pure (fun_stmt name.at_line name.text items body)

  -- The superclass, after the `<`; null without one.
  unfoldable pub superclass : List ℕ → Parse Expr
  superclass name = do
    consume token_identifier expect_superclass_name
    t ← previous_token
    e ← named_variable parse t.text false
    (if identifiers_equal name t.text then error own_superclass else pure tt)
    pure e

  unfoldable pub methods : ℕ → Parse Stmts
  methods zero = exhausted
  methods (suc fuel) = do
    t ← current_token
    if at_block_end t.kind
        then pure no_stmts
        else (do m ← fun_declaration expect_method_name; ms ← methods fuel; pure (stmt_then m ms))

  unfoldable pub class_declaration : Parse Stmt
  class_declaration = do
    consume token_identifier expect_class_name
    name ← previous_token
    super ← on_match token_less (superclass name.text) (pure null)
    consume token_left_brace expect_brace_before_class
    ms ← methods fuel
    consume token_right_brace expect_brace_after_class
    pure (class_stmt name.at_line name.text super ms)

  -- `match(parser, TOKEN_VAR) || checkTypeToken(parser)`
  unfoldable pub starts_variable : Parse Bool
  starts_variable = on_match token_var (pure true) check_type_token

  -- A declaration of a variable or a place, or else a statement, which `inner` parses.
  unfoldable pub other_declaration : Parse Stmt
  other_declaration = do
    is_variable ← starts_variable
    if is_variable
        then var_declaration (parse prec_assignment) type
        else on_match token_place (place_declaration (parse prec_assignment) fuel) inner

  -- `if (parser->panicMode) synchronize(parser)`
  unfoldable pub recover : ℕ → Parse (Unit {0})
  recover fuel s = if s.panic_mode then synchronize fuel s else returned (tt, s)

  unfoldable pub declaration_with : Parse Stmt
  declaration_with = do
    d ←
        on_match token_class class_declaration
          (on_match token_fun (fun_declaration expect_function_name) other_declaration)
    recover fuel
    pure d

unfoldable mutual
  pub statement : (List ℕ → ℕ) → ℕ → Parse Stmt
  statement strtod_length zero = exhausted
  statement strtod_length (suc fuel) =
      statement_with (parse_precedence strtod_length fuel)
        (type_expression (parse_precedence strtod_length fuel) fuel) fuel
        (statement strtod_length fuel) (declaration strtod_length fuel)

  pub declaration : (List ℕ → ℕ) → ℕ → Parse Stmt
  declaration strtod_length zero = exhausted
  declaration strtod_length (suc fuel) =
      declaration_with (parse_precedence strtod_length fuel)
        (type_expression (parse_precedence strtod_length fuel) fuel) fuel
        (statement strtod_length fuel) (declaration strtod_length fuel)

-- The loop of `parse`, up to the end of the source.
unfoldable pub declarations : Parse Stmt → ℕ → Parse Stmts
declarations one zero = exhausted
declarations one (suc fuel) =
    on_match token_eof (pure no_stmts)
      (do d ← one; ds ← declarations one fuel; pure (stmt_then d ds))

-- `parse`, on a parser that has read no token; the reports are in the state that is left.
unfoldable pub parse : (List ℕ → ℕ) → ℕ → Parse Stmts
parse strtod_length fuel = do advance; declarations (declaration strtod_length fuel) fuel

-- `newParser`, which leaves the tokens as zeros.
abbrev zero_token : Token
zero_token = record { kind = token_left_paren; text = []; at_line = 0 }

unfoldable pub new_parser : List Token → Parser
new_parser tokens = record {
  current = zero_token;
  previous = zero_token;
  panic_mode = false;
  upcoming = tokens;
  errors = [];
}

-- ===== src/Parser/Tests.antt =====
-- cyarg/parser.c: runs of the parser, and the theorems at concrete inputs.
use yarg_lang.Parser.Terminates.{parse-Within}
use yarg_lang.Parser.Shorter.{nothing}
use yarg_lang.Prelude.{
  ℕ, ◌≡◌, refl, arith, List, [], ◌∷◌, ◌++◌, length, replicate, ◌^◌, false, some,
}
use yarg_lang.Scanner.Kinds.{
  token_number, token_plus, token_identifier, token_left_paren, token_right_paren, token_semicolon,
  token_bool, token_equal, token_var, token_if, token_print, token_left_brace,
}
use yarg_lang.Scanner.Tokens.{Token}
use yarg_lang.Parser.Syntax.{
  Expr, Node, node, null, decimal, expr_op_subtract, expr_op_multiply, expr_then, no_exprs,
}
use yarg_lang.Parser.State.{
  Parser, Outcome, returned, crashed, out_of_fuel, advanced, advance, check, match_token, consume,
  next_token, previous_token, current_token,
}
use yarg_lang.Parser.Numbers.{number_of, value, strto_num, add_position, to_double, position_value}
use yarg_lang.Parser.Numbers.Decimal.{number_of-decimal}
use yarg_lang.Parser.Numbers.Radix.{spelled, strto_num-spelled}
use yarg_lang.Prelude.{inr, true, false}
use yarg_lang.Parser.Precedence.{
  parse_precedence, struct_fields, parse_from, type_, operations, operation_then,
}
use yarg_lang.Parser.Expressions.{builtin, call, expression_list}
use yarg_lang.Parser.Statements.{Stmts}
use yarg_lang.Parser.Declarations.{parse, new_parser}
use yarg_lang.Parser.Grammar.{sign, token, expr_tokens, FitsExpr}
use yarg_lang.Parser.Reading.{before}
use yarg_lang.Parser.Progress.{Within, remaining}
use yarg_lang.Parser.Reports.{reporting, parse_precedence-Within}
use yarg_lang.Parser.Stuck.{struct_fields-IsStuck}
use yarg_lang.Parser.RoundTrip.{parse_precedence-expr_tokens}

abbrev digits : ℕ → Token
digits d = token token_number (d ∷ [])

abbrev number_expr : ℕ → Expr
number_expr d = node (Node.number (decimal (d ∷ []))) null

-- 1 - 2 * f(3)
abbrev difference : Expr
difference = node (Node.number (decimal (b'1' ∷ []))) (
    node
      (Node.operation expr_op_subtract
        (node (Node.number (decimal (b'2' ∷ []))) (
          node
            (Node.operation expr_op_multiply
              (node (Node.variable (b'f' ∷ []) null)
                (node (Node.call (expr_then (number_expr b'3') no_exprs)) null))
              null)
            null))
        null)
      null)

difference-FitsExpr : FitsExpr 1 difference
unfolding FitsExpr
difference-FitsExpr = ground arith

abbrev end : List Token
end = sign token_semicolon ∷ []

parse_precedence-expr_tokens_example :
    (last : Token) × (parse_precedence length 20 1
        (before false [] (sign token_left_paren) (expr_tokens difference ++ end))
      ≡ returned (difference, before false [] last end))
parse_precedence-expr_tokens_example =
    parse_precedence-expr_tokens false [] length 20 1 difference (sign token_left_paren) end
      (omega arith) (omega arith) difference-FitsExpr (refl, omega arith, refl)
      (unfold expr_tokens in omega arith)

abbrev at_difference : Parser
at_difference = before false [] (sign token_left_paren) (expr_tokens difference ++ end)

parse_precedence-Within_example :
    Within reporting at_difference (parse_precedence length 20 1 at_difference)
parse_precedence-Within_example =
    parse_precedence-Within length 20 1 at_difference (unfold expr_tokens in ground arith)
      (unfold expr_tokens remaining in omega arith)

abbrev pub program : List Token
program =
    sign token_var
    ∷ token token_identifier (b'x' ∷ [])
    ∷ sign token_equal
    ∷ digits b'1'
    ∷ sign token_semicolon
    ∷ sign token_if
    ∷ sign token_left_paren
    ∷ token token_identifier (b'x' ∷ [])
    ∷ sign token_right_paren
    ∷ sign token_print
    ∷ digits b'2'
    ∷ sign token_plus
    ∷ sign token_semicolon
    ∷ sign token_print
    ∷ digits b'3'
    ∷ sign token_semicolon
    ∷ []

abbrev pub program_run : Outcome (Stmts × Parser)
program_run = parse length 40 (new_parser program)

parse-Within_example :
    Within nothing (advanced (new_parser program)) (parse length 40 (new_parser program))
parse-Within_example = parse-Within length 40 program (ground arith) (omega arith)

struct_fields-IsStuck_example :
    struct_fields
      (parse_precedence length 20)
      1000
      (before false [] (sign token_left_brace) (digits b'5' ∷ []))
    ≡ out_of_fuel
struct_fields-IsStuck_example =
    struct_fields-IsStuck (parse_precedence length 20) 1000
      (before false [] (sign token_left_brace) (digits b'5' ∷ [])) (refl, refl, refl, refl, refl)

strto_num-spelled_example : strto_num (spelled ((15, false) ∷ (15, true) ∷ [])) 16 ≡ some 255
strto_num-spelled_example =
    strto_num-spelled 16 (inr refl) ((15, false) ∷ (15, true) ∷ []) (omega arith, (omega arith, tt))
      (omega arith) (omega arith)

-- 0x20000000000001, which is not 2 ^ 53
wide_literal : strto_num (b'2' ∷ (replicate 12 b'0' ++ (b'1' ∷ []))) 16 ≡ some (2 ^ 53)
unfolding strto_num add_position to_double position_value
wide_literal = refl

-- bool()
call_of_bool :
    parse_precedence length 9 1 (
      before false []
        (sign token_semicolon)
        (sign token_bool ∷ sign token_left_paren ∷ sign token_right_paren ∷ []))
    ≡ crashed
unfolding parse_precedence parse_from advanced type_ builtin operations operation_then call
    expression_list advance check match_token consume next_token previous_token current_token
call_of_bool = refl

number_of-decimal_example : number_of length (b'4' ∷ b'0' ∷ []) ≡ value (decimal (b'4' ∷ b'0' ∷ []))
number_of-decimal_example =
    number_of-decimal length (b'4' ∷ b'0' ∷ [])
      (omega arith, omega arith, ((omega arith, omega arith), tt))

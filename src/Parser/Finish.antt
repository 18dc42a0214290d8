-- ===== src/Parser/Finish.antt =====
-- cyarg/parser.c: the parts of a statement end, on tokens among which none is `struct`.
use yarg_lang.Prelude.{ℕ, zero, suc, ◌≤◌, arith, Bool, true, false, List}
use yarg_lang.Scanner.Kinds.{TokenType}
use yarg_lang.Parser.Rules.{prec_assignment}
use yarg_lang.Parser.Syntax.{Expr, null, node}
use yarg_lang.Parser.State.{Message, Parse}
use yarg_lang.Parser.Precedence.{type_expression, indexed_type}
use yarg_lang.Parser.Statements.{
  ExpressionKind, Stmt, empty_statement, full_statement, expression_statement, poke_value,
  poke_statement, initialiser, var_declaration, place_alias, else_statement, if_statement,
  while_statement, for_initializer, for_first, clause, for_statement,
}
use yarg_lang.Parser.Declarations.{superclass}
use yarg_lang.Parser.Progress.{
  is_struct, IsStructless, remaining, error_at-fields, advanced-IsStructless, remaining-advanced,
  length-upcoming_lt, remaining-error_at, Kept, Step, Within, Ends, Ends-bind, Ends-then, Ends-pure,
  Ends-if, Ends-zero, Ends-mono, Step-error_at, error-Ends, error_at_current-Ends, check-Ends,
  current_token-Ends, check_type_token-Ends, advance_any-Ends, previous_token-Ends,
  previous_token-then-Ends, match_token-Ends, consume-Ends, crash-Ends, advance-Ends,
  match_token-then-Ends,
}
use yarg_lang.Parser.Ending.{consume_collection_index-Ends, named_variable-Ends}
use yarg_lang.Parser.Shorter.{nothing}

pub ruleset ends = (
  Ends-bind, Ends-then, Ends-pure, Ends-if, match_token-Ends, consume-Ends, check-Ends,
  previous_token-Ends, current_token-Ends, error-Ends, error_at_current-Ends,
)

module _ (parse : ℕ → Parse Expr) (k : ℕ) (inner : (p : ℕ) → Ends nothing k (parse p)) where
  pub indexed_type-Ends : (e : Expr) → Ends nothing k (indexed_type parse e)
  unfolding indexed_type
  indexed_type-Ends null = search ends
  indexed_type-Ends (node n next) =
      consume_collection_index-Ends nothing parse k inner (node n next)

  pub type_expression-Ends : (f : ℕ) → 2 ≤ f → Ends nothing k (type_expression parse f)
  unfolding type_expression
  type_expression-Ends zero h = absurd (omega arith)
  type_expression-Ends (suc zero) h = absurd (omega arith)
  type_expression-Ends (suc (suc f)) h = Ends-bind nothing (check_type_token-Ends nothing k) λ b.
      Ends-if nothing b
        (Ends-then nothing (advance_any-Ends nothing k)
          (previous_token-then-Ends nothing k _ λ t e. rw e (search (ends, indexed_type-Ends))))
        (search ends)

  pub empty_statement-Ends :
      (kind : ExpressionKind) (line : ℕ) (b : Bool)
      → Ends nothing k (empty_statement (parse prec_assignment) kind line b)
  unfolding empty_statement
  empty_statement-Ends kind line b = search ends

  pub full_statement-Ends :
      (kind : ExpressionKind) (line : ℕ) (m : Message)
      → Ends nothing k (full_statement (parse prec_assignment) kind line m)
  unfolding full_statement
  full_statement-Ends kind line m = search (ends, inner)

  pub expression_statement-Ends :
      (kind : ExpressionKind) (b : Bool) (m : Message)
      → Ends nothing k (expression_statement (parse prec_assignment) kind b m)
  unfolding expression_statement
  expression_statement-Ends kind b m = search (ends, empty_statement-Ends, full_statement-Ends)

  pub poke_value-Ends : (e : Expr) → Ends nothing k (poke_value (parse prec_assignment) e)
  unfolding poke_value
  poke_value-Ends e = search (ends, inner) depth 8

  pub poke_statement-Ends : Ends nothing k (poke_statement (parse prec_assignment))
  unfolding poke_statement
  poke_statement-Ends = search (ends, inner, poke_value-Ends) depth 10

  pub initialiser-Ends : Ends nothing k (initialiser (parse prec_assignment))
  unfolding initialiser
  initialiser-Ends = search (ends, inner)

  pub var_declaration-Ends :
      (type : Parse Expr)
      → Ends nothing k type
      → Ends nothing k (var_declaration (parse prec_assignment) type)
  unfolding var_declaration
  var_declaration-Ends type h = search (ends, initialiser-Ends) depth 10

  pub place_alias-Ends : Ends nothing k (place_alias (parse prec_assignment))
  unfolding place_alias
  place_alias-Ends = search (ends, inner) depth 8

  pub else_statement-Ends :
      (type : Parse Expr) (d : Parse Stmt)
      → Ends nothing k d
      → Ends nothing k (else_statement (parse prec_assignment) type d)
  unfolding else_statement
  else_statement-Ends type d h = search ends

  pub if_statement-Ends :
      (type : Parse Expr) (d : Parse Stmt)
      → Ends nothing k d
      → Ends nothing k (if_statement (parse prec_assignment) type d)
  unfolding if_statement
  if_statement-Ends type d h = search (ends, inner, else_statement-Ends) depth 10

  pub while_statement-Ends :
      (type : Parse Expr) (d : Parse Stmt)
      → Ends nothing k d
      → Ends nothing k (while_statement (parse prec_assignment) type d)
  unfolding while_statement
  while_statement-Ends type d h = search (ends, inner) depth 10

  pub for_initializer-Ends :
      (type : Parse Expr) (d : Parse Stmt) (b : Bool)
      → Ends nothing k type
      → Ends nothing k (for_initializer (parse prec_assignment) type d b)
  for_initializer-Ends type d true h = search (ends, var_declaration-Ends)
  for_initializer-Ends type d false h = search (ends, expression_statement-Ends)

  pub for_first-Ends :
      (type : Parse Expr) (d : Parse Stmt)
      → Ends nothing k type
      → Ends nothing k (for_first (parse prec_assignment) type d)
  unfolding for_first
  for_first-Ends type d h = search (ends, for_initializer-Ends)

  pub clause-Ends :
      (type : Parse Expr) (d : Parse Stmt) (t : TokenType) (m : Message)
      → Ends nothing k (clause (parse prec_assignment) type d t m)
  unfolding clause
  clause-Ends type d t m = search (ends, inner)

  pub for_statement-Ends :
      (type : Parse Expr) (d : Parse Stmt)
      → Ends nothing k type
      → Ends nothing k d
      → Ends nothing k (for_statement (parse prec_assignment) type d)
  unfolding for_statement
  for_statement-Ends type d h h' = search (ends, for_first-Ends, clause-Ends) depth 10

  pub superclass-Ends :
      (type : Parse Expr) (f : ℕ) (c d : Parse Stmt) (name : List ℕ)
      → Ends nothing k (superclass parse type f c d name)
  unfolding superclass
  superclass-Ends type f c d name = search (ends, named_variable-Ends, inner) depth 10

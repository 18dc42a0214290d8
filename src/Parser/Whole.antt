-- ===== src/Parser/Whole.antt =====
-- cyarg/parser.c: `parse` ends on every list of tokens in which none is `struct`.
use yarg_lang.Prelude.{ℕ, zero, suc, ◌≤◌, ◌≡◌, refl, arith, Bool, true, false, if_cases, List}
use yarg_lang.Scanner.Kinds.{
  TokenType, token_semicolon, token_identifier, token_left_paren, token_eof, token_print,
  token_poke, token_stmt_error, token_for, token_if, token_yield, token_return, token_while,
  token_left_brace, token_right_brace, token_right_paren, token_less,
}
use yarg_lang.Parser.Kinds.{◌=?◌, starts_statement}
use yarg_lang.Parser.Rules.{prec_assignment}
use yarg_lang.Parser.Syntax.{Expr, null, no_exprs}
use yarg_lang.Parser.State.{
  Message, expect_semicolon_after_value, expect_semicolon_after_expression,
  expect_semicolon_after_error, expect_semicolon_after_yield, expect_semicolon_after_return,
  expect_method_name, expect_paren_after_function, expect_paren_after_parameters, expect_class_name,
  expect_brace_before_class, expect_brace_after_class, Parse, pure, advanced, skip_to_statement,
  synchronize,
}
use yarg_lang.Parser.Statements.{
  ExpressionKind, stmt_expression, stmt_print, stmt_error, stmt_yield, stmt_return, Stmt, no_stmts,
  stmt_then, expression_statement, parameters, block,
}
use yarg_lang.Parser.Declarations.{
  on_match, statement_with, fun_declaration, superclass, methods, class_declaration, recover,
}
use yarg_lang.Parser.Progress.{
  remaining, advanced-IsStructless, Step, Within, Ends, Ends-bind, Ends-then, Ends-pure, Ends-if,
  Ends-zero, Ends-mono, previous_token-Ends, match_token-Ends, consume-Ends,
}
use yarg_lang.Parser.Shorter.{
  nothing, Shortens, Shortens-previous, remaining-advanced_lt, Shortens-consume, Within-later,
  Shortens-mono, Ends-loop, Shortens-check,
}
use yarg_lang.Parser.Finish.{
  ends, expression_statement-Ends, poke_statement-Ends, if_statement-Ends, while_statement-Ends,
  for_statement-Ends, superclass-Ends,
}
use yarg_lang.Parser.Loops.{
  parameters-Ends, block-Ends, block_statement-Ends, expression_statement-Shortens,
  on_match-Shortens, on_match-Ends, parameters-Shortens,
}

module _ (parse : ℕ → Parse Expr) (type : Parse Expr) (f : ℕ) (d o : Parse Stmt) (k : ℕ)
    (le : k ≤ f) (inner : (p : ℕ) → Ends nothing k (parse p))
    (first : Shortens k (parse prec_assignment)) (outer : Shortens k o) where
  pub body-Ends : Ends nothing k (block o f)
  body-Ends = block-Ends o f k le outer

  pub items-Ends : Ends nothing k (parameters (parse prec_assignment) f no_exprs)
  items-Ends = parameters-Ends (parse prec_assignment) f k no_exprs le (inner prec_assignment)

  pub fun_declaration-Ends : (m : Message) → Ends nothing k (fun_declaration parse type f d o m)
  unfolding fun_declaration
  fun_declaration-Ends m = search (ends, body-Ends, items-Ends) depth 12

  pub fun_declaration-Shortens : (m : Message) → Shortens k (fun_declaration parse type f d o m)
  unfolding fun_declaration
  fun_declaration-Shortens m =
      Shortens-consume token_identifier m (search (ends, body-Ends, items-Ends) depth 12) (
        Shortens-previous _ λ name.
          Shortens-consume token_left_paren expect_paren_after_function
            (search (ends, body-Ends, items-Ends) depth 12)
            (Shortens-check token_right_paren expect_paren_after_parameters no_exprs _ _
              (parameters-Shortens (parse prec_assignment) f k no_exprs le (inner prec_assignment)
                first)
              λ a. search (ends, body-Ends) depth 8))

module _ (parse : ℕ → Parse Expr) (type : Parse Expr) (f : ℕ) (d o : Parse Stmt) where
  pub methods-Ends :
      (g k : ℕ)
      → k ≤ f
      → k ≤ g
      → ((p : ℕ) → Ends nothing k (parse p))
      → Shortens k (parse prec_assignment)
      → Shortens k o
      → Ends nothing k (methods parse type f d o g)
  unfolding methods
  methods-Ends g zero le le' inner first outer = Ends-zero nothing
  methods-Ends zero (suc k) le le' inner first outer = absurd (omega arith)
  methods-Ends (suc g) (suc k) le le' inner first outer =
      Ends-loop no_stmts _
        (fun_declaration-Shortens parse type f d o (suc k) le inner first outer expect_method_name)
        λ m.
          Ends-bind nothing
            (methods-Ends g k (omega arith) (omega arith)
              (λ p. Ends-mono nothing (omega arith) (inner p)) (Shortens-mono (omega arith) first)
              (Shortens-mono (omega arith) outer))
            λ ms. Ends-pure nothing (stmt_then m ms)

  pub superclass_clause-Ends :
      (k : ℕ) (name : List ℕ)
      → ((p : ℕ) → Ends nothing k (parse p))
      → Ends nothing k (on_match token_less (superclass parse type f d o name) (pure null))
  unfolding on_match
  superclass_clause-Ends k name inner =
      Ends-bind nothing (match_token-Ends nothing k token_less) λ b.
        Ends-if nothing b (superclass-Ends parse k inner type f d o name) (Ends-pure nothing null)

  pub class_declaration-Ends :
      (k : ℕ)
      → k ≤ f
      → ((p : ℕ) → Ends nothing k (parse p))
      → Shortens k (parse prec_assignment)
      → Shortens k o
      → Ends nothing k (class_declaration parse type f d o)
  unfolding class_declaration
  class_declaration-Ends k le inner first outer =
      let ms = methods-Ends f k le le inner first outer in
      Ends-then nothing (consume-Ends nothing k token_identifier expect_class_name) (
        Ends-bind nothing (previous_token-Ends nothing k) λ name.
          Ends-bind nothing (superclass_clause-Ends k name.text inner) λ super.
            Ends-then nothing (consume-Ends nothing k token_left_brace expect_brace_before_class) (
              Ends-bind nothing ms λ ms'.
                Ends-then nothing
                  (consume-Ends nothing k token_right_brace expect_brace_after_class)
                  (Ends-pure nothing _)))

-- Both: it ends, and consumes a token where one is left.
pub record Finishes {ℓ} {A : Type ℓ} (k : ℕ) (p : Parse A) : Type 0 where
  pub ends : Ends nothing k p
  pub shortens : Shortens k p

pub on_match-Finishes {ℓ} :
    {A : Type ℓ} {k : ℕ} (t : TokenType) {p q : Parse A}
    → (t =? token_eof) ≡ false
    → Ends nothing k p
    → Finishes (suc k) q
    → Finishes (suc k) (on_match t p q)
on_match-Finishes t e hp hq = record {
  ends = on_match-Ends t e hp hq.ends;
  shortens = on_match-Shortens t hp hq.shortens;
}

module _ (parse : ℕ → Parse Expr) (type : Parse Expr) (f : ℕ) (d o : Parse Stmt) (k : ℕ)
    (le : suc k ≤ f) (inner : (p : ℕ) → Ends nothing (suc k) (parse p))
    (first : Shortens (suc k) (parse prec_assignment)) (types : Ends nothing (suc k) type)
    (inside : Ends nothing k d) (outer : Shortens k o) where
  fewer : (p : ℕ) → Ends nothing k (parse p)
  fewer p = Ends-mono nothing (omega arith) (inner p)

  kept :
      (kind : ExpressionKind) (b : Bool) (m : Message)
      → Ends nothing k (expression_statement (parse prec_assignment) kind b m)
  kept = expression_statement-Ends parse k fewer

  pub statement_with-Finishes : Finishes (suc k) (statement_with parse type f d o)
  unfolding statement_with
  statement_with-Finishes =
      on_match-Finishes token_print refl (kept stmt_print true expect_semicolon_after_value) (
        on_match-Finishes token_poke refl (poke_statement-Ends parse k fewer) (
          on_match-Finishes token_stmt_error refl
            (kept stmt_error true expect_semicolon_after_error)
            (on_match-Finishes token_for refl
              (for_statement-Ends parse k fewer type d (Ends-mono nothing (omega arith) types)
                inside)
              (on_match-Finishes token_if refl (if_statement-Ends parse k fewer type d inside) (
                on_match-Finishes token_yield refl
                  (kept stmt_yield false expect_semicolon_after_yield)
                  (on_match-Finishes token_return refl
                    (kept stmt_return false expect_semicolon_after_return)
                    (on_match-Finishes token_while refl
                      (while_statement-Ends parse k fewer type d inside)
                      (on_match-Finishes token_left_brace refl
                        (block_statement-Ends o f k (omega arith) outer)
                        (record {
                          ends =
                              expression_statement-Ends parse (suc k) inner stmt_expression true
                                expect_semicolon_after_expression;
                          shortens =
                              expression_statement-Shortens (parse prec_assignment) k
                                stmt_expression true expect_semicolon_after_expression first;
                        })))))))))

pub skip_to_statement-Ends : (f k : ℕ) → k ≤ f → Ends nothing k (skip_to_statement f)
unfolding skip_to_statement Step
skip_to_statement-Ends f zero le = Ends-zero nothing
skip_to_statement-Ends zero (suc k) le = absurd (omega arith)
skip_to_statement-Ends (suc f) (suc k) le = record {
  runs = λ s h lt.
      if_cases (Within nothing s) (s.current.kind =? token_eof) (λ e. (h, omega arith, tt))
        λ e.
          if_cases (Within nothing s) (s.previous.kind =? token_semicolon)
            (λ e'. (h, omega arith, tt))
            λ e'.
              if_cases (Within nothing s) (starts_statement s.current.kind)
                (λ e''. (h, omega arith, tt))
                λ e''.
                  Within-later s (advanced s) (skip_to_statement f (advanced s))
                    (remaining-advanced_lt s h e)
                    ((skip_to_statement-Ends f k (omega arith)).runs (advanced s)
                      (advanced-IsStructless s h) (omega (arith, remaining-advanced_lt s h e)));
}

module _ (parse : ℕ → Parse Expr) (type : Parse Expr) (f : ℕ) (d o : Parse Stmt) where
  pub recover-Ends : (k : ℕ) → k ≤ f → Ends nothing k (recover parse type f d o f)
  unfolding recover synchronize remaining Step
  recover-Ends k le = record {
    runs = λ s h lt.
        if_cases (Within nothing s) s.panic_mode
          (λ e. (skip_to_statement-Ends f k le).runs (record s { panic_mode = false }) h lt)
          λ e. (h, omega arith, tt);
  }

-- ===== src/Parser/Loops.antt =====
-- cyarg/parser.c: the loops of statements end, and statements consume tokens.
use yarg_lang.Prelude.{
  ℕ, zero, suc, ◌≤◌, ◌≡◌, refl, arith, ltb, Bool, true, false, if◌then◌else◌, List, [], ◌∷◌,
}
use yarg_lang.Scanner.Kinds.{TokenType, token_semicolon, token_eof, token_comma}
use yarg_lang.Parser.Kinds.{◌=?◌}
use yarg_lang.Parser.Rules.{prec_assignment, prefix_rule}
use yarg_lang.Parser.Syntax.{Expr, Exprs}
use yarg_lang.Parser.State.{Message, too_many_parameters, Parse}
use yarg_lang.Parser.Expressions.{exprs_append, exprs_count}
use yarg_lang.Parser.Precedence.{parse_precedence}
use yarg_lang.Parser.Statements.{
  ExpressionKind, Stmt, no_stmts, stmt_then, empty_statement, full_statement, expression_statement,
  parameters, place_alias, place_aliases, place_body, place_declaration, block_statements, block,
  block_statement,
}
use yarg_lang.Parser.Declarations.{on_match, parse}
use yarg_lang.Parser.Progress.{
  Ends, Ends-bind, Ends-then, Ends-pure, Ends-if, Ends-zero, Ends-mono, error-Ends,
  previous_token-Ends, match_token-then-Ends,
}
use yarg_lang.Parser.Total.{parse_precedence-Ends, parse_from-Ends}
use yarg_lang.Parser.Shorter.{
  nothing, Shortens, Shortens-bind, Shortens-current, Shortens-advance, Shortens-match,
  Shortens-mono, Ends-loop,
}
use yarg_lang.Parser.Finish.{ends, place_alias-Ends}

pub parse_precedence-Shortens :
    (strtod_length : List ℕ → ℕ) (k p : ℕ) → Shortens k (parse_precedence strtod_length k p)
unfolding parse_precedence
parse_precedence-Shortens strtod_length zero p = record { runs = λ s h lt e. elim lt [ ] }
parse_precedence-Shortens strtod_length (suc k) p = Shortens-advance (
    Ends-bind nothing (previous_token-Ends nothing k) λ t.
      parse_from-Ends nothing (parse_precedence strtod_length k) strtod_length k p
        (prefix_rule t.kind) λ q. parse_precedence-Ends nothing strtod_length k q)

-- The loops, with fuel for the tokens that are left.
pub parameters-Ends :
    (e : Parse Expr) (f k : ℕ) (items : Exprs)
    → k ≤ f
    → Ends nothing k e
    → Ends nothing k (parameters e f items)
unfolding parameters
parameters-Ends e f zero items le h = Ends-zero nothing
parameters-Ends e zero (suc k) items le h = absurd (omega arith)
parameters-Ends e (suc f) (suc k) items le h = Ends-bind nothing h λ d.
    Ends-then nothing
      (Ends-if nothing (ltb 255 (suc (exprs_count items)))
        (error-Ends nothing (suc k) too_many_parameters) (Ends-pure nothing tt))
      (match_token-then-Ends nothing k token_comma _ refl
        (parameters-Ends e f k (exprs_append items d) (omega arith)
          (Ends-mono nothing (omega arith) h))
        (Ends-pure nothing (exprs_append items d)))

pub block_statements-Ends :
    (d : Parse Stmt) (f k : ℕ) → k ≤ f → Shortens k d → Ends nothing k (block_statements d f)
unfolding block_statements
block_statements-Ends d f zero le h = Ends-zero nothing
block_statements-Ends d zero (suc k) le h = absurd (omega arith)
block_statements-Ends d (suc f) (suc k) le h = Ends-loop no_stmts _ h λ a.
    Ends-bind nothing (block_statements-Ends d f k (omega arith) (Shortens-mono (omega arith) h))
      λ ds. Ends-pure nothing (stmt_then a ds)

pub block-Ends : (d : Parse Stmt) (f k : ℕ) → k ≤ f → Shortens k d → Ends nothing k (block d f)
unfolding block
block-Ends d f k le h = Ends-bind nothing (block_statements-Ends d f k le h) λ ds. search ends

pub block_statement-Ends :
    (d : Parse Stmt) (f k : ℕ) → k ≤ f → Shortens k d → Ends nothing k (block_statement d f)
unfolding block_statement
block_statement-Ends d f k le h =
    Ends-bind nothing (previous_token-Ends nothing k)
      λ t. Ends-bind nothing (block-Ends d f k le h) λ ds. search ends

module _ (e : Parse Expr) where
  pub place_alias-Shortens : (k : ℕ) → Shortens k e → Shortens k (place_alias e)
  unfolding place_alias
  place_alias-Shortens k h = Shortens-bind _ h λ d. search ends depth 8

  pub place_aliases-Ends : (f k : ℕ) → k ≤ f → Shortens k e → Ends nothing k (place_aliases e f)
  unfolding place_aliases
  place_aliases-Ends f zero le h = Ends-zero nothing
  place_aliases-Ends zero (suc k) le h = absurd (omega arith)
  place_aliases-Ends (suc f) (suc k) le h = Ends-loop [] _ (place_alias-Shortens (suc k) h) λ a.
      Ends-bind nothing (place_aliases-Ends f k (omega arith) (Shortens-mono (omega arith) h))
        λ as'. Ends-pure nothing (a ∷ as')

  pub full_statement-Shortens :
      (k : ℕ) (kind : ExpressionKind) (line : ℕ) (m : Message)
      → Shortens k e
      → Shortens k (full_statement e kind line m)
  unfolding full_statement
  full_statement-Shortens k kind line m h = Shortens-bind _ h λ d. search ends

  pub expression_statement-Shortens :
      (k : ℕ) (kind : ExpressionKind) (b : Bool) (m : Message)
      → Shortens (suc k) e
      → Shortens (suc k) (expression_statement e kind b m)
  unfolding expression_statement empty_statement
  expression_statement-Shortens k kind b m h = Shortens-current _ λ t e'.
      Shortens-match token_semicolon _ (search ends)
        (full_statement-Shortens (suc k) kind t.at_line m h)

pub on_match-Shortens {ℓ} :
    {A : Type ℓ} {k : ℕ} (t : TokenType) {p q : Parse A}
    → Ends nothing k p
    → Shortens (suc k) q
    → Shortens (suc k) (on_match t p q)
unfolding on_match
on_match-Shortens t {p} {q} hp hq = Shortens-match t (λ b. if b then p else q) hp hq

pub on_match-Ends {ℓ} :
    {A : Type ℓ} {k : ℕ} (t : TokenType) {p q : Parse A}
    → (t =? token_eof) ≡ false
    → Ends nothing k p
    → Ends nothing (suc k) q
    → Ends nothing (suc k) (on_match t p q)
unfolding on_match
on_match-Ends {k} t {p} {q} e hp hq =
    match_token-then-Ends nothing k t (λ b. if b then p else q) e hp hq

pub place_declaration-Ends :
    (parse : ℕ → Parse Expr) (f k : ℕ)
    → k ≤ f
    → ((p : ℕ) → Ends nothing k (parse p))
    → Shortens k (parse prec_assignment)
    → Ends nothing k (place_declaration (parse prec_assignment) f)
unfolding place_declaration place_body
place_declaration-Ends parse f k le inner first = search (ends, inner, place_body-Ends) depth 10
  where
    place_body-Ends : (b : Bool) → Ends nothing k (place_body (parse prec_assignment) f b)
    place_body-Ends true =
        Ends-bind nothing (place_aliases-Ends (parse prec_assignment) f k le first) λ a. search ends
    place_body-Ends false = Ends-bind nothing (place_alias-Ends parse k inner) λ a. search ends

pub parameters-Shortens :
    (e : Parse Expr) (f k : ℕ) (items : Exprs)
    → k ≤ f
    → Ends nothing k e
    → Shortens k e
    → Shortens k (parameters e f items)
unfolding parameters
parameters-Shortens e f zero items le h first = record { runs = λ s h' lt e'. elim lt [ ] }
parameters-Shortens e zero (suc k) items le h first = absurd (omega arith)
parameters-Shortens e (suc f) (suc k) items le h first = Shortens-bind _ first λ d.
    Ends-then nothing
      (Ends-if nothing (ltb 255 (suc (exprs_count items)))
        (error-Ends nothing (suc k) too_many_parameters) (Ends-pure nothing tt))
      (match_token-then-Ends nothing k token_comma _ refl
        (parameters-Ends e f k (exprs_append items d) (omega arith)
          (Ends-mono nothing (omega arith) h))
        (Ends-pure nothing (exprs_append items d)))

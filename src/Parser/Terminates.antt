-- ===== src/Parser/Terminates.antt =====
-- cyarg/parser.c: `parse` ends on every list of tokens in which none is `struct`.
use yarg_lang.Prelude.{
  ℕ, zero, suc, ◌+◌, ◌≤◌, ◌<◌, ◌≡◌, refl, arith, true, false, Bool-cases, inl, inr, List, All,
  length,
}
use yarg_lang.Scanner.Kinds.{
  token_semicolon, token_identifier, token_eof, token_class, token_fun, token_var, token_place,
}
use yarg_lang.Scanner.Tokens.{Token}
use yarg_lang.Parser.Kinds.{◌=?◌, is_type_token}
use yarg_lang.Parser.Rules.{prec_assignment}
use yarg_lang.Parser.Syntax.{Expr}
use yarg_lang.Parser.State.{
  expect_variable_name, expect_semicolon_after_variable, expect_function_name, Parser, Parse, ◌>>=◌,
  ◌>>◌, pure, advanced, advance, match_token, consume, check_type_token, previous_token,
}
use yarg_lang.Parser.Precedence.{type_expression, declared_type, parse_precedence}
use yarg_lang.Parser.Statements.{
  Stmt, var_stmt, stmt_then, initialiser, var_declaration, place_declaration,
}
use yarg_lang.Parser.Declarations.{
  on_match, starts_variable, other_declaration, declaration_with, statement, declaration,
  declarations, parse, new_parser,
}
use yarg_lang.Parser.Progress.{
  is_struct, IsStructless, remaining, advanced-IsStructless, remaining-advanced, Within, Ends,
  Ends-bind, Ends-then, Ends-pure, Ends-if, Ends-zero, Ends-mono, check_type_token-Ends,
  previous_token-Ends, previous_token-then-Ends, match_token-Ends, consume-Ends,
}
use yarg_lang.Parser.Total.{parse_precedence-Ends}
use yarg_lang.Parser.Shorter.{
  nothing, Shorter, Shortens, Shorter-Within, Shortens-bind, remaining-advanced_lt,
  Shortens-advance, Shortens-mono,
}
use yarg_lang.Parser.Finish.{
  ends, indexed_type-Ends, type_expression-Ends, initialiser-Ends, var_declaration-Ends,
}
use yarg_lang.Parser.Loops.{parse_precedence-Shortens, place_declaration-Ends}
use yarg_lang.Parser.Progress.{Step-advanced}
use yarg_lang.Parser.Shorter.{Within-and_then_lt, Shorter-and_then}
use yarg_lang.Parser.Whole.{
  Finishes, on_match-Finishes, statement_with-Finishes, class_declaration-Ends,
  fun_declaration-Ends, recover-Ends,
}

module _ (parse : ℕ → Parse Expr) (f k : ℕ) (d o : Parse Stmt) (le : suc k ≤ f) (le' : 2 ≤ f)
    (inner : (p : ℕ) → Ends nothing (suc k) (parse p))
    (first : Shortens (suc k) (parse prec_assignment)) (inside : Finishes (suc k) d) where
  types : Ends nothing (suc k) (type_expression parse f)
  types = type_expression-Ends parse (suc k) inner f le'

  var_declaration-type :
      (n : ℕ)
      → n ≤ suc k
      → Ends nothing n (var_declaration (parse prec_assignment) (type_expression parse f))
  var_declaration-type n h =
      var_declaration-Ends parse n (λ p. Ends-mono nothing h (inner p)) (type_expression parse f)
        (Ends-mono nothing h types)

  place_or_statement-Finishes :
      Finishes (suc k) (on_match token_place (place_declaration (parse prec_assignment) f) d)
  place_or_statement-Finishes =
      on_match-Finishes token_place refl
        (place_declaration-Ends parse f k (omega arith)
          (λ p. Ends-mono nothing (omega arith) (inner p)) (Shortens-mono (omega arith) first))
        inside

  starts_variable-Ends :
      Ends nothing (suc k) (starts_variable parse (type_expression parse f) f d o)
  unfolding starts_variable on_match
  starts_variable-Ends =
      Ends-bind nothing (match_token-Ends nothing (suc k) token_var)
        λ b. Ends-if nothing b (Ends-pure nothing true) (check_type_token-Ends nothing (suc k))

  other_declaration-Ends :
      Ends nothing (suc k) (other_declaration parse (type_expression parse f) f d o)
  unfolding other_declaration
  other_declaration-Ends = Ends-bind nothing starts_variable-Ends λ b.
      Ends-if nothing b (var_declaration-type (suc k) (omega arith))
        place_or_statement-Finishes.ends

  declared_type-Shortens : (n : ℕ) → 1 ≤ n → Shortens (suc k) (declared_type parse n)
  unfolding declared_type
  declared_type-Shortens zero h = absurd (omega arith)
  declared_type-Shortens (suc n) h = Shortens-advance (
      previous_token-then-Ends nothing k _ λ t e.
        rw e (
          search
            (ends, indexed_type-Ends parse k (λ p. Ends-mono nothing (omega arith) (inner p)))))

  type_expression-Shorter :
      (s : Parser)
      → IsStructless s
      → remaining s < suc k
      → (s.current.kind =? token_eof) ≡ false
      → is_type_token s.current.kind ≡ true
      → (n : ℕ) → 2 ≤ n
      → Shorter s (type_expression parse n s)
  unfolding type_expression check_type_token
  type_expression-Shorter s h lt e e' zero le'' = absurd (omega arith)
  type_expression-Shorter s h lt e e' (suc n) le'' =
      rw e' ((declared_type-Shortens n (omega arith)).runs s h lt e)

  -- What `var_declaration` does behind the type.
  named_variable_type-Ends :
      (e : Expr)
      → Ends nothing (suc k) (do
        consume token_identifier expect_variable_name
        name ← previous_token
        initial ← initialiser (parse prec_assignment)
        consume token_semicolon expect_semicolon_after_variable
        pure (var_stmt name.at_line name.text e initial))
  named_variable_type-Ends e =
      let initial = initialiser-Ends parse (suc k) inner in
      Ends-then nothing (consume-Ends nothing (suc k) token_identifier expect_variable_name) (
        Ends-bind nothing (previous_token-Ends nothing (suc k))
          λ name. Ends-bind nothing initial λ initial'. search ends)

  other_declaration-Shortens :
      Shortens (suc k) (other_declaration parse (type_expression parse f) f d o)
  unfolding other_declaration starts_variable on_match match_token check_type_token var_declaration
  other_declaration-Shortens = record {
    runs = λ s h lt e. elim (Bool-cases (s.current.kind =? token_var)) [
      | inl e' ↦
          let less = remaining-advanced_lt s h e in
          rw e' (
            Shorter-Within s (advanced s)
              (var_declaration (parse prec_assignment) (type_expression parse f) (advanced s)) less
              ((var_declaration-type k (omega arith)).runs (advanced s) (advanced-IsStructless s h)
                (omega (arith, less))))
      | inr e' ↦ elim (Bool-cases (is_type_token s.current.kind)) [
        | inl e'' ↦ rw e' (
            rw e'' (
              Shorter-and_then s (suc k) (type_expression parse f s) _ lt
                (type_expression-Shorter s h lt e e'' f le') named_variable_type-Ends))
        | inr e'' ↦ rw e' (rw e'' (place_or_statement-Finishes.shortens.runs s h lt e))
      ]
    ];
  }

  other_declaration-Finishes :
      Finishes (suc k) (other_declaration parse (type_expression parse f) f d o)
  other_declaration-Finishes = record {
    ends = other_declaration-Ends;
    shortens = other_declaration-Shortens;
  }

  declaration_with-Finishes :
      Shortens k o → Finishes (suc k) (declaration_with parse (type_expression parse f) f d o)
  unfolding declaration_with
  declaration_with-Finishes outer =
      let fewer = λ (p : ℕ). Ends-mono nothing {k = k} {k' = suc k} (omega arith) (inner p) in
      let first' = Shortens-mono {k = k} {k' = suc k} (omega arith) first in
      let type = type_expression parse f in
      let here =
        on_match-Finishes token_class refl
          (class_declaration-Ends parse type f d o k (omega arith) fewer first' outer)
          (on_match-Finishes token_fun refl
            (fun_declaration-Ends parse type f d o k (omega arith) fewer first' outer
              expect_function_name)
            other_declaration-Finishes) in
      let after = λ (a : Stmt).
        Ends-then nothing (recover-Ends parse type f d o (suc k) le) (Ends-pure nothing a) in
      record {
        ends = Ends-bind nothing here.ends after;
        shortens = Shortens-bind _ here.shortens after;
      }

zero-Finishes {ℓ} : {A : Type ℓ} {p : Parse A} → Finishes zero p
zero-Finishes = record {
  ends = Ends-zero nothing;
  shortens = record { runs = λ s h lt e. absurd (omega arith) };
}

-- Fuel for a statement of `k` tokens, and one more for a declaration of as many.
statements-Finish :
    (strtod_length : List ℕ → ℕ) (f k : ℕ)
    → (k + k < f → Finishes k (statement strtod_length f))
      × (suc (k + k) < f → Finishes k (declaration strtod_length f))
unfolding statement declaration
statements-Finish strtod_length f zero = (λ h. zero-Finishes, λ h. zero-Finishes)
statements-Finish strtod_length zero (suc k) =
    (λ h. absurd (omega arith), λ h. absurd (omega arith))
statements-Finish strtod_length (suc f) (suc k) =
    let parse = parse_precedence strtod_length f in
    let type = type_expression parse f in
    let s = statement strtod_length f in
    let d = declaration strtod_length f in
    let inside = statements-Finish strtod_length f k in
    let here = statements-Finish strtod_length f (suc k) in
    let inner = λ (h : suc k ≤ f) (p : ℕ).
      Ends-mono nothing h (parse_precedence-Ends nothing strtod_length f p) in
    let first = λ (h : suc k ≤ f).
      Shortens-mono h (parse_precedence-Shortens strtod_length f prec_assignment) in
    (
      λ h.
          let le : suc k ≤ f = omega arith in
          statement_with-Finishes parse type f s d k le (inner le) (first le)
            (type_expression-Ends parse (suc k) (inner le) f (omega arith))
            (inside.0 (omega arith)).ends (inside.1 (omega arith)).shortens,
      λ h.
          let le : suc k ≤ f = omega arith in
          declaration_with-Finishes parse f k s d le (omega arith) (inner le) (first le)
            (here.0 (omega arith)) (inside.1 (omega arith)).shortens,
    )

declarations-Ends :
    (d : Parse Stmt) (f k : ℕ) → k ≤ f → Shortens k d → Ends nothing k (declarations d f)
unfolding declarations on_match match_token
declarations-Ends d f zero le h = Ends-zero nothing
declarations-Ends d zero (suc k) le h = absurd (omega arith)
declarations-Ends d (suc f) (suc k) le first = record {
  runs = λ s h lt. elim (Bool-cases (s.current.kind =? token_eof)) [
    | inl e ↦ rw e (Step-advanced nothing s h)
    | inr e ↦ rw e (
        Within-and_then_lt s k (d s) _ lt (first.runs s h lt e) λ a.
          Ends-bind nothing
            (declarations-Ends d f k (omega arith) (Shortens-mono (omega arith) first))
            λ ds. Ends-pure nothing (stmt_then a ds))
  ];
}

-- On tokens among which none is `struct`, with fuel above twice their number and three more, `parse`
-- on a new parser does not run out of fuel, whatever else the tokens are: it returns, or it crashes,
-- as where it follows a NULL. Where it returns, no more tokens are left than after the first
-- `advance`, and none that the parser holds or has still to read is `struct`.
pub parse-Within :
    (strtod_length : List ℕ → ℕ) (fuel : ℕ) (tokens : List Token)
    → All (λ t. is_struct t ≡ false) tokens
    → length tokens + length tokens + 3 < fuel
    → Within nothing (advanced (new_parser tokens)) (parse strtod_length fuel (new_parser tokens))
unfolding parse advance new_parser
parse-Within strtod_length fuel tokens h enough =
    let s = new_parser tokens in
    let h' : IsStructless s = (refl, refl, h) in
    let k = suc (length tokens) in
    (declarations-Ends (declaration strtod_length fuel) fuel k (omega arith)
        ((statements-Finish strtod_length fuel k).1 (omega arith)).shortens).runs
      (advanced s) (advanced-IsStructless s h') (omega (arith, remaining-advanced s h'))

-- ===== src/Parser/State.antt =====
-- cyarg/parser.c: the state of the parser, its reports of errors, and the functions that read tokens.
-- A function of the parser takes its state and returns a value with the new state; it crashes where
-- the source writes through a null pointer. `upcoming` is what the scanner is still to give: after
-- its last token it gives TOKEN_EOF.
use yarg_lang.Prelude.{ℕ, zero, suc, Bool, true, false, List, [], ◌∷◌, ◌++◌, if◌then◌else◌}
use yarg_lang.Scanner.Kinds.{TokenType, token_eof, token_error, token_semicolon}
use yarg_lang.Scanner.Tokens.{Token}
use yarg_lang.Parser.Kinds.{◌=?◌, is_type_token, starts_statement}

-- The reports of the parser, and that of the scanner.
pub data Message : Type 0 where
  expect_right_paren_after_arguments too_many_arguments too_many_initialisers : Message
  expect_dot_after_super expect_superclass_method expect_property_name : Message
  expect_bracket_after_expression expect_bracket_initialising expect_name_of_field : Message
  expect_semicolon_after_field expect_brace_to_start_struct expect_brace_after_fields : Message
  collection_must_have_size expect_bracket_after_array_type expect_paren_after_expression : Message
  one_decimal_point one_exponent minus_after_exponent misformed_float misformed_number : Message
  reserved_word expect_expression invalid_assignment_target : Message
  expression_expected expect_semicolon_after_value expect_semicolon_after_expression : Message
  expect_semicolon_after_error expect_semicolon_after_yield expect_semicolon_after_return : Message
  expect_comma_after_location expect_comma_after_offset invalid_type : Message
  expect_variable_name expect_semicolon_after_variable expect_brace_after_block : Message
  expect_paren_after_if expect_paren_after_while expect_paren_after_for : Message
  expect_paren_after_condition expect_semicolon_after_condition expect_paren_after_clauses : Message
  expect_function_name expect_method_name expect_paren_after_function too_many_parameters : Message
  expect_paren_after_parameters expect_brace_before_body expect_class_name : Message
  expect_superclass_name own_superclass expect_brace_before_class expect_brace_after_class : Message
  expect_place_name expect_semicolon_after_place expect_brace_after_places : Message
  from_scanner : List ℕ → Message

-- Where a report says that its token stands.
pub data Place : Type 0 where
  at_end nowhere : Place
  at_text : List ℕ → Place

pub record Report : Type 0 where
  pub line : ℕ
  pub place : Place
  pub message : Message

pub record Parser : Type 0 where
  pub current : Token
  pub previous : Token
  pub panic_mode : Bool
  pub upcoming : List Token
  pub errors : List Report

pub data Outcome {ℓ} (A : Type ℓ) : Type ℓ where
  returned : A → Outcome A
  crashed out_of_fuel : Outcome A

abbrev pub Parse {ℓ} : Type ℓ → Type ℓ
Parse A = Parser → Outcome (A × Parser)

module _ {ℓ κ} {A : Type ℓ} {B : Type κ} where
  abbrev pub and_then : Outcome (A × Parser) → (A → Parse B) → Outcome (B × Parser)
  and_then (returned (a, s)) f = f a s
  and_then crashed f = crashed
  and_then out_of_fuel f = out_of_fuel

  infixl 1 ◌>>=◌ ◌>>◌
  abbrev pub ◌>>=◌ : Parse A → (A → Parse B) → Parse B
  p >>= f = λ s. and_then (p s) f

  abbrev pub ◌>>◌ : Parse A → Parse B → Parse B
  p >> q = λ s. and_then (p s) λ _. q

abbrev pub pure {ℓ} : {A : Type ℓ} → A → Parse A
pure a s = returned (a, s)

abbrev pub crash {ℓ} : {A : Type ℓ} → Parse A
crash s = crashed

abbrev pub exhausted {ℓ} : {A : Type ℓ} → Parse A
exhausted s = out_of_fuel

unfoldable pub place_of : Token → Place
place_of t =
    if t.kind =? token_eof
    then at_end
    else if t.kind =? token_error
    then nowhere
    else at_text t.text

abbrev pub report_of : Token → Message → Report
report_of t m = record { line = t.at_line; place = place_of t; message = m }

unfoldable pub error_at : Token → Message → Parser → Parser
error_at t m s =
    if s.panic_mode
    then s
    else record s { panic_mode = true; errors = s.errors ++ (report_of t m ∷ []) }

unfoldable pub error : Message → Parse (Unit {0})
error m s = returned (tt, error_at s.previous m s)

unfoldable pub error_at_current : Message → Parse (Unit {0})
error_at_current m s = returned (tt, error_at s.current m s)

abbrev pub eof_token : Token
eof_token = record { kind = token_eof; text = []; at_line = 0 }

-- The loop of `advance`, which reports the tokens of errors and goes past them.
unfoldable pub next_token : List Token → Parser → Parser
next_token [] s = record s { current = eof_token; upcoming = [] }
next_token (t ∷ r) s =
    let read : Parser = record s { current = t; upcoming = r } in
    let further = next_token r (error_at t (from_scanner t.text) read) in
    if t.kind =? token_error then further else read

unfoldable pub advanced : Parser → Parser
advanced s = next_token s.upcoming (record s { previous = s.current })

unfoldable pub advance : Parse (Unit {0})
advance s = returned (tt, advanced s)

unfoldable pub check : TokenType → Parse Bool
check t s = returned (s.current.kind =? t, s)

unfoldable pub match_token : TokenType → Parse Bool
match_token t s = if s.current.kind =? t then returned (true, advanced s) else returned (false, s)

unfoldable pub consume : TokenType → Message → Parse (Unit {0})
consume t m s =
    if s.current.kind =? t then returned (tt, advanced s) else returned (tt, error_at s.current m s)

unfoldable pub check_type_token : Parse Bool
check_type_token s = returned (is_type_token s.current.kind, s)

unfoldable pub previous_token : Parse Token
previous_token s = returned (s.previous, s)

unfoldable pub current_token : Parse Token
current_token s = returned (s.current, s)

-- The loop of `synchronize`; the fuel bounds the tokens it goes past.
unfoldable pub skip_to_statement : ℕ → Parser → Outcome (Unit {0} × Parser)
skip_to_statement zero s = out_of_fuel
skip_to_statement (suc fuel) s =
    let further = skip_to_statement fuel (advanced s) in
    if s.current.kind =? token_eof
    then returned (tt, s)
    else if s.previous.kind =? token_semicolon
    then returned (tt, s)
    else if starts_statement s.current.kind
    then returned (tt, s)
    else further

unfoldable pub synchronize : ℕ → Parse (Unit {0})
synchronize fuel s = skip_to_statement fuel (record s { panic_mode = false })

-- ===== src/Scanner/Tokens.antt =====
-- cyarg/scanner.c: the scanner, and `scanToken`. The text of `source` is cut in three: what was read
-- before `start`, which no function reads again, `lexeme` from `start` to `current`, and `rest` from
-- `current` to the terminating 0, at which a read of `rest` gives 0. `none` is a read past that 0.
pub mod Cut
pub mod Blank
pub mod Scan
pub mod Total
use yarg_lang.Prelude.{
  ℕ, zero, suc, ◌+◌, Bool, true, false, ◌&&◌, ◌||◌, not, List, [], ◌∷◌, ◌++◌, Option, none, some,
  ◌==◌, if◌then◌else◌, get_or, length,
}
use yarg_lang.Scanner.Kinds.{
  TokenType, token_left_paren, token_right_paren, token_left_brace, token_right_brace,
  token_left_square_bracket, token_right_square_bracket, token_comma, token_dot, token_minus,
  token_plus, token_semicolon, token_slash, token_star, token_at, token_bar, token_amp, token_caret,
  token_percent, token_colon, token_bang, token_bang_equal, token_equal, token_equal_equal,
  token_greater, token_greater_equal, token_right_shift, token_less, token_less_equal,
  token_left_shift, token_address, token_string, token_number, token_error, token_eof,
}
use yarg_lang.Scanner.Chars.{is_alpha, is_digit, is_radix, is_radix_digit, radix_type}
use yarg_lang.Scanner.Messages.{expected_digit, unterminated_string, unexpected_character}
use yarg_lang.Scanner.Keywords.{identifier_type}

pub record Scanner : Type 0 where
  pub lexeme : List ℕ
  pub rest : List ℕ
  pub line : ℕ

-- `text` is what `start` and `length` delimit: the message, in a token of an error.
pub record Token : Type 0 where
  pub kind : TokenType
  pub text : List ℕ
  pub at_line : ℕ

pub new_scanner : List ℕ → Scanner
new_scanner source = record { lexeme = []; rest = source; line = 1 }

abbrev pub peek : Scanner → ℕ
peek s = get_or s.rest 0 0

abbrev pub is_at_end : Scanner → Bool
is_at_end s = peek s == 0

abbrev pub peek_next : Scanner → ℕ
peek_next s = if is_at_end s then 0 else get_or s.rest 1 0

infixl 1 ◌>>=◌
abbrev pub ◌>>=◌ : {A B : Type 0} → Option A → (A → Option B) → Option B
none >>= f = none
some a >>= f = f a

-- To step over the terminating 0 is to read past it.
abbrev pub advance_at : List ℕ → List ℕ → ℕ → Option Scanner
advance_at lexeme [] line = none
advance_at lexeme (c ∷ r) line =
    if c == 0 then none else some (record { lexeme = lexeme ++ (c ∷ []); rest = r; line = line })

unfoldable pub advance : Scanner → Option Scanner
advance s = advance_at s.lexeme s.rest s.line

-- `while (p(peek(scanner))) advance(scanner);` for a test that 0 fails
unfoldable pub advance_while : (ℕ → Bool) → List ℕ → List ℕ → ℕ → Scanner
advance_while p lexeme [] line = record { lexeme = lexeme; rest = []; line = line }
advance_while p lexeme (c ∷ r) line =
    let further = advance_while p (lexeme ++ (c ∷ [])) r line in
    if p c then further else record { lexeme = lexeme; rest = c ∷ r; line = line }

unfoldable pub while_digits : ℕ → Scanner → Scanner
while_digits radix s = advance_while (λ c. is_radix_digit c radix) s.lexeme s.rest s.line

unfoldable pub make_token : Scanner → TokenType → Token × Scanner
make_token s t = (record { kind = t; text = s.lexeme; at_line = s.line }, s)

unfoldable pub error_token : Scanner → List ℕ → Token × Scanner
error_token s message = (record { kind = token_error; text = message; at_line = s.line }, s)

-- A comment goes until the end of the line.
unfoldable pub skip_comment : List ℕ → List ℕ
skip_comment [] = []
skip_comment (c ∷ r) = if c == b'\n' || c == 0 then c ∷ r else skip_comment r

-- The fuel bounds the characters skipped.
unfoldable pub skip_whitespace : ℕ → List ℕ → ℕ → List ℕ × ℕ
skip_whitespace zero rest line = (rest, line)
skip_whitespace (suc fuel) [] line = ([], line)
skip_whitespace (suc fuel) (c ∷ r) line =
    if c == b' ' || (c == b'\r' || c == b'\t')
    then skip_whitespace fuel r line
    else if c == b'\n'
    then skip_whitespace fuel r (line + 1)
    else if c == b'/' && get_or r 0 0 == b'/'
    then skip_whitespace fuel (skip_comment (c ∷ r)) line
    else (c ∷ r, line)

unfoldable pub identifier : Scanner → Token × Scanner
identifier s =
    let s' = advance_while (λ c. is_alpha c || is_digit c) s.lexeme s.rest s.line in
    make_token s' (identifier_type s'.lexeme)

-- `if (b) advance(scanner);`
abbrev pub advance_if : Bool → Scanner → Option Scanner
advance_if b s = if b then advance s else some s

-- The exponent of a number, up to its digits.
abbrev pub exponent : Scanner → Option Scanner
exponent s = do e ← advance s; advance_if (peek e == b'-') e

abbrev pub has_point : ℕ → Scanner → Bool
has_point radix s = radix == 10 && (peek s == b'.' && is_digit (peek_next s))

abbrev pub has_exponent : ℕ → Scanner → Bool
has_exponent radix s =
    radix == 10
    && ((peek s == b'e' || peek s == b'E') && (peek_next s == b'-' || is_digit (peek_next s)))

-- The digits, and the decimal point behind them.
abbrev pub whole_part : ℕ → Scanner → Option Scanner
whole_part radix s = advance_if (has_point radix (while_digits radix s)) (while_digits radix s)

-- More digits, and the start of the exponent.
abbrev pub fraction_part : ℕ → Scanner → Option Scanner
fraction_part radix s =
    let s' = while_digits radix s in if has_exponent radix s' then exponent s' else some s'

abbrev pub number_end : ℕ → Scanner → Option (Token × Scanner)
number_end radix s = some (make_token (while_digits radix s) token_number)

-- The part of `number` after the radix.
unfoldable pub number_digits : ℕ → Scanner → Option (Token × Scanner)
number_digits radix s = whole_part radix s >>= (λ s'. fraction_part radix s' >>= number_end radix)

-- The part of `number` after the letter of a radix.
abbrev pub radix_digits : ℕ → Scanner → Option (Token × Scanner)
radix_digits radix s =
    if not (is_radix_digit (peek s) radix)
    then some (error_token s expected_digit)
    else number_digits radix s

unfoldable pub number : Scanner → Option (Token × Scanner)
number s =
    if is_radix (peek s)
    then (advance s >>= radix_digits (radix_type (peek s)))
    else number_digits 10 s

unfoldable pub address : Scanner → Option (Token × Scanner)
address s = do s' ← advance s; some (make_token (while_digits 16 s') token_address)

-- A newline is counted also after a backslash; `none` where the text ends just after one.
unfoldable pub string_body : List ℕ → List ℕ → ℕ → Option Scanner
string_body lexeme [] line = some (record { lexeme = lexeme; rest = []; line = line })
string_body lexeme (c ∷ []) line =
    if c == b'\\'
    then none
    else if c == b'"' || c == 0
    then some (record { lexeme = lexeme; rest = c ∷ []; line = line })
    else some (record {
      lexeme = lexeme ++ (c ∷ []);
      rest = [];
      line = if c == b'\n' then line + 1 else line;
    })
string_body lexeme (c ∷ d ∷ r) line =
    let plain = string_body (lexeme ++ (c ∷ [])) (d ∷ r) (if c == b'\n' then line + 1 else line) in
    let escaped = string_body (lexeme ++ (c ∷ d ∷ [])) r (if d == b'\n' then line + 1 else line) in
    if c == b'"' || c == 0
    then some (record { lexeme = lexeme; rest = c ∷ d ∷ r; line = line })
    else if c == b'\\'
    then (if d == 0 then none else escaped)
    else plain

unfoldable pub string_end : Scanner → Option (Token × Scanner)
string_end s =
    if is_at_end s
    then some (error_token s unterminated_string)
    else (do s' ← advance s; some (make_token s' token_string))

unfoldable pub string : Scanner → Option (Token × Scanner)
string s = string_body s.lexeme s.rest s.line >>= string_end

-- A token of two characters, the second of which is the next one.
abbrev pub wide_token : Scanner → TokenType → Option (Token × Scanner)
wide_token s t = do s' ← advance s; some (make_token s' t)

-- The characters that are a token whatever follows them.
unfoldable pub one_character : ℕ → Option TokenType
one_character c =
    if c == b'('
    then some token_left_paren
    else if c == b')'
    then some token_right_paren
    else if c == b'{'
    then some token_left_brace
    else if c == b'}'
    then some token_right_brace
    else if c == b'['
    then some token_left_square_bracket
    else if c == b']'
    then some token_right_square_bracket
    else if c == b';'
    then some token_semicolon
    else if c == b','
    then some token_comma
    else if c == b'.'
    then some token_dot
    else if c == b'-'
    then some token_minus
    else if c == b'+'
    then some token_plus
    else if c == b'/'
    then some token_slash
    else if c == b'*'
    then some token_star
    else if c == b'|'
    then some token_bar
    else if c == b'&'
    then some token_amp
    else if c == b'^'
    then some token_caret
    else if c == b'%'
    then some token_percent
    else if c == b':'
    then some token_colon
    else none

-- The cases of the `switch` of `scanToken` that look at the next character.
unfoldable pub symbol : ℕ → Scanner → Option (Token × Scanner)
symbol c s =
    if c == b'@'
    then (if peek s == b'x' || peek s == b'X' then address s else some (make_token s token_at))
    else if c == b'!'
    then (if peek s == b'=' then wide_token s token_bang_equal else some (make_token s token_bang))
    else if c == b'='
    then (if peek s == b'='
        then wide_token s token_equal_equal
        else some (make_token s token_equal))
    else if c == b'<'
    then (if peek s == b'<'
        then wide_token s token_left_shift
        else if peek s == b'='
        then wide_token s token_less_equal
        else some (make_token s token_less))
    else if c == b'>'
    then (if peek s == b'>'
        then wide_token s token_right_shift
        else if peek s == b'='
        then wide_token s token_greater_equal
        else some (make_token s token_greater))
    else if c == b'"'
    then string s
    else some (error_token s unexpected_character)

-- `scanToken` after the first character of the token.
unfoldable pub scan_from : ℕ → Scanner → Option (Token × Scanner)
scan_from c s =
    if is_alpha c
    then some (identifier s)
    else if is_digit c
    then number s
    else elim (one_character c) [ some t ↦ some (make_token s t) | none ↦ symbol c s ]

unfoldable pub scan_token : Scanner → Option (Token × Scanner)
scan_token s =
    let skipped = skip_whitespace (length s.rest) s.rest s.line in
    let start : Scanner = record { lexeme = []; rest = skipped.0; line = skipped.1 } in
    if is_at_end start
    then some (make_token start token_eof)
    else (advance start >>= scan_from (peek start))

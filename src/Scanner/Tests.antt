-- ===== src/Scanner/Tests.antt =====
-- The scanner of cyarg/scanner.c on short texts.
use yarg_lang.Prelude.{ℕ, ◌≡◌, refl, List, [], ◌∷◌, none, some, arith}
use yarg_lang.Scanner.Kinds.{token_identifier, token_var, token_cpeek, token_this}
use yarg_lang.Scanner.Chars.{is_alpha, is_digit}
use yarg_lang.Scanner.Keywords.{identifier_type, check_keyword, word_c, word_t, word_v}
use yarg_lang.Scanner.Keywords.Sound.Word.{Sound}
use yarg_lang.Scanner.Keywords.Sound.{identifier_type-Sound}
use yarg_lang.Scanner.Tokens.{
  Scanner, Token, scan_token, scan_from, identifier, advance, advance_while, make_token,
  skip_whitespace, string_body, string,
}
use yarg_lang.Scanner.Tokens.Blank.{Skipped, skip_whitespace-Skipped}
use yarg_lang.Scanner.Tokens.Scan.{Scanned, scan_token-Scanned}

-- " var x"
abbrev text : List ℕ
text = b' ' ∷ b'v' ∷ b'a' ∷ b'r' ∷ b' ' ∷ b'x' ∷ []

abbrev at_start : Scanner
at_start = record { lexeme = []; rest = text; line = 1 }

abbrev behind_var : Token × Scanner
behind_var = (
  record { kind = token_var; text = b'v' ∷ b'a' ∷ b'r' ∷ []; at_line = 1 },
  record { lexeme = b'v' ∷ b'a' ∷ b'r' ∷ []; rest = b' ' ∷ b'x' ∷ []; line = 1 },
)

scans_var : scan_token at_start ≡ some behind_var
unfolding scan_token scan_from identifier advance advance_while make_token skip_whitespace
    identifier_type check_keyword word_v is_alpha is_digit
scans_var = refl

-- The words that fall through to the next `case`, which are no keywords.
fall_through :
    (identifier_type (b'c' ∷ b'o' ∷ b'e' ∷ b'e' ∷ b'k' ∷ []) ≡ token_cpeek)
    × (identifier_type (b't' ∷ b'e' ∷ b'i' ∷ b's' ∷ []) ≡ token_this)
    × (identifier_type (b'x' ∷ b'e' ∷ b'i' ∷ b's' ∷ []) ≡ token_identifier)
unfolding identifier_type check_keyword word_c word_t
fall_through = (refl, refl, refl)

-- A string at the end of which a backslash has the scanner step over the terminating 0.
past_the_end : string (record { lexeme = b'"' ∷ []; rest = b'\\' ∷ []; line = 1 }) ≡ none
unfolding string string_body
past_the_end = refl

identifier_type-Sound_example :
    Sound (b'v' ∷ b'a' ∷ b'r' ∷ []) (identifier_type (b'v' ∷ b'a' ∷ b'r' ∷ []))
identifier_type-Sound_example = identifier_type-Sound (b'v' ∷ b'a' ∷ b'r' ∷ [])

scan_token-Scanned_example : Scanned at_start behind_var
scan_token-Scanned_example = scan_token-Scanned at_start behind_var scans_var

-- "// a" then "x" on the next line
abbrev remark : List ℕ
remark = b'/' ∷ b'/' ∷ b'a' ∷ b'\n' ∷ b'x' ∷ []

skip_whitespace-Skipped_example : Skipped remark 1 (skip_whitespace 5 remark 1)
skip_whitespace-Skipped_example = skip_whitespace-Skipped 5 remark 1 (omega arith)

-- ===== src/Scanner/Messages.antt =====
-- The messages of `errorToken` (cyarg/scanner.c).
use yarg_lang.Prelude.{ℕ, List, [], ◌∷◌}

-- Expected digit after radix specifier.
abbrev pub expected_digit : List ℕ
expected_digit =
    b'E' ∷ b'x' ∷ b'p' ∷ b'e' ∷ b'c' ∷ b't' ∷ b'e' ∷ b'd' ∷ b' ' ∷ b'd' ∷ b'i' ∷ b'g' ∷ b'i' ∷ b't'
    ∷ b' ' ∷ b'a' ∷ b'f' ∷ b't' ∷ b'e' ∷ b'r' ∷ b' ' ∷ b'r' ∷ b'a' ∷ b'd' ∷ b'i' ∷ b'x' ∷ b' '
    ∷ b's' ∷ b'p' ∷ b'e' ∷ b'c' ∷ b'i' ∷ b'f' ∷ b'i' ∷ b'e' ∷ b'r' ∷ b'.' ∷ []

-- Unterminated string.
abbrev pub unterminated_string : List ℕ
unterminated_string =
    b'U' ∷ b'n' ∷ b't' ∷ b'e' ∷ b'r' ∷ b'm' ∷ b'i' ∷ b'n' ∷ b'a' ∷ b't' ∷ b'e' ∷ b'd' ∷ b' ' ∷ b's'
    ∷ b't' ∷ b'r' ∷ b'i' ∷ b'n' ∷ b'g' ∷ b'.' ∷ []

-- Unexpected character.
abbrev pub unexpected_character : List ℕ
unexpected_character =
    b'U' ∷ b'n' ∷ b'e' ∷ b'x' ∷ b'p' ∷ b'e' ∷ b'c' ∷ b't' ∷ b'e' ∷ b'd' ∷ b' ' ∷ b'c' ∷ b'h' ∷ b'a'
    ∷ b'r' ∷ b'a' ∷ b'c' ∷ b't' ∷ b'e' ∷ b'r' ∷ b'.' ∷ []

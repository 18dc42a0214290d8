-- ===== src/Scanner/Tokens/Scan.antt =====
-- `scanToken` (cyarg/scanner.c) cuts the text into blanks and tokens.
use yarg_lang.Prelude.{
  ℕ, ◌<◌, ◌≡◌, refl, sym, subst, ◌⊎◌, inl, inr, true, false, List, [], ◌∷◌, ◌++◌, Option, none,
  some, arith, ==_iff, if_cases, length,
}
use mathlib.Core.Bool.{true≢false}
use yarg_lang.Scanner.Kinds.{token_error, token_eof}
use yarg_lang.Scanner.Tokens.{
  Scanner, Token, peek, is_at_end, advance, ◌>>=◌, make_token, skip_whitespace, scan_from,
  scan_token,
}
use yarg_lang.Scanner.Tokens.Cut.{Cut, Cuts, scan_from-Cuts}
use yarg_lang.Scanner.Tokens.Blank.{
  IsTokenStart, Skips, Skips-length, Skipped, skip_whitespace-Skipped,
}

-- Nothing is left before the 0 that ends the text.
abbrev pub IsTextEnd : List ℕ → Type 0
IsTextEnd [] = Unit
IsTextEnd (c ∷ r) = c ≡ 0

-- The token `t` was read between the scanners `s` and `s'`.
pub record Scanned (s : Scanner) (r : Token × Scanner) : Type 0 where
  pub lines : ℕ
  pub blank : Skips s.rest (r.1.lexeme ++ r.1.rest) lines
  pub starts : IsTokenStart (r.1.lexeme ++ r.1.rest)
  pub text_of : (r.0.kind ≡ token_error) ⊎ (r.0.text ≡ r.1.lexeme)
  pub progress :
      ((r.0.kind ≡ token_eof) × (r.1.lexeme ≡ []) × IsTextEnd r.1.rest)
      ⊎ (length r.1.rest < length s.rest)

abbrev Result : Scanner → Option (Token × Scanner) → Type 0
Result s none = Unit
Result s (some r) = Scanned s r

abbrev start : List ℕ → ℕ → Scanner
start rest line = record { lexeme = []; rest = rest; line = line }

-- The scanner behind the first character of a token.
abbrev behind : ℕ → List ℕ → ℕ → Scanner
behind c rest line = record { lexeme = c ∷ []; rest = rest; line = line }

advance-start :
    (c : ℕ) (rest : List ℕ) (line : ℕ)
    → is_at_end (start (c ∷ rest) line) ≡ false
    → advance (start (c ∷ rest) line) ≡ some (behind c rest line)
unfolding advance
advance-start c rest line e = rw e refl

from_start :
    (s : Scanner) (c : ℕ) (rest : List ℕ) (line : ℕ) (r : Token × Scanner)
    → Skipped s.rest s.line (c ∷ rest, line)
    → Cut (behind c rest line) r
    → Scanned s r
from_start s c rest line r left cut =
    let same = sym cut.keeps.same_text in
    record {
      lines = left.lines;
      blank = subst (λ t. Skips s.rest t left.lines) same left.skips;
      starts = subst IsTokenStart same left.starts;
      text_of = cut.whole;
      progress = inr (omega (arith, cut.keeps.forward, Skips-length left.skips));
    }

text_end : (rest : List ℕ) (line : ℕ) → is_at_end (start rest line) ≡ true → IsTextEnd rest
text_end [] line e = tt
text_end (c ∷ r) line e = (==_iff c 0).0 e

at_end :
    (s : Scanner) (rest : List ℕ) (line : ℕ)
    → Skipped s.rest s.line (rest, line)
    → is_at_end (start rest line) ≡ true
    → Scanned s (make_token (start rest line) token_eof)
unfolding make_token
at_end s rest line left e = record {
  lines = left.lines;
  blank = left.skips;
  starts = left.starts;
  text_of = inr refl;
  progress = inl (refl, refl, text_end rest line e);
}

found :
    (s : Scanner) (c : ℕ) (rest : List ℕ) (line : ℕ) (o : Option (Token × Scanner))
    → Skipped s.rest s.line (c ∷ rest, line)
    → Cuts (behind c rest line) o
    → Result s o
found s c rest line none left cut = tt
found s c rest line (some r) left cut = from_start s c rest line r left cut

token_at :
    (s : Scanner) (rest : List ℕ) (line : ℕ)
    → Skipped s.rest s.line (rest, line)
    → is_at_end (start rest line) ≡ false
    → Result s (advance (start rest line) >>= scan_from (peek (start rest line)))
token_at s [] line left more = absurd (true≢false more)
token_at s (c ∷ rest) line left more =
    subst (λ o. Result s (o >>= scan_from c)) (sym (advance-start c rest line more))
      (found s c rest line (scan_from c (behind c rest line)) left
        (scan_from-Cuts (behind c rest line) c))

scan_token-Result : (s : Scanner) → Result s (scan_token s)
unfolding scan_token
scan_token-Result s =
    let fuel = length s.rest in
    let skipped = skip_whitespace fuel s.rest s.line in
    let left = skip_whitespace-Skipped fuel s.rest s.line (omega arith) in
    if_cases (Result s) (is_at_end (start skipped.0 skipped.1))
      (λ e. at_end s skipped.0 skipped.1 left e) (λ more. token_at s skipped.0 skipped.1 left more)

-- Where `scan_token` gives a token: between the text that was left and the lexeme stand only blanks,
-- ends of lines and comments, each of which goes up to the end of its line and no further; no blank,
-- end of line or comment begins at the lexeme; the token is an error or its text is the lexeme; and
-- either the token is the end of the text, with an empty lexeme, and nothing is left before the
-- terminating 0, or less of the text is left than before.
pub scan_token-Scanned : (s : Scanner) (r : Token × Scanner) → scan_token s ≡ some r → Scanned s r
scan_token-Scanned s r e = subst (Result s) e (scan_token-Result s)

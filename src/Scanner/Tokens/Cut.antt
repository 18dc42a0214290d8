-- ===== src/Scanner/Tokens/Cut.antt =====
-- The functions of cyarg/scanner.c only move the pointers of the scanner forward over the text.
use yarg_lang.Prelude.{
  ℕ, ◌≤◌, ◌≡◌, refl, ◌∙◌, ◌⊎◌, inl, inr, Bool, ◌||◌, not, List, [], ◌∷◌, ◌++◌, append_assoc, Option,
  none, some, arith, ◌==◌, if◌then◌else◌, if_cases, length,
}
use yarg_lang.Scanner.Kinds.{
  TokenType, token_error, token_string, token_at, token_bang, token_bang_equal, token_equal,
  token_equal_equal, token_less, token_less_equal, token_left_shift, token_greater,
  token_greater_equal, token_right_shift,
}
use yarg_lang.Scanner.Chars.{is_alpha, is_digit, is_radix, is_radix_digit, radix_type}
use yarg_lang.Scanner.Tokens.{
  Scanner, Token, peek, is_at_end, advance, advance_at, ◌>>=◌, advance_if, exponent, has_point,
  has_exponent, whole_part, fraction_part, number_end, radix_digits, wide_token, advance_while,
  while_digits, make_token, error_token, identifier, number_digits, number, address, string_body,
  string_end, string, symbol, scan_from, one_character,
}

-- The text from `start` on is the same, and `current` has not gone back.
pub record Keeps (s s' : Scanner) : Type 0 where
  pub same_text : s'.lexeme ++ s'.rest ≡ s.lexeme ++ s.rest
  pub forward : length s'.rest ≤ length s.rest

-- The token is an error, or its text is the lexeme.
pub record Cut (s : Scanner) (r : Token × Scanner) : Type 0 where
  pub keeps : Keeps s r.1
  pub whole : (r.0.kind ≡ token_error) ⊎ (r.0.text ≡ r.1.lexeme)

pub Keeps-refl : (s : Scanner) → Keeps s s
Keeps-refl s = record { same_text = refl; forward = omega arith }

pub Keeps-trans : {s t u : Scanner} → Keeps s t → Keeps t u → Keeps s u
Keeps-trans k l = record {
  same_text = l.same_text ∙ k.same_text;
  forward = omega (arith, k.forward, l.forward);
}

abbrev at : List ℕ → List ℕ → ℕ → Scanner
at lexeme rest line = record { lexeme = lexeme; rest = rest; line = line }

pub Keeps-move :
    (lexeme rest : List ℕ) (c line line' : ℕ)
    → Keeps (at lexeme (c ∷ rest) line) (at (lexeme ++ (c ∷ [])) rest line')
Keeps-move lexeme rest c line line' = record {
  same_text = append_assoc lexeme (c ∷ []) rest;
  forward = omega arith;
}

abbrev pub Body : Scanner → Option Scanner → Type 0
Body s none = Unit
Body s (some s') = Keeps s s'

Body-after : {s t : Scanner} (o : Option Scanner) → Keeps s t → Body t o → Body s o
Body-after none k b = tt
Body-after (some s') k b = Keeps-trans k b

abbrev pub Cuts : Scanner → Option (Token × Scanner) → Type 0
Cuts s none = Unit
Cuts s (some r) = Cut s r

Body-bind :
    (s : Scanner) (o : Option Scanner) (f : Scanner → Option Scanner)
    → Body s o
    → ((s' : Scanner) → Body s' (f s'))
    → Body s (o >>= f)
Body-bind s none f b more = tt
Body-bind s (some s') f b more = Body-after (f s') b (more s')

Cuts-after : (s s' : Scanner) (o : Option (Token × Scanner)) → Keeps s s' → Cuts s' o → Cuts s o
Cuts-after s s' none k c = tt
Cuts-after s s' (some r) k c = record { keeps = Keeps-trans k c.keeps; whole = c.whole }

pub Cuts-bind :
    (s : Scanner) (o : Option Scanner) (f : Scanner → Option (Token × Scanner))
    → Body s o
    → ((s' : Scanner) → Cuts s' (f s'))
    → Cuts s (o >>= f)
Cuts-bind s none f b more = tt
Cuts-bind s (some s') f b more = Cuts-after s s' (f s') b (more s')

advance_at-Keeps :
    (lexeme rest : List ℕ) (line : ℕ) → Body (at lexeme rest line) (advance_at lexeme rest line)
advance_at-Keeps lexeme [] line = tt
advance_at-Keeps lexeme (c ∷ r) line =
    if_cases (Body (at lexeme (c ∷ r) line)) (c == 0) (λ _. tt)
      (λ _. Keeps-move lexeme r c line line)

pub advance-Keeps : (s : Scanner) → Body s (advance s)
unfolding advance
advance-Keeps s = advance_at-Keeps s.lexeme s.rest s.line

pub advance_while-Keeps :
    (p : ℕ → Bool) (lexeme rest : List ℕ) (line : ℕ)
    → Keeps (at lexeme rest line) (advance_while p lexeme rest line)
unfolding advance_while
advance_while-Keeps p lexeme [] line = Keeps-refl (at lexeme [] line)
advance_while-Keeps p lexeme (c ∷ r) line =
    if_cases (Keeps (at lexeme (c ∷ r) line)) (p c)
      (λ _.
        Keeps-trans (Keeps-move lexeme r c line line)
          (advance_while-Keeps p (lexeme ++ (c ∷ [])) r line))
      (λ _. Keeps-refl (at lexeme (c ∷ r) line))

pub while_digits-Keeps : (radix : ℕ) (s : Scanner) → Keeps s (while_digits radix s)
unfolding while_digits
while_digits-Keeps radix s =
    advance_while-Keeps (λ c. is_radix_digit c radix) s.lexeme s.rest s.line

pub make_token-Cut : (s s' : Scanner) (t : TokenType) → Keeps s s' → Cut s (make_token s' t)
unfolding make_token
make_token-Cut s s' t k = record { keeps = k; whole = inr refl }

pub error_token-Cut : (s s' : Scanner) (m : List ℕ) → Keeps s s' → Cut s (error_token s' m)
unfolding error_token
error_token-Cut s s' m k = record { keeps = k; whole = inl refl }

advance_if-Keeps : (b : Bool) (s : Scanner) → Body s (advance_if b s)
advance_if-Keeps b s = if_cases (Body s) b (λ _. advance-Keeps s) (λ _. Keeps-refl s)

pub identifier-Cut : (s : Scanner) → Cut s (identifier s)
unfolding identifier
identifier-Cut s =
    make_token-Cut s _ _
      (advance_while-Keeps (λ c. is_alpha c || is_digit c) s.lexeme s.rest s.line)

exponent-Keeps : (s : Scanner) → Body s (exponent s)
exponent-Keeps s =
    Body-bind s (advance s) _ (advance-Keeps s) (λ e. advance_if-Keeps (peek e == b'-') e)

whole_part-Keeps : (radix : ℕ) (s : Scanner) → Body s (whole_part radix s)
whole_part-Keeps radix s =
    Body-after (whole_part radix s) (while_digits-Keeps radix s)
      (advance_if-Keeps (has_point radix (while_digits radix s)) (while_digits radix s))

fraction_part-Keeps : (radix : ℕ) (s : Scanner) → Body s (fraction_part radix s)
fraction_part-Keeps radix s =
    let s' = while_digits radix s in
    Body-after (fraction_part radix s) (while_digits-Keeps radix s)
      (if_cases (Body s') (has_exponent radix s') (λ _. exponent-Keeps s') (λ _. Keeps-refl s'))

pub number_digits-Cut : (radix : ℕ) (s : Scanner) → Cuts s (number_digits radix s)
unfolding number_digits
number_digits-Cut radix s =
    Cuts-bind s (whole_part radix s) (λ s'. fraction_part radix s' >>= number_end radix)
      (whole_part-Keeps radix s)
      λ s'.
        Cuts-bind s' (fraction_part radix s') (number_end radix) (fraction_part-Keeps radix s')
          λ s''. make_token-Cut s'' _ _ (while_digits-Keeps radix s'')

pub number-Cut : (s : Scanner) → Cuts s (number s)
unfolding number
number-Cut s =
    let radix = radix_type (peek s) in
    if_cases (Cuts s) (is_radix (peek s))
      (λ _. Cuts-bind s (advance s) (radix_digits radix) (advance-Keeps s) λ s'.
        if_cases (Cuts s') (not (is_radix_digit (peek s') radix))
          (λ _. error_token-Cut s' s' _ (Keeps-refl s')) (λ _. number_digits-Cut radix s'))
      (λ _. number_digits-Cut 10 s)

pub address-Cut : (s : Scanner) → Cuts s (address s)
unfolding address
address-Cut s =
    Cuts-bind s (advance s) _ (advance-Keeps s)
      λ s'. make_token-Cut s' _ _ (while_digits-Keeps 16 s')

wide_token-Cut : (s : Scanner) (t : TokenType) → Cuts s (wide_token s t)
wide_token-Cut s t =
    Cuts-bind s (advance s) _ (advance-Keeps s) λ s'. make_token-Cut s' s' t (Keeps-refl s')

Keeps-two :
    (lexeme rest : List ℕ) (c d line line' : ℕ)
    → Keeps (at lexeme (c ∷ d ∷ rest) line) (at (lexeme ++ (c ∷ d ∷ [])) rest line')
Keeps-two lexeme rest c d line line' = record {
  same_text = append_assoc lexeme (c ∷ d ∷ []) rest;
  forward = omega arith;
}

pub string_body-Keeps :
    (lexeme rest : List ℕ) (line : ℕ) → Body (at lexeme rest line) (string_body lexeme rest line)
unfolding string_body
string_body-Keeps lexeme [] line = Keeps-refl (at lexeme [] line)
string_body-Keeps lexeme (c ∷ []) line =
    if_cases (Body (at lexeme (c ∷ []) line)) (c == b'\\') (λ _. tt)
      (λ _.
        if_cases (Body (at lexeme (c ∷ []) line)) (c == b'"' || c == 0)
          (λ _. Keeps-refl (at lexeme (c ∷ []) line)) (λ _. Keeps-move lexeme [] c line _))
string_body-Keeps lexeme (c ∷ d ∷ r) line =
    let s : Scanner = at lexeme (c ∷ d ∷ r) line in
    if_cases (Body s) (c == b'"' || c == 0) (λ _. Keeps-refl s)
      (λ _.
        if_cases (Body s) (c == b'\\')
          (λ _.
            if_cases (Body s) (d == 0) (λ _. tt)
              (λ _.
                Body-after _ (Keeps-two lexeme r c d line _)
                  (string_body-Keeps (lexeme ++ (c ∷ d ∷ [])) r _)))
          (λ _.
            Body-after _ (Keeps-move lexeme (d ∷ r) c line _)
              (string_body-Keeps (lexeme ++ (c ∷ [])) (d ∷ r) _)))

string_end-Cut : (s : Scanner) → Cuts s (string_end s)
unfolding string_end
string_end-Cut s =
    if_cases (Cuts s) (is_at_end s) (λ _. error_token-Cut s s _ (Keeps-refl s))
      (λ _. wide_token-Cut s token_string)

pub string-Cuts : (s : Scanner) → Cuts s (string s)
unfolding string
string-Cuts s =
    Cuts-bind s (string_body s.lexeme s.rest s.line) string_end
      (string_body-Keeps s.lexeme s.rest s.line) string_end-Cut

module _ (s : Scanner) where
  plain : (t : TokenType) → Cut s (make_token s t)
  plain t = make_token-Cut s s t (Keeps-refl s)

  wide : (t : TokenType) → Cuts s (wide_token s t)
  wide t = wide_token-Cut s t

  two :
      (a : ℕ) (t u : TokenType)
      → Cuts s (if peek s == a then wide_token s t else some (make_token s u))
  two a t u = if_cases (Cuts s) (peek s == a) (λ _. wide t) (λ _. plain u)

  three :
      (a b : ℕ) (t u v : TokenType)
      → Cuts s (
          if peek s == a
          then wide_token s t
          else if peek s == b
          then wide_token s u
          else some (make_token s v))
  three a b t u v =
      if_cases (Cuts s) (peek s == a) (λ _. wide t)
        (λ _. if_cases (Cuts s) (peek s == b) (λ _. wide u) (λ _. plain v))

  pub symbol-Cuts : (c : ℕ) → Cuts s (symbol c s)
  unfolding symbol
  symbol-Cuts c =
      if_cases (Cuts s) (c == b'@')
        (λ _.
          if_cases (Cuts s) (peek s == b'x' || peek s == b'X') (λ _. address-Cut s)
            (λ _. plain token_at))
        (λ _.
          if_cases (Cuts s) (c == b'!') (λ _. two b'=' token_bang_equal token_bang)
            (λ _.
              if_cases (Cuts s) (c == b'=') (λ _. two b'=' token_equal_equal token_equal)
                (λ _.
                  if_cases (Cuts s) (c == b'<')
                    (λ _. three b'<' b'=' token_left_shift token_less_equal token_less)
                    (λ _.
                      if_cases (Cuts s) (c == b'>')
                        (λ _. three b'>' b'=' token_right_shift token_greater_equal token_greater)
                        (λ _.
                          if_cases (Cuts s) (c == b'"') (λ _. string-Cuts s)
                            (λ _. error_token-Cut s s _ (Keeps-refl s)))))))

  pub scan_from-Cuts : (c : ℕ) → Cuts s (scan_from c s)
  unfolding scan_from
  scan_from-Cuts c =
      if_cases (Cuts s) (is_alpha c) (λ _. identifier-Cut s)
        (λ _.
          if_cases (Cuts s) (is_digit c) (λ _. number-Cut s)
            (λ _.
              elim (one_character c)
                as (λ o. Cuts s (elim o [ some t ↦ some (make_token s t) | none ↦ symbol c s ])) [
                  | some t ↦ plain t
                  | none ↦ symbol-Cuts c
                ]))

-- ===== src/Scanner/Tokens/Blank.antt =====
-- `skipWhitespace` (cyarg/scanner.c) leaves the start of a token, and drops only what stands before it.
use yarg_lang.Prelude.{
  ℕ, zero, suc, ◌+◌, ◌≤◌, ◌≡◌, refl, sym, ap, ◌∙◌, Bool, true, false, ◌&&◌, ◌||◌, List, [], ◌∷◌,
  ◌++◌, arith, ◌⊎◌, inl, inr, All, length-append, ==_iff, subst, Bool-cases, ◌==◌, if_cases, length,
  get_or,
}
use yarg_lang.Scanner.Tokens.{skip_comment, skip_whitespace}

abbrev pub IsSpace : ℕ → Type 0
IsSpace c = (c ≡ b' ') ⊎ ((c ≡ b'\r') ⊎ (c ≡ b'\t'))

abbrev NoSlash : List ℕ → Type 0
NoSlash [] = Unit
NoSlash (c ∷ r) = ¬ (c ≡ b'/')

-- No blank, end of line or comment begins here.
abbrev pub IsTokenStart : List ℕ → Type 0
IsTokenStart [] = Unit
IsTokenStart (c ∷ r) = (¬ IsSpace c) × (¬ (c ≡ b'\n')) × (c ≡ b'/' → NoSlash r)

-- The end of a line or of the text.
abbrev pub IsLineEnd : List ℕ → Type 0
IsLineEnd [] = Unit
IsLineEnd (c ∷ r) = (c ≡ b'\n') ⊎ (c ≡ 0)

abbrev pub IsInLine : ℕ → Type 0
IsInLine c = (¬ (c ≡ b'\n')) × (¬ (c ≡ 0))

-- Between two places of the text are blanks, as many ends of lines, and comments, each of which goes
-- up to the end of its line and no further.
pub data Skips : List ℕ → List ℕ → ℕ → Type 0 where
  nothing_skipped : {xs : List ℕ} → Skips xs xs 0
  space : {c : ℕ} {xs ys : List ℕ} {n : ℕ} → IsSpace c → Skips xs ys n → Skips (c ∷ xs) ys n
  newline : {c : ℕ} {xs ys : List ℕ} {n : ℕ} → c ≡ b'\n' → Skips xs ys n → Skips (c ∷ xs) ys (suc n)
  comment :
      (body : List ℕ) {c d : ℕ} {xs ys : List ℕ} {n : ℕ}
      → c ≡ b'/'
      → d ≡ b'/'
      → All IsInLine body
      → IsLineEnd xs
      → Skips xs ys n
      → Skips (c ∷ d ∷ (body ++ xs)) ys n

pub Skips-length : {xs ys : List ℕ} {n : ℕ} → Skips xs ys n → length ys ≤ length xs
Skips-length nothing_skipped = omega arith
Skips-length (space e k) = omega (arith, Skips-length k)
Skips-length (newline e k) = omega (arith, Skips-length k)
Skips-length (comment body {xs = xs} e e' inside ends k) =
    omega (arith, Skips-length k, length-append body xs)

-- The rest of a line.
record Line (xs ys : List ℕ) : Type 0 where
  body : List ℕ
  joined : xs ≡ body ++ ys
  inside : All IsInLine body
  ends : IsLineEnd ys

skip_comment-Line : (xs : List ℕ) → Line xs (skip_comment xs)
unfolding skip_comment
skip_comment-Line [] = record { body = []; joined = refl; inside = tt; ends = tt }
skip_comment-Line (c ∷ r) =
    if_cases (Line (c ∷ r)) (c == b'\n' || c == 0)
      (λ e. record { body = []; joined = refl; inside = tt; ends = ground (arith, e) })
      (λ e.
        let further = skip_comment-Line r in
        record {
          body = c ∷ further.body;
          joined = ap (λ l. c ∷ l) further.joined;
          inside = ((λ h. ground (arith, e, h), λ h. ground (arith, e, h)), further.inside);
          ends = further.ends;
        })

IsSpace-test : (c : ℕ) → (c == b' ' || (c == b'\r' || c == b'\t')) ≡ true → IsSpace c
IsSpace-test c e = ground (arith, e)

length-skip_comment : (xs : List ℕ) → length (skip_comment xs) ≤ length xs
unfolding skip_comment
length-skip_comment [] = omega arith
length-skip_comment (c ∷ r) =
    let P : List ℕ → Type 0 = λ l. length l ≤ suc (length r) in
    let here : P (c ∷ r) = omega arith in
    let further : P (skip_comment r) = omega (arith, length-skip_comment r) in
    if_cases P (c == b'\n' || c == 0) (λ _. here) (λ _. further)

slash-not_end : (c : ℕ) → (c == b'/') ≡ true → ¬ ((c == b'\n' || c == 0) ≡ true)
slash-not_end c h e = ground arith

and_left : (a b : Bool) → (a && b) ≡ true → a ≡ true
and_left a b h = ground arith

-- A comment does not begin with the end of a line, so that skipping it is progress.
skip_comment-shorter :
    (c : ℕ) (r : List ℕ) → (c == b'/') ≡ true → length (skip_comment (c ∷ r)) ≤ length r
unfolding skip_comment
skip_comment-shorter c r h =
    let P : List ℕ → Type 0 = λ l. length l ≤ length r in
    if_cases P (c == b'\n' || c == 0) (λ e. absurd (slash-not_end c h e))
      (λ _. length-skip_comment r)

NoSlash-test :
    (c : ℕ) (r : List ℕ) → (c == b'/' && get_or r 0 0 == b'/') ≡ false → c ≡ b'/' → NoSlash r
NoSlash-test c [] h e = tt
NoSlash-test c (d ∷ r) h e = λ e'. ground (arith, h, e, e')

IsTokenStart-test :
    (c : ℕ) (r : List ℕ)
    → (c == b' ' || (c == b'\r' || c == b'\t')) ≡ false
    → (c == b'\n') ≡ false
    → (c == b'/' && get_or r 0 0 == b'/') ≡ false
    → IsTokenStart (c ∷ r)
IsTokenStart-test c r blank newline' slash =
    (λ s. ground (arith, blank, s), λ e. ground (arith, newline', e), NoSlash-test c r slash)

-- What is left of the text and the line, behind blanks and comments.
pub record Skipped (rest : List ℕ) (line : ℕ) (p : List ℕ × ℕ) : Type 0 where
  pub lines : ℕ
  pub skips : Skips rest p.0 lines
  pub counted : p.1 ≡ line + lines
  pub starts : IsTokenStart p.0

skip_comment-slash :
    (c : ℕ) (r : List ℕ) → (c == b'/') ≡ true → skip_comment (c ∷ r) ≡ skip_comment r
unfolding skip_comment
skip_comment-slash c r h = let no : (c == b'\n' || c == 0) ≡ false = ground (arith, h) in rw no refl

Skipped-comment :
    (c : ℕ) (r : List ℕ) (line : ℕ) (p : List ℕ × ℕ)
    → (c == b'/' && get_or r 0 0 == b'/') ≡ true
    → Skipped (skip_comment (c ∷ r)) line p
    → Skipped (c ∷ r) line p
unfolding skip_comment
Skipped-comment c [] line p e h = absurd (ground arith)
Skipped-comment c (d ∷ r) line p e h = elim (Bool-cases (d == b'/')) [
  | inr e' ↦ absurd (ground (arith, e'))
  | inl e' ↦
      let first : (c == b'/') ≡ true = and_left _ _ e in
      let skipped : skip_comment (c ∷ d ∷ r) ≡ skip_comment r =
        skip_comment-slash c (d ∷ r) first ∙ skip_comment-slash d r e' in
      let k = subst (λ l. Skipped l line p) skipped h in
      let l = skip_comment-Line r in
      record {
        lines = k.lines;
        skips =
            subst (λ t. Skips (c ∷ d ∷ t) p.0 k.lines) (sym l.joined)
              (comment l.body ((==_iff c b'/').0 first) ((==_iff d b'/').0 e') l.inside l.ends
                k.skips);
        counted = k.counted;
        starts = k.starts;
      }
]

-- With fuel for as many steps as there are characters, `skip_whitespace` drops only blanks, ends of
-- lines and comments, each of which goes up to the end of its line and no further; it ends where
-- none of them begins; and the line is one more for each end of a line that was dropped.
pub skip_whitespace-Skipped :
    (fuel : ℕ) (rest : List ℕ) (line : ℕ)
    → length rest ≤ fuel
    → Skipped rest line (skip_whitespace fuel rest line)
unfolding skip_whitespace
skip_whitespace-Skipped zero [] line h = record {
  lines = 0;
  skips = nothing_skipped;
  counted = omega arith;
  starts = tt;
}
skip_whitespace-Skipped zero (c ∷ r) line h = absurd (omega arith)
skip_whitespace-Skipped (suc fuel) [] line h = record {
  lines = 0;
  skips = nothing_skipped;
  counted = omega arith;
  starts = tt;
}
skip_whitespace-Skipped (suc fuel) (c ∷ r) line h =
    let P : List ℕ × ℕ → Type 0 = Skipped (c ∷ r) line in
    if_cases P (c == b' ' || (c == b'\r' || c == b'\t'))
      (λ e.
        let k = skip_whitespace-Skipped fuel r line (omega arith) in
        record {
          lines = k.lines;
          skips = space (IsSpace-test c e) k.skips;
          counted = k.counted;
          starts = k.starts;
        })
      (λ blank.
        if_cases P (c == b'\n')
          (λ e.
            let k = skip_whitespace-Skipped fuel r (line + 1) (omega arith) in
            record {
              lines = suc k.lines;
              skips = newline ((==_iff c b'\n').0 e) k.skips;
              counted = omega (arith, k.counted);
              starts = k.starts;
            })
          (λ other.
            if_cases P (c == b'/' && get_or r 0 0 == b'/')
              (λ slash. Skipped-comment c r line _ slash (
                skip_whitespace-Skipped fuel (skip_comment (c ∷ r)) line
                  (omega (arith, skip_comment-shorter c r (and_left _ _ slash)))))
              (λ plain. record {
                lines = 0;
                skips = nothing_skipped;
                counted = omega arith;
                starts = IsTokenStart-test c r blank other plain;
              })))

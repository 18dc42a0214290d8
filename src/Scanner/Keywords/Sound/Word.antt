-- ===== src/Scanner/Keywords/Sound/Word.antt =====
-- `checkKeyword` (cyarg/scanner.c) under what the `case` labels before it have read.
use mathlib.Core.Path.{ap₂}
use yarg_lang.Prelude.{
  ℕ, suc, ◌+◌, ◌≡◌, ◌⊎◌, inl, refl, Bool, true, ◌&&◌, List, [], ◌∷◌, ◌++◌, arith, ltb, ◌==◌, ==_iff,
  if◌then◌else◌, length, if_cases, ap, ◌∙◌, sym, length-append,
}
use yarg_lang.Scanner.Kinds.{TokenType, token_identifier, token_cpeek, token_this}
use yarg_lang.Scanner.Keywords.{char_at, mem_eq, check_keyword}
use yarg_lang.Scanner.Keywords.Spelling.{spelling}

-- The two words that fall through from one `case` into the next.
abbrev pub FallsThrough : List ℕ → TokenType → Type 0
FallsThrough text t =
    ((text ≡ b'c' ∷ b'o' ∷ b'e' ∷ b'e' ∷ b'k' ∷ []) × (t ≡ token_cpeek))
    ⊎ ((text ≡ b't' ∷ b'e' ∷ b'i' ∷ b's' ∷ []) × (t ≡ token_this))

abbrev pub Sound : List ℕ → TokenType → Type 0
Sound text t = (t ≡ token_identifier) ⊎ ((text ≡ spelling t) ⊎ FallsThrough text t)

and_left : (a b : Bool) → (a && b) ≡ true → a ≡ true
and_left a b h = ground arith

and_right : (a b : Bool) → (a && b) ≡ true → b ≡ true
and_right a b h = ground arith

pub mem_eq-append :
    (text : List ℕ) (i j : ℕ) (s r : List ℕ)
    → j ≡ length s + i
    → mem_eq text i s ≡ true
    → mem_eq text j r ≡ true
    → mem_eq text i (s ++ r) ≡ true
mem_eq-append text i j [] r e h k =
    let same_place : j ≡ i = omega arith in ap (λ x. mem_eq text x r) (sym same_place) ∙ k
mem_eq-append text i j (c ∷ s) r e h k = rw (
  and_left (char_at text i == c) (mem_eq text (suc i) s) h,
  mem_eq-append text (suc i) j s r (omega arith)
      (and_right (char_at text i == c) (mem_eq text (suc i) s) h) k,
)

mem_eq-tail : (c : ℕ) (text s : List ℕ) (i : ℕ) → mem_eq (c ∷ text) (suc i) s ≡ mem_eq text i s
mem_eq-tail c text [] i = refl
mem_eq-tail c text (d ∷ s) i = rw (mem_eq-tail c text s (suc i))

mem_eq-all : (text s : List ℕ) → length text ≡ length s → mem_eq text 0 s ≡ true → text ≡ s
mem_eq-all [] [] e h = refl
mem_eq-all [] (d ∷ s) e h = absurd (omega arith)
mem_eq-all (c ∷ text) [] e h = absurd (omega arith)
mem_eq-all (c ∷ text) (d ∷ s) e h =
    let rest : mem_eq text 0 s ≡ true =
      sym (mem_eq-tail c text s 0) ∙ and_right (c == d) (mem_eq (c ∷ text) 1 s) h in
    ap₂ (λ x y. x ∷ y) ((==_iff c d).0 (and_left (c == d) (mem_eq (c ∷ text) 1 s) h))
      (mem_eq-all text s (omega arith) rest)

-- The characters read before make up `pre`, so that the test compares the whole word.
pub check_keyword-Sound :
    (text pre rest : List ℕ) (t : TokenType)
    → mem_eq text 0 pre ≡ true
    → (text ≡ pre ++ rest → Sound text t)
    → Sound text (check_keyword text (length pre) (length rest) rest t)
unfolding check_keyword
check_keyword-Sound text pre rest t h sound =
    if_cases (Sound text) (length text == length pre + length rest && mem_eq text (length pre) rest)
      (λ e. sound (
        mem_eq-all text (pre ++ rest)
          ((==_iff (length text) (length pre + length rest)).0 (and_left _ _ e)
            ∙ sym (length-append pre rest))
          (mem_eq-append text 0 (length pre) pre rest (omega arith) h (
            and_right (length text == length pre + length rest) (mem_eq text (length pre) rest)
              e))))
      (λ _. inl refl)

module _ (text : List ℕ) where
  pub longer :
      (n : ℕ) {x y : TokenType}
      → Sound text x
      → Sound text y
      → Sound text (if ltb n (length text) then x else y)
  longer n sx sy = if_cases (Sound text) (ltb n (length text)) (λ _. sx) (λ _. sy)

  pub at :
      (i c : ℕ) {x y : TokenType}
      → ((char_at text i == c) ≡ true → Sound text x)
      → Sound text y
      → Sound text (if char_at text i == c then x else y)
  at i c sx sy = if_cases (Sound text) (char_at text i == c) sx (λ _. sy)

  pub same :
      (i : ℕ) (s : List ℕ) {x y : TokenType}
      → (mem_eq text i s ≡ true → Sound text x)
      → Sound text y
      → Sound text (if mem_eq text i s then x else y)
  same i s sx sy = if_cases (Sound text) (mem_eq text i s) sx (λ _. sy)

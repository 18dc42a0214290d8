-- ===== src/Scanner/Keywords/Sound/WordsA.antt =====
-- The words of `identifierType` (cyarg/scanner.c) that begin with a, b, c, d, e.
use yarg_lang.Prelude.{ℕ, ◌≡◌, inl, inr, refl, true, List, [], ◌∷◌, ◌==◌}
use yarg_lang.Scanner.Kinds.{
  token_and, token_any, token_bool, token_break, token_class, token_compile, token_const,
  token_continue, token_cpeek, token_defer, token_else, token_stmt_error,
}
use yarg_lang.Scanner.Keywords.{char_at, word_a, word_b, word_c, word_d, word_e}
use yarg_lang.Scanner.Keywords.Sound.Word.{Sound, check_keyword-Sound, longer, at}

pub word_a-Sound : (text : List ℕ) → (char_at text 0 == b'a') ≡ true → Sound text (word_a text)
unfolding word_a
word_a-Sound text e0 =
    longer text 1
      (at text 1 b'n'
        (λ e1.
          longer text 2
            (at text 2 b'd'
              (λ e2.
                check_keyword-Sound text (b'a' ∷ b'n' ∷ b'd' ∷ []) [] token_and (rw (e0, e1, e2))
                  (λ e. inr (inl e)))
              (at text 2 b'y'
                (λ e2.
                  check_keyword-Sound text (b'a' ∷ b'n' ∷ b'y' ∷ []) [] token_any (rw (e0, e1, e2))
                    (λ e. inr (inl e)))
                (inl refl)))
            (inl refl))
        (inl refl))
      (inl refl)

pub word_b-Sound : (text : List ℕ) → (char_at text 0 == b'b') ≡ true → Sound text (word_b text)
unfolding word_b
word_b-Sound text e0 =
    longer text 1
      (at text 1 b'o'
        (λ e1.
          check_keyword-Sound text (b'b' ∷ b'o' ∷ []) (b'o' ∷ b'l' ∷ []) token_bool (rw (e0, e1))
            (λ e. inr (inl e)))
        (at text 1 b'r'
          (λ e1.
            check_keyword-Sound text (b'b' ∷ b'r' ∷ []) (b'e' ∷ b'a' ∷ b'k' ∷ []) token_break
              (rw (e0, e1)) (λ e. inr (inl e)))
          (inl refl)))
      (inl refl)

pub word_c-Sound : (text : List ℕ) → (char_at text 0 == b'c') ≡ true → Sound text (word_c text)
unfolding word_c
word_c-Sound text e0 =
    longer text 1
      (at text 1 b'l'
        (λ e1.
          check_keyword-Sound text (b'c' ∷ b'l' ∷ []) (b'a' ∷ b's' ∷ b's' ∷ []) token_class
            (rw (e0, e1)) (λ e. inr (inl e)))
        (at text 1 b'o'
          (λ e1.
            longer text 2
              (at text 2 b'm'
                (λ e2.
                  check_keyword-Sound text (b'c' ∷ b'o' ∷ b'm' ∷ [])
                    (b'p' ∷ b'i' ∷ b'l' ∷ b'e' ∷ []) token_compile (rw (e0, e1, e2))
                    (λ e. inr (inl e)))
                (at text 2 b'n'
                  (λ e2.
                    longer text 3
                      (at text 3 b's'
                        (λ e3.
                          check_keyword-Sound text (b'c' ∷ b'o' ∷ b'n' ∷ b's' ∷ []) (b't' ∷ [])
                            token_const (rw (e0, e1, e2, e3)) (λ e. inr (inl e)))
                        (at text 3 b't'
                          (λ e3.
                            check_keyword-Sound text (b'c' ∷ b'o' ∷ b'n' ∷ b't' ∷ [])
                              (b'i' ∷ b'n' ∷ b'u' ∷ b'e' ∷ []) token_continue (rw (e0, e1, e2, e3))
                              (λ e. inr (inl e)))
                          (check_keyword-Sound text (b'c' ∷ b'o' ∷ []) (b'e' ∷ b'e' ∷ b'k' ∷ [])
                            token_cpeek (rw (e0, e1)) (λ e. inr (inr (inl (e, refl)))))))
                      (check_keyword-Sound text (b'c' ∷ b'o' ∷ []) (b'e' ∷ b'e' ∷ b'k' ∷ [])
                        token_cpeek (rw (e0, e1)) (λ e. inr (inr (inl (e, refl))))))
                  (check_keyword-Sound text (b'c' ∷ b'o' ∷ []) (b'e' ∷ b'e' ∷ b'k' ∷ []) token_cpeek
                    (rw (e0, e1)) (λ e. inr (inr (inl (e, refl)))))))
              (check_keyword-Sound text (b'c' ∷ b'o' ∷ []) (b'e' ∷ b'e' ∷ b'k' ∷ []) token_cpeek
                (rw (e0, e1)) (λ e. inr (inr (inl (e, refl))))))
          (at text 1 b'p'
            (λ e1.
              check_keyword-Sound text (b'c' ∷ b'p' ∷ []) (b'e' ∷ b'e' ∷ b'k' ∷ []) token_cpeek
                (rw (e0, e1)) (λ e. inr (inl e)))
            (inl refl))))
      (inl refl)

pub word_d-Sound : (text : List ℕ) → (char_at text 0 == b'd') ≡ true → Sound text (word_d text)
unfolding word_d
word_d-Sound text e0 =
    longer text 1
      (at text 1 b'e'
        (λ e1.
          check_keyword-Sound text (b'd' ∷ b'e' ∷ []) (b'f' ∷ b'e' ∷ b'r' ∷ []) token_defer
            (rw (e0, e1)) (λ e. inr (inl e)))
        (inl refl))
      (inl refl)

pub word_e-Sound : (text : List ℕ) → (char_at text 0 == b'e') ≡ true → Sound text (word_e text)
unfolding word_e
word_e-Sound text e0 =
    longer text 1
      (at text 1 b'l'
        (λ e1.
          check_keyword-Sound text (b'e' ∷ b'l' ∷ []) (b's' ∷ b'e' ∷ []) token_else (rw (e0, e1))
            (λ e. inr (inl e)))
        (at text 1 b'r'
          (λ e1.
            check_keyword-Sound text (b'e' ∷ b'r' ∷ []) (b'r' ∷ b'o' ∷ b'r' ∷ []) token_stmt_error
              (rw (e0, e1)) (λ e. inr (inl e)))
          (inl refl)))
      (inl refl)

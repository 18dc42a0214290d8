-- ===== src/Scanner/Keywords/Sound/WordsF.antt =====
-- The words of `identifierType` (cyarg/scanner.c) that begin with f, i, l, m, n, o, p.
use yarg_lang.Prelude.{ℕ, ◌≡◌, inl, inr, refl, true, List, [], ◌∷◌, ◌==◌}
use yarg_lang.Scanner.Kinds.{
  token_false, token_for, token_fun, token_if, token_int, token_int16, token_int32, token_int64,
  token_int8, token_len, token_load, token_machine_float64, token_make_channel, token_make_routine,
  token_make_syncgroup, token_new, token_nil, token_or, token_peek, token_pin, token_place,
  token_poke, token_print,
}
use yarg_lang.Scanner.Keywords.{char_at, word_f, word_i, word_l, word_m, word_n, word_o, word_p}
use yarg_lang.Scanner.Keywords.Sound.Word.{
  Sound, check_keyword-Sound, mem_eq-append, longer, at, same,
}

pub word_f-Sound : (text : List ℕ) → (char_at text 0 == b'f') ≡ true → Sound text (word_f text)
unfolding word_f
word_f-Sound text e0 =
    longer text 1
      (at text 1 b'a'
        (λ e1.
          check_keyword-Sound text (b'f' ∷ b'a' ∷ []) (b'l' ∷ b's' ∷ b'e' ∷ []) token_false
            (rw (e0, e1)) (λ e. inr (inl e)))
        (at text 1 b'o'
          (λ e1.
            check_keyword-Sound text (b'f' ∷ b'o' ∷ []) (b'r' ∷ []) token_for (rw (e0, e1))
              (λ e. inr (inl e)))
          (at text 1 b'u'
            (λ e1.
              check_keyword-Sound text (b'f' ∷ b'u' ∷ []) (b'n' ∷ []) token_fun (rw (e0, e1))
                (λ e. inr (inl e)))
            (inl refl))))
      (inl refl)

pub word_i-Sound : (text : List ℕ) → (char_at text 0 == b'i') ≡ true → Sound text (word_i text)
unfolding word_i
word_i-Sound text e0 =
    longer text 1
      (at text 1 b'f'
        (λ e1.
          check_keyword-Sound text (b'i' ∷ b'f' ∷ []) [] token_if (rw (e0, e1)) (λ e. inr (inl e)))
        (at text 1 b'n'
          (λ e1.
            longer text 2
              (at text 2 b't'
                (λ e2.
                  longer text 3
                    (at text 3 b'1'
                      (λ e3.
                        check_keyword-Sound text (b'i' ∷ b'n' ∷ b't' ∷ b'1' ∷ []) (b'6' ∷ [])
                          token_int16 (rw (e0, e1, e2, e3)) (λ e. inr (inl e)))
                      (at text 3 b'3'
                        (λ e3.
                          check_keyword-Sound text (b'i' ∷ b'n' ∷ b't' ∷ b'3' ∷ []) (b'2' ∷ [])
                            token_int32 (rw (e0, e1, e2, e3)) (λ e. inr (inl e)))
                        (at text 3 b'6'
                          (λ e3.
                            check_keyword-Sound text (b'i' ∷ b'n' ∷ b't' ∷ b'6' ∷ []) (b'4' ∷ [])
                              token_int64 (rw (e0, e1, e2, e3)) (λ e. inr (inl e)))
                          (at text 3 b'8'
                            (λ e3.
                              check_keyword-Sound text (b'i' ∷ b'n' ∷ b't' ∷ b'8' ∷ []) []
                                token_int8 (rw (e0, e1, e2, e3)) (λ e. inr (inl e)))
                            (inl refl)))))
                    (check_keyword-Sound text (b'i' ∷ b'n' ∷ b't' ∷ []) [] token_int
                      (rw (e0, e1, e2)) (λ e. inr (inl e))))
                (inl refl))
              (inl refl))
          (inl refl)))
      (inl refl)

pub word_l-Sound : (text : List ℕ) → (char_at text 0 == b'l') ≡ true → Sound text (word_l text)
unfolding word_l
word_l-Sound text e0 =
    longer text 1
      (at text 1 b'e'
        (λ e1.
          check_keyword-Sound text (b'l' ∷ b'e' ∷ []) (b'n' ∷ []) token_len (rw (e0, e1))
            (λ e. inr (inl e)))
        (at text 1 b'o'
          (λ e1.
            check_keyword-Sound text (b'l' ∷ b'o' ∷ []) (b'a' ∷ b'd' ∷ []) token_load (rw (e0, e1))
              (λ e. inr (inl e)))
          (inl refl)))
      (inl refl)

pub word_m-Sound : (text : List ℕ) → (char_at text 0 == b'm') ≡ true → Sound text (word_m text)
unfolding word_m
word_m-Sound text e0 =
    longer text 1
      (at text 1 b'a'
        (λ e1.
          longer text 5
            (same text 2 (b'k' ∷ b'e' ∷ b'_' ∷ [])
              (λ m.
                at text 5 b'c'
                  (λ e5.
                    check_keyword-Sound text (b'm' ∷ b'a' ∷ b'k' ∷ b'e' ∷ b'_' ∷ b'c' ∷ [])
                      (b'h' ∷ b'a' ∷ b'n' ∷ b'n' ∷ b'e' ∷ b'l' ∷ []) token_make_channel
                      (mem_eq-append text 0 5 (b'm' ∷ b'a' ∷ b'k' ∷ b'e' ∷ b'_' ∷ []) (b'c' ∷ [])
                        refl
                        (mem_eq-append text 0 2 (b'm' ∷ b'a' ∷ []) (b'k' ∷ b'e' ∷ b'_' ∷ []) refl
                          (rw (e0, e1)) m)
                        (rw e5))
                      (λ e. inr (inl e)))
                  (at text 5 b'r'
                    (λ e5.
                      check_keyword-Sound text (b'm' ∷ b'a' ∷ b'k' ∷ b'e' ∷ b'_' ∷ b'r' ∷ [])
                        (b'o' ∷ b'u' ∷ b't' ∷ b'i' ∷ b'n' ∷ b'e' ∷ []) token_make_routine
                        (mem_eq-append text 0 5 (b'm' ∷ b'a' ∷ b'k' ∷ b'e' ∷ b'_' ∷ []) (b'r' ∷ [])
                          refl
                          (mem_eq-append text 0 2 (b'm' ∷ b'a' ∷ []) (b'k' ∷ b'e' ∷ b'_' ∷ []) refl
                            (rw (e0, e1)) m)
                          (rw e5))
                        (λ e. inr (inl e)))
                    (at text 5 b's'
                      (λ e5.
                        check_keyword-Sound text (b'm' ∷ b'a' ∷ b'k' ∷ b'e' ∷ b'_' ∷ b's' ∷ [])
                          (b'y' ∷ b'n' ∷ b'c' ∷ b'_' ∷ b'g' ∷ b'r' ∷ b'o' ∷ b'u' ∷ b'p' ∷ [])
                          token_make_syncgroup
                          (mem_eq-append text 0 5 (b'm' ∷ b'a' ∷ b'k' ∷ b'e' ∷ b'_' ∷ [])
                            (b's' ∷ []) refl
                            (mem_eq-append text 0 2 (b'm' ∷ b'a' ∷ []) (b'k' ∷ b'e' ∷ b'_' ∷ [])
                              refl (rw (e0, e1)) m)
                            (rw e5))
                          (λ e. inr (inl e)))
                      (inl refl))))
              (inl refl))
            (inl refl))
        (at text 1 b'f'
          (λ e1.
            check_keyword-Sound text (b'm' ∷ b'f' ∷ [])
              (b'l' ∷ b'o' ∷ b'a' ∷ b't' ∷ b'6' ∷ b'4' ∷ []) token_machine_float64 (rw (e0, e1))
              (λ e. inr (inl e)))
          (inl refl)))
      (inl refl)

pub word_n-Sound : (text : List ℕ) → (char_at text 0 == b'n') ≡ true → Sound text (word_n text)
unfolding word_n
word_n-Sound text e0 =
    longer text 1
      (at text 1 b'e'
        (λ e1.
          check_keyword-Sound text (b'n' ∷ b'e' ∷ []) (b'w' ∷ []) token_new (rw (e0, e1))
            (λ e. inr (inl e)))
        (at text 1 b'i'
          (λ e1.
            check_keyword-Sound text (b'n' ∷ b'i' ∷ []) (b'l' ∷ []) token_nil (rw (e0, e1))
              (λ e. inr (inl e)))
          (inl refl)))
      (inl refl)

pub word_o-Sound : (text : List ℕ) → (char_at text 0 == b'o') ≡ true → Sound text (word_o text)
unfolding word_o
word_o-Sound text e0 =
    check_keyword-Sound text (b'o' ∷ []) (b'r' ∷ []) token_or (rw e0) (λ e. inr (inl e))

pub word_p-Sound : (text : List ℕ) → (char_at text 0 == b'p') ≡ true → Sound text (word_p text)
unfolding word_p
word_p-Sound text e0 =
    longer text 1
      (at text 1 b'e'
        (λ e1.
          check_keyword-Sound text (b'p' ∷ b'e' ∷ []) (b'e' ∷ b'k' ∷ []) token_peek (rw (e0, e1))
            (λ e. inr (inl e)))
        (at text 1 b'i'
          (λ e1.
            check_keyword-Sound text (b'p' ∷ b'i' ∷ []) (b'n' ∷ []) token_pin (rw (e0, e1))
              (λ e. inr (inl e)))
          (at text 1 b'l'
            (λ e1.
              check_keyword-Sound text (b'p' ∷ b'l' ∷ []) (b'a' ∷ b'c' ∷ b'e' ∷ []) token_place
                (rw (e0, e1)) (λ e. inr (inl e)))
            (at text 1 b'o'
              (λ e1.
                check_keyword-Sound text (b'p' ∷ b'o' ∷ []) (b'k' ∷ b'e' ∷ []) token_poke
                  (rw (e0, e1)) (λ e. inr (inl e)))
              (at text 1 b'r'
                (λ e1.
                  check_keyword-Sound text (b'p' ∷ b'r' ∷ []) (b'i' ∷ b'n' ∷ b't' ∷ []) token_print
                    (rw (e0, e1)) (λ e. inr (inl e)))
                (inl refl))))))
      (inl refl)

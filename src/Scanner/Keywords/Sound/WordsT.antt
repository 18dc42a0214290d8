-- ===== src/Scanner/Keywords/Sound/WordsT.antt =====
-- The words of `identifierType` (cyarg/scanner.c) that begin with t.
use yarg_lang.Prelude.{ℕ, ◌≡◌, inl, inr, refl, true, List, [], ◌∷◌, ◌==◌}
use yarg_lang.Scanner.Kinds.{
  token_this, token_true, token_ts_interrupt, token_ts_read, token_ts_set, token_ts_sync,
  token_ts_write,
}
use yarg_lang.Scanner.Keywords.{char_at, word_t}
use yarg_lang.Scanner.Keywords.Sound.Word.{
  Sound, check_keyword-Sound, mem_eq-append, longer, at, same,
}

pub word_t-Sound : (text : List ℕ) → (char_at text 0 == b't') ≡ true → Sound text (word_t text)
unfolding word_t
word_t-Sound text e0 =
    longer text 1
      (at text 1 b'e'
        (λ e1.
          longer text 7
            (same text 2 (b's' ∷ b't' ∷ b'_' ∷ [])
              (λ m.
                at text 5 b'i'
                  (λ e5.
                    check_keyword-Sound text (b't' ∷ b'e' ∷ b's' ∷ b't' ∷ b'_' ∷ b'i' ∷ [])
                      (b'n' ∷ b't' ∷ b'e' ∷ b'r' ∷ b'r' ∷ b'u' ∷ b'p' ∷ b't' ∷ [])
                      token_ts_interrupt
                      (mem_eq-append text 0 5 (b't' ∷ b'e' ∷ b's' ∷ b't' ∷ b'_' ∷ []) (b'i' ∷ [])
                        refl
                        (mem_eq-append text 0 2 (b't' ∷ b'e' ∷ []) (b's' ∷ b't' ∷ b'_' ∷ []) refl
                          (rw (e0, e1)) m)
                        (rw e5))
                      (λ e. inr (inl e)))
                  (at text 5 b'r'
                    (λ e5.
                      check_keyword-Sound text (b't' ∷ b'e' ∷ b's' ∷ b't' ∷ b'_' ∷ b'r' ∷ [])
                        (b'e' ∷ b'a' ∷ b'd' ∷ []) token_ts_read
                        (mem_eq-append text 0 5 (b't' ∷ b'e' ∷ b's' ∷ b't' ∷ b'_' ∷ []) (b'r' ∷ [])
                          refl
                          (mem_eq-append text 0 2 (b't' ∷ b'e' ∷ []) (b's' ∷ b't' ∷ b'_' ∷ []) refl
                            (rw (e0, e1)) m)
                          (rw e5))
                        (λ e. inr (inl e)))
                    (at text 5 b's'
                      (λ e5.
                        at text 6 b'e'
                          (λ e6.
                            check_keyword-Sound text
                              (b't' ∷ b'e' ∷ b's' ∷ b't' ∷ b'_' ∷ b's' ∷ b'e' ∷ []) (b't' ∷ [])
                              token_ts_set
                              (mem_eq-append text 0 5 (b't' ∷ b'e' ∷ b's' ∷ b't' ∷ b'_' ∷ [])
                                (b's' ∷ b'e' ∷ []) refl
                                (mem_eq-append text 0 2 (b't' ∷ b'e' ∷ []) (b's' ∷ b't' ∷ b'_' ∷ [])
                                  refl (rw (e0, e1)) m)
                                (rw (e5, e6)))
                              (λ e. inr (inl e)))
                          (at text 6 b'y'
                            (λ e6.
                              check_keyword-Sound text
                                (b't' ∷ b'e' ∷ b's' ∷ b't' ∷ b'_' ∷ b's' ∷ b'y' ∷ [])
                                (b'n' ∷ b'c' ∷ []) token_ts_sync
                                (mem_eq-append text 0 5 (b't' ∷ b'e' ∷ b's' ∷ b't' ∷ b'_' ∷ [])
                                  (b's' ∷ b'y' ∷ []) refl
                                  (mem_eq-append text 0 2 (b't' ∷ b'e' ∷ [])
                                    (b's' ∷ b't' ∷ b'_' ∷ []) refl (rw (e0, e1)) m)
                                  (rw (e5, e6)))
                                (λ e. inr (inl e)))
                            (check_keyword-Sound text (b't' ∷ b'e' ∷ []) (b'i' ∷ b's' ∷ [])
                              token_this (rw (e0, e1)) (λ e. inr (inr (inr (e, refl)))))))
                      (at text 5 b'w'
                        (λ e5.
                          check_keyword-Sound text (b't' ∷ b'e' ∷ b's' ∷ b't' ∷ b'_' ∷ b'w' ∷ [])
                            (b'r' ∷ b'i' ∷ b't' ∷ b'e' ∷ []) token_ts_write
                            (mem_eq-append text 0 5 (b't' ∷ b'e' ∷ b's' ∷ b't' ∷ b'_' ∷ [])
                              (b'w' ∷ []) refl
                              (mem_eq-append text 0 2 (b't' ∷ b'e' ∷ []) (b's' ∷ b't' ∷ b'_' ∷ [])
                                refl (rw (e0, e1)) m)
                              (rw e5))
                            (λ e. inr (inl e)))
                        (check_keyword-Sound text (b't' ∷ b'e' ∷ []) (b'i' ∷ b's' ∷ []) token_this
                          (rw (e0, e1)) (λ e. inr (inr (inr (e, refl)))))))))
              (check_keyword-Sound text (b't' ∷ b'e' ∷ []) (b'i' ∷ b's' ∷ []) token_this
                (rw (e0, e1)) (λ e. inr (inr (inr (e, refl))))))
            (check_keyword-Sound text (b't' ∷ b'e' ∷ []) (b'i' ∷ b's' ∷ []) token_this (rw (e0, e1))
              (λ e. inr (inr (inr (e, refl))))))
        (at text 1 b'h'
          (λ e1.
            check_keyword-Sound text (b't' ∷ b'h' ∷ []) (b'i' ∷ b's' ∷ []) token_this (rw (e0, e1))
              (λ e. inr (inl e)))
          (at text 1 b'r'
            (λ e1.
              check_keyword-Sound text (b't' ∷ b'r' ∷ []) (b'u' ∷ b'e' ∷ []) token_true
                (rw (e0, e1)) (λ e. inr (inl e)))
            (inl refl))))
      (inl refl)

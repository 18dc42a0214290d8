-- ===== src/Scanner/Keywords/Sound/WordsR.antt =====
-- The words of `identifierType` (cyarg/scanner.c) that begin with r, s, u, v, w, y.
use yarg_lang.Prelude.{ℕ, ◌≡◌, inl, inr, refl, true, List, [], ◌∷◌, ◌==◌}
use yarg_lang.Scanner.Kinds.{
  token_read_yarg_source, token_receive, token_resume, token_return, token_send, token_share,
  token_start, token_struct, token_super, token_type_string, token_uint16, token_uint32,
  token_uint64, token_uint8, token_var, token_vm_read_xip_file, token_while, token_yield,
}
use yarg_lang.Scanner.Keywords.{char_at, word_r, word_s, word_u, word_v, word_w, word_y}
use yarg_lang.Scanner.Keywords.Sound.Word.{
  Sound, check_keyword-Sound, mem_eq-append, longer, at, same,
}

pub word_r-Sound : (text : List ℕ) → (char_at text 0 == b'r') ≡ true → Sound text (word_r text)
unfolding word_r
word_r-Sound text e0 =
    longer text 1
      (at text 1 b'e'
        (λ e1.
          longer text 2
            (at text 2 b'a'
              (λ e2.
                check_keyword-Sound text (b'r' ∷ b'e' ∷ b'a' ∷ [])
                  (b'd' ∷ b'_' ∷ b'y' ∷ b'a' ∷ b'r' ∷ b'g' ∷ b'_' ∷ b's' ∷ b'o' ∷ b'u' ∷ b'r' ∷ b'c'
                    ∷ b'e' ∷ [])
                  token_read_yarg_source (rw (e0, e1, e2)) (λ e. inr (inl e)))
              (at text 2 b'c'
                (λ e2.
                  check_keyword-Sound text (b'r' ∷ b'e' ∷ b'c' ∷ [])
                    (b'e' ∷ b'i' ∷ b'v' ∷ b'e' ∷ []) token_receive (rw (e0, e1, e2))
                    (λ e. inr (inl e)))
                (at text 2 b's'
                  (λ e2.
                    check_keyword-Sound text (b'r' ∷ b'e' ∷ b's' ∷ []) (b'u' ∷ b'm' ∷ b'e' ∷ [])
                      token_resume (rw (e0, e1, e2)) (λ e. inr (inl e)))
                  (at text 2 b't'
                    (λ e2.
                      check_keyword-Sound text (b'r' ∷ b'e' ∷ b't' ∷ []) (b'u' ∷ b'r' ∷ b'n' ∷ [])
                        token_return (rw (e0, e1, e2)) (λ e. inr (inl e)))
                    (inl refl)))))
            (inl refl))
        (inl refl))
      (inl refl)

pub word_s-Sound : (text : List ℕ) → (char_at text 0 == b's') ≡ true → Sound text (word_s text)
unfolding word_s
word_s-Sound text e0 =
    longer text 1
      (at text 1 b'e'
        (λ e1.
          longer text 2
            (at text 2 b'n'
              (λ e2.
                check_keyword-Sound text (b's' ∷ b'e' ∷ b'n' ∷ []) (b'd' ∷ []) token_send
                  (rw (e0, e1, e2)) (λ e. inr (inl e)))
              (inl refl))
            (inl refl))
        (at text 1 b'h'
          (λ e1.
            check_keyword-Sound text (b's' ∷ b'h' ∷ []) (b'a' ∷ b'r' ∷ b'e' ∷ []) token_share
              (rw (e0, e1)) (λ e. inr (inl e)))
          (at text 1 b't'
            (λ e1.
              longer text 2
                (at text 2 b'a'
                  (λ e2.
                    check_keyword-Sound text (b's' ∷ b't' ∷ b'a' ∷ []) (b'r' ∷ b't' ∷ [])
                      token_start (rw (e0, e1, e2)) (λ e. inr (inl e)))
                  (at text 2 b'r'
                    (λ e2.
                      longer text 3
                        (at text 3 b'i'
                          (λ e3.
                            check_keyword-Sound text (b's' ∷ b't' ∷ b'r' ∷ b'i' ∷ [])
                              (b'n' ∷ b'g' ∷ []) token_type_string (rw (e0, e1, e2, e3))
                              (λ e. inr (inl e)))
                          (at text 3 b'u'
                            (λ e3.
                              check_keyword-Sound text (b's' ∷ b't' ∷ b'r' ∷ b'u' ∷ [])
                                (b'c' ∷ b't' ∷ []) token_struct (rw (e0, e1, e2, e3))
                                (λ e. inr (inl e)))
                            (inl refl)))
                        (inl refl))
                    (inl refl)))
                (inl refl))
            (at text 1 b'u'
              (λ e1.
                check_keyword-Sound text (b's' ∷ b'u' ∷ []) (b'p' ∷ b'e' ∷ b'r' ∷ []) token_super
                  (rw (e0, e1)) (λ e. inr (inl e)))
              (inl refl)))))
      (inl refl)

pub word_u-Sound : (text : List ℕ) → (char_at text 0 == b'u') ≡ true → Sound text (word_u text)
unfolding word_u
word_u-Sound text e0 =
    longer text 4
      (same text 1 (b'i' ∷ b'n' ∷ b't' ∷ [])
        (λ m.
          at text 4 b'1'
            (λ e4.
              check_keyword-Sound text (b'u' ∷ b'i' ∷ b'n' ∷ b't' ∷ b'1' ∷ []) (b'6' ∷ [])
                token_uint16
                (mem_eq-append text 0 4 (b'u' ∷ b'i' ∷ b'n' ∷ b't' ∷ []) (b'1' ∷ []) refl
                  (mem_eq-append text 0 1 (b'u' ∷ []) (b'i' ∷ b'n' ∷ b't' ∷ []) refl (rw e0) m)
                  (rw e4))
                (λ e. inr (inl e)))
            (at text 4 b'3'
              (λ e4.
                check_keyword-Sound text (b'u' ∷ b'i' ∷ b'n' ∷ b't' ∷ b'3' ∷ []) (b'2' ∷ [])
                  token_uint32
                  (mem_eq-append text 0 4 (b'u' ∷ b'i' ∷ b'n' ∷ b't' ∷ []) (b'3' ∷ []) refl
                    (mem_eq-append text 0 1 (b'u' ∷ []) (b'i' ∷ b'n' ∷ b't' ∷ []) refl (rw e0) m)
                    (rw e4))
                  (λ e. inr (inl e)))
              (at text 4 b'6'
                (λ e4.
                  check_keyword-Sound text (b'u' ∷ b'i' ∷ b'n' ∷ b't' ∷ b'6' ∷ []) (b'4' ∷ [])
                    token_uint64
                    (mem_eq-append text 0 4 (b'u' ∷ b'i' ∷ b'n' ∷ b't' ∷ []) (b'6' ∷ []) refl
                      (mem_eq-append text 0 1 (b'u' ∷ []) (b'i' ∷ b'n' ∷ b't' ∷ []) refl (rw e0) m)
                      (rw e4))
                    (λ e. inr (inl e)))
                (at text 4 b'8'
                  (λ e4.
                    check_keyword-Sound text (b'u' ∷ b'i' ∷ b'n' ∷ b't' ∷ b'8' ∷ []) [] token_uint8
                      (mem_eq-append text 0 4 (b'u' ∷ b'i' ∷ b'n' ∷ b't' ∷ []) (b'8' ∷ []) refl
                        (mem_eq-append text 0 1 (b'u' ∷ []) (b'i' ∷ b'n' ∷ b't' ∷ []) refl (rw e0)
                          m)
                        (rw e4))
                      (λ e. inr (inl e)))
                  (inl refl)))))
        (inl refl))
      (inl refl)

pub word_v-Sound : (text : List ℕ) → (char_at text 0 == b'v') ≡ true → Sound text (word_v text)
unfolding word_v
word_v-Sound text e0 =
    longer text 1
      (at text 1 b'a'
        (λ e1.
          check_keyword-Sound text (b'v' ∷ b'a' ∷ []) (b'r' ∷ []) token_var (rw (e0, e1))
            (λ e. inr (inl e)))
        (at text 1 b'm'
          (λ e1.
            check_keyword-Sound text (b'v' ∷ b'm' ∷ [])
              (b'_' ∷ b'r' ∷ b'e' ∷ b'a' ∷ b'd' ∷ b'_' ∷ b'x' ∷ b'i' ∷ b'p' ∷ b'_' ∷ b'f' ∷ b'i'
                ∷ b'l' ∷ b'e' ∷ [])
              token_vm_read_xip_file (rw (e0, e1)) (λ e. inr (inl e)))
          (inl refl)))
      (inl refl)

pub word_w-Sound : (text : List ℕ) → (char_at text 0 == b'w') ≡ true → Sound text (word_w text)
unfolding word_w
word_w-Sound text e0 =
    check_keyword-Sound text (b'w' ∷ []) (b'h' ∷ b'i' ∷ b'l' ∷ b'e' ∷ []) token_while (rw e0)
      (λ e. inr (inl e))

pub word_y-Sound : (text : List ℕ) → (char_at text 0 == b'y') ≡ true → Sound text (word_y text)
unfolding word_y
word_y-Sound text e0 =
    check_keyword-Sound text (b'y' ∷ []) (b'i' ∷ b'e' ∷ b'l' ∷ b'd' ∷ []) token_yield (rw e0)
      (λ e. inr (inl e))

-- ===== src/Scanner/Keywords/Sound.antt =====
-- `identifierType` (cyarg/scanner.c) takes for a keyword only how one is written, but for two words.
pub mod Word
pub mod WordsA
pub mod WordsF
pub mod WordsR
pub mod WordsT
use yarg_lang.Prelude.{ℕ, inl, refl, List}
use yarg_lang.Scanner.Keywords.{identifier_type}
use yarg_lang.Scanner.Keywords.Sound.Word.{Sound, at}
use yarg_lang.Scanner.Keywords.Sound.WordsA.{
  word_a-Sound, word_b-Sound, word_c-Sound, word_d-Sound, word_e-Sound,
}
use yarg_lang.Scanner.Keywords.Sound.WordsF.{
  word_f-Sound, word_i-Sound, word_l-Sound, word_m-Sound, word_n-Sound, word_o-Sound, word_p-Sound,
}
use yarg_lang.Scanner.Keywords.Sound.WordsR.{
  word_r-Sound, word_s-Sound, word_u-Sound, word_v-Sound, word_w-Sound, word_y-Sound,
}
use yarg_lang.Scanner.Keywords.Sound.WordsT.{word_t-Sound}

-- Whatever the text, `identifier_type` takes it for an identifier, or for the keyword that is
-- spelled so, or the text is "coeek", taken for `cpeek`, or "teis", taken for `this`.
pub identifier_type-Sound : (text : List ℕ) → Sound text (identifier_type text)
unfolding identifier_type
identifier_type-Sound text = at text 0 b'a' (word_a-Sound text) (
    at text 0 b'b' (word_b-Sound text) (
      at text 0 b'c' (word_c-Sound text) (
        at text 0 b'd' (word_d-Sound text) (
          at text 0 b'e' (word_e-Sound text) (
            at text 0 b'f' (word_f-Sound text) (
              at text 0 b'i' (word_i-Sound text) (
                at text 0 b'l' (word_l-Sound text) (
                  at text 0 b'm' (word_m-Sound text) (
                    at text 0 b'n' (word_n-Sound text) (
                      at text 0 b'o' (word_o-Sound text) (
                        at text 0 b'p' (word_p-Sound text) (
                          at text 0 b'r' (word_r-Sound text) (
                            at text 0 b's' (word_s-Sound text) (
                              at text 0 b't' (word_t-Sound text) (
                                at text 0 b'u' (word_u-Sound text) (
                                  at text 0 b'v' (word_v-Sound text) (
                                    at text 0 b'w' (word_w-Sound text) (
                                      at text 0 b'y' (word_y-Sound text)
                                        (inl refl)))))))))))))))))))

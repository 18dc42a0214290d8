-- ===== src/Scanner/Keywords.antt =====
-- `checkKeyword` and `identifierType` of cyarg/scanner.c: the type of a word, by its first letters. The
-- word is the text from `start` to `current`, and `char_at` reads `start[i]`.
pub mod Spelling
pub mod Sound
pub mod Complete
use yarg_lang.Prelude.{
  ℕ, suc, ◌+◌, Bool, true, false, ◌&&◌, List, [], ◌∷◌, ltb, ◌==◌, if◌then◌else◌, length, get_or,
}
use yarg_lang.Scanner.Kinds.{
  TokenType, token_and, token_any, token_bool, token_break, token_class, token_compile, token_const,
  token_continue, token_cpeek, token_defer, token_else, token_false, token_for, token_fun,
  token_identifier, token_if, token_int, token_int16, token_int32, token_int64, token_int8,
  token_len, token_load, token_machine_float64, token_make_channel, token_make_routine,
  token_make_syncgroup, token_new, token_nil, token_or, token_peek, token_pin, token_place,
  token_poke, token_print, token_read_yarg_source, token_receive, token_resume, token_return,
  token_send, token_share, token_start, token_stmt_error, token_struct, token_super, token_this,
  token_true, token_ts_interrupt, token_ts_read, token_ts_set, token_ts_sync, token_ts_write,
  token_type_string, token_uint16, token_uint32, token_uint64, token_uint8, token_var,
  token_vm_read_xip_file, token_while, token_yield,
}

abbrev pub char_at : List ℕ → ℕ → ℕ
char_at text i = get_or text i 0

-- `memcmp(start + i, s, |s|) == 0`
abbrev pub mem_eq : List ℕ → ℕ → List ℕ → Bool
mem_eq text i [] = true
mem_eq text i (c ∷ s) = char_at text i == c && mem_eq text (suc i) s

unfoldable pub check_keyword : List ℕ → ℕ → ℕ → List ℕ → TokenType → TokenType
check_keyword text start len rest type =
    if length text == start + len && mem_eq text start rest then type else token_identifier

unfoldable pub word_a : List ℕ → TokenType
word_a text =
    if ltb 1 (length text)
    then (if char_at text 1 == b'n'
        then (if ltb 2 (length text)
            then (if char_at text 2 == b'd'
                then check_keyword text 3 0 [] token_and
                else if char_at text 2 == b'y'
                then check_keyword text 3 0 [] token_any
                else token_identifier)
            else token_identifier)
        else token_identifier)
    else token_identifier

unfoldable pub word_b : List ℕ → TokenType
word_b text =
    if ltb 1 (length text)
    then (if char_at text 1 == b'o'
        then check_keyword text 2 2 (b'o' ∷ b'l' ∷ []) token_bool
        else if char_at text 1 == b'r'
        then check_keyword text 2 3 (b'e' ∷ b'a' ∷ b'k' ∷ []) token_break
        else token_identifier)
    else token_identifier

unfoldable pub word_c : List ℕ → TokenType
word_c text =
    if ltb 1 (length text)
    then (if char_at text 1 == b'l'
        then check_keyword text 2 3 (b'a' ∷ b's' ∷ b's' ∷ []) token_class
        else if char_at text 1 == b'o'
        then (if ltb 2 (length text)
            then (if char_at text 2 == b'm'
                then check_keyword text 3 4 (b'p' ∷ b'i' ∷ b'l' ∷ b'e' ∷ []) token_compile
                else if char_at text 2 == b'n'
                then (if ltb 3 (length text)
                    then (if char_at text 3 == b's'
                        then check_keyword text 4 1 (b't' ∷ []) token_const
                        else if char_at text 3 == b't'
                        then check_keyword text 4 4 (b'i' ∷ b'n' ∷ b'u' ∷ b'e' ∷ []) token_continue
                        else check_keyword text 2 3 (b'e' ∷ b'e' ∷ b'k' ∷ []) token_cpeek)
                    else check_keyword text 2 3 (b'e' ∷ b'e' ∷ b'k' ∷ []) token_cpeek)
                else check_keyword text 2 3 (b'e' ∷ b'e' ∷ b'k' ∷ []) token_cpeek)
            else check_keyword text 2 3 (b'e' ∷ b'e' ∷ b'k' ∷ []) token_cpeek)
        else if char_at text 1 == b'p'
        then check_keyword text 2 3 (b'e' ∷ b'e' ∷ b'k' ∷ []) token_cpeek
        else token_identifier)
    else token_identifier

unfoldable pub word_d : List ℕ → TokenType
word_d text =
    if ltb 1 (length text)
    then (if char_at text 1 == b'e'
        then check_keyword text 2 3 (b'f' ∷ b'e' ∷ b'r' ∷ []) token_defer
        else token_identifier)
    else token_identifier

unfoldable pub word_e : List ℕ → TokenType
word_e text =
    if ltb 1 (length text)
    then (if char_at text 1 == b'l'
        then check_keyword text 2 2 (b's' ∷ b'e' ∷ []) token_else
        else if char_at text 1 == b'r'
        then check_keyword text 2 3 (b'r' ∷ b'o' ∷ b'r' ∷ []) token_stmt_error
        else token_identifier)
    else token_identifier

unfoldable pub word_f : List ℕ → TokenType
word_f text =
    if ltb 1 (length text)
    then (if char_at text 1 == b'a'
        then check_keyword text 2 3 (b'l' ∷ b's' ∷ b'e' ∷ []) token_false
        else if char_at text 1 == b'o'
        then check_keyword text 2 1 (b'r' ∷ []) token_for
        else if char_at text 1 == b'u'
        then check_keyword text 2 1 (b'n' ∷ []) token_fun
        else token_identifier)
    else token_identifier

unfoldable pub word_i : List ℕ → TokenType
word_i text =
    if ltb 1 (length text)
    then (if char_at text 1 == b'f'
        then check_keyword text 2 0 [] token_if
        else if char_at text 1 == b'n'
        then (if ltb 2 (length text)
            then (if char_at text 2 == b't'
                then (if ltb 3 (length text)
                    then (if char_at text 3 == b'1'
                        then check_keyword text 4 1 (b'6' ∷ []) token_int16
                        else if char_at text 3 == b'3'
                        then check_keyword text 4 1 (b'2' ∷ []) token_int32
                        else if char_at text 3 == b'6'
                        then check_keyword text 4 1 (b'4' ∷ []) token_int64
                        else if char_at text 3 == b'8'
                        then check_keyword text 4 0 [] token_int8
                        else token_identifier)
                    else check_keyword text 3 0 [] token_int)
                else token_identifier)
            else token_identifier)
        else token_identifier)
    else token_identifier

unfoldable pub word_l : List ℕ → TokenType
word_l text =
    if ltb 1 (length text)
    then (if char_at text 1 == b'e'
        then check_keyword text 2 1 (b'n' ∷ []) token_len
        else if char_at text 1 == b'o'
        then check_keyword text 2 2 (b'a' ∷ b'd' ∷ []) token_load
        else token_identifier)
    else token_identifier

unfoldable pub word_m : List ℕ → TokenType
word_m text =
    if ltb 1 (length text)
    then (if char_at text 1 == b'a'
        then (if ltb 5 (length text)
            then (if mem_eq text 2 (b'k' ∷ b'e' ∷ b'_' ∷ [])
                then (if char_at text 5 == b'c'
                    then check_keyword text 6 6 (b'h' ∷ b'a' ∷ b'n' ∷ b'n' ∷ b'e' ∷ b'l' ∷ [])
                        token_make_channel
                    else if char_at text 5 == b'r'
                    then check_keyword text 6 6 (b'o' ∷ b'u' ∷ b't' ∷ b'i' ∷ b'n' ∷ b'e' ∷ [])
                        token_make_routine
                    else if char_at text 5 == b's'
                    then check_keyword text 6 9
                        (b'y' ∷ b'n' ∷ b'c' ∷ b'_' ∷ b'g' ∷ b'r' ∷ b'o' ∷ b'u' ∷ b'p' ∷ [])
                        token_make_syncgroup
                    else token_identifier)
                else token_identifier)
            else token_identifier)
        else if char_at text 1 == b'f'
        then check_keyword text 2 6 (b'l' ∷ b'o' ∷ b'a' ∷ b't' ∷ b'6' ∷ b'4' ∷ [])
            token_machine_float64
        else token_identifier)
    else token_identifier

unfoldable pub word_n : List ℕ → TokenType
word_n text =
    if ltb 1 (length text)
    then (if char_at text 1 == b'e'
        then check_keyword text 2 1 (b'w' ∷ []) token_new
        else if char_at text 1 == b'i'
        then check_keyword text 2 1 (b'l' ∷ []) token_nil
        else token_identifier)
    else token_identifier

unfoldable pub word_o : List ℕ → TokenType
word_o text = check_keyword text 1 1 (b'r' ∷ []) token_or

unfoldable pub word_p : List ℕ → TokenType
word_p text =
    if ltb 1 (length text)
    then (if char_at text 1 == b'e'
        then check_keyword text 2 2 (b'e' ∷ b'k' ∷ []) token_peek
        else if char_at text 1 == b'i'
        then check_keyword text 2 1 (b'n' ∷ []) token_pin
        else if char_at text 1 == b'l'
        then check_keyword text 2 3 (b'a' ∷ b'c' ∷ b'e' ∷ []) token_place
        else if char_at text 1 == b'o'
        then check_keyword text 2 2 (b'k' ∷ b'e' ∷ []) token_poke
        else if char_at text 1 == b'r'
        then check_keyword text 2 3 (b'i' ∷ b'n' ∷ b't' ∷ []) token_print
        else token_identifier)
    else token_identifier

unfoldable pub word_r : List ℕ → TokenType
word_r text =
    if ltb 1 (length text)
    then (if char_at text 1 == b'e'
        then (if ltb 2 (length text)
            then (if char_at text 2 == b'a'
                then check_keyword text 3 13
                    (b'd' ∷ b'_' ∷ b'y' ∷ b'a' ∷ b'r' ∷ b'g' ∷ b'_' ∷ b's' ∷ b'o' ∷ b'u' ∷ b'r'
                      ∷ b'c' ∷ b'e' ∷ [])
                    token_read_yarg_source
                else if char_at text 2 == b'c'
                then check_keyword text 3 4 (b'e' ∷ b'i' ∷ b'v' ∷ b'e' ∷ []) token_receive
                else if char_at text 2 == b's'
                then check_keyword text 3 3 (b'u' ∷ b'm' ∷ b'e' ∷ []) token_resume
                else if char_at text 2 == b't'
                then check_keyword text 3 3 (b'u' ∷ b'r' ∷ b'n' ∷ []) token_return
                else token_identifier)
            else token_identifier)
        else token_identifier)
    else token_identifier

unfoldable pub word_s : List ℕ → TokenType
word_s text =
    if ltb 1 (length text)
    then (if char_at text 1 == b'e'
        then (if ltb 2 (length text)
            then (if char_at text 2 == b'n'
                then check_keyword text 3 1 (b'd' ∷ []) token_send
                else token_identifier)
            else token_identifier)
        else if char_at text 1 == b'h'
        then check_keyword text 2 3 (b'a' ∷ b'r' ∷ b'e' ∷ []) token_share
        else if char_at text 1 == b't'
        then (if ltb 2 (length text)
            then (if char_at text 2 == b'a'
                then check_keyword text 3 2 (b'r' ∷ b't' ∷ []) token_start
                else if char_at text 2 == b'r'
                then (if ltb 3 (length text)
                    then (if char_at text 3 == b'i'
                        then check_keyword text 4 2 (b'n' ∷ b'g' ∷ []) token_type_string
                        else if char_at text 3 == b'u'
                        then check_keyword text 4 2 (b'c' ∷ b't' ∷ []) token_struct
                        else token_identifier)
                    else token_identifier)
                else token_identifier)
            else token_identifier)
        else if char_at text 1 == b'u'
        then check_keyword text 2 3 (b'p' ∷ b'e' ∷ b'r' ∷ []) token_super
        else token_identifier)
    else token_identifier

unfoldable pub word_t : List ℕ → TokenType
word_t text =
    if ltb 1 (length text)
    then (if char_at text 1 == b'e'
        then (if ltb 7 (length text)
            then (if mem_eq text 2 (b's' ∷ b't' ∷ b'_' ∷ [])
                then (if char_at text 5 == b'i'
                    then check_keyword text 6 8
                        (b'n' ∷ b't' ∷ b'e' ∷ b'r' ∷ b'r' ∷ b'u' ∷ b'p' ∷ b't' ∷ [])
                        token_ts_interrupt
                    else if char_at text 5 == b'r'
                    then check_keyword text 6 3 (b'e' ∷ b'a' ∷ b'd' ∷ []) token_ts_read
                    else if char_at text 5 == b's'
                    then (if char_at text 6 == b'e'
                        then check_keyword text 7 1 (b't' ∷ []) token_ts_set
                        else if char_at text 6 == b'y'
                        then check_keyword text 7 2 (b'n' ∷ b'c' ∷ []) token_ts_sync
                        else check_keyword text 2 2 (b'i' ∷ b's' ∷ []) token_this)
                    else if char_at text 5 == b'w'
                    then check_keyword text 6 4 (b'r' ∷ b'i' ∷ b't' ∷ b'e' ∷ []) token_ts_write
                    else check_keyword text 2 2 (b'i' ∷ b's' ∷ []) token_this)
                else check_keyword text 2 2 (b'i' ∷ b's' ∷ []) token_this)
            else check_keyword text 2 2 (b'i' ∷ b's' ∷ []) token_this)
        else if char_at text 1 == b'h'
        then check_keyword text 2 2 (b'i' ∷ b's' ∷ []) token_this
        else if char_at text 1 == b'r'
        then check_keyword text 2 2 (b'u' ∷ b'e' ∷ []) token_true
        else token_identifier)
    else token_identifier

unfoldable pub word_u : List ℕ → TokenType
word_u text =
    if ltb 4 (length text)
    then (if mem_eq text 1 (b'i' ∷ b'n' ∷ b't' ∷ [])
        then (if char_at text 4 == b'1'
            then check_keyword text 5 1 (b'6' ∷ []) token_uint16
            else if char_at text 4 == b'3'
            then check_keyword text 5 1 (b'2' ∷ []) token_uint32
            else if char_at text 4 == b'6'
            then check_keyword text 5 1 (b'4' ∷ []) token_uint64
            else if char_at text 4 == b'8'
            then check_keyword text 5 0 [] token_uint8
            else token_identifier)
        else token_identifier)
    else token_identifier

unfoldable pub word_v : List ℕ → TokenType
word_v text =
    if ltb 1 (length text)
    then (if char_at text 1 == b'a'
        then check_keyword text 2 1 (b'r' ∷ []) token_var
        else if char_at text 1 == b'm'
        then check_keyword text 2 14
            (b'_' ∷ b'r' ∷ b'e' ∷ b'a' ∷ b'd' ∷ b'_' ∷ b'x' ∷ b'i' ∷ b'p' ∷ b'_' ∷ b'f' ∷ b'i'
              ∷ b'l' ∷ b'e' ∷ [])
            token_vm_read_xip_file
        else token_identifier)
    else token_identifier

unfoldable pub word_w : List ℕ → TokenType
word_w text = check_keyword text 1 4 (b'h' ∷ b'i' ∷ b'l' ∷ b'e' ∷ []) token_while

unfoldable pub word_y : List ℕ → TokenType
word_y text = check_keyword text 1 4 (b'i' ∷ b'e' ∷ b'l' ∷ b'd' ∷ []) token_yield

-- The `switch` on the first letter.
unfoldable pub identifier_type : List ℕ → TokenType
identifier_type text =
    if char_at text 0 == b'a'
    then word_a text
    else if char_at text 0 == b'b'
    then word_b text
    else if char_at text 0 == b'c'
    then word_c text
    else if char_at text 0 == b'd'
    then word_d text
    else if char_at text 0 == b'e'
    then word_e text
    else if char_at text 0 == b'f'
    then word_f text
    else if char_at text 0 == b'i'
    then word_i text
    else if char_at text 0 == b'l'
    then word_l text
    else if char_at text 0 == b'm'
    then word_m text
    else if char_at text 0 == b'n'
    then word_n text
    else if char_at text 0 == b'o'
    then word_o text
    else if char_at text 0 == b'p'
    then word_p text
    else if char_at text 0 == b'r'
    then word_r text
    else if char_at text 0 == b's'
    then word_s text
    else if char_at text 0 == b't'
    then word_t text
    else if char_at text 0 == b'u'
    then word_u text
    else if char_at text 0 == b'v'
    then word_v text
    else if char_at text 0 == b'w'
    then word_w text
    else if char_at text 0 == b'y'
    then word_y text
    else token_identifier

-- ===== src/Scanner/Keywords/Spelling.antt =====
-- How each keyword of the language is written (the words of cyarg/scanner.c).
use yarg_lang.Prelude.{ℕ, List, [], ◌∷◌}
use yarg_lang.Scanner.Kinds.{
  TokenType, token_cpeek, token_this, token_and, token_any, token_bool, token_break, token_class,
  token_compile, token_const, token_continue, token_defer, token_else, token_stmt_error,
  token_false, token_for, token_fun, token_if, token_int16, token_int32, token_int64, token_int8,
  token_int, token_len, token_load, token_make_channel, token_make_routine, token_make_syncgroup,
  token_machine_float64, token_new, token_nil, token_or, token_peek, token_pin, token_place,
  token_poke, token_print, token_read_yarg_source, token_receive, token_resume, token_return,
  token_send, token_share, token_start, token_type_string, token_struct, token_super,
  token_ts_interrupt, token_ts_read, token_ts_set, token_ts_sync, token_ts_write, token_true,
  token_uint16, token_uint32, token_uint64, token_uint8, token_var, token_vm_read_xip_file,
  token_while, token_yield,
}

-- A kind of token that is no keyword has no spelling.
abbrev pub spelling : TokenType → List ℕ
spelling token_cpeek = b'c' ∷ b'p' ∷ b'e' ∷ b'e' ∷ b'k' ∷ []
spelling token_this = b't' ∷ b'h' ∷ b'i' ∷ b's' ∷ []
spelling token_and = b'a' ∷ b'n' ∷ b'd' ∷ []
spelling token_any = b'a' ∷ b'n' ∷ b'y' ∷ []
spelling token_bool = b'b' ∷ b'o' ∷ b'o' ∷ b'l' ∷ []
spelling token_break = b'b' ∷ b'r' ∷ b'e' ∷ b'a' ∷ b'k' ∷ []
spelling token_class = b'c' ∷ b'l' ∷ b'a' ∷ b's' ∷ b's' ∷ []
spelling token_compile = b'c' ∷ b'o' ∷ b'm' ∷ b'p' ∷ b'i' ∷ b'l' ∷ b'e' ∷ []
spelling token_const = b'c' ∷ b'o' ∷ b'n' ∷ b's' ∷ b't' ∷ []
spelling token_continue = b'c' ∷ b'o' ∷ b'n' ∷ b't' ∷ b'i' ∷ b'n' ∷ b'u' ∷ b'e' ∷ []
spelling token_defer = b'd' ∷ b'e' ∷ b'f' ∷ b'e' ∷ b'r' ∷ []
spelling token_else = b'e' ∷ b'l' ∷ b's' ∷ b'e' ∷ []
spelling token_stmt_error = b'e' ∷ b'r' ∷ b'r' ∷ b'o' ∷ b'r' ∷ []
spelling token_false = b'f' ∷ b'a' ∷ b'l' ∷ b's' ∷ b'e' ∷ []
spelling token_for = b'f' ∷ b'o' ∷ b'r' ∷ []
spelling token_fun = b'f' ∷ b'u' ∷ b'n' ∷ []
spelling token_if = b'i' ∷ b'f' ∷ []
spelling token_int16 = b'i' ∷ b'n' ∷ b't' ∷ b'1' ∷ b'6' ∷ []
spelling token_int32 = b'i' ∷ b'n' ∷ b't' ∷ b'3' ∷ b'2' ∷ []
spelling token_int64 = b'i' ∷ b'n' ∷ b't' ∷ b'6' ∷ b'4' ∷ []
spelling token_int8 = b'i' ∷ b'n' ∷ b't' ∷ b'8' ∷ []
spelling token_int = b'i' ∷ b'n' ∷ b't' ∷ []
spelling token_len = b'l' ∷ b'e' ∷ b'n' ∷ []
spelling token_load = b'l' ∷ b'o' ∷ b'a' ∷ b'd' ∷ []
spelling token_make_channel =
    b'm' ∷ b'a' ∷ b'k' ∷ b'e' ∷ b'_' ∷ b'c' ∷ b'h' ∷ b'a' ∷ b'n' ∷ b'n' ∷ b'e' ∷ b'l' ∷ []
spelling token_make_routine =
    b'm' ∷ b'a' ∷ b'k' ∷ b'e' ∷ b'_' ∷ b'r' ∷ b'o' ∷ b'u' ∷ b't' ∷ b'i' ∷ b'n' ∷ b'e' ∷ []
spelling token_make_syncgroup =
    b'm' ∷ b'a' ∷ b'k' ∷ b'e' ∷ b'_' ∷ b's' ∷ b'y' ∷ b'n' ∷ b'c' ∷ b'_' ∷ b'g' ∷ b'r' ∷ b'o' ∷ b'u'
    ∷ b'p' ∷ []
spelling token_machine_float64 = b'm' ∷ b'f' ∷ b'l' ∷ b'o' ∷ b'a' ∷ b't' ∷ b'6' ∷ b'4' ∷ []
spelling token_new = b'n' ∷ b'e' ∷ b'w' ∷ []
spelling token_nil = b'n' ∷ b'i' ∷ b'l' ∷ []
spelling token_or = b'o' ∷ b'r' ∷ []
spelling token_peek = b'p' ∷ b'e' ∷ b'e' ∷ b'k' ∷ []
spelling token_pin = b'p' ∷ b'i' ∷ b'n' ∷ []
spelling token_place = b'p' ∷ b'l' ∷ b'a' ∷ b'c' ∷ b'e' ∷ []
spelling token_poke = b'p' ∷ b'o' ∷ b'k' ∷ b'e' ∷ []
spelling token_print = b'p' ∷ b'r' ∷ b'i' ∷ b'n' ∷ b't' ∷ []
spelling token_read_yarg_source =
    b'r' ∷ b'e' ∷ b'a' ∷ b'd' ∷ b'_' ∷ b'y' ∷ b'a' ∷ b'r' ∷ b'g' ∷ b'_' ∷ b's' ∷ b'o' ∷ b'u' ∷ b'r'
    ∷ b'c' ∷ b'e' ∷ []
spelling token_receive = b'r' ∷ b'e' ∷ b'c' ∷ b'e' ∷ b'i' ∷ b'v' ∷ b'e' ∷ []
spelling token_resume = b'r' ∷ b'e' ∷ b's' ∷ b'u' ∷ b'm' ∷ b'e' ∷ []
spelling token_return = b'r' ∷ b'e' ∷ b't' ∷ b'u' ∷ b'r' ∷ b'n' ∷ []
spelling token_send = b's' ∷ b'e' ∷ b'n' ∷ b'd' ∷ []
spelling token_share = b's' ∷ b'h' ∷ b'a' ∷ b'r' ∷ b'e' ∷ []
spelling token_start = b's' ∷ b't' ∷ b'a' ∷ b'r' ∷ b't' ∷ []
spelling token_type_string = b's' ∷ b't' ∷ b'r' ∷ b'i' ∷ b'n' ∷ b'g' ∷ []
spelling token_struct = b's' ∷ b't' ∷ b'r' ∷ b'u' ∷ b'c' ∷ b't' ∷ []
spelling token_super = b's' ∷ b'u' ∷ b'p' ∷ b'e' ∷ b'r' ∷ []
spelling token_ts_interrupt =
    b't' ∷ b'e' ∷ b's' ∷ b't' ∷ b'_' ∷ b'i' ∷ b'n' ∷ b't' ∷ b'e' ∷ b'r' ∷ b'r' ∷ b'u' ∷ b'p' ∷ b't'
    ∷ []
spelling token_ts_read = b't' ∷ b'e' ∷ b's' ∷ b't' ∷ b'_' ∷ b'r' ∷ b'e' ∷ b'a' ∷ b'd' ∷ []
spelling token_ts_set = b't' ∷ b'e' ∷ b's' ∷ b't' ∷ b'_' ∷ b's' ∷ b'e' ∷ b't' ∷ []
spelling token_ts_sync = b't' ∷ b'e' ∷ b's' ∷ b't' ∷ b'_' ∷ b's' ∷ b'y' ∷ b'n' ∷ b'c' ∷ []
spelling token_ts_write = b't' ∷ b'e' ∷ b's' ∷ b't' ∷ b'_' ∷ b'w' ∷ b'r' ∷ b'i' ∷ b't' ∷ b'e' ∷ []
spelling token_true = b't' ∷ b'r' ∷ b'u' ∷ b'e' ∷ []
spelling token_uint16 = b'u' ∷ b'i' ∷ b'n' ∷ b't' ∷ b'1' ∷ b'6' ∷ []
spelling token_uint32 = b'u' ∷ b'i' ∷ b'n' ∷ b't' ∷ b'3' ∷ b'2' ∷ []
spelling token_uint64 = b'u' ∷ b'i' ∷ b'n' ∷ b't' ∷ b'6' ∷ b'4' ∷ []
spelling token_uint8 = b'u' ∷ b'i' ∷ b'n' ∷ b't' ∷ b'8' ∷ []
spelling token_var = b'v' ∷ b'a' ∷ b'r' ∷ []
spelling token_vm_read_xip_file =
    b'v' ∷ b'm' ∷ b'_' ∷ b'r' ∷ b'e' ∷ b'a' ∷ b'd' ∷ b'_' ∷ b'x' ∷ b'i' ∷ b'p' ∷ b'_' ∷ b'f' ∷ b'i'
    ∷ b'l' ∷ b'e' ∷ []
spelling token_while = b'w' ∷ b'h' ∷ b'i' ∷ b'l' ∷ b'e' ∷ []
spelling token_yield = b'y' ∷ b'i' ∷ b'e' ∷ b'l' ∷ b'd' ∷ []
spelling _ = []

abbrev pub keywords : List TokenType
keywords =
    token_cpeek ∷ token_this ∷ token_and ∷ token_any ∷ token_bool ∷ token_break ∷ token_class
    ∷ token_compile ∷ token_const ∷ token_continue ∷ token_defer ∷ token_else ∷ token_stmt_error
    ∷ token_false ∷ token_for ∷ token_fun ∷ token_if ∷ token_int16 ∷ token_int32 ∷ token_int64
    ∷ token_int8 ∷ token_int ∷ token_len ∷ token_load ∷ token_make_channel ∷ token_make_routine
    ∷ token_make_syncgroup ∷ token_machine_float64 ∷ token_new ∷ token_nil ∷ token_or ∷ token_peek
    ∷ token_pin ∷ token_place ∷ token_poke ∷ token_print ∷ token_read_yarg_source ∷ token_receive
    ∷ token_resume ∷ token_return ∷ token_send ∷ token_share ∷ token_start ∷ token_type_string
    ∷ token_struct ∷ token_super ∷ token_ts_interrupt ∷ token_ts_read ∷ token_ts_set ∷ token_ts_sync
    ∷ token_ts_write ∷ token_true ∷ token_uint16 ∷ token_uint32 ∷ token_uint64 ∷ token_uint8
    ∷ token_var ∷ token_vm_read_xip_file ∷ token_while ∷ token_yield ∷ []

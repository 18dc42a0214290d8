-- ===== src/Parser/Kinds.antt =====
-- cyarg/scanner.h: the number of each kind of token in its enumeration, and cyarg/parser.c: the tests
-- on kinds.
use yarg_lang.Prelude.{ℕ, ◌==◌, Bool, true, false}
use yarg_lang.Scanner.Kinds.{
  TokenType, token_left_paren, token_right_paren, token_left_brace, token_right_brace,
  token_left_square_bracket, token_right_square_bracket, token_comma, token_dot, token_minus,
  token_plus, token_semicolon, token_slash, token_star, token_at, token_bar, token_amp, token_caret,
  token_percent, token_colon, token_bang, token_bang_equal, token_equal, token_equal_equal,
  token_greater, token_greater_equal, token_right_shift, token_less, token_less_equal,
  token_left_shift, token_address, token_identifier, token_string, token_number, token_and,
  token_any, token_bool, token_break, token_class, token_compile, token_const, token_continue,
  token_cpeek, token_defer, token_else, token_stmt_error, token_false, token_for, token_fun,
  token_if, token_int, token_int8, token_int16, token_int32, token_int64, token_len,
  token_machine_float64, token_make_channel, token_make_routine, token_make_syncgroup, token_new,
  token_nil, token_or, token_peek, token_pin, token_place, token_poke, token_print,
  token_read_yarg_source, token_receive, token_resume, token_return, token_send, token_share,
  token_start, token_type_string, token_struct, token_super, token_this, token_true, token_uint8,
  token_uint16, token_uint32, token_uint64, token_var, token_vm_read_xip_file, token_while,
  token_yield, token_load, token_ts_set, token_ts_read, token_ts_write, token_ts_interrupt,
  token_ts_sync, token_error, token_eof,
}

abbrev pub kind_code : TokenType → ℕ
kind_code token_left_paren = 0
kind_code token_right_paren = 1
kind_code token_left_brace = 2
kind_code token_right_brace = 3
kind_code token_left_square_bracket = 4
kind_code token_right_square_bracket = 5
kind_code token_comma = 6
kind_code token_dot = 7
kind_code token_minus = 8
kind_code token_plus = 9
kind_code token_semicolon = 10
kind_code token_slash = 11
kind_code token_star = 12
kind_code token_at = 13
kind_code token_bar = 14
kind_code token_amp = 15
kind_code token_caret = 16
kind_code token_percent = 17
kind_code token_colon = 18
kind_code token_bang = 19
kind_code token_bang_equal = 20
kind_code token_equal = 21
kind_code token_equal_equal = 22
kind_code token_greater = 23
kind_code token_greater_equal = 24
kind_code token_right_shift = 25
kind_code token_less = 26
kind_code token_less_equal = 27
kind_code token_left_shift = 28
kind_code token_address = 29
kind_code token_identifier = 30
kind_code token_string = 31
kind_code token_number = 32
kind_code token_and = 33
kind_code token_any = 34
kind_code token_bool = 35
kind_code token_break = 36
kind_code token_class = 37
kind_code token_compile = 38
kind_code token_const = 39
kind_code token_continue = 40
kind_code token_cpeek = 41
kind_code token_defer = 42
kind_code token_else = 43
kind_code token_stmt_error = 44
kind_code token_false = 45
kind_code token_for = 46
kind_code token_fun = 47
kind_code token_if = 48
kind_code token_int = 49
kind_code token_int8 = 50
kind_code token_int16 = 51
kind_code token_int32 = 52
kind_code token_int64 = 53
kind_code token_len = 54
kind_code token_machine_float64 = 55
kind_code token_make_channel = 56
kind_code token_make_routine = 57
kind_code token_make_syncgroup = 58
kind_code token_new = 59
kind_code token_nil = 60
kind_code token_or = 61
kind_code token_peek = 62
kind_code token_pin = 63
kind_code token_place = 64
kind_code token_poke = 65
kind_code token_print = 66
kind_code token_read_yarg_source = 67
kind_code token_receive = 68
kind_code token_resume = 69
kind_code token_return = 70
kind_code token_send = 71
kind_code token_share = 72
kind_code token_start = 73
kind_code token_type_string = 74
kind_code token_struct = 75
kind_code token_super = 76
kind_code token_this = 77
kind_code token_true = 78
kind_code token_uint8 = 79
kind_code token_uint16 = 80
kind_code token_uint32 = 81
kind_code token_uint64 = 82
kind_code token_var = 83
kind_code token_vm_read_xip_file = 84
kind_code token_while = 85
kind_code token_yield = 86
kind_code token_load = 87
kind_code token_ts_set = 88
kind_code token_ts_read = 89
kind_code token_ts_write = 90
kind_code token_ts_interrupt = 91
kind_code token_ts_sync = 92
kind_code token_error = 93
kind_code token_eof = 94

infix 50 ◌=?◌
abbrev pub ◌=?◌ : TokenType → TokenType → Bool
a =? b = kind_code a == kind_code b

-- `checkTypeToken`, on the kind of the current token.
abbrev pub is_type_token : TokenType → Bool
is_type_token token_machine_float64 = true
is_type_token token_int8 = true
is_type_token token_uint8 = true
is_type_token token_int16 = true
is_type_token token_uint16 = true
is_type_token token_int32 = true
is_type_token token_uint32 = true
is_type_token token_int64 = true
is_type_token token_uint64 = true
is_type_token token_bool = true
is_type_token token_type_string = true
is_type_token token_any = true
is_type_token token_struct = true
is_type_token token_int = true
is_type_token _ = false

-- The kinds at which `synchronize` stops.
abbrev pub starts_statement : TokenType → Bool
starts_statement token_class = true
starts_statement token_fun = true
starts_statement token_var = true
starts_statement token_for = true
starts_statement token_if = true
starts_statement token_while = true
starts_statement token_print = true
starts_statement token_return = true
starts_statement token_load = true
starts_statement _ = false

-- ===== src/Parser/Rules.antt =====
-- cyarg/parser.c: the precedences, and the table `rules` of the functions that parse each kind of token.
-- A rule is named after the function that the table holds; `none` is a null pointer of the table.
use yarg_lang.Prelude.{ℕ, Option, none, some}
use yarg_lang.Scanner.Kinds.{
  TokenType, token_left_paren, token_left_square_bracket, token_dot, token_minus, token_plus,
  token_slash, token_star, token_bar, token_amp, token_caret, token_percent, token_bang,
  token_bang_equal, token_equal_equal, token_greater, token_greater_equal, token_right_shift,
  token_less, token_less_equal, token_left_shift, token_address, token_identifier, token_string,
  token_number, token_and, token_any, token_bool, token_break, token_compile, token_const,
  token_continue, token_cpeek, token_defer, token_false, token_int, token_int8, token_int16,
  token_int32, token_int64, token_len, token_machine_float64, token_make_channel,
  token_make_routine, token_make_syncgroup, token_new, token_nil, token_or, token_peek, token_pin,
  token_read_yarg_source, token_receive, token_resume, token_send, token_share, token_start,
  token_type_string, token_struct, token_super, token_this, token_true, token_uint8, token_uint16,
  token_uint32, token_uint64, token_vm_read_xip_file, token_load, token_ts_set, token_ts_read,
  token_ts_write, token_ts_interrupt, token_ts_sync,
}

abbrev pub prec_none : ℕ
prec_none = 0

abbrev pub prec_assignment : ℕ
prec_assignment = 1

abbrev pub prec_or : ℕ
prec_or = 2

abbrev pub prec_and : ℕ
prec_and = 3

abbrev pub prec_equality : ℕ
prec_equality = 4

abbrev pub prec_comparison : ℕ
prec_comparison = 5

abbrev pub prec_term : ℕ
prec_term = 6

abbrev pub prec_factor : ℕ
prec_factor = 7

abbrev pub prec_unary : ℕ
prec_unary = 8

abbrev pub prec_call : ℕ
prec_call = 9

abbrev pub prec_deref : ℕ
prec_deref = 10

abbrev pub prec_primary : ℕ
prec_primary = 11

pub data Prefix : Type 0 where
  grouping collectioninit unary unary_place address variable string number type_ reserved builtin
        literal super_ this_ :
      Prefix

pub data Infix : Type 0 where
  call deref dot binary and_ reserved or_ : Infix

abbrev pub prefix_rule : TokenType → Option Prefix
prefix_rule token_left_paren = some Prefix.grouping
prefix_rule token_left_square_bracket = some Prefix.collectioninit
prefix_rule token_minus = some Prefix.unary
prefix_rule token_star = some Prefix.unary_place
prefix_rule token_bang = some Prefix.unary
prefix_rule token_address = some Prefix.address
prefix_rule token_identifier = some Prefix.variable
prefix_rule token_string = some Prefix.string
prefix_rule token_number = some Prefix.number
prefix_rule token_any = some Prefix.type_
prefix_rule token_bool = some Prefix.type_
prefix_rule token_break = some Prefix.reserved
prefix_rule token_compile = some Prefix.builtin
prefix_rule token_const = some Prefix.reserved
prefix_rule token_continue = some Prefix.reserved
prefix_rule token_cpeek = some Prefix.builtin
prefix_rule token_defer = some Prefix.reserved
prefix_rule token_false = some Prefix.literal
prefix_rule token_int8 = some Prefix.type_
prefix_rule token_int16 = some Prefix.type_
prefix_rule token_int32 = some Prefix.type_
prefix_rule token_int64 = some Prefix.type_
prefix_rule token_len = some Prefix.builtin
prefix_rule token_machine_float64 = some Prefix.type_
prefix_rule token_make_channel = some Prefix.builtin
prefix_rule token_make_routine = some Prefix.builtin
prefix_rule token_make_syncgroup = some Prefix.builtin
prefix_rule token_new = some Prefix.builtin
prefix_rule token_nil = some Prefix.literal
prefix_rule token_peek = some Prefix.builtin
prefix_rule token_pin = some Prefix.builtin
prefix_rule token_read_yarg_source = some Prefix.builtin
prefix_rule token_receive = some Prefix.builtin
prefix_rule token_resume = some Prefix.builtin
prefix_rule token_send = some Prefix.builtin
prefix_rule token_share = some Prefix.builtin
prefix_rule token_start = some Prefix.builtin
prefix_rule token_type_string = some Prefix.type_
prefix_rule token_struct = some Prefix.type_
prefix_rule token_super = some Prefix.super_
prefix_rule token_this = some Prefix.this_
prefix_rule token_true = some Prefix.literal
prefix_rule token_uint8 = some Prefix.type_
prefix_rule token_uint16 = some Prefix.type_
prefix_rule token_uint32 = some Prefix.type_
prefix_rule token_uint64 = some Prefix.type_
prefix_rule token_vm_read_xip_file = some Prefix.builtin
prefix_rule token_ts_set = some Prefix.builtin
prefix_rule token_ts_read = some Prefix.builtin
prefix_rule token_ts_write = some Prefix.builtin
prefix_rule token_ts_interrupt = some Prefix.builtin
prefix_rule token_ts_sync = some Prefix.builtin
prefix_rule token_int = some Prefix.type_
prefix_rule token_load = some Prefix.builtin
prefix_rule _ = none

abbrev pub infix_rule : TokenType → Option Infix
infix_rule token_left_paren = some Infix.call
infix_rule token_left_square_bracket = some Infix.deref
infix_rule token_dot = some Infix.dot
infix_rule token_minus = some Infix.binary
infix_rule token_plus = some Infix.binary
infix_rule token_slash = some Infix.binary
infix_rule token_star = some Infix.binary
infix_rule token_bar = some Infix.binary
infix_rule token_amp = some Infix.binary
infix_rule token_caret = some Infix.binary
infix_rule token_percent = some Infix.binary
infix_rule token_bang_equal = some Infix.binary
infix_rule token_equal_equal = some Infix.binary
infix_rule token_greater = some Infix.binary
infix_rule token_greater_equal = some Infix.binary
infix_rule token_right_shift = some Infix.binary
infix_rule token_less = some Infix.binary
infix_rule token_less_equal = some Infix.binary
infix_rule token_left_shift = some Infix.binary
infix_rule token_and = some Infix.and_
infix_rule token_break = some Infix.reserved
infix_rule token_const = some Infix.reserved
infix_rule token_continue = some Infix.reserved
infix_rule token_defer = some Infix.reserved
infix_rule token_or = some Infix.or_
infix_rule _ = none

-- `getRule(type)->precedence`
abbrev pub precedence_of : TokenType → ℕ
precedence_of token_left_paren = prec_call
precedence_of token_left_square_bracket = prec_deref
precedence_of token_dot = prec_call
precedence_of token_minus = prec_term
precedence_of token_plus = prec_term
precedence_of token_slash = prec_factor
precedence_of token_star = prec_factor
precedence_of token_bar = prec_term
precedence_of token_amp = prec_term
precedence_of token_caret = prec_term
precedence_of token_percent = prec_term
precedence_of token_bang_equal = prec_equality
precedence_of token_equal_equal = prec_equality
precedence_of token_greater = prec_comparison
precedence_of token_greater_equal = prec_comparison
precedence_of token_right_shift = prec_factor
precedence_of token_less = prec_comparison
precedence_of token_less_equal = prec_comparison
precedence_of token_left_shift = prec_factor
precedence_of token_and = prec_and
precedence_of token_or = prec_or
precedence_of _ = prec_none

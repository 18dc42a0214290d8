-- ===== src/Parser/Nodes.antt =====
-- cyarg/parser.c: the nodes that the kind of a token alone decides.
use yarg_lang.Prelude.{Option, none, some}
use yarg_lang.Scanner.Kinds.{
  TokenType, token_amp, token_bang_equal, token_bar, token_bool, token_caret, token_compile,
  token_cpeek, token_equal_equal, token_false, token_greater, token_greater_equal, token_int,
  token_int16, token_int32, token_int64, token_int8, token_left_shift, token_len, token_less,
  token_less_equal, token_load, token_machine_float64, token_make_channel, token_make_routine,
  token_make_syncgroup, token_minus, token_new, token_nil, token_peek, token_percent, token_pin,
  token_plus, token_read_yarg_source, token_receive, token_resume, token_right_shift, token_send,
  token_share, token_slash, token_star, token_start, token_true, token_ts_interrupt, token_ts_read,
  token_ts_set, token_ts_sync, token_ts_write, token_type_string, token_uint16, token_uint32,
  token_uint64, token_uint8, token_vm_read_xip_file,
}
use yarg_lang.Parser.Syntax.{
  ExprOp, expr_op_equal, expr_op_greater, expr_op_right_shift, expr_op_less, expr_op_left_shift,
  expr_op_add, expr_op_subtract, expr_op_multiply, expr_op_divide, expr_op_bit_or, expr_op_bit_and,
  expr_op_bit_xor, expr_op_modulo, expr_op_not_equal, expr_op_greater_equal, expr_op_less_equal,
  ExprLiteral, expr_literal_true, expr_literal_false, expr_literal_nil, ExprBuiltin,
  expr_builtin_read_yarg_source, expr_builtin_read_xip_file, expr_builtin_compile,
  expr_builtin_make_routine, expr_builtin_make_channel, expr_builtin_make_syncgroup,
  expr_builtin_resume, expr_builtin_start, expr_builtin_receive, expr_builtin_send,
  expr_builtin_cpeek, expr_builtin_share, expr_builtin_peek, expr_builtin_len, expr_builtin_pin,
  expr_builtin_new, expr_builtin_int8, expr_builtin_uint8, expr_builtin_int16, expr_builtin_uint16,
  expr_builtin_int32, expr_builtin_uint32, expr_builtin_int64, expr_builtin_uint64,
  expr_builtin_ts_set, expr_builtin_ts_read, expr_builtin_ts_write, expr_builtin_ts_interrupt,
  expr_builtin_ts_sync, expr_builtin_int, expr_builtin_mfloat64, expr_builtin_string,
  expr_builtin_load, ExprTypeLiteral, expr_type_literal_bool, expr_type_literal_int8,
  expr_type_literal_uint8, expr_type_literal_int16, expr_type_literal_uint16,
  expr_type_literal_int32, expr_type_literal_uint32, expr_type_literal_int64,
  expr_type_literal_uint64, expr_type_literal_mfloat64, expr_type_literal_string,
  expr_type_literal_int,
}

-- `newExprType` of the cases of `type` and `typeExpression`.
abbrev pub type_literal_of : TokenType → Option ExprTypeLiteral
type_literal_of token_bool = some expr_type_literal_bool
type_literal_of token_int8 = some expr_type_literal_int8
type_literal_of token_uint8 = some expr_type_literal_uint8
type_literal_of token_int16 = some expr_type_literal_int16
type_literal_of token_uint16 = some expr_type_literal_uint16
type_literal_of token_int32 = some expr_type_literal_int32
type_literal_of token_uint32 = some expr_type_literal_uint32
type_literal_of token_int64 = some expr_type_literal_int64
type_literal_of token_uint64 = some expr_type_literal_uint64
type_literal_of token_machine_float64 = some expr_type_literal_mfloat64
type_literal_of token_int = some expr_type_literal_int
type_literal_of token_type_string = some expr_type_literal_string
type_literal_of _ = none

-- The node of `builtin`, or null.
abbrev pub builtin_of : TokenType → Option ExprBuiltin
builtin_of token_peek = some expr_builtin_peek
builtin_of token_read_yarg_source = some expr_builtin_read_yarg_source
builtin_of token_vm_read_xip_file = some expr_builtin_read_xip_file
builtin_of token_compile = some expr_builtin_compile
builtin_of token_make_routine = some expr_builtin_make_routine
builtin_of token_make_channel = some expr_builtin_make_channel
builtin_of token_make_syncgroup = some expr_builtin_make_syncgroup
builtin_of token_resume = some expr_builtin_resume
builtin_of token_send = some expr_builtin_send
builtin_of token_receive = some expr_builtin_receive
builtin_of token_share = some expr_builtin_share
builtin_of token_start = some expr_builtin_start
builtin_of token_cpeek = some expr_builtin_cpeek
builtin_of token_len = some expr_builtin_len
builtin_of token_pin = some expr_builtin_pin
builtin_of token_new = some expr_builtin_new
builtin_of token_int8 = some expr_builtin_int8
builtin_of token_uint8 = some expr_builtin_uint8
builtin_of token_int16 = some expr_builtin_int16
builtin_of token_uint16 = some expr_builtin_uint16
builtin_of token_int32 = some expr_builtin_int32
builtin_of token_uint32 = some expr_builtin_uint32
builtin_of token_int64 = some expr_builtin_int64
builtin_of token_uint64 = some expr_builtin_uint64
builtin_of token_ts_set = some expr_builtin_ts_set
builtin_of token_ts_read = some expr_builtin_ts_read
builtin_of token_ts_write = some expr_builtin_ts_write
builtin_of token_ts_interrupt = some expr_builtin_ts_interrupt
builtin_of token_ts_sync = some expr_builtin_ts_sync
builtin_of token_int = some expr_builtin_int
builtin_of token_machine_float64 = some expr_builtin_mfloat64
builtin_of token_type_string = some expr_builtin_string
builtin_of token_load = some expr_builtin_load
builtin_of _ = none

-- `literal`
abbrev pub literal_of : TokenType → Option ExprLiteral
literal_of token_false = some expr_literal_false
literal_of token_nil = some expr_literal_nil
literal_of token_true = some expr_literal_true
literal_of _ = none

-- The operator of `binary`.
abbrev pub binary_op : TokenType → Option ExprOp
binary_op token_equal_equal = some expr_op_equal
binary_op token_greater = some expr_op_greater
binary_op token_right_shift = some expr_op_right_shift
binary_op token_less = some expr_op_less
binary_op token_left_shift = some expr_op_left_shift
binary_op token_plus = some expr_op_add
binary_op token_minus = some expr_op_subtract
binary_op token_star = some expr_op_multiply
binary_op token_slash = some expr_op_divide
binary_op token_bar = some expr_op_bit_or
binary_op token_amp = some expr_op_bit_and
binary_op token_caret = some expr_op_bit_xor
binary_op token_percent = some expr_op_modulo
binary_op token_bang_equal = some expr_op_not_equal
binary_op token_greater_equal = some expr_op_greater_equal
binary_op token_less_equal = some expr_op_less_equal
binary_op _ = none

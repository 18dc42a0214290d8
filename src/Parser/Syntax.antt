-- ===== src/Parser/Syntax.antt =====
-- cyarg/ast.h: the syntax tree of an expression, with cyarg/ast.c's constructors of its nodes.
use yarg_lang.Prelude.{ℕ, List, Bool}

pub data ExprOp : Type 0 where
  expr_op_equal expr_op_greater expr_op_right_shift expr_op_less expr_op_left_shift expr_op_add
        expr_op_subtract expr_op_multiply expr_op_divide expr_op_bit_or expr_op_bit_and
        expr_op_bit_xor expr_op_modulo expr_op_not_equal expr_op_greater_equal expr_op_less_equal
        expr_op_not expr_op_negate expr_op_logical_and expr_op_logical_or expr_op_deref_ptr :
      ExprOp

pub data ExprLiteral : Type 0 where
  expr_literal_true expr_literal_false expr_literal_nil : ExprLiteral

pub data ExprBuiltin : Type 0 where
  expr_builtin_read_yarg_source expr_builtin_read_xip_file expr_builtin_compile
        expr_builtin_make_routine expr_builtin_make_channel expr_builtin_make_syncgroup
        expr_builtin_resume expr_builtin_start expr_builtin_receive expr_builtin_send
        expr_builtin_cpeek expr_builtin_share expr_builtin_peek expr_builtin_len expr_builtin_pin
        expr_builtin_new expr_builtin_int8 expr_builtin_uint8 expr_builtin_int16 expr_builtin_uint16
        expr_builtin_int32 expr_builtin_uint32 expr_builtin_int64 expr_builtin_uint64
        expr_builtin_ts_set expr_builtin_ts_read expr_builtin_ts_write expr_builtin_ts_interrupt
        expr_builtin_ts_sync expr_builtin_int expr_builtin_mfloat64 expr_builtin_string
        expr_builtin_load :
      ExprBuiltin

pub data ExprTypeLiteral : Type 0 where
  expr_type_literal_bool expr_type_literal_int8 expr_type_literal_uint8 expr_type_literal_int16
        expr_type_literal_uint16 expr_type_literal_int32 expr_type_literal_uint32
        expr_type_literal_int64 expr_type_literal_uint64 expr_type_literal_mfloat64
        expr_type_literal_string expr_type_literal_int :
      ExprTypeLiteral

-- The value of a number: the digits that `int_set_s` is given, the value and the number of decimal
-- digits of a literal in another radix, or the text that `strtod` is given.
pub data Number : Type 0 where
  decimal : List ℕ → Number
  radix_value : ℕ → ℕ → Number
  double : List ℕ → Number

-- `Expr` is `ObjExpr*`: null, or a node and its `nextExpr`. `Exprs` and `StructFields` are the arrays of
-- pointers. The assignment and the call of a node are null where it has none.
mutual
  pub data Node : Type 0 where
    operation : ExprOp → Expr → Expr → Node
    grouping : Expr → Node
    variable : List ℕ → Expr → Node
    literal : ExprLiteral → Node
    number : Number → Node
    address : ℕ → Node
    string : List ℕ → Node
    call : Exprs → Node
    collection : Bool → Exprs → ℕ → Node
    element : Expr → Expr → Node
    pair : Expr → Expr → Node
    builtin : ExprBuiltin → Node
    dot : List ℕ → Expr → Expr → Node
    super_ : List ℕ → Expr → Node
    type_literal : ExprTypeLiteral → Node
    type_struct : StructFields → Node
    indexed : Expr → Node

  pub data Expr : Type 0 where
    null : Expr
    node : Node → Expr → Expr

  pub data Exprs : Type 0 where
    no_exprs : Exprs
    expr_then : Expr → Exprs → Exprs

  -- The name, the type and the offset of each field.
  pub data StructFields : Type 0 where
    no_fields : StructFields
    field_then : List ℕ → Expr → Expr → StructFields → StructFields

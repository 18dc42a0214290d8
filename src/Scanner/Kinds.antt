-- ===== src/Scanner/Kinds.antt =====
-- cyarg/scanner.h: the kinds of token.
pub data TokenType : Type 0 where
  token_left_paren token_right_paren token_left_brace token_right_brace : TokenType
  token_left_square_bracket token_right_square_bracket token_comma token_dot token_minus : TokenType
  token_plus token_semicolon token_slash token_star token_at token_bar token_amp token_caret :
      TokenType
  token_percent token_colon token_bang token_bang_equal token_equal token_equal_equal : TokenType
  token_greater token_greater_equal token_right_shift token_less token_less_equal : TokenType
  token_left_shift token_address token_identifier token_string token_number token_and : TokenType
  token_any token_bool token_break token_class token_compile token_const token_continue : TokenType
  token_cpeek token_defer token_else token_stmt_error token_false token_for token_fun : TokenType
  token_if token_int token_int8 token_int16 token_int32 token_int64 token_len : TokenType
  token_machine_float64 token_make_channel token_make_routine token_make_syncgroup token_new :
      TokenType
  token_nil token_or token_peek token_pin token_place token_poke token_print : TokenType
  token_read_yarg_source token_receive token_resume token_return token_send token_share : TokenType
  token_start token_type_string token_struct token_super token_this token_true token_uint8 :
      TokenType
  token_uint16 token_uint32 token_uint64 token_var token_vm_read_xip_file token_while : TokenType
  token_yield token_load token_ts_set token_ts_read token_ts_write token_ts_interrupt : TokenType
  token_ts_sync token_error token_eof : TokenType

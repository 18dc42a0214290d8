-- ===== src/Parser/Stuck.antt =====
-- cyarg/parser.c: the loop of `structExpression`, which asks for the closing brace alone.
use yarg_lang.Prelude.{ℕ, zero, suc, ◌≡◌, refl, sym, subst, false}
use yarg_lang.Scanner.Kinds.{
  TokenType, token_right_brace, token_at, token_identifier, token_semicolon,
}
use yarg_lang.Parser.Kinds.{◌=?◌, is_type_token}
use yarg_lang.Parser.Syntax.{Expr}
use yarg_lang.Parser.State.{
  Parser, Parse, out_of_fuel, check, check_type_token, match_token, consume, previous_token,
  error_at, expect_name_of_field, expect_semicolon_after_field,
}
use yarg_lang.Parser.Precedence.{struct_fields, offset}
use yarg_lang.Parser.Progress.{error_at-fields}

-- A kind of token that no field has in the place where it stands.
abbrev pub IsStuck : TokenType → Type 0
IsStuck t =
    (is_type_token t ≡ false)
    × ((t =? token_right_brace) ≡ false)
    × ((t =? token_at) ≡ false)
    × ((t =? token_identifier) ≡ false)
    × ((t =? token_semicolon) ≡ false)

-- The two reports of a field that is missing.
abbrev reported : Parser → Parser
reported s =
    let s' = error_at s.current expect_name_of_field s in
    error_at s'.current expect_semicolon_after_field s'

reported-IsStuck : (s : Parser) → IsStuck s.current.kind → IsStuck (reported s).current.kind
reported-IsStuck s h =
    let s' = error_at s.current expect_name_of_field s in
    subst (λ c. IsStuck c.kind) (sym (error_at-fields s'.current expect_semicolon_after_field s').0)
      (subst (λ c. IsStuck c.kind) (sym (error_at-fields s.current expect_name_of_field s).0) h)

-- The loop over the fields of a struct has no end, whatever the fuel, at a token that is neither the
-- closing brace nor part of a field where it stands: no type, no `@`, no name and no semicolon. The
-- end of the source is such a token.
pub struct_fields-IsStuck :
    (parse : ℕ → Parse Expr) (fuel : ℕ) (s : Parser)
    → IsStuck s.current.kind
    → struct_fields parse fuel s ≡ out_of_fuel
unfolding struct_fields offset check check_type_token match_token consume previous_token
struct_fields-IsStuck parse zero s h = refl
struct_fields-IsStuck parse (suc zero) s h = rw h.1 refl
struct_fields-IsStuck parse (suc (suc fuel)) s h =
    let s' = error_at s.current expect_name_of_field s in
    let h' : IsStuck s'.current.kind =
      subst (λ c. IsStuck c.kind) (sym (error_at-fields s.current expect_name_of_field s).0) h in
    let rest = struct_fields-IsStuck parse fuel (reported s) (reported-IsStuck s h) in
    rw (h.1, h.0, h.2, h.3, h'.4, rest) refl

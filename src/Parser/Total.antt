-- ===== src/Parser/Total.antt =====
-- cyarg/parser.c: `parsePrecedence` ends on every list of tokens in which none is `struct`.
use yarg_lang.Prelude.{ℕ, zero, suc, arith, Bool, true, false, List, Option, none, some, refl, ◌≡◌}
use yarg_lang.Scanner.Kinds.{TokenType, token_eof}
use yarg_lang.Parser.Kinds.{◌=?◌}
use yarg_lang.Parser.Rules.{Prefix, Infix, prefix_rule}
use yarg_lang.Parser.Syntax.{Expr, null, node}
use yarg_lang.Parser.State.{Parse}
use yarg_lang.Parser.Progress.{
  Kept, Ends, Ends-bind, Ends-then, Ends-pure, Ends-if, Ends-zero, Ends-mono, error-Ends,
  error_at_current-Ends, check-Ends, current_token-Ends, previous_token-Ends,
  previous_token-then-Ends, match_token-Ends, consume-Ends, crash-Ends, advance-Ends,
}
use yarg_lang.Parser.Precedence.{
  type_value, type_, run_prefix, run_infix, store_next, operation_then, operations,
  reject_assignment, parse_from, parse_precedence,
}
use yarg_lang.Parser.Ending.{
  variable-Ends, this_-Ends, deref-Ends, unary-Ends, unary_place-Ends, grouping-Ends, and_-Ends,
  or_-Ends, binary-Ends, consume_collection_index-Ends, call-Ends, super_-Ends, dot-Ends,
  collection_init-Ends, number-Ends, address-Ends, string-Ends, literal-Ends, builtin-Ends,
  reserved-Ends,
}

is_eof_unique : (t : TokenType) → (t =? token_eof) ≡ true → t ≡ token_eof
is_eof_unique token_eof e = refl
is_eof_unique _ e = absurd (ground arith)

module _ (K : Kept) where
  ruleset ends = (
    Ends-bind, Ends-then, Ends-pure, Ends-if, match_token-Ends, consume-Ends, check-Ends,
    previous_token-Ends, error-Ends, error_at_current-Ends, crash-Ends,
  )

  module _ (parse : ℕ → Parse Expr) (k : ℕ) (inner : (p : ℕ) → Ends K k (parse p)) where
    type_value-Ends : Ends K k (type_value parse k)
    unfolding type_value
    type_value-Ends =
        previous_token-then-Ends K k _
          λ t e. rw e (search (ends, consume_collection_index-Ends, inner))

    type_-Ends : Ends K k (type_ parse k)
    unfolding type_
    type_-Ends = search (ends, type_value-Ends, builtin-Ends)

    run_prefix-Ends :
        (strtod_length : List ℕ → ℕ) (r : Prefix) (b : Bool)
        → Ends K k (run_prefix parse strtod_length k r b)
    run_prefix-Ends strtod_length Prefix.grouping b = grouping-Ends K parse k inner
    run_prefix-Ends strtod_length Prefix.collectioninit b = collection_init-Ends K parse k inner
    run_prefix-Ends strtod_length Prefix.unary b = unary-Ends K parse k inner
    run_prefix-Ends strtod_length Prefix.unary_place b = unary_place-Ends K parse k inner b
    run_prefix-Ends strtod_length Prefix.address b = address-Ends K k
    run_prefix-Ends strtod_length Prefix.variable b = variable-Ends K parse k inner b
    run_prefix-Ends strtod_length Prefix.string b = string-Ends K k
    run_prefix-Ends strtod_length Prefix.number b = number-Ends K strtod_length k
    run_prefix-Ends strtod_length Prefix.type_ b = type_-Ends
    run_prefix-Ends strtod_length Prefix.reserved b = reserved-Ends K k
    run_prefix-Ends strtod_length Prefix.builtin b = builtin-Ends K k
    run_prefix-Ends strtod_length Prefix.literal b = literal-Ends K k
    run_prefix-Ends strtod_length Prefix.super_ b = super_-Ends K parse k inner
    run_prefix-Ends strtod_length Prefix.this_ b = this_-Ends K parse k inner

    run_infix-Ends : (r : Option Infix) (b : Bool) → Ends K k (run_infix parse k r b)
    run_infix-Ends none b = crash-Ends K k
    run_infix-Ends (some Infix.call) b = call-Ends K parse k inner
    run_infix-Ends (some Infix.deref) b = deref-Ends K parse k inner b
    run_infix-Ends (some Infix.dot) b = dot-Ends K parse k inner b
    run_infix-Ends (some Infix.binary) b = binary-Ends K parse k inner
    run_infix-Ends (some Infix.and_) b = and_-Ends K parse k inner
    run_infix-Ends (some Infix.reserved) b = reserved-Ends K k
    run_infix-Ends (some Infix.or_) b = or_-Ends K parse k inner

    store_next-Ends : (e : Expr) → Ends K k (store_next parse e)
    store_next-Ends null = crash-Ends K k
    store_next-Ends (node n next) = Ends-pure K tt

  operation_then-Ends :
      (parse : ℕ → Parse Expr) (k : ℕ) (b : Bool) (cursor : Expr) (rest : Expr → Parse Expr)
      → ((p : ℕ) → Ends K k (parse p))
      → ((e : Expr) → Ends K k (rest e))
      → Ends K (suc k) (operation_then parse k b cursor rest)
  unfolding operation_then
  operation_then-Ends parse k b cursor rest inner more =
      advance-Ends K k _
        (λ t structless e. search (ends, run_infix-Ends, inner, store_next-Ends, more) depth 8)
        λ t e. rw (is_eof_unique t.kind e) (search ends)

  operations-Ends :
      (parse : ℕ → Parse Expr) (k precedence : ℕ) (b : Bool) (cursor : Expr)
      → ((p : ℕ) → Ends K k (parse p))
      → Ends K k (operations parse k precedence b cursor)
  unfolding operations
  operations-Ends parse zero precedence b cursor inner = Ends-zero K
  operations-Ends parse (suc k) precedence b cursor inner =
      let fewer : (p : ℕ) → Ends K k (parse p) = λ p. Ends-mono K (omega arith) (inner p) in
      Ends-bind K (current_token-Ends K (suc k)) λ t.
        Ends-if K _
          (operation_then-Ends parse k b cursor _ fewer
            λ e. operations-Ends parse k precedence b e fewer)
          (Ends-pure K cursor)

  reject_assignment-Ends :
      (parse : ℕ → Parse Expr) (k : ℕ) (b : Bool) → Ends K k (reject_assignment parse b)
  unfolding reject_assignment
  reject_assignment-Ends parse k false = search ends
  reject_assignment-Ends parse k true = search ends

  pub parse_from-Ends :
      (parse : ℕ → Parse Expr) (strtod_length : List ℕ → ℕ) (k precedence : ℕ) (r : Option Prefix)
      → ((p : ℕ) → Ends K k (parse p))
      → Ends K k (parse_from parse strtod_length k precedence r)
  unfolding parse_from
  parse_from-Ends parse strtod_length k precedence none inner = search ends
  parse_from-Ends parse strtod_length k precedence (some rule) inner =
      search (ends, run_prefix-Ends, operations-Ends, reject_assignment-Ends, inner) depth 8

  pub parse_precedence-Ends :
      (strtod_length : List ℕ → ℕ) (k precedence : ℕ)
      → Ends K k (parse_precedence strtod_length k precedence)
  unfolding parse_precedence parse_from
  parse_precedence-Ends strtod_length zero precedence = Ends-zero K
  parse_precedence-Ends strtod_length (suc k) precedence =
      advance-Ends K k _
        (λ t structless e.
          parse_from-Ends _ strtod_length k precedence (prefix_rule t.kind)
            λ p. parse_precedence-Ends strtod_length k p)
        λ t e. rw (is_eof_unique t.kind e) (search ends)

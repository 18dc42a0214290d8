-- ===== src/Parser/Ending.antt =====
-- cyarg/parser.c: the functions inside an expression end, where `parse_precedence` does.
use yarg_lang.Prelude.{ltb, ℕ, zero, suc, arith, Bool, true, false, List, Option, none, some, refl}
use yarg_lang.Scanner.Kinds.{token_comma}
use yarg_lang.Parser.Numbers.{NumberValue}
use yarg_lang.Parser.Rules.{prec_assignment}
use yarg_lang.Parser.Syntax.{Expr, Exprs}
use yarg_lang.Parser.Numbers.{value, wrong, undefined}
use yarg_lang.Parser.State.{Message, Parse}
use yarg_lang.Parser.Expressions.{
  exprs_append, number_node, number, address_node, address, string, literal, builtin, reserved,
  assignment, named_variable, variable, this_, too_many, arguments, expression_list, call,
  method_call, super_, assigned_or_called, dot, deref, initializer, initializers, collection_init,
  unary, unary_place, grouping, and_, or_, binary, index_type, consume_collection_index,
}
use yarg_lang.Parser.Progress.{
  Kept, Ends, Ends-bind, Ends-then, Ends-pure, Ends-if, Ends-zero, Ends-mono, error-Ends,
  error_at_current-Ends, check-Ends, previous_token-Ends, match_token-Ends, consume-Ends,
  crash-Ends, match_token-then-Ends,
}

module _ (K : Kept) where
  ruleset ends = (
    Ends-bind, Ends-then, Ends-pure, Ends-if, match_token-Ends, consume-Ends, check-Ends,
    previous_token-Ends, error-Ends, error_at_current-Ends, crash-Ends,
  )

  module _ (parse_precedence : ℕ → Parse Expr) (k : ℕ)
      (inner : (p : ℕ) → Ends K k (parse_precedence p)) where
    pub assignment-Ends : (b : Bool) → Ends K k (assignment parse_precedence b)
    unfolding assignment
    assignment-Ends false = search ends
    assignment-Ends true = search (ends, inner)

    pub named_variable-Ends :
        (name : List ℕ) (b : Bool) → Ends K k (named_variable parse_precedence name b)
    unfolding named_variable
    named_variable-Ends name b = search (ends, assignment-Ends)

    pub variable-Ends : (b : Bool) → Ends K k (variable parse_precedence b)
    unfolding variable
    variable-Ends b = search (ends, named_variable-Ends)

    pub this_-Ends : Ends K k (this_ parse_precedence)
    unfolding this_
    this_-Ends = variable-Ends false

    pub deref-Ends : (b : Bool) → Ends K k (deref parse_precedence b)
    unfolding deref
    deref-Ends b = search (ends, inner, assignment-Ends)

    pub initializer-Ends : Ends K k (initializer parse_precedence)
    unfolding initializer
    initializer-Ends = search (ends, inner)

    pub unary-Ends : Ends K k (unary parse_precedence)
    unfolding unary
    unary-Ends = search (ends, inner)

    pub unary_place-Ends : (b : Bool) → Ends K k (unary_place parse_precedence b)
    unfolding unary_place
    unary_place-Ends b = search (ends, inner, assignment-Ends)

    pub grouping-Ends : Ends K k (grouping parse_precedence)
    unfolding grouping
    grouping-Ends = search (ends, inner)

    pub and_-Ends : Ends K k (and_ parse_precedence)
    unfolding and_
    and_-Ends = search (ends, inner)

    pub or_-Ends : Ends K k (or_ parse_precedence)
    unfolding or_
    or_-Ends = search (ends, inner)

    pub binary-Ends : Ends K k (binary parse_precedence)
    unfolding binary
    binary-Ends = search (ends, inner)

    pub index_type-Ends : Ends K k (index_type parse_precedence)
    unfolding index_type
    index_type-Ends = search (ends, inner) depth 8

    pub consume_collection_index-Ends :
        (e : Expr) → Ends K k (consume_collection_index parse_precedence e)
    unfolding consume_collection_index
    consume_collection_index-Ends e = search (ends, index_type-Ends)

  pub too_many-Ends :
      (parse_precedence : ℕ → Parse Expr) (k n : ℕ) (m : Message)
      → Ends K k (too_many parse_precedence n m)
  too_many-Ends parse_precedence k n m = Ends-if K (ltb 255 n) (search ends) (search ends)

  -- The loops have fuel for the tokens that are left.
  pub arguments-Ends :
      (parse_precedence : ℕ → Parse Expr) (k : ℕ) (items : Exprs)
      → ((p : ℕ) → Ends K k (parse_precedence p))
      → Ends K k (arguments parse_precedence k items)
  unfolding arguments
  arguments-Ends parse_precedence zero items inner = Ends-zero K
  arguments-Ends parse_precedence (suc k) items inner = Ends-bind K (inner prec_assignment) λ e.
      Ends-then K (too_many-Ends parse_precedence (suc k) _ _) (
        match_token-then-Ends K k token_comma _ refl
          (arguments-Ends parse_precedence k (exprs_append items e)
            λ p. Ends-mono K (omega arith) (inner p))
          (search ends))

  pub initializers-Ends :
      (parse_precedence : ℕ → Parse Expr) (k : ℕ) (items : Exprs) (is_map : Bool)
      → ((p : ℕ) → Ends K k (parse_precedence p))
      → Ends K k (initializers parse_precedence k items is_map)
  unfolding initializers
  initializers-Ends parse_precedence zero items is_map inner = Ends-zero K
  initializers-Ends parse_precedence (suc k) items is_map inner =
      Ends-bind K (initializer-Ends parse_precedence (suc k) inner) λ (e, is_pair).
        Ends-then K (too_many-Ends parse_precedence (suc k) _ _) (
          match_token-then-Ends K k token_comma _ refl
            (initializers-Ends parse_precedence k _ _ λ p. Ends-mono K (omega arith) (inner p))
            (search ends))

  module _ (parse_precedence : ℕ → Parse Expr) (k : ℕ)
      (inner : (p : ℕ) → Ends K k (parse_precedence p)) where
    pub expression_list-Ends : Ends K k (expression_list parse_precedence k)
    unfolding expression_list
    expression_list-Ends = search (ends, arguments-Ends, inner) depth 8

    pub call-Ends : Ends K k (call parse_precedence k)
    unfolding call
    call-Ends = search (ends, expression_list-Ends)

    pub method_call-Ends : Ends K k (method_call parse_precedence k)
    unfolding method_call
    method_call-Ends = search (ends, call-Ends)

    pub super_-Ends : Ends K k (super_ parse_precedence k)
    unfolding super_
    super_-Ends = search (ends, method_call-Ends) depth 8

    pub assigned_or_called-Ends :
        (name : List ℕ) (b : Bool) → Ends K k (assigned_or_called parse_precedence k name b)
    assigned_or_called-Ends name true = search (ends, inner)
    assigned_or_called-Ends name false = search (ends, method_call-Ends)

    pub dot-Ends : (b : Bool) → Ends K k (dot parse_precedence k b)
    unfolding dot
    dot-Ends b = search (ends, assigned_or_called-Ends) depth 8

    pub collection_init-Ends : Ends K k (collection_init parse_precedence k)
    unfolding collection_init
    collection_init-Ends = search (ends, initializers-Ends, inner) depth 8

  pub number_node-Ends : (k : ℕ) (v : NumberValue) → Ends K k (number_node v)
  number_node-Ends k (value v) = search ends
  number_node-Ends k (wrong m) = search ends
  number_node-Ends k undefined = search ends

  pub number-Ends : (strtod_length : List ℕ → ℕ) (k : ℕ) → Ends K k (number strtod_length)
  unfolding number
  number-Ends strtod_length k = search (ends, number_node-Ends)

  pub address_node-Ends : (k : ℕ) (v : Option ℕ) → Ends K k (address_node v)
  address_node-Ends k none = search ends
  address_node-Ends k (some v) = search ends

  pub address-Ends : (k : ℕ) → Ends K k address
  unfolding address
  address-Ends k = search (ends, address_node-Ends)

  pub string-Ends : (k : ℕ) → Ends K k string
  unfolding string
  string-Ends k = search ends

  pub literal-Ends : (k : ℕ) → Ends K k literal
  unfolding literal
  literal-Ends k = search ends

  pub builtin-Ends : (k : ℕ) → Ends K k builtin
  unfolding builtin
  builtin-Ends k = search ends

  pub reserved-Ends : (k : ℕ) → Ends K k reserved
  unfolding reserved
  reserved-Ends k = search ends

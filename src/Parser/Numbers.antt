-- ===== src/Parser/Numbers.antt =====
-- cyarg/parser.c: the value of the literal of a number. A value above 2^53 goes through a double, as
-- `pow` gives one; `strtod` is a parameter, as the number of characters that it reads of a text.
pub mod Decimal
pub mod Radix
use yarg_lang.Prelude.{
  ℕ, zero, suc, ◌+◌, ◌-◌, ◌*◌, ◌/◌, ◌%◌, ◌^◌, Bool, true, false, ◌&&◌, ◌||◌, List, [], ◌∷◌, Option,
  none, some, ltb, leb, ◌==◌, if◌then◌else◌, length, drop, get_or,
}
use yarg_lang.Parser.Syntax.{Number, decimal, radix_value, double}
use yarg_lang.Parser.State.{
  Message, one_decimal_point, one_exponent, minus_after_exponent, misformed_float, misformed_number,
}

-- The value of a digit; 0 for any other character.
unfoldable pub position_value : ℕ → ℕ
position_value c =
    if leb b'0' c && leb c b'9'
    then c - b'0'
    else if leb b'A' c && leb c b'F'
    then c - b'A' + 10
    else if leb b'a' c && leb c b'f'
    then c - b'a' + 10
    else 0

-- How many times n is halved until it is below 2^53; the fuel bounds the halvings.
abbrev pub excess_bits : ℕ → ℕ → ℕ
excess_bits zero n = 0
excess_bits (suc fuel) n =
    let further = excess_bits fuel (n / 2) in if ltb n (2 ^ 53) then 0 else suc further

-- The double nearest to n, ties to even; fuel for n < 2^128.
unfoldable pub to_double : ℕ → ℕ
to_double n =
    if leb n (2 ^ 53)
    then n
    else (let u = 2 ^ excess_bits 75 n in
        let q = n / u in
        let r = n % u in if ltb u (2 * r) || (2 * r == u && q % 2 == 1) then (q + 1) * u else q * u)

-- `val += positionVal * pow(radix, power)`, on the product, which has no value where the sum is no
-- uint64_t.
unfoldable pub add_position : ℕ → ℕ → Option ℕ
add_position val position =
    let sum = to_double (to_double val + to_double position) in
    if ltb sum (2 ^ 64) then some sum else none

-- The characters before the last `power` of them are still to come, the last one first. For the
-- radixes 2 and 16, with which it is called, `pow` is exact below 2 ^ 1024 and infinite from there on,
-- so that the product is infinite, or no number where the digit is 0: neither is a uint64_t.
unfoldable pub strto_num : List ℕ → ℕ → Option ℕ
strto_num [] radix = some 0
strto_num (c ∷ cs) radix = elim (strto_num cs radix) [
  | none ↦ none
  | some val ↦
      if leb (2 ^ 1024) (radix ^ length cs)
      then none
      else add_position val (position_value c * radix ^ length cs)
]

pub data NumberState : Type 0 where
  number_start number_zero number_msb number_dot number_dot_and_msb number_frac : NumberState
  number_e number_en number_exponent : NumberState

pub data NumberStep : Type 0 where
  to_state : NumberState → NumberStep
  rejected : Message → NumberStep

-- Any other character, which the scanner makes a digit from 1 to 9.
abbrev pub on_digit : NumberState → NumberState
on_digit number_start = number_msb
on_digit number_zero = number_msb
on_digit number_dot = number_frac
on_digit number_dot_and_msb = number_frac
on_digit number_e = number_exponent
on_digit number_en = number_exponent
on_digit s = s

abbrev pub on_zero : NumberState → NumberState
on_zero number_start = number_zero
on_zero number_dot = number_frac
on_zero number_dot_and_msb = number_frac
on_zero number_e = number_exponent
on_zero number_en = number_exponent
on_zero s = s

abbrev pub on_dot : NumberState → NumberStep
on_dot number_start = to_state number_dot
on_dot number_zero = to_state number_dot
on_dot number_msb = to_state number_dot_and_msb
on_dot _ = rejected one_decimal_point

abbrev pub on_e : NumberState → NumberStep
on_e number_zero = to_state number_e
on_e number_msb = to_state number_e
on_e number_dot = to_state number_e
on_e number_dot_and_msb = to_state number_e
on_e number_frac = to_state number_e
on_e _ = rejected one_exponent

abbrev pub on_minus : NumberState → NumberStep
on_minus number_e = to_state number_en
on_minus _ = rejected minus_after_exponent

-- The body of the loop of `number`.
unfoldable pub number_step : ℕ → NumberState → NumberStep
number_step c s =
    if c == b'0'
    then to_state (on_zero s)
    else if c == b'.'
    then on_dot s
    else if c == b'e' || c == b'E'
    then on_e s
    else if c == b'-'
    then on_minus s
    else to_state (on_digit s)

-- Whether the character is the one that sets `msb`.
abbrev pub sets_msb : ℕ → NumberState → Bool
sets_msb c number_start = elim (number_step c number_start) [
  | to_state number_msb ↦ true
  | _ ↦ false
]
sets_msb c number_zero = elim (number_step c number_zero) [ to_state number_msb ↦ true | _ ↦ false ]
sets_msb c _ = false

pub data Reading : Type 0 where
  read_to : NumberState → List ℕ → Reading
  failed : Message → Reading

-- The loop of `number`: the state at the end, and the text from `msb` on.
unfoldable pub read_number : List ℕ → List ℕ → NumberState → Reading
read_number msb [] s = read_to s msb
read_number msb (c ∷ cs) s = elim (number_step c s) [
  | rejected m ↦ failed m
  | to_state s' ↦ read_number (if sets_msb c s then c ∷ cs else msb) cs s'
]

pub data NumberValue : Type 0 where
  value : Number → NumberValue
  wrong : Message → NumberValue
  undefined : NumberValue

-- `(radix, digits)`: the radix that a prefix of two characters names.
unfoldable pub radix_of : List ℕ → ℕ
radix_of text =
    let c = get_or text 1 0 in
    if ltb 2 (length text) && get_or text 0 0 == b'0'
    then (if c == b'x' || c == b'X'
        then 16
        else if c == b'b' || c == b'B'
        then 2
        else if c == b'd' || c == b'D'
        then 10
        else 0)
    else 0

unfoldable pub decimal_digits : ℕ → ℕ
decimal_digits v =
    if ltb v (2 ^ 8) then 3 else if ltb v (2 ^ 16) then 5 else if ltb v (2 ^ 32) then 10 else 20

abbrev pub decimal_number : (List ℕ → ℕ) → List ℕ → Reading → NumberValue
decimal_number strtod_length text (failed m) = wrong m
decimal_number strtod_length text (read_to number_zero msb) = value (decimal msb)
decimal_number strtod_length text (read_to number_msb msb) = value (decimal msb)
decimal_number strtod_length text (read_to number_dot_and_msb msb) =
    if strtod_length text == length text then value (double text) else wrong misformed_float
decimal_number strtod_length text (read_to number_frac msb) =
    if strtod_length text == length text then value (double text) else wrong misformed_float
decimal_number strtod_length text (read_to number_exponent msb) =
    if strtod_length text == length text then value (double text) else wrong misformed_float
decimal_number strtod_length text (read_to _ msb) = wrong misformed_number

abbrev pub radix_number : Option ℕ → NumberValue
radix_number none = undefined
radix_number (some v) = value (radix_value v (decimal_digits v))

-- `number`, on the text of the token.
unfoldable pub number_of : (List ℕ → ℕ) → List ℕ → NumberValue
number_of strtod_length text =
    let radix = radix_of text in
    let digits = if radix == 0 then text else drop 2 text in
    if radix == 0 || radix == 10
    then decimal_number strtod_length digits (read_number digits digits number_start)
    else radix_number (strto_num digits radix)

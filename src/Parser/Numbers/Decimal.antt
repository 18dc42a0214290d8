-- ===== src/Parser/Numbers/Decimal.antt =====
-- cyarg/parser.c: the literals of numbers that `number` reads as the scanner gives them.
use yarg_lang.Prelude.{
  ℕ, ◌≤◌, ◌≡◌, ◌⊎◌, inl, inr, refl, sym, subst, arith, Bool, true, false, List, [], ◌∷◌, All,
  if◌then◌else◌,
}
use yarg_lang.Parser.Syntax.{decimal}
use yarg_lang.Parser.Grammar.{IsDigit, IsDecimal}
use yarg_lang.Parser.Numbers.{
  number_step, sets_msb, to_state, number_start, number_msb, number_zero, read_number, read_to,
  number_of, radix_of, value,
}

number_step-digit : (c : ℕ) → IsDigit c → number_step c number_msb ≡ to_state number_msb
unfolding number_step
number_step-digit c h = ground arith

read_number-digits :
    (msb cs : List ℕ) → All IsDigit cs → read_number msb cs number_msb ≡ read_to number_msb msb
unfolding read_number
read_number-digits msb [] h = refl
read_number-digits msb (c ∷ cs) h =
    rw (number_step-digit c h.0, read_number) (read_number-digits msb cs h.1)

number_step-first : (c : ℕ) → b'1' ≤ c → c ≤ b'9' → number_step c number_start ≡ to_state number_msb
unfolding number_step
number_step-first c low high = ground arith

radix_of-decimal : (ds : List ℕ) → IsDecimal ds → radix_of ds ≡ 0
unfolding radix_of
radix_of-decimal [] h = absurd h
radix_of-decimal (c ∷ []) h = refl
radix_of-decimal (c ∷ d ∷ ds) h = ground arith

number_step-one :
    (c : ℕ)
    → IsDigit c
    → (number_step c number_start ≡ to_state number_msb)
      ⊎ (number_step c number_start ≡ to_state number_zero)
unfolding number_step
number_step-one c h = ground arith

if_same : (b : Bool) (xs : List ℕ) → (if b then xs else xs) ≡ xs
if_same true xs = refl
if_same false xs = refl

-- The state at the end of a decimal number, whose digits are all kept.
read_number-decimal :
    (ds : List ℕ)
    → IsDecimal ds
    → (read_number ds ds number_start ≡ read_to number_msb ds)
      ⊎ (read_number ds ds number_start ≡ read_to number_zero ds)
unfolding read_number
read_number-decimal [] h = absurd h
read_number-decimal (c ∷ []) h = elim (number_step-one c h) [
  | inl e ↦ inl (rw (e, read_number, if_same) refl)
  | inr e ↦ inr (rw (e, read_number, if_same) refl)
]
read_number-decimal (c ∷ d ∷ ds) h =
    let all = c ∷ d ∷ ds in
    let kept = sym (if_same (sets_msb c number_start) all) in
    let rest = read_number-digits all ds h.2.1 in
    inl (
      rw (number_step-first c h.0 h.1, read_number, number_step-digit d h.2.0)
        (subst (λ m. read_number m ds number_msb ≡ read_to number_msb all) kept rest))

-- A literal that is one digit, or several digits of which the first is not zero, is taken for an
-- integer with those digits.
pub number_of-decimal :
    (strtod_length : List ℕ → ℕ) (ds : List ℕ)
    → IsDecimal ds
    → number_of strtod_length ds ≡ value (decimal ds)
unfolding number_of
number_of-decimal strtod_length ds h =
    rw (radix_of-decimal ds h)
      (elim (read_number-decimal ds h) [ inl e ↦ rw e refl | inr e ↦ rw e refl ])

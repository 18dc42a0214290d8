-- ===== src/Parser/Numbers/Radix.antt =====
-- cyarg/parser.c: `strtoNum` gives the value of the digits of a number in a radix.
use Prim.Native.Nat.pow
use yarg_lang.Prelude.{
  ℕ, suc, ◌+◌, ◌-◌, ap, leb, ◌*◌, ◌^◌, ◌≤◌, ◌<◌, ◌≡◌, ◌⊎◌, inl, inr, refl, subst, arith, Bool, true,
  false, ltb, List, [], ◌∷◌, All, length, if◌then◌else◌, some,
}
use yarg_lang.Parser.Numbers.{position_value, to_double, strto_num, add_position}

-- A digit: its value, and whether it is written as a capital where it is a letter.
abbrev pub Digit : Type 0
Digit = ℕ × Bool

abbrev pub digit_char : Digit → ℕ
digit_char (v, capital) =
    if ltb v 10 then b'0' + v else if capital then b'A' + (v - 10) else b'a' + (v - 10)

abbrev pub spelled : List Digit → List ℕ
spelled [] = []
spelled (d ∷ ds) = digit_char d ∷ spelled ds

-- The value of digits in a radix, the most significant one first.
abbrev pub horner : ℕ → ℕ → List Digit → ℕ
horner radix acc [] = acc
horner radix acc (d ∷ ds) = horner radix (acc * radix + d.0) ds

horner-split :
    (radix acc : ℕ) (ds : List Digit)
    → horner radix acc ds ≡ acc * radix ^ length ds + horner radix 0 ds
horner-split radix acc [] = rw pow.zero (omega arith)
horner-split radix acc (d ∷ ds) =
    let one = horner-split radix (acc * radix + d.0) ds in
    let two = horner-split radix (0 * radix + d.0) ds in rw (one, two, pow.suc) (grind arith)

length-spelled : (ds : List Digit) → length (spelled ds) ≡ length ds
length-spelled [] = refl
length-spelled (d ∷ ds) = ap suc (length-spelled ds)

position_value-digit_char : (d : Digit) → d.0 < 16 → position_value (digit_char d) ≡ d.0
unfolding position_value
position_value-digit_char (v, capital) h = ground arith

to_double-small : (n : ℕ) → n < 2 ^ 53 → to_double n ≡ n
unfolding to_double
to_double-small n h = ground arith

add_position-small :
    (val position : ℕ) → val + position < 2 ^ 53 → add_position val position ≡ some (val + position)
unfolding add_position
add_position-small val position h =
    let sum = to_double-small (val + position) h in
    let fits : ltb (val + position) (2 ^ 64) ≡ true = ground arith in
    rw (to_double-small val (omega arith), to_double-small position (omega arith), sum, fits) refl

smaller_power : (p r m : ℕ) → (r ≡ 2) ⊎ (r ≡ 16) → p * r ≤ m → 1 ≤ m → p < m
smaller_power p r m (inl e) h one =
    let h' : p * 2 ≤ m = subst (λ k. p * k ≤ m) e h in omega (arith, h')
smaller_power p r m (inr e) h one =
    let h' : p * 16 ≤ m = subst (λ k. p * k ≤ m) e h in omega (arith, h')

module _ (radix : ℕ) (machine : (radix ≡ 2) ⊎ (radix ≡ 16)) where
  below : (m n : ℕ) → 1 ≤ m → radix ^ suc n ≤ m → radix ^ n < m
  below m n one h =
      let next : radix ^ suc n ≡ radix ^ n * radix = rw pow.suc (grind arith) in
      smaller_power (radix ^ n) radix m machine (subst (λ k. k ≤ m) next h) one

  -- In the radix 2 or 16, for digits below 16 in small or capital letters, where the radix to the
  -- number of the digits is at most 2 ^ 1024 and their value is below 2 ^ 53: `strto_num` gives that
  -- value.
  pub strto_num-spelled :
      (ds : List Digit)
      → All (λ d. d.0 < 16) ds
      → radix ^ length ds ≤ 2 ^ 1024
      → horner radix 0 ds < 2 ^ 53
      → strto_num (spelled ds) radix ≡ some (horner radix 0 ds)
  unfolding strto_num
  strto_num-spelled [] digits short h = refl
  strto_num-spelled (d ∷ ds) digits short h =
      let split = horner-split radix (0 * radix + d.0) ds in
      let position = d.0 * radix ^ length ds in
      let sum : horner radix 0 (d ∷ ds) ≡ horner radix 0 ds + position = grind (arith, split) in
      let small : horner radix 0 ds + position < 2 ^ 53 = omega (arith, sum) in
      let less = below (2 ^ 1024) (length ds) (omega arith) short in
      let fits : leb (2 ^ 1024) (radix ^ length ds) ≡ false = ground (arith, less) in
      let rest = strto_num-spelled ds digits.1 (omega (arith, less)) (omega (arith, sum)) in
      rw (rest, length-spelled ds, position_value-digit_char d digits.0, fits, sum)
        (add_position-small (horner radix 0 ds) position small)

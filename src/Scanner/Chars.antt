-- ===== src/Scanner/Chars.antt =====
-- The tests on characters of cyarg/scanner.c. A character is its code; 0 is the end of the text.
use yarg_lang.Prelude.{ℕ, Bool, true, false, ◌&&◌, ◌||◌, leb, ◌==◌, if◌then◌else◌}

unfoldable pub is_alpha : ℕ → Bool
is_alpha c = leb b'a' c && leb c b'z' || (leb b'A' c && leb c b'Z' || c == b'_')

unfoldable pub is_bin_digit : ℕ → Bool
is_bin_digit c = leb b'0' c && leb c b'1'

unfoldable pub is_digit : ℕ → Bool
is_digit c = leb b'0' c && leb c b'9'

unfoldable pub is_hex_digit : ℕ → Bool
unfolding is_digit
is_hex_digit c =
    if leb b'a' c && leb c b'f'
    then true
    else (if leb b'A' c && leb c b'F' then true else is_digit c)

unfoldable pub is_radix_digit : ℕ → ℕ → Bool
unfolding is_hex_digit is_bin_digit
is_radix_digit c radix =
    if radix == 16
    then is_hex_digit c
    else (if radix == 10 then is_digit c else (if radix == 2 then is_bin_digit c else false))

unfoldable pub is_radix : ℕ → Bool
is_radix c = c == b'x' || (c == b'X' || (c == b'b' || c == b'B'))

unfoldable pub radix_type : ℕ → ℕ
radix_type c = if c == b'x' || c == b'X' then 16 else (if c == b'b' || c == b'B' then 2 else 10)

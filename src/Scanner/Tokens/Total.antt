-- ===== src/Scanner/Tokens/Total.antt =====
-- `scanToken` (cyarg/scanner.c) stays inside the text, where no backslash can step over its end.
use yarg_lang.Prelude.{ℕ, ◌≢◌, List, Option, none, some, All}
use yarg_lang.Scanner.Tokens.{Scanner}

abbrev pub NoBackslash : List ℕ → Type 0
NoBackslash = All (λ c. c ≢ b'\\')

abbrev IsSome : {A : Type 0} → Option A → Type 0
IsSome none = ⊥
IsSome (some a) = Unit

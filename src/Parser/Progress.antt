-- ===== src/Parser/Progress.antt =====
-- cyarg/parser.c: what every function of the parser keeps, and rules that show it along a `do` block.
-- `rel` of `Kept` is a relation between the states before and after that tokens and reports keep; no token opens a
-- struct, and the tokens to read are bounded.
use yarg_lang.Prelude.{
  ℕ, suc, ◌+◌, ◌≤◌, ◌<◌, ◌≡◌, refl, arith, Bool, true, false, Bool-cases, if_cases, inl, inr, ◌∙◌,
  sym, subst, List, [], ◌∷◌, All, if◌then◌else◌, length,
}
use yarg_lang.Scanner.Kinds.{TokenType, token_eof, token_error, token_struct}
use yarg_lang.Scanner.Tokens.{Token}
use yarg_lang.Parser.Kinds.{◌=?◌}
use yarg_lang.Parser.State.{
  Parser, Parse, Outcome, returned, crashed, out_of_fuel, and_then, ◌>>=◌, ◌>>◌, pure, crash,
  Message, advanced, advance, next_token, error_at, error, error_at_current, check, match_token,
  consume, previous_token, current_token, check_type_token, from_scanner,
}

abbrev pub is_struct : Token → Bool
is_struct t = t.kind =? token_struct

-- No token that the parser holds or has still to read is `struct`.
abbrev pub IsStructless : Parser → Type 0
IsStructless s =
    (is_struct s.current ≡ false)
    × (is_struct s.previous ≡ false)
    × All (λ t. is_struct t ≡ false) s.upcoming

-- The tokens that are left, the current one included; none at the end of the source.
unfoldable pub remaining : Parser → ℕ
remaining s = length s.upcoming + (if s.current.kind =? token_eof then 0 else 1)

-- The next token is one of those that were to come, or the end.
unfoldable NextKeeps : Parser → List Token → Parser → Type 0
NextKeeps s ts s' =
    (is_struct s'.current ≡ false)
    × (s'.previous ≡ s.previous)
    × All (λ t. is_struct t ≡ false) s'.upcoming
    × (remaining s' ≤ length ts)

pub error_at-fields :
    (t : Token) (m : Message) (s : Parser)
    → ((error_at t m s).current ≡ s.current)
      × ((error_at t m s).previous ≡ s.previous)
      × ((error_at t m s).upcoming ≡ s.upcoming)
unfolding error_at
error_at-fields t m s = ground arith

next_token-NextKeeps :
    (ts : List Token) (s : Parser)
    → All (λ t. is_struct t ≡ false) ts
    → NextKeeps s ts (next_token ts s)
unfolding next_token NextKeeps remaining
next_token-NextKeeps [] s h = (refl, refl, h, omega arith)
next_token-NextKeeps (t ∷ r) s h =
    let read : Parser = record s { current = t; upcoming = r } in
    let further = next_token-NextKeeps r (error_at t (from_scanner t.text) read) h.1 in
    if_cases (NextKeeps s (t ∷ r)) (t.kind =? token_error)
      (λ e. (
        further.0,
        further.1 ∙ (error_at-fields t (from_scanner t.text) read).1,
        further.2,
        omega (arith, further.3),
      ))
      λ e. (h.0, refl, h.1, ground arith)

pub advanced-IsStructless : (s : Parser) → IsStructless s → IsStructless (advanced s)
unfolding advanced NextKeeps
advanced-IsStructless s h =
    let next = next_token-NextKeeps s.upcoming (record s { previous = s.current }) h.2 in
    (next.0, subst (λ t. is_struct t ≡ false) (sym next.1) h.0, next.2)

pub remaining-advanced : (s : Parser) → IsStructless s → remaining (advanced s) ≤ length s.upcoming
unfolding advanced NextKeeps
remaining-advanced s h = (next_token-NextKeeps s.upcoming (record s { previous = s.current }) h.2).3

previous-advanced : (s : Parser) → IsStructless s → (advanced s).previous ≡ s.current
unfolding advanced NextKeeps
previous-advanced s h = (next_token-NextKeeps s.upcoming (record s { previous = s.current }) h.2).1

length-upcoming : (s : Parser) → length s.upcoming ≤ remaining s
unfolding remaining
length-upcoming s = ground arith

pub length-upcoming_lt :
    (s : Parser) → (s.current.kind =? token_eof) ≡ false → length s.upcoming < remaining s
unfolding remaining
length-upcoming_lt s e = ground arith

pub remaining-error_at :
    (t : Token) (m : Message) (s : Parser) → remaining (error_at t m s) ≡ remaining s
unfolding remaining error_at
remaining-error_at t m s =
    if_cases (λ s'. remaining s' ≡ remaining s) s.panic_mode (λ e. refl) λ e. refl

-- A relation between states that runs compose, and that tokens and reports keep.
pub record Kept : Type 1 where
  pub rel : Parser → Parser → Type 0
  pub rel_refl : (s : Parser) → rel s s
  pub rel_trans : (s s' s'' : Parser) → rel s s' → rel s' s'' → rel s s''
  pub rel_advanced : (s : Parser) → rel s (advanced s)
  pub rel_error_at : (t : Token) (m : Message) (s : Parser) → rel s (error_at t m s)

module _ (K : Kept) where
  unfoldable pub Step : Parser → Parser → Type 0
  Step s s' = IsStructless s' × (remaining s' ≤ remaining s) × K.rel s s'

  -- The outcome is not that the fuel ran out, and a state that it returns is a step from `s`.
  abbrev pub Within {ℓ} : {A : Type ℓ} → Parser → Outcome (A × Parser) → Type 0
  Within s (returned (a, s')) = Step s s'
  Within s crashed = Unit
  Within s out_of_fuel = ⊥

  -- So it does from every state in which fewer than `k` tokens are left.
  pub record Ends {ℓ} {A : Type ℓ} (k : ℕ) (p : Parse A) : Type 0 where
    pub runs : (s : Parser) → IsStructless s → remaining s < k → Within s (p s)

  Within-trans {ℓ} :
      {A : Type ℓ} (s s' : Parser) (o : Outcome (A × Parser)) → Step s s' → Within s' o → Within s o
  unfolding Step
  Within-trans s s' (returned (a, s'')) h w =
      (w.0, omega (arith, h.1, w.1), K.rel_trans s s' s'' h.2 w.2)
  Within-trans s s' crashed h w = tt
  Within-trans s s' out_of_fuel h w = w

  Within-and_then {ℓ κ} :
      {A : Type ℓ} {B : Type κ} (s : Parser) (o : Outcome (A × Parser)) (f : A → Parse B)
      → Within s o
      → ((a : A) (s' : Parser) → Step s s' → Within s' (f a s'))
      → Within s (and_then o f)
  Within-and_then s (returned (a, s')) f w k = Within-trans s s' (f a s') w (k a s' w)
  Within-and_then s crashed f w k = tt
  Within-and_then s out_of_fuel f w k = w

  pub Ends-bind {ℓ κ} :
      {A : Type ℓ} {B : Type κ} {k : ℕ} {p : Parse A} {f : A → Parse B}
      → Ends k p
      → ((a : A) → Ends k (f a))
      → Ends k (p >>= f)
  unfolding Step
  Ends-bind {p} {f} hp hf = record {
    runs = λ s h lt.
        Within-and_then s (p s) f (hp.runs s h lt)
          λ a s' w. (hf a).runs s' w.0 (omega (arith, w.1));
  }

  pub Ends-then {ℓ κ} :
      {A : Type ℓ} {B : Type κ} {k : ℕ} {p : Parse A} {q : Parse B}
      → Ends k p
      → Ends k q
      → Ends k (p >> q)
  Ends-then hp hq = Ends-bind hp λ _. hq

  pub Ends-pure {ℓ} : {A : Type ℓ} {k : ℕ} (a : A) → Ends k (pure a)
  unfolding Step
  Ends-pure a = record { runs = λ s h lt. (h, omega arith, K.rel_refl s) }

  pub Ends-if {ℓ} :
      {A : Type ℓ} {k : ℕ} (b : Bool) {p q : Parse A}
      → Ends k p
      → Ends k q
      → Ends k (if b then p else q)
  Ends-if true hp hq = hp
  Ends-if false hp hq = hq

  pub Ends-zero {ℓ} : {A : Type ℓ} {p : Parse A} → Ends 0 p
  Ends-zero = record { runs = λ s h lt. elim lt [ ] }

  -- With fewer tokens left, so it does too.
  pub Ends-mono {ℓ} : {A : Type ℓ} {k k' : ℕ} {p : Parse A} → k ≤ k' → Ends k' p → Ends k p
  Ends-mono le hp = record { runs = λ s h lt. hp.runs s h (omega arith) }

  pub Step-advanced : (s : Parser) → IsStructless s → Step s (advanced s)
  unfolding Step
  Step-advanced s h = (
    advanced-IsStructless s h,
    omega (arith, remaining-advanced s h, length-upcoming s),
    K.rel_advanced s,
  )

  pub Step-error_at :
      (t : Token) (m : Message) (s : Parser) → IsStructless s → Step s (error_at t m s)
  unfolding Step remaining
  Step-error_at t m s h =
      let e = error_at-fields t m s in
      (
        (
          subst (λ c. is_struct c ≡ false) (sym e.0) h.0,
          subst (λ c. is_struct c ≡ false) (sym e.1) h.1,
          subst (All λ c. is_struct c ≡ false) (sym e.2) h.2,
        ),
        omega (arith, remaining-error_at t m s),
        K.rel_error_at t m s,
      )

  pub error-Ends : (k : ℕ) (m : Message) → Ends k (error m)
  unfolding error
  error-Ends k m = record { runs = λ s h lt. Step-error_at s.previous m s h }

  pub error_at_current-Ends : (k : ℕ) (m : Message) → Ends k (error_at_current m)
  unfolding error_at_current
  error_at_current-Ends k m = record { runs = λ s h lt. Step-error_at s.current m s h }

  Step-refl : (s : Parser) → IsStructless s → Step s s
  unfolding Step
  Step-refl s h = (h, omega arith, K.rel_refl s)

  pub check-Ends : (k : ℕ) (t : TokenType) → Ends k (check t)
  unfolding check
  check-Ends k t = record { runs = λ s h lt. Step-refl s h }

  pub current_token-Ends : (k : ℕ) → Ends k current_token
  unfolding current_token
  current_token-Ends k = record { runs = λ s h lt. Step-refl s h }

  pub check_type_token-Ends : (k : ℕ) → Ends k check_type_token
  unfolding check_type_token
  check_type_token-Ends k = record { runs = λ s h lt. Step-refl s h }

  pub advance_any-Ends : (k : ℕ) → Ends k advance
  unfolding advance
  advance_any-Ends k = record { runs = λ s h lt. Step-advanced s h }

  pub previous_token-Ends : (k : ℕ) → Ends k previous_token
  unfolding previous_token
  previous_token-Ends k = record { runs = λ s h lt. Step-refl s h }

  pub previous_token-then-Ends {ℓ} :
      {A : Type ℓ} (k : ℕ) (f : Token → Parse A)
      → ((t : Token) → is_struct t ≡ false → Ends k (f t))
      → Ends k (previous_token >>= f)
  unfolding previous_token
  previous_token-then-Ends k f next = record { runs = λ s h lt. (next s.previous h.1).runs s h lt }

  pub match_token-Ends : (k : ℕ) (t : TokenType) → Ends k (match_token t)
  unfolding match_token
  match_token-Ends k t = record {
    runs = λ s h lt.
        if_cases (Within s) (s.current.kind =? t) (λ e. Step-advanced s h) λ e. Step-refl s h;
  }

  pub consume-Ends : (k : ℕ) (t : TokenType) (m : Message) → Ends k (consume t m)
  unfolding consume
  consume-Ends k t m = record {
    runs = λ s h lt.
        if_cases (Within s) (s.current.kind =? t) (λ e. Step-advanced s h)
          λ e. Step-error_at s.current m s h;
  }

  pub crash-Ends {ℓ} : {A : Type ℓ} (k : ℕ) → Ends {A = A} k crash
  crash-Ends k = record { runs = λ s h lt. tt }

  -- A token that is not the end leaves fewer tokens behind it.
  pub advance-Ends {ℓ} :
      {A : Type ℓ} (k : ℕ) (f : Token → Parse A)
      → ((t : Token) → is_struct t ≡ false → (t.kind =? token_eof) ≡ false → Ends k (f t))
      → ((t : Token) → (t.kind =? token_eof) ≡ true → Ends (suc k) (f t))
      → Ends (suc k) (advance >> (previous_token >>= f))
  unfolding advance previous_token
  advance-Ends k f more ends = record {
    runs = λ s h lt.
        let s' = advanced s in
        let here = λ (b : Bool) (e : (s'.previous.kind =? token_eof) ≡ b).
          subst (λ c. (c.kind =? token_eof) ≡ b) (previous-advanced s h) e in
        let left = remaining-advanced s h in
        let h' = advanced-IsStructless s h in
        Within-trans s s' (f s'.previous s') (Step-advanced s h)
          (elim (Bool-cases (s'.previous.kind =? token_eof)) [
            | inl e ↦ (ends s'.previous e).runs s' h' (omega (arith, length-upcoming s))
            | inr e ↦
                (more s'.previous h'.1 e).runs s' h'
                  (omega (arith, length-upcoming_lt s (here false e)))
          ]);
  }

  -- So does a token that is matched, if it is not the end.
  pub match_token-then-Ends {ℓ} :
      {A : Type ℓ} (k : ℕ) (t : TokenType) (f : Bool → Parse A)
      → (t =? token_eof) ≡ false
      → Ends k (f true)
      → Ends (suc k) (f false)
      → Ends (suc k) (match_token t >>= f)
  unfolding match_token
  match_token-then-Ends k t f e found other = record {
    runs = λ s h lt. elim (Bool-cases (s.current.kind =? t)) [
      | inr e' ↦ rw e' (other.runs s h lt)
      | inl e' ↦
          let left = remaining-advanced s h in
          let less = length-upcoming_lt s (ground arith) in
          rw e' (
            Within-trans s (advanced s) (f true (advanced s)) (Step-advanced s h)
              (found.runs (advanced s) (advanced-IsStructless s h) (omega arith)))
    ];
  }

-- ===== src/Parser/Shorter.antt =====
-- cyarg/parser.c: rules that show that a `do` block of the parser consumes a token, where one is left.
use mathlib.Core.Bool.{true≢false}
use yarg_lang.Parser.Statements.{at_block_end}
use yarg_lang.Prelude.{
  ◌||◌, ℕ, suc, ◌≤◌, ◌<◌, ◌≡◌, sym, subst, arith, Bool, true, false, Bool-cases, inl, inr,
  if◌then◌else◌,
}
use yarg_lang.Scanner.Kinds.{TokenType, token_eof}
use yarg_lang.Scanner.Tokens.{Token}
use yarg_lang.Parser.Kinds.{◌=?◌}
use yarg_lang.Parser.State.{
  Parser, Parse, Outcome, returned, crashed, out_of_fuel, and_then, ◌>>=◌, ◌>>◌, pure, Message,
  advanced, advance, error_at, match_token, consume, current_token, previous_token, check,
}
use yarg_lang.Parser.Progress.{
  Kept, Ends, Ends-then, consume-Ends, Within, Step, IsStructless, remaining, remaining-advanced,
  length-upcoming_lt, advanced-IsStructless, remaining-error_at, Step-error_at, error_at-fields,
}

-- Nothing is kept but what every run of the parser keeps.
abbrev pub nothing : Kept
nothing = record {
  rel = λ s s'. Unit;
  rel_refl = λ s. tt;
  rel_trans = λ s s' s'' h h'. tt;
  rel_advanced = λ s. tt;
  rel_error_at = λ t m s. tt;
}

-- Fewer tokens are left than at `s`.
abbrev pub Shorter {ℓ} : {A : Type ℓ} → Parser → Outcome (A × Parser) → Type 0
Shorter s (returned (a, s')) = IsStructless s' × (remaining s' < remaining s)
Shorter s crashed = Unit
Shorter s out_of_fuel = ⊥

-- So it is from every state before the end in which fewer than `k` tokens are left.
pub record Shortens {ℓ} {A : Type ℓ} (k : ℕ) (p : Parse A) : Type 0 where
  pub runs :
      (s : Parser)
      → IsStructless s
      → remaining s < k
      → (s.current.kind =? token_eof) ≡ false
      → Shorter s (p s)

-- What follows a shorter state keeps it shorter.
pub Shorter-Within {ℓ} :
    {A : Type ℓ} (s s' : Parser) (o : Outcome (A × Parser))
    → remaining s' < remaining s
    → Within nothing s' o
    → Shorter s o
unfolding Step
Shorter-Within s s' (returned (a, s'')) h w = (w.0, omega (arith, h, w.1))
Shorter-Within s s' crashed h w = tt
Shorter-Within s s' out_of_fuel h w = w

pub Shorter-and_then {ℓ κ} :
    {A : Type ℓ} {B : Type κ} (s : Parser) (k : ℕ) (o : Outcome (A × Parser)) (f : A → Parse B)
    → remaining s < k
    → Shorter s o
    → ((a : A) → Ends nothing k (f a))
    → Shorter s (and_then o f)
Shorter-and_then s k (returned (a, s')) f lt w more =
    Shorter-Within s s' (f a s') w.1 ((more a).runs s' w.0 (omega (arith, w.1)))
Shorter-and_then s k crashed f lt w more = tt
Shorter-and_then s k out_of_fuel f lt w more = w

pub Shortens-bind {ℓ κ} :
    {A : Type ℓ} {B : Type κ} {k : ℕ} {p : Parse A} (f : A → Parse B)
    → Shortens k p
    → ((a : A) → Ends nothing k (f a))
    → Shortens k (p >>= f)
Shortens-bind {k} {p} f hp hf = record {
  runs = λ s h lt e. Shorter-and_then s k (p s) f lt (hp.runs s h lt e) hf;
}

pub Shortens-if {ℓ} :
    {A : Type ℓ} {k : ℕ} (b : Bool) {p q : Parse A}
    → Shortens k p
    → Shortens k q
    → Shortens k (if b then p else q)
Shortens-if true hp hq = hp
Shortens-if false hp hq = hq

pub Shortens-current {ℓ} :
    {A : Type ℓ} {k : ℕ} (f : Token → Parse A)
    → ((t : Token) → (t.kind =? token_eof) ≡ false → Shortens k (f t))
    → Shortens k (current_token >>= f)
unfolding current_token
Shortens-current f next = record { runs = λ s h lt e. (next s.current e).runs s h lt e }

pub Shortens-previous {ℓ} :
    {A : Type ℓ} {k : ℕ} (f : Token → Parse A)
    → ((t : Token) → Shortens k (f t))
    → Shortens k (previous_token >>= f)
unfolding previous_token
Shortens-previous f next = record { runs = λ s h lt e. (next s.previous).runs s h lt e }

pub remaining-advanced_lt :
    (s : Parser)
    → IsStructless s
    → (s.current.kind =? token_eof) ≡ false
    → remaining (advanced s) < remaining s
remaining-advanced_lt s h e = omega (arith, remaining-advanced s h, length-upcoming_lt s e)

pub Shortens-advance {ℓ} :
    {A : Type ℓ} {k : ℕ} {q : Parse A} → Ends nothing k q → Shortens (suc k) (advance >> q)
unfolding advance
Shortens-advance {q} next = record {
  runs = λ s h lt e.
      let less = remaining-advanced_lt s h e in
      Shorter-Within s (advanced s) (q (advanced s)) less
        (next.runs (advanced s) (advanced-IsStructless s h) (omega (arith, less)));
}

pub Shortens-match {ℓ} :
    {A : Type ℓ} {k : ℕ} (t : TokenType) (f : Bool → Parse A)
    → Ends nothing k (f true)
    → Shortens (suc k) (f false)
    → Shortens (suc k) (match_token t >>= f)
unfolding match_token
Shortens-match t f found other = record {
  runs = λ s h lt e. elim (Bool-cases (s.current.kind =? t)) [
    | inr e' ↦ rw e' (other.runs s h lt e)
    | inl e' ↦
        let less = remaining-advanced_lt s h e in
        rw e' (
          Shorter-Within s (advanced s) (f true (advanced s)) less
            (found.runs (advanced s) (advanced-IsStructless s h) (omega (arith, less))))
  ];
}

Shorter-same {ℓ} :
    {A : Type ℓ} (s s' : Parser) (o : Outcome (A × Parser))
    → remaining s' ≡ remaining s
    → Shorter s' o
    → Shorter s o
Shorter-same s s' (returned (a, s'')) e w = (w.0, omega (arith, e, w.1))
Shorter-same s s' crashed e w = tt
Shorter-same s s' out_of_fuel e w = w

pub Shortens-consume {ℓ} :
    {A : Type ℓ} {k : ℕ} (t : TokenType) (m : Message) {q : Parse A}
    → Ends nothing k q
    → Shortens k q
    → Shortens k (consume t m >> q)
unfolding consume Step
Shortens-consume t m {q} ends shortens = record {
  runs = λ s h lt e. elim (Bool-cases (s.current.kind =? t)) [
    | inl e' ↦
        let less = remaining-advanced_lt s h e in
        rw e' (
          Shorter-Within s (advanced s) (q (advanced s)) less
            (ends.runs (advanced s) (advanced-IsStructless s h) (omega (arith, less))))
    | inr e' ↦
        let s' = error_at s.current m s in
        let same = remaining-error_at s.current m s in
        let ended =
          subst (λ c. (c.kind =? token_eof) ≡ false) (sym (error_at-fields s.current m s).0) e in
        let kept = Step-error_at nothing s.current m s h in
        rw e' (Shorter-same s s' (q s') same (shortens.runs s' kept.0 (omega (arith, same)) ended))
  ];
}

pub Within-later {ℓ} :
    {A : Type ℓ} (s s' : Parser) (o : Outcome (A × Parser))
    → remaining s' < remaining s
    → Within nothing s' o
    → Within nothing s o
unfolding Step
Within-later s s' (returned (a, s'')) h w = (w.0, omega (arith, h, w.1), tt)
Within-later s s' crashed h w = tt
Within-later s s' out_of_fuel h w = w

or_false_right : (a b : Bool) → (a || b) ≡ false → b ≡ false
or_false_right true b e = absurd (true≢false e)
or_false_right false b e = e

pub Within-and_then_lt {ℓ κ} :
    {A : Type ℓ} {B : Type κ} (s : Parser) (k : ℕ) (o : Outcome (A × Parser)) (f : A → Parse B)
    → remaining s < suc k
    → Shorter s o
    → ((a : A) → Ends nothing k (f a))
    → Within nothing s (and_then o f)
Within-and_then_lt s k (returned (a, s')) f lt w more =
    Within-later s s' (f a s') w.1 ((more a).runs s' w.0 (omega (arith, w.1)))
Within-and_then_lt s k crashed f lt w more = tt
Within-and_then_lt s k out_of_fuel f lt w more = w

pub Shortens-mono {ℓ} :
    {A : Type ℓ} {k k' : ℕ} {p : Parse A} → k ≤ k' → Shortens k' p → Shortens k p
Shortens-mono le hp = record { runs = λ s h lt e. hp.runs s h (omega arith) e }

-- A loop up to the end of a block, whose body consumes a token.
pub Ends-loop {ℓ κ} :
    {A : Type ℓ} {B : Type κ} {k : ℕ} {p : Parse A} (stop : B) (f : A → Parse B)
    → Shortens (suc k) p
    → ((a : A) → Ends nothing k (f a))
    → Ends nothing
        (suc k)
        (current_token >>= λ t. if at_block_end t.kind then pure stop else (p >>= f))
unfolding current_token Step
Ends-loop {k} {p} stop f hp hf = record {
  runs = λ s h lt. elim (Bool-cases (at_block_end s.current.kind)) [
    | inl e ↦ rw e (h, omega arith, tt)
    | inr e ↦ rw e (Within-and_then_lt s k (p s) f lt (hp.runs s h lt (or_false_right _ _ e)) hf)
  ];
}

-- A list up to a token, which is empty or begins with what consumes one.
pub Shortens-check {ℓ κ} :
    {A : Type ℓ} {B : Type κ} {k : ℕ} (t : TokenType) (m : Message) (stop : A) (p : Parse A)
    (q : A → Parse B)
    → Shortens k p
    → ((a : A) → Ends nothing k (q a))
    → Shortens k (check t >>= λ b. (if b then pure stop else p) >>= λ a. consume t m >> q a)
unfolding check consume
Shortens-check {k} t m stop p q hp hq = record {
  runs = λ s h lt e. elim (Bool-cases (s.current.kind =? t)) [
    | inl e' ↦
        let less = remaining-advanced_lt s h e in
        let rest : Shorter s ((consume t m >> q stop) s) = rw e' (
          Shorter-Within s (advanced s) (q stop (advanced s)) less
            ((hq stop).runs (advanced s) (advanced-IsStructless s h) (omega (arith, less)))) in
        rw e' rest
    | inr e' ↦ rw e' (
        Shorter-and_then s k (p s) _ lt (hp.runs s h lt e)
          λ a. Ends-then nothing (consume-Ends nothing k t m) (hq a))
  ];
}

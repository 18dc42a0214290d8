-- ===== src/Parser/Reading.antt =====
-- cyarg/parser.c: rules that follow a `do` block of the parser along the tokens that it reads.
use yarg_lang.Prelude.{◌≡◌, refl, Bool, true, false, List, [], ◌∷◌, ◌++◌, append_assoc}
use yarg_lang.Scanner.Kinds.{TokenType, token_eof, token_error}
use yarg_lang.Scanner.Tokens.{Token}
use yarg_lang.Parser.Kinds.{◌=?◌}
use yarg_lang.Parser.State.{
  Parser, Parse, Report, returned, ◌>>=◌, ◌>>◌, pure, Message, advanced, advance, next_token, check,
  match_token, consume, previous_token, current_token, eof_token,
}

abbrev pub head_kind : List Token → TokenType
head_kind [] = token_eof
head_kind (t ∷ ts) = t.kind

-- The next token is no report of the scanner.
abbrev pub IsClean : List Token → Type 0
IsClean ts = (head_kind ts =? token_error) ≡ false

module _ (panic : Bool) (errors : List Report) where
  -- The parser before the given tokens.
  abbrev pub before : Token → List Token → Parser
  before previous [] = record {
    current = eof_token;
    previous = previous;
    panic_mode = panic;
    upcoming = [];
    errors = errors;
  }
  before previous (t ∷ ts) = record {
    current = t;
    previous = previous;
    panic_mode = panic;
    upcoming = ts;
    errors = errors;
  }

  -- From `previous` on, `p` reads `a` off the tokens `xs`, where `ts` follow, and reports nothing.
  pub record Reads {ℓ} {A : Type ℓ} (previous : Token) (p : Parse A) (xs : List Token) (a : A)
      (ts : List Token) : Type ℓ where
    pub last : Token
    pub reads : p (before previous (xs ++ ts)) ≡ returned (a, before last ts)

  advanced-before :
      (previous c : Token) (ts : List Token)
      → IsClean ts
      → advanced (before previous (c ∷ ts)) ≡ before c ts
  unfolding advanced next_token
  advanced-before previous c [] h = refl
  advanced-before previous c (t ∷ ts) h = rw h refl

  pub current-before :
      (previous : Token) (ts : List Token) → (before previous ts).current.kind ≡ head_kind ts
  current-before previous [] = refl
  current-before previous (t ∷ ts) = refl

  previous-before : (previous : Token) (ts : List Token) → (before previous ts).previous ≡ previous
  previous-before previous [] = refl
  previous-before previous (t ∷ ts) = refl

  pub Reads-pure {ℓ} :
      {A : Type ℓ} (previous : Token) (a : A) (ts : List Token) → Reads previous (pure a) [] a ts
  Reads-pure previous a ts = record { last = previous; reads = refl }

  pub Reads-bind {ℓ κ} :
      {A : Type ℓ} {B : Type κ} {previous : Token} {p : Parse A} {xs ys ts : List Token} {a : A}
      {b : B} (f : A → Parse B)
      → Reads previous p xs a (ys ++ ts)
      → ((c : Token) → Reads c (f a) ys b ts)
      → Reads previous (p >>= f) (xs ++ ys) b ts
  Reads-bind {previous} {p} {xs} {ys} {ts} {a} {b} f first second = record {
    last = (second first.last).last;
    reads = rw (append_assoc, first.reads) ((second first.last).reads);
  }

  pub Reads-map {ℓ κ} :
      {A : Type ℓ} {B : Type κ} {previous : Token} {p : Parse A} {xs ts : List Token} {a : A}
      (g : A → B)
      → Reads previous p xs a ts
      → Reads previous (p >>= λ a'. pure (g a')) xs (g a) ts
  Reads-map g first = record { last = first.last; reads = rw first.reads refl }

  pub Reads-consume {ℓ} :
      {B : Type ℓ} {previous c : Token} {q : Parse B} {ys ts : List Token} {b : B} (k : TokenType)
      (m : Message)
      → (c.kind =? k) ≡ true
      → IsClean (ys ++ ts)
      → Reads c q ys b ts
      → Reads previous (consume k m >> q) (c ∷ ys) b ts
  unfolding consume
  Reads-consume {previous} {c} {ys} {ts} k m e h next = record {
    last = next.last;
    reads = rw (e, advanced-before previous c (ys ++ ts) h) next.reads;
  }

  pub Reads-advance {ℓ} :
      {B : Type ℓ} {previous c : Token} {q : Parse B} {ys ts : List Token} {b : B}
      → IsClean (ys ++ ts)
      → Reads c q ys b ts
      → Reads previous (advance >> q) (c ∷ ys) b ts
  unfolding advance
  Reads-advance {previous} {c} {ys} {ts} h next = record {
    last = next.last;
    reads = rw (advanced-before previous c (ys ++ ts) h) next.reads;
  }

  pub Reads-match {ℓ} :
      {B : Type ℓ} {previous c : Token} {ys ts : List Token} {b : B} (k : TokenType)
      (f : Bool → Parse B)
      → (c.kind =? k) ≡ true
      → IsClean (ys ++ ts)
      → Reads c (f true) ys b ts
      → Reads previous (match_token k >>= f) (c ∷ ys) b ts
  unfolding match_token
  Reads-match {previous} {c} {ys} {ts} k f e h next = record {
    last = next.last;
    reads = rw (e, advanced-before previous c (ys ++ ts) h) next.reads;
  }

  pub Reads-no_match {ℓ} :
      {B : Type ℓ} {previous : Token} {xs ts : List Token} {b : B} (k : TokenType)
      (f : Bool → Parse B)
      → (head_kind (xs ++ ts) =? k) ≡ false
      → Reads previous (f false) xs b ts
      → Reads previous (match_token k >>= f) xs b ts
  unfolding match_token
  Reads-no_match {previous} {xs} {ts} k f e next = record {
    last = next.last;
    reads = rw (current-before previous (xs ++ ts), e) next.reads;
  }

  pub Reads-check {ℓ} :
      {B : Type ℓ} {previous : Token} {xs ts : List Token} {b : B} (k : TokenType)
      (f : Bool → Parse B)
      → Reads previous (f (head_kind (xs ++ ts) =? k)) xs b ts
      → Reads previous (check k >>= f) xs b ts
  unfolding check
  Reads-check {previous} {xs} {ts} k f next = record {
    last = next.last;
    reads = rw (current-before previous (xs ++ ts)) next.reads;
  }

  pub Reads-previous {ℓ} :
      {B : Type ℓ} {previous : Token} {xs ts : List Token} {b : B} (f : Token → Parse B)
      → Reads previous (f previous) xs b ts
      → Reads previous (previous_token >>= f) xs b ts
  unfolding previous_token
  Reads-previous {previous} {xs} {ts} f next = record {
    last = next.last;
    reads = rw (previous-before previous (xs ++ ts)) next.reads;
  }

  pub Reads-current {ℓ} :
      {B : Type ℓ} {previous : Token} {xs ts : List Token} {b : B} (f : Token → Parse B)
      → Reads previous (f (before previous (xs ++ ts)).current) xs b ts
      → Reads previous (current_token >>= f) xs b ts
  unfolding current_token
  Reads-current f next = record { last = next.last; reads = next.reads }

  -- A step that reads nothing.
  pub Reads-end {ℓ κ} :
      {A : Type ℓ} {B : Type κ} {previous : Token} {p : Parse A} {xs ts : List Token} {a : A}
      {b : B} (f : A → Parse B)
      → Reads previous p xs a ts
      → ((c : Token) → Reads c (f a) [] b ts)
      → Reads previous (p >>= f) xs b ts
  Reads-end f first second = record {
    last = (second first.last).last;
    reads = rw first.reads (second first.last).reads;
  }

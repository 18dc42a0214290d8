-- ===== src/Parser/Reports.antt =====
-- cyarg/parser.c: `panicMode`, which keeps the parser at one report until it synchronises.
use mathlib.Core.Bool.{true≢false}
use yarg_lang.Prelude.{
  ℕ, ◌<◌, ◌≡◌, refl, sym, ap, ◌∙◌, ◌⊎◌, inl, inr, true, false, if_cases, List, [], ◌∷◌, ◌++◌,
}
use yarg_lang.Scanner.Kinds.{token_error}
use yarg_lang.Scanner.Tokens.{Token}
use yarg_lang.Parser.Kinds.{◌=?◌}
use yarg_lang.Parser.State.{
  Parser, Message, Report, advanced, next_token, error_at, from_scanner, report_of,
}
use yarg_lang.Parser.Precedence.{parse_precedence}
use yarg_lang.Parser.Progress.{Kept, Within, IsStructless, remaining}
use yarg_lang.Parser.Total.{parse_precedence-Ends}

-- Either nothing was reported, or the parser was not in panic, is now, and made one report.
abbrev pub Reports : Parser → Parser → Type 0
Reports s s' =
    ((s'.panic_mode ≡ s.panic_mode) × (s'.errors ≡ s.errors))
    ⊎ ((s.panic_mode ≡ false)
        × (s'.panic_mode ≡ true)
        × ((r : Report) × (s'.errors ≡ s.errors ++ (r ∷ []))))

pub Reports-trans : (s s' s'' : Parser) → Reports s s' → Reports s' s'' → Reports s s''
Reports-trans s s' s'' (inl a) (inl b) = inl (b.0 ∙ a.0, b.1 ∙ a.1)
Reports-trans s s' s'' (inl a) (inr b) =
    inr (sym a.0 ∙ b.0, b.1, (b.2.0, b.2.1 ∙ ap (λ es. es ++ (b.2.0 ∷ [])) a.1))
Reports-trans s s' s'' (inr a) (inl b) = inr (a.0, b.0 ∙ a.1, (a.2.0, b.1 ∙ a.2.1))
Reports-trans s s' s'' (inr a) (inr b) = absurd (true≢false (sym a.1 ∙ b.0))

pub Reports-error_at : (t : Token) (m : Message) (s : Parser) → Reports s (error_at t m s)
unfolding error_at
Reports-error_at t m s =
    if_cases (Reports s) s.panic_mode (λ e. inl (refl, refl))
      λ e. inr (e, refl, (report_of t m, refl))

Reports-next_token : (ts : List Token) (s : Parser) → Reports s (next_token ts s)
unfolding next_token
Reports-next_token [] s = inl (refl, refl)
Reports-next_token (t ∷ r) s =
    let read : Parser = record s { current = t; upcoming = r } in
    let m = from_scanner t.text in
    if_cases (Reports s) (t.kind =? token_error)
      (λ e.
        Reports-trans s (error_at t m read) (next_token r (error_at t m read))
          (Reports-error_at t m read) (Reports-next_token r (error_at t m read)))
      λ e. inl (refl, refl)

pub Reports-advanced : (s : Parser) → Reports s (advanced s)
unfolding advanced
Reports-advanced s = Reports-next_token s.upcoming (record s { previous = s.current })

abbrev pub reporting : Kept
reporting = record {
  rel = Reports;
  rel_refl = λ s. inl (refl, refl);
  rel_trans = Reports-trans;
  rel_advanced = Reports-advanced;
  rel_error_at = Reports-error_at;
}

-- On tokens among which none is `struct`, where the fuel is above the tokens that are left,
-- `parse_precedence` does not run out of fuel, for any precedence and whether or not the tokens are
-- an expression. Where it returns, no more tokens are left than were, and either nothing was
-- reported, or the parser was not in panic, is now, and made one report.
pub parse_precedence-Within :
    (strtod_length : List ℕ → ℕ) (fuel precedence : ℕ) (s : Parser)
    → IsStructless s
    → remaining s < fuel
    → Within reporting s (parse_precedence strtod_length fuel precedence s)
parse_precedence-Within strtod_length fuel precedence s =
    (parse_precedence-Ends reporting strtod_length fuel precedence).runs s

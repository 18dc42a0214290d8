-- ===== src/Routine/Open.antt =====
-- The list of the open upvalues of a routine (cyarg/routine.c: closeUpvalues; cyarg/vm.c:
-- captureUpvalue).
use yarg_lang.Prelude.{
  ℕ, ◌≤◌, ◌<◌, ◌≡◌, ◌≢◌, inl, inr, refl, sym, ap, ◌∙◌, List, [], ◌∷◌, Option, none, some, arith,
  ◌==◌, ==_iff, ltb, leb, if_cases, All, Bool-cases, Option-cases,
}
use yarg_lang.Table.Cells.{ValueCell}
use yarg_lang.Routine.{Upvalue, close_from, capture, offset_of, cell_of}

-- Each upvalue stands for a higher cell than those behind it, at an address of its own.
abbrev pub IsDescending : List Upvalue → Type 0
IsDescending [] = Unit
IsDescending (u ∷ us) =
    All (λ (w : Upvalue). (w.stack_offset < u.stack_offset) × (w.address ≢ u.address)) us
    × IsDescending us

-- All cells are below an index.
abbrev pub AreBelow : ℕ → List Upvalue → Type 0
AreBelow n us = All (λ (w : Upvalue). w.stack_offset < n) us

-- What the upvalue at an address reads.
abbrev pub reads :
    {V : Type 0}
    → (ℕ → ValueCell V ℕ)
    → List Upvalue
    → List (ℕ × ValueCell V ℕ)
    → ℕ
    → Option (ValueCell V ℕ)
reads at us done p = elim (offset_of us p) [ some o ↦ some (at o) | none ↦ cell_of done p ]

not_there :
    (us : List Upvalue) (u : Upvalue)
    → All (λ (w : Upvalue). (w.stack_offset < u.stack_offset) × (w.address ≢ u.address)) us
    → offset_of us u.address ≡ none
not_there [] u h = refl
not_there (w ∷ us) u h = ground (arith, not_there us u, ==_iff w.address u.address)

below_top :
    (us : List Upvalue) (u : Upvalue) (n : ℕ)
    → All (λ (w : Upvalue). (w.stack_offset < u.stack_offset) × (w.address ≢ u.address)) us
    → u.stack_offset ≤ n
    → AreBelow n us
below_top [] u n h le = tt
below_top (w ∷ us) u n h le = (omega (arith, h.0.0), below_top us u n h.1 le)

pub AreBelow-le : (us : List Upvalue) (n m : ℕ) → n ≤ m → AreBelow n us → AreBelow m us
AreBelow-le [] n m le h = tt
AreBelow-le (u ∷ us) n m le h = (omega (arith, h.0), AreBelow-le us n m le h.1)

moved :
    {V : Type 0} (at : ℕ → ValueCell V ℕ) (u : Upvalue) (us : List Upvalue)
    (done : List (ℕ × ValueCell V ℕ)) (p : ℕ)
    → IsDescending (u ∷ us)
    → reads at us ((u.address, at u.stack_offset) ∷ done) p ≡ reads at (u ∷ us) done p
moved at u us done p h = elim (Bool-cases (u.address == p)) [
  | inl here ↦
      let gone : offset_of us p ≡ none =
        ap (offset_of us) (sym ((==_iff u.address p).0 here)) ∙ not_there us u h.0 in
      ground (arith, gone, ==_iff u.address p)
  | inr other ↦ ground (arith, ==_iff u.address p)
]

-- Closing changes nothing of what an upvalue reads.
pub reads-close_from :
    {V : Type 0} (at : ℕ → ValueCell V ℕ) (last : ℕ) (us : List Upvalue)
    (done : List (ℕ × ValueCell V ℕ)) (p : ℕ)
    → IsDescending us
    → reads at (close_from at last us done).0 (close_from at last us done).1 p ≡ reads at us done p
reads-close_from at last [] done p h = refl
reads-close_from at last (u ∷ us) done p h =
    if_cases
      (λ (c : List Upvalue × List (ℕ × ValueCell _ ℕ)).
        reads at c.0 c.1 p ≡ reads at (u ∷ us) done p)
      (leb last u.stack_offset)
      (λ _.
        reads-close_from at last us ((u.address, at u.stack_offset) ∷ done) p h.1
        ∙ moved at u us done p h)
      (λ _. refl)

-- What stays open is below.
pub close_from-AreBelow :
    {V : Type 0} (at : ℕ → ValueCell V ℕ) (last : ℕ) (us : List Upvalue)
    (done : List (ℕ × ValueCell V ℕ))
    → IsDescending us
    → AreBelow last (close_from at last us done).0
close_from-AreBelow at last [] done h = tt
close_from-AreBelow at last (u ∷ us) done h =
    if_cases (λ (c : List Upvalue × List (ℕ × ValueCell _ ℕ)). AreBelow last c.0)
      (leb last u.stack_offset)
      (λ _. close_from-AreBelow at last us ((u.address, at u.stack_offset) ∷ done) h.1)
      (λ below. (ground arith, below_top us u last h.0 (ground arith)))

pub close_from-IsDescending :
    {V : Type 0} (at : ℕ → ValueCell V ℕ) (last : ℕ) (us : List Upvalue)
    (done : List (ℕ × ValueCell V ℕ))
    → IsDescending us
    → IsDescending (close_from at last us done).0
close_from-IsDescending at last [] done h = tt
close_from-IsDescending at last (u ∷ us) done h =
    if_cases (λ (c : List Upvalue × List (ℕ × ValueCell _ ℕ)). IsDescending c.0)
      (leb last u.stack_offset)
      (λ _. close_from-IsDescending at last us ((u.address, at u.stack_offset) ∷ done) h.1) (λ _. h)

close_from-below :
    {V : Type 0} (at : ℕ → ValueCell V ℕ) (last n : ℕ) (us : List Upvalue)
    (done : List (ℕ × ValueCell V ℕ))
    → AreBelow n us
    → AreBelow n (close_from at last us done).0
close_from-below at last n [] done h = tt
close_from-below at last n (u ∷ us) done h =
    if_cases (λ (c : List Upvalue × List (ℕ × ValueCell _ ℕ)). AreBelow n c.0)
      (leb last u.stack_offset)
      (λ _. close_from-below at last n us ((u.address, at u.stack_offset) ∷ done) h.1) (λ _. h)

-- No upvalue of the list stands at the address.
abbrev pub IsFresh : ℕ → List Upvalue → Type 0
IsFresh p us = All (λ (w : Upvalue). w.address ≢ p) us

Above : Upvalue → List Upvalue → Type 0
Above u us = All (λ (w : Upvalue). (w.stack_offset < u.stack_offset) × (w.address ≢ u.address)) us

pub record IsCapture (fresh offset : ℕ) (us : List Upvalue) (taken : ℕ × List Upvalue)
    : Type 0 where
  pub descending : IsDescending taken.1
  pub found : offset_of taken.1 taken.0 ≡ some offset
  pub others : (p : ℕ) → p ≢ fresh → offset_of taken.1 p ≡ offset_of us p

abbrev fresh_upvalue : ℕ → ℕ → Upvalue
fresh_upvalue fresh offset = record { address = fresh; stack_offset = offset }

Above-capture :
    (fresh offset : ℕ) (u : Upvalue) (us : List Upvalue)
    → Above u us
    → offset < u.stack_offset
    → fresh ≢ u.address
    → Above u (capture fresh offset us).1
unfolding Above
Above-capture fresh offset u [] h lt ne = ((lt, ne), tt)
Above-capture fresh offset u (w ∷ us) h lt ne =
    if_cases (λ (t : ℕ × List Upvalue). Above u t.1) (ltb offset w.stack_offset)
      (λ _. (h.0, Above-capture fresh offset u us h.1 lt ne))
      (λ _.
        if_cases (λ (t : ℕ × List Upvalue). Above u t.1) (w.stack_offset == offset) (λ _. h)
          (λ _. ((lt, ne), h)))

Above-fresh :
    (fresh offset : ℕ) (u : Upvalue) (us : List Upvalue)
    → Above u us
    → u.stack_offset ≤ offset
    → IsFresh fresh us
    → Above (fresh_upvalue fresh offset) us
unfolding Above
Above-fresh fresh offset u [] h le f = tt
Above-fresh fresh offset u (w ∷ us) h le f =
    ((omega (arith, h.0.0), f.0), Above-fresh fresh offset u us h.1 le f.1)

IsCapture-ahead :
    (fresh offset : ℕ) (u : Upvalue) (us : List Upvalue) (taken : ℕ × List Upvalue)
    → IsCapture fresh offset us taken
    → Above u taken.1
    → IsCapture fresh offset (u ∷ us) (taken.0, u ∷ taken.1)
unfolding Above
IsCapture-ahead fresh offset u us taken c a = record {
  descending = (a, c.descending);
  found = ground (arith, c.found, not_there taken.1 u a, ==_iff u.address taken.0);
  others = λ p ne. ground (arith, c.others p ne);
}

pub capture-IsCapture :
    (fresh offset : ℕ) (us : List Upvalue)
    → IsDescending us
    → IsFresh fresh us
    → IsCapture fresh offset us (capture fresh offset us)
unfolding Above
capture-IsCapture fresh offset [] h f = record {
  descending = (tt, tt);
  found = ground arith;
  others = λ p ne. ground (arith, ==_iff fresh p);
}
capture-IsCapture fresh offset (u ∷ us) h f =
    let P : ℕ × List Upvalue → Type 0 = IsCapture fresh offset (u ∷ us) in
    if_cases P (ltb offset u.stack_offset)
      (λ lt.
        IsCapture-ahead fresh offset u us (capture fresh offset us)
          (capture-IsCapture fresh offset us h.1 f.1)
          (Above-capture fresh offset u us h.0 (ground arith) (λ e. f.0 (sym e))))
      (λ ge.
        if_cases P (u.stack_offset == offset)
          (λ same. record { descending = h; found = ground arith; others = λ p ne. refl })
          (λ other. record {
            descending =
                (((ground arith, f.0), Above-fresh fresh offset u us h.0 (ground arith) f.1), h);
            found = ground arith;
            others = λ p ne. ground (arith, ==_iff fresh p);
          }))

offset_of-lt : (us : List Upvalue) (n p o : ℕ) → AreBelow n us → offset_of us p ≡ some o → o < n
offset_of-lt [] n p o h e = cc
offset_of-lt (u ∷ us) n p o h e = ground (arith, offset_of-lt us n p o h.1, h.0)

pub reads-same :
    {V : Type 0} (at at' : ℕ → ValueCell V ℕ) (n : ℕ) (us : List Upvalue)
    (done : List (ℕ × ValueCell V ℕ)) (p : ℕ)
    → AreBelow n us
    → ((i : ℕ) → i < n → at i ≡ at' i)
    → reads at us done p ≡ reads at' us done p
reads-same at at' n us done p h same = elim (Option-cases (offset_of us p)) [
  | inl e ↦ ground (arith, e)
  | inr (o, e) ↦ ground (arith, e, same o (offset_of-lt us n p o h e))
]

pub capture_again :
    (fresh offset p : ℕ) (us : List Upvalue)
    → IsDescending us
    → offset_of us p ≡ some offset
    → capture fresh offset us ≡ (p, us)
capture_again fresh offset p [] h e = cc
capture_again fresh offset p (u ∷ us) h e =
    let P : ℕ × List Upvalue → Type 0 = λ t. t ≡ (p, u ∷ us) in
    elim (Bool-cases (u.address == p)) [
      | inl here ↦
          let same : offset ≡ u.stack_offset = ground arith in
          if_cases P (ltb offset u.stack_offset) (λ lt. absurd (ground arith))
            (λ _.
              if_cases P (u.stack_offset == offset)
                (λ _. ap (λ a. (a, u ∷ us)) ((==_iff u.address p).0 here))
                (λ ne. absurd (ground arith)))
      | inr other ↦
          let behind : offset_of us p ≡ some offset = ground arith in
          let lt =
            offset_of-lt us u.stack_offset p offset
              (below_top us u u.stack_offset h.0 (omega arith)) behind in
          if_cases P (ltb offset u.stack_offset)
            (λ _.
              ap (λ (t : ℕ × List Upvalue). (t.0, u ∷ t.1))
                (capture_again fresh offset p us h.1 behind))
            (λ ge. absurd (ground arith))
    ]

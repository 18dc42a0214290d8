-- ===== src/Routine/Pinned.antt =====
-- The routines that are pinned to a handler (cyarg/vm.c: installPinnedRoutine, removePinnedRoutine).
use yarg_lang.Prelude.{
  ℕ, suc, ◌≡◌, refl, ◌∙◌, Bool, true, false, List, [], ◌∷◌, Option, none, some, ◌==◌, if◌then◌else◌,
  get_or, set, arith,
}

-- `MAX_PINNED_ROUTINES` of each; 0 is NULL.
pub record Pinned : Type 0 where
  pub routines : List ℕ
  pub handlers : List ℕ

-- The first index whose entry is the one wanted.
abbrev pub index_of : ℕ → List ℕ → Option ℕ
index_of x [] = none
index_of x (y ∷ ys) =
    let rest = index_of x ys in
    if y == x then some 0 else elim rest [ none ↦ none | some i ↦ some (suc i) ]

-- The address that is given out, where a routine is installed.
unfoldable pub install_pinned_routine : ℕ → Pinned → Option ℕ × Pinned
install_pinned_routine routine p = elim (index_of 0 p.routines) [
  | none ↦ (none, p)
  | some i ↦ (some (get_or p.handlers i 0), record p { routines = set p.routines i routine })
]

unfoldable pub remove_pinned_routine : ℕ → Pinned → Bool × Pinned
remove_pinned_routine address p = elim (index_of address p.handlers) [
  | none ↦ (false, p)
  | some i ↦ (true, record p { handlers = set p.handlers i 0 })
]

abbrev pub remove_all : List ℕ → Pinned → Pinned
remove_all [] p = p
remove_all (a ∷ rest) p = remove_all rest (remove_pinned_routine a p).1

remove-routines : (gone : List ℕ) (p : Pinned) → (remove_all gone p).routines ≡ p.routines
unfolding remove_pinned_routine
remove-routines [] p = refl
remove-routines (a ∷ rest) p = remove-routines rest (remove_pinned_routine a p).1 ∙ ground arith

-- Where no place is free for a pinned routine, none is free after any routines were removed.
pub install-remove_all :
    (routine : ℕ) (gone : List ℕ) (p : Pinned)
    → (install_pinned_routine routine p).0 ≡ none
    → (install_pinned_routine routine (remove_all gone p)).0 ≡ none
unfolding install_pinned_routine
install-remove_all routine gone p full = ground (arith, remove-routines gone p)

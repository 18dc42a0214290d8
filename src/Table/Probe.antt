-- ===== src/Table/Probe.antt =====
-- The probe of cyarg/table.c ends, where an entry is vacant.
use yarg_lang.Prelude.{
  ℕ, zero, suc, ◌+◌, ◌-◌, ◌%◌, ◌≤◌, ◌<◌, ◌≡◌, ◌≢◌, ◌⊎◌, inl, inr, refl, sym, ap, ◌∙◌, List, Option,
  none, some, arith, ◌==◌, if_cases, get_or,
}
use native.Mathlib.Nat.{mod-eq_of_lt, mod-add-mod, mod-lt, add-mod_left}
use native.Mathlib.Decide.{dec_le}
use yarg_lang.Table.{Entry, vacant, tombstone, held, first_of, find_from, find_entry}

-- An index below the capacity is found.
abbrev Within : ℕ → Option ℕ → Type 0
Within capacity none = ⊥
Within capacity (some i) = i < capacity

abbrev Allowed : ℕ → Option ℕ → Type 0
Allowed capacity none = Unit
Allowed capacity (some t) = t < capacity

first_of-lt :
    (capacity i : ℕ) (tomb : Option ℕ)
    → i < capacity
    → Allowed capacity tomb
    → first_of tomb i < capacity
first_of-lt capacity i none h t = h
first_of-lt capacity i (some j) h t = t

found : (capacity : ℕ) (o : Option ℕ) → Within capacity o → (i : ℕ) × (o ≡ some i) × (i < capacity)
found capacity none w = elim w [ ]
found capacity (some i) w = (i, refl, w)

pub Entry-cases :
    {V : Type 0} (e : Entry V)
    → (e ≡ vacant) ⊎ ((e ≡ tombstone) ⊎ ((k : ℕ) × (v : V) × (e ≡ held k v)))
Entry-cases vacant = inl refl
Entry-cases tombstone = inr (inl refl)
Entry-cases (held k v) = inr (inr (k, v, refl))

-- One step on, the vacant entry is one step nearer.
nearer : (i d capacity : ℕ) → (((i + 1) % capacity) + d) % capacity ≡ (i + suc d) % capacity
nearer i d capacity = mod-add-mod (i + 1) capacity d ∙ ap (λ k. k % capacity) (omega arith)

-- Every index is reached from every other in fewer steps than the capacity.
reached :
    (h j capacity : ℕ)
    → h < capacity
    → j < capacity
    → (d : ℕ) × (d < capacity) × ((h + d) % capacity ≡ j)
reached h j capacity hh hj = elim (dec_le h j) [
  | yes le ↦ (j - h, omega arith, ap (λ k. k % capacity) (omega arith) ∙ mod-eq_of_lt hj)
  | no gt ↦ (
    j + capacity - h,
    omega arith,
    ap (λ k. k % capacity) (omega arith) ∙ add-mod_left capacity j ∙ mod-eq_of_lt hj,
  )
]

module _ {V : Type 0} (entries : List (Entry V)) (capacity key : ℕ) (room : 1 ≤ capacity) where
  abbrev entry_at : ℕ → Entry V
  entry_at i = get_or entries i vacant

  -- Where this entry is not vacant, the vacant one lies ahead.
  further :
      (i d : ℕ)
      → i < capacity
      → entry_at ((i + d) % capacity) ≡ vacant
      → entry_at i ≢ vacant
      → (d' : ℕ) × (d ≡ suc d') × (entry_at (((i + 1) % capacity + d') % capacity) ≡ vacant)
  further i zero inside free taken = absurd (
      taken (
        ap entry_at (sym (mod-eq_of_lt inside))
        ∙ ap (λ k. entry_at (k % capacity)) (omega arith)
        ∙ free))
  further i (suc d) inside free taken = (d, refl, ap entry_at (nearer i d capacity) ∙ free)

  find_from-Within :
      (fuel index d : ℕ) (tomb : Option ℕ)
      → d < fuel
      → index < capacity
      → Allowed capacity tomb
      → entry_at ((index + d) % capacity) ≡ vacant
      → Within capacity (find_from fuel entries capacity key index tomb)
  unfolding find_from
  find_from-Within zero index d tomb lt inside ok free = absurd (omega arith)
  find_from-Within (suc fuel) index d tomb lt inside ok free =
      let on : entry_at index ≢ vacant
          → (t : Option ℕ) → Allowed capacity t
          → Within capacity (find_from fuel entries capacity key ((index + 1) % capacity) t) =
        λ taken t allowed.
          let (d', e, free') = further index d inside free taken in
          find_from-Within fuel ((index + 1) % capacity) d' t (omega (arith, e))
            (mod-lt (index + 1) room) allowed free' in
      elim (Entry-cases (entry_at index)) [
        | inl e ↦ rw (e, Within) (first_of-lt capacity index tomb inside ok)
        | inr (inl e) ↦
            rw (e, Within)
              (on (λ f. cc) (some (first_of tomb index))
                (first_of-lt capacity index tomb inside ok))
        | inr (inr (k, v, e)) ↦
            rw (e, Within)
              (if_cases (Within capacity) (k == key) (λ _. inside) (λ _. on (λ f. cc) tomb ok))
      ]

  -- In a table of at least one entry, where an entry below the capacity is vacant, the probe of
  -- `find_entry` ends within as many rounds as the capacity, at an index below it.
  pub find_entry-Within :
      (hash : ℕ → ℕ) (j : ℕ)
      → j < capacity
      → entry_at j ≡ vacant
      → (i : ℕ) × (find_entry hash entries capacity key ≡ some i) × (i < capacity)
  unfolding find_entry
  find_entry-Within hash j lt free =
      found capacity (find_from capacity entries capacity key (hash key % capacity) none) (
        let (d, lt', there) =
          reached (hash key % capacity) j capacity (mod-lt (hash key) room) lt in
        find_from-Within capacity (hash key % capacity) d none lt' (mod-lt (hash key) room) tt
          (ap entry_at there ∙ free))

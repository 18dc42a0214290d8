-- ===== src/Table/Counted.antt =====
-- The count of a table (cyarg/table.c), and the operations that end because of it.
use yarg_lang.Prelude.{
  ℕ, zero, suc, ◌+◌, ◌≤◌, ◌<◌, ◌≡◌, refl, ◌∙◌, Bool, true, false, List, [], ◌∷◌, Option, none, some,
  arith, ◌==◌, if◌then◌else◌, if_cases, get_or, set, length, length-set, Bool-cases, inl, inr,
}
use yarg_lang.Table.{
  ValueTable, Entry, vacant, tombstone, held, used, is_vacant, is_held, value_of, find_entry,
  table_get, put_at, delete_at, put, table_delete, table_invariant,
}
use yarg_lang.Table.Probe.{find_entry-Within}

-- The entries are as many as the capacity says, and the count is that of the keys and tombstones.
pub record IsCounted {V : Type 0} (t : ValueTable V) : Type 0 where
  pub sized : length t.entries ≡ t.capacity
  pub counted : used t.entries ≡ t.count

module _ {V : Type 0} where
  abbrev weight : Entry V → ℕ
  weight e = if is_vacant e then 0 else 1

  used-set :
      (es : List (Entry V)) (i : ℕ) (e : Entry V)
      → i < length es
      → used (set es i e) + weight (get_or es i vacant) ≡ used es + weight e
  unfolding used
  used-set [] i e h = absurd (omega arith)
  used-set (x ∷ es) zero e h = omega arith
  used-set (x ∷ es) (suc i) e h = omega (arith, used-set es i e (omega arith))

  -- Fewer keys and tombstones than entries leave one vacant.
  vacant_left :
      (es : List (Entry V))
      → used es < length es
      → (j : ℕ) × (j < length es) × (get_or es j vacant ≡ vacant)
  unfolding used
  vacant_left [] h = absurd (omega arith)
  vacant_left (vacant ∷ es) h = (0, omega arith, refl)
  vacant_left (tombstone ∷ es) h =
      let (j, lt, e) = vacant_left es (omega arith) in (suc j, omega arith, e)
  vacant_left (held k v ∷ es) h =
      let (j, lt, e) = vacant_left es (omega arith) in (suc j, omega arith, e)

  used-le : (es : List (Entry V)) → used es ≤ length es
  unfolding used
  used-le [] = omega arith
  used-le (vacant ∷ es) = omega (arith, used-le es)
  used-le (tombstone ∷ es) = omega (arith, used-le es)
  used-le (held k v ∷ es) = omega (arith, used-le es)

  weight_held : (e : Entry V) → is_held e ≡ true → weight e ≡ 1
  weight_held vacant h = cc
  weight_held tombstone h = refl
  weight_held (held k v) h = refl

module _ {V : Type 0} (hash : ℕ → ℕ) (t : ValueTable V) (key : ℕ) (c : IsCounted t)
    (room : t.count < t.capacity) where
  -- The probe ends, inside the table.
  pub probe : (i : ℕ) × (find_entry hash t.entries t.capacity key ≡ some i) × (i < t.capacity)
  probe =
      let (j, lt, e) = vacant_left t.entries (omega (arith, c.sized, c.counted)) in
      find_entry-Within t.entries t.capacity key (omega arith) hash j (omega (arith, c.sized)) e

  -- Reading ends.
  pub table_get-total : (r : Option V) × (table_get hash t key ≡ some r)
  unfolding table_get
  table_get-total = elim (Bool-cases (t.count == 0)) [
    | inl e ↦ (none, rw e refl)
    | inr e ↦ let (i, at, lt) = probe in (value_of (get_or t.entries i vacant), rw (e, at) refl)
  ]

  pub put_at-IsCounted : (i : ℕ) (v : V) → i < t.capacity → IsCounted (put_at t i key v).1
  put_at-IsCounted i v lt = record {
    sized = length-set t.entries i (held key v) ∙ c.sized;
    counted =
        ground (arith, used-set t.entries i (held key v) (omega (arith, c.sized, lt)), c.counted);
  }

  delete_at-IsCounted : (i : ℕ) → i < t.capacity → IsCounted (delete_at t i).1
  delete_at-IsCounted i lt =
      if_cases (λ (r : Bool × ValueTable V). IsCounted r.1) (is_held (get_or t.entries i vacant))
        (λ h. record {
          sized = length-set t.entries i tombstone ∙ c.sized;
          counted = omega (
            arith,
            used-set t.entries i tombstone (omega (arith, c.sized, lt)),
            c.counted,
            weight_held (get_or t.entries i vacant) h,
          );
        })
        (λ _. c)

  -- Writing without growth ends, and counts right.
  pub put-IsCounted :
      (v : V) → (r : Bool × ValueTable V) × (put hash t key v ≡ some r) × IsCounted r.1
  unfolding put
  put-IsCounted v =
      let (i, at, lt) = probe in (put_at t i key v, rw (at, put) refl, put_at-IsCounted i v lt)

  -- On a table whose count is right and below the capacity, `table_delete` ends, and leaves a table
  -- whose count is right.
  pub table_delete-IsCounted :
      (r : Bool × ValueTable V) × (table_delete hash t key ≡ some r) × IsCounted r.1
  unfolding table_delete
  table_delete-IsCounted = elim (Bool-cases (t.count == 0)) [
    | inl e ↦ ((false, t), rw e refl, c)
    | inr e ↦ let (i, at, lt) = probe in (delete_at t i, rw (e, at) refl, delete_at-IsCounted i lt)
  ]

-- The assertion of the program passes on a counted table.
pub table_invariant-IsCounted :
    {V : Type 0} (t : ValueTable V) → IsCounted t → table_invariant t ≡ true
unfolding table_invariant
table_invariant-IsCounted t c =
    let none_used : used t.entries ≤ t.capacity = omega (arith, used-le t.entries, c.sized) in
    ground (arith, none_used, c.counted)

-- A deletion changes neither the count nor the capacity.
pub table_delete-sizes :
    {V : Type 0} (hash : ℕ → ℕ) (t : ValueTable V) (key : ℕ) (r : Bool × ValueTable V)
    → table_delete hash t key ≡ some r
    → (r.1.count ≡ t.count) × (r.1.capacity ≡ t.capacity)
unfolding table_delete
table_delete-sizes hash t key r h = ground arith

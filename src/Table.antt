-- ===== src/Table.antt =====
-- cyarg/table.c: the open-addressing hash tables of values and of value cells. A key is the address of
-- a string, and `hash` the hash that the string holds. A function whose probe does not end gives `none`.
pub mod Probe
pub mod Cells
pub mod Strings
pub mod Counted
pub mod Lookup
pub mod Findable
pub mod Tests
use yarg_lang.Prelude.{
  ℕ, zero, suc, ◌+◌, ◌*◌, ◌%◌, Bool, true, false, List, [], ◌∷◌, Option, none, some, ltb, ◌==◌,
  if◌then◌else◌, get_or, set, replicate,
}

-- An entry: with no key and `nil`, with no key and `true`, or with a key and its value.
pub data Entry (V : Type 0) : Type 0 where
  vacant tombstone : Entry V
  held : ℕ → V → Entry V

pub record ValueTable (V : Type 0) : Type 0 where
  pub count : ℕ
  pub capacity : ℕ
  pub entries : List (Entry V)

-- The entry that a probe ends at: the first tombstone passed, where there was one.
abbrev pub first_of : Option ℕ → ℕ → ℕ
first_of none i = i
first_of (some t) i = t

pub grow_capacity : ℕ → ℕ
grow_capacity c = if ltb c 8 then 8 else c * 2

module _ {V : Type 0} where
  pub init_table : ValueTable V
  init_table = record { count = 0; capacity = 0; entries = [] }

  -- The probe, from `index` on. The capacity is a power of two, so that `& (capacity - 1)` is the
  -- remainder; after `capacity` rounds the probe would go round again.
  unfoldable pub find_from : ℕ → List (Entry V) → ℕ → ℕ → ℕ → Option ℕ → Option ℕ
  find_from zero entries capacity key index tomb = none
  find_from (suc fuel) entries capacity key index tomb =
      let on : Option ℕ → Option ℕ =
        λ t. find_from fuel entries capacity key ((index + 1) % capacity) t in
      elim (get_or entries index vacant) [
        | vacant ↦ some (first_of tomb index)
        | tombstone ↦ on (some (first_of tomb index))
        | held k v ↦ if k == key then some index else on tomb
      ]

  -- Whether a key is held, and what with.
  abbrev pub value_of : Entry V → Option V
  value_of vacant = none
  value_of tombstone = none
  value_of (held k v) = some v

  abbrev pub is_vacant : Entry V → Bool
  is_vacant vacant = true
  is_vacant _ = false

  abbrev pub is_held : Entry V → Bool
  is_held (held k v) = true
  is_held _ = false

  -- The keys and tombstones that `tableInvariant` counts.
  unfoldable pub used : List (Entry V) → ℕ
  used [] = 0
  used (e ∷ es) = (if is_vacant e then 0 else 1) + used es

  pub table_invariant : ValueTable V → Bool
  table_invariant t = if t.capacity == 0 then t.count == 0 else used t.entries == t.count

  -- `tableSet` after the growth: the key and the value are written at the entry found.
  abbrev pub put_at : ValueTable V → ℕ → ℕ → V → Bool × ValueTable V
  put_at t i key value =
      let old = get_or t.entries i vacant in
      (
        (if is_held old then false else true),
        record t {
          count = if is_vacant old then t.count + 1 else t.count;
          entries = set t.entries i (held key value);
        },
      )

  -- A tombstone where the key is found; the count stays.
  abbrev pub delete_at : ValueTable V → ℕ → Bool × ValueTable V
  delete_at t i =
      if is_held (get_or t.entries i vacant)
      then (true, record t { entries = set t.entries i tombstone })
      else (false, t)

module _ {V : Type 0} (hash : ℕ → ℕ) where
  unfoldable pub find_entry : List (Entry V) → ℕ → ℕ → Option ℕ
  find_entry entries capacity key =
      find_from capacity entries capacity key (hash key % capacity) none

  pub table_get : ValueTable V → ℕ → Option (Option V)
  table_get t key = if t.count == 0 then some none else elim (find_entry t.entries t.capacity key) [
    | none ↦ none
    | some i ↦ some (value_of (get_or t.entries i vacant))
  ]

  -- The second loop of `adjustCapacity`, over the old entries left.
  pub rehash : List (Entry V) → ℕ → List (Entry V) → ℕ → Option (List (Entry V) × ℕ)
  rehash [] capacity entries count = some (entries, count)
  rehash (held k v ∷ old) capacity entries count = elim (find_entry entries capacity k) [
    | none ↦ none
    | some i ↦ rehash old capacity (set entries i (held k v)) (count + 1)
  ]
  rehash (_ ∷ old) capacity entries count = rehash old capacity entries count

  pub adjust_capacity : ValueTable V → ℕ → Option (ValueTable V)
  adjust_capacity t capacity = elim (rehash t.entries capacity (replicate capacity vacant) 0) [
    | none ↦ none
    | some r ↦ some (record { count = r.1; capacity = capacity; entries = r.0 })
  ]

  pub put : ValueTable V → ℕ → V → Option (Bool × ValueTable V)
  put t key value = elim (find_entry t.entries t.capacity key) [
    | none ↦ none
    | some i ↦ some (put_at t i key value)
  ]

  -- The load is above three quarters where four times the entries are more than three capacities.
  pub table_set : ValueTable V → ℕ → V → Option (Bool × ValueTable V)
  table_set t key value =
      if ltb (3 * t.capacity) (4 * (t.count + 1))
      then elim (adjust_capacity t (grow_capacity t.capacity)) [
        | none ↦ none
        | some t' ↦ put t' key value
      ]
      else put t key value

  pub table_delete : ValueTable V → ℕ → Option (Bool × ValueTable V)
  table_delete t key =
      if t.count == 0 then some (false, t) else elim (find_entry t.entries t.capacity key) [
        | none ↦ none
        | some i ↦ some (delete_at t i)
      ]

  -- The loop of `tableAddAll` over the entries of `from`.
  pub add_all : List (Entry V) → ValueTable V → Option (ValueTable V)
  add_all [] to = some to
  add_all (held k v ∷ from) to = elim (table_set to k v) [ none ↦ none | some r ↦ add_all from r.1 ]
  add_all (_ ∷ from) to = add_all from to

  pub table_add_all : ValueTable V → ValueTable V → Option (ValueTable V)
  table_add_all from to = add_all from.entries to

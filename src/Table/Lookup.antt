-- ===== src/Table/Lookup.antt =====
-- What a table gives for a key that was just written (cyarg/table.c: tableSet, tableGet).
use yarg_lang.Prelude.{
  ℕ, zero, suc, ◌+◌, ◌*◌, ◌≤◌, ◌<◌, ◌≡◌, ◌≢◌, refl, sym, ap, subst, ◌∙◌, Bool, true, false, List,
  [], ◌∷◌, Option, none, some, arith, ltb, ◌==◌, ==_iff, get_or, set, length, get_or-set_self,
  get_or-set_ne, Bool-cases, inl, inr, ◌%◌,
}
use native.Mathlib.Nat.{mod-lt}
use yarg_lang.Table.{
  ValueTable, Entry, vacant, tombstone, held, used, first_of, find_from, find_entry, table_get,
  put_at, put, table_set,
}
use yarg_lang.Table.Probe.{Entry-cases}
use yarg_lang.Table.Counted.{IsCounted, probe, put_at-IsCounted}

-- A key that stands in the table is counted.
used-held :
    {V : Type 0} (es : List (Entry V)) (i key : ℕ) (v : V)
    → get_or es i vacant ≡ held key v
    → 1 ≤ used es
unfolding used
used-held [] i key v e = cc
used-held (x ∷ es) zero key v e = rw e (omega arith)
used-held (x ∷ es) (suc i) key v e = omega (arith, used-held es i key v e)

fresh_first :
    (index i : ℕ) (tomb : Option ℕ)
    → index ≢ i
    → ((t : ℕ) → tomb ≡ some t → t ≢ i)
    → first_of tomb index ≢ i
fresh_first index i none other fresh = other
fresh_first index i (some t) other fresh = fresh t refl

some-injective : (a b : ℕ) → some a ≡ some b → a ≡ b
some-injective a b e = cc

-- One round of the probe, by what stands at the index.
module _ {V : Type 0} (es : List (Entry V)) (capacity key fuel index : ℕ) (tomb : Option ℕ) where
  probe_on : Option ℕ → Option ℕ
  probe_on t = find_from fuel es capacity key ((index + 1) % capacity) t

  find_from-vacant :
      get_or es index vacant ≡ vacant
      → find_from (suc fuel) es capacity key index tomb ≡ some (first_of tomb index)
  unfolding find_from
  find_from-vacant e = rw (e, find_from) refl

  find_from-tombstone :
      get_or es index vacant ≡ tombstone
      → find_from (suc fuel) es capacity key index tomb
        ≡ find_from fuel es capacity key ((index + 1) % capacity) (some (first_of tomb index))
  unfolding find_from
  find_from-tombstone e = rw (e, find_from) refl

  find_from-hit :
      (v : V)
      → get_or es index vacant ≡ held key v
      → find_from (suc fuel) es capacity key index tomb ≡ some index
  unfolding find_from
  find_from-hit v e = rw (e, find_from) (ground arith)

  find_from-other :
      (k : ℕ) (v : V)
      → get_or es index vacant ≡ held k v
      → (k == key) ≡ false
      → find_from (suc fuel) es capacity key index tomb
        ≡ find_from fuel es capacity key ((index + 1) % capacity) tomb
  unfolding find_from
  find_from-other k v e ne = rw (e, find_from, ne) refl

  find_from-same :
      (k : ℕ) (v : V)
      → get_or es index vacant ≡ held k v
      → (k == key) ≡ true
      → find_from (suc fuel) es capacity key index tomb ≡ some index
  unfolding find_from
  find_from-same k v e eq = rw (e, find_from, eq) refl

module _ {V : Type 0} (es : List (Entry V)) (capacity key i : ℕ) (v : V) (room : 1 ≤ capacity)
    (sized : length es ≡ capacity) where
  abbrev written : List (Entry V)
  written = set es i (held key v)

  -- The probe stops where it comes to the entry that was written.
  stops :
      (fuel index : ℕ) (tomb : Option ℕ)
      → index < capacity
      → index ≡ i
      → find_from (suc fuel) written capacity key index tomb ≡ some i
  stops fuel index tomb lt e =
      let here : get_or written index vacant ≡ held key v =
        subst (λ j. get_or (set es j (held key v)) index vacant ≡ held key v) e
          (get_or-set_self es index (held key v) vacant (omega (arith, sized))) in
      find_from-hit written capacity key fuel index tomb v here ∙ ap some e

  -- It takes the same way there as before.
  find_from-written :
      (fuel index : ℕ) (tomb : Option ℕ)
      → index < capacity
      → ((t : ℕ) → tomb ≡ some t → t ≢ i)
      → find_from fuel es capacity key index tomb ≡ some i
      → find_from fuel written capacity key index tomb ≡ some i
  unfolding find_from
  find_from-written zero index tomb lt fresh h = cc
  find_from-written (suc fuel) index tomb lt fresh h = elim (Bool-cases (index == i)) [
    | inl e ↦ stops fuel index tomb lt ((==_iff index i).0 e)
    | inr ne ↦
        let other : index ≢ i = λ e. ground (arith, ne, e) in
        let next = mod-lt (index + 1) room in
        let same : get_or written index vacant ≡ get_or es index vacant =
          get_or-set_ne es (held key v) vacant (λ e. other (sym e)) in
        elim (Entry-cases (get_or es index vacant)) [
          | inl e ↦ absurd (
              fresh_first index i tomb other fresh (
                some-injective (first_of tomb index) i
                  (sym (find_from-vacant es capacity key fuel index tomb e) ∙ h)))
          | inr (inl e) ↦
              find_from-tombstone written capacity key fuel index tomb (same ∙ e)
              ∙ find_from-written fuel ((index + 1) % capacity) (some (first_of tomb index)) next
                  (λ t e'.
                    subst (λ u. u ≢ i) (some-injective (first_of tomb index) t e')
                      (fresh_first index i tomb other fresh))
                  (sym (find_from-tombstone es capacity key fuel index tomb e) ∙ h)
          | inr (inr (k, w, e)) ↦ elim (Bool-cases (k == key)) [
            | inl eq ↦ absurd (
                other (
                  some-injective index i
                    (sym (find_from-same es capacity key fuel index tomb k w e eq) ∙ h)))
            | inr miss ↦
                find_from-other written capacity key fuel index tomb k w (same ∙ e) miss
                ∙ find_from-written fuel ((index + 1) % capacity) tomb next fresh
                    (sym (find_from-other es capacity key fuel index tomb k w e miss) ∙ h)
          ]
        ]
  ]

  find_entry-written :
      (hash : ℕ → ℕ)
      → find_entry hash es capacity key ≡ some i
      → find_entry hash written capacity key ≡ some i
  unfolding find_entry
  find_entry-written hash h =
      find_from-written capacity (hash key % capacity) none (mod-lt (hash key) room) (λ t e. cc) h

-- On a table whose count is right and whose load leaves room for one more entry: `table_set` ends,
-- `table_get` then gives the value that was written at the key, also where a tombstone or another
-- key stands in the way, the capacity is what it was, and the count is right.
pub table_get-table_set :
    {V : Type 0} (hash : ℕ → ℕ) (t : ValueTable V) (key : ℕ) (v : V)
    → IsCounted t
    → 4 * (t.count + 1) ≤ 3 * t.capacity
    → (r : Bool × ValueTable V) × (table_set hash t key v ≡ some r)
      × (table_get hash r.1 key ≡ some (some v))
      × (r.1.capacity ≡ t.capacity)
      × IsCounted r.1
unfolding table_set table_get put
table_get-table_set hash t key v c light =
    let stays : ltb (3 * t.capacity) (4 * (t.count + 1)) ≡ false = ground (arith, light) in
    let (i, at, lt) = probe hash t key c (omega (arith, light)) in
    let r = put_at t i key v in
    let counted = put_at-IsCounted hash t key c (omega (arith, light)) i v lt in
    let here = get_or-set_self t.entries i (held key v) vacant (omega (arith, lt, c.sized)) in
    let again =
      find_entry-written t.entries t.capacity key i v (omega (arith, lt)) c.sized hash at in
    let some_used : 1 ≤ used r.1.entries = used-held r.1.entries i key v here in
    let full : (r.1.count == 0) ≡ false = ground (arith, some_used, counted.counted) in
    (r, rw (stays, at, put) refl, rw (full, again, here) refl, refl, counted)

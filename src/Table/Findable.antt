-- ===== src/Table/Findable.antt =====
-- Every key of a table (cyarg/table.c) is found where it stands, and stays so when another is deleted.
use yarg_lang.Prelude.{
  ℕ, zero, suc, ◌+◌, ◌%◌, ◌≤◌, ◌<◌, ◌≡◌, ◌≢◌, inl, inr, refl, sym, ap, ◌∙◌, Bool, true, false, List,
  [], ◌∷◌, Option, none, some, arith, ◌==◌, ==_iff, if◌then◌else◌, get_or, set, length,
  get_or-set_self, get_or-set_ne, Bool-cases,
}
use yarg_lang.Table.{
  ValueTable, Entry, vacant, tombstone, held, first_of, find_from, find_entry, is_held, used,
  delete_at, table_delete,
}
use yarg_lang.Table.Counted.{IsCounted}
use yarg_lang.Table.Probe.{Entry-cases}

first_ne : (t : Option ℕ) (index i : ℕ) → t ≢ some i → index ≢ i → some (first_of t index) ≢ some i
first_ne none index i n m e = m cc
first_ne (some x) index i n m e = n e

some_inj : (a b : ℕ) → some a ≡ some b → a ≡ b
some_inj a b e = cc

module _ {V : Type 0} where
  abbrev pub IsFindable : (ℕ → ℕ) → List (Entry V) → ℕ → Type 0
  IsFindable hash es capacity =
      (i k : ℕ) (v : V) → get_or es i vacant ≡ held k v → find_entry hash es capacity k ≡ some i

  pub held_inside :
      (es : List (Entry V)) (j k : ℕ) (v : V) → get_or es j vacant ≡ held k v → j < length es
  held_inside [] j k v h = cc
  held_inside (e ∷ es) zero k v h = omega arith
  held_inside (e ∷ es) (suc j) k v h = omega (arith, held_inside es j k v h)

  held_key : (a b : ℕ) (v w : V) → held a v ≡ held b w → a ≡ b
  held_key a b v w e = cc

  module _ (es : List (Entry V)) (capacity k i j : ℕ) (v : V) (here : get_or es i vacant ≡ held k v)
      (k' : ℕ) (v' : V) (there : get_or es j vacant ≡ held k' v') (other : k' ≢ k) where
    apart : j ≢ i
    apart e = other (held_key k' k v' v (sym there ∙ ap (λ n. get_or es n vacant) e ∙ here))

    abbrev gone : List (Entry V)
    gone = set es j tombstone

    abbrev turn : ℕ → ℕ → List (Entry V) → Option ℕ → Entry V → Option ℕ
    turn fuel index l t e =
        let on : Option ℕ → Option ℕ =
          λ o. find_from fuel l capacity k ((index + 1) % capacity) o in
        elim e [
          | vacant ↦ some (first_of t index)
          | tombstone ↦ on (some (first_of t index))
          | held a b ↦ if a == k then some index else on t
        ]

    find_from-set :
        (fuel index : ℕ) (t t' : Option ℕ)
        → t ≢ some i
        → t' ≢ some i
        → find_from fuel es capacity k index t ≡ some i
        → find_from fuel gone capacity k index t' ≡ some i
    unfolding find_from
    find_from-set zero index t t' n n' h = cc
    find_from-set (suc fuel) index t t' n n' h =
        let next = (index + 1) % capacity in
        let on : (o o' : Option ℕ)
            → o ≢ some i
            → o' ≢ some i
            → find_from fuel es capacity k next o ≡ some i
            → find_from fuel gone capacity k next o' ≡ some i =
          find_from-set fuel next in
        let away : j ≢ index → get_or gone index vacant ≡ get_or es index vacant =
          get_or-set_ne es tombstone vacant in
        elim (Entry-cases (get_or es index vacant)) [
          | inl e ↦
              let at : some (first_of t index) ≡ some i = sym (ap (turn fuel index es t) e) ∙ h in
              absurd (first_ne t index i n (λ s. cc) at)
          | inr (inl e) ↦
              let ahead : index ≢ i = λ s. cc in
              let same = away (λ s. cc) ∙ e in
              let rest = sym (ap (turn fuel index es t) e) ∙ h in
              ap (turn fuel index gone t') same
              ∙ on (some (first_of t index)) (some (first_of t' index)) (first_ne t index i n ahead)
                  (first_ne t' index i n' ahead) rest
          | inr (inr (a, b, e)) ↦ elim (Bool-cases (a == k)) [
            | inl hit ↦
                let as_if : Bool → Option ℕ =
                  λ c. if c then some index else find_from fuel es capacity k next t in
                let at : some index ≡ some i =
                  sym (ap (turn fuel index es t) e ∙ ap as_if hit) ∙ h in
                let at_i : index ≡ i = cc in
                ap (turn fuel index gone t') (away (λ s. apart (s ∙ at_i)) ∙ e)
                ∙ ap (λ c. if c then some index else find_from fuel gone capacity k next t') hit
                ∙ at
            | inr miss ↦
                let as_if : Bool → Option ℕ =
                  λ c. if c then some index else find_from fuel es capacity k next t in
                let rest = sym (ap (turn fuel index es t) e ∙ ap as_if miss) ∙ h in
                elim (Bool-cases (j == index)) [
                  | inl same ↦
                      let at_j = (==_iff j index).0 same in
                      let cleared : get_or gone index vacant ≡ tombstone =
                        ap (λ m. get_or gone m vacant) (sym at_j)
                        ∙ get_or-set_self es j tombstone vacant (held_inside es j k' v' there) in
                      ap (turn fuel index gone t') cleared
                      ∙ on t (some (first_of t' index)) n
                          (first_ne t' index i n' (λ s. apart (at_j ∙ s))) rest
                  | inr differ ↦
                      ap (turn fuel index gone t') (away (λ s. ground (arith, ==_iff j index)) ∙ e)
                      ∙ ap (λ c. if c then some index else find_from fuel gone capacity k next t')
                          miss
                      ∙ on t t' n n' rest
                ]
          ]
        ]

  tomb_held : (k : ℕ) (v : V) → tombstone ≢ held k v
  tomb_held k v e = cc

  -- A deletion of the key that stands at `j` leaves the other keys where they are found.
  pub IsFindable-set :
      (hash : ℕ → ℕ) (es : List (Entry V)) (capacity j k' : ℕ) (v' : V)
      → get_or es j vacant ≡ held k' v'
      → IsFindable hash es capacity
      → IsFindable hash (set es j tombstone) capacity
  unfolding find_entry
  IsFindable-set hash es capacity j k' v' there f i k v here = elim (Bool-cases (j == i)) [
    | inl same ↦
        let at : j ≡ i = (==_iff j i).0 same in
        let cleared =
          ap (λ m. get_or (set es j tombstone) m vacant) (sym at)
          ∙ get_or-set_self es j tombstone vacant (held_inside es j k' v' there) in
        absurd (ground (arith, tomb_held k v (sym cleared ∙ here)))
    | inr differ ↦
        let apart_j : j ≢ i = λ e. ground (arith, ==_iff j i) in
        let before = sym (get_or-set_ne es tombstone vacant apart_j) ∙ here in
        let other : k' ≢ k = λ e. apart_j (
          some_inj j i
            (sym (f j k' v' there) ∙ ap (find_entry hash es capacity) e ∙ f i k v before)) in
        find_from-set es capacity k i j v before k' v' there other capacity (hash k % capacity) none
          none (λ x. cc) (λ x. cc) (f i k v before)
  ]

  held-used : (es : List (Entry V)) (i k : ℕ) (v : V) → get_or es i vacant ≡ held k v → 1 ≤ used es
  unfolding used
  held-used [] i k v h = cc
  held-used (vacant ∷ es) zero k v h = cc
  held-used (tombstone ∷ es) zero k v h = omega arith
  held-used (held a b ∷ es) zero k v h = omega arith
  held-used (e ∷ es) (suc i) k v h = omega (arith, held-used es i k v h)

  -- The key that stands at `i` is deleted there.
  pub table_delete-held :
      (hash : ℕ → ℕ) (t : ValueTable V) (i k : ℕ) (v : V)
      → IsCounted t
      → IsFindable hash t.entries t.capacity
      → get_or t.entries i vacant ≡ held k v
      → table_delete hash t k ≡ some (true, record t { entries = set t.entries i tombstone })
  unfolding table_delete
  table_delete-held hash t i k v c f here =
      let some_held = held-used t.entries i k v here in
      let used_up : (t.count == 0) ≡ false = ground (arith, c.counted, some_held) in
      let is_there : is_held (get_or t.entries i vacant) ≡ true = ap is_held here in
      rw (used_up, f i k v here, is_there, table_delete, delete_at) refl

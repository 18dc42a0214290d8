-- ===== src/Memory/Collect/Strings.antt =====
-- The walk of `tableRemoveWhite` over the table of the strings (cyarg/table.c) ends, and leaves no
-- string that is not marked.
use yarg_lang.Prelude.{
  ℕ, zero, suc, ◌+◌, ◌<◌, ◌≡◌, ◌≢◌, inl, inr, refl, sym, ap, subst, ◌∙◌, Bool, true, List, Option,
  none, some, arith, Bool-cases, get_or, set, length, length-set, get_or-set_self, get_or-set_ne,
  ◌==◌, ==_iff,
}
use yarg_lang.Table.{ValueTable, Entry, vacant, tombstone, held}
use yarg_lang.Table.Counted.{IsCounted, table_delete-IsCounted}
use yarg_lang.Table.Findable.{IsFindable, IsFindable-set, held_inside, table_delete-held}
use yarg_lang.Table.Probe.{Entry-cases}
use yarg_lang.Memory.Objects.{ValueRef}
use yarg_lang.Memory.Collect.{Obj, marked_at, remove_white}

-- The strings that stand before an index are marked.
abbrev pub AreMarked : List Obj → ℕ → List (Entry ValueRef) → Type 0
AreMarked os n es =
    (m k : ℕ) (v : ValueRef) → m < n → get_or es m vacant ≡ held k v → marked_at os k ≡ true

-- One further, where a string that stands there is marked.
AreMarked-suc :
    (os : List Obj) (n : ℕ) (es : List (Entry ValueRef))
    → AreMarked os n es
    → ((k : ℕ) (v : ValueRef) → get_or es n vacant ≡ held k v → marked_at os k ≡ true)
    → AreMarked os (n + 1) es
AreMarked-suc os n es before at m k v lt here = elim (Bool-cases (m == n)) [
  | inl same ↦ at k v (ap (λ x. get_or es x vacant) (sym ((==_iff m n).0 same)) ∙ here)
  | inr differ ↦ before m k v (ground (arith, lt)) here
]

not_held : (k : ℕ) (v : ValueRef) → vacant ≢ held k v
not_held k v e = cc

not_held_tomb : (k : ℕ) (v : ValueRef) → tombstone ≢ held k v
not_held_tomb k v e = cc

same_key : (a b : ℕ) (v w : ValueRef) → held a v ≡ held b w → a ≡ b
same_key a b v w e = cc

pub remove_white-AreMarked :
    (hash : ℕ → ℕ) (os : List Obj) (n i : ℕ) (t : ValueTable ValueRef)
    → IsCounted t
    → t.count < t.capacity
    → IsFindable hash t.entries t.capacity
    → AreMarked os i t.entries
    → n + i ≡ length t.entries
    → (t' : ValueTable ValueRef) × (remove_white hash os n i t ≡ some t')
      × IsCounted t'
      × AreMarked os (length t'.entries) t'.entries
unfolding remove_white
remove_white-AreMarked hash os zero i t c room f marked size =
    (t, refl, c, subst (λ n. AreMarked os n t.entries) (omega (arith, size)) marked)
remove_white-AreMarked hash os (suc n) i t c room f marked size =
    let on =
      λ (at : (k : ℕ) (v : ValueRef)
          → get_or t.entries i vacant ≡ held k v
          → marked_at os k ≡ true).
        remove_white-AreMarked hash os n (i + 1) t c room f (AreMarked-suc os i t.entries marked at)
          (omega (arith, size)) in
    elim (Entry-cases (get_or t.entries i vacant)) [
      | inl e ↦ rw (e, remove_white) (on (λ k v h. absurd (not_held k v (sym e ∙ h))))
      | inr (inl e) ↦ rw (e, remove_white) (on (λ k v h. absurd (not_held_tomb k v (sym e ∙ h))))
      | inr (inr (k, v, e)) ↦ elim (Bool-cases (marked_at os k)) [
        | inl m ↦
            rw (e, m, remove_white)
              (on
                (λ k' v' h. subst (λ x. marked_at os x ≡ true) (same_key k k' v v' (sym e ∙ h)) m))
        | inr m ↦
            let (r, d, c') = table_delete-IsCounted hash t k c room in
            let deleted = table_delete-held hash t i k v c f e in
            let t' : ValueTable ValueRef = record t { entries = set t.entries i tombstone } in
            let at : r.1 ≡ t' =
              ap (λ (o : Option (Bool × ValueTable ValueRef)). elim o [ none ↦ t | some q ↦ q.1 ])
                (sym d ∙ deleted) in
            let inside = held_inside t.entries i k v e in
            let cleared = get_or-set_self t.entries i tombstone vacant inside in
            rw (e, m, deleted, remove_white)
              (remove_white-AreMarked hash os n (i + 1) t'
                (subst (λ (x : ValueTable ValueRef). IsCounted x) at c') room
                (IsFindable-set hash t.entries t.capacity i k v e f)
                (AreMarked-suc os i t'.entries
                  (λ m k v lt h. marked m k v lt (
                    sym (get_or-set_ne t.entries tombstone vacant (λ x. omega (arith, x, lt))) ∙ h))
                  (λ k v h. absurd (not_held_tomb k v (sym cleared ∙ h))))
                (omega (arith, size, length-set t.entries i tombstone)))
      ]
    ]

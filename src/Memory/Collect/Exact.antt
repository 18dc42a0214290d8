-- ===== src/Memory/Collect/Exact.antt =====
-- A collection keeps the objects that the roots reach, and no other.
use yarg_lang.Prelude.{
  ℕ, ◌≡◌, refl, sym, ap, subst, ◌∙◌, ◌↔◌, ◌⊎◌, inl, inr, true, false, List, [], ◌∷◌, some, arith,
}
use mathlib.Core.List.{Memᴰ}
use mathlib.Core.List.Memᴰ
use yarg_lang.Memory.Collect.{
  Obj, Collector, in_heap, marked_at, refs_at, mark_objects, blacken, mark_phase,
}
use yarg_lang.Memory.Collect.Heap.{erase, refs_at-erase, marked_at-erase}
use yarg_lang.Memory.Collect.Trace.{
  Memᴰ-cons, HasNoNull, in_heap-same, mark_objects-Marks, blacken-Marks, trace_rule,
}

-- The objects of the heap that references lead to from the roots.
pub data Reach (word : ℕ) (os : List Obj) (roots : List ℕ) : ℕ → Type 0 where
  root : {p : ℕ} → Memᴰ p roots → in_heap os p ≡ true → Reach word os roots p
  step :
      {p q : ℕ}
      → Reach word os roots p
      → Memᴰ q (refs_at word os p)
      → in_heap os q ≡ true
      → Reach word os roots q

module _ (word : ℕ) (os : List Obj) (roots : List ℕ) (no_null : HasNoNull os) where
  record Inv (c : Collector) : Type 0 where
    same : erase c.heap ≡ erase os
    rooted : (q : ℕ) → Memᴰ q roots → in_heap os q ≡ true → marked_at c.heap q ≡ true
    queued : (q : ℕ) → Memᴰ q c.gray → marked_at c.heap q ≡ true
    sound : (q : ℕ) → marked_at c.heap q ≡ true → Reach word os roots q
    closed :
        (p q : ℕ)
        → marked_at c.heap p ≡ true
        → Memᴰ q (refs_at word os p)
        → in_heap os q ≡ true
        → Memᴰ p c.gray ⊎ (marked_at c.heap q ≡ true)

  Inv-blacken :
      (c : Collector) (p : ℕ) (rest : List ℕ)
      → c.gray ≡ p ∷ rest
      → Inv c
      → Inv (blacken word c p rest)
  Inv-blacken c p rest e h =
      let d = blacken word c p rest in
      let here : (q : ℕ) → in_heap c.heap q ≡ in_heap os q = in_heap-same c.heap os same in
      let m = blacken-Marks word c p rest (here 0 ∙ no_null) in
      let refs =
        sym (refs_at-erase word c.heap p)
        ∙ ap (λ l. refs_at word l p) same
        ∙ refs_at-erase word os p in
      let top : Memᴰ p c.gray = subst (Memᴰ p) (sym e) (Memᴰ.head refl) in
      let reached = sound p (queued p top) in
      let mem : (q : ℕ) → Memᴰ q c.gray ↔ ((q ≡ p) ⊎ Memᴰ q rest) =
        λ q. rw e (Memᴰ-cons q p rest) in
      record {
        same = m.same ∙ same;
        rooted = λ q r i. (m.marked q).1 (inl (rooted q r i));
        queued = λ q g. ground (arith, m.queued q, m.marked q, mem q, queued q);
        sound = λ q k. elim ((m.marked q).0 k) [
          | inl before ↦ sound q before
          | inr (r, i) ↦ step reached (subst (Memᴰ q) refs r) (sym (here q) ∙ i)
        ];
        closed = λ a q k r i.
            let at_top : a ≡ p → Memᴰ q (refs_at word c.heap p) =
              λ t. subst (Memᴰ q) (sym refs) (subst (λ x. Memᴰ q (refs_at word os x)) t r) in
            ground (arith, m.queued a, m.marked a, m.marked q, mem a, closed a q, here q, at_top);
      }
    where
      open h use {same, rooted, queued, sound, closed}

  -- With an empty stack the marks are closed under references.
  complete :
      (c : Collector)
      → Inv c
      → c.gray ≡ []
      → {q : ℕ} → Reach word os roots q
      → marked_at c.heap q ≡ true
  complete c h e (root r i) = h.rooted _ r i
  complete c h e (step {p} {q} r m i) = elim (h.closed p q (complete c h e r) m i) [
    | inl waiting ↦ absurd (Memᴰ.not-nil (subst (Memᴰ p) e waiting))
    | inr k ↦ k
  ]

  pub mark_phase-exact :
      (fuel : ℕ) (d : Collector)
      → erase os ≡ os
      → mark_phase word fuel os roots ≡ some d
      → (erase d.heap ≡ os) × ((q : ℕ) → (marked_at d.heap q ≡ true) ↔ Reach word os roots q)
  unfolding mark_phase
  mark_phase-exact fuel d clear h =
      let c : Collector = record { heap = os; gray = [] } in
      let m = mark_objects-Marks roots c no_null in
      let unmarked : (q : ℕ) → marked_at os q ≡ false =
        λ q. ap (λ l. marked_at l q) (sym clear) ∙ marked_at-erase os q in
      let start : Inv (mark_objects c roots) = record {
        same = m.same;
        rooted = λ q r i. (m.marked q).1 (inr (r, i));
        queued = λ q g. ground (arith, m.queued q, Memᴰ.not-nil {a = q});
        sound = λ q k. elim ((m.marked q).0 k) [
          | inl before ↦ absurd (ground (arith, unmarked q))
          | inr (r, i) ↦ root r i
        ];
        closed = λ p q k r i. inl (ground (arith, m.queued p, unmarked p));
      } in
      let (inv, empty) = trace_rule word Inv Inv-blacken fuel (mark_objects c roots) d start h in
      (inv.same ∙ clear, λ q. (inv.sound q, complete d inv empty))

-- ===== src/Memory/Collect/Trace.antt =====
-- The loop of `traceReferences` ends, and keeps what each object refers to.
use yarg_lang.Prelude.{
  ℕ, zero, suc, ◌+◌, ◌≤◌, ◌≡◌, refl, sym, ap, ◌∙◌, ◌↔◌, ◌⊎◌, inl, inr, true, false, not, List, [],
  ◌∷◌, some, arith, ◌==◌, length, if_cases,
}
use mathlib.Core.List.{Memᴰ}
use mathlib.Core.List.Memᴰ
use yarg_lang.Memory.Collect.{
  Obj, Collector, in_heap, marked_at, refs_at, mark_object, mark_objects, blacken, trace_references,
  mark_phase,
}
use yarg_lang.Memory.Collect.Heap.{
  erase, white, white-length, white-set_mark, erase-set_mark, marked_at-set_mark, marked_at-in_heap,
  in_heap-erase,
}

pub Memᴰ-cons : (a x : ℕ) (xs : List ℕ) → Memᴰ a (x ∷ xs) ↔ ((a ≡ x) ⊎ Memᴰ a xs)
Memᴰ-cons a x xs = (Memᴰ.cases_cons, λ s. elim s [ inl e ↦ Memᴰ.head e | inr t ↦ Memᴰ.tail t ])

-- What a run of marks does to the collector.
pub record Marks (c d : Collector) (ps : List ℕ) : Type 0 where
  pub same : erase d.heap ≡ erase c.heap
  pub work : white d.heap + length d.gray ≤ white c.heap + length c.gray
  pub marked :
      (q : ℕ)
      → (marked_at d.heap q ≡ true)
        ↔ ((marked_at c.heap q ≡ true) ⊎ Memᴰ q ps × (in_heap c.heap q ≡ true))
  pub queued :
      (q : ℕ)
      → Memᴰ q d.gray ↔ (Memᴰ q c.gray ⊎ (marked_at d.heap q ≡ true) × (marked_at c.heap q ≡ false))

-- NULL is not the address of an object.
abbrev pub HasNoNull : List Obj → Type 0
HasNoNull os = in_heap os 0 ≡ false

pub mark_object-Marks :
    (c : Collector) (p : ℕ) → HasNoNull c.heap → Marks c (mark_object c p) (p ∷ [])
unfolding mark_object
mark_object-Marks c p h = record {
  same =
      if_cases P (p == 0) (λ _. refl)
        (λ _.
          if_cases P (not (in_heap c.heap p)) (λ _. refl)
            (λ _. if_cases P (marked_at c.heap p) (λ _. refl) (λ _. erase-set_mark p c.heap)));
  work = ground (arith, white-set_mark p c.heap);
  marked = λ q. ground (
    arith,
    marked_at-set_mark p q c.heap,
    Memᴰ-cons q p [],
    Memᴰ.not-nil {a = q},
    marked_at-in_heap c.heap q,
  );
  queued = λ q. ground (arith, marked_at-set_mark p q c.heap, Memᴰ-cons q p c.gray);
}
  where
    P : Collector → Type 0
    P d = erase d.heap ≡ erase c.heap

-- The address of an object stays one.
pub in_heap-same : (os ps : List Obj) → erase os ≡ erase ps → (q : ℕ) → in_heap os q ≡ in_heap ps q
in_heap-same os ps e q = sym (in_heap-erase os q) ∙ ap (λ l. in_heap l q) e ∙ in_heap-erase ps q

pub mark_objects-Marks :
    (ps : List ℕ) (c : Collector) → HasNoNull c.heap → Marks c (mark_objects c ps) ps
unfolding mark_objects
mark_objects-Marks [] c h = record {
  same = refl;
  work = omega arith;
  marked = λ q. ground (arith, Memᴰ.not-nil {a = q});
  queued = λ q. ground arith;
}
mark_objects-Marks (p ∷ ps) c h =
    let d = mark_object c p in
    let m = mark_object-Marks c p h in
    let n = mark_objects-Marks ps d (in_heap-same d.heap c.heap m.same 0 ∙ h) in
    record {
      same = n.same ∙ m.same;
      work = omega (arith, m.work, n.work);
      marked = λ q. ground (
        arith,
        m.marked q,
        n.marked q,
        in_heap-same d.heap c.heap m.same q,
        Memᴰ-cons q p ps,
        Memᴰ-cons q p [],
        Memᴰ.not-nil {a = q},
      );
      queued = λ q. ground (arith, m.marked q, n.marked q, m.queued q, n.queued q);
    }

List-cases : (xs : List ℕ) → (xs ≡ []) ⊎ ((x : ℕ) × (rest : List ℕ) × (xs ≡ x ∷ rest))
List-cases [] = inl refl
List-cases (x ∷ xs) = inr (x, xs, refl)

module _ (word : ℕ) where
  -- The turn for the object `p` takes it from the stack, and stacks only objects that it marks.
  pub blacken-Marks :
      (c : Collector) (p : ℕ) (rest : List ℕ)
      → HasNoNull c.heap
      → Marks (record c { gray = rest }) (blacken word c p rest) (refs_at word c.heap p)
  unfolding blacken
  blacken-Marks c p rest h = mark_objects-Marks (refs_at word c.heap p) (record c { gray = rest }) h

  trace_ends :
      (fuel : ℕ) (c : Collector)
      → HasNoNull c.heap
      → white c.heap + length c.gray ≤ fuel
      → (d : Collector) × (trace_references word fuel c ≡ some d)
  unfolding trace_references
  trace_ends zero c h le = (c, ground arith)
  trace_ends (suc fuel) c h le = elim (List-cases c.gray) [
    | inl e ↦ (c, ground arith)
    | inr (p, rest, e) ↦
        let m = blacken-Marks c p rest h in
        let b = blacken word c p rest in
        let (d, ends) =
          trace_ends fuel b (in_heap-same b.heap c.heap m.same 0 ∙ h)
            (omega (arith, m.work, ap length e)) in
        (d, ground arith)
  ]

  -- An invariant that one turn keeps holds at the end, where the stack is empty.
  pub trace_rule {ℓ} :
      (P : Collector → Type ℓ)
      → ((c : Collector) (p : ℕ) (rest : List ℕ)
          → c.gray ≡ p ∷ rest
          → P c
          → P (blacken word c p rest))
      → (fuel : ℕ) (c d : Collector) → P c
      → trace_references word fuel c ≡ some d
      → P d × (d.gray ≡ [])
  unfolding trace_references
  trace_rule P keep zero c d h e = ground arith
  trace_rule P keep (suc fuel) c d h e = elim (List-cases c.gray) [
    | inl empty ↦ ground arith
    | inr (p, rest, g) ↦
        trace_rule P keep fuel (blacken word c p rest) d (keep c p rest g h)
          (rw (g, trace_references) at e)
  ]

  -- As many turns as there are objects are enough.
  pub mark_phase_ends :
      (os : List Obj) (roots : List ℕ)
      → HasNoNull os
      → (d : Collector) × (mark_phase word (length os) os roots ≡ some d)
  unfolding mark_phase
  mark_phase_ends os roots h =
      let c : Collector = record { heap = os; gray = [] } in
      let d = mark_objects c roots in
      let m = mark_objects-Marks roots c h in
      trace_ends (length os) d (in_heap-same d.heap os m.same 0 ∙ h)
        (omega (arith, m.work, white-length os))

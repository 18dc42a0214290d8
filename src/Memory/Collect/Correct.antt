-- ===== src/Memory/Collect/Correct.antt =====
-- A whole collection (cyarg/memory.c: collectGarbage).
use yarg_lang.Prelude.{◌∙◌, get_or, arith, ℕ, ◌<◌, ◌≡◌, refl, ◌↔◌, true, List, some, length}
use mathlib.Core.List.{Memᴰ}
use yarg_lang.Table.{ValueTable, vacant, held}
use yarg_lang.Table.Counted.{IsCounted}
use yarg_lang.Table.Findable.{IsFindable, held_inside}
use yarg_lang.Memory.Objects.{ValueRef}
use yarg_lang.Memory.Collect.{Obj, Roots, in_heap, root_references, sweep, collect_garbage}
use yarg_lang.Memory.Collect.Heap.{erase, in_heap-sweep, erase-sweep, mem-sweep}
use yarg_lang.Memory.Collect.Trace.{HasNoNull, mark_phase_ends}
use yarg_lang.Memory.Collect.Exact.{Reach, mark_phase-exact}
use yarg_lang.Memory.Collect.Strings.{remove_white-AreMarked}

-- What is left of a heap: the objects that the roots reach, as they were, with their marks clear.
pub record Collected (word : ℕ) (os : List Obj) (roots : List ℕ) (left : List Obj) : Type 0 where
  pub exact : (q : ℕ) → (in_heap left q ≡ true) ↔ Reach word os roots q
  pub kept : (o : Obj) → Memᴰ o left → Memᴰ o os
  pub cleared : erase left ≡ left

module _ (word : ℕ) (hash : ℕ → ℕ) (os : List Obj) (roots : Roots)
    (strings : ValueTable ValueRef) where
  -- On a heap where no object is marked or stands at NULL, and a strings table whose count is right
  -- and below its capacity and where each key is found where it stands: `collect_garbage` ends with
  -- as many turns of the gray stack as there are objects, and leaves exactly the objects that
  -- references lead to from the roots, each as it was and unmarked, and a strings table whose count
  -- is right, and whose keys are all objects that are left.
  pub collect_garbage-exact :
      HasNoNull os
      → erase os ≡ os
      → IsCounted strings
      → strings.count < strings.capacity
      → IsFindable hash strings.entries strings.capacity
      → (left : List Obj) × (strings' : ValueTable ValueRef) × (collect_garbage word hash
            (length os)
            os
            roots
            strings
          ≡ some (left, strings'))
        × Collected word os (root_references roots) left
        × IsCounted strings'
        × ((m k : ℕ) (v : ValueRef)
            → get_or strings'.entries m vacant ≡ held k v
            → in_heap left k ≡ true)
  unfolding collect_garbage
  collect_garbage-exact no_null clear c room findable =
      let (d, ends) = mark_phase_ends word os (root_references roots) no_null in
      let (same, exact) =
        mark_phase-exact word os (root_references roots) no_null (length os) d clear ends in
      let (t, removed, counted, marked) =
        remove_white-AreMarked hash d.heap strings.capacity 0 strings c room findable
          (λ m k v lt. absurd (omega arith)) (omega (arith, c.sized)) in
      (
        sweep d.heap,
        t,
        rw (ends, removed, collect_garbage) refl,
        record {
          exact = λ q. rw (in_heap-sweep d.heap q) (exact q);
          kept = λ o m. rw same at (mem-sweep d.heap o m);
          cleared = erase-sweep d.heap;
        },
        counted,
        λ m k v h. in_heap-sweep d.heap k ∙ marked m k v (held_inside t.entries m k v h) h,
      )

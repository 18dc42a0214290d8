-- ===== src/Memory/Tests.antt =====
-- A collection (cyarg/memory.c) of a heap of a closure, its function and the name of that, and of two
-- instances that refer to each other.
use yarg_lang.Prelude.{
  ℕ, ◌≡◌, refl, true, false, Option, List, [], ◌∷◌, none, some, arith, get_or, zero, suc, subst, ap,
}
use mathlib.Core.List.{Memᴰ}
use yarg_lang.Table.{ValueTable, Entry, vacant, held, used, find_entry, find_from}
use yarg_lang.Table.Counted.{IsCounted}
use yarg_lang.Table.Findable.{IsFindable}
use yarg_lang.Memory.Objects.{
  ValueRef, DynamicObjArray, DynamicValueArray, FunctionRefs, RoutineRefs, Object, of_runtime,
  closure, function_object, string_object, instance, null_ref, references, runtime_references,
}
use yarg_lang.Memory.Collect.{
  Obj, Roots, mark_object, mark_objects, trace_references, blacken, in_heap, refs_at, vm_references,
  root_references, mark_phase, sweep, collect_garbage, next_gc,
}
use yarg_lang.Memory.Collect.Exact.{Reach, root, step}
use yarg_lang.Memory.Collect.Correct.{Collected, collect_garbage-exact}

abbrev no_objects : DynamicObjArray
no_objects = record { stash = 0; objects = [] }

abbrev no_values : DynamicValueArray
no_values = record { value_stash = null_ref; values = [] }

abbrev object : ℕ → Object → Obj
object p o = record { address = p; is_marked = false; body = o }

abbrev boot : FunctionRefs
boot = record { f_name = 0; constants = no_values }

abbrev main_routine : RoutineRefs
main_routine = record {
  stack = [];
  frames = 10 ∷ [];
  open_upvalues = [];
  additional_slices = no_objects;
  runtime_errors = no_objects;
  entry_function = 10;
  entry_arg = null_ref;
  result = null_ref;
  error = null_ref;
}

abbrev roots : Roots
roots = record {
  core0 = main_routine;
  boot_function = boot;
  core1 = 0;
  pinned_routines = 0 ∷ [];
  temp_roots = [];
  library_path = 0;
  globals = [];
  init_string = 30;
  compilers = [];
}

abbrev live : List Obj
live =
    object 10 (of_runtime (closure 20 []))
    ∷ object 30 (of_runtime string_object)
    ∷ object 20 (of_runtime (function_object (record { f_name = 40; constants = no_values })))
    ∷ object 40 (of_runtime string_object)
    ∷ []

abbrev cycle : ℕ → ℕ → Obj
cycle p q =
    object p (of_runtime (instance 0 (held 40 (record { held_object = q; type_pointer = 0 }) ∷ [])))

abbrev heap : List Obj
heap = object 70 (of_runtime string_object) ∷ cycle 50 60 ∷ cycle 60 50 ∷ live

-- The interned strings 70, which nothing refers to, and 30.
abbrev strings : ValueTable ValueRef
strings = record {
  count = 2;
  capacity = 4;
  entries = vacant ∷ vacant ∷ held 30 null_ref ∷ held 70 null_ref ∷ [];
}

abbrev by_tens : ℕ → ℕ
by_tens k = k

strings-IsCounted : IsCounted strings
unfolding used
strings-IsCounted = record { sized = refl; counted = refl }

abbrev key : Entry ValueRef → ℕ
key (held k v) = k
key e = 0

-- Both probes begin at 2.
strings-IsFindable : IsFindable by_tens strings.entries strings.capacity
unfolding find_entry find_from
strings-IsFindable zero k v h = cc
strings-IsFindable (suc zero) k v h = cc
strings-IsFindable (suc (suc zero)) k v h =
    subst (λ x. find_entry by_tens strings.entries 4 x ≡ some 2) (ap key h) refl
strings-IsFindable (suc (suc (suc zero))) k v h =
    subst (λ x. find_entry by_tens strings.entries 4 x ≡ some 3) (ap key h) refl
strings-IsFindable (suc (suc (suc (suc i)))) k v h = cc

garbage_goes : (next_gc 1000 ≡ 2000) × (next_gc 60000 ≡ 102400)
unfolding next_gc
garbage_goes = (refl, refl)

abbrev swept : Option (List Obj)
swept = elim (mark_phase 256 4 heap (root_references roots)) [
  | none ↦ none
  | some c ↦ some (sweep c.heap)
]

only_live : swept ≡ some live
unfolding mark_phase root_references vm_references mark_objects mark_object trace_references blacken
    sweep references runtime_references
only_live = refl

kept :
    (left : List Obj) × (strings' : ValueTable ValueRef) × (collect_garbage 256 by_tens 7 heap roots
        strings
      ≡ some (left, strings'))
    × Collected 256 heap (root_references roots) left
    × IsCounted strings'
    × ((m k : ℕ) (v : ValueRef)
        → get_or strings'.entries m vacant ≡ held k v
        → in_heap left k ≡ true)
kept =
    collect_garbage-exact 256 by_tens heap roots strings refl refl strings-IsCounted (omega arith)
      strings-IsFindable

collect_garbage-exact_example :
    (left : List Obj) × (strings' : ValueTable ValueRef) × (collect_garbage 256 by_tens 7 heap roots
        strings
      ≡ some (left, strings'))
    × Collected 256 heap (root_references roots) left
    × IsCounted strings'
    × ((m k : ℕ) (v : ValueRef)
        → get_or strings'.entries m vacant ≡ held k v
        → in_heap left k ≡ true)
collect_garbage-exact_example =
    collect_garbage-exact 256 by_tens heap roots strings refl refl strings-IsCounted (omega arith)
      strings-IsFindable

reach_function : Reach 256 heap (root_references roots) 20
unfolding root_references vm_references references runtime_references
reach_function = step (root {p = 10} (Memᴰ.head refl) refl) (Memᴰ.head refl) refl

name_referred : Memᴰ 40 (refs_at 256 heap 20)
unfolding references runtime_references
name_referred = Memᴰ.head refl

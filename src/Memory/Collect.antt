-- ===== src/Memory/Collect.antt =====
-- The phases of `collectGarbage` (cyarg/memory.c), with the roots (`markVMRoots` in cyarg/vm.c and
-- `markCompilerRoots` in cyarg/compiler.c) and `tableRemoveWhite` (cyarg/table.c). The heap is the
-- list `vm.objects`; the objects outside it are static, and marked when they are made.
pub mod Heap
pub mod Trace
pub mod Exact
pub mod Strings
pub mod Correct
use yarg_lang.Prelude.{
  ℕ, zero, suc, ◌+◌, ◌*◌, List, [], ◌∷◌, ◌++◌, Bool, true, false, not, ◌&&◌, ◌||◌, Option, none,
  some, ◌==◌, ltb, if◌then◌else◌, get_or,
}
use yarg_lang.Table.{ValueTable, Entry, vacant, tombstone, held, table_delete}
use yarg_lang.Memory.Objects.{
  ValueRef, CellRef, DynamicObjArray, FunctionRefs, RoutineRefs, Object, flat, value_references,
  cell_references, obj_array_references, function_references, routine_references, references,
}

pub record Obj : Type 0 where
  pub address : ℕ
  pub is_marked : Bool
  pub body : Object

-- The list of the objects, and the stack of those that are marked and not yet blackened.
pub record Collector : Type 0 where
  pub heap : List Obj
  pub gray : List ℕ

abbrev pub in_heap : List Obj → ℕ → Bool
in_heap [] p = false
in_heap (o ∷ os) p = if o.address == p then true else in_heap os p

abbrev pub marked_at : List Obj → ℕ → Bool
marked_at [] p = false
marked_at (o ∷ os) p =
    if o.address == p then (if o.is_marked then true else marked_at os p) else marked_at os p

abbrev pub set_mark : ℕ → List Obj → List Obj
set_mark p [] = []
set_mark p (o ∷ os) = (if o.address == p then record o { is_marked = true } else o) ∷ set_mark p os

abbrev pub refs_at : ℕ → List Obj → ℕ → List ℕ
refs_at word [] p = []
refs_at word (o ∷ os) p = if o.address == p then references word o.body else refs_at word os p

unfoldable pub mark_object : Collector → ℕ → Collector
mark_object c p =
    if p == 0
    then c
    else if not (in_heap c.heap p)
    then c
    else if marked_at c.heap p
    then c
    else record { heap = set_mark p c.heap; gray = p ∷ c.gray }

unfoldable pub mark_objects : Collector → List ℕ → Collector
mark_objects c [] = c
mark_objects c (p ∷ ps) = mark_objects (mark_object c p) ps

-- `current` and the compilers that enclose it.
pub record CompilerRefs : Type 0 where
  pub function : ℕ
  pub context : ℕ
  pub recent : ℕ
  pub errors : DynamicObjArray
  pub locals : List ℕ

-- The keys of a table of cells, with what each cell refers to.
abbrev pub cell_entry_references : Entry CellRef → List ℕ
cell_entry_references vacant = []
cell_entry_references tombstone = []
cell_entry_references (held k c) = k ∷ cell_references c

pub record Roots : Type 0 where
  pub core0 : RoutineRefs
  pub boot_function : FunctionRefs
  pub core1 : ℕ
  pub pinned_routines : List ℕ
  pub temp_roots : List ValueRef
  pub library_path : ℕ
  pub globals : List (Entry CellRef)
  pub init_string : ℕ
  pub compilers : List CompilerRefs

abbrev pub compiler_references : CompilerRefs → List ℕ
compiler_references k =
    k.function ∷ k.context ∷ k.recent ∷ (obj_array_references k.errors ++ k.locals)

unfoldable pub vm_references : Roots → List ℕ
vm_references r =
    routine_references r.core0
    ++ (function_references r.boot_function
        ++ (r.core1
            ∷ (r.pinned_routines
                ++ (flat value_references r.temp_roots
                    ++ (r.library_path
                        ∷ (flat cell_entry_references r.globals ++ (r.init_string ∷ [])))))))

unfoldable pub root_references : Roots → List ℕ
root_references r = vm_references r ++ flat compiler_references r.compilers

-- The loop of `tableRemoveWhite` over the `n` entries from `i` on.
unfoldable pub remove_white :
    (ℕ → ℕ) → List Obj → ℕ → ℕ → ValueTable ValueRef → Option (ValueTable ValueRef)
remove_white hash os zero i t = some t
remove_white hash os (suc n) i t = elim (get_or t.entries i vacant) [
  | held k v ↦
      if marked_at os k then remove_white hash os n (i + 1) t else elim (table_delete hash t k) [
        | none ↦ none
        | some r ↦ remove_white hash os n (i + 1) r.1
      ]
  | _ ↦ remove_white hash os n (i + 1) t
]

unfoldable pub sweep : List Obj → List Obj
sweep [] = []
sweep (o ∷ os) = if o.is_marked then record o { is_marked = false } ∷ sweep os else sweep os

-- `nextGC` for the bytes that stay allocated.
unfoldable pub next_gc : ℕ → ℕ
next_gc after = if ltb (100 * 1024) (after * 2) then 100 * 1024 else after * 2

-- The number of values of `size_t`.
module _ (word : ℕ) where
  -- The turn of `traceReferences` for the object on top of the stack.
  unfoldable pub blacken : Collector → ℕ → List ℕ → Collector
  blacken c p rest = mark_objects (record c { gray = rest }) (refs_at word c.heap p)

  unfoldable pub trace_references : ℕ → Collector → Option Collector
  trace_references zero c = elim c.gray [ [] ↦ some c | _ ∷ _ ↦ none ]
  trace_references (suc fuel) c = elim c.gray [
    | [] ↦ some c
    | p ∷ rest ↦ trace_references fuel (blacken c p rest)
  ]

  unfoldable pub mark_phase : ℕ → List Obj → List ℕ → Option Collector
  mark_phase fuel os roots =
      trace_references fuel (mark_objects (record { heap = os; gray = [] }) roots)

  -- The objects and the strings table that a collection leaves.
  unfoldable pub collect_garbage :
      (ℕ → ℕ) → ℕ → List Obj → Roots → ValueTable ValueRef → Option (List Obj × ValueTable ValueRef)
  collect_garbage hash fuel os roots strings = elim (mark_phase fuel os (root_references roots)) [
    | none ↦ none
    | some c ↦ elim (remove_white hash c.heap strings.capacity 0 strings) [
      | none ↦ none
      | some t ↦ some (sweep c.heap, t)
    ]
  ]

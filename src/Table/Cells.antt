-- ===== src/Table/Cells.antt =====
-- The table of value cells (cyarg/table.c): its functions are those of the table of values, over cells.
-- A cell is a value with its type; `nil` and `true` in the value of a cell mark the free entries.
use yarg_lang.Prelude.{ℕ, Bool, List, Option, none, some, ◌==◌, if◌then◌else◌, get_or}
use yarg_lang.Table.{
  ValueTable, Entry, vacant, init_table, is_held, find_entry, table_get, adjust_capacity, table_set,
  table_delete, table_add_all,
}

pub record ValueCell (V : Type 0) (T : Type 0) : Type 0 where
  pub value : V
  pub cell_type : Option T

abbrev pub ValueCellTable : Type 0 → Type 0 → Type 0
ValueCellTable V T = ValueTable (ValueCell V T)

pub init_cell_table : {V T : Type 0} → ValueCellTable V T
init_cell_table = init_table

module _ {V T : Type 0} (hash : ℕ → ℕ) where
  pub find_cell_entry : List (Entry (ValueCell V T)) → ℕ → ℕ → Option ℕ
  find_cell_entry entries capacity key = find_entry hash entries capacity key

  pub table_cell_get : ValueCellTable V T → ℕ → Option (Option (ValueCell V T))
  table_cell_get t key = table_get hash t key

  -- The index of the entry that the pointer `place` is into.
  pub table_cell_get_place : ValueCellTable V T → ℕ → Option (Option ℕ)
  table_cell_get_place t key =
      if t.count == 0 then some none else elim (find_cell_entry t.entries t.capacity key) [
        | none ↦ none
        | some i ↦ some (if is_held (get_or t.entries i vacant) then some i else none)
      ]

  pub adjust_cell_capacity : ValueCellTable V T → ℕ → Option (ValueCellTable V T)
  adjust_cell_capacity t capacity = adjust_capacity hash t capacity

  pub table_cell_set : ValueCellTable V T → ℕ → ValueCell V T → Option (Bool × ValueCellTable V T)
  table_cell_set t key cell = table_set hash t key cell

  pub table_cell_delete : ValueCellTable V T → ℕ → Option (Bool × ValueCellTable V T)
  table_cell_delete t key = table_delete hash t key

  pub table_cell_add_all : ValueCellTable V T → ValueCellTable V T → Option (ValueCellTable V T)
  table_cell_add_all from to = table_add_all hash from to

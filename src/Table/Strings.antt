-- ===== src/Table/Strings.antt =====
-- `tableFindString` (cyarg/table.c), by which equal strings come to share one address.
use yarg_lang.Prelude.{
  ℕ, zero, suc, ◌+◌, ◌%◌, Bool, true, false, ◌&&◌, List, [], ◌∷◌, Option, none, some, ◌==◌,
  if◌then◌else◌, get_or, length,
}
use yarg_lang.Table.{ValueTable, Entry, vacant, tombstone, held}
use yarg_lang.Table.Cells.{ValueCellTable}

-- `memcmp` on texts of one length.
pub same_chars : List ℕ → List ℕ → Bool
same_chars [] [] = true
same_chars (c ∷ cs) (d ∷ ds) = c == d && same_chars cs ds
same_chars _ _ = false

-- The hash and the characters of the string at an address.
module _ (hash : ℕ → ℕ) (chars_of : ℕ → List ℕ) where
  pub is_string : ℕ → List ℕ → ℕ → Bool
  is_string key chars h =
      length (chars_of key) == length chars && (hash key == h && same_chars (chars_of key) chars)

  module _ {V : Type 0} where
    -- A tombstone is passed over.
    pub find_string_from : ℕ → List (Entry V) → ℕ → List ℕ → ℕ → ℕ → Option (Option ℕ)
    find_string_from zero entries capacity chars h index = none
    find_string_from (suc fuel) entries capacity chars h index =
        let on = find_string_from fuel entries capacity chars h ((index + 1) % capacity) in
        elim (get_or entries index vacant) [
          | vacant ↦ some none
          | tombstone ↦ on
          | held k v ↦ if is_string k chars h then some (some k) else on
        ]

    pub table_find_string : ValueTable V → List ℕ → ℕ → Option (Option ℕ)
    table_find_string t chars h =
        if t.count == 0
        then some none
        else find_string_from t.capacity t.entries t.capacity chars h (h % t.capacity)

  pub table_cell_find_string : {V T : Type 0} → ValueCellTable V T → List ℕ → ℕ → Option (Option ℕ)
  table_cell_find_string t chars h = table_find_string t chars h

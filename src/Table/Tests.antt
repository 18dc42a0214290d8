-- ===== src/Table/Tests.antt =====
-- A table (cyarg/table.c) of eight entries, with keys that hash to themselves.
use yarg_lang.Prelude.{ℕ, ◌<◌, ◌≡◌, Bool, true, List, [], ◌∷◌, none, some, arith, refl}
use yarg_lang.Table.{
  ValueTable, Entry, vacant, tombstone, held, init_table, used, find_from, find_entry,
  grow_capacity, table_get, rehash, adjust_capacity, put, table_set,
}
use yarg_lang.Table.Probe.{find_entry-Within}
use yarg_lang.Table.Counted.{IsCounted}
use yarg_lang.Table.Lookup.{table_get-table_set}

abbrev same : ℕ → ℕ
same k = k

-- 3 and 11 both hash to 3, behind a tombstone.
abbrev slots : List (Entry ℕ)
slots = vacant ∷ vacant ∷ vacant ∷ tombstone ∷ held 3 30 ∷ held 11 110 ∷ vacant ∷ vacant ∷ []

abbrev table : ValueTable ℕ
table = record { count = 3; capacity = 8; entries = slots }

table-IsCounted : IsCounted table
unfolding used
table-IsCounted = record { sized = refl; counted = refl }

-- The first write makes room; a value is found behind another with the same hash.
runs :
    (table_set {V = ℕ} same init_table 5 50
      ≡ some (
        true,
        record {
          count = 1;
          capacity = 8;
          entries = vacant ∷ vacant ∷ vacant ∷ vacant ∷ vacant ∷ held 5 50 ∷ vacant ∷ vacant ∷ [];
        },
      ))
    × (table_get same table 11 ≡ some (some 110))
    × (table_get same table 4 ≡ some none)
unfolding table_set put find_entry find_from init_table grow_capacity adjust_capacity rehash
    table_get
runs = (refl, refl, refl)

find_entry-Within_example : (i : ℕ) × (find_entry same slots 8 19 ≡ some i) × (i < 8)
find_entry-Within_example = find_entry-Within slots 8 19 (omega arith) same 0 (omega arith) refl

table_get-table_set_example :
    (r : Bool × ValueTable ℕ) × (table_set same table 19 190 ≡ some r)
    × (table_get same r.1 19 ≡ some (some 190))
    × (r.1.capacity ≡ 8)
    × IsCounted r.1
table_get-table_set_example = table_get-table_set same table 19 190 table-IsCounted (omega arith)

-- ===== src/Table/Tests.antt =====
-- A table with a row, and runs of the laws on it.
use exio.Prelude.{ℕ, ◌≡◌, refl, false, some, none, [], ◌∷◌, Bytes, codes, if◌then◌else◌, str_eq}
use exio.Error.{ok}
use exio.Dict.{Dict, lookup}
use exio.Table.Position.{position}
use exio.Prelude.{arith, some, none}
use exio.Sam.Container.Lookup.{or_else}
use exio.Table.Messages.{row_multi_update_msg, empty_message}
use exio.Table.Messages.Fields.{row_field, row_field-row_multi_update_msg}
use exio.Table.Row.{row_key}
use exio.Table.Row.{new_data_row, is_reserved, update_fields}
use exio.Table.Row.Update.{Keyed, UpdateOutcome, update_fields_lem}
use exio.Table.Defs.{
  DataTable, new_data_table, update_row, delete_row, row_at, add_columns, get_row_field,
}
use exio.Table.Defs.Indexes.{IsValid, new_data_table-IsValid, add_columns-IsValid}
use exio.Table.Defs.Cells.{update_row_lem}
use exio.Table.Defs.Removal.{delete_row_lem}
use exio.Table.Snapshot.{snapshot}
use exio.Table.Snapshot.Batches.{Sent, snapshot_lem}

abbrev ups : Dict Bytes
ups = (codes "Price", codes "101") ∷ (codes "RowKey", codes "no") ∷ []

ups-Keyed : Keyed ups
unfolding lookup
ups-Keyed = (refl, (refl, tt))

abbrev clock : ℕ → Bytes
clock n = codes "2013/01/01 00:00:00"

abbrev orders : DataTable
orders = new_data_table (codes "orders")

orders-IsValid : IsValid orders
orders-IsValid = new_data_table-IsValid (codes "orders")

update_fields_lem_example :
    UpdateOutcome
      (clock 0)
      ups
      (new_data_row (codes "r") (codes "orders"))
      []
      (update_fields (clock 0) ups (new_data_row (codes "r") (codes "orders")) [])
update_fields_lem_example =
    update_fields_lem (clock 0) ups (new_data_row (codes "r") (codes "orders")) [] ups-Keyed

update_row_lem_example :
    (u : DataTable) × (update_row clock (codes "r") ups orders [] ≡ ok u)
    × IsValid u
    × ((f v : Bytes)
        → lookup f ups ≡ some v
        → is_reserved f ≡ false
        → get_row_field (codes "r") f u ≡ ok v)
update_row_lem_example = update_row_lem clock (codes "r") ups orders [] orders-IsValid ups-Keyed

-- A table of two rows and no columns
abbrev pair : DataTable
pair = record (new_data_table (codes "orders")) {
  rows = new_data_row (codes "a") (codes "orders") ∷ new_data_row (codes "b") (codes "orders") ∷ [];
  row_index = (codes "a", 0) ∷ (codes "b", 1) ∷ [];
}

pair-IsValid : IsValid pair
unfolding new_data_table new_data_row lookup position
pair-IsValid = record {
  columns_ok = record { distinct = tt; agrees = λ k. refl };
  rows_ok = record { distinct = (refl, (refl, tt)); agrees = λ k. ground arith };
}

add_columns-IsValid_example : IsValid (add_columns clock (codes "Price" ∷ codes "Size" ∷ []) pair)
add_columns-IsValid_example =
    add_columns-IsValid clock (codes "Price" ∷ codes "Size" ∷ []) pair pair-IsValid

delete_row_lem_example :
    (u : DataTable) × (delete_row (codes "a") pair ≡ ok u)
    × IsValid u
    × ((j : Bytes) → row_at j u ≡ (if str_eq (codes "a") j then ok none else row_at j pair))
delete_row_lem_example = delete_row_lem (codes "a") pair pair-IsValid

row_field-row_multi_update_msg_example :
    row_field (codes "Price") (row_multi_update_msg (codes "orders") (codes "r") ups empty_message)
    ≡ or_else
        (lookup (codes "Price") ups)
        (if str_eq row_key (codes "Price") then some (codes "r") else none)
row_field-row_multi_update_msg_example =
    row_field-row_multi_update_msg (codes "orders") (codes "r") (codes "Price") ups ups-Keyed

snapshot_lem_example : Sent pair 4 (snapshot pair 4)
snapshot_lem_example = snapshot_lem pair 4 (omega arith)

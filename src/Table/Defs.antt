-- ===== src/Table/Defs.antt =====
-- DataTable of libexio/exio/Table.h and libexio/Table.cc: its columns, rows and their two indexes.
-- Each method holds m_tablelock, so a call is a step. `published` is what _nolock_publish_update was
-- handed, in order. `now n` is the time that update_fields prints when n events are on its list.
pub mod Indexes
pub mod Cells
pub mod Removal
use exio.Prelude.{
  ℕ, zero, suc, ◌+◌, ◌≡◌, refl, Bool, true, false, Option, none, some, List, [], ◌∷◌, ◌++◌, length,
  get_elem?, if◌then◌else◌, Bytes, codes, str_eq,
}
use exio.Error.{Result, ok, err, ◌>>=◌, out_of_bounds, row_not_found}
use exio.Dict.{Dict, lookup, insert, erase}
use exio.Sam.Container.{TxContainer}
use exio.Table.Position.{rebuild, erase_index, remove_at}
use exio.Table.Row.{
  TableEvent, table_cleared, new_row, row_removed, new_column, pcmd_event, row_multi_update,
  DataRow, new_data_row, is_reserved, update_fields, get_field, copy_field, copy_row, copy_fields,
  fields_size,
}

pub record DataTable : Type 0 where
  pub table_name : Bytes
  pub columns : List Bytes
  pub column_index : Dict ℕ
  pub rows : List DataRow
  pub row_index : Dict ℕ
  pub column_attrs : Dict (List TxContainer)
  pub pcmd : Dict (Dict TxContainer)
  pub published : List TableEvent

-- DataTable(table_name, ai)
unfoldable pub new_data_table : Bytes → DataTable
new_data_table t = record {
  table_name = t;
  columns = [];
  column_index = [];
  rows = [];
  row_index = [];
  column_attrs = [];
  pcmd = [];
  published = [];
}

abbrev pub keys : List DataRow → List Bytes
keys [] = []
keys (r ∷ rs) = r.rowkey ∷ keys rs

-- `if (not events.empty()) _nolock_publish_update(events)`, which leaves the list empty
unfoldable pub publish : DataTable × List TableEvent → DataTable
publish (t, events) = record t { published = t.published ++ events }

-- _nolock_has_row and has_row
unfoldable pub has_row : Bytes → DataTable → Bool
has_row k t = elim (lookup k t.row_index) [ some _ ↦ true | none ↦ false ]

-- _nolock_add_row(rowkey, events)
unfoldable pub add_row : Bytes → DataTable → List TableEvent → DataTable × List TableEvent
add_row k t events =
    let rows = t.rows ++ new_data_row k t.table_name ∷ [] in
    (
      record t { rows = rows; row_index = rebuild (keys rows) 0 [] },
      events ++ new_row t.table_name k ∷ [],
    )

-- The loop over m_rows of add_column_NOLOCK
unfoldable pub update_all :
    (ℕ → Bytes) → Dict Bytes → List DataRow → List TableEvent → List DataRow × List TableEvent
update_all now ups [] events = ([], events)
update_all now ups (r ∷ rs) events =
    let updated = update_fields (now (length events)) ups r events in
    let rest = update_all now ups rs updated.2 in (updated.1 ∷ rest.0, rest.1)

-- add_column_NOLOCK(column, events)
unfoldable pub add_column :
    (ℕ → Bytes) → Bytes → DataTable × List TableEvent → DataTable × List TableEvent
add_column now c (t, events) = elim (lookup c t.column_index) [
  | some _ ↦ (t, events)
  | none ↦
      let columns = t.columns ++ c ∷ [] in
      let updated =
        update_all now ((c, []) ∷ []) t.rows (events ++ new_column t.table_name c ∷ []) in
      (
        record t { columns = columns; column_index = rebuild columns 0 []; rows = updated.0 },
        updated.1,
      )
]

unfoldable pub add_each :
    (ℕ → Bytes) → List Bytes → DataTable × List TableEvent → DataTable × List TableEvent
add_each now [] s = s
add_each now (c ∷ cs) s = add_each now cs (add_column now c s)

-- add_columns(cols)
unfoldable pub add_columns : (ℕ → Bytes) → List Bytes → DataTable → DataTable
add_columns now cs t = publish (add_each now cs (t, []))

-- The names of the updates that update_row makes columns: not the reserved ones.
unfoldable pub update_columns : Dict Bytes → List Bytes
update_columns [] = []
update_columns ((f, v) ∷ ups) =
    let rest = update_columns ups in if is_reserved f then rest else f ∷ rest

-- m_rows[i].update_fields(fields, events)
unfoldable pub update_at :
    (ℕ → Bytes)
    → Dict Bytes
    → ℕ
    → List DataRow
    → List TableEvent
    → Result (List DataRow × List TableEvent)
update_at now ups i [] events = err out_of_bounds
update_at now ups zero (r ∷ rs) events =
    let updated = update_fields (now (length events)) ups r events in ok (updated.1 ∷ rs, updated.2)
update_at now ups (suc i) (r ∷ rs) events =
    update_at now ups i rs events >>= λ rest. ok (r ∷ rest.0, rest.1)

-- m_row_index[k], which enters 0 for a missing key: the index and the position
unfoldable pub index_or_enter : Bytes → Dict ℕ → Dict ℕ × ℕ
index_or_enter k m = elim (lookup k m) [ some i ↦ (m, i) | none ↦ (insert k 0 m, 0) ]

-- The last statements of update_row, behind its loop
unfoldable pub update_indexed :
    (ℕ → Bytes) → Bytes → Dict Bytes → DataTable × List TableEvent → Result DataTable
update_indexed now k ups (t, events) =
    let place = index_or_enter k t.row_index in
    update_at now ups place.1 t.rows events >>= λ done.
    ok (publish (record t { rows = done.0; row_index = place.0 }, done.1))

-- update_row(rowkey, fields, events): a list of events, to which the caller may have put some, that
-- is empty afterwards
unfoldable pub update_row :
    (ℕ → Bytes) → Bytes → Dict Bytes → DataTable → List TableEvent → Result DataTable
update_row now k ups t events =
    let s = if has_row k t then (t, events) else add_row k t events in
    update_indexed now k ups (add_each now (update_columns ups) s)

-- clear_table()
unfoldable pub clear_table : DataTable → DataTable
clear_table t = publish (record t { rows = []; row_index = [] }, table_cleared t.table_name ∷ [])

-- delete_row(rowkey); an erase behind the end would be a fault
unfoldable pub delete_row : Bytes → DataTable → Result DataTable
delete_row k t = elim (lookup k t.row_index) [
  | none ↦ ok t
  | some i ↦ elim (get_elem? t.rows i) [
    | none ↦ err out_of_bounds
    | some _ ↦ ok (
        publish (
          record t { rows = remove_at i t.rows; row_index = erase_index k i t.row_index },
          row_removed t.table_name k ∷ [],
        ))
  ]
]

-- m_rows[ m_row_index.find(rowkey)->second ]: none for a missing key
unfoldable pub row_at : Bytes → DataTable → Result (Option DataRow)
row_at k t = elim (lookup k t.row_index) [
  | none ↦ ok none
  | some i ↦ elim (get_elem? t.rows i) [ some r ↦ ok (some r) | none ↦ err out_of_bounds ]
]

-- get_row_field(rowkey, column)
unfoldable pub get_row_field : Bytes → Bytes → DataTable → Result Bytes
get_row_field k c t =
    row_at k t >>= λ o. elim o [ some r ↦ get_field c r | none ↦ err row_not_found ]

-- copy_field(rowkey, field, dest) and copy_row(rowkey, dest)
unfoldable pub table_copy_field : Bytes → Bytes → Bytes → DataTable → Result (Bool × Bytes)
table_copy_field k f dest t =
    row_at k t >>= λ o. ok (elim o [ some r ↦ copy_field f dest r | none ↦ (false, dest) ])

unfoldable pub table_copy_row : Bytes → Dict Bytes → DataTable → Result (Dict Bytes)
table_copy_row k dest t = row_at k t >>= λ o. ok (elim o [ some r ↦ copy_row r dest | none ↦ dest ])

-- add_column_attr(column, attribute)
unfoldable pub add_column_attr : Bytes → TxContainer → DataTable → DataTable
add_column_attr c a t =
    let attrs : List TxContainer = elim (lookup c t.column_attrs) [
      | some l ↦ l ++ a ∷ []
      | none ↦ a ∷ []
    ] in
    record t { column_attrs = insert c attrs t.column_attrs }

-- update_meta(rowkey, fieldname, meta, events)
unfoldable pub update_meta : Bytes → Bytes → TxContainer → DataTable → List TableEvent → DataTable
update_meta k f meta t events =
    let metas : Dict TxContainer = elim (lookup k t.pcmd) [ some m ↦ m | none ↦ [] ] in
    let named = record meta { name = codes ".meta." ++ f } in
    publish (
      record t { pcmd = insert k (insert f named metas) t.pcmd },
      events ++ pcmd_event t.table_name k f meta ∷ [],
    )

-- copy_rowkeys(dest), and get_rowkeys() for an empty one
unfoldable pub copy_rowkeys : List Bytes → DataTable → List Bytes
copy_rowkeys dest t = dest ++ keys t.rows

-- copy_table(cols, rows): a value for each row and column, the empty string where a row has none
unfoldable pub copy_values : List Bytes → DataRow → List Bytes
copy_values [] r = []
copy_values (c ∷ cs) r = (copy_field c [] r).1 ∷ copy_values cs r

unfoldable pub copy_rows : List Bytes → List DataRow → List (List Bytes)
copy_rows cs [] = []
copy_rows cs (r ∷ rs) = copy_values cs r ∷ copy_rows cs rs

unfoldable pub copy_table : DataTable → List (List Bytes) → List Bytes × List (List Bytes)
copy_table t rows = (t.columns, rows ++ copy_rows t.columns t.rows)

-- size(): the bytes of the names and values of all fields
unfoldable pub size : List DataRow → ℕ
size [] = 0
size (r ∷ rs) = fields_size r.fields + size rs

-- ===== src/Table/Row.antt =====
-- DataRow and the events of libexio/exio/TableEvents.h. The fields are a std::map, in the order of
-- their names. The time that update_fields prints into RowLastUpdated is the argument `now`.
pub mod Update
use exio.Prelude.{
  ℕ, ◌+◌, ◌≡◌, refl, Bool, true, false, not, ◌||◌, Option, none, some, List, [], ◌∷◌, ◌++◌, length,
  if◌then◌else◌, Bytes, codes, str_eq,
}
use exio.Error.{Error, Result, ok, err, field_not_found}
use exio.Dict.{Dict, lookup, insert}
use exio.Sam.Container.{TxContainer}

-- id::row_key, id::row_last
abbrev pub row_key : Bytes
row_key = codes "RowKey"

abbrev pub row_last : Bytes
row_last = codes "RowLastUpdated"

-- `name == id::row_key or name == id::row_last`
unfoldable pub is_reserved : Bytes → Bool
is_reserved f = str_eq f row_key || str_eq f row_last

-- The classes derived from TableEvent that the tables create, each with its table_name first.
pub data TableEvent : Type 0 where
  table_cleared : Bytes → TableEvent
  new_row : Bytes → Bytes → TableEvent
  row_removed : Bytes → Bytes → TableEvent
  new_column : Bytes → Bytes → TableEvent
  pcmd_event : Bytes → Bytes → Bytes → TxContainer → TableEvent
  row_multi_update : Bytes → Bytes → Dict Bytes → TableEvent

pub record DataRow : Type 0 where
  pub rowkey : Bytes
  pub table_name : Bytes
  pub fields : Dict Bytes

-- DataRow(rowkey, table_name)
unfoldable pub new_data_row : Bytes → Bytes → DataRow
unfolding insert
new_data_row k t = record { rowkey = k; table_name = t; fields = insert row_key k [] }

-- `m_fields.find(f) == end or its value != v`
unfoldable pub is_change : Bytes → Bytes → Dict Bytes → Bool
unfolding lookup
is_change f v m = elim (lookup f m) [ none ↦ true | some w ↦ not (str_eq w v) ]

-- The loop of update_fields: the row's fields, and the fields of the event, none while eventptr is
-- NULL and rowupdated false.
unfoldable pub update_loop :
    Dict Bytes → Dict Bytes → Option (Dict Bytes) → Dict Bytes × Option (Dict Bytes)
unfolding is_reserved is_change insert
update_loop [] ours event = (ours, event)
update_loop ((f, v) ∷ ups) ours event =
    if is_reserved f || not (is_change f v ours)
    then update_loop ups ours event
    else update_loop ups (insert f v ours)
        (some (insert f v (elim event [ some e ↦ e | none ↦ [] ])))

-- What update_fields does behind its loop
unfoldable pub stamp :
    Bytes
    → DataRow
    → Dict Bytes × Option (Dict Bytes)
    → List TableEvent
    → Bool × DataRow × List TableEvent
unfolding insert
stamp now r (ours, none) events = (false, record r { fields = ours }, events)
stamp now r (ours, some e) events = (
  true,
  record r { fields = insert row_last now ours },
  events ++ row_multi_update r.table_name r.rowkey (insert row_last now e) ∷ [],
)

-- update_fields(fields, events)
unfoldable pub update_fields :
    Bytes → Dict Bytes → DataRow → List TableEvent → Bool × DataRow × List TableEvent
update_fields now ups r events = stamp now r (update_loop ups r.fields none) events

-- has_field, get_field and copy_field; the last leaves `dest` as it is when there is no such field.
unfoldable pub has_field : Bytes → DataRow → Bool
unfolding lookup
has_field f r = elim (lookup f r.fields) [ some _ ↦ true | none ↦ false ]

unfoldable pub get_field : Bytes → DataRow → Result Bytes
unfolding lookup
get_field f r = elim (lookup f r.fields) [ some v ↦ ok v | none ↦ err field_not_found ]

unfoldable pub copy_field : Bytes → Bytes → DataRow → Bool × Bytes
unfolding lookup
copy_field f dest r = elim (lookup f r.fields) [ some v ↦ (true, v) | none ↦ (false, dest) ]

-- std::map::insert, which keeps an old entry, for each field in turn: copy_row(dest)
unfoldable pub copy_fields : Dict Bytes → Dict Bytes → Dict Bytes
unfolding lookup insert
copy_fields [] dest = dest
copy_fields ((f, v) ∷ m) dest =
    copy_fields m (elim (lookup f dest) [ some _ ↦ dest | none ↦ insert f v dest ])

unfoldable pub copy_row : DataRow → Dict Bytes → Dict Bytes
unfolding copy_fields
copy_row r dest = copy_fields r.fields dest

unfoldable pub clear : DataRow → DataRow
clear r = record r { fields = [] }

-- The loop over a row in DataTable::size
unfoldable pub fields_size : Dict Bytes → ℕ
fields_size [] = 0
fields_size ((f, v) ∷ m) = length f + length v + fields_size m

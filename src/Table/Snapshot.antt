-- ===== src/Table/Snapshot.antt =====
-- The snapshot of a table, libexio/Table.cc: SnapshotSerialiser, and the loop of _nolock_send_snapshopt
-- that halves the size of a batch until its message can be encoded; TableDescrSerialiser.
pub mod Batches
use exio.Prelude.{
  ℕ, zero, suc, ◌+◌, ◌/◌, max, Bool, true, false, Option, none, some, List, [], ◌∷◌, ◌++◌, Bytes,
  codes, length, ◌==◌, if◌then◌else◌,
}
use exio.Error.{Result, ok, err, failed_to_encode_snapshot, out_of_fuel}
use exio.Dict.{Dict, lookup, insert}
use exio.SamBuffer.Decimal.{decimal}
use exio.Sam.Container.{
  Items, nil, field, child, TxContainer, TxMessage, put_field, put_child, put_child_copy, set_child,
  child_items,
}
use exio.Sam.Path.{put_field_at, put_child_at, at_tree}
use exio.Sam.Encode.{check_enc_size}
use exio.Table.Row.{DataRow}
use exio.Table.Defs.{DataTable}
use exio.Table.Messages.{qn_tablename, qn_msgtype, body}

-- count_child(): of the items
unfoldable pub count_child : Items → ℕ
count_child nil = 0
count_child (field n v xs) = count_child xs
count_child (child n c xs) = count_child xs + 1

abbrev pub with_root : (Items → Items) → TxMessage → TxMessage
with_root f m = record { root = record { name = m.name; items = f m.items } }

-- SnapshotSerialiser(), set_table_name(table_name)
unfoldable pub empty_msg : TxMessage
empty_msg = record {
  root = record {
    name = codes "tableupdate";
    items =
        put_field_at qn_msgtype (codes "tableupdate")
          (put_field_at (body ∷ codes "rows" ∷ []) (codes "0") (put_field_at qn_tablename [] nil));
  };
}

unfoldable pub set_table_name : Bytes → TxMessage → TxMessage
set_table_name t m = with_root (put_field_at qn_tablename t) m

-- The loops of add_row over the fields of a row and over its meta data
unfoldable pub put_fields : Dict Bytes → Items → Items
put_fields [] r = r
put_fields ((f, v) ∷ m) r = put_fields m (put_field f v r)

unfoldable pub put_metas : Dict TxContainer → Items → Items
put_metas [] r = r
put_metas ((f, c) ∷ m) r = put_metas m (put_child_copy c.name c.items r)

-- add_row(datarow, meta); none for a NULL pointer
unfoldable pub snapshot_row : DataRow → Option (Dict TxContainer) → Items → Items
snapshot_row row meta b =
    let nrows = count_child b in
    let rowname : Bytes = codes "row_" ++ decimal nrows in
    let made : Items = put_child rowname b in
    let cells : Items = put_fields row.fields (child_items rowname made) in
    let filled : Items = elim meta [ none ↦ cells | some m ↦ put_metas m cells ] in
    put_field (codes "rows") (decimal (nrows + 1)) (set_child rowname filled made)

unfoldable pub add_row_to : DataRow → Option (Dict TxContainer) → TxMessage → TxMessage
add_row_to row meta m =
    with_root
      (λ xs.
        set_child body (snapshot_row row meta (child_items body (put_child body xs)))
          (put_child body xs))
      m

-- for (int i = 0; i < batchsize and row != m_rows.end(); ++i, ++row): the message and what is left
unfoldable pub fill_batch :
    Dict (Dict TxContainer) → ℕ → List DataRow → TxMessage → TxMessage × List DataRow
fill_batch pcmd zero rows m = (m, rows)
fill_batch pcmd (suc i) [] m = (m, [])
fill_batch pcmd (suc i) (r ∷ rows) m =
    fill_batch pcmd i rows (add_row_to r (lookup r.rowkey pcmd) m)

abbrev pub room_for_snap_fields : ℕ
room_for_snap_fields = 50

-- while (next != m_rows.end()): the messages so far, the rows from `next` on, and the size of a batch
unfoldable pub snapshot_loop :
    DataTable → ℕ → ℕ → List DataRow → List TxMessage → Result (List TxMessage × ℕ)
snapshot_loop t fuel batchsize [] msgs = ok (msgs, batchsize)
snapshot_loop t zero batchsize (r ∷ rows) msgs = err out_of_fuel
snapshot_loop t (suc fuel) batchsize (r ∷ rows) msgs =
    let done = fill_batch t.pcmd batchsize (r ∷ rows) (set_table_name t.table_name empty_msg) in
    elim (check_enc_size done.0 room_for_snap_fields) [
      | true ↦ snapshot_loop t fuel batchsize done.1 (msgs ++ done.0 ∷ [])
      | false ↦ elim (batchsize == 1) [
        | true ↦ err failed_to_encode_snapshot
        | false ↦ snapshot_loop t fuel (max 1 (batchsize / 2)) (r ∷ rows) msgs
      ]
    ]

-- The numbers of the messages, head.snapi and head.snapn
unfoldable pub number_from : ℕ → Bytes → List TxMessage → List TxMessage
number_from i snapn [] = []
number_from i snapn (m ∷ ms) =
    let numbered : TxMessage =
      with_root
        (λ xs.
          put_field_at (codes "head" ∷ codes "snapn" ∷ []) snapn
            (put_field_at (codes "head" ∷ codes "snapi" ∷ []) (decimal i) xs))
        m in
    numbered ∷ number_from (i + 1) snapn ms

-- _nolock_send_snapshopt: the messages for send_one, and m_batchsize behind it. Each round takes a row or
-- makes the batch smaller.
unfoldable pub snapshot : DataTable → ℕ → Result (List TxMessage × ℕ)
snapshot t batchsize = elim (snapshot_loop t (length t.rows + batchsize) batchsize t.rows []) [
  | err e ↦ err e
  | ok (msgs, b) ↦ ok (number_from 0 (decimal (length msgs)) msgs, b)
]

-- TableDescrSerialiser(table_name), its add_column(column_name, attrptr)
unfoldable pub new_descr : Bytes → TxMessage
new_descr t =
    let headed : Items =
      put_field_at qn_tablename t (put_field_at qn_msgtype (codes "tabledescr") nil) in
    record {
      root = record {
        name = codes "tabledescr";
        items =
            put_field_at (body ∷ codes "columns" ∷ codes "msgcount" ∷ []) (codes "0")
              (put_child_at (body ∷ codes "columns" ∷ []) headed);
      };
    }

unfoldable pub put_attrs_of : List TxContainer → Items → Items
put_attrs_of [] c = c
put_attrs_of (a ∷ more) c = put_attrs_of more (put_child_copy a.name a.items c)

unfoldable pub descr_column : Bytes → Option (List TxContainer) → Items → Items
descr_column name attrs columns =
    let ncols = count_child columns in
    let item : Bytes = codes "msg_" ++ decimal ncols in
    let made : Items = put_child item columns in
    let named : Items = put_field (codes "colname") name (child_items item made) in
    let full : Items = elim attrs [ none ↦ named | some l ↦ put_attrs_of l named ] in
    put_field (codes "msgcount") (decimal (ncols + 1)) (set_child item full made)

unfoldable pub add_descr_column : Bytes → Option (List TxContainer) → TxMessage → TxMessage
add_descr_column name attrs m =
    with_root
      (at_tree (body ∷ codes "columns" ∷ []) (λ n xs.
        set_child n (descr_column name attrs (child_items n (put_child n xs))) (put_child n xs)))
      m

-- add_subscriber(session), its std::set of the columns and of those that have attributes only
unfoldable pub column_set : List Bytes → Dict (List TxContainer) → Dict (Unit {0})
column_set [] [] = []
column_set [] ((n, _) ∷ attrs) = insert n tt (column_set [] attrs)
column_set (c ∷ cols) attrs = insert c tt (column_set cols attrs)

unfoldable pub add_descr_columns : DataTable → Dict (Unit {0}) → TxMessage → TxMessage
add_descr_columns t [] m = m
add_descr_columns t ((c, _) ∷ cols) m =
    add_descr_columns t cols (add_descr_column c (lookup c t.column_attrs) m)

-- The description of the table for a new subscriber
unfoldable pub table_descr : DataTable → TxMessage
table_descr t = add_descr_columns t (column_set t.columns t.column_attrs) (new_descr t.table_name)

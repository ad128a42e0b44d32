-- ===== src/Table/Messages.antt =====
-- The messages of the table events: libexio/TableEvents.cc and libexio/TableSerialiser.cc. A reference
-- to a container within the message is the qname by which it was reached.
pub mod Fields
use exio.Prelude.{Option, none, some, List, [], ◌∷◌, ◌++◌, Bytes, codes}
use exio.Dict.{Dict}
use exio.Sam.Container.{
  nil, Items, TxMessage, set_type, put_field, put_child_copy, child_items, set_child,
}
use exio.Sam.Path.{Qname, put_field_at, put_child_at}
use exio.Table.Row.{
  row_key, TableEvent, table_cleared, new_row, row_removed, new_column, pcmd_event,
  row_multi_update,
}

-- txMessage()
abbrev pub empty_message : TxMessage
empty_message = record { root = record { name = []; items = nil } }

-- id::QN_tablename, id::QN_msgtype, id::body, id::rows, and id::row_prefix + "0"
abbrev pub qn_tablename : Qname
qn_tablename = codes "head" ∷ codes "tablename" ∷ []

abbrev pub qn_msgtype : Qname
qn_msgtype = codes "head" ∷ codes "msgtype" ∷ []

abbrev pub body : Bytes
body = codes "body"

abbrev pub row_0 : Bytes
row_0 = codes "row_0"

abbrev pub put : Qname → Bytes → TxMessage → TxMessage
put qn v m = record { root = record { name = m.name; items = put_field_at qn v m.items } }

abbrev pub put_container : Qname → TxMessage → TxMessage
put_container qn m = record { root = record { name = m.name; items = put_child_at qn m.items } }

-- UpdateSerialiser::init_msg(m, table_name, row_key)
unfoldable pub init_msg : Bytes → Bytes → TxMessage → TxMessage
init_msg t k m =
    let typed = set_type (codes "tableupdate") m in
    let headed = put qn_msgtype (codes "tableupdate") (put qn_tablename t typed) in
    let counted = put (body ∷ codes "rows" ∷ []) (codes "1") (put_container (body ∷ []) headed) in
    put (body ∷ row_0 ∷ row_key ∷ []) k (put_container (body ∷ row_0 ∷ []) counted)

-- UpdateSerialiser::add_update(column, value); its result is true always
unfoldable pub add_update : Bytes → Bytes → TxMessage → TxMessage
add_update f v m = put (body ∷ row_0 ∷ f ∷ []) v m

unfoldable pub add_updates : Dict Bytes → TxMessage → TxMessage
add_updates [] m = m
add_updates ((f, v) ∷ ups) m = add_updates ups (add_update f v m)

-- TableClearSerialise::init_msg(m, table_name)
unfoldable pub init_clear_msg : Bytes → TxMessage → TxMessage
init_clear_msg t m =
    put qn_tablename t (put qn_msgtype (codes "tableclear") (set_type (codes "tableclear") m))

-- RowRemoved::serialise: the field of the row's key is put without a value.
unfoldable pub row_removed_msg : Bytes → TxMessage → TxMessage
row_removed_msg t m =
    let typed = set_type (codes "tablerowdel") m in
    let headed = put qn_tablename t (put qn_msgtype (codes "tablerowdel") typed) in
    put (codes "head" ∷ row_key ∷ []) [] headed

-- serialise(msglist) of RowMultiUpdate: one message, since add_update never refuses
unfoldable pub row_multi_update_msg : Bytes → Bytes → Dict Bytes → TxMessage → TxMessage
row_multi_update_msg t k ups m = add_updates ups (init_msg t k m)

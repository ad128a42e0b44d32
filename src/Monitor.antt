-- ===== src/Monitor.antt =====
-- The tables and their subscribers: libexio/Monitor.cc, libexio/exio/Monitor.h, and the parts of
-- libexio/Table.cc that send to sessions. A subscriber is the number of a slot of the registry. Each
-- function holds its locks, and is a step.
pub mod Publish
pub mod Create
pub mod Update
pub mod Closing
pub mod Queries
pub mod Subscriptions
mod Tests
use exio.Prelude.{
  ℕ, Bool, true, false, Option, none, some, List, [], ◌∷◌, ◌++◌, Bytes, codes, if◌then◌else◌,
}
use exio.Error.{Result, ok, err, ◌>>=◌, Error}
use exio.Dict.{Dict, lookup, insert, map_values}
use exio.Sam.Container.{TxContainer, TxMessage, set_type, put_child_copy, child_items, set_child}
use exio.Sam.Path.{at_tree}
use exio.Session.{AdminSession}
use exio.Registry.{
  Sessions, slot, at_slot, if_open, send, send_one, session_exists, session_list, remove_first,
}
use exio.Table.Row.{
  row_key, TableEvent, table_cleared, new_row, row_removed, new_column, pcmd_event,
  row_multi_update,
}
use exio.Table.Defs.{DataTable, new_data_table}
use exio.Table.Messages.{
  empty_message, body, row_0, put, put_container, qn_tablename, qn_msgtype, init_clear_msg,
  row_removed_msg, row_multi_update_msg,
}
use exio.Table.Defs.{
  add_columns, update_row, update_meta, clear_table, delete_row, add_column_attr, has_row,
}
use exio.Table.Snapshot.{snapshot, table_descr, with_root}

-- A DataTable with its m_subscribers and m_batchsize
pub record Watched : Type 0 where
  pub table : DataTable
  pub subscribers : List ℕ
  pub batchsize : ℕ

-- DataTable(table_name, ai)
unfoldable pub new_watched : Bytes → Watched
new_watched t = record { table = new_data_table t; subscribers = []; batchsize = 500 }

-- send_one(msgs, id) of AdminInterfaceImpl
unfoldable pub send_each : List TxMessage → AdminSession → AdminSession
send_each [] a = a
send_each (m ∷ ms) a = send_each ms (send m a)

unfoldable pub send_list : List TxMessage → ℕ → Sessions → Result Sessions
send_list msgs id s = do
  o ← slot id s.reg
  h ← at_slot (if_open (send_each msgs)) o s.object
  ok (record s { object = h })

-- _nolock_send_snapshopt(session): an exception, the table and the sessions
unfoldable pub send_snapshot : ℕ → Watched → Sessions → Result (Option Error × Watched × Sessions)
send_snapshot id w s = elim (snapshot w.table w.batchsize) [
  | err e ↦ ok (some e, w, s)
  | ok (msgs, b) ↦ send_list msgs id s >>= λ t. ok (none, record w { batchsize = b }, t)
]

-- add_subscriber(session)
unfoldable pub add_subscriber : ℕ → Watched → Sessions → Result (Option Error × Watched × Sessions)
add_subscriber id w s =
    let joined : Watched = record w { subscribers = w.subscribers ++ id ∷ [] } in
    send_one (table_descr w.table) id s >>= λ t. send_snapshot id joined t

-- del_subscriber(session): the first entry
unfoldable pub del_subscriber : ℕ → Watched → Watched
del_subscriber id w = record w { subscribers = remove_first id w.subscribers }

-- subscribe_all(id): an exception is logged.
unfoldable pub subscribe_all : ℕ → Dict Watched → Sessions → Result (Dict Watched × Sessions)
subscribe_all id [] s = ok ([], s)
subscribe_all id ((n, w) ∷ m) s =
    add_subscriber id w s >>= λ r. subscribe_all id m r.2 >>= λ q. ok ((n, r.1) ∷ q.0, q.1)

-- unsubscribe_all(id)
unfoldable pub unsubscribe_all : ℕ → Dict Watched → Dict Watched
unsubscribe_all id m = map_values (del_subscriber id) m

-- The loop of create_table_NOLOCK over the sessions, which an exception leaves
unfoldable pub add_subscribers :
    List ℕ → Watched → Sessions → Result (Option Error × Watched × Sessions)
add_subscribers [] w s = ok (none, w, s)
add_subscribers (id ∷ ids) w s =
    add_subscriber id w s >>= λ r. elim r.0 [ some e ↦ ok r | none ↦ add_subscribers ids r.1 r.2 ]

-- create_table_NOLOCK(table_name): an exception, the tables and the sessions
unfoldable pub create_table :
    Bytes → Dict Watched → Sessions → Result (Option Error × Dict Watched × Sessions)
create_table t m s = do
  ids ← session_list s.reg s.object
  r ← add_subscribers ids (new_watched t) s
  ok (r.0, elim r.0 [ none ↦ insert t r.1 m | some e ↦ m ], r.2)

-- copy_subscribers(subs)
unfoldable pub copy_subscribers : List ℕ → Sessions → Result (List ℕ)
copy_subscribers [] s = ok []
copy_subscribers (id ∷ ids) s = do
  e ← session_exists id s
  rest ← copy_subscribers ids s
  ok (if e then id ∷ rest else rest)

-- PCMDEvent::serialise(msglist): the container's name is that under which it is written.
unfoldable pub pcmd_msg : Bytes → Bytes → Bytes → TxContainer → TxMessage → TxMessage
pcmd_msg t k column meta m =
    let headed =
      put qn_msgtype (codes "tableupdate")
        (put qn_tablename t (set_type (codes "tableupdate") m)) in
    let rowed = put_container (body ∷ row_0 ∷ []) (put_container (body ∷ []) headed) in
    let keyed =
      put (body ∷ codes "rows" ∷ []) (codes "1") (put (body ∷ row_0 ∷ row_key ∷ []) k rowed) in
    with_root
      (at_tree (body ∷ row_0 ∷ []) (λ n xs.
        set_child n (put_child_copy (codes ".meta." ++ column) meta.items (child_items n xs)) xs))
      keyed

-- ev->serialise(msgs), by the type of the event
unfoldable pub serialise : TableEvent → List TxMessage
serialise (table_cleared t) = init_clear_msg t empty_message ∷ []
serialise (new_row t k) = []
serialise (row_removed t k) = row_removed_msg t empty_message ∷ []
serialise (new_column t c) = []
serialise (pcmd_event t k c meta) = pcmd_msg t k c meta empty_message ∷ []
serialise (row_multi_update t k ups) = row_multi_update_msg t k ups empty_message ∷ []

unfoldable pub serialise_all : List TableEvent → List TxMessage
serialise_all [] = []
serialise_all (e ∷ es) = serialise e ++ serialise_all es

-- The two loops that send each message to each subscriber
unfoldable pub send_to : TxMessage → List ℕ → Sessions → Result Sessions
send_to msg [] s = ok s
send_to msg (id ∷ ids) s = send_one msg id s >>= λ t. send_to msg ids t

unfoldable pub send_all_to : List TxMessage → List ℕ → Sessions → Result Sessions
send_all_to [] ids s = ok s
send_all_to (m ∷ ms) ids s = send_to m ids s >>= λ t. send_all_to ms ids t

-- _nolock_publish_update(events) of the events that the table has published, which are none afterwards
unfoldable pub publish_update : Watched → Sessions → Result (Watched × Sessions)
publish_update w s = do
  subs ← copy_subscribers w.subscribers s
  t ← send_all_to (serialise_all w.table.published) subs s
  ok (record w { table = record w.table { published = [] } }, t)

-- A call on a table that changes it and publishes
abbrev pub changed : Result DataTable → Watched → Sessions → Result (Watched × Sessions)
changed r w s = r >>= λ t. publish_update (record w { table = t }) s

-- m_tables.find(table_name), and what is done to the table if there is one
unfoldable pub if_table :
    Bytes
    → (Watched → Sessions → Result (Watched × Sessions))
    → Dict Watched
    → Sessions
    → Result (Dict Watched × Sessions)
if_table n f m s = elim (lookup n m) [
  | none ↦ ok (m, s)
  | some w ↦ f w s >>= λ r. ok (insert n r.0 m, r.1)
]

-- A table that is not found is created first; an exception, the tables and the sessions
unfoldable pub or_create :
    Bytes
    → (Watched → Sessions → Result (Watched × Sessions))
    → Dict Watched
    → Sessions
    → Result (Option Error × Dict Watched × Sessions)
or_create n f m s = elim (lookup n m) [
  | some w ↦ if_table n f m s >>= λ q. ok (none, q.0, q.1)
  | none ↦ create_table n m s >>= λ r. elim r.0 [
    | some e ↦ ok r
    | none ↦ if_table n f r.1 r.2 >>= λ q. ok (none, q.0, q.1)
  ]
]

-- add_columns(table_name, cols), update_table(table_name, row_key, fields), update_meta(table_name,
-- row_key, column, meta) and table_column_attr(table_name, column, attribute)
unfoldable pub monitor_add_columns :
    (ℕ → Bytes)
    → Bytes
    → List Bytes
    → Dict Watched
    → Sessions
    → Result (Option Error × Dict Watched × Sessions)
monitor_add_columns now n cols = or_create n (λ w. changed (ok (add_columns now cols w.table)) w)

unfoldable pub update_table :
    (ℕ → Bytes)
    → Bytes
    → Bytes
    → Dict Bytes
    → Dict Watched
    → Sessions
    → Result (Option Error × Dict Watched × Sessions)
update_table now n k fields = or_create n (λ w. changed (update_row now k fields w.table []) w)

unfoldable pub monitor_update_meta :
    Bytes
    → Bytes
    → Bytes
    → TxContainer
    → Dict Watched
    → Sessions
    → Result (Option Error × Dict Watched × Sessions)
monitor_update_meta n k column meta =
    or_create n (λ w. changed (ok (update_meta k column meta w.table [])) w)

unfoldable pub table_column_attr :
    Bytes
    → Bytes
    → TxContainer
    → Dict Watched
    → Sessions
    → Result (Option Error × Dict Watched × Sessions)
table_column_attr n column a =
    or_create n (λ w s. ok (record w { table = add_column_attr column a w.table }, s))

-- clear_table(tablename), delete_row(tablename, rowkey) and clear_all_tables()
unfoldable pub monitor_clear_table :
    Bytes → Dict Watched → Sessions → Result (Dict Watched × Sessions)
monitor_clear_table n = if_table n (λ w. changed (ok (clear_table w.table)) w)

unfoldable pub monitor_delete_row :
    Bytes → Bytes → Dict Watched → Sessions → Result (Dict Watched × Sessions)
monitor_delete_row n k = if_table n (λ w. changed (delete_row k w.table) w)

unfoldable pub clear_all_tables : Dict Watched → Sessions → Result (Dict Watched × Sessions)
clear_all_tables [] s = ok ([], s)
clear_all_tables ((n, w) ∷ m) s = changed (ok (clear_table w.table)) w s >>= λ r.
    clear_all_tables m r.1 >>= λ q. ok ((n, r.0) ∷ q.0, q.1)

-- tables(), table_exists(table_name), table_subscribers(table_name, list) and has_row(tablename, rowkey)
unfoldable pub tables : Dict Watched → List Bytes
tables [] = []
tables ((n, w) ∷ m) = n ∷ tables m

unfoldable pub table_exists : Bytes → Dict Watched → Bool
table_exists n m = elim (lookup n m) [ none ↦ false | some w ↦ true ]

unfoldable pub table_subscribers : Bytes → List ℕ → Dict Watched → List ℕ
table_subscribers n list m = elim (lookup n m) [ none ↦ list | some w ↦ list ++ w.subscribers ]

unfoldable pub monitor_has_row : Bytes → Bytes → Dict Watched → Bool
monitor_has_row n k m = elim (lookup n m) [ none ↦ false | some w ↦ has_row k w.table ]

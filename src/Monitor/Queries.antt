-- ===== src/Monitor/Queries.antt =====
-- What is read out of the tables of the monitor, the broadcast of snapshots (DataTable::snapshot), and the
-- end of a session, AdminInterfaceImpl::session_closed. An exception ends a broadcast.
use exio.Prelude.{ℕ, Bool, false, Option, none, some, List, [], ◌∷◌, Bytes}
use exio.Error.{Result, ok, ◌>>=◌, Error}
use exio.Dict.{Dict, lookup, insert}
use exio.Registry.{Sessions, deref, session_closed}
use exio.Table.Row.{DataRow, copy_row}
use exio.Table.Defs.{copy_table, table_copy_row, table_copy_field, copy_rowkeys, size}
use exio.Monitor.{Watched, send_snapshot, copy_subscribers, unsubscribe_all}

-- DataTable::copy_table(dest), with dest[rowkey], which enters an empty row
unfoldable pub copy_row_dicts : List DataRow → Dict (Dict Bytes) → Dict (Dict Bytes)
copy_row_dicts [] dest = dest
copy_row_dicts (r ∷ rows) dest =
    let old : Dict Bytes = elim (lookup r.rowkey dest) [ none ↦ [] | some d ↦ d ] in
    copy_row_dicts rows (insert r.rowkey (copy_row r old) dest)

-- copy_table(tablename, dest), copy_table2(tablename, cols, rows), copy_row(tablename, rowkey, dest),
-- copy_field(tablename, rowkey, field, dest) and copy_rowkeys(tablename, dest)
unfoldable pub monitor_copy_table : Bytes → Dict (Dict Bytes) → Dict Watched → Dict (Dict Bytes)
monitor_copy_table n dest m = elim (lookup n m) [
  | none ↦ dest
  | some w ↦ copy_row_dicts w.table.rows dest
]

unfoldable pub copy_table2 :
    Bytes → List Bytes × List (List Bytes) → Dict Watched → List Bytes × List (List Bytes)
copy_table2 n dest m = elim (lookup n m) [ none ↦ dest | some w ↦ copy_table w.table dest.1 ]

unfoldable pub monitor_copy_row : Bytes → Bytes → Dict Bytes → Dict Watched → Result (Dict Bytes)
monitor_copy_row n k dest m = elim (lookup n m) [
  | none ↦ ok dest
  | some w ↦ table_copy_row k dest w.table
]

unfoldable pub monitor_copy_field :
    Bytes → Bytes → Bytes → Bytes → Dict Watched → Result (Bool × Bytes)
monitor_copy_field n k f dest m = elim (lookup n m) [
  | none ↦ ok (false, dest)
  | some w ↦ table_copy_field k f dest w.table
]

unfoldable pub monitor_copy_rowkeys : Bytes → List Bytes → Dict Watched → List Bytes
monitor_copy_rowkeys n dest m = elim (lookup n m) [
  | none ↦ dest
  | some w ↦ copy_rowkeys dest w.table
]

-- table_size(tablename)
unfoldable pub table_size : Bytes → Dict Watched → ℕ
table_size n m = elim (lookup n m) [ none ↦ 0 | some w ↦ size w.table.rows ]

-- The loop of DataTable::snapshot over the subscribers that exist
unfoldable pub snapshot_each :
    List ℕ → Watched → Sessions → Result (Option Error × Watched × Sessions)
snapshot_each [] w s = ok (none, w, s)
snapshot_each (id ∷ ids) w s =
    send_snapshot id w s >>= λ r. elim r.0 [ some e ↦ ok r | none ↦ snapshot_each ids r.1 r.2 ]

unfoldable pub table_snapshot : Watched → Sessions → Result (Option Error × Watched × Sessions)
table_snapshot w s = copy_subscribers w.subscribers s >>= λ subs. snapshot_each subs w s

-- broadcast_snapshot() and broadcast_snapshot(tablename)
unfoldable pub broadcast_snapshot :
    Dict Watched → Sessions → Result (Option Error × Dict Watched × Sessions)
broadcast_snapshot [] s = ok (none, [], s)
broadcast_snapshot ((n, w) ∷ m) s = table_snapshot w s >>= λ r. elim r.0 [
  | some e ↦ ok (some e, (n, r.1) ∷ m, r.2)
  | none ↦ broadcast_snapshot m r.2 >>= λ q. ok (q.0, (n, r.1) ∷ q.1, q.2)
]

unfoldable pub broadcast_table :
    Bytes → Dict Watched → Sessions → Result (Option Error × Dict Watched × Sessions)
broadcast_table n m s = elim (lookup n m) [
  | none ↦ ok (none, m, s)
  | some w ↦ table_snapshot w s >>= λ r. ok (r.0, insert n r.1 m, r.2)
]

-- session_closed(session): first its subscriptions, then its slot
unfoldable pub end_session : ℕ → Dict Watched → Sessions → Result (Dict Watched × Sessions)
end_session p m s = do a ← deref p s.object; t ← session_closed p s; ok (unsubscribe_all a.id m, t)

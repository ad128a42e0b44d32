-- ===== src/Admin/Builtin.antt =====
-- Two of the admins that libexio/AdminInterfaceImpl.cc registers: admincmd_list_tables, which lists the tables
-- of the monitor or shows one, and admincmd_snapshot.
use exio.Prelude.{false, not, none, some, List, [], ◌∷◌, Bytes, codes, if◌then◌else◌, str_eq}
use exio.Error.{Result, ok, err, ◌>>=◌}
use exio.Dict.{Dict}
use exio.Sam.Container.{Items}
use exio.Table.Row.{row_key}
use exio.Registry.{Sessions}
use exio.Monitor.{Watched, tables, table_exists}
use exio.Monitor.Queries.{copy_table2, broadcast_snapshot}
use exio.Admin.Reply.{
  AdminResponse, new_response, with_items, add_rescode, set_pending, body, in_child,
  formatreply_simplelist, error_response, success, TableBuilder, table_builder, set_columns,
  builder_row,
}
use exio.Admin.Request.{AdminRequest}

-- The response with which the admins start: no error, and the last one
abbrev pub started : Bytes → AdminResponse
started reqseqno = with_items (λ xs. set_pending false (add_rescode 0 xs)) (new_response reqseqno)

abbrev pub in_body : (Items → Items) → AdminResponse → AdminResponse
in_body f r = with_items (in_child body f) r

-- The loop over the rows, each under the name of the key's field
unfoldable pub add_rows : List (List Bytes) → TableBuilder → TableBuilder
add_rows [] t = t
add_rows (r ∷ rows) t = add_rows rows (builder_row row_key r t)

-- The table as a reply
unfoldable pub table_reply : List Bytes × List (List Bytes) → Items → Items
table_reply (cols, rows) b = (add_rows rows (set_columns cols (table_builder b))).body_items

-- `table show name`
unfoldable pub show_table : Bytes → Bytes → Dict Watched → AdminResponse
show_table reqseqno name m =
    if not (table_exists name m)
    then error_response reqseqno 3 (codes "table not found")
    else with_items (add_rescode 0)
        (in_body (table_reply (copy_table2 name ([], []) m)) (started reqseqno))

-- admincmd_list_tables(req)
unfoldable pub list_tables : AdminRequest → Dict Watched → AdminResponse
list_tables req m = on req.args
  where
    show_first : List Bytes → AdminResponse
    show_first [] = error_response req.reqseqno 4 (codes "missing tablename")
    show_first (name ∷ more) = show_table req.reqseqno name m

    on : List Bytes → AdminResponse
    on [] = error_response req.reqseqno 4 (codes "missing table command")
    on (command ∷ more) =
        if str_eq command (codes "list")
        then in_body (formatreply_simplelist (tables m) (some (codes "table")))
            (started req.reqseqno)
        else if str_eq command (codes "show")
        then show_first more
        else error_response req.reqseqno 4 (codes "unknown table command")

-- admincmd_snapshot(request): an exception of the broadcast leaves it.
unfoldable pub snapshot_admin :
    AdminRequest → Dict Watched → Sessions → Result (Result AdminResponse × Dict Watched × Sessions)
snapshot_admin req m s = broadcast_snapshot m s >>= λ r. ok (
  elim r.0 [ some e ↦ err e | none ↦ ok (success req.reqseqno (codes "snapshot broadcast") 0) ],
  r.1,
  r.2,
)

-- ===== src/Admin/Reply.antt =====
-- Replies to admin requests: the helpers of libexio/AdminCommand.cc, AdminResponse and TableBuilder. A
-- reference to the child `body` of a message is a function on its items. Codes are natural numbers.
use exio.Prelude.{
  ℕ, ◌+◌, Bool, true, false, Option, none, some, List, [], ◌∷◌, ◌++◌, Bytes, codes, length,
  if◌then◌else◌, ◌==◌,
}
use exio.SamBuffer.Decimal.{decimal}
use exio.Sam.Container.{Items, nil, TxMessage, put_field, put_child, set_child, child_items}
use exio.Sam.Path.{Qname, put_field_at, put_child_at, check_field_at}

-- The names of libexio/exio/MsgIDs.h
abbrev pub head : Bytes
head = codes "head"

abbrev pub body : Bytes
body = codes "body"

abbrev pub qn_pending : Qname
qn_pending = head ∷ codes "pending" ∷ []

abbrev pub qn_rescode : Qname
qn_rescode = head ∷ codes "rescode" ∷ []

abbrev pub qn_restext : Qname
qn_restext = head ∷ codes "restext" ∷ []

abbrev pub qn_head_reqseqno : Qname
qn_head_reqseqno = head ∷ codes "reqseqno" ∷ []

abbrev pub resptype : Bytes
resptype = codes "resptype"

abbrev pub respdata : Bytes
respdata = codes "respdata"

abbrev pub msg_response : Bytes
msg_response = codes "response"

-- set_pending(msg, p), has_pending(msg), add_rescode(msg, e), add_restext(msg, str), on the items of the root
unfoldable pub set_pending : Bool → Items → Items
set_pending p xs = put_field_at qn_pending (if p then codes "1" else codes "0") xs

unfoldable pub has_pending : Items → Bool
has_pending xs = check_field_at qn_pending (codes "1") xs

unfoldable pub add_rescode : ℕ → Items → Items
add_rescode e xs = put_field_at qn_rescode (decimal e) xs

unfoldable pub add_restext : Bytes → Items → Items
add_restext str xs = put_field_at qn_restext str xs

-- The names of libexio/AdminCommand.cc's error_code_str
unfoldable pub error_code_str : ℕ → Bytes
error_code_str e =
    if e == 1
    then codes "unknown"
    else if e == 2
    then codes "admin not found"
    else if e == 3
    then codes "table not found"
    else if e == 4
    then codes "bad command"
    else if e == 5
    then codes "no session"
    else codes "unknown error code"

-- An operation on the child of a name, which is there or is made
abbrev pub in_child : Bytes → (Items → Items) → Items → Items
in_child n f xs = set_child n (f (child_items n (put_child n xs))) (put_child n xs)

-- formatreply_string(body, value)
unfoldable pub formatreply_string : Bytes → Items → Items
formatreply_string value b =
    in_child respdata (put_field (codes "text") value) (put_field resptype (codes "text") b)

abbrev pub row_name : ℕ → Bytes
row_name i = codes "row_" ++ decimal i

-- The loop of formatreply_simplelist over the values
unfoldable pub put_rows : Bytes → ℕ → List Bytes → Items → Items
put_rows column i [] u = u
put_rows column i (v ∷ vs) u =
    put_rows column (i + 1) vs (
      in_child (row_name i) (λ r. put_field column v (put_field (codes "RowKey") (row_name i) r)) u)

-- formatreply_simplelist(body, values, value_column_name)
unfoldable pub formatreply_simplelist : List Bytes → Option Bytes → Items → Items
formatreply_simplelist values name b =
    let column : Bytes = elim name [ some n ↦ n | none ↦ codes "value" ] in
    let typed : Items =
      put_field (codes "synthetic") (codes "scalarlist") (put_field resptype (codes "table") b) in
    let columns : Items → Items = λ c.
      in_child (codes "msg_0") (put_field (codes "colname") column)
        (put_field (codes "msgcount") (codes "1") c) in
    let descr : Items → Items =
      in_child (codes "tabledescr") (in_child (codes "columns") columns) in
    let update : Items → Items =
      in_child (codes "tableupdate")
        (λ u. put_rows column 0 values (put_field (codes "rows") (decimal (length values)) u)) in
    in_child respdata (λ r. update (put_child (codes "tableupdate") (descr r))) typed

-- AdminResponse: send and msg
pub record AdminResponse : Type 0 where
  pub send : Bool
  pub msg : TxMessage

-- AdminResponse(reqseqno)
unfoldable pub new_response : Bytes → AdminResponse
new_response reqseqno = record {
  send = true;
  msg = record {
    root = record {
      name = msg_response;
      items = put_field_at qn_head_reqseqno reqseqno (put_child body (put_child head nil));
    };
  };
}

abbrev pub with_items : (Items → Items) → AdminResponse → AdminResponse
with_items f r = record r {
  msg = record { root = record { name = r.msg.name; items = f r.msg.items } };
}

-- AdminResponse::error(reqseqno, errorcode, errorstr) and AdminResponse::success(reqseqno, str, code)
unfoldable pub error_response : Bytes → ℕ → Bytes → AdminResponse
error_response reqseqno errorcode errorstr =
    with_items
      (λ xs.
        in_child body (formatreply_string errorstr) (set_pending false (add_rescode errorcode xs)))
      (new_response reqseqno)

unfoldable pub success : Bytes → Bytes → ℕ → AdminResponse
success reqseqno str code =
    with_items
      (λ xs. in_child body (formatreply_string str) (set_pending false (add_rescode code xs)))
      (new_response reqseqno)

-- AdminResponse::error(reqseqno, errorcode)
unfoldable pub error_response_code : Bytes → ℕ → AdminResponse
error_response_code reqseqno errorcode =
    error_response reqseqno errorcode (codes "Admin failed, error code " ++ decimal errorcode)

-- TableBuilder: m_columns, m_row_count and the body, in which m_tabledescr and m_tableupdate stand
pub record TableBuilder : Type 0 where
  pub columns : List Bytes
  pub row_count : ℕ
  pub body_items : Items

abbrev pub in_tabledescr : (Items → Items) → Items → Items
in_tabledescr f = in_child respdata (in_child (codes "tabledescr") f)

abbrev pub in_tableupdate : (Items → Items) → Items → Items
in_tableupdate f = in_child respdata (in_child (codes "tableupdate") f)

unfoldable pub table_builder : Items → TableBuilder
table_builder b = record {
  columns = [];
  row_count = 0;
  body_items = put_field resptype (codes "table") (
      put_child_at (respdata ∷ codes "tableupdate" ∷ [])
        (put_child_at (respdata ∷ codes "tabledescr" ∷ []) b));
}

abbrev pub put_columns : ℕ → List Bytes → Items → Items
put_columns i [] c = c
put_columns i (n ∷ ns) c =
    put_columns (i + 1) ns (in_child (codes "msg_" ++ decimal i) (put_field (codes "colname") n) c)

-- set_columns(cols): the container of columns is cleared first.
unfoldable pub set_columns : List Bytes → TableBuilder → TableBuilder
set_columns cols t = record t {
  columns = cols;
  body_items =
      in_tabledescr
        (in_child (codes "columns")
          (λ c. put_columns 0 cols (put_field (codes "msgcount") (decimal (length cols)) nil)))
        t.body_items;
}

-- The loop over the columns and the values, to the end of the shorter
unfoldable pub put_values : List Bytes → List Bytes → Items → Items
put_values [] vs r = r
put_values (c ∷ cs) [] r = r
put_values (c ∷ cs) (v ∷ vs) r = put_values cs vs (put_field c v r)

-- add_row(rowkey, values)
unfoldable pub builder_row : Bytes → List Bytes → TableBuilder → TableBuilder
builder_row rowkey values t = record t {
  row_count = t.row_count + 1;
  body_items =
      in_tableupdate
        (λ u.
          in_child (row_name t.row_count)
            (λ r. put_values t.columns values (put_field (codes "RowKey") rowkey r))
            (put_field (codes "rows") (decimal (t.row_count + 1)) u))
        t.body_items;
}

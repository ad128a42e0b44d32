-- ===== src/Admin/Request.antt =====
-- AdminRequest of libexio/AdminCommand.cc, and the request that src/admin.cc builds. atoi of the C
-- library, converted to size_t, is a parameter.
use exio.Prelude.{ℕ, zero, suc, ◌+◌, Option, none, some, List, [], ◌∷◌, ◌++◌, Bytes, codes, length}
use exio.Error.{Error, Result, ok, err, ◌>>=◌, missing_head, missing_body, missing_argument}
use exio.SamBuffer.Decimal.{decimal}
use exio.Sam.Container.{Items, nil, TxMessage, find_field, find_child, put_field}
use exio.Sam.Path.{Qname, find_field_at, put_field_at}
use exio.Session.{value_or}
use exio.Admin.Reply.{head, body, qn_head_reqseqno, in_child}

abbrev pub args_count : Bytes
args_count = codes "args_COUNT"

abbrev pub args_name : ℕ → Bytes
args_name i = codes "args_" ++ decimal i

abbrev pub qn_command : Qname
qn_command = head ∷ codes "command" ∷ []

abbrev pub msg_request : Bytes
msg_request = codes "request"

-- msg, id, m_args and reqseqno; head and body point into msg
pub record AdminRequest : Type 0 where
  pub msg : TxMessage
  pub id : ℕ
  pub args : List Bytes
  pub reqseqno : Bytes

abbrev pub or_throw {ℓ} : {A : Type ℓ} → Error → Option A → Result A
or_throw e none = err e
or_throw e (some a) = ok a

-- The loop over the arguments, from `i` on
unfoldable pub args_loop : Items → ℕ → ℕ → Result (List Bytes)
args_loop b i zero = ok []
args_loop b i (suc n) =
    let rest = args_loop b (i + 1) n in
    or_throw missing_argument (find_field (args_name i) b) >>= λ v. rest >>= λ vs. ok (v ∷ vs)

unfoldable pub read_args : (Bytes → ℕ) → Items → Result (List Bytes)
read_args atoi b = elim (find_field args_count b) [ none ↦ ok [] | some v ↦ args_loop b 0 (atoi v) ]

-- AdminRequest(msg, id, interface), which calls init_args_ptrs
unfoldable pub new_request : (Bytes → ℕ) → TxMessage → ℕ → Result AdminRequest
new_request atoi msg id = do
  h ← or_throw missing_head (find_child head msg.items)
  b ← or_throw missing_body (find_child body msg.items)
  args ← read_args atoi b
  ok (record {
    msg = msg;
    id = id;
    args = args;
    reqseqno = value_or [] (find_field_at qn_head_reqseqno msg.items);
  })

-- src/admin.cc: add_arguments, its loop first
unfoldable pub put_args : ℕ → List Bytes → Items → Items
put_args i [] c = c
put_args i (a ∷ more) c = put_args (i + 1) more (put_field (args_name i) a c)

unfoldable pub add_arguments : List Bytes → Items → Items
add_arguments args c = put_args 0 args (put_field args_count (decimal (length args)) c)

-- The request for a command. `dest` is the address and the port.
unfoldable pub command_request : Bytes → List Bytes → Bytes → Bytes → Bytes → TxMessage
command_request cmd cmdargs dest serviceid user =
    let fill : Items → Items = λ h. put_field (codes "reqseqno") (codes "0") (
      put_field (codes "user") user
        (put_field (codes "source") serviceid (put_field (codes "dest") dest h))) in
    let headed : Items = in_child head fill (put_field_at qn_command cmd nil) in
    let with_command : Items → Items =
      λ b. add_arguments cmdargs (put_field (codes "command") cmd b) in
    record { root = record { name = msg_request; items = in_child body with_command headed } }

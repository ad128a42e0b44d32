-- ===== src/Admin/Dispatch.antt =====
-- AdminCommand, m_admins, and handle_admin_request of libexio/AdminInterfaceImpl.cc. What an admin does is
-- a function on a state, and may end in an exception, whose text it gives. In handle_admin_request the
-- state is the session that is answered, which the admin may send to or close, and the rest of the
-- application. Log output is left out.
use exio.Prelude.{
  ℕ, ◌+◌, true, not, ◌&&◌, Option, none, some, [], ◌∷◌, ◌++◌, Bytes, codes, if◌then◌else◌, str_eq,
}
use exio.Dict.{Dict, lookup, insert}
use exio.Error.{Error, ok, err}
use exio.SamBuffer.Decimal.{decimal}
use exio.Sam.Container.{Items, nil, TxMessage, put_field, put_child}
use exio.Sam.Path.{Qname, find_field_at, put_field_at, check_field_at}
use exio.Session.{AdminSession, enqueue_to_send, close, value_or, msg_logon}
use exio.Admin.Reply.{
  AdminResponse, head, body, qn_head_reqseqno, msg_response, has_pending, with_items,
  error_response, error_code_str, in_child,
}
use exio.Admin.Request.{AdminRequest, new_request, qn_command, msg_request}

-- How an invocation ends: a response, an AdminError, another std::exception, or something else thrown
pub data Outcome : Type 0 where
  replied : AdminResponse → Outcome
  failed : ℕ → Bytes → Outcome
  raised : Bytes → Outcome
  unknown : Outcome

-- m_name, m_shorthelp, m_longhelp, m_attrs, m_target
pub record AdminCommand (W : Type 0) : Type 0 where
  pub name : Bytes
  pub shorthelp : Bytes
  pub longhelp : Bytes
  pub attrs : Dict Bytes
  pub target : AdminRequest → W → Outcome × W

abbrev pub err_unknown : ℕ
err_unknown = 1

abbrev pub err_admin_not_found : ℕ
err_admin_not_found = 2

-- admin_add(ac): std::map::insert keeps the old entry.
unfoldable pub admin_add :
    {W : Type 0} → AdminCommand W → Dict (AdminCommand W) → Dict (AdminCommand W)
admin_add ac m = elim (lookup ac.name m) [ some old ↦ m | none ↦ insert ac.name ac m ]

-- admin_find(name)
unfoldable pub admin_find : {W : Type 0} → Bytes → Dict (AdminCommand W) → Option (AdminCommand W)
admin_find name m = lookup name m

-- A field that is there and not empty
abbrev pub given : Option Bytes → Option Bytes
given none = none
given (some []) = none
given (some (x ∷ xs)) = some (x ∷ xs)

abbrev pub first_given : Option Bytes → Option Bytes → Option Bytes
first_given (some v) o = some v
first_given none o = o

-- The name of the command: head.command, or body.command
unfoldable pub command_name : Items → Option Bytes
command_name xs =
    first_given (given (find_field_at qn_command xs))
      (given (find_field_at (body ∷ codes "command" ∷ []) xs))

abbrev pub assigned : AdminResponse → AdminResponse
assigned r = with_items (λ xs. put_child body (put_child head xs)) r

-- AdminResponse's operator= makes the head and the body where they are missing; an error response has
-- both. The handlers of the exceptions
unfoldable pub respond : Bytes → Outcome → AdminResponse
respond reqseqno (replied r) = assigned r
respond reqseqno (failed code text) = error_response reqseqno code text
respond reqseqno (raised text) = error_response reqseqno err_admin_not_found text
respond reqseqno unknown = error_response reqseqno err_unknown (codes "unknown admin error")

-- AdminError(code)
abbrev pub admin_error : ℕ → Outcome
admin_error code = failed code (error_code_str code)

-- The part of the try block behind the name: admin_find, the AdminRequest, and the call
unfoldable pub invoke :
    {W : Type 0}
    → (Bytes → ℕ)
    → (Error → Bytes)
    → Dict (AdminCommand W)
    → TxMessage
    → ℕ
    → Option Bytes
    → W
    → Outcome × W
invoke atoi what admins reqmsg id none w = (admin_error err_admin_not_found, w)
invoke atoi what admins reqmsg id (some name) w = elim (admin_find name admins) [
  | none ↦ (admin_error err_admin_not_found, w)
  | some ac ↦ elim (new_request atoi reqmsg id) [
    | err e ↦ (raised (what e), w)
    | ok req ↦ ac.target req w
  ]
]

-- `resp` behind the try block and its handlers
unfoldable pub answer :
    {W : Type 0}
    → (Bytes → ℕ)
    → (Error → Bytes)
    → Dict (AdminCommand W)
    → TxMessage
    → ℕ
    → W
    → AdminResponse × W
answer atoi what admins reqmsg id w =
    let reqseqno = value_or [] (find_field_at qn_head_reqseqno reqmsg.items) in
    let r = invoke atoi what admins reqmsg id (command_name reqmsg.items) w in
    (respond reqseqno r.0, r.1)

abbrev pub qn_msgtype : Qname
qn_msgtype = head ∷ codes "msgtype" ∷ []

-- The response with its type, or, if that cannot be enqueued, a stock error message
unfoldable pub send_response : Bytes → AdminResponse → AdminSession → AdminSession
send_response reqseqno resp s =
    let r = enqueue_to_send resp.msg s in
    if r.0
    then (enqueue_to_send (error_response reqseqno err_unknown (codes "enqueue failed")).msg r.1).1
    else r.1

abbrev pub typed : AdminResponse → AdminResponse
typed resp = with_items (put_field_at qn_msgtype msg_response) resp

-- The close of a session behind a response that is the last
unfoldable pub conclude : AdminResponse → AdminSession → AdminSession
conclude resp s = if not (has_pending resp.msg.items) && s.autoclose then close s else s

-- handle_admin_request from `if (resp.send)` on
unfoldable pub finish : Bytes → AdminResponse → AdminSession → AdminSession
finish reqseqno resp s =
    if resp.send
    then conclude (typed resp) (send_response reqseqno (typed resp) s)
    else conclude resp s

-- handle_admin_request(reqmsg, session)
unfoldable pub handle_admin_request :
    {W : Type 0}
    → (Bytes → ℕ)
    → (Error → Bytes)
    → Dict (AdminCommand (AdminSession × W))
    → TxMessage
    → AdminSession × W
    → AdminSession × W
handle_admin_request atoi what admins reqmsg (s, w) =
    let reqseqno = value_or [] (find_field_at qn_head_reqseqno reqmsg.items) in
    let r = answer atoi what admins reqmsg s.id (s, w) in (finish reqseqno r.0 r.1.0, r.1.1)

-- serialise_admins(msg): its loops over the attributes and the admins
unfoldable pub put_attrs : Dict Bytes → Items → Items
put_attrs [] c = c
put_attrs ((n, v) ∷ m) c = put_attrs m (put_field n v c)

unfoldable pub put_admins : {W : Type 0} → ℕ → Dict (AdminCommand W) → Items → Items
put_admins i [] c = put_field (codes "admincount") (decimal i) c
put_admins i ((n, ac) ∷ m) c =
    let box : Items → Items = λ b. put_attrs ac.attrs (
      put_field (codes "long") ac.longhelp
        (put_field (codes "short") ac.shorthelp (put_field (codes "name") ac.name b))) in
    put_admins (i + 1) m (in_child (codes "admin_" ++ decimal i) box c)

unfoldable pub serialise_admins : {W : Type 0} → Dict (AdminCommand W) → TxMessage
serialise_admins admins =
    let headed : Items = put_field_at qn_msgtype (codes "admindescr") nil in
    record {
      root = record {
        name = codes "admindescr";
        items = in_child body (in_child (codes "adminset") (put_admins 0 admins)) headed;
      };
    }

-- handle_logon_msg(logonmsg, session). subscribe_all of the monitor is a function on the session,
-- to which it sends the tables, and the rest of the state. send_one finds the session itself, whose slot is used and which is open.
unfoldable pub handle_logon_msg :
    {W : Type 0}
    → (ℕ → AdminSession × W → AdminSession × W)
    → Dict (AdminCommand (AdminSession × W))
    → TxMessage
    → AdminSession × W
    → AdminSession × W
handle_logon_msg subscribe_all admins logonmsg (s, w) =
    let quiet = check_field_at (head ∷ codes "noautosub" ∷ []) (codes "1") logonmsg.items in
    let (s₁, w₁) = if quiet then (s, w) else subscribe_all s.id (s, w) in
    let leaving = check_field_at (head ∷ codes "autoclose" ∷ []) (codes "1") logonmsg.items in
    let s' = if leaving then record s₁ { autoclose = true } else s₁ in
    (if s'.session_valid then (enqueue_to_send (serialise_admins admins) s').1 else s', w₁)

-- session_msg_received(reqmsg, session): the listener of a session
unfoldable pub session_msg_received :
    {W : Type 0}
    → (Bytes → ℕ)
    → (Error → Bytes)
    → (ℕ → AdminSession × W → AdminSession × W)
    → Dict (AdminCommand (AdminSession × W))
    → TxMessage
    → AdminSession × W
    → AdminSession × W
session_msg_received atoi what subscribe_all admins reqmsg r =
    if str_eq reqmsg.name msg_logon
    then handle_logon_msg subscribe_all admins reqmsg r
    else if str_eq reqmsg.name msg_request
    then handle_admin_request atoi what admins reqmsg r
    else r

-- ===== src/Session.antt =====
-- AdminSession, libexio/AdminSession.cc and libexio/exio/AdminSession.h, over the outbound half of its
-- Client. A listener is a function on the session and on a state of its own, W. Log output is left
-- out. The text of an exception, what(), is a parameter.
pub mod Enqueue
pub mod Logon
pub mod Delivery
mod Tests
use exio.Prelude.{
  ℕ, ◌+◌, ◌-◌, Bool, true, false, not, ◌&&◌, ◌||◌, Option, none, some, List, [], ◌∷◌, Bytes, codes,
  take, leb, ◌==◌, if◌then◌else◌, str_eq,
}
use exio.Error.{Error, Result, ok, err, null_pointer}
use exio.Sam.Container.{nil, TxMessage, put_field, find_field}
use exio.Sam.Path.{Qname, find_field_at, put_field_at}
use exio.Sam.Encode.{encode_msg}
use exio.SamBuffer.Defs.{new_buffer, contents}
use exio.Client.Outbound.{Outbound, QueueResult, queued, overflowed, refused, queue}

-- m_id, m_serviceid, m_logon_received, m_session_valid, m_username, m_autoclose, m_hb_intvl, m_hb_last,
-- m_io_handle, and whether m_listener is set
pub record AdminSession : Type 0 where
  pub id : ℕ
  pub serviceid : Bytes
  pub logon_received : Bool
  pub session_valid : Bool
  pub username : Bytes
  pub autoclose : Bool
  pub hb_intvl : ℕ
  pub hb_last : ℕ
  pub io_handle : Option Outbound
  pub has_listener : Bool

-- AdminSession(appsvc, fd, listener, id) at the time `now`
unfoldable pub new_session : ℕ → ℕ → AdminSession
new_session id now = record {
  id = id;
  serviceid = [];
  logon_received = false;
  session_valid = true;
  username = [];
  autoclose = false;
  hb_intvl = 30;
  hb_last = now;
  io_handle = none;
  has_listener = true;
}

-- io_init(client)
unfoldable pub io_init : Outbound → AdminSession → AdminSession
io_init client s = record s { io_handle = some client }

-- The value -1 alone is a failure.
abbrev pub is_failure : QueueResult → Bool
is_failure overflowed = true
is_failure _ = false

-- m_io_handle->queue(qi.buf(), qi.size, false)
unfoldable pub queue_bytes : Bytes → AdminSession → Bool × AdminSession
queue_bytes bytes s = elim s.io_handle [
  | none ↦ (true, s)
  | some c ↦ let r = queue bytes false c in (is_failure r.0, record s { io_handle = some r.1 })
]

-- enqueueToSend(msg): is it a failure? An exception of the encoder is caught, and is one.
unfoldable pub enqueue_to_send : TxMessage → AdminSession → Bool × AdminSession
unfolding queue_bytes
enqueue_to_send msg s =
    if not s.session_valid then (true, s) else elim (encode_msg msg (new_buffer 512)) [
      | err e ↦ (true, s)
      | ok (sb, size) ↦ queue_bytes (take size (contents sb)) s
    ]

-- close()
unfoldable pub close : AdminSession → AdminSession
close s = elim s.io_handle [ none ↦ s | some c ↦ record s { io_handle = some (queue [] true c).1 } ]

abbrev pub msg_logon : Bytes
msg_logon = codes "logon"

-- id::QN_serviceid, id::QN_head_user
abbrev pub qn_serviceid : Qname
qn_serviceid = codes "head" ∷ codes "serviceid" ∷ []

abbrev pub qn_head_user : Qname
qn_head_user = codes "head" ∷ codes "user" ∷ []

abbrev pub value_or : Bytes → Option Bytes → Bytes
value_or v none = v
value_or v (some w) = w

-- The first logon of a session
unfoldable pub take_logon : TxMessage → AdminSession → AdminSession
take_logon msg s = record s {
  logon_received = true;
  serviceid = value_or s.serviceid (find_field_at qn_serviceid msg.items);
  username = value_or s.username (find_field_at qn_head_user msg.items);
}

abbrev pub Listener : Type 0 → Type 0
Listener W = TxMessage → AdminSession × W → AdminSession × W

-- What the session itself does with a message: the branch on its type
unfoldable pub note_logon : TxMessage → AdminSession → AdminSession
note_logon msg s = if str_eq msg.name msg_logon && not s.logon_received then take_logon msg s else s

-- io_onmsg(msg)
unfoldable pub io_onmsg :
    {W : Type 0} → Listener W → TxMessage → AdminSession × W → AdminSession × W
io_onmsg session_msg_received msg (s, w) =
    if not s.session_valid
    then (s, w)
    else if s.has_listener
    then session_msg_received msg (note_logon msg s, w)
    else (note_logon msg s, w)

-- The answer of process_input to a protocol error
unfoldable pub protocol_error :
    {W : Type 0} → (Error → Bytes) → Error → AdminSession × W → AdminSession × W
unfolding enqueue_to_send close
protocol_error what e (s, w) =
    let badmsg : TxMessage = record {
      root = record { name = codes "badmsg"; items = put_field (codes "msg") (what e) nil };
    } in
    (close (enqueue_to_send badmsg s).1, w)

-- process_close(client); a listener that is NULL is used all the same.
unfoldable pub process_close :
    {W : Type 0}
    → (AdminSession × W → AdminSession × W)
    → AdminSession × W
    → Result (AdminSession × W)
process_close session_closed (s, w) =
    let r = session_closed (record s { session_valid = false }, w) in
    if s.has_listener then ok (record r.0 { has_listener = false }, r.1) else err null_pointer

unfoldable pub io_open : Outbound → Bool
io_open c = not c.io_closed

-- safe_to_delete()
unfoldable pub safe_to_delete : AdminSession → Bool
safe_to_delete s =
    not s.session_valid && elim s.io_handle [ some c ↦ not (io_open c) | none ↦ true ]

abbrev pub distance : ℕ → ℕ → ℕ
distance m n = (m - n) + (n - m)

-- The message of a heartbeat, with QN_testrequest
abbrev pub heartbeat : TxMessage
heartbeat = record {
  root = record {
    name = codes "heartbeat";
    items = put_field_at (codes "head" ∷ codes "testrequest" ∷ []) (codes "1") nil;
  };
}

-- housekeeping() at the time `now`
unfoldable pub housekeeping : ℕ → AdminSession → AdminSession
unfolding io_open
housekeeping now s =
    let alive : Bool = elim s.io_handle [ some c ↦ io_open c | none ↦ false ] in
    if s.hb_intvl == 0 || not alive
    then s
    else if leb s.hb_intvl (distance now s.hb_last)
    then record (enqueue_to_send heartbeat s).1 { hb_last = now }
    else s

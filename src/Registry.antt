-- ===== src/Registry.antt =====
-- The registry of sessions: the parts of AdminInterfaceImpl, libexio/AdminInterfaceImpl.cc, that keep
-- m_sessions, m_expired_sessions and m_ext_sessions. Sessions are objects of a heap, known by a
-- pointer; a slot of the registry and the lists hold pointers. An index outside of the array and the
-- use of a deleted object are errors. Each function holds its lock, and is a step.
pub mod Heap
pub mod Search
pub mod Invariant
pub mod Create
pub mod Welcome
pub mod Close
pub mod External
pub mod Calls
mod Tests
use exio.Prelude.{
  ℕ, zero, suc, ◌+◌, Bool, true, false, not, ◌&&◌, Option, none, some, List, [], ◌∷◌, ◌++◌, Bytes,
  codes, get_elem?, replicate, ltb, ◌==◌, if◌then◌else◌,
}
use exio.Error.{Result, ok, err, ◌>>=◌, out_of_bounds, null_pointer}
use exio.Sam.Container.{nil, TxMessage}
use exio.Sam.Path.{put_field_at}
use exio.Client.Outbound.{new_outbound}
use exio.Session.{
  AdminSession, new_session, io_init, enqueue_to_send, close, housekeeping, safe_to_delete,
  msg_logon, qn_serviceid,
}

-- MAX_SESSIONS, SESSION_REG_SIZE
abbrev pub max_sessions : ℕ
max_sessions = 2000

abbrev pub session_reg_size : ℕ
session_reg_size = 2001

-- The objects by their pointers; none where nothing lives, or lives no more
abbrev pub Heap : Type 0
Heap = ℕ → Option AdminSession

abbrev pub set_object : ℕ → Option AdminSession → Heap → Heap
set_object p o h q = if p == q then o else h q

unfoldable pub deref : ℕ → Heap → Result AdminSession
deref p h = elim (h p) [ some a ↦ ok a | none ↦ err null_pointer ]

-- m_sessions.createdCount, .reg and .next, m_expired_sessions.items, m_ext_sessions.items, and the heap
-- with the next pointer that `new` gives
pub record Sessions : Type 0 where
  pub created_count : ℕ
  pub reg : List (Option ℕ)
  pub next : ℕ
  pub expired : List ℕ
  pub ext : List ℕ
  pub object : Heap
  pub fresh : ℕ

-- The constructor: no slot is used.
unfoldable pub new_sessions : Sessions
new_sessions = record {
  created_count = 0;
  reg = replicate session_reg_size none;
  next = 1;
  expired = [];
  ext = [];
  object = λ p. none;
  fresh = 0;
}

-- m_sessions.reg[i]
unfoldable pub slot : ℕ → List (Option ℕ) → Result (Option ℕ)
slot i reg = elim (get_elem? reg i) [ some o ↦ ok o | none ↦ err out_of_bounds ]

abbrev pub used : Option ℕ → Bool
used (some p) = true
used none = false

-- m_sessions.reg[i].ptr = o
unfoldable pub set_slot : ℕ → Option ℕ → List (Option ℕ) → List (Option ℕ)
set_slot i o [] = []
set_slot zero o (x ∷ reg) = o ∷ reg
set_slot (suc i) o (x ∷ reg) = x ∷ set_slot i o reg

-- if (++m_sessions.next > MAX_SESSIONS) m_sessions.next=0;
unfoldable pub advance : ℕ → ℕ
advance next = if ltb max_sessions (next + 1) then 0 else next + 1

-- The search of createNewSession for a free slot, in at most that many rounds: `next` behind it, and
-- session_index, 0 if there is none
unfoldable pub find_slot : ℕ → List (Option ℕ) → ℕ → Result (ℕ × ℕ)
find_slot zero reg next = ok (next, 0)
find_slot (suc i) reg next =
    let rest = find_slot i reg (advance next) in
    slot next reg >>= λ o. if not (next == 0) && not (used o) then ok (advance next, next) else rest

-- The logon message for a new connection
abbrev pub logon : Bytes → TxMessage
logon serviceid = record {
  root = record { name = msg_logon; items = put_field_at qn_serviceid serviceid nil };
}

-- The object of a new session, behind init_session_io and its logon
unfoldable pub welcome : Bytes → ℕ → ℕ → AdminSession
welcome serviceid index now =
    (enqueue_to_send (logon serviceid) (io_init new_outbound (new_session index now))).1

-- createNewSession(fd) at the time `now`: the slot, or none if it throws "no more sessions allowed"
unfoldable pub create_new_session : Bytes → ℕ → Sessions → Result (Sessions × Option ℕ)
create_new_session serviceid now s = do
  (next, index) ← find_slot session_reg_size s.reg s.next
  if index == 0
      then ok (record s { next = next }, none)
      else ok (
        record s {
          next = next;
          reg = set_slot index (some s.fresh) s.reg;
          created_count = s.created_count + 1;
          object = set_object s.fresh (some (welcome serviceid index now)) s.object;
          fresh = s.fresh + 1;
        },
        some index,
      )

-- session_closed(session), behind the removal of its subscriptions: the slot of its id is freed.
unfoldable pub session_closed : ℕ → Sessions → Result Sessions
session_closed p s = do
  a ← deref p s.object
  o ← slot a.id s.reg
  ok (record s { reg = set_slot a.id none s.reg; expired = s.expired ++ p ∷ [] })

-- The loop of session_cleanup over m_expired_sessions: delete_later and the heap behind it
unfoldable pub cleanup_loop : List ℕ → List ℕ → Heap → Result (List ℕ × Heap)
cleanup_loop [] later h = ok (later, h)
cleanup_loop (p ∷ ps) later h = deref p h >>= λ a.
    if safe_to_delete a
    then cleanup_loop ps later (set_object p none h)
    else cleanup_loop ps (later ++ p ∷ []) h

-- session_cleanup()
unfoldable pub session_cleanup : Sessions → Result Sessions
session_cleanup s = do
  (later, h) ← cleanup_loop s.expired [] s.object
  ok (record s { expired = later; object = h })

-- An operation on the session of a used slot
unfoldable pub at_slot : (AdminSession → AdminSession) → Option ℕ → Heap → Result Heap
at_slot f none h = ok h
at_slot f (some p) h = deref p h >>= λ a. ok (set_object p (some (f a)) h)

-- for (size_t i = 0; i < SESSION_REG_SIZE; ++i), the used slots of it
unfoldable pub each : (AdminSession → AdminSession) → List (Option ℕ) → Heap → Result Heap
each f [] h = ok h
each f (o ∷ reg) h = at_slot f o h >>= λ h'. each f reg h'

-- if ( session->is_open() ) session->enqueueToSend( msg ), and the like
abbrev pub if_open : (AdminSession → AdminSession) → AdminSession → AdminSession
if_open f a = if a.session_valid then f a else a

abbrev pub send : TxMessage → AdminSession → AdminSession
send msg a = (enqueue_to_send msg a).1

-- send_one(msg, id)
unfoldable pub send_one : TxMessage → ℕ → Sessions → Result Sessions
send_one msg id s = do
  o ← slot id s.reg
  h ← at_slot (if_open (send msg)) o s.object
  ok (record s { object = h })

-- send_all(msg)
unfoldable pub send_all : TxMessage → Sessions → Result Sessions
send_all msg s = do h ← each (if_open (send msg)) s.reg s.object; ok (record s { object = h })

-- session_stop_one(id), session_stop_all()
unfoldable pub session_stop_one : ℕ → Sessions → Result Sessions
session_stop_one id s = do
  o ← slot id s.reg
  h ← at_slot close o s.object
  ok (record s { object = h })

unfoldable pub session_stop_all : Sessions → Result Sessions
session_stop_all s = do h ← each close s.reg s.object; ok (record s { object = h })

-- session_count(), session_exists(id), session_open(id), get_session(id)
unfoldable pub session_count : List (Option ℕ) → ℕ
session_count [] = 0
session_count (o ∷ reg) = (if used o then 1 else 0) + session_count reg

unfoldable pub session_exists : ℕ → Sessions → Result Bool
session_exists id s = do o ← slot id s.reg; ok (used o)

unfoldable pub session_open : ℕ → Sessions → Result Bool
session_open id s = do
  o ← slot id s.reg
  elim o [ none ↦ ok false | some p ↦ deref p s.object >>= λ a. ok a.session_valid ]

unfoldable pub get_session : ℕ → Sessions → Result (Option ℕ)
get_session id s = slot id s.reg

-- session_list()
unfoldable pub session_list : List (Option ℕ) → Heap → Result (List ℕ)
session_list [] h = ok []
session_list (none ∷ reg) h = session_list reg h
session_list (some p ∷ reg) h = do a ← deref p h; ids ← session_list reg h; ok (a.id ∷ ids)

-- register_ext_session(session), deregister_ext_session(session)
unfoldable pub register_ext_session : ℕ → Sessions → Result Sessions
register_ext_session p s = do
  a ← deref p s.object
  ok (record s {
    object = set_object p (some (io_init new_outbound a)) s.object;
    ext = s.ext ++ p ∷ [];
  })

abbrev pub remove_first : ℕ → List ℕ → List ℕ
remove_first p [] = []
remove_first p (q ∷ qs) = let rest = remove_first p qs in if q == p then qs else q ∷ rest

unfoldable pub deregister_ext_session : ℕ → Sessions → Sessions
deregister_ext_session p s = record s { ext = remove_first p s.ext }

-- The loop of housekeeping() over the external sessions
unfoldable pub each_ext : (AdminSession → AdminSession) → List ℕ → Heap → Result Heap
each_ext f [] h = ok h
each_ext f (p ∷ ps) h = deref p h >>= λ a. each_ext f ps (set_object p (some (f a)) h)

-- AdminInterfaceImpl::housekeeping() at the time `now`
unfoldable pub keep_house : ℕ → Sessions → Result Sessions
keep_house now s = do
  s' ← session_cleanup s
  h ← each (if_open (housekeeping now)) s'.reg s'.object
  h' ← each_ext (housekeeping now) s'.ext h
  ok (record s' { object = h' })

-- ===== src/Registry/Welcome.antt =====
-- What a new session is sent: its client carries the logon message.
use exio.Prelude.{
  ℕ, ◌+◌, ◌*◌, ◌≤◌, ◌≡◌, refl, ap, Option, none, some, [], ◌∷◌, Bytes, length, get_elem?, arith,
}
use exio.Error.{ok}
use exio.Sam.Decode.Message.{IsClean}
use exio.Client.Outbound.{Outbound, new_outbound}
use exio.Client.Inbound.Frames.{bytes_of}
use exio.Session.{AdminSession, new_session, io_init}
use exio.Session.Delivery.{Carries, new_outbound-Carries, enqueue_one}
use exio.Registry.{Sessions, max_sessions, welcome, logon, create_new_session, session_count}
use exio.Registry.Invariant.{IsRegistered}
use exio.Registry.Create.{CreateEffect, create_new_session_lem}

-- A session in its first state, but for its client, which carries the logon message and nothing else
pub record Welcomed (serviceid : Bytes) (index now : ℕ) (a : AdminSession) : Type 0 where
  pub client : Outbound
  pub first : a ≡ record (new_session index now) { io_handle = some client }
  pub carries : Carries (logon serviceid ∷ []) client

-- What a call comes to: refused if all slots are used, with nothing changed, or else a slot that was free
abbrev pub Admitted : Bytes → ℕ → Sessions → Sessions → Option ℕ → Type 0
Admitted serviceid now s t none = (t ≡ s) × (session_count s.reg ≡ max_sessions)
Admitted serviceid now s t (some i) =
    (a : AdminSession) × (p : ℕ) × (get_elem? s.reg i ≡ some none)
    × (get_elem? t.reg i ≡ some (some p))
    × (s.object p ≡ none)
    × (t.object p ≡ some a)
    × (a.id ≡ i)
    × Welcomed serviceid i now a
    × (session_count t.reg ≡ session_count s.reg + 1)

fits : (n : ℕ) → n ≤ 100 * 1024 * 1024 → new_outbound.pending + n ≤ new_outbound.out_pend_max
unfolding new_outbound
fits n h = omega arith

module _ (serviceid : Bytes) (now : ℕ) (cl : IsClean (logon serviceid))
    (room : length (bytes_of (logon serviceid)) ≤ 100 * 1024 * 1024) where
  welcome_lem : (index : ℕ) → Welcomed serviceid index now (welcome serviceid index now)
  unfolding welcome io_init new_session
  welcome_lem index =
      let s = io_init new_outbound (new_session index now) in
      let (d, e, w, _, _) =
        enqueue_one [] (logon serviceid) s new_outbound refl refl new_outbound-Carries cl
          (fits _ room) in
      record { client = d; first = ap (λ r. r.1) e; carries = w }

  admitted :
      (s t : Sessions) (o : Option ℕ)
      → IsRegistered s
      → CreateEffect serviceid now s t o
      → Admitted serviceid now s t o
  unfolding new_session
  admitted s t none v e = e
  admitted s t (some i) v e =
      let w = welcome_lem i in
      (
        welcome serviceid i now,
        s.fresh,
        e.2,
        e.3,
        v.unborn s.fresh (omega arith),
        e.4,
        ap (λ a. a.id) w.first,
        w,
        e.5,
      )

-- createNewSession on a right registry, with a service id whose logon message is a clean message
-- of 100 MB at most: it is refused only if all 2000 slots are used, and then nothing has
-- changed; or else a slot that was free now holds a new session with that number as its id, in
-- its first state, whose client has counters that are right, accepts more, and carries the bytes
-- of the logon message and no others; one slot more is used, and the registry is right.
pub new_session_lem :
    (serviceid : Bytes) (now : ℕ) (s : Sessions)
    → IsClean (logon serviceid)
    → length (bytes_of (logon serviceid)) ≤ 100 * 1024 * 1024
    → IsRegistered s
    → (t : Sessions) × (o : Option ℕ) × (create_new_session serviceid now s ≡ ok (t, o))
      × IsRegistered t
      × Admitted serviceid now s t o
new_session_lem serviceid now s cl room v =
    let (t, o, e, w, f) = create_new_session_lem serviceid now s v in
    (t, o, e, w, admitted serviceid now cl room s t o v f)

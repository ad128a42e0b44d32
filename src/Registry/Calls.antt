-- ===== src/Registry/Calls.antt =====
-- Sequences of calls on the registry: none of them uses a session that is deleted, and none fails.
use exio.Prelude.{ℕ, ◌≤◌, ◌≡◌, refl, Option, none, some, List, [], ◌∷◌, Bytes, get_elem?, arith}
use exio.Error.{Result, ok, ◌>>=◌}
use exio.Sam.Container.{TxMessage}
use exio.Session.{AdminSession, close}
use exio.Registry.{
  Heap, Sessions, max_sessions, set_object, slot, at_slot, if_open, send, create_new_session,
  session_closed, session_cleanup, send_one, send_all, session_stop_one, session_stop_all,
  keep_house, register_ext_session, deregister_ext_session,
}
use exio.Registry.Heap.{SameIds-set_object, AllLive, slot_lt, at_slot_lem, each_lem}
use exio.Registry.Invariant.{
  IsRegistered, IsRegistered-SameIds, IsRegistered-AllLive, send-id, close-id, if_open-id,
}
use exio.Registry.Create.{create_new_session_lem}
use exio.Registry.Close.{session_closed_lem, session_cleanup_lem}
use exio.Registry.External.{
  allocate, register_ext_session_lem, deregister-IsRegistered, keep_house_lem,
}

-- A call from outside. `closes` is the callback of the session in a slot, `changes` is whatever its IO
-- and its messages do to a session that lives, whose number stays.
pub data Call : Type 0 where
  creates : Bytes → ℕ → Call
  closes : ℕ → Call
  changes : ℕ → (AdminSession → AdminSession) → Call
  cleans_up : Call
  sends_one : TxMessage → ℕ → Call
  sends_all : TxMessage → Call
  stops_one : ℕ → Call
  stops_all : Call
  keeps_house : ℕ → Call
  registers : AdminSession → Call
  deregisters : ℕ → Call

abbrev pub renumber : (AdminSession → AdminSession) → AdminSession → AdminSession
renumber f a = record (f a) { id = a.id }

abbrev pub change : Option AdminSession → ℕ → (AdminSession → AdminSession) → Sessions → Sessions
change none p f s = s
change (some a) p f s = record s { object = set_object p (some (renumber f a)) s.object }

abbrev pub close_slot : Option ℕ → Sessions → Result Sessions
close_slot none s = ok s
close_slot (some p) s = session_closed p s

unfoldable pub run_call : Call → Sessions → Result Sessions
run_call (creates serviceid now) s = create_new_session serviceid now s >>= λ r. ok r.0
run_call (closes i) s = slot i s.reg >>= λ o. close_slot o s
run_call (changes p f) s = ok (change (s.object p) p f s)
run_call cleans_up s = session_cleanup s
run_call (sends_one msg i) s = send_one msg i s
run_call (sends_all msg) s = send_all msg s
run_call (stops_one i) s = session_stop_one i s
run_call stops_all s = session_stop_all s
run_call (keeps_house now) s = keep_house now s
run_call (registers a) s = register_ext_session s.fresh (allocate a s)
run_call (deregisters p) s = ok (deregister_ext_session p s)

unfoldable pub run_calls : List Call → Sessions → Result Sessions
run_calls [] s = ok s
run_calls (c ∷ cs) s = run_call c s >>= λ t. run_calls cs t

-- The numbers given are those of slots.
abbrev pub InRange : Call → Type 0
InRange (closes i) = i ≤ max_sessions
InRange (sends_one msg i) = i ≤ max_sessions
InRange (stops_one i) = i ≤ max_sessions
InRange _ = Unit {0}

abbrev pub AllInRange : List Call → Type 0
AllInRange [] = Unit {0}
AllInRange (c ∷ cs) = InRange c × AllInRange cs

abbrev Fine : Result Sessions → Type 0
Fine r = (t : Sessions) × (r ≡ ok t) × IsRegistered t

close_slot_lem :
    (i : ℕ) (o : Option ℕ) (s : Sessions)
    → IsRegistered s
    → get_elem? s.reg i ≡ some o
    → Fine (close_slot o s)
close_slot_lem i none s v e = (s, refl, v)
close_slot_lem i (some p) s v e = let r = session_closed_lem i p s v e in (r.0, r.1, r.2)

change-IsRegistered :
    (o : Option AdminSession) (p : ℕ) (f : AdminSession → AdminSession) (s : Sessions)
    → s.object p ≡ o
    → IsRegistered s
    → IsRegistered (change o p f s)
change-IsRegistered none p f s e v = v
change-IsRegistered (some a) p f s e v =
    IsRegistered-SameIds s _ (SameIds-set_object s.object p a (renumber f a) e refl) v

live_slot :
    (i : ℕ) (o : Option ℕ) (s : Sessions)
    → IsRegistered s
    → get_elem? s.reg i ≡ some o
    → AllLive (o ∷ []) s.object
live_slot i none s v e = tt
live_slot i (some p) s v e = let k = v.known i p e in ((k.0, k.1), tt)

-- An operation on the session of one slot, and on those of all
pub one_slot :
    (f : AdminSession → AdminSession) (i : ℕ) (s : Sessions)
    → ((a : AdminSession) → (f a).id ≡ a.id)
    → i ≤ max_sessions
    → IsRegistered s
    → (o : Option ℕ) × (h : Heap) × (slot i s.reg ≡ ok o)
      × (at_slot f o s.object ≡ ok h)
      × IsRegistered (record s { object = h })
one_slot f i s same le v =
    let n = v.sized in
    let (o, e, g) = slot_lt i s.reg (omega arith) in
    let (h, d, w) = at_slot_lem f same o s.object (live_slot i o s v g) in
    (o, h, e, d, IsRegistered-SameIds s h w v)

pub run_call_lem :
    (c : Call) (s : Sessions)
    → InRange c
    → IsRegistered s
    → (t : Sessions) × (run_call c s ≡ ok t) × IsRegistered t
unfolding run_call send_one send_all session_stop_one session_stop_all
run_call_lem (creates serviceid now) s r v =
    let k = create_new_session_lem serviceid now s v in (k.0, rw k.2 refl, k.3)
run_call_lem (closes i) s r v =
    let n = v.sized in
    let (o, e, g) = slot_lt i s.reg (omega arith) in
    let (t, d, w) = close_slot_lem i o s v g in (t, rw e d, w)
run_call_lem (changes p f) s r v =
    (change (s.object p) p f s, refl, change-IsRegistered (s.object p) p f s refl v)
run_call_lem cleans_up s r v = let k = session_cleanup_lem s v in (k.0, k.1, k.2)
run_call_lem (sends_one msg i) s r v =
    let (o, h, e, d, w) =
      one_slot (if_open (send msg)) i s (λ a. if_open-id (send msg) a (send-id msg a)) r v in
    (_, rw (e, d) refl, w)
run_call_lem (sends_all msg) s r v =
    let (h, e, w) =
      each_lem (if_open (send msg)) (λ a. if_open-id (send msg) a (send-id msg a)) s.reg s.object
        (IsRegistered-AllLive s v) in
    (_, rw e refl, IsRegistered-SameIds s h w v)
run_call_lem (stops_one i) s r v =
    let (o, h, e, d, w) = one_slot close i s close-id r v in (_, rw (e, d) refl, w)
run_call_lem stops_all s r v =
    let (h, e, w) = each_lem close close-id s.reg s.object (IsRegistered-AllLive s v) in
    (_, rw e refl, IsRegistered-SameIds s h w v)
run_call_lem (keeps_house now) s r v = keep_house_lem now s v
run_call_lem (registers a) s r v = register_ext_session_lem a s v
run_call_lem (deregisters p) s r v =
    (deregister_ext_session p s, refl, deregister-IsRegistered p s v)

then_call :
    (c : Call) (cs : List Call) (s t u : Sessions)
    → run_call c s ≡ ok t
    → run_calls cs t ≡ ok u
    → run_calls (c ∷ cs) s ≡ ok u
unfolding run_calls
then_call c cs s t u e d = rw e d

-- Any sequence of calls on the registry whose numbers are those of slots, from a state in which
-- the registry is right, ends without a fault: no call uses a deleted session or an index
-- outside of the array, and the registry is right behind them.
pub run_calls_lem :
    (cs : List Call) (s : Sessions)
    → AllInRange cs
    → IsRegistered s
    → (t : Sessions) × (run_calls cs s ≡ ok t) × IsRegistered t
run_calls_lem [] s r v = (s, unfold run_calls in refl, v)
run_calls_lem (c ∷ cs) s r v =
    let (t, e, w) = run_call_lem c s r.0 v in
    let (u, d, x) = run_calls_lem cs t r.1 w in (u, then_call c cs s t u e d, x)

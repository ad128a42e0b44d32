-- ===== src/Monitor/Publish.antt =====
-- What an update through the Monitor does: the table that is found or created, its row, and the sends.
use exio.Prelude.{
  ℕ, suc, ◌≤◌, ◌≡◌, refl, Bool, true, false, Option, none, some, List, [], ◌∷◌, get_elem?, arith,
  if◌then◌else◌,
}
use exio.Error.{ok}
use exio.Sam.Container.{TxMessage}
use exio.Session.{AdminSession}
use exio.Registry.{
  Heap, Sessions, max_sessions, used, deref, send_one, session_exists, session_list,
}
use exio.Registry.Heap.{slot_lt, get_elem?-length}
use exio.Registry.Invariant.{IsRegistered}
use exio.Monitor.{Watched, copy_subscribers, send_to, send_all_to, serialise_all, publish_update}
use exio.Monitor.Subscriptions.{send_one_lem}

-- Numbers of slots
abbrev pub InSlots : List ℕ → Type 0
InSlots [] = Unit {0}
InSlots (id ∷ ids) = (id ≤ max_sessions) × InSlots ids

session_exists_lem :
    (id : ℕ) (s : Sessions)
    → id ≤ max_sessions
    → IsRegistered s
    → (b : Bool) × (session_exists id s ≡ ok b)
unfolding session_exists
session_exists_lem id s le v =
    let n = v.sized in let (o, e, g) = slot_lt id s.reg (omega arith) in (used o, rw e refl)

keep : Bool → ℕ → List ℕ → List ℕ
keep e id rest = if e then id ∷ rest else rest

keep-InSlots :
    (e : Bool) (id : ℕ) (rest : List ℕ)
    → id ≤ max_sessions
    → InSlots rest
    → InSlots (keep e id rest)
unfolding keep
keep-InSlots true id rest le v = (le, v)
keep-InSlots false id rest le v = v

copied :
    (id : ℕ) (ids rest : List ℕ) (s : Sessions) (e : Bool)
    → session_exists id s ≡ ok e
    → copy_subscribers ids s ≡ ok rest
    → copy_subscribers (id ∷ ids) s ≡ ok (keep e id rest)
unfolding copy_subscribers keep
copied id ids rest s e h k = rw (h, k) refl

copy_subscribers_lem :
    (ids : List ℕ) (s : Sessions)
    → InSlots ids
    → IsRegistered s
    → (subs : List ℕ) × (copy_subscribers ids s ≡ ok subs) × InSlots subs
copy_subscribers_lem [] s u v = ([], unfold copy_subscribers in refl, tt)
copy_subscribers_lem (id ∷ ids) s u v =
    let (e, h) = session_exists_lem id s u.0 v in
    let (rest, k, r) = copy_subscribers_lem ids s u.1 v in
    (keep e id rest, copied id ids rest s e h k, keep-InSlots e id rest u.0 r)

then_to :
    (msg : TxMessage) (id : ℕ) (ids : List ℕ) (s t u : Sessions)
    → send_one msg id s ≡ ok t
    → send_to msg ids t ≡ ok u
    → send_to msg (id ∷ ids) s ≡ ok u
unfolding send_to
then_to msg id ids s t u e d = rw e d

send_to_lem :
    (msg : TxMessage) (ids : List ℕ) (s : Sessions)
    → InSlots ids
    → IsRegistered s
    → (t : Sessions) × (send_to msg ids s ≡ ok t) × IsRegistered t
send_to_lem msg [] s u v = (s, unfold send_to in refl, v)
send_to_lem msg (id ∷ ids) s u v =
    let (t₁, e, v₁) = send_one_lem msg id s u.0 v in
    let (t, d, w) = send_to_lem msg ids t₁ u.1 v₁ in (t, then_to msg id ids s t₁ t e d, w)

then_all_to :
    (m : TxMessage) (ms : List TxMessage) (ids : List ℕ) (s t u : Sessions)
    → send_to m ids s ≡ ok t
    → send_all_to ms ids t ≡ ok u
    → send_all_to (m ∷ ms) ids s ≡ ok u
unfolding send_all_to
then_all_to m ms ids s t u e d = rw e d

send_all_to_lem :
    (ms : List TxMessage) (ids : List ℕ) (s : Sessions)
    → InSlots ids
    → IsRegistered s
    → (t : Sessions) × (send_all_to ms ids s ≡ ok t) × IsRegistered t
send_all_to_lem [] ids s u v = (s, unfold send_all_to in refl, v)
send_all_to_lem (m ∷ ms) ids s u v =
    let (t₁, e, v₁) = send_to_lem m ids s u v in
    let (t, d, w) = send_all_to_lem ms ids t₁ u v₁ in (t, then_all_to m ms ids s t₁ t e d, w)

abbrev pub emptied : Watched → Watched
emptied w = record w { table = record w.table { published = [] } }

-- The sends of a publication do not fail
pub publish_update_lem :
    (w : Watched) (s : Sessions)
    → InSlots w.subscribers
    → IsRegistered s
    → (t : Sessions) × (publish_update w s ≡ ok (emptied w, t)) × IsRegistered t
unfolding publish_update
publish_update_lem w s u v =
    let (subs, e, r) = copy_subscribers_lem w.subscribers s u v in
    let (t, d, x) = send_all_to_lem (serialise_all w.table.published) subs s r v in
    (t, rw (e, d) refl, x)

-- The sessions of a right registry have numbers of slots.
abbrev Numbered : List (Option ℕ) → Heap → Type 0
Numbered reg h =
    (i p : ℕ)
    → get_elem? reg i ≡ some (some p)
    → (a : AdminSession) × (h p ≡ some a) × (a.id ≤ max_sessions)

listed :
    (p : ℕ) (reg : List (Option ℕ)) (h : Heap) (a : AdminSession) (ids : List ℕ)
    → h p ≡ some a
    → session_list reg h ≡ ok ids
    → session_list (some p ∷ reg) h ≡ ok (a.id ∷ ids)
unfolding session_list deref
listed p reg h a ids e d = rw (e, deref) (rw d refl)

list_slots :
    (reg : List (Option ℕ)) (h : Heap)
    → Numbered reg h
    → (ids : List ℕ) × (session_list reg h ≡ ok ids) × InSlots ids
list_slots [] h n = ([], unfold session_list in refl, tt)
list_slots (o ∷ reg) h n = front o (n 0) (list_slots reg h (λ i p e. n (suc i) p e))
  where
    front :
        (o : Option ℕ)
        → ((p : ℕ)
            → ◌≡◌ {A = Option (Option ℕ)} (some o) (some (some p))
            → (a : AdminSession) × (h p ≡ some a) × (a.id ≤ max_sessions))
        → (ids : List ℕ) × (session_list reg h ≡ ok ids) × InSlots ids
        → (ids : List ℕ) × (session_list (o ∷ reg) h ≡ ok ids) × InSlots ids
    front none k r = (r.0, (unfold session_list in r.1), r.2)
    front (some p) k r =
        let (a, e, le) = k p refl in (a.id ∷ r.0, listed p reg h a r.0 e r.1, (le, r.2))

pub session_list_lem :
    (s : Sessions)
    → IsRegistered s
    → (ids : List ℕ) × (session_list s.reg s.object ≡ ok ids) × InSlots ids
session_list_lem s v = list_slots s.reg s.object (λ i p e.
    let k = v.known i p e in
    let l = get_elem?-length s.reg i (some p) e in
    let n = v.sized in let d = k.2 in (k.0, k.1, omega arith))

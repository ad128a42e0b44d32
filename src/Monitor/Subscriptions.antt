-- ===== src/Monitor/Subscriptions.antt =====
-- Subscriptions: what a logon enters into the tables, and what the end of a session takes out.
use exio.Prelude.{
  ℕ, ◌≤◌, ◌≡◌, refl, ap, ◌∙◌, false, Option, none, some, List, [], ◌∷◌, ◌++◌, Bytes, in_list, arith,
  ==_refl,
}
use exio.Error.{Result, ok, err, Error}
use exio.Dict.{Dict, map_values}
use exio.Sam.Container.{TxMessage}
use exio.Session.{AdminSession}
use exio.Registry.{Sessions, max_sessions, if_open, send, send_one, remove_first}
use exio.Registry.Invariant.{IsRegistered, if_open-id, send-id}
use exio.Registry.Calls.{one_slot}
use exio.Table.Snapshot.{snapshot, table_descr}
use exio.Monitor.{
  Watched, send_each, send_list, send_snapshot, add_subscriber, del_subscriber, subscribe_all,
  unsubscribe_all,
}

send_each-id : (ms : List TxMessage) (a : AdminSession) → (send_each ms a).id ≡ a.id
unfolding send_each
send_each-id [] a = refl
send_each-id (m ∷ ms) a = send_each-id ms (send m a) ∙ send-id m a

-- Sends to a slot of a right registry
pub send_one_lem :
    (msg : TxMessage) (id : ℕ) (s : Sessions)
    → id ≤ max_sessions
    → IsRegistered s
    → (t : Sessions) × (send_one msg id s ≡ ok t) × IsRegistered t
unfolding send_one
send_one_lem msg id s le v =
    let (o, h, e, d, w) =
      one_slot (if_open (send msg)) id s (λ a. if_open-id (send msg) a (send-id msg a)) le v in
    (_, rw (e, d) refl, w)

pub send_list_lem :
    (ms : List TxMessage) (id : ℕ) (s : Sessions)
    → id ≤ max_sessions
    → IsRegistered s
    → (t : Sessions) × (send_list ms id s ≡ ok t) × IsRegistered t
unfolding send_list
send_list_lem ms id s le v =
    let (o, h, e, d, w) =
      one_slot (if_open (send_each ms)) id s (λ a. if_open-id (send_each ms) a (send_each-id ms a))
        le v in
    (_, rw (e, d) refl, w)

-- The same table with the same subscribers; the batch size may differ
pub record Same (v w : Watched) : Type 0 where
  pub table : v.table ≡ w.table
  pub subscribers : v.subscribers ≡ w.subscribers

module _ (id : ℕ) (w : Watched) (s : Sessions) (le : id ≤ max_sessions) (v : IsRegistered s) where
  snapshot_outcome :
      (x : Result (List TxMessage × ℕ))
      → snapshot w.table w.batchsize ≡ x
      → (e : Option Error) × (u : Watched) × (t : Sessions) × (send_snapshot id w s ≡ ok (e, u, t))
        × Same u w
        × IsRegistered t
  unfolding send_snapshot
  snapshot_outcome (err e) h =
      (some e, w, s, rw (h, send_snapshot) refl, record { table = refl; subscribers = refl }, v)
  snapshot_outcome (ok (ms, b)) h =
      let (t, d, u) = send_list_lem ms id s le v in
      (
        none,
        record w { batchsize = b },
        t,
        rw (h, send_snapshot) (rw d refl),
        record { table = refl; subscribers = refl },
        u,
      )

  send_snapshot_lem :
      (e : Option Error) × (u : Watched) × (t : Sessions) × (send_snapshot id w s ≡ ok (e, u, t))
      × Same u w
      × IsRegistered t
  send_snapshot_lem = snapshot_outcome (snapshot w.table w.batchsize) refl

abbrev pub join : ℕ → Watched → Watched
join id w = record w { subscribers = w.subscribers ++ id ∷ [] }

add_subscriber_lem :
    (id : ℕ) (w : Watched) (s : Sessions)
    → id ≤ max_sessions
    → IsRegistered s
    → (e : Option Error) × (v : Watched) × (t : Sessions) × (add_subscriber id w s ≡ ok (e, v, t))
      × Same v (join id w)
      × IsRegistered t
unfolding add_subscriber
add_subscriber_lem id w s le v =
    let (t₁, e₁, v₁) = send_one_lem (table_descr w.table) id s le v in
    let (e, u, t, d, same, v₂) = send_snapshot_lem id (join id w) t₁ le v₁ in
    (e, u, t, rw e₁ d, same, v₂)

-- No table has the session as a subscriber.
abbrev pub Unsubscribed : ℕ → Dict Watched → Type 0
Unsubscribed id [] = Unit {0}
Unsubscribed id ((n, w) ∷ m) = (in_list id w.subscribers ≡ false) × Unsubscribed id m

-- The same tables under the same names, with the same subscribers
abbrev pub AllSame : Dict Watched → Dict Watched → Type 0
AllSame [] [] = Unit {0}
AllSame [] (_ ∷ m) = ⊥
AllSame (_ ∷ m) [] = ⊥
AllSame ((n, v) ∷ l) ((k, w) ∷ m) = (n ≡ k) × Same v w × AllSame l m

abbrev pub join_all : ℕ → Dict Watched → Dict Watched
join_all id [] = []
join_all id ((n, w) ∷ m) = (n, join id w) ∷ join_all id m

remove_first-append :
    (id : ℕ) (ids : List ℕ) → in_list id ids ≡ false → remove_first id (ids ++ id ∷ []) ≡ ids
remove_first-append id [] h = rw (==_refl id) refl
remove_first-append id (x ∷ ids) h = ground (arith, remove_first-append id ids)

left_again :
    (id : ℕ) (v w : Watched)
    → in_list id w.subscribers ≡ false
    → Same v (join id w)
    → Same (del_subscriber id v) w
unfolding del_subscriber
left_again id v w h s = record {
  table = s.table;
  subscribers = ap (remove_first id) s.subscribers ∙ remove_first-append id w.subscribers h;
}

subscribed :
    (id : ℕ) (k : Bytes) (w u : Watched) (m n : Dict Watched) (s t₁ t : Sessions) (e : Option Error)
    → add_subscriber id w s ≡ ok (e, u, t₁)
    → subscribe_all id m t₁ ≡ ok (n, t)
    → subscribe_all id ((k, w) ∷ m) s ≡ ok ((k, u) ∷ n, t)
unfolding subscribe_all
subscribed id k w u m n s t₁ t e d d₂ = rw (d, d₂) refl

-- subscribe_all gives every table the session
subscribe_all_lem :
    (id : ℕ) (m : Dict Watched) (s : Sessions)
    → id ≤ max_sessions
    → IsRegistered s
    → (n : Dict Watched) × (t : Sessions) × (subscribe_all id m s ≡ ok (n, t))
      × AllSame n (join_all id m)
      × IsRegistered t
subscribe_all_lem id [] s le v = ([], s, unfold subscribe_all in refl, tt, v)
subscribe_all_lem id ((k, w) ∷ m) s le v =
    let (e, u, t₁, d, same, v₁) = add_subscriber_lem id w s le v in
    let (n, t, d₂, all, v₂) = subscribe_all_lem id m t₁ le v₁ in
    ((k, u) ∷ n, t, subscribed id k w u m n s t₁ t e d d₂, (refl, same, all), v₂)

all_left :
    (id : ℕ) (n m : Dict Watched)
    → Unsubscribed id m
    → AllSame n (join_all id m)
    → AllSame (unsubscribe_all id n) m
unfolding unsubscribe_all map_values
all_left id [] [] u a = tt
all_left id [] (_ ∷ m) u a = absurd a
all_left id (_ ∷ n) [] u a = absurd a
all_left id ((k, v) ∷ n) ((j, w) ∷ m) u a =
    (a.0, left_again id v w u.0 a.1, all_left id n m u.1 a.2)

-- Where the registry is right, the number is one of a slot and no table has it as a subscriber,
-- subscribe_all ends without a fault and makes it the last subscriber of each table, whose
-- snapshot may throw; unsubscribe_all then gives back the tables with the subscribers that they
-- had, their batch sizes apart.
pub unsubscribe_all-subscribe_all :
    (id : ℕ) (m : Dict Watched) (s : Sessions)
    → id ≤ max_sessions
    → IsRegistered s
    → Unsubscribed id m
    → (n : Dict Watched) × (t : Sessions) × (subscribe_all id m s ≡ ok (n, t))
      × AllSame n (join_all id m)
      × AllSame (unsubscribe_all id n) m
      × IsRegistered t
unsubscribe_all-subscribe_all id m s le v u =
    let (n, t, e, a, w) = subscribe_all_lem id m s le v in (n, t, e, a, all_left id n m u a, w)

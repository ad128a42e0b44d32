-- ===== src/Monitor/Closing.antt =====
-- The end of a session: no table keeps it as a subscriber.
use exio.Prelude.{
  ℕ, ◌≡◌, refl, ap, ◌∙◌, true, false, none, some, List, [], ◌∷◌, get_elem?, in_list, arith,
  Bool-cases, inl, inr, ◌==◌, ==_iff,
}
use exio.Error.{ok}
use exio.Dict.{Dict, map_values}
use exio.Session.{AdminSession}
use exio.Registry.{Sessions, deref, session_closed, remove_first}
use exio.Registry.Invariant.{IsRegistered, Distinct}
use exio.Registry.Close.{session_closed_lem}
use exio.Registry.External.{in_list-remove_first}
use exio.Monitor.{Watched, del_subscriber, unsubscribe_all}
use exio.Monitor.Queries.{end_session}
use exio.Monitor.Subscriptions.{Unsubscribed}

-- No table has a subscriber twice.
abbrev pub AllDistinct : Dict Watched → Type 0
AllDistinct [] = Unit {0}
AllDistinct ((n, w) ∷ m) = Distinct w.subscribers × AllDistinct m

gone : (id : ℕ) (ids : List ℕ) → Distinct ids → in_list id (remove_first id ids) ≡ false
gone id [] d = refl
gone id (x ∷ ids) d = ground (arith, gone id ids d.1, d.0, ==_iff x id)

Distinct-remove_first : (id : ℕ) (ids : List ℕ) → Distinct ids → Distinct (remove_first id ids)
Distinct-remove_first id [] d = tt
Distinct-remove_first id (x ∷ ids) d =
    let rest = Distinct-remove_first id ids d.1 in
    elim (Bool-cases (x == id)) [
      | inl e ↦ rw e d.1
      | inr e ↦ rw e (in_list-remove_first id x ids d.0, rest)
    ]

all_gone :
    (id : ℕ) (m : Dict Watched)
    → AllDistinct m
    → Unsubscribed id (unsubscribe_all id m) × AllDistinct (unsubscribe_all id m)
unfolding unsubscribe_all map_values del_subscriber
all_gone id [] d = (tt, tt)
all_gone id ((n, w) ∷ m) d =
    let (u, v) = all_gone id m d.1 in
    ((gone id w.subscribers d.0, u), (Distinct-remove_first id w.subscribers d.0, v))

ended :
    (p : ℕ) (m : Dict Watched) (s t : Sessions) (a : AdminSession)
    → s.object p ≡ some a
    → session_closed p s ≡ ok t
    → end_session p m s ≡ ok (unsubscribe_all a.id m, t)
unfolding end_session deref
ended p m s t a e d = rw (e, deref) (rw d refl)

-- The end of the session in a used slot, where the registry is right and no table has a
-- subscriber twice, ends without a fault. Behind it no table has the number of the slot as a
-- subscriber and none has a subscriber twice, the slot is free, the session is expired and the
-- registry is right.
pub end_session_lem :
    (i p : ℕ) (m : Dict Watched) (s : Sessions)
    → IsRegistered s
    → get_elem? s.reg i ≡ some (some p)
    → AllDistinct m
    → (n : Dict Watched) × (t : Sessions) × (end_session p m s ≡ ok (n, t))
      × Unsubscribed i n
      × AllDistinct n
      × IsRegistered t
      × (get_elem? t.reg i ≡ some none)
      × (in_list p t.expired ≡ true)
end_session_lem i p m s v e d =
    let (a, live, same, _, _) = v.known i p e in
    let (t, h, w, free, _, late) = session_closed_lem i p s v e in
    let (u, x) = all_gone i m d in
    (
      unsubscribe_all i m,
      t,
      ended p m s t a live h ∙ ap (λ k. ok (unsubscribe_all k m, t)) same,
      u,
      x,
      w,
      free,
      late,
    )

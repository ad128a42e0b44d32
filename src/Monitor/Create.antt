-- ===== src/Monitor/Create.antt =====
-- Monitor::create_table_NOLOCK: a new table has every session of the registry as a subscriber.
use exio.Prelude.{
  ℕ, zero, suc, ◌≡◌, refl, sym, ap, ◌∙◌, none, List, [], ◌∷◌, ◌++◌, append_assoc, append-nil, Bytes,
}
use exio.Error.{ok}
use exio.Dict.{Dict, insert}
use exio.Registry.{Sessions, session_list}
use exio.Registry.Invariant.{IsRegistered}
use exio.Table.Defs.{new_data_table}
use exio.Table.Snapshot.{snapshot, snapshot_loop, number_from, table_descr}
use exio.Monitor.{
  Watched, new_watched, add_subscriber, add_subscribers, create_table, send_snapshot,
}
use exio.Monitor.Subscriptions.{send_one_lem, send_list_lem}
use exio.Monitor.Publish.{InSlots, session_list_lem}

-- A table without rows
abbrev pub bare : Bytes → List ℕ → ℕ → Watched
bare n ids b = record { table = new_data_table n; subscribers = ids; batchsize = b }

bare_snapshot : (n : Bytes) (b : ℕ) → snapshot (new_data_table n) b ≡ ok ([], b)
unfolding snapshot snapshot_loop number_from new_data_table
bare_snapshot n zero = refl
bare_snapshot n (suc b) = refl

module _ (n : Bytes) (ids : List ℕ) (b id : ℕ) (s : Sessions) (le : InSlots (id ∷ []))
    (v : IsRegistered s) where
  bare_sent :
      (t : Sessions) × (send_snapshot id (bare n ids b) s ≡ ok (none, bare n ids b, t))
      × IsRegistered t
  unfolding send_snapshot
  bare_sent =
      let (t, d, w) = send_list_lem [] id s le.0 v in
      (t, rw (bare_snapshot n b, send_snapshot) (rw d refl), w)

bare_subscriber :
    (n : Bytes) (ids : List ℕ) (b id : ℕ) (s : Sessions)
    → InSlots (id ∷ [])
    → IsRegistered s
    → (t : Sessions) × (add_subscriber id (bare n ids b) s
        ≡ ok (none, bare n (ids ++ id ∷ []) b, t))
      × IsRegistered t
unfolding add_subscriber
bare_subscriber n ids b id s le v =
    let (t₁, e, v₁) = send_one_lem (table_descr (new_data_table n)) id s le.0 v in
    let (t, d, w) = bare_sent n (ids ++ id ∷ []) b id t₁ le v₁ in (t, rw e d, w)

next_subscriber :
    (n : Bytes) (ids more : List ℕ) (b id : ℕ) (s t u : Sessions)
    → add_subscriber id (bare n ids b) s ≡ ok (none, bare n (ids ++ id ∷ []) b, t)
    → add_subscribers more (bare n (ids ++ id ∷ []) b) t
      ≡ ok (none, bare n ((ids ++ id ∷ []) ++ more) b, u)
    → add_subscribers (id ∷ more) (bare n ids b) s ≡ ok (none, bare n (ids ++ id ∷ more) b, u)
unfolding add_subscribers
next_subscriber n ids more b id s t u e d =
    rw e d ∙ ap (λ l. ok (none, bare n l b, u)) (append_assoc ids (id ∷ []) more)

bare_subscribers :
    (n : Bytes) (ids more : List ℕ) (b : ℕ) (s : Sessions)
    → InSlots more
    → IsRegistered s
    → (t : Sessions) × (add_subscribers more (bare n ids b) s
        ≡ ok (none, bare n (ids ++ more) b, t))
      × IsRegistered t
bare_subscribers n ids [] b s le v =
    (s, (unfold add_subscribers in ap (λ l. ok (none, bare n l b, s)) (sym (append-nil ids))), v)
bare_subscribers n ids (id ∷ more) b s le v =
    let (t, e, w) = bare_subscriber n ids b id s (le.0, tt) v in
    let (u, d, x) = bare_subscribers n (ids ++ id ∷ []) more b t le.1 w in
    (u, next_subscriber n ids more b id s t u e d, x)

-- A new table has every session of the registry as a subscriber, and its creation does not throw.
pub create_table_lem :
    (n : Bytes) (m : Dict Watched) (s : Sessions)
    → IsRegistered s
    → (ids : List ℕ) × (t : Sessions) × (session_list s.reg s.object ≡ ok ids)
      × (create_table n m s ≡ ok (none, insert n (bare n ids 500) m, t))
      × InSlots ids
      × IsRegistered t
unfolding create_table new_watched
create_table_lem n m s v =
    let (ids, e, le) = session_list_lem s v in
    let (t, d, w) = bare_subscribers n [] ids 500 s le v in (ids, t, e, rw (e, d) refl, le, w)

-- ===== src/Monitor/Tests.antt =====
-- A monitor with one table and a registry with one session, and runs of the laws on them.
use exio.Prelude.{
  ℕ, ◌≡◌, refl, none, some, List, [], ◌∷◌, Bytes, codes, get_elem?, arith, if◌then◌else◌, str_eq,
}
use exio.Error.{ok}
use exio.Dict.{Dict, lookup}
use exio.Registry.{Sessions, new_sessions, session_list}
use exio.Registry.Invariant.{IsRegistered, new_sessions-IsRegistered}
use exio.Registry.Create.{taken, taken-IsRegistered}
use exio.Table.Row.{is_reserved}
use exio.Table.Row.Update.{Keyed}
use exio.Table.Defs.{get_row_field}
use exio.Table.Defs.Indexes.{new_data_table-IsValid}
use exio.Monitor.{Watched, new_watched, subscribe_all, unsubscribe_all, update_table}
use exio.Prelude.{in_list, true}
use exio.Registry.{set_slot}
use exio.Monitor.Queries.{end_session}
use exio.Monitor.Closing.{AllDistinct, end_session_lem}
use exio.Monitor.Subscriptions.{Unsubscribed, AllSame, join_all, unsubscribe_all-subscribe_all}
use exio.Monitor.Update.{AllGood, kept_or, update_table_lem}

abbrev one : Sessions
one = taken (codes "svc") 1000 2 1 new_sessions

first_free : get_elem? new_sessions.reg 1 ≡ some none
unfolding new_sessions
first_free = refl

one-IsRegistered : IsRegistered one
one-IsRegistered =
    taken-IsRegistered (codes "svc") 1000 2 1 new_sessions (omega arith) (omega arith) (omega arith)
      first_free new_sessions-IsRegistered

abbrev orders : Dict Watched
orders = (codes "orders", new_watched (codes "orders")) ∷ []

unsubscribe_all-subscribe_all_example :
    (n : Dict Watched) × (t : Sessions) × (subscribe_all 1 orders one ≡ ok (n, t))
    × AllSame n (join_all 1 orders)
    × AllSame (unsubscribe_all 1 n) orders
    × IsRegistered t
unfolding new_watched
unsubscribe_all-subscribe_all_example =
    unsubscribe_all-subscribe_all 1 orders one (omega arith) one-IsRegistered (refl, tt)

abbrev clock : ℕ → Bytes
clock n = codes "2013/01/01 00:00:00"

abbrev price : Dict Bytes
price = (codes "Price", codes "101") ∷ []

price-Keyed : Keyed price
unfolding lookup
price-Keyed = (refl, tt)

price_there : lookup (codes "Price") price ≡ some (codes "101")
unfolding lookup
price_there = refl

orders-AllGood : AllGood orders
unfolding new_watched
orders-AllGood = (record { indexed = new_data_table-IsValid (codes "orders"); numbered = tt }, tt)

update_table_lem_example :
    (l : Dict Watched) × (u : Watched) × (t : Sessions) × (ids : List ℕ) × (update_table clock
        (codes "trades")
        (codes "r")
        price
        orders
        one
      ≡ ok (none, l, t))
    × (lookup (codes "orders") l ≡ (
        if str_eq (codes "trades") (codes "orders")
        then some u
        else lookup (codes "orders") orders))
    × (get_row_field (codes "r") (codes "Price") u.table ≡ ok (codes "101"))
    × (session_list one.reg one.object ≡ ok ids)
    × (u.subscribers ≡ kept_or ids (lookup (codes "trades") orders))
    × AllGood l
    × IsRegistered t
unfolding is_reserved
update_table_lem_example =
    update_table_lem clock (codes "trades") (codes "r") price orders one (codes "Price")
      (codes "101") (codes "orders") price-Keyed price_there refl orders-AllGood one-IsRegistered

one_taken : get_elem? one.reg 1 ≡ some (some 0)
unfolding taken new_sessions set_slot
one_taken = refl

abbrev watched : Dict Watched
watched = (codes "orders", record (new_watched (codes "orders")) { subscribers = 2 ∷ 1 ∷ [] }) ∷ []

end_session_lem_example :
    (n : Dict Watched) × (t : Sessions) × (end_session 0 watched one ≡ ok (n, t))
    × Unsubscribed 1 n
    × AllDistinct n
    × IsRegistered t
    × (get_elem? t.reg 1 ≡ some none)
    × (in_list 0 t.expired ≡ true)
end_session_lem_example =
    end_session_lem 1 0 watched one one-IsRegistered one_taken ((refl, (refl, tt)), tt)

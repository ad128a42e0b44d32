-- ===== src/Registry/Tests.antt =====
-- A registry with one session, and its life.
use exio.Prelude.{
  ℕ, ◌+◌, ◌≡◌, refl, true, Option, none, some, [], ◌∷◌, codes, get_elem?, in_list, arith,
  if◌then◌else◌, ◌&&◌,
}
use exio.Error.{ok}
use exio.Sam.Container.{nil, TxMessage}
use exio.Registry.{
  Sessions, new_sessions, create_new_session, session_closed, session_cleanup, session_count,
  set_slot,
}
use exio.Registry.Invariant.{IsRegistered, new_sessions-IsRegistered}
use exio.Registry.Create.{taken, taken-IsRegistered}
use exio.Registry.Welcome.{Admitted, new_session_lem}
use exio.Registry.{logon}
use exio.Prelude.{length, ◌≤◌, ◌*◌}
use exio.SamBuffer.Decimal.{decimal}
use exio.SamBuffer.Header.{frame}
use exio.Sam.Chars.{is_special_char}
use exio.Sam.Container.{
  find_field, find_child, put_field, put_child, set_field, set_child, add_field, add_child,
  add_items, child_items,
}
use exio.Sam.Path.{find_tree, at_tree, put_field_at}
use exio.Sam.Encode.Wire.{wire_body, wire, escaped}
use exio.Sam.Decode.Message.{IsClean}
use exio.Client.Inbound.Frames.{bytes_of}
use exio.Registry.Close.{session_closed_lem, session_cleanup_lem, staying, may_go}
use exio.Registry.Calls.{
  creates, closes, sends_one, sends_all, keeps_house, run_calls, run_calls_lem,
}

svc-IsClean : IsClean (logon (codes "svc"))
unfolding put_field_at at_tree put_field put_child set_field set_child add_field add_child add_items
    child_items find_field find_child find_tree wire_body wire escaped is_special_char decimal
svc-IsClean = record {
  type = ground arith;
  names = ground arith;
  unique = ground arith;
  short = omega arith;
}

svc_fits : length (bytes_of (logon (codes "svc"))) ≤ 100 * 1024 * 1024
unfolding put_field_at at_tree put_field put_child set_field set_child add_field add_child add_items
    child_items find_field find_child find_tree wire_body wire escaped is_special_char decimal frame
svc_fits = omega arith

new_session_lem_example :
    (t : Sessions) × (o : Option ℕ) × (create_new_session (codes "svc") 1000 new_sessions
      ≡ ok (t, o))
    × IsRegistered t
    × Admitted (codes "svc") 1000 new_sessions t o
new_session_lem_example =
    new_session_lem (codes "svc") 1000 new_sessions svc-IsClean svc_fits new_sessions-IsRegistered

abbrev one : Sessions
one = taken (codes "svc") 1000 2 1 new_sessions

first_free : get_elem? new_sessions.reg 1 ≡ some none
unfolding new_sessions
first_free = refl

one-IsRegistered : IsRegistered one
one-IsRegistered =
    taken-IsRegistered (codes "svc") 1000 2 1 new_sessions (omega arith) (omega arith) (omega arith)
      first_free new_sessions-IsRegistered

one_taken : get_elem? one.reg 1 ≡ some (some 0)
unfolding taken new_sessions set_slot
one_taken = refl

session_closed_lem_example :
    (t : Sessions) × (session_closed 0 one ≡ ok t)
    × IsRegistered t
    × (get_elem? t.reg 1 ≡ some none)
    × (session_count t.reg + 1 ≡ session_count one.reg)
    × (in_list 0 t.expired ≡ true)
session_closed_lem_example = session_closed_lem 1 0 one one-IsRegistered one_taken

abbrev expired : Sessions
expired = (session_closed_lem 1 0 one one-IsRegistered one_taken).0

expired-IsRegistered : IsRegistered expired
expired-IsRegistered = (session_closed_lem 1 0 one one-IsRegistered one_taken).2

session_cleanup_lem_example :
    (t : Sessions) × (session_cleanup expired ≡ ok t)
    × IsRegistered t
    × (t.expired ≡ staying expired.object expired.expired)
    × ((q : ℕ)
        → t.object q ≡ (
            if in_list q expired.expired && may_go (expired.object q)
            then none
            else expired.object q))
session_cleanup_lem_example = session_cleanup_lem expired expired-IsRegistered

abbrev bye : TxMessage
bye = record { root = record { name = codes "bye"; items = nil } }

run_calls_lem_example :
    (t : Sessions) × (run_calls
        (creates (codes "svc") 1000
          ∷ sends_one bye 1
          ∷ closes 1
          ∷ sends_all bye
          ∷ keeps_house 1040
          ∷ [])
        new_sessions
      ≡ ok t)
    × IsRegistered t
run_calls_lem_example =
    run_calls_lem
      (creates (codes "svc") 1000
        ∷ sends_one bye 1
        ∷ closes 1
        ∷ sends_all bye
        ∷ keeps_house 1040
        ∷ [])
      new_sessions (tt, (omega arith, (omega arith, (tt, (tt, tt))))) new_sessions-IsRegistered

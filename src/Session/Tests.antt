-- ===== src/Session/Tests.antt =====
-- A session that sends two messages, of which the socket takes one and a part of the other.
use exio.Prelude.{
  ℕ, ◌+◌, ◌<◌, ◌≤◌, ◌*◌, ◌^◌, ◌≡◌, refl, ap, ◌∙◌, true, false, some, List, [], ◌∷◌, ◌++◌, Bytes,
  codes, length, take, arith, ◌⊎◌,
}
use exio.Error.{Error, ok}
use exio.Sam.Container.{nil, field, child, TxMessage}
use exio.Sam.Encode.{encode_msg, encode_body, encode_contents, encode_items, write_str}
use exio.Sam.Encode.Wire.{wire_body, wire}
use exio.SamBuffer.Defs.{
  new_buffer, contents, append, encode_header, write_header, msg_size, check_space, write_at,
  header,
}
use exio.SamBuffer.Decimal.{decimal, count_digits}
use exio.SamBuffer.Header.{frame}
use exio.Sam.Decode.Message.{IsClean}
use exio.ReadBuffer.{ReactorReadBuffer, new_read_buffer, unread}
use exio.ReadBuffer.Laws.{IsSound, new_read_buffer-IsSound, fill_lem}
use exio.Client.Outbound.{
  Outbound, new_outbound, raw, wrote, io_default, queue, queue_close, eat, handle_output,
}
use exio.Client.Outbound.Laws.{backlog}
use exio.Client.Inbound.{deliver, process_input}
use exio.Client.Inbound.Frames.{bytes_of, frames, handle_all}
use exio.Session.{
  AdminSession, new_session, io_init, queue_bytes, enqueue_to_send, Listener, io_onmsg,
}
use exio.Session.Enqueue.{Enqueued, enqueue_to_send_lem}
use exio.Session.Logon.{IsTame, KnownBy, first_logon, logon_lem}
use exio.Session.Delivery.{enqueue_all, delivery_lem}

abbrev bye : TxMessage
bye = record { root = record { name = codes "bye"; items = nil } }

abbrev session : AdminSession
session = io_init new_outbound (new_session 1 1000)

bye_short : length (wire_body bye) < 2 ^ 31
unfolding wire_body wire
bye_short = omega arith

enqueue_to_send_lem_example :
    Enqueued
      (frame (wire_body bye))
      session
      (enqueue_to_send bye session).1
      (enqueue_to_send bye session).0
enqueue_to_send_lem_example = enqueue_to_send_lem bye session bye_short

bye-IsClean : IsClean bye
unfolding wire_body wire
bye-IsClean = record { type = ground arith; names = tt; unique = tt; short = omega arith }

abbrev sent : Bytes
sent = codes "{SAM0100:20:bye:[]}\n{SAM01"

-- The client with both messages, and behind the answers of the socket
abbrev loaded : Outbound
loaded = record {
  items = raw (codes "{SAM0100:20:bye:[]}\n") ∷ raw (codes "{SAM0100:20:bye:[]}\n") ∷ [];
  itemcount = 2;
  acceptmore = true;
  pending = 40;
  out_pend_max = 104857600;
  io_closed = false;
  shutdown_done = false;
  bytes_out = 0;
  sent = [];
}

abbrev written : Outbound
written = record {
  items = raw (codes "00:20:bye:[]}\n") ∷ [];
  itemcount = 1;
  acceptmore = true;
  pending = 14;
  out_pend_max = 104857600;
  io_closed = false;
  shutdown_done = false;
  bytes_out = 26;
  sent = sent;
}

bye_bytes : bytes_of bye ≡ codes "{SAM0100:20:bye:[]}\n"
unfolding frame wire_body wire decimal
bye_bytes = refl

two_fit : length (frames (bye ∷ bye ∷ [])) ≤ 100 * 1024 * 1024
two_fit = rw bye_bytes (omega arith)

enqueued : (enqueue_all (bye ∷ bye ∷ []) session).io_handle ≡ some loaded
unfolding enqueue_all enqueue_to_send queue_bytes io_init new_session new_outbound queue queue_close
    encode_msg encode_body encode_contents encode_items write_str new_buffer contents append
    check_space write_at encode_header write_header header msg_size decimal count_digits
enqueued = refl

put_out : handle_output (wrote 20 ∷ wrote 6 ∷ []) loaded.items loaded ≡ ok (io_default, written)
unfolding handle_output eat
put_out = refl

-- The peer's buffer, with the bytes that were sent
fresh_start : (new_read_buffer 16).rp ≡ 0
unfolding new_read_buffer
fresh_start = refl

fresh_fits : (new_read_buffer 16).bytesavail + length sent < 2 ^ 62
unfolding new_read_buffer
fresh_fits = omega arith

fresh_unread : unread (new_read_buffer 16) ≡ []
unfolding unread new_read_buffer
fresh_unread = refl

abbrev filled : ReactorReadBuffer
filled = (fill_lem sent (new_read_buffer 16) (new_read_buffer-IsSound 16) fresh_start fresh_fits).0

filled-IsSound : IsSound filled
filled-IsSound =
    (fill_lem sent (new_read_buffer 16) (new_read_buffer-IsSound 16) fresh_start fresh_fits).2

filled-unread : unread filled ≡ sent
filled-unread =
    (fill_lem sent (new_read_buffer 16) (new_read_buffer-IsSound 16) fresh_start fresh_fits).5
    ∙ ap (λ l. l ++ sent) fresh_unread

abbrev log : TxMessage → List TxMessage → List TxMessage
log m ms = ms ++ m ∷ []

abbrev ignore : Error → List TxMessage → List TxMessage
ignore e ms = ms

session_valid : session.session_valid ≡ true
unfolding io_init new_session
session_valid = refl

session_handle : session.io_handle ≡ some new_outbound
unfolding io_init
session_handle = refl

delivery_lem_example :
    (k : ℕ) × (c : ReactorReadBuffer) × (deliver (process_input log ignore) filled []
      ≡ ok (c, handle_all log (take k (bye ∷ bye ∷ [])) []))
    × (written.sent ≡ frames (take k (bye ∷ bye ∷ [])) ++ unread c)
    × ((take k (bye ∷ bye ∷ []) ≡ bye ∷ bye ∷ []) ⊎ (0 < length (backlog written.items)))
delivery_lem_example =
    delivery_lem log ignore (bye ∷ bye ∷ []) session loaded written (wrote 20 ∷ wrote 6 ∷ [])
      io_default filled [] session_valid session_handle (bye-IsClean, (bye-IsClean, tt)) two_fit
      enqueued put_out filled-IsSound filled-unread

-- A listener that counts messages, and two logons
abbrev count : Listener ℕ
count m (s, n) = (s, n + 1)

count-IsTame : IsTame count
count-IsTame = record {
  same_serviceid = λ m r. refl;
  same_username = λ m r. refl;
  same_logon = λ m r. refl;
  same_valid = λ m r. refl;
}

abbrev logon : Bytes → TxMessage
logon name = record {
  root = record {
    name = codes "logon";
    items = child (codes "head") (field (codes "user") name nil) nil;
  };
}

session_fresh : session.logon_received ≡ false
unfolding io_init new_session
session_fresh = refl

logon_lem_example :
    KnownBy session
      (first_logon (bye ∷ logon (codes "ann") ∷ logon (codes "bob") ∷ []))
      (handle_all
        (io_onmsg count)
        (bye ∷ logon (codes "ann") ∷ logon (codes "bob") ∷ [])
        (session, 0)).0
logon_lem_example =
    logon_lem count (bye ∷ logon (codes "ann") ∷ logon (codes "bob") ∷ []) session 0 count-IsTame
      session_valid session_fresh

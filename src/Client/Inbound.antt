-- ===== src/Client/Inbound.antt =====
-- The delivery of inbound bytes: the loop of Client::do_work, libexio/Client.cc, over the callback
-- process_input, and AdminSession::process_input, libexio/AdminSession.cc. A callback is a function
-- from the bytes and a state to the state and the number of bytes consumed; an exception that leaves it
-- counts as none consumed, and so does a callback that is no longer set.
pub mod Frames
use exio.Prelude.{
  ℕ, zero, suc, ◌%◌, ◌^◌, Bool, true, false, Bytes, [], length, take, ltb, ◌==◌, if◌then◌else◌,
}
use exio.Error.{Error, Result, ok, err, out_of_fuel}
use exio.ReadBuffer.{ReactorReadBuffer, unread, consume, shift_pending_to_array_start}
use exio.Sam.Container.{nil, TxMessage}
use exio.Sam.Decode.{decode_msg}

-- while ( buf.bytesavail() ) { … }
unfoldable pub deliver_loop :
    {S : Type 0} → (Bytes → S → S × ℕ) → ℕ → ReactorReadBuffer → S → Result (ReactorReadBuffer × S)
deliver_loop callback zero b s = if b.bytesavail == 0 then ok (b, s) else err out_of_fuel
deliver_loop callback (suc fuel) b s =
    let done = callback (unread b) s in
    let rest = deliver_loop callback fuel (consume done.1 b) done.0 in
    if b.bytesavail == 0 then ok (b, s) else if ltb 0 done.1 then rest else ok (b, done.0)

-- The loop and the shift behind it
unfoldable pub deliver :
    {S : Type 0} → (Bytes → S → S × ℕ) → ReactorReadBuffer → S → Result (ReactorReadBuffer × S)
deliver callback b s = elim (deliver_loop callback b.bytesavail b s) [
  | ok (c, s') ↦ ok (shift_pending_to_array_start c, s')
  | err e ↦ err e
]

-- txMessage msg;
abbrev pub blank_message : TxMessage
blank_message = record { root = record { name = []; items = nil } }

-- The bytes that decodeMsg is given: the size of the buffer becomes an int of 32 bits, which is negative
-- from 2 ^ 31 on. A negative one makes an end in front of the start, as no bytes at all do.
unfoldable pub in_int : Bytes → Bytes
in_int src = let size : ℕ = length src % 2 ^ 32 in if ltb size (2 ^ 31) then take size src else []

-- process_input(client, src, size): what the session does with a message, io_onmsg, and with a
-- protocol error, the reply and the close, are functions on its state.
unfoldable pub process_input :
    {S : Type 0} → (TxMessage → S → S) → (Error → S → S) → Bytes → S → S × ℕ
process_input io_onmsg protocol_error src s = elim (decode_msg blank_message (in_int src)) [
  | err e ↦ (protocol_error e s, 0)
  | ok (msg, consumed) ↦ if ltb 0 consumed then (io_onmsg msg s, consumed) else (s, 0)
]

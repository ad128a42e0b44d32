-- ===== src/Client/Tests.antt =====
-- A client with two messages in its queue, and runs of its laws.
use exio.Prelude.{Bytes, List, ◌+◌, ◌<◌, ◌^◌, ◌++◌, take, ap, ◌∙◌, arith}
use exio.Error.{Error}
use exio.Sam.Container.{TxMessage, nil}
use exio.Sam.Encode.Wire.{wire_body, wire}
use exio.SamBuffer.Header.{frame}
use exio.SamBuffer.Decimal.{decimal}
use exio.Sam.Decode.Message.{IsClean}
use exio.ReadBuffer.{ReactorReadBuffer, new_read_buffer, unread}
use exio.ReadBuffer.Laws.{length-unread, IsSound, new_read_buffer-IsSound, fill_lem}
use exio.Client.Inbound.{deliver, process_input}
use exio.Client.Inbound.Frames.{bytes_of, frames, handle_all, deliver_lem}
use exio.Prelude.{◌≡◌, refl, true, false, [], ◌∷◌, codes, length}
use exio.Error.{ok}
use exio.Client.Outbound.{
  Outbound, new_outbound, do_shutdown, queue, queue_close, IoState, wrote, handle_output,
}
use exio.Client.Outbound.Laws.{
  IsCounted, new_outbound-IsCounted, QueueEffect, queue-IsCounted, queue_lem,
}
use exio.Client.Outbound.Output.{stream, handle_output_lem}

queue-IsCounted_example : IsCounted (queue (codes "abc") true new_outbound).1
queue-IsCounted_example = queue-IsCounted (codes "abc") true new_outbound new_outbound-IsCounted

queue_lem_example :
    QueueEffect
      (codes "abc")
      new_outbound
      (queue (codes "abc") true new_outbound).0
      (queue (codes "abc") true new_outbound).1
queue_lem_example = queue_lem (codes "abc") true new_outbound

abbrev busy : Outbound
busy = (queue (codes "defg") true (queue (codes "abc") false new_outbound).1).1

busy_count : busy.itemcount ≡ length busy.items
unfolding queue new_outbound do_shutdown queue_close
busy_count = refl

handle_output_lem_example :
    (s : IoState) × (d : Outbound) × (handle_output
        (wrote 2 ∷ wrote 1 ∷ wrote 4 ∷ [])
        busy.items
        busy
      ≡ ok (s, d))
    × (d.itemcount ≡ length d.items)
    × (stream d ≡ stream busy)
handle_output_lem_example = handle_output_lem (wrote 2 ∷ wrote 1 ∷ wrote 4 ∷ []) busy busy_count

-- The message {SAM0100:00022:bye:[]}, and a buffer that holds it and ten bytes of the next.
abbrev bye : TxMessage
bye = record { root = record { name = codes "bye"; items = nil } }

bye-IsClean : IsClean bye
unfolding wire_body wire
bye-IsClean = record { type = ground arith; names = tt; unique = tt; short = omega arith }

bye_size : 10 < length (bytes_of bye)
unfolding frame wire_body wire decimal
bye_size = omega arith

abbrev arrived : Bytes
arrived = frames (bye ∷ []) ++ take 10 (bytes_of bye)

fresh_start : (new_read_buffer 16).rp ≡ 0
unfolding new_read_buffer
fresh_start = refl

fresh_fits : (new_read_buffer 16).bytesavail + length arrived < 2 ^ 62
unfolding new_read_buffer frame wire_body wire decimal
fresh_fits = omega arith

arrived_small : length arrived < 2 ^ 31
unfolding frame wire_body wire decimal
arrived_small = omega arith

fresh_unread : unread (new_read_buffer 16) ≡ []
unfolding unread new_read_buffer
fresh_unread = refl

abbrev filled : ReactorReadBuffer
filled =
    (fill_lem arrived (new_read_buffer 16) (new_read_buffer-IsSound 16) fresh_start fresh_fits).0

filled-IsSound : IsSound filled
filled-IsSound =
    (fill_lem arrived (new_read_buffer 16) (new_read_buffer-IsSound 16) fresh_start fresh_fits).2

filled-unread : unread filled ≡ arrived
filled-unread =
    (fill_lem arrived (new_read_buffer 16) (new_read_buffer-IsSound 16) fresh_start fresh_fits).5
    ∙ ap (λ l. l ++ arrived) fresh_unread

abbrev log : TxMessage → List TxMessage → List TxMessage
log m ms = ms ++ m ∷ []

abbrev ignore : Error → List TxMessage → List TxMessage
ignore e ms = ms

deliver_lem_example :
    (c : ReactorReadBuffer) × (deliver (process_input log ignore) filled []
      ≡ ok (c, handle_all log (bye ∷ []) []))
    × IsSound c
    × (c.rp ≡ 0)
    × (unread c ≡ take 10 (bytes_of bye))
deliver_lem_example =
    deliver_lem log ignore (bye ∷ []) bye 10 filled [] (bye-IsClean, tt) bye-IsClean bye_size
      filled-IsSound
      (omega (arith, length-unread filled filled-IsSound, ap length filled-unread, arrived_small))
      filled-unread

-- ===== src/Client/Outbound.antt =====
-- The outbound half of Client, libexio/Client.cc: RawMsg, OutboundQueue, queue, pending_out,
-- handle_output, shutdown_outq, events and do_shutdown_SHUT_WR. Each function runs under the queue's
-- mutex or on the reactor's thread, so calls are steps. The socket is a list of the answers that
-- ::send gives; behind the last one it would block. What it was handed is kept in `sent`.
pub mod Laws
pub mod Output
use exio.Prelude.{
  ℕ, zero, suc, ◌+◌, ◌-◌, ◌*◌, ◌^◌, Bool, true, false, ◌&&◌, ◌||◌, not, List, [], ◌∷◌, ◌++◌, Bytes,
  length, take, drop, ltb, ◌==◌, if◌then◌else◌,
}
use exio.Error.{Result, ok, err, out_of_bounds}
use exio.SamBuffer.Defs.{size_t}

-- RawMsg: the bytes that remain to be written; RawMsg() is the sentinel that asks for a close.
pub data RawMsg : Type 0 where
  raw : Bytes → RawMsg
  sentinel : RawMsg

-- The members of Client that the outbound half uses: m_out_q, m_out_pend_max, m_io_closed, the bit
-- eShutdownDone of m_attn_flags, m_bytes_out.
pub record Outbound : Type 0 where
  pub items : List RawMsg
  pub itemcount : ℕ
  pub acceptmore : Bool
  pub pending : ℕ
  pub out_pend_max : ℕ
  pub io_closed : Bool
  pub shutdown_done : Bool
  pub bytes_out : ℕ
  pub sent : Bytes

-- Client(…), OutboundQueue()
unfoldable pub new_outbound : Outbound
new_outbound = record {
  items = [];
  itemcount = 0;
  acceptmore = true;
  pending = 0;
  out_pend_max = 100 * 1024 * 1024;
  io_closed = false;
  shutdown_done = false;
  bytes_out = 0;
  sent = [];
}

-- do_shutdown_SHUT_WR: shutdown() is called once.
unfoldable pub do_shutdown : Outbound → Outbound
do_shutdown c = if c.io_closed then c else record c { shutdown_done = true }

-- The values 0, -1 and -2 of Client::queue
pub data QueueResult : Type 0 where
  queued overflowed refused : QueueResult

-- The second half of queue: `if (closesocket)`
unfoldable pub queue_close : Bool → Outbound → Outbound
queue_close closesocket c =
    if closesocket
    then record c {
      acceptmore = false;
      items = c.items ++ sentinel ∷ [];
      itemcount = c.itemcount + 1;
    }
    else c

-- queue(buf, size, closesocket); no bytes for a NULL buffer or a size of zero
unfoldable pub queue : Bytes → Bool → Outbound → QueueResult × Outbound
unfolding do_shutdown queue_close
queue buf closesocket c =
    if not c.acceptmore
    then (refused, c)
    else if length buf == 0
    then (queued, queue_close closesocket c)
    else if ltb (size_t (c.out_pend_max + 2 ^ 64 - c.pending)) (length buf)
    then (overflowed, do_shutdown (record c { acceptmore = false }))
    else (
      queued,
      queue_close closesocket (record c {
        items = c.items ++ raw buf ∷ [];
        itemcount = c.itemcount + 1;
        pending = c.pending + length buf;
      }),
    )

-- What ::send returns: the number of bytes taken, EAGAIN or EWOULDBLOCK, or another error
pub data SendResult : Type 0 where
  wrote : ℕ → SendResult
  again : SendResult
  broken : SendResult

pub data IoState : Type 0 where
  io_default io_close : IoState

-- The branch `n >= 0`: eat(n), the counters, and the pop of an item that is written in full
unfoldable pub eat : ℕ → Bytes → List RawMsg → Outbound → Outbound
eat n bytes rest c =
    let left = drop n bytes in
    let c' = record c {
      bytes_out = c.bytes_out + n;
      pending = if ltb n c.pending then c.pending - n else 0;
      sent = c.sent ++ take n bytes;
    } in
    if length left == 0
    then record c' { items = rest; itemcount = c.itemcount - 1 }
    else record c' { items = raw left ∷ rest }

-- The case of the front item of m_out_q: the sentinel is taken off, and the socket shut down.
unfoldable pub pop_sentinel : List RawMsg → Outbound → Outbound
unfolding do_shutdown
pop_sentinel rest c = do_shutdown (record c { items = rest; itemcount = c.itemcount - 1 })

-- handle_output(), its loop over the answers of the socket; front() of an empty list is a fault.
unfoldable pub handle_output :
    List SendResult → List RawMsg → Outbound → Result (IoState × Outbound)
unfolding eat pop_sentinel
handle_output rs [] c =
    if c.itemcount == 0 then ok (io_default, record c { itemcount = 0 }) else err out_of_bounds
handle_output rs (sentinel ∷ rest) c = ok (io_close, pop_sentinel rest c)
handle_output [] (raw bytes ∷ rest) c = ok (io_default, c)
handle_output (again ∷ rs) (raw bytes ∷ rest) c = ok (io_default, c)
handle_output (broken ∷ rs) (raw bytes ∷ rest) c = ok (io_close, c)
handle_output (wrote n ∷ rs) (raw bytes ∷ rest) c =
    let c' = eat n bytes rest c in handle_output rs c'.items c'

-- shutdown_outq()
unfoldable pub shutdown_outq : Outbound → Outbound
shutdown_outq c = record c { acceptmore = false; items = []; itemcount = 0; pending = 0 }

-- events(): is POLLOUT asked for?
unfoldable pub wants_output : Outbound → Bool
wants_output c = not c.io_closed && (not (c.itemcount == 0) || not (length c.items == 0))

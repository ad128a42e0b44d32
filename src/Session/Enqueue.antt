-- ===== src/Session/Enqueue.antt =====
-- What enqueueToSend does on each of its branches.
use exio.Prelude.{
  ◌<◌, ◌^◌, ◌≡◌, refl, ap, ◌∙◌, Bool, true, false, none, some, ◌++◌, Bytes, length, take_all, arith,
  Bool-cases, Option-cases, inl, inr, ◌⊎◌,
}
use exio.Sam.Container.{TxMessage}
use exio.Sam.Encode.Wire.{wire_body}
use exio.Sam.Encode.Message.{encode_msg_lem}
use exio.SamBuffer.Defs.{contents}
use exio.SamBuffer.Header.{frame}
use exio.Client.Outbound.{Outbound, QueueResult, queued, overflowed, refused, queue}
use exio.Client.Outbound.Laws.{backlog, QueueEffect, queue_lem}
use exio.Session.{AdminSession, is_failure, queue_bytes, enqueue_to_send}

-- A valid session hands the frame of the message to its client.
pub enqueue_to_send-frame :
    (msg : TxMessage) (s : AdminSession)
    → length (wire_body msg) < 2 ^ 31
    → s.session_valid ≡ true
    → enqueue_to_send msg s ≡ queue_bytes (frame (wire_body msg)) s
unfolding enqueue_to_send
enqueue_to_send-frame msg s h v =
    let (sb, e, c) = encode_msg_lem msg 512 h (omega arith) in
    simp (v, e)
      (ap (λ b. queue_bytes b s) (take_all (length (contents sb)) (contents sb) (omega arith) ∙ c))

-- What a call comes to: with a client that accepts, `false` adds the frame behind the bytes that wait,
-- and `true` leaves them and closes the queue; a client that no longer accepts is left as it is, and
-- the result is `false`; without a client, or in a session that is not valid, it is `true`.
pub data Enqueued (bytes : Bytes) (s t : AdminSession) : Bool → Type 0 where
  sent :
      (c d : Outbound)
      → s.session_valid ≡ true
      → s.io_handle ≡ some c
      → t ≡ record s { io_handle = some d }
      → c.acceptmore ≡ true
      → backlog d.items ≡ backlog c.items ++ bytes
      → Enqueued bytes s t false
  dropped :
      (c : Outbound)
      → s.session_valid ≡ true
      → s.io_handle ≡ some c
      → t ≡ record s { io_handle = some c }
      → c.acceptmore ≡ false
      → Enqueued bytes s t false
  overfull :
      (c d : Outbound)
      → s.session_valid ≡ true
      → s.io_handle ≡ some c
      → t ≡ record s { io_handle = some d }
      → d.acceptmore ≡ false
      → d.items ≡ c.items
      → Enqueued bytes s t true
  unheard : (s.session_valid ≡ false) ⊎ (s.io_handle ≡ none) → t ≡ s → Enqueued bytes s t true

Enqueued-queue :
    (bytes : Bytes) (s : AdminSession) (c d : Outbound) (r : QueueResult)
    → s.session_valid ≡ true
    → s.io_handle ≡ some c
    → QueueEffect bytes c r d
    → Enqueued bytes s (record s { io_handle = some d }) (is_failure r)
Enqueued-queue bytes s c d queued v h q = sent c d v h refl q.0 q.1
Enqueued-queue bytes s c d overflowed v h q = overfull c d v h refl q.0 q.1
Enqueued-queue bytes s c d refused v h q =
    dropped c v h (ap (λ x. record s { io_handle = some x }) q.1) q.0

queue_bytes_lem :
    (bytes : Bytes) (s : AdminSession)
    → s.session_valid ≡ true
    → Enqueued bytes s (queue_bytes bytes s).1 (queue_bytes bytes s).0
unfolding queue_bytes
queue_bytes_lem bytes s v = elim (Option-cases s.io_handle) [
  | inl e ↦ simp (e, queue_bytes) (unheard (inr e) refl)
  | inr (c, e) ↦
      simp (e, queue_bytes)
        (Enqueued-queue bytes s c (queue bytes false c).1 (queue bytes false c).0 v e
          (queue_lem bytes false c))
]

-- Each branch of enqueueToSend of a message whose body is below 2 ^ 31 bytes. Its result is
-- false if the client accepts, and the message's frame is added behind the bytes that wait, but
-- also if the client accepts no more, and nothing is added. It is true if the client overflows,
-- which leaves the bytes and closes the queue, and with no change at all if there is no client
-- or the session is not valid.
pub enqueue_to_send_lem :
    (msg : TxMessage) (s : AdminSession)
    → length (wire_body msg) < 2 ^ 31
    → Enqueued (frame (wire_body msg)) s (enqueue_to_send msg s).1 (enqueue_to_send msg s).0
enqueue_to_send_lem msg s h = elim (Bool-cases s.session_valid) [
  | inl v ↦ rw (enqueue_to_send-frame msg s h v) (queue_bytes_lem (frame (wire_body msg)) s v)
  | inr v ↦ unfold enqueue_to_send in simp v (unheard (inl v) refl)
]

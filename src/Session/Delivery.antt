-- ===== src/Session/Delivery.antt =====
-- From the session of one side to the session of the other: what is enqueued is handled, in its order.
use mathlib.Core.Path.{subst}
use exio.Prelude.{
  ℕ, zero, suc, ◌+◌, ◌-◌, ◌≤◌, ◌<◌, ◌^◌, ◌≡◌, refl, sym, ap, ◌∙◌, true, false, none, some, List, [],
  ◌∷◌, ◌++◌, append_assoc, append-nil, Bytes, length, take, take-append_le, take-append_ge,
  take-append_length, length-append, ltb, ◌==◌, arith, Bool-cases, inl, inr, ◌⊎◌, ◌*◌,
}
use exio.Error.{Error, ok, err}
use exio.Sam.Container.{TxMessage}
use exio.Sam.Encode.Wire.{wire_body, wire}
use exio.SamBuffer.Defs.{size_t}
use exio.Sam.Decode.Message.{IsClean}
use exio.ReadBuffer.{ReactorReadBuffer, unread}
use exio.ReadBuffer.Laws.{IsSound, length-unread}
use exio.Client.Outbound.{
  Outbound, new_outbound, raw, queued, queue, queue_close, SendResult, IoState, handle_output,
}
use exio.Client.Outbound.Laws.{
  backlog, IsCounted, new_outbound-IsCounted, queue-IsCounted, QueueEffect, queue_lem,
}
use exio.Client.Outbound.Output.{stream, handle_output_lem}
use exio.Client.Inbound.{deliver, process_input, blank_message}
use exio.Client.Inbound.Frames.{bytes_of, frames, AllClean, frame_size, handle_all, deliver_lem}
use exio.Session.{AdminSession, queue_bytes, enqueue_to_send}
use exio.Session.Enqueue.{enqueue_to_send-frame}

-- The loop of send_one over a list of messages, libexio/AdminInterfaceImpl.cc
unfoldable pub enqueue_all : List TxMessage → AdminSession → AdminSession
enqueue_all [] s = s
enqueue_all (m ∷ ms) s = enqueue_all ms (enqueue_to_send m s).1

-- A call of queue for which there is room
queue_room :
    (buf : Bytes) (c : Outbound)
    → IsCounted c
    → c.acceptmore ≡ true
    → c.pending + length buf ≤ c.out_pend_max
    → (d : Outbound) × (queue buf false c ≡ (queued, d))
      × (d.acceptmore ≡ true)
      × (d.out_pend_max ≡ c.out_pend_max)
      × (d.pending ≡ c.pending + length buf)
      × (d.sent ≡ c.sent)
unfolding queue queue_close
queue_room buf c v a h =
    let r = v.ranged in
    elim (Bool-cases (length buf == 0)) [
      | inl z ↦ (c, simp (a, z) refl, a, refl, ground arith, refl)
      | inr z ↦
          let o : ltb (size_t (c.out_pend_max + 2 ^ 64 - c.pending)) (length buf) ≡ false =
            ground arith in
          let d = record c {
            items = c.items ++ raw buf ∷ [];
            itemcount = c.itemcount + 1;
            pending = c.pending + length buf;
          } in
          (d, simp (a, z, o) refl, a, refl, refl, refl)
    ]

-- A client that has sent and holds the bytes of messages, and is within its limit
pub record Carries (sent : List TxMessage) (c : Outbound) : Type 0 where
  pub counted : IsCounted c
  pub accepts : c.acceptmore ≡ true
  pub carried : stream c ≡ frames sent

pub frames-append : (ms ns : List TxMessage) → frames (ms ++ ns) ≡ frames ms ++ frames ns
frames-append [] ns = refl
frames-append (m ∷ ms) ns =
    rw (frames-append ms ns) (sym (append_assoc (bytes_of m) (frames ms) (frames ns)))

Carries-queue :
    (sent : List TxMessage) (m : TxMessage) (c d : Outbound)
    → Carries sent c
    → queue (bytes_of m) false c ≡ (queued, d)
    → d.acceptmore ≡ true
    → d.sent ≡ c.sent
    → Carries (sent ++ m ∷ []) d
Carries-queue sent m c d v e a f =
    let effect =
      subst (λ r. QueueEffect (bytes_of m) c r.0 r.1) e (queue_lem (bytes_of m) false c) in
    record {
      counted = subst (λ r. IsCounted r.1) e (queue-IsCounted (bytes_of m) false c v.counted);
      accepts = a;
      carried =
          ap (λ x. x ++ backlog d.items) f
          ∙ ap (λ x. c.sent ++ x) effect.1
          ∙ sym (append_assoc c.sent (backlog c.items) (bytes_of m))
          ∙ ap (λ x. x ++ bytes_of m) v.carried
          ∙ sym
              (frames-append sent (m ∷ []) ∙ ap (λ x. frames sent ++ x) (append-nil (bytes_of m)));
    }

pub enqueue_one :
    (sent : List TxMessage) (m : TxMessage) (s : AdminSession) (c : Outbound)
    → s.session_valid ≡ true
    → s.io_handle ≡ some c
    → Carries sent c
    → IsClean m
    → c.pending + length (bytes_of m) ≤ c.out_pend_max
    → (d : Outbound) × (enqueue_to_send m s ≡ (false, record s { io_handle = some d }))
      × Carries (sent ++ m ∷ []) d
      × (d.pending ≡ c.pending + length (bytes_of m))
      × (d.out_pend_max ≡ c.out_pend_max)
enqueue_one sent m s c v h w cl r =
    let q = queue_room (bytes_of m) c w.counted w.accepts r in
    let k = cl.short in
    let e = enqueue_to_send-frame m s (omega arith) v in
    (
      q.0,
      e ∙ (unfold queue_bytes in simp (h, q.1, queue_bytes) refl),
      Carries-queue sent m c q.0 w q.1 q.2 q.5,
      q.4,
      q.3,
    )

pub enqueue_all_lem :
    (sent ms : List TxMessage) (s : AdminSession) (c : Outbound)
    → s.session_valid ≡ true
    → s.io_handle ≡ some c
    → Carries sent c
    → AllClean ms
    → c.pending + length (frames ms) ≤ c.out_pend_max
    → (d : Outbound) × (enqueue_all ms s ≡ record s { io_handle = some d }) × Carries (sent ++ ms) d
unfolding enqueue_all
enqueue_all_lem sent [] s c v h w cl r =
    (c, simp (sym h) refl, subst (λ l. Carries l c) (sym (append-nil sent)) w)
enqueue_all_lem sent (m ∷ ms) s c v h w cl r =
    let room = length-append (bytes_of m) (frames ms) in
    let o = enqueue_one sent m s c v h w cl.0 (omega arith) in
    let t = record s { io_handle = some o.0 } in
    let n = o.3 in
    let x = o.4 in
    let rest = enqueue_all_lem (sent ++ m ∷ []) ms t o.0 v refl o.2 cl.1 (omega arith) in
    (rest.0, rw o.1 rest.1, subst (λ l. Carries l rest.0) (append_assoc sent (m ∷ []) ms) rest.2)

-- Any first bytes of messages are a number of whole messages and a proper prefix of one more.
abbrev Cut : List TxMessage → ℕ → Type 0
Cut ms n =
    (k j : ℕ) × (last : TxMessage) × (take n (frames ms)
      ≡ frames (take k ms) ++ take j (bytes_of last))
    × IsClean last
    × AllClean (take k ms)
    × (j < length (bytes_of last))
    × (length (frames ms) ≤ n → take k ms ≡ ms)

blank-IsClean : IsClean blank_message
unfolding wire_body wire
blank-IsClean = record { type = ground arith; names = tt; unique = tt; short = omega arith }

Cut-frames : (ms : List TxMessage) (n : ℕ) → AllClean ms → Cut ms n
Cut-frames [] n cl =
    (0, 0, blank_message, take_nil n, blank-IsClean, tt, frame_size blank_message, λ h. refl)
  where
    take_nil : (n : ℕ) → take n (frames []) ≡ []
    take_nil zero = refl
    take_nil (suc n) = refl
Cut-frames (m ∷ ms) n cl = elim (Bool-cases (ltb n (length (bytes_of m)))) [
  | inl e ↦
      let h : n < length (bytes_of m) = ground arith in
      (
        0,
        n,
        m,
        take-append_le n (bytes_of m) (frames ms) (omega arith),
        cl.0,
        tt,
        h,
        λ le. absurd (omega (arith, length-append (bytes_of m) (frames ms))),
      )
  | inr e ↦
      let r = Cut-frames ms (n - length (bytes_of m)) cl.1 in
      let h : n ≡ length (bytes_of m) + (n - length (bytes_of m)) = ground arith in
      (
        suc r.0,
        r.1,
        r.2,
        take-append_ge n (n - length (bytes_of m)) (bytes_of m) (frames ms) h
            ∙ ap (λ x. bytes_of m ++ x) r.3
            ∙ sym (append_assoc (bytes_of m) (frames (take r.0 ms)) (take r.1 (bytes_of r.2))),
        r.4,
        (cl.0, r.5),
        r.6,
        λ le. ap (λ x. m ∷ x) (r.7 (omega (arith, length-append (bytes_of m) (frames ms)))),
      )
]

pub new_outbound-Carries : Carries [] new_outbound
unfolding new_outbound backlog
new_outbound-Carries = record { counted = new_outbound-IsCounted; accepts = refl; carried = refl }

prefix_of : (xs ys zs : Bytes) → xs ++ ys ≡ zs → xs ≡ take (length xs) zs
prefix_of xs ys zs e =
    sym (ap (take (length xs)) (sym e) ∙ take-append_length xs ys (length xs) refl)

none_left :
    {A : Type 0} (l n : ℕ) (xs ys : A) (waiting : Bytes)
    → n + length waiting ≡ l
    → (l ≤ n → xs ≡ ys)
    → (xs ≡ ys) ⊎ (0 < length waiting)
none_left l n xs ys [] h f = inl (f (omega arith))
none_left l n xs ys (x ∷ waiting) h f = inr (omega arith)

-- From one side to the other: clean messages, of 100 MB in all at most, are enqueued in a
-- session with a new client; the socket answers handle_output in any way; the peer's read buffer
-- holds what was sent. Then the peer's delivery loop ends, having handled the first k of the
-- messages, once each and in their order, with no protocol error; what was sent is their bytes
-- and what is left in its buffer; and either these are all the messages or bytes still wait to
-- be sent.
pub delivery_lem :
    {S : Type 0} (io_onmsg : TxMessage → S → S) (protocol_error : Error → S → S)
    (ms : List TxMessage) (s : AdminSession) (d e : Outbound) (rs : List SendResult) (r : IoState)
    (b : ReactorReadBuffer) (st : S)
    → s.session_valid ≡ true
    → s.io_handle ≡ some new_outbound
    → AllClean ms
    → length (frames ms) ≤ 100 * 1024 * 1024
    → (enqueue_all ms s).io_handle ≡ some d
    → handle_output rs d.items d ≡ ok (r, e)
    → IsSound b
    → unread b ≡ e.sent
    → (k : ℕ) × (c : ReactorReadBuffer) × (deliver (process_input io_onmsg protocol_error) b st
        ≡ ok (c, handle_all io_onmsg (take k ms) st))
      × (e.sent ≡ frames (take k ms) ++ unread c)
      × ((take k ms ≡ ms) ⊎ (0 < length (backlog e.items)))
delivery_lem io_onmsg protocol_error ms s d e rs r b st v h cl room q out sound u =
    let a =
      enqueue_all_lem [] ms s new_outbound v h new_outbound-Carries cl
        (unfold new_outbound in omega (arith, room)) in
    let same : a.0 ≡ d =
      ap (λ o. elim o [ some x ↦ x | none ↦ d ]) (ap (λ x. x.io_handle) (sym a.1) ∙ q) in
    let w : Carries ms d = subst (Carries ms) same a.2 in
    let o = handle_output_lem rs d w.counted.counted in
    let written : o.1 ≡ e = ap (λ x. elim x [ ok y ↦ y.1 | err _ ↦ e ]) (sym o.2 ∙ out) in
    let all : e.sent ++ backlog e.items ≡ frames ms = ap stream (sym written) ∙ o.4 ∙ w.carried in
    let n = length e.sent in
    let p = prefix_of e.sent (backlog e.items) (frames ms) all in
    let t = Cut-frames ms n cl in
    let l =
      deliver_lem io_onmsg protocol_error (take t.0 ms) t.2 t.1 b st t.5 t.4 t.6 sound
        (omega (
          arith,
          length-unread b sound,
          ap length u,
          ap length all,
          length-append e.sent (backlog e.items),
        ))
        (u ∙ p ∙ t.3) in
    (
      t.0,
      l.0,
      l.1,
      p ∙ t.3 ∙ ap (λ x. frames (take t.0 ms) ++ x) (sym l.4),
      none_left (length (frames ms)) n (take t.0 ms) ms (backlog e.items)
          (sym (length-append e.sent (backlog e.items)) ∙ ap length all) t.7,
    )

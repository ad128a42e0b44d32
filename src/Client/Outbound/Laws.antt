-- ===== src/Client/Outbound/Laws.antt =====
-- The outbound queue keeps count and stays below its limit; the effect of a queue call.
use exio.Prelude.{
  ℕ, ◌+◌, ◌-◌, ◌≤◌, ◌<◌, ◌^◌, ◌≡◌, refl, ◌∙◌, ap, sym, Bool, true, false, not, List, [], ◌∷◌, ◌++◌,
  Bytes, length, length-append, append_assoc, append-nil, ltb, ◌==◌, if◌then◌else◌, arith,
  Bool-cases, inl, inr,
}
use exio.SamBuffer.Defs.{size_t}
use exio.Client.Outbound.{
  RawMsg, raw, sentinel, Outbound, new_outbound, do_shutdown, QueueResult, queued, overflowed,
  refused, queue_close, queue,
}

-- The bytes that the queue holds, and their number.
abbrev pub item_bytes : RawMsg → Bytes
item_bytes (raw bytes) = bytes
item_bytes sentinel = []

unfoldable pub backlog : List RawMsg → Bytes
backlog [] = []
backlog (m ∷ ms) = item_bytes m ++ backlog ms

pub backlog-append : (ms ns : List RawMsg) → backlog (ms ++ ns) ≡ backlog ms ++ backlog ns
unfolding backlog
backlog-append [] ns = refl
backlog-append (m ∷ ms) ns = rw (backlog-append ms ns, append_assoc)

-- The invariant: both counters are right, and the limit holds. That the counters have 64 bits is
-- the bound on the limit.
pub record IsCounted (c : Outbound) : Type 0 where
  pub counted : c.itemcount ≡ length c.items
  pub summed : c.pending ≡ length (backlog c.items)
  pub limited : c.pending ≤ c.out_pend_max
  pub ranged : c.out_pend_max < 2 ^ 64

pub new_outbound-IsCounted : IsCounted new_outbound
unfolding new_outbound backlog
new_outbound-IsCounted = record {
  counted = refl;
  summed = refl;
  limited = omega arith;
  ranged = omega arith;
}

queue_close-IsCounted : (b : Bool) (c : Outbound) → IsCounted c → IsCounted (queue_close b c)
unfolding queue_close
queue_close-IsCounted true c v = record {
  counted = omega (arith, length-append c.items (sentinel ∷ []), v.counted);
  summed =
      v.summed
      ∙ ap length (sym (append-nil (backlog c.items)))
      ∙ ap length (sym (backlog-append c.items (sentinel ∷ []) ∙ unfold backlog in refl));
  limited = v.limited;
  ranged = v.ranged;
}
queue_close-IsCounted false c v = v

do_shutdown-IsCounted : (c : Outbound) → IsCounted c → IsCounted (do_shutdown c)
unfolding do_shutdown
do_shutdown-IsCounted c v = ground (arith, v.counted, v.summed, v.limited, v.ranged)

-- What a call of queue does to the bytes that are waiting, by its result: `queued` adds the new ones
-- at the end, and the others add nothing and leave the queue closed to further calls.
abbrev pub QueueEffect : Bytes → Outbound → QueueResult → Outbound → Type 0
QueueEffect buf c queued d = (c.acceptmore ≡ true) × (backlog d.items ≡ backlog c.items ++ buf)
QueueEffect buf c overflowed d = (d.acceptmore ≡ false) × (d.items ≡ c.items)
QueueEffect buf c refused d = (c.acceptmore ≡ false) × (d ≡ c)

queue_close-backlog : (b : Bool) (c : Outbound) → backlog (queue_close b c).items ≡ backlog c.items
unfolding queue_close
queue_close-backlog true c =
    backlog-append c.items (sentinel ∷ []) ∙ (unfold backlog in append-nil (backlog c.items))
queue_close-backlog false c = refl

unfoldable push_raw : (buf : Bytes) (c : Outbound) → Outbound
push_raw buf c = record c {
  items = c.items ++ raw buf ∷ [];
  itemcount = c.itemcount + 1;
  pending = c.pending + length buf;
}

push_raw-backlog :
    (buf : Bytes) (c : Outbound) → backlog (c.items ++ raw buf ∷ []) ≡ backlog c.items ++ buf
push_raw-backlog buf c =
    backlog-append c.items (raw buf ∷ [])
    ∙ (unfold backlog in ap (λ l. backlog c.items ++ l) (append-nil buf))

room : (p m n : ℕ) → p ≤ m → m < 2 ^ 64 → ltb (size_t (m + 2 ^ 64 - p)) n ≡ false → p + n ≤ m
room p m n h k e = ground arith

push_raw-IsCounted :
    (buf : Bytes) (c : Outbound)
    → IsCounted c
    → ltb (size_t (c.out_pend_max + 2 ^ 64 - c.pending)) (length buf) ≡ false
    → IsCounted (push_raw buf c)
unfolding push_raw
push_raw-IsCounted buf c v o = record {
  counted = omega (arith, length-append c.items (raw buf ∷ []), v.counted);
  summed =
      omega
        (arith, v.summed, ap length (push_raw-backlog buf c), length-append (backlog c.items) buf);
  limited = room c.pending c.out_pend_max (length buf) v.limited v.ranged o;
  ranged = v.ranged;
}

unfoldable closed : Outbound → Outbound
closed c = do_shutdown (record c { acceptmore = false })

closed-IsCounted : (c : Outbound) → IsCounted c → IsCounted (closed c)
unfolding closed do_shutdown
closed-IsCounted c v = ground (arith, v.counted, v.summed, v.limited, v.ranged)

closed_lem : (c : Outbound) → ((closed c).acceptmore ≡ false) × ((closed c).items ≡ c.items)
unfolding closed do_shutdown
closed_lem c = elim (Bool-cases c.io_closed) [
  | inl e ↦ rw e (refl, refl)
  | inr e ↦ rw e (refl, refl)
]

nothing_added :
    (buf : Bytes) (c : Outbound)
    → (length buf == 0) ≡ true
    → backlog c.items ≡ backlog c.items ++ buf
nothing_added [] c z = sym (append-nil (backlog c.items))
nothing_added (x ∷ buf) c z = absurd (ground arith)

-- The body of queue, its three tests passed in.
unfoldable queue_by : Bool → Bool → Bool → Bytes → Bool → Outbound → QueueResult × Outbound
queue_by accepts none_given over buf b c =
    if not accepts
    then (refused, c)
    else if none_given
    then (queued, queue_close b c)
    else if over
    then (overflowed, closed c)
    else (queued, queue_close b (push_raw buf c))

unfoldable is_over : Bytes → Outbound → Bool
is_over buf c = ltb (size_t (c.out_pend_max + 2 ^ 64 - c.pending)) (length buf)

queue_by-IsCounted :
    (a z o : Bool) (buf : Bytes) (b : Bool) (c : Outbound)
    → IsCounted c
    → is_over buf c ≡ o
    → IsCounted (queue_by a z o buf b c).1
unfolding queue_by is_over
queue_by-IsCounted false z o buf b c v e = v
queue_by-IsCounted true true o buf b c v e = queue_close-IsCounted b c v
queue_by-IsCounted true false true buf b c v e = closed-IsCounted c v
queue_by-IsCounted true false false buf b c v e =
    queue_close-IsCounted b (push_raw buf c) (push_raw-IsCounted buf c v e)

queue_by_lem :
    (a z o : Bool) (buf : Bytes) (b : Bool) (c : Outbound)
    → c.acceptmore ≡ a
    → (length buf == 0) ≡ z
    → QueueEffect buf c (queue_by a z o buf b c).0 (queue_by a z o buf b c).1
unfolding queue_by
queue_by_lem false z o buf b c e f = (e, refl)
queue_by_lem true true o buf b c e f = (e, queue_close-backlog b c ∙ nothing_added buf c f)
queue_by_lem true false true buf b c e f = closed_lem c
queue_by_lem true false false buf b c e f =
    (e, queue_close-backlog b (push_raw buf c) ∙ (unfold push_raw in push_raw-backlog buf c))

-- If both counters are right, and the pending bytes are within a limit below 2 ^ 64, then a
-- queue call keeps it so, whatever its outcome.
pub queue-IsCounted :
    (buf : Bytes) (b : Bool) (c : Outbound) → IsCounted c → IsCounted (queue buf b c).1
unfolding queue push_raw closed queue_by is_over
queue-IsCounted buf b c v =
    queue_by-IsCounted c.acceptmore (length buf == 0) (is_over buf c) buf b c v refl

-- Each result of a queue call and its effect on the bytes that wait: queued adds the buffer
-- behind them, overflowed leaves them and closes the queue to further calls, and refused, the
-- answer of a closed queue, changes nothing.
pub queue_lem :
    (buf : Bytes) (b : Bool) (c : Outbound) → QueueEffect buf c (queue buf b c).0 (queue buf b c).1
unfolding queue push_raw closed queue_by is_over
queue_lem buf b c = queue_by_lem c.acceptmore (length buf == 0) (is_over buf c) buf b c refl refl

-- ===== src/Client/Inbound/Frames.antt =====
-- Messages are taken off a stream one by one, and an incomplete one waits.
use exio.Prelude.{
  ℕ, zero, suc, ◌+◌, ◌^◌, ◌%◌, ◌≤◌, ltb, take_all, ◌<◌, ◌≡◌, refl, ap, ◌∙◌, true, false, List, [],
  ◌∷◌, ◌++◌, append_assoc, Bytes, length, length-append, take, drop, drop-append_length, arith,
  ◌==◌, Bool-cases, inl, inr, lt→ltb,
}
use exio.Error.{Error, ok}
use exio.ReadBuffer.{ReactorReadBuffer, unread, consume, shift_pending_to_array_start}
use exio.ReadBuffer.Laws.{
  IsSound, length-unread, consume-IsSound, unread-consume, shift-IsSound, unread-shift,
}
use exio.Sam.Container.{TxMessage}
use exio.Sam.Encode.Wire.{wire_body}
use exio.SamBuffer.Header.{frame, message_length_lem, length-frame}
use exio.Sam.Decode.Message.{IsClean, decode_msg-frame, decode_msg-cut}
use exio.Client.Inbound.{deliver_loop, deliver, in_int, process_input, blank_message}

abbrev pub bytes_of : TxMessage → Bytes
bytes_of msg = frame (wire_body msg)

-- The bytes of messages behind each other
abbrev pub frames : List TxMessage → Bytes
frames [] = []
frames (m ∷ ms) = bytes_of m ++ frames ms

abbrev pub AllClean : List TxMessage → Type 0
AllClean [] = Unit {0}
AllClean (m ∷ ms) = IsClean m × AllClean ms

pub frame_size : (msg : TxMessage) → 0 < length (bytes_of msg)
frame_size msg =
    omega (arith, length-frame (wire_body msg), message_length_lem (length (wire_body msg) + 9))

split :
    (m : TxMessage) (ms : List TxMessage) (last : TxMessage) (k : ℕ)
    → frames (m ∷ ms) ++ take k (bytes_of last)
      ≡ bytes_of m ++ (frames ms ++ take k (bytes_of last))
split m ms last k = append_assoc (bytes_of m) (frames ms) (take k (bytes_of last))

fits :
    (m : TxMessage) (rest : Bytes) (b : ReactorReadBuffer)
    → IsSound b
    → unread b ≡ bytes_of m ++ rest
    → length (bytes_of m) ≤ b.bytesavail
fits m rest b v e = omega (arith, length-unread b v, ap length e, length-append (bytes_of m) rest)

busy_lem : (n a : ℕ) → 0 < n → n ≤ a → (a == 0) ≡ false
busy_lem n a p q = ground arith

fewer :
    (n fuel : ℕ) (b : ReactorReadBuffer)
    → 0 < n
    → b.bytesavail ≤ suc fuel
    → (consume n b).bytesavail ≤ fuel
unfolding consume
fewer n fuel b p le = omega arith

smaller :
    (n : ℕ) (b : ReactorReadBuffer) → b.bytesavail < 2 ^ 31 → (consume n b).bytesavail < 2 ^ 31
unfolding consume
smaller n b h = omega arith

-- The messages handled in their order
abbrev pub handle_all : {S : Type 0} → (TxMessage → S → S) → List TxMessage → S → S
handle_all io_onmsg [] s = s
handle_all io_onmsg (m ∷ ms) s = handle_all io_onmsg ms (io_onmsg m s)

-- Below 2 ^ 31 bytes decodeMsg is given them all.
in_int_lem : (src : Bytes) → length src < 2 ^ 31 → in_int src ≡ src
unfolding in_int
in_int_lem src h =
    let e : length src % 2 ^ 32 ≡ length src = omega arith in
    let small : ltb (length src) (2 ^ 31) ≡ true = ground arith in
    rw (e, small) (take_all (length src) src (omega arith))

module _ {S : Type 0} (io_onmsg : TxMessage → S → S) (protocol_error : Error → S → S) where
  process_frame :
      (msg : TxMessage) (rest : Bytes) (s : S)
      → IsClean msg
      → length (bytes_of msg ++ rest) < 2 ^ 31
      → process_input io_onmsg protocol_error (bytes_of msg ++ rest) s
        ≡ (io_onmsg msg s, length (bytes_of msg))
  unfolding process_input
  process_frame msg rest s v l =
      rw
        (
          in_int_lem (bytes_of msg ++ rest) l,
          decode_msg-frame blank_message msg rest v,
          process_input,
          lt→ltb 0 (length (bytes_of msg)) (frame_size msg),
        )
        refl

  process_cut :
      (msg : TxMessage) (k : ℕ) (s : S)
      → IsClean msg
      → k < length (bytes_of msg)
      → length (take k (bytes_of msg)) < 2 ^ 31
      → process_input io_onmsg protocol_error (take k (bytes_of msg)) s ≡ (s, 0)
  unfolding process_input
  process_cut msg k s v h l =
      rw
        (
          in_int_lem (take k (bytes_of msg)) l,
          decode_msg-cut blank_message msg k v h,
          process_input,
        )
        refl

  -- What the loop comes to
  abbrev Delivered : List TxMessage → TxMessage → ℕ → ℕ → ReactorReadBuffer → S → Type 0
  Delivered ms last k fuel b s =
      (c : ReactorReadBuffer) × (deliver_loop (process_input io_onmsg protocol_error) fuel b s
        ≡ ok (c, handle_all io_onmsg ms s))
      × IsSound c
      × (unread c ≡ take k (bytes_of last))

  deliver_last :
      (last : TxMessage) (k fuel : ℕ) (b : ReactorReadBuffer) (s : S)
      → IsClean last
      → k < length (bytes_of last)
      → IsSound b
      → b.bytesavail < 2 ^ 31
      → b.bytesavail ≤ fuel
      → unread b ≡ take k (bytes_of last)
      → Delivered [] last k fuel b s
  unfolding deliver_loop
  deliver_last last k zero b s w h v small le e =
      let z : (b.bytesavail == 0) ≡ true = ground arith in (b, rw z refl, v, e)
  deliver_last last k (suc fuel) b s w h v small le e = elim (Bool-cases (b.bytesavail == 0)) [
    | inl z ↦ (b, rw z refl, v, e)
    | inr z ↦ (
      b,
      rw (z, e, process_cut last k s w h (omega (arith, length-unread b v, ap length e))) refl,
      v,
      e,
    )
  ]

  deliver_step :
      (m : TxMessage) (rest : Bytes) (ms : List TxMessage) (last : TxMessage) (k fuel : ℕ)
      (b : ReactorReadBuffer) (s : S)
      → IsClean m
      → unread b ≡ bytes_of m ++ rest
      → (b.bytesavail == 0) ≡ false
      → length (bytes_of m ++ rest) < 2 ^ 31
      → Delivered ms last k fuel (consume (length (bytes_of m)) b) (io_onmsg m s)
      → Delivered (m ∷ ms) last k (suc fuel) b s
  unfolding deliver_loop
  deliver_step m rest ms last k fuel b s v e z l d = (
    d.0,
    rw (e, process_frame m rest s v l, z, lt→ltb 0 (length (bytes_of m)) (frame_size m)) (d.1),
    d.2,
    d.3,
  )

  deliver_all :
      (ms : List TxMessage) (last : TxMessage) (k fuel : ℕ) (b : ReactorReadBuffer) (s : S)
      → AllClean ms
      → IsClean last
      → k < length (bytes_of last)
      → IsSound b
      → b.bytesavail < 2 ^ 31
      → b.bytesavail ≤ fuel
      → unread b ≡ frames ms ++ take k (bytes_of last)
      → Delivered ms last k fuel b s
  deliver_all [] last k fuel b s c w h v small le e = deliver_last last k fuel b s w h v small le e
  deliver_all (m ∷ ms) last k zero b s c w h v small le e = absurd (
      omega (
        arith,
        fits m (frames ms ++ take k (bytes_of last)) b v (e ∙ split m ms last k),
        frame_size m,
      ))
  deliver_all (m ∷ ms) last k (suc fuel) b s c w h v small le e =
      let rest = frames ms ++ take k (bytes_of last) in
      let n = length (bytes_of m) in
      let e' : unread b ≡ bytes_of m ++ rest = e ∙ split m ms last k in
      let room = fits m rest b v e' in
      let busy : (b.bytesavail == 0) ≡ false = busy_lem n b.bytesavail (frame_size m) room in
      let less = fewer n fuel b (frame_size m) le in
      let whole : length (bytes_of m ++ rest) < 2 ^ 31 =
        omega (arith, length-unread b v, ap length e') in
      deliver_step m rest ms last k fuel b s c.0 e' busy whole (
        deliver_all ms last k fuel (consume n b) (io_onmsg m s) c.1 w h (consume-IsSound n b v room)
          (smaller n b small) less
          (unread-consume n b v room
            ∙ ap (drop n) e'
            ∙ drop-append_length (bytes_of m) rest n refl))

-- On a sound read buffer with fewer than 2 ^ 31 bytes, which are those of clean messages and
-- behind them a proper prefix of the bytes of another, perhaps empty, the delivery loop comes to
-- an end: each message has been handled once, in their order, no protocol error has been raised,
-- and the prefix alone is left, at the start of a buffer that is sound.
pub deliver_lem :
    {S : Type 0} (io_onmsg : TxMessage → S → S) (protocol_error : Error → S → S)
    (ms : List TxMessage) (last : TxMessage) (k : ℕ) (b : ReactorReadBuffer) (s : S)
    → AllClean ms
    → IsClean last
    → k < length (bytes_of last)
    → IsSound b
    → b.bytesavail < 2 ^ 31
    → unread b ≡ frames ms ++ take k (bytes_of last)
    → (c : ReactorReadBuffer) × (deliver (process_input io_onmsg protocol_error) b s
        ≡ ok (c, handle_all io_onmsg ms s))
      × IsSound c
      × (c.rp ≡ 0)
      × (unread c ≡ take k (bytes_of last))
unfolding deliver
deliver_lem io_onmsg protocol_error ms last k b s c w h v small e =
    let d =
      deliver_all io_onmsg protocol_error ms last k b.bytesavail b s c w h v small (omega arith)
        e in
    let t = unread-shift d.0 d.2 in
    (
      shift_pending_to_array_start d.0,
      rw (d.1, deliver) refl,
      shift-IsSound d.0 d.2,
      t.1,
      t.0 ∙ d.3,
    )

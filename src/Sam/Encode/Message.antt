-- ===== src/Sam/Encode/Message.antt =====
-- encodeMsg into a new buffer: it succeeds, and leaves the framed reference encoding.
use exio.Prelude.{
  ℕ, ◌+◌, ◌≤◌, ◌<◌, ◌^◌, ◌≡◌, ◌∙◌, ap, sym, Bytes, ◌++◌, length, replicate, length-replicate,
  drop-append_length, length-take, arith, ltb, Bool-cases, inl, inr,
}
use exio.Error.{ok}
use exio.Sam.Container.{TxMessage}
use exio.SamBuffer.Defs.{DynamicSamBuffer, new_buffer, contents, msg_size}
use exio.SamBuffer.Append.{IsWithin, written}
use exio.SamBuffer.Header.{frame, encode_header_lem, length-contents}
use exio.Sam.Encode.{encode_msg}
use exio.Sam.Encode.Wire.{wire_body, Writes-encode_body}

new_buffer-IsWithin : (reserve m : ℕ) → reserve ≤ m → 200 ≤ m → IsWithin m (new_buffer reserve)
unfolding new_buffer
new_buffer-IsWithin reserve m p q =
    let len = λ (n : ℕ). length-replicate {A = ℕ} n 0 in
    ground (arith, len reserve, len (reserve + 100))

length-written : (reserve : ℕ) → length (written (new_buffer reserve)) ≡ 100
unfolding new_buffer
length-written reserve = elim (Bool-cases (ltb reserve 100)) [
  | inl e ↦ rw e (
      omega (
        arith,
        length-take {A = ℕ} 100 (replicate (reserve + 100) 0),
        length-replicate {A = ℕ} (reserve + 100) 0,
      ))
  | inr e ↦ rw e (
      let p : 100 ≤ reserve = ground arith in
      omega
        (arith, length-take {A = ℕ} 100 (replicate reserve 0), length-replicate {A = ℕ} reserve 0))
]

-- The bytes that an action appends to a new buffer are its contents.
contents-Writes :
    (reserve : ℕ) (sb : DynamicSamBuffer) (src : Bytes)
    → sb.start ≡ 100
    → sb.wptr ≡ 100 + length src
    → written sb ≡ written (new_buffer reserve) ++ src
    → contents sb ≡ src
unfolding contents
contents-Writes reserve sb src st wp w =
    rw (st, w)
      (drop-append_length (written (new_buffer reserve)) src 100 (sym (length-written reserve)))

-- encodeMsg into a new buffer succeeds for a message whose body and whose reserve are below 2 ^
-- 31 bytes, and leaves the frame of the reference encoding of the body, whose length it returns.
pub encode_msg_lem :
    (msg : TxMessage) (reserve : ℕ)
    → length (wire_body msg) < 2 ^ 31
    → reserve < 2 ^ 31
    → (sb : DynamicSamBuffer) × (encode_msg msg (new_buffer reserve)
        ≡ ok (sb, length (contents sb)))
      × (contents sb ≡ frame (wire_body msg))
encode_msg_lem msg reserve h k =
    let m = reserve + 200 + length (wire_body msg) in
    let (sb₁, e₁, v₁, st₁, wp₁, w₁) =
      (Writes-encode_body msg).run m (new_buffer reserve)
        (new_buffer-IsWithin reserve m (omega arith) (omega arith))
        (unfold new_buffer in omega arith) (omega arith) in
    let start : sb₁.start ≡ 100 = (unfold new_buffer in st₁) in
    let c₁ : contents sb₁ ≡ wire_body msg =
      contents-Writes reserve sb₁ (wire_body msg) start (unfold new_buffer in wp₁) w₁ in
    let n₁ : msg_size sb₁ ≡ length (wire_body msg) =
      sym (length-contents sb₁ v₁.written) ∙ ap length c₁ in
    let (sb₂, e₂, c₂, n₂) = encode_header_lem m sb₁ v₁ (omega arith) (omega arith) in
    (
      sb₂,
      unfold encode_msg in rw (e₁, e₂) (ap (λ n. ok (sb₂, n)) (n₂ ∙ ap length (sym c₂))),
      c₂ ∙ ap frame c₁,
    )

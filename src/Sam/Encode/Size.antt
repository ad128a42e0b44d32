-- ===== src/Sam/Encode/Size.antt =====
-- The `_calc` twins of the encoder, against what the encoder writes.
use exio.Prelude.{
  ℕ, ◌+◌, ◌^◌, ◌<◌, ◌≤◌, ◌≡◌, Bytes, [], ◌∷◌, ◌++◌, length, drop, length-append, arith, true,
  leb→le, ap,
}
use exio.Sam.Chars.{
  seq_start, seq_end, field_delim, value_delim, meta_delim, msg_end, msg_delim, strcspn,
  special_chars, max_msg_len, mem_byte-special_chars,
}
use exio.Sam.Container.{Items, nil, field, child, TxMessage}
use exio.SamBuffer.Defs.{size_t}
use exio.SamBuffer.Decimal.{decimal}
use exio.SamBuffer.Header.{frame, message_length_lem, length-frame, message_length_99999}
use exio.Sam.Encode.{
  write_chars_calc, write_str_calc, encode_items_calc, encode_contents_calc, calc_encoded_size,
  check_enc_size,
}
use exio.Sam.Encode.Wire.{escaped, wire, wire_body}

write_chars_calc_lem : (s : Bytes) (n : ℕ) → write_chars_calc s n ≡ n + length (escaped s)
unfolding write_chars_calc escaped
write_chars_calc_lem [] n = omega arith
write_chars_calc_lem (c ∷ s) n =
    ground (arith, write_chars_calc_lem s (n + 1), write_chars_calc_lem s (n + 1 + 1))

length-escaped-strcspn :
    (s : Bytes)
    → length (escaped s)
      ≡ strcspn s special_chars + length (escaped (drop (strcspn s special_chars) s))
unfolding escaped strcspn
length-escaped-strcspn [] = omega arith
length-escaped-strcspn (c ∷ s) = ground (arith, mem_byte-special_chars c, length-escaped-strcspn s)

length-escaped_all :
    (s : Bytes) → strcspn s special_chars ≡ length s → length (escaped s) ≡ length s
unfolding escaped strcspn
length-escaped_all [] h = omega arith
length-escaped_all (c ∷ s) h = ground (arith, mem_byte-special_chars c, length-escaped_all s)

write_str_calc_lem : (s : Bytes) (n : ℕ) → write_str_calc s n ≡ n + length (escaped s)
unfolding write_str_calc
write_str_calc_lem s n = ground (
  arith,
  length-escaped_all s,
  length-escaped-strcspn s,
  write_chars_calc_lem (drop (strcspn s special_chars) s) (n + strcspn s special_chars),
)

encode_items_calc_lem : (xs : Items) (n : ℕ) → encode_items_calc xs n ≡ n + length (wire xs)
unfolding encode_items_calc wire
encode_items_calc_lem nil n = omega arith
encode_items_calc_lem (field name v xs) n =
    let m = n + length name + 1 in
    omega (
      arith,
      encode_items_calc_lem xs (write_str_calc v m + 1),
      write_str_calc_lem v m,
      length-append name (value_delim ∷ (escaped v ++ field_delim ∷ wire xs)),
      length-append (escaped v) (field_delim ∷ wire xs),
    )
encode_items_calc_lem (child name c xs) n =
    let m = n + length name + 1 + 1 in
    omega (
      arith,
      encode_items_calc_lem xs (encode_items_calc c m + 1 + 1),
      encode_items_calc_lem c m,
      length-append name (value_delim ∷ seq_start ∷ (wire c ++ seq_end ∷ field_delim ∷ wire xs)),
      length-append (wire c) (seq_end ∷ field_delim ∷ wire xs),
    )

calc_encoded_size-wire_body :
    (msg : TxMessage) → calc_encoded_size msg ≡ length (wire_body msg) + 14
unfolding calc_encoded_size encode_contents_calc wire_body
calc_encoded_size-wire_body msg =
    let n = length msg.name + 16 in
    let tail : Bytes = seq_end ∷ msg_end ∷ msg_delim ∷ [] in
    omega (
      arith,
      encode_items_calc_lem msg.items (0 + 1 + 7 + 1 + 5 + 1 + length msg.name + 1 + 1),
      length-append msg.name (meta_delim ∷ seq_start ∷ (wire msg.items ++ tail)),
      length-append (wire msg.items) tail,
    )

-- The size that calc_encoded_size predicts is that of the frame of the message, but for the
-- length field, which it takes to have five digits.
pub calc_encoded_size_lem :
    (msg : TxMessage)
    → calc_encoded_size msg + length (decimal (length (frame (wire_body msg))))
      ≡ length (frame (wire_body msg)) + 5
calc_encoded_size_lem msg =
    let p = length (wire_body msg) + 9 in
    let e = length-frame (wire_body msg) in
    omega (
      arith,
      calc_encoded_size-wire_body msg,
      e,
      ap (λ n. length (decimal n)) e,
      message_length_lem p,
    )

tested :
    (msg : TxMessage) (margin : ℕ)
    → calc_encoded_size msg + margin < 2 ^ 64
    → check_enc_size msg margin ≡ true
    → calc_encoded_size msg + margin ≤ max_msg_len
unfolding check_enc_size
tested msg margin near h =
    let le = leb→le (size_t (calc_encoded_size msg + margin)) max_msg_len h in omega arith

-- The frame of a message that check_enc_size lets pass has, with the margin, at most MAX_MSG_LEN
-- bytes, if both together are below 2 ^ 63, so that the sum of the code does not wrap around.
pub check_enc_size_sound :
    (msg : TxMessage) (margin : ℕ)
    → length (frame (wire_body msg)) + margin < 2 ^ 63
    → check_enc_size msg margin ≡ true
    → length (frame (wire_body msg)) + margin ≤ max_msg_len
check_enc_size_sound msg margin small h =
    let p = length (wire_body msg) + 9 in
    let near : calc_encoded_size msg + margin < 2 ^ 64 = omega (
      arith,
      calc_encoded_size-wire_body msg,
      length-frame (wire_body msg),
      message_length_lem p,
    ) in
    let le = tested msg margin near h in
    omega (
      arith,
      calc_encoded_size-wire_body msg,
      length-frame (wire_body msg),
      message_length_99999 p (omega (arith, calc_encoded_size-wire_body msg)),
    )

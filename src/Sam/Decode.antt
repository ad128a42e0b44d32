-- ===== src/Sam/Decode.antt =====
-- The decoder of libexio/sam.cc: decodeMsg and decode. A pointer `p` and its end are the list of the
-- bytes from the one to the other; a pointer past the end is the empty list, since the code only
-- tests `p < end`. An exception drops the message that was partly filled.
pub mod Scan
pub mod RoundTrip
pub mod Length
pub mod Total
pub mod Message
use exio.Prelude.{
  ℕ, zero, suc, ◌+◌, ◌-◌, ◌*◌, ◌%◌, Bytes, [], ◌∷◌, length, take, drop, get_elem?, ltb, leb, ◌==◌,
  ◌&&◌, ◌||◌, not, Bool, false, some, none, if◌then◌else◌, str_eq, Option,
}
use exio.Error.{
  Result, ok, err, ◌>>=◌, bad_sam_header, exceeds_maximum_length, bad_msglen, missing_message_type,
  expected_field_value_delim, no_field_value_delim, no_more_for_field_delim, expected_field_delim,
  out_of_fuel,
}
use exio.Sam.Chars.{
  msg_start, seq_start, seq_end, field_delim, value_delim, meta_delim, escape, sam0100, sam0101,
}
use exio.Sam.Container.{
  Items, nil, TxMessage, child_items, set_child, put_child, put_field, reset, set_type,
}

-- while (p < end and *p != delim) { if (*p == ESCAPE) p++; if (p < end) append(*p); p++; }
-- The text read and the bytes from `p` on.
unfoldable pub scan : ℕ → Bytes → Bytes × Bytes
scan delim [] = ([], [])
scan delim (c ∷ []) =
    if c == delim then ([], c ∷ []) else if c == escape then ([], []) else (c ∷ [], [])
scan delim (c ∷ e ∷ s) =
    let after = scan delim s in
    let plain = scan delim (e ∷ s) in
    if c == delim
    then ([], c ∷ e ∷ s)
    else if c == escape
    then (e ∷ after.0, after.1)
    else (c ∷ plain.0, plain.1)

-- The two tests behind a field name, and the step over the delimiter
unfoldable pub after_name : Bytes → Result Bytes
after_name [] = err expected_field_value_delim
after_name (d ∷ s) = if d == value_delim then ok s else err no_field_value_delim

-- The two tests behind a value
unfoldable pub after_value : Bytes → Result Bytes
after_value [] = err no_more_for_field_delim
after_value (d ∷ s) = if d == field_delim then ok s else err expected_field_delim

-- The value of a field: `sub` is the call of decode on a sub-container, past its bracket. With no
-- byte left the source reads one past the end; whatever it finds there, it fails at after_value.
unfoldable pub decode_value :
    (Items → Bytes → Result (Items × Bytes)) → Items → Bytes → Bytes → Result (Items × Bytes)
unfolding put_child put_field child_items set_child scan
decode_value sub parent name [] = ok (put_field name [] parent, [])
decode_value sub parent name (c ∷ s) =
    if c == seq_start
    then (do
      (items, rest) ← sub (child_items name (put_child name parent)) s
      ok (set_child name items (put_child name parent), rest))
    else (let (value, rest) = scan field_delim (c ∷ s) in ok (put_field name value parent, rest))

-- One round of the loop of decode(), and the rounds behind it
unfoldable pub decode_item :
    (Items → Bytes → Result (Items × Bytes)) → Items → Bytes → Result (Items × Bytes)
unfolding scan after_name decode_value after_value
decode_item loop parent s = do
  let (name, rest) = scan value_delim s
  rest₁ ← after_name rest
  (parent', rest₂) ← decode_value loop parent name rest₁
  rest₃ ← after_value rest₂
  loop parent' rest₃

-- decode() behind its opening bracket: the loop over the items
unfoldable pub decode_items : ℕ → Items → Bytes → Result (Items × Bytes)
unfolding decode_item
decode_items zero parent s = err out_of_fuel
decode_items (suc f) parent [] = ok (parent, [])
decode_items (suc f) parent (c ∷ s) =
    if c == seq_end then ok (parent, s) else decode_item (decode_items f) parent (c ∷ s)

-- decode(): the first byte is skipped, whatever it is.
unfoldable pub decode : Items → Bytes → Result (Items × Bytes)
decode parent p = decode_items (suc (length p)) parent (drop 1 p)

abbrev pub max_msglen : ℕ
max_msglen = 2147483647

abbrev pub is_digit : ℕ → Bool
is_digit c = leb b'0' c && leb c b'9'

-- The loop over the digits of msglen; `*p bitand 0x0F` is the remainder by 16.
unfoldable pub read_msglen : ℕ → Bytes → Result (ℕ × Bytes)
read_msglen msglen [] = ok (msglen, [])
read_msglen msglen (c ∷ s) =
    let msglen' = msglen * 10 + c % 16 in
    let more = read_msglen msglen' s in
    if is_digit c
    then (if ltb max_msglen msglen' then err exceeds_maximum_length else more)
    else ok (msglen, c ∷ s)

-- start[i] == c
abbrev pub byte_is : ℕ → ℕ → Bytes → Bool
byte_is i c s = elim (get_elem? s i) [ some d ↦ d == c | none ↦ false ]

-- The part of decodeMsg behind the message name `vs`
unfoldable pub decode_root : Bytes → TxMessage → Bytes → Result TxMessage
decode_root vs msg [] = err missing_message_type
decode_root vs msg (_ ∷ p) = do
  let fresh = set_type vs (reset msg)
  (items, _) ← decode fresh.items p
  ok (record { root = record { name = fresh.name; items = items } })

-- The part of decodeMsg behind `p++`: `body` runs from there to msgend.
unfoldable pub decode_body : TxMessage → Bytes → Result TxMessage
decode_body msg body = let (vs, rest) = scan meta_delim body in decode_root vs msg rest

-- The part of decodeMsg behind the loop over the digits, at `p`; `pos` is `p - start`.
unfoldable pub decode_sized : TxMessage → Bytes → ℕ → Bytes → Result (TxMessage × ℕ)
decode_sized msg start msglen [] = ok (msg, 0)
decode_sized msg start msglen (c ∷ p) =
    let pos = length start - length p in
    let version = take 7 (drop 1 start) in
    if c == meta_delim
    then (if ltb (length start) msglen
        then ok (msg, 0)
        else if str_eq version sam0100 || str_eq version sam0101
        then (do msg' ← decode_body msg (take (msglen - pos) p); ok (msg', msglen))
        else ok (msg, msglen))
    else err bad_msglen

-- decodeMsg(msg, start, len): the message and the number of bytes consumed; none if the message is
-- not there in full. A message of an unknown version is skipped.
unfoldable pub decode_msg : TxMessage → Bytes → Result (TxMessage × ℕ)
decode_msg msg start =
    let head_len : ℕ = 9 in
    if ltb (length start) head_len
    then ok (msg, 0)
    else if byte_is 0 msg_start start && byte_is 8 meta_delim start
    then (do (msglen, p) ← read_msglen 0 (drop head_len start); decode_sized msg start msglen p)
    else err bad_sam_header

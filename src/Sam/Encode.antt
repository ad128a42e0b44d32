-- ===== src/Sam/Encode.antt =====
-- The encoder of libexio/sam.cc: write_str, encode_contents, encodeMsg, and their `_calc` twins that
-- only count.
pub mod Wire
pub mod Message
pub mod Size
use exio.Prelude.{
  ℕ, ◌+◌, ◌≤◌, Bool, true, false, ◌||◌, Bytes, [], ◌∷◌, ◌++◌, length, take, drop, ◌==◌, leb,
  if◌then◌else◌,
}
use exio.Error.{Result, ok, ◌>>=◌}
use exio.Sam.Chars.{
  msg_start, msg_end, msg_delim, seq_start, seq_end, field_delim, value_delim, meta_delim, escape,
  special_chars, sam0100, max_msg_len, is_special_char, strcspn,
}
use exio.Sam.Container.{Items, nil, field, child, TxMessage}
use exio.SamBuffer.Defs.{DynamicSamBuffer, append, encode_header, msg_size, size_t}

-- The loop over the region from the first special character on.
unfoldable pub write_chars : Bytes → DynamicSamBuffer → Result DynamicSamBuffer
unfolding is_special_char
write_chars [] sb = ok sb
write_chars (c ∷ s) sb = do
  sb₁ ← if is_special_char c then append (escape ∷ []) sb else ok sb
  sb₂ ← append (c ∷ []) sb₁
  write_chars s sb₂

unfoldable pub write_str : Bytes → DynamicSamBuffer → Result DynamicSamBuffer
unfolding write_chars strcspn
write_str str sb =
    let accept = strcspn str special_chars in
    if accept == length str
    then append str sb
    else (append (take accept str) sb >>= write_chars (drop accept str))

unfoldable pub write_chars_calc : Bytes → ℕ → ℕ
unfolding is_special_char
write_chars_calc [] n = n
write_chars_calc (c ∷ s) n = write_chars_calc s ((if is_special_char c then n + 1 else n) + 1)

unfoldable pub write_str_calc : Bytes → ℕ → ℕ
unfolding write_chars_calc strcspn
write_str_calc str n =
    let accept = strcspn str special_chars in
    if accept == length str then n + length str else write_chars_calc (drop accept str) (n + accept)

-- The loop of encode_contents over the items; a child's own call of encode_contents is written out:
-- its brackets round its items.
unfoldable pub encode_items : Items → DynamicSamBuffer → Result DynamicSamBuffer
unfolding write_str
encode_items nil sb = ok sb
encode_items (field n v xs) sb = do
  sb₁ ← append n sb
  sb₂ ← append (value_delim ∷ []) sb₁
  sb₃ ← write_str v sb₂
  sb₄ ← append (field_delim ∷ []) sb₃
  encode_items xs sb₄
encode_items (child n c xs) sb = do
  sb₁ ← append n sb
  sb₂ ← append (value_delim ∷ []) sb₁
  sb₃ ← append (seq_start ∷ []) sb₂
  sb₄ ← encode_items c sb₃
  sb₅ ← append (seq_end ∷ []) sb₄
  sb₆ ← append (field_delim ∷ []) sb₅
  encode_items xs sb₆

unfoldable pub encode_contents : Items → DynamicSamBuffer → Result DynamicSamBuffer
unfolding encode_items
encode_contents xs sb = do
  sb₁ ← append (seq_start ∷ []) sb
  sb₂ ← encode_items xs sb₁
  append (seq_end ∷ []) sb₂

unfoldable pub encode_body : TxMessage → DynamicSamBuffer → Result DynamicSamBuffer
unfolding encode_contents
encode_body msg sb = do
  sb₁ ← append (meta_delim ∷ []) sb
  sb₂ ← append msg.name sb₁
  sb₃ ← append (meta_delim ∷ []) sb₂
  sb₄ ← encode_contents msg.items sb₃
  sb₅ ← append (msg_end ∷ []) sb₄
  append (msg_delim ∷ []) sb₅

-- encodeMsg: the buffer and the number of bytes
unfoldable pub encode_msg : TxMessage → DynamicSamBuffer → Result (DynamicSamBuffer × ℕ)
encode_msg msg sb = do sb₁ ← encode_body msg sb; sb₂ ← encode_header sb₁; ok (sb₂, msg_size sb₂)

-- encode_contents_calc, its loop first
unfoldable pub encode_items_calc : Items → ℕ → ℕ
unfolding write_str_calc
encode_items_calc nil n = n
encode_items_calc (field name v xs) n =
    encode_items_calc xs (write_str_calc v (n + length name + 1) + 1)
encode_items_calc (child name c xs) n =
    encode_items_calc xs (encode_items_calc c (n + length name + 1 + 1) + 1 + 1)

unfoldable pub encode_contents_calc : Items → ℕ → ℕ
unfolding encode_items_calc
encode_contents_calc xs n = encode_items_calc xs (n + 1) + 1

unfoldable pub calc_encoded_size : TxMessage → ℕ
unfolding encode_contents_calc
calc_encoded_size msg =
    encode_contents_calc msg.items (0 + 1 + 7 + 1 + 5 + 1 + length msg.name + 1) + 1 + 1

-- check_enc_size(msg, margin), whose sum is a size_t
unfoldable pub check_enc_size : TxMessage → ℕ → Bool
unfolding calc_encoded_size
check_enc_size msg margin = leb (size_t (calc_encoded_size msg + margin)) max_msg_len

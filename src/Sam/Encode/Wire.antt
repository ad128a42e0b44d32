-- ===== src/Sam/Encode/Wire.antt =====
-- What the encoder writes, as a plain function of the message, and that the code writes just that.
use exio.Prelude.{
  ℕ, ◌≡◌, refl, Bytes, append_assoc, Bool, true, false, ◌==◌, [], ◌∷◌, ◌++◌, length, take, drop,
  arith, if◌then◌else◌,
}
use exio.Error.{Result, ok, ◌>>=◌}
use exio.Sam.Chars.{
  msg_end, msg_delim, seq_start, seq_end, field_delim, value_delim, meta_delim, escape,
  is_special_char, strcspn, special_chars, mem_byte-special_chars,
}
use exio.Sam.Container.{Items, nil, field, child, TxMessage}
use exio.SamBuffer.Defs.{DynamicSamBuffer, append}
use exio.SamBuffer.Append.{Writes, Writes-append, Writes-ok, Writes-bind}
use exio.Sam.Encode.{write_chars, write_str, encode_items, encode_contents, encode_body}

-- A value with a backslash before each special character.
unfoldable pub escaped : Bytes → Bytes
escaped [] = []
escaped (c ∷ s) = if is_special_char c then escape ∷ c ∷ escaped s else c ∷ escaped s

unfoldable pub wire : Items → Bytes
wire nil = []
wire (field n v xs) = n ++ value_delim ∷ (escaped v ++ field_delim ∷ wire xs)
wire (child n c xs) = n ++ value_delim ∷ seq_start ∷ (wire c ++ seq_end ∷ field_delim ∷ wire xs)

-- From the end of the header on.
unfoldable pub wire_body : TxMessage → Bytes
wire_body msg =
    meta_delim
    ∷ (msg.name ++ meta_delim ∷ seq_start ∷ (wire msg.items ++ seq_end ∷ msg_end ∷ msg_delim ∷ []))

-- The prefix that `strcspn` accepts is written as it stands.
escaped-strcspn :
    (s : Bytes)
    → take (strcspn s special_chars) s ++ escaped (drop (strcspn s special_chars) s) ≡ escaped s
unfolding escaped strcspn
escaped-strcspn [] = refl
escaped-strcspn (c ∷ s) = ground (arith, mem_byte-special_chars c, escaped-strcspn s)

Writes-if :
    {src : Bytes} (b : Bool) (k l : DynamicSamBuffer → Result DynamicSamBuffer)
    → (b ≡ true → Writes src k)
    → (b ≡ false → Writes src l)
    → Writes src (λ sb. if b then k sb else l sb)
Writes-if true k l wk wl = wk refl
Writes-if false k l wk wl = wl refl

abbrev if_escape : ℕ → Bytes
if_escape c = if is_special_char c then escape ∷ [] else []

Writes-if_escape :
    (c : ℕ)
    → Writes (if_escape c) (λ sb. if is_special_char c then append (escape ∷ []) sb else ok sb)
Writes-if_escape c =
    Writes-if (is_special_char c) (append (escape ∷ [])) ok
      (λ e. rw e (Writes-append (escape ∷ []))) (λ e. rw e Writes-ok)

escaped-cons : (c : ℕ) (s : Bytes) → if_escape c ++ (c ∷ []) ++ escaped s ≡ escaped (c ∷ s)
unfolding escaped
escaped-cons c s = ground arith

module _ {s t : Bytes} {k l : DynamicSamBuffer → Result DynamicSamBuffer} where
  infixr 3 ◌then◌
  ◌then◌ : Writes s k → Writes t l → Writes (s ++ t) (λ sb. k sb >>= l)
  ◌then◌ = Writes-bind s t k l

escaped_all : (s : Bytes) → strcspn s special_chars ≡ length s → escaped s ≡ s
unfolding escaped strcspn
escaped_all [] h = refl
escaped_all (c ∷ s) h = ground (arith, mem_byte-special_chars c, escaped_all s)

Writes-write_chars : (s : Bytes) → Writes (escaped s) (write_chars s)
unfolding write_chars
Writes-write_chars [] = unfold escaped in Writes-ok
Writes-write_chars (c ∷ s) =
    rw (← escaped-cons c s, append_assoc)
      (Writes-if_escape c then Writes-append (c ∷ []) then Writes-write_chars s)

-- write_str writes its string with each special character escaped.
pub Writes-write_str : (s : Bytes) → Writes (escaped s) (write_str s)
unfolding write_str
Writes-write_str s =
    Writes-if (strcspn s special_chars == length s) (append s)
      (λ sb.
        append (take (strcspn s special_chars) s) sb
        >>= write_chars (drop (strcspn s special_chars) s))
      (λ e. rw (escaped_all s (ground arith)) (Writes-append s))
      (λ e. rw (← escaped-strcspn s) (
        Writes-append (take (strcspn s special_chars) s)
        then Writes-write_chars (drop (strcspn s special_chars) s)))

Writes-encode_items : (xs : Items) → Writes (wire xs) (encode_items xs)
unfolding wire encode_items
Writes-encode_items nil = Writes-ok
Writes-encode_items (field n v xs) =
    Writes-append n
    then Writes-append (value_delim ∷ [])
    then Writes-write_str v
    then Writes-append (field_delim ∷ [])
    then Writes-encode_items xs
Writes-encode_items (child n c xs) =
    Writes-append n
    then Writes-append (value_delim ∷ [])
    then Writes-append (seq_start ∷ [])
    then Writes-encode_items c
    then Writes-append (seq_end ∷ [])
    then Writes-append (field_delim ∷ [])
    then Writes-encode_items xs

wire_body_split :
    (msg : TxMessage)
    → wire_body msg
      ≡ (meta_delim ∷ [])
        ++ (msg.name
            ++ ((meta_delim ∷ [])
                ++ (((seq_start ∷ []) ++ (wire msg.items ++ seq_end ∷ []))
                    ++ ((msg_end ∷ []) ++ msg_delim ∷ []))))
unfolding wire_body
wire_body_split msg = simp append_assoc

-- From an action below the size limit to what it leaves: encodeMsg up to the header writes the
-- reference encoding of the body.
pub Writes-encode_body : (msg : TxMessage) → Writes (wire_body msg) (encode_body msg)
unfolding encode_body encode_contents
Writes-encode_body msg = rw (wire_body_split msg) (
    Writes-append (meta_delim ∷ [])
    then Writes-append msg.name
    then Writes-append (meta_delim ∷ [])
    then (Writes-append (seq_start ∷ [])
        then Writes-encode_items msg.items
        then Writes-append (seq_end ∷ []))
    then Writes-append (msg_end ∷ [])
    then Writes-append (msg_delim ∷ []))

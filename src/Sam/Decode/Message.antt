-- ===== src/Sam/Decode/Message.antt =====
-- decodeMsg on what encodeMsg wrote: the message comes back and what follows it stays; a part of it
-- consumes nothing.
use exio.Prelude.{
  ℕ, suc, ◌+◌, ◌-◌, ◌≤◌, ◌<◌, ◌^◌, ◌≡◌, refl, ◌∙◌, ◌⊎◌, ap, Bytes, [], ◌∷◌, ◌++◌, length, take,
  drop, append_assoc, append-nil, length-append, take-append_length, take-append_ge, take-append_le,
  length-take, arith, Bool-cases, inl, inr, leb, le→ltb, lt→ltb, str_eq, ◌&&◌, ◌||◌, true,
}
use native.Mathlib.Decide.{dec_le}
use exio.Error.{ok, ◌>>=◌}
use exio.Sam.Chars.{
  msg_start, meta_delim, seq_start, seq_end, msg_end, msg_delim, sam0100, sam0101, max_msg_len,
}
use exio.Sam.Container.{Items, nil, TxMessage, Unique, add_items, reset, set_type}
use exio.SamBuffer.Decimal.{decimal}
use exio.SamBuffer.Defs.{header}
use exio.SamBuffer.Header.{
  frame, version, message_length, message_length_lem, message_length_le, length-frame,
  length-header, length-version, length-decimal_10,
}
use exio.Sam.Encode.Wire.{wire, wire_body}
use exio.Sam.Decode.{
  scan, decode, decode_root, decode_body, decode_sized, decode_msg, read_msglen, max_msglen,
  byte_is,
}
use exio.Sam.Decode.Scan.{Plain, scan-Plain}
use exio.Sam.Decode.RoundTrip.{Named, decode_items-wire}
use exio.Sam.Decode.Length.{read_msglen-decimal, read_msglen-cut}

-- A message that survives the wire: its type and its names hold no byte by which the decoder would
-- cut them, and no two fields or children of a container share a name.
pub record IsClean (msg : TxMessage) : Type 0 where
  pub type : Plain meta_delim msg.name
  pub names : Named msg.items
  pub unique : Unique msg.items
  pub short : length (wire_body msg) < 2 ^ 31 - 100

-- The bytes of a body behind its first META_DELIM.
pub body_tail : TxMessage → Bytes
body_tail msg =
    msg.name ++ meta_delim ∷ seq_start ∷ (wire msg.items ++ seq_end ∷ msg_end ∷ msg_delim ∷ [])

wire_body-eq : (msg : TxMessage) → wire_body msg ≡ meta_delim ∷ body_tail msg
unfolding wire_body body_tail
wire_body-eq msg = refl

decode_body-scan :
    (m₀ : TxMessage) (body vs p r : Bytes) (d : ℕ) (items : Items)
    → scan meta_delim body ≡ (vs, d ∷ p)
    → decode nil p ≡ ok (items, r)
    → decode_body m₀ body ≡ ok (record { root = record { name = vs; items = items } })
unfolding decode_body decode_root reset set_type
decode_body-scan m₀ body vs p r d items e k = rw e (rw k)

decode_body-body_tail : (m₀ msg : TxMessage) → IsClean msg → decode_body m₀ (body_tail msg) ≡ ok msg
decode_body-body_tail m₀ msg c =
    let end : Bytes = msg_end ∷ msg_delim ∷ [] in
    let s : Bytes = seq_start ∷ (wire msg.items ++ seq_end ∷ end) in
    let r =
      decode_items-wire msg.items c.names c.unique (suc (length s)) nil end
        (omega (arith, length-append (wire msg.items) (seq_end ∷ end)))
        (unfold add_items in c.unique) in
    decode_body-scan m₀ (body_tail msg) msg.name s end meta_delim msg.items
      (unfold body_tail in scan-Plain meta_delim msg.name s c.type) (unfold decode add_items in r)

-- The two versions of the header.
version-cases : (full : ℕ) → (version full ≡ sam0100) ⊎ (version full ≡ sam0101)
version-cases full = elim (Bool-cases (leb full max_msg_len)) [
  | inl e ↦ inl (rw e)
  | inr e ↦ inr (rw e)
]

-- A start that begins with a header.
module _ (full : ℕ) (l t : Bytes) where
  abbrev Begins : Bytes → Type 0
  Begins s =
      (byte_is 0 msg_start s && byte_is 8 meta_delim s ≡ true)
      × (str_eq (take 7 (drop 1 s)) sam0100 || str_eq (take 7 (drop 1 s)) sam0101 ≡ true)
      × (drop 9 s ≡ l ++ t)
      × (length s ≡ 9 + length l + length t)

  header-Begins : Begins (header (version full) l ++ t)
  unfolding header
  header-Begins = elim (version-cases full) [
    | inl e ↦ rw e (refl, refl, refl, omega (arith, length-append l t))
    | inr e ↦ rw e (refl, refl, refl, omega (arith, length-append l t))
  ]

-- What decodeMsg does with a start that begins with a header and the digits of a length.
module _ (full : ℕ) (l t s : Bytes) (b : Begins full l t s) where
  decode_msg-Begins :
      (m₀ : TxMessage) (n : ℕ) (p : Bytes)
      → read_msglen 0 (l ++ t) ≡ ok (n, p)
      → decode_msg m₀ s ≡ decode_sized m₀ s n p
  unfolding decode_msg
  decode_msg-Begins m₀ n p e = rw (le→ltb (length s) 9 (omega (arith, b.3)), b.0, b.2, e)

  decode_sized-Begins :
      (m₀ : TxMessage) (n : ℕ) (p : Bytes)
      → n ≤ length s
      → decode_sized m₀ s n (meta_delim ∷ p)
        ≡ (decode_body m₀ (take (n - (length s - length p)) p) >>= λ m. ok (m, n))
  unfolding decode_sized
  decode_sized-Begins m₀ n p le = rw (le→ltb (length s) n le, b.1)

decode_sized-short :
    (m₀ : TxMessage) (s : Bytes) (n : ℕ) (p : Bytes)
    → length s < n
    → decode_sized m₀ s n (meta_delim ∷ p) ≡ ok (m₀, 0)
unfolding decode_sized
decode_sized-short m₀ s n p lt = rw (lt→ltb (length s) n lt)

-- The length that the header of a clean message holds.
abbrev full_length : TxMessage → ℕ
full_length msg = message_length (length (wire_body msg) + 9)

full_length_lem : (msg : TxMessage) → IsClean msg → full_length msg ≤ max_msglen
full_length_lem msg c =
    let p = length (wire_body msg) + 9 in
    omega (arith, message_length_le p, length-decimal_10 p (omega (arith, c.short)), c.short)

-- Decoding what was encoded gives the message back, and consumes its bytes and no more, whatever
-- follows them and whatever message was there before.
pub decode_msg-frame :
    (m₀ msg : TxMessage) (rest : Bytes)
    → IsClean msg
    → decode_msg m₀ (frame (wire_body msg) ++ rest) ≡ ok (msg, length (frame (wire_body msg)))
decode_msg-frame m₀ msg rest c =
    let full = full_length msg in
    let l : Bytes = decimal full in
    let tail : Bytes = body_tail msg in
    let s : Bytes = frame (wire_body msg) ++ rest in
    let split : s ≡ header (version full) l ++ (meta_delim ∷ (tail ++ rest)) =
      (unfold frame in simp (wire_body-eq msg, append_assoc)) in
    let t : Bytes = tail ++ rest in
    let b : Begins full l (meta_delim ∷ t) s = (rw split (header-Begins full l (meta_delim ∷ t))) in
    let size : full ≡ 10 + length l + length tail =
      omega
        (arith, message_length_lem (length (wire_body msg) + 9), ap length (wire_body-eq msg)) in
    let len = length-append tail rest in
    let body : take (full - (length s - length t)) t ≡ tail =
      take-append_length tail rest (full - (length s - length t)) (omega (arith, b.3)) in
    decode_msg-Begins full l (meta_delim ∷ t) s b m₀ full (meta_delim ∷ t)
      (read_msglen-decimal full t (full_length_lem msg c))
    ∙ decode_sized-Begins full l (meta_delim ∷ t) s b m₀ full t (omega (arith, b.3))
    ∙ rw (body, decode_body-body_tail m₀ msg c, length-frame (wire_body msg))

-- A header that is cut behind its first nine bytes: within the digits, or behind the colon.
header-cut :
    (v l tail : Bytes) (j : ℕ)
    → length v ≡ 7
    → take (9 + j) (header v l ++ tail) ≡ header v [] ++ take j (l ++ tail)
unfolding header
header-cut v l tail j h =
    let front : Bytes = header v [] in
    let e : header v l ++ tail ≡ front ++ (l ++ tail) = (unfold header in simp append_assoc) in
    rw e (take-append_ge (9 + j) j front (l ++ tail) (omega (arith, length-header v [] h)))

decode_msg-few : (m₀ : TxMessage) (s : Bytes) → length s < 9 → decode_msg m₀ s ≡ ok (m₀, 0)
unfolding decode_msg
decode_msg-few m₀ s h = rw (lt→ltb (length s) 9 h)

decode_sized-nil : (m₀ : TxMessage) (s : Bytes) (n : ℕ) → decode_sized m₀ s n [] ≡ ok (m₀, 0)
unfolding decode_sized
decode_sized-nil m₀ s n = refl

header-split : (v l t : Bytes) → header v [] ++ (l ++ t) ≡ header v l ++ t
unfolding header
header-split v l t = simp append_assoc

header-join : (v l : Bytes) → header v [] ++ l ≡ header v l
unfolding header
header-join v l = simp append_assoc

-- The three places of a cut behind the version: in the digits, and behind them.
module _ (m₀ msg : TxMessage) (c : IsClean msg) where
  cut_in_digits :
      (j : ℕ)
      → decode_msg m₀ (header (version (full_length msg)) (take j (decimal (full_length msg))))
        ≡ ok (m₀, 0)
  cut_in_digits j =
      let full = full_length msg in
      let l : Bytes = take j (decimal full) in
      let s : Bytes = header (version full) l in
      let (w, e) = read_msglen-cut full j (full_length_lem msg c) in
      let b : Begins full l [] s = rw (append-nil s) at (header-Begins full l []) in
      decode_msg-Begins full l [] s b m₀ w [] (rw append-nil e) ∙ decode_sized-nil m₀ s w

  cut_in_body :
      (i : ℕ)
      → 10 + length (decimal (full_length msg)) + i < full_length msg
      → decode_msg m₀ (
          header (version (full_length msg)) (decimal (full_length msg))
          ++ meta_delim ∷ take i (body_tail msg))
        ≡ ok (m₀, 0)
  cut_in_body i lt =
      let full = full_length msg in
      let l : Bytes = decimal full in
      let t : Bytes = take i (body_tail msg) in
      let s : Bytes = header (version full) l ++ meta_delim ∷ t in
      let b : Begins full l (meta_delim ∷ t) s = header-Begins full l (meta_delim ∷ t) in
      decode_msg-Begins full l (meta_delim ∷ t) s b m₀ full (meta_delim ∷ t)
        (read_msglen-decimal full t (full_length_lem msg c))
      ∙ decode_sized-short m₀ s full t (omega (arith, b.3, length-take i (body_tail msg)))

  -- The first `9 + j` bytes of the message.
  take-frame :
      (j : ℕ)
      → take (9 + j) (frame (wire_body msg))
        ≡ header (version (full_length msg)) []
          ++ take j (decimal (full_length msg) ++ meta_delim ∷ body_tail msg)
  take-frame j =
      let full = full_length msg in
      let e : frame (wire_body msg)
          ≡ header (version full) (decimal full) ++ meta_delim ∷ body_tail msg =
        (unfold frame in rw (wire_body-eq msg)) in
      rw e (
        header-cut (version full) (decimal full) (meta_delim ∷ body_tail msg) j
          (length-version full))

  cut_behind_version :
      (j : ℕ)
      → 9 + j < full_length msg
      → decode_msg m₀ (take (9 + j) (frame (wire_body msg))) ≡ ok (m₀, 0)
  cut_behind_version j lt = elim (dec_le j (length (decimal (full_length msg)))) [
    | yes within ↦
        let full = full_length msg in
        rw
          (
            take-frame j,
            take-append_le j (decimal full) (meta_delim ∷ body_tail msg) within,
            header-join (version full) (take j (decimal full)),
          )
          (cut_in_digits j)
    | no beyond ↦
        let full = full_length msg in
        let i = j - length (decimal full) - 1 in
        let e =
          take-append_ge j (suc i) (decimal full) (meta_delim ∷ body_tail msg) (omega arith) in
        rw
          (
            take-frame j,
            e,
            header-split (version full) (decimal full) (meta_delim ∷ take i (body_tail msg)),
          )
          (cut_in_body i (omega arith))
  ]

-- Of the bytes of a clean message any proper prefix, wherever it is cut, makes decodeMsg consume
-- nothing and leave the target message as it was.
pub decode_msg-cut :
    (m₀ msg : TxMessage) (k : ℕ)
    → IsClean msg
    → k < length (frame (wire_body msg))
    → decode_msg m₀ (take k (frame (wire_body msg))) ≡ ok (m₀, 0)
decode_msg-cut m₀ msg k c lt = elim (dec_le 9 k) [
  | yes long ↦
      let e : k ≡ 9 + (k - 9) = omega arith in
      rw e (cut_behind_version m₀ msg c (k - 9) (omega (arith, length-frame (wire_body msg))))
  | no few ↦
      decode_msg-few m₀ (take k (frame (wire_body msg)))
        (omega (arith, length-take k (frame (wire_body msg))))
]

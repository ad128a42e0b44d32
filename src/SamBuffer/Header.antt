-- ===== src/SamBuffer/Header.antt =====
-- encode_header: the length field of a SAM header counts the bytes of the whole message, its own
-- digits among them.
use exio.Prelude.{
  ℕ, ◌+◌, ◌-◌, ◌%◌, ◌^◌, ◌≤◌, ◌<◌, ◌≡◌, refl, ap, ◌∙◌, sym, Bytes, ◌∷◌, ◌++◌, length, take, drop,
  take-append_ge, drop-take, ltb, leb, ◌&&◌, if◌then◌else◌, length-append, length-take,
  drop-append_length, append_assoc, le→leb, leb→le, length-drop, ==_refl, arith, Bool-cases, inl,
  inr,
}
use mathlib.Core.Path.{◌≡⟨◌⟩◌, ◌∎}
use native.Mathlib.Nat.{mod-eq_of_lt}
use exio.Error.{Result, ok}
use exio.Sam.Chars.{meta_delim, sam0100, sam0101, max_msg_len}
use exio.SamBuffer.Decimal.{
  count_digits, decimal, count_digits-decimal, length-decimal_mono, length-decimal_step,
  length-decimal_le,
}
use exio.SamBuffer.Defs.{DynamicSamBuffer, header, write_header, encode_header, msg_size, contents}
use exio.SamBuffer.Append.{IsWithin, splice, write_at-eq-splice}

-- The length of a message whose other bytes are `p`.
unfoldable pub message_length : ℕ → ℕ
message_length p =
    let d = length (decimal p) in if ltb d (length (decimal (p + d))) then p + d + 1 else p + d

-- It is the number of the other bytes and of its own digits.
pub message_length_lem : (p : ℕ) → message_length p ≡ p + length (decimal (message_length p))
unfolding message_length
message_length_lem p =
    let d = length (decimal p) in
    ground (
      arith,
      length-decimal_mono p (p + d),
      length-decimal_mono (p + d) (p + d + 1),
      length-decimal_step p (p + d),
      length-decimal_step p (p + d + 1),
      length-decimal_le p,
    )

pub message_length_le : (p : ℕ) → message_length p ≤ p + length (decimal p) + 1
unfolding message_length
message_length_le p = ground arith

-- A whole message from the bytes behind its header.
unfoldable pub frame : Bytes → Bytes
unfolding message_length header
frame body =
    let full = message_length (length body + 9) in
    header (if leb full max_msg_len then sam0100 else sam0101) (decimal full) ++ body

length-decimal_99999 : length (decimal 99999) ≡ 5
unfolding decimal
length-decimal_99999 = refl

length-decimal_9999999999 : length (decimal 9999999999) ≡ 10
unfolding decimal
length-decimal_9999999999 = refl

length-decimal_5 : (n : ℕ) → n ≤ 99999 → length (decimal n) ≤ 5
length-decimal_5 n h = omega (arith, length-decimal_mono n 99999 h, length-decimal_99999)

pub message_length_99999 : (p : ℕ) → p + 5 ≤ 99999 → message_length p ≤ p + 5
unfolding message_length
message_length_99999 p h =
    let d = length-decimal_5 p (omega arith) in
    ground (arith, length-decimal_5 (p + length (decimal p)) (omega arith))

pub length-decimal_10 : (n : ℕ) → n < 2 ^ 32 → length (decimal n) ≤ 10
length-decimal_10 n h =
    omega (arith, length-decimal_mono n 9999999999 (omega arith), length-decimal_9999999999)

pub length-header : (v l : Bytes) → length v ≡ 7 → length (header v l) ≡ 9 + length l
unfolding header
length-header v l h = omega (arith, length-append v (meta_delim ∷ l))

abbrev pub version : ℕ → Bytes
version full = if leb full max_msg_len then sam0100 else sam0101

pub length-version : (full : ℕ) → length (version full) ≡ 7
length-version full = ground arith

short-eq :
    (full : ℕ)
    → (if leb full max_msg_len && leb (length (decimal full)) 5 then sam0100 else sam0101)
      ≡ version full
short-eq full = elim (Bool-cases (leb full max_msg_len)) [
  | inl e ↦ rw (e, le→leb (length (decimal full)) 5 (length-decimal_5 full (leb→le _ _ e)))
  | inr e ↦ rw e
]

count_digits-mod : (n : ℕ) → n < 2 ^ 32 → count_digits (n % 2 ^ 32) ≡ length (decimal n)
count_digits-mod n h = ap count_digits (mod-eq_of_lt h) ∙ count_digits-decimal n

pub length-contents :
    (sb : DynamicSamBuffer) → sb.wptr ≤ length sb.buf → length (contents sb) ≡ msg_size sb
unfolding contents msg_size
length-contents sb h =
    omega (arith, length-drop sb.start (take sb.wptr sb.buf), length-take sb.wptr sb.buf)

-- The buffer after a header of the right size is put in front of the contents.
abbrev Framed : DynamicSamBuffer → Bytes → Result DynamicSamBuffer → Type 0
Framed sb h r =
    (sb' : DynamicSamBuffer) × (r ≡ ok sb')
    × (contents sb' ≡ h ++ contents sb)
    × (msg_size sb' ≡ length h + msg_size sb)

-- A write that ends where the contents begin puts its bytes in front of them.
splice_front :
    (h buf : Bytes) (start wptr : ℕ)
    → start ≤ wptr
    → wptr ≤ length buf
    → length h ≤ start
    → drop (start - length h) (take wptr (splice (start - length h) h buf))
      ≡ h ++ drop start (take wptr buf)
unfolding splice
splice_front h buf start wptr p q r =
    let a = start - length h in
    let front : Bytes = take a buf in
    let rest : Bytes = drop (a + length h) buf in
    let k = wptr - start in
    let len : length front ≡ a = omega (arith, length-take a buf) in
    drop a (take wptr (front ++ h ++ rest))
    ≡⟨ ap (drop a)
        (take-append_ge wptr k (front ++ h) rest (omega (arith, length-append front h))) ⟩
      drop a (front ++ h ++ take k rest)
    ≡⟨ ap (drop a) (append_assoc front h (take k rest)) ⟩ drop a (front ++ (h ++ take k rest))
    ≡⟨ drop-append_length front (h ++ take k rest) a (sym len) ⟩ h ++ take k rest
    ≡⟨ ap (λ n. h ++ take k (drop n buf)) (omega arith) ⟩ h ++ take k (drop start buf)
    ≡⟨ ap (λ l. h ++ l) (sym (drop-take wptr start k buf (omega arith))) ⟩
      h ++ drop start (take wptr buf) ∎

write_header_lem :
    (m full : ℕ) (sb : DynamicSamBuffer)
    → IsWithin m sb
    → 9 + length (decimal full) ≤ sb.start
    → Framed sb
        (header (version full) (decimal full))
        (write_header (length (decimal full)) full sb)
write_header_lem m full sb v room =
    let l : Bytes = decimal full in
    let h : Bytes = header (version full) l in
    let len : length h ≡ 9 + length l = length-header (version full) l (length-version full) in
    let at : sb.start - length h ≡ sb.start - (9 + length l) = ap (λ n. sb.start - n) len in
    let w =
      write_at-eq-splice (sb.start - length h) h sb.buf (omega (arith, v.ordered, v.written)) in
    (
      record sb { buf = splice (sb.start - length h) h sb.buf; start = sb.start - length h },
      unfold write_header in
          rw (
            le→leb (9 + length l) sb.start room,
            ==_refl (length l),
            length-header sam0101 l refl,
            ==_refl (9 + length l),
            short-eq full,
            ← len,
            w,
          ),
      unfold contents in splice_front h sb.buf sb.start sb.wptr v.ordered v.written (omega arith),
      unfold msg_size in omega (arith, v.ordered),
    )

-- The two roundings of encode_header find the length that counts itself.
encode_header-eq-write_header :
    (sb : DynamicSamBuffer)
    → msg_size sb < 2 ^ 32 - 30
    → let full = message_length (msg_size sb + 9) in
      encode_header sb ≡ write_header (length (decimal full)) full sb
encode_header-eq-write_header sb small =
    let p : ℕ = msg_size sb + 9 in
    let d : ℕ = length (decimal p) in
    let d10 = length-decimal_10 p (omega arith) in
    let c = count_digits-mod p (omega arith) in
    let c' = count_digits-mod (p + d) (omega arith) in
    let own = message_length_lem p in
    elim (Bool-cases (ltb d (length (decimal (p + d))))) [
      | inl more ↦
          let full : message_length p ≡ p + d + 1 = (unfold message_length in rw more) in
          let strlen : length (decimal (message_length p)) ≡ d + 1 = omega arith in
          unfold encode_header in rw (c, c', more, strlen, full)
      | inr same ↦
          let full : message_length p ≡ p + d = (unfold message_length in rw same) in
          let strlen : length (decimal (message_length p)) ≡ d = omega arith in
          unfold encode_header in rw (c, c', same, strlen, full)
    ]

-- encode_header succeeds on a buffer that is within its bounds, has 30 bytes in front of its
-- contents and contents below 2 ^ 32 - 30 bytes; afterwards the contents are the frame of the
-- old ones, and msg_size is their length.
pub encode_header_lem :
    (m : ℕ) (sb : DynamicSamBuffer)
    → IsWithin m sb
    → 30 ≤ sb.start
    → msg_size sb < 2 ^ 32 - 30
    → (sb' : DynamicSamBuffer) × (encode_header sb ≡ ok sb')
      × (contents sb' ≡ frame (contents sb))
      × (msg_size sb' ≡ length (frame (contents sb)))
encode_header_lem m sb v st small =
    let p : ℕ = msg_size sb + 9 in
    let full : ℕ = message_length p in
    let d = length-decimal_10 p (omega arith) in
    let step = length-decimal_step p full (omega (arith, message_length_le p)) in
    let (sb', e, c, n) = write_header_lem m full sb v (omega arith) in
    let size : length (contents sb) ≡ msg_size sb = length-contents sb v.written in
    let framed : frame (contents sb) ≡ header (version full) (decimal full) ++ contents sb =
      (unfold frame in rw size) in
    (
      sb',
      encode_header-eq-write_header sb small ∙ e,
      c ∙ sym framed,
      omega (
        arith,
        ap length framed,
        length-append (header (version full) (decimal full)) (contents sb),
      ),
    )

-- The length of a framed message is the number that its header holds.
pub length-frame : (body : Bytes) → length (frame body) ≡ message_length (length body + 9)
unfolding frame
length-frame body =
    let full : ℕ = message_length (length body + 9) in
    omega (
      arith,
      length-append (header (version full) (decimal full)) body,
      length-header (version full) (decimal full) (length-version full),
      message_length_lem (length body + 9),
    )

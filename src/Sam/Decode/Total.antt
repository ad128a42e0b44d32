-- ===== src/Sam/Decode/Total.antt =====
-- The decoder on any bytes: its loops end, it never consumes more than there is, and the container
-- that it fills keeps its names unique.
use exio.Prelude.{
  ℕ, zero, suc, ◌+◌, ◌-◌, ◌≤◌, ◌<◌, ◌≡◌, refl, Bytes, [], ◌∷◌, length, take, drop, length-drop, ◌*◌,
  ◌%◌, arith, ◌==◌, none, Option, some, ltb, str_eq, ◌||◌, ◌&&◌,
}
use exio.Error.{Result}
use exio.Error.Ensures.{Ensures, returns, raises, Ensures-if, Ensures-bind, Ensures-weaken}
use exio.Sam.Chars.{
  value_delim, field_delim, seq_start, seq_end, meta_delim, msg_start, sam0100, sam0101,
}
use exio.Sam.Container.{
  Items, nil, TxMessage, Unique, put_child, child_items, find_child, reset, set_type,
}
use exio.Sam.Container.Shape.{Unique-put_field, Unique-put_child, Unique-set_child, Unique-child}
use exio.Sam.Decode.{
  scan, after_name, after_value, decode_value, decode_item, decode_items, decode, decode_root,
  decode_body, decode_sized, decode_msg, read_msglen, is_digit, max_msglen, byte_is,
}
use exio.Sam.Decode.Scan.{length-scan}

Unique-child_items : (n : Bytes) (xs : Items) → Unique xs → Unique (child_items n xs)
unfolding child_items
Unique-child_items n xs u =
    let inside = λ (c : Items) (e : find_child n xs ≡ some c). Unique-child n xs u e in
    child_of (find_child n xs) inside
  where
    child_of :
        (o : Option Items)
        → ((c : Items) → o ≡ some c → Unique c)
        → Unique (elim o [ some c ↦ c | none ↦ nil ])
    child_of none k = tt
    child_of (some c) k = k c refl

-- What a run of the loop keeps: unique names, and no byte that was not there.
abbrev Kept : Items → Bytes → Items × Bytes → Type 0
Kept parent s (items, rest) = (Unique parent → Unique items) × (length rest ≤ length s)

-- A loop that is right on every input shorter than `n`.
abbrev RightBelow : ℕ → (Items → Bytes → Result (Items × Bytes)) → Type 0
RightBelow n loop =
    (parent : Items) (s : Bytes) → length s < n → Ensures (Kept parent s) (loop parent s)

after_name-Ensures : (s : Bytes) → Ensures (λ r. length r < length s) (after_name s)
unfolding after_name
after_name-Ensures [] = raises (cc)
after_name-Ensures (d ∷ s) =
    Ensures-if (d == value_delim) (λ _. returns (omega arith)) (λ _. raises (cc))

after_value-Ensures : (s : Bytes) → Ensures (λ r. length r < length s) (after_value s)
unfolding after_value
after_value-Ensures [] = raises (cc)
after_value-Ensures (d ∷ s) =
    Ensures-if (d == field_delim) (λ _. returns (omega arith)) (λ _. raises (cc))

decode_value-Ensures :
    (loop : Items → Bytes → Result (Items × Bytes)) (parent : Items) (name s : Bytes) (n : ℕ)
    → RightBelow n loop
    → length s ≤ n
    → Ensures (Kept parent s) (decode_value loop parent name s)
unfolding decode_value
decode_value-Ensures loop parent name [] n right h =
    returns (λ u. Unique-put_field name [] parent u, omega arith)
decode_value-Ensures loop parent name (c ∷ s) n right h =
    Ensures-if (c == seq_start)
      (λ _.
        Ensures-bind (right (child_items name (put_child name parent)) s (omega arith))
          λ (items, rest) k. returns (
            λ u.
                let v = Unique-put_child name parent u in
                Unique-set_child name items (put_child name parent) v
                  (k.0 (Unique-child_items name (put_child name parent) v)),
            omega (arith, k.1),
          ))
      (λ _. returns (
        λ u. Unique-put_field name (scan field_delim (c ∷ s)).0 parent u,
        length-scan field_delim (c ∷ s),
      ))

decode_item-Ensures :
    (loop : Items → Bytes → Result (Items × Bytes)) (parent : Items) (s : Bytes) (n : ℕ)
    → RightBelow n loop
    → length s ≤ n
    → Ensures (Kept parent s) (decode_item loop parent s)
unfolding decode_item
decode_item-Ensures loop parent s n right h =
    let less = length-scan value_delim s in
    Ensures-bind (after_name-Ensures (scan value_delim s).1) λ rest₁ p₁.
      Ensures-bind
        (decode_value-Ensures loop parent (scan value_delim s).0 rest₁ n right (omega arith))
        λ (parent', rest₂) p₂. Ensures-bind (after_value-Ensures rest₂) λ rest₃ p₃.
          Ensures-weaken (right parent' rest₃ (omega (arith, p₂.1)))
            λ (items, rest) k. (λ u. k.0 (p₂.0 u), omega (arith, p₂.1, k.1))

decode_items-Ensures : (f : ℕ) → RightBelow f (decode_items f)
unfolding decode_items
decode_items-Ensures zero parent s h = absurd (omega arith)
decode_items-Ensures (suc f) parent [] h = returns (λ u. u, omega arith)
decode_items-Ensures (suc f) parent (c ∷ s) h =
    Ensures-if (c == seq_end) (λ _. returns (λ u. u, omega arith))
      (λ _.
        decode_item-Ensures (decode_items f) parent (c ∷ s) f (decode_items-Ensures f)
          (omega arith))

-- decode() ends on every input, with an exception or with a container whose names are unique.
pub decode-Ensures : (parent : Items) (p : Bytes) → Ensures (Kept parent p) (decode parent p)
unfolding decode
decode-Ensures parent p =
    Ensures-weaken
      (decode_items-Ensures (suc (length p)) parent (drop 1 p) (omega (arith, length-drop 1 p)))
      λ (items, rest) k. (k.0, omega (arith, k.1, length-drop 1 p))

-- A decoded message has unique names, or is the one that was there; the bytes consumed are there.
abbrev pub Decoded : TxMessage → Bytes → TxMessage × ℕ → Type 0
Decoded m₀ s (m, n) = (Unique m₀.items → Unique m.items) × (n ≤ length s)

decode_root-Ensures :
    (vs : Bytes) (m₀ : TxMessage) (s : Bytes) → Ensures (λ m. Unique m.items) (decode_root vs m₀ s)
unfolding decode_root reset set_type
decode_root-Ensures vs m₀ [] = raises (cc)
decode_root-Ensures vs m₀ (_ ∷ p) =
    Ensures-bind (decode-Ensures nil p) λ (items, _) k. returns (k.0 tt)

decode_body-Ensures :
    (m₀ : TxMessage) (body : Bytes) → Ensures (λ m. Unique m.items) (decode_body m₀ body)
unfolding decode_body
decode_body-Ensures m₀ body =
    decode_root-Ensures (scan meta_delim body).0 m₀ (scan meta_delim body).1

read_msglen-Ensures :
    (k : ℕ) (s : Bytes) → Ensures (λ (n, p). length p ≤ length s) (read_msglen k s)
unfolding read_msglen
read_msglen-Ensures k [] = returns (omega arith)
read_msglen-Ensures k (c ∷ s) =
    let rest = read_msglen-Ensures (k * 10 + c % 16) s in
    Ensures-if (is_digit c)
      (λ _.
        Ensures-if (ltb max_msglen (k * 10 + c % 16)) (λ _. raises (cc))
          (λ _. Ensures-weaken rest λ (n, p) h. omega arith))
      (λ _. returns (omega arith))

decode_sized-Ensures :
    (m₀ : TxMessage) (s : Bytes) (n : ℕ) (p : Bytes)
    → Ensures (Decoded m₀ s) (decode_sized m₀ s n p)
unfolding decode_sized
decode_sized-Ensures m₀ s n [] = returns (λ u. u, omega arith)
decode_sized-Ensures m₀ s n (c ∷ p) =
    Ensures-if (c == meta_delim)
      (λ _.
        Ensures-if (ltb (length s) n) (λ _. returns (λ u. u, omega arith))
          (λ fits.
            Ensures-if (str_eq (take 7 (drop 1 s)) sam0100 || str_eq (take 7 (drop 1 s)) sam0101)
              (λ _.
                Ensures-bind (decode_body-Ensures m₀ (take (n - (length s - length p)) p))
                  λ m u. returns (λ _. u, ground (arith, fits)))
              (λ _. returns (λ u. u, ground (arith, fits)))))
      (λ _. raises (cc))

-- decodeMsg ends on every input, with a result or with an error that is not a lack of fuel. With
-- a result, it has consumed no more bytes than it was given, and the message has unique names if
-- the target message had.
pub decode_msg-Ensures : (m₀ : TxMessage) (s : Bytes) → Ensures (Decoded m₀ s) (decode_msg m₀ s)
unfolding decode_msg
decode_msg-Ensures m₀ s =
    Ensures-if (ltb (length s) 9) (λ _. returns (λ u. u, omega arith))
      (λ _.
        Ensures-if (byte_is 0 msg_start s && byte_is 8 meta_delim s)
          (λ _.
            Ensures-bind (read_msglen-Ensures 0 (drop 9 s))
              λ (n, p) _. decode_sized-Ensures m₀ s n p)
          (λ _. raises (cc)))

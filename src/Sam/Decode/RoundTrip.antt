-- ===== src/Sam/Decode/RoundTrip.antt =====
-- The items that the encoder wrote are read back.
use exio.Prelude.{
  ℕ, zero, suc, ◌<◌, ◌≡◌, refl, Bytes, [], ◌∷◌, ◌++◌, length, ◌==◌, arith, false, Bool, Bool-cases,
  inl, inr, ◌∙◌, append_assoc, length-append, str_eq_refl,
}
use exio.Error.{Result, ok}
use exio.Sam.Chars.{escape, field_delim, value_delim, seq_start, seq_end, is_special_char}
use exio.Sam.Container.{
  Items, nil, field, child, add_items, put_field, put_child, set_child, child_items, Unique,
}
use exio.Sam.Container.Shape.{
  Unique-find_field, Unique-find_child, add_items-nil, add_items_assoc, put_field-new,
  put_child-new, set_child-add_items,
}
use exio.Sam.Container.Lookup.{find_child-put_child}
use exio.Sam.Encode.Wire.{escaped, wire}
use exio.Sam.Decode.{after_name, after_value, decode_value, decode_item, decode_items, scan}
use exio.Sam.Decode.Scan.{Plain, scan-Plain, scan-escaped}

-- A name that the decoder reads as it was written: encode_contents does not escape names.
abbrev pub starts_with_seq_end : Bytes → Bool
starts_with_seq_end [] = false
starts_with_seq_end (c ∷ n) = c == seq_end

abbrev pub CleanName : Bytes → Type 0
CleanName n = Plain value_delim n × (starts_with_seq_end n ≡ false)

abbrev pub Named : Items → Type 0
Named nil = Unit {0}
Named (field n v xs) = CleanName n × Named xs
Named (child n c xs) = CleanName n × Named c × Named xs

abbrev Loop : Type 0
Loop = Items → Bytes → Result (Items × Bytes)

decode_value-plain :
    (sub : Loop) (parent : Items) (name : Bytes) (c : ℕ) (s v rest : Bytes)
    → (c == seq_start) ≡ false
    → scan field_delim (c ∷ s) ≡ (v, rest)
    → decode_value sub parent name (c ∷ s) ≡ ok (put_field name v parent, rest)
unfolding decode_value
decode_value-plain sub parent name c s v rest h e = rw (h, e)

plain-ne-seq_start : (c : ℕ) → is_special_char c ≡ false → (c == seq_start) ≡ false
unfolding is_special_char
plain-ne-seq_start c h = ground arith

-- A value never looks like a sub-container.
decode_value-escaped :
    (sub : Loop) (parent : Items) (name v rest : Bytes)
    → decode_value sub parent name (escaped v ++ field_delim ∷ rest)
      ≡ ok (put_field name v parent, field_delim ∷ rest)
unfolding escaped
decode_value-escaped sub parent name [] rest =
    decode_value-plain sub parent name field_delim rest [] (field_delim ∷ rest) refl
      (scan-escaped [] rest)
decode_value-escaped sub parent name (c ∷ v) rest = elim (Bool-cases (is_special_char c)) [
  | inl e ↦ rw e (
      decode_value-plain sub parent name escape (c ∷ (escaped v ++ field_delim ∷ rest)) (c ∷ v)
        (field_delim ∷ rest) refl (rw e at (scan-escaped (c ∷ v) rest)))
  | inr e ↦ rw e (
      decode_value-plain sub parent name c (escaped v ++ field_delim ∷ rest) (c ∷ v)
        (field_delim ∷ rest) (plain-ne-seq_start c e) (rw e at (scan-escaped (c ∷ v) rest)))
]

decode_item-field :
    (sub : Loop) (parent : Items) (n v rest : Bytes)
    → CleanName n
    → decode_item sub parent (n ++ value_delim ∷ (escaped v ++ field_delim ∷ rest))
      ≡ sub (put_field n v parent) rest
unfolding decode_item
decode_item-field sub parent n v rest h =
    rw (scan-Plain value_delim n (escaped v ++ field_delim ∷ rest) h.0)
      (unfold after_name after_value in rw (decode_value-escaped sub parent n v rest))

decode_item-child :
    (sub : Loop) (parent items : Items) (n s rest : Bytes)
    → CleanName n
    → sub (child_items n (put_child n parent)) s ≡ ok (items, field_delim ∷ rest)
    → decode_item sub parent (n ++ value_delim ∷ seq_start ∷ s)
      ≡ sub (set_child n items (put_child n parent)) rest
unfolding decode_item
decode_item-child sub parent items n s rest h e =
    rw (scan-Plain value_delim n (seq_start ∷ s) h.0)
      (unfold after_name after_value decode_value in rw e)

decode_items-step :
    (f : ℕ) (parent : Items) (n s : Bytes)
    → CleanName n
    → decode_items (suc f) parent (n ++ value_delim ∷ s)
      ≡ decode_item (decode_items f) parent (n ++ value_delim ∷ s)
unfolding decode_items
decode_items-step f parent [] s h = refl
decode_items-step f parent (c ∷ n) s h = rw h.1

-- What the loop reads of the reference encoding of `xs`, behind the items of `parent`.
abbrev pub Reads : Items → Type 0
Reads xs =
    (f : ℕ) (parent : Items) (rest : Bytes)
    → length (wire xs) < f
    → Unique (add_items parent xs)
    → decode_items f parent (wire xs ++ seq_end ∷ rest) ≡ ok (add_items parent xs, rest)

module _ (n v : Bytes) (xs : Items) where
  wire_field-append :
      (t : Bytes)
      → wire (field n v xs) ++ t ≡ n ++ value_delim ∷ (escaped v ++ field_delim ∷ (wire xs ++ t))
  unfolding wire
  wire_field-append t = simp append_assoc

  length-wire_field : length (wire xs) < length (wire (field n v xs))
  unfolding wire
  length-wire_field = omega (
    arith,
    length-append n (value_delim ∷ (escaped v ++ field_delim ∷ wire xs)),
    length-append (escaped v) (field_delim ∷ wire xs),
  )

  add_items-field :
      (p : Items) → add_items (add_items p (field n v nil)) xs ≡ add_items p (field n v xs)
  unfolding add_items
  add_items-field p = add_items_assoc p (field n v nil) xs

module _ (n : Bytes) (c xs : Items) where
  wire_child-append :
      (t : Bytes)
      → wire (child n c xs) ++ t
        ≡ n ++ value_delim ∷ seq_start ∷ (wire c ++ seq_end ∷ field_delim ∷ (wire xs ++ t))
  unfolding wire
  wire_child-append t = simp append_assoc

  length-wire_child :
      (length (wire xs) < length (wire (child n c xs)))
      × (length (wire c) < length (wire (child n c xs)))
  unfolding wire
  length-wire_child =
      let l =
        length-append n (value_delim ∷ seq_start ∷ (wire c ++ seq_end ∷ field_delim ∷ wire xs)) in
      let k = length-append (wire c) (seq_end ∷ field_delim ∷ wire xs) in (omega arith, omega arith)

  add_items-child :
      (p : Items) → add_items (add_items p (child n c nil)) xs ≡ add_items p (child n c xs)
  unfolding add_items
  add_items-child p = add_items_assoc p (child n c nil) xs

decode_items-field : (n v : Bytes) (xs : Items) → CleanName n → Reads xs → Reads (field n v xs)
decode_items-field n v xs clean ih zero parent rest h u = absurd (omega arith)
decode_items-field n v xs clean ih (suc f) parent rest h u =
    let new = put_field-new n v parent (Unique-find_field parent n v xs u) in
    let all = add_items-field n v xs parent in
    let t : Bytes = wire xs ++ seq_end ∷ rest in
    rw (wire_field-append n v xs (seq_end ∷ rest)) (
      decode_items-step f parent n (escaped v ++ field_delim ∷ t) clean
      ∙ decode_item-field (decode_items f) parent n v t clean
      ∙ rw (new, ← all)
          (ih f (add_items parent (field n v nil)) rest (omega (arith, length-wire_field n v xs))
            (rw all u)))

-- A child that is new is put at the end, empty, and then filled.
new_child :
    (n : Bytes) (c xs parent : Items)
    → Unique (add_items parent (child n c xs))
    → (child_items n (put_child n parent) ≡ nil)
      × (set_child n c (put_child n parent) ≡ add_items parent (child n c nil))
unfolding child_items
new_child n c xs parent u =
    let none_yet = Unique-find_child parent n c xs u in
    (
      ground (arith, find_child-put_child n n parent, str_eq_refl n),
      rw (put_child-new n parent none_yet) (set_child-add_items n nil c parent none_yet),
    )

decode_items-child :
    (n : Bytes) (c xs : Items) → CleanName n → Unique c → Reads c → Reads xs → Reads (child n c xs)
decode_items-child n c xs clean uc ihc ih zero parent rest h u = absurd (omega arith)
decode_items-child n c xs clean uc ihc ih (suc f) parent rest h u =
    let (empty, filled) = new_child n c xs parent u in
    let all = add_items-child n c xs parent in
    let t : Bytes = wire xs ++ seq_end ∷ rest in
    let (short, short_c) = length-wire_child n c xs in
    let inner = ihc f nil (field_delim ∷ t) (omega arith) (unfold add_items in uc) in
    rw (wire_child-append n c xs (seq_end ∷ rest)) (
      decode_items-step f parent n (seq_start ∷ (wire c ++ seq_end ∷ field_delim ∷ t)) clean
      ∙ decode_item-child (decode_items f) parent c n (wire c ++ seq_end ∷ field_delim ∷ t) t clean
          (rw empty (unfold add_items in inner))
      ∙ rw (filled, ← all) (ih f (add_items parent (child n c nil)) rest (omega arith) (rw all u)))

decode_items-nil : Reads nil
unfolding decode_items wire
decode_items-nil zero parent rest lt up = absurd (omega arith)
decode_items-nil (suc f) parent rest lt up = rw add_items-nil

-- With fuel above its length the reference encoding of well-named items is read back in full,
-- behind what the container held.
pub decode_items-wire : (xs : Items) → Named xs → Unique xs → Reads xs
decode_items-wire nil h u = decode_items-nil
decode_items-wire (field n v xs) h u = decode_items-field n v xs h.0 (decode_items-wire xs h.1 u.1)
decode_items-wire (child n c xs) h u =
    decode_items-child n c xs h.0 u.1 (decode_items-wire c h.1 u.1) (decode_items-wire xs h.2 u.2)

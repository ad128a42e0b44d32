-- ===== src/Sam/Decode/Length.antt =====
-- The length field: the decimal digits that the encoder wrote are read back, whole or cut short.
use exio.Prelude.{
  ℕ, zero, suc, ◌+◌, ◌*◌, ◌/◌, ◌%◌, ◌≤◌, ◌<◌, ◌≡◌, refl, ◌∙◌, ap, Bytes, [], ◌∷◌, ◌++◌, length,
  take, append_assoc, length-append, take-append_le, take_all, arith, Bool-cases, inl, inr, le→ltb,
  le→leb, sym, append-nil, ltb, ltb→lt,
}
use native.Mathlib.Decide.{dec_le}
use exio.Error.{ok}
use exio.Sam.Chars.{meta_delim}
use exio.SamBuffer.Decimal.{decimal_fuel, decimal}
use exio.Sam.Decode.{read_msglen, max_msglen}

read_msglen-digit :
    (k d : ℕ) (s : Bytes)
    → d < 10
    → k * 10 + d ≤ max_msglen
    → read_msglen k ((b'0' + d) ∷ s) ≡ read_msglen (k * 10 + d) s
unfolding read_msglen
read_msglen-digit k d s h le =
    let low : (48 + d) % 16 ≡ d = omega arith in
    rw (
      le→leb 48 (48 + d) (omega arith),
      le→leb (48 + d) 57 (omega arith),
      low,
      le→ltb max_msglen (k * 10 + d) le,
    )

-- A print is the last digit, or the print of the other digits and the last digit.
module _ (f n : ℕ) where
  decimal_fuel-one : n / 10 ≡ 0 → decimal_fuel (suc f) n ≡ (b'0' + n % 10) ∷ []
  unfolding decimal_fuel
  decimal_fuel-one h = rw h

  decimal_fuel-more :
      0 < n / 10 → decimal_fuel (suc f) n ≡ decimal_fuel f (n / 10) ++ (b'0' + n % 10) ∷ []
  unfolding decimal_fuel
  decimal_fuel-more h = ground arith

-- The last step of the print, read behind the number's other digits.
read_msglen-last :
    (n : ℕ) (s : Bytes)
    → n ≤ max_msglen
    → read_msglen (n / 10) ((b'0' + n % 10) ∷ s) ≡ read_msglen n s
read_msglen-last n s le =
    read_msglen-digit (n / 10) (n % 10) s (omega arith) (omega arith)
    ∙ ap (λ m. read_msglen m s) (omega arith)

read_msglen-decimal_fuel :
    (f n : ℕ) (s : Bytes)
    → n < f
    → n ≤ max_msglen
    → read_msglen 0 (decimal_fuel f n ++ s) ≡ read_msglen n s
read_msglen-decimal_fuel zero n s h le = absurd (omega arith)
read_msglen-decimal_fuel (suc f) n s h le = elim (Bool-cases (ltb 0 (n / 10))) [
  | inl more ↦
      rw (decimal_fuel-more f n (ltb→lt _ _ more), append_assoc)
        (read_msglen-decimal_fuel f (n / 10) ((b'0' + n % 10) ∷ s) (ground arith) (omega arith)
          ∙ read_msglen-last n s le)
  | inr one ↦
      let z : n / 10 ≡ 0 = ground arith in
      rw (decimal_fuel-one f n z)
        (ap (λ k. read_msglen k ((b'0' + n % 10) ∷ s)) (sym z) ∙ read_msglen-last n s le)
]

-- The printed number is read, up to the colon behind it.
pub read_msglen-decimal :
    (n : ℕ) (t : Bytes)
    → n ≤ max_msglen
    → read_msglen 0 (decimal n ++ meta_delim ∷ t) ≡ ok (n, meta_delim ∷ t)
unfolding decimal
read_msglen-decimal n t le =
    read_msglen-decimal_fuel (suc n) n (meta_delim ∷ t) (omega arith) le
    ∙ unfold read_msglen in refl

-- A print that is cut short is read to its end, without an error.
read_msglen-prefix :
    (f n j : ℕ)
    → n < f
    → n ≤ max_msglen
    → (w : ℕ) × (read_msglen 0 (take j (decimal_fuel f n)) ≡ ok (w, []))
read_msglen-prefix zero n j h le = absurd (omega arith)
read_msglen-prefix (suc f) n j h le = elim (dec_le (length (decimal_fuel (suc f) n)) j) [
  | yes whole ↦ (
    n,
    rw (take_all j (decimal_fuel (suc f) n) whole) (
        ap (read_msglen 0) (sym (append-nil _))
        ∙ read_msglen-decimal_fuel (suc f) n [] h le
        ∙ unfold read_msglen in refl),
  )
  | no cut ↦ elim (Bool-cases (ltb 0 (n / 10))) [
    | inl more ↦
        let e = decimal_fuel-more f n (ltb→lt _ _ more) in
        let ten : Bytes = (b'0' + n % 10) ∷ [] in
        let len = length-append (decimal_fuel f (n / 10)) ten in
        let (w, p) = read_msglen-prefix f (n / 10) j (ground arith) (omega arith) in
        (w, rw (e, take-append_le j (decimal_fuel f (n / 10)) ten (omega (arith, ap length e))) p)
    | inr one ↦
        let e = decimal_fuel-one f n (ground arith) in
        let z : j ≡ 0 = omega (arith, ap length e) in (0, rw z (unfold read_msglen in refl))
  ]
]

pub read_msglen-cut :
    (n j : ℕ) → n ≤ max_msglen → (w : ℕ) × (read_msglen 0 (take j (decimal n)) ≡ ok (w, []))
unfolding decimal
read_msglen-cut n j le = read_msglen-prefix (suc n) n j (omega arith) le

-- ===== src/Sam/Decode/Scan.antt =====
-- The scanning loop of the decoder, on text that the encoder wrote.
use exio.Prelude.{
  ℕ, ◌≤◌, ◌≡◌, ◌≢◌, Bytes, [], ◌∷◌, ◌++◌, length, arith, false, Bool-cases, inl, inr,
}
use exio.Sam.Chars.{escape, field_delim, is_special_char}
use exio.Sam.Encode.Wire.{escaped}
use exio.Sam.Decode.{scan}

-- No byte of the text ends the scan or escapes another.
abbrev pub Plain : ℕ → Bytes → Type 0
Plain delim [] = Unit {0}
Plain delim (c ∷ s) = (c ≢ delim) × (c ≢ escape) × Plain delim s

-- The clauses of scan in one.
scan-cons :
    (d c : ℕ) (s : Bytes) → c ≢ d → c ≢ escape → scan d (c ∷ s) ≡ (c ∷ (scan d s).0, (scan d s).1)
unfolding scan
scan-cons d c [] h k = ground arith
scan-cons d c (e ∷ s) h k = ground arith

scan-stop : (d : ℕ) (s : Bytes) → scan d (d ∷ s) ≡ ([], d ∷ s)
unfolding scan
scan-stop d [] = ground arith
scan-stop d (e ∷ s) = ground arith

scan-escape :
    (d c : ℕ) (s : Bytes) → d ≢ escape → scan d (escape ∷ c ∷ s) ≡ (c ∷ (scan d s).0, (scan d s).1)
unfolding scan
scan-escape d c s h = ground arith

-- A name with neither the delimiter nor a backslash is read as it stands.
pub scan-Plain : (d : ℕ) (n rest : Bytes) → Plain d n → scan d (n ++ d ∷ rest) ≡ (n, d ∷ rest)
scan-Plain d [] rest h = scan-stop d rest
scan-Plain d (c ∷ n) rest h = rw (scan-cons d c (n ++ d ∷ rest) h.0 h.1, scan-Plain d n rest h.2)

pub not_special : (c : ℕ) → is_special_char c ≡ false → (c ≢ field_delim) × (c ≢ escape)
unfolding is_special_char
not_special c h = ground arith

-- A value that was written with escapes is read back, whatever it holds.
pub scan-escaped :
    (v rest : Bytes) → scan field_delim (escaped v ++ field_delim ∷ rest) ≡ (v, field_delim ∷ rest)
unfolding escaped
scan-escaped [] rest = scan-stop field_delim rest
scan-escaped (c ∷ v) rest = elim (Bool-cases (is_special_char c)) [
  | inl e ↦ rw (
    e,
    scan-escape field_delim c (escaped v ++ field_delim ∷ rest) (omega arith),
    scan-escaped v rest,
  )
  | inr e ↦ rw (
    e,
    scan-cons field_delim c (escaped v ++ field_delim ∷ rest) (not_special c e).0
        (not_special c e).1,
    scan-escaped v rest,
  )
]

-- The scan drops at most what it reads.
pub length-scan : (d : ℕ) (s : Bytes) → length (scan d s).1 ≤ length s
unfolding scan
length-scan d [] = omega arith
length-scan d (c ∷ []) = ground arith
length-scan d (c ∷ e ∷ s) = ground (arith, length-scan d s, length-scan d (e ∷ s))

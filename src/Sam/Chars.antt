-- ===== src/Sam/Chars.antt =====
-- The bytes of the SAM protocol, libexio/exio/sam.h, and the test for those that are escaped.
use exio.Prelude.{ℕ, suc, ◌≡◌, Bool, false, ◌||◌, [], ◌∷◌, arith, ◌==◌, if◌then◌else◌, Bytes, codes}

abbrev pub msg_start : ℕ
msg_start = b'{'

abbrev pub msg_end : ℕ
msg_end = b'}'

abbrev pub msg_delim : ℕ
msg_delim = 10

abbrev pub seq_start : ℕ
seq_start = b'['

abbrev pub seq_end : ℕ
seq_end = b']'

abbrev pub field_delim : ℕ
field_delim = b','

abbrev pub value_delim : ℕ
value_delim = b'='

abbrev pub meta_delim : ℕ
meta_delim = b':'

abbrev pub escape : ℕ
escape = 92

abbrev pub special_chars : Bytes
special_chars = b'{' ∷ b'}' ∷ 10 ∷ b'[' ∷ b']' ∷ b',' ∷ b'=' ∷ b':' ∷ 92 ∷ []

abbrev pub sam0100 : Bytes
sam0100 = codes "SAM0100"

abbrev pub sam0101 : Bytes
sam0101 = codes "SAM0101"

abbrev pub max_msg_len : ℕ
max_msg_len = 99999

-- SAMProtocol::isSpecialChar
unfoldable pub is_special_char : ℕ → Bool
is_special_char c =
    c == msg_start
    || (c == msg_end
        || (c == msg_delim
            || (c == seq_start
                || (c == seq_end
                    || (c == field_delim
                        || (c == value_delim || (c == meta_delim || c == escape)))))))

-- strchr(reject, c) != NULL, over the characters of a list.
pub mem_byte : ℕ → Bytes → Bool
mem_byte c [] = false
mem_byte c (d ∷ s) = c == d || mem_byte c s

-- strcspn(s, reject): the length of the initial segment with no character of `reject`; the
-- terminating NUL of a C string ends it too.
unfoldable pub strcspn : Bytes → Bytes → ℕ
unfolding mem_byte
strcspn [] reject = 0
strcspn (c ∷ s) reject = if c == 0 || mem_byte c reject then 0 else suc (strcspn s reject)

-- The string that `strcspn` searches holds exactly the characters of `isSpecialChar`.
pub mem_byte-special_chars : (c : ℕ) → mem_byte c special_chars ≡ is_special_char c
unfolding mem_byte is_special_char
mem_byte-special_chars c = ground arith

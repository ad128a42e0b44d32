-- ===== src/SamBuffer/Defs.antt =====
-- DynamicSamBuffer: libexio/exio/SamBuffer.h and libexio/SamBuffer.cc. A size_t has 64 bits, an
-- unsigned int 32. That std::vector::resize may fail for lack of memory is not modelled.
use exio.Prelude.{
  ℕ, ◌+◌, ◌-◌, ◌*◌, ◌%◌, ◌^◌, max, Bytes, ◌∷◌, ◌++◌, length, take, drop, replicate, ltb, leb, ◌==◌,
  ◌&&◌, if◌then◌else◌,
}
use exio.Error.{
  Result, ok, err, ◌>>=◌, ◌>>◌, guard, failed_to_resize, msglen_not_of_expected_length,
  headlen_not_of_expected_size, out_of_bounds,
}
use exio.Sam.Chars.{msg_start, meta_delim, sam0100, sam0101, max_msg_len}
use exio.SamBuffer.Decimal.{count_digits, decimal}

-- size_t arithmetic
abbrev pub size_t : ℕ → ℕ
size_t x = x % 2 ^ 64

abbrev pub reserve_for_sam_header : ℕ
reserve_for_sam_header = 100

pub record DynamicSamBuffer : Type 0 where
  pub buf : Bytes
  pub start : ℕ
  pub wptr : ℕ

-- DynamicSamBuffer(size_t reserve)
unfoldable pub new_buffer : ℕ → DynamicSamBuffer
new_buffer reserve = record {
  buf =
      replicate
        (if ltb reserve reserve_for_sam_header then reserve + reserve_for_sam_header else reserve)
        0;
  start = reserve_for_sam_header;
  wptr = reserve_for_sam_header;
}

-- memcpy(&buf[pos], src, length src); outside of the vector it is a fault.
unfoldable pub write_at : ℕ → Bytes → Bytes → Result Bytes
write_at pos src buf =
    if leb (pos + length src) (length buf)
    then ok (take pos buf ++ src ++ drop (pos + length src) buf)
    else err out_of_bounds

unfoldable pub check_space : ℕ → DynamicSamBuffer → Result DynamicSamBuffer
check_space n sb =
    let size = length sb.buf in
    let remain = size_t (size + 2 ^ 64 - sb.wptr) in
    let newsize = max (size_t (size + n + 2 ^ 64 - remain)) (size_t (2 * size)) in
    if ltb remain n
    then (if ltb newsize size
        then err failed_to_resize
        else ok (record sb { buf = sb.buf ++ replicate (newsize - size) 0 }))
    else ok sb

-- append(const char* src, size_t srclen), and append(char) at a list of one
unfoldable pub append : Bytes → DynamicSamBuffer → Result DynamicSamBuffer
unfolding check_space write_at
append src sb = do
  sb' ← check_space (length src) sb
  b ← write_at sb'.wptr src sb'.buf
  ok (record sb' { buf = b; wptr = sb'.wptr + length src })

unfoldable pub msg_size : DynamicSamBuffer → ℕ
msg_size sb = sb.wptr - sb.start

-- msg_start() and msg_size() together: the bytes from the one, as many as the other says
unfoldable pub contents : DynamicSamBuffer → Bytes
contents sb = drop sb.start (take sb.wptr sb.buf)

-- MSG_START, the version, META_DELIM and the length
unfoldable pub header : Bytes → Bytes → Bytes
header version lenstr = msg_start ∷ (version ++ meta_delim ∷ lenstr)

-- encode_header() from `headlen += msglen_strlen` on: the parts of the header are written one behind
-- the other from m_msg_start on, and the version is put in again for a short message.
unfoldable pub write_header : ℕ → ℕ → DynamicSamBuffer → Result DynamicSamBuffer
unfolding header write_at
write_header msglen_strlen msglen_full sb =
    let headlen = 9 + msglen_strlen in
    let lenbuf = decimal msglen_full in
    let short = leb msglen_full max_msg_len && leb (length lenbuf) 5 in
    do
      guard (leb headlen sb.start) out_of_bounds
      guard (length lenbuf == msglen_strlen) msglen_not_of_expected_length
      guard (length (header sam0101 lenbuf) == headlen) headlen_not_of_expected_size
      b ← write_at (sb.start - headlen) (header (if short then sam0100 else sam0101) lenbuf) sb.buf
      ok (record sb { buf = b; start = sb.start - headlen })

-- encode_header(): the length counts its own digits, which may make it one digit longer.
-- `count_digits` takes an unsigned int.
unfoldable pub encode_header : DynamicSamBuffer → Result DynamicSamBuffer
encode_header sb =
    let partlen = msg_size sb + 9 in
    let msglen_strlen = count_digits (partlen % 2 ^ 32) in
    let msglen_full = partlen + msglen_strlen in
    if ltb msglen_strlen (count_digits (msglen_full % 2 ^ 32))
    then write_header (msglen_strlen + 1) (msglen_full + 1) sb
    else write_header msglen_strlen msglen_full sb

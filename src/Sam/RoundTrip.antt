-- ===== src/Sam/RoundTrip.antt =====
-- The encoder and the decoder of libexio/sam.cc together.
use exio.Prelude.{ℕ, ◌<◌, ◌^◌, ◌≡◌, Bytes, ◌++◌, length, arith}
use exio.Error.{ok}
use exio.Sam.Container.{TxMessage}
use exio.SamBuffer.Defs.{DynamicSamBuffer, new_buffer, contents}
use exio.Sam.Encode.{encode_msg}
use exio.Sam.Encode.Message.{encode_msg_lem}
use exio.Sam.Decode.{decode_msg}
use exio.Sam.Decode.Message.{IsClean, decode_msg-frame}

-- encodeMsg into a new buffer with a reserve below 2 ^ 31 succeeds for every clean message: one
-- whose body is below 2 ^ 31 - 100 bytes, whose names are unique among the fields and among the
-- children of a container, and whose type and names hold no delimiter of theirs, no escape and
-- no leading ']'. decodeMsg of its bytes gives the message back and consumes them and no more,
-- whatever bytes follow and whatever the target message held.
pub decode_msg-encode_msg :
    (m₀ msg : TxMessage) (reserve : ℕ) (rest : Bytes)
    → IsClean msg
    → reserve < 2 ^ 31
    → (sb : DynamicSamBuffer) × (encode_msg msg (new_buffer reserve)
        ≡ ok (sb, length (contents sb)))
      × (decode_msg m₀ (contents sb ++ rest) ≡ ok (msg, length (contents sb)))
decode_msg-encode_msg m₀ msg reserve rest v h =
    let (sb, e, c) = encode_msg_lem msg reserve (omega (arith, v.short)) h in
    (sb, e, rw c (decode_msg-frame m₀ msg rest v))

-- ===== src/SamBuffer/Tests.antt =====
-- Runs of the buffer and of the header's laws on a small buffer.
use exio.Prelude.{ℕ, ◌+◌, ◌-◌, ◌≤◌, ◌<◌, ◌^◌, ◌≡◌, codes, length, length-replicate, arith}
use exio.Error.{ok}
use exio.SamBuffer.Defs.{DynamicSamBuffer, new_buffer, append, encode_header, contents, msg_size}
use exio.SamBuffer.Append.{IsWithin, Appends, append_lem}
use exio.SamBuffer.Header.{frame, encode_header_lem}

fresh-IsWithin : IsWithin 600 (new_buffer 512)
unfolding new_buffer
fresh-IsWithin = record {
  ordered = omega arith;
  written = omega (arith, length-replicate {A = ℕ} 512 0);
  bounded = omega (arith, length-replicate {A = ℕ} 512 0);
}

fits : (new_buffer 512).wptr + length (codes "abc") ≤ 600
unfolding new_buffer
fits = omega arith

append_lem_example :
    Appends 600 (codes "abc") (new_buffer 512) (append (codes "abc") (new_buffer 512))
append_lem_example = append_lem 600 (codes "abc") (new_buffer 512) fresh-IsWithin fits (omega arith)

fresh_start : 30 ≤ (new_buffer 512).start
unfolding new_buffer
fresh_start = omega arith

fresh_size : msg_size (new_buffer 512) < 2 ^ 32 - 30
unfolding new_buffer msg_size
fresh_size = omega arith

encode_header_lem_example :
    (sb : DynamicSamBuffer) × (encode_header (new_buffer 512) ≡ ok sb)
    × (contents sb ≡ frame (contents (new_buffer 512)))
    × (msg_size sb ≡ length (frame (contents (new_buffer 512))))
encode_header_lem_example =
    encode_header_lem 600 (new_buffer 512) fresh-IsWithin fresh_start fresh_size

-- ===== src/ReadBuffer/Tests.antt =====
-- A fill of a small read buffer.
use exio.Prelude.{◌+◌, ◌<◌, ◌^◌, ◌≡◌, refl, codes, length, ◌++◌, arith}
use exio.Error.{ok}
use exio.ReadBuffer.{ReactorReadBuffer, new_read_buffer, fill, unread}
use exio.ReadBuffer.Laws.{IsSound, new_read_buffer-IsSound, fill_lem}

abbrev small : ReactorReadBuffer
small = new_read_buffer 2

small_start : small.rp ≡ 0
unfolding new_read_buffer
small_start = refl

small_fits : small.bytesavail + length (codes "abcde") < 2 ^ 62
unfolding new_read_buffer
small_fits = omega arith

fill_lem_example :
    (b : ReactorReadBuffer) × (fill (codes "abcde") small ≡ ok b)
    × IsSound b
    × (b.rp ≡ 0)
    × (b.bytesavail ≡ small.bytesavail + length (codes "abcde"))
    × (unread b ≡ unread small ++ codes "abcde")
fill_lem_example = fill_lem (codes "abcde") small (new_read_buffer-IsSound 2) small_start small_fits

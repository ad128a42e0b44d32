-- ===== src/ReadBuffer.antt =====
-- ReactorReadBuffer: libexio/exio/ReactorReadBuffer.h and libexio/ReactorReadBuffer.cc, and the
-- filling of it in Client::do_work. That `new char[]` may fail is not modelled.
pub mod Laws
mod Tests
use exio.Prelude.{
  ℕ, zero, suc, ◌+◌, ◌-◌, ◌*◌, ◌/◌, ◌^◌, ◌≤◌, ◌<◌, ◌≡◌, refl, ◌∙◌, ap, sym, Bytes, [], ◌∷◌, ◌++◌,
  length, take, drop, replicate, ltb, leb, ◌==◌, ◌&&◌, not, if◌then◌else◌, arith, length-append,
  length-take, length-drop, length-replicate, Bool-cases, inl, inr, ltb→lt, le→ltb, take-append_le,
  append_assoc, take-append-drop, drop-append_le, lt→ltb,
}
use exio.Error.{Result, ok, err, ◌>>=◌, failed_to_allocate, out_of_fuel}
use exio.SamBuffer.Defs.{write_at}

pub record ReactorReadBuffer : Type 0 where
  pub buf_cap : ℕ
  pub buf : Bytes
  pub bytesavail : ℕ
  pub rp : ℕ

-- ReactorReadBuffer(size_t cap), with zero()
unfoldable pub new_read_buffer : ℕ → ReactorReadBuffer
new_read_buffer cap = record { buf_cap = cap; buf = replicate cap 0; bytesavail = 0; rp = 0 }

unfoldable pub space_remain : ReactorReadBuffer → ℕ
space_remain b = b.buf_cap - b.bytesavail

-- grow(): by half, and by one at least; the half is exact, for the double of the source up to 2 ^ 53. A capacity past the range of a signed 64-bit number is an
-- error.
unfoldable pub grow : ReactorReadBuffer → Result ReactorReadBuffer
grow b =
    let extra = if b.buf_cap / 2 == 0 then 1 else b.buf_cap / 2 in
    if ltb (b.buf_cap + extra) (2 ^ 63)
    then ok (record b { buf_cap = b.buf_cap + extra; buf = b.buf ++ replicate extra 0 })
    else err failed_to_allocate

-- while (buf.space_remain() < n) buf.grow();
unfoldable pub reserve_loop : ℕ → ℕ → ReactorReadBuffer → Result ReactorReadBuffer
reserve_loop zero n b = err out_of_fuel
reserve_loop (suc f) n b =
    let more = grow b >>= reserve_loop f n in if ltb (space_remain b) n then more else ok b

-- The fuel is n + 1: each growth adds a byte at least.
unfoldable pub reserve_space : ℕ → ReactorReadBuffer → Result ReactorReadBuffer
reserve_space n b = reserve_loop (suc n) n b

-- One chunk of do_work: room is made, the chunk copied to wp(), and bytesavail raised.
unfoldable pub fill : Bytes → ReactorReadBuffer → Result ReactorReadBuffer
fill chunk b = do
  b' ← reserve_space (length chunk) b
  bytes ← write_at b'.bytesavail chunk b'.buf
  ok (record b' { buf = bytes; bytesavail = b'.bytesavail + length chunk })

-- The bytes from rp() on, as many as bytesavail()
unfoldable pub unread : ReactorReadBuffer → Bytes
unread b = take b.bytesavail (drop b.rp b.buf)

unfoldable pub consume : ℕ → ReactorReadBuffer → ReactorReadBuffer
consume n b = record b { rp = b.rp + n; bytesavail = b.bytesavail - n }

unfoldable pub shift_pending_to_array_start : ReactorReadBuffer → ReactorReadBuffer
shift_pending_to_array_start b =
    if ltb 0 b.bytesavail && ltb 0 b.rp
    then record b { buf = take b.bytesavail (drop b.rp b.buf) ++ drop b.bytesavail b.buf; rp = 0 }
    else record b { rp = 0 }

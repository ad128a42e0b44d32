-- ===== src/ReadBuffer/Laws.antt =====
-- The read buffer is a queue of bytes: filling appends to what is unread, consuming drops from its
-- front, and moving it to the start of the array changes nothing.
use exio.Prelude.{
  ℕ, zero, suc, ◌+◌, ◌-◌, ◌/◌, ◌^◌, ◌≤◌, ◌<◌, ◌≡◌, refl, ◌∙◌, ap, sym, Bytes, ◌++◌, length, take,
  drop, replicate, ltb, ◌==◌, ◌&&◌, if◌then◌else◌, arith, length-append, length-take, length-drop,
  length-replicate, Bool-cases, inl, inr, ltb→lt, take-append_le, true, false, drop-append_le,
  lt→ltb, drop-take, drop-drop, take-append_length,
}
use exio.Error.{Result, ok}
use exio.SamBuffer.Append.{splice, write_at-eq-splice, length-splice, take-splice}
use exio.ReadBuffer.{
  ReactorReadBuffer, new_read_buffer, space_remain, grow, reserve_loop, reserve_space, fill, unread,
  consume, shift_pending_to_array_start,
}

-- The invariant: the array has the size that the buffer takes it to have, and the bytes not yet
-- consumed lie in it.
pub record IsSound (b : ReactorReadBuffer) : Type 0 where
  pub sized : length b.buf ≡ b.buf_cap
  pub inside : b.rp + b.bytesavail ≤ b.buf_cap

pub new_read_buffer-IsSound : (cap : ℕ) → IsSound (new_read_buffer cap)
unfolding new_read_buffer
new_read_buffer-IsSound cap = record { sized = length-replicate cap 0; inside = omega arith }

pub length-unread : (b : ReactorReadBuffer) → IsSound b → length (unread b) ≡ b.bytesavail
unfolding unread
length-unread b v =
    omega
      (arith, length-take b.bytesavail (drop b.rp b.buf), length-drop b.rp b.buf, v.sized, v.inside)

-- Consuming drops from the front of what is unread.
module _ (n : ℕ) (b : ReactorReadBuffer) (v : IsSound b) (le : n ≤ b.bytesavail) where
  pub consume-IsSound : IsSound (consume n b)
  unfolding consume
  consume-IsSound = record { sized = v.sized; inside = omega (arith, v.inside) }

  pub unread-consume : unread (consume n b) ≡ drop n (unread b)
  unfolding consume unread
  unread-consume =
      ap (take (b.bytesavail - n)) (sym (drop-drop b.rp n b.buf))
      ∙ sym (drop-take b.bytesavail n (b.bytesavail - n) (drop b.rp b.buf) (omega arith))

idle :
    (buf : Bytes) (n r : ℕ)
    → (ltb 0 n && ltb 0 r) ≡ false
    → take n (drop 0 buf) ≡ take n (drop r buf)
idle buf zero r h = refl
idle buf (suc n) zero h = refl
idle buf (suc n) (suc r) h = absurd (ground arith)

module _ (b : ReactorReadBuffer) (v : IsSound b) where
  shift_moves :
      let moved = take b.bytesavail (drop b.rp b.buf) ++ drop b.bytesavail b.buf in
      (take b.bytesavail moved ≡ unread b) × (length moved ≡ b.buf_cap)
  unfolding unread
  shift_moves =
      let u : Bytes = take b.bytesavail (drop b.rp b.buf) in
      let rest : Bytes = drop b.bytesavail b.buf in
      let len : length u ≡ b.bytesavail = omega (
        arith,
        length-take b.bytesavail (drop b.rp b.buf),
        length-drop b.rp b.buf,
        v.sized,
        v.inside,
      ) in
      (
        take-append_length u rest b.bytesavail (sym len),
        omega (arith, length-append u rest, length-drop b.bytesavail b.buf, v.sized, v.inside),
      )

  pub shift-IsSound : IsSound (shift_pending_to_array_start b)
  unfolding shift_pending_to_array_start
  shift-IsSound = ground (arith, shift_moves.1, v.sized, v.inside)

  -- Afterwards the unread bytes are the same and stand at the start.
  pub unread-shift :
      (unread (shift_pending_to_array_start b) ≡ unread b)
      × ((shift_pending_to_array_start b).rp ≡ 0)
      × ((shift_pending_to_array_start b).bytesavail ≡ b.bytesavail)
  unfolding shift_pending_to_array_start
  unread-shift = elim (Bool-cases (ltb 0 b.bytesavail && ltb 0 b.rp)) [
    | inl e ↦ rw e (unfold unread in shift_moves.0, refl, refl)
    | inr e ↦ rw e (unfold unread in idle b.buf b.bytesavail b.rp e, refl, refl)
  ]

-- Room for `n` bytes, and nothing that was there has changed.
abbrev Roomy : ℕ → ReactorReadBuffer → Result ReactorReadBuffer → Type 0
Roomy n b r =
    (b' : ReactorReadBuffer) × (r ≡ ok b')
    × IsSound b'
    × (n ≤ space_remain b')
    × (b'.rp ≡ b.rp)
    × (b'.bytesavail ≡ b.bytesavail)
    × (unread b' ≡ unread b)

-- A growth adds a byte at least, and is no error below 2 ^ 62.
grow_lem :
    (b : ReactorReadBuffer)
    → IsSound b
    → b.buf_cap < 2 ^ 62
    → (b' : ReactorReadBuffer) × (grow b ≡ ok b')
      × IsSound b'
      × (b.buf_cap < b'.buf_cap)
      × (b'.rp ≡ b.rp)
      × (b'.bytesavail ≡ b.bytesavail)
      × (unread b' ≡ unread b)
grow_lem b v small =
    let extra : ℕ = if b.buf_cap / 2 == 0 then 1 else b.buf_cap / 2 in
    let bound : (0 < extra) × (extra ≤ b.buf_cap + 1) = ground arith in
    let zeros : Bytes = replicate extra 0 in
    (
      record b { buf_cap = b.buf_cap + extra; buf = b.buf ++ zeros },
      unfold grow in rw (lt→ltb (b.buf_cap + extra) (2 ^ 63) (omega arith)),
      record {
        sized = omega (arith, length-append b.buf zeros, length-replicate {A = ℕ} extra 0, v.sized);
        inside = omega (arith, v.inside);
      },
      omega arith,
      refl,
      refl,
      unfold unread in
          (ap (take b.bytesavail)
              (drop-append_le b.rp b.buf zeros (omega (arith, v.sized, v.inside)))
            ∙ take-append_le b.bytesavail (drop b.rp b.buf) zeros
                (omega (arith, length-drop b.rp b.buf, v.sized, v.inside))),
    )

reserve_loop-short :
    (f n : ℕ) (b b₁ : ReactorReadBuffer)
    → ltb (space_remain b) n ≡ true
    → grow b ≡ ok b₁
    → reserve_loop (suc f) n b ≡ reserve_loop f n b₁
unfolding reserve_loop
reserve_loop-short f n b b₁ short e = rw (short, e)

reserve_loop_lem :
    (f n : ℕ) (b : ReactorReadBuffer)
    → IsSound b
    → n < f + space_remain b
    → 0 < f
    → b.bytesavail + n < 2 ^ 62
    → Roomy n b (reserve_loop f n b)
reserve_loop_lem zero n b v enough pos small = absurd (omega arith)
reserve_loop_lem (suc f) n b v enough pos small = elim (Bool-cases (ltb (space_remain b) n)) [
  | inl short ↦
      let lt = ltb→lt _ _ short in
      let (b₁, e₁, v₁, more, rp₁, av₁, un₁) =
        grow_lem b v (unfold space_remain in omega (arith, lt)) in
      let wider : space_remain b < space_remain b₁ =
        (unfold space_remain in omega (arith, v.inside)) in
      let (b₂, e₂, v₂, room, rp₂, av₂, un₂) =
        reserve_loop_lem f n b₁ v₁ (omega arith) (omega arith) (omega arith) in
      (b₂, reserve_loop-short f n b b₁ short e₁ ∙ e₂, v₂, room, rp₂ ∙ rp₁, av₂ ∙ av₁, un₂ ∙ un₁)
  | inr room ↦ (b, unfold reserve_loop in rw room, v, ground (arith, room), refl, refl, refl)
]

room_lem :
    (b : ReactorReadBuffer) (n : ℕ)
    → IsSound b
    → n ≤ space_remain b
    → b.bytesavail + n ≤ length b.buf
unfolding space_remain
room_lem b n v h = omega (arith, v.sized, v.inside)

unread_at_start : (b : ReactorReadBuffer) → b.rp ≡ 0 → unread b ≡ take b.bytesavail b.buf
unfolding unread
unread_at_start b e = rw e

-- A chunk copied into a sound read buffer whose read position is the start, with less than 2 ^
-- 62 bytes in all, ends up behind the bytes not yet consumed, and the buffer, grown as it needs
-- to, is sound with its read position at the start.
pub fill_lem :
    (chunk : Bytes) (b : ReactorReadBuffer)
    → IsSound b
    → b.rp ≡ 0
    → b.bytesavail + length chunk < 2 ^ 62
    → (b' : ReactorReadBuffer) × (fill chunk b ≡ ok b')
      × IsSound b'
      × (b'.rp ≡ 0)
      × (b'.bytesavail ≡ b.bytesavail + length chunk)
      × (unread b' ≡ unread b ++ chunk)
fill_lem chunk b v at small =
    let n = length chunk in
    let (b₁, e₁, v₁, room, rp₁, av₁, un₁) =
      reserve_loop_lem (suc n) n b v (omega arith) (omega arith) small in
    let room' : b₁.bytesavail + length chunk ≤ length b₁.buf = room_lem b₁ n v₁ room in
    let bytes : Bytes = splice b₁.bytesavail chunk b₁.buf in
    let start : b₁.rp ≡ 0 = rp₁ ∙ at in
    (
      record b₁ { buf = bytes; bytesavail = b₁.bytesavail + n },
      unfold fill reserve_space in rw (e₁, write_at-eq-splice b₁.bytesavail chunk b₁.buf room'),
      record {
        sized = length-splice b₁.bytesavail chunk b₁.buf room' ∙ v₁.sized;
        inside = omega (arith, v₁.sized);
      },
      start,
      omega arith,
      unread_at_start (record b₁ { buf = bytes; bytesavail = b₁.bytesavail + n }) start
          ∙ take-splice b₁.bytesavail chunk b₁.buf room'
          ∙ ap (λ u. u ++ chunk) (sym (unread_at_start b₁ start) ∙ un₁),
    )

-- ===== src/SamBuffer/Append.antt =====
-- The buffer never fails below its size limit, and holds what was appended, in order.
use exio.Prelude.{
  ℕ, ◌+◌, ◌-◌, ◌*◌, ◌^◌, ◌≤◌, ◌<◌, ◌≡◌, refl, ◌∙◌, ap, max, Bytes, [], ◌++◌, append-nil,
  append_assoc, length, take, drop, replicate, ltb, length-append, length-take, length-drop,
  length-replicate, take-append_length, take-append_le, arith, inl, inr, Bool-cases, ltb→lt, le→ltb,
  le→leb,
}
use exio.Error.{Result, ok, ◌>>=◌}
use exio.SamBuffer.Defs.{size_t, DynamicSamBuffer, check_space, write_at, append}

-- The invariant: the pointers are in order and within the vector, which is at most twice the
-- number of bytes `m` that it is going to hold.
pub record IsWithin (m : ℕ) (sb : DynamicSamBuffer) : Type 0 where
  pub ordered : sb.start ≤ sb.wptr
  pub written : sb.wptr ≤ length sb.buf
  pub bounded : length sb.buf ≤ 2 * m

-- The bytes up to the write pointer.
abbrev pub written : DynamicSamBuffer → Bytes
written sb = take sb.wptr sb.buf

-- The action succeeds, and the buffer holds `src` behind what it held.
abbrev pub Appends : ℕ → Bytes → DynamicSamBuffer → Result DynamicSamBuffer → Type 0
Appends m src sb r =
    (sb' : DynamicSamBuffer) × (r ≡ ok sb')
    × IsWithin m sb'
    × (sb'.start ≡ sb.start)
    × (sb'.wptr ≡ sb.wptr + length src)
    × (written sb' ≡ written sb ++ src)

-- The arithmetic of check_space does not wrap around.
module _ (s w n m : ℕ) (h : w ≤ s) (k : s ≤ 2 * m) (fits : w + n ≤ m) (small : m < 2 ^ 62) where
  remain-eq : size_t (s + 2 ^ 64 - w) ≡ s - w
  remain-eq = omega arith

  newsize-eq :
      s - w < n → max (size_t (s + n + 2 ^ 64 - (s - w))) (size_t (2 * s)) ≡ max (w + n) (2 * s)
  newsize-eq p = omega arith

abbrev Spaced : ℕ → ℕ → DynamicSamBuffer → Result DynamicSamBuffer → Type 0
Spaced m n sb r =
    (sb' : DynamicSamBuffer) × (r ≡ ok sb')
    × IsWithin m sb'
    × (sb'.start ≡ sb.start)
    × (sb'.wptr ≡ sb.wptr)
    × (sb.wptr + n ≤ length sb'.buf)
    × (written sb' ≡ written sb)

resize_lem :
    (m n size : ℕ) (sb : DynamicSamBuffer)
    → IsWithin m sb
    → sb.wptr + n ≤ size
    → length sb.buf ≤ size
    → size ≤ 2 * m
    → Spaced m n sb (ok (record sb { buf = sb.buf ++ replicate (size - length sb.buf) 0 }))
resize_lem m n size sb v fits grows top =
    let len : length (sb.buf ++ replicate (size - length sb.buf) 0) ≡ size = omega (
      arith,
      length-append sb.buf (replicate (size - length sb.buf) 0),
      length-replicate {A = ℕ} (size - length sb.buf) 0,
    ) in
    (
      record sb { buf = sb.buf ++ replicate (size - length sb.buf) 0 },
      refl,
      record { ordered = v.ordered; written = omega arith; bounded = omega arith },
      refl,
      refl,
      omega arith,
      take-append_le sb.wptr sb.buf (replicate (size - length sb.buf) 0) v.written,
    )

-- check_space leaves room and changes nothing that was written.
check_space_lem :
    (m n : ℕ) (sb : DynamicSamBuffer)
    → IsWithin m sb
    → sb.wptr + n ≤ m
    → m < 2 ^ 62
    → Spaced m n sb (check_space n sb)
check_space_lem m n sb v fits small = elim (Bool-cases (ltb (length sb.buf - sb.wptr) n)) [
  | inl more ↦
      let size = length sb.buf in
      let e = remain-eq size sb.wptr n m v.written v.bounded fits small in
      let top = newsize-eq size sb.wptr n m v.written v.bounded fits small (ltb→lt _ _ more) in
      let r =
        resize_lem m n (max (sb.wptr + n) (2 * size)) sb v (omega arith) (omega arith)
          (omega (arith, ltb→lt _ _ more)) in
      unfold check_space in
      rw (e, more, top, le→ltb (max (sb.wptr + n) (2 * size)) size (omega arith)) r
  | inr room ↦
      let e = remain-eq (length sb.buf) sb.wptr n m v.written v.bounded fits small in
      unfold check_space in rw (e, room) (sb, refl, v, refl, refl, ground (arith, room), refl)
]

unfoldable pub splice : ℕ → Bytes → Bytes → Bytes
splice pos src buf = take pos buf ++ src ++ drop (pos + length src) buf

module _ (pos : ℕ) (src buf : Bytes) (fits : pos + length src ≤ length buf) where
  pub write_at-eq-splice : write_at pos src buf ≡ ok (splice pos src buf)
  unfolding write_at splice
  write_at-eq-splice = rw (le→leb _ _ fits)

  pub length-splice : length (splice pos src buf) ≡ length buf
  unfolding splice
  length-splice = omega (
    arith,
    length-append (take pos buf ++ src) (drop (pos + length src) buf),
    length-append (take pos buf) src,
    length-take pos buf,
    length-drop (pos + length src) buf,
  )

  pub take-splice : take (pos + length src) (splice pos src buf) ≡ take pos buf ++ src
  unfolding splice
  take-splice =
      take-append_length (take pos buf ++ src) (drop (pos + length src) buf) (pos + length src)
        (omega (arith, length-append (take pos buf) src, length-take pos buf))

-- On a buffer within its bounds append of bytes that end below the limit, itself below 2 ^ 62,
-- neither throws nor writes outside of the vector; the bytes stand behind what was written,
-- which is kept.
pub append_lem :
    (m : ℕ) (src : Bytes) (sb : DynamicSamBuffer)
    → IsWithin m sb
    → sb.wptr + length src ≤ m
    → m < 2 ^ 62
    → Appends m src sb (append src sb)
append_lem m src sb v fits small =
    let (sb', e, v', st, wp, room, keep) = check_space_lem m (length src) sb v fits small in
    let room' : sb'.wptr + length src ≤ length sb'.buf = omega arith in
    let b : Bytes = splice sb'.wptr src sb'.buf in
    let len : length b ≡ length sb'.buf = length-splice sb'.wptr src sb'.buf room' in
    (
      record sb' { buf = b; wptr = sb'.wptr + length src },
      unfold append in rw (e, write_at-eq-splice sb'.wptr src sb'.buf room'),
      record {
        ordered = omega (arith, v'.ordered);
        written = omega arith;
        bounded = omega (arith, v'.bounded);
      },
      st,
      omega arith,
      take-splice sb'.wptr src sb'.buf room' ∙ ap (λ l. l ++ src) keep,
    )

-- One action behind another.
pub Appends-bind :
    (m : ℕ) (sb : DynamicSamBuffer) (s t : Bytes) (r : Result DynamicSamBuffer)
    (k : DynamicSamBuffer → Result DynamicSamBuffer)
    → Appends m s sb r
    → ((sb' : DynamicSamBuffer)
        → IsWithin m sb'
        → sb'.wptr ≡ sb.wptr + length s
        → Appends m t sb' (k sb'))
    → Appends m (s ++ t) sb (r >>= k)
Appends-bind m sb s t r k (sb₁, e₁, v₁, st₁, wp₁, w₁) then =
    let (sb₂, e₂, v₂, st₂, wp₂, w₂) = then sb₁ v₁ wp₁ in
    (
      sb₂,
      rw e₁ e₂,
      v₂,
      st₂ ∙ st₁,
      omega (arith, length-append s t),
      w₂ ∙ ap (λ l. l ++ t) w₁ ∙ append_assoc (written sb) s t,
    )

-- An action that succeeds wherever its bytes fit below 2 ^ 62, and then has appended them.
pub record Writes (src : Bytes) (k : DynamicSamBuffer → Result DynamicSamBuffer) : Type 0 where
  pub run :
      (m : ℕ) (sb : DynamicSamBuffer)
      → IsWithin m sb
      → sb.wptr + length src ≤ m
      → m < 2 ^ 62
      → Appends m src sb (k sb)

pub Writes-append : (src : Bytes) → Writes src (append src)
Writes-append src = record { run = λ m sb. append_lem m src sb }

pub Writes-ok : Writes [] ok
Writes-ok = record { run = λ m sb v fits small. (sb, refl, v, refl, omega arith, rw append-nil) }

pub Writes-bind :
    (s t : Bytes) (k l : DynamicSamBuffer → Result DynamicSamBuffer)
    → Writes s k
    → Writes t l
    → Writes (s ++ t) (λ sb. k sb >>= l)
Writes-bind s t k l wk wl = record {
  run = λ m sb v fits small.
      let len = length-append s t in
      Appends-bind m sb s t (k sb) l (wk.run m sb v (omega arith) small)
        λ sb' v' wp. wl.run m sb' v' (omega arith) small;
}

-- ===== src/Client/Outbound/Output.antt =====
-- handle_output loses no byte of the queue.
use exio.Prelude.{
  ℕ, ◌+◌, ◌-◌, ◌≡◌, refl, ◌∙◌, ap, sym, Bool, true, false, List, [], ◌∷◌, ◌++◌, Bytes, length, take,
  drop, take-append-drop, append_assoc, ltb, ◌==◌, if◌then◌else◌, arith, Bool-cases, inl, inr,
}
use exio.Error.{Result, ok}
use exio.Client.Outbound.{
  RawMsg, raw, sentinel, Outbound, do_shutdown, SendResult, wrote, again, broken, IoState,
  io_default, io_close, eat, pop_sentinel, handle_output,
}
use exio.Client.Outbound.Laws.{backlog}

-- The whole stream: the bytes that the socket took, and those that wait.
abbrev pub stream : Outbound → Bytes
stream c = c.sent ++ backlog c.items

-- eat, its test passed in.
unfoldable eat_by : Bool → ℕ → Bytes → List RawMsg → Outbound → Outbound
eat_by done n bytes rest c =
    let c' = record c {
      bytes_out = c.bytes_out + n;
      pending = if ltb n c.pending then c.pending - n else 0;
      sent = c.sent ++ take n bytes;
    } in
    if done
    then record c' { items = rest; itemcount = c.itemcount - 1 }
    else record c' { items = raw (drop n bytes) ∷ rest }

empty_of : (xs : Bytes) → (length xs == 0) ≡ true → xs ≡ []
empty_of [] e = refl
empty_of (x ∷ xs) e = absurd (ground arith)

cut :
    (n : ℕ) (sent bytes rest : Bytes)
    → (sent ++ take n bytes) ++ (drop n bytes ++ rest) ≡ sent ++ (bytes ++ rest)
cut n sent bytes rest =
    append_assoc sent (take n bytes) (drop n bytes ++ rest)
    ∙ ap (λ l. sent ++ l) (sym (append_assoc (take n bytes) (drop n bytes) rest))
    ∙ ap (λ l. sent ++ (l ++ rest)) (take-append-drop n bytes)

front_raw :
    (bytes : Bytes) (rest : List RawMsg) (c : Outbound)
    → c.items ≡ raw bytes ∷ rest
    → c.sent ++ (bytes ++ backlog rest) ≡ stream c
unfolding backlog
front_raw bytes rest c e = ap (λ ms. c.sent ++ backlog ms) (sym e)

eat_by_lem :
    (b : Bool) (n : ℕ) (bytes : Bytes) (rest : List RawMsg) (c : Outbound)
    → (length (drop n bytes) == 0) ≡ b
    → c.items ≡ raw bytes ∷ rest
    → c.itemcount ≡ length c.items
    → ((eat_by b n bytes rest c).itemcount ≡ length (eat_by b n bytes rest c).items)
      × (stream (eat_by b n bytes rest c) ≡ stream c)
unfolding eat_by
eat_by_lem true n bytes rest c z e k = (
  omega (arith, k, ap length e),
  ap (λ d. (c.sent ++ take n bytes) ++ (d ++ backlog rest)) (sym (empty_of (drop n bytes) z))
      ∙ cut n c.sent bytes (backlog rest)
      ∙ front_raw bytes rest c e,
)
eat_by_lem false n bytes rest c z e k = (
  k ∙ ap length e,
  (unfold backlog in cut n c.sent bytes (backlog rest) ∙ front_raw bytes rest c e),
)

-- The front item is written in part or in full.
eat_lem :
    (n : ℕ) (bytes : Bytes) (rest : List RawMsg) (c : Outbound)
    → c.items ≡ raw bytes ∷ rest
    → c.itemcount ≡ length c.items
    → ((eat n bytes rest c).itemcount ≡ length (eat n bytes rest c).items)
      × (stream (eat n bytes rest c) ≡ stream c)
unfolding eat eat_by
eat_lem n bytes rest c e k = eat_by_lem (length (drop n bytes) == 0) n bytes rest c refl e k

pop_lem :
    (rest : List RawMsg) (c : Outbound)
    → c.items ≡ sentinel ∷ rest
    → c.itemcount ≡ length c.items
    → ((pop_sentinel rest c).itemcount ≡ length (pop_sentinel rest c).items)
      × (stream (pop_sentinel rest c) ≡ stream c)
unfolding pop_sentinel do_shutdown
pop_lem rest c e k =
    let counted : c.itemcount - 1 ≡ length rest = omega (arith, k, ap length e) in
    let same : c.sent ++ backlog rest ≡ c.sent ++ backlog c.items =
      unfold backlog in ap (λ ms. c.sent ++ backlog ms) (sym e) in
    elim (Bool-cases c.io_closed) [ inl z ↦ rw z (counted, same) | inr z ↦ rw z (counted, same) ]

abbrev Written : Outbound → Result (IoState × Outbound) → Type 0
Written c r =
    (s : IoState) × (d : Outbound) × (r ≡ ok (s, d))
    × (d.itemcount ≡ length d.items)
    × (stream d ≡ stream c)

wrote_step :
    (n : ℕ) (rs : List SendResult) (bytes : Bytes) (rest : List RawMsg) (c : Outbound)
    → stream (eat n bytes rest c) ≡ stream c
    → Written
        (eat n bytes rest c)
        (handle_output rs (eat n bytes rest c).items (eat n bytes rest c))
    → Written c (handle_output (wrote n ∷ rs) (raw bytes ∷ rest) c)
unfolding handle_output
wrote_step n rs bytes rest c e w = (w.0, w.1, w.2, w.3, w.4 ∙ e)

handle_output_from :
    (rs : List SendResult) (ms : List RawMsg) (c : Outbound)
    → c.items ≡ ms
    → c.itemcount ≡ length c.items
    → Written c (handle_output rs ms c)
handle_output_from rs [] c e k = (
  io_default,
  record c { itemcount = 0 },
  (unfold handle_output in rw (k, ap length e)),
  omega (arith, ap length e),
  refl,
)
handle_output_from rs (sentinel ∷ rest) c e k =
    let p = pop_lem rest c e k in
    (io_close, pop_sentinel rest c, unfold handle_output in refl, p.0, p.1)
handle_output_from [] (raw bytes ∷ rest) c e k =
    (io_default, c, unfold handle_output in refl, k, refl)
handle_output_from (again ∷ rs) (raw bytes ∷ rest) c e k =
    (io_default, c, unfold handle_output in refl, k, refl)
handle_output_from (broken ∷ rs) (raw bytes ∷ rest) c e k =
    (io_close, c, unfold handle_output in refl, k, refl)
handle_output_from (wrote n ∷ rs) (raw bytes ∷ rest) c e k =
    let step = eat_lem n bytes rest c e k in
    let ih = handle_output_from rs (eat n bytes rest c).items (eat n bytes rest c) refl step.0 in
    wrote_step n rs bytes rest c step.1 ih

-- Whatever the socket answers, handle_output comes to an end without a fault when the count of
-- the items is right; the count stays right, and the bytes taken by the socket followed by those
-- that still wait are the same stream as before: none is lost, repeated or reordered.
pub handle_output_lem :
    (rs : List SendResult) (c : Outbound)
    → c.itemcount ≡ length c.items
    → (s : IoState) × (d : Outbound) × (handle_output rs c.items c ≡ ok (s, d))
      × (d.itemcount ≡ length d.items)
      × (stream d ≡ stream c)
handle_output_lem rs c k = handle_output_from rs c.items c refl k

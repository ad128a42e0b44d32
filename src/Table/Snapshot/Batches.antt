-- ===== src/Table/Snapshot/Batches.antt =====
-- The batches of a snapshot: every row once, in order, in messages that can be encoded.
use mathlib.Core.Path.{subst}
use exio.Prelude.{
  ==_iff, ℕ, zero, suc, ◌+◌, ◌/◌, ◌≤◌, ◌<◌, max, ◌≡◌, refl, sym, ap, ◌∙◌, Bool, true, false, some,
  List, [], ◌∷◌, ◌++◌, append_assoc, append-nil, length, take, drop, length-drop, get_elem?, ◌==◌,
  arith, Bool-cases, inl, inr,
}
use exio.Error.{Result, ok, err, failed_to_encode_snapshot}
use exio.Dict.{Dict, lookup}
use exio.SamBuffer.Decimal.{decimal}
use exio.Sam.Container.{TxContainer, TxMessage}
use exio.Sam.Encode.{check_enc_size}
use exio.Table.Row.{DataRow}
use exio.Table.Defs.{DataTable}
use exio.Table.Snapshot.{
  empty_msg, set_table_name, add_row_to, fill_batch, room_for_snap_fields, snapshot_loop,
  number_from, snapshot,
}

-- The message of a number of rows
abbrev pub put_all : Dict (Dict TxContainer) → List DataRow → TxMessage → TxMessage
put_all pcmd [] m = m
put_all pcmd (r ∷ rows) m = put_all pcmd rows (add_row_to r (lookup r.rowkey pcmd) m)

abbrev pub message_of : DataTable → List DataRow → TxMessage
message_of t rows = put_all t.pcmd rows (set_table_name t.table_name empty_msg)

fill_batch_lem :
    (pcmd : Dict (Dict TxContainer)) (n : ℕ) (rows : List DataRow) (m : TxMessage)
    → fill_batch pcmd n rows m ≡ (put_all pcmd (take n rows) m, drop n rows)
unfolding fill_batch
fill_batch_lem pcmd zero rows m = refl
fill_batch_lem pcmd (suc n) [] m = refl
fill_batch_lem pcmd (suc n) (r ∷ rows) m =
    fill_batch_lem pcmd n rows (add_row_to r (lookup r.rowkey pcmd) m)

-- The rows cut into batches of at most so many rows, none of them empty, and the messages of the
-- batches, each of which may be encoded with room for the numbers.
pub data Batches (t : DataTable) (limit : ℕ) : List DataRow → List TxMessage → Type 0 where
  finished : Batches t limit [] []
  batch :
      (n : ℕ) (r : DataRow) (rows : List DataRow) (msgs : List TxMessage)
      → 0 < n
      → n ≤ limit
      → check_enc_size (message_of t (take n (r ∷ rows))) room_for_snap_fields ≡ true
      → Batches t limit (drop n (r ∷ rows)) msgs
      → Batches t limit (r ∷ rows) (message_of t (take n (r ∷ rows)) ∷ msgs)

-- A smaller limit will do.
weaken :
    (t : DataTable) (l m : ℕ) (rows : List DataRow) (msgs : List TxMessage)
    → l ≤ m
    → Batches t l rows msgs
    → Batches t m rows msgs
weaken t l m [] [] h finished = finished
weaken t l m _ _ h (batch n r rows msgs p q e b) =
    batch n r rows msgs p (omega arith) e (weaken t l m (drop n (r ∷ rows)) msgs h b)

-- What the loop comes to: batches of all rows, or a row that does not fit into a message of its own
pub data Snapped (t : DataTable) (limit : ℕ) (rows : List DataRow) (before : List TxMessage)
    : Result (List TxMessage × ℕ) → Type 0 where
  complete :
      (msgs : List TxMessage) (b : ℕ)
      → 0 < b
      → b ≤ limit
      → Batches t limit rows msgs
      → Snapped t limit rows before (ok (before ++ msgs, b))
  too_big :
      (i : ℕ) (r : DataRow)
      → get_elem? rows i ≡ some r
      → check_enc_size (message_of t (r ∷ [])) room_for_snap_fields ≡ false
      → Snapped t limit rows before (err failed_to_encode_snapshot)

-- One round, by its two tests
module _ (t : DataTable) (fuel b : ℕ) (r : DataRow) (rows : List DataRow)
    (msgs : List TxMessage) where
  abbrev first : TxMessage
  first = message_of t (take b (r ∷ rows))

  abbrev done : TxMessage × List DataRow
  done = fill_batch t.pcmd b (r ∷ rows) (set_table_name t.table_name empty_msg)

  filled : done ≡ (first, drop b (r ∷ rows))
  filled = fill_batch_lem t.pcmd b (r ∷ rows) (set_table_name t.table_name empty_msg)

  tested :
      {x : Bool}
      → check_enc_size first room_for_snap_fields ≡ x
      → check_enc_size done.0 room_for_snap_fields ≡ x
  tested e = ap (λ d. check_enc_size d.0 room_for_snap_fields) filled ∙ e

  round_taken :
      check_enc_size first room_for_snap_fields ≡ true
      → snapshot_loop t (suc fuel) b (r ∷ rows) msgs
        ≡ snapshot_loop t fuel b (drop b (r ∷ rows)) (msgs ++ first ∷ [])
  unfolding snapshot_loop
  round_taken e =
      rw (tested e, snapshot_loop) (ap (λ d. snapshot_loop t fuel b d.1 (msgs ++ d.0 ∷ [])) filled)

  round_failed :
      check_enc_size first room_for_snap_fields ≡ false
      → (b == 1) ≡ true
      → snapshot_loop t (suc fuel) b (r ∷ rows) msgs ≡ err failed_to_encode_snapshot
  unfolding snapshot_loop
  round_failed e z = rw (tested e, z, snapshot_loop) refl

  round_halved :
      check_enc_size first room_for_snap_fields ≡ false
      → (b == 1) ≡ false
      → snapshot_loop t (suc fuel) b (r ∷ rows) msgs
        ≡ snapshot_loop t fuel (max 1 (b / 2)) (r ∷ rows) msgs
  unfolding snapshot_loop
  round_halved e z = rw (tested e, z, snapshot_loop) refl

get_elem?-drop :
    {A : Type 0} (n i : ℕ) (xs : List A) (a : A)
    → get_elem? (drop n xs) i ≡ some a
    → get_elem? xs (n + i) ≡ some a
get_elem?-drop zero i xs a h = let e : 0 + i ≡ i = omega arith in ap (get_elem? xs) e ∙ h
get_elem?-drop (suc n) i [] a h = h
get_elem?-drop (suc n) i (x ∷ xs) a h =
    let e : suc n + i ≡ suc (n + i) = omega arith in
    ap (get_elem? (x ∷ xs)) e ∙ get_elem?-drop n i xs a h

-- The outcome of a round from that of the rounds behind it
take_on :
    (t : DataTable) (b : ℕ) (r : DataRow) (rows : List DataRow) (before : List TxMessage)
    (x : Result (List TxMessage × ℕ))
    → 0 < b
    → check_enc_size (message_of t (take b (r ∷ rows))) room_for_snap_fields ≡ true
    → Snapped t b (drop b (r ∷ rows)) (before ++ message_of t (take b (r ∷ rows)) ∷ []) x
    → Snapped t b (r ∷ rows) before x
take_on t b r rows before x p e (complete msgs c q l s) =
    let m = message_of t (take b (r ∷ rows)) in
    subst (λ y. Snapped t b (r ∷ rows) before (ok (y, c))) (sym (append_assoc before (m ∷ []) msgs))
      (complete (m ∷ msgs) c q l (batch b r rows msgs p (omega arith) e s))
take_on t b r rows before x p e (too_big i r' g f) =
    too_big (b + i) r' (get_elem?-drop b i (r ∷ rows) r' g) f

smaller :
    (t : DataTable) (l b : ℕ) (rows : List DataRow) (before : List TxMessage)
    (x : Result (List TxMessage × ℕ))
    → l ≤ b
    → Snapped t l rows before x
    → Snapped t b rows before x
smaller t l b rows before x h (complete msgs c q k s) =
    complete msgs c q (omega arith) (weaken t l b rows msgs h s)
smaller t l b rows before x h (too_big i r g f) = too_big i r g f

single : (b : ℕ) (r : DataRow) (rows : List DataRow) → (b == 1) ≡ true → take b (r ∷ rows) ≡ r ∷ []
single b r rows e = rw ((==_iff b 1).0 e) refl

snapshot_loop_lem :
    (t : DataTable) (fuel b : ℕ) (rows : List DataRow) (before : List TxMessage)
    → 0 < b
    → length rows + b ≤ fuel
    → Snapped t b rows before (snapshot_loop t fuel b rows before)
snapshot_loop_lem t zero b rows before p h = absurd (omega arith)
snapshot_loop_lem t (suc fuel) b [] before p h =
    (unfold snapshot_loop in
      subst (λ y. Snapped t b [] before (ok (y, b))) (append-nil before)
        (complete [] b p (omega arith) finished))
snapshot_loop_lem t (suc fuel) b (r ∷ rows) before p h =
    let again =
      snapshot_loop_lem t fuel b (drop b (r ∷ rows))
        (before ++ message_of t (take b (r ∷ rows)) ∷ []) p
        (omega (arith, length-drop b (r ∷ rows))) in
    elim (Bool-cases (check_enc_size (message_of t (take b (r ∷ rows))) room_for_snap_fields)) [
      | inl e ↦ rw (round_taken t fuel b r rows before e) (take_on t b r rows before _ p e again)
      | inr e ↦ elim (Bool-cases (b == 1)) [
        | inl z ↦ rw (round_failed t fuel b r rows before e z) (
            too_big 0 r refl (
              ap (λ l. check_enc_size (message_of t l) room_for_snap_fields)
                (sym (single b r rows z))
              ∙ e))
        | inr z ↦
            let less : max 1 (b / 2) < b = ground arith in
            rw (round_halved t fuel b r rows before e z) (
              smaller t (max 1 (b / 2)) b (r ∷ rows) before _ (omega arith) (
                snapshot_loop_lem t fuel (max 1 (b / 2)) (r ∷ rows) before (omega arith)
                  (omega arith)))
      ]
    ]

-- The messages a subscriber is sent: those of the batches, numbered
pub data Sent (t : DataTable) (limit : ℕ) : Result (List TxMessage × ℕ) → Type 0 where
  sent :
      (msgs : List TxMessage) (b : ℕ)
      → 0 < b
      → b ≤ limit
      → Batches t limit t.rows msgs
      → Sent t limit (ok (number_from 0 (decimal (length msgs)) msgs, b))
  refused :
      (i : ℕ) (r : DataRow)
      → get_elem? t.rows i ≡ some r
      → check_enc_size (message_of t (r ∷ [])) room_for_snap_fields ≡ false
      → Sent t limit (err failed_to_encode_snapshot)

numbered : Result (List TxMessage × ℕ) → Result (List TxMessage × ℕ)
numbered x = elim x [
  | err e ↦ err e
  | ok (msgs, b) ↦ ok (number_from 0 (decimal (length msgs)) msgs, b)
]

number_all :
    (t : DataTable) (limit : ℕ) (x : Result (List TxMessage × ℕ))
    → Snapped t limit t.rows [] x
    → Sent t limit (numbered x)
unfolding numbered
number_all t limit _ (complete msgs b p q s) = sent msgs b p q s
number_all t limit _ (too_big i r g f) = refused i r g f

-- The snapshot of a table, with a batch size that is not 0, ends, and comes to one of two
-- things: the rows of the table, each once and in order, in batches of one row or more and no
-- more than the batch size, a message for each that may be encoded with the room kept for its
-- numbers, and a batch size for the next snapshot that is not 0 and not larger; or the failure,
-- and then a row of the table has a message of its own that may not be encoded. The model does
-- not run out of fuel.
pub snapshot_lem :
    (t : DataTable) (batchsize : ℕ) → 0 < batchsize → Sent t batchsize (snapshot t batchsize)
unfolding snapshot numbered
snapshot_lem t b p =
    number_all t b (snapshot_loop t (length t.rows + b) b t.rows [])
      (snapshot_loop_lem t (length t.rows + b) b t.rows [] p (omega arith))

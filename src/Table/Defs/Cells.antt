-- ===== src/Table/Defs/Cells.antt =====
-- What a table holds after update_row, and that it does not fault.
use exio.Prelude.{
  ℕ, zero, suc, ◌≡◌, refl, ap, ◌∙◌, Bool, true, false, none, some, List, [], ◌∷◌, ◌++◌, length,
  get_elem?, if◌then◌else◌, inl, inr, Bytes, str_eq, str_eq_refl, str_eq_comm, arith, Option-cases,
}
use exio.Error.{ok}
use exio.Dict.{Dict, lookup}
use exio.Table.Position.{position, position-append}
use exio.Table.Row.{
  TableEvent, DataRow, new_data_row, is_reserved, row_last, update_fields, get_field,
}
use exio.Table.Row.Update.{Keyed, UpdateOutcome, update_fields_lem}
use exio.Table.Defs.{
  DataTable, keys, publish, has_row, add_row, add_each, update_columns, update_at, index_or_enter,
  update_indexed, update_row, row_at, get_row_field,
}
use exio.Table.Defs.Indexes.{
  IsValid, update_fields-rowkey, keys-append, reindex, add_each-keeps, add_each-IsValid,
  add_row-IsValid, indexed_row,
}

-- The effect of update_at at a place that is in range.
abbrev Updated : (ℕ → Bytes) → Dict Bytes → ℕ → List DataRow → List TableEvent → DataRow → Type 0
Updated now ups i rows events r =
    (after : List DataRow) × (later : List TableEvent) × (update_at now ups i rows events
      ≡ ok (after, later))
    × (keys after ≡ keys rows)
    × (get_elem? after i ≡ some (update_fields (now (length events)) ups r events).1)

update_at_later :
    (now : ℕ → Bytes) (ups : Dict Bytes) (i : ℕ) (x : DataRow) (rows : List DataRow)
    (events : List TableEvent) (r : DataRow)
    → Updated now ups i rows events r
    → Updated now ups (suc i) (x ∷ rows) events r
unfolding update_at
update_at_later now ups i x rows events r u = (x ∷ u.0, u.1, rw (u.2) refl, rw (u.3) refl, u.4)

update_at_lem :
    (now : ℕ → Bytes) (ups : Dict Bytes) (i : ℕ) (rows : List DataRow) (events : List TableEvent)
    (r : DataRow)
    → get_elem? rows i ≡ some r
    → Updated now ups i rows events r
update_at_lem now ups i [] events r h = cc
update_at_lem now ups zero (x ∷ rows) events r h =
    let out = update_fields (now (length events)) ups x events in
    let e : x ≡ r = cc in
    (
      out.1 ∷ rows,
      out.2,
      unfold update_at in refl,
      ap (λ k. k ∷ keys rows) (update_fields-rowkey (now (length events)) ups x events),
      ap (λ y. some (update_fields (now (length events)) ups y events).1) e,
    )
update_at_lem now ups (suc i) (x ∷ rows) events r h =
    update_at_later now ups i x rows events r (update_at_lem now ups i rows events r h)

-- A row that the index knows is updated in its place.
abbrev Indexed : (ℕ → Bytes) → Bytes → Dict Bytes → DataTable → List TableEvent → Type 0
Indexed now k ups t events =
    (u : DataTable) × (r : DataRow) × (update_indexed now k ups (t, events) ≡ ok u)
    × IsValid u
    × (row_at k u ≡ ok (some (update_fields (now (length events)) ups r events).1))

place_lem : (k : Bytes) (m : Dict ℕ) (i : ℕ) → lookup k m ≡ some i → index_or_enter k m ≡ (m, i)
unfolding index_or_enter
place_lem k m i e = rw (e, index_or_enter) refl

pub row_at_lem :
    (k : Bytes) (t : DataTable) (i : ℕ) (r : DataRow)
    → lookup k t.row_index ≡ some i
    → get_elem? t.rows i ≡ some r
    → row_at k t ≡ ok (some r)
unfolding row_at
row_at_lem k t i r e h = rw (e, row_at, h) refl

update_indexed_lem :
    (now : ℕ → Bytes) (k : Bytes) (ups : Dict Bytes) (t : DataTable) (events : List TableEvent)
    (i : ℕ)
    → IsValid t
    → lookup k t.row_index ≡ some i
    → Indexed now k ups t events
unfolding update_indexed publish
update_indexed_lem now k ups t events i v e =
    let r = indexed_row t k i v e in
    let a = update_at_lem now ups i t.rows events r.0 r.1 in
    let u = record t { rows = a.0; published = t.published ++ a.1 } in
    (
      u,
      r.0,
      rw (place_lem k t.row_index i e, a.2) refl,
      record {
        columns_ok = v.columns_ok;
        rows_ok = reindex (keys t.rows) (keys a.0) t.row_index a.3 v.rows_ok;
      },
      row_at_lem k u i (update_fields (now (length events)) ups r.0 events).1 e a.4,
    )

-- add_row enters the new key in the index.
lookup-add_row :
    (k : Bytes) (t : DataTable) (events : List TableEvent)
    → IsValid (add_row k t events).0
    → lookup k t.row_index ≡ none
    → IsValid t
    → lookup k (add_row k t events).0.row_index ≡ some (length (keys t.rows))
unfolding add_row new_data_row
lookup-add_row k t events w e v =
    w.rows_ok.agrees k
    ∙ ap (position k) (keys-append t.rows (new_data_row k t.table_name ∷ []))
    ∙ position-append k k (keys t.rows)
    ∙ rw (← v.rows_ok.agrees k, e, str_eq_refl k) refl

-- The table that update_row has when its loop begins.
unfoldable entered : Bytes → DataTable → List TableEvent → DataTable × List TableEvent
entered k t events = if has_row k t then (t, events) else add_row k t events

entered_lem :
    (k : Bytes) (t : DataTable) (events : List TableEvent)
    → IsValid t
    → IsValid (entered k t events).0
      × (i : ℕ) × (lookup k (entered k t events).0.row_index ≡ some i)
unfolding entered has_row
entered_lem k t events v = elim (Option-cases (lookup k t.row_index)) [
  | inl e ↦
      let w = add_row-IsValid k t events e v in
      rw (e, has_row) (w, length (keys t.rows), lookup-add_row k t events w e v)
  | inr p ↦ rw (p.1, has_row) (v, p.0, p.1)
]

not_last : (f : Bytes) → is_reserved f ≡ false → str_eq row_last f ≡ false
unfolding is_reserved
not_last f n = ground (arith, str_eq_comm row_last f)

-- The field of an updated row.
given :
    (now : Bytes) (ups : Dict Bytes) (r : DataRow) (events : List TableEvent)
    (p : Bool × DataRow × List TableEvent)
    → UpdateOutcome now ups r events p
    → (f v : Bytes) → lookup f ups ≡ some v
    → is_reserved f ≡ false
    → lookup f p.1.fields ≡ some v
given now ups r events (false, d, after) o f v e n = o.1 f ∙ rw (n, e) refl
given now ups r events (true, d, after) o f v e n = o.1 f ∙ rw (not_last f n, n, e) refl

get_row_field_lem :
    (k f : Bytes) (t : DataTable) (v : Bytes) (r : DataRow)
    → row_at k t ≡ ok (some r)
    → lookup f r.fields ≡ some v
    → get_row_field k f t ≡ ok v
unfolding get_row_field get_field
get_row_field_lem k f t v r h e = rw (h, get_field, e) refl

-- update_row, given a table whose indexes are right and updates of distinct names, returns a
-- table whose indexes are right, in which the row of that key has each given value whose name is
-- not reserved, whatever it held before, also if the row or the column did not exist.
pub update_row_lem :
    (now : ℕ → Bytes) (k : Bytes) (ups : Dict Bytes) (t : DataTable) (events : List TableEvent)
    → IsValid t
    → Keyed ups
    → (u : DataTable) × (update_row now k ups t events ≡ ok u)
      × IsValid u
      × ((f v : Bytes) → lookup f ups ≡ some v → is_reserved f ≡ false → get_row_field k f u ≡ ok v)
unfolding update_row entered
update_row_lem now k ups t events v d =
    let s = entered_lem k t events v in
    let c = add_each now (update_columns ups) (entered k t events) in
    let kept = add_each-keeps now (update_columns ups) (entered k t events) in
    let w = add_each-IsValid now (update_columns ups) (entered k t events) s.0 in
    let a = update_indexed_lem now k ups c.0 c.1 s.1 w (ap (lookup k) kept.0 ∙ s.2) in
    let out = update_fields_lem (now (length c.1)) ups a.1 c.1 d in
    (
      a.0,
      a.2,
      a.3,
      λ f x e n. get_row_field_lem k f a.0 x (update_fields (now (length c.1)) ups a.1 c.1).1 a.4 (
          given (now (length c.1)) ups a.1 c.1 (update_fields (now (length c.1)) ups a.1 c.1) out f
            x e n),
    )

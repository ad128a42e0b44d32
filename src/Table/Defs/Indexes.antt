-- ===== src/Table/Defs/Indexes.antt =====
-- Both indexes of a table stay right through every operation that changes rows or columns, and no
-- operation faults.
use exio.Prelude.{
  ℕ, zero, suc, ◌≡◌, refl, sym, ◌∙◌, Option, none, some, List, [], ◌∷◌, ◌++◌, length, get_elem?,
  inl, inr, Bytes, arith, Option-cases,
}
use exio.Dict.{Dict, lookup}
use exio.Table.Position.{
  remove_at, position, NoDup, IsIndexed, rebuild-IsIndexed, NoDup-append, position-hit,
}
use exio.Table.Row.{
  TableEvent, new_column, DataRow, new_data_row, stamp, update_loop, update_fields,
}
use exio.Table.Defs.{
  DataTable, new_data_table, keys, publish, add_row, update_all, add_column, add_each, add_columns,
  clear_table,
}

-- The invariant of DataTable.
pub record IsValid (t : DataTable) : Type 0 where
  pub columns_ok : IsIndexed t.columns t.column_index
  pub rows_ok : IsIndexed (keys t.rows) t.row_index

pub new_data_table-IsValid : (n : Bytes) → IsValid (new_data_table n)
unfolding new_data_table lookup position
new_data_table-IsValid n = record {
  columns_ok = record { distinct = tt; agrees = λ k. refl };
  rows_ok = record { distinct = tt; agrees = λ k. refl };
}

stamp-rowkey :
    (now : Bytes) (r : DataRow) (p : Dict Bytes × Option (Dict Bytes)) (events : List TableEvent)
    → (stamp now r p events).1.rowkey ≡ r.rowkey
unfolding stamp
stamp-rowkey now r (ours, none) events = refl
stamp-rowkey now r (ours, some e) events = refl

pub update_fields-rowkey :
    (now : Bytes) (ups : Dict Bytes) (r : DataRow) (events : List TableEvent)
    → (update_fields now ups r events).1.rowkey ≡ r.rowkey
unfolding update_fields
update_fields-rowkey now ups r events = stamp-rowkey now r (update_loop ups r.fields none) events

keys-update_all :
    (now : ℕ → Bytes) (ups : Dict Bytes) (rs : List DataRow) (events : List TableEvent)
    → keys (update_all now ups rs events).0 ≡ keys rs
unfolding update_all
keys-update_all now ups [] events = refl
keys-update_all now ups (r ∷ rs) events =
    rw
      (
        update_fields-rowkey (now (length events)) ups r events,
        keys-update_all now ups rs (update_fields (now (length events)) ups r events).2,
      )
      refl

pub keys-append : (rs ss : List DataRow) → keys (rs ++ ss) ≡ keys rs ++ keys ss
keys-append [] ss = refl
keys-append (r ∷ rs) ss = rw (keys-append rs ss) refl

pub keys-remove_at : (i : ℕ) (rs : List DataRow) → keys (remove_at i rs) ≡ remove_at i (keys rs)
unfolding remove_at
keys-remove_at i [] = refl
keys-remove_at zero (r ∷ rs) = refl
keys-remove_at (suc i) (r ∷ rs) = rw (keys-remove_at i rs) refl

pub reindex : (ks ls : List Bytes) (m : Dict ℕ) → ls ≡ ks → IsIndexed ks m → IsIndexed ls m
reindex ks ls m e v = rw e v

pub push_distinct :
    (k : Bytes) (ks : List Bytes) (m : Dict ℕ)
    → IsIndexed ks m
    → lookup k m ≡ none
    → NoDup (ks ++ k ∷ [])
push_distinct k ks m v e = NoDup-append k ks v.distinct (sym (v.agrees k) ∙ e)

add_column-IsValid :
    (now : ℕ → Bytes) (c : Bytes) (s : DataTable × List TableEvent)
    → IsValid s.0
    → IsValid (add_column now c s).0
unfolding add_column
add_column-IsValid now c (t, events) v = elim (Option-cases (lookup c t.column_index)) [
  | inl e ↦
      rw (e, add_column)
        (record {
          columns_ok =
              rebuild-IsIndexed (t.columns ++ c ∷ [])
                (push_distinct c t.columns t.column_index v.columns_ok e);
          rows_ok =
              reindex (keys t.rows)
                (keys
                  (update_all now ((c, []) ∷ []) t.rows
                    (events ++ new_column t.table_name c ∷ [])).0)
                t.row_index
                (keys-update_all now ((c, []) ∷ []) t.rows
                  (events ++ new_column t.table_name c ∷ []))
                v.rows_ok;
        })
  | inr p ↦ rw (p.1, add_column) v
]

-- The rows keep their keys and places, and the index of rows is not touched.
abbrev pub KeepsRows : DataTable → DataTable → Type 0
KeepsRows t u = (u.row_index ≡ t.row_index) × (keys u.rows ≡ keys t.rows)

add_column-keeps :
    (now : ℕ → Bytes) (c : Bytes) (s : DataTable × List TableEvent)
    → KeepsRows s.0 (add_column now c s).0
unfolding add_column
add_column-keeps now c (t, events) = elim (Option-cases (lookup c t.column_index)) [
  | inl e ↦
      rw (e, add_column)
        (refl, keys-update_all now ((c, []) ∷ []) t.rows (events ++ new_column t.table_name c ∷ []))
  | inr p ↦ rw (p.1, add_column) (refl, refl)
]

pub add_each-keeps :
    (now : ℕ → Bytes) (cs : List Bytes) (s : DataTable × List TableEvent)
    → KeepsRows s.0 (add_each now cs s).0
unfolding add_each
add_each-keeps now [] s = (refl, refl)
add_each-keeps now (c ∷ cs) s =
    let a = add_column-keeps now c s in
    let b = add_each-keeps now cs (add_column now c s) in (b.0 ∙ a.0, b.1 ∙ a.1)

pub add_each-IsValid :
    (now : ℕ → Bytes) (cs : List Bytes) (s : DataTable × List TableEvent)
    → IsValid s.0
    → IsValid (add_each now cs s).0
unfolding add_each
add_each-IsValid now [] s v = v
add_each-IsValid now (c ∷ cs) s v =
    add_each-IsValid now cs (add_column now c s) (add_column-IsValid now c s v)

pub publish-IsValid : (s : DataTable × List TableEvent) → IsValid s.0 → IsValid (publish s)
unfolding publish
publish-IsValid (t, events) v = record { columns_ok = v.columns_ok; rows_ok = v.rows_ok }

-- add_columns keeps both indexes right, whatever columns it is given.
pub add_columns-IsValid :
    (now : ℕ → Bytes) (cs : List Bytes) (t : DataTable) → IsValid t → IsValid (add_columns now cs t)
unfolding add_columns
add_columns-IsValid now cs t v =
    publish-IsValid (add_each now cs (t, [])) (add_each-IsValid now cs (t, []) v)

-- clear_table leaves an empty table whose indexes are right.
pub clear_table-IsValid : (t : DataTable) → IsValid t → IsValid (clear_table t)
unfolding clear_table publish lookup position
clear_table-IsValid t v = record {
  columns_ok = v.columns_ok;
  rows_ok = record { distinct = tt; agrees = λ k. refl };
}

pub add_row-IsValid :
    (k : Bytes) (t : DataTable) (events : List TableEvent)
    → lookup k t.row_index ≡ none
    → IsValid t
    → IsValid (add_row k t events).0
unfolding add_row new_data_row
add_row-IsValid k t events e v = record {
  columns_ok = v.columns_ok;
  rows_ok = rebuild-IsIndexed (keys (t.rows ++ new_data_row k t.table_name ∷ [])) (
      rw (keys-append t.rows (new_data_row k t.table_name ∷ []))
        (push_distinct k (keys t.rows) t.row_index v.rows_ok e));
}

-- A row is at the position that the index gives.
row_hit :
    (rs : List DataRow) (i : ℕ) (k : Bytes)
    → get_elem? (keys rs) i ≡ some k
    → (r : DataRow) × (get_elem? rs i ≡ some r) × (r.rowkey ≡ k)
row_hit [] i k h = cc
row_hit (r ∷ rs) zero k h = (r, refl, ground arith)
row_hit (r ∷ rs) (suc i) k h = row_hit rs i k h

pub indexed_row :
    (t : DataTable) (k : Bytes) (i : ℕ)
    → IsValid t
    → lookup k t.row_index ≡ some i
    → (r : DataRow) × (get_elem? t.rows i ≡ some r) × (r.rowkey ≡ k)
indexed_row t k i v e =
    row_hit t.rows i k (position-hit k (keys t.rows) i (sym (v.rows_ok.agrees k) ∙ e))

-- ===== src/Table/Defs/Removal.antt =====
-- What a table holds after delete_row, and that it does not fault.
use exio.Prelude.{
  ℕ, zero, suc, ◌≡◌, ◌≢◌, refl, ap, sym, ◌∙◌, false, none, some, List, [], ◌∷◌, ◌++◌, get_elem?,
  if◌then◌else◌, inl, inr, Bytes, str_eq, str_eq_iff, arith, Bool-cases, Option-cases,
}
use exio.Error.{ok}
use exio.Dict.{Dict, lookup, erase, lookup-map_values, lookup-erase}
use exio.Table.Position.{
  erase_index, remove_at, shift_down, position, erase_index-IsIndexed, position-hit,
}
use exio.Table.Row.{row_removed}
use exio.Table.Defs.{DataTable, keys, publish, delete_row, row_at}
use exio.Table.Defs.Indexes.{IsValid, keys-remove_at, reindex, indexed_row}
use exio.Table.Defs.Cells.{row_at_lem}

shift_suc : (i j : ℕ) → i ≢ j → suc (shift_down i j) ≡ shift_down (suc i) (suc j)
unfolding shift_down
shift_suc i j h = ground arith

get_elem?-remove_at {ℓ} :
    {A : Type ℓ} (i j : ℕ) (xs : List A)
    → i ≢ j
    → get_elem? (remove_at i xs) (shift_down i j) ≡ get_elem? xs j
unfolding remove_at shift_down
get_elem?-remove_at i j [] h = refl
get_elem?-remove_at zero zero (x ∷ xs) h = ground arith
get_elem?-remove_at zero (suc j) (x ∷ xs) h = ground arith
get_elem?-remove_at (suc i) zero (x ∷ xs) h = ground arith
get_elem?-remove_at (suc i) (suc j) (x ∷ xs) h =
    let n : i ≢ j = λ e. h (ap suc e) in
    sym (ap (get_elem? (x ∷ remove_at i xs)) (shift_suc i j n)) ∙ get_elem?-remove_at i j xs n

row_absent : (k : Bytes) (t : DataTable) → lookup k t.row_index ≡ none → row_at k t ≡ ok none
unfolding row_at
row_absent k t e = rw (e, row_at) refl

-- The table without the row at a place
unfoldable without : Bytes → ℕ → DataTable → DataTable
without k i t = record t {
  rows = remove_at i t.rows;
  row_index = erase_index k i t.row_index;
  published = t.published ++ row_removed t.table_name k ∷ [];
}

-- Two keys do not share a place.
other :
    (k j : Bytes) (t : DataTable) (i q : ℕ)
    → IsValid t
    → lookup k t.row_index ≡ some i
    → lookup j t.row_index ≡ some q
    → str_eq k j ≡ false
    → i ≢ q
other k j t i q v e f h z =
    let a = position-hit k (keys t.rows) i (sym (v.rows_ok.agrees k) ∙ e) in
    let b = position-hit j (keys t.rows) q (sym (v.rows_ok.agrees j) ∙ f) in
    let same : some k ≡ some j = sym a ∙ ap (get_elem? (keys t.rows)) z ∙ b in
    let eq : k ≡ j = cc in ground (arith, str_eq_iff k j)

unmoved :
    (k : Bytes) (t : DataTable)
    → lookup k t.row_index ≡ none
    → (j : Bytes) → row_at j t ≡ (if str_eq k j then ok none else row_at j t)
unmoved k t e j = elim (Bool-cases (str_eq k j)) [
  | inl h ↦ rw h (row_absent j t (ap (λ n. lookup n t.row_index) (sym ((str_eq_iff k j).0 h)) ∙ e))
  | inr h ↦ rw h refl
]

lookup-erase_index :
    (k : Bytes) (i : ℕ) (m : Dict ℕ) (j : Bytes)
    → lookup j (erase_index k i m) ≡ (
        if str_eq k j
        then none
        else elim (lookup j m) [ some q ↦ some (shift_down i q) | none ↦ none ])
unfolding erase_index
lookup-erase_index k i m j =
    lookup-map_values (shift_down i) j (erase k m) ∙ rw (lookup-erase k j m) (ground arith)

row_at-without :
    (k : Bytes) (i : ℕ) (t : DataTable)
    → IsValid t
    → lookup k t.row_index ≡ some i
    → (j : Bytes) → row_at j (without k i t) ≡ (if str_eq k j then ok none else row_at j t)
unfolding without
row_at-without k i t v e j = elim (Bool-cases (str_eq k j)) [
  | inl h ↦ rw h (row_absent j (without k i t) (lookup-erase_index k i t.row_index j ∙ rw h refl))
  | inr h ↦ elim (Option-cases (lookup j t.row_index)) [
    | inl n ↦
        rw (h, row_absent j t n)
          (row_absent j (without k i t) (lookup-erase_index k i t.row_index j ∙ rw (h, n) refl))
    | inr q ↦
        let r = indexed_row t j q.0 v q.1 in
        let s = indexed_row t k i v e in
        let apart : i ≢ q.0 = λ z. other k j t i q.0 v e q.1 h z in
        rw (h, row_at_lem j t q.0 r.0 q.1 r.1)
          (row_at_lem j (without k i t) (shift_down i q.0) r.0
            (lookup-erase_index k i t.row_index j ∙ rw (h, q.1) refl)
            (get_elem?-remove_at i q.0 t.rows apart ∙ r.1))
  ]
]

-- delete_row, given a table whose indexes are right, returns such a table; a lookup of that key
-- then finds no row, and of every other key the row it found before.
pub delete_row_lem :
    (k : Bytes) (t : DataTable)
    → IsValid t
    → (u : DataTable) × (delete_row k t ≡ ok u)
      × IsValid u
      × ((j : Bytes) → row_at j u ≡ (if str_eq k j then ok none else row_at j t))
delete_row_lem k t v = elim (Option-cases (lookup k t.row_index)) [
  | inl e ↦ (t, unfold delete_row in rw (e, delete_row) refl, v, λ j. unmoved k t e j)
  | inr p ↦
      let r = indexed_row t k p.0 v p.1 in
      let at : position k (keys t.rows) ≡ some p.0 = sym (v.rows_ok.agrees k) ∙ p.1 in
      (
        without k p.0 t,
        unfold delete_row publish without in rw (p.1, delete_row, r.1) refl,
        unfold without in
            record {
              columns_ok = v.columns_ok;
              rows_ok =
                  reindex (remove_at p.0 (keys t.rows)) (keys (remove_at p.0 t.rows))
                    (erase_index k p.0 t.row_index) (keys-remove_at p.0 t.rows)
                    (erase_index-IsIndexed k p.0 (keys t.rows) t.row_index v.rows_ok at);
            },
        λ j. row_at-without k p.0 t v p.1 j,
      )
]

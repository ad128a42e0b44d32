-- ===== src/Table/Row/Update.antt =====
-- What update_fields does to the fields of a row, and what its event tells.
use exio.Prelude.{
  ◌≡◌, refl, sym, ◌∙◌, Bool, true, false, not, ◌||◌, Option, none, some, List, [], ◌∷◌, ◌++◌, inl,
  inr, if◌then◌else◌, Bytes, str_eq, str_eq_iff, arith, Bool-cases, Option-cases,
}
use exio.Dict.{Dict, lookup, insert, lookup-insert}
use exio.Sam.Container.Lookup.{or_else}
use exio.Table.Row.{
  DataRow, TableEvent, row_multi_update, row_last, is_reserved, is_change, update_loop, stamp,
  update_fields,
}

-- The names of a std::map are distinct.
abbrev pub Keyed : Dict Bytes → Type 0
Keyed [] = Unit {0}
Keyed ((f, v) ∷ m) = (lookup f m ≡ none) × Keyed m

-- A field of the row after the updates `ups`, the time apart: the new value if one is given and the
-- name is not reserved.
abbrev pub updated : Bytes → Dict Bytes → Dict Bytes → Option Bytes
updated g ups ours = if is_reserved g then lookup g ours else or_else (lookup g ups) (lookup g ours)

-- What the event says of a field: its new value if that differs from the old one.
abbrev pub reported : Bytes → Dict Bytes → Dict Bytes → Option Bytes
reported g ups ours =
    if is_reserved g
    then none
    else elim (lookup g ups) [ some v ↦ if is_change g v ours then some v else none | none ↦ none ]

abbrev pub event_fields : Option (Dict Bytes) → Dict Bytes
event_fields (some e) = e
event_fields none = []

is_change-insert :
    (g f v w : Bytes) (m : Dict Bytes)
    → str_eq f g ≡ false
    → is_change g w (insert f v m) ≡ is_change g w m
unfolding is_change
is_change-insert g f v w m h = ground (arith, lookup-insert f g v m)

kept : (f v : Bytes) (m : Dict Bytes) → is_change f v m ≡ false → lookup f m ≡ some v
unfolding is_change
kept f v m h = elim (Option-cases (lookup f m)) [
  | inl e ↦ absurd (ground arith)
  | inr p ↦ ground (arith, p.1, str_eq_iff p.0 v)
]

unfoldable skips : Bytes → Bytes → Dict Bytes → Bool
skips f v ours = is_reserved f || not (is_change f v ours)

updated-skip :
    (g f v : Bytes) (ups ours : Dict Bytes)
    → lookup f ups ≡ none
    → skips f v ours ≡ true
    → updated g ups ours ≡ updated g ((f, v) ∷ ups) ours
unfolding lookup skips
updated-skip g f v ups ours d h = ground (arith, kept f v ours, str_eq_iff f g)

updated-take :
    (g f v : Bytes) (ups ours : Dict Bytes)
    → lookup f ups ≡ none
    → skips f v ours ≡ false
    → updated g ups (insert f v ours) ≡ updated g ((f, v) ∷ ups) ours
unfolding lookup skips
updated-take g f v ups ours d h = ground (arith, lookup-insert f g v ours, str_eq_iff f g)

lookup-update_loop :
    (ups ours : Dict Bytes) (event : Option (Dict Bytes)) (g : Bytes)
    → Keyed ups
    → lookup g (update_loop ups ours event).0 ≡ updated g ups ours
unfolding update_loop skips
lookup-update_loop [] ours event g k = unfold lookup in ground arith
lookup-update_loop ((f, v) ∷ ups) ours event g k =
    let ih = lookup-update_loop ups ours event g k.1 in
    let ih' =
      lookup-update_loop ups (insert f v ours) (some (insert f v (event_fields event))) g k.1 in
    elim (Bool-cases (skips f v ours)) [
      | inl e ↦ rw e (ih ∙ updated-skip g f v ups ours k.0 e)
      | inr e ↦ rw e (ih' ∙ updated-take g f v ups ours k.0 e)
    ]

-- The event so far, and what the rest of the updates adds.
unfoldable reported_over : Bytes → Dict Bytes → Dict Bytes → Dict Bytes → Option Bytes
reported_over g ups ours e = or_else (reported g ups ours) (lookup g e)

reported-skip :
    (g f v : Bytes) (ups ours e : Dict Bytes)
    → lookup f ups ≡ none
    → skips f v ours ≡ true
    → reported_over g ups ours e ≡ reported_over g ((f, v) ∷ ups) ours e
unfolding lookup skips reported_over
reported-skip g f v ups ours e d h = ground (arith, str_eq_iff f g)

reported-take :
    (g f v : Bytes) (ups ours e : Dict Bytes)
    → lookup f ups ≡ none
    → skips f v ours ≡ false
    → reported_over g ups (insert f v ours) (insert f v e) ≡ reported_over g ((f, v) ∷ ups) ours e
unfolding lookup skips reported_over
reported-take g f v ups ours e d h = elim (Option-cases (lookup g ups)) [
  | inl n ↦ ground (arith, str_eq_iff f g, lookup-insert f g v e, n)
  | inr p ↦
      ground (arith, str_eq_iff f g, lookup-insert f g v e, p.1, is_change-insert g f v p.0 ours)
]

lookup-event :
    (ups ours : Dict Bytes) (event : Option (Dict Bytes)) (g : Bytes)
    → Keyed ups
    → lookup g (event_fields (update_loop ups ours event).1)
      ≡ reported_over g ups ours (event_fields event)
unfolding update_loop skips
lookup-event [] ours event g k = unfold lookup reported_over in ground arith
lookup-event ((f, v) ∷ ups) ours event g k =
    let ih = lookup-event ups ours event g k.1 in
    let ih' = lookup-event ups (insert f v ours) (some (insert f v (event_fields event))) g k.1 in
    elim (Bool-cases (skips f v ours)) [
      | inl e ↦ rw e (ih ∙ reported-skip g f v ups ours (event_fields event) k.0 e)
      | inr e ↦ rw e (ih' ∙ reported-take g f v ups ours (event_fields event) k.0 e)
    ]

-- The two outcomes of update_fields on a row.
abbrev pub UpdateOutcome :
    Bytes → Dict Bytes → DataRow → List TableEvent → Bool × DataRow × List TableEvent → Type 0
UpdateOutcome now ups r events (false, d, after) =
    (d.rowkey ≡ r.rowkey)
    × ((g : Bytes) → lookup g d.fields ≡ updated g ups r.fields)
    × ((g : Bytes) → reported g ups r.fields ≡ none)
    × (after ≡ events)
UpdateOutcome now ups r events (true, d, after) =
    (d.rowkey ≡ r.rowkey)
    × ((g : Bytes)
        → lookup g d.fields ≡ (if str_eq row_last g then some now else updated g ups r.fields))
    × (e : Dict Bytes) × ((g : Bytes)
        → lookup g e ≡ (if str_eq row_last g then some now else reported g ups r.fields))
    × (after ≡ events ++ row_multi_update r.table_name r.rowkey e ∷ [])

or_else-none : (o : Option Bytes) → or_else o none ≡ o
or_else-none none = refl
or_else-none (some v) = refl

stamp_lem :
    (now : Bytes) (ups : Dict Bytes) (r : DataRow) (events : List TableEvent)
    (p : Dict Bytes × Option (Dict Bytes))
    → ((g : Bytes) → lookup g p.0 ≡ updated g ups r.fields)
    → ((g : Bytes) → lookup g (event_fields p.1) ≡ reported g ups r.fields)
    → UpdateOutcome now ups r events (stamp now r p events)
unfolding stamp
stamp_lem now ups r events (ours, none) h k =
    (refl, h, λ g. sym (k g) ∙ (unfold lookup in refl), refl)
stamp_lem now ups r events (ours, some e) h k = (
  refl,
  λ g. ground (arith, lookup-insert row_last g now ours, h g),
  insert row_last now e,
  λ g. ground (arith, lookup-insert row_last g now e, k g),
  refl,
)

-- update_fields on a row, given updates of distinct names. A field other than RowLastUpdated has
-- its new value afterwards if one is given and its name is not reserved, and else keeps its own;
-- the key of the row is kept. If the result is false, then RowLastUpdated is kept too, no given
-- value differs and no event is added. If it is true, then RowLastUpdated is the time, and the
-- one event added at the end names the row and tells the time and exactly the values that
-- changed.
pub update_fields_lem :
    (now : Bytes) (ups : Dict Bytes) (r : DataRow) (events : List TableEvent)
    → Keyed ups
    → UpdateOutcome now ups r events (update_fields now ups r events)
unfolding update_fields
update_fields_lem now ups r events k =
    stamp_lem now ups r events (update_loop ups r.fields none)
      (λ g. lookup-update_loop ups r.fields none g k)
      (λ g.
        lookup-event ups r.fields none g k
        ∙ (unfold reported_over lookup in or_else-none (reported g ups r.fields)))

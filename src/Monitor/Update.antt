-- ===== src/Monitor/Update.antt =====
-- Monitor::update_table: the table is found or created with every session as a subscriber, and its row
-- is updated and published.
use exio.Prelude.{
  ℕ, ◌≡◌, refl, ap, ◌∙◌, Bool, true, false, Option, none, some, List, [], ◌∷◌, Bytes, str_eq,
  str_eq_refl, if◌then◌else◌, Bool-cases, inl, inr, arith,
}
use exio.Error.{Result, ok}
use mathlib.Core.Path.{subst}
use exio.Dict.{Dict, lookup, insert, lookup-insert, str_lt}
use exio.Registry.{Sessions, session_list}
use exio.Registry.Invariant.{IsRegistered}
use exio.Table.Row.{is_reserved}
use exio.Table.Row.Update.{Keyed}
use exio.Table.Defs.{update_row, get_row_field, row_at}
use exio.Table.Defs.Indexes.{IsValid, new_data_table-IsValid}
use exio.Table.Defs.Cells.{update_row_lem}
use exio.Monitor.{Watched, create_table, changed, if_table, or_create, update_table}
use exio.Monitor.Create.{bare, create_table_lem}
use exio.Monitor.Publish.{InSlots, emptied, publish_update_lem, session_list_lem}

-- A table whose indexes are right and whose subscribers are numbers of slots
pub record Good (w : Watched) : Type 0 where
  pub indexed : IsValid w.table
  pub numbered : InSlots w.subscribers

abbrev pub AllGood : Dict Watched → Type 0
AllGood [] = Unit {0}
AllGood ((n, w) ∷ m) = Good w × AllGood m

pick :
    (b : Bool) (v : Watched) (r : Option Watched) (w : Watched)
    → Good v
    → (r ≡ some w → Good w)
    → (if b then some v else r) ≡ some w
    → Good w
pick true v r w g h e = subst Good (ap (λ o. elim o [ some x ↦ x | none ↦ v ]) e) g
pick false v r w g h e = h e

lookup-AllGood :
    (n : Bytes) (w : Watched) (m : Dict Watched) → AllGood m → lookup n m ≡ some w → Good w
unfolding lookup
lookup-AllGood n w [] g e = absurd (ground (arith, e))
lookup-AllGood n w ((k, v) ∷ m) g e =
    pick (str_eq k n) v (lookup n m) w g.0 (lookup-AllGood n w m g.1) e

insert-AllGood :
    (n : Bytes) (w : Watched) (m : Dict Watched) → Good w → AllGood m → AllGood (insert n w m)
unfolding insert
insert-AllGood n w [] h g = (h, tt)
insert-AllGood n w ((k, v) ∷ m) h g =
    let rest = insert-AllGood n w m h g.1 in
    elim (Bool-cases (str_eq k n)) [
      | inl z ↦ rw z (h, g.1)
      | inr z ↦ elim (Bool-cases (str_lt n k)) [
        | inl y ↦ rw (z, y) (h, g)
        | inr y ↦ rw (z, y) (g.0, rest)
      ]
    ]

emptied-Good : (w : Watched) → Good w → Good (emptied w)
emptied-Good w g = record {
  indexed = record { columns_ok = g.indexed.columns_ok; rows_ok = g.indexed.rows_ok };
  numbered = g.numbered;
}

get_row_field-emptied :
    (k f : Bytes) (w : Watched) → get_row_field k f (emptied w).table ≡ get_row_field k f w.table
unfolding get_row_field row_at
get_row_field-emptied k f w = refl

row_changed :
    (now : ℕ → Bytes) (k : Bytes) (ups : Dict Bytes) (w : Watched) (s : Sessions) (f y : Bytes)
    → Keyed ups
    → lookup f ups ≡ some y
    → is_reserved f ≡ false
    → Good w
    → IsRegistered s
    → (u : Watched) × (t : Sessions) × (changed (update_row now k ups w.table []) w s ≡ ok (u, t))
      × Good u
      × (u.subscribers ≡ w.subscribers)
      × (get_row_field k f u.table ≡ ok y)
      × IsRegistered t
row_changed now k ups w s f y d p q g v =
    let (x, e, valid, fields) = update_row_lem now k ups w.table [] g.indexed d in
    let w₁ : Watched = record w { table = x } in
    let (t, h, r) = publish_update_lem w₁ s g.numbered v in
    (
      emptied w₁,
      t,
      ap (λ z. changed z w s) e ∙ h,
      emptied-Good w₁ (record { indexed = valid; numbered = g.numbered }),
      refl,
      get_row_field-emptied k f w₁ ∙ fields f y p q,
      r,
    )

if_table_found :
    (n : Bytes) (f : Watched → Sessions → Result (Watched × Sessions)) (m : Dict Watched)
    (s t : Sessions) (w u : Watched)
    → lookup n m ≡ some w
    → f w s ≡ ok (u, t)
    → if_table n f m s ≡ ok (insert n u m, t)
unfolding if_table
if_table_found n f m s t w u e d = rw (e, if_table) (rw d refl)

found :
    (n : Bytes) (f : Watched → Sessions → Result (Watched × Sessions)) (m : Dict Watched)
    (s t : Sessions) (w u : Watched)
    → lookup n m ≡ some w
    → f w s ≡ ok (u, t)
    → or_create n f m s ≡ ok (none, insert n u m, t)
unfolding or_create
found n f m s t w u e d = rw (e, or_create) (rw (if_table_found n f m s t w u e d) refl)

made :
    (n : Bytes) (f : Watched → Sessions → Result (Watched × Sessions)) (m : Dict Watched)
    (s t₁ t : Sessions) (w u : Watched)
    → lookup n m ≡ none
    → create_table n m s ≡ ok (none, insert n w m, t₁)
    → f w t₁ ≡ ok (u, t)
    → or_create n f m s ≡ ok (none, insert n u (insert n w m), t)
unfolding or_create
made n f m s t₁ t w u e c d =
    rw (e, or_create)
      (rw c (
        rw
          (if_table_found n f (insert n w m) t₁ t w u
            (lookup-insert n n w m ∙ rw (str_eq_refl n) refl) d)
          refl))

-- A second entry under the same name takes the place of the first.
twice :
    (n j : Bytes) (u w : Watched) (m : Dict Watched)
    → lookup j (insert n u (insert n w m)) ≡ (if str_eq n j then some u else lookup j m)
twice n j u w m = ground (arith, lookup-insert n j u (insert n w m), lookup-insert n j w m)

-- The subscribers of a table behind the update: those it had, or those of a new table
abbrev pub kept_or : List ℕ → Option Watched → List ℕ
kept_or ids (some w) = w.subscribers
kept_or ids none = ids

module _ (now : ℕ → Bytes) (n k : Bytes) (ups : Dict Bytes) (m : Dict Watched) (s : Sessions)
    (f y j : Bytes) (d : Keyed ups) (p : lookup f ups ≡ some y) (q : is_reserved f ≡ false)
    (g : AllGood m) (v : IsRegistered s) where
  abbrev Updated : Option Watched → Type 0
  Updated o =
      (l : Dict Watched) × (u : Watched) × (t : Sessions) × (ids : List ℕ) × (update_table now n k
          ups m s
        ≡ ok (none, l, t))
      × (lookup j l ≡ (if str_eq n j then some u else lookup j m))
      × (get_row_field k f u.table ≡ ok y)
      × (session_list s.reg s.object ≡ ok ids)
      × (u.subscribers ≡ kept_or ids o)
      × AllGood l
      × IsRegistered t

  by_table : (o : Option Watched) → lookup n m ≡ o → Updated o
  unfolding update_table
  by_table (some w) e =
      let (u, t, h, good, subs, val, r) =
        row_changed now k ups w s f y d p q (lookup-AllGood n w m g e) v in
      let ids = session_list_lem s v in
      (
        insert n u m,
        u,
        t,
        ids.0,
        found n (λ w. changed (update_row now k ups w.table []) w) m s t w u e h,
        lookup-insert n j u m,
        val,
        ids.1,
        subs,
        insert-AllGood n u m good g,
        r,
      )
  by_table none e =
      let (ids, t₁, listed, c, le, v₁) = create_table_lem n m s v in
      let w : Watched = bare n ids 500 in
      let new : Good w = record { indexed = new_data_table-IsValid n; numbered = le } in
      let (u, t, h, good, subs, val, r) = row_changed now k ups w t₁ f y d p q new v₁ in
      (
        insert n u (insert n w m),
        u,
        t,
        ids,
        made n (λ w. changed (update_row now k ups w.table []) w) m s t₁ t w u e c h,
        twice n j u w m,
        val,
        listed,
        subs,
        insert-AllGood n u (insert n w m) good (insert-AllGood n w m new g),
        r,
      )

-- An update of a table by the monitor, with fields of distinct names, where the registry is
-- right, the tables' indexes are right and their subscribers have numbers of slots, ends without
-- a fault and does not throw. Behind it the table is there, also if it was not; the field given
-- has its value in the row, if its name is not reserved; a table that was there keeps its
-- subscribers, a new one has every session of the registry; the entries of other names are as
-- they were, and the tables and the registry are right again.
pub update_table_lem :
    (now : ℕ → Bytes) (n k : Bytes) (ups : Dict Bytes) (m : Dict Watched) (s : Sessions)
    (f y j : Bytes)
    → Keyed ups
    → lookup f ups ≡ some y
    → is_reserved f ≡ false
    → AllGood m
    → IsRegistered s
    → (l : Dict Watched) × (u : Watched) × (t : Sessions) × (ids : List ℕ) × (update_table now n k
          ups m s
        ≡ ok (none, l, t))
      × (lookup j l ≡ (if str_eq n j then some u else lookup j m))
      × (get_row_field k f u.table ≡ ok y)
      × (session_list s.reg s.object ≡ ok ids)
      × (u.subscribers ≡ kept_or ids (lookup n m))
      × AllGood l
      × IsRegistered t
update_table_lem now n k ups m s f y j d p q g v =
    by_table now n k ups m s f y j d p q g v (lookup n m) refl

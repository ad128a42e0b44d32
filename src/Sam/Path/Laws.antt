-- ===== src/Sam/Path/Laws.antt =====
-- What lookups by qname see after a put by qname.
use exio.Prelude.{
  ◌≡◌, refl, ◌∙◌, ap, sym, Bool, true, false, Option, none, some, inl, inr, [], ◌∷◌, Bytes, ◌&&◌,
  if◌then◌else◌, str_eq, str_eq_iff, str_eq_refl, arith, Bool-cases, Option-cases,
}
use exio.Sam.Container.{
  Items, nil, find_field, find_child, put_field, put_child, set_child, child_items,
}
use exio.Sam.Container.Lookup.{
  find_field-put_field, find_child-put_field, find_field-put_child, find_child-put_child,
  find_field-set_child, find_child-set_child,
}
use exio.Sam.Path.{Qname, find_field_at, put_field_at}

-- Two qnames lead to the same field: part by part, and an empty one stands for one empty part.
unfoldable pub same_place : Qname → Qname → Bool
same_place [] [] = true
same_place [] (m ∷ []) = str_eq [] m
same_place [] (m ∷ r ∷ qm) = false
same_place (n ∷ []) [] = str_eq n []
same_place (n ∷ []) (m ∷ []) = str_eq n m
same_place (n ∷ []) (m ∷ r ∷ qm) = false
same_place (p ∷ q ∷ qn) [] = false
same_place (p ∷ q ∷ qn) (m ∷ []) = false
same_place (p ∷ q ∷ qn) (m ∷ r ∷ qm) = str_eq p m && same_place (q ∷ qn) (r ∷ qm)

-- The lookup one step down.
find_below : Qname → Option Items → Option Bytes
find_below qn none = none
find_below qn (some c) = find_field_at qn c

find_field_at-cons :
    (p q : Bytes) (qn : Qname) (xs : Items)
    → find_field_at (p ∷ q ∷ qn) xs ≡ find_below (q ∷ qn) (find_child p xs)
unfolding find_field_at find_below
find_field_at-cons p q qn xs = ground arith

find_field_at-nil : (qn : Qname) → find_field_at qn nil ≡ none
unfolding find_field_at find_field find_child
find_field_at-nil [] = refl
find_field_at-nil (n ∷ []) = refl
find_field_at-nil (p ∷ q ∷ qn) = refl

-- The children after a put below the child `p`.
abbrev put_below : Bytes → Qname → Bytes → Items → Items
put_below p qn v xs =
    set_child p (put_field_at qn v (child_items p (put_child p xs))) (put_child p xs)

put_field_at-cons :
    (p q : Bytes) (qn : Qname) (v : Bytes) (xs : Items)
    → put_field_at (p ∷ q ∷ qn) v xs ≡ put_below p (q ∷ qn) v xs
unfolding put_field_at
put_field_at-cons p q qn v xs = refl

child_items-put_child : (p : Bytes) (xs : Items) → child_items p (put_child p xs) ≡ child_items p xs
unfolding child_items
child_items-put_child p xs = ground (arith, find_child-put_child p p xs, str_eq_refl p)

find_child-put_below :
    (m p : Bytes) (qn : Qname) (v : Bytes) (xs : Items)
    → find_child m (put_below p qn v xs)
      ≡ (if str_eq p m then some (put_field_at qn v (child_items p xs)) else find_child m xs)
find_child-put_below m p qn v xs = elim (Bool-cases (str_eq p m)) [
  | inl e ↦
      let q : p ≡ m = (str_eq_iff p m).0 e in
      rw (child_items-put_child p xs, e)
        (ground (
          arith,
          find_child-set_child m p (put_field_at qn v (child_items p xs)) (put_child p xs),
          find_child-put_child m p xs,
        ))
  | inr e ↦ ground (
    arith,
    find_child-put_child m p xs,
    find_child-set_child m p (put_field_at qn v (child_items p (put_child p xs))) (put_child p xs),
  )
]

find_field-put_below :
    (f p : Bytes) (qn : Qname) (v : Bytes) (xs : Items)
    → find_field f (put_below p qn v xs) ≡ find_field f xs
find_field-put_below f p qn v xs =
    find_field-set_child f p (put_field_at qn v (child_items p (put_child p xs))) (put_child p xs)
    ∙ find_field-put_child f p xs

find_below-child_items :
    (qn : Qname) (p m : Bytes) (xs : Items)
    → p ≡ m
    → find_field_at qn (child_items p xs) ≡ find_below qn (find_child m xs)
find_below-child_items qn p m xs e = rw e (elim (Option-cases (find_child m xs)) [
  | inl n ↦ unfold child_items find_below in ground (arith, find_field_at-nil qn)
  | inr (c, n) ↦ unfold child_items find_below in ground arith
])

abbrev Sees : Qname → Qname → Bytes → Items → Type 0
Sees qn qm v xs =
    find_field_at qm (put_field_at qn v xs)
    ≡ (if same_place qn qm then some v else find_field_at qm xs)

-- One step down on both sides.
Sees-below :
    (p q m r : Bytes) (qn qm : Qname) (v : Bytes) (xs : Items)
    → Sees (q ∷ qn) (r ∷ qm) v (child_items p xs)
    → Sees (p ∷ q ∷ qn) (m ∷ r ∷ qm) v xs
Sees-below p q m r qn qm v xs ih = elim (Bool-cases (str_eq p m)) [
  | inl e ↦
      rw
        (
          put_field_at-cons p q qn v xs,
          find_field_at-cons m r qm (put_below p (q ∷ qn) v xs),
          find_child-put_below m p (q ∷ qn) v xs,
          e,
          find_field_at-cons m r qm xs,
        )
        (unfold find_below same_place in
          rw e (rw ih (rw (find_below-child_items (r ∷ qm) p m xs ((str_eq_iff p m).0 e)))))
  | inr e ↦
      rw
        (
          put_field_at-cons p q qn v xs,
          find_field_at-cons m r qm (put_below p (q ∷ qn) v xs),
          find_child-put_below m p (q ∷ qn) v xs,
          e,
          find_field_at-cons m r qm xs,
        )
        (unfold same_place in rw e)
]

-- A put deeper down is not seen by a shorter qname, nor a put here by a longer one.
sees_above :
    (p q : Bytes) (qn : Qname) (f v : Bytes) (xs : Items)
    → find_field f (put_field_at (p ∷ q ∷ qn) v xs) ≡ find_field f xs
sees_above p q qn f v xs =
    rw (put_field_at-cons p q qn v xs) (find_field-put_below f p (q ∷ qn) v xs)

sees_deeper :
    (n m r : Bytes) (qm : Qname) (v : Bytes) (xs : Items)
    → find_field_at (m ∷ r ∷ qm) (put_field n v xs) ≡ find_field_at (m ∷ r ∷ qm) xs
sees_deeper n m r qm v xs =
    find_field_at-cons m r qm (put_field n v xs)
    ∙ ap (find_below (r ∷ qm)) (find_child-put_field m n v xs)
    ∙ sym (find_field_at-cons m r qm xs)

-- The value put by a qname is found there, and what a qname of another place leads to stays.
pub find_field_at-put_field_at :
    (qn qm : Qname) (v : Bytes) (xs : Items)
    → find_field_at qm (put_field_at qn v xs)
      ≡ (if same_place qn qm then some v else find_field_at qm xs)
find_field_at-put_field_at [] [] v xs =
    unfold find_field_at put_field_at same_place in find_field-put_field [] [] v xs
find_field_at-put_field_at [] (m ∷ []) v xs =
    unfold find_field_at put_field_at same_place in find_field-put_field m [] v xs
find_field_at-put_field_at [] (m ∷ r ∷ qm) v xs =
    unfold put_field_at same_place in sees_deeper [] m r qm v xs
find_field_at-put_field_at (n ∷ []) [] v xs =
    unfold find_field_at put_field_at same_place in find_field-put_field [] n v xs
find_field_at-put_field_at (n ∷ []) (m ∷ []) v xs =
    unfold find_field_at put_field_at same_place in find_field-put_field m n v xs
find_field_at-put_field_at (n ∷ []) (m ∷ r ∷ qm) v xs =
    unfold put_field_at same_place in sees_deeper n m r qm v xs
find_field_at-put_field_at (p ∷ q ∷ qn) [] v xs =
    unfold find_field_at same_place in sees_above p q qn [] v xs
find_field_at-put_field_at (p ∷ q ∷ qn) (m ∷ []) v xs =
    unfold find_field_at same_place in sees_above p q qn m v xs
find_field_at-put_field_at (p ∷ q ∷ qn) (m ∷ r ∷ qm) v xs =
    Sees-below p q m r qn qm v xs
      (find_field_at-put_field_at (q ∷ qn) (r ∷ qm) v (child_items p xs))

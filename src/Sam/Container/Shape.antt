-- ===== src/Sam/Container/Shape.antt =====
-- The list of items itself: where a change puts its item, copies, and that no change ever makes two
-- fields, or two children, of one name.
use exio.Prelude.{
  ◌≡◌, refl, ap, ◌∙◌, none, some, inl, inr, Bytes, str_eq, str_eq_iff, str_eq_refl, arith,
  Bool-cases, Option-cases, Option,
}
use exio.Sam.Container.{
  Items, nil, field, child, add_items, add_field, add_child, find_field, find_child, set_field,
  set_child, put_field, put_child, clone_onto, clone, Unique,
}
use exio.Sam.Container.Lookup.{
  find_field-add_items, find_child-add_items, find_field-set_field, find_child-set_field,
  find_field-set_child, find_child-set_child, or_else, find_field-add_child, find_child-add_field,
}

pub add_items-nil : (xs : Items) → add_items xs nil ≡ xs
unfolding add_items
add_items-nil nil = refl
add_items-nil (field n v xs) = ap (field n v) (add_items-nil xs)
add_items-nil (child n c xs) = ap (child n c) (add_items-nil xs)

pub add_items_assoc :
    (xs ys zs : Items) → add_items (add_items xs ys) zs ≡ add_items xs (add_items ys zs)
unfolding add_items
add_items_assoc nil ys zs = refl
add_items_assoc (field n v xs) ys zs = ap (field n v) (add_items_assoc xs ys zs)
add_items_assoc (child n c xs) ys zs = ap (child n c) (add_items_assoc xs ys zs)

or_else-none : {o p : Option Bytes} → or_else o p ≡ none → (o ≡ none) × (p ≡ none)
or_else-none {o} {p} h = elim (Option-cases o) [
  | inl e ↦ (e, ground arith)
  | inr (a, e) ↦ (ground arith, ground arith)
]

or_else-none_items : {o p : Option Items} → or_else o p ≡ none → (o ≡ none) × (p ≡ none)
or_else-none_items {o} {p} h = elim (Option-cases o) [
  | inl e ↦ (e, ground arith)
  | inr (a, e) ↦ (ground arith, ground arith)
]

-- In a list with unique names a field's name is not found before it, and so for a child.
pub Unique-find_field :
    (xs : Items) (n v : Bytes) (ys : Items)
    → Unique (add_items xs (field n v ys))
    → find_field n xs ≡ none
unfolding add_items find_field
Unique-find_field nil n v ys u = refl
Unique-find_field (field m w xs) n v ys u = ground (
  arith,
  Unique-find_field xs n v ys u.1,
  find_field-add_items m xs (field n v ys),
  str_eq_iff m n,
  str_eq_iff n m,
  or_else-none {o = find_field m xs},
)
Unique-find_field (child m c xs) n v ys u = Unique-find_field xs n v ys u.2

pub Unique-find_child :
    (xs : Items) (n : Bytes) (c ys : Items)
    → Unique (add_items xs (child n c ys))
    → find_child n xs ≡ none
unfolding add_items find_child
Unique-find_child nil n c ys u = refl
Unique-find_child (child m d xs) n c ys u = ground (
  arith,
  Unique-find_child xs n c ys u.2,
  find_child-add_items m xs (child n c ys),
  str_eq_iff m n,
  str_eq_iff n m,
)
Unique-find_child (field m w xs) n c ys u = Unique-find_child xs n c ys u.1

pub Unique-add_field :
    (xs : Items) (n v : Bytes) → Unique xs → find_field n xs ≡ none → Unique (add_field xs n v)
unfolding add_field add_items find_field
Unique-add_field nil n v u h = (refl, tt)
Unique-add_field (field m w xs) n v u h = ground (
  arith,
  find_field-add_items m xs (field n v nil),
  str_eq_iff n m,
  str_eq_iff m n,
  Unique-add_field xs n v u.1,
)
Unique-add_field (child m c xs) n v u h =
    ground (arith, find_child-add_field m n v xs, Unique-add_field xs n v u.2)

pub Unique-add_child :
    (xs : Items) (n : Bytes) (c : Items)
    → Unique xs
    → Unique c
    → find_child n xs ≡ none
    → Unique (add_child xs n c)
unfolding add_child add_items find_child
Unique-add_child nil n c u uc h = (refl, uc, tt)
Unique-add_child (child m d xs) n c u uc h = ground (
  arith,
  find_child-add_items m xs (child n c nil),
  str_eq_iff n m,
  str_eq_iff m n,
  Unique-add_child xs n c u.2,
)
Unique-add_child (field m w xs) n c u uc h =
    ground (arith, find_field-add_child m n c xs, Unique-add_child xs n c u.1)

pub Unique-set_field : (n v : Bytes) (xs : Items) → Unique xs → Unique (set_field n v xs)
unfolding set_field
Unique-set_field n v nil u = tt
Unique-set_field n v (field m w xs) u =
    ground (arith, Unique-set_field n v xs u.1, find_field-set_field m n v xs)
Unique-set_field n v (child m c xs) u =
    ground (arith, Unique-set_field n v xs u.2, find_child-set_field m n v xs)

pub Unique-set_child : (n : Bytes) (d xs : Items) → Unique xs → Unique d → Unique (set_child n d xs)
unfolding set_child
Unique-set_child n d nil u ud = tt
Unique-set_child n d (field m w xs) u ud =
    ground (arith, Unique-set_child n d xs u.1 ud, find_field-set_child m n d xs)
Unique-set_child n d (child m c xs) u ud =
    ground (arith, Unique-set_child n d xs u.2 ud, find_child-set_child m n d xs)

pub Unique-put_field : (n v : Bytes) (xs : Items) → Unique xs → Unique (put_field n v xs)
unfolding put_field
Unique-put_field n v xs u = ground (arith, Unique-set_field n v xs u, Unique-add_field xs n v u)

pub Unique-put_child : (n : Bytes) (xs : Items) → Unique xs → Unique (put_child n xs)
unfolding put_child
Unique-put_child n xs u = ground (arith, Unique-add_child xs n nil u tt)

pub Unique-child :
    (n : Bytes) (xs : Items) {c : Items} → Unique xs → find_child n xs ≡ some c → Unique c
unfolding find_child
Unique-child n nil u h = cc
Unique-child n (field m v xs) u h = Unique-child n xs u.1 h
Unique-child n (child m d xs) {c} u h = elim (Bool-cases (str_eq m n)) [
  | inl e ↦ Unique-subst (ground arith) u.1
  | inr e ↦ Unique-child n xs u.2 (ground arith)
]
  where
    Unique-subst : d ≡ c → Unique d → Unique c
    Unique-subst p x = rw (← p) x

-- A new name goes to the end, and an assignment to a child at the end stays there.
pub put_field-new :
    (n v : Bytes) (xs : Items)
    → find_field n xs ≡ none
    → put_field n v xs ≡ add_items xs (field n v nil)
unfolding put_field add_field
put_field-new n v xs h = rw (h, put_field)

pub put_child-new :
    (n : Bytes) (xs : Items)
    → find_child n xs ≡ none
    → put_child n xs ≡ add_items xs (child n nil nil)
unfolding put_child add_child
put_child-new n xs h = rw (h, put_child)

pub set_child-add_items :
    (n : Bytes) (c d xs : Items)
    → find_child n xs ≡ none
    → set_child n d (add_items xs (child n c nil)) ≡ add_items xs (child n d nil)
unfolding set_child add_items find_child
set_child-add_items n c d nil h = rw (str_eq_refl n)
set_child-add_items n c d (field m v xs) h = ap (field m v) (set_child-add_items n c d xs h)
set_child-add_items n c d (child m e xs) h = ground (arith, set_child-add_items n c d xs)

clone_onto-eq-add_items : (acc xs : Items) → clone_onto acc xs ≡ add_items acc xs
unfolding clone_onto
clone_onto-eq-add_items acc nil = rw add_items-nil
clone_onto-eq-add_items acc (field n v xs) =
    rw (clone_onto-eq-add_items (add_items acc (field n v nil)) xs, add_items_assoc)
      (unfold add_items in refl)
clone_onto-eq-add_items acc (child n c xs) =
    rw
      (
        clone_onto-eq-add_items nil c,
        clone_onto-eq-add_items (add_items acc (child n (add_items nil c) nil)) xs,
        add_items_assoc,
      )
      (unfold add_items in refl)

-- A clone has the items of its source, in their order and at every depth.
pub clone_lem : (xs : Items) → clone xs ≡ xs
unfolding clone
clone_lem xs = clone_onto-eq-add_items nil xs ∙ unfold add_items in refl

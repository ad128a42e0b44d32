-- ===== src/Sam/Container/Merge.antt =====
-- txContainer::merge and the copying put_child: what the merged container holds.
use exio.Prelude.{
  ◌≡◌, refl, ◌∙◌, none, some, inl, inr, Option, if◌then◌else◌, Bytes, str_eq, str_eq_iff, arith,
  Bool-cases, Option-cases, ap,
}
use exio.Sam.Container.{
  Items, nil, field, child, find_field, find_child, set_child, put_field, put_child_copy, clone,
  merge, Unique,
}
use exio.Sam.Container.Lookup.{
  or_else, find_field-put_field, find_child-put_field, find_field-set_child, find_child-set_child,
  find_field-add_child, find_child-add_child,
}
use exio.Sam.Container.Shape.{
  clone_lem, Unique-put_field, Unique-set_child, Unique-add_child, Unique-child,
}

pub find_field-put_child_copy :
    (f n : Bytes) (c xs : Items) → find_field f (put_child_copy n c xs) ≡ find_field f xs
unfolding put_child_copy
find_field-put_child_copy f n c xs =
    ground (arith, find_field-set_child f n (clone c) xs, find_field-add_child f n (clone c) xs)

-- The copying put_child: afterwards the child of that name is the copy, and the others stay.
pub find_child-put_child_copy :
    (f n : Bytes) (c xs : Items)
    → find_child f (put_child_copy n c xs) ≡ (if str_eq n f then some c else find_child f xs)
unfolding put_child_copy
find_child-put_child_copy f n c xs = elim (Bool-cases (str_eq n f)) [
  | inl e ↦
      let p : n ≡ f = (str_eq_iff n f).0 e in
      ground (
        arith,
        p,
        clone_lem c,
        find_child-set_child f n (clone c) xs,
        find_child-add_child f n (clone c) xs,
        ap (λ k. find_child k xs) p,
      )
  | inr e ↦
      ground (arith, find_child-set_child f n (clone c) xs, find_child-add_child f n (clone c) xs)
]

pub Unique-put_child_copy :
    (n : Bytes) (c xs : Items) → Unique xs → Unique c → Unique (put_child_copy n c xs)
unfolding put_child_copy
Unique-put_child_copy n c xs u uc =
    let uc' : Unique (clone c) = rw (clone_lem c) uc in
    ground (arith, Unique-set_child n (clone c) xs u uc', Unique-add_child xs n (clone c) u uc')

merge-field :
    (xs : Items) (n v : Bytes) (src : Items)
    → merge xs (field n v src) ≡ merge (put_field n v xs) src
unfolding merge
merge-field xs n v src = refl

merge-new :
    (xs : Items) (n : Bytes) (c src : Items)
    → find_child n xs ≡ none
    → merge xs (child n c src) ≡ merge (put_child_copy n c xs) src
unfolding merge
merge-new xs n c src h = rw (h, merge)

merge-old :
    (xs : Items) (n : Bytes) (c src : Items) {d : Items}
    → find_child n xs ≡ some d
    → merge xs (child n c src) ≡ merge (set_child n (merge d c) xs) src
unfolding merge
merge-old xs n c src h = rw (h, merge)

-- The merge of a container and a source, each with unique names, has unique names.
pub Unique-merge : (xs src : Items) → Unique xs → Unique src → Unique (merge xs src)
Unique-merge xs nil u us = unfold merge in u
Unique-merge xs (field n v src) u us =
    rw (merge-field xs n v src)
      (Unique-merge (put_field n v xs) src (Unique-put_field n v xs u) us.1)
Unique-merge xs (child n c src) u us = elim (Option-cases (find_child n xs)) [
  | inl e ↦
      rw (merge-new xs n c src e)
        (Unique-merge (put_child_copy n c xs) src (Unique-put_child_copy n c xs u us.1) us.2)
  | inr (d, e) ↦ rw (merge-old xs n c src e) (
      Unique-merge (set_child n (merge d c) xs) src
        (Unique-set_child n (merge d c) xs u (Unique-merge d c (Unique-child n xs u e) us.1)) us.2)
]

abbrev pub FieldsAfter : Bytes → Items → Items → Type 0
FieldsAfter f xs src = find_field f (merge xs src) ≡ or_else (find_field f src) (find_field f xs)

find_field-merge_field :
    (f : Bytes) (xs : Items) (n v : Bytes) (src : Items)
    → Unique (field n v src)
    → FieldsAfter f (put_field n v xs) src
    → FieldsAfter f xs (field n v src)
unfolding merge find_field
find_field-merge_field f xs n v src us ih = elim (Bool-cases (str_eq n f)) [
  | inl e ↦
      let p : n ≡ f = (str_eq_iff n f).0 e in
      ground (arith, find_field-put_field f n v xs, ap (λ k. find_field k src) p)
  | inr e ↦ ground (arith, find_field-put_field f n v xs)
]

find_field-merge_child :
    (f : Bytes) (xs : Items) (n : Bytes) (c src : Items)
    → ((ys : Items) → FieldsAfter f ys src)
    → FieldsAfter f xs (child n c src)
unfolding find_field
find_field-merge_child f xs n c src ih = elim (Option-cases (find_child n xs)) [
  | inl e ↦
      rw (merge-new xs n c src e)
        (ground (arith, ih (put_child_copy n c xs), find_field-put_child_copy f n c xs))
  | inr (d, e) ↦
      rw (merge-old xs n c src e)
        (ground (arith, ih (set_child n (merge d c) xs), find_field-set_child f n (merge d c) xs))
]

-- After the merge of a source whose names are unique, a field has the value that the source
-- gives it, and else the one that it had.
pub find_field-merge : (f : Bytes) (xs src : Items) → Unique src → FieldsAfter f xs src
find_field-merge f xs nil us = unfold merge find_field in refl
find_field-merge f xs (field n v src) us =
    find_field-merge_field f xs n v src us (find_field-merge f (put_field n v xs) src us.1)
find_field-merge f xs (child n c src) us =
    find_field-merge_child f xs n c src (λ ys. find_field-merge f ys src us.2)

-- What a child is after the merge: the old one merged with the source's, where both are there.
unfoldable pub merged_child : Option Items → Option Items → Option Items
merged_child none o = o
merged_child (some d) none = some d
merged_child (some d) (some c) = some (merge d c)

find_child-merge_child :
    (f : Bytes) (xs : Items) (n : Bytes) (c src : Items)
    → Unique (child n c src)
    → ((ys : Items)
        → find_child f (merge ys src) ≡ merged_child (find_child f ys) (find_child f src))
    → find_child f (merge xs (child n c src))
      ≡ merged_child (find_child f xs) (find_child f (child n c src))
unfolding merged_child
find_child-merge_child f xs n c src us ih = elim (Option-cases (find_child n xs)) [
  | inl e ↦ rw (merge-new xs n c src e) (elim (Bool-cases (str_eq n f)) [
    | inl q ↦
        let p : n ≡ f = (str_eq_iff n f).0 q in
        unfold find_child in
        ground (
          arith,
          ih (put_child_copy n c xs),
          find_child-put_child_copy f n c xs,
          ap (λ k. find_child k xs) p,
          ap (λ k. find_child k src) p,
        )
    | inr q ↦
        unfold find_child in
        ground (arith, ih (put_child_copy n c xs), find_child-put_child_copy f n c xs)
  ])
  | inr (d, e) ↦ rw (merge-old xs n c src e) (elim (Bool-cases (str_eq n f)) [
    | inl q ↦
        let p : n ≡ f = (str_eq_iff n f).0 q in
        unfold find_child in
        ground (
          arith,
          ih (set_child n (merge d c) xs),
          find_child-set_child f n (merge d c) xs,
          ap (λ k. find_child k xs) p,
          ap (λ k. find_child k src) p,
        )
    | inr q ↦
        unfold find_child in
        ground (arith, ih (set_child n (merge d c) xs), find_child-set_child f n (merge d c) xs)
  ])
]

find_child-merge_put :
    (f n v : Bytes) (xs src : Items)
    → merged_child (find_child f (put_field n v xs)) (find_child f src)
      ≡ merged_child (find_child f xs) (find_child f (field n v src))
unfolding find_child
find_child-merge_put f n v xs src = rw (find_child-put_field f n v xs)

-- After the merge of a source whose names are unique, a child is the old one, merged with the
-- source's child of that name if it has one, or else the source's; there is none if neither has
-- one.
pub find_child-merge :
    (f : Bytes) (xs src : Items)
    → Unique src
    → find_child f (merge xs src) ≡ merged_child (find_child f xs) (find_child f src)
find_child-merge f xs nil us = unfold merge find_child merged_child in ground arith
find_child-merge f xs (field n v src) us =
    rw (merge-field xs n v src)
      (find_child-merge f (put_field n v xs) src us.1 ∙ find_child-merge_put f n v xs src)
find_child-merge f xs (child n c src) us =
    find_child-merge_child f xs n c src us (λ ys. find_child-merge f ys src us.2)

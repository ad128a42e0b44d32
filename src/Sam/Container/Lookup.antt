-- ===== src/Sam/Container/Lookup.antt =====
-- What lookups see after each change of a container's items.
use exio.Prelude.{
  ◌≡◌, refl, ap, Option, none, some, inl, inr, if◌then◌else◌, Bytes, str_eq, str_eq_iff, arith,
  Bool-cases,
}
use exio.Sam.Container.{
  Items, nil, field, child, add_items, add_field, add_child, find_field, find_child, set_field,
  set_child, put_field, put_child,
}

abbrev pub or_else {ℓ} : {A : Type ℓ} → Option A → Option A → Option A
or_else (some a) o = some a
or_else none o = o

pub find_field-add_items :
    (f : Bytes) (xs ys : Items)
    → find_field f (add_items xs ys) ≡ or_else (find_field f xs) (find_field f ys)
unfolding find_field add_items
find_field-add_items f nil ys = refl
find_field-add_items f (field n v xs) ys = ground (arith, find_field-add_items f xs ys)
find_field-add_items f (child n c xs) ys = find_field-add_items f xs ys

pub find_child-add_items :
    (f : Bytes) (xs ys : Items)
    → find_child f (add_items xs ys) ≡ or_else (find_child f xs) (find_child f ys)
unfolding find_child add_items
find_child-add_items f nil ys = refl
find_child-add_items f (field n v xs) ys = find_child-add_items f xs ys
find_child-add_items f (child n c xs) ys = ground (arith, find_child-add_items f xs ys)

-- An assignment is seen under its own name, if there is such an item, and nowhere else.
pub find_field-set_field :
    (f g w : Bytes) (xs : Items)
    → find_field f (set_field g w xs) ≡ (
        if str_eq g f
        then elim (find_field f xs) [ some _ ↦ some w | none ↦ none ]
        else find_field f xs)
unfolding find_field set_field
find_field-set_field f g w nil = ground arith
find_field-set_field f g w (field n v xs) =
    ground (arith, find_field-set_field f g w xs, str_eq_iff n g, str_eq_iff n f, str_eq_iff g f)
find_field-set_field f g w (child n c xs) = find_field-set_field f g w xs

pub find_child-set_field :
    (f g w : Bytes) (xs : Items) → find_child f (set_field g w xs) ≡ find_child f xs
unfolding find_child set_field
find_child-set_field f g w nil = refl
find_child-set_field f g w (field n v xs) = ground (arith, find_child-set_field f g w xs)
find_child-set_field f g w (child n c xs) = ground (arith, find_child-set_field f g w xs)

pub find_child-set_child :
    (f g : Bytes) (d xs : Items)
    → find_child f (set_child g d xs) ≡ (
        if str_eq g f
        then elim (find_child f xs) [ some _ ↦ some d | none ↦ none ]
        else find_child f xs)
unfolding find_child set_child
find_child-set_child f g d nil = ground arith
find_child-set_child f g d (field n v xs) = find_child-set_child f g d xs
find_child-set_child f g d (child n c xs) =
    ground (arith, find_child-set_child f g d xs, str_eq_iff n g, str_eq_iff n f, str_eq_iff g f)

pub find_field-set_child :
    (f g : Bytes) (d xs : Items) → find_field f (set_child g d xs) ≡ find_field f xs
unfolding find_field set_child
find_field-set_child f g d nil = refl
find_field-set_child f g d (field n v xs) = ground (arith, find_field-set_child f g d xs)
find_field-set_child f g d (child n c xs) = ground (arith, find_field-set_child f g d xs)

pub find_field-add_field :
    (f g w : Bytes) (xs : Items)
    → find_field f (add_field xs g w)
      ≡ or_else (find_field f xs) (if str_eq g f then some w else none)
unfolding add_field
find_field-add_field f g w xs = unfold find_field in find_field-add_items f xs (field g w nil)

pub find_child-add_field :
    (f g w : Bytes) (xs : Items) → find_child f (add_field xs g w) ≡ find_child f xs
unfolding add_field find_child
find_child-add_field f g w xs = ground (arith, find_child-add_items f xs (field g w nil))

pub find_child-add_child :
    (f g : Bytes) (d xs : Items)
    → find_child f (add_child xs g d)
      ≡ or_else (find_child f xs) (if str_eq g f then some d else none)
unfolding add_child
find_child-add_child f g d xs = unfold find_child in find_child-add_items f xs (child g d nil)

pub find_field-add_child :
    (f g : Bytes) (d xs : Items) → find_field f (add_child xs g d) ≡ find_field f xs
unfolding add_child find_field
find_field-add_child f g d xs = ground (arith, find_field-add_items f xs (child g d nil))

-- The value put under a name is found there; the fields of other names keep theirs.
pub find_field-put_field :
    (f g w : Bytes) (xs : Items)
    → find_field f (put_field g w xs) ≡ (if str_eq g f then some w else find_field f xs)
find_field-put_field f g w xs = elim (Bool-cases (str_eq g f)) [
  | inl e ↦
      let p : g ≡ f = (str_eq_iff g f).0 e in
      unfold put_field in
      ground (
        arith,
        p,
        find_field-set_field f g w xs,
        find_field-add_field f g w xs,
        ap (λ k. find_field k xs) p,
      )
  | inr e ↦
      unfold put_field in
      ground (arith, find_field-set_field f g w xs, find_field-add_field f g w xs)
]

pub find_child-put_field :
    (f g w : Bytes) (xs : Items) → find_child f (put_field g w xs) ≡ find_child f xs
unfolding put_field
find_child-put_field f g w xs =
    ground (arith, find_child-set_field f g w xs, find_child-add_field f g w xs)

-- put_child makes the child if there is none, and changes nothing that is there.
pub find_child-put_child :
    (f g : Bytes) (xs : Items)
    → find_child f (put_child g xs)
      ≡ or_else (find_child f xs) (if str_eq g f then some nil else none)
unfolding put_child
find_child-put_child f g xs = elim (Bool-cases (str_eq g f)) [
  | inl e ↦
      let p : g ≡ f = (str_eq_iff g f).0 e in
      ground (arith, find_child-add_child f g nil xs, ap (λ k. find_child k xs) p)
  | inr e ↦ ground (arith, find_child-add_child f g nil xs)
]

pub find_field-put_child :
    (f g : Bytes) (xs : Items) → find_field f (put_child g xs) ≡ find_field f xs
unfolding put_child
find_field-put_child f g xs = ground (arith, find_field-add_child f g nil xs)

-- ===== src/Sam/Container.antt =====
-- txContainer, txField, txItem and txMessage: libexio/exio/sam.h and libexio/sam.cc.
-- `Items` is m_items, the ordered list of items; a child stands in it with its own items. The maps
-- m_field_map and m_child_map hold, for each name, the item of that kind that was added first
-- (std::map::insert keeps the old entry), so a lookup is a search for the first such item.
pub mod Lookup
pub mod Shape
pub mod Merge
use exio.Prelude.{
  ℕ, suc, ◌≡◌, refl, Bool, true, false, Option, none, some, List, [], ◌∷◌, if◌then◌else◌, Bytes,
  str_eq, arith,
}

pub data Items : Type 0 where
  nil : Items
  field : Bytes → Bytes → Items → Items
  child : Bytes → Items → Items → Items

pub record TxContainer : Type 0 where
  pub name : Bytes
  pub items : Items

-- The type of a message is the name of its root.
pub record TxMessage : Type 0 where
  pub root : TxContainer
  pub open root use *

-- A push_back of each item of the second list; `add_internally` pushes one.
unfoldable pub add_items : Items → Items → Items
add_items nil ys = ys
add_items (field n v xs) ys = field n v (add_items xs ys)
add_items (child n c xs) ys = child n c (add_items xs ys)

unfoldable pub add_field : Items → Bytes → Bytes → Items
unfolding add_items
add_field xs n v = add_items xs (field n v nil)

unfoldable pub add_child : Items → Bytes → Items → Items
unfolding add_items
add_child xs n c = add_items xs (child n c nil)

-- find_field(const std::string&): the value of the field found, or NULL
unfoldable pub find_field : Bytes → Items → Option Bytes
find_field f nil = none
find_field f (field n v xs) = if str_eq n f then some v else find_field f xs
find_field f (child n c xs) = find_field f xs

-- find_child(const std::string&)
unfoldable pub find_child : Bytes → Items → Option Items
find_child f nil = none
find_child f (field n v xs) = find_child f xs
find_child f (child n c xs) = if str_eq n f then some c else find_child f xs

-- An assignment through the pointer that find_field returned: field->value(v)
unfoldable pub set_field : Bytes → Bytes → Items → Items
set_field f w nil = nil
set_field f w (field n v xs) = if str_eq n f then field n w xs else field n v (set_field f w xs)
set_field f w (child n c xs) = child n c (set_field f w xs)

-- An assignment to the items of the child that find_child returned.
unfoldable pub set_child : Bytes → Items → Items → Items
set_child f d nil = nil
set_child f d (field n v xs) = field n v (set_child f d xs)
set_child f d (child n c xs) = if str_eq n f then child n d xs else child n c (set_child f d xs)

-- put_field(const std::string&, const std::string&)
unfoldable pub put_field : Bytes → Bytes → Items → Items
unfolding find_field set_field add_field
put_field f v xs = elim (find_field f xs) [ some _ ↦ set_field f v xs | none ↦ add_field xs f v ]

-- put_child(const std::string&)
unfoldable pub put_child : Bytes → Items → Items
unfolding find_child add_child
put_child f xs = elim (find_child f xs) [ some _ ↦ xs | none ↦ add_child xs f nil ]

-- What a reference to a child sees: its items.
unfoldable pub child_items : Bytes → Items → Items
unfolding find_child
child_items f xs = elim (find_child f xs) [ some c ↦ c | none ↦ nil ]

-- clone() and the copy constructor: the items of the source are added one by one, children as
-- clones of their own.
unfoldable pub clone_onto : Items → Items → Items
unfolding add_items
clone_onto acc nil = acc
clone_onto acc (field n v xs) = clone_onto (add_items acc (field n v nil)) xs
clone_onto acc (child n c xs) = clone_onto (add_items acc (child n (clone_onto nil c) nil)) xs

unfoldable pub clone : Items → Items
unfolding clone_onto
clone xs = clone_onto nil xs

-- put_child(const txContainer& src): a deep copy, over the child of that name if there is one
unfoldable pub put_child_copy : Bytes → Items → Items → Items
unfolding find_child set_child add_child clone
put_child_copy n src xs = elim (find_child n xs) [
  | some _ ↦ set_child n (clone src) xs
  | none ↦ add_child xs n (clone src)
]

-- merge(const txContainer& src): the items of `src` in their order
unfoldable pub merge : Items → Items → Items
unfolding put_field find_child set_child put_child_copy
merge xs nil = xs
merge xs (field n v src) = merge (put_field n v xs) src
merge xs (child n c src) = elim (find_child n xs) [
  | some d ↦ merge (set_child n (merge d c) xs) src
  | none ↦ merge (put_child_copy n c xs) src
]

-- check_field(const std::string&, const std::string&)
unfoldable pub check_field : Bytes → Bytes → Items → Bool
unfolding find_field
check_field f w xs = elim (find_field f xs) [ some v ↦ str_eq v w | none ↦ false ]

-- empty(), size() and count_any(): of m_items
unfoldable pub empty : Items → Bool
empty nil = true
empty _ = false

unfoldable pub count_any : Items → ℕ
count_any nil = 0
count_any (field n v xs) = suc (count_any xs)
count_any (child n c xs) = suc (count_any xs)

-- txMessage::reset() and type(const std::string&); the old items are gone
unfoldable pub reset : TxMessage → TxMessage
reset m = record { root = record { name = []; items = nil } }

unfoldable pub set_type : Bytes → TxMessage → TxMessage
set_type t m = record { root = record { name = t; items = m.items } }

-- What the two maps ensure of the list: no two fields share a name, no two children share one, at
-- any depth. A field and a child may.
abbrev pub Unique : Items → Type 0
Unique nil = Unit {0}
Unique (field n v xs) = (find_field n xs ≡ none) × Unique xs
Unique (child n c xs) = (find_child n xs ≡ none) × Unique c × Unique xs

-- ===== src/Sam/Path.antt =====
-- Qualified names: class qname of libexio/exio/sam.h, its printing and parsing, utils::tokenize of
-- libexio/utils.cc, and the operations of txContainer that follow a qname through sub-containers.
pub mod Laws
pub mod Parse
use exio.Prelude.{
  ◌≡◌, Bool, true, false, ◌||◌, Option, none, some, List, [], ◌∷◌, ◌++◌, Bytes, ◌==◌, ℕ,
  if◌then◌else◌, str_eq,
}
use exio.Sam.Container.{Items, find_field, find_child, put_field, put_child, set_child, child_items}

-- m_vec
abbrev pub Qname : Type 0
Qname = List Bytes

-- find_tree_const: the container of the last part and that part; none for a NULL container. An
-- empty qname leaves the name empty.
unfoldable pub find_tree : Qname → Items → Option (Items × Bytes)
find_tree [] xs = some (xs, [])
find_tree (n ∷ []) xs = some (xs, n)
find_tree (p ∷ q ∷ qn) xs = elim (find_child p xs) [ none ↦ none | some c ↦ find_tree (q ∷ qn) c ]

-- find_field(const qname&) and find_child(const qname&)
unfoldable pub find_field_at : Qname → Items → Option Bytes
unfolding find_tree
find_field_at qn xs = elim (find_tree qn xs) [ none ↦ none | some (c, n) ↦ find_field n c ]

unfoldable pub find_child_at : Qname → Items → Option Items
unfolding find_tree
find_child_at qn xs = elim (find_tree qn xs) [ none ↦ none | some (c, n) ↦ find_child n c ]

-- check_field(const qname&, const std::string&)
unfoldable pub check_field_at : Qname → Bytes → Items → Bool
unfolding find_field_at
check_field_at qn w xs = elim (find_field_at qn xs) [ some v ↦ str_eq v w | none ↦ false ]

-- buid_tree, and an operation on the container that it ends at, with the name that it leaves. The
-- containers on the way are changed in place.
unfoldable pub at_tree : Qname → (Bytes → Items → Items) → Items → Items
at_tree [] op xs = op [] xs
at_tree (n ∷ []) op xs = op n xs
at_tree (p ∷ q ∷ qn) op xs =
    set_child p (at_tree (q ∷ qn) op (child_items p (put_child p xs))) (put_child p xs)

-- put_field(const qname&, const std::string&) and put_child(const qname&)
unfoldable pub put_field_at : Qname → Bytes → Items → Items
unfolding at_tree
put_field_at qn v xs = at_tree qn (λ n. put_field n v) xs

unfoldable pub put_child_at : Qname → Items → Items
unfolding at_tree
put_child_at qn xs = at_tree qn put_child xs

-- operator<<(std::ostream&, const qname&) and to_string
unfoldable pub to_string : Qname → Bytes
to_string [] = []
to_string (p ∷ []) = p
to_string (p ∷ q ∷ qn) = p ++ b'.' ∷ to_string (q ∷ qn)

-- The token is captured if it has a length or empty ones are wanted.
abbrev pub capture : Bool → Bytes → List Bytes → List Bytes
capture want_empty_tokens [] rest = if want_empty_tokens then [] ∷ rest else rest
capture want_empty_tokens (c ∷ tok) rest = (c ∷ tok) ∷ rest

-- The loop of tokenize: `tok` is what lies between src and the byte that strchr looks at.
unfoldable pub tokenize_loop : ℕ → Bool → Bytes → Bytes → List Bytes
tokenize_loop delim want_empty_tokens tok [] = capture want_empty_tokens tok []
tokenize_loop delim want_empty_tokens tok (c ∷ s) =
    if c == delim
    then capture want_empty_tokens tok (tokenize_loop delim want_empty_tokens [] s)
    else tokenize_loop delim want_empty_tokens (tok ++ c ∷ []) s

-- The bytes before the terminating NUL, which end what strchr and strlen look at
unfoldable pub c_string : Bytes → Bytes
c_string [] = []
c_string (c ∷ s) = let rest = c_string s in if c == 0 then [] else c ∷ rest

abbrev pub tokenize_from : ℕ → Bool → Bytes → List Bytes
tokenize_from delim want_empty_tokens [] = []
tokenize_from delim want_empty_tokens (c ∷ s) = tokenize_loop delim want_empty_tokens [] (c ∷ s)

-- tokenize(src, delim, want_empty_tokens); `none` is a NULL pointer, and else src points to the bytes,
-- with a NUL behind them.
unfoldable pub tokenize : Option Bytes → ℕ → Bool → List Bytes
unfolding tokenize_loop c_string
tokenize none delim want_empty_tokens = []
tokenize (some s) delim want_empty_tokens = tokenize_from delim want_empty_tokens (c_string s)

-- qname::parse(const char*)
unfoldable pub parse : Option Bytes → Qname
unfolding tokenize
parse src = tokenize src b'.' false

-- ===== src/Dict.antt =====
-- std::map<std::string, V> as the sources use it: an association list in the order of its keys,
-- by std::string's operator<, with find, m[k] = v, erase, and the iteration from begin() to end().
use exio.Prelude.{
  ◌≡◌, refl, Bool, true, false, Option, none, some, List, [], ◌∷◌, inl, inr, if◌then◌else◌, ltb,
  ◌==◌, Bytes, str_eq, str_eq_iff, arith, Bool-cases,
}

-- operator< of std::string
abbrev pub str_lt : Bytes → Bytes → Bool
str_lt [] [] = false
str_lt [] (y ∷ ys) = true
str_lt (x ∷ xs) [] = false
str_lt (x ∷ xs) (y ∷ ys) = if x == y then str_lt xs ys else ltb x y

abbrev pub Dict {ℓ} : Type ℓ → Type ℓ
Dict V = List (Bytes × V)

module _ {ℓ} {V : Type ℓ} where
  unfoldable pub lookup : Bytes → Dict V → Option V
  lookup k [] = none
  lookup k ((n, v) ∷ m) = if str_eq n k then some v else lookup k m

  unfoldable pub insert : Bytes → V → Dict V → Dict V
  insert k v [] = (k, v) ∷ []
  insert k v ((n, w) ∷ m) =
      let rest = insert k v m in
      if str_eq n k then (n, v) ∷ m else if str_lt k n then (k, v) ∷ (n, w) ∷ m else (n, w) ∷ rest

  unfoldable pub erase : Bytes → Dict V → Dict V
  erase k [] = []
  erase k ((n, v) ∷ m) = let rest = erase k m in if str_eq n k then rest else (n, v) ∷ rest

  unfoldable pub map_values {κ} : {W : Type κ} → (V → W) → Dict V → Dict W
  map_values f [] = []
  map_values f ((n, v) ∷ m) = (n, f v) ∷ map_values f m

  pub lookup-insert :
      (k j : Bytes) (v : V) (m : Dict V)
      → lookup j (insert k v m) ≡ (if str_eq k j then some v else lookup j m)
  unfolding lookup insert
  lookup-insert k j v [] = refl
  lookup-insert k j v ((n, w) ∷ m) =
      ground (arith, lookup-insert k j v m, str_eq_iff n k, str_eq_iff n j, str_eq_iff k j)

  pub lookup-erase :
      (k j : Bytes) (m : Dict V) → lookup j (erase k m) ≡ (if str_eq k j then none else lookup j m)
  unfolding lookup erase
  lookup-erase k j [] = ground arith
  lookup-erase k j ((n, w) ∷ m) =
      ground (arith, lookup-erase k j m, str_eq_iff n k, str_eq_iff n j, str_eq_iff k j)

module _ {ℓ} {V : Type ℓ} where
  pub lookup-map_values {κ} :
      {W : Type κ} (f : V → W) (j : Bytes) (m : Dict V)
      → lookup j (map_values f m) ≡ elim (lookup j m) [ some v ↦ some (f v) | none ↦ none ]
  unfolding lookup map_values
  lookup-map_values f j [] = refl
  lookup-map_values f j ((n, w) ∷ m) = elim (Bool-cases (str_eq n j)) [
    | inl e ↦ rw e refl
    | inr e ↦ rw e (lookup-map_values f j m)
  ]

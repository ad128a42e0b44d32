-- ===== src/Table/Position.antt =====
-- Where a key stands in a vector, and the map from keys to positions that DataTable keeps beside
-- each of its vectors: m_column_index and m_row_index of libexio/Table.cc.
use exio.Prelude.{
  ℕ, zero, suc, ◌+◌, ◌-◌, ◌≡◌, refl, ap, ◌∙◌, false, Option, none, some, List, [], ◌∷◌, ◌++◌, inl,
  inr, if◌then◌else◌, ltb, Bytes, str_eq, str_eq_iff, arith, Bool-cases, length, get_elem?,
}
use exio.Dict.{
  Dict, lookup, insert, erase, map_values, lookup-insert, lookup-erase, lookup-map_values,
}

-- The rebuild of an index: index[ v[c] ] = c for each c, from the position on and over the index.
unfoldable pub rebuild : List Bytes → ℕ → Dict ℕ → Dict ℕ
unfolding insert
rebuild [] c m = m
rebuild (k ∷ ks) c m = rebuild ks (c + 1) (insert k c m)

-- The loop of delete_row: `if (j->second > index) j->second -= 1`
unfoldable pub shift_down : ℕ → ℕ → ℕ
shift_down index i = if ltb index i then i - 1 else i

unfoldable pub erase_index : Bytes → ℕ → Dict ℕ → Dict ℕ
unfolding erase map_values shift_down
erase_index k index m = map_values (shift_down index) (erase k m)

unfoldable pub remove_at {ℓ} : {A : Type ℓ} → ℕ → List A → List A
remove_at i [] = []
remove_at zero (x ∷ xs) = xs
remove_at (suc i) (x ∷ xs) = x ∷ remove_at i xs

-- The first place of a key
unfoldable pub position : Bytes → List Bytes → Option ℕ
position k [] = none
position k (x ∷ xs) =
    if str_eq x k then some 0 else elim (position k xs) [ some i ↦ some (suc i) | none ↦ none ]

abbrev pub NoDup : List Bytes → Type 0
NoDup [] = Unit {0}
NoDup (x ∷ xs) = (position x xs ≡ none) × NoDup xs

-- The invariant of a vector of keys and its index.
pub record IsIndexed (ks : List Bytes) (m : Dict ℕ) : Type 0 where
  pub distinct : NoDup ks
  pub agrees : (k : Bytes) → lookup k m ≡ position k ks

-- The position in the first of two vectors, or else an answer for the second.
abbrev pub at_or : (ℕ → ℕ) → Option ℕ → Option ℕ → Option ℕ
at_or f (some i) o = some (f i)
at_or f none o = o

rebuild_place :
    (x : Bytes) (ks : List Bytes) (c : ℕ) (m : Dict ℕ) (k : Bytes)
    → position x ks ≡ none
    → at_or (λ i. c + 1 + i) (position k ks) (lookup k (insert x c m))
      ≡ at_or (λ i. c + i) (position k (x ∷ ks)) (lookup k m)
unfolding position
rebuild_place x ks c m k d = elim (Bool-cases (str_eq x k)) [
  | inl e ↦ rw (lookup-insert x k c m, e, ← (str_eq_iff x k).0 e, d) (ap some (omega arith))
  | inr e ↦ rw (lookup-insert x k c m, e) (shifted (position k ks))
]
  where
    shifted :
        (o : Option ℕ)
        → at_or (λ i. c + 1 + i) o (lookup k m)
          ≡ at_or (λ i. c + i) (elim o [ some i ↦ some (suc i) | none ↦ none ]) (lookup k m)
    shifted none = refl
    shifted (some i) = ap some (omega arith)

lookup-rebuild :
    (ks : List Bytes) (c : ℕ) (m : Dict ℕ) (k : Bytes)
    → NoDup ks
    → lookup k (rebuild ks c m) ≡ at_or (λ i. c + i) (position k ks) (lookup k m)
unfolding rebuild position
lookup-rebuild [] c m k d = refl
lookup-rebuild (x ∷ ks) c m k d =
    lookup-rebuild ks (c + 1) (insert x c m) k d.1 ∙ rebuild_place x ks c m k d.0

-- A rebuilt index is right if the keys are distinct.
pub rebuild-IsIndexed : (ks : List Bytes) → NoDup ks → IsIndexed ks (rebuild ks 0 [])
unfolding lookup
rebuild-IsIndexed ks d = record {
  distinct = d;
  agrees = λ k. lookup-rebuild ks 0 [] k d ∙ done (position k ks);
}
  where
    done : (o : Option ℕ) → at_or (λ i. 0 + i) o none ≡ o
    done none = refl
    done (some i) = ap some (omega arith)

pub position-append :
    (k n : Bytes) (ks : List Bytes)
    → position k (ks ++ n ∷ [])
      ≡ at_or (λ i. i) (position k ks) (if str_eq n k then some (length ks) else none)
unfolding position
position-append k n [] = ground arith
position-append k n (x ∷ ks) = ground (arith, position-append k n ks)

pub NoDup-append :
    (n : Bytes) (ks : List Bytes) → NoDup ks → position n ks ≡ none → NoDup (ks ++ n ∷ [])
unfolding position
NoDup-append n [] d h = (refl, tt)
NoDup-append n (x ∷ ks) d h =
    let e : str_eq n x ≡ false = ground (arith, str_eq_iff x n, str_eq_iff n x) in
    let miss : position n ks ≡ none = ground arith in
    (rw (position-append x n ks, d.0, e) refl, NoDup-append n ks d.1 miss)

position-remove_at :
    (k j : Bytes) (p : ℕ) (ks : List Bytes)
    → NoDup ks
    → position k ks ≡ some p
    → position j (remove_at p ks) ≡ (
        if str_eq k j
        then none
        else elim (position j ks) [ some i ↦ some (shift_down p i) | none ↦ none ])
unfolding position remove_at shift_down
position-remove_at k j p [] d h = cc
position-remove_at k j zero (x ∷ ks) d h =
    ground (arith, d.0, str_eq_iff x k, str_eq_iff x j, str_eq_iff k j)
position-remove_at k j (suc p) (x ∷ ks) d h =
    ground (arith, position-remove_at k j p ks d.1, str_eq_iff x k, str_eq_iff x j, str_eq_iff k j)

NoDup-remove_at : (p : ℕ) (ks : List Bytes) → NoDup ks → NoDup (remove_at p ks)
unfolding remove_at position
NoDup-remove_at p [] d = tt
NoDup-remove_at zero (x ∷ ks) d = d.1
NoDup-remove_at (suc p) (x ∷ ks) d = (absent x p ks d.0, NoDup-remove_at p ks d.1)
  where
    absent :
        (x : Bytes) (p : ℕ) (ks : List Bytes)
        → position x ks ≡ none
        → position x (remove_at p ks) ≡ none
    absent x p [] h = refl
    absent x zero (y ∷ ks) h = ground arith
    absent x (suc p) (y ∷ ks) h = ground (arith, absent x p ks)

-- The vector without a key, and its index after the loop of delete_row.
pub erase_index-IsIndexed :
    (k : Bytes) (p : ℕ) (ks : List Bytes) (m : Dict ℕ)
    → IsIndexed ks m
    → position k ks ≡ some p
    → IsIndexed (remove_at p ks) (erase_index k p m)
unfolding erase_index
erase_index-IsIndexed k p ks m v h = record {
  distinct = NoDup-remove_at p ks v.distinct;
  agrees = λ j.
      rw
        (
          position-remove_at k j p ks v.distinct h,
          lookup-map_values (shift_down p) j (erase k m),
          lookup-erase k j m,
          v.agrees j,
        )
        (ground arith);
}

-- A key that stands in the vector is found at its position.
pub position-hit :
    (k : Bytes) (ks : List Bytes) (p : ℕ) → position k ks ≡ some p → get_elem? ks p ≡ some k
unfolding position
position-hit k [] p h = cc
position-hit k (x ∷ ks) zero h = ground (arith, str_eq_iff x k)
position-hit k (x ∷ ks) (suc p) h = ground (arith, position-hit k ks p, str_eq_iff x k)

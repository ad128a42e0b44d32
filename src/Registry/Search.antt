-- ===== src/Registry/Search.antt =====
-- The search for a free slot goes round the whole array.
use mathlib.Core.Path.{subst}
use exio.Prelude.{
  ℕ, zero, suc, ◌+◌, ◌-◌, ◌%◌, ◌≤◌, ◌<◌, ◌≡◌, refl, sym, ◌∙◌, true, not, ◌&&◌, Option, none, some,
  List, length, get_elem?, ◌==◌, if◌then◌else◌, arith, Bool-cases, inl, inr, ◌⊎◌,
}
use exio.Error.{Result, ok}
use exio.Registry.{session_reg_size, max_sessions, slot, used, advance, find_slot}
use exio.Registry.Heap.{slot_lt}

-- The place a number of rounds behind `next` is 0 or used.
abbrev pub Passed : List (Option ℕ) → ℕ → Type 0
Passed reg i = (i ≡ 0) ⊎ ((p : ℕ) × (get_elem? reg i ≡ some (some p)))

pub data Search (reg : List (Option ℕ)) (next rounds : ℕ) : ℕ × ℕ → Type 0 where
  found :
      (n i : ℕ)
      → n ≤ max_sessions
      → 0 < i
      → i ≤ max_sessions
      → get_elem? reg i ≡ some none
      → Search reg next rounds (n, i)
  exhausted :
      ((j : ℕ) → j < rounds → Passed reg ((next + j) % session_reg_size))
      → Search reg next rounds ((next + rounds) % session_reg_size, 0)

advance_lem : (next : ℕ) → next ≤ max_sessions → advance next ≡ (next + 1) % session_reg_size
unfolding advance
advance_lem next h = ground arith

advance_le : (next : ℕ) → next ≤ max_sessions → advance next ≤ max_sessions
unfolding advance
advance_le next h = ground arith

one_round :
    (i : ℕ) (reg : List (Option ℕ)) (next : ℕ) (o : Option ℕ)
    → slot next reg ≡ ok o
    → find_slot (suc i) reg next ≡ (
        if not (next == 0) && not (used o)
        then ok (advance next, next)
        else find_slot i reg (advance next))
unfolding find_slot
one_round i reg next o e = rw e refl

pass_on :
    (i : ℕ) (reg : List (Option ℕ)) (next : ℕ) (r : ℕ × ℕ)
    → next ≤ max_sessions
    → Passed reg next
    → Search reg (advance next) i r
    → Search reg next (suc i) r
pass_on i reg next r h p (found n k a b c e) = found n k a b c e
pass_on i reg next r h p (exhausted f) =
    subst (λ n. Search reg next (suc i) (n, 0)) (place next i h) (exhausted (λ j l. further j l))
  where
    place :
        (next i : ℕ)
        → next ≤ max_sessions
        → (next + suc i) % session_reg_size ≡ (advance next + i) % session_reg_size
    place next i h = omega (arith, advance_lem next h)

    further : (j : ℕ) → j < suc i → Passed reg ((next + j) % session_reg_size)
    further zero l = subst (Passed reg) (omega arith) p
    further (suc j) l = subst (Passed reg) (sym (place next j h)) (f j (omega arith))

settle :
    (i : ℕ) (reg : List (Option ℕ)) (next : ℕ) (o : Option ℕ) (r : ℕ × ℕ)
    → next ≤ max_sessions
    → slot next reg ≡ ok o
    → get_elem? reg next ≡ some o
    → find_slot i reg (advance next) ≡ ok r
    → Search reg (advance next) i r
    → (x : ℕ × ℕ) × (find_slot (suc i) reg next ≡ ok x) × Search reg next (suc i) x
settle i reg next (some p) r h e g d s = (
  r,
  one_round i reg next (some p) e ∙ taken next (ok (advance next, next)) d,
  pass_on i reg next r h (inr (p, g)) s,
)
  where
    taken :
        (next : ℕ) (x : Result (ℕ × ℕ)) {y z : Result (ℕ × ℕ)}
        → y ≡ z
        → (if not (next == 0) && not true then x else y) ≡ z
    taken next x e = elim (Bool-cases (next == 0)) [ inl z ↦ rw z e | inr z ↦ rw z e ]
settle i reg next none r h e g d s = elim (Bool-cases (next == 0)) [
  | inl z ↦ (r, one_round i reg next none e ∙ rw z d, pass_on i reg next r h (inl (ground arith)) s)
  | inr z ↦
      let pos : 0 < next = ground arith in
      (
        (advance next, next),
        one_round i reg next none e ∙ rw z refl,
        found (advance next) next (advance_le next h) pos h g,
      )
]

pub find_slot_lem :
    (i : ℕ) (reg : List (Option ℕ)) (next : ℕ)
    → length reg ≡ session_reg_size
    → next ≤ max_sessions
    → (r : ℕ × ℕ) × (find_slot i reg next ≡ ok r) × Search reg next i r
find_slot_lem zero reg next l h = (
  (next, 0),
  (unfold find_slot in refl),
  subst (λ n. Search reg next 0 (n, 0)) (omega arith) (exhausted (λ j m. absurd (omega arith))),
)
find_slot_lem (suc i) reg next l h =
    let (o, e, g) = slot_lt next reg (omega arith) in
    let (r, d, s) = find_slot_lem i reg (advance next) l (advance_le next h) in
    settle i reg next o r h e g d s

-- As many rounds as there are slots: all of them are passed, and `next` is where it was.
pub whole_round :
    (reg : List (Option ℕ)) (next : ℕ)
    → next ≤ max_sessions
    → ((j : ℕ) → j < session_reg_size → Passed reg ((next + j) % session_reg_size))
    → (i : ℕ) → i ≤ max_sessions
    → Passed reg i
whole_round reg next h f i l =
    let j = (i + session_reg_size - next) % session_reg_size in
    let e : (next + j) % session_reg_size ≡ i = omega arith in
    subst (Passed reg) e (f j (omega arith))

-- ===== src/Registry/Heap.antt =====
-- Slots, the heap, and the loops over both.
use exio.Prelude.{
  ℕ, zero, suc, ◌+◌, ◌<◌, ◌≡◌, ◌≢◌, refl, sym, ap, ◌∙◌, Option, none, some, List, [], ◌∷◌, length,
  get_elem?, replicate, ◌==◌, ==_iff, ==_refl, arith, Bool-cases, inl, inr,
}
use exio.Error.{ok}
use exio.Session.{AdminSession}
use exio.Registry.{Heap, set_object, deref, slot, set_slot, at_slot, each, session_count}

module _ {A : Type 0} where
  pub get_elem?-replicate : (n i : ℕ) (a : A) → i < n → get_elem? (replicate n a) i ≡ some a
  get_elem?-replicate zero i a h = absurd (omega arith)
  get_elem?-replicate (suc n) zero a h = refl
  get_elem?-replicate (suc n) (suc i) a h = get_elem?-replicate n i a (omega arith)

  pub get_elem?-length : (xs : List A) (i : ℕ) (a : A) → get_elem? xs i ≡ some a → i < length xs
  get_elem?-length [] i a h = absurd (ground arith)
  get_elem?-length (x ∷ xs) zero a h = omega arith
  get_elem?-length (x ∷ xs) (suc i) a h = omega (arith, get_elem?-length xs i a h)

  pub get_elem?_lt : (xs : List A) (i : ℕ) → i < length xs → (a : A) × (get_elem? xs i ≡ some a)
  get_elem?_lt [] i h = absurd (omega arith)
  get_elem?_lt (x ∷ xs) zero h = (x, refl)
  get_elem?_lt (x ∷ xs) (suc i) h = get_elem?_lt xs i (omega arith)

pub length-set_slot :
    (i : ℕ) (o : Option ℕ) (reg : List (Option ℕ)) → length (set_slot i o reg) ≡ length reg
unfolding set_slot
length-set_slot i o [] = refl
length-set_slot zero o (x ∷ reg) = refl
length-set_slot (suc i) o (x ∷ reg) = ap suc (length-set_slot i o reg)

pub get_elem?-set_slot_self :
    (i : ℕ) (o : Option ℕ) (reg : List (Option ℕ))
    → i < length reg
    → get_elem? (set_slot i o reg) i ≡ some o
unfolding set_slot
get_elem?-set_slot_self i o [] h = absurd (omega arith)
get_elem?-set_slot_self zero o (x ∷ reg) h = refl
get_elem?-set_slot_self (suc i) o (x ∷ reg) h = get_elem?-set_slot_self i o reg (omega arith)

pub get_elem?-set_slot_other :
    (i j : ℕ) (o : Option ℕ) (reg : List (Option ℕ))
    → i ≢ j
    → get_elem? (set_slot i o reg) j ≡ get_elem? reg j
unfolding set_slot
get_elem?-set_slot_other i j o [] h = refl
get_elem?-set_slot_other zero zero o (x ∷ reg) h = absurd (h refl)
get_elem?-set_slot_other zero (suc j) o (x ∷ reg) h = refl
get_elem?-set_slot_other (suc i) zero o (x ∷ reg) h = refl
get_elem?-set_slot_other (suc i) (suc j) o (x ∷ reg) h =
    get_elem?-set_slot_other i j o reg (λ e. h (ap suc e))

pub slot_lt :
    (i : ℕ) (reg : List (Option ℕ))
    → i < length reg
    → (o : Option ℕ) × (slot i reg ≡ ok o) × (get_elem? reg i ≡ some o)
unfolding slot
slot_lt i reg h = let (o, e) = get_elem?_lt reg i h in (o, rw (e, slot) refl, e)

pub set_object_self : (p : ℕ) (o : Option AdminSession) (h : Heap) → set_object p o h p ≡ o
set_object_self p o h = rw (==_refl p) refl

pub set_object_other :
    (p q : ℕ) (o : Option AdminSession) (h : Heap) → p ≢ q → set_object p o h q ≡ h q
set_object_other p q o h n = elim (Bool-cases (p == q)) [
  | inl e ↦ absurd (n ((==_iff p q).0 e))
  | inr e ↦ rw e refl
]

-- What lives at a pointer
abbrev pub Lives : Heap → ℕ → Type 0
Lives h p = (a : AdminSession) × (h p ≡ some a)

-- The same pointers live in both heaps, and their sessions have the same numbers.
pub record SameIds (h k : Heap) : Type 0 where
  pub kept :
      (p : ℕ) (a : AdminSession)
      → h p ≡ some a
      → (b : AdminSession) × (k p ≡ some b) × (b.id ≡ a.id)
  pub gone : (p : ℕ) → h p ≡ none → k p ≡ none

pub SameIds-refl : (h : Heap) → SameIds h h
SameIds-refl h = record { kept = λ p a e. (a, e, refl); gone = λ p e. e }

pub SameIds-trans : {h k l : Heap} → SameIds h k → SameIds k l → SameIds h l
SameIds-trans v w = record {
  kept = λ p a e. let b = v.kept p a e in let c = w.kept p b.0 b.1 in (c.0, c.1, c.2 ∙ b.2);
  gone = λ p e. w.gone p (v.gone p e);
}

pub SameIds-set_object :
    (h : Heap) (p : ℕ) (a b : AdminSession)
    → h p ≡ some a
    → b.id ≡ a.id
    → SameIds h (set_object p (some b) h)
SameIds-set_object h p a b e i = record {
  kept = λ q c f. elim (Bool-cases (p == q)) [
    | inl z ↦
        let s : a ≡ c =
          ap (λ o. elim o [ some x ↦ x | none ↦ a ]) (sym e ∙ ap h ((==_iff p q).0 z) ∙ f) in
        (b, rw z refl, i ∙ ap (λ x. x.id) s)
    | inr z ↦ (c, rw z f, refl)
  ];
  gone = λ q f. elim (Bool-cases (p == q)) [
    | inl z ↦ absurd (ground (arith, sym e ∙ ap h ((==_iff p q).0 z) ∙ f))
    | inr z ↦ rw z f
  ];
}

-- The pointers in the slots live.
abbrev pub AllLive : List (Option ℕ) → Heap → Type 0
AllLive [] h = Unit {0}
AllLive (none ∷ reg) h = AllLive reg h
AllLive (some p ∷ reg) h = Lives h p × AllLive reg h

AllLive-SameIds : {h k : Heap} (reg : List (Option ℕ)) → SameIds h k → AllLive reg h → AllLive reg k
AllLive-SameIds [] v l = tt
AllLive-SameIds (none ∷ reg) v l = AllLive-SameIds reg v l
AllLive-SameIds (some p ∷ reg) v l =
    let b = v.kept p l.0.0 l.0.1 in ((b.0, b.1), AllLive-SameIds reg v l.1)

pub AllLive-slots :
    (reg : List (Option ℕ)) (h : Heap)
    → ((i p : ℕ) → get_elem? reg i ≡ some (some p) → Lives h p)
    → AllLive reg h
AllLive-slots [] h f = tt
AllLive-slots (none ∷ reg) h f = AllLive-slots reg h (λ i p. f (suc i) p)
AllLive-slots (some p ∷ reg) h f = (f 0 p refl, AllLive-slots reg h (λ i q. f (suc i) q))

module _ (f : AdminSession → AdminSession) (same : (a : AdminSession) → (f a).id ≡ a.id) where
  pub at_slot_lem :
      (o : Option ℕ) (h : Heap)
      → AllLive (o ∷ []) h
      → (k : Heap) × (at_slot f o h ≡ ok k) × SameIds h k
  unfolding at_slot deref
  at_slot_lem none h l = (h, refl, SameIds-refl h)
  at_slot_lem (some p) h l =
      let (a, e) = l.0 in
      (set_object p (some (f a)) h, rw (e, deref) refl, SameIds-set_object h p a (f a) e (same a))

  each_step :
      (o : Option ℕ) (reg : List (Option ℕ)) (h k l : Heap)
      → at_slot f o h ≡ ok k
      → each f reg k ≡ ok l
      → each f (o ∷ reg) h ≡ ok l
  unfolding each
  each_step o reg h k l e d = rw e d

  pub each_lem :
      (reg : List (Option ℕ)) (h : Heap)
      → AllLive reg h
      → (k : Heap) × (each f reg h ≡ ok k) × SameIds h k
  each_lem [] h l = (h, unfold each in refl, SameIds-refl h)
  each_lem (o ∷ reg) h l =
      let parts = front o reg h l in
      let (k, e, v) = at_slot_lem o h parts.0 in
      let (m, d, w) = each_lem reg k (AllLive-SameIds reg v parts.1) in
      (m, each_step o reg h k m e d, SameIds-trans v w)
    where
      front :
          (o : Option ℕ) (reg : List (Option ℕ)) (h : Heap)
          → AllLive (o ∷ reg) h
          → AllLive (o ∷ []) h × AllLive reg h
      front none reg h l = (tt, l)
      front (some p) reg h l = ((l.0, tt), l.1)

-- How many slots are used
pub session_count-take :
    (i p : ℕ) (reg : List (Option ℕ))
    → get_elem? reg i ≡ some none
    → session_count (set_slot i (some p) reg) ≡ session_count reg + 1
unfolding session_count set_slot
session_count-take i p [] h = absurd (ground (arith, h))
session_count-take zero p (none ∷ reg) h = omega arith
session_count-take zero p (some q ∷ reg) h = absurd (ground (arith, h))
session_count-take (suc i) p (o ∷ reg) h = omega (arith, session_count-take i p reg h)

pub session_count-free :
    (i p : ℕ) (reg : List (Option ℕ))
    → get_elem? reg i ≡ some (some p)
    → session_count (set_slot i none reg) + 1 ≡ session_count reg
unfolding session_count set_slot
session_count-free i p [] h = absurd (ground (arith, h))
session_count-free zero p (none ∷ reg) h = absurd (ground (arith, h))
session_count-free zero p (some q ∷ reg) h = omega arith
session_count-free (suc i) p (o ∷ reg) h = omega (arith, session_count-free i p reg h)

pub session_count-full :
    (reg : List (Option ℕ))
    → ((i : ℕ) → i < length reg → (p : ℕ) × (get_elem? reg i ≡ some (some p)))
    → session_count reg ≡ length reg
unfolding session_count
session_count-full [] f = refl
session_count-full (none ∷ reg) f = absurd (ground (arith, (f 0 (omega arith)).1))
session_count-full (some q ∷ reg) f =
    omega (arith, session_count-full reg (λ i l. f (suc i) (omega arith)))

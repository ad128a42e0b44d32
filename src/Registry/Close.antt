-- ===== src/Registry/Close.antt =====
-- The end of a session: it leaves its slot, expires, and is deleted once its client is closed.
use exio.Prelude.{
  ℕ, ◌+◌, ◌<◌, ◌≡◌, ◌≢◌, refl, sym, ap, ◌∙◌, Bool, true, false, not, ◌&&◌, Option, none, some, List,
  [], ◌∷◌, ◌++◌, append_assoc, append-nil, length, get_elem?, in_list, in_list-append, ◌==◌,
  if◌then◌else◌, arith, Bool-cases, inl, inr, ==_iff, ==_refl,
}
use exio.Error.{ok}
use exio.Session.{AdminSession, safe_to_delete}
use exio.Registry.{
  Heap, Sessions, set_object, deref, slot, set_slot, session_closed, cleanup_loop, session_cleanup,
  session_count,
}
use exio.Registry.Heap.{
  Lives, get_elem?-length, length-set_slot, get_elem?-set_slot_self, get_elem?-set_slot_other,
  set_object_other, slot_lt, session_count-free,
}
use exio.Registry.Invariant.{Distinct, IsRegistered}

Distinct-append :
    (p : ℕ) (ps : List ℕ) → in_list p ps ≡ false → Distinct ps → Distinct (ps ++ p ∷ [])
Distinct-append p [] h d = (refl, tt)
Distinct-append p (q ∷ ps) h d =
    let n : (p == q) ≡ false = ground arith in
    (in_list-append q p ps ∙ ground (arith, d.0, n), Distinct-append p ps (ground arith) d.1)

-- The registry without the session of slot i
abbrev closed : ℕ → ℕ → Sessions → Sessions
closed i p s = record s { reg = set_slot i none s.reg; expired = s.expired ++ p ∷ [] }

-- Behind the free slot there is only what was there.
left_over :
    (i j q : ℕ) (reg : List (Option ℕ))
    → i < length reg
    → get_elem? (set_slot i none reg) j ≡ some (some q)
    → (i ≢ j) × (get_elem? reg j ≡ some (some q))
left_over i j q reg h e = elim (Bool-cases (i == j)) [
  | inl z ↦
      let z' : i ≡ j = (==_iff i j).0 z in
      absurd (
        ground (
          arith,
          sym (get_elem?-set_slot_self i none reg h) ∙ ap (get_elem? (set_slot i none reg)) z' ∙ e,
        ))
  | inr z ↦
      let n : i ≢ j = λ c. absurd (ground (arith, (==_iff i j).1 c)) in
      (n, sym (get_elem?-set_slot_other i j none reg n) ∙ e)
]

other_place :
    (h : Heap) (p q : ℕ) (a b : AdminSession) {i j : ℕ}
    → i ≢ j
    → h p ≡ some a
    → a.id ≡ i
    → h q ≡ some b
    → b.id ≡ j
    → (p == q) ≡ false
other_place h p q a b n x y z w = elim (Bool-cases (p == q)) [
  | inl e ↦
      let same : a ≡ b =
        ap (λ o. elim o [ some c ↦ c | none ↦ a ]) (sym x ∙ ap h ((==_iff p q).0 e) ∙ z) in
      absurd (n (sym y ∙ ap (λ c. c.id) same ∙ w))
  | inr e ↦ e
]

apart : (p q : ℕ) (ps : List ℕ) → in_list q ps ≡ true → in_list p ps ≡ false → (p == q) ≡ false
apart p q ps f g = elim (Bool-cases (p == q)) [
  | inl e ↦ absurd (ground (arith, sym f ∙ ap (λ x. in_list x ps) (sym ((==_iff p q).0 e)) ∙ g))
  | inr e ↦ e
]

closed-IsRegistered :
    (i p : ℕ) (s : Sessions)
    → get_elem? s.reg i ≡ some (some p)
    → IsRegistered s
    → IsRegistered (closed i p s)
closed-IsRegistered i p s e v =
    let k = v.known i p e in
    let l = get_elem?-length s.reg i (some p) e in
    let nz : i ≢ 0 =
      λ c. absurd (ground (arith, sym v.zero_free ∙ ap (get_elem? s.reg) (sym c) ∙ e)) in
    record {
      sized = length-set_slot i none s.reg ∙ v.sized;
      zero_free = get_elem?-set_slot_other i 0 none s.reg nz ∙ v.zero_free;
      ranged = v.ranged;
      known = λ j q f.
          let (n, g) = left_over i j q s.reg l f in
          let m = v.known j q g in
          (
            m.0,
            m.1,
            m.2,
            in_list-append q p s.expired
                ∙ ground (arith, m.3, other_place s.object p q k.0 m.0 n k.1 k.2 m.1 m.2),
            m.4,
          );
      old = λ q f. elim (Bool-cases (in_list q s.expired)) [
        | inl z ↦ v.old q z
        | inr z ↦
            let w : p ≡ q =
              (==_iff p q).0 (ground (arith, sym (in_list-append q p s.expired) ∙ f, z)) in
            (k.0, ap s.object (sym w) ∙ k.1)
      ];
      once = Distinct-append p s.expired k.3 v.once;
      outer = λ q f.
          let m = v.outer q f in
          (m.0, in_list-append q p s.expired ∙ ground (arith, m.1, apart p q s.ext f k.4));
      unborn = v.unborn;
    }

-- session_closed of the session of a slot, on a right registry, frees that slot, so that one
-- less is used, puts the session among the expired ones, and leaves the registry right.
pub session_closed_lem :
    (i p : ℕ) (s : Sessions)
    → IsRegistered s
    → get_elem? s.reg i ≡ some (some p)
    → (t : Sessions) × (session_closed p s ≡ ok t)
      × IsRegistered t
      × (get_elem? t.reg i ≡ some none)
      × (session_count t.reg + 1 ≡ session_count s.reg)
      × (in_list p t.expired ≡ true)
unfolding session_closed deref
session_closed_lem i p s v e =
    let k = v.known i p e in
    let l = get_elem?-length s.reg i (some p) e in
    let (o, f, g) = slot_lt i s.reg l in
    (
      closed i p s,
      run k.0 k.1 k.2 f,
      closed-IsRegistered i p s e v,
      get_elem?-set_slot_self i none s.reg l,
      session_count-free i p s.reg e,
      in_list-append p p s.expired ∙ ground (arith, ==_refl p),
    )
  where
    run :
        {o : Option ℕ} (a : AdminSession)
        → s.object p ≡ some a
        → a.id ≡ i
        → slot i s.reg ≡ ok o
        → session_closed p s ≡ ok (closed i p s)
    run {o} a x y z =
        let at : slot a.id s.reg ≡ ok o = ap (λ n. slot n s.reg) y ∙ z in
        rw (x, deref, at) (ap (λ n. ok (closed n p s)) y)

-- A session that may go
abbrev pub may_go : Option AdminSession → Bool
may_go none = false
may_go (some a) = safe_to_delete a

abbrev pub staying : Heap → List ℕ → List ℕ
staying h [] = []
staying h (p ∷ ps) = let rest = staying h ps in if may_go (h p) then rest else p ∷ rest

staying_same :
    (h k : Heap) (ps : List ℕ)
    → ((q : ℕ) → in_list q ps ≡ true → h q ≡ k q)
    → staying h ps ≡ staying k ps
staying_same h k [] f = refl
staying_same h k (p ∷ ps) f =
    let e = f p (ground (arith, ==_refl p)) in
    let r = staying_same h k ps (λ q m. f q (ground (arith, m))) in
    ap (λ o. if may_go o then staying h ps else p ∷ staying h ps) e
    ∙ ap (λ l. if may_go (k p) then l else p ∷ l) r

in_list-staying :
    (h : Heap) (q : ℕ) (ps : List ℕ)
    → in_list q (staying h ps) ≡ (in_list q ps && not (may_go (h q)))
in_list-staying h q [] = refl
in_list-staying h q (p ∷ ps) = elim (Bool-cases (p == q)) [
  | inl e ↦
      let same : may_go (h p) ≡ may_go (h q) = ap (λ x. may_go (h x)) ((==_iff p q).0 e) in
      ground (arith, same, in_list-staying h q ps)
  | inr e ↦ ground (arith, in_list-staying h q ps)
]

Distinct-staying : (h : Heap) (ps : List ℕ) → Distinct ps → Distinct (staying h ps)
Distinct-staying h [] d = tt
Distinct-staying h (p ∷ ps) d = ground (arith, Distinct-staying h ps d.1, in_list-staying h p ps)

-- The heap behind the loop over the rest, if the first is deleted, and if not
IsSwept : Heap → List ℕ → Heap → Type 0
IsSwept h ps k = (q : ℕ) → k q ≡ (if in_list q ps && may_go (h q) then none else h q)

IsSwept-deleted :
    (p : ℕ) (ps : List ℕ) (h k : Heap)
    → may_go (h p) ≡ true
    → in_list p ps ≡ false
    → IsSwept (set_object p none h) ps k
    → IsSwept h (p ∷ ps) k
unfolding IsSwept
IsSwept-deleted p ps h k g n f q = elim (Bool-cases (p == q)) [
  | inl e ↦
      let same : may_go (h q) ≡ true = ap (λ x. may_go (h x)) (sym ((==_iff p q).0 e)) ∙ g in
      rw (f q, e, same) (ground arith)
  | inr e ↦ rw (f q, e) refl
]

IsSwept-kept :
    (p : ℕ) (ps : List ℕ) (h k : Heap)
    → may_go (h p) ≡ false
    → IsSwept h ps k
    → IsSwept h (p ∷ ps) k
unfolding IsSwept
IsSwept-kept p ps h k g f q = elim (Bool-cases (p == q)) [
  | inl e ↦
      let same : may_go (h q) ≡ false = ap (λ x. may_go (h x)) (sym ((==_iff p q).0 e)) ∙ g in
      rw (f q, e, same) (ground arith)
  | inr e ↦ rw (f q, e) refl
]

Sweeping : List ℕ → List ℕ → Heap → Type 0
Sweeping ps later h =
    (k : Heap) × (cleanup_loop ps later h ≡ ok (later ++ staying h ps, k)) × IsSwept h ps k

sweep_one :
    (p : ℕ) (ps later : List ℕ) (h : Heap) (a : AdminSession) (b : Bool)
    → h p ≡ some a
    → in_list p ps ≡ false
    → safe_to_delete a ≡ b
    → Sweeping ps later (set_object p none h)
    → Sweeping ps (later ++ p ∷ []) h
    → Sweeping (p ∷ ps) later h
unfolding Sweeping cleanup_loop deref
sweep_one p ps later h a true e n g (k, r, f) w =
    let same = staying_same (set_object p none h) h ps (λ q m.
      set_object_other p q none h
        (λ c. absurd (ground (arith, sym n ∙ ap (λ x. in_list x ps) c ∙ m)))) in
    (
      k,
      rw (e, deref, g) (r ∙ ap (λ l. ok (later ++ l, k)) same),
      IsSwept-deleted p ps h k (ap may_go e ∙ g) n f,
    )
sweep_one p ps later h a false e n g w (k, r, f) = (
  k,
  rw (e, deref, g) (r ∙ ap (λ l. ok (l, k)) (append_assoc later (p ∷ []) (staying h ps))),
  IsSwept-kept p ps h k (ap may_go e ∙ g) f,
)

sweep :
    (ps later : List ℕ) (h : Heap)
    → Distinct ps
    → ((q : ℕ) → in_list q ps ≡ true → Lives h q)
    → Sweeping ps later h
unfolding Sweeping IsSwept cleanup_loop
sweep [] later h d l = (h, ap (λ x. ok (x, h)) (sym (append-nil later)), λ q. refl)
sweep (p ∷ ps) later h d l =
    let (a, e) = l p (ground (arith, ==_refl p)) in
    let behind : (q : ℕ) → in_list q ps ≡ true → Lives (set_object p none h) q = λ q m.
      (let n : p ≢ q = λ c. absurd (ground (arith, sym d.0 ∙ ap (λ x. in_list x ps) c ∙ m)) in
        let b = l q (ground (arith, m)) in (b.0, set_object_other p q none h n ∙ b.1)) in
    sweep_one p ps later h a (safe_to_delete a) e d.0 refl
      (sweep ps later (set_object p none h) d.1 behind)
      (sweep ps (later ++ p ∷ []) h d.1 (λ q m. l q (ground (arith, m))))

-- What lives and is not deleted lives behind the loop.
Lives-IsSwept :
    (h k : Heap) (ps : List ℕ) (q : ℕ)
    → IsSwept h ps k
    → (in_list q ps && may_go (h q)) ≡ false
    → Lives h q
    → Lives k q
unfolding IsSwept
Lives-IsSwept h k ps q f e (a, l) = (a, rw (f q, e) l)

cleanup-IsRegistered :
    (s : Sessions) (k : Heap)
    → IsSwept s.object s.expired k
    → IsRegistered s
    → IsRegistered (record s { expired = staying s.object s.expired; object = k })
cleanup-IsRegistered s k f v = record {
  sized = v.sized;
  zero_free = v.zero_free;
  ranged = v.ranged;
  known = λ i p e.
      let m = v.known i p e in
      (
        m.0,
        rest p m.0 m.3 m.1,
        m.2,
        in_list-staying s.object p s.expired ∙ ground (arith, m.3),
        m.4,
      );
  old = λ p e.
      let both = sym (in_list-staying s.object p s.expired) ∙ e in
      Lives-IsSwept s.object k s.expired p f (ground (arith, both))
        (v.old p (ground (arith, both)));
  once = Distinct-staying s.object s.expired v.once;
  outer = λ p e.
      let m = v.outer p e in
      ((m.0.0, rest p m.0.0 m.1 m.0.1), in_list-staying s.object p s.expired ∙ ground (arith, m.1));
  unborn = λ p l. (unfold IsSwept in rw (f p, v.unborn p l) (ground arith));
}
  where
    rest :
        (p : ℕ) (a : AdminSession)
        → in_list p s.expired ≡ false
        → s.object p ≡ some a
        → k p ≡ some a
    rest p a n e = (unfold IsSwept in rw (f p, n) e)

-- session_cleanup on a right registry deletes exactly the expired sessions that are safe to
-- delete, keeps the others expired in their order, touches no other session, and leaves the
-- registry right.
pub session_cleanup_lem :
    (s : Sessions)
    → IsRegistered s
    → (t : Sessions) × (session_cleanup s ≡ ok t)
      × IsRegistered t
      × (t.expired ≡ staying s.object s.expired)
      × ((q : ℕ)
          → t.object q ≡ (if in_list q s.expired && may_go (s.object q) then none else s.object q))
unfolding session_cleanup Sweeping IsSwept
session_cleanup_lem s v =
    let (k, e, f) = sweep s.expired [] s.object v.once v.old in
    (
      record s { expired = staying s.object s.expired; object = k },
      rw e refl,
      cleanup-IsRegistered s k f v,
      refl,
      f,
    )

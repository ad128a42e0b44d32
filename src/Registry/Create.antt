-- ===== src/Registry/Create.antt =====
-- A new session takes a free slot, if there is one.
use exio.Prelude.{
  ℕ, suc, ◌+◌, ◌%◌, ◌≤◌, ◌<◌, ◌≡◌, ◌≢◌, refl, sym, ap, ◌∙◌, true, false, Option, none, some, List,
  [], ◌∷◌, Bytes, length, get_elem?, in_list, ◌==◌, arith, Bool-cases, inl, inr, ==_iff,
}
use exio.Error.{ok}
use exio.Session.{AdminSession, new_session, io_init}
use exio.Registry.{
  Sessions, session_reg_size, max_sessions, set_object, set_slot, find_slot, welcome, logon,
  create_new_session, session_count,
}
use exio.Registry.Heap.{
  Lives, get_elem?-length, length-set_slot, get_elem?-set_slot_self, get_elem?-set_slot_other,
  set_object_self, set_object_other, session_count-take, session_count-full,
}
use exio.Registry.Search.{Passed, Search, found, exhausted, find_slot_lem, whole_round}
use exio.Registry.Invariant.{IsRegistered, send-id}

welcome-id : (serviceid : Bytes) (index now : ℕ) → (welcome serviceid index now).id ≡ index
unfolding welcome io_init new_session
welcome-id serviceid index now = send-id (logon serviceid) _

-- The registry with a new session in a slot
unfoldable pub taken : Bytes → ℕ → ℕ → ℕ → Sessions → Sessions
taken serviceid now n i s = record s {
  next = n;
  reg = set_slot i (some s.fresh) s.reg;
  created_count = s.created_count + 1;
  object = set_object s.fresh (some (welcome serviceid i now)) s.object;
  fresh = s.fresh + 1;
}

-- What lives is older than what is born next.
pub born : (s : Sessions) (p : ℕ) → IsRegistered s → Lives s.object p → s.fresh ≢ p
born s p v l e = absurd (ground (arith, sym l.1 ∙ v.unborn p (omega (arith, e))))

pub still :
    (s : Sessions) (p : ℕ) (a : AdminSession) (o : Option AdminSession)
    → IsRegistered s
    → s.object p ≡ some a
    → set_object s.fresh o s.object p ≡ some a
still s p a o v e = set_object_other s.fresh p o s.object (born s p v (a, e)) ∙ e

pub new_is_new :
    (s : Sessions) (ps : List ℕ)
    → ((p : ℕ) → in_list p ps ≡ true → s.fresh ≢ p)
    → in_list s.fresh ps ≡ false
new_is_new s ps f = elim (Bool-cases (in_list s.fresh ps)) [
  | inl e ↦ absurd (f s.fresh e refl)
  | inr e ↦ e
]

pub taken-IsRegistered :
    (serviceid : Bytes) (now n i : ℕ) (s : Sessions)
    → n ≤ max_sessions
    → 0 < i
    → i ≤ max_sessions
    → get_elem? s.reg i ≡ some none
    → IsRegistered s
    → IsRegistered (taken serviceid now n i s)
unfolding taken
taken-IsRegistered serviceid now n i s hn pos hi free v = record {
  sized = length-set_slot i (some s.fresh) s.reg ∙ v.sized;
  zero_free =
      get_elem?-set_slot_other i 0 (some s.fresh) s.reg (λ e. absurd (omega (arith, e)))
      ∙ v.zero_free;
  ranged = hn;
  known = λ j p e. elim (Bool-cases (i == j)) [
    | inl z ↦
        let z' : i ≡ j = (==_iff i j).0 z in
        let e' : some (some s.fresh) ≡ some (some p) =
          sym (get_elem?-set_slot_self i (some s.fresh) s.reg (get_elem?-length s.reg i none free))
          ∙ ap (get_elem? (set_slot i (some s.fresh) s.reg)) z'
          ∙ e in
        let q : s.fresh ≡ p = ap (λ o. elim o [ some (some x) ↦ x | _ ↦ p ]) e' in
        (
          welcome serviceid i now,
          ap (set_object s.fresh (some (welcome serviceid i now)) s.object) (sym q)
              ∙ set_object_self s.fresh _ s.object,
          welcome-id serviceid i now ∙ z',
          ap (λ x. in_list x s.expired) (sym q)
              ∙ new_is_new s s.expired (λ x l. born s x v (v.old x l)),
          ap (λ x. in_list x s.ext) (sym q)
              ∙ new_is_new s s.ext (λ x l. born s x v (v.outer x l).0),
        )
    | inr z ↦
        let n : i ≢ j = λ c. absurd (ground (arith, (==_iff i j).1 c)) in
        let k = v.known j p (sym (get_elem?-set_slot_other i j (some s.fresh) s.reg n) ∙ e) in
        (k.0, still s p k.0 _ v k.1, k.2, k.3, k.4)
  ];
  old = λ p e. let l = v.old p e in (l.0, still s p l.0 _ v l.1);
  once = v.once;
  outer = λ p e. let l = v.outer p e in ((l.0.0, still s p l.0.0 _ v l.0.1), l.1);
  unborn = λ p le.
      set_object_other s.fresh p _ s.object (λ e. absurd (omega (arith, e)))
      ∙ v.unborn p (omega arith);
}

-- No slot from 1 on is free.
count_full :
    (reg : List (Option ℕ))
    → length reg ≡ session_reg_size
    → get_elem? reg 0 ≡ some none
    → ((i : ℕ) → i ≤ max_sessions → Passed reg i)
    → session_count reg ≡ max_sessions
unfolding session_count
count_full [] l z f = absurd (ground (arith, z))
count_full (some q ∷ reg) l z f = absurd (ground (arith, z))
count_full (none ∷ reg) l z f =
    omega (arith, session_count-full reg (λ i h. behind i (f (suc i) (omega arith))))
  where
    behind : (i : ℕ) → Passed (none ∷ reg) (suc i) → (p : ℕ) × (get_elem? reg i ≡ some (some p))
    behind i (inl e) = absurd (omega (arith, e))
    behind i (inr k) = k

-- What a call comes to: refused if all slots are used, with nothing changed, or else a slot that was free
abbrev pub CreateEffect : Bytes → ℕ → Sessions → Sessions → Option ℕ → Type 0
CreateEffect serviceid now s t none = (t ≡ s) × (session_count s.reg ≡ max_sessions)
CreateEffect serviceid now s t (some i) =
    (0 < i)
    × (i ≤ max_sessions)
    × (get_elem? s.reg i ≡ some none)
    × (get_elem? t.reg i ≡ some (some s.fresh))
    × (t.object s.fresh ≡ some (welcome serviceid i now))
    × (session_count t.reg ≡ session_count s.reg + 1)
    × (t.created_count ≡ s.created_count + 1)

abbrev Created : Bytes → ℕ → Sessions → Type 0
Created serviceid now s =
    (t : Sessions) × (o : Option ℕ) × (create_new_session serviceid now s ≡ ok (t, o))
    × IsRegistered t
    × CreateEffect serviceid now s t o

create_by :
    (serviceid : Bytes) (now : ℕ) (s : Sessions) (r : ℕ × ℕ)
    → IsRegistered s
    → find_slot session_reg_size s.reg s.next ≡ ok r
    → Search s.reg s.next session_reg_size r
    → Created serviceid now s
unfolding create_new_session taken
create_by serviceid now s r v e (found n i hn pos hi free) =
    let z : (i == 0) ≡ false = ground arith in
    (
      taken serviceid now n i s,
      some i,
      rw (e, z) refl,
      taken-IsRegistered serviceid now n i s hn pos hi free v,
      (
        pos,
        hi,
        free,
        get_elem?-set_slot_self i (some s.fresh) s.reg (get_elem?-length s.reg i none free),
        set_object_self s.fresh _ s.object,
        session_count-take i s.fresh s.reg free,
        refl,
      ),
    )
create_by serviceid now s r v e (exhausted f) =
    let k = v.ranged in
    let back : (s.next + session_reg_size) % session_reg_size ≡ s.next = omega arith in
    (
      s,
      none,
      rw e (ap (λ n. ok (record s { next = n }, none)) back),
      v,
      (refl, count_full s.reg v.sized v.zero_free (whole_round s.reg s.next v.ranged f)),
    )

-- createNewSession on a right registry: it is refused only if all 2000 slots are used, and then
-- nothing has changed; or else a slot from 1 to 2000 that was free now holds the new session
-- with that number as its id, one slot more is used, and the registry is right.
pub create_new_session_lem :
    (serviceid : Bytes) (now : ℕ) (s : Sessions)
    → IsRegistered s
    → (t : Sessions) × (o : Option ℕ) × (create_new_session serviceid now s ≡ ok (t, o))
      × IsRegistered t
      × CreateEffect serviceid now s t o
create_new_session_lem serviceid now s v =
    let (r, e, f) = find_slot_lem session_reg_size s.reg s.next v.sized v.ranged in
    create_by serviceid now s r v e f

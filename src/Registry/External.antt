-- ===== src/Registry/External.antt =====
-- Sessions that the application makes itself, and the round over all sessions in housekeeping.
use exio.Prelude.{
  ℕ, ◌+◌, ◌≡◌, ◌≢◌, refl, sym, ap, ◌∙◌, true, false, some, List, [], ◌∷◌, ◌++◌, in_list,
  in_list-append, arith, Bool-cases, inl, inr, ◌==◌, ==_iff, ==_refl,
}
use exio.Error.{ok}
use exio.Client.Outbound.{new_outbound}
use exio.Session.{AdminSession, io_init, housekeeping}
use exio.Registry.{
  Heap, Sessions, set_object, deref, each_ext, if_open, remove_first, keep_house,
  register_ext_session, deregister_ext_session,
}
use exio.Registry.Heap.{
  Lives, SameIds, SameIds-refl, SameIds-trans, SameIds-set_object, set_object_self,
  set_object_other, each_lem,
}
use exio.Registry.Invariant.{
  IsRegistered, IsRegistered-SameIds, IsRegistered-AllLive, housekeeping-id, if_open-id,
}
use exio.Registry.Create.{born, still, new_is_new}
use exio.Registry.Close.{session_cleanup_lem}

pub in_list-remove_first :
    (p q : ℕ) (ps : List ℕ) → in_list q ps ≡ false → in_list q (remove_first p ps) ≡ false
in_list-remove_first p q [] h = refl
in_list-remove_first p q (x ∷ ps) h = ground (arith, in_list-remove_first p q ps)

still_in : (p q : ℕ) (ps : List ℕ) → in_list q (remove_first p ps) ≡ true → in_list q ps ≡ true
still_in p q ps h = elim (Bool-cases (in_list q ps)) [
  | inl e ↦ e
  | inr e ↦ absurd (ground (arith, sym h ∙ in_list-remove_first p q ps e))
]

pub deregister-IsRegistered :
    (p : ℕ) (s : Sessions) → IsRegistered s → IsRegistered (deregister_ext_session p s)
unfolding deregister_ext_session
deregister-IsRegistered p s v = record {
  sized = v.sized;
  zero_free = v.zero_free;
  ranged = v.ranged;
  known =
      λ i q e. let k = v.known i q e in (k.0, k.1, k.2, k.3, in_list-remove_first p q s.ext k.4);
  old = v.old;
  once = v.once;
  outer = λ q e. v.outer q (still_in p q s.ext e);
  unborn = v.unborn;
}

-- A new object, of the application
abbrev pub allocate : AdminSession → Sessions → Sessions
allocate a s = record s { object = set_object s.fresh (some a) s.object; fresh = s.fresh + 1 }

registered : (a : AdminSession) (s : Sessions) → Sessions
registered a s = record s {
  object =
      set_object s.fresh (some (io_init new_outbound a)) (set_object s.fresh (some a) s.object);
  fresh = s.fresh + 1;
  ext = s.ext ++ s.fresh ∷ [];
}

registered-IsRegistered :
    (a : AdminSession) (s : Sessions) → IsRegistered s → IsRegistered (registered a s)
unfolding registered
registered-IsRegistered a s v = record {
  sized = v.sized;
  zero_free = v.zero_free;
  ranged = v.ranged;
  known = λ i p e.
      let k = v.known i p e in
      (
        k.0,
        twice p k.0 k.1,
        k.2,
        k.3,
        in_list-append p s.fresh s.ext ∙ ground (arith, k.4, other p (k.0, k.1)),
      );
  old = λ p e. let l = v.old p e in (l.0, twice p l.0 l.1);
  once = v.once;
  outer = λ p e. elim (Bool-cases (in_list p s.ext)) [
    | inl z ↦ let l = v.outer p z in ((l.0.0, twice p l.0.0 l.0.1), l.1)
    | inr z ↦
        let w : s.fresh ≡ p =
          (==_iff s.fresh p).0 (ground (arith, sym (in_list-append p s.fresh s.ext) ∙ e, z)) in
        (
          (
            io_init new_outbound a,
            ap (registered a s).object (sym w)
                ∙ set_object_self s.fresh _ (set_object s.fresh (some a) s.object),
          ),
          ap (λ x. in_list x s.expired) (sym w)
              ∙ new_is_new s s.expired (λ x l. born s x v (v.old x l)),
        )
  ];
  unborn = λ p l.
      let n : s.fresh ≢ p = λ e. absurd (omega (arith, e)) in
      set_object_other s.fresh p _ (set_object s.fresh (some a) s.object) n
      ∙ set_object_other s.fresh p (some a) s.object n
      ∙ v.unborn p (omega arith);
}
  where
    twice : (p : ℕ) (b : AdminSession) → s.object p ≡ some b → (registered a s).object p ≡ some b
    twice p b e =
        set_object_other s.fresh p (some (io_init new_outbound a))
          (set_object s.fresh (some a) s.object) (born s p v (b, e))
        ∙ still s p b (some a) v e

    other : (p : ℕ) → Lives s.object p → (s.fresh == p) ≡ false
    other p l = elim (Bool-cases (s.fresh == p)) [
      | inl e ↦ absurd (born s p v l ((==_iff s.fresh p).0 e))
      | inr e ↦ e
    ]

pub register_ext_session_lem :
    (a : AdminSession) (s : Sessions)
    → IsRegistered s
    → (t : Sessions) × (register_ext_session s.fresh (allocate a s) ≡ ok t) × IsRegistered t
unfolding register_ext_session registered deref
register_ext_session_lem a s v = (
  registered a s,
  rw (set_object_self s.fresh (some a) s.object, deref) refl,
  registered-IsRegistered a s v,
)

module _ (f : AdminSession → AdminSession) (same : (a : AdminSession) → (f a).id ≡ a.id) where
  each_ext_step :
      (p : ℕ) (ps : List ℕ) (h k : Heap) (a : AdminSession)
      → h p ≡ some a
      → each_ext f ps (set_object p (some (f a)) h) ≡ ok k
      → each_ext f (p ∷ ps) h ≡ ok k
  unfolding each_ext deref
  each_ext_step p ps h k a e d = rw (e, deref) d

  each_ext_lem :
      (ps : List ℕ) (h : Heap)
      → ((p : ℕ) → in_list p ps ≡ true → Lives h p)
      → (k : Heap) × (each_ext f ps h ≡ ok k) × SameIds h k
  each_ext_lem [] h l = (h, unfold each_ext in refl, SameIds-refl h)
  each_ext_lem (p ∷ ps) h l =
      let (a, e) = l p (ground (arith, ==_refl p)) in
      let v = SameIds-set_object h p a (f a) e (same a) in
      let (k, d, w) =
        each_ext_lem ps (set_object p (some (f a)) h)
          (λ q m. let (b, x) = l q (ground (arith, m)) in let c = v.kept q b x in (c.0, c.1)) in
      (k, each_ext_step p ps h k a e d, SameIds-trans v w)

pub keep_house_lem :
    (now : ℕ) (s : Sessions)
    → IsRegistered s
    → (t : Sessions) × (keep_house now s ≡ ok t) × IsRegistered t
unfolding keep_house
keep_house_lem now s v =
    let (s₁, e₁, v₁, _, _) = session_cleanup_lem s v in
    let (h, e₂, w₂) =
      each_lem (if_open (housekeeping now))
        (λ a. if_open-id (housekeeping now) a (housekeeping-id now a)) s₁.reg s₁.object
        (IsRegistered-AllLive s₁ v₁) in
    let (k, e₃, w₃) =
      each_ext_lem (housekeeping now) (housekeeping-id now) s₁.ext h
        (λ p m. let l = (v₁.outer p m).0 in let b = w₂.kept p l.0 l.1 in (b.0, b.1)) in
    (
      record s₁ { object = k },
      rw (e₁, e₂, e₃) refl,
      IsRegistered-SameIds s₁ k (SameIds-trans w₂ w₃) v₁,
    )

-- ===== src/Registry/Invariant.antt =====
-- The invariant of the registry, and the operations that change sessions in place.
use exio.Prelude.{
  ℕ, ◌≤◌, ◌<◌, ◌≡◌, refl, sym, ◌∙◌, Bool, true, false, not, Option, none, some, List, [], ◌∷◌,
  length, length-replicate, get_elem?, replicate, in_list, take, arith, if◌then◌else◌, Bool-cases,
  inl, inr,
}
use exio.Error.{Result, ok, err}
use exio.SamBuffer.Defs.{DynamicSamBuffer, new_buffer, contents}
use exio.Sam.Encode.{encode_msg}
use exio.Sam.Container.{TxMessage}
use exio.Session.{AdminSession, enqueue_to_send, queue_bytes, close, housekeeping, heartbeat}
use exio.Registry.{Heap, Sessions, new_sessions, session_reg_size, max_sessions, if_open, send}
use exio.Registry.Heap.{
  Lives, SameIds, AllLive, AllLive-slots, get_elem?-replicate, get_elem?-length,
}

abbrev pub Distinct : List ℕ → Type 0
Distinct [] = Unit {0}
Distinct (p ∷ ps) = (in_list p ps ≡ false) × Distinct ps

-- A used slot holds a session that lives, whose id is the number of the slot, and which is neither
-- expired nor external; slot 0 is never used. The expired and the external sessions live, each
-- expired one is there once, and no external one is expired.
pub record IsRegistered (s : Sessions) : Type 0 where
  pub sized : length s.reg ≡ session_reg_size
  pub zero_free : get_elem? s.reg 0 ≡ some none
  pub ranged : s.next ≤ max_sessions
  pub known :
      (i p : ℕ)
      → get_elem? s.reg i ≡ some (some p)
      → (a : AdminSession) × (s.object p ≡ some a)
        × (a.id ≡ i)
        × (in_list p s.expired ≡ false)
        × (in_list p s.ext ≡ false)
  pub old : (p : ℕ) → in_list p s.expired ≡ true → Lives s.object p
  pub once : Distinct s.expired
  pub outer : (p : ℕ) → in_list p s.ext ≡ true → Lives s.object p × (in_list p s.expired ≡ false)
  pub unborn : (p : ℕ) → s.fresh ≤ p → s.object p ≡ none

no_slot :
    (i p : ℕ) → get_elem? (replicate session_reg_size none) i ≡ some (some p) → i < session_reg_size
no_slot i p h = omega (
  arith,
  get_elem?-length (replicate session_reg_size none) i (some p) h,
  length-replicate {A = Option ℕ} session_reg_size none,
)

pub new_sessions-IsRegistered : IsRegistered new_sessions
unfolding new_sessions
new_sessions-IsRegistered = record {
  sized = length-replicate {A = Option ℕ} session_reg_size none;
  zero_free = refl;
  ranged = omega arith;
  known = λ i p h.
      absurd (free p (sym (get_elem?-replicate session_reg_size i none (no_slot i p h)) ∙ h));
  old = λ p h. absurd (ground (arith, h));
  once = tt;
  outer = λ p h. absurd (ground (arith, h));
  unborn = λ p h. refl;
}
  where
    free : (p : ℕ) → ◌≡◌ {A = Option (Option ℕ)} (some none) (some (some p)) → ⊥
    free p e = ground (arith, e)

pub IsRegistered-AllLive : (s : Sessions) → IsRegistered s → AllLive s.reg s.object
IsRegistered-AllLive s v =
    AllLive-slots s.reg s.object (λ i p e. let k = v.known i p e in (k.0, k.1))

-- A heap in which the same sessions live
pub IsRegistered-SameIds :
    (s : Sessions) (h : Heap)
    → SameIds s.object h
    → IsRegistered s
    → IsRegistered (record s { object = h })
IsRegistered-SameIds s h w v = record {
  sized = v.sized;
  zero_free = v.zero_free;
  ranged = v.ranged;
  known =
      λ i p e. let k = v.known i p e in let b = w.kept p k.0 k.1 in (b.0, b.1, b.2 ∙ k.2, k.3, k.4);
  old = λ p e. let l = v.old p e in let b = w.kept p l.0 l.1 in (b.0, b.1);
  once = v.once;
  outer = λ p e. let l = v.outer p e in let b = w.kept p l.0.0 l.0.1 in ((b.0, b.1), l.1);
  unborn = λ p e. w.gone p (v.unborn p e);
}

-- Operations on a session keep its number.
queue_bytes-id : (bytes : List ℕ) (a : AdminSession) → (queue_bytes bytes a).1.id ≡ a.id
unfolding queue_bytes
queue_bytes-id bytes a = ground arith

encoded-id :
    (r : Result (DynamicSamBuffer × ℕ)) (a : AdminSession)
    → (elim r as (λ _. Bool × AdminSession) [
      | err e ↦ (true, a)
      | ok (sb, size) ↦ queue_bytes (take size (contents sb)) a
    ]).1.id
      ≡ a.id
encoded-id (err e) a = refl
encoded-id (ok (sb, size)) a = queue_bytes-id (take size (contents sb)) a

pub send-id : (msg : TxMessage) (a : AdminSession) → (send msg a).id ≡ a.id
unfolding enqueue_to_send
send-id msg a =
    either_id (not a.session_valid) (true, a) _ refl
      (encoded-id (encode_msg msg (new_buffer 512)) a)
  where
    either_id :
        (b : Bool) (x y : Bool × AdminSession) {n : ℕ}
        → x.1.id ≡ n
        → y.1.id ≡ n
        → (if b then x else y).1.id ≡ n
    either_id true x y h k = h
    either_id false x y h k = k

pub close-id : (a : AdminSession) → (close a).id ≡ a.id
unfolding close
close-id a = ground arith

pub housekeeping-id : (now : ℕ) (a : AdminSession) → (housekeeping now a).id ≡ a.id
unfolding housekeeping
housekeeping-id now a = ground (arith, send-id heartbeat a)

pub if_open-id :
    (f : AdminSession → AdminSession) (a : AdminSession) → (f a).id ≡ a.id → (if_open f a).id ≡ a.id
if_open-id f a h = elim (Bool-cases a.session_valid) [ inl e ↦ simp e h | inr e ↦ simp e refl ]

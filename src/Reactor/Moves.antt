-- ===== src/Reactor/Moves.antt =====
-- Where clients are held when one of them, or a worker, is changed.
use exio.Prelude.{
  in_list, ℕ, suc, ◌+◌, ◌≡◌, refl, ap, ◌∙◌, false, Option, none, some, List, [], ◌∷◌, ◌++◌, ◌==◌,
  ==_iff, arith, Bool-cases, inl, inr,
}
use exio.Reactor.{
  RunState, state_n, state_q, state_r, ReactorClient, Worker, waiting, popped, exited, System,
  set_client, push,
}
use exio.Reactor.Counts.{
  one_if, holds_popped, holds_working, total, queued-append, total-append, waits, runs, Placed,
  IsScheduled,
}

-- A change of a client that keeps its run state, and nothing else
pub touch-IsScheduled :
    (s : System) (p : ℕ) (c : ReactorClient)
    → c.runstate ≡ (s.client p).runstate
    → IsScheduled s
    → IsScheduled (record s { client = set_client s.client p c })
touch-IsScheduled s p c e v = record {
  placed = λ q. elim (Bool-cases (p == q)) [
    | inl h ↦ rw (h, e, (==_iff p q).0 h) (v.placed q)
    | inr h ↦ rw h (v.placed q)
  ];
  alive = λ q n. elim (Bool-cases (p == q)) [
    | inl h ↦ rw (h, e, (==_iff p q).0 h) (v.alive q n)
    | inr h ↦ rw h (v.alive q n)
  ];
}

-- All clients are held where they were.
pub same-IsScheduled :
    (s t : System)
    → t.client ≡ s.client
    → t.clients ≡ s.clients
    → ((q : ℕ) → (waits q t ≡ waits q s) × (runs q t ≡ runs q s))
    → IsScheduled s
    → IsScheduled t
same-IsScheduled s t e l h v = record {
  placed = λ q. rw (e, (h q).0, (h q).1) (v.placed q);
  alive = λ q n. rw e (v.alive q (rw⁻¹ l n));
}

-- One client moves on, and the others stay.
pub move-IsScheduled :
    (s t : System) (p : ℕ) (c : ReactorClient)
    → t.client ≡ set_client s.client p c
    → t.clients ≡ s.clients
    → ((q : ℕ) → (p == q) ≡ false → (waits q t ≡ waits q s) × (runs q t ≡ runs q s))
    → Placed c.runstate (waits p t) (runs p t)
    → (in_list p s.clients ≡ false → c.runstate ≡ state_n)
    → IsScheduled s
    → IsScheduled t
move-IsScheduled s t p c e l h k n v = record {
  placed = λ q. elim (Bool-cases (p == q)) [
    | inl z ↦ let z' : p ≡ q = (==_iff p q).0 z in rw (e, z) (rw⁻¹ z' k)
    | inr z ↦ rw (e, z, (h q z).0, (h q z).1) (v.placed q)
  ];
  alive = λ q m. elim (Bool-cases (p == q)) [
    | inl z ↦
        let z' : p ≡ q = (==_iff p q).0 z in
        rw (e, z) (n (ap (λ x. in_list x s.clients) z' ∙ (rw⁻¹ l m)))
    | inr z ↦ rw (e, z) (v.alive q (rw⁻¹ l m))
  ];
}

-- The run state of a client that is held is told by where it is.
pub waits-state_q :
    (r : RunState) (w n : ℕ) → Placed r (suc w) n → (r ≡ state_q) × (w ≡ 0) × (n ≡ 0)
waits-state_q state_n w n k = absurd (omega (arith, k.0))
waits-state_q state_q w n k = (refl, omega (arith, k.0), k.1)
waits-state_q state_r w n k = absurd (omega (arith, k.0))

pub runs-state_r : (r : RunState) (w n : ℕ) → Placed r w (suc n) → (r ≡ state_r) × (w ≡ 0) × (n ≡ 0)
runs-state_r state_n w n k = absurd (omega (arith, k.1))
runs-state_r state_q w n k = absurd (omega (arith, k.1))
runs-state_r state_r w n k = (refl, k.0, omega (arith, k.1))

pub pushed-IsScheduled :
    (s : System) (p : ℕ) → s.hand ≡ some p → IsScheduled s → IsScheduled (push p s)
unfolding push
pushed-IsScheduled s p e v =
    same-IsScheduled s (push p s) refl refl
      (λ q. (rw e (omega (arith, queued-append q s.runq (some p ∷ []))), refl)) v

pub pop-IsScheduled :
    (s : System) (p : ℕ) (rest : List (Option ℕ)) (before after : List Worker)
    → s.runq ≡ some p ∷ rest
    → s.workers ≡ before ++ waiting ∷ after
    → IsScheduled s
    → IsScheduled (record s { runq = rest; workers = before ++ popped p ∷ after })
pop-IsScheduled s p rest before after e f v =
    same-IsScheduled s (record s { runq = rest; workers = before ++ popped p ∷ after }) refl refl
      (λ q. (
        rw (e, f)
            (omega (
              arith,
              total-append (holds_popped q) before (popped p ∷ after),
              total-append (holds_popped q) before (waiting ∷ after),
            )),
        rw f (
            omega (
              arith,
              total-append (holds_working q) before (popped p ∷ after),
              total-append (holds_working q) before (waiting ∷ after),
            )),
      ))
      v

pub leave-IsScheduled :
    (s : System) (before after : List Worker)
    → s.workers ≡ before ++ waiting ∷ after
    → IsScheduled s
    → IsScheduled (record s { workers = before ++ exited ∷ after })
leave-IsScheduled s before after f v =
    same-IsScheduled s (record s { workers = before ++ exited ∷ after }) refl refl
      (λ q. (
        rw f (
            omega (
              arith,
              total-append (holds_popped q) before (exited ∷ after),
              total-append (holds_popped q) before (waiting ∷ after),
            )),
        rw f (
            omega (
              arith,
              total-append (holds_working q) before (exited ∷ after),
              total-append (holds_working q) before (waiting ∷ after),
            )),
      ))
      v

pub terminate-IsScheduled :
    (s : System) → IsScheduled s → IsScheduled (record s { runq = s.runq ++ none ∷ [] })
terminate-IsScheduled s v =
    same-IsScheduled s (record s { runq = s.runq ++ none ∷ [] }) refl refl
      (λ q. (omega (arith, queued-append q s.runq (none ∷ [])), refl)) v

-- What the workers hold of a client, one of them apart
module _ (s : System) (p : ℕ) (w x : Worker) (before after : List Worker)
    (f : s.workers ≡ before ++ w ∷ after) where
  abbrev pub rest_popped : ℕ → ℕ
  rest_popped q = total (holds_popped q) before + total (holds_popped q) after

  abbrev pub rest_working : ℕ → ℕ
  rest_working q = total (holds_working q) before + total (holds_working q) after

  abbrev pub replaced : List Worker
  replaced = before ++ x ∷ after

  pub popped-before : (q : ℕ) → total (holds_popped q) s.workers ≡ holds_popped q w + rest_popped q
  popped-before q = rw f (omega (arith, total-append (holds_popped q) before (w ∷ after)))

  pub popped-after : (q : ℕ) → total (holds_popped q) replaced ≡ holds_popped q x + rest_popped q
  popped-after q = omega (arith, total-append (holds_popped q) before (x ∷ after))

  pub working-before :
      (q : ℕ) → total (holds_working q) s.workers ≡ holds_working q w + rest_working q
  working-before q = rw f (omega (arith, total-append (holds_working q) before (w ∷ after)))

  pub working-after :
      (q : ℕ) → total (holds_working q) replaced ≡ holds_working q x + rest_working q
  working-after q = omega (arith, total-append (holds_working q) before (x ∷ after))

pub one_self : (p : ℕ) → one_if (p == p) ≡ 1
one_self p = ground arith

pub popped_other : (p q : ℕ) → (p == q) ≡ false → one_if (p == q) ≡ 0
popped_other p q e = rw e refl

-- ===== src/Reactor/Exclusive.antt =====
-- No client is in the hands of two threads, and none is used behind its deletion.
use mathlib.Core.Path.{subst}
use exio.Prelude.{
  in_list, ℕ, zero, suc, ◌+◌, ◌≤◌, ◌<◌, ◌≡◌, refl, ap, false, none, some, List, [], ◌∷◌, arith,
  get_elem?, replicate,
}
use exio.Reactor.{RunState, state_n, state_q, state_r, new_client, Worker, waiting, System}
use exio.Reactor.Steps.{Reach}
use exio.Reactor.Counts.{
  queued, holds_popped, holds_working, total, waits, runs, Placed, IsScheduled,
}
use exio.Reactor.Safety.{Reach-IsScheduled}

-- The reactor with its workers before any client is added
unfoldable pub new_system : ℕ → System
new_system n = record {
  client = λ p. new_client;
  clients = [];
  destroying = [];
  runq = [];
  workers = replicate n waiting;
  hand = none;
}

idle_workers : (f : Worker → ℕ) (n : ℕ) → f waiting ≡ 0 → total f (replicate n waiting) ≡ 0
idle_workers f zero h = refl
idle_workers f (suc n) h = omega (arith, h, idle_workers f n h)

pub new_system-IsScheduled : (n : ℕ) → IsScheduled (new_system n)
unfolding new_system
new_system-IsScheduled n = record {
  placed = λ p.
      (omega (arith, idle_workers (holds_popped p) n refl), idle_workers (holds_working p) n refl);
  alive = λ p h. refl;
}

-- A worker holds a client, popped or worked on.
abbrev pub held : ℕ → Worker → ℕ
held p w = holds_popped p w + holds_working p w

total-held :
    (p : ℕ) (ws : List Worker)
    → total (held p) ws ≡ total (holds_popped p) ws + total (holds_working p) ws
total-held p [] = omega arith
total-held p (w ∷ ws) = omega (arith, total-held p ws)

at_most_one : (r : RunState) (w n : ℕ) → Placed r w n → w + n ≤ 1
at_most_one state_n w n k = omega (arith, k.0, k.1)
at_most_one state_q w n k = omega (arith, k.0, k.1)
at_most_one state_r w n k = omega (arith, k.0, k.1)

held-total :
    (p : ℕ) (ws : List Worker) (i : ℕ) (w : Worker)
    → get_elem? ws i ≡ some w
    → held p w ≤ total (held p) ws
held-total p [] i w h = absurd (ground arith)
held-total p (x ∷ ws) zero w h = let e : x ≡ w = cc in rw⁻¹ e (omega arith)
held-total p (x ∷ ws) (suc i) w h = omega (arith, held-total p ws i w h)

same_place :
    (p : ℕ) (ws : List Worker) (i j : ℕ) (w x : Worker)
    → total (held p) ws ≤ 1
    → get_elem? ws i ≡ some w
    → get_elem? ws j ≡ some x
    → 0 < held p w
    → 0 < held p x
    → i ≡ j
same_place p [] i j w x l h k a b = absurd (ground arith)
same_place p (y ∷ ws) zero zero w x l h k a b = refl
same_place p (y ∷ ws) zero (suc j) w x l h k a b =
    let e : y ≡ w = cc in absurd (omega (arith, held-total p ws j x k, ap (held p) e))
same_place p (y ∷ ws) (suc i) zero w x l h k a b =
    let e : y ≡ x = cc in absurd (omega (arith, held-total p ws i w h, ap (held p) e))
same_place p (y ∷ ws) (suc i) (suc j) w x l h k a b =
    ap suc (same_place p ws i j w x (omega arith) h k a b)

-- Along every interleaving of the reactor's thread, its workers and the application, from a
-- reactor with any number of workers and no clients: two workers that both hold a client are one
-- worker, and that client is not on the queue.
pub worker_lem :
    (n : ℕ) (s : System) (p i j : ℕ) (w x : Worker)
    → Reach (new_system n) s
    → get_elem? s.workers i ≡ some w
    → get_elem? s.workers j ≡ some x
    → 0 < held p w
    → 0 < held p x
    → (i ≡ j) × (queued p s.runq ≡ 0)
worker_lem n s p i j w x r h k a b =
    let v = Reach-IsScheduled (new_system-IsScheduled n) r in
    let l = at_most_one (s.client p).runstate (waits p s) (runs p s) (v.placed p) in
    (
      same_place p s.workers i j w x (omega (arith, total-held p s.workers)) h k a b,
      omega (arith, total-held p s.workers, held-total p s.workers i w h),
    )

-- Along every interleaving from a reactor with no clients: a client that is not among the
-- reactor's clients, because it was never added or is deleted, is neither on the queue nor held
-- by the reactor's thread or by a worker.
pub deleted_lem :
    (n : ℕ) (s : System) (p : ℕ)
    → Reach (new_system n) s
    → in_list p s.clients ≡ false
    → (waits p s ≡ 0) × (runs p s ≡ 0)
deleted_lem n s p r h =
    let v = Reach-IsScheduled (new_system-IsScheduled n) r in
    subst (λ x. Placed x (waits p s) (runs p s)) (v.alive p h) (v.placed p)

-- ===== src/Reactor/Counts.antt =====
-- The places at which a client is held: the reactor's hand, the queue, and the workers.
use exio.Prelude.{
  in_list, ℕ, ◌+◌, ◌≡◌, Bool, false, Option, none, some, List, [], ◌∷◌, ◌++◌, ◌==◌, if◌then◌else◌,
  arith,
}
use exio.Reactor.{RunState, state_n, state_q, state_r, Worker, popped, working, System}

abbrev pub one_if : Bool → ℕ
one_if b = if b then 1 else 0

abbrev pub holds : ℕ → Option ℕ → ℕ
holds p none = 0
holds p (some q) = one_if (q == p)

abbrev pub queued : ℕ → List (Option ℕ) → ℕ
queued p [] = 0
queued p (o ∷ os) = holds p o + queued p os

abbrev pub holds_popped : ℕ → Worker → ℕ
holds_popped p (popped q) = one_if (q == p)
holds_popped p _ = 0

abbrev pub holds_working : ℕ → Worker → ℕ
holds_working p (working q) = one_if (q == p)
holds_working p _ = 0

abbrev pub total : (Worker → ℕ) → List Worker → ℕ
total f [] = 0
total f (w ∷ ws) = f w + total f ws

pub queued-append :
    (p : ℕ) (xs ys : List (Option ℕ)) → queued p (xs ++ ys) ≡ queued p xs + queued p ys
queued-append p [] ys = omega arith
queued-append p (x ∷ xs) ys = omega (arith, queued-append p xs ys)

pub total-append :
    (f : Worker → ℕ) (xs ys : List Worker) → total f (xs ++ ys) ≡ total f xs + total f ys
total-append f [] ys = omega arith
total-append f (x ∷ xs) ys = omega (arith, total-append f xs ys)

-- Behind the scan and in front of do_work, and in the loop over do_work
abbrev pub waits : ℕ → System → ℕ
waits p s = holds p s.hand + queued p s.runq + total (holds_popped p) s.workers

abbrev pub runs : ℕ → System → ℕ
runs p s = total (holds_working p) s.workers

-- Where a client is held in each run state: nowhere, once on its way to a worker, once by a worker
abbrev pub Placed : RunState → ℕ → ℕ → Type 0
Placed state_n w r = (w ≡ 0) × (r ≡ 0)
Placed state_q w r = (w ≡ 1) × (r ≡ 0)
Placed state_r w r = (w ≡ 0) × (r ≡ 1)

-- The invariant of the scheduling: every client is held as its run state says, and one that is not
-- among the reactor's clients has state 'N'.
pub record IsScheduled (s : System) : Type 0 where
  pub placed : (p : ℕ) → Placed (s.client p).runstate (waits p s) (runs p s)
  pub alive : (p : ℕ) → in_list p s.clients ≡ false → (s.client p).runstate ≡ state_n

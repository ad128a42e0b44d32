-- ===== src/Reactor.antt =====
-- The scheduling of clients by the reactor: the run states of ReactorClient in libexio/Client.cc, and
-- the loops of the reactor's thread and of its workers in libexio/Reactor.cc. A client is known by a
-- number, its pointer. Each function runs under one lock, so that calls of it are steps.
pub mod Steps
pub mod Counts
pub mod Moves
pub mod Safety
pub mod Exclusive
pub mod Service
pub mod Progress
mod Tests
use exio.Prelude.{
  in_list, ℕ, zero, suc, ◌+◌, Bool, true, false, not, ◌&&◌, ◌||◌, Option, none, some, List, [], ◌∷◌,
  ◌++◌, ◌==◌, if◌then◌else◌,
}

-- m_runstate: 'N', no work; 'Q', queued for the workers; 'R', running
pub data RunState : Type 0 where
  state_n state_q state_r : RunState

abbrev pub is_n : RunState → Bool
is_n state_n = true
is_n _ = false

abbrev pub is_r : RunState → Bool
is_r state_r = true
is_r _ = false

-- The members of a client that the reactor's scheduling sees: `itemcount` of m_datafifo, m_io_closed,
-- the bit eWantDelete of m_attn_flags, and m_runstate.
pub record ReactorClient : Type 0 where
  pub itemcount : ℕ
  pub io_closed : Bool
  pub want_delete : Bool
  pub runstate : RunState

-- ReactorClient(reactor, fd)
abbrev pub new_client : ReactorClient
new_client = record { itemcount = 0; io_closed = false; want_delete = false; runstate = state_n }

-- Client::has_work()
unfoldable pub has_work : ReactorClient → Bool
has_work c = not (c.itemcount == 0)

-- set_run_state()
unfoldable pub set_run_state : ReactorClient → ReactorClient
set_run_state c = record c { runstate = state_r }

-- update_run_state_for_reactor(oldstate, newstate): the client, whose states before and after are those
unfoldable pub update_run_state_for_reactor : ReactorClient → ReactorClient
update_run_state_for_reactor c =
    if has_work c && is_n c.runstate then record c { runstate = state_q } else c

-- update_run_state_for_worker(oldstate, newstate)
unfoldable pub update_run_state_for_worker : ReactorClient → ReactorClient
update_run_state_for_worker c = if not (has_work c) then record c { runstate = state_n } else c

-- handle_close() of an open client: the sentinel is put into the queue of chunks
unfoldable pub handle_close : ReactorClient → ReactorClient
handle_close c =
    if c.io_closed then c else record c { io_closed = true; itemcount = c.itemcount + 1 }

-- Where a worker is in worker_TEP_impl: in front of the queue, behind pop_front, in the loop over
-- do_work, or behind `return true`.
pub data Worker : Type 0 where
  waiting : Worker
  popped : ℕ → Worker
  working : ℕ → Worker
  exited : Worker

-- The clients by their pointers, m_clients, m_destroying, m_runq.items, in which `none` is NULL, the
-- workers, and the client that the reactor's thread has found with work and not yet put on the queue.
pub record System : Type 0 where
  pub client : ℕ → ReactorClient
  pub clients : List ℕ
  pub destroying : List ℕ
  pub runq : List (Option ℕ)
  pub workers : List Worker
  pub hand : Option ℕ

abbrev pub set_client : (ℕ → ReactorClient) → ℕ → ReactorClient → ℕ → ReactorClient
set_client f p c q = if p == q then c else f q

abbrev pub erase : ℕ → List ℕ → List ℕ
erase p [] = []
erase p (q ∷ qs) = let rest = erase p qs in if q == p then rest else q ∷ rest

-- The body of the search for clients with work, up to the lock of m_runq
unfoldable pub scan : ℕ → System → System
scan p s =
    let old = s.client p in
    let new = update_run_state_for_reactor old in
    record s {
      client = set_client s.client p new;
      hand = if is_n old.runstate && not (is_n new.runstate) then some p else s.hand;
    }

-- m_runq.items.push_back(client)
unfoldable pub push : ℕ → System → System
push p s = record s { runq = s.runq ++ some p ∷ []; hand = none }

-- The test behind do_work: the worker leaves its loop if the new state is not 'R'.
unfoldable pub check : ℕ → List Worker → List Worker → System → System
check p before after s =
    let new = update_run_state_for_worker (s.client p) in
    record s {
      client = set_client s.client p new;
      workers = before ++ (if is_r new.runstate then working p else waiting) ∷ after;
    }

-- attend_clients()
unfoldable pub attend : (ℕ → ReactorClient) → List ℕ → List ℕ → List ℕ
attend f [] ds = ds
attend f (p ∷ ps) ds = attend f ps (if (f p).want_delete && not (in_list p ds) then p ∷ ds else ds)

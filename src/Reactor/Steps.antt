-- ===== src/Reactor/Steps.antt =====
-- The interleavings of the reactor's thread, its workers and the application, as a step relation.
use exio.Prelude.{in_list, ℕ, ◌+◌, ◌≤◌, ◌≡◌, true, false, Option, none, some, List, [], ◌∷◌, ◌++◌}
use exio.Reactor.{
  state_n, new_client, set_run_state, handle_close, Worker, waiting, popped, working, exited,
  System, set_client, erase, scan, push, check, attend,
}

-- The reactor's thread acts on clients only with an empty hand. A run of do_work may leave chunks: it
-- can be left by an exception, and chunks can arrive before its end. Arrivals behind it are steps of
-- their own.
pub data Step (s : System) (t : System) : Type 0 where
  -- handle_input() puts a chunk into the queue of a client.
  arrive :
      (p : ℕ)
      → s.hand ≡ none
      → in_list p s.clients ≡ true
      → (s.client p).io_closed ≡ false
      → t ≡ record s {
        client =
            set_client s.client p (record (s.client p) { itemcount = (s.client p).itemcount + 1 });
      }
      → Step s t
  -- The close of a client, by an event or by destroy_cycle
  close :
      (p : ℕ)
      → s.hand ≡ none
      → in_list p s.clients ≡ true
      → t ≡ record s { client = set_client s.client p (handle_close (s.client p)) }
      → Step s t
  scanned : (p : ℕ) → s.hand ≡ none → in_list p s.clients ≡ true → t ≡ scan p s → Step s t
  pushed : (p : ℕ) → s.hand ≡ some p → t ≡ push p s → Step s t
  -- A worker takes the front of the queue.
  pop :
      (p : ℕ) (rest : List (Option ℕ)) (before after : List Worker)
      → s.runq ≡ some p ∷ rest
      → s.workers ≡ before ++ waiting ∷ after
      → t ≡ record s { runq = rest; workers = before ++ popped p ∷ after }
      → Step s t
  -- At NULL it leaves, and leaves NULL there for the others.
  leave :
      (rest : List (Option ℕ)) (before after : List Worker)
      → s.runq ≡ none ∷ rest
      → s.workers ≡ before ++ waiting ∷ after
      → t ≡ record s { workers = before ++ exited ∷ after }
      → Step s t
  run :
      (p : ℕ) (before after : List Worker)
      → s.workers ≡ before ++ popped p ∷ after
      → t ≡ record s {
        client = set_client s.client p (set_run_state (s.client p));
        workers = before ++ working p ∷ after;
      }
      → Step s t
  do_work :
      (p left : ℕ) (before after : List Worker)
      → s.workers ≡ before ++ working p ∷ after
      → left ≤ (s.client p).itemcount
      → t ≡ record s { client = set_client s.client p (record (s.client p) { itemcount = left }) }
      → Step s t
  checked :
      (p : ℕ) (before after : List Worker)
      → s.workers ≡ before ++ working p ∷ after
      → t ≡ check p before after s
      → Step s t
  -- release() by the application
  release :
      (p : ℕ)
      → in_list p s.clients ≡ true
      → t ≡ record s { client = set_client s.client p (record (s.client p) { want_delete = true }) }
      → Step s t
  -- handle_reactor_msg: eAdd with a new client, eAttn
  add :
      (p : ℕ)
      → s.hand ≡ none
      → in_list p s.clients ≡ false
      → t ≡ record s { client = set_client s.client p new_client; clients = s.clients ++ p ∷ [] }
      → Step s t
  attended :
      s.hand ≡ none
      → t ≡ record s { destroying = attend s.client s.clients s.destroying }
      → Step s t
  -- The end of the destruction cycle: destroy_cycle says that the client is closed, and its state is 'N'.
  destroy :
      (p : ℕ)
      → s.hand ≡ none
      → in_list p s.destroying ≡ true
      → (s.client p).io_closed ≡ true
      → (s.client p).runstate ≡ state_n
      → t ≡ record s { clients = erase p s.clients; destroying = erase p s.destroying }
      → Step s t
  -- ~Reactor() puts NULL on the queue.
  terminate : t ≡ record s { runq = s.runq ++ none ∷ [] } → Step s t

pub data Reach (s : System) : System → Type 0 where
  here : Reach s s
  next : {t u : System} → Reach s t → Step t u → Reach s u

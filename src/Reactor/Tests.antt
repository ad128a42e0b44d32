-- ===== src/Reactor/Tests.antt =====
-- A reactor with two workers and one client, and runs of its laws.
use exio.Prelude.{ℕ, ◌+◌, ◌≡◌, refl, none, [], ◌∷◌, arith}
use exio.Reactor.{
  waiting, popped, working, System, set_client, set_run_state, new_client, scan, push, has_work,
  update_run_state_for_reactor,
}
use exio.Reactor.Steps.{Step, add, arrive, scanned, pushed, pop, run, Reach, here, next}
use exio.Reactor.Counts.{queued, waits, runs, IsScheduled}
use exio.Reactor.Safety.{Step-IsScheduled, Reach-IsScheduled}
use exio.Reactor.Exclusive.{new_system, new_system-IsScheduled, worker_lem, deleted_lem}
use exio.Reactor.Progress.{Worked, progress_lem}

abbrev idle : System
idle = record {
  client = λ p. new_client;
  clients = [];
  destroying = [];
  runq = [];
  workers = waiting ∷ waiting ∷ [];
  hand = none;
}

new_system_2 : new_system 2 ≡ idle
unfolding new_system
new_system_2 = refl

-- Client 7 is there, with one chunk.
abbrev added : System
added = record idle { client = set_client idle.client 7 new_client; clients = 7 ∷ [] }

abbrev fed : System
fed = record added {
  client =
      set_client added.client 7
        (record (added.client 7) { itemcount = (added.client 7).itemcount + 1 });
}

added-fed : Step added fed
added-fed = arrive 7 refl refl refl refl

to_fed : Reach (new_system 2) fed
unfolding new_system
to_fed = next (next here (add 7 refl refl refl)) added-fed

-- Its way to the second worker
abbrev found : System
found = scan 7 fed

abbrev on_queue : System
on_queue = push 7 found

abbrev taken : System
taken = record on_queue { runq = []; workers = waiting ∷ popped 7 ∷ [] }

abbrev at_work : System
at_work = record taken {
  client = set_client taken.client 7 (set_run_state (taken.client 7));
  workers = waiting ∷ working 7 ∷ [];
}

to_found : Reach (new_system 2) found
to_found = next to_fed (scanned 7 refl refl refl)

to_on_queue : Reach (new_system 2) on_queue
unfolding scan update_run_state_for_reactor has_work
to_on_queue = next to_found (pushed 7 refl refl)

to_taken : Reach (new_system 2) taken
unfolding scan push update_run_state_for_reactor has_work
to_taken = next to_on_queue (pop 7 [] (waiting ∷ []) [] refl refl refl)

to_at_work : Reach (new_system 2) at_work
to_at_work = next to_taken (run 7 (waiting ∷ []) [] refl refl)

at_work_workers : at_work.workers ≡ waiting ∷ working 7 ∷ []
at_work_workers = refl

to_added : Reach (new_system 2) added
unfolding new_system
to_added = next here (add 7 refl refl refl)

Step-IsScheduled_example : IsScheduled fed
Step-IsScheduled_example =
    Step-IsScheduled added fed added-fed (Reach-IsScheduled (new_system-IsScheduled 2) to_added)

abbrev one : ℕ
one = 1

worker_lem_example : (one ≡ one) × (queued 7 at_work.runq ≡ 0)
worker_lem_example =
    worker_lem 2 at_work 7 1 1 (working 7) (working 7) to_at_work refl refl (omega arith)
      (omega arith)

deleted_lem_example : (waits 8 at_work ≡ 0) × (runs 8 at_work ≡ 0)
unfolding push scan
deleted_lem_example = deleted_lem 2 at_work 8 to_at_work refl

progress_lem_example : (t : System) × Worked fed t 7 [] (waiting ∷ [])
progress_lem_example = progress_lem fed 7 [] (waiting ∷ []) refl refl refl refl refl

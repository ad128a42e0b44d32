-- ===== src/Reactor/Progress.antt =====
-- A client with work is served, whatever is queued in front of it.
use exio.Prelude.{
  in_list, in_list-append, ℕ, ◌≡◌, refl, ap, ◌∙◌, true, false, none, some, List, [], ◌∷◌, ◌++◌,
  ==_refl, arith, Bool-cases, inl, inr,
}
use exio.Reactor.{
  state_n, ReactorClient, has_work, update_run_state_for_reactor, Worker, waiting, System, scan,
  push,
}
use exio.Reactor.Steps.{scanned, pushed}
use exio.Reactor.Service.{
  Serves-append, Serves, at_rest, further, IsIdle, AllIdle, clients_of, clients_of-append, drain,
}

scan_finds :
    (s : System) (p : ℕ)
    → (s.client p).runstate ≡ state_n
    → has_work (s.client p) ≡ true
    → (scan p s).hand ≡ some p
unfolding scan update_run_state_for_reactor has_work
scan_finds s p e h = rw (e, h) refl

no_work : (c : ReactorClient) → has_work c ≡ false → c.itemcount ≡ 0
unfolding has_work
no_work c b = ground arith

all_idle : (s : System) (ps : List ℕ) → ((q : ℕ) → in_list q ps ≡ true → IsIdle s q) → AllIdle s ps
all_idle s [] f = tt
all_idle s (p ∷ ps) f =
    (f p (ground (arith, ==_refl p)), all_idle s ps (λ q h. f q (ground (arith, h))))

-- All that was in the queue, and a client, are served; the threads wait, and the queue is empty.
pub record Worked (s t : System) (p : ℕ) (ps : List ℕ) (ws : List Worker) : Type 0 where
  pub steps : Serves s t
  pub served : IsIdle t p
  pub all_served : AllIdle t ps
  pub queue : t.runq ≡ []
  pub threads : t.workers ≡ waiting ∷ ws
  pub held : t.hand ≡ none

module _ (s : System) (p : ℕ) (ps : List ℕ) (ws : List Worker) (h : s.hand ≡ none)
    (e : s.runq ≡ clients_of ps) (f : s.workers ≡ waiting ∷ ws) where
  -- The client has work: it is found, queued, and drained with the others.
  busy : in_list p s.clients ≡ true → (scan p s).hand ≡ some p → (t : System) × Worked s t p ps ws
  unfolding push scan
  busy l k =
      let r = further (further at_rest (scanned p h l refl) tt) (pushed p k refl) tt in
      let d =
        drain (ps ++ p ∷ []) (push p (scan p s)) ws
          (ap (λ q. q ++ some p ∷ []) e ∙ clients_of-append ps p) f in
      let x = d.1 in
      (
        d.0,
        record {
          steps = Serves-append r x.steps;
          served = x.idle p (inl (in_list-append p p ps ∙ ground (arith, ==_refl p)));
          all_served =
              all_idle d.0 ps (λ q m. x.idle q (inl (in_list-append q p ps ∙ ground (arith, m))));
          queue = x.queue;
          threads = x.threads;
          held = x.held;
        },
      )

  -- It has none, and is left as it is.
  free : IsIdle s p → (t : System) × Worked s t p ps ws
  free i =
      let d = drain ps s ws e f in
      let x = d.1 in
      (
        d.0,
        record {
          steps = x.steps;
          served = x.idle p (inr i);
          all_served = all_idle d.0 ps (λ q m. x.idle q (inl m));
          queue = x.queue;
          threads = x.threads;
          held = x.held ∙ h;
        },
      )

-- If the reactor's thread holds no client, the queue holds clients only, the first worker waits,
-- and a client of the reactor has the run state 'N', then steps of service alone, which are
-- scans, pushes and the rounds of workers, with no arrival, close, release, destruction or new
-- client among them, lead to a state in which that client and every client that was queued have
-- no chunks and the run state 'N', the queue is empty, the worker waits again, and the reactor's
-- thread holds no client.
pub progress_lem :
    (s : System) (p : ℕ) (ps : List ℕ) (ws : List Worker)
    → s.hand ≡ none
    → in_list p s.clients ≡ true
    → (s.client p).runstate ≡ state_n
    → s.runq ≡ clients_of ps
    → s.workers ≡ waiting ∷ ws
    → (t : System) × Worked s t p ps ws
progress_lem s p ps ws h l n e f = elim (Bool-cases (has_work (s.client p))) [
  | inl b ↦ busy s p ps ws h e f l (scan_finds s p n b)
  | inr b ↦ free s p ps ws h e f (record { no_chunks = no_work (s.client p) b; findable = n })
]

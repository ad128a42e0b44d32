-- ===== src/Reactor/Service.antt =====
-- The steps that serve clients, and how a worker drains the queue.
use mathlib.Core.Path.{subst}
use exio.Prelude.{
  in_list, ℕ, ◌≡◌, refl, ap, ◌∙◌, true, false, Option, some, List, [], ◌∷◌, ◌++◌, ◌==◌, ==_iff,
  ==_refl, arith, Bool-cases, inl, inr, ◌⊎◌,
}
use exio.Reactor.{
  state_n, ReactorClient, has_work, set_run_state, update_run_state_for_worker, Worker, waiting,
  popped, working, System, set_client, check,
}
use exio.Reactor.Steps.{
  Step, arrive, close, scanned, pushed, pop, leave, run, do_work, checked, release, add, attended,
  destroy, terminate,
}

-- The steps that find, queue and serve clients: nothing arrives, closes, comes or goes.
abbrev pub IsServing : {s t : System} → Step s t → Type 0
IsServing (arrive p h l o e) = ⊥
IsServing (close p h l e) = ⊥
IsServing (scanned p h l e) = Unit {0}
IsServing (pushed p h e) = Unit {0}
IsServing (pop p rest before after q w e) = Unit {0}
IsServing (leave rest before after q w e) = ⊥
IsServing (run p before after w e) = Unit {0}
IsServing (do_work p left before after w le e) = Unit {0}
IsServing (checked p before after w e) = Unit {0}
IsServing (release p l e) = ⊥
IsServing (add p h l e) = ⊥
IsServing (attended h e) = ⊥
IsServing (destroy p h l c n e) = ⊥
IsServing (terminate e) = ⊥

pub data Serves (s : System) : System → Type 0 where
  at_rest : Serves s s
  further : {t u : System} → Serves s t → (st : Step t u) → IsServing st → Serves s u

pub Serves-append : {s t u : System} → Serves s t → Serves t u → Serves s u
Serves-append r at_rest = r
Serves-append r (further r' st i) = further (Serves-append r r') st i

-- A client with no chunks that the scan may find again
pub record IsIdle (s : System) (p : ℕ) : Type 0 where
  pub no_chunks : (s.client p).itemcount ≡ 0
  pub findable : (s.client p).runstate ≡ state_n

abbrev pub AllIdle : System → List ℕ → Type 0
AllIdle s [] = Unit {0}
AllIdle s (p ∷ ps) = IsIdle s p × AllIdle s ps

abbrev pub clients_of : List ℕ → List (Option ℕ)
clients_of [] = []
clients_of (p ∷ ps) = some p ∷ clients_of ps

pub clients_of-append :
    (ps : List ℕ) (p : ℕ) → clients_of ps ++ some p ∷ [] ≡ clients_of (ps ++ p ∷ [])
clients_of-append [] p = refl
clients_of-append (q ∷ ps) p = ap (λ l. some q ∷ l) (clients_of-append ps p)

out_of_work :
    (s : System) (p : ℕ) (ws : List Worker)
    → (s.client p).itemcount ≡ 0
    → check p [] ws s ≡ record s {
      client = set_client s.client p (record (s.client p) { runstate = state_n });
      workers = waiting ∷ ws;
    }
unfolding check update_run_state_for_worker has_work
out_of_work s p ws e = rw e refl

set_client_self : (f : ℕ → ReactorClient) (p : ℕ) (c : ReactorClient) → set_client f p c p ≡ c
set_client_self f p c = rw (==_refl p) refl

set_client_other :
    (f : ℕ → ReactorClient) (p q : ℕ) (c : ReactorClient)
    → (p == q) ≡ false
    → set_client f p c q ≡ f q
set_client_other f p q c z = rw z refl

-- The state behind the service of a client
pub record Served (s t : System) (p : ℕ) (rest : List (Option ℕ)) (ws : List Worker) : Type 0 where
  pub steps : Serves s t
  pub queue : t.runq ≡ rest
  pub threads : t.workers ≡ waiting ∷ ws
  pub held : t.hand ≡ s.hand
  pub done : IsIdle t p
  pub others : (q : ℕ) → (p == q) ≡ false → t.client q ≡ s.client q

-- The first worker takes a client from the front of the queue, and comes back.
serve :
    (s : System) (p : ℕ) (rest : List (Option ℕ)) (ws : List Worker)
    → s.runq ≡ some p ∷ rest
    → s.workers ≡ waiting ∷ ws
    → (t : System) × Served s t p rest ws
serve s p rest ws e f =
    let s₁ = record s { runq = rest; workers = popped p ∷ ws } in
    let s₂ = record s₁ {
      client = set_client s₁.client p (set_run_state (s₁.client p));
      workers = working p ∷ ws;
    } in
    let s₃ = record s₂ {
      client = set_client s₂.client p (record (s₂.client p) { itemcount = 0 });
    } in
    let s₄ = check p [] ws s₃ in
    let idle = record (s₃.client p) { runstate = state_n } in
    let empty₃ : (s₃.client p).itemcount ≡ 0 =
      ap (λ x. x.itemcount)
        (set_client_self s₂.client p (record (s₂.client p) { itemcount = 0 })) in
    let done = out_of_work s₃ p ws empty₃ in
    let self : s₄.client p ≡ idle = ap (λ x. x.client p) done ∙ set_client_self s₃.client p idle in
    (
      s₄,
      record {
        steps =
            further
              (further
                (further (further at_rest (pop p rest [] ws e f refl) tt) (run p [] ws refl refl)
                  tt)
                (do_work p 0 [] ws refl (omega arith) refl) tt)
              (checked p [] ws refl refl) tt;
        queue = ap (λ x. x.runq) done;
        threads = ap (λ x. x.workers) done;
        held = ap (λ x. x.hand) done;
        done = record {
          no_chunks = ap (λ c. c.itemcount) self ∙ empty₃;
          findable = ap (λ c. c.runstate) self;
        };
        others = λ q z.
            ap (λ x. x.client q) done
            ∙ set_client_other s₃.client p q idle z
            ∙ set_client_other s₂.client p q (record (s₂.client p) { itemcount = 0 }) z
            ∙ set_client_other s₁.client p q (set_run_state (s₁.client p)) z;
      },
    )

-- A client that was idle is so behind the service of any.
idle_kept :
    (s t : System) (p q : ℕ) (rest : List (Option ℕ)) (ws : List Worker)
    → Served s t p rest ws
    → IsIdle s q
    → IsIdle t q
idle_kept s t p q rest ws v i = elim (Bool-cases (p == q)) [
  | inl z ↦ subst (IsIdle t) ((==_iff p q).0 z) v.done
  | inr z ↦ record {
    no_chunks = ap (λ c. c.itemcount) (v.others q z) ∙ i.no_chunks;
    findable = ap (λ c. c.runstate) (v.others q z) ∙ i.findable;
  }
]

-- All clients in the queue are served, one after the other.
pub record Drained (s t : System) (ps : List ℕ) (ws : List Worker) : Type 0 where
  pub steps : Serves s t
  pub queue : t.runq ≡ []
  pub threads : t.workers ≡ waiting ∷ ws
  pub held : t.hand ≡ s.hand
  pub idle : (q : ℕ) → (in_list q ps ≡ true) ⊎ IsIdle s q → IsIdle t q

pub drain :
    (ps : List ℕ) (s : System) (ws : List Worker)
    → s.runq ≡ clients_of ps
    → s.workers ≡ waiting ∷ ws
    → (t : System) × Drained s t ps ws
drain [] s ws e f = (
  s,
  record {
    steps = at_rest;
    queue = e;
    threads = f;
    held = refl;
    idle = λ q h. elim h [ inl b ↦ absurd (ground arith) | inr z ↦ z ];
  },
)
drain (p ∷ ps) s ws e f =
    let v = serve s p (clients_of ps) ws e f in
    let w = v.1 in
    let d = drain ps v.0 ws w.queue w.threads in
    let x = d.1 in
    (
      d.0,
      record {
        steps = Serves-append w.steps x.steps;
        queue = x.queue;
        threads = x.threads;
        held = x.held ∙ w.held;
        idle = λ q h. x.idle q (left_to_do p q ps s v.0 w h);
      },
    )
  where
    left_to_do :
        (p q : ℕ) (ps : List ℕ) (s t : System)
        → Served s t p (clients_of ps) ws
        → (in_list q (p ∷ ps) ≡ true) ⊎ IsIdle s q
        → (in_list q ps ≡ true) ⊎ IsIdle t q
    left_to_do p q ps s t v (inr i) = inr (idle_kept s t p q (clients_of ps) ws v i)
    left_to_do p q ps s t v (inl h) = elim (Bool-cases (p == q)) [
      | inl m ↦ inr (subst (IsIdle t) ((==_iff p q).0 m) v.done)
      | inr m ↦ inl (ground (arith, h, m))
    ]

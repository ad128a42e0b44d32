-- ===== src/Reactor/Safety.antt =====
-- Every step keeps clients held as their run states say.
use exio.Prelude.{
  in_list, in_list-append, ℕ, suc, ◌+◌, ◌≡◌, refl, sym, ap, ◌∙◌, true, false, none, some, List, [],
  ◌∷◌, ◌++◌, ◌==◌, ==_iff, arith, Bool-cases, inl, inr,
}
use exio.Reactor.{
  RunState, state_n, state_q, state_r, is_n, ReactorClient, new_client, has_work, set_run_state,
  update_run_state_for_reactor, update_run_state_for_worker, handle_close, Worker, waiting, popped,
  working, System, set_client, erase, scan, check,
}
use mathlib.Core.Path.{subst}
use exio.Prelude.{◌⊎◌, ◌&&◌}
use exio.Reactor.Steps.{
  Step, arrive, close, scanned, pushed, pop, leave, run, do_work, checked, release, add, attended,
  destroy, terminate, Reach, here, next,
}
use exio.Reactor.Counts.{holds, queued, waits, runs, Placed, IsScheduled}
use exio.Reactor.Moves.{
  leave-IsScheduled, move-IsScheduled, one_self, pop-IsScheduled, popped-after, popped-before,
  popped_other, pushed-IsScheduled, rest_popped, rest_working, runs-state_r, terminate-IsScheduled,
  touch-IsScheduled, waits-state_q, working-after, working-before,
}

run-IsScheduled :
    (s : System) (p : ℕ) (before after : List Worker)
    → s.workers ≡ before ++ popped p ∷ after
    → IsScheduled s
    → IsScheduled (record s {
      client = set_client s.client p (set_run_state (s.client p));
      workers = before ++ working p ∷ after;
    })
unfolding set_run_state
run-IsScheduled s p before after f v =
    let w = rest_popped s p (popped p) (working p) before after f p in
    let st = waits-state_q (s.client p).runstate (holds p s.hand + queued p s.runq + w) (runs p s) (
      subst (λ n. Placed (s.client p).runstate n (runs p s))
        (omega (arith, popped-before s p (popped p) (working p) before after f p, one_self p))
        (v.placed p)) in
    move-IsScheduled s
      (record s {
        client = set_client s.client p (set_run_state (s.client p));
        workers = before ++ working p ∷ after;
      })
      p (set_run_state (s.client p)) refl refl
      (λ q z. (
        omega (
          arith,
          popped-before s p (popped p) (working p) before after f q,
          popped-after s p (popped p) (working p) before after f q,
          popped_other p q z,
        ),
        omega (
          arith,
          working-before s p (popped p) (working p) before after f q,
          working-after s p (popped p) (working p) before after f q,
          popped_other p q z,
        ),
      ))
      (
        omega (arith, st.1, popped-after s p (popped p) (working p) before after f p),
        omega (
          arith,
          st.2,
          working-before s p (popped p) (working p) before after f p,
          working-after s p (popped p) (working p) before after f p,
          one_self p,
        ),
      )
      (λ n. absurd (ground (arith, v.alive p n, st.0))) v

working-state_r :
    (s : System) (p : ℕ) (before after : List Worker)
    → s.workers ≡ before ++ working p ∷ after
    → IsScheduled s
    → (s.client p).runstate ≡ state_r
working-state_r s p before after f v =
    let w = rest_working s p (working p) waiting before after f p in
    let e : runs p s ≡ suc w =
      omega (arith, working-before s p (working p) waiting before after f p, one_self p) in
    (runs-state_r (s.client p).runstate (waits p s) w
      (subst (Placed (s.client p).runstate (waits p s)) e (v.placed p))).0

in_list-erase : (p q : ℕ) (xs : List ℕ) → (p == q) ≡ false → in_list q (erase p xs) ≡ in_list q xs
in_list-erase p q [] h = refl
in_list-erase p q (x ∷ xs) h = ground (arith, in_list-erase p q xs h)

-- The worker's check of a client: out of work, and back in front of the queue, or once more
worker_moves :
    (c : ReactorClient) (p : ℕ)
    → c.runstate ≡ state_r
    → ((update_run_state_for_worker c).runstate ≡ state_n)
      ⊎ ((update_run_state_for_worker c).runstate ≡ state_r)
unfolding update_run_state_for_worker
worker_moves c p e = elim (Bool-cases (has_work c)) [
  | inl h ↦ inr (rw h e)
  | inr h ↦ inl (rw h refl)
]

checked_n :
    (s : System) (p : ℕ) (before after : List Worker)
    → s.workers ≡ before ++ working p ∷ after
    → IsScheduled s
    → (update_run_state_for_worker (s.client p)).runstate ≡ state_n
    → IsScheduled (check p before after s)
unfolding check update_run_state_for_worker
checked_n s p before after f v h =
    let w = rest_working s p (working p) waiting before after f p in
    let st = runs-state_r (s.client p).runstate (waits p s) w (
      subst (Placed (s.client p).runstate (waits p s))
        (omega (arith, working-before s p (working p) waiting before after f p, one_self p))
        (v.placed p)) in
    rw h (
      move-IsScheduled s
        (record s {
          client = set_client s.client p (update_run_state_for_worker (s.client p));
          workers = before ++ waiting ∷ after;
        })
        p (update_run_state_for_worker (s.client p)) refl refl
        (λ q z. (
          omega (
            arith,
            popped-before s p (working p) waiting before after f q,
            popped-after s p (working p) waiting before after f q,
          ),
          omega (
            arith,
            working-before s p (working p) waiting before after f q,
            working-after s p (working p) waiting before after f q,
            popped_other p q z,
          ),
        ))
        (rw h (
          omega (
            arith,
            st.1,
            popped-before s p (working p) waiting before after f p,
            popped-after s p (working p) waiting before after f p,
          ),
          omega (arith, st.2, working-after s p (working p) waiting before after f p),
        ))
        (λ n. h) v)

checked_r :
    (s : System) (p : ℕ) (before after : List Worker)
    → s.workers ≡ before ++ working p ∷ after
    → IsScheduled s
    → (s.client p).runstate ≡ state_r
    → (update_run_state_for_worker (s.client p)).runstate ≡ state_r
    → IsScheduled (check p before after s)
unfolding check update_run_state_for_worker
checked_r s p before after f v r h =
    rw (h, ← f) (touch-IsScheduled s p (update_run_state_for_worker (s.client p)) (h ∙ sym r) v)

checked-IsScheduled :
    (s : System) (p : ℕ) (before after : List Worker)
    → s.workers ≡ before ++ working p ∷ after
    → IsScheduled s
    → IsScheduled (check p before after s)
checked-IsScheduled s p before after f v =
    let r = working-state_r s p before after f v in
    elim (worker_moves (s.client p) p r) [
      | inl h ↦ checked_n s p before after f v h
      | inr h ↦ checked_r s p before after f v r h
    ]

is_n→eq : (r : RunState) → is_n r ≡ true → r ≡ state_n
is_n→eq state_n h = refl
is_n→eq state_q h = cc
is_n→eq state_r h = cc

scanned_found :
    (s : System) (p : ℕ)
    → s.hand ≡ none
    → in_list p s.clients ≡ true
    → IsScheduled s
    → (has_work (s.client p) && is_n (s.client p).runstate) ≡ true
    → IsScheduled (scan p s)
unfolding scan update_run_state_for_reactor
scanned_found s p e l v h =
    let b : is_n (s.client p).runstate ≡ true = ground arith in
    let st =
      subst (λ r. Placed r (waits p s) (runs p s)) (is_n→eq (s.client p).runstate b) (v.placed p) in
    rw (h, b)
      (move-IsScheduled s
        (record s {
          client = set_client s.client p (record (s.client p) { runstate = state_q });
          hand = some p;
        })
        p (record (s.client p) { runstate = state_q }) refl refl
        (λ q z. (rw e (omega (arith, popped_other p q z)), refl))
        (omega (arith, st.0, one_self p, ap (holds p) e), st.1) (λ n. absurd (ground (arith, l, n)))
        v)

scanned_idle :
    (s : System) (p : ℕ)
    → IsScheduled s
    → (has_work (s.client p) && is_n (s.client p).runstate) ≡ false
    → IsScheduled (scan p s)
unfolding scan update_run_state_for_reactor
scanned_idle s p v h = elim (Bool-cases (is_n (s.client p).runstate)) [
  | inl b ↦ rw (h, b) (touch-IsScheduled s p (s.client p) refl v)
  | inr b ↦ rw (h, b) (touch-IsScheduled s p (s.client p) refl v)
]

scanned-IsScheduled :
    (s : System) (p : ℕ)
    → s.hand ≡ none
    → in_list p s.clients ≡ true
    → IsScheduled s
    → IsScheduled (scan p s)
scanned-IsScheduled s p e l v =
    elim (Bool-cases (has_work (s.client p) && is_n (s.client p).runstate)) [
      | inl h ↦ scanned_found s p e l v h
      | inr h ↦ scanned_idle s p v h
    ]

destroy-IsScheduled :
    (s : System) (p : ℕ)
    → (s.client p).runstate ≡ state_n
    → IsScheduled s
    → IsScheduled (record s { clients = erase p s.clients; destroying = erase p s.destroying })
destroy-IsScheduled s p e v = record {
  placed = v.placed;
  alive = λ q n. elim (Bool-cases (p == q)) [
    | inl z ↦ let z' : p ≡ q = (==_iff p q).0 z in ap (λ x. (s.client x).runstate) (sym z') ∙ e
    | inr z ↦ v.alive q (sym (in_list-erase p q s.clients z) ∙ n)
  ];
}

add-IsScheduled :
    (s : System) (p : ℕ)
    → in_list p s.clients ≡ false
    → IsScheduled s
    → IsScheduled
        (record s { client = set_client s.client p new_client; clients = s.clients ++ p ∷ [] })
add-IsScheduled s p n v = record {
  placed = λ q. elim (Bool-cases (p == q)) [
    | inl z ↦
        let z' : p ≡ q = (==_iff p q).0 z in
        rw z (
          subst (λ r. Placed r (waits q s) (runs q s))
            (v.alive q (ap (λ x. in_list x s.clients) (sym z') ∙ n)) (v.placed q))
    | inr z ↦ rw z (v.placed q)
  ];
  alive = λ q m. elim (Bool-cases (p == q)) [
    | inl z ↦ rw z refl
    | inr z ↦ rw z (v.alive q (ground (arith, in_list-append q p s.clients, m)))
  ];
}

handle_close-runstate : (c : ReactorClient) → (handle_close c).runstate ≡ c.runstate
unfolding handle_close
handle_close-runstate c = elim (Bool-cases c.io_closed) [ inl e ↦ rw e refl | inr e ↦ rw e refl ]

-- Every step keeps the invariant of the scheduling: a client is held nowhere in run state 'N',
-- once on its way to a worker in 'Q', and by one worker in 'R'; and a client that is not among
-- the reactor's clients has run state 'N'.
pub Step-IsScheduled : (s t : System) → Step s t → IsScheduled s → IsScheduled t
unfolding handle_close
Step-IsScheduled s t (arrive p h l o e) v =
    rw e (
      touch-IsScheduled s p (record (s.client p) { itemcount = (s.client p).itemcount + 1 }) refl v)
Step-IsScheduled s t (close p h l e) v =
    rw e (touch-IsScheduled s p (handle_close (s.client p)) (handle_close-runstate (s.client p)) v)
Step-IsScheduled s t (scanned p h l e) v = rw e (scanned-IsScheduled s p h l v)
Step-IsScheduled s t (pushed p h e) v = rw e (pushed-IsScheduled s p h v)
Step-IsScheduled s t (pop p rest before after h f e) v =
    rw e (pop-IsScheduled s p rest before after h f v)
Step-IsScheduled s t (leave rest before after h f e) v = rw e (leave-IsScheduled s before after f v)
Step-IsScheduled s t (run p before after f e) v = rw e (run-IsScheduled s p before after f v)
Step-IsScheduled s t (do_work p left before after f h e) v =
    rw e (touch-IsScheduled s p (record (s.client p) { itemcount = left }) refl v)
Step-IsScheduled s t (checked p before after f e) v =
    rw e (checked-IsScheduled s p before after f v)
Step-IsScheduled s t (release p l e) v =
    rw e (touch-IsScheduled s p (record (s.client p) { want_delete = true }) refl v)
Step-IsScheduled s t (add p h n e) v = rw e (add-IsScheduled s p n v)
Step-IsScheduled s t (attended h e) v = rw e (record { placed = v.placed; alive = v.alive })
Step-IsScheduled s t (destroy p h d c st e) v = rw e (destroy-IsScheduled s p st v)
Step-IsScheduled s t (terminate e) v = rw e (terminate-IsScheduled s v)

pub Reach-IsScheduled : {s t : System} → IsScheduled s → Reach s t → IsScheduled t
Reach-IsScheduled v here = v
Reach-IsScheduled v (next {t} {u} r st) = Step-IsScheduled t u st (Reach-IsScheduled v r)

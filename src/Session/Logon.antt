-- ===== src/Session/Logon.antt =====
-- Who the peer of a session is: the logon is taken once.
use exio.Prelude.{
  Option, none, some, ◌≡◌, refl, ap, ◌∙◌, Bool, true, false, List, [], ◌∷◌, Bool-cases, inl, inr,
  if◌then◌else◌, str_eq,
}
use exio.Sam.Container.{TxMessage}
use exio.Sam.Path.{find_field_at}
use exio.Session.{
  AdminSession, Listener, io_onmsg, take_logon, note_logon, msg_logon, qn_serviceid, qn_head_user,
  value_or,
}
use exio.Client.Inbound.Frames.{handle_all}

-- A listener that leaves alone what is known of the peer, and the session valid with its listener
pub record IsTame {W : Type 0} (l : Listener W) : Type 0 where
  pub same_serviceid : (m : TxMessage) (r : AdminSession × W) → (l m r).0.serviceid ≡ r.0.serviceid
  pub same_username : (m : TxMessage) (r : AdminSession × W) → (l m r).0.username ≡ r.0.username
  pub same_logon :
      (m : TxMessage) (r : AdminSession × W) → (l m r).0.logon_received ≡ r.0.logon_received
  pub same_valid :
      (m : TxMessage) (r : AdminSession × W) → (l m r).0.session_valid ≡ r.0.session_valid

abbrev pub is_logon : TxMessage → Bool
is_logon m = str_eq m.name msg_logon

abbrev pub first_logon : List TxMessage → Option TxMessage
first_logon [] = none
first_logon (m ∷ ms) = if is_logon m then some m else first_logon ms

-- What is known of the peer behind a number of messages of which the first logon counts
abbrev pub KnownBy : AdminSession → Option TxMessage → AdminSession → Type 0
KnownBy s none t =
    (t.serviceid ≡ s.serviceid) × (t.username ≡ s.username) × (t.logon_received ≡ s.logon_received)
KnownBy s (some m) t =
    (t.serviceid ≡ value_or s.serviceid (find_field_at qn_serviceid m.items))
    × (t.username ≡ value_or s.username (find_field_at qn_head_user m.items))
    × (t.logon_received ≡ true)

known_stale : (m : TxMessage) (s : AdminSession) → s.logon_received ≡ true → note_logon m s ≡ s
unfolding note_logon
known_stale m s h = elim (Bool-cases (is_logon m)) [
  | inl e ↦ simp (e, h) refl
  | inr e ↦ simp e refl
]

known_first :
    (m : TxMessage) (s : AdminSession)
    → is_logon m ≡ true
    → s.logon_received ≡ false
    → note_logon m s ≡ take_logon m s
unfolding note_logon
known_first m s e h = simp (e, h) refl

known_other : (m : TxMessage) (s : AdminSession) → is_logon m ≡ false → note_logon m s ≡ s
unfolding note_logon
known_other m s e = simp e refl

same_known :
    (s t u : AdminSession) (o : Option TxMessage)
    → t.serviceid ≡ s.serviceid
    → t.username ≡ s.username
    → t.logon_received ≡ s.logon_received
    → KnownBy t o u
    → KnownBy s o u
same_known s t u none a b c k = (k.0 ∙ a, k.1 ∙ b, k.2 ∙ c)
same_known s t u (some m) a b c k = (
  k.0 ∙ ap (λ x. value_or x (find_field_at qn_serviceid m.items)) a,
  k.1 ∙ ap (λ x. value_or x (find_field_at qn_head_user m.items)) b,
  k.2,
)

module _ {W : Type 0} (l : Listener W) (tame : IsTame l) where
  -- The listener sees what is known.
  onmsg :
      (m : TxMessage) (s : AdminSession) (w : W)
      → s.session_valid ≡ true
      → let t = (io_onmsg l m (s, w)).0 in
        (t.serviceid ≡ (note_logon m s).serviceid)
        × (t.username ≡ (note_logon m s).username)
        × (t.logon_received ≡ (note_logon m s).logon_received)
        × (t.session_valid ≡ (note_logon m s).session_valid)
  unfolding io_onmsg
  onmsg m s w v =
      let r : AdminSession × W = (note_logon m s, w) in
      elim (Bool-cases s.has_listener) [
        | inl h ↦
            simp (v, h)
              (
                tame.same_serviceid m r,
                tame.same_username m r,
                tame.same_logon m r,
                tame.same_valid m r,
              )
        | inr h ↦ simp (v, h) (refl, refl, refl, refl)
      ]

  logged_on :
      (ms : List TxMessage) (s : AdminSession) (w : W)
      → s.session_valid ≡ true
      → s.logon_received ≡ true
      → KnownBy s none (handle_all (io_onmsg l) ms (s, w)).0
  logged_on [] s w v h = (refl, refl, refl)
  logged_on (m ∷ ms) s w v h =
      let r = io_onmsg l m (s, w) in
      let o = onmsg m s w v in
      let k = known_stale m s h in
      let a = o.2 ∙ ap (λ x. x.logon_received) k in
      same_known s r.0 (handle_all (io_onmsg l) ms r).0 none (o.0 ∙ ap (λ x. x.serviceid) k)
        (o.1 ∙ ap (λ x. x.username) k) a
        (logged_on ms r.0 r.1 (o.3 ∙ ap (λ x. x.session_valid) k ∙ v) (a ∙ h))

  first_one :
      (m : TxMessage) (ms : List TxMessage) (s : AdminSession) (w : W)
      → s.session_valid ≡ true
      → note_logon m s ≡ take_logon m s
      → KnownBy s (some m) (handle_all (io_onmsg l) (m ∷ ms) (s, w)).0
  unfolding take_logon
  first_one m ms s w v k =
      let r = io_onmsg l m (s, w) in
      let o = onmsg m s w v in
      let rest =
        logged_on ms r.0 r.1 (o.3 ∙ ap (λ x. x.session_valid) k ∙ v)
          (o.2 ∙ ap (λ x. x.logon_received) k) in
      (
        rest.0 ∙ o.0 ∙ ap (λ x. x.serviceid) k,
        rest.1 ∙ o.1 ∙ ap (λ x. x.username) k,
        rest.2 ∙ o.2 ∙ ap (λ x. x.logon_received) k,
      )

  logons :
      (ms : List TxMessage) (s : AdminSession) (w : W)
      → s.session_valid ≡ true
      → s.logon_received ≡ false
      → KnownBy s (first_logon ms) (handle_all (io_onmsg l) ms (s, w)).0
  logons [] s w v h = (refl, refl, refl)
  logons (m ∷ ms) s w v h =
      let r = io_onmsg l m (s, w) in
      let o = onmsg m s w v in
      elim (Bool-cases (is_logon m)) [
        | inl e ↦ simp e (first_one m ms s w v (known_first m s e h))
        | inr e ↦
            let k = known_other m s e in
            let a = o.2 ∙ ap (λ x. x.logon_received) k in
            simp e (
              same_known s r.0 (handle_all (io_onmsg l) ms r).0 (first_logon ms)
                (o.0 ∙ ap (λ x. x.serviceid) k) (o.1 ∙ ap (λ x. x.username) k) a
                (logons ms r.0 r.1 (o.3 ∙ ap (λ x. x.session_valid) k ∙ v) (a ∙ h)))
      ]

-- Whatever messages a valid session handles that has had no logon, with a listener that leaves
-- these members alone: the peer's service id and user name are those of the first logon among
-- them, where it gives them, and no later logon changes them; without a logon they are as
-- before.
pub logon_lem :
    {W : Type 0} (l : Listener W) (ms : List TxMessage) (s : AdminSession) (w : W)
    → IsTame l
    → s.session_valid ≡ true
    → s.logon_received ≡ false
    → KnownBy s (first_logon ms) (handle_all (io_onmsg l) ms (s, w)).0
logon_lem l ms s w tame v h = logons l tame ms s w v h

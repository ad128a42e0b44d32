-- ===== src/Admin/Sending.antt =====
-- The session behind a request: one response is sent, and the session is closed if it is the last.
use exio.Prelude.{
  append-nil, ℕ, ◌+◌, ◌≤◌, ◌≡◌, refl, ap, ◌∙◌, Bool, true, false, not, ◌&&◌, some, List, [], ◌∷◌,
  ◌++◌, Bytes, length, if◌then◌else◌,
}
use exio.Dict.{Dict}
use exio.Error.{Error}
use exio.Sam.Container.{TxMessage}
use exio.Sam.Path.{find_field_at}
use exio.Sam.Decode.Message.{IsClean}
use exio.Client.Outbound.{Outbound, sentinel, queue, queue_close}
use exio.Client.Outbound.Laws.{backlog, backlog-append}
use exio.Client.Outbound.Output.{stream}
use exio.Client.Inbound.Frames.{bytes_of, frames}
use exio.Session.{AdminSession, enqueue_to_send, close, value_or}
use exio.Session.Delivery.{Carries, enqueue_one}
use exio.Admin.Reply.{AdminResponse, has_pending, qn_head_reqseqno}
use exio.Admin.Dispatch.{
  AdminCommand, answer, typed, send_response, conclude, finish, handle_admin_request,
}

-- The client behind close(): no byte more or less, and no call of queue is accepted any more.
close_lem :
    (s : AdminSession) (c : Outbound)
    → s.io_handle ≡ some c
    → c.acceptmore ≡ true
    → (d : Outbound) × (close s ≡ record s { io_handle = some d })
      × (stream d ≡ stream c)
      × (d.acceptmore ≡ false)
unfolding close queue queue_close
close_lem s c h a =
    let d = record c {
      acceptmore = false;
      items = c.items ++ sentinel ∷ [];
      itemcount = c.itemcount + 1;
    } in
    (
      d,
      simp (h, close, a) refl,
      ap (λ l. c.sent ++ l)
          (backlog-append c.items (sentinel ∷ [])
            ∙ (unfold backlog in append-nil (backlog c.items))),
      refl,
    )

-- Is the session closed behind a response?
abbrev pub is_last : AdminResponse → AdminSession → Bool
is_last resp s = not (has_pending resp.msg.items) && s.autoclose

sent_response :
    (reqseqno : Bytes) (resp : AdminResponse) (s t : AdminSession)
    → enqueue_to_send resp.msg s ≡ (false, t)
    → send_response reqseqno resp s ≡ t
unfolding send_response
sent_response reqseqno resp s t e = rw e refl

finish_sent :
    (reqseqno : Bytes) (resp : AdminResponse) (s : AdminSession)
    → resp.send ≡ true
    → finish reqseqno resp s ≡ conclude (typed resp) (send_response reqseqno (typed resp) s)
unfolding finish
finish_sent reqseqno resp s e = rw e refl

conclude_by :
    (b : Bool) (resp : AdminResponse) (t : AdminSession)
    → is_last resp t ≡ b
    → conclude resp t ≡ (if b then close t else t)
unfolding conclude
conclude_by b resp t g = ap (λ x. if x then close t else t) g

finish_by :
    (b : Bool) (reqseqno : Bytes) (resp : AdminResponse) (s t : AdminSession)
    → resp.send ≡ true
    → send_response reqseqno (typed resp) s ≡ t
    → is_last (typed resp) t ≡ b
    → finish reqseqno resp s ≡ (if b then close t else t)
finish_by b reqseqno resp s t e f g =
    finish_sent reqseqno resp s e ∙ ap (conclude (typed resp)) f ∙ conclude_by b (typed resp) t g

-- The session with the response sent, closed or not
abbrev pub Finished : AdminSession → List TxMessage → TxMessage → Bool → AdminSession → Type 0
Finished s sent msg last t =
    (d : Outbound) × (t ≡ record s { io_handle = some d })
    × (stream d ≡ frames (sent ++ msg ∷ []))
    × (d.acceptmore ≡ not last)

finish_lem :
    (b : Bool) (reqseqno : Bytes) (resp : AdminResponse) (s : AdminSession) (sent : List TxMessage)
    (d : Outbound)
    → resp.send ≡ true
    → enqueue_to_send (typed resp).msg s ≡ (false, record s { io_handle = some d })
    → Carries (sent ++ (typed resp).msg ∷ []) d
    → is_last (typed resp) s ≡ b
    → Finished s sent (typed resp).msg b (finish reqseqno resp s)
finish_lem false reqseqno resp s sent d e f w g =
    let t = record s { io_handle = some d } in
    (
      d,
      finish_by false reqseqno resp s t e (sent_response reqseqno (typed resp) s t f) g,
      w.carried,
      w.accepts,
    )
finish_lem true reqseqno resp s sent d e f w g =
    let t = record s { io_handle = some d } in
    let (d', x, y, z) = close_lem t d refl w.accepts in
    (
      d',
      finish_by true reqseqno resp s t e (sent_response reqseqno (typed resp) s t f) g ∙ x,
      y ∙ w.carried,
      z,
    )

-- The response and the state behind the admin, of which the session is a part
abbrev pub answered :
    {W : Type 0}
    → (Bytes → ℕ)
    → (Error → Bytes)
    → Dict (AdminCommand (AdminSession × W))
    → TxMessage
    → AdminSession × W
    → AdminResponse × (AdminSession × W)
answered atoi what admins msg (s, w) = answer atoi what admins msg s.id (s, w)

-- handle_admin_request, whose admin may itself send to the session or change it, where the admin
-- leaves a valid session with a client that accepts, and where the response is to be sent, is a
-- clean message and has room: behind the messages that the client then carries it carries the
-- response with its type, and nothing else; the client accepts no more exactly if no reply is
-- pending and the session wants to be closed; every other member of the session, and the rest of
-- the state, is as the admin left it.
pub handle_admin_request_lem :
    {W : Type 0} (atoi : Bytes → ℕ) (what : Error → Bytes)
    (admins : Dict (AdminCommand (AdminSession × W))) (msg : TxMessage) (s t : AdminSession)
    (w u : W) (resp : AdminResponse) (c : Outbound) (sent : List TxMessage)
    → answered atoi what admins msg (s, w) ≡ (resp, (t, u))
    → t.session_valid ≡ true
    → t.io_handle ≡ some c
    → Carries sent c
    → resp.send ≡ true
    → IsClean (typed resp).msg
    → c.pending + length (bytes_of (typed resp).msg) ≤ c.out_pend_max
    → Finished t sent
        (typed resp).msg
        (is_last (typed resp) t)
        (handle_admin_request atoi what admins msg (s, w)).0
      × ((handle_admin_request atoi what admins msg (s, w)).1 ≡ u)
unfolding handle_admin_request
handle_admin_request_lem atoi what admins msg s t w u resp c sent a v h k e cl room =
    let (d, f, x, _, _) = enqueue_one sent (typed resp).msg t c v h k cl room in
    let seqno = value_or [] (find_field_at qn_head_reqseqno msg.items) in
    let (d', g, y, z) = finish_lem (is_last (typed resp) t) seqno resp t sent d e f x refl in
    ((d', ap (λ r. finish seqno r.0 r.1.0) a ∙ g, y, z), ap (λ r. r.1.1) a)

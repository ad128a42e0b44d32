-- ===== src/Admin/Answers.antt =====
-- What a request is answered with.
use exio.Prelude.{
  ℕ, ◌<◌, ◌^◌, ◌≡◌, ◌≢◌, refl, ap, ◌∙◌, true, Option, none, some, List, [], ◌∷◌, Bytes, codes,
  length, Option-cases, inl, inr, ◌⊎◌,
}
use exio.Dict.{Dict}
use exio.Error.{Error, Result, ok, err}
use exio.SamBuffer.Decimal.{decimal}
use exio.Sam.Container.{
  Items, nil, TxMessage, find_field, find_child, put_field, put_child, set_field, set_child,
  add_field, add_child, add_items, child_items,
}
use exio.Sam.Path.{find_tree, at_tree, find_field_at, put_field_at}
use exio.Session.{value_or}
use exio.Admin.Reply.{
  AdminResponse, new_response, error_response, head, body, respdata, qn_head_reqseqno, qn_rescode,
  qn_pending, msg_response, error_code_str, set_pending, add_rescode, formatreply_string,
}
use exio.Admin.Request.{AdminRequest, new_request, qn_command, add_arguments, command_request}
use exio.Admin.Args.{read_args-add_arguments}
use exio.Admin.Dispatch.{
  AdminCommand, Outcome, replied, failed, raised, unknown, admin_find, command_name, respond,
  invoke, assigned, answer, err_unknown, err_admin_not_found,
}

-- The parts of a request that src/admin.cc builds
module _ (cmd : Bytes) (args : List Bytes) (dest serviceid user : Bytes) where
  request_command :
      find_field_at qn_command (command_request cmd args dest serviceid user).items ≡ some cmd
  unfolding command_request find_field_at find_tree put_field_at at_tree find_field find_child
      put_field put_child set_field set_child add_field add_child add_items child_items
  request_command = refl

  request_head :
      (h : Items) × (find_child head (command_request cmd args dest serviceid user).items ≡ some h)
  unfolding command_request find_field_at find_tree put_field_at at_tree find_field find_child
      put_field put_child set_field set_child add_field add_child add_items child_items
  request_head = (_, refl)

  request_body :
      find_child body (command_request cmd args dest serviceid user).items
      ≡ some (add_arguments args (put_field (codes "command") cmd nil))
  unfolding command_request find_field_at find_tree put_field_at at_tree find_field find_child
      put_field put_child set_field set_child add_field add_child add_items child_items
  request_body = refl

  request_reqseqno :
      find_field_at qn_head_reqseqno (command_request cmd args dest serviceid user).items
      ≡ some (codes "0")
  unfolding command_request find_field_at find_tree put_field_at at_tree find_field find_child
      put_field put_child set_field set_child add_field add_child add_items child_items
  request_reqseqno = refl

-- An error response to a request
pub record IsError (reqseqno : Bytes) (code : ℕ) (text : Bytes) (r : AdminResponse) : Type 0 where
  pub sent : r.send ≡ true
  pub type : r.msg.name ≡ msg_response
  pub sequence : find_field_at qn_head_reqseqno r.msg.items ≡ some reqseqno
  pub rescode : find_field_at qn_rescode r.msg.items ≡ some (decimal code)
  pub final : find_field_at qn_pending r.msg.items ≡ some (codes "0")
  pub told : find_field_at (body ∷ respdata ∷ codes "text" ∷ []) r.msg.items ≡ some text

error_response-IsError :
    (reqseqno : Bytes) (code : ℕ) (text : Bytes)
    → IsError reqseqno code text (error_response reqseqno code text)
unfolding error_response new_response set_pending add_rescode formatreply_string find_field_at
    find_tree put_field_at at_tree find_field find_child put_field put_child set_field set_child
    add_field add_child add_items child_items
error_response-IsError reqseqno code text = record {
  sent = refl;
  type = refl;
  sequence = refl;
  rescode = refl;
  final = refl;
  told = refl;
}

-- What an outcome becomes
abbrev pub Responded : Bytes → Outcome → AdminResponse → Type 0
Responded reqseqno (replied r) resp = resp ≡ assigned r
Responded reqseqno (failed code text) resp = IsError reqseqno code text resp
Responded reqseqno (raised text) resp = IsError reqseqno err_admin_not_found text resp
Responded reqseqno unknown resp = IsError reqseqno err_unknown (codes "unknown admin error") resp

respond_lem : (reqseqno : Bytes) (o : Outcome) → Responded reqseqno o (respond reqseqno o)
unfolding respond
respond_lem reqseqno (replied r) = refl
respond_lem reqseqno (failed code text) = error_response-IsError reqseqno code text
respond_lem reqseqno (raised text) = error_response-IsError reqseqno err_admin_not_found text
respond_lem reqseqno unknown =
    error_response-IsError reqseqno err_unknown (codes "unknown admin error")

-- The branches of an answer: no such admin, a request without its parts, or the admin's own outcome
pub data Answered {W : Type 0} (atoi : Bytes → ℕ) (what : Error → Bytes)
    (admins : Dict (AdminCommand W)) (msg : TxMessage) (id : ℕ) (w : W) (resp : AdminResponse)
    (v : W) : Type 0 where
  not_found :
      (command_name msg.items ≡ none)
        ⊎ ((name : Bytes) × (command_name msg.items ≡ some name) × (admin_find name admins ≡ none))
      → IsError
          (value_or [] (find_field_at qn_head_reqseqno msg.items))
          err_admin_not_found
          (codes "admin not found")
          resp
      → v ≡ w
      → Answered atoi what admins msg id w resp v
  malformed :
      (name : Bytes) (ac : AdminCommand W) (e : Error)
      → command_name msg.items ≡ some name
      → admin_find name admins ≡ some ac
      → new_request atoi msg id ≡ err e
      → IsError
          (value_or [] (find_field_at qn_head_reqseqno msg.items))
          err_admin_not_found
          (what e)
          resp
      → v ≡ w
      → Answered atoi what admins msg id w resp v
  ran :
      (name : Bytes) (ac : AdminCommand W) (req : AdminRequest)
      → command_name msg.items ≡ some name
      → admin_find name admins ≡ some ac
      → new_request atoi msg id ≡ ok req
      → Responded (value_or [] (find_field_at qn_head_reqseqno msg.items)) (ac.target req w).0 resp
      → v ≡ (ac.target req w).1
      → Answered atoi what admins msg id w resp v

Result-cases : {A : Type 0} (r : Result A) → ((e : Error) × (r ≡ err e)) ⊎ ((a : A) × (r ≡ ok a))
Result-cases (err e) = inl (e, refl)
Result-cases (ok a) = inr (a, refl)

module _ {W : Type 0} (atoi : Bytes → ℕ) (what : Error → Bytes) (admins : Dict (AdminCommand W))
    (msg : TxMessage) (id : ℕ) (w : W) where
  abbrev seqno : Bytes
  seqno = value_or [] (find_field_at qn_head_reqseqno msg.items)

  -- The answer to a request whose invocation is known
  answer_by :
      (o : Option Bytes) (r : Outcome × W)
      → command_name msg.items ≡ o
      → invoke atoi what admins msg id o w ≡ r
      → answer atoi what admins msg id w ≡ (respond seqno r.0, r.1)
  unfolding answer
  answer_by o r e d = rw (e, d) refl

  unknown_name :
      (name : Bytes)
      → admin_find name admins ≡ none
      → invoke atoi what admins msg id (some name) w
        ≡ (failed err_admin_not_found (codes "admin not found"), w)
  unfolding invoke error_code_str
  unknown_name name e = rw (e, invoke) refl

  bad_parts :
      (name : Bytes) (ac : AdminCommand W) (e : Error)
      → admin_find name admins ≡ some ac
      → new_request atoi msg id ≡ err e
      → invoke atoi what admins msg id (some name) w ≡ (raised (what e), w)
  unfolding invoke
  bad_parts name ac e f g = rw (f, g, invoke) refl

  runs_it :
      (name : Bytes) (ac : AdminCommand W) (req : AdminRequest)
      → admin_find name admins ≡ some ac
      → new_request atoi msg id ≡ ok req
      → invoke atoi what admins msg id (some name) w ≡ ac.target req w
  unfolding invoke
  runs_it name ac req f g = rw (f, g, invoke) refl

  abbrev Fits : AdminResponse × W → Type 0
  Fits r = Answered atoi what admins msg id w r.0 r.1

  answer_named :
      (name : Bytes) (ac : AdminCommand W)
      → command_name msg.items ≡ some name
      → admin_find name admins ≡ some ac
      → Fits (answer atoi what admins msg id w)
  answer_named name ac e f = elim (Result-cases (new_request atoi msg id)) [
    | inl (x, g) ↦
        rw (answer_by (some name) (raised (what x), w) e (bad_parts name ac x f g))
          (malformed name ac x e f g (respond_lem seqno (raised (what x))) refl)
    | inr (req, g) ↦
        rw (answer_by (some name) (ac.target req w) e (runs_it name ac req f g))
          (ran name ac req e f g (respond_lem seqno (ac.target req w).0) refl)
  ]

  answers : Fits (answer atoi what admins msg id w)
  answers = elim (Option-cases (command_name msg.items)) [
    | inl e ↦
        rw
          (answer_by none (failed err_admin_not_found (codes "admin not found"), w) e
            (unfold invoke error_code_str in refl))
          (not_found (inl e)
            (respond_lem seqno (failed err_admin_not_found (codes "admin not found"))) refl)
    | inr (name, e) ↦ elim (Option-cases (admin_find name admins)) [
      | inl f ↦
          rw
            (answer_by (some name) (failed err_admin_not_found (codes "admin not found"), w) e
              (unknown_name name f))
            (not_found (inr (name, e, f))
              (respond_lem seqno (failed err_admin_not_found (codes "admin not found"))) refl)
      | inr (ac, f) ↦ answer_named name ac e f
    ]
  ]

-- Each branch of the answer to a request: without a command, or with one of an unknown admin, an
-- error response with code 2, and likewise for a request without its parts, with the text of the
-- exception, and in both cases the state is as it was; and else what the admin's outcome
-- becomes, with its state: its response, with a head and a body, or an error response with the
-- code and the text of its exception. An error response carries the sequence number of the
-- request, and no reply is pending.
pub answer_lem :
    {W : Type 0} (atoi : Bytes → ℕ) (what : Error → Bytes) (admins : Dict (AdminCommand W))
    (msg : TxMessage) (id : ℕ) (w : W)
    → Answered atoi what admins msg id w
        (answer atoi what admins msg id w).0
        (answer atoi what admins msg id w).1
answer_lem atoi what admins msg id w = answers atoi what admins msg id w

-- The request as the admin sees it
abbrev pub seen_as : TxMessage → ℕ → List Bytes → AdminRequest
seen_as msg id args = record { msg = msg; id = id; args = args; reqseqno = codes "0" }

new_request-command_request :
    (atoi : Bytes → ℕ) (cmd : Bytes) (args : List Bytes) (dest serviceid user : Bytes) (id : ℕ)
    → ((n : ℕ) → n < 2 ^ 31 → atoi (decimal n) ≡ n)
    → length args < 2 ^ 31
    → new_request atoi (command_request cmd args dest serviceid user) id
      ≡ ok (seen_as (command_request cmd args dest serviceid user) id args)
unfolding new_request
new_request-command_request atoi cmd args dest serviceid user id h l =
    let a = read_args-add_arguments atoi args (put_field (codes "command") cmd nil) h l in
    let (_, b) = request_head cmd args dest serviceid user in
    rw
      (
        b,
        request_body cmd args dest serviceid user,
        a,
        request_reqseqno cmd args dest serviceid user,
      )
      refl

-- For an atoi that reads what is printed of a number below 2 ^ 31: a request that the admin
-- program builds for a command with a name that is not empty, with fewer than 2 ^ 31 arguments,
-- is answered by the admin of that name, called once with exactly those arguments and the
-- sequence number 0, and with the response that its outcome becomes.
pub request_lem :
    {W : Type 0} (atoi : Bytes → ℕ) (what : Error → Bytes) (admins : Dict (AdminCommand W))
    (ac : AdminCommand W) (cmd : Bytes) (args : List Bytes) (dest serviceid user : Bytes) (id : ℕ)
    (w : W)
    → ((n : ℕ) → n < 2 ^ 31 → atoi (decimal n) ≡ n)
    → length args < 2 ^ 31
    → cmd ≢ []
    → admin_find cmd admins ≡ some ac
    → answer atoi what admins (command_request cmd args dest serviceid user) id w ≡ (
      respond
          (codes "0")
          (ac.target (seen_as (command_request cmd args dest serviceid user) id args) w).0,
      (ac.target (seen_as (command_request cmd args dest serviceid user) id args) w).1,
    )
request_lem atoi what admins ac [] args dest serviceid user id w h l n f = absurd (n refl)
request_lem atoi what admins ac (x ∷ cmd) args dest serviceid user id w h l n f =
    let msg = command_request (x ∷ cmd) args dest serviceid user in
    let named : command_name msg.items ≡ some (x ∷ cmd) =
      unfold command_name in rw (request_command (x ∷ cmd) args dest serviceid user) refl in
    let r =
      runs_it atoi what admins msg id w (x ∷ cmd) ac (seen_as msg id args) f
        (new_request-command_request atoi (x ∷ cmd) args dest serviceid user id h l) in
    answer_by atoi what admins msg id w (some (x ∷ cmd)) _ named r
    ∙ ap
        (λ o. (
          respond (value_or [] o) (ac.target (seen_as msg id args) w).0,
          (ac.target (seen_as msg id args) w).1,
        ))
        (request_reqseqno (x ∷ cmd) args dest serviceid user)

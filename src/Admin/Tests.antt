-- ===== src/Admin/Tests.antt =====
-- An interface with the admin "echo", and its answers.
use exio.Prelude.{
  ℕ, ◌+◌, ◌<◌, ◌≤◌, ◌^◌, ◌≡◌, ◌≢◌, refl, true, some, List, [], ◌∷◌, ◌++◌, Bytes, codes, length,
  arith,
}
use exio.Dict.{Dict, lookup}
use exio.Error.{Error, ok, err}
use exio.SamBuffer.Decimal.{decimal}
use exio.SamBuffer.Header.{frame}
use exio.Sam.Chars.{meta_delim, is_special_char}
use exio.Sam.Container.{
  nil, TxMessage, find_field, find_child, put_field, put_child, set_field, set_child, add_field,
  add_child, add_items, child_items,
}
use exio.Sam.Path.{find_tree, at_tree, put_field_at}
use exio.Sam.Encode.Wire.{wire_body, wire, escaped}
use exio.Sam.Decode.{read_msglen}
use exio.Sam.Decode.Length.{read_msglen-decimal}
use exio.Sam.Decode.Message.{IsClean}
use exio.Client.Outbound.{new_outbound}
use exio.Client.Inbound.Frames.{bytes_of}
use exio.Session.{AdminSession, new_session, io_init}
use exio.Client.Outbound.{Outbound}
use exio.Prelude.{false, ap, ◌∙◌}
use exio.Session.{enqueue_to_send}
use exio.Session.Delivery.{Carries, enqueue_one, new_outbound-Carries}
use exio.Admin.Reply.{
  AdminResponse, success, new_response, set_pending, add_rescode, formatreply_string,
}
use exio.Admin.Request.{command_request}
use exio.Admin.Dispatch.{
  AdminCommand, replied, admin_find, respond, answer, typed, handle_admin_request,
}
use exio.Admin.Answers.{Answered, answer_lem, seen_as, request_lem}
use exio.Admin.Sending.{answered, Finished, is_last, handle_admin_request_lem}

-- One atoi
abbrev atoi : Bytes → ℕ
atoi s = elim (read_msglen 0 (s ++ meta_delim ∷ [])) [ ok (n, _) ↦ n | err _ ↦ 0 ]

atoi-decimal : (n : ℕ) → n < 2 ^ 31 → atoi (decimal n) ≡ n
atoi-decimal n h = rw (read_msglen-decimal n [] (omega arith), atoi) refl

abbrev what : Error → Bytes
what e = codes "missing"

abbrev first : List Bytes → Bytes
first [] = []
first (a ∷ more) = a

abbrev echo : AdminCommand ℕ
echo = record {
  name = codes "echo";
  shorthelp = [];
  longhelp = [];
  attrs = [];
  target = λ req w. (replied (success req.reqseqno (first req.args) 0), w + 1);
}

abbrev admins : Dict (AdminCommand ℕ)
admins = (codes "echo", echo) ∷ []

abbrev bye : TxMessage
bye = record { root = record { name = codes "request"; items = nil } }

answer_lem_example :
    Answered atoi what admins bye 1 0
      (answer atoi what admins bye 1 0).0
      (answer atoi what admins bye 1 0).1
answer_lem_example = answer_lem atoi what admins bye 1 0

abbrev request : TxMessage
request =
    command_request (codes "echo") (codes "hi" ∷ []) (codes "host:80") (codes "svc") (codes "ann")

echo_name : codes "echo" ≢ []
echo_name e = ground (arith, e)

echo_found : admin_find (codes "echo") admins ≡ some echo
unfolding admin_find lookup
echo_found = refl

request_lem_example : answer atoi what admins request 1 0 ≡ (
  respond (codes "0") (echo.target (seen_as request 1 (codes "hi" ∷ [])) 0).0,
  (echo.target (seen_as request 1 (codes "hi" ∷ [])) 0).1,
)
request_lem_example =
    request_lem atoi what admins echo (codes "echo") (codes "hi" ∷ []) (codes "host:80")
      (codes "svc") (codes "ann") 1 0 atoi-decimal (omega arith) echo_name echo_found

abbrev session : AdminSession
session = io_init new_outbound (new_session 1 1000)

session_valid : session.session_valid ≡ true
unfolding io_init new_session
session_valid = refl

session_handle : session.io_handle ≡ some new_outbound
unfolding io_init
session_handle = refl

-- An admin that sends a message to the session that it answers
abbrev greet : AdminCommand (AdminSession × ℕ)
greet = record {
  name = codes "greet";
  shorthelp = [];
  longhelp = [];
  attrs = [];
  target = λ req v.
      (replied (success req.reqseqno (codes "hi") 0), ((enqueue_to_send bye v.0).1, v.1 + 1));
}

abbrev desk : Dict (AdminCommand (AdminSession × ℕ))
desk = (codes "greet", greet) ∷ []

greet_found : admin_find (codes "greet") desk ≡ some greet
unfolding admin_find lookup
greet_found = refl

greet_name : codes "greet" ≢ []
greet_name e = ground (arith, e)

abbrev greeting : TxMessage
greeting = command_request (codes "greet") [] (codes "host:80") (codes "svc") (codes "ann")

abbrev resp : AdminResponse
resp = respond (codes "0") (replied (success (codes "0") (codes "hi") 0))

greeted :
    answered atoi what desk greeting (session, 0) ≡ (resp, ((enqueue_to_send bye session).1, 1))
greeted =
    request_lem atoi what desk greet (codes "greet") [] (codes "host:80") (codes "svc")
      (codes "ann") session.id (session, 0) atoi-decimal (omega arith) greet_name greet_found

bye-IsClean : IsClean bye
unfolding wire_body wire
bye-IsClean = record { type = ground arith; names = tt; unique = tt; short = omega arith }

bye_fits : new_outbound.pending + length (bytes_of bye) ≤ new_outbound.out_pend_max
unfolding frame wire_body wire decimal new_outbound
bye_fits = omega arith

said_bye :
    (d : Outbound) × (enqueue_to_send bye session ≡ (false, record session { io_handle = some d }))
    × Carries (bye ∷ []) d
    × (d.pending ≡ new_outbound.pending + length (bytes_of bye))
    × (d.out_pend_max ≡ new_outbound.out_pend_max)
said_bye =
    enqueue_one [] bye session new_outbound session_valid session_handle new_outbound-Carries
      bye-IsClean bye_fits

abbrev behind : AdminSession
behind = record session { io_handle = some said_bye.0 }

resp_sent : resp.send ≡ true
unfolding respond success new_response
resp_sent = refl

resp-IsClean : IsClean (typed resp).msg
unfolding respond success new_response set_pending add_rescode formatreply_string put_field_at
    at_tree put_field put_child set_field set_child add_field add_child add_items child_items
    find_field find_child find_tree wire_body wire escaped is_special_char decimal
resp-IsClean = record {
  type = ground arith;
  names = ground arith;
  unique = ground arith;
  short = omega arith;
}

both_fit :
    new_outbound.pending + length (bytes_of bye) + length (bytes_of (typed resp).msg)
    ≤ new_outbound.out_pend_max
unfolding respond success new_response set_pending add_rescode formatreply_string put_field_at
    at_tree put_field put_child set_field set_child add_field add_child add_items child_items
    find_field find_child find_tree wire_body wire escaped is_special_char decimal frame
    new_outbound
both_fit = omega arith

handle_admin_request_lem_example :
    Finished behind
      (bye ∷ [])
      (typed resp).msg
      (is_last (typed resp) behind)
      (handle_admin_request atoi what desk greeting (session, 0)).0
    × ((handle_admin_request atoi what desk greeting (session, 0)).1 ≡ 1)
handle_admin_request_lem_example =
    handle_admin_request_lem atoi what desk greeting session behind 0 1 resp said_bye.0 (bye ∷ [])
      (greeted ∙ ap (λ r. (resp, (r.1, 1))) said_bye.1) session_valid refl said_bye.2 resp_sent
      resp-IsClean (omega (arith, said_bye.3, said_bye.4, both_fit))

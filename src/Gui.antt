-- ===== src/Gui.antt =====
-- The client application, src/client/app.cpp: what its window asks of it, and the handlers of the
-- server's packets. A text of the window is the C string that `c_str().AsChar()` gives. The map of the
-- window's output handlers is the test `handled`.
pub mod Requests
pub mod Events
pub mod LoginFlow
pub mod Replies
pub mod Answers
pub mod MessageFlow
use gologincase.Common.{
  ℕ, Bool, true, false, ◌||◌, not, List, [], ◌∷◌, ◌++◌, Option, none, some, Buffer, Table, codes,
  str_eq, is_empty, if◌then◌else◌, ◌==◌,
}
use mathlib.Core.Option
use gologincase.Messages.Json.{Json, to}
use gologincase.Messages.Commands as Cmd
use gologincase.Messages.Client
use gologincase.Messages.Client.{
  client_hello_request_message, client_auth_request_message, client_bye_request_message,
  client_msg_request_message, client_msg_response_message,
}
use gologincase.Messages.Server
use gologincase.Messages.Server.{
  server_hello_response_message, server_auth_response_message, server_bye_response_message,
  server_ping_response_message, server_msg_request_message, server_msg_response_message,
}
use gologincase.Provider.{Cookies}
use gologincase.Dispatcher.{Handler, wrap_request, wrap_notice, handle_all}
use gologincase.Tcp.{Status, disconnected, is_connected, send}
use gologincase.Tcp.Client as Tcp
use gologincase.Tcp.Client.{ConnectAnswers}

-- `ui_status` and `ui_action`.
pub data UiStatus : Type 0 where
  success failed pending : UiStatus

pub data UiAction : Type 0 where
  on_login on_logout on_connect on_disconnect on_send on_recv : UiAction

-- `app_cookie`.
pub record Cookie : Type 0 where
  pub client_id : ℕ
  pub client_session : Buffer
  pub client_login : Buffer

-- A call of an output handler of the window.
pub record Output : Type 0 where
  pub action : UiAction
  pub status : UiStatus
  pub msg : Buffer
  pub data_text : Buffer

pub record App : Type 0 where
  pub cookie : Cookie
  pub client : Tcp.Client
  pub handled : UiAction → Bool
  pub outputs : List Output

-- How a callback ends: it returns, it throws, or the program is terminated.
pub data End : Type 0 where
  returns throws terminates : End

unfoldable pub output_handler : UiAction → UiStatus → Buffer → Buffer → App → App
output_handler act st msg text a =
    if a.handled act
    then record a {
      outputs = a.outputs ++ record { action = act; status = st; msg = msg; data_text = text } ∷ [];
    }
    else a

-- `find(':')`: what is before the first colon, and what is after it.
unfoldable pub find_colon : Buffer → Option (Buffer × Buffer)
find_colon [] = none
find_colon (c ∷ cs) =
    let rest = find_colon cs in
    if c == 58 then some ([], cs) else Option.map (λ (p : Buffer × Buffer). (c ∷ p.0, p.1)) rest

-- The two calls of `substr`. Without a colon both strings stay empty.
unfoldable pub split : Buffer → Buffer × Buffer
split s = elim (find_colon s) [ some p ↦ p | none ↦ ([], []) ]

abbrev is_disconnected : Status → Bool
is_disconnected disconnected = true
is_disconnected _ = false

module _ (j : Json) (accepts : ℕ → Buffer → Bool) where
  -- The end of the callbacks: a packed request, or `none` if the packer threw, is sent, and the window
  -- is told `good` with its text, or that it failed.
  unfoldable pub submit :
      Buffer → Option Buffer → UiAction → UiStatus → Buffer → Buffer → App → End × App
  submit cmd none act good text bad a = (throws, a)
  submit cmd (some b) act good text bad a =
      let (sent, calls) = send accepts a.client.conn cmd b in
      let after = record a { client = record a.client { trace = a.client.trace ++ calls } } in
      if sent
      then (returns, output_handler act good text [] after)
      else (returns, output_handler act failed bad [] after)

  unfoldable pub on_login_frame_callback : Buffer → App → End × App
  on_login_frame_callback text a =
      let (login, pass) = split text in
      if is_empty login || is_empty pass
      then (returns, output_handler on_login failed (codes "Invalid user or pass.") [] a)
      else (let request : Client.AuthRequest = record {
        id = a.cookie.client_id;
        command = Cmd.auth;
        login = login;
        password = pass;
      } in
          submit Cmd.auth (to j request) on_login success (codes "Login...") (codes "Login failed.")
            a)

  unfoldable pub on_logout_frame_callback : App → End × App
  on_logout_frame_callback a =
      let request : Client.ByeRequest = record {
        id = a.cookie.client_id;
        command = Cmd.bye;
        session = a.cookie.client_session;
      } in
      submit Cmd.bye (to j request) on_logout success (codes "Logout...") (codes "Logout failed.") a

  -- `answers` are those of the system to a connection to the host and the port, whose text
  -- `std::atoi` reads, and `drawn` is the number that the random engine draws.
  unfoldable pub on_connect_frame_callback :
      (Buffer → Buffer → ConnectAnswers) → ℕ → Buffer → App → End × App
  on_connect_frame_callback answers drawn text a =
      let (host, port) = split text in
      let (c, alive) = Tcp.connect (answers host port) a.client in
      let connecting = record a { client = c } in
      if not alive
      then (terminates, connecting)
      else if not (is_connected c.conn.status)
      then (
        returns,
        output_handler on_connect failed (codes "Connect to server failed.") [] connecting,
      )
      else (let named = record connecting { cookie = record a.cookie { client_id = drawn } } in
          let request : Client.HelloRequest = record { id = drawn; command = Cmd.hello } in
          submit Cmd.hello (to j request) on_connect pending (codes "Connect...")
            (codes "Connect failed.") named)

  unfoldable pub on_send_frame_callback : Buffer → App → End × App
  on_send_frame_callback text a =
      let request : Client.MsgRequest = record {
        id = a.cookie.client_id;
        command = Cmd.msg;
        body = text;
        session = a.cookie.client_session;
      } in
      submit Cmd.msg (to j request) on_send pending (codes "Mesaging...") (codes "Mesaging failed.")
        a

unfoldable pub on_disconnect_frame_callback : App → App
on_disconnect_frame_callback a =
    let after = record a { client = Tcp.disconnect a.client } in
    if is_disconnected after.client.conn.status
    then output_handler on_disconnect success (codes "Disconnected.") [] after
    else output_handler on_disconnect failed (codes "Disconnection from server failed.") [] after

unfoldable pub server_message_packet_handler :
    Cookies → Server.MsgRequest → Client.MsgResponse → App → Client.MsgResponse × App × Bool
server_message_packet_handler cookies request response a =
    let named = record response { id = a.cookie.client_id; command = Cmd.msg } in
    let shown = output_handler on_recv success request.sender_login request.body a in
    if not (str_eq request.sender_login a.cookie.client_login)
      || not (str_eq request.session a.cookie.client_session)
    then (
      record named { status = codes "failed"; message = codes "wrong login or session" },
      shown,
      false,
    )
    else (record named { status = codes "ok"; message = codes "all good" }, shown, false)

-- The `?:` at the end of a handler of a reply.
unfoldable pub reply_output : Buffer → UiAction → UiStatus → Buffer → Buffer → App → App
reply_output status act good text bad a =
    if str_eq status (codes "ok")
    then output_handler act good text [] a
    else output_handler act failed bad [] a

unfoldable pub server_message_reply_packet_handler : Cookies → Server.MsgResponse → App → App
server_message_reply_packet_handler cookies response a =
    reply_output response.status on_send success (codes "Message was sended.") response.message a

unfoldable pub server_hello_reply_packet_handler : Cookies → Server.HelloResponse → App → App
server_hello_reply_packet_handler cookies response a =
    output_handler on_connect success (codes "Connection has been established.") [] a

-- The session is taken over also from a reply that refuses the login.
unfoldable pub server_auth_reply_packet_handler : Cookies → Server.AuthResponse → App → App
server_auth_reply_packet_handler cookies response a =
    reply_output response.status on_login success (codes "Login success.") response.message
      (record a { cookie = record a.cookie { client_session = response.session } })

unfoldable pub server_bye_reply_packet_handler : Cookies → Server.ByeResponse → App → App
server_bye_reply_packet_handler cookies response a =
    reply_output response.status on_logout pending (codes "Logout success.")
      (codes "Logout failed.") a

unfoldable pub server_ping_reply_packet_handler : Cookies → Server.PingResponse → App → App
server_ping_reply_packet_handler cookies response a =
    reply_output response.status on_login success (codes "Ping success.") response.message a

module _ (j : Json) where
  -- The registrations of `main`, in its order.
  unfoldable pub routes : List (Buffer × Handler App)
  routes =
      (Cmd.msg, wrap_request j server_message_packet_handler)
      ∷ (Cmd.msg_reply, wrap_notice j server_message_reply_packet_handler)
      ∷ (Cmd.hello_reply, wrap_notice j server_hello_reply_packet_handler)
      ∷ (Cmd.auth_reply, wrap_notice j server_auth_reply_packet_handler)
      ∷ (Cmd.bye_reply, wrap_notice j server_bye_reply_packet_handler)
      ∷ (Cmd.ping_reply, wrap_notice j server_ping_reply_packet_handler)
      ∷ []

  -- `main`: the dispatcher that the TCP client is given.
  unfoldable pub create_dispatcher : (Buffer → ℕ) → Option (Table (Handler App))
  create_dispatcher hash = handle_all hash routes []

-- ===== src/Chat.antt =====
-- The server application, src/server/app.cpp: its packet handlers and the dispatcher that `main`
-- fills. Its state stands on that of the TCP server, whose list of clients it sends to. The engines
-- of `add_client` are the parameter `engine`: `engine n` draws for the `n`-th session.
pub mod Commands
pub mod Login
pub mod Answers
pub mod Message
pub mod Broadcast
pub mod Startup
pub mod Keeping
pub mod Listed
pub mod Stopping
pub mod Requests
pub mod Stream
pub mod Connection
pub mod Delivery
use gologincase.Common.{
  ℕ, suc, ◌+◌, ◌%◌, Bool, true, false, List, [], ◌∷◌, Option, none, some, Buffer, Table, codes,
  if◌then◌else◌,
}
use gologincase.Messages.Json.{Json, to}
use gologincase.Messages.Commands as Cmd
use gologincase.Messages.Client
use gologincase.Messages.Client.{
  client_hello_request_message, client_ping_request_message, client_auth_request_message,
  client_bye_request_message, client_msg_request_message, client_msg_response_message,
}
use gologincase.Messages.Server
use gologincase.Messages.Server.{
  server_hello_response_message, server_auth_response_message, server_bye_response_message,
  server_msg_request_message, server_msg_response_message,
}
use gologincase.Provider.{
  Provider, Cookies, AuthClient, ClientStatus, accepted, is_accepted, is_removed, status_client,
  add_client, rem_client, get_clients,
}
use gologincase.Dispatcher.{Handler, wrap_request, wrap_notice, handle_all}
use gologincase.Tcp.Server.{State, send_to}

-- `m_auth_provider`, and how many engines its calls have made.
pub record App : Type 0 where
  pub provider : Provider
  pub engines : ℕ

abbrev pub World : Type 0
World = State App

abbrev pub ok : Buffer
ok = codes "ok"

abbrev pub failed : Buffer
failed = codes "failed"

-- A number assigned to a `std::string`: the one assignment that fits takes a `char`, so that the
-- string becomes the one byte that is left of the number.
unfoldable pub assign_number : ℕ → Buffer
assign_number n = n % 256 ∷ []

unfoldable pub client_hello_packet_handler :
    Cookies
    → Client.HelloRequest
    → Server.HelloResponse
    → World
    → Server.HelloResponse × World × Bool
client_hello_packet_handler cookies request response s = (
  record response { id = request.id; command = Cmd.hello; auth_method = codes "plain-text" },
  s,
  false,
)

-- The response has the type of the answer to a login.
unfoldable pub client_ping_packet_handler :
    Cookies → Client.PingRequest → Server.AuthResponse → World → Server.AuthResponse × World × Bool
client_ping_packet_handler cookies request response s =
    let named = record response { id = request.id; command = Cmd.ping_reply } in
    if is_accepted (status_client s.app.provider request.id request.session)
    then (record named { status = ok; message = [] }, s, false)
    else (record named { status = failed; message = codes "client not registred" }, s, false)

module _ (engine : ℕ → ℕ → ℕ) where
  unfoldable pub client_login_packet_handler :
      Cookies
      → Client.AuthRequest
      → Server.AuthResponse
      → World
      → Server.AuthResponse × World × Bool
  client_login_packet_handler cookies request response s =
      let named = record response { id = request.id; command = Cmd.auth } in
      let (status, provider, session) =
        add_client s.app.provider (engine s.app.engines) request.id cookies request.login
          request.password [] in
      if is_accepted status
      then (
        record named { status = ok; session = session; message = [] },
        record s { app = record { provider = provider; engines = suc s.app.engines } },
        false,
      )
      else (
        record named {
          status = failed;
          message = codes "wrong auth login or pass";
          session = session;
        },
        record s { app = record s.app { provider = provider } },
        false,
      )

unfoldable pub client_logout_packet_handler :
    Cookies → Client.ByeRequest → Server.ByeResponse → World → Server.ByeResponse × World × Bool
client_logout_packet_handler cookies request response s =
    let named = record response { id = request.id; command = Cmd.bye_reply } in
    let (status, provider) = rem_client s.app.provider request.id request.session in
    let left = record s { app = record s.app { provider = provider } } in
    if is_removed status
    then (record named { status = ok }, left, false)
    else (record named { status = failed }, left, false)

-- What is sent to a client when somebody says `body`.
unfoldable pub message_for : AuthClient → Buffer → Server.MsgRequest
message_for c body = record {
  id = c.id;
  command = Cmd.msg;
  body = body;
  sender_login = c.login;
  session = c.session;
}

module _ (j : Json) (accepts : ℕ → Buffer → Bool) where
  -- The loop over the clients. A message that cannot be packed ends it by an exception.
  unfoldable pub broadcast : List AuthClient → Buffer → World → World × Bool
  broadcast [] body s = (s, false)
  broadcast (c ∷ cs) body s = elim (to j (message_for c body)) [
    | none ↦ (s, true)
    | some b ↦ broadcast cs body (send_to accepts c.cookie Cmd.msg b s).1
  ]

  unfoldable pub client_message_packet_handler :
      Cookies → Client.MsgRequest → Server.MsgResponse → World → Server.MsgResponse × World × Bool
  client_message_packet_handler cookies request response s =
      let named = record response { id = request.id; command = Cmd.msg_reply } in
      if is_accepted (status_client s.app.provider request.id request.session)
      then (let (sent, raised) = broadcast (get_clients s.app.provider accepted) request.body s in
          (
            record named { status = ok; client_id = assign_number request.id; message = [] },
            sent,
            raised,
          ))
      else (
        record named {
          status = failed;
          client_id = assign_number request.id;
          message = codes "client not registered";
        },
        s,
        false,
      )

-- It only writes to the log.
unfoldable pub client_message_reply_packet_handler : Cookies → Client.MsgResponse → World → World
client_message_reply_packet_handler cookies response s = s

module _ (j : Json) (accepts : ℕ → Buffer → Bool) (engine : ℕ → ℕ → ℕ) where
  -- The registrations of `main`, in its order.
  unfoldable pub routes : List (Buffer × Handler World)
  routes =
      (Cmd.hello, wrap_request j client_hello_packet_handler)
      ∷ (Cmd.ping, wrap_request j client_ping_packet_handler)
      ∷ (Cmd.auth, wrap_request j (client_login_packet_handler engine))
      ∷ (Cmd.bye, wrap_request j client_logout_packet_handler)
      ∷ (Cmd.msg, wrap_request j (client_message_packet_handler j accepts))
      ∷ (Cmd.msg_reply, wrap_notice j client_message_reply_packet_handler)
      ∷ []

  -- `main`: the dispatcher that the TCP server is given.
  unfoldable pub create_dispatcher : (Buffer → ℕ) → Option (Table (Handler World))
  create_dispatcher hash = handle_all hash routes []

-- ===== src/Examples/Windows.antt =====
-- The client application.
use gologincase.Common.{◌≡◌, refl, true, false, List, [], ◌∷◌, ◌++◌, Buffer, codes, arith}
use gologincase.Messages.Commands as Cmd
use gologincase.Messages.Client
use gologincase.Messages.Client.{client_auth_request_message, client_msg_request_message}
use gologincase.Messages.Server
use gologincase.Tcp.Client as Tcp
use gologincase.Gui.{App, on_recv, success, output_handler, server_message_packet_handler}
use gologincase.Gui.Events.{Event, auth_reply, says, run, run-cookie, message_refused}
use gologincase.Common.{Table, take, drop}
use gologincase.Packet.{create_packet, size_of}
use gologincase.Messages.Server.{server_auth_response_message}
use gologincase.Dispatcher.{Handler}
use gologincase.Tcp.Errors.{wsa_none, no_error}
use gologincase.Tcp.Session as Session
use gologincase.Tcp.Session.{Answers, got}
use gologincase.Chat.{World}
use gologincase.Chat.Commands.{create_dispatcher_serves}
use gologincase.Examples.Codec.{codec}
use gologincase.Examples.Streams.{handlers as client_handlers}
use gologincase.Provider as Provider
use gologincase.Examples.Data.{accepts, cookies, login, pass, engine, hash, hash-NoCollision}

abbrev window : App
window = record {
  cookie = record { client_id = 1; client_session = []; client_login = [] };
  client = Tcp.create 5;
  handled = λ action. true;
  outputs = [];
}

-- A login succeeds, a message is said, and a second login is refused.
abbrev granted : Server.AuthResponse
granted = record {
  id = 1;
  command = Cmd.auth;
  status = codes "ok";
  session = codes "abc";
  message = [];
}

abbrev refused : Server.AuthResponse
refused = record granted { status = codes "failed"; session = [] }

abbrev events : List Event
events = auth_reply granted ∷ says (codes "hi") ∷ auth_reply refused ∷ []

run-cookie_example :
    ((run codec accepts cookies window events).cookie.client_login ≡ [])
    × ((run codec accepts cookies window events).cookie.client_session ≡ [])
run-cookie_example = run-cookie codec accepts cookies window events

abbrev hi : Server.MsgRequest
hi = record { id = 1; command = Cmd.msg; body = codes "hi"; sender_login = login; session = [] }

abbrev blank : Client.MsgResponse
blank = record { id = 0; command = []; status = []; client_id = []; message = [] }

message_refused_example :
    let now = run codec accepts cookies window events in
    let (answer, next, raised) = server_message_packet_handler cookies hi blank now in
    (answer.status ≡ codes "failed")
    × (next ≡ output_handler on_recv success login (codes "hi") now)
    × (raised ≡ false)
message_refused_example =
    message_refused codec accepts cookies window events hi blank refl (ground arith)

-- What the server reads of the login of the window.
abbrev packet : Buffer
packet =
    4 ∷ 2 ∷ 0 ∷ 1 ∷ codes "id"
    ++ (7 ∷ 1 ∷ 5 ∷ codes "command" ++ Cmd.auth)
    ++ (5 ∷ 1 ∷ 4 ∷ codes "login" ++ login)
    ++ (8 ∷ 1 ∷ 4 ∷ codes "password" ++ pass)

abbrev reads : Answers
reads = record {
  header = got (take 32 (create_packet Cmd.auth packet ++ []));
  body = got (
      take (size_of (take 32 (create_packet Cmd.auth packet ++ [])))
        (drop 32 (create_packet Cmd.auth packet ++ [])));
  last_error = wsa_none;
  so_error = no_error;
  ioctl_done = true;
}

-- The dispatcher of the server.
abbrev handlers : Table (Handler World)
handlers = (create_dispatcher_serves codec accepts engine hash hash-NoCollision).0

-- The window's number is registered, so that its login is refused.
abbrev denied : Server.AuthResponse
denied = record {
  id = 1;
  command = Cmd.auth;
  status = codes "failed";
  session = [];
  message = codes "wrong auth login or pass";
}

abbrev denied_text : Buffer
denied_text =
    5 ∷ 2 ∷ 0 ∷ 1 ∷ codes "id"
    ++ (7 ∷ 1 ∷ 5 ∷ codes "command" ++ Cmd.auth)
    ++ (6 ∷ 1 ∷ 6 ∷ codes "status" ++ codes "failed")
    ++ (7 ∷ 1 ∷ 0 ∷ codes "session")
    ++ (7 ∷ 1 ∷ 24 ∷ codes "message" ++ codes "wrong auth login or pass")

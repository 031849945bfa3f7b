-- ===== src/Examples/Streams.antt =====
-- Streams of packets, and requests one after another.
use gologincase.Common.{
  ℕ, ◌≡◌, refl, true, false, List, [], ◌∷◌, ◌++◌, some, Buffer, Table, All, codes, replicate, arith,
  str_eq, from_le, find, is_some,
}
use gologincase.Packet.Stream.{Fits, stream}
use gologincase.Messages.Commands as Cmd
use gologincase.Messages.Client.{client_msg_response_message}
use gologincase.Messages.Server
use gologincase.Messages.Server.{
  server_hello_response_message, server_auth_response_message, server_bye_response_message,
  server_msg_request_message, server_msg_response_message, server_ping_response_message,
}
use gologincase.Provider.{create}
use gologincase.Dispatcher.{Handler}
use gologincase.Dispatcher.Routes.{distinct_routes, route, dispatch_routes}
use gologincase.Tcp.Session as Session
use gologincase.Tcp.Client as Tcp
use gologincase.Tcp.Client.{thread_loop}
use gologincase.Tcp.Client.Stream as ClientStream
use gologincase.Tcp.Server.{client_handler}
use gologincase.Tcp.Server.Stream.{rounds_of, serve_packets, Ended}
use gologincase.Chat.{World, create_dispatcher}
use gologincase.Chat.Commands.{create_dispatcher_serves}
use gologincase.Chat.Requests.{Request, ping, login, logout, message, expected}
use gologincase.Chat.Stream.{connected}
use gologincase.Chat.Connection as Connection
use gologincase.Chat.Connection.{registered_all, client_handler-registered}
use gologincase.Gui as Gui
use gologincase.Gui.{App, routes}
use gologincase.Gui.Replies.{
  Reply, greeted, logged_in, packets, perform_each, NoCollision, thread_loop-replies,
}
use gologincase.Messages.Json.{from, get_uint, get_text, member}
use gologincase.Examples.Codec.{codec}
use gologincase.Examples.Data as Data
use gologincase.Examples.Data.{
  accepts, engine, letters, hash, hash-NoCollision, cookies, msg_input, auth_input, from_msg_input,
  from_auth_input,
}

abbrev memories : List Buffer
memories = replicate 32 0 ∷ replicate 32 0 ∷ replicate 32 7 ∷ []

-- A login and a message, as the client packs them.
abbrev sent : List (Request × Buffer)
sent =
    (login cookies Data.auth_request, auth_input)
    ∷ (message cookies Data.msg_request, msg_input)
    ∷ []

sent-Fits : All Fits (Connection.packets sent)
sent-Fits = (
  (ground arith, omega arith, omega arith, ground arith),
  ((ground arith, omega arith, omega arith, ground arith), tt),
)

abbrev pub served : Table (Handler World)
served = (create_dispatcher_serves codec accepts engine hash hash-NoCollision).0

-- A server with nobody logged in.
abbrev empty : World
empty = record {
  app = record { provider = create Data.login Data.pass; engines = 0 };
  objects = [];
  client_list = [];
  trace = [];
}

made : create_dispatcher codec accepts engine hash ≡ some served
made = (create_dispatcher_serves codec accepts engine hash hash-NoCollision).1

client_handler-registered_example :
    let r =
      client_handler accepts hash served 7
        (rounds_of memories (stream (Connection.packets sent)))
        0
        empty in
    Ended accepts hash served 7 0
      (Session.create 7)
      (serve_packets accepts hash served 7 0
        (Connection.packets sent)
        (connected codec accepts engine hash served made 7 0 empty))
      r
    × ((k : ℕ)
        → is_some (find k r.1.app.provider.clients)
          ≡ registered_all Data.login Data.pass sent (λ n. false) k)
client_handler-registered_example =
    client_handler-registered codec accepts engine hash hash-NoCollision served made letters
      Data.login Data.pass 7 0 sent memories empty (ground arith) refl
      ((refl, from_auth_input), ((refl, from_msg_input), tt)) sent-Fits (refl, (refl, (refl, tt)))
      (omega arith)

-- The client of the login stays registered, and no other is.
registered_sent :
    (registered_all Data.login Data.pass sent (λ n. false) 2 ≡ true)
    × (registered_all Data.login Data.pass sent (λ n. false) 1 ≡ false)
unfolding str_eq
registered_sent = (refl, refl)

-- The client: a greeting and a login are answered.
abbrev pub window : App
window = record {
  cookie = record { client_id = 1; client_session = []; client_login = [] };
  client = Tcp.create 5;
  handled = λ action. true;
  outputs = [];
}

abbrev greeting : Server.HelloResponse
greeting = record { id = 1; command = Cmd.hello; auth_method = codes "plain-text" }

abbrev granted : Server.AuthResponse
granted = record {
  id = 1;
  command = Cmd.auth;
  status = codes "ok";
  session = codes "abc";
  message = [];
}

abbrev greeting_text : Buffer
greeting_text =
    3 ∷ 2 ∷ 0 ∷ 1 ∷ codes "id"
    ++ (7 ∷ 1 ∷ 5 ∷ codes "command" ++ Cmd.hello)
    ++ (11 ∷ 1 ∷ 10 ∷ codes "auth_method" ++ codes "plain-text")

abbrev granted_text : Buffer
granted_text =
    5 ∷ 2 ∷ 0 ∷ 1 ∷ codes "id"
    ++ (7 ∷ 1 ∷ 5 ∷ codes "command" ++ Cmd.auth)
    ++ (6 ∷ 1 ∷ 2 ∷ codes "status" ++ codes "ok")
    ++ (7 ∷ 1 ∷ 3 ∷ codes "session" ++ codes "abc")
    ++ (7 ∷ 1 ∷ 0 ∷ codes "message")

from_greeting : from codec greeting_text ≡ some greeting
unfolding from get_uint get_text member str_eq
from_greeting = refl

from_granted : from codec granted_text ≡ some granted
unfolding from get_uint get_text member str_eq
from_granted = refl

abbrev replies : List (Reply × Buffer)
replies = (greeted greeting, greeting_text) ∷ (logged_in granted, granted_text) ∷ []

replies-Fits : All Fits (packets replies)
replies-Fits = (
  (ground arith, omega arith, omega arith, ground arith),
  ((ground arith, omega arith, omega arith, ground arith), tt),
)

pub hash-apart : NoCollision hash
unfolding from_le
hash-apart = ground arith

pub handlers : (t : Table (Handler App)) × (Gui.create_dispatcher codec hash ≡ some t)
unfolding Gui.create_dispatcher distinct_routes route routes from_le
handlers = let made = (dispatch_routes hash (routes codec)).1 refl in (made.0, made.1)

thread_loop-replies_example :
    thread_loop hash handlers.0 5
      (ClientStream.rounds_of memories (stream (packets replies)))
      window
    ≡ some (perform_each (record { server_client_id = 5 }) replies window, false)
thread_loop-replies_example =
    thread_loop-replies codec hash hash-apart handlers.0 handlers.1 5 replies memories window
      (from_greeting, (from_granted, tt)) replies-Fits (refl, (refl, (refl, tt))) (omega arith)

-- A ping before the login, the login, a ping, the logout, and a message.
abbrev requests : List Request
requests =
    ping cookies (record { id = 2; command = Cmd.ping; session = [] })
    ∷ login cookies Data.auth_request
    ∷ ping cookies (record { id = 2; command = Cmd.ping; session = [] })
    ∷ logout cookies (record { id = 2; command = Cmd.bye; session = [] })
    ∷ message cookies Data.msg_request
    ∷ []

-- What the contract says of them.
expected-requests :
    expected Data.login Data.pass requests (λ k. false) ≡ false ∷ true ∷ true ∷ true ∷ false ∷ []
unfolding str_eq
expected-requests = refl

-- ===== src/Examples/Served.antt =====
-- Packets of a client, from the header to the answer.
use gologincase.Common.{
  ◌⊎◌, ◌≤◌, ◌%◌, ◌≤◌, ◌<◌, ◌≡◌, ◌≢◌, refl, true, false, [], ◌++◌, none, some, Buffer, Table, find,
  arith, length,
}
use gologincase.Packet.{cmd_of}
use gologincase.Messages.Json.{from}
use gologincase.Messages.Commands as Cmd
use gologincase.Messages.Client.{
  client_hello_request_message, client_ping_request_message, client_auth_request_message,
  client_bye_request_message, client_msg_request_message, client_msg_response_message,
}
use gologincase.Messages.Server.{
  server_hello_response_message, server_auth_response_message, server_bye_response_message,
  server_msg_request_message, server_msg_response_message,
}
use gologincase.Provider.{accepted, generate}
use gologincase.Dispatcher.{Handler, handle_all, dispatch, wrap_request, wrap_notice}
use gologincase.Dispatcher.Routes.{route, distinct_routes, serve, dispatch_routes}
use gologincase.Tcp.Server.{packet_handler}
use gologincase.Tcp.Server.Replies.{packet_to, socket_of, outcome, packet_handler_reply}
use gologincase.Chat.{
  World, ok, failed, routes, create_dispatcher, client_hello_packet_handler,
  client_ping_packet_handler, client_login_packet_handler, client_logout_packet_handler,
  client_message_packet_handler, client_message_reply_packet_handler,
}
use gologincase.Chat.Commands.{Serves, create_dispatcher_serves}
use gologincase.Chat.Message.{said, answer, message_packet}
use gologincase.Chat.Login.{Admits, answered, client_login_packet_handler_lem}
use gologincase.Examples.Codec.{codec, codec_laws, is_ascii}
use gologincase.Examples.Data.{
  engine, accepts, hash, hash-NoCollision, cookies, world, world-Inv, world_login, msg_request,
  auth_request, msg_input, from_msg_input, msg_header, cmd_of-msg_header,
}

dispatch_routes_example :
    (distinct_routes hash (routes codec accepts engine) ≡ false
      → handle_all hash (routes codec accepts engine) [] ≡ none)
    × (distinct_routes hash (routes codec accepts engine) ≡ true
        → (t : Table (Handler World)) × (handle_all hash (routes codec accepts engine) [] ≡ some t)
          × ((cmd : Buffer) (cookies : _) (input out : Buffer) (s : World)
              → dispatch hash t cmd cookies input out s
                ≡ serve hash
                    (route hash (hash cmd) (routes codec accepts engine))
                    cmd
                    cookies
                    input
                    out
                    s))
dispatch_routes_example = dispatch_routes hash (routes codec accepts engine)

client_login_packet_handler_lem_example :
    let (response, next, raised) = answered engine cookies auth_request world in
    (raised ≡ false)
    × (response.id ≡ 2)
    × (response.command ≡ Cmd.auth)
    × (next.trace ≡ [])
    × (Admits world.app.provider auth_request
        → (response.status ≡ ok)
          × (response.session ≡ generate (engine 1) 32 0)
          × (find 2 next.app.provider.clients
              ≡ some (record {
                cookie = cookies;
                id = 2;
                session = response.session;
                login = world.app.provider.client_login;
                status = accepted;
              })))
    × (¬ Admits world.app.provider auth_request
        → (response.status ≡ failed) × (response.session ≡ []) × (next.app ≡ world.app))
client_login_packet_handler_lem_example =
    client_login_packet_handler_lem engine cookies auth_request world

-- The dispatcher of the server with its handlers.
abbrev served :
    (t : Table (Handler World)) × (create_dispatcher codec accepts engine hash ≡ some t)
    × Serves hash t Cmd.hello (wrap_request codec client_hello_packet_handler)
    × Serves hash t Cmd.ping (wrap_request codec client_ping_packet_handler)
    × Serves hash t Cmd.auth (wrap_request codec (client_login_packet_handler engine))
    × Serves hash t Cmd.bye (wrap_request codec client_logout_packet_handler)
    × Serves hash t Cmd.msg (wrap_request codec (client_message_packet_handler codec accepts))
    × Serves hash t Cmd.msg_reply (wrap_notice codec client_message_reply_packet_handler)
served = create_dispatcher_serves codec accepts engine hash hash-NoCollision

message_packet_example :
    let result = packet_handler accepts hash served.0 7 msg_header msg_input 0 world in
    (128 ≤ 1 % 256 → result ≡ some (said codec world msg_request))
    × (1 % 256 < 128
        → (b : Buffer) × (from codec b ≡ some (answer world msg_request))
          × (result
              ≡ some (record (said codec world msg_request) {
                trace =
                    (said codec world msg_request).trace
                    ++ packet_to (socket_of world 0) Cmd.msg_reply b;
              })))
message_packet_example =
    message_packet codec is_ascii codec_laws accepts world world-Inv world_login hash served.0
      served.6 7 msg_header msg_input 0 msg_request cmd_of-msg_header from_msg_input refl
      (omega arith)

packet_handler_reply_example :
    (cmd_of msg_header ≡ none
      → packet_handler accepts hash served.0 7 msg_header msg_input 0 world ≡ none)
    × ((cmd : Buffer)
        → cmd_of msg_header ≡ some cmd
        → let r = outcome hash served.0 7 cmd msg_input world in
          ((r.out ≡ []) ⊎ (16 ≤ length r.cmd)
            → packet_handler accepts hash served.0 7 msg_header msg_input 0 world ≡ some r.state)
          × (r.out ≢ []
              → length r.cmd < 16
              → packet_handler accepts hash served.0 7 msg_header msg_input 0 world
                ≡ some (record r.state {
                  trace = r.state.trace ++ packet_to (socket_of r.state 0) r.cmd r.out;
                })))
packet_handler_reply_example =
    packet_handler_reply accepts hash served.0 7 msg_header msg_input 0 world

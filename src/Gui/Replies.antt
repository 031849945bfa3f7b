-- ===== src/Gui/Replies.antt =====
-- What the client's thread makes of the packets that the server sends it.
use gologincase.Common.{
  ℕ, ◌≤◌, ◌≡◌, refl, ap, ◌∙◌, Bool, true, false, List, [], ◌∷◌, some, Buffer, Table, All, length,
  arith,
}
use gologincase.Packet.Stream.{Fits, stream}
use gologincase.Messages.Json.{Json, Message, from}
use gologincase.Messages.Commands as Cmd
use gologincase.Messages.Client.{client_msg_response_message}
use gologincase.Messages.Server
use gologincase.Messages.Server.{
  server_hello_response_message, server_auth_response_message, server_bye_response_message,
  server_msg_request_message, server_msg_response_message, server_ping_response_message,
}
use gologincase.Provider.{Cookies}
use gologincase.Dispatcher.{Handler, Outcome, dispatch, wrap_request, wrap_notice, pack_response}
use gologincase.Dispatcher.Routes.{route, distinct_routes, dispatch_routes, serve}
use gologincase.Chat.Commands.{Differ}
use gologincase.Tcp.Client.{thread_loop}
use gologincase.Tcp.Client.Stream.{rounds_of, dispatch_all, thread_loop-stream}
use gologincase.Gui.{
  App, routes, create_dispatcher, server_message_packet_handler,
  server_message_reply_packet_handler, server_hello_reply_packet_handler,
  server_auth_reply_packet_handler, server_bye_reply_packet_handler,
  server_ping_reply_packet_handler,
}

-- What the server sends: the message of somebody, and the answers to the requests of the client.
pub data Reply : Type 0 where
  says : Server.MsgRequest → Reply
  said : Server.MsgResponse → Reply
  greeted : Server.HelloResponse → Reply
  logged_in : Server.AuthResponse → Reply
  logged_out : Server.ByeResponse → Reply
  pinged : Server.PingResponse → Reply

-- The command of its packet.
abbrev pub command : Reply → Buffer
command (says r) = Cmd.msg
command (said r) = Cmd.msg_reply
command (greeted r) = Cmd.hello_reply
command (logged_in r) = Cmd.auth_reply
command (logged_out r) = Cmd.bye_reply
command (pinged r) = Cmd.ping_reply

-- What the handler of a reply makes of the application.
abbrev pub perform : Cookies → Reply → App → App
perform c (says r) a = (server_message_packet_handler c r client_msg_response_message.blank a).1
perform c (said r) a = server_message_reply_packet_handler c r a
perform c (greeted r) a = server_hello_reply_packet_handler c r a
perform c (logged_in r) a = server_auth_reply_packet_handler c r a
perform c (logged_out r) a = server_bye_reply_packet_handler c r a
perform c (pinged r) a = server_ping_reply_packet_handler c r a

abbrev pub perform_each : Cookies → List (Reply × Buffer) → App → App
perform_each c [] a = a
perform_each c ((r, b) ∷ rs) a = perform_each c rs (perform c r a)

abbrev pub packets : List (Reply × Buffer) → List (Buffer × Buffer)
packets [] = []
packets ((r, b) ∷ rs) = (command r, b) ∷ packets rs

-- The commands that the client registers have different hashes.
abbrev pub NoCollision : (Buffer → ℕ) → Type 0
NoCollision hash = Differ (
    hash Cmd.msg
    ∷ hash Cmd.msg_reply
    ∷ hash Cmd.hello_reply
    ∷ hash Cmd.auth_reply
    ∷ hash Cmd.bye_reply
    ∷ hash Cmd.ping_reply
    ∷ [])

module _ (j : Json) where
  -- A text is read as a reply.
  abbrev pub Reads : Reply × Buffer → Type 0
  Reads (says r, b) = from j b ≡ some r
  Reads (said r, b) = from j b ≡ some r
  Reads (greeted r, b) = from j b ≡ some r
  Reads (logged_in r, b) = from j b ≡ some r
  Reads (logged_out r, b) = from j b ≡ some r
  Reads (pinged r, b) = from j b ≡ some r

  wrap_notice-state :
      {Req : Type 0} ⦃q : Message Req⦄ (f : Cookies → Req → App → App) (cmd : Buffer) (c : Cookies)
      (input : Buffer) (req : Req) (a : App)
      → from j input ≡ some req
      → (wrap_notice j f cmd c input [] a).state ≡ f c req a
  unfolding wrap_notice
  wrap_notice-state f cmd c input req a e = rw (e, wrap_notice) refl

  handler : Reply → Handler App
  handler (says r) = wrap_request j server_message_packet_handler
  handler (said r) = wrap_notice j server_message_reply_packet_handler
  handler (greeted r) = wrap_notice j server_hello_reply_packet_handler
  handler (logged_in r) = wrap_notice j server_auth_reply_packet_handler
  handler (logged_out r) = wrap_notice j server_bye_reply_packet_handler
  handler (pinged r) = wrap_notice j server_ping_reply_packet_handler

  handler-state :
      (r : Reply) (b : Buffer) (c : Cookies) (a : App)
      → Reads (r, b)
      → (handler r (command r) c b [] a).state ≡ perform c r a
  unfolding handler wrap_request pack_response server_message_packet_handler
  handler-state (says r) b c a e = ground (arith, e)
  handler-state (said r) b c a e = wrap_notice-state server_message_reply_packet_handler _ c b r a e
  handler-state (greeted r) b c a e =
      wrap_notice-state server_hello_reply_packet_handler _ c b r a e
  handler-state (logged_in r) b c a e =
      wrap_notice-state server_auth_reply_packet_handler _ c b r a e
  handler-state (logged_out r) b c a e =
      wrap_notice-state server_bye_reply_packet_handler _ c b r a e
  handler-state (pinged r) b c a e = wrap_notice-state server_ping_reply_packet_handler _ c b r a e

  module _ (hash : Buffer → ℕ) (apart : NoCollision hash) where
    distinct_routes-routes : distinct_routes hash (routes j) ≡ true
    unfolding distinct_routes routes
    distinct_routes-routes = ground arith

    route-handler : (r : Reply) → route hash (hash (command r)) (routes j) ≡ some (handler r)
    unfolding route routes handler
    route-handler (says r) = ground arith
    route-handler (said r) = ground arith
    route-handler (greeted r) = ground arith
    route-handler (logged_in r) = ground arith
    route-handler (logged_out r) = ground arith
    route-handler (pinged r) = ground arith

    -- The registrations of the client succeed.
    pub registered : (t : Table (Handler App)) × (create_dispatcher j hash ≡ some t)
    unfolding create_dispatcher
    registered =
        let (t, made, all) = (dispatch_routes hash (routes j)).1 distinct_routes-routes in (t, made)

    dispatch-perform :
        (t : Table (Handler App)) (r : Reply) (b : Buffer) (c : Cookies) (a : App)
        → create_dispatcher j hash ≡ some t
        → Reads (r, b)
        → (dispatch hash t (command r) c b [] a).0.state ≡ perform c r a
    unfolding create_dispatcher
    dispatch-perform t r b c a made e =
        let (t', made', all) = (dispatch_routes hash (routes j)).1 distinct_routes-routes in
        let same : t ≡ t' = cc in
        ap (λ (x : Table (Handler App)). (dispatch hash x (command r) c b [] a).0.state) same
        ∙ ap (λ (o : Outcome App × Bool). o.0.state) (all (command r) c b [] a)
        ∙ ap (λ h. (serve hash h (command r) c b [] a).0.state) (route-handler r)
        ∙ handler-state r b c a e

    module _ (t : Table (Handler App)) (made : create_dispatcher j hash ≡ some t) (socket : ℕ) where
      dispatch_all-perform :
          (rs : List (Reply × Buffer)) (a : App)
          → All Reads rs
          → dispatch_all hash t socket (packets rs) a
            ≡ perform_each (record { server_client_id = socket }) rs a
      dispatch_all-perform [] a read = refl
      dispatch_all-perform ((r, b) ∷ rs) a read =
          ap (dispatch_all hash t socket (packets rs))
            (dispatch-perform t r b (record { server_client_id = socket }) a made read.0)
          ∙ dispatch_all-perform rs (perform (record { server_client_id = socket }) r a) read.1

      -- If the commands that the client registers have different hashes: on a stream of packets that fit a
      -- header, each with the command of a reply and a text that is read as that reply, the thread of a
      -- client that stays connected runs the handlers of the replies in the order of their packets, each
      -- once, when its reads are answered in full. The end of the stream does not end it: after any number
      -- of further rounds it is still in its loop, and has done nothing more.
      pub thread_loop-replies :
          (rs : List (Reply × Buffer)) (ms : List Buffer) (a : App)
          → All Reads rs
          → All Fits (packets rs)
          → All (λ m. length m ≡ 32) ms
          → length (packets rs) ≤ length ms
          → thread_loop hash t socket (rounds_of ms (stream (packets rs))) a
            ≡ some (perform_each (record { server_client_id = socket }) rs a, false)
      thread_loop-replies rs ms a read fits full enough =
          thread_loop-stream hash t socket (packets rs) ms a fits full enough
          ∙ ap (λ (b : App). some (b, false)) (dispatch_all-perform rs a read)

-- ===== src/Chat/Commands.antt =====
-- The dispatcher that `main` fills serves each command by its handler.
use gologincase.Common.{
  ℕ, ◌≡◌, ◌≢◌, ap, ◌∙◌, Bool, true, false, List, [], ◌∷◌, some, Buffer, Table, All, arith,
}
use gologincase.Messages.Json.{Json, Message, from}
use gologincase.Messages.Commands as Cmd
use gologincase.Messages.Client.{
  client_hello_request_message, client_ping_request_message, client_auth_request_message,
  client_bye_request_message, client_msg_request_message, client_msg_response_message,
}
use gologincase.Messages.Server.{
  server_hello_response_message, server_auth_response_message, server_bye_response_message,
  server_msg_request_message, server_msg_response_message,
}
use gologincase.Provider.{Cookies}
use gologincase.Dispatcher.{Handler, Outcome, dispatch, wrap_request, wrap_notice, pack_response}
use gologincase.Dispatcher.Routes.{route, distinct_routes, dispatch_routes, serve}
use gologincase.Tcp.Server.Replies.{outcome}
use gologincase.Chat.{
  World, routes, create_dispatcher, client_hello_packet_handler, client_ping_packet_handler,
  client_login_packet_handler, client_logout_packet_handler, client_message_packet_handler,
  client_message_reply_packet_handler,
}

-- The numbers of a list differ.
abbrev pub Differ : List ℕ → Type 0
Differ [] = Unit {0}
Differ (x ∷ xs) = All (λ y. x ≢ y) xs × Differ xs

-- The commands that the server registers have different hashes.
abbrev pub NoCollision : (Buffer → ℕ) → Type 0
NoCollision hash = Differ (
    hash Cmd.hello
    ∷ hash Cmd.ping
    ∷ hash Cmd.auth
    ∷ hash Cmd.bye
    ∷ hash Cmd.msg
    ∷ hash Cmd.msg_reply
    ∷ [])

module _ (j : Json) (accepts : ℕ → Buffer → Bool) (engine : ℕ → ℕ → ℕ) (hash : Buffer → ℕ)
    (apart : NoCollision hash) where
  distinct_routes-routes : distinct_routes hash (routes j accepts engine) ≡ true
  unfolding distinct_routes routes
  distinct_routes-routes = ground arith

  abbrev Routed : Buffer → Handler World → Type 0
  Routed cmd h = route hash (hash cmd) (routes j accepts engine) ≡ some h

  route_hello : Routed Cmd.hello (wrap_request j client_hello_packet_handler)
  unfolding route routes
  route_hello = ground arith

  route_ping : Routed Cmd.ping (wrap_request j client_ping_packet_handler)
  unfolding route routes
  route_ping = ground arith

  route_auth : Routed Cmd.auth (wrap_request j (client_login_packet_handler engine))
  unfolding route routes
  route_auth = ground arith

  route_bye : Routed Cmd.bye (wrap_request j client_logout_packet_handler)
  unfolding route routes
  route_bye = ground arith

  route_msg : Routed Cmd.msg (wrap_request j (client_message_packet_handler j accepts))
  unfolding route routes
  route_msg = ground arith

  route_msg_reply : Routed Cmd.msg_reply (wrap_notice j client_message_reply_packet_handler)
  unfolding route routes
  route_msg_reply = ground arith

-- A dispatcher runs a handler for a command.
abbrev pub Serves : (Buffer → ℕ) → Table (Handler World) → Buffer → Handler World → Type 0
Serves hash t cmd h =
    (cookies : Cookies) (input out : Buffer) (s : World)
    → dispatch hash t cmd cookies input out s ≡ serve hash (some h) cmd cookies input out s

-- The outcome of a command whose handler takes a request and does not throw.
pub served_request :
    (j : Json) (hash : Buffer → ℕ) (t : Table (Handler World)) {Req Resp : Type 0} ⦃q : Message Req⦄
    ⦃r : Message Resp⦄ (f : Cookies → Req → Resp → World → Resp × World × Bool) (cmd : Buffer)
    (cid : ℕ) (input : Buffer) (req : Req) (s : World)
    → Serves hash t cmd (wrap_request j f)
    → from j input ≡ some req
    → (f (record { server_client_id = cid }) req r.blank s).2 ≡ false
    → let (resp, next, _) = f (record { server_client_id = cid }) req r.blank s in
      outcome hash t cid cmd input s ≡ pack_response j cmd [] resp next false
unfolding wrap_request
served_request j hash t {Resp} ⦃r = r⦄ f cmd cid input req s serves e quiet =
    ap (λ (o : Outcome World × Bool). o.0) (serves cookies input [] s)
    ∙ rw (e, wrap_request) (ap (pack_response j cmd [] resp next) quiet)
  where
    cookies : Cookies
    cookies = record { server_client_id = cid }

    resp : Resp
    resp = (f cookies req r.blank s).0

    next : World
    next = (f cookies req r.blank s).1

module _ (j : Json) (accepts : ℕ → Buffer → Bool) (engine : ℕ → ℕ → ℕ) (hash : Buffer → ℕ)
    (apart : NoCollision hash) where
  -- The registrations of the server succeed if the commands that it registers have different hashes,
  -- and each of these commands is then served by its own handler.
  pub create_dispatcher_serves :
      (t : Table (Handler World)) × (create_dispatcher j accepts engine hash ≡ some t)
      × Serves hash t Cmd.hello (wrap_request j client_hello_packet_handler)
      × Serves hash t Cmd.ping (wrap_request j client_ping_packet_handler)
      × Serves hash t Cmd.auth (wrap_request j (client_login_packet_handler engine))
      × Serves hash t Cmd.bye (wrap_request j client_logout_packet_handler)
      × Serves hash t Cmd.msg (wrap_request j (client_message_packet_handler j accepts))
      × Serves hash t Cmd.msg_reply (wrap_notice j client_message_reply_packet_handler)
  unfolding create_dispatcher
  create_dispatcher_serves =
      let (t, made, all) =
        (dispatch_routes hash (routes j accepts engine)).1
          (distinct_routes-routes j accepts engine hash apart) in
      let at : (cmd : Buffer) (h : Handler World)
          → route hash (hash cmd) (routes j accepts engine) ≡ some h
          → Serves hash t cmd h =
        λ cmd h e cookies input out s.
          all cmd cookies input out s ∙ ap (λ r. serve hash r cmd cookies input out s) e in
      (
        t,
        made,
        at _ _ (route_hello j accepts engine hash apart),
        at _ _ (route_ping j accepts engine hash apart),
        at _ _ (route_auth j accepts engine hash apart),
        at _ _ (route_bye j accepts engine hash apart),
        at _ _ (route_msg j accepts engine hash apart),
        at _ _ (route_msg_reply j accepts engine hash apart),
      )

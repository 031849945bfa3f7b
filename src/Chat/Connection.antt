-- ===== src/Chat/Connection.antt =====
-- The requests of a connection, from the stream of its packets to the clients that are registered.
use gologincase.Common.{
  ℕ, ◌<◌, ◌≡◌, ◌≢◌, sym, ap, subst, ◌∙◌, Bool, false, List, [], ◌∷◌, some, Buffer, Table, All,
  length, find, is_some, arith,
}
use gologincase.Packet.Stream.{Fits, stream}
use gologincase.Messages.Json.{Json, Message, from}
use gologincase.Messages.Commands as Cmd
use gologincase.Messages.Client.{
  client_hello_request_message, client_ping_request_message, client_auth_request_message,
  client_bye_request_message, client_msg_request_message, client_msg_response_message,
}
use gologincase.Messages.Server.{
  server_hello_response_message, server_auth_response_message, server_bye_response_message,
  server_msg_request_message, server_msg_response_message,
}
use gologincase.Provider.{Cookies, create}
use gologincase.Provider.Invariant.{DrawsLetters}
use gologincase.Dispatcher.{Handler, Outcome, wrap_request, wrap_notice}
use gologincase.Tcp.{invalid_socket}
use gologincase.Tcp.Session as Session
use gologincase.Tcp.Server.{send_object, client_handler}
use gologincase.Tcp.Server.Replies.{outcome}
use gologincase.Tcp.Server.Stream.{rounds_of, serve_packets, Ended}
use gologincase.Chat.{
  World, App, create_dispatcher, client_hello_packet_handler, client_ping_packet_handler,
  client_login_packet_handler, client_logout_packet_handler, client_message_packet_handler,
  client_message_reply_packet_handler,
}
use gologincase.Chat.Commands.{NoCollision, Serves, create_dispatcher_serves}
use gologincase.Chat.Keeping.{pack_response-state}
use gologincase.Chat.Requests.{
  Request, hello, ping, login, logout, message, registered, handle_request, Matches, create-Matches,
  handle_request-Matches,
}
use gologincase.Chat.Stream.{connected, client_handler-stream}

abbrev pub command : Request → Buffer
command (hello c r) = Cmd.hello
command (ping c r) = Cmd.ping
command (login c r) = Cmd.auth
command (logout c r) = Cmd.bye
command (message c r) = Cmd.msg

abbrev pub packets : List (Request × Buffer) → List (Buffer × Buffer)
packets [] = []
packets ((q, b) ∷ qs) = (command q, b) ∷ packets qs

-- Who is registered after some requests.
abbrev pub registered_all : Buffer → Buffer → List (Request × Buffer) → (ℕ → Bool) → ℕ → Bool
registered_all name pass [] on = on
registered_all name pass ((q, b) ∷ qs) on = registered_all name pass qs (registered name pass q on)

module _ (j : Json) where
  -- A text is read as a request of the client with the number `cid`.
  abbrev pub Reads : ℕ → Request × Buffer → Type 0
  Reads cid (hello c r, b) = (c ≡ record { server_client_id = cid }) × (from j b ≡ some r)
  Reads cid (ping c r, b) = (c ≡ record { server_client_id = cid }) × (from j b ≡ some r)
  Reads cid (login c r, b) = (c ≡ record { server_client_id = cid }) × (from j b ≡ some r)
  Reads cid (logout c r, b) = (c ≡ record { server_client_id = cid }) × (from j b ≡ some r)
  Reads cid (message c r, b) = (c ≡ record { server_client_id = cid }) × (from j b ≡ some r)

  wrap_request-state :
      {Req Resp : Type 0} ⦃q : Message Req⦄ ⦃r : Message Resp⦄
      (f : Cookies → Req → Resp → World → Resp × World × Bool) (cmd : Buffer) (c : Cookies)
      (input : Buffer) (req : Req) (s : World)
      → from j input ≡ some req
      → (wrap_request j f cmd c input [] s).state ≡ (f c req r.blank s).1
  unfolding wrap_request
  wrap_request-state ⦃r = r⦄ f cmd c input req s e =
      let answered = f c req r.blank s in
      rw (e, wrap_request) (pack_response-state j cmd [] answered.0 answered.1 answered.2)

  module _ (hash : Buffer → ℕ) (t : Table (Handler World)) (cid : ℕ) where
    request-state :
        {Req Resp : Type 0} ⦃q : Message Req⦄ ⦃r : Message Resp⦄
        (f : Cookies → Req → Resp → World → Resp × World × Bool) (cmd : Buffer) (c : Cookies)
        (b : Buffer) (req : Req) (s : World)
        → Serves hash t cmd (wrap_request j f)
        → (c ≡ record { server_client_id = cid }) × (from j b ≡ some req)
        → (outcome hash t cid cmd b s).state ≡ (f c req r.blank s).1
    request-state ⦃r = r⦄ f cmd c b req s serves (same, e) =
        ap (λ (o : Outcome World × Bool). o.0.state)
          (serves (record { server_client_id = cid }) b [] s)
        ∙ wrap_request-state f cmd (record { server_client_id = cid }) b req s e
        ∙ ap (λ k. (f k req r.blank s).1) (sym same)

  module _ (accepts : ℕ → Buffer → Bool) (engine : ℕ → ℕ → ℕ) (hash : Buffer → ℕ)
      (apart : NoCollision hash) (t : Table (Handler World))
      (made : create_dispatcher j accepts engine hash ≡ some t) where
    -- What the dispatch of a request leaves.
    outcome-request :
        (cid : ℕ) (q : Request) (b : Buffer) (s : World)
        → Reads cid (q, b)
        → (outcome hash t cid (command q) b s).state ≡ (handle_request j accepts engine q s).1
    unfolding handle_request
    outcome-request cid q b s e =
        let same : t ≡ served.0 = (let made' = served.1 in cc) in
        ap (λ (x : Table (Handler World)). (outcome hash x cid (command q) b s).state) same
        ∙ by_request q e
      where
        served :
            (x : Table (Handler World)) × (create_dispatcher j accepts engine hash ≡ some x)
            × Serves hash x Cmd.hello (wrap_request j client_hello_packet_handler)
            × Serves hash x Cmd.ping (wrap_request j client_ping_packet_handler)
            × Serves hash x Cmd.auth (wrap_request j (client_login_packet_handler engine))
            × Serves hash x Cmd.bye (wrap_request j client_logout_packet_handler)
            × Serves hash x Cmd.msg (wrap_request j (client_message_packet_handler j accepts))
            × Serves hash x Cmd.msg_reply (wrap_notice j client_message_reply_packet_handler)
        served = create_dispatcher_serves j accepts engine hash apart

        by_request :
            (p : Request)
            → Reads cid (p, b)
            → (outcome hash served.0 cid (command p) b s).state
              ≡ (handle_request j accepts engine p s).1
        by_request (hello c r) h =
            request-state hash served.0 cid client_hello_packet_handler Cmd.hello c b r s served.2 h
        by_request (ping c r) h =
            request-state hash served.0 cid client_ping_packet_handler Cmd.ping c b r s served.3 h
        by_request (login c r) h =
            request-state hash served.0 cid (client_login_packet_handler engine) Cmd.auth c b r s
              served.4 h
        by_request (logout c r) h =
            request-state hash served.0 cid client_logout_packet_handler Cmd.bye c b r s served.5 h
        by_request (message c r) h =
            request-state hash served.0 cid (client_message_packet_handler j accepts) Cmd.msg c b r
              s served.6 h

    send_object-app :
        (o : ℕ) (cmd buff : Buffer) (s : World) → (send_object accepts o cmd buff s).1.app ≡ s.app
    unfolding send_object
    send_object-app o cmd buff s = ground arith

    module _ (letters : (n : ℕ) → DrawsLetters (engine n)) (name pass : Buffer)
        (cid object : ℕ) where
      serve_packets-Matches :
          (qs : List (Request × Buffer)) (s : World) (on : ℕ → Bool)
          → All (Reads cid) qs
          → Matches j accepts engine letters name pass s.app.provider on
          → Matches j accepts engine letters name pass
              (serve_packets accepts hash t cid object (packets qs) s).app.provider
              (registered_all name pass qs on)
      serve_packets-Matches [] s on read m = m
      serve_packets-Matches ((q, b) ∷ qs) s on read m =
          let r = outcome hash t cid (command q) b s in
          let served = (send_object accepts object r.cmd r.out r.state).1 in
          let same : served.app ≡ (handle_request j accepts engine q s).1.app =
            send_object-app object r.cmd r.out r.state
            ∙ ap (λ (w : World). w.app) (outcome-request cid q b s read.0) in
          serve_packets-Matches qs served (registered name pass q on) read.1 (
            subst
              (λ (a : App).
                Matches j accepts engine letters name pass a.provider (registered name pass q on))
              (sym same) (handle_request-Matches j accepts engine letters name pass q s on m))

      -- The commands of the server have different hashes and its engines draw letters; it has nobody
      -- registered, and stays up. A client with a valid socket connects, sends packets that fit a header,
      -- each with the command of a request and a text that is read as that request, and closes the
      -- connection; its reads are answered in full. Then its thread ends, having served each packet once
      -- and in order, the socket has been closed once, and no table of the server has the client. The
      -- clients that are then registered are those that the requests registered and did not take out:
      -- that the connection is gone takes nobody out.
      pub client_handler-registered :
          (qs : List (Request × Buffer)) (ms : List Buffer) (s : World)
          → cid ≢ invalid_socket
          → s.app.provider ≡ create name pass
          → All (Reads cid) qs
          → All Fits (packets qs)
          → All (λ m. length m ≡ 32) ms
          → length (packets qs) < length ms
          → let r =
              client_handler accepts hash t cid (rounds_of ms (stream (packets qs))) object s in
            Ended accepts hash t cid object
              (Session.create cid)
              (serve_packets accepts hash t cid object
                (packets qs)
                (connected j accepts engine hash t made cid object s))
              r
            × ((k : ℕ)
                → is_some (find k r.1.app.provider.clients)
                  ≡ registered_all name pass qs (λ n. false) k)
      client_handler-registered qs ms s valid new read fits full enough =
          let ended =
            client_handler-stream j accepts engine hash t made cid object (packets qs) ms s valid
              fits full enough in
          let m =
            serve_packets-Matches qs (connected j accepts engine hash t made cid object s)
              (λ n. false) read
              (subst (λ p. Matches j accepts engine letters name pass p (λ n. false)) (sym new)
                (create-Matches j accepts engine letters name pass)) in
          (
            ended,
            λ k. ap (λ (a : App). is_some (find k a.provider.clients)) ended.1 ∙ m.same_clients k,
          )

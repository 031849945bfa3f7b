-- ===== src/Chat/Message.antt =====
-- A message of a client, from the packet to what the server sends.
use gologincase.Common.{
  ℕ, ◌%◌, ◌^◌, ◌≤◌, ◌<◌, ◌≡◌, refl, ap, ◌∙◌, Bool, true, false, [], ◌∷◌, ◌++◌, none, some, Buffer,
  Table, find, values, All, arith, if◌then◌else◌, codes, is_some,
}
use gologincase.Packet.{cmd_of}
use gologincase.Messages.Json.{Json, JsonLaws, to, from, all_valid}
use gologincase.Messages.RoundTrip.{Fits, to_exact, from-to, server_msg_response-IsLawful}
use gologincase.Messages.Commands as Cmd
use gologincase.Messages.Client
use gologincase.Messages.Client.{client_msg_request_message}
use gologincase.Messages.Server
use gologincase.Messages.Server.{server_msg_response_message}
use gologincase.Provider.{Cookies, accepted, get_clients}
use gologincase.Provider.Invariant.{Inv}
use gologincase.Provider.History.{accepted-is_some, get_clients-accepted}
use gologincase.Dispatcher.{Handler, wrap_request, pack_response}
use gologincase.Tcp.Server.{packet_handler}
use gologincase.Tcp.Server.Replies.{socket_of, packet_to, response_lost, response_sent, outcome}
use gologincase.Chat.{World, ok, failed, assign_number, broadcast, client_message_packet_handler}
use gologincase.Chat.Commands.{Serves, served_request}
use gologincase.Chat.Broadcast.{deliveries, broadcast-Packable, entries-Packable}

module _ (j : Json) where
  -- What the server has sent after a message: one packet to each registered client that is in its
  -- list, if the sender is registered, and nothing otherwise.
  unfoldable pub said : World → Client.MsgRequest → World
  said s request =
      if is_some (find request.id s.app.provider.clients)
      then record s {
        trace = s.trace ++ deliveries j s (values s.app.provider.clients) request.body;
      }
      else s

-- The answer to a message.
unfoldable pub answer : World → Client.MsgRequest → Server.MsgResponse
answer s request =
    if is_some (find request.id s.app.provider.clients)
    then record {
      id = request.id;
      command = Cmd.msg_reply;
      status = ok;
      client_id = request.id % 256 ∷ [];
      message = [];
    }
    else record {
      id = request.id;
      command = Cmd.msg_reply;
      status = failed;
      client_id = request.id % 256 ∷ [];
      message = codes "client not registered";
    }

module _ (j : Json) (is_utf8 : Buffer → Bool) (laws : JsonLaws j is_utf8)
    (accepts : ℕ → Buffer → Bool) where
  module _ (s : World) (v : Inv s.app.provider)
      (login_utf8 : is_utf8 s.app.provider.client_login ≡ true) where
    broadcast-said :
        (request : Client.MsgRequest)
        → is_utf8 request.body ≡ true
        → broadcast j accepts (get_clients s.app.provider accepted) request.body s ≡ (
          record s {
            trace = s.trace ++ deliveries j s (values s.app.provider.clients) request.body;
          },
          false,
        )
    broadcast-said request b = rw (get_clients-accepted s.app.provider v) (
        broadcast-Packable j is_utf8 laws accepts (values s.app.provider.clients) request.body s (
          entries-Packable j is_utf8 laws s.app.provider.client_login s.app.provider.clients
            request.body v.entries login_utf8 b))

    -- The handler of messages, on a response that is new, with the provider's invariant and a login
    -- and a body that are valid UTF-8: it answers, it sends the message to the
    -- registered clients exactly if the sender is one of them, and it does not throw.
    pub client_message_packet_handler_lem :
        (cookies : Cookies) (request : Client.MsgRequest)
        → is_utf8 request.body ≡ true
        → client_message_packet_handler j accepts cookies request server_msg_response_message.blank
            s
          ≡ (answer s request, said j s request, false)
    unfolding client_message_packet_handler answer said assign_number
    client_message_packet_handler_lem cookies request b =
        rw (accepted-is_some s.app.provider request.id request.session v, broadcast-said request b)
          (ground arith)

    -- The texts of an answer are ASCII, but for the byte that stands for the number.
    answer-valid :
        (request : Client.MsgRequest)
        → all_valid is_utf8 (server_msg_response_message.members (answer s request))
          ≡ is_utf8 (request.id % 256 ∷ [])
    unfolding answer
    answer-valid request = ground (
      arith,
      laws.is_utf8_ascii Cmd.msg_reply refl,
      laws.is_utf8_ascii ok refl,
      laws.is_utf8_ascii failed refl,
      laws.is_utf8_ascii [] refl,
      laws.is_utf8_ascii (codes "client not registered") refl,
    )

    answer-Fits :
        (request : Client.MsgRequest)
        → request.id < 2 ^ 64
        → All Fits (server_msg_response_message.members (answer s request))
    unfolding answer
    answer-Fits request h = ground arith

    answer-command : (request : Client.MsgRequest) → (answer s request).command ≡ Cmd.msg_reply
    unfolding answer
    answer-command request = ground arith

    module _ (hash : Buffer → ℕ) (t : Table (Handler World))
        (serves : Serves hash t Cmd.msg
          (wrap_request j (client_message_packet_handler j accepts))) where
      outcome_packed :
          (cid : ℕ) (input : Buffer) (request : Client.MsgRequest)
          → from j input ≡ some request
          → is_utf8 request.body ≡ true
          → outcome hash t cid Cmd.msg input s
            ≡ pack_response j Cmd.msg [] (answer s request) (said j s request) false
      outcome_packed cid input request e b =
          rw (client_message_packet_handler_lem (record { server_client_id = cid }) request b) at (
            served_request j hash t (client_message_packet_handler j accepts) Cmd.msg cid input
              request s serves e
              (ap (λ (r : Server.MsgResponse × World × Bool). r.2)
                (client_message_packet_handler_lem (record { server_client_id = cid }) request b)))

      socket_of-said :
          (request : Client.MsgRequest) (object : ℕ)
          → socket_of (said j s request) object ≡ socket_of s object
      unfolding said socket_of
      socket_of-said request object = ground arith

      -- A message packet of a client, under the JSON library's laws, with a configured login and a
      -- body that are valid UTF-8 and a client number that fits 64 bits. The message goes to the
      -- registered clients exactly if the number is registered. If the lowest byte of the number is
      -- below 128, one answer follows to the sender's socket, and it is read back as the answer that
      -- the handler gives; if that byte is 128 or more, the sender gets no answer.
      pub message_packet :
          (cid : ℕ) (header input : Buffer) (object : ℕ) (request : Client.MsgRequest)
          → cmd_of header ≡ some Cmd.msg
          → from j input ≡ some request
          → is_utf8 request.body ≡ true
          → request.id < 2 ^ 64
          → let result = packet_handler accepts hash t cid header input object s in
            (128 ≤ request.id % 256 → result ≡ some (said j s request))
            × (request.id % 256 < 128
                → (b : Buffer) × (from j b ≡ some (answer s request))
                  × (result
                      ≡ some (record (said j s request) {
                        trace =
                            (said j s request).trace
                            ++ packet_to (socket_of s object) Cmd.msg_reply b;
                      })))
      message_packet cid header input object request h e body_utf8 fit = (lost, sent)
        where
          packs : is_utf8 (request.id % 256 ∷ []) ≡ false → to j (answer s request) ≡ none
          packs q =
              (to_exact j is_utf8 laws server_msg_response-IsLawful (answer s request)).1
                (answer-valid request ∙ q)

          lost :
              128 ≤ request.id % 256
              → packet_handler accepts hash t cid header input object s ≡ some (said j s request)
          lost stray =
              response_lost accepts hash t j cid header input object s Cmd.msg (answer s request)
                (said j s request) h (outcome_packed cid input request e body_utf8)
                (packs (laws.is_utf8_stray _ stray))

          sent :
              request.id % 256 < 128
              → (b : Buffer) × (from j b ≡ some (answer s request))
                × (packet_handler accepts hash t cid header input object s
                    ≡ some (record (said j s request) {
                      trace =
                          (said j s request).trace
                          ++ packet_to (socket_of s object) Cmd.msg_reply b;
                    }))
          sent ascii =
              let (b, packed, ne) =
                (to_exact j is_utf8 laws server_msg_response-IsLawful (answer s request)).0
                  (answer-valid request ∙ laws.is_utf8_ascii _ (ground arith)) in
              (
                b,
                from-to j is_utf8 laws server_msg_response-IsLawful (answer s request) b
                    (answer-Fits request fit) packed,
                rw (socket_of-said request object, answer-command request) at
                    (response_sent accepts hash t j cid header input object s Cmd.msg
                      (answer s request) (said j s request) b h
                      (outcome_packed cid input request e body_utf8) packed ne
                      (rw (answer-command request) (omega arith))),
              )

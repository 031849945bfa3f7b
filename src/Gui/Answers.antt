-- ===== src/Gui/Answers.antt =====
-- The answers of the server to greetings, pings and logouts, as the client takes them.
use gologincase.Common.{
  ℕ, ◌^◌, ◌<◌, ◌≡◌, ◌≢◌, refl, Bool, false, [], ◌∷◌, ◌++◌, Option, some, Buffer, Table, arith,
  codes, length,
}
use gologincase.Packet.{cmd_of}
use gologincase.Packet.Header.{NoNul}
use gologincase.Packet.Stream.{stream}
use gologincase.Messages.Json.{Json, JsonLaws, to, from}
use gologincase.Messages.RoundTrip.{
  from-to, from-to_ping, server_hello_response-IsLawful, server_bye_response-IsLawful,
  server_auth_response-IsLawful,
}
use gologincase.Messages.Commands as Cmd
use gologincase.Messages.Client
use gologincase.Messages.Client.{
  client_hello_request_message, client_ping_request_message, client_bye_request_message,
}
use gologincase.Messages.Server.{
  server_hello_response_message, server_auth_response_message, server_bye_response_message,
  server_ping_response_message,
}
use gologincase.Provider.Invariant.{Inv}
use gologincase.Dispatcher.{Handler, wrap_request}
use gologincase.Tcp.Client.{thread_loop}
use gologincase.Tcp.Client.Stream.{rounds_of}
use gologincase.Tcp.Server.{packet_handler}
use gologincase.Tcp.Server.Replies.{socket_of, packet_to}
use gologincase.Chat.{
  World, ok, failed, client_hello_packet_handler, client_ping_packet_handler,
  client_logout_packet_handler,
}
use gologincase.Chat.Commands.{Serves}
use gologincase.Chat.Answers as Answers
use gologincase.Chat.Answers.{
  left, status_of, answer_packet, socket_of-left, hello_run, ping_run, logout_run,
}
use gologincase.Gui.{App, create_dispatcher}
use gologincase.Gui.Replies.{
  Reply, greeted, logged_out, pinged, command, perform, NoCollision, Reads, thread_loop-replies,
}

-- A request that the server answers from its table of clients alone.
pub data Question : Type 0 where
  greets : Client.HelloRequest → Question
  pings : Client.PingRequest → Question
  leaves : Client.ByeRequest → Question

abbrev pub asked : Question → Buffer
asked (greets q) = Cmd.hello
asked (pings q) = Cmd.ping
asked (leaves q) = Cmd.bye

abbrev pub number : Question → ℕ
number (greets q) = q.id
number (pings q) = q.id
number (leaves q) = q.id

-- A text is read as a question.
abbrev pub Asks : Json → Question → Buffer → Type 0
Asks j (greets q) b = from j b ≡ some q
Asks j (pings q) b = from j b ≡ some q
Asks j (leaves q) b = from j b ≡ some q

-- The reply, which tells whether the number is registered, and the state after it.
abbrev pub reply : Question → World → Reply
reply (greets q) s = greeted (Answers.greeted q)
reply (pings q) s =
    let a = Answers.pinged s q in
    pinged (record { id = a.id; command = a.command; status = a.status; message = a.message })
reply (leaves q) s = logged_out (Answers.logged_out s q)

abbrev pub after : Question → World → World
after (leaves q) s = left q.id s
after _ s = s

-- The body of the answer.
abbrev pub answer_text : Json → Question → World → Option Buffer
answer_text j (greets q) s = to j (Answers.greeted q)
answer_text j (pings q) s = to j (Answers.pinged s q)
answer_text j (leaves q) s = to j (Answers.logged_out s q)

-- The dispatcher of the server serves questions by their handlers.
abbrev pub ServesAll : Json → (Buffer → ℕ) → Table (Handler World) → Type 0
ServesAll j hash t =
    Serves hash t Cmd.hello (wrap_request j client_hello_packet_handler)
    × Serves hash t Cmd.ping (wrap_request j client_ping_packet_handler)
    × Serves hash t Cmd.bye (wrap_request j client_logout_packet_handler)

command-short : (q : Question) (s : World) → length (command (reply q s)) < 16
command-short (greets q) s = omega arith
command-short (pings q) s = omega arith
command-short (leaves q) s = omega arith

command-NoNul : (q : Question) (s : World) → NoNul (command (reply q s))
command-NoNul (greets q) s = ground arith
command-NoNul (pings q) s = ground arith
command-NoNul (leaves q) s = ground arith

module _ (j : Json) (is_utf8 : Buffer → Bool) (laws : JsonLaws j is_utf8)
    (accepts : ℕ → Buffer → Bool) (hash : Buffer → ℕ) (t : Table (Handler World))
    (serves : ServesAll j hash t) (s : World) (v : Inv s.app.provider) where
  -- The packet that answers a question.
  abbrev Answered : ℕ → Buffer → Buffer → ℕ → Question → Buffer → Type 0
  Answered cid header input object q b =
      (answer_text j q s ≡ some b)
      × Reads j (reply q s, b)
      × (b ≢ [])
      × (packet_handler accepts hash t cid header input object s
          ≡ some (record (after q s) {
            trace = s.trace ++ packet_to (socket_of s object) (command (reply q s)) b;
          }))

  question-Answered :
      (cid : ℕ) (header input : Buffer) (object : ℕ) (q : Question)
      → cmd_of header ≡ some (asked q)
      → Asks j q input
      → number q < 2 ^ 64
      → (b : Buffer) × Answered cid header input object q b
  question-Answered cid header input object (greets q) h e fit =
      let (b, packed, ne, sent) =
        answer_packet j is_utf8 laws accepts hash t client_hello_packet_handler Cmd.hello cid header
          input object q _ s s server_hello_response-IsLawful serves.0 h e
          (hello_run s (record { server_client_id = cid }) q)
          (ground (
            arith,
            laws.is_utf8_ascii Cmd.hello refl,
            laws.is_utf8_ascii (codes "plain-text") refl,
          ))
          (omega arith) refl refl in
      (
        b,
        (
          packed,
          from-to j is_utf8 laws server_hello_response-IsLawful _ b (fit, (tt, (tt, tt))) packed,
          ne,
          sent,
        ),
      )
  question-Answered cid header input object (pings q) h e fit =
      let (b, packed, ne, sent) =
        answer_packet j is_utf8 laws accepts hash t client_ping_packet_handler Cmd.ping cid header
          input object q _ s s server_auth_response-IsLawful serves.1 h e
          (ping_run s (record { server_client_id = cid }) q v)
          (ground (
            arith,
            laws.is_utf8_ascii Cmd.ping_reply refl,
            laws.is_utf8_ascii ok refl,
            laws.is_utf8_ascii failed refl,
            laws.is_utf8_ascii [] refl,
            laws.is_utf8_ascii (codes "client not registred") refl,
          ))
          (omega arith) refl refl in
      (b, (packed, from-to_ping j is_utf8 laws _ b fit packed, ne, sent))
  question-Answered cid header input object (leaves q) h e fit =
      let (b, packed, ne, sent) =
        answer_packet j is_utf8 laws accepts hash t client_logout_packet_handler Cmd.bye cid header
          input object q _ s (left q.id s) server_bye_response-IsLawful serves.2 h e
          (logout_run s (record { server_client_id = cid }) q)
          (ground (
            arith,
            laws.is_utf8_ascii Cmd.bye_reply refl,
            laws.is_utf8_ascii ok refl,
            laws.is_utf8_ascii failed refl,
          ))
          (omega arith) refl (socket_of-left q.id s object) in
      (
        b,
        (
          packed,
          from-to j is_utf8 laws server_bye_response-IsLawful _ b (fit, (tt, (tt, tt))) packed,
          ne,
          sent,
        ),
      )

  module _ (apart : NoCollision hash) (u : Table (Handler App))
      (made : create_dispatcher j hash ≡ some u) where
    -- Under the JSON library's laws, with a provider that has its invariant, a server that serves
    -- greetings, pings and logouts by their handlers, and commands of the client of different hashes: a
    -- packet with one of these requests, whose number fits 64 bits and whose answer has a body of fewer
    -- than 2 ^ 32 bytes, is answered by one packet to the socket of its sender. A greeting is answered by the method of authentication, and a ping and a
    -- logout by `ok` exactly if the number is registered, whatever the session. A logout leaves the
    -- provider as `rem_client` of the number does, and nothing else changes. The thread of a connected
    -- client that reads the packet of the answer in full runs the client's handler of it.
    pub question_answered :
        (cid : ℕ) (header input : Buffer) (object : ℕ) (q : Question) (socket : ℕ) (place : Buffer)
        (d : App)
        → cmd_of header ≡ some (asked q)
        → Asks j q input
        → number q < 2 ^ 64
        → length place ≡ 32
        → ((b : Buffer) → answer_text j q s ≡ some b → length b < 2 ^ 32)
        → (b : Buffer) × (packet_handler accepts hash t cid header input object s
            ≡ some (record (after q s) {
              trace = s.trace ++ packet_to (socket_of s object) (command (reply q s)) b;
            }))
          × (thread_loop hash u socket
                (rounds_of (place ∷ []) (stream ((command (reply q s), b) ∷ [])))
                d
              ≡ some (perform (record { server_client_id = socket }) (reply q s) d, false))
    question_answered cid header input object q socket place d h e fit room short =
        let (b, (packed, reads, ne, sent)) = question-Answered cid header input object q h e fit in
        (
          b,
          sent,
          thread_loop-replies j hash apart u made socket ((reply q s, b) ∷ []) (place ∷ []) d
              (reads, tt) ((ne, short b packed, command-short q s, command-NoNul q s), tt)
              (room, tt) (omega arith),
        )

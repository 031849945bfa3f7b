-- ===== src/Chat/Answers.antt =====
-- The answers of the server to greetings, pings and logouts, from the packet to the packet.
use gologincase.Common.{
  ℕ, ◌<◌, ◌≡◌, ◌≢◌, refl, ap, ◌∙◌, Bool, true, false, [], ◌++◌, some, Buffer, Table, find, is_some,
  arith, codes, length, if◌then◌else◌,
}
use gologincase.Packet.{cmd_of}
use gologincase.Messages.Json.{Json, JsonLaws, Message, to, from, all_valid}
use gologincase.Messages.RoundTrip.{IsLawful, to_exact}
use gologincase.Messages.Commands as Cmd
use gologincase.Messages.Client
use gologincase.Messages.Client.{
  client_hello_request_message, client_ping_request_message, client_bye_request_message,
}
use gologincase.Messages.Server
use gologincase.Messages.Server.{
  server_hello_response_message, server_auth_response_message, server_bye_response_message,
  server_ping_response_message,
}
use gologincase.Provider.{Cookies, rem_client}
use gologincase.Provider.Invariant.{Inv}
use gologincase.Provider.History.{accepted-is_some}
use gologincase.Dispatcher.{Handler, wrap_request, pack_response}
use gologincase.Tcp.Server.{packet_handler}
use gologincase.Tcp.Server.Replies.{socket_of, packet_to, response_sent}
use gologincase.Chat.{
  World, ok, failed, client_hello_packet_handler, client_ping_packet_handler,
  client_logout_packet_handler,
}
use gologincase.Chat.Commands.{Serves, served_request}

-- The state after a logout.
abbrev pub left : ℕ → World → World
left id s = record s { app = record s.app { provider = (rem_client s.app.provider id []).1 } }

-- The status of an answer.
abbrev pub status_of : Bool → Buffer
status_of good = if good then ok else failed

abbrev pub greeted : Client.HelloRequest → Server.HelloResponse
greeted q = record { id = q.id; command = Cmd.hello; auth_method = codes "plain-text" }

module _ (s : World) where
  -- What the handlers do: the answer, and the state after it.
  pub hello_run :
      (cookies : Cookies) (q : Client.HelloRequest)
      → client_hello_packet_handler cookies q server_hello_response_message.blank s
        ≡ (greeted q, s, false)
  unfolding client_hello_packet_handler
  hello_run cookies q = refl

  -- The answer to a ping, of the type that it is sent with and of the type that it is read with.
  abbrev pub pinged : Client.PingRequest → Server.AuthResponse
  pinged q =
      let on = is_some (find q.id s.app.provider.clients) in
      record {
        id = q.id;
        command = Cmd.ping_reply;
        status = status_of on;
        session = [];
        message = if on then [] else codes "client not registred";
      }

  pub ping_run :
      (cookies : Cookies) (q : Client.PingRequest)
      → Inv s.app.provider
      → client_ping_packet_handler cookies q server_auth_response_message.blank s
        ≡ (pinged q, s, false)
  unfolding client_ping_packet_handler
  ping_run cookies q v = rw (accepted-is_some s.app.provider q.id q.session v) (ground arith)

  abbrev pub logged_out : Client.ByeRequest → Server.ByeResponse
  logged_out q = record {
    id = q.id;
    command = Cmd.bye_reply;
    status = status_of (is_some (find q.id s.app.provider.clients));
  }

  pub logout_run :
      (cookies : Cookies) (q : Client.ByeRequest)
      → client_logout_packet_handler cookies q server_bye_response_message.blank s
        ≡ (logged_out q, left q.id s, false)
  unfolding client_logout_packet_handler rem_client
  logout_run cookies q = ground arith

-- A logout moves no connection.
pub socket_of-left :
    (id : ℕ) (s : World) (object : ℕ) → socket_of (left id s) object ≡ socket_of s object
unfolding socket_of
socket_of-left id s object = refl

module _ (j : Json) (is_utf8 : Buffer → Bool) (laws : JsonLaws j is_utf8)
    (accepts : ℕ → Buffer → Bool) (hash : Buffer → ℕ) (t : Table (Handler World)) where
  -- A request whose handler sends nothing and answers with a valid response is answered by one packet.
  pub answer_packet :
      {Req Resp : Type 0} ⦃q : Message Req⦄ ⦃r : Message Resp⦄
      (f : Cookies → Req → Resp → World → Resp × World × Bool) (cmd : Buffer) (cid : ℕ)
      (header input : Buffer) (object : ℕ) (req : Req) (resp : Resp) (s next : World)
      → IsLawful Resp
      → Serves hash t cmd (wrap_request j f)
      → cmd_of header ≡ some cmd
      → from j input ≡ some req
      → f (record { server_client_id = cid }) req r.blank s ≡ (resp, next, false)
      → all_valid is_utf8 (r.members resp) ≡ true
      → length (r.command resp) < 16
      → next.trace ≡ s.trace
      → socket_of next object ≡ socket_of s object
      → (b : Buffer) × (to j resp ≡ some b)
        × (b ≢ [])
        × (packet_handler accepts hash t cid header input object s
            ≡ some (record next {
              trace = s.trace ++ packet_to (socket_of s object) (r.command resp) b;
            }))
  answer_packet {Resp} ⦃r = r⦄ f cmd cid header input object req resp s next lawful serves h e run
        valid short quiet there =
      let (b, packed, ne) = (to_exact j is_utf8 laws lawful resp).0 valid in
      (
        b,
        packed,
        ne,
        response_sent accepts hash t j cid header input object s cmd resp next b h
              (served_request j hash t f cmd cid input req s serves e (ap (λ x. x.2) run)
                ∙ ap (λ (x : Resp × World × Bool). pack_response j cmd [] x.0 x.1 false) run)
              packed ne short
            ∙ ap (λ trace. some (record next { trace = trace }))
                (ap (λ trace. trace ++ packet_to (socket_of next object) (r.command resp) b) quiet
                  ∙ ap (λ k. s.trace ++ packet_to k (r.command resp) b) there),
      )
